-- ===== src/Server/Events/Reachable.antt =====
-- server/index.ts as a whole: the states that any sequence of events can reach.
use p2p_transfer.Base.{
  ℕ, ◌≡◌, refl, false, not, ◌&&◌, Option, none, some, [], ◌∷◌, ◌++◌, nat, arith, if◌then◌else◌,
  lookup, nat_eq, text_eq, ltb,
}
use p2p_transfer.Shared.Messages.{
  ClientMessage, register, connect, pake, confirm, pair_request, pair_accept, pair_reject, signal,
  bye, ByeReason, ErrorCode, LeftReason,
}
use p2p_transfer.Server.RateLimit.{record_fixed_window_hit, minute}
use p2p_transfer.Server.State.{Env, Server, with_peer, maybe}
use p2p_transfer.Server.Sockets.{add_active_connection, peer_accepts_client_messages}
use p2p_transfer.Server.Cleanup.{cleanup_peer, cleanup_step}
use p2p_transfer.Server.Cleanup.Moves.{on_peer, Moves, stay, Moves-trans, one, if-Moves}
use p2p_transfer.Server.Cleanup.Moves.Sockets.{
  close_peer_and_release-Moves, close_peer_with_code_and_release-Moves,
}
use p2p_transfer.Server.Cleanup.Moves.Ends.{cleanup_peer-Moves, pair-Moves}
use p2p_transfer.Server.Cleanup.Termination.{cleanup_peer-step}
use p2p_transfer.Server.Pairing.{retry_receiver}
use p2p_transfer.Server.Events.{
  say_bye, handle_message, hit_message_limit, on_frame, on_connection, on_close, on_error, on_pong,
  on_idle_timer, on_close_timer, on_expiry_timer, on_heartbeat, initial_server, blank_peer,
  peer_visible_bye_reason, is_retry, signaling_max_messages_per_minute,
  signaling_max_connections_per_ip,
}
use p2p_transfer.Server.Events.Timers.{
  on_close-Moves, on_error-Moves, on_idle_timer-Moves, on_close_timer-Moves, heartbeat_peers-Moves,
  on_expiry_timer-Moves,
}
use p2p_transfer.Server.Events.Invariant.{IsSound, Moves-IsSound, maybe-IsSound, if-IsSound}
use p2p_transfer.Server.Events.Handlers.{fail_to-Moves, bad_message-Moves, retry_receiver-Moves}
use p2p_transfer.Server.Events.Preservation.{register-IsSound, connect-IsSound}
use p2p_transfer.Server.Events.Relays.{relay-IsSound}

module _ (env : Env) where
  say_bye-Moves :
      (s : Server) (q : ℕ) (reason : Option ByeReason) → Moves s (say_bye env s q reason)
  unfolding say_bye
  say_bye-Moves s q reason =
      let retried = retry_receiver env s q in
      let tried : Server = if is_retry reason then retried.0 else s in
      let tried-Moves : Moves s tried =
        if-Moves (is_retry reason) (λ _. retry_receiver-Moves env s q) (λ _. stay) in
      if-Moves (is_retry reason && retried.1) (λ _. retry_receiver-Moves env s q)
        (λ _.
          Moves-trans
            (Moves-trans tried-Moves
              (cleanup_peer-Moves env tried q (peer_visible_bye_reason reason)))
            (close_peer_and_release-Moves env _ q))

  -- Every client message keeps the state well-formed.
  pub handle_message-IsSound :
      (s : Server) (q fresh : ℕ) (m : ClientMessage)
      → IsSound s
      → IsSound (handle_message env s q fresh m)
  unfolding handle_message
  handle_message-IsSound s q fresh (register code version) v =
      register-IsSound env s q code version v
  handle_message-IsSound s q fresh (connect code version) v =
      connect-IsSound env s q fresh code version v
  handle_message-IsSound s q fresh (pake sid share) v = relay-IsSound env s q sid _ v
  handle_message-IsSound s q fresh (confirm sid tag) v = relay-IsSound env s q sid _ v
  handle_message-IsSound s q fresh (pair_request sid manifest sealed) v =
      relay-IsSound env s q sid _ v
  handle_message-IsSound s q fresh (pair_accept sid auth) v = relay-IsSound env s q sid _ v
  handle_message-IsSound s q fresh (pair_reject sid auth) v = relay-IsSound env s q sid _ v
  handle_message-IsSound s q fresh (signal sid kind sealed) v = relay-IsSound env s q sid _ v
  handle_message-IsSound s q fresh (bye sid reason) v = Moves-IsSound (say_bye-Moves s q reason) v

  hit_message_limit-Moves : (s : Server) (q : ℕ) → Moves s (hit_message_limit env s q).0
  unfolding hit_message_limit
  hit_message_limit-Moves s q =
      let result =
        record_fixed_window_hit (s.peers q).message_times (nat env.now) (nat minute)
          (nat signaling_max_messages_per_minute) in
      let counted : Server = with_peer s q (λ p. record p { message_times = result.hits }) in
      let counted-Moves : Moves s counted =
        one (on_peer q (λ p. record p { message_times = result.hits }) (λ p. refl)) in
      pair-Moves _ _ result.allowed (λ _. counted-Moves)
        (λ _.
          Moves-trans
            (Moves-trans counted-Moves (fail_to-Moves env counted q ErrorCode.rate_limited))
            (close_peer_with_code_and_release-Moves env _ q 1008))

  on_frame-IsSound :
      (s : Server) (q fresh : ℕ) (frame : Option ClientMessage)
      → IsSound s
      → IsSound (on_frame env s q fresh frame)
  unfolding on_frame
  on_frame-IsSound s q fresh frame v =
      let r = hit_message_limit env s q in
      let counted = Moves-IsSound (hit_message_limit-Moves s q) v in
      if-IsSound (not (peer_accepts_client_messages env s q)) (λ _. v)
        (λ _.
          if-IsSound (not r.1) (λ _. counted)
            (λ _.
              maybe-IsSound frame (λ _. Moves-IsSound (bad_message-Moves env r.0 q) counted)
                (λ m _. handle_message-IsSound r.0 q fresh m counted)))

  on_connection-IsSound : (s : Server) (q ip : ℕ) → IsSound s → IsSound (on_connection env s q ip)
  unfolding on_connection add_active_connection with_peer
  on_connection-IsSound s q ip v =
      let fresh : Server = record (with_peer s q (λ _. blank_peer q ip)) {
        peers_by_socket = s.peers_by_socket ++ q ∷ [];
      } in
      let counted : Server = add_active_connection fresh q in
      let counted-IsSound : IsSound counted = record {
        waiting = v.waiting;
        paired = v.paired;
        within = v.within;
      } in
      if-IsSound
        (ltb signaling_max_connections_per_ip
          (maybe (lookup ip counted.active_connections) 0 (λ n. n)))
        (λ _.
          Moves-IsSound
            (Moves-trans (fail_to-Moves env counted q ErrorCode.rate_limited)
              (close_peer_with_code_and_release-Moves env _ q 1008))
            counted-IsSound)
        (λ _. record { waiting = v.waiting; paired = v.paired; within = v.within })

-- One event of the server, in any environment: the clock, the socket states and the identifiers
-- that it brings are arbitrary.
pub data Step : Server → Server → Type 0 where
  connection : (env : Env) {s : Server} (q ip : ℕ) → Step s (on_connection env s q ip)
  frame :
      (env : Env) {s : Server} (q fresh : ℕ) (m : Option ClientMessage)
      → Step s (on_frame env s q fresh m)
  pong : (env : Env) {s : Server} (q : ℕ) → Step s (on_pong env s q)
  closed : (env : Env) {s : Server} (q : ℕ) → Step s (on_close env s q)
  failed : (env : Env) {s : Server} (q : ℕ) → Step s (on_error env s q)
  idle : (env : Env) {s : Server} (q : ℕ) → Step s (on_idle_timer env s q)
  close_due : (env : Env) {s : Server} (q : ℕ) → Step s (on_close_timer env s q)
  expiry : (env : Env) {s : Server} → Step s (on_expiry_timer env s)
  heartbeat : (env : Env) {s : Server} → Step s (on_heartbeat env s)

-- The states after some sequence of events.
pub data IsReachable : Server → Type 0 where
  initial : IsReachable initial_server
  after : {s t : Server} → IsReachable s → Step s t → IsReachable t

Step-IsSound : {s t : Server} → Step s t → IsSound s → IsSound t
unfolding on_pong on_heartbeat
Step-IsSound {s} (connection env q ip) v = on_connection-IsSound env s q ip v
Step-IsSound {s} (frame env q fresh m) v = on_frame-IsSound env s q fresh m v
Step-IsSound {s} (pong env q) v =
    Moves-IsSound (one (on_peer q (λ p. record p { awaiting_heartbeat_pong = false }) (λ p. refl)))
      v
Step-IsSound {s} (closed env q) v = Moves-IsSound (on_close-Moves env s q) v
Step-IsSound {s} (failed env q) v = Moves-IsSound (on_error-Moves env s q) v
Step-IsSound {s} (idle env q) v = Moves-IsSound (on_idle_timer-Moves env s q) v
Step-IsSound {s} (close_due env q) v = Moves-IsSound (on_close_timer-Moves env s q) v
Step-IsSound {s} (expiry env) v = Moves-IsSound (on_expiry_timer-Moves env s) v
Step-IsSound {s} (heartbeat env) v = Moves-IsSound (heartbeat_peers-Moves env s s.peers_by_socket) v

absurd_entry {ℓ m} : {A : Type ℓ} {P : Type m} {a : A} → none ≡ some a → P
absurd_entry h = ground arith

-- After any sequence of connections, frames, pongs, timers, errors and closings, in any
-- environment, every waiting code stands under its own text and has an attempt left, every session
-- stands under its own identifier, joins two different peers, has its phases in order and has spent
-- an attempt, and there are at most 10000 sessions.
pub IsReachable-IsSound : (s : Server) → IsReachable s → IsSound s
unfolding initial_server lookup
IsReachable-IsSound s initial = record {
  waiting = λ code e h. absurd_entry h;
  paired = λ sid x h. absurd_entry h;
  within = omega arith;
}
IsReachable-IsSound t (after r step) = Step-IsSound step (IsReachable-IsSound _ r)

-- In a reachable state the cleanup of a peer does what its body says, with itself as the cleanup
-- that a failing send starts: the bound on that recursion is never used up.
pub cleanup_peer-reachable :
    (env : Env) (s : Server) (q : ℕ) (reason : LeftReason)
    → IsReachable s
    → cleanup_peer env s q reason ≡ cleanup_step env (cleanup_peer env) s q reason
cleanup_peer-reachable env s q reason r =
    cleanup_peer-step env s q reason (λ sid x e. ((IsReachable-IsSound s r).paired sid x e).keyed)
