-- ===== src/Server/Events/Preservation.antt =====
-- Every handler of server/index.ts keeps the state well-formed.

use p2p_transfer.Base.{
  ℕ, suc, ◌≡◌, refl, sym, ◌≢◌, Bool, true, false, not, some, ◌∷◌, Text, arith, if◌then◌else◌,
  lookup, size, nat_eq, text_eq, size-insert-le, Every-insert, ◌==◌,
}
use p2p_transfer.Shared.Messages.{Role, ServerMessage, ErrorCode}
use p2p_transfer.Shared.Codes.{normalize_code, is_valid_rendezvous}
use p2p_transfer.Server.Policy.Traces.{fresh_relay, fresh_relay-IsOrdered}
use p2p_transfer.Server.Admission.{
  can_create_session, consume_pre_pair_attempt, can_restore_pre_pair_code,
  waiting_receiver_available,
}
use p2p_transfer.Server.State.{
  Call, sent, refused, Env, WaitingCode, Server, with_peer, maybe, push_call,
}
use p2p_transfer.Server.Sockets.{peer_is_open, signaling_backpressure_exceeded}
use p2p_transfer.Server.Cleanup.{cleanup_peer, send, delete_code, waits_for}
use p2p_transfer.Server.Cleanup.Moves.{Moves, stay, Moves-trans, if-Moves, maybe-Moves}
use p2p_transfer.Server.Cleanup.Moves.Ends.{cleanup_peer-Moves, delete_code-Moves, failure-Moves}
use p2p_transfer.Server.Cleanup.Termination.{IsBelow, Moves-IsBelow}
use p2p_transfer.Server.Pairing.{
  send_to, hit_rate_limit, checked_code, register, new_session, open_session, become_sender,
  connect_waiting, connect, signaling_max_sessions, protocol_version, is_some, has_role,
}
use p2p_transfer.Server.Events.Invariant.{
  IsSound, IsPaired, Moves-IsSound, if-IsSound, maybe-IsSound,
}
use p2p_transfer.Server.Events.Handlers.{
  fail_to-Moves, hit_rate_limit-Moves, bad_message-Moves, register_code-Moves,
  expire_and_miss-Moves, announce-Moves, become_sender-Moves,
}

IsBelow-next : (s : Server) → IsSound s → IsBelow (suc (size s.sessions)) s
IsBelow-next s v = record { keyed = λ sid x e. (v.paired sid x e).keyed; fewer = omega arith }

pair-IsSound :
    (x y : Server × Bool) (b : Bool) → IsSound x.0 → IsSound y.0 → IsSound (if b then x else y).0
pair-IsSound x y true h k = h
pair-IsSound x y false h k = k

pushed-IsSound : (s : Server) (q : ℕ) (c : Call) → IsSound s → IsSound (with_peer s q (push_call c))
unfolding with_peer
pushed-IsSound s q c v = record { waiting = v.waiting; paired = v.paired; within = v.within }

module _ (env : Env) where
  -- The common tests keep what the rest keeps.
  checked_code-IsSound :
      (s : Server) (q : ℕ) (other : Role) (code : Text) (version : ℕ)
      (next : Server → Text → Server)
      → ((t : Server) (normal : Text) → IsSound t → IsSound (next t normal))
      → IsSound s
      → IsSound (checked_code env s q other code version next)
  unfolding checked_code
  checked_code-IsSound s q other code version next h v =
      let r = hit_rate_limit env s q in
      let counted = Moves-IsSound (hit_rate_limit-Moves env s q) v in
      let failed = λ (c : ErrorCode). Moves-IsSound (fail_to-Moves env r.0 q c) counted in
      if-IsSound (not r.1) (λ _. counted)
        (λ _.
          if-IsSound (is_some (r.0.peers q).sid) (λ _. failed ErrorCode.bad_message)
            (λ _.
              if-IsSound (has_role other (r.0.peers q)) (λ _. failed ErrorCode.bad_message)
                (λ _.
                  if-IsSound (not (version == protocol_version))
                    (λ _. failed ErrorCode.bad_protocol)
                    (λ _.
                      if-IsSound (not (is_valid_rendezvous (normalize_code env.to_lower_case code)))
                        (λ _. failed ErrorCode.bad_message) (λ _. h _ _ counted)))))

  pub register-IsSound :
      (s : Server) (q : ℕ) (code : Text) (version : ℕ)
      → IsSound s
      → IsSound (register env s q code version)
  unfolding register
  register-IsSound s q code version =
      checked_code-IsSound s q Role.sender code version _
        (λ t normal. Moves-IsSound (register_code-Moves env t q normal))

  new_session-IsPaired :
      (sid q : ℕ) (code : Text) (w : WaitingCode) (n : ℕ)
      → w.receiver ≢ q
      → consume_pre_pair_attempt w.remaining_pre_pair_attempts ≡ some n
      → IsPaired sid (new_session env sid q code w n)
  unfolding consume_pre_pair_attempt can_restore_pre_pair_code fresh_relay
  new_session-IsPaired sid q code w n other taken = record {
    keyed = refl;
    different = λ e. other (sym e);
    ordered = fresh_relay-IsOrdered sid q w.receiver;
    spent = ground arith;
  }

  open_session-IsSound :
      (s : Server) (q sid : ℕ) (code : Text) (w : WaitingCode) (n : ℕ)
      → w.receiver ≢ q
      → consume_pre_pair_attempt w.remaining_pre_pair_attempts ≡ some n
      → can_create_session (size s.sessions) signaling_max_sessions ≡ true
      → IsSound s
      → IsSound (open_session env s q sid code w n)
  unfolding open_session can_create_session
  open_session-IsSound s q sid code w n other taken room v =
      let gone = delete_code s code in
      let owned : Bool = maybe (gone.peers q).code false (λ old. waits_for gone old q) in
      let freed : Server =
        if owned then maybe (gone.peers q).code gone (λ old. delete_code gone old) else gone in
      let freed-Moves : Moves gone freed =
        if-Moves owned
          (λ _. maybe-Moves (gone.peers q).code (λ _. stay) (λ old _. delete_code-Moves gone old))
          (λ _. stay) in
      let paired = become_sender env freed q sid code w.receiver in
      let paired-Moves : Moves s paired =
        Moves-trans (Moves-trans (delete_code-Moves s code) freed-Moves)
          (become_sender-Moves env freed q sid code w.receiver) in
      let u = Moves-IsSound paired-Moves v in
      let fewer = (Moves-IsBelow paired-Moves (IsBelow-next s v)).fewer in
      record {
        waiting = u.waiting;
        paired =
            Every-insert IsPaired sid _ paired.sessions
              (new_session-IsPaired sid q code w n other taken) u.paired;
        within = ground (
          arith,
          size-insert-le sid (new_session env sid q code w n) paired.sessions,
          fewer,
          room,
        );
      }

  connect_waiting-IsSound :
      (s : Server) (q sid : ℕ) (code : Text) (w : WaitingCode)
      → IsSound s
      → IsSound (connect_waiting env s q sid code w)
  unfolding connect_waiting
  connect_waiting-IsSound s q sid code w v =
      let missed = Moves-IsSound (expire_and_miss-Moves env s q code w) v in
      if-IsSound
        (not (waiting_receiver_available w.expires_at env.now (peer_is_open env s w.receiver)))
        (λ _. missed)
        (λ _.
          if-IsSound (not (can_restore_pre_pair_code w.remaining_pre_pair_attempts)) (λ _. missed)
            (λ _.
              if-IsSound (w.receiver == q) (λ _. Moves-IsSound (bad_message-Moves env s q) v)
                (λ other.
                  if-IsSound (not (can_create_session (size s.sessions) signaling_max_sessions))
                    (λ _. Moves-IsSound (fail_to-Moves env s q ErrorCode.rate_limited) v)
                    (λ room.
                      maybe-IsSound (consume_pre_pair_attempt w.remaining_pre_pair_attempts)
                        (λ _. v)
                        (λ n taken. Moves-IsSound (announce-Moves env _ q _) (
                          open_session-IsSound s q sid code w n (ground arith) taken (ground arith)
                            v))))))

  pub connect-IsSound :
      (s : Server) (q sid : ℕ) (code : Text) (version : ℕ)
      → IsSound s
      → IsSound (connect env s q sid code version)
  unfolding connect
  connect-IsSound s q sid code version =
      checked_code-IsSound s q Role.receiver code version _ (λ t normal v.
        maybe-IsSound (lookup normal t.codes)
          (λ _. Moves-IsSound (fail_to-Moves env t q ErrorCode.code_not_found) v)
          (λ w _. connect_waiting-IsSound t q sid normal w v))

  -- Also a send of a client's message.
  pub send_any-IsSound :
      (s : Server) (q : ℕ) (m : ServerMessage) → IsSound s → IsSound (send_to env s q m).0
  unfolding send_to send
  send_any-IsSound s q m v =
      let calls = (s.peers q).calls in
      let clean = cleanup_peer-Moves env in
      pair-IsSound _ _ (not (peer_is_open env s q)) v (
        pair-IsSound _ _ (signaling_backpressure_exceeded env q calls)
          (Moves-IsSound (failure-Moves env (cleanup_peer env) clean s q) v)
          (pair-IsSound _ _ (env.send_throws q calls m)
            (Moves-IsSound (failure-Moves env (cleanup_peer env) clean _ q)
              (pushed-IsSound s q (refused m) v))
            (pair-IsSound _ _ (signaling_backpressure_exceeded env q (sent m ∷ calls))
              (Moves-IsSound (failure-Moves env (cleanup_peer env) clean _ q)
                (pushed-IsSound s q (sent m) v))
              (pushed-IsSound s q (sent m) v))))
