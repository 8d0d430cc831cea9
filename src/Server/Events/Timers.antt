-- ===== src/Server/Events/Timers.antt =====
-- server/index.ts: a timer or the end of a connection changes the state by moves alone.
use p2p_transfer.Base.{
  ℕ, refl, true, false, not, ◌&&◌, ◌||◌, none, List, [], ◌∷◌, Map, Text, if◌then◌else◌, lookup,
  nat_eq, text_eq, ltb, leb,
}
use p2p_transfer.Shared.Messages.{ErrorCode, LeftReason}
use p2p_transfer.Shared.Limits.{contains}
use p2p_transfer.Server.Policy.{session_before_pair_acceptance}
use p2p_transfer.Server.State.{
  terminated, pinged, Env, WaitingCode, Session, Server, with_peer, maybe, push_call, is_closed,
}
use p2p_transfer.Server.Sockets.{peer_is_open}
use p2p_transfer.Server.Cleanup.{cleanup_peer}
use p2p_transfer.Server.Cleanup.Moves.{
  on_peer, on_limits, Moves, stay, then_move, Moves-trans, one, if-Moves, maybe-Moves,
}
use p2p_transfer.Server.Cleanup.Moves.Sockets.{
  clear_peer_session_state-Moves, release_active_connection-Moves, close_peer_and_release-Moves,
  close_peer_with_code_and_release-Moves,
}
use p2p_transfer.Server.Cleanup.Moves.Ends.{
  cleanup_peer-Moves, delete_code-Moves, delete_session-Moves, close_session_peers-Moves,
  notify_peer_left-Moves,
}
use p2p_transfer.Server.Pairing.{is_some}
use p2p_transfer.Server.Events.{
  on_close, on_error, on_idle_timer, on_close_timer, drop_dead_peer, heartbeat_peer,
  expire_code_entry, expire_session, expire_codes, expire_sessions, prune_limits, on_expiry_timer,
  heartbeat_peers,
}
use p2p_transfer.Server.Events.Handlers.{fail_to-Moves, restore-Moves}

module _ (env : Env) where
  pub on_close-Moves : (s : Server) (q : ℕ) → Moves s (on_close env s q)
  unfolding on_close
  on_close-Moves s q =
      Moves-trans (release_active_connection-Moves s q false)
        (cleanup_peer-Moves env _ q LeftReason.closed)

  pub on_error-Moves : (s : Server) (q : ℕ) → Moves s (on_error env s q)
  unfolding on_error
  on_error-Moves s q =
      Moves-trans (cleanup_peer-Moves env s q LeftReason.closed)
        (release_active_connection-Moves _ q false)

  pub on_idle_timer-Moves : (s : Server) (q : ℕ) → Moves s (on_idle_timer env s q)
  unfolding on_idle_timer
  on_idle_timer-Moves s q =
      let p = s.peers q in
      if-Moves (is_some p.role || is_some p.sid || is_some p.code) (λ _. stay)
        (λ _. close_peer_with_code_and_release-Moves env s q 1008)

  pub on_close_timer-Moves : (s : Server) (q : ℕ) → Moves s (on_close_timer env s q)
  unfolding on_close_timer
  on_close_timer-Moves s q =
      let fired : Server = with_peer s q (λ p. record p { close_timer = false }) in
      let fired-Moves : Moves s fired =
        one (on_peer q (λ p. record p { close_timer = false }) (λ p. refl)) in
      if-Moves (is_closed (env.ready_state q (fired.peers q).calls)) (λ _. fired-Moves)
        (λ _. then_move fired-Moves (on_peer q (push_call terminated) (λ p. refl)))

  drop_dead_peer-Moves : (s : Server) (q : ℕ) → Moves s (drop_dead_peer env s q)
  unfolding drop_dead_peer
  drop_dead_peer-Moves s q =
      then_move
        (Moves-trans (cleanup_peer-Moves env s q LeftReason.closed)
          (release_active_connection-Moves _ q false))
        (on_peer q (push_call terminated) (λ p. refl))

  heartbeat_peer-Moves : (s : Server) (q : ℕ) → Moves s (heartbeat_peer env s q)
  unfolding heartbeat_peer
  heartbeat_peer-Moves s q =
      let waiting : Server = with_peer s q (λ p. record p { awaiting_heartbeat_pong = true }) in
      let waiting-Moves : Moves s waiting =
        one (on_peer q (λ p. record p { awaiting_heartbeat_pong = true }) (λ p. refl)) in
      if-Moves (not (peer_is_open env s q)) (λ _. stay)
        (λ _.
          if-Moves (s.peers q).awaiting_heartbeat_pong (λ _. drop_dead_peer-Moves s q)
            (λ _.
              if-Moves (env.ping_throws q (s.peers q).calls)
                (λ _. Moves-trans waiting-Moves (drop_dead_peer-Moves waiting q))
                (λ _. then_move waiting-Moves (on_peer q (push_call pinged) (λ p. refl)))))

  pub heartbeat_peers-Moves : (s : Server) (qs : List ℕ) → Moves s (heartbeat_peers env s qs)
  unfolding heartbeat_peers
  heartbeat_peers-Moves s [] = stay
  heartbeat_peers-Moves s (q ∷ qs) =
      Moves-trans
        (if-Moves (contains q s.peers_by_socket) (λ _. heartbeat_peer-Moves s q) (λ _. stay))
        (heartbeat_peers-Moves (if contains q s.peers_by_socket then heartbeat_peer env s q else s)
          qs)

  expire_code_entry-Moves :
      (s : Server) (code : Text) (e : WaitingCode) → Moves s (expire_code_entry env s (code, e))
  unfolding expire_code_entry
  expire_code_entry-Moves s code e =
      if-Moves (leb e.expires_at env.now)
        (λ _.
          Moves-trans
            (Moves-trans
              (Moves-trans (fail_to-Moves env s e.receiver ErrorCode.expired)
                (clear_peer_session_state-Moves _ e.receiver))
              (close_peer_and_release-Moves env _ e.receiver))
            (delete_code-Moves _ code))
        (λ _. stay)

  expire_session-Moves :
      (s : Server) (sid : ℕ) (x : Session) → Moves s (expire_session env s (sid, x))
  unfolding expire_session
  expire_session-Moves s sid x =
      if-Moves (not (leb x.expires_at env.now)) (λ _. stay)
        (λ _.
          if-Moves
            (session_before_pair_acceptance x.relay
              && ltb env.now x.code_expires_at
              && peer_is_open env s x.receiver)
            (λ _. restore-Moves env s x LeftReason.closed true)
            (λ _.
              Moves-trans
                (Moves-trans
                  (notify_peer_left-Moves env (cleanup_peer env) (cleanup_peer-Moves env) s x none
                    LeftReason.closed)
                  (delete_session-Moves _ sid))
                (close_session_peers-Moves env (cleanup_peer env) _ x)))

  expire_codes-Moves : (s : Server) (m : Map Text WaitingCode) → Moves s (expire_codes env s m)
  unfolding expire_codes
  expire_codes-Moves s [] = stay
  expire_codes-Moves s ((code, e) ∷ rest) =
      Moves-trans
        (maybe-Moves (lookup code s.codes) (λ _. stay) (λ w _. expire_code_entry-Moves s code w))
        (expire_codes-Moves (maybe (lookup code s.codes) s (λ w. expire_code_entry env s (code, w)))
          rest)

  expire_sessions-Moves : (s : Server) (m : Map ℕ Session) → Moves s (expire_sessions env s m)
  unfolding expire_sessions
  expire_sessions-Moves s [] = stay
  expire_sessions-Moves s ((sid, x) ∷ rest) =
      Moves-trans
        (maybe-Moves (lookup sid s.sessions) (λ _. stay) (λ y _. expire_session-Moves s sid y))
        (expire_sessions-Moves
          (maybe (lookup sid s.sessions) s (λ y. expire_session env s (sid, y))) rest)

  pub on_expiry_timer-Moves : (s : Server) → Moves s (on_expiry_timer env s)
  unfolding on_expiry_timer prune_limits
  on_expiry_timer-Moves s =
      then_move (Moves-trans (expire_codes-Moves s s.codes) (expire_sessions-Moves _ _))
        (on_limits _ _)
