-- ===== src/Server/Cleanup/Moves/Sockets.antt =====
-- The operations on one peer of server/index.ts are such changes.
use p2p_transfer.Base.{ℕ, refl, Bool, true, lookup, nat_eq, leb}
use p2p_transfer.Server.State.{Env, Server, maybe, is_closed}
use p2p_transfer.Server.Sockets.{
  clear_peer_session_state, clear_idle_timer, clear_close_timer, drop_connection,
  release_active_connection, close_peer_with_code, close_peer_and_release,
  close_peer_with_code_and_release,
}
use p2p_transfer.Server.Cleanup.Moves.{
  on_peer, on_connections, on_registry, Moves, stay, then_move, Moves-trans, one, if-Moves,
}

pub clear_peer_session_state-Moves : (s : Server) (q : ℕ) → Moves s (clear_peer_session_state s q)
unfolding clear_peer_session_state
clear_peer_session_state-Moves s q = one (on_peer q _ (λ p. refl))

pub clear_idle_timer-Moves : (s : Server) (q : ℕ) → Moves s (clear_idle_timer s q)
unfolding clear_idle_timer
clear_idle_timer-Moves s q = one (on_peer q _ (λ p. refl))

clear_close_timer-Moves : (s : Server) (q : ℕ) → Moves s (clear_close_timer s q)
unfolding clear_close_timer
clear_close_timer-Moves s q = one (on_peer q _ (λ p. refl))

drop_connection-Moves : (s : Server) (ip : ℕ) → Moves s (drop_connection s ip)
unfolding drop_connection
drop_connection-Moves s ip =
    if-Moves (leb (maybe (lookup ip s.active_connections) 0 (λ n. n)) 1)
      (λ _. one (on_connections _)) (λ _. one (on_connections _))

pub release_active_connection-Moves :
    (s : Server) (q : ℕ) (keep : Bool) → Moves s (release_active_connection s q keep)
unfolding release_active_connection
release_active_connection-Moves s q keep =
    if-Moves (s.peers q).connection_released (λ _. stay)
      (λ _.
        Moves-trans
          (Moves-trans (then_move (then_move stay (on_peer q _ (λ p. refl))) (on_registry _)) (
            Moves-trans (clear_idle_timer-Moves _ q)
              (if-Moves keep (λ _. stay) (λ _. clear_close_timer-Moves _ q))))
          (drop_connection-Moves _ _))

module _ (env : Env) where
  pub close_peer_with_code-Moves :
      (s : Server) (q code : ℕ) → Moves s (close_peer_with_code env s q code)
  unfolding close_peer_with_code
  close_peer_with_code-Moves s q code =
      if-Moves (is_closed (env.ready_state q (s.peers q).calls)) (λ _. stay)
        (λ _.
          if-Moves (env.close_throws q (s.peers q).calls) (λ _. one (on_peer q _ (λ p. refl)))
            (λ _. one (on_peer q _ (λ p. refl))))

  pub close_peer_and_release-Moves : (s : Server) (q : ℕ) → Moves s (close_peer_and_release env s q)
  unfolding close_peer_and_release
  close_peer_and_release-Moves s q =
      Moves-trans (close_peer_with_code-Moves s q 1000) (release_active_connection-Moves _ q true)

  pub close_peer_with_code_and_release-Moves :
      (s : Server) (q code : ℕ) → Moves s (close_peer_with_code_and_release env s q code)
  unfolding close_peer_with_code_and_release
  close_peer_with_code_and_release-Moves s q code =
      Moves-trans (close_peer_with_code-Moves s q code) (release_active_connection-Moves _ q true)
