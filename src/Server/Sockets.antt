-- ===== src/Server/Sockets.antt =====
-- server/index.ts: connections, closing and timers of one peer. A timer is a flag that it is set.
use p2p_transfer.Base.{
  ℕ, ◌+◌, ◌-◌, Bool, true, false, not, ◌&&◌, none, List, [], ◌∷◌, ltb, leb, ◌==◌, if◌then◌else◌,
  lookup, insert, remove, nat_eq,
}
use p2p_transfer.Server.State.{
  Call, closed_with, terminated, Env, Server, with_peer, maybe, is_open, is_closed, push_call,
}

abbrev pub signaling_max_buffered_bytes : ℕ
signaling_max_buffered_bytes = 1048576

unfoldable pub clear_peer_session_state : Server → ℕ → Server
clear_peer_session_state s q =
    with_peer s q (λ p. record p { sid = none; code = none; role = none })

unfoldable pub clear_idle_timer : Server → ℕ → Server
clear_idle_timer s q = with_peer s q (λ p. record p { idle_timer = false })

unfoldable pub clear_close_timer : Server → ℕ → Server
clear_close_timer s q = with_peer s q (λ p. record p { close_timer = false })

abbrev pub without : ℕ → List ℕ → List ℕ
without q [] = []
without q (p ∷ ps) = if q == p then without q ps else p ∷ without q ps

unfoldable pub add_active_connection : Server → ℕ → Server
add_active_connection s q =
    let ip = (s.peers q).ip in
    record s {
      active_connections =
          insert ip (maybe (lookup ip s.active_connections) 0 (λ n. n) + 1) s.active_connections;
    }

-- One connection less for an address.
unfoldable pub drop_connection : Server → ℕ → Server
drop_connection s ip =
    let count = maybe (lookup ip s.active_connections) 0 (λ n. n) in
    if leb count 1
    then record s { active_connections = remove ip s.active_connections }
    else record s { active_connections = insert ip (count - 1) s.active_connections }

unfoldable pub release_active_connection : Server → ℕ → Bool → Server
release_active_connection s q keep_close_timer =
    let released = with_peer s q (λ p. record p { connection_released = true }) in
    let idle =
      clear_idle_timer (record released { peers_by_socket = without q released.peers_by_socket })
        q in
    let quiet = if keep_close_timer then idle else clear_close_timer idle q in
    if (s.peers q).connection_released then s else drop_connection quiet (s.peers q).ip

module _ (env : Env) where
  -- `signalingBackpressureExceeded` at the server's limit.
  unfoldable pub signaling_backpressure_exceeded : ℕ → List Call → Bool
  signaling_backpressure_exceeded q calls =
      ltb signaling_max_buffered_bytes (env.buffered_amount q calls)

  -- A close that throws is followed by a terminate; one that does not starts the close timer.
  unfoldable pub close_peer_with_code : Server → ℕ → ℕ → Server
  close_peer_with_code s q code =
      let calls = (s.peers q).calls in
      if is_closed (env.ready_state q calls)
      then s
      else if env.close_throws q calls
      then with_peer s q (push_call terminated)
      else with_peer s q (λ p. record p { calls = closed_with code ∷ p.calls; close_timer = true })

  unfoldable pub close_peer_with_code_and_release : Server → ℕ → ℕ → Server
  close_peer_with_code_and_release s q code =
      release_active_connection (close_peer_with_code s q code) q true

  unfoldable pub close_peer_and_release : Server → ℕ → Server
  close_peer_and_release s q = release_active_connection (close_peer_with_code s q 1000) q true

  unfoldable pub peer_is_open : Server → ℕ → Bool
  peer_is_open s q = is_open (env.ready_state q (s.peers q).calls)

  unfoldable pub peer_accepts_client_messages : Server → ℕ → Bool
  peer_accepts_client_messages s q =
      peer_is_open s q && not (s.peers q).close_timer && not (s.peers q).connection_released
