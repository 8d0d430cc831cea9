-- ===== src/Server/Events.antt =====
-- server/index.ts: what the server does on a connection, a frame, a pong, a timer and the end of a
-- connection.
pub mod Invariant
pub mod Handlers
pub mod Preservation
pub mod Relays
pub mod Timers
pub mod Reachable
pub mod Deliveries
use p2p_transfer.Base.{
  ℕ, ◌+◌, Bool, true, false, not, ◌&&◌, ◌||◌, Option, none, some, List, [], ◌∷◌, ◌++◌, Map, Text,
  Number, nat, ltb, leb, ◌==◌, if◌then◌else◌, nat_eq, text_eq, lookup, insert, size,
}
use p2p_transfer.Shared.Messages.{
  ClientMessage, register, connect, pake, confirm, pair_request, pair_accept, pair_reject, signal,
  bye, ByeReason, prepair_retry, complete, cancelled, other_reason, ErrorCode, LeftReason,
}
use p2p_transfer.Shared.Limits.{contains}
use p2p_transfer.Server.RateLimit.{record_fixed_window_hit, prune_fixed_window_rate_limits, minute}
use p2p_transfer.Server.Policy.{session_before_pair_acceptance}
use p2p_transfer.Server.State.{
  Call, terminated, pinged, Env, Peer, WaitingCode, Session, Server, with_peer, maybe, push_call,
  is_closed,
}
use p2p_transfer.Server.Sockets.{
  add_active_connection, clear_peer_session_state, release_active_connection,
  close_peer_and_release, close_peer_with_code_and_release, peer_is_open,
  peer_accepts_client_messages,
}
use p2p_transfer.Server.Cleanup.{
  cleanup_peer, delete_session, delete_code, notify_peer_left, close_session_peers,
}
use p2p_transfer.Server.Pairing
use p2p_transfer.Server.Pairing.{fail_to, restore, bad_message, retry_receiver, is_some}
use p2p_transfer.Server.Relaying.{relay}

abbrev pub signaling_max_messages_per_minute : ℕ
signaling_max_messages_per_minute = 240

abbrev pub signaling_max_connections_per_ip : ℕ
signaling_max_connections_per_ip = 32

abbrev pub peer_visible_bye_reason : Option ByeReason → LeftReason
peer_visible_bye_reason (some complete) = LeftReason.complete
peer_visible_bye_reason (some cancelled) = LeftReason.cancelled
peer_visible_bye_reason _ = LeftReason.bye

abbrev pub is_retry : Option ByeReason → Bool
is_retry (some prepair_retry) = true
is_retry _ = false

abbrev pub blank_peer : ℕ → ℕ → Peer
blank_peer q ip = record {
  id = q;
  ip = ip;
  role = none;
  sid = none;
  code = none;
  bad_messages = 0;
  message_times = [];
  idle_timer = false;
  close_timer = false;
  awaiting_heartbeat_pong = false;
  connection_released = false;
  calls = [];
}

-- The server before the first connection.
unfoldable pub initial_server : Server
initial_server = record {
  codes = [];
  sessions = [];
  rate_limits = [];
  turn_issue_rate_limits = [];
  active_connections = [];
  peers_by_socket = [];
  peers = λ q. blank_peer q 0;
}

module _ (env : Env) where
  unfoldable pub say_bye : Server → ℕ → Option ByeReason → Server
  say_bye s q reason =
      let retried = retry_receiver env s q in
      let tried = if is_retry reason then retried.0 else s in
      let left = cleanup_peer env tried q (peer_visible_bye_reason reason) in
      if is_retry reason && retried.1 then retried.0 else close_peer_and_release env left q

  -- `handleMessage`; `fresh` is the identifier that nanoid makes in a "connect".
  unfoldable pub handle_message : Server → ℕ → ℕ → ClientMessage → Server
  handle_message s q fresh (register code version) = Pairing.register env s q code version
  handle_message s q fresh (connect code version) = Pairing.connect env s q fresh code version
  handle_message s q fresh (pake sid share) = relay env s q sid (pake sid share)
  handle_message s q fresh (confirm sid tag) = relay env s q sid (confirm sid tag)
  handle_message s q fresh (pair_request sid manifest sealed) =
      relay env s q sid (pair_request sid manifest sealed)
  handle_message s q fresh (pair_accept sid auth) = relay env s q sid (pair_accept sid auth)
  handle_message s q fresh (pair_reject sid auth) = relay env s q sid (pair_reject sid auth)
  handle_message s q fresh (signal sid kind sealed) = relay env s q sid (signal sid kind sealed)
  handle_message s q fresh (bye sid reason) = say_bye s q reason

  unfoldable pub hit_message_limit : Server → ℕ → Server × Bool
  hit_message_limit s q =
      let result =
        record_fixed_window_hit (s.peers q).message_times (nat env.now) (nat minute)
          (nat signaling_max_messages_per_minute) in
      let counted = with_peer s q (λ p. record p { message_times = result.hits }) in
      if result.allowed then (counted, true) else (
        close_peer_with_code_and_release env (fail_to env counted q ErrorCode.rate_limited) q 1008,
        false,
      )

  -- A frame that is no client message is `none`.
  unfoldable pub on_frame : Server → ℕ → ℕ → Option ClientMessage → Server
  on_frame s q fresh frame =
      let r = hit_message_limit s q in
      if not (peer_accepts_client_messages env s q)
      then s
      else if not r.1
      then r.0
      else maybe frame (bad_message env r.0 q) (λ message. handle_message r.0 q fresh message)

  -- `q` is the identifier that nanoid makes.
  unfoldable pub on_connection : Server → ℕ → ℕ → Server
  on_connection s q ip =
      let known = with_peer s q (λ _. blank_peer q ip) in
      let listed = record known { peers_by_socket = known.peers_by_socket ++ q ∷ [] } in
      let counted = add_active_connection listed q in
      if ltb signaling_max_connections_per_ip
        (maybe (lookup ip counted.active_connections) 0 (λ n. n))
      then close_peer_with_code_and_release env (fail_to env counted q ErrorCode.rate_limited) q
          1008
      else with_peer counted q (λ p. record p { idle_timer = true })

  unfoldable pub on_close : Server → ℕ → Server
  on_close s q = cleanup_peer env (release_active_connection s q false) q LeftReason.closed

  unfoldable pub on_error : Server → ℕ → Server
  on_error s q = release_active_connection (cleanup_peer env s q LeftReason.closed) q false

  unfoldable pub on_pong : Server → ℕ → Server
  on_pong s q = with_peer s q (λ p. record p { awaiting_heartbeat_pong = false })

  unfoldable pub on_idle_timer : Server → ℕ → Server
  on_idle_timer s q =
      let p = s.peers q in
      if is_some p.role || is_some p.sid || is_some p.code
      then s
      else close_peer_with_code_and_release env s q 1008

  unfoldable pub on_close_timer : Server → ℕ → Server
  on_close_timer s q =
      let fired = with_peer s q (λ p. record p { close_timer = false }) in
      if is_closed (env.ready_state q (fired.peers q).calls)
      then fired
      else with_peer fired q (push_call terminated)

  unfoldable pub drop_dead_peer : Server → ℕ → Server
  drop_dead_peer s q =
      with_peer (release_active_connection (cleanup_peer env s q LeftReason.closed) q false) q
        (push_call terminated)

  unfoldable pub heartbeat_peer : Server → ℕ → Server
  heartbeat_peer s q =
      let waiting = with_peer s q (λ p. record p { awaiting_heartbeat_pong = true }) in
      if not (peer_is_open env s q)
      then s
      else if (s.peers q).awaiting_heartbeat_pong
      then drop_dead_peer s q
      else if env.ping_throws q (s.peers q).calls
      then drop_dead_peer waiting q
      else with_peer waiting q (push_call pinged)

  -- One round of the first loop of the expiry timer, for an entry that is in the map.
  unfoldable pub expire_code_entry : Server → Text × WaitingCode → Server
  expire_code_entry s (code, entry) =
      let told = fail_to env s entry.receiver ErrorCode.expired in
      let closed =
        close_peer_and_release env (clear_peer_session_state told entry.receiver) entry.receiver in
      if leb entry.expires_at env.now then delete_code closed code else s

  -- One round of the second loop.
  unfoldable pub expire_session : Server → ℕ × Session → Server
  expire_session s (sid, session) =
      let told = notify_peer_left env (cleanup_peer env) s session none LeftReason.closed in
      if not (leb session.expires_at env.now)
      then s
      else if session_before_pair_acceptance session.relay
          && ltb env.now session.code_expires_at
          && peer_is_open env s session.receiver
      then restore env s session LeftReason.closed true
      else close_session_peers env (cleanup_peer env) (delete_session told sid) session

  -- The loops visit the entries that were there when they began and still are at their turn. An
  -- entry that a round adds waits for the next timer.
  unfoldable pub expire_codes : Server → Map Text WaitingCode → Server
  expire_codes s [] = s
  expire_codes s ((code, entry) ∷ rest) =
      expire_codes (maybe (lookup code s.codes) s (λ now. expire_code_entry s (code, now))) rest

  unfoldable pub expire_sessions : Server → Map ℕ Session → Server
  expire_sessions s [] = s
  expire_sessions s ((sid, session) ∷ rest) =
      expire_sessions (maybe (lookup sid s.sessions) s (λ now. expire_session s (sid, now))) rest

  unfoldable pub prune_limits : Server → Server
  prune_limits s = record s {
    rate_limits = prune_fixed_window_rate_limits s.rate_limits (nat env.now) (nat minute);
    turn_issue_rate_limits =
        prune_fixed_window_rate_limits s.turn_issue_rate_limits (nat env.now) (nat minute);
  }

  unfoldable pub on_expiry_timer : Server → Server
  on_expiry_timer s =
      let codes_expired = expire_codes s s.codes in
      prune_limits (expire_sessions codes_expired codes_expired.sessions)

  -- `heartbeatPeer` of the peers that are still connected at their turn.
  unfoldable pub heartbeat_peers : Server → List ℕ → Server
  heartbeat_peers s [] = s
  heartbeat_peers s (q ∷ qs) =
      heartbeat_peers (if contains q s.peers_by_socket then heartbeat_peer s q else s) qs

  unfoldable pub on_heartbeat : Server → Server
  on_heartbeat s = heartbeat_peers s s.peers_by_socket
