-- ===== src/Server/Pairing.antt =====
-- server/index.ts: `register`, `connect`, `retryReceiver` and the answer to a bad message.
use p2p_transfer.Base.{
  ℕ, ◌+◌, Bool, true, false, not, ◌&&◌, Option, none, some, Text, nat, same_text, leb, ◌==◌,
  if◌then◌else◌, nat_eq, text_eq, lookup, insert, size,
}
use p2p_transfer.Shared.Messages.{
  Role, ServerMessage, registered, peer_joined, ErrorCode, LeftReason,
}
use p2p_transfer.Shared.Codes.{normalize_code, is_valid_rendezvous}
use p2p_transfer.Server.RateLimit.{hit_fixed_window_rate_limit, minute}
use p2p_transfer.Server.Policy.{sender_disconnect_can_restore_receiver, receiver_can_retry_pre_pair}
use p2p_transfer.Server.Policy.Traces.{fresh_relay}
use p2p_transfer.Server.Admission.{
  can_register_waiting_code, can_create_session, initial_pre_pair_attempts,
  consume_pre_pair_attempt, can_restore_pre_pair_code, waiting_receiver_available,
  initial_session_expires_at, remaining_expiry_seconds,
}
use p2p_transfer.Server.State.{Env, Peer, WaitingCode, Session, Server, with_peer, maybe}
use p2p_transfer.Server.Sockets.{
  clear_peer_session_state, clear_idle_timer, close_peer_and_release,
  close_peer_with_code_and_release, peer_is_open,
}
use p2p_transfer.Server.Cleanup.{
  cleanup_peer, send, fail, delete_session, delete_code, set_code, waits_for,
  restore_waiting_receiver,
}

abbrev pub protocol_version : ℕ
protocol_version = 10

abbrev pub code_ttl_ms : ℕ
code_ttl_ms = 600000

abbrev pub signaling_max_waiting_codes : ℕ
signaling_max_waiting_codes = 10000

abbrev pub signaling_max_sessions : ℕ
signaling_max_sessions = 10000

abbrev pub signaling_max_bad_messages : ℕ
signaling_max_bad_messages = 3

abbrev pub is_some {ℓ} : {A : Type ℓ} → Option A → Bool
is_some none = false
is_some (some a) = true

abbrev pub has_role : Role → Peer → Bool
has_role Role.sender p =
    maybe p.role false (λ r. elim r [ Role.sender ↦ true | Role.receiver ↦ false ])
has_role Role.receiver p =
    maybe p.role false (λ r. elim r [ Role.sender ↦ false | Role.receiver ↦ true ])

module _ (env : Env) where
  unfoldable pub send_to : Server → ℕ → ServerMessage → Server × Bool
  send_to = send env (cleanup_peer env)

  unfoldable pub fail_to : Server → ℕ → ErrorCode → Server
  fail_to = fail env (cleanup_peer env)

  unfoldable pub restore : Server → Session → LeftReason → Bool → Server
  restore = restore_waiting_receiver env (cleanup_peer env)

  unfoldable pub hit_rate_limit : Server → ℕ → Server × Bool
  hit_rate_limit s q =
      let (limits, allowed) =
        hit_fixed_window_rate_limit s.rate_limits (s.peers q).ip (nat env.now) (nat minute)
          (nat 60) in
      let counted = record s { rate_limits = limits } in
      if allowed then (counted, true) else (fail_to counted q ErrorCode.rate_limited, false)

  -- `rejectMalformedPrePairSenderMessage` in a session in which it applies.
  unfoldable pub reject_pre_pair : Server → ℕ → Session → Server
  reject_pre_pair s q session =
      restore (fail_to s q ErrorCode.bad_message) session LeftReason.closed true

  unfoldable pub count_bad_message : Server → ℕ → Server
  count_bad_message s q =
      let counted = with_peer s q (λ p. record p { bad_messages = p.bad_messages + 1 }) in
      let failed = fail_to counted q ErrorCode.bad_message in
      if leb signaling_max_bad_messages (failed.peers q).bad_messages
      then close_peer_with_code_and_release env failed q 1008
      else failed

  unfoldable pub bad_message : Server → ℕ → Server
  bad_message s q = maybe (s.peers q).sid (count_bad_message s q) (λ sid.
      maybe (lookup sid s.sessions) (count_bad_message s q) (λ session.
        if sender_disconnect_can_restore_receiver session.relay q
        then reject_pre_pair s q session
        else count_bad_message s q))

  -- The end of a code whose receiver cannot be paired any more.
  unfoldable pub expire_waiting : Server → Text → ℕ → Server
  expire_waiting s code q =
      let cleared = clear_peer_session_state (delete_code s code) q in
      close_peer_and_release env (fail_to cleared q ErrorCode.expired) q

  unfoldable pub become_receiver : Server → ℕ → Text → Server
  become_receiver s q code =
      clear_idle_timer
        (with_peer s q (λ p. record p { role = some Role.receiver; code = some code })) q

  unfoldable pub register_again : Server → ℕ → Text → WaitingCode → Server
  register_again s q code existing =
      if not (waiting_receiver_available existing.expires_at env.now (peer_is_open env s q))
      then expire_waiting s code q
      else (send_to (become_receiver s q code) q
          (registered code (remaining_expiry_seconds existing.expires_at env.now))).0

  -- `replacingPreviousOwnCode`
  unfoldable pub replaces_own_code : Server → ℕ → Text → Bool
  replaces_own_code s q code =
      maybe (s.peers q).code false (λ old. not (same_text old code) && waits_for s old q)

  abbrev pub new_entry : ℕ → Text → WaitingCode
  new_entry q code = record {
    code = code;
    receiver = q;
    expires_at = env.now + code_ttl_ms;
    remaining_pre_pair_attempts = initial_pre_pair_attempts;
  }

  unfoldable pub register_new : Server → ℕ → Text → Server
  register_new s q code =
      let replacing = replaces_own_code s q code in
      let dropped = if replacing then maybe (s.peers q).code s (λ old. delete_code s old) else s in
      let entered = set_code (become_receiver dropped q code) code (new_entry q code) in
      if not (can_register_waiting_code (size s.codes) signaling_max_waiting_codes replacing)
      then fail_to s q ErrorCode.rate_limited
      else (send_to entered q (registered code 600)).0

  unfoldable pub register_code : Server → ℕ → Text → Server
  register_code s q code = maybe (lookup code s.codes) (register_new s q code) (λ existing.
      if existing.receiver == q
      then register_again s q code existing
      else fail_to s q ErrorCode.code_taken)

  -- What `register` and `connect` check alike, before the code; `other` is the role that a peer may
  -- not have already.
  unfoldable pub checked_code : Server → ℕ → Role → Text → ℕ → (Server → Text → Server) → Server
  checked_code s q other code version next =
      let r = hit_rate_limit s q in
      let counted = r.0 in
      let normal = normalize_code env.to_lower_case code in
      if not r.1
      then counted
      else if is_some (counted.peers q).sid
      then fail_to counted q ErrorCode.bad_message
      else if has_role other (counted.peers q)
      then fail_to counted q ErrorCode.bad_message
      else if not (version == protocol_version)
      then fail_to counted q ErrorCode.bad_protocol
      else if not (is_valid_rendezvous normal)
      then fail_to counted q ErrorCode.bad_message
      else next counted normal

  unfoldable pub register : Server → ℕ → Text → ℕ → Server
  register s q code version =
      checked_code s q Role.sender code version (λ counted normal. register_code counted q normal)

  unfoldable pub expire_and_miss : Server → ℕ → Text → WaitingCode → Server
  expire_and_miss s q code waiting =
      fail_to (expire_waiting s code waiting.receiver) q ErrorCode.code_not_found

  abbrev pub new_session : ℕ → ℕ → Text → WaitingCode → ℕ → Session
  new_session sid q code waiting remaining = record {
    relay = fresh_relay sid q waiting.receiver;
    code = code;
    code_expires_at = waiting.expires_at;
    expires_at = initial_session_expires_at env.now;
    remaining_pre_pair_attempts = remaining;
  }

  -- The peers of a new session learn of it.
  unfoldable pub announce : Server → ℕ → Session → Server
  announce s q session =
      let told = send_to s session.receiver (peer_joined session.sid) in
      let dropped = delete_session told.0 session.sid in
      let cleared =
        clear_peer_session_state (clear_peer_session_state dropped q) session.receiver in
      let joined = send_to told.0 q (peer_joined session.sid) in
      if not told.1
      then fail_to (close_peer_and_release env cleared session.receiver) q
          ErrorCode.peer_unavailable
      else if joined.1
      then joined.0
      else restore joined.0 session LeftReason.closed true

  unfoldable pub become_sender : Server → ℕ → ℕ → Text → ℕ → Server
  become_sender s q sid code receiver =
      with_peer
        (clear_idle_timer
          (with_peer s q
            (λ p. record p { role = some Role.sender; sid = some sid; code = some code }))
          q)
        receiver (λ p. record p { sid = some sid })

  -- The code is taken from the waiting codes, and the session put among the sessions.
  unfoldable pub open_session : Server → ℕ → ℕ → Text → WaitingCode → ℕ → Server
  open_session s q sid code waiting remaining =
      let taken = delete_code s code in
      let owned : Bool = maybe (taken.peers q).code false (λ old. waits_for taken old q) in
      let freed =
        if owned then maybe (taken.peers q).code taken (λ old. delete_code taken old) else taken in
      let paired = become_sender freed q sid code waiting.receiver in
      record paired {
        sessions = insert sid (new_session sid q code waiting remaining) paired.sessions;
      }

  unfoldable pub connect_waiting : Server → ℕ → ℕ → Text → WaitingCode → Server
  connect_waiting s q sid code waiting =
      if not (
        waiting_receiver_available waiting.expires_at env.now (peer_is_open env s waiting.receiver))
      then expire_and_miss s q code waiting
      else if not (can_restore_pre_pair_code waiting.remaining_pre_pair_attempts)
      then expire_and_miss s q code waiting
      else if waiting.receiver == q
      then bad_message s q
      else if not (can_create_session (size s.sessions) signaling_max_sessions)
      then fail_to s q ErrorCode.rate_limited
      else maybe (consume_pre_pair_attempt waiting.remaining_pre_pair_attempts) s (λ remaining.
        announce (open_session s q sid code waiting remaining) q
          (new_session sid q code waiting remaining))

  -- `sid` is the identifier that nanoid makes.
  unfoldable pub connect : Server → ℕ → ℕ → Text → ℕ → Server
  connect s q sid code version = checked_code s q Role.receiver code version (λ counted normal.
      maybe (lookup normal counted.codes) (fail_to counted q ErrorCode.code_not_found)
        (λ waiting. connect_waiting counted q sid normal waiting))

  unfoldable pub retry_waiting : Server → ℕ → Text → WaitingCode → Server × Bool
  retry_waiting s q code waiting =
      if not (waiting.receiver == q)
      then (s, false)
      else if not (waiting_receiver_available waiting.expires_at env.now (peer_is_open env s q))
      then (expire_waiting s code q, true)
      else (
        (send_to s q (registered code (remaining_expiry_seconds waiting.expires_at env.now))).0,
        true,
      )

  -- The result is whether the "bye" was a retry.
  unfoldable pub retry_receiver : Server → ℕ → Server × Bool
  retry_receiver s q =
      maybe (s.peers q).sid
        (maybe (s.peers q).code (s, false)
          (λ code.
            maybe (lookup code s.codes) (s, false) (λ waiting. retry_waiting s q code waiting)))
        (λ sid.
          maybe (lookup sid s.sessions) (s, false)
            (λ session.
              if receiver_can_retry_pre_pair session.relay q
              then (restore s session LeftReason.closed false, true)
              else (s, false)))
