-- ===== src/Server/Cleanup.antt =====
-- server/index.ts: sending, and the end of a session. A send that fails cleans its peer up, which
-- sends to the other peer: these functions take the cleanup that a failed send makes, and
-- `cleanup_peer` ties the knot. Reasons are those that `peerLeftReason` tells apart.
pub mod Moves
pub mod Termination
use p2p_transfer.Base.{
  ℕ, zero, suc, ◌+◌, ◌-◌, Bool, true, false, not, ◌&&◌, Option, none, some, List, [], ◌∷◌, ltb, leb,
  ◌==◌, nat_eq, text_eq, if◌then◌else◌, lookup, insert, remove, size, same_text, min, Text,
}
use p2p_transfer.Shared.Messages.{
  Role, sender, receiver, ServerMessage, registered, peer_left, error, ErrorCode, LeftReason,
}
use p2p_transfer.Server.Policy.{
  session_peer_id, other_session_peer_id, sender_disconnect_can_restore_receiver,
}
use p2p_transfer.Server.Admission.{can_restore_pre_pair_code, remaining_expiry_seconds}
use p2p_transfer.Server.State.{
  Call, sent, refused, Env, Peer, WaitingCode, Session, Server, with_peer, maybe, push_call,
}
use p2p_transfer.Server.Sockets.{
  clear_peer_session_state, close_peer_and_release, peer_is_open, signaling_backpressure_exceeded,
}

unfoldable pub delete_session : Server → ℕ → Server
delete_session s sid = record s { sessions = remove sid s.sessions }

unfoldable pub delete_code : Server → Text → Server
delete_code s code = record s { codes = remove code s.codes }

unfoldable pub set_code : Server → Text → WaitingCode → Server
set_code s code entry = record s { codes = insert code entry s.codes }

abbrev pub member : Session → Role → ℕ
member session Role.sender = session.sender
member session Role.receiver = session.receiver

-- `codes.get(code)?.receiver.id === q`
unfoldable pub waits_for : Server → Text → ℕ → Bool
waits_for s code q = maybe (lookup code s.codes) false (λ entry. entry.receiver == q)

-- The receiver of a session waits again.
unfoldable pub receiver_waits : Server → Session → Server
receiver_waits s session =
    with_peer s session.receiver
      (λ p. record p { sid = none; role = some Role.receiver; code = some session.code })

abbrev pub Cleanup : Type 0
Cleanup = Server → ℕ → LeftReason → Server

module _ (env : Env) (cleanup : Cleanup) where
  unfoldable pub close_peer_for_send_failure : Server → ℕ → Server
  close_peer_for_send_failure s q = close_peer_and_release env (cleanup s q LeftReason.closed) q

  -- The result is whether the message went out.
  unfoldable pub send : Server → ℕ → ServerMessage → Server × Bool
  send s q message =
      let calls = (s.peers q).calls in
      let handed = with_peer s q (push_call (sent message)) in
      if not (peer_is_open env s q)
      then (s, false)
      else if signaling_backpressure_exceeded env q calls
      then (close_peer_for_send_failure s q, false)
      else if env.send_throws q calls message
      then (close_peer_for_send_failure (with_peer s q (push_call (refused message))) q, false)
      else if signaling_backpressure_exceeded env q (sent message ∷ calls)
      then (close_peer_for_send_failure handed q, false)
      else (handed, true)

  unfoldable pub fail : Server → ℕ → ErrorCode → Server
  fail s q code = (send s q (error code)).0

  -- One round of `notifyPeerLeft`.
  unfoldable pub notify_one : Server → Session → Option ℕ → LeftReason → ℕ → Server
  notify_one s session leaving reason q =
      if maybe leaving false (λ l. q == l) then s else (send s q (peer_left session.sid reason)).0

  unfoldable pub notify_peer_left : Server → Session → Option ℕ → LeftReason → Server
  notify_peer_left s session leaving reason =
      notify_one (notify_one s session leaving reason session.sender) session leaving reason
        session.receiver

  unfoldable pub end_session : Server → Session → LeftReason → Role → Server
  end_session s session reason leaving =
      let told =
        notify_peer_left (delete_session s session.sid) session (some (member session leaving))
          reason in
      let cleared =
        clear_peer_session_state (clear_peer_session_state told session.sender) session.receiver in
      close_peer_and_release env cleared (member session (other_session_peer_id leaving))

  unfoldable pub close_session_peers : Server → Session → Server
  close_session_peers s session =
      let dropped = delete_session s session.sid in
      let cleared =
        clear_peer_session_state (clear_peer_session_state dropped session.sender)
          session.receiver in
      close_peer_and_release env (close_peer_and_release env cleared session.sender)
        session.receiver

  unfoldable pub expire_receiver_after_pre_pair_attempts :
      Server → Session → Option WaitingCode → Server
  expire_receiver_after_pre_pair_attempts s session existing =
      let dropped = maybe existing s (λ entry. delete_code s entry.code) in
      let told = notify_peer_left dropped session (some session.sender) LeftReason.closed in
      let cleared =
        clear_peer_session_state (clear_peer_session_state told session.sender) session.receiver in
      let failed = fail cleared session.receiver ErrorCode.expired in
      close_peer_and_release env (close_peer_and_release env failed session.sender) session.receiver

  -- What follows a registration that could not be sent.
  unfoldable pub drop_restored : Server → Session → Server
  drop_restored s session =
      let dropped =
        if waits_for s session.code session.receiver then delete_code s session.code else s in
      close_peer_and_release env (clear_peer_session_state dropped session.receiver)
        session.receiver

  unfoldable pub send_restored_registration : Server → Session → ℕ → Server
  send_restored_registration s session expires_at =
      let r =
        send s session.receiver
          (registered session.code (remaining_expiry_seconds expires_at env.now)) in
      if r.1 then r.0 else drop_restored r.0 session

  -- The common end of the two ways to restore.
  unfoldable pub finish_restore : Server → Session → LeftReason → Bool → ℕ → Server
  finish_restore s session reason notify_receiver expires_at =
      let told =
        if notify_receiver then notify_peer_left s session (some session.sender) reason else s in
      send_restored_registration (close_peer_and_release env told session.sender) session expires_at

  -- The code waits already, with the same receiver: the fewer attempts count.
  unfoldable pub restore_existing : Server → Session → WaitingCode → LeftReason → Bool → Server
  restore_existing s session existing reason notify_receiver =
      let waiting = receiver_waits (clear_peer_session_state s session.sender) session in
      let remaining =
        min existing.remaining_pre_pair_attempts session.remaining_pre_pair_attempts in
      let entry = record existing { remaining_pre_pair_attempts = remaining } in
      let lowered = set_code waiting session.code entry in
      if can_restore_pre_pair_code remaining
      then finish_restore lowered session reason notify_receiver existing.expires_at
      else expire_receiver_after_pre_pair_attempts lowered session (some entry)

  unfoldable pub restore_absent : Server → Session → LeftReason → Bool → Server
  restore_absent s session reason notify_receiver =
      let waiting = receiver_waits (clear_peer_session_state s session.sender) session in
      let entry : WaitingCode = record {
        code = session.code;
        receiver = session.receiver;
        expires_at = session.code_expires_at;
        remaining_pre_pair_attempts = session.remaining_pre_pair_attempts;
      } in
      if can_restore_pre_pair_code session.remaining_pre_pair_attempts
      then finish_restore (set_code waiting session.code entry) session reason notify_receiver
          session.code_expires_at
      else expire_receiver_after_pre_pair_attempts waiting session none

  unfoldable pub restore_waiting_receiver : Server → Session → LeftReason → Bool → Server
  restore_waiting_receiver s session reason notify_receiver =
      let dropped = delete_session s session.sid in
      maybe (lookup session.code s.codes) (restore_absent dropped session reason notify_receiver)
        (λ existing.
          if existing.receiver == session.receiver
          then restore_existing dropped session existing reason notify_receiver
          else close_session_peers (notify_peer_left dropped session none LeftReason.closed)
              session)

  -- The cleanup of a peer in its session.
  unfoldable pub leave_session : Server → ℕ → LeftReason → Session → Server
  leave_session s q reason session =
      if sender_disconnect_can_restore_receiver session.relay q
      then restore_waiting_receiver s session LeftReason.closed true
      else maybe (session_peer_id session.relay q) s (λ role. end_session s session reason role)

  -- The body of `cleanupPeer`.
  unfoldable pub cleanup_step : Cleanup
  cleanup_step s q reason =
      let peer = s.peers q in
      let owned : Bool = maybe peer.code false (λ code. waits_for s code q) in
      let dropped = if owned then maybe peer.code s (λ code. delete_code s code) else s in
      maybe peer.sid dropped (λ sid.
        maybe (lookup sid dropped.sessions) dropped
          (λ session. leave_session dropped q reason session))

-- Each cleanup that sends has deleted a session first: as many rounds as there are sessions are
-- enough.
unfoldable pub cleanup_rounds : Env → ℕ → Cleanup
cleanup_rounds env zero s q reason = s
cleanup_rounds env (suc n) s q reason = cleanup_step env (cleanup_rounds env n) s q reason

unfoldable pub cleanup_peer : Env → Cleanup
cleanup_peer env s q reason = cleanup_rounds env (suc (size s.sessions)) s q reason
