-- ===== src/Server/Relaying.antt =====
-- server/index.ts: `relay`, the ICE configuration, and the ways that a relayed message fails.
use p2p_transfer.Base.{
  ℕ, Bool, true, false, not, ◌&&◌, ◌||◌, nat, ◌==◌, if◌then◌else◌, nat_eq, text_eq, lookup, insert,
}
use p2p_transfer.Shared.Messages.{
  ClientMessage, pair_request, pair_accept, pair_reject, FileManifest, relayed, ice_config,
  ErrorCode, LeftReason,
}
use p2p_transfer.Shared.Limits.{Result, ok, err, assert_manifest_within_limits}
use p2p_transfer.Shared.PublicManifest.{public_pair_request_manifest_is_redacted}
use p2p_transfer.Server.RateLimit.{hit_turn_credential_issue_rate_limit}
use p2p_transfer.Server.Policy.{
  session_peer_id, relay_allowed_for_role, relay_allowed_for_phase, apply_relay_phase,
  session_before_pair_acceptance, sender_disconnect_can_restore_receiver,
}
use p2p_transfer.Server.Admission.{next_session_expires_at}
use p2p_transfer.Server.State.{Env, Session, Server, maybe}
use p2p_transfer.Server.Sockets.{peer_is_open}
use p2p_transfer.Server.Cleanup.{cleanup_peer, end_session, close_session_peers}
use p2p_transfer.Server.Pairing.{send_to, fail_to, restore, bad_message, reject_pre_pair}

abbrev pub is_ok {ℓ} : {A : Type ℓ} → Result A → Bool
is_ok (ok a) = true
is_ok (err e) = false

pub data IceResult : Type 0 where
  ice_sent ice_limited ice_failed : IceResult

abbrev pub is_pair_accept : ClientMessage → Bool
is_pair_accept (pair_accept sid auth) = true
is_pair_accept _ = false

-- `message.type === "pair-reject"`
abbrev pub is_pair_reject : ClientMessage → Bool
is_pair_reject (pair_reject sid auth) = true
is_pair_reject _ = false

module _ (env : Env) where
  unfoldable pub manifest_within_limits : FileManifest → Bool
  manifest_within_limits manifest = is_ok (assert_manifest_within_limits env.is_format manifest)

  unfoldable pub manifest_allowed : ClientMessage → Bool
  manifest_allowed (pair_request sid manifest sealed) =
      manifest_within_limits manifest && public_pair_request_manifest_is_redacted manifest
  manifest_allowed _ = true

  unfoldable pub send_ice : Server → ℕ → Server × IceResult
  send_ice s q = let r = send_to env s q ice_config in (r.0, if r.1 then ice_sent else ice_failed)

  unfoldable pub send_ice_config : Server → ℕ → Server × IceResult
  send_ice_config s q =
      let (limits, allowed) =
        hit_turn_credential_issue_rate_limit s.turn_issue_rate_limits (s.peers q).ip
          (nat env.now) in
      let counted = record s { turn_issue_rate_limits = limits } in
      if not env.has_turn_rest_config
      then send_ice s q
      else if allowed
      then send_ice counted q
      else (counted, ice_limited)

  unfoldable pub close_session_for_turn_rate_limit : Server → Session → Server
  close_session_for_turn_rate_limit s session =
      let told = fail_to env s session.sender ErrorCode.rate_limited in
      close_session_peers env (cleanup_peer env)
        (fail_to env told session.receiver ErrorCode.rate_limited) session

  unfoldable pub reject_relay_message : Server → Session → ℕ → Server
  reject_relay_message s session q =
      if sender_disconnect_can_restore_receiver session.relay q
      then reject_pre_pair env s q session
      else bad_message env s q

  -- `restore_sender` is `restoreReceiverOnSenderFailure`.
  unfoldable pub relay_delivery_failed : Server → Session → ℕ → ℕ → Bool → Server
  relay_delivery_failed s session q target restore_sender =
      let told = fail_to env s q ErrorCode.peer_unavailable in
      maybe (session_peer_id session.relay target) told (λ role.
        if restore_sender
          && target == session.sender
          && session_before_pair_acceptance session.relay
        then restore env told session LeftReason.closed true
        else end_session env (cleanup_peer env) told session LeftReason.closed role)

  -- The phase and the deadline of the session that is in the map.
  unfoldable pub advance : Server → Session → ℕ → ClientMessage → Server
  advance s session q message =
      let moved : Session = record session {
        relay = apply_relay_phase session.relay q message;
        expires_at = next_session_expires_at session.expires_at env.now message;
      } in
      record s { sessions = insert session.sid moved s.sessions }

  -- A "pair-accept" goes out between the ICE configurations of the two peers.
  unfoldable pub relay_accept : Server → Session → ℕ → ℕ → ClientMessage → Server
  relay_accept s session q target message =
      let sender_ice = send_ice_config s session.sender in
      let handed = send_to env sender_ice.0 target (relayed message) in
      let receiver_ice = send_ice_config handed.0 session.receiver in
      let last : Server = elim receiver_ice.1 [
        | ice_limited ↦ close_session_for_turn_rate_limit receiver_ice.0 session
        | ice_failed ↦ close_session_peers env (cleanup_peer env) receiver_ice.0 session
        | ice_sent ↦ advance receiver_ice.0 session q message
      ] in
      elim sender_ice.1 [
        | ice_limited ↦ close_session_for_turn_rate_limit sender_ice.0 session
        | ice_failed ↦ relay_delivery_failed sender_ice.0 session q target true
        | ice_sent ↦ if handed.1 then last else relay_delivery_failed handed.0 session q target true
      ]

  unfoldable pub relay_other : Server → Session → ℕ → ℕ → ClientMessage → Server
  relay_other s session q target message =
      let handed = send_to env s target (relayed message) in
      let advanced = advance handed.0 session q message in
      if not handed.1
      then relay_delivery_failed handed.0 session q target (not (is_pair_reject message))
      else if is_pair_reject message
      then close_session_peers env (cleanup_peer env) advanced session
      else advanced

  abbrev pub target_of : Session → ℕ → ℕ
  target_of session q = if session.sender == q then session.receiver else session.sender

  unfoldable pub relay_in : Server → Session → ℕ → ClientMessage → Server
  relay_in s session q message =
      let target = target_of session q in
      if not (session.sender == q || session.receiver == q)
      then fail_to env s q ErrorCode.session_not_found
      else if not (manifest_allowed message)
      then reject_relay_message s session q
      else if not (relay_allowed_for_role session.relay q message)
      then reject_relay_message s session q
      else if not (relay_allowed_for_phase session.relay q message)
      then reject_relay_message s session q
      else if not (peer_is_open env s target)
      then relay_delivery_failed s session q target (not (is_pair_reject message))
      else if is_pair_accept message
      then relay_accept s session q target message
      else relay_other s session q target message

  unfoldable pub relay : Server → ℕ → ℕ → ClientMessage → Server
  relay s q sid message =
      maybe (lookup sid s.sessions) (fail_to env s q ErrorCode.session_not_found)
        (λ session. relay_in s session q message)
