-- ===== src/Server/Events/Relays.antt =====
-- `relay` of server/index.ts keeps the state well-formed.
use p2p_transfer.Base.{
  ℕ, ◌≡◌, refl, sym, subst, ap, ◌∙◌, Bool, true, not, ◌&&◌, ◌||◌, some, nat, arith, lookup, nat_eq,
  text_eq, size-insert_old, Every-insert, ◌==◌,
}
use p2p_transfer.Shared.Messages.{
  ClientMessage, ServerMessage, relayed, ice_config, ErrorCode, LeftReason,
}
use p2p_transfer.Server.RateLimit.{hit_turn_credential_issue_rate_limit}
use p2p_transfer.Server.Policy.{
  session_peer_id, sender_disconnect_can_restore_receiver, relay_allowed_for_role,
  relay_allowed_for_phase, apply_relay_phase, session_before_pair_acceptance,
}
use p2p_transfer.Server.Policy.Phases.{apply_relay_phase-IsOrdered, apply_relay_phase-SamePeers}
use p2p_transfer.Server.Admission.{next_session_expires_at}
use p2p_transfer.Server.State.{sent, Env, Session, Server, with_peer, push_call}
use p2p_transfer.Server.Sockets.{peer_is_open}
use p2p_transfer.Server.Cleanup.{cleanup_peer, send}
use p2p_transfer.Server.Cleanup.Moves.{on_limits, Moves, Moves-trans, one, if-Moves, maybe-Moves}
use p2p_transfer.Server.Cleanup.Moves.Ends.{
  cleanup_peer-Moves, close_session_peers-Moves, end_session-Moves, pair-Moves,
}
use p2p_transfer.Server.Pairing.{send_to}
use p2p_transfer.Server.Relaying.{
  send_ice, send_ice_config, IceResult, ice_sent, ice_limited, ice_failed,
  close_session_for_turn_rate_limit, reject_relay_message, relay_delivery_failed, advance,
  relay_accept, relay_other, relay_in, relay, target_of, manifest_allowed, is_pair_accept,
  is_pair_reject,
}
use p2p_transfer.Server.Events.Invariant.{
  IsSound, IsPaired, Moves-IsSound, if-IsSound, maybe-IsSound,
}
use p2p_transfer.Server.Events.Preservation.{send_any-IsSound}
use p2p_transfer.Server.Events.Handlers.{
  send_to-Moves, fail_to-Moves, restore-Moves, reject_pre_pair-Moves, bad_message-Moves,
}

module _ (env : Env) where
  -- A send that succeeds changes the socket only.
  pub send_to-sent :
      (s : Server) (q : ℕ) (m : ServerMessage)
      → (send_to env s q m).1 ≡ true
      → (send_to env s q m).0 ≡ with_peer s q (push_call (sent m))
  unfolding send_to send
  send_to-sent s q m h = ground arith

  pub send_to-sessions :
      (s : Server) (q : ℕ) (m : ServerMessage)
      → (send_to env s q m).1 ≡ true
      → (send_to env s q m).0.sessions ≡ s.sessions
  unfolding with_peer
  send_to-sessions s q m h = ap (λ (t : Server). t.sessions) (send_to-sent s q m h)

  send_ice-sessions :
      (s : Server) (q : ℕ)
      → (send_ice env s q).1 ≡ ice_sent
      → (send_ice env s q).0.sessions ≡ s.sessions
  unfolding send_ice
  send_ice-sessions s q h = send_to-sessions s q ice_config (ground arith)

  send_ice_config-sessions :
      (s : Server) (q : ℕ)
      → (send_ice_config env s q).1 ≡ ice_sent
      → (send_ice_config env s q).0.sessions ≡ s.sessions
  unfolding send_ice_config
  send_ice_config-sessions s q h =
      let counted : Server = record s {
        turn_issue_rate_limits =
            (hit_turn_credential_issue_rate_limit s.turn_issue_rate_limits (s.peers q).ip
              (nat env.now)).0;
      } in
      ground (arith, send_ice-sessions s q, send_ice-sessions counted q)

  pub send_ice_config-Moves : (s : Server) (q : ℕ) → Moves s (send_ice_config env s q).0
  unfolding send_ice_config send_ice
  send_ice_config-Moves s q =
      let limits =
        (hit_turn_credential_issue_rate_limit s.turn_issue_rate_limits (s.peers q).ip
          (nat env.now)).0 in
      let counted : Server = record s { turn_issue_rate_limits = limits } in
      let counted-Moves : Moves s counted = one (on_limits s.rate_limits limits) in
      pair-Moves _ _ (not env.has_turn_rest_config) (λ _. send_to-Moves env s q ice_config refl)
        (λ _.
          pair-Moves _ _
            (hit_turn_credential_issue_rate_limit s.turn_issue_rate_limits (s.peers q).ip
              (nat env.now)).1
            (λ _. Moves-trans counted-Moves (send_to-Moves env counted q ice_config refl))
            (λ _. counted-Moves))

  advance-IsSound :
      (s : Server) (x : Session) (q : ℕ) (m : ClientMessage)
      → IsSound s
      → lookup x.sid s.sessions ≡ some x
      → relay_allowed_for_phase x.relay q m ≡ true
      → IsSound (advance env s x q m)
  unfolding advance
  advance-IsSound s x q m v found allowed =
      let old = v.paired x.sid x found in
      let same = apply_relay_phase-SamePeers x.relay q m in
      let moved : Session = record x {
        relay = apply_relay_phase x.relay q m;
        expires_at = next_session_expires_at x.expires_at env.now m;
      } in
      let good : IsPaired x.sid moved = record {
        keyed = same.sid;
        different = rw (same.sender, same.receiver) old.different;
        ordered = apply_relay_phase-IsOrdered x.relay q m old.ordered allowed;
        spent = old.spent;
      } in
      record {
        waiting = v.waiting;
        paired = Every-insert IsPaired x.sid moved s.sessions good v.paired;
        within = rw (size-insert_old x.sid moved x s.sessions found) v.within;
      }

  pub close_for_turn-Moves :
      (s : Server) (x : Session) → Moves s (close_session_for_turn_rate_limit env s x)
  unfolding close_session_for_turn_rate_limit
  close_for_turn-Moves s x =
      Moves-trans
        (Moves-trans (fail_to-Moves env s x.sender ErrorCode.rate_limited)
          (fail_to-Moves env _ x.receiver ErrorCode.rate_limited))
        (close_session_peers-Moves env (cleanup_peer env) _ x)

  pub reject_relay_message-Moves :
      (s : Server) (x : Session) (q : ℕ) → Moves s (reject_relay_message env s x q)
  unfolding reject_relay_message
  reject_relay_message-Moves s x q =
      if-Moves (sender_disconnect_can_restore_receiver x.relay q)
        (λ _. reject_pre_pair-Moves env s q x) (λ _. bad_message-Moves env s q)

  pub relay_delivery_failed-Moves :
      (s : Server) (x : Session) (q target : ℕ) (b : Bool)
      → Moves s (relay_delivery_failed env s x q target b)
  unfolding relay_delivery_failed
  relay_delivery_failed-Moves s x q target b =
      let told = fail_to-Moves env s q ErrorCode.peer_unavailable in
      maybe-Moves (session_peer_id x.relay target) (λ _. told)
        (λ role _.
          if-Moves (b && target == x.sender && session_before_pair_acceptance x.relay)
            (λ _. Moves-trans told (restore-Moves env _ x LeftReason.closed true))
            (λ _. Moves-trans told (
              end_session-Moves env (cleanup_peer env) (cleanup_peer-Moves env) _ x
                LeftReason.closed role)))

  ice_case-IsSound :
      (r : IceResult) (a b c : Server)
      → (r ≡ ice_limited → IsSound a)
      → (r ≡ ice_failed → IsSound b)
      → (r ≡ ice_sent → IsSound c)
      → IsSound (elim r [ ice_limited ↦ a | ice_failed ↦ b | ice_sent ↦ c ])
  ice_case-IsSound ice_limited a b c h k l = h refl
  ice_case-IsSound ice_failed a b c h k l = k refl
  ice_case-IsSound ice_sent a b c h k l = l refl

  relay_accept-IsSound :
      (s : Server) (x : Session) (q target : ℕ) (m : ClientMessage)
      → IsSound s
      → lookup x.sid s.sessions ≡ some x
      → relay_allowed_for_phase x.relay q m ≡ true
      → IsSound (relay_accept env s x q target m)
  unfolding relay_accept
  relay_accept-IsSound s x q target m v found allowed =
      let sender_ice = send_ice_config env s x.sender in
      let handed = send_to env sender_ice.0 target (relayed m) in
      let receiver_ice = send_ice_config env handed.0 x.receiver in
      let v_sender = Moves-IsSound (send_ice_config-Moves s x.sender) v in
      let v_handed = send_any-IsSound env sender_ice.0 target (relayed m) v_sender in
      let v_receiver = Moves-IsSound (send_ice_config-Moves handed.0 x.receiver) v_handed in
      ice_case-IsSound sender_ice.1 _ _ _
        (λ _. Moves-IsSound (close_for_turn-Moves sender_ice.0 x) v_sender)
        (λ _. Moves-IsSound (relay_delivery_failed-Moves sender_ice.0 x q target true) v_sender)
        (λ iced.
          if-IsSound handed.1
            (λ went.
              ice_case-IsSound receiver_ice.1 _ _ _
                (λ _. Moves-IsSound (close_for_turn-Moves receiver_ice.0 x) v_receiver)
                (λ _.
                  Moves-IsSound (close_session_peers-Moves env (cleanup_peer env) receiver_ice.0 x)
                    v_receiver)
                (λ done.
                  let same =
                    send_ice_config-sessions handed.0 x.receiver done
                    ∙ send_to-sessions sender_ice.0 target (relayed m) went
                    ∙ send_ice_config-sessions s x.sender iced in
                  advance-IsSound receiver_ice.0 x q m v_receiver (rw same found) allowed))
            (λ _. Moves-IsSound (relay_delivery_failed-Moves handed.0 x q target true) v_handed))

  relay_other-IsSound :
      (s : Server) (x : Session) (q target : ℕ) (m : ClientMessage)
      → IsSound s
      → lookup x.sid s.sessions ≡ some x
      → relay_allowed_for_phase x.relay q m ≡ true
      → IsSound (relay_other env s x q target m)
  unfolding relay_other
  relay_other-IsSound s x q target m v found allowed =
      let handed = send_to env s target (relayed m) in
      let v_handed = send_any-IsSound env s target (relayed m) v in
      if-IsSound (not handed.1)
        (λ _.
          Moves-IsSound (relay_delivery_failed-Moves handed.0 x q target (not (is_pair_reject m)))
            v_handed)
        (λ went.
          let same = send_to-sessions s target (relayed m) (ground arith) in
          let advanced = advance-IsSound handed.0 x q m v_handed (rw same found) allowed in
          if-IsSound (is_pair_reject m)
            (λ _. Moves-IsSound (close_session_peers-Moves env (cleanup_peer env) _ x) advanced)
            (λ _. advanced))

  relay_in-IsSound :
      (s : Server) (x : Session) (q : ℕ) (m : ClientMessage)
      → IsSound s
      → lookup x.sid s.sessions ≡ some x
      → IsSound (relay_in env s x q m)
  unfolding relay_in
  relay_in-IsSound s x q m v found =
      let rejected = Moves-IsSound (reject_relay_message-Moves s x q) v in
      let target = target_of env x q in
      if-IsSound (not (x.sender == q || x.receiver == q))
        (λ _. Moves-IsSound (fail_to-Moves env s q ErrorCode.session_not_found) v)
        (λ _.
          if-IsSound (not (manifest_allowed env m)) (λ _. rejected)
            (λ _.
              if-IsSound (not (relay_allowed_for_role x.relay q m)) (λ _. rejected)
                (λ _.
                  if-IsSound (not (relay_allowed_for_phase x.relay q m)) (λ _. rejected)
                    (λ allowed.
                      let phase : relay_allowed_for_phase x.relay q m ≡ true = ground arith in
                      if-IsSound (not (peer_is_open env s target))
                        (λ _.
                          Moves-IsSound
                            (relay_delivery_failed-Moves s x q target (not (is_pair_reject m))) v)
                        (λ _.
                          if-IsSound (is_pair_accept m)
                            (λ _. relay_accept-IsSound s x q target m v found phase)
                            (λ _. relay_other-IsSound s x q target m v found phase))))))

  pub relay-IsSound :
      (s : Server) (q sid : ℕ) (m : ClientMessage) → IsSound s → IsSound (relay env s q sid m)
  unfolding relay
  relay-IsSound s q sid m v =
      maybe-IsSound (lookup sid s.sessions)
        (λ _. Moves-IsSound (fail_to-Moves env s q ErrorCode.session_not_found) v)
        (λ x found.
          let same = (v.paired sid x found).keyed in
          relay_in-IsSound s x q m v (subst (λ k. lookup k s.sessions ≡ some x) (sym same) found))
