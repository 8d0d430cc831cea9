-- ===== src/Server/Events/Handlers.antt =====
-- The handlers of server/index.ts, one by one: which are mere changes, and that each keeps the
-- state well-formed.
use p2p_transfer.Base.{
  ℕ, ◌+◌, ◌≡◌, refl, Bool, true, false, not, Option, none, some, [], Text, nat, if◌then◌else◌,
  lookup, size, nat_eq, text_eq, ◌==◌, leb,
}
use p2p_transfer.Shared.Messages.{ServerMessage, registered, peer_joined, ErrorCode, LeftReason}
use p2p_transfer.Server.RateLimit.{hit_fixed_window_rate_limit, minute}
use p2p_transfer.Server.Policy.{sender_disconnect_can_restore_receiver, receiver_can_retry_pre_pair}
use p2p_transfer.Server.Admission.{
  can_register_waiting_code, initial_pre_pair_attempts, can_restore_pre_pair_code,
  waiting_receiver_available,
}
use p2p_transfer.Server.State.{Env, WaitingCode, Session, Server, with_peer, maybe}
use p2p_transfer.Server.Sockets.{peer_is_open}
use p2p_transfer.Server.Cleanup.{cleanup_peer, set_code, delete_code}
use p2p_transfer.Server.Cleanup.Moves.{
  on_peer, on_limits, put_code, Moves, stay, then_move, Moves-trans, one, if-Moves, maybe-Moves,
  relayed_message,
}
use p2p_transfer.Server.Cleanup.Moves.Sockets.{
  clear_peer_session_state-Moves, clear_idle_timer-Moves, close_peer_and_release-Moves,
  close_peer_with_code_and_release-Moves,
}
use p2p_transfer.Server.Cleanup.Moves.Ends.{
  cleanup_peer-Moves, send-Moves, fail-Moves, restore_waiting_receiver-Moves, delete_code-Moves,
  delete_session-Moves, clear_both-Moves, pair-Moves,
}
use p2p_transfer.Server.Pairing.{
  send_to, fail_to, restore, hit_rate_limit, reject_pre_pair, count_bad_message, bad_message,
  expire_waiting, become_receiver, register_again, replaces_own_code, new_entry, register_new,
  register_code, expire_and_miss, announce, become_sender, retry_waiting, retry_receiver,
  signaling_max_bad_messages, signaling_max_waiting_codes,
}

initial_valid : can_restore_pre_pair_code initial_pre_pair_attempts ≡ true
unfolding can_restore_pre_pair_code initial_pre_pair_attempts
initial_valid = refl

module _ (env : Env) where
  pub send_to-Moves :
      (s : Server) (q : ℕ) (m : ServerMessage)
      → relayed_message m ≡ []
      → Moves s (send_to env s q m).0
  unfolding send_to
  send_to-Moves s q m h = send-Moves env (cleanup_peer env) (cleanup_peer-Moves env) s q m h

  pub fail_to-Moves : (s : Server) (q : ℕ) (c : ErrorCode) → Moves s (fail_to env s q c)
  unfolding fail_to
  fail_to-Moves s q c = fail-Moves env (cleanup_peer env) (cleanup_peer-Moves env) s q c

  pub restore-Moves :
      (s : Server) (x : Session) (r : LeftReason) (b : Bool) → Moves s (restore env s x r b)
  unfolding restore
  restore-Moves s x r b =
      restore_waiting_receiver-Moves env (cleanup_peer env) (cleanup_peer-Moves env) s x r b

  pub hit_rate_limit-Moves : (s : Server) (q : ℕ) → Moves s (hit_rate_limit env s q).0
  unfolding hit_rate_limit
  hit_rate_limit-Moves s q =
      let r =
        hit_fixed_window_rate_limit s.rate_limits (s.peers q).ip (nat env.now) (nat minute)
          (nat 60) in
      let counted : Moves s (record s { rate_limits = r.0 }) =
        one (on_limits r.0 s.turn_issue_rate_limits) in
      pair-Moves _ _ r.1 (λ _. counted)
        (λ _. Moves-trans counted (fail_to-Moves _ q ErrorCode.rate_limited))

  pub reject_pre_pair-Moves :
      (s : Server) (q : ℕ) (x : Session) → Moves s (reject_pre_pair env s q x)
  unfolding reject_pre_pair
  reject_pre_pair-Moves s q x =
      Moves-trans (fail_to-Moves s q ErrorCode.bad_message)
        (restore-Moves _ x LeftReason.closed true)

  pub count_bad_message-Moves : (s : Server) (q : ℕ) → Moves s (count_bad_message env s q)
  unfolding count_bad_message
  count_bad_message-Moves s q =
      let counted = with_peer s q (λ p. record p { bad_messages = p.bad_messages + 1 }) in
      let failed = fail_to env counted q ErrorCode.bad_message in
      let counted-Moves : Moves s counted =
        one (on_peer q (λ p. record p { bad_messages = p.bad_messages + 1 }) (λ p. refl)) in
      let failed-Moves : Moves s failed =
        Moves-trans counted-Moves (fail_to-Moves counted q ErrorCode.bad_message) in
      if-Moves (leb signaling_max_bad_messages (failed.peers q).bad_messages)
        (λ _. Moves-trans failed-Moves (close_peer_with_code_and_release-Moves env failed q 1008))
        (λ _. failed-Moves)

  pub bad_message-Moves : (s : Server) (q : ℕ) → Moves s (bad_message env s q)
  unfolding bad_message
  bad_message-Moves s q =
      maybe-Moves (s.peers q).sid (λ _. count_bad_message-Moves s q)
        (λ sid _.
          maybe-Moves (lookup sid s.sessions) (λ _. count_bad_message-Moves s q)
            (λ x _.
              if-Moves (sender_disconnect_can_restore_receiver x.relay q)
                (λ _. reject_pre_pair-Moves s q x) (λ _. count_bad_message-Moves s q)))

  pub expire_waiting-Moves :
      (s : Server) (code : Text) (q : ℕ) → Moves s (expire_waiting env s code q)
  unfolding expire_waiting
  expire_waiting-Moves s code q =
      Moves-trans
        (Moves-trans (Moves-trans (delete_code-Moves s code) (clear_peer_session_state-Moves _ q))
          (fail_to-Moves _ q ErrorCode.expired))
        (close_peer_and_release-Moves env _ q)

  become_receiver-Moves :
      (s : Server) (q : ℕ) (code : Text) → Moves s (become_receiver env s q code)
  unfolding become_receiver
  become_receiver-Moves s q code =
      Moves-trans (one (on_peer q _ (λ p. refl))) (clear_idle_timer-Moves _ q)

  register_again-Moves :
      (s : Server) (q : ℕ) (code : Text) (e : WaitingCode) → Moves s (register_again env s q code e)
  unfolding register_again
  register_again-Moves s q code e =
      if-Moves (not (waiting_receiver_available e.expires_at env.now (peer_is_open env s q)))
        (λ _. expire_waiting-Moves s code q)
        (λ _. Moves-trans (become_receiver-Moves s q code) (send_to-Moves _ q _ refl))

  register_new-Moves : (s : Server) (q : ℕ) (code : Text) → Moves s (register_new env s q code)
  unfolding register_new set_code initial_pre_pair_attempts
  register_new-Moves s q code =
      let replacing = replaces_own_code env s q code in
      let dropped : Server =
        if replacing then maybe (s.peers q).code s (λ old. delete_code s old) else s in
      let dropped-Moves : Moves s dropped =
        if-Moves replacing
          (λ _. maybe-Moves (s.peers q).code (λ _. stay) (λ old _. delete_code-Moves s old))
          (λ _. stay) in
      if-Moves
        (not (can_register_waiting_code (size s.codes) signaling_max_waiting_codes replacing))
        (λ _. fail_to-Moves s q ErrorCode.rate_limited)
        (λ _.
          Moves-trans
            (then_move (Moves-trans dropped-Moves (become_receiver-Moves dropped q code))
              (put_code code (new_entry env q code) refl initial_valid))
            (send_to-Moves _ q (registered code 600) refl))

  pub register_code-Moves :
      (s : Server) (q : ℕ) (code : Text) → Moves s (register_code env s q code)
  unfolding register_code
  register_code-Moves s q code =
      maybe-Moves (lookup code s.codes) (λ _. register_new-Moves s q code)
        (λ e _.
          if-Moves (e.receiver == q) (λ _. register_again-Moves s q code e)
            (λ _. fail_to-Moves s q ErrorCode.code_taken))

  pub expire_and_miss-Moves :
      (s : Server) (q : ℕ) (code : Text) (w : WaitingCode)
      → Moves s (expire_and_miss env s q code w)
  unfolding expire_and_miss
  expire_and_miss-Moves s q code w =
      Moves-trans (expire_waiting-Moves s code w.receiver)
        (fail_to-Moves _ q ErrorCode.code_not_found)

  pub announce-Moves : (s : Server) (q : ℕ) (x : Session) → Moves s (announce env s q x)
  unfolding announce
  announce-Moves s q x =
      let told = send_to env s x.receiver (peer_joined x.sid) in
      let told-Moves = send_to-Moves s x.receiver (peer_joined x.sid) refl in
      let joined = send_to env told.0 q (peer_joined x.sid) in
      let joined-Moves = Moves-trans told-Moves (send_to-Moves told.0 q (peer_joined x.sid) refl) in
      if-Moves (not told.1)
        (λ _.
          Moves-trans
            (Moves-trans
              (Moves-trans told-Moves
                (Moves-trans (delete_session-Moves told.0 x.sid) (clear_both-Moves _ q x.receiver)))
              (close_peer_and_release-Moves env _ x.receiver))
            (fail_to-Moves _ q ErrorCode.peer_unavailable))
        (λ _.
          if-Moves joined.1 (λ _. joined-Moves)
            (λ _. Moves-trans joined-Moves (restore-Moves joined.0 x LeftReason.closed true)))

  pub become_sender-Moves :
      (s : Server) (q sid : ℕ) (code : Text) (p : ℕ) → Moves s (become_sender env s q sid code p)
  unfolding become_sender
  become_sender-Moves s q sid code p =
      then_move (Moves-trans (one (on_peer q _ (λ x. refl))) (clear_idle_timer-Moves _ q))
        (on_peer p (λ x. record x { sid = some sid }) (λ x. refl))

  retry_waiting-Moves :
      (s : Server) (q : ℕ) (code : Text) (w : WaitingCode)
      → Moves s (retry_waiting env s q code w).0
  unfolding retry_waiting
  retry_waiting-Moves s q code w =
      pair-Moves _ _ (not (w.receiver == q)) (λ _. stay)
        (λ _.
          pair-Moves _ _
            (not (waiting_receiver_available w.expires_at env.now (peer_is_open env s q)))
            (λ _. expire_waiting-Moves s code q) (λ _. send_to-Moves s q _ refl))

  maybe_pair-Moves {ℓ} :
      {A : Type ℓ} {s : Server} (d : Server × Bool) (f : A → Server × Bool) (o : Option A)
      → Moves s d.0
      → ((a : A) → Moves s (f a).0)
      → Moves s (maybe o d f).0
  maybe_pair-Moves d f none h k = h
  maybe_pair-Moves d f (some a) h k = k a

  pub retry_receiver-Moves : (s : Server) (q : ℕ) → Moves s (retry_receiver env s q).0
  unfolding retry_receiver
  retry_receiver-Moves s q =
      maybe_pair-Moves _ _ (s.peers q).sid
        (maybe_pair-Moves _ _ (s.peers q).code stay
          (λ code. maybe_pair-Moves _ _ (lookup code s.codes) stay (retry_waiting-Moves s q code)))
        (λ sid. maybe_pair-Moves _ _ (lookup sid s.sessions) stay (λ x.
          pair-Moves _ _ (receiver_can_retry_pre_pair x.relay q)
            (λ _. restore-Moves s x LeftReason.closed false) (λ _. stay)))
