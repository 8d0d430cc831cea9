-- ===== src/Server/Cleanup/Moves/Ends.antt =====
-- Sending, ending a session and restoring a receiver are such changes, if the cleanup of a failed
-- send is one.
use p2p_transfer.Base.{
  ℕ, zero, suc, ◌≡◌, refl, Bool, true, false, not, Option, none, some, [], ◌∷◌, if◌then◌else◌,
  lookup, size, nat_eq, text_eq, min, ◌==◌, Text,
}
use p2p_transfer.Shared.Messages.{
  Role, ServerMessage, registered, peer_left, error, ErrorCode, LeftReason,
}
use p2p_transfer.Server.Policy.{
  session_peer_id, other_session_peer_id, sender_disconnect_can_restore_receiver,
}
use p2p_transfer.Server.Admission.{can_restore_pre_pair_code, remaining_expiry_seconds}
use p2p_transfer.Server.State.{
  sent, refused, Env, WaitingCode, Session, Server, with_peer, maybe, push_call,
}
use p2p_transfer.Server.Sockets.{
  clear_peer_session_state, close_peer_and_release, peer_is_open, signaling_backpressure_exceeded,
}
use p2p_transfer.Server.Cleanup.{
  Cleanup, delete_session, delete_code, set_code, member, waits_for, receiver_waits,
  close_peer_for_send_failure, send, fail, notify_one, notify_peer_left, end_session,
  close_session_peers, expire_receiver_after_pre_pair_attempts, drop_restored,
  send_restored_registration, finish_restore, restore_existing, restore_absent,
  restore_waiting_receiver, leave_session, cleanup_step, cleanup_rounds, cleanup_peer,
}
use p2p_transfer.Server.Cleanup.Moves.{
  on_peer, drop_session, drop_code, put_code, lower_code, expire_code, Moves, stay, then_move,
  Moves-trans, one, if-Moves, maybe-Moves, relayed_message,
}
use p2p_transfer.Server.Cleanup.Moves.Sockets.{
  clear_peer_session_state-Moves, close_peer_and_release-Moves,
}

pub pair-Moves :
    {A : Type 0} {s : Server} (x y : Server × A) (b : Bool)
    → (b ≡ true → Moves s x.0)
    → (b ≡ false → Moves s y.0)
    → Moves s (if b then x else y).0
pair-Moves x y true h k = h refl
pair-Moves x y false h k = k refl

pub delete_session-Moves : (s : Server) (sid : ℕ) → Moves s (delete_session s sid)
unfolding delete_session
delete_session-Moves s sid = one (drop_session sid)

pub delete_code-Moves : (s : Server) (code : Text) → Moves s (delete_code s code)
unfolding delete_code
delete_code-Moves s code = one (drop_code code)

receiver_waits-Moves : (s : Server) (x : Session) → Moves s (receiver_waits s x)
unfolding receiver_waits
receiver_waits-Moves s x = one (on_peer x.receiver _ (λ p. refl))

pub clear_both-Moves :
    (s : Server) (p q : ℕ) → Moves s (clear_peer_session_state (clear_peer_session_state s p) q)
clear_both-Moves s p q =
    Moves-trans (clear_peer_session_state-Moves s p) (clear_peer_session_state-Moves _ q)

close_both-Moves :
    (env : Env) (s : Server) (p q : ℕ)
    → Moves s (close_peer_and_release env (close_peer_and_release env s p) q)
close_both-Moves env s p q =
    Moves-trans (close_peer_and_release-Moves env s p) (close_peer_and_release-Moves env _ q)

pub close_session_peers-Moves :
    (env : Env) (cleanup : Cleanup) (s : Server) (x : Session)
    → Moves s (close_session_peers env cleanup s x)
unfolding close_session_peers
close_session_peers-Moves env cleanup s x =
    Moves-trans
      (Moves-trans (delete_session-Moves s x.sid) (clear_both-Moves _ x.sender x.receiver))
      (close_both-Moves env _ x.sender x.receiver)

module _ (env : Env) (cleanup : Cleanup)
    (cleans : (s : Server) (q : ℕ) (r : LeftReason) → Moves s (cleanup s q r)) where
  pub failure-Moves : (s : Server) (q : ℕ) → Moves s (close_peer_for_send_failure env cleanup s q)
  unfolding close_peer_for_send_failure
  failure-Moves s q =
      Moves-trans (cleans s q LeftReason.closed) (close_peer_and_release-Moves env _ q)

  -- What becomes of the state when a message that is no client's is sent.
  pub send-Moves :
      (s : Server) (q : ℕ) (m : ServerMessage)
      → relayed_message m ≡ []
      → Moves s (send env cleanup s q m).0
  unfolding send
  send-Moves s q m h =
      let calls = (s.peers q).calls in
      let handed = one (on_peer {s = s} q (push_call (sent m)) (λ p. rw h)) in
      pair-Moves _ _ (not (peer_is_open env s q)) (λ _. stay)
        (λ _.
          pair-Moves _ _ (signaling_backpressure_exceeded env q calls) (λ _. failure-Moves s q)
            (λ _.
              pair-Moves _ _ (env.send_throws q calls m)
                (λ _.
                  Moves-trans (one (on_peer q (push_call (refused m)) (λ p. refl)))
                    (failure-Moves _ q))
                (λ _.
                  pair-Moves _ _ (signaling_backpressure_exceeded env q (sent m ∷ calls))
                    (λ _. Moves-trans handed (failure-Moves _ q)) (λ _. handed))))

  pub fail-Moves : (s : Server) (q : ℕ) (c : ErrorCode) → Moves s (fail env cleanup s q c)
  unfolding fail
  fail-Moves s q c = send-Moves s q (error c) refl

  pub notify_one-Moves :
      (s : Server) (x : Session) (l : Option ℕ) (r : LeftReason) (q : ℕ)
      → Moves s (notify_one env cleanup s x l r q)
  unfolding notify_one
  notify_one-Moves s x l r q =
      if-Moves (maybe l false (λ p. q == p)) (λ _. stay)
        (λ _. send-Moves s q (peer_left x.sid r) refl)

  pub notify_peer_left-Moves :
      (s : Server) (x : Session) (l : Option ℕ) (r : LeftReason)
      → Moves s (notify_peer_left env cleanup s x l r)
  unfolding notify_peer_left
  notify_peer_left-Moves s x l r =
      Moves-trans (notify_one-Moves s x l r x.sender) (notify_one-Moves _ x l r x.receiver)

  pub end_session-Moves :
      (s : Server) (x : Session) (r : LeftReason) (role : Role)
      → Moves s (end_session env cleanup s x r role)
  unfolding end_session
  end_session-Moves s x r role =
      Moves-trans
        (Moves-trans (delete_session-Moves s x.sid) (
          Moves-trans (notify_peer_left-Moves _ x (some (member x role)) r)
            (clear_both-Moves _ x.sender x.receiver)))
        (close_peer_and_release-Moves env _ (member x (other_session_peer_id role)))

  -- What follows the deletion of the code.
  told-Moves :
      (s t : Server) (x : Session)
      → Moves s t
      → Moves s (
          close_peer_and_release env
            (close_peer_and_release env
              (fail env cleanup
                (clear_peer_session_state
                  (clear_peer_session_state
                    (notify_peer_left env cleanup t x (some x.sender) LeftReason.closed)
                    x.sender)
                  x.receiver)
                x.receiver
                ErrorCode.expired)
              x.sender)
            x.receiver)
  told-Moves s t x h = Moves-trans h (
      Moves-trans
        (Moves-trans (notify_peer_left-Moves t x (some x.sender) LeftReason.closed)
          (clear_both-Moves _ x.sender x.receiver))
        (Moves-trans (fail-Moves _ x.receiver ErrorCode.expired)
          (close_both-Moves env _ x.sender x.receiver)))

  drop_restored-Moves : (s : Server) (x : Session) → Moves s (drop_restored env cleanup s x)
  unfolding drop_restored
  drop_restored-Moves s x =
      Moves-trans
        (Moves-trans
          (if-Moves (waits_for s x.code x.receiver) (λ _. delete_code-Moves s x.code) (λ _. stay))
          (clear_peer_session_state-Moves _ x.receiver))
        (close_peer_and_release-Moves env _ x.receiver)

  send_restored-Moves :
      (s : Server) (x : Session) (n : ℕ) → Moves s (send_restored_registration env cleanup s x n)
  unfolding send_restored_registration
  send_restored-Moves s x n =
      let m = registered x.code (remaining_expiry_seconds n env.now) in
      let r = send env cleanup s x.receiver m in
      Moves-trans (send-Moves s x.receiver m refl)
        (if-Moves r.1 (λ _. stay) (λ _. drop_restored-Moves r.0 x))

  pub finish_restore-Moves :
      (s : Server) (x : Session) (r : LeftReason) (b : Bool) (n : ℕ)
      → Moves s (finish_restore env cleanup s x r b n)
  unfolding finish_restore
  finish_restore-Moves s x r b n =
      Moves-trans
        (Moves-trans (if-Moves b (λ _. notify_peer_left-Moves s x (some x.sender) r) (λ _. stay))
          (close_peer_and_release-Moves env _ x.sender))
        (send_restored-Moves _ x n)

  pub waiting-Moves :
      (s : Server) (x : Session) → Moves s (receiver_waits (clear_peer_session_state s x.sender) x)
  waiting-Moves s x =
      Moves-trans (clear_peer_session_state-Moves s x.sender) (receiver_waits-Moves _ x)

  restore_absent-Moves :
      (s : Server) (x : Session) (r : LeftReason) (b : Bool)
      → Moves s (restore_absent env cleanup s x r b)
  unfolding restore_absent set_code expire_receiver_after_pre_pair_attempts
  restore_absent-Moves s x r b =
      if-Moves (can_restore_pre_pair_code x.remaining_pre_pair_attempts)
        (λ can.
          Moves-trans (then_move (waiting-Moves s x) (put_code x.code _ refl can))
            (finish_restore-Moves _ x r b x.code_expires_at))
        (λ _. told-Moves s _ x (waiting-Moves s x))

  restore_existing-Moves :
      (s : Server) (x : Session) (e : WaitingCode) (r : LeftReason) (b : Bool)
      → lookup x.code s.codes ≡ some e
      → Moves s (restore_existing env cleanup s x e r b)
  unfolding restore_existing set_code delete_code expire_receiver_after_pre_pair_attempts
      receiver_waits clear_peer_session_state with_peer
  restore_existing-Moves s x e r b found =
      let n = min e.remaining_pre_pair_attempts x.remaining_pre_pair_attempts in
      if-Moves (can_restore_pre_pair_code n)
        (λ can.
          Moves-trans (then_move (waiting-Moves s x) (lower_code x.code e n found can))
            (finish_restore-Moves _ x r b e.expires_at))
        (λ _. told-Moves s _ x (then_move (waiting-Moves s x) (expire_code x.code e n found)))

  pub restore_waiting_receiver-Moves :
      (s : Server) (x : Session) (r : LeftReason) (b : Bool)
      → Moves s (restore_waiting_receiver env cleanup s x r b)
  unfolding restore_waiting_receiver delete_session
  restore_waiting_receiver-Moves s x r b = Moves-trans (one (drop_session x.sid)) (
      maybe-Moves (lookup x.code s.codes) (λ _. restore_absent-Moves _ x r b)
        (λ e found.
          if-Moves (e.receiver == x.receiver) (λ _. restore_existing-Moves _ x e r b found)
            (λ _.
              Moves-trans (notify_peer_left-Moves _ x none LeftReason.closed)
                (close_session_peers-Moves env cleanup _ x))))

  leave_session-Moves :
      (s : Server) (q : ℕ) (r : LeftReason) (x : Session)
      → Moves s (leave_session env cleanup s q r x)
  unfolding leave_session
  leave_session-Moves s q r x =
      if-Moves (sender_disconnect_can_restore_receiver x.relay q)
        (λ _. restore_waiting_receiver-Moves s x LeftReason.closed true)
        (λ _.
          maybe-Moves (session_peer_id x.relay q) (λ _. stay)
            (λ role _. end_session-Moves s x r role))

  pub cleanup_step-Moves :
      (s : Server) (q : ℕ) (r : LeftReason) → Moves s (cleanup_step env cleanup s q r)
  unfolding cleanup_step
  cleanup_step-Moves s q r =
      let p = s.peers q in
      let owned : Bool = maybe p.code false (λ code. waits_for s code q) in
      let dropped : Server = if owned then maybe p.code s (λ code. delete_code s code) else s in
      Moves-trans {t = dropped}
        (if-Moves owned (λ _. maybe-Moves p.code (λ _. stay) (λ code _. delete_code-Moves s code))
          (λ _. stay))
        (maybe-Moves p.sid (λ _. stay)
          (λ sid _.
            maybe-Moves (lookup sid dropped.sessions) (λ _. stay)
              (λ x _. leave_session-Moves dropped q r x)))

pub cleanup_rounds-Moves :
    (env : Env) (n : ℕ) (s : Server) (q : ℕ) (r : LeftReason) → Moves s (cleanup_rounds env n s q r)
unfolding cleanup_rounds
cleanup_rounds-Moves env zero s q r = stay
cleanup_rounds-Moves env (suc n) s q r =
    cleanup_step-Moves env (cleanup_rounds env n) (cleanup_rounds-Moves env n) s q r

-- A cleanup, with all that the failed sends in it bring about, is a sequence of such changes.
pub cleanup_peer-Moves :
    (env : Env) (s : Server) (q : ℕ) (r : LeftReason) → Moves s (cleanup_peer env s q r)
unfolding cleanup_peer
cleanup_peer-Moves env s q r = cleanup_rounds-Moves env (suc (size s.sessions)) s q r
