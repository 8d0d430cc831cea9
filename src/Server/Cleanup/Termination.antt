-- ===== src/Server/Cleanup/Termination.antt =====
-- The rounds of a cleanup are enough: each cleanup that sends has deleted a session before.
use p2p_transfer.Base.{
  ℕ, zero, suc, ◌≤◌, ◌<◌, ◌≡◌, refl, sym, ap, inl, inr, Bool, true, false, Option, none, some,
  if◌then◌else◌, lookup, remove, size, nat_eq, text_eq, min, Text, Map, lookup-remove,
  size-remove-le, size-remove-lt, arith, Option-cases,
}
use p2p_transfer.Shared.Messages.{
  Role, ServerMessage, registered, peer_left, error, ErrorCode, LeftReason,
}
use p2p_transfer.Server.Policy.{session_peer_id}
use p2p_transfer.Server.Admission.{remaining_expiry_seconds}
use p2p_transfer.Server.State.{
  Call, sent, refused, Env, WaitingCode, Session, Server, with_peer, maybe, push_call,
}
use p2p_transfer.Server.Cleanup.{
  Cleanup, delete_session, delete_code, set_code, member, waits_for, close_peer_for_send_failure,
  send, fail, notify_one, notify_peer_left, end_session, close_session_peers,
  expire_receiver_after_pre_pair_attempts, drop_restored, send_restored_registration,
  finish_restore, restore_existing, restore_absent, restore_waiting_receiver, leave_session,
  cleanup_step, cleanup_rounds, cleanup_peer,
}
use p2p_transfer.Server.Cleanup.Moves.{
  Move, on_peer, on_connections, on_registry, on_limits, drop_session, drop_code, put_code,
  lower_code, expire_code, Moves, stay, then_move, Moves-trans, if-Moves, maybe-Moves,
}
use p2p_transfer.Server.Cleanup.Moves.Sockets.{close_peer_and_release-Moves}
use p2p_transfer.Server.Cleanup.Moves.Ends.{
  notify_one-Moves, notify_peer_left-Moves, delete_code-Moves, clear_both-Moves, waiting-Moves,
  cleanup_rounds-Moves, cleanup_peer-Moves,
}

-- Each session stands under its own identifier.
abbrev pub IsKeyed : Map ℕ Session → Type 0
IsKeyed m = (sid : ℕ) (x : Session) → lookup sid m ≡ some x → x.sid ≡ sid

pub remove-IsKeyed : (sid : ℕ) (m : Map ℕ Session) → IsKeyed m → IsKeyed (remove sid m)
remove-IsKeyed sid m h k x e = h k x (ground (arith, lookup-remove sid k m))

-- The sessions are keyed, and fewer than a bound.
pub record IsBelow (k : ℕ) (s : Server) : Type 0 where
  pub keyed : IsKeyed s.sessions
  pub fewer : size s.sessions < k

Move-IsBelow : {k : ℕ} {s t : Server} → Move s t → IsBelow k s → IsBelow k t
unfolding with_peer
Move-IsBelow (on_peer q f quiet) b = record { keyed = b.keyed; fewer = b.fewer }
Move-IsBelow (on_connections m) b = record { keyed = b.keyed; fewer = b.fewer }
Move-IsBelow (on_registry ps) b = record { keyed = b.keyed; fewer = b.fewer }
Move-IsBelow (on_limits m n) b = record { keyed = b.keyed; fewer = b.fewer }
Move-IsBelow {s} (drop_session sid) b = record {
  keyed = remove-IsKeyed sid s.sessions b.keyed;
  fewer = omega (arith, b.fewer, size-remove-le sid s.sessions);
}
Move-IsBelow (drop_code code) b = record { keyed = b.keyed; fewer = b.fewer }
Move-IsBelow (put_code code entry e h) b = record { keyed = b.keyed; fewer = b.fewer }
Move-IsBelow (lower_code code entry n e h) b = record { keyed = b.keyed; fewer = b.fewer }
Move-IsBelow (expire_code code entry n e) b = record { keyed = b.keyed; fewer = b.fewer }

pub Moves-IsBelow : {k : ℕ} {s t : Server} → Moves s t → IsBelow k s → IsBelow k t
Moves-IsBelow stay b = b
Moves-IsBelow (then_move ms m) b = Move-IsBelow m (Moves-IsBelow ms b)

module _ (env : Env) (k : ℕ) (f g : Cleanup)
    (g_moves : (s : Server) (q : ℕ) (r : LeftReason) → Moves s (g s q r))
    (agree : (s : Server) (q : ℕ) (r : LeftReason) → IsBelow k s → f s q r ≡ g s q r) where
  failure-agree :
      (s : Server) (q : ℕ)
      → IsBelow k s
      → close_peer_for_send_failure env f s q ≡ close_peer_for_send_failure env g s q
  unfolding close_peer_for_send_failure
  failure-agree s q b = rw (agree s q LeftReason.closed b)

  pushed-IsBelow :
      (s : Server) (q : ℕ) (c : Call) → IsBelow k s → IsBelow k (with_peer s q (push_call c))
  unfolding with_peer
  pushed-IsBelow s q c b = record { keyed = b.keyed; fewer = b.fewer }

  send-agree :
      (s : Server) (q : ℕ) (m : ServerMessage) → IsBelow k s → send env f s q m ≡ send env g s q m
  unfolding send
  send-agree s q m b = cc (
    failure-agree s q b,
    failure-agree _ q (pushed-IsBelow s q (refused m) b),
    failure-agree _ q (pushed-IsBelow s q (sent m) b),
  )

  notify_one-agree :
      (s : Server) (x : Session) (l : Option ℕ) (r : LeftReason) (q : ℕ)
      → IsBelow k s
      → notify_one env f s x l r q ≡ notify_one env g s x l r q
  unfolding notify_one
  notify_one-agree s x l r q b = rw (send-agree s q (peer_left x.sid r) b)

  notify_peer_left-agree :
      (s : Server) (x : Session) (l : Option ℕ) (r : LeftReason)
      → IsBelow k s
      → notify_peer_left env f s x l r ≡ notify_peer_left env g s x l r
  unfolding notify_peer_left
  notify_peer_left-agree s x l r b = rw (notify_one-agree s x l r x.sender b) (
      notify_one-agree _ x l r x.receiver
        (Moves-IsBelow (notify_one-Moves env g g_moves s x l r x.sender) b))

  end_session-agree :
      (s : Server) (x : Session) (r : LeftReason) (role : Role)
      → IsBelow k (delete_session s x.sid)
      → end_session env f s x r role ≡ end_session env g s x r role
  unfolding end_session
  end_session-agree s x r role b =
      rw (notify_peer_left-agree (delete_session s x.sid) x (some (member x role)) r b)

  fail-agree :
      (s : Server) (q : ℕ) (c : ErrorCode) → IsBelow k s → fail env f s q c ≡ fail env g s q c
  unfolding fail
  fail-agree s q c b = ap (λ r. r.0) (send-agree s q (error c) b)

  expire-agree :
      (s : Server) (x : Session) (e : Option WaitingCode)
      → IsBelow k s
      → expire_receiver_after_pre_pair_attempts env f s x e
        ≡ expire_receiver_after_pre_pair_attempts env g s x e
  unfolding expire_receiver_after_pre_pair_attempts
  expire-agree s x e b =
      let dropped = maybe-Moves {s = s} e (λ _. stay) (λ entry _. delete_code-Moves s entry.code) in
      let low = Moves-IsBelow dropped b in
      let told = notify_peer_left-Moves env g g_moves _ x (some x.sender) LeftReason.closed in
      rw (notify_peer_left-agree _ x (some x.sender) LeftReason.closed low) (
        rw (
          fail-agree _ x.receiver ErrorCode.expired
            (Moves-IsBelow (Moves-trans told (clear_both-Moves _ x.sender x.receiver)) low)))

  send_restored-agree :
      (s : Server) (x : Session) (at : ℕ)
      → IsBelow k s
      → send_restored_registration env f s x at ≡ send_restored_registration env g s x at
  unfolding send_restored_registration drop_restored
  send_restored-agree s x at b =
      rw (send-agree s x.receiver (registered x.code (remaining_expiry_seconds at env.now)) b)

  finish_restore-agree :
      (s : Server) (x : Session) (r : LeftReason) (n : Bool) (at : ℕ)
      → IsBelow k s
      → finish_restore env f s x r n at ≡ finish_restore env g s x r n at
  unfolding finish_restore
  finish_restore-agree s x r true at b =
      let told = notify_peer_left-Moves env g g_moves s x (some x.sender) r in
      rw (notify_peer_left-agree s x (some x.sender) r b) (
        send_restored-agree _ x at
          (Moves-IsBelow (Moves-trans told (close_peer_and_release-Moves env _ x.sender)) b))
  finish_restore-agree s x r false at b =
      send_restored-agree _ x at (Moves-IsBelow (close_peer_and_release-Moves env s x.sender) b)

  with_code-IsBelow :
      (s : Server) (code : Text) (e : WaitingCode) → IsBelow k s → IsBelow k (set_code s code e)
  unfolding set_code
  with_code-IsBelow s code e b = record { keyed = b.keyed; fewer = b.fewer }

  restore_existing-agree :
      (s : Server) (x : Session) (e : WaitingCode) (r : LeftReason) (n : Bool)
      → IsBelow k s
      → restore_existing env f s x e r n ≡ restore_existing env g s x e r n
  unfolding restore_existing
  restore_existing-agree s x e r n b =
      let m = min e.remaining_pre_pair_attempts x.remaining_pre_pair_attempts in
      let entry : WaitingCode = record e { remaining_pre_pair_attempts = m } in
      let low =
        with_code-IsBelow _ x.code entry (Moves-IsBelow (waiting-Moves env g g_moves s x) b) in
      rw (finish_restore-agree _ x r n e.expires_at low, expire-agree _ x (some entry) low)

  restore_absent-agree :
      (s : Server) (x : Session) (r : LeftReason) (n : Bool)
      → IsBelow k s
      → restore_absent env f s x r n ≡ restore_absent env g s x r n
  unfolding restore_absent
  restore_absent-agree s x r n b =
      let low = Moves-IsBelow (waiting-Moves env g g_moves s x) b in
      let entry : WaitingCode = record {
        code = x.code;
        receiver = x.receiver;
        expires_at = x.code_expires_at;
        remaining_pre_pair_attempts = x.remaining_pre_pair_attempts;
      } in
      rw (
        finish_restore-agree _ x r n x.code_expires_at (with_code-IsBelow _ x.code entry low),
        expire-agree _ x none low,
      )

  restore-agree :
      (s : Server) (x : Session) (r : LeftReason) (n : Bool)
      → IsBelow k (delete_session s x.sid)
      → restore_waiting_receiver env f s x r n ≡ restore_waiting_receiver env g s x r n
  unfolding restore_waiting_receiver close_session_peers
  restore-agree s x r n b = elim (Option-cases (lookup x.code s.codes)) [
    | inl e ↦ rw e (restore_absent-agree _ x r n b)
    | inr (entry, e) ↦ rw e (
        rw (
          restore_existing-agree (delete_session s x.sid) x entry r n b,
          notify_peer_left-agree (delete_session s x.sid) x none LeftReason.closed b,
        ))
  ]

  leave_session-agree :
      (s : Server) (q : ℕ) (r : LeftReason) (x : Session)
      → IsBelow k (delete_session s x.sid)
      → leave_session env f s q r x ≡ leave_session env g s q r x
  unfolding leave_session
  leave_session-agree s q r x b = elim (Option-cases (session_peer_id x.relay q)) [
    | inl e ↦ rw e (rw (restore-agree s x LeftReason.closed true b))
    | inr (role, e) ↦
        rw e (rw (restore-agree s x LeftReason.closed true b, end_session-agree s x r role b))
  ]

  deleted-IsBelow :
      (s : Server) (sid : ℕ) (x : Session)
      → IsBelow (suc k) s
      → lookup sid s.sessions ≡ some x
      → IsBelow k (delete_session s x.sid)
  unfolding delete_session
  deleted-IsBelow s sid x b found =
      let same : x.sid ≡ sid = b.keyed sid x found in
      record {
        keyed = remove-IsKeyed x.sid s.sessions b.keyed;
        fewer = rw same (omega (arith, b.fewer, size-remove-lt sid s.sessions x found));
      }

  in_session-agree :
      (s : Server) (q : ℕ) (r : LeftReason) (o : Option ℕ)
      → IsBelow (suc k) s
      → maybe o s (λ sid. maybe (lookup sid s.sessions) s (λ x. leave_session env f s q r x))
        ≡ maybe o s (λ sid. maybe (lookup sid s.sessions) s (λ x. leave_session env g s q r x))
  in_session-agree s q r none b = refl
  in_session-agree s q r (some sid) b = elim (Option-cases (lookup sid s.sessions)) [
    | inl e ↦ rw e refl
    | inr (x, e) ↦ rw e (leave_session-agree s q r x (deleted-IsBelow s sid x b e))
  ]

  -- A cleanup of a session that is there makes its cleanups when one session less is there.
  pub cleanup_step-agree :
      (s : Server) (q : ℕ) (r : LeftReason)
      → IsBelow (suc k) s
      → cleanup_step env f s q r ≡ cleanup_step env g s q r
  unfolding cleanup_step
  cleanup_step-agree s q r b =
      let p = s.peers q in
      let owned : Bool = maybe p.code false (λ code. waits_for s code q) in
      in_session-agree (if owned then maybe p.code s (λ code. delete_code s code) else s) q r p.sid
        (Moves-IsBelow
          (if-Moves {s = s} owned
            (λ _. maybe-Moves {s = s} p.code (λ _. stay) (λ code _. delete_code-Moves s code))
            (λ _. stay))
          b)

-- More rounds than sessions change nothing.
pub rounds-agree :
    (env : Env) (n m : ℕ) (s : Server) (q : ℕ) (r : LeftReason)
    → n ≤ m
    → IsBelow n s
    → cleanup_rounds env n s q r ≡ cleanup_rounds env m s q r
unfolding cleanup_rounds
rounds-agree env zero m s q r h b = absurd (omega (arith, b.fewer))
rounds-agree env (suc n) zero s q r h b = absurd (omega arith)
rounds-agree env (suc n) (suc m) s q r h b =
    cleanup_step-agree env n (cleanup_rounds env n) (cleanup_rounds env m)
      (cleanup_rounds-Moves env m) (λ t p c low. rounds-agree env n m t p c (omega arith) low) s q r
      b

-- The rounds suffice: with more rounds than sessions a cleanup is the same whatever their number,
-- if each session stands under its own identifier.
pub cleanup_rounds-enough :
    (env : Env) (n : ℕ) (s : Server) (q : ℕ) (r : LeftReason)
    → IsKeyed s.sessions
    → size s.sessions < n
    → cleanup_rounds env n s q r ≡ cleanup_peer env s q r
unfolding cleanup_peer
cleanup_rounds-enough env n s q r keyed h = sym (
    rounds-agree env (suc (size s.sessions)) n s q r (omega arith)
      (record { keyed = keyed; fewer = omega arith }))

-- So the cleanup of a peer solves the equation that the source writes: its body, in which every
-- failed send makes the whole cleanup of its peer.
pub cleanup_peer-step :
    (env : Env) (s : Server) (q : ℕ) (r : LeftReason)
    → IsKeyed s.sessions
    → cleanup_peer env s q r ≡ cleanup_step env (cleanup_peer env) s q r
unfolding cleanup_peer cleanup_rounds
cleanup_peer-step env s q r keyed =
    cleanup_step-agree env (size s.sessions) (cleanup_rounds env (size s.sessions))
      (cleanup_peer env) (cleanup_peer-Moves env)
      (λ t p c low. cleanup_rounds-enough env (size s.sessions) t p c low.keyed low.fewer) s q r
      (record { keyed = keyed; fewer = omega arith })
