-- ===== src/Shared/ControlWaiter/Settled.antt =====
-- shared/control-waiter.ts: every promise is settled at most once, and none is lost.
use p2p_transfer.Base.{
  ℕ, ◌≤◌, ◌<◌, ◌≡◌, ◌≢◌, inl, inr, refl, true, false, Option, none, some, [], ◌∷◌, Map, Text,
  Number, if◌then◌else◌, lookup, remove, nat_eq, text_eq, lookup-insert, lookup-remove, same_text,
  same_text_iff, ==_iff, ◌==◌, arith, Option-cases, Bool-cases,
}
use p2p_transfer.Shared.ControlWaiter.{
  Outcome, resolved, timed_out, failed_with, ControlAckWaiter, new_waiter, control_ack_input,
  settle, mark, promise, wait, on_timeout, fail_entries, fail,
}

-- An entry and the running timer of its promise belong together. A promise that was handed out has
-- its timer running and is not settled, or has no timer and is settled by one call. A number that
-- was not handed out has neither.
pub record IsLinked (w : ControlAckWaiter) : Type 0 where
  pub timer : (key : Text) (p : ℕ) → lookup key w.pending ≡ some p → lookup p w.armed ≡ some key
  pub entry : (key : Text) (p : ℕ) → lookup p w.armed ≡ some key → lookup key w.pending ≡ some p
  pub open_one :
      (key : Text) (p : ℕ) → lookup p w.armed ≡ some key → (p < w.made) × (w.settled p ≡ [])
  pub done_one :
      (p : ℕ) → p < w.made → lookup p w.armed ≡ none → (o : Outcome) × (w.settled p ≡ o ∷ [])
  pub unmade : (p : ℕ) → w.made ≤ p → w.settled p ≡ []

settled_once :
    (w : ControlAckWaiter) (key : Text) (p q : ℕ) (o : Outcome)
    → lookup key w.pending ≡ some p
    → IsLinked w
    → q < w.made
    → lookup q (remove p w.armed) ≡ none
    → (x : Outcome) × ((if p == q then o ∷ w.settled q else w.settled q) ≡ x ∷ [])
settled_once w key p q o found v h gone = elim (Bool-cases (p == q)) [
  | inl same ↦ (o, ground (arith, same, v.open_one key p (v.timer key p found), ==_iff p q))
  | inr other ↦
      let (x, done) = v.done_one q h (ground (arith, gone, other, lookup-remove p q w.armed)) in
      (x, ground (arith, other, done))
]

settle-IsLinked :
    (w : ControlAckWaiter) (key : Text) (p : ℕ) (o : Outcome)
    → lookup key w.pending ≡ some p
    → IsLinked w
    → IsLinked (settle w key p o)
unfolding settle
settle-IsLinked w key p o found v = record {
  timer = λ k q h. grind (
    arith,
    h,
    found,
    v.timer k q,
    v.entry key q,
    v.timer key p found,
    lookup-remove p q w.armed,
    lookup-remove key k w.pending,
    same_text_iff key k,
    ==_iff p q,
  );
  entry = λ k q h. grind (
    arith,
    h,
    found,
    v.entry k q,
    v.timer key p found,
    lookup-remove p q w.armed,
    lookup-remove key k w.pending,
    same_text_iff key k,
    ==_iff p q,
  );
  open_one = λ k q h. grind (arith, h, v.open_one k q, lookup-remove p q w.armed, ==_iff p q);
  done_one = λ q h gone. settled_once w key p q o found v h gone;
  unmade = λ q h. ground (arith, h, v.unmade q, v.open_one key p (v.timer key p found), ==_iff p q);
}

fresh_timer : (w : ControlAckWaiter) (key : Text) → IsLinked w → lookup w.made w.armed ≢ some key
fresh_timer w key v h = omega (arith, (v.open_one key w.made h).0)

promise-IsLinked :
    (w : ControlAckWaiter) (key : Text)
    → lookup key w.pending ≡ none
    → IsLinked w
    → IsLinked (promise w key)
unfolding promise
promise-IsLinked w key absent v = record {
  timer = λ k q h. grind (
    arith,
    h,
    absent,
    v.timer k q,
    v.open_one k q,
    lookup-insert w.made q key w.armed,
    lookup-insert key k w.made w.pending,
    same_text_iff key k,
    ==_iff w.made q,
  );
  entry = λ k q h. grind (
    arith,
    h,
    absent,
    v.entry k q,
    lookup-insert w.made q key w.armed,
    lookup-insert key k w.made w.pending,
    same_text_iff key k,
    ==_iff w.made q,
  );
  open_one = λ k q h.
      grind
        (arith, h, v.open_one k q, v.unmade q, lookup-insert w.made q key w.armed, ==_iff w.made q);
  done_one = λ q h gone.
      v.done_one q (ground (arith, gone, lookup-insert w.made q key w.armed, ==_iff w.made q))
        (ground (arith, gone, lookup-insert w.made q key w.armed, ==_iff w.made q));
  unmade = λ q h. v.unmade q (omega arith);
}

-- What an event keeps: the links, and that nothing is pending once the transfer has failed.
record IsKept (w : ControlAckWaiter) : Type 0 where
  linked : IsLinked w
  over : w.failed ≡ true → (key : Text) → lookup key w.pending ≡ none

settle-IsKept :
    (w : ControlAckWaiter) (key : Text) (p : ℕ) (o : Outcome)
    → lookup key w.pending ≡ some p
    → IsKept w
    → IsKept (settle w key p o)
unfolding settle
settle-IsKept w key p o found v = record {
  linked = settle-IsLinked w key p o found v.linked;
  over = λ failed k. ground (arith, v.over failed k, lookup-remove key k w.pending);
}

mark-IsKept :
    (w : ControlAckWaiter) (kind : Text) (id : Option Number) → IsKept w → IsKept (mark w kind id).0
unfolding mark
mark-IsKept w kind id v = elim (Option-cases (control_ack_input kind id)) [
  | inl bad ↦ rw (mark, bad) v
  | inr (key, good) ↦ elim (Option-cases (lookup key w.pending)) [
    | inl absent ↦ rw (mark, good, absent) v
    | inr (p, found) ↦ rw (mark, good, found) (settle-IsKept w key p resolved found v)
  ]
]

promise-IsKept :
    (w : ControlAckWaiter) (key : Text)
    → lookup key w.pending ≡ none
    → w.failed ≡ false
    → IsKept w
    → IsKept (promise w key)
unfolding promise
promise-IsKept w key absent working v = record {
  linked = promise-IsLinked w key absent v.linked;
  over = λ failed k. ground (arith, working, failed);
}

wait-IsKept :
    (w : ControlAckWaiter) (kind : Text) (id : Option Number) → IsKept w → IsKept (wait w kind id).0
unfolding wait
wait-IsKept w kind id v = elim (Option-cases (control_ack_input kind id)) [
  | inl bad ↦ simp (wait, bad) v
  | inr (key, good) ↦ elim (Bool-cases w.failed) [
    | inl broken ↦ simp (wait, good, broken) v
    | inr working ↦ elim (Option-cases (lookup key w.pending)) [
      | inl absent ↦ simp (wait, good, working, absent) (promise-IsKept w key absent working v)
      | inr (p, found) ↦ simp (wait, good, working, found) v
    ]
  ]
]

on_timeout-IsKept : (w : ControlAckWaiter) (p : ℕ) → IsKept w → IsKept (on_timeout w p)
unfolding on_timeout
on_timeout-IsKept w p v = elim (Option-cases (lookup p w.armed)) [
  | inl still ↦ rw (on_timeout, still) v
  | inr (key, runs) ↦
      rw (on_timeout, runs) (settle-IsKept w key p timed_out (v.linked.entry key p runs) v)
]

visit : ControlAckWaiter → Text → ControlAckWaiter
visit w key = elim (lookup key w.pending) [ none ↦ w | some q ↦ settle w key q failed_with ]

visit-IsLinked : (w : ControlAckWaiter) (key : Text) → IsLinked w → IsLinked (visit w key)
unfolding visit
visit-IsLinked w key v = elim (Option-cases (lookup key w.pending)) [
  | inl absent ↦ rw (visit, absent) v
  | inr (p, found) ↦ rw (visit, found) (settle-IsLinked w key p failed_with found v)
]

visit-pending :
    (w : ControlAckWaiter) (key k : Text)
    → lookup k (visit w key).pending ≡ (if same_text key k then none else lookup k w.pending)
unfolding visit settle
visit-pending w key k = elim (Option-cases (lookup key w.pending)) [
  | inl absent ↦ grind (arith, absent, same_text_iff key k)
  | inr (p, found) ↦ ground (arith, found, lookup-remove key k w.pending)
]

fail_entries-IsLinked :
    (w : ControlAckWaiter) (m : Map Text ℕ) → IsLinked w → IsLinked (fail_entries w m)
unfolding fail_entries visit
fail_entries-IsLinked w [] v = v
fail_entries-IsLinked w ((key, p) ∷ rest) v =
    fail_entries-IsLinked (visit w key) rest (visit-IsLinked w key v)

-- The loop leaves nothing when it begins with all the entries there are.
fail_entries-pending :
    (w : ControlAckWaiter) (m : Map Text ℕ)
    → ((k : Text) → lookup k m ≡ none → lookup k w.pending ≡ none)
    → (k : Text) → lookup k (fail_entries w m).pending ≡ none
unfolding fail_entries lookup visit
fail_entries-pending w [] covers k = covers k refl
fail_entries-pending w ((key, p) ∷ rest) covers k =
    fail_entries-pending (visit w key) rest
      (λ j gone. ground (arith, visit-pending w key j, covers j, gone)) k

fail-IsKept : (w : ControlAckWaiter) → IsKept w → IsKept (fail w)
unfolding fail
fail-IsKept w v =
    let broken : ControlAckWaiter = record w { failed = true } in
    let linked : IsLinked broken = record {
      timer = v.linked.timer;
      entry = v.linked.entry;
      open_one = v.linked.open_one;
      done_one = v.linked.done_one;
      unmade = v.linked.unmade;
    } in
    elim (Bool-cases w.failed) [
      | inl already ↦ simp (fail, already) v
      | inr working ↦
          simp (fail, working)
            (record {
              linked = fail_entries-IsLinked broken w.pending linked;
              over = λ _ k. fail_entries-pending broken w.pending (λ j gone. gone) k;
            })
    ]

new_waiter-IsKept : (timeout_ms : ℕ) → IsKept (new_waiter timeout_ms)
unfolding new_waiter lookup
new_waiter-IsKept timeout_ms = record {
  linked = record {
    timer = λ key p h. ground arith;
    entry = λ key p h. ground arith;
    open_one = λ key p h. ground arith;
    done_one = λ p h gone. ground arith;
    unmade = λ p h. refl;
  };
  over = λ failed key. refl;
}

-- One call of the waiter's methods, or of the callback of a timer.
pub data Step : ControlAckWaiter → ControlAckWaiter → Type 0 where
  marked : {w : ControlAckWaiter} (kind : Text) (id : Option Number) → Step w (mark w kind id).0
  waited : {w : ControlAckWaiter} (kind : Text) (id : Option Number) → Step w (wait w kind id).0
  expired : {w : ControlAckWaiter} (p : ℕ) → Step w (on_timeout w p)
  broken_off : {w : ControlAckWaiter} → Step w (fail w)

pub data IsReachable : ControlAckWaiter → Type 0 where
  fresh : (timeout_ms : ℕ) → IsReachable (new_waiter timeout_ms)
  after : {v w : ControlAckWaiter} → IsReachable v → Step v w → IsReachable w

Step-IsKept : {v w : ControlAckWaiter} → Step v w → IsKept v → IsKept w
Step-IsKept {v} (marked kind id) k = mark-IsKept v kind id k
Step-IsKept {v} (waited kind id) k = wait-IsKept v kind id k
Step-IsKept {v} (expired p) k = on_timeout-IsKept v p k
Step-IsKept {v} broken_off k = fail-IsKept v k

IsReachable-IsKept : (w : ControlAckWaiter) → IsReachable w → IsKept w
IsReachable-IsKept w (fresh timeout_ms) = new_waiter-IsKept timeout_ms
IsReachable-IsKept w (after r step) = Step-IsKept step (IsReachable-IsKept _ r)

-- After any calls of a waiter's methods and of its timers' callbacks, an entry and the running timer
-- of its promise belong together, a promise that was handed out either has its timer running and is
-- not settled or has no timer and was settled by exactly one call, and after `fail` nothing is
-- pending: every promise is settled then.
pub IsReachable-IsLinked :
    (w : ControlAckWaiter)
    → IsReachable w
    → IsLinked w × (w.failed ≡ true → (p : ℕ) → p < w.made → (o : Outcome) × (w.settled p ≡ o ∷ []))
IsReachable-IsLinked w r =
    let k = IsReachable-IsKept w r in
    (
      k.linked,
      λ failed p made. elim (Option-cases (lookup p w.armed)) [
        | inl gone ↦ k.linked.done_one p made gone
        | inr (key, runs) ↦ ground (arith, k.over failed key, k.linked.entry key p runs)
      ],
    )
