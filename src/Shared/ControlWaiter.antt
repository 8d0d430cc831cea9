-- ===== src/Shared/ControlWaiter.antt =====
-- shared/control-waiter.ts: `ControlAckWaiter`, which hands out a promise for an acknowledgement and settles
-- it when the acknowledgement comes, its time is over, or the transfer fails.
pub mod Settled
use p2p_transfer.Base.{
  ℕ, zero, suc, ◌+◌, Bool, true, false, not, ◌&&◌, Option, none, some, List, [], ◌∷◌, ◌++◌, Map,
  Text, Number, safe_natural, same_text, leb, ◌==◌, if◌then◌else◌, lookup, insert, remove, nat_eq,
  text_eq,
}
use p2p_transfer.Shared.FileNames.{units, decimal}

abbrev pub transfer_control_timeout_ms : ℕ
transfer_control_timeout_ms = 60000

-- A call of a promise's `resolve` or `reject`.
pub data Outcome : Type 0 where
  resolved timed_out failed_with : Outcome

-- A promise and its timer have one number. `armed` has the timers that run, with the key that their
-- callback holds, `made` counts the promises, and `settled` has the calls on each of them.
pub record ControlAckWaiter : Type 0 where
  pub timeout_ms : ℕ
  pub pending : Map Text ℕ
  pub failed : Bool
  pub armed : Map ℕ Text
  pub made : ℕ
  pub settled : ℕ → List Outcome

-- `controlTimeoutInput`
unfoldable pub control_timeout_input : Number → Option ℕ
control_timeout_input timeout_ms = elim (safe_natural timeout_ms) [
  | none ↦ none
  | some n ↦ if leb 1 n && leb n transfer_control_timeout_ms then some n else none
]

unfoldable pub new_waiter : ℕ → ControlAckWaiter
new_waiter timeout_ms = record {
  timeout_ms = timeout_ms;
  pending = [];
  failed = false;
  armed = [];
  made = 0;
  settled = λ p. [];
}

-- `${kind}:${id}` for an identifier that fits a byte
abbrev pub numbered_key : Text → Option Number → Option Text
numbered_key kind none = none
numbered_key kind (some id) = elim (safe_natural id) [
  | none ↦ none
  | some n ↦ if leb n 255 then some (kind ++ units ":" ++ decimal n) else none
]

abbrev pub plain_key : Text → Option Number → Option Text
plain_key kind none = some kind
plain_key kind (some id) = none

-- The key of `controlAckInput`; `none` is the error.
unfoldable pub control_ack_input : Text → Option Number → Option Text
control_ack_input kind id =
    let plain = plain_key kind id in
    let numbered = numbered_key kind id in
    if same_text kind (units "all-done-ok")
    then plain
    else if same_text kind (units "ready")
    then numbered
    else if same_text kind (units "file-ok")
    then numbered
    else none

-- The timer stops, the entry goes, and the promise is settled.
unfoldable pub settle : ControlAckWaiter → Text → ℕ → Outcome → ControlAckWaiter
settle w key p outcome = record w {
  armed = remove p w.armed;
  pending = remove key w.pending;
  settled = λ r. if p == r then outcome ∷ w.settled r else w.settled r;
}

-- The results of the calls: an error thrown, a rejected promise, or the promise.
pub data Waited : Type 0 where
  invalid_input : Waited
  rejected : Waited
  promised : ℕ → Waited

-- `mark`, with what it returns
unfoldable pub mark : ControlAckWaiter → Text → Option Number → ControlAckWaiter × Option Bool
mark w kind id = elim (control_ack_input kind id) [
  | none ↦ (w, none)
  | some key ↦ elim (lookup key w.pending) [
    | none ↦ (w, some false)
    | some p ↦ (settle w key p resolved, some true)
  ]
]

-- A new promise, its timer and its entry.
unfoldable pub promise : ControlAckWaiter → Text → ControlAckWaiter
promise w key = record w {
  pending = insert key w.made w.pending;
  armed = insert w.made key w.armed;
  made = w.made + 1;
}

unfoldable pub wait : ControlAckWaiter → Text → Option Number → ControlAckWaiter × Waited
wait w kind id = elim (control_ack_input kind id) [
  | none ↦ (w, invalid_input)
  | some key ↦
      let looked : ControlAckWaiter × Waited = elim (lookup key w.pending) [
        | some p ↦ (w, promised p)
        | none ↦ (promise w key, promised w.made)
      ] in
      if w.failed then (w, rejected) else looked
]

-- The callback of the timer of a promise, when the timer runs.
unfoldable pub on_timeout : ControlAckWaiter → ℕ → ControlAckWaiter
on_timeout w p = elim (lookup p w.armed) [ none ↦ w | some key ↦ settle w key p timed_out ]

-- The loop of `fail`: it visits the entries that are there when it begins and still are at their turn.
unfoldable pub fail_entries : ControlAckWaiter → Map Text ℕ → ControlAckWaiter
fail_entries w [] = w
fail_entries w ((key, p) ∷ rest) =
    fail_entries (elim (lookup key w.pending) [ none ↦ w | some q ↦ settle w key q failed_with ])
      rest

unfoldable pub fail : ControlAckWaiter → ControlAckWaiter
fail w =
    let broken = record w { failed = true } in
    let rejected_all = fail_entries broken w.pending in if w.failed then w else rejected_all
