-- ===== src/Server/RateLimit/History.antt =====
-- server/rate-limit.ts over a whole run: the attempts and sweeps of one key.
use p2p_transfer.Base.{
  ℕ, subst, inl, inr, suc, ◌+◌, ◌≤◌, ◌<◌, ◌≡◌, refl, sym, ◌∙◌, Bool, List, [], ◌∷◌, map, reverse,
  Number, nat, max_safe_integer, ltb, length, take, arith, length-reverse, length-take,
  Option-cases,
}
use p2p_transfer.Server.RateLimit.{
  scan, record_hit, record_fixed_window_hit, safe_positive, safe_hit_count,
  max_rate_limit_retained_hits, retain_recent_sorted_hits,
}
use p2p_transfer.Server.RateLimit.Window.{
  recent, AreSafe, Retains, retain-Retains, record_hit-eq, within, Falls, within-recent,
  close_window-eq,
}

-- What happens to the entry of one key: an attempt at a time, or a sweep of
-- `pruneFixedWindowRateLimits`.
pub data Event : Type 0 where
  attempt sweep : ℕ → Event

abbrev pub InOrder : ℕ → List Event → Type 0
InOrder last [] = Unit
InOrder last (attempt t ∷ es) = (last ≤ t) × (t ≤ max_safe_integer) × InOrder t es
InOrder last (sweep t ∷ es) = (last ≤ t) × (t ≤ max_safe_integer) × InOrder t es

-- The answers of the code, from the entry that it keeps.
pub replay : ℕ → ℕ → List Number → List Event → List Bool
replay w m hits [] = []
replay w m hits (attempt t ∷ es) =
    let result = record_fixed_window_hit hits (nat t) (nat w) (nat m) in
    result.allowed ∷ replay w m result.hits es
replay w m hits (sweep t ∷ es) = replay w m (retain_recent_sorted_hits hits t w) es

-- The answers from the full history of attempts, newest first.
pub decide : ℕ → ℕ → List ℕ → List Event → List Bool
decide w m history [] = []
decide w m history (attempt t ∷ es) = ltb (within t w history) m ∷ decide w m (t ∷ history) es
decide w m history (sweep t ∷ es) = decide w m history es

record-record_hit :
    (hits : List Number) (t w m : ℕ)
    → t ≤ max_safe_integer
    → 0 < w
    → w ≤ max_safe_integer
    → m < max_rate_limit_retained_hits
    → record_fixed_window_hit hits (nat t) (nat w) (nat m) ≡ record_hit hits (nat t) t w m
unfolding record_fixed_window_hit
record-record_hit hits t w m a b c d = ground arith

Falls-mono : (m n : ℕ) (ts : List ℕ) → m ≤ n → Falls m ts → Falls n ts
Falls-mono m n [] h f = tt
Falls-mono m n (t ∷ ts) h f = (omega arith, f.1)

module _ (w m : ℕ) (some_window : 0 < w) (safe_window : w ≤ max_safe_integer)
    (safe_limit : m < max_rate_limit_retained_hits) where
  replay-decide_from :
      (last : ℕ) (history : List ℕ) (hits : List Number) (es : List Event)
      → AreSafe history
      → Falls last history
      → Retains last w m history hits
      → InOrder last es
      → replay w m hits es ≡ decide w m history es
  unfolding replay decide
  replay-decide_from last history hits [] safe falls held order = refl
  replay-decide_from last history hits (sweep t ∷ es) safe falls held (later, small, order) =
      replay-decide_from t history (retain_recent_sorted_hits hits t w) es safe
        (Falls-mono last t history later falls)
        (retain-Retains last t w m history hits later safe held) order
  replay-decide_from last history hits (attempt t ∷ es) safe falls held (later, small, order) =
      let f : Falls t history = Falls-mono last t history later falls in
      let e =
        record-record_hit hits t w m small some_window safe_window safe_limit
        ∙ record_hit-eq last t w m history hits later safe held some_window in
      let rest =
        replay-decide_from t (t ∷ history)
          (reverse (map nat (take (m + 1) (recent t w (t ∷ history))))) es (small, safe)
          (omega arith, f) refl order in
      rw (e, within-recent t w t history f, rest)

-- For a positive safe window, a limit that the limiter takes, and safe times that never go back,
-- the entry of a key decides every attempt like the full history of attempts does: an attempt passes exactly when fewer than the limit came less than a window
-- before it. Sweeps change no answer.
pub replay-decide :
    (w m : ℕ) (es : List Event)
    → 0 < w
    → w ≤ max_safe_integer
    → m < max_rate_limit_retained_hits
    → InOrder 0 es
    → replay w m [] es ≡ decide w m [] es
unfolding recent
replay-decide w m es a b c order = replay-decide_from w m a b c 0 [] [] es tt tt held order
  where
    held : Retains 0 w m [] []
    held = let e : m + 1 ≡ suc m = omega arith in rw e refl

record_hit-length :
    (hits : List Number) (now : Number) (n w m : ℕ)
    → length (record_hit hits now n w m).hits ≤ m + 1
unfolding record_hit
record_hit-length hits now n w m = elim (Option-cases (scan n w (m + 1) (reverse hits))) [
  | inl e ↦ rw (e, record_hit) (omega arith)
  | inr (rs, e) ↦
      rw (e, record_hit)
        (subst (λ r. length r.hits ≤ m + 1) (sym (close_window-eq now m rs))
          (omega (arith, length-reverse (take (m + 1) (now ∷ rs)), length-take (m + 1) (now ∷ rs))))
]

-- Whatever the entry, the time and the window, the new entry holds at most one attempt more than
-- the limit.
pub record_fixed_window_hit-length_le :
    (hits : List Number) (now window : Number) (m : ℕ)
    → length (record_fixed_window_hit hits now window (nat m)).hits ≤ m + 1
unfolding record_fixed_window_hit safe_positive safe_hit_count
record_fixed_window_hit-length_le hits now window m = grind (arith, record_hit-length hits now)
