-- ===== src/Server/RateLimit/Window.antt =====
-- What the bounded list of attempts of server/rate-limit.ts stands for: the attempts of the full
-- history that have not aged, newest first, as far as the limit needs them.
use p2p_transfer.Base.{
  ℕ, zero, suc, ◌+◌, ◌-◌, ◌≤◌, ◌<◌, ◌≡◌, refl, ap, ◌∙◌, some, List, [], ◌∷◌, ◌++◌, map, reverse,
  Number, nat, max_safe_integer, ltb, leb, if◌then◌else◌, length, take, drop, arith, length-reverse,
  length-take, All,
}
use mathlib.Core.List.{reverse-cons, reverse-reverse}
use p2p_transfer.Server.RateLimit.{
  aged, scan, close_window, record_hit, retain_back, retain_recent_sorted_hits,
}

-- The attempts from the newest down to the first that has aged.
unfoldable pub recent : ℕ → ℕ → List ℕ → List ℕ
recent now window [] = []
recent now window (t ∷ ts) = if aged now window t then [] else t ∷ recent now window ts

abbrev pub AreSafe : List ℕ → Type 0
AreSafe = All (λ t. t ≤ max_safe_integer)

scan-eq :
    (now window room : ℕ) (ts : List ℕ)
    → AreSafe ts
    → scan now window room (map nat ts) ≡ some (map nat (take room (recent now window ts)))
unfolding scan recent
scan-eq now window zero ts h = refl
scan-eq now window (suc room) [] h = refl
scan-eq now window (suc room) (t ∷ ts) (p, h) = ground (arith, scan-eq now window room ts h)

drop-append_le {ℓ} :
    {A : Type ℓ} (n : ℕ) (xs ys : List A) → n ≤ length xs → drop n (xs ++ ys) ≡ drop n xs ++ ys
drop-append_le zero xs ys h = refl
drop-append_le (suc n) [] ys h = absurd (omega arith)
drop-append_le (suc n) (x ∷ xs) ys h = drop-append_le n xs ys (omega arith)

drop-length {ℓ} : {A : Type ℓ} (xs : List A) → drop (length xs) xs ≡ []
drop-length [] = refl
drop-length (x ∷ xs) = drop-length xs

drop_all {ℓ} : {A : Type ℓ} (n : ℕ) (xs : List A) → length xs ≡ n → drop n xs ≡ []
drop_all n xs h = rw (← h) (drop-length xs)

drop-reverse {ℓ} :
    {A : Type ℓ} (k : ℕ) (xs : List A) → drop (length xs - k) (reverse xs) ≡ reverse (take k xs)
drop-reverse zero xs = drop_all (length xs - zero) (reverse xs) (omega (arith, length-reverse xs))
drop-reverse (suc k) [] = let e : 0 - suc k ≡ 0 = omega arith in rw e
drop-reverse (suc k) (x ∷ xs) =
    let e : suc (length xs) - suc k ≡ length xs - k = omega arith in
    rw (
      reverse-cons x xs,
      e,
      drop-append_le (length xs - k) (reverse xs) (x ∷ []) (omega (arith, length-reverse xs)),
      drop-reverse k xs,
      reverse-cons x (take k xs),
    )

pub close_window-eq :
    (now : Number) (m : ℕ) (rs : List Number)
    → close_window now m rs ≡ record {
      allowed = leb (length (take (m + 1) (now ∷ rs))) m;
      hits = reverse (take (m + 1) (now ∷ rs));
    }
unfolding close_window
close_window-eq now m rs = rw (
  ← reverse-cons now rs,
  length-reverse (now ∷ rs),
  drop-reverse (m + 1) (now ∷ rs),
  length-reverse (take (m + 1) (now ∷ rs)),
)

take-map : (k : ℕ) (ts : List ℕ) → take k (map nat ts) ≡ map nat (take k ts)
take-map zero ts = refl
take-map (suc k) [] = refl
take-map (suc k) (t ∷ ts) = ap (◌∷◌ (nat t)) (take-map k ts)

length-map : (ts : List ℕ) → length (map nat ts) ≡ length ts
length-map [] = refl
length-map (t ∷ ts) = ap suc (length-map ts)

-- Looking back from a later time, the attempts that an earlier look or the limit left out do not
-- show.
recent-recent :
    (t now w : ℕ) (ts : List ℕ) → t ≤ now → recent now w (recent t w ts) ≡ recent now w ts
unfolding recent
recent-recent t now w [] h = refl
recent-recent t now w (x ∷ ts) h = ground (arith, recent-recent t now w ts h)

recent-take : (now w k : ℕ) (ts : List ℕ) → recent now w (take k ts) ≡ take k (recent now w ts)
unfolding recent
recent-take now w zero ts = refl
recent-take now w (suc k) [] = refl
recent-take now w (suc k) (t ∷ ts) = ground (arith, recent-take now w k ts)

take-take {ℓ} : {A : Type ℓ} (k : ℕ) (xs : List A) → take k (take k xs) ≡ take k xs
take-take zero xs = refl
take-take (suc k) [] = refl
take-take (suc k) (x ∷ xs) = ap (◌∷◌ x) (take-take k xs)

take-suc-take {ℓ} :
    {A : Type ℓ} (k : ℕ) (x : A) (xs : List A)
    → take (suc k) (x ∷ take (suc k) xs) ≡ take (suc k) (x ∷ xs)
take-suc-take zero x xs = refl
take-suc-take (suc k) x [] = refl
take-suc-take (suc k) x (y ∷ ys) = ap (λ z. x ∷ z) (take-suc-take k y ys)

AreSafe-take : (k : ℕ) (ts : List ℕ) → AreSafe ts → AreSafe (take k ts)
AreSafe-take zero ts h = tt
AreSafe-take (suc k) [] h = tt
AreSafe-take (suc k) (t ∷ ts) (p, h) = (p, AreSafe-take k ts h)

AreSafe-recent : (now w : ℕ) (ts : List ℕ) → AreSafe ts → AreSafe (recent now w ts)
unfolding recent
AreSafe-recent now w [] h = tt
AreSafe-recent now w (t ∷ ts) (p, h) = ground (arith, AreSafe-recent now w ts h)

-- The list of one key stands for a history, newest first, as it looks from a time.
abbrev pub Retains : ℕ → ℕ → ℕ → List ℕ → List Number → Type 0
Retains now w m history hits = hits ≡ reverse (map nat (take (m + 1) (recent now w history)))

retain_back-eq :
    (now w : ℕ) (ts : List ℕ)
    → AreSafe ts
    → retain_back now w (map nat ts) ≡ map nat (recent now w ts)
unfolding retain_back recent
retain_back-eq now w [] h = refl
retain_back-eq now w (t ∷ ts) (p, h) = ground (arith, retain_back-eq now w ts h)

-- From `last`, the time of the list, to `now`.
module _ (last now w m : ℕ) (history : List ℕ) (hits : List Number) (later : last ≤ now)
    (safe : AreSafe history) (held : Retains last w m history hits) where
  later-recent :
      recent now w (take (m + 1) (recent last w history)) ≡ take (m + 1) (recent now w history)
  later-recent =
      recent-take now w (m + 1) (recent last w history)
      ∙ ap (take (m + 1)) (recent-recent last now w history later)

  newest_first : reverse hits ≡ map nat (take (m + 1) (recent last w history))
  newest_first = rw held (reverse-reverse _)

  kept_safe : AreSafe (take (m + 1) (recent last w history))
  kept_safe = AreSafe-take (m + 1) _ (AreSafe-recent last w history safe)

  pub retain-Retains : Retains now w m history (retain_recent_sorted_hits hits now w)
  unfolding retain_recent_sorted_hits
  retain-Retains = rw (
    newest_first,
    retain_back-eq now w (take (m + 1) (recent last w history)) kept_safe,
    later-recent,
  )

  scan-hits :
      scan now w (m + 1) (reverse hits) ≡ some (map nat (take (m + 1) (recent now w history)))
  scan-hits = rw (
    newest_first,
    scan-eq now w (m + 1) (take (m + 1) (recent last w history)) kept_safe,
    later-recent,
    take-take (m + 1) (recent now w history),
  )

  recent-cons : 0 < w → recent now w (now ∷ history) ≡ now ∷ recent now w history
  unfolding recent
  recent-cons h = ground arith

  retained_after :
      take (m + 1) (nat now ∷ map nat (take (m + 1) (recent now w history)))
      ≡ map nat (take (m + 1) (now ∷ recent now w history))
  retained_after =
      let e : m + 1 ≡ suc m = omega arith in
      take-map (m + 1) (now ∷ take (m + 1) (recent now w history))
      ∙ rw e (ap (map nat) (take-suc-take m now (recent now w history)))

  pub record_hit-eq :
      0 < w
      → record_hit hits (nat now) now w m ≡ record {
        allowed = ltb (length (recent now w history)) m;
        hits = reverse (map nat (take (m + 1) (recent now w (now ∷ history))));
      }
  unfolding record_hit
  record_hit-eq h =
      rw (scan-hits, record_hit)
        (rw (close_window-eq, retained_after, recent-cons h)
          (ap
            (λ b. record {
              allowed = b;
              hits = reverse (map nat (take (m + 1) (now ∷ recent now w history)));
            })
            decision))
    where
      decision :
          leb (length (map nat (take (m + 1) (now ∷ recent now w history)))) m
          ≡ ltb (length (recent now w history)) m
      decision = ground (
        arith,
        length-map (take (m + 1) (now ∷ recent now w history)),
        length-take (m + 1) (now ∷ recent now w history),
      )

-- What the window promises, over the whole history: an attempt passes when fewer than the limit
-- came less than a window before it.
pub within : ℕ → ℕ → List ℕ → ℕ
within now w [] = 0
within now w (t ∷ ts) = if ltb now (t + w) then suc (within now w ts) else within now w ts

-- Times fall along the list and stay up to the bound.
abbrev pub Falls : ℕ → List ℕ → Type 0
Falls n [] = Unit
Falls n (t ∷ ts) = (t ≤ n) × Falls t ts

within-aged : (now w t : ℕ) (ts : List ℕ) → t + w ≤ now → Falls t ts → within now w ts ≡ 0
unfolding within
within-aged now w t [] h f = refl
within-aged now w t (x ∷ ts) h (p, f) = ground (arith, within-aged now w x ts)

pub within-recent :
    (now w n : ℕ) (ts : List ℕ) → Falls n ts → within now w ts ≡ length (recent now w ts)
unfolding within recent
within-recent now w n [] f = refl
within-recent now w n (t ∷ ts) (p, f) =
    ground (arith, within-recent now w t ts f, within-aged now w t ts)
