-- ===== src/Server/RateLimit.antt =====
-- server/rate-limit.ts: fixed-window rate limits with a bounded list of attempts for each key.
pub mod Window
pub mod History
use p2p_transfer.Base.{
  ℕ, zero, suc, ◌+◌, ◌-◌, Bool, true, false, Option, none, some, List, [], ◌∷◌, ◌++◌, reverse,
  Number, nat, safe_natural, ltb, leb, if◌then◌else◌, length, drop, Map, Eq, lookup, insert,
}

abbrev pub max_rate_limit_retained_hits : ℕ
max_rate_limit_retained_hits = 100000

abbrev pub ice_config_max_requests_per_minute : ℕ
ice_config_max_requests_per_minute = 60

abbrev pub turn_rest_credentials_max_issues_per_minute : ℕ
turn_rest_credentials_max_issues_per_minute = 20

abbrev pub minute : ℕ
minute = 60000

pub record Recorded : Type 0 where
  pub allowed : Bool
  pub hits : List Number

-- `value > 0` on top of `safe_natural`
unfoldable pub safe_positive : Number → Option ℕ
safe_positive n = elim (safe_natural n) [ none ↦ none | some k ↦ if ltb 0 k then some k else none ]

unfoldable pub safe_hit_count : Number → Option ℕ
safe_hit_count n = elim (safe_natural n) [
  | none ↦ none
  | some k ↦ if ltb k max_rate_limit_retained_hits then some k else none
]

-- `now - time >= windowMs`
abbrev pub aged : ℕ → ℕ → ℕ → Bool
aged now window time = leb (time + window) now

-- The loop of `recordFixedWindowHit`. It runs from the last value down, so it takes the values
-- newest first, with the room that is left in `recent`; `none` is the return on a value that is
-- no time. The result is `recent` before it is reversed.
unfoldable pub scan : ℕ → ℕ → ℕ → List Number → Option (List Number)
scan now window zero values = some []
scan now window (suc room) [] = some []
scan now window (suc room) (value ∷ values) =
    let rest = scan now window room values in
    elim (safe_natural value) [
      | none ↦ none
      | some time ↦
          if aged now window time
          then some []
          else elim rest [ none ↦ none | some recent ↦ some (value ∷ recent) ]
    ]

-- What follows the loop: the attempt is pushed, and the oldest are dropped beyond the limit.
unfoldable pub close_window : Number → ℕ → List Number → Recorded
close_window now max_hits recent = record { allowed = leb (length kept) max_hits; hits = kept }
  where
    pushed : List Number
    pushed = reverse recent ++ now ∷ []

    kept : List Number
    kept = drop (length pushed - (max_hits + 1)) pushed

unfoldable pub record_hit : List Number → Number → ℕ → ℕ → ℕ → Recorded
unfolding scan close_window
record_hit values attempt now window max_hits =
    elim (scan now window (max_hits + 1) (reverse values)) [
      | none ↦ record { allowed = false; hits = attempt ∷ [] }
      | some recent ↦ close_window attempt max_hits recent
    ]

unfoldable pub record_fixed_window_hit : List Number → Number → Number → Number → Recorded
unfolding record_hit safe_positive safe_hit_count
record_fixed_window_hit values now window max_hits = elim (safe_natural now) [
  | none ↦ record { allowed = false; hits = [] }
  | some n ↦ elim (safe_positive window) [
    | none ↦ record { allowed = false; hits = [] }
    | some w ↦ elim (safe_hit_count max_hits) [
      | none ↦ record { allowed = false; hits = [] }
      | some m ↦ record_hit values now n w m
    ]
  ]
]

abbrev pub or_empty : Option (List Number) → List Number
or_empty none = []
or_empty (some values) = values

module _ {K : Type 0} ⦃e : Eq K⦄ where
  unfoldable pub hit_fixed_window_rate_limit :
      Map K (List Number) → K → Number → Number → Number → Map K (List Number) × Bool
  hit_fixed_window_rate_limit hits key now window max_hits =
      let result = record_fixed_window_hit (or_empty (lookup key hits)) now window max_hits in
      (insert key result.hits hits, result.allowed)

  unfoldable pub hit_ice_config_rate_limit :
      Map K (List Number) → K → Number → Map K (List Number) × Bool
  unfolding hit_fixed_window_rate_limit
  hit_ice_config_rate_limit hits key now =
      hit_fixed_window_rate_limit hits key now (nat minute) (nat ice_config_max_requests_per_minute)

  unfoldable pub hit_turn_credential_issue_rate_limit :
      Map K (List Number) → K → Number → Map K (List Number) × Bool
  unfolding hit_fixed_window_rate_limit
  hit_turn_credential_issue_rate_limit hits key now =
      hit_fixed_window_rate_limit hits key now (nat minute)
        (nat turn_rest_credentials_max_issues_per_minute)

-- The first loop of `retainRecentSortedHits`, over the values newest first.
unfoldable pub retain_back : ℕ → ℕ → List Number → List Number
retain_back now window [] = []
retain_back now window (value ∷ values) = elim (safe_natural value) [
  | none ↦ []
  | some time ↦ if aged now window time then [] else value ∷ retain_back now window values
]

unfoldable pub retain_recent_sorted_hits : List Number → ℕ → ℕ → List Number
unfolding retain_back
retain_recent_sorted_hits values now window = reverse (retain_back now window (reverse values))

unfoldable pub prune_entries {ℓ} :
    {K : Type ℓ} → ℕ → ℕ → List (K × List Number) → List (K × List Number)
prune_entries now window [] = []
prune_entries now window ((key, values) ∷ rest) =
    elim (retain_recent_sorted_hits values now window) [
      | [] ↦ prune_entries now window rest
      | v ∷ vs ↦ (key, v ∷ vs) ∷ prune_entries now window rest
    ]

unfoldable pub prune_fixed_window_rate_limits {ℓ} :
    {K : Type ℓ} → List (K × List Number) → Number → Number → List (K × List Number)
unfolding prune_entries safe_positive
prune_fixed_window_rate_limits hits now window = elim (safe_natural now) [
  | none ↦ hits
  | some n ↦ elim (safe_positive window) [ none ↦ hits | some w ↦ prune_entries n w hits ]
]
