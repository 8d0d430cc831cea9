-- ===== src/Shared/SignalReplay/FirstTime.antt =====
-- shared/signal-replay.ts over a whole run: a signal is taken when it is of the expected kind and comes for the
-- first time.
use p2p_transfer.Base.{
  ◌≡◌, refl, subst, Bool, true, false, not, ◌&&◌, ◌||◌, Option, none, some, List, [], ◌∷◌, Text,
  same_text, same_text_iff, arith,
}
use p2p_transfer.Shared.SignalReplay.{
  Fragment, no_fragment, null_fragment, fragment, fragment_text, IceCandidate, SignalPayload, offer,
  answer, candidate_signal, ReplayFields, ReplayGuard, Replay, accepted, new_guard, has_text,
  candidate_replay_key, add_key, accept,
}

abbrev pub is_accepted : Replay → Bool
is_accepted (accepted guard) = true
is_accepted _ = false

abbrev pub guard_after : ReplayGuard → Replay → ReplayGuard
guard_after guard (accepted next) = next
guard_after guard _ = guard

module _ (stringify : ReplayFields → Text) where
  -- The answers of the guard to a sequence of signals.
  pub answers : ReplayGuard → List SignalPayload → List Bool
  answers guard [] = []
  answers guard (x ∷ xs) =
      is_accepted (accept stringify guard x)
      ∷ answers (guard_after guard (accept stringify guard x)) xs

  abbrev pub same_key : Option Text → Option Text → Bool
  same_key (some a) (some b) = same_text a b
  same_key _ _ = false

  -- Whether two signals count as the same.
  abbrev pub same_signal : SignalPayload → SignalPayload → Bool
  same_signal (offer a) (offer b) = true
  same_signal (answer a) (answer b) = true
  same_signal (candidate_signal a) (candidate_signal b) =
      same_key (candidate_replay_key stringify a) (candidate_replay_key stringify b)
  same_signal _ _ = false

  abbrev pub came_before : SignalPayload → List SignalPayload → Bool
  came_before x [] = false
  came_before x (y ∷ ys) = same_signal x y || came_before x ys

  -- Whether the field is one that the guard takes: absent or a text.
  abbrev pub has_fragment : Fragment → Bool
  has_fragment null_fragment = false
  has_fragment _ = true

  abbrev pub is_expected : Bool → SignalPayload → Bool
  is_expected answer_offers (offer a) = answer_offers
  is_expected answer_offers (answer a) = not answer_offers
  is_expected answer_offers (candidate_signal a) = has_fragment a.username_fragment

  -- The answers from the signals that came before, newest first, taken or not.
  pub first_times : Bool → List SignalPayload → List SignalPayload → List Bool
  first_times answer_offers past [] = []
  first_times answer_offers past (x ∷ xs) =
      (is_expected answer_offers x && not (came_before x past))
      ∷ first_times answer_offers (x ∷ past) xs

  -- What the guard knows of the past.
  record Knows (guard : ReplayGuard) (past : List SignalPayload) : Type 0 where
    offers :
        guard.answer_offers ≡ true → (sdp : Text) → guard.seen_offer ≡ came_before (offer sdp) past
    answered :
        guard.answer_offers ≡ false
        → (sdp : Text) → guard.seen_answer ≡ came_before (answer sdp) past
    candidates :
        (c : IceCandidate)
        → (key : Text) → candidate_replay_key stringify c ≡ some key
        → has_text key guard.seen_candidates ≡ came_before (candidate_signal c) past

  key-none :
      (c : IceCandidate)
      → candidate_replay_key stringify c ≡ none
      → has_fragment c.username_fragment ≡ false
  unfolding candidate_replay_key
  key-none c h = of c.username_fragment h
    where
      of :
          (f : Fragment)
          → elim (fragment_text f) as (λ k. Option Text) [
            | none ↦ none
            | some username_fragment ↦ some (
                stringify (record {
                  candidate = c.candidate;
                  sdp_mid = c.sdp_mid;
                  sdp_m_line_index = c.sdp_m_line_index;
                  username_fragment = username_fragment;
                }))
          ]
            ≡ none
          → has_fragment f ≡ false
      of no_fragment h = ground arith
      of null_fragment h = refl
      of (fragment t) h = ground arith

  key-some :
      (c : IceCandidate) (key : Text)
      → candidate_replay_key stringify c ≡ some key
      → has_fragment c.username_fragment ≡ true
  unfolding candidate_replay_key
  key-some c key h = of c.username_fragment h
    where
      of :
          (f : Fragment)
          → elim (fragment_text f) as (λ k. Option Text) [
            | none ↦ none
            | some username_fragment ↦ some (
                stringify (record {
                  candidate = c.candidate;
                  sdp_mid = c.sdp_mid;
                  sdp_m_line_index = c.sdp_m_line_index;
                  username_fragment = username_fragment;
                }))
          ]
            ≡ some key
          → has_fragment f ≡ true
      of no_fragment h = refl
      of null_fragment h = ground arith
      of (fragment t) h = refl

  add_key-decide :
      (guard : ReplayGuard) (past : List SignalPayload) (c : IceCandidate) (o : Option Text)
      → candidate_replay_key stringify c ≡ o
      → Knows guard past
      → is_accepted (add_key guard o)
        ≡ (has_fragment c.username_fragment && not (came_before (candidate_signal c) past))
  add_key-decide guard past c none e k = rw (key-none c e) refl
  add_key-decide guard past c (some key) e k =
      rw (key-some c key e) (ground (arith, k.candidates c key e))

  add_key-Knows :
      (guard : ReplayGuard) (past : List SignalPayload) (d : IceCandidate) (o : Option Text)
      → candidate_replay_key stringify d ≡ o
      → Knows guard past
      → Knows (guard_after guard (add_key guard o)) (candidate_signal d ∷ past)
  add_key-Knows guard past d none e k = record {
    offers = k.offers;
    answered = k.answered;
    candidates = λ c key f. rw (f, e) (k.candidates c key f);
  }
  add_key-Knows guard past d (some other) e k = record {
    offers = λ h sdp. ground (arith, λ (h : guard.answer_offers ≡ true). k.offers h sdp);
    answered = λ h sdp. ground (arith, λ (h : guard.answer_offers ≡ false). k.answered h sdp);
    candidates = λ c key f.
        rw (f, e)
          (grind (arith, k.candidates c key f, k.candidates d other e, same_text_iff key other));
  }

  accept-decide :
      (guard : ReplayGuard) (past : List SignalPayload) (x : SignalPayload)
      → Knows guard past
      → is_accepted (accept stringify guard x)
        ≡ (is_expected guard.answer_offers x && not (came_before x past))
  unfolding accept
  accept-decide guard past (offer sdp) k =
      ground (arith, λ (e : guard.answer_offers ≡ true). k.offers e sdp)
  accept-decide guard past (answer sdp) k =
      ground (arith, λ (e : guard.answer_offers ≡ false). k.answered e sdp)
  accept-decide guard past (candidate_signal c) k =
      add_key-decide guard past c (candidate_replay_key stringify c) refl k

  accept-Knows :
      (guard : ReplayGuard) (past : List SignalPayload) (x : SignalPayload)
      → Knows guard past
      → Knows (guard_after guard (accept stringify guard x)) (x ∷ past)
  unfolding accept
  accept-Knows guard past (offer sdp) k = record {
    offers = λ e other. ground (arith, λ (h : guard.answer_offers ≡ true). k.offers h other);
    answered = λ e other. ground (arith, λ (h : guard.answer_offers ≡ false). k.answered h other);
    candidates = λ c key e. ground (arith, k.candidates c key e);
  }
  accept-Knows guard past (answer sdp) k = record {
    offers = λ e other. ground (arith, λ (h : guard.answer_offers ≡ true). k.offers h other);
    answered = λ e other. ground (arith, λ (h : guard.answer_offers ≡ false). k.answered h other);
    candidates = λ c key e. ground (arith, k.candidates c key e);
  }
  accept-Knows guard past (candidate_signal d) k =
      add_key-Knows guard past d (candidate_replay_key stringify d) refl k

  add_key-policy :
      (guard : ReplayGuard) (o : Option Text)
      → (guard_after guard (add_key guard o)).answer_offers ≡ guard.answer_offers
  add_key-policy guard none = refl
  add_key-policy guard (some key) = ground arith

  accept-policy :
      (guard : ReplayGuard) (x : SignalPayload)
      → (guard_after guard (accept stringify guard x)).answer_offers ≡ guard.answer_offers
  unfolding accept
  accept-policy guard (offer sdp) = ground arith
  accept-policy guard (answer sdp) = ground arith
  accept-policy guard (candidate_signal c) = add_key-policy guard (candidate_replay_key stringify c)

  answers-first_times :
      (guard : ReplayGuard) (past xs : List SignalPayload)
      → Knows guard past
      → answers guard xs ≡ first_times guard.answer_offers past xs
  unfolding answers first_times
  answers-first_times guard past [] k = refl
  answers-first_times guard past (x ∷ xs) k =
      let next = guard_after guard (accept stringify guard x) in
      let head = accept-decide guard past x k in
      let tail : answers next xs ≡ first_times guard.answer_offers (x ∷ past) xs =
        subst (λ b. answers next xs ≡ first_times b (x ∷ past) xs) (accept-policy guard x)
          (answers-first_times next (x ∷ past) xs (accept-Knows guard past x k)) in
      λ i. head i ∷ tail i

  -- A fresh guard takes a signal of a sequence exactly when it is of the kind that its policy
  -- expects and no signal before it, taken or refused, counts as the same: an offer counts as any
  -- other offer, an answer as any other answer, and a candidate as one with the same key. A
  -- candidate whose username fragment is null is not expected.
  pub fresh-first_times :
      (answer_offers : Bool) (xs : List SignalPayload)
      → answers (new_guard answer_offers) xs ≡ first_times answer_offers [] xs
  fresh-first_times answer_offers xs =
      answers-first_times (new_guard answer_offers) [] xs
        (record { offers = λ _ _. refl; answered = λ _ _. refl; candidates = λ _ _ _. refl })
