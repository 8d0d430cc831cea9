-- ===== src/Shared/SignalReplay.antt =====
-- shared/signal-replay.ts: the guard that takes each WebRTC signal of the peer at most once.
pub mod FirstTime
use p2p_transfer.Base.{
  Bool, true, false, not, ◌||◌, Option, none, some, List, [], ◌∷◌, Text, Number, same_text,
  if◌then◌else◌,
}

-- A field that is absent, `null` or a text.
pub data Fragment : Type 0 where
  no_fragment null_fragment : Fragment
  fragment : Text → Fragment

-- `null` and `undefined` are the none of the other fields.
pub record IceCandidate : Type 0 where
  pub candidate : Text
  pub sdp_mid : Option Text
  pub sdp_m_line_index : Option Number
  pub username_fragment : Fragment

pub data SignalPayload : Type 0 where
  offer answer : Text → SignalPayload
  candidate_signal : IceCandidate → SignalPayload

-- What `candidateReplayKey` hands to JSON.stringify.
pub record ReplayFields : Type 0 where
  pub candidate : Text
  pub sdp_mid : Option Text
  pub sdp_m_line_index : Option Number
  pub username_fragment : Text

pub record ReplayGuard : Type 0 where
  pub answer_offers : Bool
  pub seen_offer : Bool
  pub seen_answer : Bool
  pub seen_candidates : List Text

pub data Replay : Type 0 where
  accepted : ReplayGuard → Replay
  unexpected_offer duplicate_offer unexpected_answer duplicate_answer duplicate_candidate : Replay
  invalid_payload : Replay

abbrev pub new_guard : Bool → ReplayGuard
new_guard answer_offers = record {
  answer_offers = answer_offers;
  seen_offer = false;
  seen_answer = false;
  seen_candidates = [];
}

abbrev pub has_text : Text → List Text → Bool
has_text k [] = false
has_text k (t ∷ ts) = same_text k t || has_text k ts

-- `usernameFragment ?? ""`; `none` is the error of a `null`.
abbrev pub fragment_text : Fragment → Option Text
fragment_text no_fragment = some []
fragment_text null_fragment = none
fragment_text (fragment t) = some t

-- The end of `accept` on a candidate with a key.
abbrev pub add_key : ReplayGuard → Option Text → Replay
add_key guard none = invalid_payload
add_key guard (some key) =
    if has_text key guard.seen_candidates
    then duplicate_candidate
    else accepted (record guard { seen_candidates = key ∷ guard.seen_candidates })

module _ (stringify : ReplayFields → Text) where
  unfoldable pub candidate_replay_key : IceCandidate → Option Text
  candidate_replay_key c = elim (fragment_text c.username_fragment) [
    | none ↦ none
    | some username_fragment ↦ some (
        stringify (record {
          candidate = c.candidate;
          sdp_mid = c.sdp_mid;
          sdp_m_line_index = c.sdp_m_line_index;
          username_fragment = username_fragment;
        }))
  ]

  -- A refusal leaves the guard as it is.
  unfoldable pub accept : ReplayGuard → SignalPayload → Replay
  accept guard (offer sdp) =
      if not guard.answer_offers
      then unexpected_offer
      else if guard.seen_offer
      then duplicate_offer
      else accepted (record guard { seen_offer = true })
  accept guard (answer sdp) =
      if guard.answer_offers
      then unexpected_answer
      else if guard.seen_answer
      then duplicate_answer
      else accepted (record guard { seen_answer = true })
  accept guard (candidate_signal c) = add_key guard (candidate_replay_key c)
