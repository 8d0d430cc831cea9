-- ===== src/Server/Policy.antt =====
-- server/policy.ts: which message of which peer a session relays, and in which phase. A peer is
-- named by its identifier, which nanoid makes and which is never empty.
pub mod Phases
pub mod Traces
use p2p_transfer.Base.{
  ℕ, ◌+◌, Bool, true, false, not, ◌&&◌, Option, none, some, ltb, leb, ◌==◌, if◌then◌else◌,
  max_safe_integer,
}
use p2p_transfer.Shared.Messages.{
  ClientMessage, pake, confirm, pair_request, pair_accept, pair_reject, signal, SignalKind, offer,
  answer, candidate, Role, sender, receiver,
}

abbrev pub signaling_max_ice_candidates_per_peer : ℕ
signaling_max_ice_candidates_per_peer = 512

-- RelayPolicySession
pub record Relay : Type 0 where
  pub sid : ℕ
  pub sender : ℕ
  pub receiver : ℕ
  pub sender_pake_seen : Bool
  pub receiver_pake_seen : Bool
  pub sender_confirmed : Bool
  pub receiver_confirmed : Bool
  pub pair_requested : Bool
  pub pair_decided : Bool
  pub offer_seen : Bool
  pub answer_seen : Bool
  pub sender_candidate_count : ℕ
  pub receiver_candidate_count : ℕ

unfoldable pub session_peer_id : Relay → ℕ → Option Role
session_peer_id s peer =
    if s.sender == peer
    then some Role.sender
    else if s.receiver == peer
    then some Role.receiver
    else none

unfoldable pub other_session_peer_id : Role → Role
other_session_peer_id Role.sender = Role.receiver
other_session_peer_id Role.receiver = Role.sender

abbrev pub is_sender : Role → Bool
is_sender Role.sender = true
is_sender Role.receiver = false

unfoldable pub role_allows : Bool → ClientMessage → Bool
role_allows from_sender (pair_request sid manifest sealed) = from_sender
role_allows from_sender (pair_accept sid auth) = not from_sender
role_allows from_sender (pair_reject sid auth) = not from_sender
role_allows from_sender (signal sid offer sealed) = from_sender
role_allows from_sender (signal sid answer sealed) = not from_sender
role_allows from_sender (signal sid candidate sealed) = true
role_allows from_sender (pake sid share) = true
role_allows from_sender (confirm sid tag) = true
role_allows from_sender _ = false

unfoldable pub relay_allowed_for_role : Relay → ℕ → ClientMessage → Bool
relay_allowed_for_role s peer message = elim (session_peer_id s peer) [
  | none ↦ false
  | some role ↦ role_allows (is_sender role) message
]

-- A count that is no safe integer stands for a full one.
unfoldable pub candidate_count_for_peer : Relay → Role → ℕ
candidate_count_for_peer s role =
    let count = if is_sender role then s.sender_candidate_count else s.receiver_candidate_count in
    if leb count max_safe_integer then count else signaling_max_ice_candidates_per_peer

unfoldable pub phase_allows : Relay → Role → ClientMessage → Bool
unfolding candidate_count_for_peer
phase_allows s role (pake sid share) =
    not s.pair_requested
    && not s.pair_decided
    && (if is_sender role then not s.sender_pake_seen else not s.receiver_pake_seen)
phase_allows s role (confirm sid tag) =
    s.sender_pake_seen
    && s.receiver_pake_seen
    && not s.pair_requested
    && not s.pair_decided
    && (if is_sender role then not s.sender_confirmed else not s.receiver_confirmed)
phase_allows s role (pair_request sid manifest sealed) =
    s.sender_confirmed && s.receiver_confirmed && not s.pair_requested && not s.pair_decided
phase_allows s role (pair_accept sid auth) = s.pair_requested && not s.pair_decided
phase_allows s role (pair_reject sid auth) = s.pair_requested && not s.pair_decided
phase_allows s role (signal sid offer sealed) = s.pair_decided && not s.offer_seen
phase_allows s role (signal sid answer sealed) = s.pair_decided && s.offer_seen && not s.answer_seen
phase_allows s role (signal sid candidate sealed) =
    s.pair_decided
    && s.offer_seen
    && ltb (candidate_count_for_peer s role) signaling_max_ice_candidates_per_peer
phase_allows s role _ = false

unfoldable pub relay_allowed_for_phase : Relay → ℕ → ClientMessage → Bool
relay_allowed_for_phase s peer message = elim (session_peer_id s peer) [
  | none ↦ false
  | some role ↦ phase_allows s role message
]

-- `setCandidateCount`: a count beyond the limit is not stored.
unfoldable pub set_candidate_count : Relay → Role → ℕ → Relay
set_candidate_count s Role.sender count =
    if leb count signaling_max_ice_candidates_per_peer
    then record s { sender_candidate_count = count }
    else s
set_candidate_count s Role.receiver count =
    if leb count signaling_max_ice_candidates_per_peer
    then record s { receiver_candidate_count = count }
    else s

unfoldable pub apply_phase : Relay → Role → ClientMessage → Relay
unfolding set_candidate_count candidate_count_for_peer
apply_phase s Role.sender (pake sid share) = record s { sender_pake_seen = true }
apply_phase s Role.receiver (pake sid share) = record s { receiver_pake_seen = true }
apply_phase s Role.sender (confirm sid tag) = record s { sender_confirmed = true }
apply_phase s Role.receiver (confirm sid tag) = record s { receiver_confirmed = true }
apply_phase s role (pair_request sid manifest sealed) = record s { pair_requested = true }
apply_phase s role (pair_accept sid auth) = record s { pair_decided = true }
apply_phase s role (signal sid offer sealed) = record s { offer_seen = true }
apply_phase s role (signal sid answer sealed) = record s { answer_seen = true }
apply_phase s role (signal sid candidate sealed) =
    set_candidate_count s role (candidate_count_for_peer s role + 1)
apply_phase s role _ = s

unfoldable pub apply_relay_phase : Relay → ℕ → ClientMessage → Relay
apply_relay_phase s peer message = elim (session_peer_id s peer) [
  | none ↦ s
  | some role ↦ apply_phase s role message
]

unfoldable pub session_has_confirmed_pake : Relay → Bool
session_has_confirmed_pake s = s.sender_confirmed && s.receiver_confirmed

unfoldable pub session_before_pair_acceptance : Relay → Bool
session_before_pair_acceptance s = not s.pair_decided

unfoldable pub receiver_can_retry_pre_pair : Relay → ℕ → Bool
unfolding session_before_pair_acceptance
receiver_can_retry_pre_pair s peer = s.receiver == peer && session_before_pair_acceptance s

unfoldable pub sender_disconnect_can_restore_receiver : Relay → ℕ → Bool
unfolding session_before_pair_acceptance
sender_disconnect_can_restore_receiver s peer = s.sender == peer && session_before_pair_acceptance s
