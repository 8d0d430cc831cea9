-- ===== src/Server/Policy/Phases.antt =====
-- The order of the phases of a session that server/policy.ts keeps.
use p2p_transfer.Base.{ℕ, ◌≤◌, ◌<◌, ◌≡◌, refl, true, Option-cases, arith, inl, inr}
use p2p_transfer.Shared.Messages.{
  ClientMessage, register, connect, bye, pake, confirm, pair_request, pair_accept, pair_reject,
  signal, offer, answer, candidate, Role, sender, receiver,
}
use p2p_transfer.Server.Policy.{
  Relay, session_peer_id, phase_allows, relay_allowed_for_phase, apply_phase, apply_relay_phase,
  signaling_max_ice_candidates_per_peer,
}

-- Each phase presupposes the one before it, and the candidates keep to their limit.
pub record IsOrdered (s : Relay) : Type 0 where
  pub sender_shared :
      s.sender_confirmed ≡ true → (s.sender_pake_seen ≡ true) × (s.receiver_pake_seen ≡ true)
  pub receiver_shared :
      s.receiver_confirmed ≡ true → (s.sender_pake_seen ≡ true) × (s.receiver_pake_seen ≡ true)
  pub confirmed :
      s.pair_requested ≡ true → (s.sender_confirmed ≡ true) × (s.receiver_confirmed ≡ true)
  pub requested : s.pair_decided ≡ true → s.pair_requested ≡ true
  pub decided : s.offer_seen ≡ true → s.pair_decided ≡ true
  pub offered : s.answer_seen ≡ true → s.offer_seen ≡ true
  pub sender_offered : 0 < s.sender_candidate_count → s.offer_seen ≡ true
  pub receiver_offered : 0 < s.receiver_candidate_count → s.offer_seen ≡ true
  pub sender_bounded : s.sender_candidate_count ≤ signaling_max_ice_candidates_per_peer
  pub receiver_bounded : s.receiver_candidate_count ≤ signaling_max_ice_candidates_per_peer

pub phase_step-IsOrdered :
    (s : Relay) (role : Role) (m : ClientMessage)
    → IsOrdered s
    → phase_allows s role m ≡ true
    → IsOrdered (apply_phase s role m)
unfolding phase_allows apply_phase
phase_step-IsOrdered s sender (pake sid share) o h = grind arith
phase_step-IsOrdered s receiver (pake sid share) o h = grind arith
phase_step-IsOrdered s sender (confirm sid tag) o h = grind arith
phase_step-IsOrdered s receiver (confirm sid tag) o h = grind arith
phase_step-IsOrdered s role (pair_request sid manifest sealed) o h = grind arith
phase_step-IsOrdered s role (pair_accept sid auth) o h = grind arith
phase_step-IsOrdered s sender (pair_reject sid auth) o h = o
phase_step-IsOrdered s receiver (pair_reject sid auth) o h = o
phase_step-IsOrdered s role (signal sid offer sealed) o h = grind arith
phase_step-IsOrdered s role (signal sid answer sealed) o h = grind arith
phase_step-IsOrdered s sender (signal sid candidate sealed) o h = grind arith
phase_step-IsOrdered s receiver (signal sid candidate sealed) o h = grind arith
phase_step-IsOrdered s role (register code v) o h = cc
phase_step-IsOrdered s role (connect code v) o h = cc
phase_step-IsOrdered s role (bye sid reason) o h = cc

-- A session keeps its two peers and its identifier.
pub record SamePeers (s t : Relay) : Type 0 where
  pub sid : t.sid ≡ s.sid
  pub sender : t.sender ≡ s.sender
  pub receiver : t.receiver ≡ s.receiver

pub phase_step-SamePeers :
    (s : Relay) (role : Role) (m : ClientMessage) → SamePeers s (apply_phase s role m)
unfolding apply_phase
phase_step-SamePeers s sender (pake sid share) = record {
  sid = refl;
  sender = refl;
  receiver = refl;
}
phase_step-SamePeers s sender (signal sid candidate sealed) = grind arith
phase_step-SamePeers s receiver (signal sid candidate sealed) = grind arith
phase_step-SamePeers s sender (signal sid offer sealed) = record {
  sid = refl;
  sender = refl;
  receiver = refl;
}
phase_step-SamePeers s sender _ = record { sid = refl; sender = refl; receiver = refl }
phase_step-SamePeers s receiver (pake sid share) = record {
  sid = refl;
  sender = refl;
  receiver = refl;
}
phase_step-SamePeers s receiver (signal sid offer sealed) = record {
  sid = refl;
  sender = refl;
  receiver = refl;
}
phase_step-SamePeers s receiver _ = record { sid = refl; sender = refl; receiver = refl }

-- A relayed message keeps the phases in order.
pub apply_relay_phase-IsOrdered :
    (s : Relay) (peer : ℕ) (m : ClientMessage)
    → IsOrdered s
    → relay_allowed_for_phase s peer m ≡ true
    → IsOrdered (apply_relay_phase s peer m)
unfolding relay_allowed_for_phase apply_relay_phase
apply_relay_phase-IsOrdered s peer m o h = elim (Option-cases (session_peer_id s peer)) [
  | inl e ↦ rw (e, apply_relay_phase) o
  | inr (role, e) ↦
      rw (e, apply_relay_phase)
        (phase_step-IsOrdered s role m o (rw (e, relay_allowed_for_phase) at h))
]

-- A message leaves the identifiers of a session alone.
pub apply_relay_phase-SamePeers :
    (s : Relay) (peer : ℕ) (m : ClientMessage) → SamePeers s (apply_relay_phase s peer m)
unfolding apply_relay_phase
apply_relay_phase-SamePeers s peer m = elim (Option-cases (session_peer_id s peer)) [
  | inl e ↦ rw (e, apply_relay_phase) (record { sid = refl; sender = refl; receiver = refl })
  | inr (role, e) ↦ rw (e, apply_relay_phase) (phase_step-SamePeers s role m)
]
