-- ===== src/Server/Policy/Traces.antt =====
-- server/policy.ts over a whole session: the flags record which messages were relayed.
use p2p_transfer.Base.{
  ℕ, suc, ◌≤◌, ◌≡◌, refl, sym, ◌∙◌, Bool, true, false, ◌&&◌, ◌||◌, List, [], ◌∷◌, if◌then◌else◌,
  arith, subst, Bool-cases, inl, inr,
}
use p2p_transfer.Shared.Messages.{
  ClientMessage, register, connect, bye, pake, confirm, pair_request, pair_accept, pair_reject,
  signal, offer, answer, candidate, Role, sender, receiver,
}
use p2p_transfer.Server.Policy.{
  Relay, is_sender, role_allows, phase_allows, apply_phase, signaling_max_ice_candidates_per_peer,
}
use p2p_transfer.Server.Policy.Phases.{IsOrdered, phase_step-IsOrdered}

-- A session as `connect` of server/index.ts creates it.
unfoldable pub fresh_relay : ℕ → ℕ → ℕ → Relay
fresh_relay sid from to = record {
  sid = sid;
  sender = from;
  receiver = to;
  sender_pake_seen = false;
  receiver_pake_seen = false;
  sender_confirmed = false;
  receiver_confirmed = false;
  pair_requested = false;
  pair_decided = false;
  offer_seen = false;
  answer_seen = false;
  sender_candidate_count = 0;
  receiver_candidate_count = 0;
}

pub fresh_relay-IsOrdered : (sid from to : ℕ) → IsOrdered (fresh_relay sid from to)
unfolding fresh_relay
fresh_relay-IsOrdered sid from to = grind arith

-- The messages that a session has relayed, newest first, and the state that they leave.
pub data Run (start : Relay) : List (Role × ClientMessage) → Relay → Type 0 where
  none_yet : Run start [] start
  then_relayed :
      {past : List (Role × ClientMessage)} {s : Relay}
      → Run start past s
      → (role : Role) (m : ClientMessage) → role_allows (is_sender role) m ≡ true
      → phase_allows s role m ≡ true
      → Run start ((role, m) ∷ past) (apply_phase s role m)

pub Run-IsOrdered :
    {start s : Relay} {past : List (Role × ClientMessage)}
    → IsOrdered start
    → Run start past s
    → IsOrdered s
Run-IsOrdered o none_yet = o
Run-IsOrdered o (then_relayed {s} run role m allowed phase) =
    phase_step-IsOrdered s role m (Run-IsOrdered o run) phase

pub data Kind : Type 0 where
  share tag request accept offered answered candidates : Kind

abbrev pub is_kind : Kind → ClientMessage → Bool
is_kind share (pake sid d) = true
is_kind tag (confirm sid d) = true
is_kind request (pair_request sid d sealed) = true
is_kind accept (pair_accept sid d) = true
is_kind offered (signal sid offer d) = true
is_kind answered (signal sid answer d) = true
is_kind candidates (signal sid candidate d) = true
is_kind _ _ = false

abbrev pub same_role : Role → Role → Bool
same_role sender sender = true
same_role receiver receiver = true
same_role _ _ = false

abbrev pub occurs : Kind → Role → List (Role × ClientMessage) → Bool
occurs k role [] = false
occurs k role ((r, m) ∷ past) = (same_role role r && is_kind k m) || occurs k role past

abbrev pub count : Kind → Role → List (Role × ClientMessage) → ℕ
count k role [] = 0
count k role ((r, m) ∷ past) =
    if same_role role r && is_kind k m then suc (count k role past) else count k role past

-- The state of a session is what was relayed in it.
pub record Records (s : Relay) (past : List (Role × ClientMessage)) : Type 0 where
  pub sender_pake : s.sender_pake_seen ≡ occurs share sender past
  pub receiver_pake : s.receiver_pake_seen ≡ occurs share receiver past
  pub sender_confirm : s.sender_confirmed ≡ occurs tag sender past
  pub receiver_confirm : s.receiver_confirmed ≡ occurs tag receiver past
  pub requested : s.pair_requested ≡ occurs request sender past
  pub decided : s.pair_decided ≡ occurs accept receiver past
  pub offered : s.offer_seen ≡ occurs offered sender past
  pub answered : s.answer_seen ≡ occurs answered receiver past
  pub sender_candidates : s.sender_candidate_count ≡ count candidates sender past
  pub receiver_candidates : s.receiver_candidate_count ≡ count candidates receiver past

apply_phase-Records :
    (s : Relay) (past : List (Role × ClientMessage)) (role : Role) (m : ClientMessage)
    → Records s past
    → role_allows (is_sender role) m ≡ true
    → phase_allows s role m ≡ true
    → Records (apply_phase s role m) ((role, m) ∷ past)
unfolding apply_phase role_allows phase_allows
apply_phase-Records s past sender (pake sid d) r a h = ground arith
apply_phase-Records s past receiver (pake sid d) r a h = ground arith
apply_phase-Records s past sender (confirm sid d) r a h = ground arith
apply_phase-Records s past receiver (confirm sid d) r a h = ground arith
apply_phase-Records s past sender (pair_request sid d e) r a h = ground arith
apply_phase-Records s past receiver (pair_request sid d e) r a h = cc
apply_phase-Records s past sender (pair_accept sid d) r a h = cc
apply_phase-Records s past receiver (pair_accept sid d) r a h = ground arith
apply_phase-Records s past sender (pair_reject sid d) r a h = cc
apply_phase-Records s past receiver (pair_reject sid d) r a h = ground arith
apply_phase-Records s past sender (signal sid offer d) r a h = ground arith
apply_phase-Records s past receiver (signal sid offer d) r a h = cc
apply_phase-Records s past sender (signal sid answer d) r a h = cc
apply_phase-Records s past receiver (signal sid answer d) r a h = ground arith
apply_phase-Records s past sender (signal sid candidate d) r a h = ground arith
apply_phase-Records s past receiver (signal sid candidate d) r a h = ground arith
apply_phase-Records s past role (register code v) r a h = cc
apply_phase-Records s past role (connect code v) r a h = cc
apply_phase-Records s past role (bye sid reason) r a h = cc

fresh_relay-Records : (sid from to : ℕ) → Records (fresh_relay sid from to) []
unfolding fresh_relay
fresh_relay-Records sid from to = ground arith

-- The flags and the counts of a session say exactly which messages it has relayed, and from whom.
pub Run-Records :
    (sid from to : ℕ) {s : Relay} {past : List (Role × ClientMessage)}
    → Run (fresh_relay sid from to) past s
    → Records s past
Run-Records sid from to none_yet = fresh_relay-Records sid from to
Run-Records sid from to (then_relayed {past} {s} run role m a h) =
    apply_phase-Records s past role m (Run-Records sid from to run) a h

abbrev pub is_signal : ClientMessage → Bool
is_signal (signal sid kind sealed) = true
is_signal _ = false

signal-decided :
    (s : Relay) (role : Role) (m : ClientMessage)
    → is_signal m ≡ true
    → phase_allows s role m ≡ true
    → s.pair_decided ≡ true
unfolding phase_allows
signal-decided s role (signal sid offer d) e h = ground arith
signal-decided s role (signal sid answer d) e h = ground arith
signal-decided s role (signal sid candidate d) e h = ground arith
signal-decided s role (pake sid d) e h = cc
signal-decided s role _ e h = cc

-- A WebRTC signal is relayed only in a session in which both peers have sent their share and their
-- confirmation tag, the sender has sent the pair request and the receiver has accepted it.
pub signal_needs_acceptance :
    (sid from to : ℕ) {s : Relay} {past : List (Role × ClientMessage)} (role : Role)
    (m : ClientMessage)
    → Run (fresh_relay sid from to) past s
    → is_signal m ≡ true
    → phase_allows s role m ≡ true
    → (occurs accept receiver past ≡ true)
      × (occurs request sender past ≡ true)
      × (occurs tag sender past ≡ true)
      × (occurs tag receiver past ≡ true)
      × (occurs share sender past ≡ true)
      × (occurs share receiver past ≡ true)
signal_needs_acceptance sid from to {s} {past} role m run e h =
    let o = Run-IsOrdered (fresh_relay-IsOrdered sid from to) run in
    let r = Run-Records sid from to run in
    let decided = signal-decided s role m e h in
    let requested = o.requested decided in
    let (sender_tag, receiver_tag) = o.confirmed requested in
    let (sender_share, receiver_share) = o.sender_shared sender_tag in
    (
      sym r.decided ∙ decided,
      sym r.requested ∙ requested,
      sym r.sender_confirm ∙ sender_tag,
      sym r.receiver_confirm ∙ receiver_tag,
      sym r.sender_pake ∙ sender_share,
      sym r.receiver_pake ∙ receiver_share,
    )

-- However long a session lasts, it relays at most the limit of candidates from each peer.
pub candidates-le-limit :
    (sid from to : ℕ) {s : Relay} {past : List (Role × ClientMessage)} (role : Role)
    → Run (fresh_relay sid from to) past s
    → count candidates role past ≤ signaling_max_ice_candidates_per_peer
candidates-le-limit sid from to sender run = omega (
  arith,
  (Run-IsOrdered (fresh_relay-IsOrdered sid from to) run).sender_bounded,
  (Run-Records sid from to run).sender_candidates,
)
candidates-le-limit sid from to receiver run = omega (
  arith,
  (Run-IsOrdered (fresh_relay-IsOrdered sid from to) run).receiver_bounded,
  (Run-Records sid from to run).receiver_candidates,
)

-- The kinds that a flag stands for.
abbrev pub is_flagged : Kind → Bool
is_flagged candidates = false
is_flagged _ = true

flagged-first :
    (s : Relay) (past : List (Role × ClientMessage)) (role : Role) (m : ClientMessage) (k : Kind)
    → Records s past
    → role_allows (is_sender role) m ≡ true
    → phase_allows s role m ≡ true
    → is_flagged k ≡ true
    → is_kind k m ≡ true
    → occurs k role past ≡ false
unfolding role_allows phase_allows
flagged-first s past sender (pake sid d) share r a h f e = ground arith
flagged-first s past receiver (pake sid d) share r a h f e = ground arith
flagged-first s past sender (confirm sid d) tag r a h f e = ground arith
flagged-first s past receiver (confirm sid d) tag r a h f e = ground arith
flagged-first s past sender (pair_request sid d x) request r a h f e = ground arith
flagged-first s past receiver (pair_request sid d x) request r a h f e = cc
flagged-first s past sender (pair_accept sid d) accept r a h f e = cc
flagged-first s past receiver (pair_accept sid d) accept r a h f e = ground arith
flagged-first s past sender (signal sid offer d) offered r a h f e = ground arith
flagged-first s past receiver (signal sid offer d) offered r a h f e = cc
flagged-first s past sender (signal sid answer d) answered r a h f e = cc
flagged-first s past receiver (signal sid answer d) answered r a h f e = ground arith
flagged-first s past sender (signal sid candidate d) candidates r a h f e = cc
flagged-first s past receiver (signal sid candidate d) candidates r a h f e = cc
flagged-first s past sender (pair_reject sid auth) share r a h f e = cc
flagged-first s past receiver (pair_reject sid auth) share r a h f e = cc
flagged-first s past role m k r a h f e = cc

absent-count :
    (k : Kind) (role : Role) (past : List (Role × ClientMessage))
    → occurs k role past ≡ false
    → count k role past ≡ 0
absent-count k role [] h = refl
absent-count k role ((r, m) ∷ past) h = ground (arith, absent-count k role past)

-- However long a session lasts, it relays at most one share, one confirmation tag, one pair request, one
-- pair acceptance, one offer and one answer from each peer, whatever their payloads and whatever is
-- relayed in between.
pub count-le-one :
    (sid from to : ℕ) {s : Relay} {past : List (Role × ClientMessage)} (role : Role) (k : Kind)
    → Run (fresh_relay sid from to) past s
    → is_flagged k ≡ true
    → count k role past ≤ 1
count-le-one sid from to role k none_yet f = omega arith
count-le-one sid from to role k (then_relayed {past} {s} run by m a h) f =
    let before = count-le-one sid from to role k run f in
    count_more role by before (λ same e. absent-count k role past (
      flagged-first s past role m k (Run-Records sid from to run)
        (subst (λ r. role_allows (is_sender r) m ≡ true) (sym same) a)
        (subst (λ r. phase_allows s r m ≡ true) (sym same) h) f e))
  where
    count_more :
        (r by : Role)
        → count k r past ≤ 1
        → (r ≡ by → is_kind k m ≡ true → count k r past ≡ 0)
        → count k r ((by, m) ∷ past) ≤ 1
    count_more sender sender before first = elim (Bool-cases (is_kind k m)) [
      | inl e ↦ rw e (omega (arith, first refl e))
      | inr e ↦ rw e before
    ]
    count_more receiver receiver before first = elim (Bool-cases (is_kind k m)) [
      | inl e ↦ rw e (omega (arith, first refl e))
      | inr e ↦ rw e before
    ]
    count_more sender receiver before first = before
    count_more receiver sender before first = before
