-- ===== src/Server/Events/Deliveries.antt =====
-- server/index.ts: who gets a client's message from `relay`.
use p2p_transfer.Base.{
  ℕ, ◌≡◌, ◌≢◌, Text, ap, length, refl, sym, ◌∙◌, ◌⊎◌, inl, inr, Bool, true, false, not, ◌||◌,
  Option, none, some, List, ◌∷◌, arith, if◌then◌else◌, lookup, nat_eq, text_eq, ◌==◌, ==_iff,
}
use p2p_transfer.Shared.PublicManifest.{constant_public_manifest}
use p2p_transfer.Shared.PublicManifest.Constant.{public_pair_request_manifest_is_redacted_iff}
use p2p_transfer.Shared.Messages.{
  FileManifest, pair_request, ClientMessage, ServerMessage, relayed, ErrorCode,
}
use p2p_transfer.Server.Policy.{relay_allowed_for_role, relay_allowed_for_phase}
use p2p_transfer.Server.State.{sent, refused, Env, Session, Server, with_peer, maybe, push_call}
use p2p_transfer.Server.Sockets.{peer_is_open, signaling_backpressure_exceeded}
use p2p_transfer.Server.Cleanup.{cleanup_peer, send}
use p2p_transfer.Server.Cleanup.Moves.{
  relayed_calls, Move, on_peer, on_connections, on_registry, on_limits, drop_session, drop_code,
  put_code, lower_code, expire_code, Moves, stay, then_move, Moves-trans,
}
use p2p_transfer.Server.Cleanup.Moves.Ends.{
  failure-Moves, cleanup_peer-Moves, close_session_peers-Moves,
}
use p2p_transfer.Server.Pairing.{send_to}
use p2p_transfer.Server.Relaying.{
  send_ice_config, IceResult, ice_sent, ice_limited, ice_failed, reject_relay_message, advance,
  relay_accept, relay_other, relay_in, relay, target_of, manifest_allowed, is_pair_accept,
  is_pair_reject,
}
use p2p_transfer.Server.Events.Handlers.{fail_to-Moves}
use p2p_transfer.Server.Events.Relays.{
  reject_relay_message-Moves, relay_delivery_failed-Moves, send_ice_config-Moves,
  close_for_turn-Moves,
}

-- The clients' messages that went out to a peer, the last one first.
abbrev pub heard : Server → ℕ → List ClientMessage
heard s p = relayed_calls (s.peers p).calls

-- A peer that is no target hears nothing new, and the target hears nothing or the message.
pub record IsHanded (s : Server) (target : ℕ) (m : ClientMessage) (t : Server) : Type 0 where
  pub hears : (p : ℕ) → (heard t p ≡ heard s p) ⊎ ((p ≡ target) × (heard t p ≡ m ∷ heard s p))

Move-heard : {s t : Server} → Move s t → (p : ℕ) → heard t p ≡ heard s p
unfolding with_peer
Move-heard {s} (on_peer q f quiet) p = ground (arith, quiet (s.peers q), ==_iff p q)
Move-heard (on_connections m) p = refl
Move-heard (on_registry ps) p = refl
Move-heard (on_limits m n) p = refl
Move-heard (drop_session sid) p = refl
Move-heard (drop_code code) p = refl
Move-heard (put_code code entry same can) p = refl
Move-heard (lower_code code entry n found can) p = refl
Move-heard (expire_code code entry n found) p = refl

-- No sequence of single changes hands a client's message to a peer.
pub Moves-heard : {s t : Server} → Moves s t → (p : ℕ) → heard t p ≡ heard s p
Moves-heard stay p = refl
Moves-heard (then_move ms m) p = Move-heard m p ∙ Moves-heard ms p

kept-IsHanded :
    {s t : Server} (target : ℕ) (m : ClientMessage)
    → ((p : ℕ) → heard t p ≡ heard s p)
    → IsHanded s target m t
kept-IsHanded target m h = record { hears = λ p. inl (h p) }

Moves-IsHanded : {s t : Server} (target : ℕ) (m : ClientMessage) → Moves s t → IsHanded s target m t
Moves-IsHanded target m ms = kept-IsHanded target m (Moves-heard ms)

-- Changes before and after a delivery.
around-IsHanded :
    {s t u v : Server} (target : ℕ) (m : ClientMessage)
    → Moves s t
    → IsHanded t target m u
    → Moves u v
    → IsHanded s target m v
around-IsHanded target m before h after = record {
  hears = λ p. elim (h.hears p) [
    | inl same ↦ inl (Moves-heard after p ∙ same ∙ Moves-heard before p)
    | inr (here, new) ↦ inr (here, (Moves-heard after p ∙ new ∙ (λ i. m ∷ Moves-heard before p i)))
  ];
}

if-IsHanded :
    {s x y : Server} (target : ℕ) (m : ClientMessage) (b : Bool)
    → (b ≡ true → IsHanded s target m x)
    → (b ≡ false → IsHanded s target m y)
    → IsHanded s target m (if b then x else y)
if-IsHanded target m true h k = h refl
if-IsHanded target m false h k = k refl

pair-IsHanded :
    {s : Server} (x y : Server × Bool) (target : ℕ) (m : ClientMessage) (b : Bool)
    → IsHanded s target m x.0
    → IsHanded s target m y.0
    → IsHanded s target m (if b then x else y).0
pair-IsHanded x y target m true h k = h
pair-IsHanded x y target m false h k = k

pushed-heard :
    (s : Server) (q : ℕ) (m : ClientMessage) (p : ℕ)
    → (heard (with_peer s q (push_call (sent (relayed m)))) p ≡ heard s p)
      ⊎ ((p ≡ q) × (heard (with_peer s q (push_call (sent (relayed m)))) p ≡ m ∷ heard s p))
unfolding with_peer
pushed-heard s q m p = ground (arith, ==_iff p q)

pushed-IsHanded :
    (s : Server) (q : ℕ) (m : ClientMessage)
    → IsHanded s q m (with_peer s q (push_call (sent (relayed m))))
pushed-IsHanded s q m = record { hears = λ p. pushed-heard s q m p }

refused-heard :
    (s : Server) (q : ℕ) (m : ServerMessage) (p : ℕ)
    → heard (with_peer s q (push_call (refused m))) p ≡ heard s p
unfolding with_peer
refused-heard s q m p = ground (arith, ==_iff p q)

module _ (env : Env) where
  send-IsHanded :
      (s : Server) (q : ℕ) (m : ClientMessage) → IsHanded s q m (send_to env s q (relayed m)).0
  unfolding send_to send
  send-IsHanded s q m =
      let calls = (s.peers q).calls in
      let clean = cleanup_peer-Moves env in
      let message : ServerMessage = relayed m in
      pair-IsHanded _ _ q m (not (peer_is_open env s q)) (kept-IsHanded q m (λ p. refl)) (
        pair-IsHanded _ _ q m (signaling_backpressure_exceeded env q calls)
          (Moves-IsHanded q m (failure-Moves env (cleanup_peer env) clean s q))
          (pair-IsHanded _ _ q m (env.send_throws q calls message)
            (kept-IsHanded q m (λ p.
              Moves-heard
                (failure-Moves env (cleanup_peer env) clean
                  (with_peer s q (push_call (refused message))) q)
                p
              ∙ refused-heard s q message p))
            (pair-IsHanded _ _ q m (signaling_backpressure_exceeded env q (sent message ∷ calls))
              (around-IsHanded q m stay (pushed-IsHanded s q m) (
                failure-Moves env (cleanup_peer env) clean
                  (with_peer s q (push_call (sent message))) q))
              (pushed-IsHanded s q m))))

  ice_case-IsHanded :
      {s : Server} (target : ℕ) (m : ClientMessage) (r : IceResult) (a b c : Server)
      → IsHanded s target m a
      → IsHanded s target m b
      → IsHanded s target m c
      → IsHanded s target m (elim r [ ice_limited ↦ a | ice_failed ↦ b | ice_sent ↦ c ])
  ice_case-IsHanded target m ice_limited a b c h k l = h
  ice_case-IsHanded target m ice_failed a b c h k l = k
  ice_case-IsHanded target m ice_sent a b c h k l = l

  advance-IsHanded :
      {s : Server} (t : Server) (x : Session) (q target : ℕ) (m : ClientMessage)
      → IsHanded s target m t
      → IsHanded s target m (advance env t x q m)
  unfolding advance
  advance-IsHanded t x q target m h = record { hears = h.hears }

  relay_accept-IsHanded :
      (s : Server) (x : Session) (q target : ℕ) (m : ClientMessage)
      → IsHanded s target m (relay_accept env s x q target m)
  unfolding relay_accept
  relay_accept-IsHanded s x q target m =
      let sender_ice = send_ice_config env s x.sender in
      let handed = send_to env sender_ice.0 target (relayed m) in
      let receiver_ice = send_ice_config env handed.0 x.receiver in
      let first = send_ice_config-Moves env s x.sender in
      let last = send_ice_config-Moves env handed.0 x.receiver in
      let delivered = send-IsHanded sender_ice.0 target m in
      ice_case-IsHanded target m sender_ice.1 _ _ _
        (Moves-IsHanded target m (Moves-trans first (close_for_turn-Moves env sender_ice.0 x)))
        (Moves-IsHanded target m
          (Moves-trans first (relay_delivery_failed-Moves env sender_ice.0 x q target true)))
        (if-IsHanded target m handed.1
          (λ _.
            ice_case-IsHanded target m receiver_ice.1 _ _ _
              (around-IsHanded target m first delivered
                (Moves-trans last (close_for_turn-Moves env receiver_ice.0 x)))
              (around-IsHanded target m first delivered (
                Moves-trans last
                  (close_session_peers-Moves env (cleanup_peer env) receiver_ice.0 x)))
              (advance-IsHanded receiver_ice.0 x q target m
                (around-IsHanded target m first delivered last)))
          (λ _.
            around-IsHanded target m first delivered
              (relay_delivery_failed-Moves env handed.0 x q target true)))

  relay_other-IsHanded :
      (s : Server) (x : Session) (q target : ℕ) (m : ClientMessage)
      → IsHanded s target m (relay_other env s x q target m)
  unfolding relay_other
  relay_other-IsHanded s x q target m =
      let handed = send_to env s target (relayed m) in
      let delivered = send-IsHanded s target m in
      let advanced = advance-IsHanded handed.0 x q target m delivered in
      if-IsHanded target m (not handed.1)
        (λ _.
          around-IsHanded target m stay delivered
            (relay_delivery_failed-Moves env handed.0 x q target (not (is_pair_reject m))))
        (λ _.
          if-IsHanded target m (is_pair_reject m)
            (λ _.
              around-IsHanded target m stay advanced
                (close_session_peers-Moves env (cleanup_peer env) (advance env handed.0 x q m) x))
            (λ _. advanced))

  -- What the server asks for before it hands a message on.
  pub record MayRelay (s : Server) (x : Session) (q : ℕ) (m : ClientMessage) : Type 0 where
    pub belongs : x.sender == q || x.receiver == q ≡ true
    pub manifest : manifest_allowed env m ≡ true
    pub role : relay_allowed_for_role x.relay q m ≡ true
    pub phase : relay_allowed_for_phase x.relay q m ≡ true
    pub listening : peer_is_open env s (target_of env x q) ≡ true

  -- What a peer hears of a message: nothing, or the message itself, as the other member of the
  -- session, when all that is asked for holds.
  pub data Delivery (s : Server) (q sid : ℕ) (m : ClientMessage) (p : ℕ) (t : Server) : Type 0 where
    nothing : heard t p ≡ heard s p → Delivery s q sid m p t
    handed :
        (x : Session)
        → lookup sid s.sessions ≡ some x
        → MayRelay s x q m
        → p ≡ target_of env x q
        → heard t p ≡ m ∷ heard s p
        → Delivery s q sid m p t

  if-Delivery :
      {s : Server} {q sid : ℕ} {m : ClientMessage} {p : ℕ} {x y : Server} (b : Bool)
      → (b ≡ true → Delivery s q sid m p x)
      → (b ≡ false → Delivery s q sid m p y)
      → Delivery s q sid m p (if b then x else y)
  if-Delivery true h k = h refl
  if-Delivery false h k = k refl

  granted-Delivery :
      (s : Server) (q sid : ℕ) (m : ClientMessage) (p : ℕ) (x : Session) (t : Server)
      → lookup sid s.sessions ≡ some x
      → MayRelay s x q m
      → IsHanded s (target_of env x q) m t
      → Delivery s q sid m p t
  granted-Delivery s q sid m p x t found may h = elim (h.hears p) [
    | inl same ↦ nothing same
    | inr (here, new) ↦ handed x found may here new
  ]

  relay_in-Delivery :
      (s : Server) (q sid : ℕ) (m : ClientMessage) (p : ℕ) (x : Session)
      → lookup sid s.sessions ≡ some x
      → Delivery s q sid m p (relay_in env s x q m)
  unfolding relay_in
  relay_in-Delivery s q sid m p x found =
      let target = target_of env x q in
      let rejected : Delivery s q sid m p (reject_relay_message env s x q) =
        nothing (Moves-heard (reject_relay_message-Moves env s x q) p) in
      if-Delivery (not (x.sender == q || x.receiver == q))
        (λ _. nothing (Moves-heard (fail_to-Moves env s q ErrorCode.session_not_found) p))
        (λ belongs.
          if-Delivery (not (manifest_allowed env m)) (λ _. rejected)
            (λ manifest.
              if-Delivery (not (relay_allowed_for_role x.relay q m)) (λ _. rejected)
                (λ role.
                  if-Delivery (not (relay_allowed_for_phase x.relay q m)) (λ _. rejected)
                    (λ phase.
                      if-Delivery (not (peer_is_open env s target))
                        (λ _. nothing (
                          Moves-heard
                            (relay_delivery_failed-Moves env s x q target (not (is_pair_reject m)))
                            p))
                        (λ listening.
                          let may : MayRelay s x q m = record {
                            belongs = ground arith;
                            manifest = ground arith;
                            role = ground arith;
                            phase = ground arith;
                            listening = ground arith;
                          } in
                          if-Delivery (is_pair_accept m)
                            (λ _.
                              granted-Delivery s q sid m p x _ found may
                                (relay_accept-IsHanded s x q target m))
                            (λ _.
                              granted-Delivery s q sid m p x _ found may
                                (relay_other-IsHanded s x q target m)))))))

  maybe-Delivery :
      {s : Server} {q sid : ℕ} {m : ClientMessage} {p : ℕ} {d : Server} {f : Session → Server}
      (o : Option Session)
      → Delivery s q sid m p d
      → ((x : Session) → o ≡ some x → Delivery s q sid m p (f x))
      → Delivery s q sid m p (maybe o d f)
  maybe-Delivery none h k = h
  maybe-Delivery (some x) h k = k x refl

  -- When a client sends a message for a session, a peer either hears nothing new, or it hears
  -- exactly that message: then the session exists, the client is a member of it and the peer is the
  -- other member, the role and the phase allow the message, the manifest of a pair request is within
  -- the limits and redacted, and the peer's socket is open.
  pub relay-Delivery :
      (s : Server) (q sid : ℕ) (m : ClientMessage) (p : ℕ)
      → Delivery s q sid m p (relay env s q sid m)
  unfolding relay
  relay-Delivery s q sid m p =
      maybe-Delivery (lookup sid s.sessions)
        (nothing (Moves-heard (fail_to-Moves env s q ErrorCode.session_not_found) p))
        (λ x found. relay_in-Delivery s q sid m p x found)

  longer_list : (xs : List ClientMessage) (m : ClientMessage) → xs ≢ m ∷ xs
  longer_list xs m same = omega (arith, ap length same)

  MayRelay-constant :
      (s : Server) (x : Session) (q sid : ℕ) (manifest : FileManifest) (sealed : Text)
      → MayRelay s x q (pair_request sid manifest sealed)
      → manifest ≡ constant_public_manifest
  unfolding manifest_allowed
  MayRelay-constant s x q sid manifest sealed may =
      (public_pair_request_manifest_is_redacted_iff manifest).0 (ground (arith, may.manifest))

  -- A pair request that the server hands on shows the constant manifest, whatever the files are.
  pub relay-constant_manifest :
      (s : Server) (q sid : ℕ) (manifest : FileManifest) (sealed : Text) (p : ℕ)
      → heard (relay env s q sid (pair_request sid manifest sealed)) p
        ≡ pair_request sid manifest sealed ∷ heard s p
      → manifest ≡ constant_public_manifest
  relay-constant_manifest s q sid manifest sealed p h =
      elim (relay-Delivery s q sid (pair_request sid manifest sealed) p) [
        | nothing same ↦
            elim (longer_list (heard s p) (pair_request sid manifest sealed) (sym same ∙ h)) [ ]
        | handed x found may here new ↦ MayRelay-constant s x q sid manifest sealed may
      ]
