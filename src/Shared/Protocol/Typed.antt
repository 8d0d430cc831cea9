-- ===== src/Shared/Protocol/Typed.antt =====
-- shared/messages.ts: a value that is a client's message has the fields that the server reads.
use p2p_transfer.Base.{
  ℕ, ◌≡◌, refl, Bool, true, Option, none, some, Text, same_text, arith, Bool-cases, inl, inr,
}
use p2p_transfer.Shared.FileNames.{units}
use p2p_transfer.Shared.Messages.{
  SignalKind, offer, answer, candidate, ClientMessage, register, connect, pake, confirm,
  pair_request, pair_accept, pair_reject, signal,
}
use p2p_transfer.Shared.Codes.{is_valid_rendezvous}
use p2p_transfer.Shared.Json.{Value, text_of}
use p2p_transfer.Shared.Protocol.{
  ClientType, register_type, connect_type, pake_type, confirm_type, pair_request_type,
  pair_accept_type, pair_reject_type, signal_type, bye_type, client_type, own, type_passes,
  client_fields, is_client_message, is_tag, is_sealed, is_non_empty_byte_bounded, max_pake_bytes,
  is_session_id, is_signal_kind,
}
use p2p_transfer.Shared.Protocol.Reading.{read_kind, read_fields, read_client_message, IsWellFormed}
use p2p_transfer.Shared.Protocol.Reading.{◌>>=◌}
use p2p_transfer.Shared.Protocol.Manifests.{is_string-some, is_natural-some}
use p2p_transfer.Shared.Protocol.Allowed.{read_manifest-some}

-- Chains of two and of three fields, and of a kind between them.
bind_two :
    {A B C : Type 0} (o : Option A) (p : Option B) (f : A → B → C) (a : A) (b : B)
    → o ≡ some a
    → p ≡ some b
    → (o >>= (λ x. p >>= (λ y. some (f x y)))) ≡ some (f a b)
bind_two o p f a b h k = rw h (rw k refl)

bind_three :
    {A B C D : Type 0} (o : Option A) (p : Option B) (q : Option C) (f : A → B → C → D) (a : A)
    (b : B) (c : C)
    → o ≡ some a
    → p ≡ some b
    → q ≡ some c
    → (o >>= (λ x. p >>= (λ y. q >>= (λ z. some (f x y z))))) ≡ some (f a b c)
bind_three o p q f a b c h k l = rw h (rw k (rw l refl))

bind_kind :
    {A B C D E : Type 0} (o : Option A) (p : Option B) (q : B → Option C) (r : Option D)
    (f : A → C → D → E) (a : A) (b : B) (c : C) (d : D)
    → o ≡ some a
    → p ≡ some b
    → q b ≡ some c
    → r ≡ some d
    → (o >>= (λ x. p >>= (λ y. q y >>= (λ z. r >>= (λ w. some (f x z w)))))) ≡ some (f a c d)
bind_kind o p q r f a b c d h k l m = rw h (rw k (rw l (rw m refl)))

bind_type :
    (o : Option Text) (next : ClientType → Option ClientMessage) (s : Text) (t : ClientType)
    (m : ClientMessage)
    → o ≡ some s
    → client_type s ≡ some t
    → next t ≡ some m
    → (o >>= (λ x. client_type x >>= next)) ≡ some m
bind_type o next s t m h k l = rw h (rw k l)

is_signal_kind-read :
    (s : Text) → is_signal_kind s ≡ true → (k : SignalKind) × (read_kind s ≡ some k)
unfolding read_kind
is_signal_kind-read s h = elim (Bool-cases (same_text s (units "offer"))) [
  | inl e ↦ (offer, rw e refl)
  | inr e ↦ elim (Bool-cases (same_text s (units "answer"))) [
    | inl a ↦ (answer, rw e (rw a refl))
    | inr a ↦ elim (Bool-cases (same_text s (units "candidate"))) [
      | inl c ↦ (candidate, rw e (rw a (rw c refl)))
      | inr c ↦ ground (arith, e, a, c, h)
    ]
  ]
]

module _ (is_format : ℕ → Bool) (sid_of : Text → ℕ) where
  -- The message that a value reads as.
  abbrev pub IsRead : (Option ClientMessage) → Type 0
  IsRead o = (m : ClientMessage) × (o ≡ some m) × IsWellFormed m

  fields-IsRead :
      (type : ClientType) (v : Value)
      → client_fields is_format type v ≡ true
      → IsRead (read_fields sid_of type v)
  unfolding client_fields read_fields
  fields-IsRead register_type v h =
      let (code, at, good) =
        is_string-some is_valid_rendezvous (own v (units "code")) (ground (arith, h)) in
      let (n, version) = is_natural-some (own v (units "protocolVersion")) (ground (arith, h)) in
      (register code n, bind_two _ _ register code n at version, good)
  fields-IsRead connect_type v h =
      let (code, at, good) =
        is_string-some is_valid_rendezvous (own v (units "code")) (ground (arith, h)) in
      let (n, version) = is_natural-some (own v (units "protocolVersion")) (ground (arith, h)) in
      (connect code n, bind_two _ _ connect code n at version, good)
  fields-IsRead pake_type v h =
      let (sid, named, _) =
        is_string-some is_session_id (own v (units "sid")) (ground (arith, h)) in
      let (share, at, good) =
        is_string-some (is_non_empty_byte_bounded max_pake_bytes) (own v (units "data"))
          (ground (arith, h)) in
      (pake (sid_of sid) share, bind_two _ _ (λ a b. pake (sid_of a) b) sid share named at, good)
  fields-IsRead confirm_type v h =
      let (sid, named, _) =
        is_string-some is_session_id (own v (units "sid")) (ground (arith, h)) in
      let (tag, at, good) = is_string-some is_tag (own v (units "tag")) (ground (arith, h)) in
      (confirm (sid_of sid) tag, bind_two _ _ (λ a b. confirm (sid_of a) b) sid tag named at, good)
  fields-IsRead pair_request_type v h =
      let (sid, named, _) =
        is_string-some is_session_id (own v (units "sid")) (ground (arith, h)) in
      let (m, read, counted, _) =
        read_manifest-some is_format (own v (units "manifest")) (ground (arith, h)) in
      let (sealed, at, good) =
        is_string-some is_sealed (own v (units "sealedManifest")) (ground (arith, h)) in
      (
        pair_request (sid_of sid) m sealed,
        bind_three _ _ _ (λ a b c. pair_request (sid_of a) b c) sid m sealed named read at,
        (counted, good),
      )
  fields-IsRead pair_accept_type v h =
      let (sid, named, _) =
        is_string-some is_session_id (own v (units "sid")) (ground (arith, h)) in
      let (auth, at, good) = is_string-some is_tag (own v (units "auth")) (ground (arith, h)) in
      (
        pair_accept (sid_of sid) auth,
        bind_two _ _ (λ a b. pair_accept (sid_of a) b) sid auth named at,
        good,
      )
  fields-IsRead pair_reject_type v h =
      let (sid, named, _) =
        is_string-some is_session_id (own v (units "sid")) (ground (arith, h)) in
      let (auth, at, good) = is_string-some is_tag (own v (units "auth")) (ground (arith, h)) in
      (
        pair_reject (sid_of sid) auth,
        bind_two _ _ (λ a b. pair_reject (sid_of a) b) sid auth named at,
        good,
      )
  fields-IsRead signal_type v h =
      let (sid, named, _) =
        is_string-some is_session_id (own v (units "sid")) (ground (arith, h)) in
      let (name, is, kinds) =
        is_string-some is_signal_kind (own v (units "kind")) (ground (arith, h)) in
      let (kind, read) = is_signal_kind-read name kinds in
      let (sealed, at, good) =
        is_string-some is_sealed (own v (units "sealedSignal")) (ground (arith, h)) in
      (
        signal (sid_of sid) kind sealed,
        bind_kind _ _ read_kind _ (λ a k b. signal (sid_of a) k b) sid name kind sealed named is
            read at,
        good,
      )
  fields-IsRead bye_type v h = (_, refl, tt)

  type_passes-IsRead :
      (o : Option ClientType) (v : Value)
      → type_passes is_format o v ≡ true
      → (t : ClientType) × (o ≡ some t) × (client_fields is_format t v ≡ true)
  type_passes-IsRead none v h = ground arith
  type_passes-IsRead (some t) v h = (t, refl, h)

  -- A value that is a client's message can be read as one, and what is read is well-formed: a code has
  -- the form of a rendezvous number, a share has from 1 to 4096 bytes, a tag is the base64 text of 32
  -- bytes, a sealed text is canonical base64 within its bounds, and a manifest has from 1 to 100
  -- files, as many as it says.
  pub is_client_message-IsRead :
      (v : Value) → is_client_message is_format v ≡ true → IsRead (read_client_message sid_of v)
  unfolding is_client_message read_client_message
  is_client_message-IsRead v h =
      let (s, named, passes) =
        is_string-some (λ s. type_passes is_format (client_type s) v) (own v (units "type"))
          (ground (arith, h)) in
      let (t, is, fields) = type_passes-IsRead (client_type s) v passes in
      let (m, read, good) = fields-IsRead t v fields in
      (
        m,
        bind_type (text_of (own v (units "type"))) (λ t. read_fields sid_of t v) s t m named is
            read,
        good,
      )
