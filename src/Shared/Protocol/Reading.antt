-- ===== src/Shared/Protocol/Reading.antt =====
-- shared/messages.ts: the fields that the server reads of a client's message once it is one.
use p2p_transfer.Base.{
  ℕ, ◌≤◌, ◌≡◌, true, Option, none, some, List, [], ◌∷◌, Text, same_text, if◌then◌else◌, length, nat,
}
use p2p_transfer.Shared.FileNames.{units}
use p2p_transfer.Shared.Messages.{
  SignalKind, offer, answer, candidate, FileManifestEntry, FileManifest, ByeReason, prepair_retry,
  complete, cancelled, other_reason, ClientMessage, register, connect, pake, confirm, pair_request,
  pair_accept, pair_reject, signal, bye,
}
use p2p_transfer.Shared.Limits.{max_files_per_session}
use p2p_transfer.Shared.Codes.{is_valid_rendezvous}
use p2p_transfer.Shared.Json.{Json, Value, elements, text_of, number_of}
use p2p_transfer.Shared.Control.{natural}
use p2p_transfer.Shared.Protocol.{
  ClientType, register_type, connect_type, pake_type, confirm_type, pair_request_type,
  pair_accept_type, pair_reject_type, signal_type, bye_type, client_type, own, is_tag, is_sealed,
  is_non_empty_byte_bounded, max_pake_bytes,
}

-- A chain of fields that have to be there.
infixl 5 ◌>>=◌
abbrev pub ◌>>=◌ {ℓ κ} : {A : Type ℓ} {B : Type κ} → Option A → (A → Option B) → Option B
none >>= next = none
some a >>= next = next a

abbrev pub read_entry : Json → Option FileManifestEntry
read_entry file = do
  let v = some file
  name ← text_of (own v (units "name"))
  size ← number_of (own v (units "size"))
  some (record {
    id = number_of (own v (units "id"));
    name = name;
    size = size;
    mime = text_of (own v (units "mime"));
  })

unfoldable pub read_entries : List Json → Option (List FileManifestEntry)
read_entries [] = some []
read_entries (v ∷ vs) = do file ← read_entry v; files ← read_entries vs; some (file ∷ files)

unfoldable pub read_manifest : Value → Option FileManifest
unfolding read_entries
read_manifest v = do
  entries ← elements (own v (units "files"))
  files ← read_entries entries
  count ← number_of (own v (units "fileCount"))
  total ← number_of (own v (units "totalBytes"))
  some (record { files = files; file_count = count; total_bytes = total })

unfoldable pub read_kind : Text → Option SignalKind
read_kind s =
    if same_text s (units "offer")
    then some offer
    else if same_text s (units "answer")
    then some answer
    else if same_text s (units "candidate")
    then some candidate
    else none

abbrev pub reason_of : Text → ByeReason
reason_of s =
    if same_text s (units "prepair_retry")
    then prepair_retry
    else if same_text s (units "complete")
    then complete
    else if same_text s (units "cancelled")
    then cancelled
    else other_reason

abbrev pub map_option {ℓ κ} : {A : Type ℓ} {B : Type κ} → (A → B) → Option A → Option B
map_option f none = none
map_option f (some a) = some (f a)

-- A session's text is named by a number, as the identifiers that nanoid makes are.
module _ (sid_of : Text → ℕ) where
  unfoldable pub read_fields : ClientType → Value → Option ClientMessage
  read_fields register_type v = do
    code ← text_of (own v (units "code"))
    version ← natural (own v (units "protocolVersion"))
    some (register code version)
  read_fields connect_type v = do
    code ← text_of (own v (units "code"))
    version ← natural (own v (units "protocolVersion"))
    some (connect code version)
  read_fields pake_type v = do
    sid ← text_of (own v (units "sid"))
    share ← text_of (own v (units "data"))
    some (pake (sid_of sid) share)
  read_fields confirm_type v = do
    sid ← text_of (own v (units "sid"))
    tag ← text_of (own v (units "tag"))
    some (confirm (sid_of sid) tag)
  read_fields pair_request_type v = do
    sid ← text_of (own v (units "sid"))
    manifest ← read_manifest (own v (units "manifest"))
    sealed ← text_of (own v (units "sealedManifest"))
    some (pair_request (sid_of sid) manifest sealed)
  read_fields pair_accept_type v = do
    sid ← text_of (own v (units "sid"))
    auth ← text_of (own v (units "auth"))
    some (pair_accept (sid_of sid) auth)
  read_fields pair_reject_type v = do
    sid ← text_of (own v (units "sid"))
    auth ← text_of (own v (units "auth"))
    some (pair_reject (sid_of sid) auth)
  read_fields signal_type v = do
    sid ← text_of (own v (units "sid"))
    name ← text_of (own v (units "kind"))
    kind ← read_kind name
    sealed ← text_of (own v (units "sealedSignal"))
    some (signal (sid_of sid) kind sealed)
  read_fields bye_type v = some (
      bye (map_option sid_of (text_of (own v (units "sid"))))
        (map_option reason_of (text_of (own v (units "reason")))))

  unfoldable pub read_client_message : Value → Option ClientMessage
  unfolding read_fields
  read_client_message v = do
    name ← text_of (own v (units "type"))
    type ← client_type name
    read_fields type v

-- What the server is told of a manifest.
pub record IsCountedManifest (m : FileManifest) : Type 0 where
  pub counted : m.file_count ≡ nat (length m.files)
  pub some_file : 1 ≤ length m.files
  pub few_files : length m.files ≤ max_files_per_session

-- What the fields of a client's message satisfy.
abbrev pub IsWellFormed : ClientMessage → Type 0
IsWellFormed (register code version) = is_valid_rendezvous code ≡ true
IsWellFormed (connect code version) = is_valid_rendezvous code ≡ true
IsWellFormed (pake sid share) = is_non_empty_byte_bounded max_pake_bytes share ≡ true
IsWellFormed (confirm sid tag) = is_tag tag ≡ true
IsWellFormed (pair_request sid manifest sealed) =
    IsCountedManifest manifest × (is_sealed sealed ≡ true)
IsWellFormed (pair_accept sid auth) = is_tag auth ≡ true
IsWellFormed (pair_reject sid auth) = is_tag auth ≡ true
IsWellFormed (signal sid kind sealed) = is_sealed sealed ≡ true
IsWellFormed (bye sid reason) = Unit
