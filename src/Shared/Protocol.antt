-- ===== src/Shared/Protocol.antt =====
-- shared/messages.ts: which values of JSON are messages of a client.
pub mod Reading
pub mod Manifests
pub mod Allowed
pub mod Typed
use p2p_transfer.Base.{
  ℕ, ◌+◌, Bool, true, false, not, ◌&&◌, ◌||◌, Option, none, some, List, [], ◌∷◌, Text, same_text,
  ltb, leb, ◌==◌, if◌then◌else◌, length, Number, max_safe_integer,
}
use p2p_transfer.Shared.Text.{characters, utf8_byte_length, trim}
use p2p_transfer.Shared.FileNames.{units, is_one_of, is_path_separator}
use p2p_transfer.Shared.Limits.{
  max_file_bytes, max_files_per_session, max_file_name_chars, mime_within_limits, contains,
}
use p2p_transfer.Shared.Codes.{is_valid_rendezvous}
use p2p_transfer.Shared.Base64.{is_base64_encoded_bytes, is_bounded_canonical_base64}
use p2p_transfer.Shared.Json.{
  Json, Value, is_object, own_data_value, has_only_keys, elements, text_of, number_of, is_undefined,
}
use p2p_transfer.Shared.Control.{uint8, natural, unsafe_characters}

abbrev pub max_sid_chars : ℕ
max_sid_chars = 128

abbrev pub max_pake_bytes : ℕ
max_pake_bytes = 4096

abbrev pub max_reason_chars : ℕ
max_reason_chars = 1000

abbrev pub encrypted_json_max_chars : ℕ
encrypted_json_max_chars = 196608

abbrev pub min_encrypted_json_base64_chars : ℕ
min_encrypted_json_base64_chars = 20

abbrev pub hmac_sha256_bytes : ℕ
hmac_sha256_bytes = 32

-- `typeof value === "string"`, and a test of the text
unfoldable pub is_string : (Text → Bool) → Value → Bool
is_string test v = elim (text_of v) [ none ↦ false | some s ↦ test s ]

-- `isSafeNonNegativeInteger`
unfoldable pub is_natural : Value → Bool
is_natural v = elim (natural v) [ none ↦ false | some n ↦ true ]

abbrev pub is_session_char : ℕ → Bool
is_session_char c =
    (leb 65 c && leb c 90)
    || (leb 97 c && leb c 122)
    || (leb 48 c && leb c 57)
    || c == 95
    || c == 45

abbrev pub all_session_chars : Text → Bool
all_session_chars [] = true
all_session_chars (c ∷ s) = is_session_char c && all_session_chars s

-- `isSessionId`, of a string
unfoldable pub is_session_id : Text → Bool
is_session_id s = ltb 0 (length s) && leb (length s) max_sid_chars && all_session_chars s

-- `isNonEmptyByteBoundedString`, of a string
unfoldable pub is_non_empty_byte_bounded : ℕ → Text → Bool
is_non_empty_byte_bounded max_bytes s = leb (utf8_byte_length s) max_bytes && ltb 0 (length s)

abbrev pub is_tag : Text → Bool
is_tag s = is_base64_encoded_bytes s hmac_sha256_bytes

abbrev pub is_sealed : Text → Bool
is_sealed s = is_bounded_canonical_base64 s min_encrypted_json_base64_chars encrypted_json_max_chars

abbrev pub no_separator : Text → Bool
no_separator [] = true
no_separator (c ∷ s) = not (is_path_separator c) && no_separator s

-- `ids` after an optional identifier, `none` when it is no byte or stands twice.
unfoldable pub add_id : List ℕ → Value → Option (List ℕ)
add_id ids none = some ids
add_id ids (some v) = elim (uint8 (some v)) [
  | none ↦ none
  | some n ↦ if contains n ids then none else some (n ∷ ids)
]

module _ (is_format : ℕ → Bool) where
  -- `isSafeBoundedString`, of a string
  unfoldable pub is_safe_bounded : ℕ → Text → Bool
  is_safe_bounded max_chars s =
      leb (length s) max_chars && not (unsafe_characters is_format (characters s))

  -- `isSafeManifestFileName`, of a string
  unfoldable pub is_safe_manifest_file_name : Text → Bool
  is_safe_manifest_file_name s =
      is_safe_bounded max_file_name_chars s
      && ltb 0 (length s)
      && ltb 0 (length (trim s))
      && not (is_one_of s (units "." ∷ units ".." ∷ []))
      && no_separator s

  abbrev pub is_optional_mime : Value → Bool
  is_optional_mime v = is_undefined v || is_string (λ s. mime_within_limits (some s)) v

  -- The tests of one file of the loop of `isManifest` that do not look at the others.
  unfoldable pub is_manifest_file : Value → Bool
  is_manifest_file v =
      is_object v
      && has_only_keys v (units "id" ∷ units "name" ∷ units "size" ∷ units "mime" ∷ [])
      && is_string is_safe_manifest_file_name (own_data_value v (units "name"))
      && is_optional_mime (own_data_value v (units "mime"))

  -- The loop of `isManifest`, from the identifiers and the sum so far to the sum.
  unfoldable pub manifest_files : List ℕ → ℕ → List Json → Option ℕ
  manifest_files ids total [] = some total
  manifest_files ids total (v ∷ vs) = elim (natural (own_data_value (some v) (units "size"))) [
    | none ↦ none
    | some n ↦ elim (add_id ids (own_data_value (some v) (units "id"))) [
      | none ↦ none
      | some seen ↦
          elim (is_manifest_file (some v)
            && leb n max_file_bytes
            && leb (total + n) max_safe_integer) [
              | false ↦ none
              | true ↦ manifest_files seen (total + n) vs
            ]
    ]
  ]

  abbrev pub sums_to : Option ℕ → Option ℕ → Bool
  sums_to (some m) (some n) = m == n
  sums_to _ _ = false

  unfoldable pub is_counted : Value → ℕ → Bool
  is_counted v n = elim (natural v) [
    | none ↦ false
    | some m ↦ leb 1 m && leb m max_files_per_session && m == n
  ]

  unfoldable pub is_manifest : Value → Bool
  is_manifest v =
      is_object v
      && has_only_keys v (units "files" ∷ units "fileCount" ∷ units "totalBytes" ∷ [])
      && elim (elements (own_data_value v (units "files"))) [
        | none ↦ false
        | some vs ↦
            is_counted (own_data_value v (units "fileCount")) (length vs)
            && sums_to (manifest_files [] 0 vs) (natural (own_data_value v (units "totalBytes")))
      ]

-- The cases of the `switch` of `isClientMessage`.
pub data ClientType : Type 0 where
  register_type connect_type pake_type confirm_type pair_request_type : ClientType
  pair_accept_type pair_reject_type signal_type bye_type : ClientType

abbrev pub client_tag : ClientType → Text
client_tag register_type = units "register"
client_tag connect_type = units "connect"
client_tag pake_type = units "pake"
client_tag confirm_type = units "confirm"
client_tag pair_request_type = units "pair-request"
client_tag pair_accept_type = units "pair-accept"
client_tag pair_reject_type = units "pair-reject"
client_tag signal_type = units "signal"
client_tag bye_type = units "bye"

abbrev client_type_among : Text → List ClientType → Option ClientType
client_type_among s [] = none
client_type_among s (t ∷ ts) =
    let rest = client_type_among s ts in if same_text s (client_tag t) then some t else rest

unfoldable pub client_type : Text → Option ClientType
client_type s = client_type_among s (
    register_type ∷ connect_type ∷ pake_type ∷ confirm_type ∷ pair_request_type ∷ pair_accept_type
    ∷ pair_reject_type ∷ signal_type ∷ bye_type ∷ [])

abbrev pub own : Value → Text → Value
own v key = own_data_value v key

abbrev pub is_literal : Text → Value → Bool
is_literal literal v = is_string (λ s. same_text s literal) v

-- `isSignalKind`
abbrev pub is_signal_kind : Text → Bool
is_signal_kind s = is_one_of s (units "offer" ∷ units "answer" ∷ units "candidate" ∷ [])

module _ (is_format : ℕ → Bool) where
  -- `optionalSessionId` and `optionalSafeReason`
  abbrev pub is_optional_session_id : Value → Bool
  is_optional_session_id v = is_undefined v || is_string is_session_id v

  abbrev pub is_optional_safe_reason : Value → Bool
  is_optional_safe_reason v =
      is_undefined v || is_string (is_safe_bounded is_format max_reason_chars) v

  unfoldable pub client_fields : ClientType → Value → Bool
  client_fields register_type v =
      has_only_keys v (units "type" ∷ units "role" ∷ units "code" ∷ units "protocolVersion" ∷ [])
      && is_literal (units "receiver") (own v (units "role"))
      && is_string is_valid_rendezvous (own v (units "code"))
      && is_natural (own v (units "protocolVersion"))
  client_fields connect_type v =
      has_only_keys v (units "type" ∷ units "role" ∷ units "code" ∷ units "protocolVersion" ∷ [])
      && is_literal (units "sender") (own v (units "role"))
      && is_string is_valid_rendezvous (own v (units "code"))
      && is_natural (own v (units "protocolVersion"))
  client_fields pake_type v =
      has_only_keys v (units "type" ∷ units "sid" ∷ units "data" ∷ [])
      && is_string is_session_id (own v (units "sid"))
      && is_string (is_non_empty_byte_bounded max_pake_bytes) (own v (units "data"))
  client_fields confirm_type v =
      has_only_keys v (units "type" ∷ units "sid" ∷ units "tag" ∷ [])
      && is_string is_session_id (own v (units "sid"))
      && is_string is_tag (own v (units "tag"))
  client_fields pair_request_type v =
      has_only_keys v (units "type" ∷ units "sid" ∷ units "manifest" ∷ units "sealedManifest" ∷ [])
      && is_string is_session_id (own v (units "sid"))
      && is_manifest is_format (own v (units "manifest"))
      && is_string is_sealed (own v (units "sealedManifest"))
  client_fields pair_accept_type v =
      has_only_keys v (units "type" ∷ units "sid" ∷ units "auth" ∷ [])
      && is_string is_session_id (own v (units "sid"))
      && is_string is_tag (own v (units "auth"))
  client_fields pair_reject_type v =
      has_only_keys v (units "type" ∷ units "sid" ∷ units "reason" ∷ units "auth" ∷ [])
      && is_string is_session_id (own v (units "sid"))
      && is_string is_tag (own v (units "auth"))
      && is_literal (units "user_declined") (own v (units "reason"))
  client_fields signal_type v =
      has_only_keys v (units "type" ∷ units "sid" ∷ units "kind" ∷ units "sealedSignal" ∷ [])
      && is_string is_session_id (own v (units "sid"))
      && is_string is_signal_kind (own v (units "kind"))
      && is_string is_sealed (own v (units "sealedSignal"))
  client_fields bye_type v =
      has_only_keys v (units "type" ∷ units "sid" ∷ units "reason" ∷ [])
      && is_optional_session_id (own v (units "sid"))
      && is_optional_safe_reason (own v (units "reason"))

  abbrev pub type_passes : Option ClientType → Value → Bool
  type_passes none v = false
  type_passes (some type) v = client_fields type v

  unfoldable pub is_client_message : Value → Bool
  unfolding client_fields
  is_client_message v =
      is_object v && is_string (λ s. type_passes (client_type s) v) (own v (units "type"))
