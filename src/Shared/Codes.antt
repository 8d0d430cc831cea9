-- ===== src/Shared/Codes.antt =====
-- shared/wordlist.ts: receive codes. The word list itself, from @scure/bip39, and `toLowerCase` of
-- the engine are parameters.
use p2p_transfer.Base.{
  ℕ, ◌*◌, ◌/◌, ◌%◌, Bool, true, false, not, ◌&&◌, ◌||◌, Option, none, some, List, [], ◌∷◌, ◌++◌,
  Text, same_text, ltb, leb, ◌==◌, if◌then◌else◌, length,
}
use p2p_transfer.Shared.Text.{utf8_byte_length, trim}
use p2p_transfer.Shared.Messages.{ErrorCode}
use p2p_transfer.Shared.FileNames.{units}

abbrev pub rendezvous_digits : ℕ
rendezvous_digits = 8

abbrev pub generated_rendezvous_digits : ℕ
generated_rendezvous_digits = 12

abbrev pub max_code_input_bytes : ℕ
max_code_input_bytes = 256

unfoldable pub code_input_utf8_byte_length_exceeds : Text → Bool
code_input_utf8_byte_length_exceeds value = ltb max_code_input_bytes (utf8_byte_length value)

unfoldable pub normalize_code : (Text → Text) → Text → Text
normalize_code to_lower_case code =
    if code_input_utf8_byte_length_exceeds code then [] else to_lower_case (trim code)

abbrev pub is_digit : ℕ → Bool
is_digit c = leb 48 c && leb c 57

unfoldable pub all_digits : Text → Bool
all_digits [] = true
all_digits (c ∷ s) = is_digit c && all_digits s

-- RENDEZVOUS_PATTERN
unfoldable pub is_valid_rendezvous : Text → Bool
is_valid_rendezvous value =
    (length value == rendezvous_digits || length value == generated_rendezvous_digits)
    && all_digits value

pub record ParsedCode : Type 0 where
  pub handle : Text
  pub rendezvous : Text
  pub secret : Text

-- The text before the first dash, and what follows that dash.
unfoldable pub split_dash : Text → Option (Text × Text)
split_dash [] = none
split_dash (c ∷ s) =
    let rest : Option (Text × Text) = elim (split_dash s) [
      | none ↦ none
      | some (first, last) ↦ some (c ∷ first, last)
    ] in
    if c == 45 then some ([], s) else rest

unfoldable pub is_lower_word : Text → Bool
is_lower_word [] = true
is_lower_word (c ∷ s) = leb 97 c && leb c 122 && is_lower_word s

-- The groups of CODE_PATTERN: no group has a dash.
unfoldable pub match_code : Text → Option (Text × Text × Text)
match_code normalized = elim (split_dash normalized) [
  | none ↦ none
  | some (rendezvous, words) ↦ elim (split_dash words) [
    | none ↦ none
    | some (word_a, word_b) ↦
        if is_valid_rendezvous rendezvous
          && is_lower_word word_a
          && is_lower_word word_b
          && not (length word_a == 0)
          && not (length word_b == 0)
        then some (rendezvous, word_a, word_b)
        else none
  ]
]

abbrev pub is_word : List Text → Text → Bool
is_word [] word = false
is_word (w ∷ ws) word = same_text w word || is_word ws word

module _ (to_lower_case : Text → Text) (wordlist : List Text) where
  unfoldable pub parse_code : Text → Option ParsedCode
  parse_code code =
      let normalized = normalize_code to_lower_case code in
      elim (match_code normalized) [
        | none ↦ none
        | some (rendezvous, word_a, word_b) ↦
            if same_text word_a word_b
            then none
            else if not (is_word wordlist word_a) || not (is_word wordlist word_b)
            then none
            else some (record {
              handle = normalized;
              rendezvous = rendezvous;
              secret = word_a ++ (45 ∷ []) ++ word_b;
            })
      ]

  unfoldable pub is_valid_code : Text → Bool
  is_valid_code code = elim (parse_code code) [ none ↦ false | some parsed ↦ true ]

-- `randomIndex` over the values that the engine draws, with those that are left; `none` asks for
-- more of them. The bound is an integer of at least 1.
unfoldable pub random_index : ℕ → List ℕ → Option (ℕ × List ℕ)
random_index max_exclusive [] = none
random_index max_exclusive (value ∷ draws) =
    let limit = 4294967296 / max_exclusive * max_exclusive in
    let later = random_index max_exclusive draws in
    if ltb value limit then some (value % max_exclusive, draws) else later

-- `signalingErrorDisplayMessage` of shared/messages.ts
unfoldable pub signaling_error_display_message : ErrorCode → Text
signaling_error_display_message ErrorCode.code_taken =
    units "That receive code is already waiting for a sender."
signaling_error_display_message ErrorCode.code_not_found =
    units "No receiver is waiting for that code."
signaling_error_display_message ErrorCode.expired = units "Receive code expired."
signaling_error_display_message ErrorCode.rate_limited =
    units "Too many signaling attempts. Try again shortly."
signaling_error_display_message ErrorCode.bad_protocol =
    units "The signaling protocol is not compatible."
signaling_error_display_message ErrorCode.bad_message =
    units "The signaling server rejected a protocol message."
signaling_error_display_message ErrorCode.session_not_found = units "Session is no longer active."
signaling_error_display_message ErrorCode.peer_unavailable = units "Peer is no longer connected."
signaling_error_display_message ErrorCode.transfer_rejected = units "Transfer rejected."
