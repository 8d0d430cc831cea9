-- ===== src/Server/Admission.antt =====
-- The small policies of the server: server/capacity.ts, server/prepair-attempts.ts,
-- server/waiting.ts, server/session-expiry.ts. Times are milliseconds since the epoch.
use p2p_transfer.Base.{
  ℕ, ◌+◌, ◌-◌, ◌/◌, Bool, ◌&&◌, ◌||◌, Option, none, some, ltb, leb, if◌then◌else◌, max_safe_integer,
}
use p2p_transfer.Shared.Messages.{ClientMessage, pair_request, pair_accept}

abbrev pub is_safe_natural : ℕ → Bool
is_safe_natural n = leb n max_safe_integer

unfoldable pub can_register_waiting_code : ℕ → ℕ → Bool → Bool
can_register_waiting_code waiting_codes max_waiting_codes replacing_own_code =
    replacing_own_code
    || (is_safe_natural waiting_codes
        && is_safe_natural max_waiting_codes
        && ltb waiting_codes max_waiting_codes)

unfoldable pub can_create_session : ℕ → ℕ → Bool
can_create_session active_sessions max_sessions =
    is_safe_natural active_sessions
    && is_safe_natural max_sessions
    && ltb active_sessions max_sessions

unfoldable pub static_file_within_limit : ℕ → ℕ → Bool
static_file_within_limit file_size max_bytes =
    is_safe_natural file_size && is_safe_natural max_bytes && leb file_size max_bytes

abbrev pub receiver_max_prepair_attempts : ℕ
receiver_max_prepair_attempts = 3

unfoldable pub initial_pre_pair_attempts : ℕ
initial_pre_pair_attempts = receiver_max_prepair_attempts

unfoldable pub can_restore_pre_pair_code : ℕ → Bool
can_restore_pre_pair_code remaining = ltb 0 remaining && leb remaining receiver_max_prepair_attempts

-- `none` is the error.
unfoldable pub consume_pre_pair_attempt : ℕ → Option ℕ
unfolding can_restore_pre_pair_code
consume_pre_pair_attempt remaining =
    if can_restore_pre_pair_code remaining then some (remaining - 1) else none

-- The last argument is `readyState === openState`.
unfoldable pub waiting_receiver_available : ℕ → ℕ → Bool → Bool
waiting_receiver_available expires_at now is_open = ltb now expires_at && is_open

-- PAKE_TIMEOUT_MS
abbrev pub pake_timeout_ms : ℕ
pake_timeout_ms = 105000

abbrev pub pair_timeout_ms : ℕ
pair_timeout_ms = 300000

unfoldable pub initial_session_expires_at : ℕ → ℕ
initial_session_expires_at now = now + pake_timeout_ms

unfoldable pub next_session_expires_at : ℕ → ℕ → ClientMessage → ℕ
next_session_expires_at current now (pair_request sid manifest sealed) = now + pair_timeout_ms
next_session_expires_at current now (pair_accept sid auth) = now + pair_timeout_ms
next_session_expires_at current now _ = current

unfoldable pub remaining_expiry_seconds : ℕ → ℕ → ℕ
remaining_expiry_seconds expires_at now = (expires_at - now) / 1000
