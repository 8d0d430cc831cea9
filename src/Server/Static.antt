-- ===== src/Server/Static.antt =====
-- server/index.ts: the limits of the HTTP side: requests per address, and the bytes of the static
-- responses that are in flight.
pub mod Balanced
use p2p_transfer.Base.{
  ℕ, ◌+◌, ◌-◌, ◌≤◌, ◌≡◌, Bool, true, false, ◌||◌, not, Option, none, some, List, Map, Number, nat,
  if◌then◌else◌, arith, nat_eq,
}
use p2p_transfer.Server.Admission.{static_file_within_limit}
use p2p_transfer.Server.RateLimit.{hit_fixed_window_rate_limit, hit_ice_config_rate_limit, minute}

abbrev pub static_max_file_bytes : ℕ
static_max_file_bytes = 10485760

abbrev pub static_max_in_flight_bytes : ℕ
static_max_in_flight_bytes = 67108864

abbrev pub static_max_requests_per_minute : ℕ
static_max_requests_per_minute = 300

abbrev pub signaling_max_connection_attempts_per_minute : ℕ
signaling_max_connection_attempts_per_minute = 120

-- An address is a number, and the state is the map of its limiter.
unfoldable pub hit_ice_config_http_rate_limit :
    Map ℕ (List Number) → ℕ → ℕ → Map ℕ (List Number) × Bool
hit_ice_config_http_rate_limit limits ip now = hit_ice_config_rate_limit limits ip (nat now)

unfoldable pub hit_static_http_rate_limit : Map ℕ (List Number) → ℕ → ℕ → Map ℕ (List Number) × Bool
hit_static_http_rate_limit limits ip now =
    hit_fixed_window_rate_limit limits ip (nat now) (nat minute)
      (nat static_max_requests_per_minute)

unfoldable pub hit_web_socket_connection_rate_limit :
    Map ℕ (List Number) → ℕ → ℕ → Map ℕ (List Number) × Bool
hit_web_socket_connection_rate_limit limits ip now =
    hit_fixed_window_rate_limit limits ip (nat now) (nat minute)
      (nat signaling_max_connection_attempts_per_minute)

-- The bytes in flight after a reservation; `none` is the error.
unfoldable pub reserve_static_response_bytes : ℕ → ℕ → Option ℕ
reserve_static_response_bytes in_flight size =
    if not (static_file_within_limit size static_max_file_bytes)
      || not (static_file_within_limit (in_flight + size) static_max_in_flight_bytes)
    then none
    else some (in_flight + size)

-- The function that a reservation returns, with its flag.
unfoldable pub release_static_response_bytes : ℕ → ℕ → Bool → ℕ × Bool
release_static_response_bytes in_flight size released =
    if released then (in_flight, true) else (in_flight - size, true)
