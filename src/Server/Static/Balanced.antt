-- ===== src/Server/Static/Balanced.antt =====
-- server/index.ts: the bytes of the static responses in flight, over all reservations and all calls of
-- the functions that release them.
use p2p_transfer.Base.{ℕ, ◌+◌, ◌≤◌, ◌≡◌, Bool, false, some, List, [], ◌∷◌, ◌++◌, if◌then◌else◌}
use p2p_transfer.Server.Static.{
  reserve_static_response_bytes, release_static_response_bytes, static_max_in_flight_bytes,
}

-- A reservation: its size, and the flag of its release function.
pub record Held : Type 0 where
  pub size : ℕ
  pub released : Bool

-- What is in flight, and all reservations that were made.
pub record InFlight : Type 0 where
  pub bytes : ℕ
  pub reservations : List Held

abbrev pub nothing_held : InFlight
nothing_held = record { bytes = 0; reservations = [] }

-- A release function that is called, between the reservations before and after its own.
abbrev pub call_release : ℕ → List Held → Held → List Held → InFlight
call_release bytes before held after =
    let (left, flag) = release_static_response_bytes bytes held.size held.released in
    record {
      bytes = left;
      reservations = before ++ (record { size = held.size; released = flag }) ∷ after;
    }

-- The states that reservations and calls of release functions reach, each function being called at any
-- time and any number of times.
pub data IsReached : InFlight → Type 0 where
  start : IsReached nothing_held
  reserved :
      {s : InFlight} (size after : ℕ)
      → IsReached s
      → reserve_static_response_bytes s.bytes size ≡ some after
      → IsReached (record {
        bytes = after;
        reservations = (record { size = size; released = false }) ∷ s.reservations;
      })
  called :
      {s : InFlight} (before : List Held) (held : Held) (after : List Held)
      → IsReached s
      → s.reservations ≡ before ++ held ∷ after
      → IsReached (call_release s.bytes before held after)

-- The sizes of the reservations that are not released, added up.
abbrev pub outstanding : List Held → ℕ
outstanding [] = 0
outstanding (held ∷ rest) = (if held.released then 0 else held.size) + outstanding rest

pub record IsBalanced (s : InFlight) : Type 0 where
  pub balanced : s.bytes ≡ outstanding s.reservations
  pub bounded : s.bytes ≤ static_max_in_flight_bytes
