-- ===== src/Base/Numbers.antt =====
-- A JavaScript number as far as the program tells numbers apart: a natural number, a negative
-- integer, or anything else (a fraction, an infinity, NaN).
use Prim.Native.Nat.{ℕ}
use mathlib.Core.Option.{Option, none, some}
use p2p_transfer.Base.Tests.{leb, if◌then◌else◌}

pub data Number : Type 0 where
  nat : ℕ → Number
  negative : ℕ → Number
  inexact : ℕ → Number

-- Number.MAX_SAFE_INTEGER
abbrev pub max_safe_integer : ℕ
max_safe_integer = 9007199254740991

-- `typeof value === "number" && Number.isSafeInteger(value) && value >= 0`
abbrev pub safe_natural : Number → Option ℕ
safe_natural (nat n) = if leb n max_safe_integer then some n else none
safe_natural (negative n) = none
safe_natural (inexact n) = none
