-- ===== src/Prelude/Atoi.antt =====
-- strconv.Atoi over int64.
use Prim.Native.Nat.{ℕ, zero, suc, ◌+◌, ◌-◌, ◌*◌, ◌%◌, ◌^◌}
use Prim.Native.Char.{Char, code}
use Prim.Native.String.{String, [], ◌∷◌}
use mathlib.Core.Bool.{Bool, true, false, ◌&&◌}
use mathlib.Core.Option.{Option, none, some}
use coeus.Prelude.Tests.{ltb, leb, ◌==◌, if◌then◌else◌}
use coeus.Prelude.Int.{ℤ, pos, negsuc, sub_ℕ}

-- What strconv.ParseUint makes of a text. It stops at the first digit that takes the number out of
-- the range of a uint64, whatever follows.
pub data Scanned : Type 0 where
  bad_syntax out_of_range : Scanned
  scanned : ℕ → Scanned

abbrev is_decimal : Char → Bool
is_decimal c = leb b'0' (code c) && leb (code c) b'9'

abbrev pub next_digit : ℕ → Char → ℕ
next_digit n c = n * 10 + (code c - b'0')

unfoldable pub scan_digits : ℕ → String → Scanned
scan_digits n [] = scanned n
scan_digits n (c ∷ s) = elim (is_decimal c) [
  | false ↦ bad_syntax
  | true ↦ elim (leb (2 ^ 64) (next_digit n c)) [
    | true ↦ out_of_range
    | false ↦ scan_digits (next_digit n c) s
  ]
]

unfoldable pub parse_uint : String → Scanned
unfolding scan_digits
parse_uint [] = bad_syntax
parse_uint (c ∷ s) = scan_digits 0 (c ∷ s)

-- The number that Atoi returns, and what its error says; `none` is a nil error.
abbrev pub positive : Scanned → ℤ × Option String
positive bad_syntax = (pos 0, some "invalid syntax")
positive out_of_range = (pos (2 ^ 63 - 1), some "value out of range")
positive (scanned n) =
    if leb (2 ^ 63) n then (pos (2 ^ 63 - 1), some "value out of range") else (pos n, none)

abbrev pub minus : ℕ → ℤ
minus zero = pos 0
minus (suc n) = negsuc n

abbrev pub negative : Scanned → ℤ × Option String
negative bad_syntax = (pos 0, some "invalid syntax")
negative out_of_range = (negsuc (2 ^ 63 - 1), some "value out of range")
negative (scanned n) =
    if ltb (2 ^ 63) n then (negsuc (2 ^ 63 - 1), some "value out of range") else (minus n, none)

unfoldable pub atoi : String → ℤ × Option String
unfolding parse_uint
atoi [] = (pos 0, some "invalid syntax")
atoi (c ∷ s) =
    if code c == b'-'
    then negative (parse_uint s)
    else if code c == b'+'
    then positive (parse_uint s)
    else positive (parse_uint (c ∷ s))

-- The int64 of the bit pattern of a number
abbrev pub to_int64 : ℕ → ℤ
to_int64 n = let m = n % 2 ^ 64 in if ltb m (2 ^ 63) then pos m else sub_ℕ m (2 ^ 64)
