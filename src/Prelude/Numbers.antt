-- ===== src/Prelude/Numbers.antt =====
-- What the program calls of Rust's integers: parsing in a radix of at most ten, checked arithmetic
-- at a word's width, and `trailing_zeros`.
use nix_seal.Prelude.Tests.{ltb, leb, ◌==◌, if◌then◌else◌}
use nix_seal.Prelude.Text.{Text}
use Prim.Native.Nat.{ℕ, zero, suc, ◌+◌, ◌*◌, ◌-◌, ◌/◌, ◌%◌, ◌^◌}
use mathlib.Core.Bool.{◌&&◌}
use mathlib.Core.Option.{Option, none, some}
use mathlib.Core.List.{[], ◌∷◌}

-- `char::to_digit(radix)`; a letter is a digit only in a radix above ten.
unfoldable pub to_digit : ℕ → ℕ → Option ℕ
to_digit radix c = if leb b'0' c && ltb (c - b'0') radix then some (c - b'0') else none

-- The loop of `u32::from_str_radix`, with its checks for overflow.
unfoldable pub parse_digits : ℕ → ℕ → Text → Option ℕ
unfolding to_digit
parse_digits radix acc [] = some acc
parse_digits radix acc (c ∷ s) = elim (to_digit radix c) [
  | none ↦ none
  | some d ↦
      let rest = parse_digits radix (acc * radix + d) s in
      if ltb (acc * radix + d) (2 ^ 32) then rest else none
]

-- `u32::from_str_radix`, which takes one leading `+`, and `str::parse::<u32>` at radix ten.
unfoldable pub from_str_radix : Text → ℕ → Option ℕ
unfolding parse_digits
from_str_radix [] radix = none
from_str_radix (c ∷ []) radix = if c == b'+' then none else parse_digits radix 0 (c ∷ [])
from_str_radix (c ∷ d ∷ s) radix =
    if c == b'+' then parse_digits radix 0 (d ∷ s) else parse_digits radix 0 (c ∷ d ∷ s)

-- `usize::checked_add`, `u64::checked_mul`, `usize::checked_sub`, at 64 bits.
unfoldable pub checked_add : ℕ → ℕ → Option ℕ
checked_add a b = if ltb (a + b) (2 ^ 64) then some (a + b) else none

unfoldable pub checked_mul : ℕ → ℕ → Option ℕ
checked_mul a b = if ltb (a * b) (2 ^ 64) then some (a * b) else none

unfoldable pub checked_sub : ℕ → ℕ → Option ℕ
checked_sub a b = if leb b a then some (a - b) else none

-- `u32::trailing_zeros` of a number that is not 0, counted over the bits that are left.
unfoldable pub trailing_zeros : ℕ → ℕ → ℕ
trailing_zeros zero n = 0
trailing_zeros (suc bits) n =
    let rest = trailing_zeros bits (n / 2) in if n % 2 == 0 then suc rest else 0
