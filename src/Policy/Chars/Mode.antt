-- ===== src/Policy/Chars/Mode.antt =====
-- The runtime modes that `is_private_runtime_mode` accepts.
use nix_seal.Prelude.{
  ℕ, zero, suc, ◌+◌, ◌*◌, ◌-◌, ◌%◌, ◌≤◌, ◌<◌, ◌≡◌, refl, ◌↔◌, ◌==◌, leb, Bool, true, not, ◌&&◌,
  ◌||◌, Option, none, some, [], ◌∷◌, arith, if◌then◌else◌,
}
use nix_seal.Prelude.Text.{Text, starts_with}
use nix_seal.Prelude.Numbers.{to_digit, parse_digits, from_str_radix, trailing_zeros}
use nix_seal.Policy.Chars.{is_owner_only, is_private_runtime_mode}

-- A test on every number under a bound, which a computation settles.
holds_under : (ℕ → Bool) → ℕ → Bool
holds_under test zero = true
holds_under test (suc bound) = holds_under test bound && test bound

holds_under-at :
    (test : ℕ → Bool) (bound : ℕ) (mode : ℕ)
    → mode < bound
    → holds_under test bound ≡ true
    → test mode ≡ true
unfolding holds_under
holds_under-at test zero mode lt every = absurd (omega arith)
holds_under-at test (suc bound) mode lt every = ground (arith, holds_under-at test bound mode)

-- Up to 0o700 the test on the trailing zeros is divisibility by 64.
same_test : ℕ → Bool
same_test mode =
    (if leb 6 (trailing_zeros 32 mode) then mode % 64 == 0 else not (mode % 64 == 0)) || mode == 0

same_test_table : holds_under same_test 512 ≡ true
unfolding holds_under same_test trailing_zeros
same_test_table = refl

pub owner_only-multiple :
    (mode : ℕ) → is_owner_only (some mode) ≡ true → (mode ≤ 448) × (mode % 64 ≡ 0) × (1 ≤ mode)
unfolding is_owner_only same_test
owner_only-multiple mode h =
    let bound : mode ≤ 448 = ground arith in
    let table = holds_under-at same_test 512 mode (omega arith) same_test_table in
    (bound, ground arith, ground arith)

pub multiple-owner_only : (d : ℕ) → 1 ≤ d → d ≤ 7 → is_owner_only (some (d * 64)) ≡ true
unfolding is_owner_only same_test
multiple-owner_only d low high =
    let table = holds_under-at same_test 512 (d * 64) (omega arith) same_test_table in ground arith

-- The number of four octal digits.
octal :
    (a b c d : ℕ) (mode : ℕ)
    → a ≡ b'0'
    → from_str_radix (a ∷ b ∷ c ∷ d ∷ []) 8 ≡ some mode
    → (b'0' ≤ b)
      × (b'0' ≤ c)
      × (b'0' ≤ d)
      × (b < b'8')
      × (c < b'8')
      × (d < b'8')
      × (mode ≡ (b - b'0') * 64 + (c - b'0') * 8 + (d - b'0'))
unfolding from_str_radix parse_digits to_digit
octal a b c d mode e h = ground arith

-- The number of an owner's digit alone.
octal_owner :
    (b : ℕ)
    → b'1' ≤ b
    → b ≤ b'7'
    → from_str_radix (b'0' ∷ b ∷ b'0' ∷ b'0' ∷ []) 8 ≡ some ((b - b'0') * 64)
unfolding from_str_radix parse_digits to_digit
octal_owner b low high = ground arith

digits_owner :
    (a b c d : ℕ) (o : Option ℕ)
    → a ≡ b'0'
    → from_str_radix (a ∷ b ∷ c ∷ d ∷ []) 8 ≡ o
    → is_owner_only o ≡ true
    → (c ≡ b'0') × (d ≡ b'0') × (b'1' ≤ b) × (b ≤ b'7')
digits_owner a b c d none z e h = absurd (unfold is_owner_only in let bad = h in cc)
digits_owner a b c d (some mode) z e h =
    let (b0, c0, d0, b8, c8, d8, value_of) = octal a b c d mode z e in
    let (small, multiple, positive) = owner_only-multiple mode h in
    (omega arith, omega arith, omega arith, omega arith)

abbrev HasShape : Text → Type 0
HasShape value = (b : ℕ) × (value ≡ b'0' ∷ b ∷ b'0' ∷ b'0' ∷ []) × (b'1' ≤ b) × (b ≤ b'7')

shape : (value : Text) → is_private_runtime_mode value ≡ true → HasShape value
unfolding is_private_runtime_mode starts_with
shape [] h = absurd (cc)
shape (a ∷ []) h = absurd (cc)
shape (a ∷ b ∷ []) h = absurd (cc)
shape (a ∷ b ∷ c ∷ []) h = absurd (cc)
shape (a ∷ b ∷ c ∷ d ∷ e ∷ s) h = absurd (ground arith)
shape (a ∷ b ∷ c ∷ d ∷ []) h =
    let (c0, d0, low, high) =
      digits_owner a b c d (from_str_radix (a ∷ b ∷ c ∷ d ∷ []) 8) (ground arith) refl
        (ground arith) in
    let a0 : a ≡ b'0' = ground arith in (b, rw (a0, c0, d0) refl, low, high)

-- An accepted mode is a zero, a digit from one to seven for the owner, and two zeros: it gives the
-- group and others nothing, and the owner something.
pub is_private_runtime_mode-owner :
    (value : Text)
    → (is_private_runtime_mode value ≡ true)
      ↔ ((b : ℕ) × (value ≡ b'0' ∷ b ∷ b'0' ∷ b'0' ∷ []) × (b'1' ≤ b) × (b ≤ b'7'))
is_private_runtime_mode-owner value = (
  shape value,
  λ (b, e, low, high).
      unfold is_private_runtime_mode starts_with in
      rw (e, octal_owner b low high) (multiple-owner_only (b - b'0') (omega arith) (omega arith)),
)
