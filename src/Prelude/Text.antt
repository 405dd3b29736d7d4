-- ===== src/Prelude/Text.antt =====
-- Texts (`String`, `&str`) as their UTF-8 bytes, and what the program calls of `str` and `u8`.
use Prim.Native.Char.{code}
use nix_seal.Prelude.Tests.{ltb, leb, ◌==◌ as num_eq, if◌then◌else◌}
use nix_seal.Prelude.Collections.{Ord}
use Prim.Native.Nat.{ℕ}
use Prim.Native.String.{String}
use mathlib.Core.Path.{◌≡◌, refl}
use mathlib.Core.Logic.{◌↔◌}
use mathlib.Core.Bool.{Bool, true, false, ◌&&◌, ◌||◌}
use mathlib.Core.Option.{Option, none, some}
use mathlib.Core.List.{List, [], ◌∷◌}
use native.Mathlib.Omega.{arith}

abbrev pub Text : Type 0
Text = List ℕ

-- The bytes of an ASCII literal. `String` has its own `[]` and `∷`.
abbrev pub codes : String → Text
codes String.[] = []
codes (String.◌∷◌ c s) = code c ∷ codes s

-- Equality and the byte order of texts.
unfoldable pub text_eq : Text → Text → Bool
text_eq [] [] = true
text_eq [] (b ∷ t) = false
text_eq (a ∷ s) [] = false
text_eq (a ∷ s) (b ∷ t) = num_eq a b && text_eq s t

unfoldable pub text_lt : Text → Text → Bool
text_lt [] [] = false
text_lt [] (b ∷ t) = true
text_lt (a ∷ s) [] = false
text_lt (a ∷ s) (b ∷ t) = ltb a b || num_eq a b && text_lt s t

text_eq_eq : (s t : Text) → text_eq s t ≡ true → s ≡ t
unfolding text_eq
text_eq_eq [] [] h = refl
text_eq_eq [] (b ∷ t) h = cc
text_eq_eq (a ∷ s) [] h = cc
text_eq_eq (a ∷ s) (b ∷ t) h = ground (arith, text_eq_eq s t)

pub text_eq_refl : (s : Text) → text_eq s s ≡ true
unfolding text_eq
text_eq_refl [] = refl
text_eq_refl (a ∷ s) = ground (arith, text_eq_refl s)

pub text_eq_iff : (s t : Text) → (text_eq s t ≡ true) ↔ (s ≡ t)
text_eq_iff s t = (text_eq_eq s t, λ e. rw e (text_eq_refl t))

instance unfoldable pub text_ord : Ord Text
unfolding text_eq text_lt
text_ord = record { eq_test = text_eq; eq_test_iff = text_eq_iff; lt_test = text_lt }

-- `u8::is_ascii_lowercase` and its relatives.
abbrev pub is_ascii_lowercase : ℕ → Bool
is_ascii_lowercase c = leb b'a' c && leb c b'z'

abbrev pub is_ascii_digit : ℕ → Bool
is_ascii_digit c = leb b'0' c && leb c b'9'

abbrev pub is_ascii_whitespace : ℕ → Bool
is_ascii_whitespace c = num_eq c 32 || num_eq c 9 || num_eq c 10 || num_eq c 12 || num_eq c 13

abbrev pub is_ascii_control : ℕ → Bool
is_ascii_control c = ltb c 32 || num_eq c 127

-- `s.chars().any(char::is_control)`: the controls above ASCII, U+0080 to U+009F, are the byte 0xC2
-- and one of 0x80 to 0x9F, and in UTF-8 a byte 0xC2 only ever begins a character.
abbrev pub continues_control : Text → Bool
continues_control [] = false
continues_control (c ∷ s) = leb 0x80 c && leb c 0x9f

unfoldable pub any_control_char : Text → Bool
any_control_char [] = false
any_control_char (c ∷ s) =
    is_ascii_control c || (num_eq c 0xc2 && continues_control s) || any_control_char s

unfoldable pub starts_with : Text → Text → Bool
starts_with s [] = true
starts_with [] (p ∷ ps) = false
starts_with (c ∷ s) (p ∷ ps) = num_eq c p && starts_with s ps

-- `s.contains(needle)`.
unfoldable pub contains_text : Text → Text → Bool
unfolding starts_with
contains_text [] needle = starts_with [] needle
contains_text (c ∷ s) needle = starts_with (c ∷ s) needle || contains_text s needle

-- `s.ends_with(c)`.
unfoldable pub ends_with_byte : Text → ℕ → Bool
ends_with_byte [] c = false
ends_with_byte (b ∷ []) c = num_eq b c
ends_with_byte (b ∷ d ∷ s) c = ends_with_byte (d ∷ s) c

-- `s.strip_prefix(p)`.
unfoldable pub strip_prefix : Text → Text → Option Text
strip_prefix s [] = some s
strip_prefix [] (p ∷ ps) = none
strip_prefix (c ∷ s) (p ∷ ps) = let rest = strip_prefix s ps in if num_eq c p then rest else none

-- `s.split(c)`: the pieces between the separators, one more than there are separators.
abbrev pub grow : ℕ → List Text → List Text
grow c [] = (c ∷ []) ∷ []
grow c (p ∷ ps) = (c ∷ p) ∷ ps

unfoldable pub split : ℕ → Text → List Text
split sep [] = [] ∷ []
split sep (c ∷ s) = let rest = split sep s in if num_eq c sep then [] ∷ rest else grow c rest
