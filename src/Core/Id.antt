-- ===== src/Core/Id.antt =====
-- crates/nix-seal-core/src/lib.rs, `Id`, here `Identifier`: a text that `Id::parse` accepts. The
-- deserializer and `FromStr` call `parse` and nothing else, so the model has `parse` alone.
pub mod Paths
use nix_seal.Prelude.{
  ℕ, ◌≡◌, Bool, true, ◌||◌, ◌&&◌, not, List, all, any, is_empty, Result, ok, err, if◌then◌else◌,
  leb, ◌==◌,
}
use nix_seal.Prelude.Text.{
  Text, codes, text_eq, starts_with, contains_text, split, is_ascii_lowercase, is_ascii_digit,
}

abbrev pub Identifier : Type 0
Identifier = Text

pub data IdError : Type 0 where
  invalid : Text → IdError

-- A byte of a character that is not ASCII is at least 0x80, so a test for ASCII characters reads
-- the same over bytes.
abbrev pub is_id_byte : ℕ → Bool
is_id_byte c =
    is_ascii_lowercase c || is_ascii_digit c || (c == b'.' || c == b'/' || c == b'-' || c == b'_')

abbrev pub is_bad_segment : Text → Bool
is_bad_segment segment = is_empty segment || text_eq segment (codes ".")

unfoldable pub parse : Text → Result IdError Identifier
unfolding text_eq starts_with contains_text split
parse value =
    if is_empty value || starts_with value (codes "/") || contains_text value (codes "..")
    then err (invalid value)
    else if any is_bad_segment (split b'/' value) || not (all is_id_byte value)
    then err (invalid value)
    else ok value

-- The identifiers of a plan were read by `parse`.
abbrev pub IsId : Text → Type 0
IsId value = parse value ≡ ok value
