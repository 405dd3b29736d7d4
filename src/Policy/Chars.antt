-- ===== src/Policy/Chars.antt =====
-- crates/nix-seal-policy/src/lib.rs: the tests on texts, one function each.
pub mod Mode
use nix_seal.Prelude.{
  ℕ, zero, Bool, true, false, ◌||◌, ◌&&◌, not, Option, none, some, List, [], ◌∷◌, all, any,
  is_empty, length, ltb, leb, ◌==◌, if◌then◌else◌,
}
use nix_seal.Prelude.Text.{
  Text, codes, text_eq, starts_with, contains_text, split, is_ascii_lowercase, is_ascii_digit,
  is_ascii_control,
}
use nix_seal.Prelude.Numbers.{from_str_radix, trailing_zeros}
use nix_seal.Core.Path.{components, is_absolute, is_root_or_normal}

abbrev pub is_sha256_byte : ℕ → Bool
is_sha256_byte b = is_ascii_digit b || (leb b'a' b && leb b b'f')

unfoldable pub is_sha256 : Text → Bool
is_sha256 value = length value == 64 && all is_sha256_byte value

-- What `is_ok_and` asks of the parsed mode; `0o700` is 448.
unfoldable pub is_owner_only : Option ℕ → Bool
is_owner_only none = false
is_owner_only (some mode) = not (mode == 0) && leb mode 0o700 && leb 6 (trailing_zeros 32 mode)

unfoldable pub is_private_runtime_mode : Text → Bool
is_private_runtime_mode value =
    length value == 4 && starts_with value (codes "0") && is_owner_only (from_str_radix value 8)

abbrev pub is_named_segment : Text → Bool
is_named_segment segment =
    not (is_empty segment)
    && not (text_eq segment (codes "."))
    && not (text_eq segment (codes ".."))

-- The first segment, at index 0, may be empty if the text is an absolute path.
abbrev pub public_segments : Text → List Text → Bool
public_segments value [] = true
public_segments value (first ∷ rest) =
    (is_empty first && starts_with value (codes "/") || is_named_segment first)
    && all is_named_segment rest

unfoldable pub is_normalized_public_path : Text → Bool
is_normalized_public_path value =
    if is_empty value || any is_ascii_control value
    then false
    else public_segments value (split b'/' value)

abbrev pub is_placeholder_byte : ℕ → Bool
is_placeholder_byte b =
    is_ascii_lowercase b || is_ascii_digit b || (b == b'_' || b == b'-' || b == b'.')

abbrev pub first_is_alphanumeric : Text → Bool
first_is_alphanumeric [] = false
first_is_alphanumeric (b ∷ s) = is_ascii_lowercase b || is_ascii_digit b

unfoldable pub is_placeholder_name : Text → Bool
is_placeholder_name value =
    not (is_empty value)
    && leb (length value) 128
    && first_is_alphanumeric value
    && all is_placeholder_byte value

unfoldable pub valid_repository_relative_path : Text → Bool
valid_repository_relative_path value =
    not (is_empty value)
    && not (starts_with value (codes "/"))
    && all (λ c. is_named_segment c && not (any is_ascii_control c)) (split b'/' value)

unfoldable pub valid_store_executable : Text → Bool
valid_store_executable value =
    starts_with value (codes "/nix/store/")
    && not (contains_text value (codes ":"))
    && is_absolute value
    && all is_root_or_normal (components value)

abbrev pub is_parameter_byte : ℕ → Bool
is_parameter_byte b = is_ascii_lowercase b || is_ascii_digit b || (b == b'_' || b == b'-')

unfoldable pub is_generator_parameter_name : Text → Bool
is_generator_parameter_name value =
    not (is_empty value) && leb (length value) 128 && all is_parameter_byte value
