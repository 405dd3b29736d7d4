-- ===== src/Core/Symlink.antt =====
-- crates/nix-seal-core/src/lib.rs, `valid_compatibility_symlink`.
use nix_seal.Prelude.{
  Bool, false, ◌||◌, ◌&&◌, not, List, [], ◌∷◌, is_empty, all, length, ltb, if◌then◌else◌,
}
use nix_seal.Prelude.Text.{
  Text, codes, text_eq, starts_with, ends_with_byte, split, any_control_char,
}
use nix_seal.Core.Path.{components, has_file_name, is_root, is_cur_or_parent}

-- `iter.skip(1)`.
abbrev pub skip_first : List Text → List Text
skip_first [] = []
skip_first (p ∷ ps) = ps

abbrev pub is_plain_segment : Text → Bool
is_plain_segment segment =
    not (is_empty segment)
    && not (text_eq segment (codes "."))
    && not (text_eq segment (codes ".."))

unfoldable pub valid_compatibility_symlink : Text → Bool
unfolding text_eq starts_with ends_with_byte split any_control_char components has_file_name
valid_compatibility_symlink value =
    if is_empty value
      || ltb 4096 (length value)
      || not (starts_with value (codes "/"))
      || ends_with_byte value b'/'
      || any_control_char value
    then false
    else if is_root (components value)
        || not (has_file_name (components value))
        || not (all is_plain_segment (skip_first (split b'/' value)))
    then false
    else all (λ c. not (is_cur_or_parent c)) (components value)
