-- ===== src/Prelude/Trim.antt =====
-- `str::trim`: white space is dropped at both ends. It is a fixed set of characters, listed here by
-- their UTF-8 encodings.
use nix_seal.Prelude.Lists.{length}
use nix_seal.Prelude.Text.{Text, strip_prefix}
use Prim.Native.Nat.{ℕ, zero, suc}
use mathlib.Core.Option.{Option, none, some}
use mathlib.Core.List.{List, [], ◌∷◌, map, reverse}

abbrev pub white_space : List Text
white_space =
    (0x09 ∷ [])
    ∷ (0x0a ∷ [])
    ∷ (0x0b ∷ [])
    ∷ (0x0c ∷ [])
    ∷ (0x0d ∷ [])
    ∷ (0x20 ∷ [])
    ∷ (0xc2 ∷ 0x85 ∷ [])
    ∷ (0xc2 ∷ 0xa0 ∷ [])
    ∷ (0xe1 ∷ 0x9a ∷ 0x80 ∷ [])
    ∷ (0xe2 ∷ 0x80 ∷ 0x80 ∷ [])
    ∷ (0xe2 ∷ 0x80 ∷ 0x81 ∷ [])
    ∷ (0xe2 ∷ 0x80 ∷ 0x82 ∷ [])
    ∷ (0xe2 ∷ 0x80 ∷ 0x83 ∷ [])
    ∷ (0xe2 ∷ 0x80 ∷ 0x84 ∷ [])
    ∷ (0xe2 ∷ 0x80 ∷ 0x85 ∷ [])
    ∷ (0xe2 ∷ 0x80 ∷ 0x86 ∷ [])
    ∷ (0xe2 ∷ 0x80 ∷ 0x87 ∷ [])
    ∷ (0xe2 ∷ 0x80 ∷ 0x88 ∷ [])
    ∷ (0xe2 ∷ 0x80 ∷ 0x89 ∷ [])
    ∷ (0xe2 ∷ 0x80 ∷ 0x8a ∷ [])
    ∷ (0xe2 ∷ 0x80 ∷ 0xa8 ∷ [])
    ∷ (0xe2 ∷ 0x80 ∷ 0xa9 ∷ [])
    ∷ (0xe2 ∷ 0x80 ∷ 0xaf ∷ [])
    ∷ (0xe2 ∷ 0x81 ∷ 0x9f ∷ [])
    ∷ (0xe3 ∷ 0x80 ∷ 0x80 ∷ [])
    ∷ []

-- The first of the prefixes that fits, taken off.
unfoldable pub strip_any : List Text → Text → Option Text
unfolding strip_prefix
strip_any [] s = none
strip_any (p ∷ ps) s =
    let rest = strip_any ps s in elim (strip_prefix s p) [ none ↦ rest | some t ↦ some t ]

-- Each round takes off at least a byte, so the length is fuel enough.
unfoldable pub strip_all : ℕ → List Text → Text → Text
unfolding strip_any
strip_all zero ps s = s
strip_all (suc fuel) ps s = elim (strip_any ps s) [ none ↦ s | some t ↦ strip_all fuel ps t ]

unfoldable pub trim : Text → Text
unfolding strip_all
trim s =
    let start = strip_all (length s) white_space s in
    reverse (strip_all (length start) (map reverse white_space) (reverse start))
