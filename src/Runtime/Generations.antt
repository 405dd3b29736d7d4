-- ===== src/Runtime/Generations.antt =====
-- crates/nix-seal-runtime/src/lib.rs: the names of generations in the runtime root. The root is the
-- list of its entries, each with what `symlink_metadata` and `read_link` say of it; names are UTF-8.
pub mod Fresh
use nix_seal.Prelude.{
  ℕ, ◌+◌, ◌*◌, ◌-◌, ◌^◌, Bool, true, false, not, ◌||◌, ◌&&◌, Option, some, none, List, [], ◌∷◌,
  ◌++◌, length, all, is_empty, ltb, leb, ◌==◌, Result, ok, err, ◌>>=◌, ◌>>◌, fail_if, ok_or,
  fold_each, if◌then◌else◌,
}
use nix_seal.Prelude.Text.{Text, codes, strip_prefix, is_ascii_digit, text_ord}
use nix_seal.Prelude.Numbers.{checked_add}
use nix_seal.Prelude.Collections.{BTreeMap, map_get}
use nix_seal.Core.Path.{components}
use nix_seal.Manifest.Pae.{to_string}
use nix_seal.Runtime.Error.{RuntimeError, invalid_destination, io}

pub data Entry : Type 0 where
  directory regular special : Entry
  symlink : Text → Entry

abbrev pub is_dir : Entry → Bool
is_dir directory = true
is_dir _ = false

abbrev pub prefix : Text
prefix = codes "generation-"

-- `format!("generation-{generation}")`.
unfoldable pub generation_name : ℕ → Text
unfolding to_string
generation_name generation = prefix ++ to_string generation

-- `str::parse::<u64>()` of a text of digits: the value so far grows by a digit, unless it overflows.
unfoldable pub parse_u64_from : ℕ → Text → Option ℕ
parse_u64_from value [] = some value
parse_u64_from value (c ∷ s) =
    let rest = parse_u64_from (value * 10 + (c - b'0')) s in
    if ltb (value * 10 + (c - b'0')) (2 ^ 64) then rest else none

abbrev pub bad_suffix : Text → Bool
bad_suffix suffix = is_empty suffix || not (all is_ascii_digit suffix)

abbrev pub max : ℕ → ℕ → ℕ
max a b = if ltb a b then b else a

-- The body of the loop over the entries.
unfoldable pub see_entry : ℕ → Text × Entry → Result RuntimeError ℕ
unfolding strip_prefix parse_u64_from
see_entry maximum (name, entry) = elim (strip_prefix name prefix) [
  | none ↦ ok maximum
  | some suffix ↦ do
    fail_if (not (is_dir entry) || bad_suffix suffix) invalid_destination
    value ← ok_or (parse_u64_from 0 suffix) invalid_destination
    ok (max maximum value)
]

unfoldable pub next_generation : BTreeMap Text Entry → Result RuntimeError ℕ
unfolding see_entry checked_add
next_generation root = do
  maximum ← fold_each see_entry 0 root
  ok_or (checked_add maximum 1) invalid_destination

-- `target.components().count() != 1`.
abbrev pub is_single : Text → Bool
is_single target = length (components target) == 1

abbrev pub link_target : Option Entry → Result RuntimeError (Option Text)
link_target none = ok none
link_target (some (symlink target)) = ok (some target)
link_target (some _) = err invalid_destination

abbrev pub must_be_dir : Option Entry → Text → Result RuntimeError (Option Text)
must_be_dir none target = err io
must_be_dir (some entry) target = if is_dir entry then ok (some target) else err invalid_destination

abbrev pub active_target : BTreeMap Text Entry → Option Text → Result RuntimeError (Option Text)
active_target root none = ok none
active_target root (some target) = do
  suffix ← ok_or (strip_prefix target prefix) invalid_destination
  fail_if (bad_suffix suffix || not (is_single target)) invalid_destination
  must_be_dir (map_get target root) target

-- The name of the generation that `current` points to.
unfoldable pub current_generation : BTreeMap Text Entry → Result RuntimeError (Option Text)
unfolding map_get
current_generation root = do
  target ← link_target (map_get (codes "current") root)
  active_target root target
