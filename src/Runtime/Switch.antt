-- ===== src/Runtime/Switch.antt =====
-- crates/nix-seal-runtime/src/lib.rs, `switch_current`: the link `current` is moved to a generation.
pub mod Moves
use nix_seal.Prelude.{
  ℕ, Bool, true, false, not, Option, some, none, List, [], ◌∷◌, keep, Result, ok, err,
}
use nix_seal.Prelude.Text.{Text, codes, strip_prefix, text_eq, text_ord}
use nix_seal.Prelude.Collections.{BTreeMap, map_get, map_insert}
use nix_seal.Runtime.Error.{RuntimeError, io, invalid_destination}
use nix_seal.Runtime.Generations.{
  Entry, directory, regular, special, symlink, prefix, generation_name, bad_suffix,
}
use nix_seal.Runtime.World.{Root, World, After, Io, done, fail, call, ◌>>=◌, ◌>>◌}

abbrev pub current : Text
current = codes "current"

abbrev pub current_next : Text
current_next = codes ".current-next"

-- What the system calls do to the root.
unfoldable pub without : Text → Root → Root
without name [] = []
without name ((j, entry) ∷ root) =
    let rest = without name root in
    elim (text_eq j name) [ true ↦ rest | false ↦ (j, entry) ∷ rest ]

abbrev pub created : Option Entry → Text → Entry → Root → Result RuntimeError (Unit {0} × Root)
created (some _) name entry root = err io
created none name entry root = ok (tt, map_insert name entry root)

abbrev pub removed : Option Entry → Text → Root → Result RuntimeError (Unit {0} × Root)
removed none name root = err io
removed (some directory) name root = err io
removed (some _) name root = ok (tt, without name root)

-- A rename replaces what has the new name, unless that is a directory.
abbrev pub renamed :
    Option Entry → Option Entry → Text → Text → Root → Result RuntimeError (Unit {0} × Root)
renamed none there from to root = err io
renamed (some entry) (some directory) from to root = err io
renamed (some entry) _ from to root = ok (tt, map_insert to entry (without from root))

unfoldable pub symlink_metadata : Text → Io (Option Entry)
unfolding call map_get
symlink_metadata name = call (λ root. ok (map_get name root, root))

unfoldable pub create_link : Text → Text → Io (Unit {0})
unfolding call map_get map_insert
create_link target name = call (λ root. created (map_get name root) name (symlink target) root)

unfoldable pub remove_file : Text → Io (Unit {0})
unfolding call map_get without
remove_file name = call (λ root. removed (map_get name root) name root)

unfoldable pub rename : Text → Text → Io (Unit {0})
unfolding call map_get map_insert without
rename from to = call (λ root. renamed (map_get from root) (map_get to root) from to root)

-- `open_directory_nofollow(root)?.sync_all()`.
unfoldable pub sync_root : Io (Unit {0})
unfolding call
sync_root = call (λ root. ok (tt, root))

-- `if let Ok(metadata) = …`: a call that fails is as if there were no entry.
abbrev pub or_absent : After (Option Entry) → After (Option Entry)
or_absent (ok entry, w) = (ok entry, w)
or_absent (err e, w) = (ok none, w)

abbrev pub probe : Text → Io (Option Entry)
probe name w = or_absent (symlink_metadata name w)

abbrev pub is_generation : Text → Bool
is_generation target = elim (strip_prefix target prefix) [
  | none ↦ false
  | some suffix ↦ not (bad_suffix suffix)
]

-- `read_link` is another call.
abbrev pub read_link : Text → Io (Option Entry)
read_link = symlink_metadata

abbrev pub check_link : Option Entry → Io (Unit {0})
check_link (some (symlink target)) = elim (is_generation target) [
  | true ↦ done tt
  | false ↦ fail invalid_destination
]
check_link _ = fail io

unfoldable pub check_current : Option Entry → Io (Unit {0})
unfolding symlink_metadata
check_current none = done tt
check_current (some (symlink target)) = read_link current >>= check_link
check_current (some _) = fail invalid_destination

unfoldable pub clear_next : Option Entry → Io (Unit {0})
unfolding remove_file
clear_next none = done tt
clear_next (some (symlink target)) = remove_file current_next
clear_next (some _) = fail invalid_destination

unfoldable pub switch_current : ℕ → Io (Unit {0})
unfolding check_current clear_next create_link rename sync_root symlink_metadata
switch_current generation = probe current >>= λ now.
    check_current now
    >> (probe current_next >>= λ next.
        clear_next next
        >> (create_link (generation_name generation) current_next
            >> (rename current_next current >> sync_root)))
