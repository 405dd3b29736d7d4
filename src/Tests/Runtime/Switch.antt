-- ===== src/Tests/Runtime/Switch.antt =====
-- The switch of `current` from generation 9 to generation 11, and the same with its last call failing.
use nix_seal.Prelude.{◌≡◌, refl, true, false, [], ◌∷◌, some, ok, err}
use nix_seal.Prelude.Text.{Text, codes, text_ord}
use nix_seal.Prelude.Collections.{BTreeMap, map_get}
use nix_seal.Runtime.Error.{io}
use nix_seal.Runtime.Generations.{Entry, directory, symlink}
use nix_seal.Runtime.World.{World}
use nix_seal.Runtime.World.Triples.{Ends}
use nix_seal.Runtime.Switch.{current, switch_current}
use nix_seal.Runtime.Switch.Moves.{Moved, AtomicEnd, switch_current-AtomicEnd}
use nix_seal.Tests.Run.{run}
use nix_seal.Tests.Manifest.Run.{sign_run}
use nix_seal.Tests.Runtime.Run.{host_run}

abbrev root : BTreeMap Text Entry
root =
    (current, symlink (codes "generation-9"))
    ∷ (codes "generation-11", directory)
    ∷ (codes "generation-9", directory)
    ∷ []

abbrev calm : World
calm = record { root = root; faults = [] }

-- The sixth call, which synchronizes the root, fails.
abbrev late_fault : World
late_fault = record { root = root; faults = false ∷ false ∷ false ∷ false ∷ false ∷ true ∷ [] }

switch_current-AtomicEnd_example :
    Ends (λ _. Moved 11 root) (AtomicEnd 11 root) (switch_current 11 calm)
switch_current-AtomicEnd_example = switch_current-AtomicEnd 11 calm

switch_current_succeeds : (switch_current 11 calm).0 ≡ ok tt
unfolding run sign_run host_run
switch_current_succeeds = refl

-- The switch reports an error, and has moved the link.
switch_current_fails_late :
    ((switch_current 11 late_fault).0 ≡ err io)
    × (map_get current (switch_current 11 late_fault).1.root
        ≡ some (symlink (codes "generation-11")))
unfolding run sign_run host_run
switch_current_fails_late = (refl, refl)
