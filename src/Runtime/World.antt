-- ===== src/Runtime/World.antt =====
-- crates/nix-seal-runtime/src/lib.rs: the system calls on the runtime root. Any of them may fail, which
-- `faults` says of each in turn; one that fails changes nothing.
pub mod Triples
use nix_seal.Prelude.{
  Bool, true, false, not, Option, some, none, List, [], ◌∷◌, keep, Result, ok, err,
}
use nix_seal.Prelude.Text.{Text, text_eq, text_ord}
use nix_seal.Prelude.Collections.{BTreeMap, map_get, map_insert}
use nix_seal.Runtime.Error.{RuntimeError, io}
use nix_seal.Runtime.Generations.{Entry, directory, regular, special, symlink}

abbrev pub Root : Type 0
Root = BTreeMap Text Entry

pub record World : Type 0 where
  pub root : Root
  pub faults : List Bool

-- What a call gives, and the world after it.
abbrev pub After : Type 0 → Type 0
After A = Result RuntimeError A × World

abbrev pub Io : Type 0 → Type 0
Io A = World → After A

abbrev pub done : {A : Type 0} → A → Io A
done a w = (ok a, w)

abbrev pub fail : {A : Type 0} → RuntimeError → Io A
fail e w = (err e, w)

abbrev pub proceed : {A B : Type 0} → After A → (A → Io B) → After B
proceed (ok a, w) f = f a w
proceed (err e, w) f = (err e, w)

-- `?`, and `let _ = …`.
infixl 5 ◌>>=◌ ◌>>◌
abbrev pub ◌>>=◌ : {A B : Type 0} → Io A → (A → Io B) → Io B
(m >>= f) w = proceed (m w) f

abbrev pub ◌>>◌ : {A B : Type 0} → Io A → Io B → Io B
(m >> k) w = proceed (m w) (λ _. k)

abbrev pub ignore : {A : Type 0} → After A → After (Unit {0})
ignore (r, w) = (ok tt, w)

abbrev pub attempt : {A : Type 0} → Io A → Io (Unit {0})
attempt m w = ignore (m w)

-- `if let Err(error) = m { cleanup; return Err(error) }`.
abbrev pub recover : {A : Type 0} → After A → Io (Unit {0}) → After A
recover (ok a, w) cleanup = (ok a, w)
recover (err e, w) cleanup = proceed (cleanup w) (λ _. fail e)

abbrev pub on_error : {A : Type 0} → Io A → Io (Unit {0}) → Io A
on_error m cleanup w = recover (m w) cleanup

-- A system call, as a function of the root.
abbrev pub answer : {A : Type 0} → Result RuntimeError (A × Root) → World → After A
answer (ok (a, root)) w = (ok a, record w { root = root })
answer (err e) w = (err e, w)

abbrev pub call_with : {A : Type 0} → List Bool → (Root → Result RuntimeError (A × Root)) → Io A
call_with [] f w = answer (f w.root) w
call_with (false ∷ faults) f w = answer (f w.root) (record w { faults = faults })
call_with (true ∷ faults) f w = (err io, record w { faults = faults })

unfoldable pub call : {A : Type 0} → (Root → Result RuntimeError (A × Root)) → Io A
call f w = call_with w.faults f w
