-- ===== src/Runtime/World/Triples.antt =====
-- What holds of the root after a sequence of system calls, whether it ends well or fails.
use nix_seal.Prelude.{Bool, true, false, List, [], ◌∷◌, Result, ok, err}
use nix_seal.Runtime.Error.{RuntimeError}
use nix_seal.Runtime.World.{Root, World, After, Io, proceed, answer, call_with, call, ◌>>=◌}

-- One predicate for each of the two ends.
abbrev pub Ends : {A : Type 0} → (A → Root → Type 0) → (Root → Type 0) → After A → Type 0
Ends good bad (ok a, w) = good a w.root
Ends good bad (err e, w) = bad w.root

abbrev pub Triple :
    {A : Type 0} → (Root → Type 0) → Io A → (A → Root → Type 0) → (Root → Type 0) → Type 0
Triple before m good bad = (w : World) → before w.root → Ends good bad (m w)

module _ {A B : Type 0} (before : Root → Type 0) (middle : A → Root → Type 0)
    (good : B → Root → Type 0) (bad : Root → Type 0) where
  proceed-Ends :
      (o : After A) (f : A → Io B)
      → Ends middle bad o
      → ((a : A) → Triple (middle a) (f a) good bad)
      → Ends good bad (proceed o f)
  proceed-Ends (ok a, w) f h later = later a w h
  proceed-Ends (err e, w) f h later = h

  pub then-Triple :
      (m : Io A) (f : A → Io B)
      → Triple before m middle bad
      → ((a : A) → Triple (middle a) (f a) good bad)
      → Triple before (m >>= f) good bad
  then-Triple m f first later w h = proceed-Ends (m w) f (first w h) later

module _ {A : Type 0} (before : Root → Type 0) (good : A → Root → Type 0)
    (bad : Root → Type 0) where
  -- What a call does to a root on which it does not fail.
  abbrev pub Does : Result RuntimeError (A × Root) → Root → Type 0
  Does (ok (a, after)) root = good a after
  Does (err e) root = bad root

  answer-Ends :
      (r : Result RuntimeError (A × Root)) (w : World) → Does r w.root → Ends good bad (answer r w)
  answer-Ends (ok (a, root)) w h = h
  answer-Ends (err e) w h = h

  call_with-Ends :
      (faults : List Bool) (f : Root → Result RuntimeError (A × Root)) (w : World)
      → Does (f w.root) w.root
      → bad w.root
      → Ends good bad (call_with faults f w)
  call_with-Ends [] f w h b = answer-Ends (f w.root) w h
  call_with-Ends (false ∷ faults) f w h b = answer-Ends (f w.root) (record w { faults = faults }) h
  call_with-Ends (true ∷ faults) f w h b = b

  pub call-Triple :
      (f : Root → Result RuntimeError (A × Root))
      → ((root : Root) → before root → Does (f root) root)
      → ((root : Root) → before root → bad root)
      → Triple before (call f) good bad
  unfolding call
  call-Triple f does fails w h = call_with-Ends w.faults f w (does w.root h) (fails w.root h)
