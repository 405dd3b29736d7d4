-- ===== src/Prelude/Results.antt =====
-- Fallible code: `Result`, the `?` operator as bind, `if c { return Err(e) }` as `fail_if`, and the
-- `for` loop whose body may return an error.
use mathlib.Core.Path.{◌≡◌, refl, subst}
use mathlib.Core.Logic.{◌⊎◌, inl, inr}
use mathlib.Core.Bool.{Bool, true, false}
use mathlib.Core.Option.{Option, none, some}
use mathlib.Core.List.{List, [], ◌∷◌}
use nix_seal.Prelude.Lists.{All}

pub data Result {ℓ κ} (E : Type ℓ) (A : Type κ) : Type (ℓ ⊔ κ) where
  ok : A → Result E A
  err : E → Result E A

module _ {ℓ} {E : Type ℓ} where
  infixl 5 ◌>>=◌ ◌>>◌
  abbrev pub ◌>>=◌ {κ μ} : {A : Type κ} {B : Type μ} → Result E A → (A → Result E B) → Result E B
  ok a >>= f = f a
  err e >>= f = err e

  abbrev pub ◌>>◌ {κ} : {B : Type κ} → Result E (Unit {0}) → Result E B → Result E B
  ok a >> k = k
  err e >> k = err e

  abbrev pub fail_if : Bool → E → Result E (Unit {0})
  fail_if true e = err e
  fail_if false e = ok tt

  -- `option.ok_or_else(|| e)`.
  abbrev pub ok_or {κ} : {A : Type κ} → Option A → E → Result E A
  ok_or none e = err e
  ok_or (some a) e = ok a

  -- `result.is_err()`.
  abbrev pub is_err {κ} : {A : Type κ} → Result E A → Bool
  is_err (ok a) = false
  is_err (err e) = true

  abbrev pub for_each {κ} : {A : Type κ} → (A → Result E (Unit {0})) → List A → Result E (Unit {0})
  for_each f [] = ok tt
  for_each f (x ∷ xs) = let rest = for_each f xs in f x >> rest

  -- A loop that also changes a state of the caller.
  abbrev pub fold_each {κ μ} :
      {A : Type κ} {S : Type μ} → (S → A → Result E S) → S → List A → Result E S
  fold_each f s [] = ok s
  fold_each f s (x ∷ xs) = f s x >>= λ t. fold_each f t xs

  -- `iter.map(f).collect::<Result<Vec<_>, _>>()`.
  abbrev pub collect {κ μ} :
      {A : Type κ} {B : Type μ} → (A → Result E B) → List A → Result E (List B)
  collect f [] = ok []
  collect f (x ∷ xs) = let rest = collect f xs in f x >>= λ y. rest >>= λ ys. ok (y ∷ ys)

  -- A `?` that was passed: what stood before it, and what came after it.
  pub >>=-eq-ok {κ μ} :
      {A : Type κ} {B : Type μ} (first : Result E A) (next : A → Result E B) {result : B}
      → (first >>= next) ≡ ok result
      → (value : A) × (first ≡ ok value) × (next value ≡ ok result)
  >>=-eq-ok (ok value) next passed = (value, refl, passed)
  >>=-eq-ok (err e) next passed = cc

  pub >>-eq-ok {κ} :
      {B : Type κ} (m : Result E (Unit {0})) (k : Result E B) {b : B}
      → (m >> k) ≡ ok b
      → (m ≡ ok tt) × (k ≡ ok b)
  >>-eq-ok (ok tt) k h = (refl, h)
  >>-eq-ok (err e) k h = cc

  -- Two continuations that agree on what comes before them.
  pub >>=-same {κ μ} :
      {A : Type κ} {B : Type μ} (m : Result E A) (f g : A → Result E B)
      → ((a : A) → m ≡ ok a → f a ≡ g a)
      → (m >>= f) ≡ (m >>= g)
  >>=-same (ok a) f g h = h a refl
  >>=-same (err e) f g h = refl

  pub fail_if-eq-ok : (b : Bool) (e : E) → fail_if b e ≡ ok tt → b ≡ false
  fail_if-eq-ok true e h = cc
  fail_if-eq-ok false e h = refl

  pub guarded-eq-ok {κ} :
      {A : Type κ} (t : Bool) (e : E) {a b : A} → (fail_if t e >> ok a) ≡ ok b → a ≡ b
  guarded-eq-ok true e h = cc
  guarded-eq-ok false e h = cc

  pub ok_injective {κ} : {A : Type κ} {a b : A} → ◌≡◌ {A = Result E A} (ok a) (ok b) → a ≡ b
  ok_injective h = cc

  pub ok_or-eq-ok {κ} : {A : Type κ} (o : Option A) (e : E) {a : A} → ok_or o e ≡ ok a → o ≡ some a
  ok_or-eq-ok none e h = cc
  ok_or-eq-ok (some x) e h = cc

  pub for_each-All {κ} :
      {A : Type κ} (f : A → Result E (Unit {0})) (xs : List A)
      → for_each f xs ≡ ok tt
      → All (λ x. f x ≡ ok tt) xs
  for_each-All f [] h = tt
  for_each-All f (x ∷ xs) h =
      let (now, later) = >>-eq-ok (f x) (for_each f xs) h in (now, for_each-All f xs later)

  pub All-for_each {κ} :
      {A : Type κ} (f : A → Result E (Unit {0})) (xs : List A)
      → All (λ x. f x ≡ ok tt) xs
      → for_each f xs ≡ ok tt
  All-for_each f [] h = refl
  All-for_each f (x ∷ xs) h = rw h.0 (All-for_each f xs h.1)

  pub Result-cases {κ} :
      {A : Type κ} (r : Result E A) → ((a : A) × (r ≡ ok a)) ⊎ ((e : E) × (r ≡ err e))
  Result-cases (ok a) = inl (a, refl)
  Result-cases (err e) = inr (e, refl)

  -- The rule for a loop with a state: what holds at the start and is kept by a round holds at the
  -- end.
  pub fold_each-rule {κ μ ν} :
      {A : Type κ} {S : Type μ} (P : S → Type ν) (f : S → A → Result E S) (xs : List A)
      → ((s : S) (x : A) (t : S) → P s → f s x ≡ ok t → P t)
      → {s t : S} → P s
      → fold_each f s xs ≡ ok t
      → P t
  fold_each-rule P f [] keep {s} {t} h e = subst P (cc) h
  fold_each-rule P f (x ∷ xs) keep {s} {t} h e =
      let (u, now, later) = >>=-eq-ok (f s x) (λ u. fold_each f u xs) e in
      fold_each-rule P f xs keep (keep s x u h now) later

  -- The same where something is known of every element.
  pub fold_each-rule_All {κ μ ν ρ} :
      {A : Type κ} {S : Type μ} (P : S → Type ν) (Q : A → Type ρ) (f : S → A → Result E S)
      (xs : List A)
      → ((s : S) (x : A) (t : S) → Q x → P s → f s x ≡ ok t → P t)
      → {s t : S} → All Q xs
      → P s
      → fold_each f s xs ≡ ok t
      → P t
  fold_each-rule_All P Q f [] keep {s} {t} each h e = subst P (cc) h
  fold_each-rule_All P Q f (x ∷ xs) keep {s} {t} each h e =
      let (u, now, later) = >>=-eq-ok (f s x) (λ u. fold_each f u xs) e in
      fold_each-rule_All P Q f xs keep each.1 (keep s x u each.0 h now) later

  -- A loop that ended went through every element.
  pub fold_each-All {κ μ ρ} :
      {A : Type κ} {S : Type μ} (Q : A → Type ρ) (f : S → A → Result E S)
      → ((s : S) (x : A) (t : S) → f s x ≡ ok t → Q x)
      → (xs : List A) (s t : S) → fold_each f s xs ≡ ok t
      → All Q xs
  fold_each-All Q f each [] s t e = tt
  fold_each-All Q f each (x ∷ xs) s t e =
      let (u, now, later) = >>=-eq-ok (f s x) (λ u. fold_each f u xs) e in
      (each s x u now, fold_each-All Q f each xs u t later)

  -- A loop whose rounds all return ends.
  pub fold_each-returns {κ μ ρ} :
      {A : Type κ} {S : Type μ} (Q : A → Type ρ) (f : S → A → Result E S)
      → ((s : S) (x : A) → Q x → (t : S) × (f s x ≡ ok t))
      → (xs : List A) (s : S) → All Q xs
      → (t : S) × (fold_each f s xs ≡ ok t)
  fold_each-returns Q f each [] s h = (s, refl)
  fold_each-returns Q f each (x ∷ xs) s h =
      let (u, now) = each s x h.0 in
      let (t, later) = fold_each-returns Q f each xs u h.1 in (t, rw now later)
