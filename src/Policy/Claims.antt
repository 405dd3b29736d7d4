-- ===== src/Policy/Claims.antt =====
-- A loop over the entries of a map in which each entry claims what no earlier entry has claimed, as
-- `validate` of crates/nix-seal-policy/src/lib.rs has for signing keys and for ciphertext paths.
use nix_seal.Prelude.{
  ◌≡◌, sym, ◌∙◌, inl, inr, Bool, true, false, [], ◌∷◌, ok, Result, fold_each, >>=-eq-ok, subst,
}
use nix_seal.Prelude.Text.{text_ord}
use nix_seal.Prelude.Collections.{BTreeMap, HasEntry}
use nix_seal.Core.Id.{Identifier}
use nix_seal.Policy.Error.{PolicyError}

module _ {S V K : Type 0} (f : S → Identifier × V → Result PolicyError S) (is_taken : K → S → Bool)
    (Claim : K → V → Type 0)
    (fresh : (s t : S) (id : Identifier) (v : V) (k : K)
      → Claim k v
      → f s (id, v) ≡ ok t
      → (is_taken k s ≡ false) × (is_taken k t ≡ true))
    (keeps : (s t : S) (id : Identifier) (v : V) (k : K)
      → f s (id, v) ≡ ok t
      → is_taken k t ≡ false
      → is_taken k s ≡ false) where
  -- What an entry to come claims is not taken yet.
  later-fresh :
      (m : BTreeMap Identifier V) (s t : S) (id : Identifier) (v : V) (k : K)
      → fold_each f s m ≡ ok t
      → HasEntry id v m
      → Claim k v
      → is_taken k s ≡ false
  later-fresh [] s t id v k h e c = absurd e
  later-fresh ((j, w) ∷ m) s t id v k h (inl (_, same)) c =
      let (u, now, later) = >>=-eq-ok (f s (j, w)) (λ u. fold_each f u m) h in
      (fresh s u j w k (subst (Claim k) (sym same) c) now).0
  later-fresh ((j, w) ∷ m) s t id v k h (inr there) c =
      let (u, now, later) = >>=-eq-ok (f s (j, w)) (λ u. fold_each f u m) h in
      keeps s u j w k now (later-fresh m u t id v k later there c)

  -- Once an entry has claimed something, no later one does.
  claimed-later :
      (m : BTreeMap Identifier V) (s t : S) (j id : Identifier) (w v : V) (k : K)
      → fold_each f s ((j, w) ∷ m) ≡ ok t
      → HasEntry id v m
      → Claim k w
      → Claim k v
      → ⊥
  claimed-later m s t j id w v k h there c d =
      let (u, now, later) = >>=-eq-ok (f s (j, w)) (λ u. fold_each f u m) h in
      let taken = (fresh s u j w k c now).1 in
      let free = later-fresh m u t id v k later there d in cc

  pub claims-distinct :
      (m : BTreeMap Identifier V) (s t : S) (id other : Identifier) (v w : V) (k : K)
      → fold_each f s m ≡ ok t
      → HasEntry id v m
      → HasEntry other w m
      → Claim k v
      → Claim k w
      → id ≡ other
  claims-distinct [] s t id other v w k h a b c d = absurd a
  claims-distinct ((j, x) ∷ m) s t id other v w k h (inl (p, _)) (inl (q, _)) c d = sym p ∙ q
  claims-distinct ((j, x) ∷ m) s t id other v w k h (inl (_, same)) (inr b) c d =
      absurd (claimed-later m s t j other x w k h b (subst (Claim k) (sym same) c) d)
  claims-distinct ((j, x) ∷ m) s t id other v w k h (inr a) (inl (_, same)) c d =
      absurd (claimed-later m s t j id x v k h a (subst (Claim k) (sym same) d) c)
  claims-distinct ((j, x) ∷ m) s t id other v w k h (inr a) (inr b) c d =
      let (u, now, later) = >>=-eq-ok (f s (j, x)) (λ u. fold_each f u m) h in
      claims-distinct m u t id other v w k later a b c d
