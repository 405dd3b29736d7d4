-- ===== src/Manifest/Keys/Trusted.antt =====
-- crates/nix-seal-manifest/src/lib.rs, `TrustedKeys`: every key stands under its own identifier.
use nix_seal.Prelude.{
  ◌≡◌, refl, sym, subst, false, some, arith, ok, err, fail_if, >>=-eq-ok, >>-eq-ok, fail_if-eq-ok,
  ok_injective, Bool-cases, inl, inr,
}
use nix_seal.Prelude.Text.{Text, text_ord}
use nix_seal.Prelude.Collections.{
  BTreeMap, map_get, map_insert, contains_key, get-map_insert, get-contains_key, eq_test_refl,
}
use nix_seal.Libraries.{Libraries}
use nix_seal.Keys.Approval.{
  ApprovalVerificationKey, key_id, parse_public_key, duplicate_trusted_key,
}
use nix_seal.Manifest.Crates.{Crates}
use nix_seal.Manifest.Keys.{insert_encoded}

module _ (lib : Libraries) where
  -- Each trusted key stands under its identifier.
  abbrev pub AreKeyed : BTreeMap Text ApprovalVerificationKey → Type 0
  AreKeyed trusted =
      (id : Text) (key : ApprovalVerificationKey)
      → map_get id trusted ≡ some key
      → id ≡ key_id lib key

  -- A new trusted key is found under its identifier, no other key is changed or lost, the identifier
  -- was free, and keys that stand under their identifiers still do.
  pub record IsInserted (trusted : BTreeMap Text ApprovalVerificationKey)
      (result : BTreeMap Text ApprovalVerificationKey) (id encoded : Text) : Type 0 where
    pub key : ApprovalVerificationKey
    pub parsed : parse_public_key lib encoded ≡ ok key
    pub named : id ≡ key_id lib key
    pub free : contains_key id trusted ≡ false
    pub found : map_get id result ≡ some key
    pub others :
        (other : Text)
        → text_ord.eq_test id other ≡ false
        → map_get other result ≡ map_get other trusted
    pub keyed : AreKeyed trusted → AreKeyed result

  map_insert-AreKeyed :
      (trusted : BTreeMap Text ApprovalVerificationKey) (key : ApprovalVerificationKey)
      → AreKeyed trusted
      → AreKeyed (map_insert (key_id lib key) key trusted)
  map_insert-AreKeyed trusted key h id k get =
      let inserted = get-map_insert (key_id lib key) id key trusted in
      elim (Bool-cases (text_ord.eq_test (key_id lib key) id)) [
        | inl here ↦
            let at_id = (text_ord.eq_test_iff (key_id lib key) id).0 here in
            let same : key ≡ k = ground arith in
            subst (λ (x : ApprovalVerificationKey). id ≡ key_id lib x) same (sym at_id)
        | inr other ↦ h id k (ground arith)
      ]

  -- A trusted key that is inserted was not there before under its identifier, is found under it from
  -- then on, and leaves every other key as it was; keys that stood under their own identifiers still
  -- do.
  pub insert_encoded-IsInserted :
      (crates : Crates) (trusted : BTreeMap Text ApprovalVerificationKey) (encoded : Text)
      (result : BTreeMap Text ApprovalVerificationKey) (id : Text)
      → insert_encoded lib crates trusted encoded ≡ ok (result, id)
      → IsInserted trusted result id encoded
  unfolding insert_encoded
  insert_encoded-IsInserted crates trusted encoded result id h =
      let (key, parsed, h1) = >>=-eq-ok (parse_public_key lib encoded) _ h in
      let (new, h2) =
        >>-eq-ok (fail_if (contains_key (key_id lib key) trusted) duplicate_trusted_key) _ h1 in
      let both = ok_injective h2 in
      let inserted = λ (j : Text). get-map_insert (key_id lib key) j key trusted in
      subst
        (λ (p : BTreeMap Text ApprovalVerificationKey × Text). IsInserted trusted p.0 p.1 encoded)
        both
        (record {
          key = key;
          parsed = parsed;
          named = refl;
          free = fail_if-eq-ok (contains_key (key_id lib key) trusted) duplicate_trusted_key new;
          found = ground (arith, inserted (key_id lib key), eq_test_refl (key_id lib key));
          others = λ other apart. ground (arith, inserted other, apart);
          keyed = map_insert-AreKeyed trusted key;
        })

  -- A key that has been inserted is refused from then on, in whatever encoding it is read.
  pub insert_encoded-duplicate :
      (crates : Crates) (trusted : BTreeMap Text ApprovalVerificationKey) (encoded : Text)
      (result : BTreeMap Text ApprovalVerificationKey) (id : Text)
      → insert_encoded lib crates trusted encoded ≡ ok (result, id)
      → (again : Text) (key : ApprovalVerificationKey) → parse_public_key lib again ≡ ok key
      → key_id lib key ≡ id
      → insert_encoded lib crates result again ≡ err duplicate_trusted_key
  unfolding insert_encoded
  insert_encoded-duplicate crates trusted encoded result id h again key parsed same =
      let i = insert_encoded-IsInserted crates trusted encoded result id h in
      rw (parsed, same, get-contains_key id result i.found) refl
