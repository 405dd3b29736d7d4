-- ===== src/Manifest/Envelope/Signers.antt =====
-- crates/nix-seal-manifest/src/lib.rs, `verify`: the signers that it returns, and the entries of the
-- envelope that they signed.
use nix_seal.Prelude.{
  ◌+◌, ◌≡◌, refl, subst, Bool, true, false, ◌||◌, some, List, [], ◌∷◌, length, All, arith, ok,
  fail_if, ok_or, fold_each, >>=-eq-ok, >>-eq-ok, fail_if-eq-ok, ok_or-eq-ok, ok_injective,
  Bool-cases, inl, inr, ◌⊎◌, fold_each-rule,
}
use mathlib.Core.List.{Memᴰ}
use nix_seal.Prelude.Text.{Text, text_ord}
use nix_seal.Prelude.Collections.{
  BTreeMap, HasEntry, map_values, contains, set_insert, contains-set_insert, length-set_insert,
  distinct, set_insert-distinct, eq_test_refl,
}
use nix_seal.Libraries.{Libraries}
use nix_seal.Keys.Approval.{ApprovalVerificationKey, key_id, duplicate_signer, untrusted_signer}
use nix_seal.Manifest.Types.{EnvelopeSignature, ssh_signature_namespace}
use nix_seal.Manifest.Crates.{Crates}
use nix_seal.Manifest.Keys.{accepts}
use nix_seal.Manifest.Envelope.{find, verify_signature_entry, verify_entry, verify_entries}

-- What `find` returns of a map's values is the value of an entry that passes the test.
pub find-eq-some :
    {V : Type 0} (test : V → Bool) (m : BTreeMap Text V) {v : V}
    → find test (map_values m) ≡ some v
    → (k : Text) × HasEntry k v m × (test v ≡ true)
unfolding find
find-eq-some test [] h = cc
find-eq-some test ((j, w) ∷ m) {v} h = elim (Bool-cases (test w)) [
  | inl hit ↦
      let same : w ≡ v = (let e = rw hit at h in cc) in
      (j, inl (refl, same), subst (λ u. test u ≡ true) same hit)
  | inr miss ↦ let (k, there, passes) = find-eq-some test m (rw miss at h) in (k, inr there, passes)
]

module _ (lib : Libraries) (crates : Crates) (trusted : BTreeMap Text ApprovalVerificationKey)
    (message : Text) where
  -- An entry of an envelope is a signature of the message by the trusted key of that identifier.
  pub record IsSigned (id : Text) (entry : EnvelopeSignature) : Type 0 where
    pub holder : Text
    pub key : ApprovalVerificationKey
    pub is_trusted : HasEntry holder key trusted
    pub names_key : accepts lib crates entry.key_id key ≡ true
    pub verified :
        verify_signature_entry lib crates entry key message ssh_signature_namespace ≡ ok tt
    pub same : id ≡ key_id lib key

  verify_entry-eq-ok :
      (signers : List Text) (entry : EnvelopeSignature) (result : List Text)
      → verify_entry lib crates trusted message signers entry ≡ ok result
      → (id : Text) × IsSigned id entry
        × (contains id signers ≡ false)
        × (set_insert id signers ≡ result)
  unfolding verify_entry
  verify_entry-eq-ok signers entry result h =
      let (key, found, h1) =
        >>=-eq-ok
          (ok_or (find (accepts lib crates entry.key_id) (map_values trusted)) untrusted_signer) _
          h in
      let (free, h2) =
        >>-eq-ok (fail_if (contains (key_id lib key) signers) duplicate_signer) _ h1 in
      let (verified, h3) =
        >>-eq-ok (verify_signature_entry lib crates entry key message ssh_signature_namespace) _
          h2 in
      let (holder, there, names_key) = find-eq-some (accepts lib crates entry.key_id) trusted (
        ok_or-eq-ok (find (accepts lib crates entry.key_id) (map_values trusted)) untrusted_signer
          found) in
      (
        key_id lib key,
        record {
          holder = holder;
          key = key;
          is_trusted = there;
          names_key = names_key;
          verified = verified;
          same = refl;
        },
        fail_if-eq-ok (contains (key_id lib key) signers) duplicate_signer free,
        ok_injective h3,
      )

  -- The loop: each entry adds one signer, and the signers are those of the entries.
  record IsRun (entries : List EnvelopeSignature) (before after : List Text) : Type 0 where
    counted : length after ≡ length before + length entries
    kept : (id : Text) → contains id before ≡ true → contains id after ≡ true
    each : All (λ entry. (id : Text) × IsSigned id entry × (contains id after ≡ true)) entries
    only :
        (id : Text)
        → contains id after ≡ true
        → (contains id before ≡ true)
          ⊎ ((entry : EnvelopeSignature) × Memᴰ entry entries × IsSigned id entry)

  fold-IsRun :
      (entries : List EnvelopeSignature) (before after : List Text)
      → fold_each (verify_entry lib crates trusted message) before entries ≡ ok after
      → IsRun entries before after
  fold-IsRun [] before after h =
      subst (IsRun [] before) (ok_injective h)
        (record { counted = omega arith; kept = λ id c. c; each = tt; only = λ id c. inl c })
  fold-IsRun (entry ∷ entries) before after h =
      let (between, now, later) =
        >>=-eq-ok (verify_entry lib crates trusted message before entry)
          (λ s. fold_each (verify_entry lib crates trusted message) s entries) h in
      let (id, signed, free, grown) = verify_entry-eq-ok before entry between now in
      let run = fold-IsRun entries between after later in
      let grew : (j : Text) → contains j between ≡ (text_ord.eq_test id j || contains j before) =
        λ j. rw grown at (contains-set_insert id j before) in
      record {
        counted =
            let l = rw (free, grown) at (length-set_insert id before) in
            omega (arith, run.counted, l);
        kept = λ j c. run.kept j (ground (arith, grew j));
        each = ((id, signed, run.kept id (ground (arith, grew id, eq_test_refl id))), run.each);
        only = λ j c. elim (run.only j c) [
          | inr (e, there, s) ↦ inr (e, Memᴰ.tail there, s)
          | inl old ↦ elim (Bool-cases (text_ord.eq_test id j)) [
            | inl here ↦ inr (
              entry,
              Memᴰ.head refl,
              subst (λ k. IsSigned k entry) ((text_ord.eq_test_iff id j).0 here) signed,
            )
            | inr other ↦ inl (ground (arith, grew j))
          ]
        ];
      }

  verify_entry-distinct :
      (signers : List Text) (entry : EnvelopeSignature) (result : List Text)
      → distinct signers ≡ true
      → verify_entry lib crates trusted message signers entry ≡ ok result
      → distinct result ≡ true
  verify_entry-distinct signers entry result d h =
      let (id, signed, free, grown) = verify_entry-eq-ok signers entry result h in
      rw grown at (set_insert-distinct id signers d)

  -- The signers that the loop returns: as many as there are entries, distinct, each entry is signed
  -- by one of them, and each of them signed an entry.
  pub record AreSigners (entries : List EnvelopeSignature) (signers : List Text) : Type 0 where
    pub counted : length signers ≡ length entries
    pub distinct_keys : distinct signers ≡ true
    pub each : All (λ entry. (id : Text) × IsSigned id entry × (contains id signers ≡ true)) entries
    pub only :
        (id : Text)
        → contains id signers ≡ true
        → (entry : EnvelopeSignature) × Memᴰ entry entries × IsSigned id entry

  pub verify_entries-AreSigners :
      (entries : List EnvelopeSignature) (signers : List Text)
      → verify_entries lib crates trusted message entries ≡ ok signers
      → AreSigners entries signers
  unfolding verify_entries contains distinct
  verify_entries-AreSigners entries signers h =
      let run = fold-IsRun entries [] signers h in
      record {
        counted = omega (arith, run.counted);
        distinct_keys =
            fold_each-rule (λ s. distinct s ≡ true) (verify_entry lib crates trusted message)
              entries verify_entry-distinct refl h;
        each = run.each;
        only = λ id c. elim (run.only id c) [ inl nothing ↦ absurd (cc) | inr found ↦ found ];
      }
