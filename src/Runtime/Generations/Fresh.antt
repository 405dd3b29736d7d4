-- ===== src/Runtime/Generations/Fresh.antt =====
-- crates/nix-seal-runtime/src/lib.rs, `next_generation`: the number is that of no generation yet.
use nix_seal.Prelude.{
  ℕ, zero, suc, ◌+◌, ◌*◌, ◌-◌, ◌/◌, ◌%◌, ◌^◌, ◌≤◌, ◌<◌, ◌≡◌, refl, sym, ◌∙◌, subst, not, ◌||◌, some,
  [], ◌∷◌, ◌++◌, ltb, ok, fail_if, ok_or, fold_each, >>=-eq-ok, >>-eq-ok, ok_or-eq-ok, ok_injective,
  Bool-cases, Option-cases, inl, inr, arith,
}
use nix_seal.Prelude.Text.{Text, strip_prefix}
use nix_seal.Prelude.Numbers.{checked_add}
use nix_seal.Prelude.Collections.{BTreeMap, HasEntry}
use nix_seal.Manifest.Pae.{digits, to_string}
use nix_seal.Runtime.Error.{invalid_destination}
use nix_seal.Runtime.Generations.{
  Entry, is_dir, prefix, generation_name, parse_u64_from, bad_suffix, see_entry, next_generation,
}

parse_u64_from-append :
    (s t : Text) (value : ℕ) {result : ℕ}
    → parse_u64_from value s ≡ some result
    → parse_u64_from value (s ++ t) ≡ parse_u64_from result t
unfolding parse_u64_from
parse_u64_from-append [] t value h = ground arith
parse_u64_from-append (c ∷ s) t value {result} h =
    elim (Bool-cases (ltb (value * 10 + (c - b'0')) (2 ^ 64))) [
      | inr over ↦ let bad = rw over at h in absurd (cc)
      | inl within ↦
          rw within (parse_u64_from-append s t (value * 10 + (c - b'0')) (rw within at h))
    ]

-- The digits of a number of 64 bits are parsed as that number.
parse_u64_from-digits :
    (fuel n : ℕ) → n < fuel → n < 2 ^ 64 → parse_u64_from 0 (digits fuel n) ≡ some n
unfolding parse_u64_from digits
parse_u64_from-digits zero n h small = absurd (omega arith)
parse_u64_from-digits (suc fuel) n h small = elim (Bool-cases (ltb n 10)) [
  | inl one ↦ rw one (ground arith)
  | inr more ↦ rw more (
      parse_u64_from-append (digits fuel (n / 10)) ((b'0' + n % 10) ∷ []) 0
        (parse_u64_from-digits fuel (n / 10) (ground arith) (omega (arith, small)))
      ∙ ground arith)
]

strip_prefix-append : (p s : Text) → strip_prefix (p ++ s) p ≡ some s
unfolding strip_prefix
strip_prefix-append [] s = refl
strip_prefix-append (c ∷ p) s = ground (arith, strip_prefix-append p s)

-- What a round has seen of an entry.
see_entry-bound :
    (before : ℕ) (name : Text) (entry : Entry) (after : ℕ)
    → see_entry before (name, entry) ≡ ok after
    → (before ≤ after)
      × ((suffix : Text) (value : ℕ)
          → strip_prefix name prefix ≡ some suffix
          → parse_u64_from 0 suffix ≡ some value
          → value ≤ after)
unfolding see_entry
see_entry-bound before name entry after h = elim (Option-cases (strip_prefix name prefix)) [
  | inl other ↦
      let same = ok_injective (rw (see_entry, other) at h) in
      (omega (arith, same), λ suffix value e p. absurd (cc))
  | inr (own, is_own) ↦
      let h0 = rw (see_entry, is_own) at h in
      let (good, h1) =
        >>-eq-ok (fail_if (not (is_dir entry) || bad_suffix own) invalid_destination) _ h0 in
      let (number, parsed, h2) =
        >>=-eq-ok (ok_or (parse_u64_from 0 own) invalid_destination) _ h1 in
      let same = ok_injective h2 in
      let is_number = ok_or-eq-ok (parse_u64_from 0 own) invalid_destination parsed in
      (
        ground (arith, same),
        λ suffix value e p.
            let one : own ≡ suffix = cc in
            let again : parse_u64_from 0 suffix ≡ some number =
              subst (λ (t : Text). parse_u64_from 0 t ≡ some number) one is_number in
            let equal : number ≡ value = cc in ground (arith, same),
      )
]

loop-bound :
    (root : BTreeMap Text Entry) (before after : ℕ)
    → fold_each see_entry before root ≡ ok after
    → (before ≤ after)
      × ((name : Text) (entry : Entry) (suffix : Text) (value : ℕ)
          → HasEntry name entry root
          → strip_prefix name prefix ≡ some suffix
          → parse_u64_from 0 suffix ≡ some value
          → value ≤ after)
loop-bound [] before after h =
    let same = ok_injective h in
    (omega (arith, same), λ name entry suffix value there e p. absurd there)
loop-bound ((j, x) ∷ root) before after h =
    let (between, now, later) =
      >>=-eq-ok (see_entry before (j, x)) (λ m. fold_each see_entry m root) h in
    let (grows, seen) = see_entry-bound before j x between now in
    let (grows_more, rest) = loop-bound root between after later in
    (
      omega (arith, grows, grows_more),
      λ name entry suffix value there e p. elim there [
        | inl (same, _) ↦
            let here =
              seen suffix value
                (subst (λ (n : Text). strip_prefix n prefix ≡ some suffix) (sym same) e) p in
            omega (arith, here, grows_more)
        | inr further ↦ rest name entry suffix value further e p
      ],
    )

-- The number that is allocated for a new generation is above that of every generation in the runtime
-- root, so there is no entry of its name yet.
pub next_generation_fresh :
    (root : BTreeMap Text Entry) (generation : ℕ)
    → next_generation root ≡ ok generation
    → ((name : Text) (entry : Entry) (suffix : Text) (value : ℕ)
        → HasEntry name entry root
        → strip_prefix name prefix ≡ some suffix
        → parse_u64_from 0 suffix ≡ some value
        → value < generation)
      × ((entry : Entry) → HasEntry (generation_name generation) entry root → ⊥)
unfolding next_generation generation_name checked_add to_string
next_generation_fresh root generation h =
    let (maximum, ran, h1) = >>=-eq-ok (fold_each see_entry 0 root) _ h in
    let added = ok_or-eq-ok (checked_add maximum 1) invalid_destination h1 in
    let one_more : (maximum + 1 ≡ generation) × (generation < 2 ^ 64) = ground arith in
    let (_, bound) = loop-bound root 0 maximum ran in
    (
      λ name entry suffix value there e p.
          omega (arith, bound name entry suffix value there e p, one_more.0),
      λ entry there.
          let number = parse_u64_from-digits (suc generation) generation (omega arith) one_more.1 in
          let least =
            bound (generation_name generation) entry (digits (suc generation) generation) generation
              there (strip_prefix-append prefix (digits (suc generation) generation)) number in
          absurd (omega (arith, least, one_more.0)),
    )
