-- ===== src/Manifest/Pae/Injective.antt =====
-- The parts of a pre-authentication encoding can be read back from it.
use nix_seal.Prelude.{
  ℕ, zero, suc, ◌+◌, ◌*◌, ◌-◌, ◌/◌, ◌%◌, ◌<◌, ◌≡◌, refl, sym, ap, ◌∙◌, true, ltb, [], ◌∷◌, ◌++◌,
  length, all, all-append, arith, ok, ok_or, >>=-eq-ok, ok_injective, Bool-cases, inl, inr,
}
use nix_seal.Prelude.Text.{Text, codes, is_ascii_digit}
use nix_seal.Keys.Approval.{limit}
use nix_seal.Manifest.Pae.{digits, to_string, capacity, encoding, pae}

-- The number that decimal digits stand for.
abbrev value_from : ℕ → Text → ℕ
value_from n [] = n
value_from n (c ∷ s) = value_from (n * 10 + (c - b'0')) s

value_from-append : (s t : Text) (n : ℕ) → value_from n (s ++ t) ≡ value_from (value_from n s) t
value_from-append [] t n = refl
value_from-append (c ∷ s) t n = value_from-append s t (n * 10 + (c - b'0'))

digits-value : (fuel n : ℕ) → n < fuel → value_from 0 (digits fuel n) ≡ n
unfolding digits
digits-value zero n h = absurd (omega arith)
digits-value (suc fuel) n h = elim (Bool-cases (ltb n 10)) [
  | inl one ↦ rw one (ground arith)
  | inr more ↦ rw more (
      value_from-append (digits fuel (n / 10)) ((b'0' + n % 10) ∷ []) 0
      ∙ rw (digits-value fuel (n / 10) (ground arith)) (omega arith))
]

digits-all : (fuel n : ℕ) → all is_ascii_digit (digits fuel n) ≡ true
unfolding digits
digits-all zero n = refl
digits-all (suc fuel) n = elim (Bool-cases (ltb n 10)) [
  | inl one ↦ rw one (ground arith)
  | inr more ↦ rw more (
      ground (
        arith,
        all-append is_ascii_digit (digits fuel (n / 10)) ((b'0' + n % 10) ∷ []),
        digits-all fuel (n / 10),
      ))
]

-- Two texts of digits before a space.
cut_at_space :
    (s t x y : Text)
    → all is_ascii_digit s ≡ true
    → all is_ascii_digit t ≡ true
    → s ++ b' ' ∷ x ≡ t ++ b' ' ∷ y
    → (s ≡ t) × (x ≡ y)
cut_at_space [] [] x y p q h = ground arith
cut_at_space [] (d ∷ t) x y p q h = absurd (ground arith)
cut_at_space (c ∷ s) [] x y p q h = absurd (ground arith)
cut_at_space (c ∷ s) (d ∷ t) x y p q h = ground (arith, cut_at_space s t x y)

-- Two texts of one length before others.
cut_at_length : (s t x y : Text) → length s ≡ length t → s ++ x ≡ t ++ y → (s ≡ t) × (x ≡ y)
cut_at_length [] [] x y l h = ground arith
cut_at_length [] (d ∷ t) x y l h = absurd (omega (arith, l))
cut_at_length (c ∷ s) [] x y l h = absurd (omega (arith, l))
cut_at_length (c ∷ s) (d ∷ t) x y l h = ground (arith, cut_at_length s t x y)

-- Two lengths that are printed before a space, and what follows them.
cut_at_number :
    (m n : ℕ) (x y : Text) → to_string m ++ b' ' ∷ x ≡ to_string n ++ b' ' ∷ y → (m ≡ n) × (x ≡ y)
unfolding to_string
cut_at_number m n x y h =
    let (same, rest) =
      cut_at_space (digits (suc m) m) (digits (suc n) n) x y (digits-all (suc m) m)
        (digits-all (suc n) n) h in
    (
      sym (digits-value (suc m) m (omega arith))
          ∙ ap (value_from 0) same
          ∙ digits-value (suc n) n (omega arith),
      rest,
    )

encoding_injective : (t u p q : Text) → encoding t p ≡ encoding u q → (t ≡ u) × (p ≡ q)
encoding_injective t u p q h =
    let (_, after_header) = cut_at_length (codes "DSSEv1 ") (codes "DSSEv1 ") _ _ refl h in
    let (same_length, after_number) = cut_at_number (length t) (length u) _ _ after_header in
    let (same_type, after_type) = cut_at_length t u _ _ same_length after_number in
    let (_, after_space) = cut_at_length (b' ' ∷ []) (b' ' ∷ []) _ _ refl after_type in
    (same_type, (cut_at_number (length p) (length q) p q after_space).1)

-- Two encodings of payloads under their types are equal only if the types and the payloads are: no
-- signature is over two payloads, or over a payload of two types.
pub pae_injective :
    (payload_type other payload another message : Text)
    → pae payload_type payload ≡ ok message
    → pae other another ≡ ok message
    → (payload_type ≡ other) × (payload ≡ another)
unfolding pae
pae_injective payload_type other payload another message h k =
    let (_, _, first) = >>=-eq-ok (ok_or (capacity payload_type payload) limit) _ h in
    let (_, _, second) = >>=-eq-ok (ok_or (capacity other another) limit) _ k in
    encoding_injective payload_type other payload another
      (ok_injective first ∙ sym (ok_injective second))
