-- ===== src/Core/Id/Paths.antt =====
-- Identifiers of crates/nix-seal-core/src/lib.rs with a slash between them.
use nix_seal.Prelude.{
  ℕ, ◌≡◌, refl, ◌∙◌, ◌==◌, Bool, true, false, ◌||◌, ◌&&◌, List, [], ◌∷◌, ◌++◌, all, any, all-append,
  is_empty, arith, inl, inr, Bool-cases,
}
use nix_seal.Prelude.Text.{Text, codes, starts_with, contains_text, split, grow}
use nix_seal.Core.Id.{IsId, is_bad_segment, is_id_byte, parse}

any-append : (p : Text → Bool) (xs ys : List Text) → any p (xs ++ ys) ≡ (any p xs || any p ys)
any-append p [] ys = refl
any-append p (x ∷ xs) ys = ground (arith, any-append p xs ys)

grow-append :
    (c : ℕ) (xs ys : List Text) → is_empty xs ≡ false → grow c (xs ++ ys) ≡ grow c xs ++ ys
grow-append c [] ys h = cc
grow-append c (x ∷ xs) ys h = refl

split-nonempty : (sep : ℕ) (s : Text) → is_empty (split sep s) ≡ false
unfolding split
split-nonempty sep [] = refl
split-nonempty sep (c ∷ s) = elim (Bool-cases (c == sep)) [
  | inl cut ↦ rw cut refl
  | inr more ↦ rw more (grow-nonempty c (split sep s))
]
  where
    grow-nonempty : (b : ℕ) (ps : List Text) → is_empty (grow b ps) ≡ false
    grow-nonempty b [] = refl
    grow-nonempty b (p ∷ ps) = refl

pub split-slash : (a b : Text) → split b'/' (a ++ b'/' ∷ b) ≡ split b'/' a ++ split b'/' b
unfolding split
split-slash [] b = refl
split-slash (c ∷ a) b = elim (Bool-cases (c == b'/')) [
  | inl cut ↦ rw (cut, split-slash a b) refl
  | inr more ↦
      rw (more, split-slash a b)
        (grow-append c (split b'/' a) (split b'/' b) (split-nonempty b'/' a))
]

dots-slash :
    (a b : Text)
    → contains_text (a ++ b'/' ∷ b) (codes "..")
      ≡ (contains_text a (codes "..") || contains_text b (codes ".."))
unfolding contains_text starts_with
dots-slash [] b = refl
dots-slash (c ∷ []) b = ground (arith, dots-slash [] b)
dots-slash (c ∷ d ∷ a) b = ground (arith, dots-slash (d ∷ a) b)

-- What `parse` asks of a text.
abbrev pub Accepts : Text → Type 0
Accepts value =
    (is_empty value ≡ false)
    × (starts_with value (codes "/") ≡ false)
    × (contains_text value (codes "..") ≡ false)
    × (any is_bad_segment (split b'/' value) ≡ false)
    × (all is_id_byte value ≡ true)

Accepts-of_IsId : (value : Text) → IsId value → Accepts value
unfolding parse
Accepts-of_IsId value h = (ground arith, ground arith, ground arith, ground arith, ground arith)

IsId-of_Accepts : (value : Text) → Accepts value → IsId value
unfolding parse
IsId-of_Accepts value (a, b, c, d, e) = rw (a, b, c, d, e) refl

-- The slash of a composed text is not at its start.
starts-slash :
    (a b : Text)
    → is_empty a ≡ false
    → starts_with a (codes "/") ≡ false
    → (starts_with (a ++ b'/' ∷ b) (codes "/") ≡ false) × (is_empty (a ++ b'/' ∷ b) ≡ false)
unfolding starts_with
starts-slash [] b h k = absurd (cc)
starts-slash (c ∷ a) b h k = ground arith

-- Two identifiers with a slash between them are an identifier.
pub parse-slash : (a b : Text) → IsId a → IsId b → IsId (a ++ b'/' ∷ b)
parse-slash a b ha hb =
    let (a_some, a_start, a_dots, a_parts, a_bytes) = Accepts-of_IsId a ha in
    let (_, _, b_dots, b_parts, b_bytes) = Accepts-of_IsId b hb in
    let (start, some) = starts-slash a b a_some a_start in
    IsId-of_Accepts (a ++ b'/' ∷ b) (
      some,
      start,
      dots-slash a b ∙ neither _ _ a_dots b_dots,
      rw split-slash
          (any-append is_bad_segment (split b'/' a) (split b'/' b) ∙ neither _ _ a_parts b_parts),
      all-append is_id_byte a (b'/' ∷ b) ∙ both _ _ a_bytes b_bytes,
    )
  where
    neither : (x y : Bool) → x ≡ false → y ≡ false → (x || y) ≡ false
    neither x y p q = ground arith

    both : (x y : Bool) → x ≡ true → y ≡ true → (x && y) ≡ true
    both x y p q = ground arith
