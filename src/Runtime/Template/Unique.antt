-- ===== src/Runtime/Template/Unique.antt =====
-- crates/nix-seal-runtime/src/lib.rs, `visit_template_source`: a source is spelled in one way.
use nix_seal.Prelude.{
  ℕ, ◌≡◌, refl, sym, ap, ◌∙◌, subst, true, false, some, List, [], ◌∷◌, ◌++◌, drop, all, arith, ◌⊎◌,
  inl, inr,
}
use mathlib.Core.List.{append-nil}
use nix_seal.Prelude.Text.{Text, starts_with, text_ord}
use nix_seal.Prelude.Collections.{BTreeMap, map_get}
use nix_seal.Runtime.Names.{is_runtime_placeholder_name, is_name_byte}
use nix_seal.Runtime.Spec.{TemplatePlaceholderSpecV1}
use nix_seal.Runtime.Template.{TemplatePart, opening, closing, marker, marker_stem}
use nix_seal.Runtime.Template.Scan.{
  starts_with-append, Passed, nothing, byte, braces, Spells, last, next,
}

some_injective : {A : Type 0} {a b : A} → some a ≡ some b → a ≡ b
some_injective h = cc

tail : Text → Text
tail [] = []
tail (c ∷ s) = s

tail-same : {c d : ℕ} {s t : Text} → c ∷ s ≡ d ∷ t → s ≡ t
unfolding tail
tail-same h = ap tail h

head-same : {c d : ℕ} {s t : Text} → c ∷ s ≡ d ∷ t → c ≡ d
head-same h = cc

-- A scan stops at the end, and at a marker.
abbrev Stops : Text → Type 0
Stops s = (s ≡ []) ⊎ (starts_with s marker ≡ true)

marker-opening : (s : Text) → starts_with s marker ≡ true → starts_with s opening ≡ true
unfolding starts_with
marker-opening s h =
    subst (λ (t : Text). starts_with t opening ≡ true) (sym (starts_with-append s marker h)) refl

marker-stem : (s : Text) → starts_with s marker ≡ true → starts_with s marker_stem ≡ true
unfolding starts_with
marker-stem s h =
    subst (λ (t : Text). starts_with t marker_stem ≡ true) (sym (starts_with-append s marker h))
      refl

-- A scan does not go on where it stops.
stop-byte : (s t : Text) (c : ℕ) → Stops s → s ≡ c ∷ t → starts_with (c ∷ t) opening ≡ false → ⊥
stop-byte s t c (inl end) e other = absurd (cc)
stop-byte s t c (inr here) e other =
    let starts = subst (λ (t : Text). starts_with t opening ≡ true) e (marker-opening s here) in
    absurd (cc)

stop-braces :
    (s t : Text) → Stops s → s ≡ opening ++ t → starts_with (opening ++ t) marker_stem ≡ false → ⊥
stop-braces s t (inl end) e plain = absurd (cc)
stop-braces s t (inr here) e plain =
    let starts = subst (λ (t : Text). starts_with t marker_stem ≡ true) e (marker-stem s here) in
    absurd (cc)

byte-braces : (s t : Text) → s ≡ opening ++ t → starts_with s opening ≡ false → ⊥
unfolding starts_with
byte-braces s t e other =
    let bad : starts_with (opening ++ t) opening ≡ false =
      subst (λ (t : Text). starts_with t opening ≡ false) e other in
    absurd (cc)

-- A scan passes over one text before it stops.
Passed-unique :
    (kept rest other more : Text)
    → Passed kept rest
    → Passed other more
    → Stops rest
    → Stops more
    → kept ++ rest ≡ other ++ more
    → (kept ≡ other) × (rest ≡ more)
Passed-unique [] rest [] more (nothing _) (nothing _) here there e = (refl, e)
Passed-unique [] rest (_ ∷ _) more (nothing _) (byte c other _ no_braces q) here there e =
    absurd (stop-byte rest (other ++ more) c here e no_braces)
Passed-unique [] rest (_ ∷ _ ∷ _) more (nothing _) (braces other _ plain q) here there e =
    absurd (stop-braces rest (other ++ more) here e plain)
Passed-unique (_ ∷ _) rest [] more (byte c kept _ no_braces p) (nothing _) here there e =
    absurd (stop-byte more (kept ++ rest) c there (sym e) no_braces)
Passed-unique (_ ∷ _ ∷ _) rest [] more (braces kept _ plain p) (nothing _) here there e =
    absurd (stop-braces more (kept ++ rest) there (sym e) plain)
Passed-unique (_ ∷ _) rest (_ ∷ _) more (byte c kept _ one p) (byte d other _ two q) here there e =
    let (same, then) = Passed-unique kept rest other more p q here there (tail-same e) in
    let first : c ≡ d = head-same e in (cc, then)
Passed-unique (_ ∷ _) rest (_ ∷ _ ∷ _) more (byte c kept _ no_braces p) (braces other _ plain q)
      here there e =
    absurd (byte-braces (c ∷ (kept ++ rest)) (other ++ more) e no_braces)
Passed-unique (_ ∷ _ ∷ _) rest (_ ∷ _) more (braces kept _ plain p) (byte c other _ no_braces q)
      here there e =
    absurd (byte-braces (c ∷ (other ++ more)) (kept ++ rest) (sym e) no_braces)
Passed-unique (_ ∷ _ ∷ _) rest (_ ∷ _ ∷ _) more (braces kept _ one p) (braces other _ two q) here
      there e =
    let (same, then) =
      Passed-unique kept rest other more p q here there (tail-same (tail-same e)) in
    (ap (λ (t : Text). opening ++ t) same, then)

-- A text of the bytes of a name ends before the first brace.
name_unique :
    (name other rest more : Text)
    → all is_name_byte name ≡ true
    → all is_name_byte other ≡ true
    → name ++ (closing ++ rest) ≡ other ++ (closing ++ more)
    → (name ≡ other) × (rest ≡ more)
name_unique [] [] rest more h k e = (refl, tail-same (tail-same e))
name_unique [] (c ∷ other) rest more h k e =
    let bad : b'}' ≡ c = head-same e in absurd (ground (arith, bad, k))
name_unique (c ∷ name) [] rest more h k e =
    let bad : c ≡ b'}' = head-same e in absurd (ground (arith, bad, h))
name_unique (c ∷ name) (d ∷ other) rest more h k e =
    let (same, then) =
      name_unique name other rest more (ground arith) (ground arith) (tail-same e) in
    let first : c ≡ d = head-same e in (cc, then)

name-bytes : (name : Text) → is_runtime_placeholder_name name ≡ true → all is_name_byte name ≡ true
unfolding is_runtime_placeholder_name
name-bytes name h = ground arith

module _ (placeholders : BTreeMap Text TemplatePlaceholderSpecV1) where
  pub Spells-unique :
      (s t : Text) (names others : List Text) (parts pieces : List TemplatePart)
      → Spells placeholders s names parts
      → Spells placeholders t others pieces
      → s ≡ t
      → (names ≡ others) × (parts ≡ pieces)
  unfolding starts_with
  Spells-unique s t names others parts pieces (last kept p) (last other q) e = (refl, cc)
  Spells-unique s t names others parts pieces (last kept p)
        (next other name rest good declared q more) e =
      let (_, bad) =
        Passed-unique kept [] other _ p q (inl refl) (inr refl) (append-nil kept ∙ e) in
      absurd (cc)
  Spells-unique s t names others parts pieces (next kept name rest good declared p more)
        (last other q) e =
      let (_, bad) =
        Passed-unique kept _ other [] p q (inr refl) (inl refl) (e ∙ sym (append-nil other)) in
      absurd (cc)
  Spells-unique s t names others parts pieces
        (next kept name rest {spec = one} good declared p more)
        (next other again beyond {spec = two} fine known q later) e =
      let (same, marked) = Passed-unique kept _ other _ p q (inr refl) (inr refl) e in
      let (named, behind) =
        name_unique name again rest beyond (name-bytes name good) (name-bytes again fine)
          (ap (drop 11) marked) in
      let (same_names, same_parts) = Spells-unique rest beyond _ _ _ _ more later behind in
      let declared_again = subst (λ (n : Text). map_get n placeholders ≡ some one) named declared in
      let spec : one ≡ two = some_injective (sym declared_again ∙ known) in (cc, cc)
