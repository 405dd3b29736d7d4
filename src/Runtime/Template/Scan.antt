-- ===== src/Runtime/Template/Scan.antt =====
-- crates/nix-seal-runtime/src/lib.rs, `visit_template_source`: how a source is scanned for markers.
use nix_seal.Prelude.{
  ℕ, ◌≡◌, refl, sym, ap, ◌∙◌, subst, true, false, none, some, List, [], ◌∷◌, ◌++◌, length, drop,
  arith, Bool-cases, Option-cases, inl, inr,
}
use mathlib.Core.List.{append_assoc, append-nil}
use nix_seal.Prelude.Text.{Text, starts_with, text_ord}
use nix_seal.Prelude.Collections.{BTreeMap, map_get}
use nix_seal.Runtime.Names.{is_runtime_placeholder_name}
use nix_seal.Runtime.Spec.{TemplatePlaceholderSpecV1}
use nix_seal.Runtime.Template.{
  TemplatePart, literal, placeholder, opening, closing, marker, marker_stem, find_text,
}

-- A text that starts with another is that text and the rest.
pub starts_with-append : (s p : Text) → starts_with s p ≡ true → s ≡ p ++ drop (length p) s
unfolding starts_with
starts_with-append s [] h = refl
starts_with-append [] (c ∷ p) h = absurd (cc)
starts_with-append (d ∷ s) (c ∷ p) h = ground (arith, starts_with-append s p)

pub find_text-append :
    (pattern s : Text) {before from : Text}
    → find_text pattern s ≡ some (before, from)
    → (s ≡ before ++ from) × (starts_with from pattern ≡ true)
unfolding find_text
find_text-append pattern [] h = absurd (cc)
find_text-append pattern (c ∷ s) {before} {from} h =
    elim (Bool-cases (starts_with (c ∷ s) pattern)) [
      | inl here ↦
          let k = rw here at h in
          (
            cc,
            let same : c ∷ s ≡ from = cc in
                subst (λ (t : Text). starts_with t pattern ≡ true) same here,
          )
      | inr later ↦
          let k = rw later at h in
          elim (Option-cases (find_text pattern s)) [
            | inl gone ↦ let bad = rw gone at k in absurd (cc)
            | inr ((b, f), found) ↦
                let same = rw found at k in
                let (split, starts) = find_text-append pattern s found in
                let same_from : f ≡ from = cc in
                let same_before : c ∷ b ≡ before = cc in
                (
                  ap (λ (t : Text). c ∷ t) split
                      ∙ ap (λ (t : Text). t ++ f) same_before
                      ∙ ap (λ (t : Text). before ++ t) same_from,
                  subst (λ (t : Text). starts_with t pattern ≡ true) same_from starts,
                )
          ]
    ]

-- A scan from left to right passes over `kept` in front of `rest`: byte by byte where no two braces
-- begin, and over both braces where they begin and the text from them does not start as a marker does.
pub data Passed : Text → Text → Type 0 where
  nothing : (rest : Text) → Passed [] rest
  byte :
      (c : ℕ) (kept rest : Text)
      → starts_with (c ∷ (kept ++ rest)) opening ≡ false
      → Passed kept rest
      → Passed (c ∷ kept) rest
  braces :
      (kept rest : Text)
      → starts_with (opening ++ (kept ++ rest)) marker_stem ≡ false
      → Passed kept rest
      → Passed (opening ++ kept) rest

pub Passed-append :
    (kept more rest tail : Text)
    → Passed kept tail
    → tail ≡ more ++ rest
    → Passed more rest
    → Passed (kept ++ more) rest
Passed-append [] more rest tail (nothing _) e q = q
Passed-append (_ ∷ _) more rest tail (byte c kept _ other p) e q =
    byte c (kept ++ more) rest (rw (append_assoc kept more rest, ← e) other)
      (Passed-append kept more rest tail p e q)
Passed-append (_ ∷ _ ∷ _) more rest tail (braces kept _ plain p) e q =
    braces (kept ++ more) rest (rw (append_assoc kept more rest, ← e) plain)
      (Passed-append kept more rest tail p e q)

-- What a search for two braces leaves out is passed over.
pub find_text-Passed :
    (s : Text) {before from : Text} → find_text opening s ≡ some (before, from) → Passed before from
unfolding find_text
find_text-Passed [] h = absurd (cc)
find_text-Passed (c ∷ s) {before} {from} h = elim (Bool-cases (starts_with (c ∷ s) opening)) [
  | inl here ↦
      let k = rw here at h in
      let same : [] ≡ before = cc in subst (λ (t : Text). Passed t from) same (nothing from)
  | inr later ↦
      let k = rw later at h in
      elim (Option-cases (find_text opening s)) [
        | inl gone ↦ let bad = rw gone at k in absurd (cc)
        | inr ((b, f), found) ↦
            let same = rw found at k in
            let same_from : f ≡ from = cc in
            let same_before : c ∷ b ≡ before = cc in
            let split = (find_text-append opening s found).0 in
            subst (λ (t : Text). Passed t from) same_before
              (subst (λ (t : Text). Passed (c ∷ b) t) same_from
                (byte c b f (rw split at later) (find_text-Passed s found)))
      ]
]

pub find_text-none-Passed : (s : Text) → find_text opening s ≡ none → Passed s []
unfolding find_text
find_text-none-Passed [] h = nothing []
find_text-none-Passed (c ∷ s) h = elim (Bool-cases (starts_with (c ∷ s) opening)) [
  | inl here ↦ let bad = rw here at h in absurd (cc)
  | inr later ↦
      let k = rw later at h in
      elim (Option-cases (find_text opening s)) [
        | inl gone ↦ byte c s [] (rw (append-nil s) later) (find_text-none-Passed s gone)
        | inr ((b, f), found) ↦ let bad = rw found at k in absurd (cc)
      ]
]

-- Two braces that no marker begins with are passed over with what is before them.
pub over_braces :
    (kept rest before from : Text)
    → Passed kept rest
    → rest ≡ before ++ from
    → Passed before from
    → starts_with from opening ≡ true
    → starts_with from marker_stem ≡ false
    → Passed (kept ++ (before ++ opening)) (drop 2 from)
over_braces kept rest before from passed split over opens plain =
    let braced = starts_with-append from opening opens in
    Passed-append kept (before ++ opening) (drop 2 from) rest passed
      (split
        ∙ ap (λ (t : Text). before ++ t) braced
        ∙ sym (append_assoc before opening (drop 2 from)))
      (Passed-append before opening (drop 2 from) from over braced (
        braces [] (drop 2 from)
          (subst (λ (t : Text). starts_with t marker_stem ≡ false) braced plain)
          (nothing (drop 2 from))))

module _ (placeholders : BTreeMap Text TemplatePlaceholderSpecV1) where
  -- A source is a literal text that a scan passes over to the first marker, then for that marker its
  -- name, which is declared, and what follows it; a scan passes over the whole of the last literal.
  -- The names are in the order of the source.
  pub data Spells : Text → List Text → List TemplatePart → Type 0 where
    last : (kept : Text) → Passed kept [] → Spells kept [] (literal kept ∷ [])
    next :
        (kept name rest : Text) {names : List Text} {parts : List TemplatePart}
        {spec : TemplatePlaceholderSpecV1}
        → is_runtime_placeholder_name name ≡ true
        → map_get name placeholders ≡ some spec
        → Passed kept (marker ++ (name ++ (closing ++ rest)))
        → Spells rest names parts
        → Spells
            (kept ++ (marker ++ (name ++ (closing ++ rest))))
            (name ∷ names)
            (literal kept ∷ placeholder spec ∷ parts)
