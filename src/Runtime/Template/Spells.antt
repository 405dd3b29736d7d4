-- ===== src/Runtime/Template/Spells.antt =====
-- crates/nix-seal-runtime/src/lib.rs, `visit_template_source`: the parts that a source spells.
use nix_seal.Prelude.{
  ℕ, zero, suc, ◌≡◌, refl, sym, ap, ◌∙◌, subst, Bool, true, false, not, some, List, [], ◌∷◌, ◌++◌,
  length, any, any-All, All, All-map, drop, Result, ok, fail_if, ok_or, fold_each, >>=-eq-ok,
  >>-eq-ok, fail_if-eq-ok, ok_or-eq-ok, ok_injective, arith, Bool-cases, Option-cases, inl, inr,
}
use mathlib.Core.List.{append_assoc, append-nil}
use nix_seal.Prelude.Text.{Text, starts_with, text_ord}
use nix_seal.Prelude.Collections.{
  BTreeMap, map_get, map_keys, contains, set_insert, set_union, to_set, contains-to_set,
}
use nix_seal.Runtime.Error.{RuntimeError, template_syntax}
use nix_seal.Runtime.Names.{is_runtime_placeholder_name}
use nix_seal.Runtime.Spec.{TemplatePlaceholderSpecV1}
use nix_seal.Runtime.Template.Scan.{
  starts_with-append, find_text-append, Passed, nothing, Passed-append, find_text-Passed,
  find_text-none-Passed, over_braces, Spells, last, next,
}
use nix_seal.Runtime.Template.Unique.{Spells-unique}
use nix_seal.Runtime.Template.{
  TemplatePart, literal, placeholder, opening, closing, marker, marker_stem, Visited, find_text,
  read_name, visit_loop, misses, is_utf8, visit_template_source,
}

contains-set_union_nil :
    (names : List Text) (name : Text) → contains name (set_union [] names) ≡ contains name names
unfolding to_set
contains-set_union_nil names name = contains-to_set names name

double_not : (b : Bool) → not b ≡ false → b ≡ true
double_not true h = refl
double_not false h = absurd (cc)

module _ (placeholders : BTreeMap Text TemplatePlaceholderSpecV1) where
  module _ {S : Type 0} (visitor : S → TemplatePart → Result RuntimeError S) where
    pub read_name-eq-ok :
        (text name after : Text) (spec : TemplatePlaceholderSpecV1)
        → read_name visitor placeholders text ≡ ok (name, after, spec)
        → (text ≡ name ++ (closing ++ after))
          × (is_runtime_placeholder_name name ≡ true)
          × (map_get name placeholders ≡ some spec)
    unfolding read_name
    read_name-eq-ok text name after spec h =
        let ((n, from), found, h1) =
          >>=-eq-ok (ok_or (find_text closing text) template_syntax) _ h in
        let (good, h2) =
          >>-eq-ok (fail_if (not (is_runtime_placeholder_name n)) template_syntax) _ h1 in
        let (s, declared, h3) = >>=-eq-ok (ok_or (map_get n placeholders) template_syntax) _ h2 in
        let (split, starts) =
          find_text-append closing text
            (ok_or-eq-ok (find_text closing text) template_syntax found) in
        let named = fail_if-eq-ok (not (is_runtime_placeholder_name n)) template_syntax good in
        subst
          (λ (r : Text × Text × TemplatePlaceholderSpecV1).
            (text ≡ r.0 ++ (closing ++ r.1))
            × (is_runtime_placeholder_name r.0 ≡ true)
            × (map_get r.0 placeholders ≡ some r.2))
          (ok_injective h3)
          (
            split ∙ ap (λ (t : Text). n ++ t) (starts_with-append from closing starts),
            ground arith,
            ok_or-eq-ok (map_get n placeholders) template_syntax declared,
          )

    -- What a run of the loop has read, and done.
    pub record Reads (state : S) (used : List Text) (text : Text) (done : S) (out : List Text)
        : Type 0 where
      pub names : List Text
      pub parts : List TemplatePart
      pub spells : Spells placeholders text names parts
      pub visited : fold_each visitor state parts ≡ ok done
      pub collected : out ≡ set_union used names

    -- A literal and a placeholder before what else is read.
    Reads-next :
        (state written shown done : S) (used out : List Text) (kept name after : Text)
        (spec : TemplatePlaceholderSpecV1)
        → visitor state (literal kept) ≡ ok written
        → is_runtime_placeholder_name name ≡ true
        → map_get name placeholders ≡ some spec
        → Passed kept (marker ++ (name ++ (closing ++ after)))
        → visitor written (placeholder spec) ≡ ok shown
        → Reads shown (set_insert name used) ([] ++ after) done out
        → Reads state used (kept ++ (marker ++ (name ++ (closing ++ after)))) done out
    unfolding set_union
    Reads-next state written shown done used out kept name after spec wrote named declared passed
          showed r =
        record {
          names = name ∷ r.names;
          parts = literal kept ∷ placeholder spec ∷ r.parts;
          spells = next kept name after named declared passed r.spells;
          visited = rw (wrote, showed) r.visited;
          collected = r.collected;
        }

    -- The source where a marker has been found.
    marked :
        (kept rest before from name after : Text)
        → rest ≡ before ++ from
        → starts_with from marker ≡ true
        → drop 11 from ≡ name ++ (closing ++ after)
        → (kept ++ before) ++ (marker ++ (name ++ (closing ++ after))) ≡ kept ++ rest
    marked kept rest before from name after split starts tail =
        append_assoc kept before (marker ++ (name ++ (closing ++ after)))
        ∙ ap (λ (t : Text). kept ++ (before ++ (marker ++ t))) (sym tail)
        ∙ ap (λ (t : Text). kept ++ (before ++ t)) (sym (starts_with-append from marker starts))
        ∙ ap (λ (t : Text). kept ++ t) (sym split)

    -- The source where two braces have been passed over.
    passed_over :
        (kept rest before from : Text)
        → rest ≡ before ++ from
        → starts_with from opening ≡ true
        → (kept ++ (before ++ opening)) ++ drop 2 from ≡ kept ++ rest
    passed_over kept rest before from split starts =
        append_assoc kept (before ++ opening) (drop 2 from)
        ∙ ap (λ (t : Text). kept ++ t) (append_assoc before opening (drop 2 from))
        ∙ ap (λ (t : Text). kept ++ (before ++ t)) (sym (starts_with-append from opening starts))
        ∙ ap (λ (t : Text). kept ++ t) (sym split)

    pub visit_loop-Reads :
        (fuel : ℕ) (state : S) (used : List Text) (kept rest : Text) (done : S) (out : List Text)
        → Passed kept rest
        → visit_loop visitor placeholders fuel state used kept rest ≡ ok (done, out)
        → Reads state used (kept ++ rest) done out
    unfolding visit_loop set_union
    visit_loop-Reads zero state used kept rest done out passed h = absurd (cc)
    visit_loop-Reads (suc fuel) state used kept rest done out passed h =
        elim (Option-cases (find_text opening rest)) [
          | inl gone ↦
              let h1 = rw (visit_loop, gone) at h in
              let (end, written, h2) = >>=-eq-ok (visitor state (literal (kept ++ rest))) _ h1 in
              record {
                names = [];
                parts = literal (kept ++ rest) ∷ [];
                spells = last (kept ++ rest) (
                    Passed-append kept rest [] rest passed (sym (append-nil rest))
                      (find_text-none-Passed rest gone));
                visited = rw written (ap (λ (v : Visited S). ok v.0) (ok_injective h2));
                collected = sym (ap (λ (v : Visited S). v.1) (ok_injective h2));
              }
          | inr ((before, from), found) ↦
              let h1 = rw (visit_loop, found) at h in
              let (split, opens) = find_text-append opening rest found in
              let over = find_text-Passed rest found in
              elim (Bool-cases (starts_with from marker)) [
                | inl here ↦
                    let (written, wrote, h2) =
                      >>=-eq-ok (visitor state (literal (kept ++ before))) _ (rw here at h1) in
                    let ((name, after, spec), read, h3) =
                      >>=-eq-ok (read_name visitor placeholders (drop 11 from)) _ h2 in
                    let (shown, showed, h4) = >>=-eq-ok (visitor written (placeholder spec)) _ h3 in
                    let (tail, named, declared) =
                      read_name-eq-ok (drop 11 from) name after spec read in
                    subst (λ (text : Text). Reads state used text done out)
                      (marked kept rest before from name after split here tail)
                      (Reads-next state written shown done used out (kept ++ before) name after spec
                        wrote named declared
                        (subst (Passed (kept ++ before))
                          (starts_with-append from marker here
                            ∙ ap (λ (t : Text). marker ++ t) tail)
                          (Passed-append kept before from rest passed split over))
                        showed
                        (visit_loop-Reads fuel shown (set_insert name used) [] after done out
                          (nothing after) h4))
                | inr other ↦
                    let h2 = rw other at h1 in
                    elim (Bool-cases (starts_with from marker_stem)) [
                      | inl stem ↦ let bad = rw stem at h2 in absurd (cc)
                      | inr plain ↦
                          subst (λ (text : Text). Reads state used text done out)
                            (passed_over kept rest before from split opens)
                            (visit_loop-Reads fuel state used (kept ++ (before ++ opening))
                              (drop 2 from) done out
                              (over_braces kept rest before from passed split over opens plain)
                              (rw plain at h2))
                    ]
              ]
        ]

    -- A run of a visitor through a source, as the parts that the source is spelled by, and by no others.
    pub record IsVisited (state : S) (source : Text) (done : S) : Type 0 where
      pub names : List Text
      pub parts : List TemplatePart
      pub spells : Spells placeholders source names parts
      pub only :
          (other : List Text) (others : List TemplatePart)
          → Spells placeholders source other others
          → (other ≡ names) × (others ≡ parts)
      pub visited : fold_each visitor state parts ≡ ok done
      pub complete : All (λ name. contains name names ≡ true) (map_keys placeholders)

    -- A source that a visitor went through to the end is spelled by the parts that the visitor was given
    -- in order, and is spelled in no other way: the markers that a scan from left to right finds, each
    -- with a declared name, and the texts between them. Every declared name is in such a marker. The
    -- scan goes on behind two braces that no marker begins with, so that it does not find a marker whose
    -- first brace is the second of these two.
    pub visit_template_source-IsVisited :
        (state : S) (source : Text) (done : S)
        → visit_template_source visitor placeholders state source ≡ ok done
        → IsVisited state source done
    unfolding visit_template_source
    visit_template_source-IsVisited state source done h =
        let (valid, h1) = >>-eq-ok (fail_if (not (is_utf8 source)) template_syntax) _ h in
        let ((end, used), ran, h2) =
          >>=-eq-ok (visit_loop visitor placeholders (suc (length source)) state [] [] source) _
            h1 in
        let (all_used, h3) =
          >>-eq-ok (fail_if (misses visitor placeholders used) template_syntax) _ h2 in
        let none_missed =
          fail_if-eq-ok (misses visitor placeholders used) template_syntax all_used in
        let r =
          visit_loop-Reads (suc (length source)) state [] [] source end used (nothing source) ran in
        let none_unused : any (λ name. not (contains name used)) (map_keys placeholders) ≡ false =
          ground arith in
        subst (λ (s : S). IsVisited state source s) (ok_injective h3)
          (record {
            names = r.names;
            parts = r.parts;
            spells = r.spells;
            only = λ other others spelled.
                Spells-unique placeholders source source other r.names others r.parts spelled
                  r.spells refl;
            visited = r.visited;
            complete =
                All-map
                  (λ name u.
                    sym (contains-set_union_nil r.names name)
                    ∙ rw r.collected at (double_not (contains name used) u))
                  (map_keys placeholders)
                  (any-All (λ name. not (contains name used)) (map_keys placeholders) none_unused);
          })
