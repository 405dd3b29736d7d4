-- ===== src/Runtime/Template/Fuel.antt =====
-- crates/nix-seal-runtime/src/lib.rs, the loop of `visit_template_source`: it ends.
use nix_seal.Prelude.{
  ℕ, zero, suc, ◌+◌, ◌≤◌, ◌<◌, ◌≡◌, ◌≢◌, refl, ap, Bool, true, false, not, Option, none, some, List,
  [], ◌++◌, length, length-append, drop, Result, ok, err, fail_if, ok_or, ◌>>=◌, ◌>>◌, arith,
  Bool-cases, Option-cases, inl, inr,
}
use nix_seal.Prelude.Text.{Text, starts_with, text_ord}
use nix_seal.Prelude.Collections.{BTreeMap, map_get, set_insert}
use nix_seal.Runtime.Error.{RuntimeError, out_of_fuel, template_syntax}
use nix_seal.Runtime.Names.{is_runtime_placeholder_name}
use nix_seal.Runtime.Spec.{TemplatePlaceholderSpecV1}
use nix_seal.Runtime.Template.{
  TemplatePart, literal, placeholder, opening, closing, marker, marker_stem, find_text, read_name,
  visit_loop, is_utf8, misses, visit_template_source,
}
use nix_seal.Runtime.Template.Scan.{starts_with-append, find_text-append}
use nix_seal.Runtime.Template.Spells.{read_name-eq-ok}

-- What is behind two braces is shorter than the text that they were found in.
drop_two-shorter :
    (rest before from : Text)
    → rest ≡ before ++ from
    → starts_with from opening ≡ true
    → 2 + length (drop 2 from) ≤ length rest
drop_two-shorter rest before from split starts = omega (
  arith,
  ap length split,
  length-append before from,
  ap length (starts_with-append from opening starts),
  length-append opening (drop 2 from),
)

after-shorter :
    (rest before from name after : Text)
    → rest ≡ before ++ from
    → starts_with from marker ≡ true
    → drop 11 from ≡ name ++ (closing ++ after)
    → 2 + length after ≤ length rest
after-shorter rest before from name after split starts tail = omega (
  arith,
  ap length split,
  length-append before from,
  ap length (starts_with-append from marker starts),
  length-append marker (drop 11 from),
  ap length tail,
  length-append name (closing ++ after),
  length-append closing after,
)

-- A result that is not for want of fuel.
abbrev pub Ends : {A : Type 0} → Result RuntimeError A → Type 0
Ends m = m ≢ err out_of_fuel

>>=-Ends :
    {A B : Type 0} (m : Result RuntimeError A) (f : A → Result RuntimeError B)
    → Ends m
    → ((a : A) → m ≡ ok a → Ends (f a))
    → Ends (m >>= f)
>>=-Ends (err e) f first next =
    λ same. let fuel : e ≡ out_of_fuel = cc in first (ap (λ (x : RuntimeError). err x) fuel)
>>=-Ends (ok a) f first next = next a refl

syntax-Ends : {A : Type 0} → Ends {A = A} (err template_syntax)
syntax-Ends same = absurd (cc)

guard-Ends :
    {B : Type 0} (b : Bool) (next : Result RuntimeError B)
    → Ends next
    → Ends (fail_if b template_syntax >> next)
guard-Ends true next ends = syntax-Ends
guard-Ends false next ends = ends

ok-Ends : {A : Type 0} (a : A) → Ends (ok a)
ok-Ends a same = absurd (cc)

ok_or-Ends : {A : Type 0} (o : Option A) → Ends (ok_or o template_syntax)
ok_or-Ends none = syntax-Ends
ok_or-Ends (some a) = ok-Ends a

module _ {S : Type 0} (visitor : S → TemplatePart → Result RuntimeError S)
    (placeholders : BTreeMap Text TemplatePlaceholderSpecV1) where
  read_name-Ends : (text : Text) → Ends (read_name visitor placeholders text)
  unfolding read_name
  read_name-Ends text =
      >>=-Ends (ok_or (find_text closing text) template_syntax) _
        (ok_or-Ends (find_text closing text))
        (λ (name, from) found. guard-Ends (not (is_runtime_placeholder_name name)) _ (
          >>=-Ends (ok_or (map_get name placeholders) template_syntax) _
            (ok_or-Ends (map_get name placeholders)) (λ spec declared. ok-Ends _)))

  module _ (honest : (state : S) (part : TemplatePart) → Ends (visitor state part)) where
    visit_loop-Ends :
        (fuel : ℕ) (state : S) (used : List Text) (kept rest : Text)
        → length rest < fuel
        → Ends (visit_loop visitor placeholders fuel state used kept rest)
    unfolding visit_loop
    visit_loop-Ends zero state used kept rest h = absurd (omega (arith, h))
    visit_loop-Ends (suc fuel) state used kept rest h =
        elim (Option-cases (find_text opening rest)) [
          | inl gone ↦
              rw (visit_loop, gone)
                (>>=-Ends (visitor state (literal (kept ++ rest))) _ (honest state _)
                  (λ done wrote. ok-Ends (done, used)))
          | inr ((before, from), found) ↦
              let (split, opens) = find_text-append opening rest found in
              elim (Bool-cases (starts_with from marker)) [
                | inl here ↦
                    rw (visit_loop, found, here)
                      (>>=-Ends (visitor state (literal (kept ++ before))) _ (honest state _)
                        (λ written wrote.
                          >>=-Ends (read_name visitor placeholders (drop 11 from)) _
                            (read_name-Ends (drop 11 from))
                            (λ (name, after, spec) read.
                              >>=-Ends (visitor written (placeholder spec)) _ (honest written _)
                                (λ shown showed.
                                  let (tail, _, _) =
                                    read_name-eq-ok placeholders visitor (drop 11 from) name after
                                      spec read in
                                  visit_loop-Ends fuel shown (set_insert name used) [] after (
                                    omega (
                                      arith,
                                      after-shorter rest before from name after split here tail,
                                      h,
                                    ))))))
                | inr other ↦ elim (Bool-cases (starts_with from marker_stem)) [
                  | inl stem ↦ rw (visit_loop, found, other, stem) syntax-Ends
                  | inr plain ↦
                      rw (visit_loop, found, other, plain)
                        (visit_loop-Ends fuel state used (kept ++ (before ++ opening)) (drop 2 from)
                          (omega (arith, drop_two-shorter rest before from split opens, h)))
                ]
              ]
        ]

    -- A visit ends on every source, whatever is declared: with a visitor that does so itself it answers
    -- with a state or with an error of the code, never for want of fuel.
    pub visit_template_source-ends :
        (state : S) (source : Text)
        → visit_template_source visitor placeholders state source ≢ err out_of_fuel
    unfolding visit_template_source
    visit_template_source-ends state source = guard-Ends (not (is_utf8 source)) _ (
        >>=-Ends (visit_loop visitor placeholders (suc (length source)) state [] [] source) _
          (visit_loop-Ends (suc (length source)) state [] [] source (omega arith))
          (λ (done, used) ran.
            guard-Ends (misses visitor placeholders used) (ok done) (ok-Ends done)))
