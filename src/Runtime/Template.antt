-- ===== src/Runtime/Template.antt =====
-- crates/nix-seal-runtime/src/lib.rs: the templates of an activation, their validation and rendering.
-- The offsets into a source stand for the text behind them; they are within it and do not overflow.
pub mod Scan
pub mod Unique
pub mod Spells
pub mod Fuel
pub mod Output
use nix_seal.Prelude.{
  ℕ, zero, suc, ◌-◌, ◌*◌, Bool, true, false, not, ◌||◌, ◌&&◌, Option, some, none, List, [], ◌∷◌,
  ◌++◌, length, any, drop, ltb, leb, ◌==◌, Result, ok, err, ◌>>=◌, ◌>>◌, fail_if, ok_or, fold_each,
  if◌then◌else◌,
}
use nix_seal.Prelude.Text.{Text, codes, starts_with, text_ord}
use nix_seal.Prelude.Collections.{BTreeMap, map_get, map_keys, contains, set_insert}
use nix_seal.Runtime.Error.{RuntimeError, limit, template_syntax, out_of_fuel}
use nix_seal.Runtime.Names.{is_runtime_placeholder_name}
use nix_seal.Runtime.Spec.{TemplatePlaceholderSpecV1}

abbrev pub max_template_output_bytes : ℕ
max_template_output_bytes = 128 * 1024 * 1024

-- `std::str::from_utf8(bytes).is_ok()`: the ranges of the bytes that must follow a first one.
abbrev pub continuation : ℕ × ℕ
continuation = (0x80, 0xbf)

abbrev pub followers : ℕ → Option (List (ℕ × ℕ))
followers c =
    if ltb c 0x80
    then some []
    else if leb 0xc2 c && leb c 0xdf
    then some (continuation ∷ [])
    else if c == 0xe0
    then some ((0xa0, 0xbf) ∷ continuation ∷ [])
    else if c == 0xed
    then some ((0x80, 0x9f) ∷ continuation ∷ [])
    else if leb 0xe1 c && leb c 0xef
    then some (continuation ∷ continuation ∷ [])
    else if c == 0xf0
    then some ((0x90, 0xbf) ∷ continuation ∷ continuation ∷ [])
    else if leb 0xf1 c && leb c 0xf3
    then some (continuation ∷ continuation ∷ continuation ∷ [])
    else if c == 0xf4
    then some ((0x80, 0x8f) ∷ continuation ∷ continuation ∷ [])
    else none

unfoldable pub is_utf8_from : List (ℕ × ℕ) → Text → Bool
is_utf8_from [] [] = true
is_utf8_from (range ∷ ranges) [] = false
is_utf8_from [] (c ∷ s) = elim (followers c) [ none ↦ false | some ranges ↦ is_utf8_from ranges s ]
is_utf8_from ((low, high) ∷ ranges) (c ∷ s) = leb low c && leb c high && is_utf8_from ranges s

unfoldable pub is_utf8 : Text → Bool
unfolding is_utf8_from
is_utf8 source = is_utf8_from [] source

-- `text.find(pattern)` for a pattern that is not empty: the text before its first place, and the
-- text from there.
unfoldable pub find_text : Text → Text → Option (Text × Text)
unfolding starts_with
find_text pattern [] = none
find_text pattern (c ∷ s) =
    let rest = find_text pattern s in
    if starts_with (c ∷ s) pattern
    then some ([], c ∷ s)
    else elim rest [ none ↦ none | some (before, from) ↦ some (c ∷ before, from) ]

pub data TemplatePart : Type 0 where
  literal : Text → TemplatePart
  placeholder : TemplatePlaceholderSpecV1 → TemplatePart

abbrev pub opening : Text
opening = codes "{{"

abbrev pub closing : Text
closing = codes "}}"

abbrev pub marker : Text
marker = codes "{{nix-seal:"

abbrev pub marker_stem : Text
marker_stem = codes "{{nix-seal"

-- What `used` of the source is at the end, with the state of the visitor.
abbrev pub Visited : Type 0 → Type 0
Visited S = S × List Text

module _ {S : Type 0} (visitor : S → TemplatePart → Result RuntimeError S)
    (placeholders : BTreeMap Text TemplatePlaceholderSpecV1) where
  -- The name behind a marker, and the text behind its end.
  unfoldable pub read_name : Text → Result RuntimeError (Text × Text × TemplatePlaceholderSpecV1)
  unfolding find_text
  read_name text = do
    (name, from) ← ok_or (find_text closing text) template_syntax
    fail_if (not (is_runtime_placeholder_name name)) template_syntax
    spec ← ok_or (map_get name placeholders) template_syntax
    ok (name, drop 2 from, spec)

  -- `kept` is the source from `literal_start` to `search_start`, `rest` that from `search_start`.
  unfoldable pub visit_loop : ℕ → S → List Text → Text → Text → Result RuntimeError (Visited S)
  unfolding find_text read_name starts_with
  visit_loop zero state used kept rest = err out_of_fuel
  visit_loop (suc fuel) state used kept rest = elim (find_text opening rest) [
    | none ↦ do done ← visitor state (literal (kept ++ rest)); ok (done, used)
    | some (before, from) ↦ elim (starts_with from marker) [
      | true ↦ visitor state (literal (kept ++ before)) >>= λ written.
          read_name (drop 11 from) >>= λ (name, after, spec).
          visitor written (placeholder spec) >>= λ shown.
          visit_loop fuel shown (set_insert name used) [] after
      | false ↦ elim (starts_with from marker_stem) [
        | true ↦ err template_syntax
        | false ↦ visit_loop fuel state used (kept ++ (before ++ opening)) (drop 2 from)
      ]
    ]
  ]

  abbrev pub misses : List Text → Bool
  misses used =
      not (length used == length placeholders)
      || any (λ name. not (contains name used)) (map_keys placeholders)

  unfoldable pub visit_template_source : S → Text → Result RuntimeError S
  unfolding is_utf8 visit_loop
  visit_template_source state source = do
    fail_if (not (is_utf8 source)) template_syntax
    (done, used) ← visit_loop (suc (length source)) state [] [] source
    fail_if (misses used) template_syntax
    ok done

unfoldable pub validate_template_source :
    Text → BTreeMap Text TemplatePlaceholderSpecV1 → Result RuntimeError (Unit {0})
unfolding visit_template_source
validate_template_source source placeholders =
    visit_template_source (λ state part. ok tt) placeholders tt source

-- `LimitedWriter` and `template_write_all`: the state is what has been written. The writer below it
-- takes every byte; where it fails the error is that of the operating system.
unfoldable pub template_write_all : Text → Text → Result RuntimeError Text
template_write_all written bytes = do
  fail_if (ltb (max_template_output_bytes - length written) (length bytes)) limit
  ok (written ++ bytes)

-- What the callback writes for a placeholder, piece by piece, or its error.
module _ (pieces : TemplatePlaceholderSpecV1 → Result RuntimeError (List Text)) where
  unfoldable pub render_part : Text → TemplatePart → Result RuntimeError Text
  unfolding template_write_all
  render_part written (literal bytes) = template_write_all written bytes
  render_part written (placeholder spec) = do
    parts ← pieces spec
    fold_each template_write_all written parts

  -- What the flush of the writer below answers when it has been given all of the text.
  module _ (flush : Text → Result RuntimeError (Unit {0})) where
    unfoldable pub render_template_into :
        Text → BTreeMap Text TemplatePlaceholderSpecV1 → Result RuntimeError Text
    unfolding visit_template_source render_part
    render_template_into source placeholders = do
      written ← visit_template_source render_part placeholders [] source
      flush written
      ok written
