-- ===== src/Runtime/Template/Output.antt =====
-- crates/nix-seal-runtime/src/lib.rs, `render_template_into`: what a rendered template is.
use nix_seal.Prelude.{
  ◌-◌, ◌≤◌, ◌≡◌, sym, ap, ◌∙◌, subst, ltb, List, [], ◌∷◌, ◌++◌, length, length-append, Result, ok,
  ◌>>=◌, fail_if, fold_each, >>=-eq-ok, >>-eq-ok, fail_if-eq-ok, ok_injective, arith,
}
use mathlib.Core.List.{append_assoc, append-nil}
use nix_seal.Prelude.Text.{Text}
use nix_seal.Prelude.Collections.{BTreeMap}
use nix_seal.Runtime.Error.{RuntimeError, limit}
use nix_seal.Runtime.Spec.{TemplatePlaceholderSpecV1}
use nix_seal.Runtime.Template.{
  TemplatePart, literal, placeholder, max_template_output_bytes, template_write_all, render_part,
  render_template_into, visit_template_source,
}
use nix_seal.Runtime.Template.Scan.{Spells}
use nix_seal.Runtime.Template.Spells.{visit_template_source-IsVisited}

abbrev pub concat : List Text → Text
concat [] = []
concat (t ∷ ts) = t ++ concat ts

-- What was written before, and after, a text of its own has been written within the limit.
abbrev pub Wrote : Text → Text → Text → Type 0
Wrote before bytes after =
    (after ≡ before ++ bytes)
    × (length before ≤ max_template_output_bytes → length after ≤ max_template_output_bytes)

pub template_write_all-Wrote :
    (before bytes after : Text)
    → template_write_all before bytes ≡ ok after
    → Wrote before bytes after
unfolding template_write_all
template_write_all-Wrote before bytes after h =
    let (room, h1) =
      >>-eq-ok (fail_if (ltb (max_template_output_bytes - length before) (length bytes)) limit) _
        h in
    let enough =
      fail_if-eq-ok (ltb (max_template_output_bytes - length before) (length bytes)) limit room in
    let same = ok_injective h1 in
    (sym same, λ small. ground (arith, ap length same, length-append before bytes))

Wrote-append :
    (before bytes middle more after : Text)
    → Wrote before bytes middle
    → Wrote middle more after
    → Wrote before (bytes ++ more) after
Wrote-append before bytes middle more after (same, keeps) (then_same, then_keeps) = (
  then_same ∙ ap (λ (t : Text). t ++ more) same ∙ append_assoc before bytes more,
  λ small. then_keeps (keeps small),
)

Wrote-nothing : (before after : Text) → before ≡ after → Wrote before [] after
Wrote-nothing before after same =
    (sym same ∙ sym (append-nil before), λ small. omega (arith, ap length same, small))

write_pieces-Wrote :
    (pieces : List Text) (before after : Text)
    → fold_each template_write_all before pieces ≡ ok after
    → Wrote before (concat pieces) after
write_pieces-Wrote [] before after h = Wrote-nothing before after (ok_injective h)
write_pieces-Wrote (t ∷ ts) before after h =
    let (middle, now, later) =
      >>=-eq-ok (template_write_all before t) (λ u. fold_each template_write_all u ts) h in
    Wrote-append before t middle (concat ts) after (template_write_all-Wrote before t middle now)
      (write_pieces-Wrote ts middle after later)

module _ (pieces : TemplatePlaceholderSpecV1 → Result RuntimeError (List Text)) where
  -- The parts of a template stand for a text: a literal for itself, a placeholder for its pieces.
  pub data StandsFor : List TemplatePart → Text → Type 0 where
    no_part : StandsFor [] []
    text :
        (bytes : Text) {parts : List TemplatePart} {more : Text}
        → StandsFor parts more
        → StandsFor (literal bytes ∷ parts) (bytes ++ more)
    value :
        (spec : TemplatePlaceholderSpecV1) (written : List Text) {parts : List TemplatePart}
        {more : Text}
        → pieces spec ≡ ok written
        → StandsFor parts more
        → StandsFor (placeholder spec ∷ parts) (concat written ++ more)

  -- What a fold over the parts has written.
  record Renders (parts : List TemplatePart) (before after : Text) : Type 0 where
    bytes : Text
    meant : StandsFor parts bytes
    wrote : Wrote before bytes after

  -- A rendered template: the source is spelled by parts, and by no others, that stand for the output.
  pub record IsRendered (source : Text) (placeholders : BTreeMap Text TemplatePlaceholderSpecV1)
      (output : Text) : Type 0 where
    pub names : List Text
    pub parts : List TemplatePart
    pub spells : Spells placeholders source names parts
    pub only :
        (other : List Text) (others : List TemplatePart)
        → Spells placeholders source other others
        → (other ≡ names) × (others ≡ parts)
    pub meant : StandsFor parts output
    pub bounded : length output ≤ max_template_output_bytes

  module _ (flush : Text → Result RuntimeError (Unit {0})) where
    fold-Renders :
        (parts : List TemplatePart) (before after : Text)
        → fold_each (render_part pieces) before parts ≡ ok after
        → Renders parts before after
    unfolding render_part
    fold-Renders [] before after h = record {
      bytes = [];
      meant = no_part;
      wrote = Wrote-nothing before after (ok_injective h);
    }
    fold-Renders (literal bytes ∷ parts) before after h =
        let (middle, now, later) =
          >>=-eq-ok (template_write_all before bytes) (λ u. fold_each (render_part pieces) u parts)
            h in
        let r = fold-Renders parts middle after later in
        record {
          bytes = bytes ++ r.bytes;
          meant = text bytes r.meant;
          wrote =
              Wrote-append before bytes middle r.bytes after
                (template_write_all-Wrote before bytes middle now) r.wrote;
        }
    fold-Renders (placeholder spec ∷ parts) before after h =
        let (middle, now, later) =
          >>=-eq-ok (pieces spec >>= λ ts. fold_each template_write_all before ts)
            (λ u. fold_each (render_part pieces) u parts) h in
        let (written, found, wrote) =
          >>=-eq-ok (pieces spec) (λ ts. fold_each template_write_all before ts) now in
        let r = fold-Renders parts middle after later in
        record {
          bytes = concat written ++ r.bytes;
          meant = value spec written found r.meant;
          wrote =
              Wrote-append before (concat written) middle r.bytes after
                (write_pieces-Wrote written before middle wrote) r.wrote;
        }

    -- A template that is rendered is its source with every marker that a scan from left to right finds
    -- replaced by all the pieces of the placeholder that it names, which is declared, and nothing else
    -- changed, and has no more than 128 MiB. The scan takes two braces that no marker begins with as
    -- they are, and goes on behind both, so that it does not find a marker whose first brace is the
    -- second of these two.
    pub render_template_into-IsRendered :
        (source : Text) (placeholders : BTreeMap Text TemplatePlaceholderSpecV1) (output : Text)
        → render_template_into pieces flush source placeholders ≡ ok output
        → IsRendered source placeholders output
    unfolding render_template_into
    render_template_into-IsRendered source placeholders output h =
        let (written, ran, h1) =
          >>=-eq-ok (visit_template_source (render_part pieces) placeholders [] source) _ h in
        let (flushed, h2) = >>-eq-ok (flush written) _ h1 in
        let v =
          visit_template_source-IsVisited placeholders (render_part pieces) [] source output
            (ran ∙ h2) in
        let r = fold-Renders v.parts [] output v.visited in
        record {
          names = v.names;
          parts = v.parts;
          spells = v.spells;
          only = v.only;
          meant = subst (StandsFor v.parts) (sym r.wrote.0) r.meant;
          bounded = r.wrote.1 (omega arith);
        }
