-- ===== src/Policy/Templates/Output.antt =====
-- The output identifier that `validate_templates` of crates/nix-seal-policy/src/lib.rs parses.
use nix_seal.Prelude.{◌≡◌, refl, ◌++◌, ok}
use nix_seal.Prelude.Text.{codes}
use nix_seal.Core.Id.{Identifier, IsId, parse}
use nix_seal.Core.Id.Paths.{parse-slash}
use nix_seal.Policy.Templates.{output_id}

IsId-templates : IsId (codes "templates")
unfolding parse
IsId-templates = refl

-- The output identifier of a template with a valid identifier is always valid.
pub output_id-returns : (id : Identifier) → IsId id → output_id id ≡ ok (codes "templates/" ++ id)
unfolding output_id
output_id-returns id h = rw (parse-slash (codes "templates") id IsId-templates h) refl
