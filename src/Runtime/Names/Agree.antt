-- ===== src/Runtime/Names/Agree.antt =====
-- The checks of crates/nix-seal-runtime/src/lib.rs on modes and placeholders against those of
-- crates/nix-seal-policy/src/lib.rs.
use nix_seal.Prelude.{
  ℕ, ◌*◌, ◌/◌, ◌%◌, ◌≤◌, ◌≡◌, refl, sym, subst, Bool, true, not, ◌||◌, ◌&&◌, Option, some, none,
  length, ltb, ◌==◌, is_err, arith, ok, ◌>>=◌, ◌>>◌, fail_if, ok_or, Bool-ext,
}
use nix_seal.Prelude.Text.{Text, codes, starts_with}
use nix_seal.Prelude.Numbers.{from_str_radix}
use nix_seal.Policy.Chars.{is_owner_only, is_private_runtime_mode, is_placeholder_name}
use nix_seal.Policy.Chars.Mode.{owner_only-multiple, multiple-owner_only}
use nix_seal.Runtime.Error.{invalid_spec}
use nix_seal.Runtime.Names.{validate_mode, parse_mode, is_runtime_placeholder_name}

abbrev is_allowed : ℕ → Bool
is_allowed mode = not (mode == 0 || ltb 0o700 mode || not (mode % 64 == 0))

is_owner_only-is_allowed : (mode : ℕ) → is_owner_only (some mode) ≡ is_allowed mode
is_owner_only-is_allowed mode =
    Bool-ext (is_owner_only (some mode)) (is_allowed mode)
      (λ h. let (small, multiple, positive) = owner_only-multiple mode h in ground arith)
      (λ h.
        let small : mode ≤ 448 = ground arith in
        let whole : mode ≡ mode / 64 * 64 = ground arith in
        subst (λ m. is_owner_only (some m) ≡ true) (sym whole)
          (multiple-owner_only (mode / 64) (ground arith) (omega (arith, small))))

parsed :
    (value : Text) (mode : Option ℕ)
    → is_err (
        fail_if (not (length value == 4) || not (starts_with value (codes "0"))) invalid_spec
        >> (ok_or mode invalid_spec >>= λ m. validate_mode m >> ok m))
      ≡ not (length value == 4 && starts_with value (codes "0") && is_owner_only mode)
unfolding validate_mode
parsed value none = unfold is_owner_only in ground arith
parsed value (some m) = rw (is_owner_only-is_allowed m) (ground arith)

-- A mode is refused at activation exactly where the validation of the plan refuses it, and so is the
-- name of a placeholder: what a plan may declare, a host can activate.
pub parse_mode-is_private_runtime_mode :
    (value : Text)
    → (is_err (parse_mode value) ≡ not (is_private_runtime_mode value))
      × (is_runtime_placeholder_name value ≡ is_placeholder_name value)
unfolding parse_mode is_private_runtime_mode is_runtime_placeholder_name is_placeholder_name
parse_mode-is_private_runtime_mode value = (parsed value (from_str_radix value 8), refl)
