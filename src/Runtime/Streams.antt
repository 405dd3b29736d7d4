-- ===== src/Runtime/Streams.antt =====
-- crates/nix-seal-runtime/src/lib.rs: a secret is turned into the text of a template piece by piece.
pub mod Whole
use nix_seal.Prelude.{
  ℕ, ◌+◌, ◌*◌, ◌-◌, ◌/◌, ◌%◌, Bool, true, false, List, [], ◌∷◌, ◌++◌, length, take, drop, is_empty,
  ltb, ◌==◌, Result, ok, err, ◌>>=◌, ◌>>◌, fail_if, if◌then◌else◌,
}
use nix_seal.Prelude.Text.{Text}
use nix_seal.Runtime.Error.{RuntimeError, io, limit}
use nix_seal.Runtime.Template.{template_write_all}

-- What one call of `read` gives: some bytes, or none at the end, or an interruption, after which it is
-- called again, or an error. Where there are no more of these, the reader is at its end too.
pub data Read : Type 0 where
  bytes : Text → Read
  interrupted failed : Read

abbrev pub encoded_size : ℕ
encoded_size = 11 * 1024

-- `total / 3 * 3`.
abbrev pub whole_groups : Text → ℕ
whole_groups text = length text / 3 * 3

module _ (base64_encode : Text → Text) where
  -- `encode_slice` into the buffer, and the writing of what it gave; no bytes are not encoded.
  unfoldable pub write_groups : Text → Text → Result RuntimeError Text
  write_groups written text = elim (is_empty text) [
    | true ↦ ok written
    | false ↦ do
      fail_if (ltb encoded_size (length (base64_encode text))) limit
      template_write_all written (base64_encode text)
  ]

  unfoldable pub base64_loop : Text → Text → List Read → Result RuntimeError Text
  unfolding write_groups
  base64_loop written carried [] = write_groups written carried
  base64_loop written carried (interrupted ∷ reads) = base64_loop written carried reads
  base64_loop written carried (failed ∷ reads) = err io
  base64_loop written carried (bytes [] ∷ reads) = write_groups written carried
  base64_loop written carried (bytes (c ∷ s) ∷ reads) =
      write_groups written (take (whole_groups (carried ++ c ∷ s)) (carried ++ c ∷ s)) >>= λ next.
      base64_loop next (drop (whole_groups (carried ++ c ∷ s)) (carried ++ c ∷ s)) reads

  unfoldable pub copy_base64 : Text → List Read → Result RuntimeError Text
  unfolding base64_loop
  copy_base64 written reads = base64_loop written [] reads

abbrev pub hex_digit : ℕ → ℕ
hex_digit n = if ltb n 10 then b'0' + n else b'a' + (n - 10)

unfoldable pub hex : Text → Text
hex [] = []
hex (c ∷ s) = hex_digit (c / 16) ∷ hex_digit (c % 16) ∷ hex s

unfoldable pub copy_hex : Text → List Read → Result RuntimeError Text
unfolding hex
copy_hex written [] = ok written
copy_hex written (interrupted ∷ reads) = copy_hex written reads
copy_hex written (failed ∷ reads) = err io
copy_hex written (bytes [] ∷ reads) = ok written
copy_hex written (bytes (c ∷ s) ∷ reads) =
    template_write_all written (hex (c ∷ s)) >>= λ next. copy_hex next reads
