-- ===== src/Tests/Runtime/Streams.antt =====
-- The theorems on the copies of secrets, with an encoding that has the lengths of base64.
use nix_seal.Prelude.{
  ℕ, ◌+◌, ◌*◌, ◌/◌, ◌%◌, ◌≡◌, refl, ap, List, [], ◌∷◌, ◌++◌, length, arith, ok, some,
}
use nix_seal.Prelude.Text.{Text, codes}
use nix_seal.Prelude.Collections.{BTreeMap, HasEntry}
use nix_seal.Runtime.Template.{template_write_all}
use nix_seal.Runtime.Streams.{Read, bytes, interrupted, copy_base64, hex, copy_hex}
use nix_seal.Runtime.Streams.Whole.{content, Base64Laws, copy_hex-content, copy_base64-content}
use nix_seal.Runtime.Generations.{
  Entry, directory, symlink, prefix, generation_name, parse_u64_from,
}
use nix_seal.Runtime.Generations.Fresh.{next_generation_fresh}
use nix_seal.Prelude.{◌<◌}
use nix_seal.Prelude.Text.{strip_prefix}
use nix_seal.Tests.Run.{run}
use nix_seal.Tests.Manifest.Run.{sign_run}
use nix_seal.Tests.Runtime.Run.{host_run}

-- Groups of three bytes and one more.
unfoldable encode : Text → Text
encode [] = []
encode (a ∷ []) = a ∷ b'=' ∷ b'=' ∷ b'=' ∷ []
encode (a ∷ b ∷ []) = a ∷ b ∷ b'=' ∷ b'=' ∷ []
encode (a ∷ b ∷ c ∷ s) = a ∷ b ∷ c ∷ b'=' ∷ encode s

encode-append : (s t : Text) → length s % 3 ≡ 0 → encode (s ++ t) ≡ encode s ++ encode t
unfolding encode
encode-append [] t h = refl
encode-append (a ∷ []) t h = absurd (omega (arith, h))
encode-append (a ∷ b ∷ []) t h = absurd (omega (arith, h))
encode-append (a ∷ b ∷ c ∷ s) t h =
    ap (λ (r : Text). a ∷ b ∷ c ∷ b'=' ∷ r) (encode-append s t (omega (arith, h)))

length-encode : (s : Text) → length (encode s) ≡ 4 * ((length s + 2) / 3)
unfolding encode
length-encode [] = refl
length-encode (a ∷ []) = refl
length-encode (a ∷ b ∷ []) = refl
length-encode (a ∷ b ∷ c ∷ s) = omega (arith, length-encode s)

laws : Base64Laws encode
laws = record { by_groups = encode-append; size = length-encode }

abbrev reads : List Read
reads = bytes (codes "se") ∷ interrupted ∷ bytes (codes "cret") ∷ bytes [] ∷ []

copy_hex-content_example :
    copy_hex (codes "pw=") reads ≡ template_write_all (codes "pw=") (hex (content reads))
copy_hex-content_example =
    copy_hex-content (codes "pw=") reads (omega arith)
      (omega arith, (tt, (omega arith, (omega arith, tt))))

copy_base64-content_example :
    copy_base64 encode (codes "pw=") reads
    ≡ template_write_all (codes "pw=") (encode (content reads))
copy_base64-content_example =
    copy_base64-content encode laws (codes "pw=") reads (omega arith)
      (omega arith, (omega arith, tt))

copy_base64_runs : copy_base64 encode (codes "pw=") reads ≡ ok (codes "pw=sec=ret=")
unfolding run host_run encode
copy_base64_runs = refl

abbrev root : BTreeMap Text Entry
root =
    (codes "current", symlink (codes "generation-9"))
    ∷ (codes "generation-10", directory)
    ∷ (codes "generation-9", directory)
    ∷ []

next_generation_fresh_example :
    ((name : Text) (entry : Entry) (suffix : Text) (value : ℕ)
      → HasEntry name entry root
      → strip_prefix name prefix ≡ some suffix
      → parse_u64_from 0 suffix ≡ some value
      → value < 11)
    × ((entry : Entry) → HasEntry (generation_name 11) entry root → ⊥)
unfolding run sign_run host_run
next_generation_fresh_example = next_generation_fresh root 11 refl
