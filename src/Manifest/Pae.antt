-- ===== src/Manifest/Pae.antt =====
-- crates/nix-seal-manifest/src/lib.rs, `pae`: the bytes that a signature is over.
pub mod Injective
use nix_seal.Prelude.{
  ℕ, zero, suc, ◌+◌, ◌/◌, ◌%◌, Bool, true, false, Option, some, none, List, [], ◌∷◌, ◌++◌, length,
  ltb, Result, ok, ◌>>=◌, ok_or, if◌then◌else◌,
}
use nix_seal.Prelude.Text.{Text, codes}
use nix_seal.Prelude.Numbers.{checked_add}
use nix_seal.Keys.Approval.{ManifestError, limit}

-- `n.to_string()`: the digits of a number, with one unit of fuel for each digit at least.
unfoldable pub digits : ℕ → ℕ → Text
digits zero n = []
digits (suc fuel) n =
    let rest = digits fuel (n / 10) in
    if ltb n 10 then (b'0' + n) ∷ [] else rest ++ (b'0' + n % 10) ∷ []

unfoldable pub to_string : ℕ → Text
unfolding digits
to_string n = digits (suc n) n

-- The sum that is the capacity of the buffer, with its checks for overflow.
unfoldable pub capacity : Text → Text → Option ℕ
unfolding to_string checked_add
capacity payload_type payload = elim (checked_add 10 (length (to_string (length payload_type)))) [
  | none ↦ none
  | some a ↦ elim (checked_add a (length payload_type)) [
    | none ↦ none
    | some b ↦ elim (checked_add b (length (to_string (length payload)))) [
      | none ↦ none
      | some c ↦ checked_add c (length payload)
    ]
  ]
]

-- The bytes that are appended to the empty buffer.
abbrev pub encoding : Text → Text → Text
encoding payload_type payload =
    codes "DSSEv1 "
    ++ (to_string (length payload_type)
        ++ (b' ' ∷ (payload_type ++ (b' ' ∷ (to_string (length payload) ++ (b' ' ∷ payload))))))

unfoldable pub pae : Text → Text → Result ManifestError Text
unfolding capacity to_string
pae payload_type payload = do
  _ ← ok_or (capacity payload_type payload) limit
  ok (encoding payload_type payload)
