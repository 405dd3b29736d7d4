-- ===== src/Policy/Generators/Execution.antt =====
-- crates/nix-seal-policy/src/lib.rs: `validate_generator_execution` and the parameters of the
-- password-hash generator.
use nix_seal.Prelude.{
  ℕ, ◌*◌, ◌==◌, ltb, leb, Bool, true, false, ◌||◌, ◌&&◌, not, Option, none, some, List, [], ◌∷◌,
  length, is_empty, any, Result, ok, ◌>>=◌, ◌>>◌, fail_if, ok_or, if◌then◌else◌,
}
use nix_seal.Prelude.Text.{Text, codes, text_eq, text_ord, is_ascii_control}
use nix_seal.Prelude.Numbers.{from_str_radix}
use nix_seal.Prelude.Collections.{map_get, map_keys}
use nix_seal.Core.Id.{Identifier}
use nix_seal.Core.Plan.{
  Generator, GeneratorPrompt, GeneratorPromptMode, hidden, visible,
  default_generator_timeout_seconds, default_generator_max_output_bytes,
}
use nix_seal.Policy.Error.{
  PolicyError, Checked, violation, generator_executable, generator_store_path, generator_settings,
  argon2id_shape, argon2id_bounds, argon2id_integer, builtin_secret_dependencies,
  builtin_public_outputs, builtin_output_count,
}
use nix_seal.Policy.Chars.{valid_store_executable}

-- `matches!(text, "a" | "b")`.
unfoldable pub is_one_of : List Text → Text → Bool
is_one_of [] value = false
is_one_of (t ∷ ts) value = text_eq value t || is_one_of ts value

abbrev pub builtins : List Text
builtins =
    codes "builtin:random"
    ∷ codes "builtin:hex"
    ∷ codes "builtin:base64"
    ∷ codes "builtin:token"
    ∷ codes "builtin:passphrase"
    ∷ codes "builtin:argon2id-password-hash"
    ∷ codes "builtin:ssh-ed25519"
    ∷ codes "builtin:wireguard-private-key"
    ∷ codes "builtin:uuid"
    ∷ []

abbrev pub key_pair_builtins : List Text
key_pair_builtins = codes "builtin:ssh-ed25519" ∷ codes "builtin:wireguard-private-key" ∷ []

abbrev pub is_hidden : GeneratorPromptMode → Bool
is_hidden hidden = true
is_hidden visible = false

-- `prompts.len() != 1 || !Hidden || multiline`.
abbrev pub bad_password_prompts : List GeneratorPrompt → Bool
bad_password_prompts (p ∷ []) = not (is_hidden p.mode) || p.multiline
bad_password_prompts _ = true

abbrev pub argon2id_names : List Text
argon2id_names = codes "memory-kib" ∷ codes "iterations" ∷ codes "output-length" ∷ []

abbrev pub within : ℕ → ℕ → ℕ → Bool
within lo hi n = leb lo n && leb n hi

unfoldable pub argon2id_value : Text → ℕ → Option Text → Result PolicyError ℕ
argon2id_value name default none = ok default
argon2id_value name default (some value) =
    ok_or (from_str_radix value 10) (violation (argon2id_integer name))

unfoldable pub argon2id_parameter : Generator → Text → ℕ → Result PolicyError ℕ
argon2id_parameter generator name default =
    argon2id_value name default (map_get name generator.parameters)

unfoldable pub validate_argon2id_password_hash_generator : Identifier → Generator → Checked
validate_argon2id_password_hash_generator generator_id generator = do
  fail_if
      (not (length generator.outputs == 1)
        || bad_password_prompts generator.prompts
        || any (λ key. not (is_one_of argon2id_names key)) (map_keys generator.parameters))
      (violation (argon2id_shape generator_id))
  memory_kib ← argon2id_parameter generator (codes "memory-kib") 65536
  iterations ← argon2id_parameter generator (codes "iterations") 3
  output_length ← argon2id_parameter generator (codes "output-length") 32
  fail_if
      (not (within 19456 524288 memory_kib)
        || not (within 2 10 iterations)
        || not (within 16 64 output_length))
      (violation (argon2id_bounds generator_id))

-- What a built-in generator may not change.
abbrev pub is_customised : Generator → Bool
is_customised generator =
    not (is_empty generator.arguments)
    || not (is_empty generator.runtime_inputs)
    || not (generator.timeout_seconds == default_generator_timeout_seconds)
    || not (generator.max_output_bytes == default_generator_max_output_bytes)

unfoldable pub bad_settings : Generator → Bool
bad_settings generator =
    ltb 256 (length generator.arguments)
    || any (λ (a : Text). ltb (16 * 1024) (length a) || any is_ascii_control a) generator.arguments
    || ltb 128 (length generator.runtime_inputs)
    || any (λ input. not (valid_store_executable input)) generator.runtime_inputs
    || not (within 1 300 generator.timeout_seconds)
    || generator.max_output_bytes == 0
    || ltb default_generator_max_output_bytes generator.max_output_bytes
    || is_one_of builtins generator.executable && is_customised generator

unfoldable pub validate_generator_execution : Identifier → Generator → Checked
validate_generator_execution generator_id generator =
    let is_builtin = is_one_of builtins generator.executable in
    let is_key_pair = is_one_of key_pair_builtins generator.executable in
    let derived =
      is_key_pair && length generator.outputs == 1 && leb (length generator.public_outputs) 1 in
    do
      fail_if
          (is_empty generator.executable
            || ltb (16 * 1024) (length generator.executable)
            || any is_ascii_control generator.executable)
          (violation (generator_executable generator_id))
      fail_if (not is_builtin && not (valid_store_executable generator.executable))
          (violation (generator_store_path generator_id))
      fail_if (bad_settings generator) (violation (generator_settings generator_id))
      if text_eq generator.executable (codes "builtin:argon2id-password-hash")
          then validate_argon2id_password_hash_generator generator_id generator
          else ok tt
      fail_if (is_builtin && not (is_empty generator.secret_dependencies))
          (violation (builtin_secret_dependencies generator_id))
      fail_if (is_builtin && not (is_empty generator.public_outputs) && not derived)
          (violation (builtin_public_outputs generator_id))
      fail_if
          (is_key_pair
            && (not (length generator.outputs == 1) || ltb 1 (length generator.public_outputs)))
          (violation (builtin_output_count generator_id))
