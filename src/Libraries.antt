-- ===== src/Libraries.antt =====
-- The crates that the program calls and does not contain: age, base64, ed25519-dalek, ssh-key,
-- blake3 and jiff. Each field is one call of such a crate, as a function of its input.
use nix_seal.Prelude.{ℕ, Option}
use nix_seal.Prelude.Text.{Text}

-- `age::ssh::Recipient`, with its text form.
pub data SshRecipient : Type 0 where
  ssh_rsa : Text → SshRecipient
  ssh_ed25519 : Text → SshRecipient

-- `ssh_key::Algorithm`, as far as the program tells algorithms apart.
pub data SshAlgorithm : Type 0 where
  ed25519 other : SshAlgorithm

-- `ssh_key::PublicKey`: the algorithm, and the 32 key bytes that `key_data().ed25519()` gives.
pub record SshPublicKey : Type 0 where
  pub algorithm : SshAlgorithm
  pub ed25519_bytes : Option Text

pub record Libraries : Type 0 where
  -- `s.parse::<age::x25519::Recipient>()`, `age::plugin`, `age::ssh`, each printed again.
  pub x25519_recipient : Text → Option Text
  pub plugin_recipient : Text → Option Text
  pub ssh_recipient : Text → Option SshRecipient
  -- `base64::STANDARD.decode`.
  pub base64_decode : Text → Option Text
  -- `VerifyingKey::from_bytes`, and the bytes of the key.
  pub verifying_key : Text → Option Text
  -- `ssh_key::public::Ed25519PublicKey::try_from`, wrapped into a `PublicKey`.
  pub ssh_from_ed25519 : Text → Option SshPublicKey
  pub ssh_from_openssh : Text → Option SshPublicKey
  -- `blake3::Hasher::new()` and `new_derive_key(context)` over the bytes, in hexadecimal.
  pub blake3_hex : Text → Text
  pub blake3_derive_hex : Text → Text → Text
  -- `str::parse::<jiff::Timestamp>()`. A timestamp is the number of nanoseconds since the earliest
  -- one that jiff has, which keeps its order.
  pub parse_timestamp : Text → Option ℕ
  pub timestamp_to_string : ℕ → Text
  -- `timestamp.checked_add(Duration::from_secs(n))`.
  pub timestamp_add_seconds : ℕ → ℕ → Option ℕ
  -- `jiff::Timestamp::try_from(SystemTime)`, of nanoseconds since the system clock's first time.
  pub timestamp_from_system : ℕ → Option ℕ
