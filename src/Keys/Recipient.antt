-- ===== src/Keys/Recipient.antt =====
-- crates/nix-seal-crypto/src/lib.rs: which texts are accepted as age recipients.
use nix_seal.Prelude.{
  Bool, true, false, ◌&&◌, not, Option, none, some, Result, ok, err, fail_if, ◌>>◌,
}
use nix_seal.Prelude.Text.{Text}
use nix_seal.Libraries.{Libraries, SshRecipient, ssh_rsa, ssh_ed25519}

-- The one `CryptoError` of these functions.
pub data CryptoError : Type 0 where
  recipient : CryptoError

abbrev pub is_ssh_rsa : SshRecipient → Bool
is_ssh_rsa (ssh_rsa s) = true
is_ssh_rsa (ssh_ed25519 s) = false

abbrev pub ssh_to_string : SshRecipient → Text
ssh_to_string (ssh_rsa s) = s
ssh_to_string (ssh_ed25519 s) = s

module _ (lib : Libraries) where
  abbrev pub normalize_ssh : Option SshRecipient → Bool → Result CryptoError Text
  normalize_ssh none legacy = err recipient
  normalize_ssh (some parsed) legacy =
      fail_if (not legacy && is_ssh_rsa parsed) recipient >> ok (ssh_to_string parsed)

  unfoldable pub normalize_recipient_inner : Text → Bool → Result CryptoError Text
  normalize_recipient_inner value legacy = elim (lib.x25519_recipient value) [
    | some parsed ↦ ok parsed
    | none ↦ elim (lib.plugin_recipient value) [
      | some parsed ↦ ok parsed
      | none ↦ normalize_ssh (lib.ssh_recipient value) legacy
    ]
  ]

  unfoldable pub normalize_recipient : Text → Result CryptoError Text
  unfolding normalize_recipient_inner
  normalize_recipient value = normalize_recipient_inner value false

  unfoldable pub normalize_migration_recipient : Text → Result CryptoError Text
  unfolding normalize_recipient_inner
  normalize_migration_recipient value = normalize_recipient_inner value true
