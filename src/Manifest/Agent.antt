-- ===== src/Manifest/Agent.antt =====
-- crates/nix-seal-manifest/src/lib.rs, `ssh_agent_sign`: the request to an SSH agent and the reading
-- of its response. What the agent sends is a parameter; the time limits of the socket are not
-- modelled, an exchange that exceeds them is one that fails.
pub mod Frames
use nix_seal.Prelude.{
  ℕ, ◌+◌, ◌*◌, ◌/◌, ◌%◌, ◌^◌, Bool, true, false, not, ◌||◌, Option, some, none, List, [], ◌∷◌, ◌++◌,
  is_empty, length, take, drop, ltb, leb, ◌==◌, Result, ok, err, ◌>>=◌, ◌>>◌, fail_if, ok_or,
  if◌then◌else◌,
}
use nix_seal.Prelude.Text.{Text, any_control_char, is_ascii_control}
use nix_seal.Prelude.Numbers.{checked_add}
use nix_seal.Core.Path.{is_absolute}
use nix_seal.Keys.Approval.{ManifestError, limit, agent_protocol, agent_unavailable, agent_rejected}
use nix_seal.Manifest.Types.{
  max_agent_message_bytes, agent_request_sign, agent_failure, agent_sign_response,
}
use nix_seal.Manifest.Crates.{Crates, SshSignature}
use nix_seal.Prelude.{any}

-- `u32::to_be_bytes` and `u32::from_be_bytes`.
unfoldable pub to_be_bytes : ℕ → Text
to_be_bytes n = n / 16777216 % 256 ∷ n / 65536 % 256 ∷ n / 256 % 256 ∷ n % 256 ∷ []

unfoldable pub from_be_bytes : Text → ℕ
from_be_bytes (a ∷ b ∷ c ∷ d ∷ _) = a * 16777216 + b * 65536 + c * 256 + d
from_be_bytes _ = 0

-- `u32::try_from(n)` of a `usize`.
abbrev pub to_u32 : ℕ → Option ℕ
to_u32 n = if ltb n (2 ^ 32) then some n else none

unfoldable pub validate_agent_socket : Text → Result ManifestError Text
validate_agent_socket socket =
    if not (is_absolute socket) || ltb 4096 (length socket) || any is_ascii_control socket
    then err agent_unavailable
    else ok socket

unfoldable pub read_agent_string : Text → Result ManifestError (Text × Text)
unfolding from_be_bytes checked_add
read_agent_string input = do
  fail_if (ltb (length input) 4) agent_protocol
  end ← ok_or (checked_add 4 (from_be_bytes (take 4 input))) agent_protocol
  fail_if (ltb (length input) end) agent_protocol
  ok (drop 4 (take end input), drop end input)

-- `checked_add` of each of a list of lengths in turn.
unfoldable pub checked_sum : ℕ → List ℕ → Option ℕ
checked_sum n [] = some n
checked_sum n (m ∷ ms) = elim (checked_add n m) [ none ↦ none | some s ↦ checked_sum s ms ]

unfoldable pub agent_request : ℕ → ℕ → ℕ → Text → Text → Text
unfolding to_be_bytes
agent_request body_len key_len data_len key_blob message =
    to_be_bytes body_len
    ++ (agent_request_sign
        ∷ (to_be_bytes key_len
            ++ (key_blob ++ (to_be_bytes data_len ++ (message ++ to_be_bytes 0)))))

unfoldable pub encode_request : Text → Text → Result ManifestError Text
unfolding agent_request checked_sum
encode_request key_blob message = do
  sum ← ok_or (checked_sum 1 (4 ∷ length key_blob ∷ 4 ∷ length message ∷ 4 ∷ [])) agent_protocol
  fail_if (ltb max_agent_message_bytes sum) limit
  body_len ← ok_or (to_u32 sum) limit
  key_len ← ok_or (to_u32 (length key_blob)) limit
  data_len ← ok_or (to_u32 (length message)) limit
  ok (agent_request body_len key_len data_len key_blob message)

-- `stream.read_exact(&mut buffer)` for a buffer of `n` bytes, and what is left in the stream.
unfoldable pub read_exact : ℕ → Text → Option (Text × Text)
read_exact n stream = if ltb (length stream) n then none else some (take n stream, drop n stream)

module _ (crates : Crates) where
  -- A response is not empty where this is called.
  unfoldable pub read_response : Text → Result ManifestError SshSignature
  unfolding read_agent_string
  read_response [] = err agent_protocol
  read_response (code ∷ body) = do
    fail_if (code == agent_failure) agent_rejected
    fail_if (not (code == agent_sign_response)) agent_protocol
    (signature_bytes, rest) ← read_agent_string body
    fail_if (not (is_empty rest)) agent_protocol
    ok_or (crates.ssh_signature signature_bytes) agent_protocol

  unfoldable pub read_stream : Text → Result ManifestError SshSignature
  unfolding read_exact from_be_bytes read_response
  read_stream stream = do
    (head, rest) ← ok_or (read_exact 4 stream) agent_unavailable
    fail_if (from_be_bytes head == 0 || ltb max_agent_message_bytes (from_be_bytes head))
        agent_protocol
    (response, _) ← ok_or (read_exact (from_be_bytes head) rest) agent_unavailable
    read_response response

  unfoldable pub ssh_agent_sign : Text → Text → Text → Result ManifestError SshSignature
  unfolding encode_request read_stream
  ssh_agent_sign socket key_blob message = do
    request ← encode_request key_blob message
    stream ← ok_or (crates.agent_exchange socket request) agent_unavailable
    read_stream stream
