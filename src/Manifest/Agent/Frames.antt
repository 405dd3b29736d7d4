-- ===== src/Manifest/Agent/Frames.antt =====
-- The frames of the SSH agent's protocol: a request can be read back, and so can a response.
use nix_seal.Prelude.{
  ℕ, sym, ◌+◌, ◌^◌, ◌≤◌, ◌<◌, ◌≡◌, refl, ◌∷◌, ◌++◌, length, length-append, take, drop, take-append,
  drop-append, arith, ok,
}
use mathlib.Core.List.{append_assoc}
use nix_seal.Prelude.Text.{Text}
use nix_seal.Prelude.Numbers.{checked_add}
use nix_seal.Manifest.Types.{max_agent_message_bytes, agent_request_sign}
use nix_seal.Manifest.Agent.{
  to_be_bytes, from_be_bytes, checked_sum, read_agent_string, agent_request, encode_request,
}

from_be_bytes-to_be_bytes : (n : ℕ) → n < 2 ^ 32 → from_be_bytes (to_be_bytes n) ≡ n
unfolding from_be_bytes to_be_bytes
from_be_bytes-to_be_bytes n h = omega arith

take_four : (n : ℕ) (s : Text) → take 4 (to_be_bytes n ++ s) ≡ to_be_bytes n
unfolding to_be_bytes
take_four n s = refl

length_four : (n : ℕ) (s : Text) → length (to_be_bytes n ++ s) ≡ 4 + length s
unfolding to_be_bytes
length_four n s = omega arith

drop_four : (n : ℕ) (s : Text) → drop 4 (to_be_bytes n ++ s) ≡ s
unfolding to_be_bytes
drop_four n s = refl

-- The reading of a string whose length is read as `n`.
read_counted :
    (input head rest : Text) (n : ℕ)
    → n < 2 ^ 32
    → from_be_bytes (take 4 input) ≡ n
    → 4 + n ≤ length input
    → take (4 + n) input ≡ head
    → drop (4 + n) input ≡ rest
    → read_agent_string input ≡ ok (drop 4 head, rest)
unfolding read_agent_string checked_add
read_counted input head rest n small counted enough front back = rw counted (ground arith)

-- A string that is written with its length before it is read back, whatever follows it.
pub read_agent_string-append :
    (s rest : Text)
    → length s < 2 ^ 32
    → read_agent_string (to_be_bytes (length s) ++ (s ++ rest)) ≡ ok (s, rest)
read_agent_string-append s rest h =
    let whole = to_be_bytes (length s) ++ s in
    let split = append_assoc (to_be_bytes (length s)) s rest in
    rw drop_four at (
      read_counted (to_be_bytes (length s) ++ (s ++ rest)) whole rest (length s) h
        (rw take_four (from_be_bytes-to_be_bytes (length s) h))
        (rw length_four (omega (arith, length-append s rest)))
        (rw (length_four (length s) s, split) at (take-append whole rest))
        (rw (length_four (length s) s, split) at (drop-append whole rest)))

abbrev body_of : Text → Text → Text
body_of key_blob message =
    agent_request_sign
    ∷ (to_be_bytes (length key_blob)
        ++ (key_blob ++ (to_be_bytes (length message) ++ (message ++ to_be_bytes 0))))

length-body_of :
    (key_blob message : Text)
    → length (body_of key_blob message) ≡ 13 + length key_blob + length message
unfolding to_be_bytes
length-body_of key_blob message = omega (
  arith,
  length-append key_blob (to_be_bytes (length message) ++ (message ++ to_be_bytes 0)),
  length-append message (to_be_bytes 0),
)

-- The body that a request announces.
encoded_body :
    (key_blob message request : Text)
    → encode_request key_blob message ≡ ok request
    → (13 + length key_blob + length message ≤ max_agent_message_bytes)
      × (to_be_bytes (13 + length key_blob + length message) ++ body_of key_blob message ≡ request)
unfolding encode_request checked_sum checked_add agent_request
encoded_body key_blob message request h = ground arith

-- How an agent reads a request: a length, that many bytes, of which the first is the kind of the
-- request, and then the key, the text to sign and four bytes of flags that are zero.
pub record IsRequest (key_blob message request : Text) : Type 0 where
  pub body : Text
  pub framed : request ≡ to_be_bytes (length body) ++ body
  pub announced : from_be_bytes (take 4 request) ≡ length body
  pub bounded : length body ≤ max_agent_message_bytes
  pub rest : Text
  pub kind : body ≡ agent_request_sign ∷ rest
  pub after_key : Text
  pub key : read_agent_string rest ≡ ok (key_blob, after_key)
  pub signed : read_agent_string after_key ≡ ok (message, to_be_bytes 0)

-- A request that is encoded is read by the agent as what was put in, and is within the limit on
-- messages.
pub encode_request-IsRequest :
    (key_blob message request : Text)
    → encode_request key_blob message ≡ ok request
    → IsRequest key_blob message request
encode_request-IsRequest key_blob message request h =
    let (small, same) = encoded_body key_blob message request h in
    let framed = rw (← length-body_of key_blob message) at (sym same) in
    record {
      body = body_of key_blob message;
      framed = framed;
      announced = rw framed (
          rw take_four (
            from_be_bytes-to_be_bytes (length (body_of key_blob message))
              (omega (arith, length-body_of key_blob message, small))));
      bounded = omega (arith, length-body_of key_blob message, small);
      rest =
          to_be_bytes (length key_blob)
          ++ (key_blob ++ (to_be_bytes (length message) ++ (message ++ to_be_bytes 0)));
      kind = refl;
      after_key = to_be_bytes (length message) ++ (message ++ to_be_bytes 0);
      key =
          read_agent_string-append key_blob
            (to_be_bytes (length message) ++ (message ++ to_be_bytes 0)) (omega (arith, small));
      signed = read_agent_string-append message (to_be_bytes 0) (omega (arith, small));
    }
