-- ===== src/Lib.antt =====
-- nix-seal keeps the secrets of NixOS, nix-darwin and Home Manager hosts as age ciphertexts in a
-- repository and decides, from one public plan, who may decrypt what. This library models the part
-- that decides: crates/nix-seal-core/src/lib.rs (the plan), crates/nix-seal-policy/src/lib.rs (its
-- validation and the projections of it), crates/nix-seal-manifest/src/lib.rs (the signed manifests of
-- artifacts), what crates/nix-seal-runtime/src/lib.rs does with documents, templates and services, and
-- the functions of crates/nix-seal-crypto/src/lib.rs that the validation calls.
--
-- The parts and how they interact. A plan (`PlanV2`) is read and merged (`merge`), then `validate`
-- checks it. Three functions validate the plan again and then project it: `target_policy`, what one
-- target may activate; `secret_recipients`, who a ciphertext is encrypted to; `lifecycle_report`, the
-- age of the secrets. The first two ask which targets a secret is for: `selected_consumer_targets`
-- expands groups and selectors, and `target_is_consumer` asks it for one target. The hashes of the
-- projections go into the manifest of an artifact, which approvers sign (`sign_manifest`,
-- `add_signature`) and a host verifies (`verify`) with the keys and the threshold of its policy. The
-- host activates the secrets by a document that it validates (`ActivationSpecV2`), renders templates
-- from them, moves the link to the active generation, and has services restarted.
--
-- Where the code is:
--   Core.Id              Id::parse; the type Id is `Identifier`
--   Core.Plan            the types of the plan, their defaults, Secret::runtime_for_target
--   Core.Path            what the code uses of std::path on Unix
--   Core.Symlink         valid_compatibility_symlink
--   Keys.Recipient       normalize_recipient and normalize_migration_recipient of nix-seal-crypto
--   Keys.Approval        parse_public_key, validate_public_key, public_key_id of nix-seal-manifest
--   Manifest.Types       the manifest, the envelope, the capability, what a caller expects
--   Manifest.Crates      the third-party calls of nix-seal-manifest, as a record of functions
--   Manifest.Pae         pae, the bytes that a signature is over
--   Manifest.Agent       ssh_agent_sign, read_agent_string, validate_agent_socket
--   Manifest.Keys        ApprovalSigningKey and its methods, TrustedKeys::insert_encoded, key ids
--   Manifest.Envelope    sign_manifest, add_signature, verify, decode_envelope, prove_possession
--   Manifest.Delegated   the delegated capability: signing, validation, verification
--   Policy.Error         PolicyError; each message of a violation is a constructor with its values
--   Policy.Chars         is_sha256, is_private_runtime_mode, the checks on paths and names
--   Policy.Merge         read_plan_source (its size limit), ensure_schema, merge
--   Policy.Kahn          the topological walk that groups and generators share
--   Policy.Claims        a lemma on loops that refuse what an earlier entry has claimed
--   Policy.Groups        expand_group_leaves, the search of target_is_consumer, validate_group_graph
--   Policy.Selectors     validate_target, validate_target_selectors, selected_consumer_targets
--   Policy.Secrets       validate_secrets, validate_repository_only_secret, target_is_consumer
--   Policy.Lifecycle     validate_lifecycle, the body of lifecycle_report
--   Policy.Templates     validate_templates, template_phase
--   Policy.Approval      validate_approval, target_approval_policy
--   Policy.Generators    validate_generator_graph and the functions that it calls
--   Policy.Validate      validate, validate_authorization_namespace, lifecycle_report
--   Policy.Recipients    secret_recipients, plan_hash, domain_hash
--   Policy.Target        target_policy, secret_artifact_policy and their hashes
--   Runtime.Error        RuntimeError
--   Runtime.Names        parse_mode, validate_mode, the checks on names and paths
--   Runtime.Spec         ActivationSpecV2::validate, PostSwitchSpecV1::validate
--   Runtime.Template     visit_template_source, validate_template_source, render_template_into
--   Runtime.Streams      copy_base64, copy_hex
--   Runtime.Generations  next_generation, current_generation
--   Runtime.World        system calls on the runtime root, each of which may fail
--   Runtime.Switch       switch_current
--   Runtime.Services     run_post_switch_with, manager_arguments
--   Tests                a plan on which the functions run and the theorems are applied
--
-- How it is modelled. A `&str` is the list of its UTF-8 bytes; a machine integer is its value, and
-- the checked operations are written out. A `BTreeMap` is a list of entries in key order, a
-- `BTreeSet` a list in order without duplicates, a `Vec` used as a stack has its top at the head. A
-- `?` is the bind of `Result`; a loop that can return early is a fold of fallible steps.
--
-- Parameters. `Libraries` has the third-party functions: the parsers of the age, ssh-key, base64 and
-- ed25519 crates, BLAKE3, and the timestamps of jiff. The canonical JSON of serde_jcs is an argument
-- of the functions that hash; that it exists for the plan at hand is a hypothesis where a theorem says
-- that a projection returns. `Crates` has the calls of nix-seal-manifest: ed25519, OpenSSH signatures,
-- base64, the JSON of the two payloads, and the socket of an SSH agent. What is assumed of them stands
-- in `HasLaws` of Manifest.Envelope.RoundTrip and in the hypotheses of the theorems that use it.
--
-- Fuel. The walks over groups take the number of groups as fuel, one more in the search: a group is
-- pushed only when it was not seen (Policy.Groups.Expand treats the first, Policy.Groups.Halts the
-- search, which would answer that it found nothing where it ran out). The topological walk takes
-- the number of its nodes, which Policy.Kahn.Fuel treats, and the reading of a template one more
-- than its length, which Runtime.Template.Fuel treats; running out is an error of its own,
-- `out_of_fuel`, which the code does not have.
--
-- Not modelled: the TOML and JSON parsers and the JSON schemas, which serde, toml and schemars
-- provide; the encryption of nix-seal-crypto; the zeroizing of memory and the time limits of sockets;
-- of nix-seal-runtime the commit and the removal of generations, copy_utf8, the opening of files, and a
-- writer below a template that fails or takes a part of what it is given (its flush is an argument);
-- the crates nix-seal-cache, nix-seal-rekey, nix-seal-authoring and nix-seal-cli, which work on files,
-- processes and terminals.
mod Prelude
pub mod Libraries
pub mod Core
pub mod Keys
pub mod Policy
pub mod Manifest
pub mod Runtime
mod Tests
