-- ===== src/Host/Execute.antt =====
-- crates/host/src/pipeline/execution.rs with `build_proof` and `build_stdin` of pipeline/input.rs: the
-- guest's input, its execution, and the check of what it commits to. The digest of the sha2 crate, the
-- hash of public values by SP1, and the execution of a guest are parameters; a verifying key is its
-- `hash_u32`.
pub mod Accepted
pub mod Runs
pub mod Proved
use zkpow.Prelude.{
  ℕ, List, [], ◌∷◌, Option, none, some, Result, ok, err, Bool, true, false, replicate,
}
use zkpow.Header.{NewHeader}
use zkpow.State.{State, public_claim, state_to_bytes}
use zkpow.PublicValues.{
  PublicValuesParseError, HeaderChainPublicValues, succeeded, failed, as_byte, success,
  parse_public_values, public_values_to_bytes,
}
use zkpow.Input.{
  Proof, default_proof, ProofCarryingState, proof_carrying_state_to_bytes, serialize_new_headers,
  serialize_median_hints,
}
use zkpow.Guest.{eq_bytes}
use zkpow.Host.Hash.{continuation_digest_from_state}
use zkpow.Host.Attempt.{
  Attempt, BoxError, succeed, fail, ◌>>=◌, malformed_previous_proof, previous_proof_not_compressed,
  malformed_public_values, execution_failed, public_values_mismatch,
}
use zkpow.Host.Batch.{SavedProof, PreparedBatch}

-- What the host writes to an `SP1Stdin`: vectors, and perhaps a proof to verify.
pub record Sp1Stdin : Type 0 where
  pub vectors : List (List ℕ)
  pub proof : Option SavedProof

pub record ExecutedBatch : Type 0 where
  pub stdin : Sp1Stdin
  pub expected_pv : List ℕ

pub record UnprovenBatchInput : Type 0 where
  pub current_state : State
  pub headers : List NewHeader
  pub median_hints : List ℕ
  pub expected_state : State
  pub expected_continuation_digest : List ℕ

-- `VerifierKeyDigest::default`
abbrev pub default_key : List ℕ
default_key = replicate 8 0

-- What `build_stdin` writes with `write_vec`.
abbrev pub written : ProofCarryingState → State → List NewHeader → List ℕ → List (List ℕ)
written pcs state headers median_hints =
    proof_carrying_state_to_bytes pcs
    ∷ state_to_bytes state
    ∷ serialize_new_headers headers
    ∷ serialize_median_hints median_hints
    ∷ []

unfoldable pub build_stdin :
    ProofCarryingState → State → List NewHeader → List ℕ → Option SavedProof → Attempt Sp1Stdin
build_stdin pcs state headers median_hints previous_proof = elim previous_proof [
  | none ↦ succeed (record { vectors = written pcs state headers median_hints; proof = none })
  | some prev_proof ↦ elim prev_proof.compressed [
    | false ↦ fail previous_proof_not_compressed
    | true ↦
        succeed
          (record { vectors = written pcs state headers median_hints; proof = some prev_proof })
  ]
]

-- The exit code that a previous proof's public values stand for.
unfoldable pub exit_code_of : Result PublicValuesParseError HeaderChainPublicValues → Attempt ℕ
exit_code_of (err e) = fail (malformed_previous_proof e)
exit_code_of (ok (succeeded _ _ _)) = succeed 0
exit_code_of (ok (failed failure _ _ _)) = succeed (as_byte failure.error_code)

unfoldable pub verify_parsed :
    List ℕ → List ℕ → Result PublicValuesParseError HeaderChainPublicValues → Attempt (Unit {0})
verify_parsed pv expected_pv (err e) = fail (malformed_public_values e)
verify_parsed pv expected_pv (ok (failed failure _ _ _)) =
    fail (execution_failed failure.error_code failure.failure_height)
verify_parsed pv expected_pv (ok (succeeded _ _ _)) = elim (eq_bytes pv expected_pv) [
  | false ↦ fail public_values_mismatch
  | true ↦ succeed tt
]

-- With its arms for a failure and for malformed values, `execute_batch_with_prover` does what
-- `verify_public_values` does, but for the text of the errors.
unfoldable pub verify_public_values : List ℕ → List ℕ → Attempt (Unit {0})
verify_public_values pv expected_pv = verify_parsed pv expected_pv (parse_public_values pv)

module _ (digest compute_pv_digest : List ℕ → List ℕ) (execute : Sp1Stdin → Attempt (List ℕ)) where
  unfoldable pub build_proof : List ℕ → Option SavedProof → Attempt (List ℕ × Proof)
  build_proof vk none = succeed (vk, default_proof)
  build_proof vk (some prev_proof) = do
    exit_code ← exit_code_of (parse_public_values prev_proof.public_values)
    succeed (
      vk,
      record {
        public_values_digest = compute_pv_digest prev_proof.public_values;
        exit_code = exit_code;
        pad = replicate 3 0;
      },
    )

  -- The part of both functions that runs the guest and checks what it commits to.
  unfoldable pub run_guest : Sp1Stdin → List ℕ → Attempt ExecutedBatch
  run_guest stdin expected_pv = do
    public_values ← execute stdin
    verified ← verify_public_values public_values expected_pv
    succeed (record { stdin = stdin; expected_pv = expected_pv })

  unfoldable pub execute_batch_with_prover : List ℕ → PreparedBatch → Attempt ExecutedBatch
  execute_batch_with_prover vk batch =
      let expected_pv =
        public_values_to_bytes
          (success (public_claim batch.expected_state) batch.expected_continuation_digest vk) in
      do
        (verifier_key, proof) ← build_proof vk batch.previous_proof
        stdin ←
            build_stdin
              (record {
                claim = public_claim batch.current_state;
                verifier_key = verifier_key;
                proof = proof;
              })
              batch.current_state batch.headers batch.median_hints batch.previous_proof
        run_guest stdin expected_pv

  -- The proof that stands in for a previous one: of the current state, with the default key.
  unfoldable pub stand_in_proof : State → Proof
  stand_in_proof state = record {
    public_values_digest = compute_pv_digest (
        public_values_to_bytes
          (success (public_claim state) (continuation_digest_from_state digest state) default_key));
    exit_code = 0;
    pad = replicate 3 0;
  }

  unfoldable pub execute_batch_without_proof : UnprovenBatchInput → Attempt ExecutedBatch
  execute_batch_without_proof batch =
      let expected_pv = public_values_to_bytes (
        success (public_claim batch.expected_state) batch.expected_continuation_digest
          default_key) in
      do
        stdin ←
            build_stdin
              (record {
                claim = public_claim batch.current_state;
                verifier_key = default_key;
                proof = stand_in_proof batch.current_state;
              })
              batch.current_state batch.headers batch.median_hints none
        run_guest stdin expected_pv
