-- ===== src/Host/Prepare.antt =====
-- `prepare_batch` of crates/host/src/pipeline/batch.rs: where a batch starts, its headers, and the state
-- that it ends in, checked against the database.
pub mod Prepared
use zkpow.Prelude.{
  ℕ, ◌+◌, ◌%◌, ◌^◌, List, [], ◌∷◌, Option, none, some, Result, ok, err, Bool, true, false, length,
}
use zkpow.Header.{NewHeader}
use zkpow.Claim.{Claim}
use zkpow.State.{State, public_claim}
use zkpow.PublicValues.{
  PublicValuesParseError, HeaderChainPublicValues, parse_public_values, succeeded, failed,
}
use zkpow.Guest.{eq_bytes}
use zkpow.Host.Hash.{continuation_digest_from_state}
use zkpow.Host.Db.{
  Db, HeaderBatchWitness, load_header_batch_witness, load_public_claim, state_from_db_at_height,
}
use zkpow.Host.Equal.{eq_claim}
use zkpow.Host.Attempt.{
  Attempt, BoxError, succeed, fail, call, ◌>>=◌, trusted_start_with_previous_proof,
  malformed_previous_proof, previous_proof_failed, genesis_mismatch, db_state_mismatch,
  no_headers_remaining, simulation_diverges,
}
use zkpow.Host.Batch.{
  SavedProof, PreparedBatch, compute_final_state_with_hints, find_first_diverging_state,
}

-- A path is its characters.
module _ (digest : List ℕ → List ℕ) (load : List ℕ → Result BoxError SavedProof) (db : Db)
    (genesis_hash : List ℕ) where
  unfoldable pub load_optional_proof : Option (List ℕ) → Attempt (Option SavedProof)
  load_optional_proof none = succeed none
  load_optional_proof (some path) = elim (load path) [
    | err e ↦ fail e
    | ok proof ↦ succeed (some proof)
  ]

  -- The claim of the previous proof, if it is a success for the same chain.
  unfoldable pub successful_claim :
      Result PublicValuesParseError HeaderChainPublicValues → Attempt Claim
  successful_claim (err e) = fail (malformed_previous_proof e)
  successful_claim (ok (failed failure _ _ _)) =
      fail (previous_proof_failed failure.error_code failure.failure_height)
  successful_claim (ok (succeeded claim _ _)) = elim (eq_bytes claim.genesis_hash genesis_hash) [
    | false ↦ fail genesis_mismatch
    | true ↦ succeed claim
  ]

  -- The database's state, if it is that of the claim.
  unfoldable pub state_of_claim : Claim → Attempt State
  state_of_claim claim = do
    state ← call (state_from_db_at_height digest db claim.height genesis_hash)
    elim (eq_claim (public_claim state) claim) [
      | false ↦ fail (db_state_mismatch claim.height)
      | true ↦ succeed state
    ]

  unfoldable pub resolve_current_state : Option ℕ → Option SavedProof → Attempt State
  resolve_current_state (some height) (some proof) = fail trusted_start_with_previous_proof
  resolve_current_state none (some proof) = do
    claim ← successful_claim (parse_public_values proof.public_values)
    state_of_claim claim
  resolve_current_state (some height) none =
      call (state_from_db_at_height digest db height genesis_hash)
  resolve_current_state none none = call (state_from_db_at_height digest db 0 genesis_hash)

  -- The error that names the first header after which the host and the database differ.
  unfoldable pub divergence : State → List NewHeader → List ℕ → ℕ → Attempt State
  divergence current_state headers median_hints first_new_height = do
    (bad_index, actual_state) ← call (
        find_first_diverging_state digest headers median_hints db genesis_hash first_new_height
          current_state)
    expected_claim ←
        call (load_public_claim db ((first_new_height + bad_index) % 2 ^ 32) genesis_hash)
    fail (simulation_diverges bad_index ((first_new_height + bad_index) % 2 ^ 32))

  unfoldable pub simulate_expected_state : State → List NewHeader → List ℕ → ℕ → ℕ → Attempt State
  simulate_expected_state current_state headers median_hints first_new_height end_height = do
    expected_state ← call (compute_final_state_with_hints digest current_state headers median_hints)
    db_end_claim ← call (load_public_claim db end_height genesis_hash)
    elim (eq_claim (public_claim expected_state) db_end_claim) [
      | true ↦ succeed expected_state
      | false ↦ divergence current_state headers median_hints first_new_height
    ]

  -- The part of `prepare_batch` that follows the load of the headers.
  unfoldable pub prepare_headers :
      Option SavedProof → State → List NewHeader → List ℕ → Attempt PreparedBatch
  prepare_headers previous_proof current_state [] median_hints =
      fail (no_headers_remaining ((current_state.height + 1) % 2 ^ 32))
  prepare_headers previous_proof current_state (h ∷ hs) median_hints =
      let first_new_height = (current_state.height + 1) % 2 ^ 32 in
      let end_height = (current_state.height + length (h ∷ hs) % 2 ^ 32) % 2 ^ 32 in
      do
        expected_state ←
            simulate_expected_state current_state (h ∷ hs) median_hints first_new_height end_height
        succeed (record {
          previous_proof = previous_proof;
          current_state = current_state;
          headers = h ∷ hs;
          median_hints = median_hints;
          expected_state = expected_state;
          expected_continuation_digest = continuation_digest_from_state digest expected_state;
          first_new_height = first_new_height;
          end_height = end_height;
        })

  unfoldable pub prepare_batch : Option (List ℕ) → Option ℕ → ℕ → Attempt PreparedBatch
  prepare_batch prev_proof_path trusted_start_height num_headers = do
    previous_proof ← load_optional_proof prev_proof_path
    current_state ← resolve_current_state trusted_start_height previous_proof
    witness ← call (load_header_batch_witness db ((current_state.height + 1) % 2 ^ 32) num_headers)
    prepare_headers previous_proof current_state witness.headers witness.median_time_past_hints
