-- ===== src/Witnesses/ExecuteRuns.antt =====
-- Batches that the host executes, with the proof before them and without.
use zkpow.Prelude.{
  ℕ, ap, All, ◌≡◌, refl, arith, List, [], ◌∷◌, some, true, ok, Outcome, returned, panicked,
  replicate,
}
use zkpow.Host.Hash
use zkpow.Chain
use zkpow.State
use zkpow.Work
use zkpow.Target
use zkpow.U256
use zkpow.Bytes
use zkpow.Header
use zkpow.Median
use zkpow.Claim
use zkpow.Guest
use zkpow.Sha256
use zkpow.Sha256.Reference
use zkpow.Sha256.Reference.{sha256}
use zkpow.Bytes.Words.{IsU32}
use zkpow.U256.{zero_u256}
use zkpow.Claim.{Claim}
use zkpow.Header.{NewHeader}
use zkpow.Header.RoundTrip.{IsNewHeader}
use zkpow.Chain.{apply_headers}
use zkpow.PublicValues.{success, public_values_to_bytes}
use zkpow.Guest.{main}
use zkpow.Host.Hash.{host_hash_header, continuation_digest_from_state}
use zkpow.Host.Execute.{
  Sp1Stdin, UnprovenBatchInput, default_key, execute_batch_with_prover, execute_batch_without_proof,
}
use zkpow.Host.Execute.Accepted.{Machine, received, unverified}
use zkpow.Host.Execute.Runs.{execute_batch_without_proof-succeeds}
use zkpow.Host.Execute.Proved.{from_proof, execute_batch_with_prover-succeeds}
use zkpow.State.{State, default_state, public_claim}
use zkpow.Host.Attempt.{Attempt, succeed, fail, from_sdk}
use zkpow.Host.Batch.{SavedProof, PreparedBatch}
use zkpow.Witnesses.{first_header, same_words, zero_state}
use zkpow.Witnesses.HostData.{
  genesis_state, second_state, third_state, genesis_state-Typed, second_state-Typed,
}

abbrev second_header : NewHeader
second_header = record { version = 1; merkle_root = replicate 32 7; timestamp = 6; nonce = 9 }

-- A machine whose SHA-256 gives zeros.
abbrev sha : List ℕ → List ℕ
sha bytes = sha256 same_words zero_state bytes

abbrev outcome_of : Outcome (List ℕ) → Attempt (List ℕ)
outcome_of (returned bytes) = succeed bytes
outcome_of panicked = fail (from_sdk [])

run_machine : Sp1Stdin → Attempt (List ℕ)
run_machine stdin = outcome_of (main same_words zero_state unverified (received 4096 8192 stdin))

machine : Machine same_words zero_state sha sha run_machine
unfolding run_machine
machine = record {
  digest_is = λ bytes. refl;
  pv_digest_is = λ bytes. refl;
  header_address = 4096;
  median_address = 8192;
  header_aligned = refl;
  median_aligned = refl;
  executes = λ stdin bytes e. ap outcome_of e;
}

-- Two runs of one header each, by the machine's hash.
sha_ran :
    (apply_headers (host_hash_header sha) genesis_state (first_header ∷ []) (0 ∷ [])
      ≡ returned (second_state, ok tt))
    × (apply_headers (host_hash_header sha) second_state (second_header ∷ []) (5 ∷ [])
        ≡ returned (third_state, ok tt))
unfolding Hash.sha256d Hash.host_hash_header Hash.continuation_digest
    Hash.continuation_digest_from_state Sha256.low_be_bytes Sha256.state_to_hash Sha256.be_u64
    Sha256.be_u64_from_slice Sha256.load_loop Sha256.assign_words Sha256.sha256_80bytes
    Sha256.sha256_32bytes Sha256.sha256_169bytes Sha256.sha256d_80bytes Sha256.sha256_116bytes
    Chain.prepare_new_epoch Chain.apply_chain_work_run Chain.flush Chain.activate Chain.extend_run
    Chain.assign_state Chain.try_header Chain.apply_header Chain.apply_loop Chain.apply_headers
    State.timestamp_count State.current_timestamp_slot State.state_to_bytes State.state_at
    State.parse_state State.public_claim State.continuation_from_state State.continuation_bytes
    Work.set_bit Work.div_step Work.div_loop Work.work_from_target Target.significant_bytes
    Target.join_bytes Target.top_bytes Target.pack_bits Target.target_to_bits Target.zero_bytes
    Target.expanded_bytes Target.target_from_bits Target.check_proof_of_work Target.clamped_timespan
    Target.div_timespan Target.calculate_next_target_required U256.value U256.from_le_bytes
    U256.memory U256.to_le_bytes U256.cmp U256.le U256.min_u256 U256.eq_u256 U256.add U256.mul_u32
    U256.sub_limb U256.sub_assign U256.increment_target U256.shl1_with_carry Bytes.le_bytes
    Bytes.from_le Bytes.slice Bytes.put_slice Bytes.word_fields Bytes.read_words Bytes.words_memory
    Bytes.check_exact_len Bytes.check_aligned Bytes.copy_from_bytes Bytes.chunks
    Bytes.slice_from_bytes Header.from_header Header.into_header Header.header_to_bytes
    Header.header_at Header.parse_header Header.new_header_to_bytes Header.new_header_at
    Header.parse_new_header Median.count_loop Median.check_counts Median.median_time_past_hinted
    Median.insert Median.sort Median.median_time_past Claim.verifier_key_to_bytes
    Claim.verifier_key_from_bytes Claim.claim_to_bytes Claim.claim_at Claim.parse_claim
    Claim.continuation_to_bytes Claim.continuation_at Claim.parse_continuation Guest.eq_bytes
    Guest.matches_claim Guest.hash_header Guest.compute_continuation_digest Guest.verify_prior_proof
    Guest.committed_values Guest.validate Guest.main Reference.sha256 Reference.absorb_blocks
sha_ran = (refl, refl)

first_header-fits : All IsNewHeader (first_header ∷ [])
first_header-fits = (
  record {
    version_fits = omega arith;
    root_length = refl;
    timestamp_fits = omega arith;
    nonce_fits = omega arith;
  },
  tt,
)

key_fits : All IsU32 default_key
key_fits = (
  omega arith,
  (
    omega arith,
    (omega arith, (omega arith, (omega arith, (omega arith, (omega arith, (omega arith, tt)))))),
  ),
)

abbrev unproven : UnprovenBatchInput
unproven = record {
  current_state = genesis_state;
  headers = first_header ∷ [];
  median_hints = 0 ∷ [];
  expected_state = second_state;
  expected_continuation_digest = continuation_digest_from_state sha second_state;
}

execute_batch_without_proof-succeeds_example :
    (stdin : Sp1Stdin) × (execute_batch_without_proof sha sha run_machine unproven
      ≡ succeed (record {
        stdin = stdin;
        expected_pv =
            public_values_to_bytes (
              success
                (public_claim second_state)
                unproven.expected_continuation_digest
                default_key);
      }))
execute_batch_without_proof-succeeds_example =
    execute_batch_without_proof-succeeds same_words zero_state sha sha run_machine unproven machine
      genesis_state-Typed first_header-fits (omega arith, tt) refl sha_ran.0 refl

-- The proof of the first header, which the batch of the second one extends.
abbrev first_proof : SavedProof
first_proof = record {
  public_values = public_values_to_bytes (
      success (public_claim second_state) (continuation_digest_from_state sha second_state)
        default_key);
  compressed = true;
}

abbrev proven : PreparedBatch
proven = record {
  previous_proof = some first_proof;
  current_state = second_state;
  headers = second_header ∷ [];
  median_hints = 5 ∷ [];
  expected_state = third_state;
  expected_continuation_digest = continuation_digest_from_state sha third_state;
  first_new_height = 2;
  end_height = 2;
}

second_header-fits : All IsNewHeader (second_header ∷ [])
second_header-fits = (
  record {
    version_fits = omega arith;
    root_length = refl;
    timestamp_fits = omega arith;
    nonce_fits = omega arith;
  },
  tt,
)

execute_batch_with_prover-succeeds_example :
    (stdin : Sp1Stdin) × (execute_batch_with_prover sha sha run_machine default_key proven
      ≡ succeed (record {
        stdin = stdin;
        expected_pv =
            public_values_to_bytes
              (success (public_claim third_state) proven.expected_continuation_digest default_key);
      }))
execute_batch_with_prover-succeeds_example =
    execute_batch_with_prover-succeeds same_words zero_state sha sha run_machine default_key proven
      machine second_state-Typed second_header-fits (omega arith, tt) refl sha_ran.1 refl refl
      key_fits (from_proof first_proof refl refl)
