-- ===== src/Witnesses/HostRuns.antt =====
-- Batches that the host prepares and searches, over a chain of three blocks.
use zkpow.Prelude.{
  ℕ, zero, suc, ◌+◌, ◌%◌, ◌^◌, ap, get_or, All, ◌≡◌, ◌≢◌, ◌<◌, refl, arith, List, [], ◌∷◌, none,
  Result, ok, err, Outcome, returned, panicked, replicate,
}
use zkpow.Host.Db
use zkpow.Host.Hash
use zkpow.Host.Prepare
use zkpow.Host.Batch
use zkpow.Host.Equal
use zkpow.Chain
use zkpow.State
use zkpow.Work
use zkpow.Target
use zkpow.U256
use zkpow.Bytes
use zkpow.Header
use zkpow.Median
use zkpow.Claim
use zkpow.Guest
use zkpow.U256.{zero_u256}
use zkpow.Claim.{Claim}
use zkpow.Header.RoundTrip.{IsNewHeader}
use zkpow.Chain.{apply_headers}
use zkpow.Chain.Typed.{Typed, apply_headers-Typed}
use zkpow.Guest.{main}
use zkpow.Host.Hash.{host_hash_header, continuation_digest_from_state}
use zkpow.Host.Db.{load_public_claim}
use zkpow.Host.Batch.{find_first_diverging_state}
use zkpow.Host.Batch.Bisect.{FirstDivergence, find_first_diverging_state_lem}
use zkpow.Host.Prepare.Prepared.{Prepared, prepare_batch-Prepared}
use zkpow.State.{State, default_state, public_claim}
use zkpow.Host.Attempt.{Attempt, BoxError, succeed, from_sdk}
use zkpow.Host.Batch.{SavedProof, PreparedBatch}
use zkpow.Host.Prepare.{prepare_batch}
use zkpow.Witnesses.{first_header, zero_hash, zero_hash-IsHash}
use zkpow.Witnesses.HostData.{small_db, genesis_state, second_state, genesis_state-Typed}

abbrev zeros : List ℕ
zeros = replicate 32 0

-- A digest that is the same for all bytes.
abbrev zero_digest : List ℕ → List ℕ
zero_digest bytes = zeros

abbrev nothing_saved : List ℕ → Result BoxError SavedProof
nothing_saved path = err (from_sdk [])

abbrev empty_batch : PreparedBatch
empty_batch = record {
  previous_proof = none;
  current_state = default_state;
  headers = [];
  median_hints = [];
  expected_state = default_state;
  expected_continuation_digest = [];
  first_new_height = 0;
  end_height = 0;
}

abbrev batch_of : Attempt PreparedBatch → PreparedBatch
batch_of (returned (ok b)) = b
batch_of _ = empty_batch

-- The batch of two headers after the first block.
batch : PreparedBatch
batch = batch_of (prepare_batch zero_digest nothing_saved (small_db zeros) zeros none none 2)

prepared :
    prepare_batch zero_digest nothing_saved (small_db zeros) zeros none none 2 ≡ succeed batch
unfolding Db.reverse_bytes Db.chain_work_from_db_bytes Db.header_record_of_row Db.witness_of_row
    Db.collect_records Db.collect_witness Db.load_header_records Db.load_header_record
    Db.load_header_batch_witness Db.load_new_headers Db.load_compact_target Db.load_public_claim
    Db.fill_window Db.record_public_claim Db.genesis_state_from_record Db.state_from_db_at_height
    Hash.sha256d Hash.host_hash_header Hash.continuation_digest Hash.continuation_digest_from_state
    Prepare.load_optional_proof Prepare.successful_claim Prepare.state_of_claim
    Prepare.resolve_current_state Prepare.divergence Prepare.simulate_expected_state
    Prepare.prepare_headers Prepare.prepare_batch Batch.records_to_new_headers
    Batch.median_time_past_hints_from_records Batch.accepted Batch.compute_final_state_with_hints
    Batch.replay_next Batch.replay_rounds Batch.replay_states_through Batch.agrees_at
    Batch.search_end Batch.search_loop Batch.find_first_diverging_state Equal.eq_claim
    Chain.prepare_new_epoch Chain.apply_chain_work_run Chain.flush Chain.activate Chain.extend_run
    Chain.assign_state Chain.try_header Chain.apply_header Chain.apply_loop Chain.apply_headers
    State.timestamp_count State.current_timestamp_slot State.state_to_bytes State.state_at
    State.parse_state State.public_claim State.continuation_from_state State.continuation_bytes
    Work.set_bit Work.div_step Work.div_loop Work.work_from_target Target.significant_bytes
    Target.join_bytes Target.top_bytes Target.pack_bits Target.target_to_bits Target.zero_bytes
    Target.expanded_bytes Target.target_from_bits Target.check_proof_of_work Target.clamped_timespan
    Target.div_timespan Target.calculate_next_target_required U256.value U256.from_le_bytes
    U256.memory U256.to_le_bytes U256.cmp U256.le U256.min_u256 U256.eq_u256 U256.add U256.mul_u32
    U256.sub_limb U256.sub_assign U256.increment_target U256.shl1_with_carry Bytes.le_bytes
    Bytes.from_le Bytes.slice Bytes.put_slice Bytes.word_fields Bytes.read_words Bytes.words_memory
    Bytes.check_exact_len Bytes.check_aligned Bytes.copy_from_bytes Bytes.chunks
    Bytes.slice_from_bytes Header.from_header Header.into_header Header.header_to_bytes
    Header.header_at Header.parse_header Header.new_header_to_bytes Header.new_header_at
    Header.parse_new_header Median.count_loop Median.check_counts Median.median_time_past_hinted
    Median.insert Median.sort Median.median_time_past Claim.verifier_key_to_bytes
    Claim.verifier_key_from_bytes Claim.claim_to_bytes Claim.claim_at Claim.parse_claim
    Claim.continuation_to_bytes Claim.continuation_at Claim.parse_continuation Guest.eq_bytes
    Guest.matches_claim Guest.hash_header Guest.compute_continuation_digest Guest.verify_prior_proof
    Guest.committed_values Guest.validate Guest.main batch
prepared = refl

prepare_batch-Prepared_example :
    Prepared zero_digest nothing_saved (small_db zeros) zeros none none 2 batch
prepare_batch-Prepared_example =
    prepare_batch-Prepared zero_digest nothing_saved (small_db zeros) zeros none none 2 batch
      prepared

-- The search, over a database where all blocks have another hash.
abbrev ones : List ℕ
ones = replicate 32 1

abbrev claim_or_zero : Outcome Claim → Claim
claim_or_zero (returned c) = c
claim_or_zero panicked = record {
  genesis_hash = [];
  tip_hash = [];
  chain_work = zero_u256;
  height = 0;
}

-- The database's claim after each of the two headers.
other_claim : ℕ → Claim
other_claim i = claim_or_zero (load_public_claim (small_db ones) ((1 + i) % 2 ^ 32) zeros)

other_claims :
    (i : ℕ)
    → i < 2
    → load_public_claim (small_db ones) ((1 + i) % 2 ^ 32) zeros ≡ returned (other_claim i)
unfolding Db.reverse_bytes Db.chain_work_from_db_bytes Db.header_record_of_row Db.witness_of_row
    Db.collect_records Db.collect_witness Db.load_header_records Db.load_header_record
    Db.load_header_batch_witness Db.load_new_headers Db.load_compact_target Db.load_public_claim
    Db.fill_window Db.record_public_claim Db.genesis_state_from_record Db.state_from_db_at_height
    U256.value U256.from_le_bytes U256.memory U256.to_le_bytes U256.cmp U256.le U256.min_u256
    U256.eq_u256 U256.add U256.mul_u32 U256.sub_limb U256.sub_assign U256.increment_target
    U256.shl1_with_carry Bytes.le_bytes Bytes.from_le Bytes.slice Bytes.put_slice Bytes.word_fields
    Bytes.read_words Bytes.words_memory Bytes.check_exact_len Bytes.check_aligned
    Bytes.copy_from_bytes Bytes.chunks Bytes.slice_from_bytes other_claim
other_claims zero h = refl
other_claims (suc zero) h = refl
other_claims (suc (suc i)) h = absurd (omega arith)

one_header_ran :
    apply_headers (host_hash_header zero_digest) genesis_state (first_header ∷ []) (0 ∷ [])
    ≡ returned (second_state, ok tt)
unfolding Hash.sha256d Hash.host_hash_header Hash.continuation_digest
    Hash.continuation_digest_from_state Chain.prepare_new_epoch Chain.apply_chain_work_run
    Chain.flush Chain.activate Chain.extend_run Chain.assign_state Chain.try_header
    Chain.apply_header Chain.apply_loop Chain.apply_headers State.timestamp_count
    State.current_timestamp_slot State.state_to_bytes State.state_at State.parse_state
    State.public_claim State.continuation_from_state State.continuation_bytes Work.set_bit
    Work.div_step Work.div_loop Work.work_from_target Target.significant_bytes Target.join_bytes
    Target.top_bytes Target.pack_bits Target.target_to_bits Target.zero_bytes Target.expanded_bytes
    Target.target_from_bits Target.check_proof_of_work Target.clamped_timespan Target.div_timespan
    Target.calculate_next_target_required U256.value U256.from_le_bytes U256.memory U256.to_le_bytes
    U256.cmp U256.le U256.min_u256 U256.eq_u256 U256.add U256.mul_u32 U256.sub_limb U256.sub_assign
    U256.increment_target U256.shl1_with_carry Bytes.le_bytes Bytes.from_le Bytes.slice
    Bytes.put_slice Bytes.word_fields Bytes.read_words Bytes.words_memory Bytes.check_exact_len
    Bytes.check_aligned Bytes.copy_from_bytes Bytes.chunks Bytes.slice_from_bytes Header.from_header
    Header.into_header Header.header_to_bytes Header.header_at Header.parse_header
    Header.new_header_to_bytes Header.new_header_at Header.parse_new_header Median.count_loop
    Median.check_counts Median.median_time_past_hinted Median.insert Median.sort
    Median.median_time_past Claim.verifier_key_to_bytes Claim.verifier_key_from_bytes
    Claim.claim_to_bytes Claim.claim_at Claim.parse_claim Claim.continuation_to_bytes
    Claim.continuation_at Claim.parse_continuation Guest.eq_bytes Guest.matches_claim
    Guest.hash_header Guest.compute_continuation_digest Guest.verify_prior_proof
    Guest.committed_values Guest.validate Guest.main
one_header_ran = refl

claims_differ : public_claim second_state ≢ other_claim 0
unfolding Db.reverse_bytes Db.chain_work_from_db_bytes Db.header_record_of_row Db.witness_of_row
    Db.collect_records Db.collect_witness Db.load_header_records Db.load_header_record
    Db.load_header_batch_witness Db.load_new_headers Db.load_compact_target Db.load_public_claim
    Db.fill_window Db.record_public_claim Db.genesis_state_from_record Db.state_from_db_at_height
    U256.value U256.from_le_bytes U256.memory U256.to_le_bytes U256.cmp U256.le U256.min_u256
    U256.eq_u256 U256.add U256.mul_u32 U256.sub_limb U256.sub_assign U256.increment_target
    U256.shl1_with_carry Bytes.le_bytes Bytes.from_le Bytes.slice Bytes.put_slice Bytes.word_fields
    Bytes.read_words Bytes.words_memory Bytes.check_exact_len Bytes.check_aligned
    Bytes.copy_from_bytes Bytes.chunks Bytes.slice_from_bytes State.timestamp_count
    State.current_timestamp_slot State.state_to_bytes State.state_at State.parse_state
    State.public_claim State.continuation_from_state State.continuation_bytes other_claim
claims_differ e =
    let first_byte : ◌≡◌ {A = ℕ} 0 1 = ap (λ (c : Claim). get_or c.tip_hash 0 0) e in omega arith

find_first_diverging_state_lem_example :
    (k : ℕ) × (u : State) × (find_first_diverging_state zero_digest
        (first_header ∷ [])
        (0 ∷ [])
        (small_db ones)
        zeros
        1
        genesis_state
      ≡ returned (k, u))
    × FirstDivergence zero_digest genesis_state (first_header ∷ []) (0 ∷ []) other_claim k u
find_first_diverging_state_lem_example =
    find_first_diverging_state_lem zero_digest genesis_state second_state (first_header ∷ [])
      (0 ∷ []) (small_db ones) zeros 1 other_claim (omega arith) (omega arith) refl one_header_ran
      (λ i h. other_claims i (omega arith)) claims_differ

first_header-fits : All IsNewHeader (first_header ∷ [])
first_header-fits = (
  record {
    version_fits = omega arith;
    root_length = refl;
    timestamp_fits = omega arith;
    nonce_fits = omega arith;
  },
  tt,
)

apply_headers-Typed_example : Typed second_state
unfolding Hash.host_hash_header Hash.sha256d
apply_headers-Typed_example =
    apply_headers-Typed zero_hash genesis_state second_state (first_header ∷ []) (0 ∷ []) (ok tt)
      zero_hash-IsHash genesis_state-Typed first_header-fits refl one_header_ran
