-- ===== src/Witnesses/SessionRuns.antt =====
-- A session of two batches, which ends where the database has no more headers; and settings.
use zkpow.Prelude.{
  ℕ, ◌≤◌, ◌≡◌, ap, ◌⊎◌, refl, arith, List, [], ◌∷◌, none, Result, ok, err, Outcome, returned,
  panicked, true, false, length,
}
use zkpow.Host.Db
use zkpow.Host.Hash
use zkpow.Host.Prepare
use zkpow.Host.Batch
use zkpow.Host.Equal
use zkpow.Host.Execute
use zkpow.PublicValues
use zkpow.Input
use zkpow.Host.Session
use zkpow.Host.Settings
use zkpow.Host.Prover
use zkpow.Host.Attempt
use zkpow.Memory
use zkpow.Chain
use zkpow.State
use zkpow.Work
use zkpow.Target
use zkpow.U256
use zkpow.Bytes
use zkpow.Header
use zkpow.Median
use zkpow.Claim
use zkpow.Guest
use zkpow.Host.Attempt.{Attempt, BoxError, succeed, fail, from_sdk}
use zkpow.Host.Batch.{SavedProof, PreparedBatch}
use zkpow.Host.Db.{HeaderRecord, load_header_record}
use zkpow.Host.Db.Heights.{GenesisAtZero}
use zkpow.Memory.{StageSample, iterations, new_history}
use zkpow.Host.Settings.{
  EnvSource, VarError, not_present, Setting, env_execute_only, ProofGenerationConfig, SettingError,
  config_from_source, mock,
}
use zkpow.Host.Settings.Config.{Coherent, config_from_source-Coherent}
use zkpow.Host.Session.{System, World, Session, run_next, run_batch_session}
use zkpow.Host.Session.Batches.{run_batch_session-counts}
use zkpow.Host.Session.Adjacent.{Adjacent, run_batch_session-Adjacent}
use zkpow.Sha256
use zkpow.Guest.{main}
use zkpow.Host.Execute.Accepted
use zkpow.Host.Execute.Accepted.{received, unverified}
use zkpow.Witnesses.{same_words}
use zkpow.Witnesses.HostData.{small_db}

-- The settings of a run with `ZKPOW_EXECUTE_ONLY=on` and nothing else.
abbrev only_on : EnvSource
only_on env_execute_only = ok (111 ∷ 110 ∷ [])
only_on _ = err not_present

abbrev config_of : Result SettingError ProofGenerationConfig → ProofGenerationConfig
config_of (ok c) = c
config_of (err e) = record {
  prev_proof_path = none;
  trusted_start_height = none;
  num_headers = 0;
  batch_count = 0;
  db_path = [];
  output_dir = [];
  generate_groth16 = false;
  execute_only = false;
  prover_backend = mock;
  cuda_device_id = none;
}

config : ProofGenerationConfig
config = config_of (config_from_source false (47 ∷ []) only_on)

configured : config_from_source false (47 ∷ []) only_on ≡ ok config
unfolding Settings.mode Settings.to_ascii_lowercase Settings.bool_of Settings.parse_bool_env_or
    Settings.parse_bool_env Settings.parse_digits Settings.parse_unsigned Settings.parse_u32
    Settings.parse_u32_env Settings.parse_u32_env_or Settings.parse_path_env
    Settings.ensure_cuda_requested_configuration Settings.backend_for Settings.config_from_source
    Settings.hex_decode Settings.hash_of_hex Settings.parse_genesis_hash Guest.eq_bytes
    Guest.matches_claim Guest.hash_header Guest.compute_continuation_digest Guest.verify_prior_proof
    Guest.committed_values Guest.validate Guest.main config
configured = refl

config_from_source-Coherent_example : Coherent false config
config_from_source-Coherent_example =
    config_from_source-Coherent false (47 ∷ []) only_on config configured

-- The hash of the first block of the network, which stands in for all digests.
abbrev known_hash : List ℕ
known_hash =
    111 ∷ 226 ∷ 140 ∷ 10 ∷ 182 ∷ 241 ∷ 179 ∷ 114 ∷ 193 ∷ 166 ∷ 162 ∷ 70 ∷ 174 ∷ 99 ∷ 247 ∷ 79 ∷ 147
    ∷ 30 ∷ 131 ∷ 101 ∷ 225 ∷ 90 ∷ 8 ∷ 156 ∷ 104 ∷ 214 ∷ 25 ∷ 0 ∷ 0 ∷ 0 ∷ 0 ∷ 0 ∷ []

abbrev one_header_each : ProofGenerationConfig
one_header_each = record {
  prev_proof_path = none;
  trusted_start_height = none;
  num_headers = 1;
  batch_count = 5;
  db_path = [];
  output_dir = [];
  generate_groth16 = false;
  execute_only = true;
  prover_backend = mock;
  cuda_device_id = none;
}

-- A system call that gives this hash.
abbrev known_words : List ℕ → List ℕ → List ℕ
known_words w state =
    0x6fe2_8c0a ∷ 0xb6f1_b372 ∷ 0xc1a6_a246 ∷ 0xae63_f74f ∷ 0x931e_8365 ∷ 0xe15a_089c ∷ 0x68d6_1900
    ∷ 0 ∷ []

-- An execution that commits to what the guest computes is the guest itself.
abbrev outcome_of : Outcome (List ℕ) → Attempt (List ℕ)
outcome_of (returned bytes) = succeed bytes
outcome_of panicked = fail (from_sdk [])

system : System (List ℕ)
system = record {
  digest = λ bytes. known_hash;
  compute_pv_digest = λ bytes. known_hash;
  load = λ disk path. err (from_sdk []);
  save = λ disk path proof. ok disk;
  create_dir_all = λ disk path. ok disk;
  set_up = λ wanted. fail (from_sdk []);
  execute = λ stdin. outcome_of (main same_words known_words unverified (received 0 0 stdin));
  prove = λ stdin. fail (from_sdk []);
  verify = λ proof key. fail (from_sdk []);
  generate_groth16_proof = λ proof key. fail (from_sdk []);
  compressed_file = λ dir first last. dir;
  groth16_file = λ dir first last. dir;
  log_point = λ n. record { rss_kb = n; live_kb = n };
}

abbrev session_of : Attempt (Session (List ℕ)) → Session (List ℕ)
session_of (returned (ok end)) = end
session_of _ = record {
  world = record { disk = []; prepared = none };
  memory_history = new_history [];
  current_prev_proof = none;
  trusted_start_height = none;
  batch_count = 0;
  completed = [];
}

abbrev world : World (List ℕ)
world = record { disk = []; prepared = none }

abbrev labels : List (List ℕ)
labels = [] ∷ [] ∷ [] ∷ []

session_end : Session (List ℕ)
session_end =
    session_of (run_batch_session system (small_db known_hash) one_header_each [] world labels)

session_ran :
    run_batch_session system (small_db known_hash) one_header_each [] world labels
    ≡ succeed session_end
unfolding Db.reverse_bytes Db.chain_work_from_db_bytes Db.header_record_of_row Db.witness_of_row
    Db.collect_records Db.collect_witness Db.load_header_records Db.load_header_record
    Db.load_header_batch_witness Db.load_new_headers Db.load_compact_target Db.load_public_claim
    Db.fill_window Db.record_public_claim Db.genesis_state_from_record Db.state_from_db_at_height
    Hash.sha256d Hash.host_hash_header Hash.continuation_digest Hash.continuation_digest_from_state
    Prepare.load_optional_proof Prepare.successful_claim Prepare.state_of_claim
    Prepare.resolve_current_state Prepare.divergence Prepare.simulate_expected_state
    Prepare.prepare_headers Prepare.prepare_batch Batch.records_to_new_headers
    Batch.median_time_past_hints_from_records Batch.accepted Batch.compute_final_state_with_hints
    Batch.replay_next Batch.replay_rounds Batch.replay_states_through Batch.agrees_at
    Batch.search_end Batch.search_loop Batch.find_first_diverging_state Equal.eq_claim
    Execute.build_stdin Execute.exit_code_of Execute.verify_parsed Execute.verify_public_values
    Execute.build_proof Execute.run_guest Execute.execute_batch_with_prover Execute.stand_in_proof
    Execute.execute_batch_without_proof PublicValues.as_byte PublicValues.try_from
    PublicValues.success PublicValues.failure PublicValues.public_values_to_bytes
    PublicValues.public_values_at PublicValues.parse_minimal PublicValues.minimal_chain_work
    PublicValues.minimal_error_code PublicValues.parse_public_values PublicValues.claim_of
    PublicValues.continuation_digest_of PublicValues.verifier_key_of Input.proof_to_bytes
    Input.proof_at Input.parse_proof Input.serialize_new_headers Input.parse_new_headers
    Input.serialize_median_hints Input.parse_median_hints Input.split_pcs_wire
    Input.parse_proof_carrying_state Input.proof_carrying_state_to_bytes Session.execution_only
    Session.genesis_hash_or_fail Session.prepared_for Session.wrap_proof Session.prove_batch
    Session.run_with_prover Session.run_prepared Session.execute_without_setup
    Session.run_with_setup Session.generate_and_save_proofs Session.batch_settings
    Session.after_batch Session.count_up Session.count_down Session.end_batch Session.run_next
    Session.session_loop Session.run_batch_session Settings.mode Settings.to_ascii_lowercase
    Settings.bool_of Settings.parse_bool_env_or Settings.parse_bool_env Settings.parse_digits
    Settings.parse_unsigned Settings.parse_u32 Settings.parse_u32_env Settings.parse_u32_env_or
    Settings.parse_path_env Settings.ensure_cuda_requested_configuration Settings.backend_for
    Settings.config_from_source Settings.hex_decode Settings.hash_of_hex Settings.parse_genesis_hash
    Prover.eq_backend Prover.eq_device Prover.eq_config Prover.build_prover
    Prover.get_prepared_prover Prover.generate_compressed_proof Attempt.starts_with
    Attempt.is_header_exhaustion_error Memory.metric_value Memory.new_history Memory.iterations
    Memory.sample Memory.push_iteration Memory.baseline_delta Sha256.low_be_bytes
    Sha256.state_to_hash Sha256.be_u64 Sha256.be_u64_from_slice Sha256.load_loop Sha256.assign_words
    Sha256.sha256_80bytes Sha256.sha256_32bytes Sha256.sha256_169bytes Sha256.sha256d_80bytes
    Sha256.sha256_116bytes Chain.prepare_new_epoch Chain.apply_chain_work_run Chain.flush
    Chain.activate Chain.extend_run Chain.assign_state Chain.try_header Chain.apply_header
    Chain.apply_loop Chain.apply_headers State.timestamp_count State.current_timestamp_slot
    State.state_to_bytes State.state_at State.parse_state State.public_claim
    State.continuation_from_state State.continuation_bytes Work.set_bit Work.div_step Work.div_loop
    Work.work_from_target Target.significant_bytes Target.join_bytes Target.top_bytes
    Target.pack_bits Target.target_to_bits Target.zero_bytes Target.expanded_bytes
    Target.target_from_bits Target.check_proof_of_work Target.clamped_timespan Target.div_timespan
    Target.calculate_next_target_required U256.value U256.from_le_bytes U256.memory U256.to_le_bytes
    U256.cmp U256.le U256.min_u256 U256.eq_u256 U256.add U256.mul_u32 U256.sub_limb U256.sub_assign
    U256.increment_target U256.shl1_with_carry Bytes.le_bytes Bytes.from_le Bytes.slice
    Bytes.put_slice Bytes.word_fields Bytes.read_words Bytes.words_memory Bytes.check_exact_len
    Bytes.check_aligned Bytes.copy_from_bytes Bytes.chunks Bytes.slice_from_bytes Header.from_header
    Header.into_header Header.header_to_bytes Header.header_at Header.parse_header
    Header.new_header_to_bytes Header.new_header_at Header.parse_new_header Median.count_loop
    Median.check_counts Median.median_time_past_hinted Median.insert Median.sort
    Median.median_time_past Claim.verifier_key_to_bytes Claim.verifier_key_from_bytes
    Claim.claim_to_bytes Claim.claim_at Claim.parse_claim Claim.continuation_to_bytes
    Claim.continuation_at Claim.parse_continuation Guest.eq_bytes Guest.matches_claim
    Guest.hash_header Guest.compute_continuation_digest Guest.verify_prior_proof
    Guest.committed_values Guest.validate Guest.main session_end system Accepted.received
session_ran = refl

-- Two batches were run.
two_batches : session_end.batch_count ≡ 2
unfolding Db.reverse_bytes Db.chain_work_from_db_bytes Db.header_record_of_row Db.witness_of_row
    Db.collect_records Db.collect_witness Db.load_header_records Db.load_header_record
    Db.load_header_batch_witness Db.load_new_headers Db.load_compact_target Db.load_public_claim
    Db.fill_window Db.record_public_claim Db.genesis_state_from_record Db.state_from_db_at_height
    Hash.sha256d Hash.host_hash_header Hash.continuation_digest Hash.continuation_digest_from_state
    Prepare.load_optional_proof Prepare.successful_claim Prepare.state_of_claim
    Prepare.resolve_current_state Prepare.divergence Prepare.simulate_expected_state
    Prepare.prepare_headers Prepare.prepare_batch Batch.records_to_new_headers
    Batch.median_time_past_hints_from_records Batch.accepted Batch.compute_final_state_with_hints
    Batch.replay_next Batch.replay_rounds Batch.replay_states_through Batch.agrees_at
    Batch.search_end Batch.search_loop Batch.find_first_diverging_state Equal.eq_claim
    Execute.build_stdin Execute.exit_code_of Execute.verify_parsed Execute.verify_public_values
    Execute.build_proof Execute.run_guest Execute.execute_batch_with_prover Execute.stand_in_proof
    Execute.execute_batch_without_proof PublicValues.as_byte PublicValues.try_from
    PublicValues.success PublicValues.failure PublicValues.public_values_to_bytes
    PublicValues.public_values_at PublicValues.parse_minimal PublicValues.minimal_chain_work
    PublicValues.minimal_error_code PublicValues.parse_public_values PublicValues.claim_of
    PublicValues.continuation_digest_of PublicValues.verifier_key_of Input.proof_to_bytes
    Input.proof_at Input.parse_proof Input.serialize_new_headers Input.parse_new_headers
    Input.serialize_median_hints Input.parse_median_hints Input.split_pcs_wire
    Input.parse_proof_carrying_state Input.proof_carrying_state_to_bytes Session.execution_only
    Session.genesis_hash_or_fail Session.prepared_for Session.wrap_proof Session.prove_batch
    Session.run_with_prover Session.run_prepared Session.execute_without_setup
    Session.run_with_setup Session.generate_and_save_proofs Session.batch_settings
    Session.after_batch Session.count_up Session.count_down Session.end_batch Session.run_next
    Session.session_loop Session.run_batch_session Settings.mode Settings.to_ascii_lowercase
    Settings.bool_of Settings.parse_bool_env_or Settings.parse_bool_env Settings.parse_digits
    Settings.parse_unsigned Settings.parse_u32 Settings.parse_u32_env Settings.parse_u32_env_or
    Settings.parse_path_env Settings.ensure_cuda_requested_configuration Settings.backend_for
    Settings.config_from_source Settings.hex_decode Settings.hash_of_hex Settings.parse_genesis_hash
    Prover.eq_backend Prover.eq_device Prover.eq_config Prover.build_prover
    Prover.get_prepared_prover Prover.generate_compressed_proof Attempt.starts_with
    Attempt.is_header_exhaustion_error Memory.metric_value Memory.new_history Memory.iterations
    Memory.sample Memory.push_iteration Memory.baseline_delta Sha256.low_be_bytes
    Sha256.state_to_hash Sha256.be_u64 Sha256.be_u64_from_slice Sha256.load_loop Sha256.assign_words
    Sha256.sha256_80bytes Sha256.sha256_32bytes Sha256.sha256_169bytes Sha256.sha256d_80bytes
    Sha256.sha256_116bytes Chain.prepare_new_epoch Chain.apply_chain_work_run Chain.flush
    Chain.activate Chain.extend_run Chain.assign_state Chain.try_header Chain.apply_header
    Chain.apply_loop Chain.apply_headers State.timestamp_count State.current_timestamp_slot
    State.state_to_bytes State.state_at State.parse_state State.public_claim
    State.continuation_from_state State.continuation_bytes Work.set_bit Work.div_step Work.div_loop
    Work.work_from_target Target.significant_bytes Target.join_bytes Target.top_bytes
    Target.pack_bits Target.target_to_bits Target.zero_bytes Target.expanded_bytes
    Target.target_from_bits Target.check_proof_of_work Target.clamped_timespan Target.div_timespan
    Target.calculate_next_target_required U256.value U256.from_le_bytes U256.memory U256.to_le_bytes
    U256.cmp U256.le U256.min_u256 U256.eq_u256 U256.add U256.mul_u32 U256.sub_limb U256.sub_assign
    U256.increment_target U256.shl1_with_carry Bytes.le_bytes Bytes.from_le Bytes.slice
    Bytes.put_slice Bytes.word_fields Bytes.read_words Bytes.words_memory Bytes.check_exact_len
    Bytes.check_aligned Bytes.copy_from_bytes Bytes.chunks Bytes.slice_from_bytes Header.from_header
    Header.into_header Header.header_to_bytes Header.header_at Header.parse_header
    Header.new_header_to_bytes Header.new_header_at Header.parse_new_header Median.count_loop
    Median.check_counts Median.median_time_past_hinted Median.insert Median.sort
    Median.median_time_past Claim.verifier_key_to_bytes Claim.verifier_key_from_bytes
    Claim.claim_to_bytes Claim.claim_at Claim.parse_claim Claim.continuation_to_bytes
    Claim.continuation_at Claim.parse_continuation Guest.eq_bytes Guest.matches_claim
    Guest.hash_header Guest.compute_continuation_digest Guest.verify_prior_proof
    Guest.committed_values Guest.validate Guest.main session_end system Accepted.received
two_batches = refl

genesis_at_zero :
    (genesis_hash : List ℕ) → GenesisAtZero system.digest (small_db known_hash) genesis_hash
unfolding Db.reverse_bytes Db.chain_work_from_db_bytes Db.header_record_of_row Db.witness_of_row
    Db.collect_records Db.collect_witness Db.load_header_records Db.load_header_record
    Db.load_header_batch_witness Db.load_new_headers Db.load_compact_target Db.load_public_claim
    Db.fill_window Db.record_public_claim Db.genesis_state_from_record Db.state_from_db_at_height
    Bytes.le_bytes Bytes.from_le Bytes.slice Bytes.put_slice Bytes.word_fields Bytes.read_words
    Bytes.words_memory Bytes.check_exact_len Bytes.check_aligned Bytes.copy_from_bytes Bytes.chunks
    Bytes.slice_from_bytes U256.value U256.from_le_bytes U256.memory U256.to_le_bytes U256.cmp
    U256.le U256.min_u256 U256.eq_u256 U256.add U256.mul_u32 U256.sub_limb U256.sub_assign
    U256.increment_target U256.shl1_with_carry
genesis_at_zero genesis_hash r e =
    let height_is : 0 ≡ r.height =
      ap (λ (o : Outcome HeaderRecord). elim o [ returned x ↦ x.height | panicked ↦ 0 ]) e in
    omega arith

run_batch_session-counts_example :
    (session_end.batch_count ≤ 5)
    × (length session_end.completed ≡ session_end.batch_count)
    × (iterations session_end.memory_history ≡ session_end.batch_count)
    × ((session_end.batch_count ≡ 5)
        ⊎ (run_next system (small_db known_hash) one_header_each [] session_end
            ≡ succeed (false, session_end)))
run_batch_session-counts_example =
    run_batch_session-counts system (small_db known_hash) one_header_each [] world labels
      session_end session_ran

run_batch_session-Adjacent_example : Adjacent session_end.completed
run_batch_session-Adjacent_example =
    run_batch_session-Adjacent system (small_db known_hash) one_header_each [] world labels
      session_end genesis_at_zero refl refl session_ran
