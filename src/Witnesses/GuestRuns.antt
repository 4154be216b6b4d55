-- ===== src/Witnesses/GuestRuns.antt =====
-- A run of the guest on one header from the default state.
use zkpow.Prelude.{
  ℕ, ◌≤◌, ◌≡◌, refl, arith, List, [], ◌∷◌, ◌++◌, replicate, Outcome, returned, panicked, Holds,
  Holds-ok,
}
use zkpow.U256
use zkpow.Bytes
use zkpow.Input
use zkpow.Claim
use zkpow.Header
use zkpow.Chain
use zkpow.Median
use zkpow.Target
use zkpow.Sha256
use zkpow.PublicValues
use zkpow.U256.{value}
use zkpow.State
use zkpow.State.{State, parse_state, default_state}
use zkpow.Target.{genesis_target}
use zkpow.Guest
use zkpow.Guest.{Stdin, main}
use zkpow.Guest.Soundness.{Shown, main-Shown}
use zkpow.Witnesses.{same_words, zero_state, accept_all, zeros-IsByte}

-- The default state with its claim, a header with timestamp 5, and its median 0.
abbrev stdin : Stdin
stdin = record {
  input_bytes = replicate 168 0;
  state_bytes = replicate 296 0;
  header_hint_bytes = replicate 36 0 ++ (5 ∷ replicate 7 0);
  median_hint_bytes = replicate 4 0;
  header_hint_address = 4096;
  median_hint_address = 8192;
}

-- What a run commits to; nothing, if it panics.
abbrev committed : Outcome (List ℕ) → List ℕ
committed (returned bytes) = bytes
committed panicked = []

abbrev committed_bytes : List ℕ
committed_bytes = replicate 96 0 ++ (1 ∷ replicate 72 0)

run : main same_words zero_state accept_all stdin ≡ returned committed_bytes
unfolding Guest.main Guest.matches_claim Guest.eq_bytes Guest.validate Guest.verify_prior_proof
    Guest.hash_header Guest.compute_continuation_digest Guest.committed_values
    Input.parse_proof_carrying_state Input.split_pcs_wire Input.parse_proof Input.proof_at
    Input.parse_new_headers Input.parse_median_hints Bytes.check_exact_len Bytes.slice
    Bytes.copy_from_bytes Bytes.from_le Bytes.slice_from_bytes Bytes.check_aligned Bytes.chunks
    Bytes.le_bytes Bytes.put_slice Bytes.word_fields Bytes.read_words Bytes.words_memory
    Claim.parse_claim Claim.claim_at Claim.verifier_key_to_bytes Claim.verifier_key_from_bytes
    Claim.continuation_to_bytes State.parse_state State.state_at State.timestamp_count
    State.current_timestamp_slot State.public_claim State.continuation_from_state
    State.continuation_bytes U256.eq_u256 U256.from_le_bytes U256.memory U256.to_le_bytes U256.le
    U256.cmp U256.add U256.mul_u32 Header.header_at Header.new_header_at Header.into_header
    Header.header_to_bytes Chain.apply_headers Chain.apply_loop Chain.apply_header Chain.flush
    Chain.activate Chain.try_header Chain.extend_run Chain.assign_state Chain.apply_chain_work_run
    Median.median_time_past_hinted Median.count_loop Median.check_counts Target.check_proof_of_work
    Sha256.state_to_hash Sha256.low_be_bytes Sha256.sha256_116bytes Sha256.sha256d_80bytes
    Sha256.sha256_80bytes Sha256.sha256_32bytes Sha256.assign_words Sha256.load_loop
    Sha256.be_u64_from_slice Sha256.be_u64 PublicValues.success PublicValues.public_values_to_bytes
run = refl

parsed_limit :
    Holds
      (λ (s : State). value s.current_target ≤ value genesis_target)
      (parse_state stdin.state_bytes)
unfolding State.parse_state value Bytes.copy_from_bytes State.state_at U256.from_le_bytes
    Bytes.from_le Bytes.slice
parsed_limit = omega arith

main-Shown_example : Shown same_words zero_state accept_all stdin committed_bytes
main-Shown_example =
    main-Shown same_words zero_state accept_all stdin committed_bytes (zeros-IsByte 296)
      (λ s e.
        Holds-ok (λ (s : State). value s.current_target ≤ value genesis_target)
          (parse_state stdin.state_bytes) s parsed_limit e)
      run
