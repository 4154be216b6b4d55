-- ===== src/Witnesses/ChainRuns.antt =====
-- Runs of `apply_headers`, and its theorems at them.
use zkpow.Prelude.{◌≡◌, ◌↔◌, refl, arith, true, [], ◌∷◌, Result, ok, err, returned}
use zkpow.Bytes
use zkpow.U256
use zkpow.Header
use zkpow.Target
use zkpow.State
use zkpow.State.{State, default_state}
use zkpow.Median
use zkpow.Median.{median_time_past_hinted, median_time_past}
use zkpow.Median.Sorted.{median_time_past_hinted_iff}
use zkpow.Chain
use zkpow.Chain.{apply_headers, ApplyFailure, timestamp_too_old}
use zkpow.Chain.Eager.{eager_loop}
use zkpow.Chain.Refine.{apply_headers_refines}
use zkpow.U256.{zero_u256}
use zkpow.Chain.Complete.{apply_headers_complete}
use zkpow.Chain.Rules.{Follows, done, step, same}
use zkpow.Chain.Verdicts.{Verdict, apply_headers-Verdict}
use zkpow.Chain.Hints.{true_medians, apply_headers_returns}
use zkpow.Chain.Batches.{and_then, apply_headers-append}
use zkpow.Witnesses.{
  first_header, old_header, zero_hash, first_state, zero_hash-IsHash, default_state-IsState,
  zero_u256-IsU256,
}

first_run :
    apply_headers zero_hash default_state (first_header ∷ []) (0 ∷ [])
    ≡ returned (first_state, ok tt)
unfolding Chain.apply_headers Chain.apply_loop Chain.apply_header Chain.flush Chain.activate
    Chain.try_header Chain.extend_run Chain.assign_state Chain.apply_chain_work_run
    Median.median_time_past_hinted State.timestamp_count zkpow.Target.check_proof_of_work U256.le
    U256.from_le_bytes Bytes.from_le Bytes.slice U256.add Header.into_header U256.mul_u32
first_run = refl

-- The second of two headers is too old: the first one's state is kept.
abbrev second_failure : ApplyFailure
second_failure = record {
  last_valid_state = first_state;
  error_code = timestamp_too_old;
  failure_height = 2;
}

second_run :
    apply_headers zero_hash default_state (first_header ∷ old_header ∷ []) (0 ∷ 5 ∷ [])
    ≡ returned (first_state, err second_failure)
unfolding Chain.apply_headers Chain.apply_loop Chain.apply_header Chain.flush Chain.activate
    Chain.try_header Chain.extend_run Chain.assign_state Chain.apply_chain_work_run
    Median.median_time_past_hinted State.timestamp_count zkpow.Target.check_proof_of_work U256.le
    U256.from_le_bytes Bytes.from_le Bytes.slice U256.add Header.into_header U256.mul_u32
second_run = refl

apply_headers_refines_example :
    apply_headers zero_hash default_state (first_header ∷ old_header ∷ []) (0 ∷ 5 ∷ [])
    ≡ eager_loop zero_hash default_state (first_header ∷ old_header ∷ []) (0 ∷ 5 ∷ [])
apply_headers_refines_example =
    apply_headers_refines zero_hash default_state (first_header ∷ old_header ∷ []) (0 ∷ 5 ∷ [])
      (omega arith) refl

apply_headers-Verdict_example :
    Verdict zero_hash default_state
      (first_header ∷ old_header ∷ [])
      first_state
      (err second_failure)
apply_headers-Verdict_example =
    apply_headers-Verdict zero_hash default_state first_state (first_header ∷ old_header ∷ [])
      (0 ∷ 5 ∷ []) (err second_failure) zero_hash-IsHash default_state-IsState (omega arith) refl
      second_run

apply_headers_returns_example :
    (t : State) × (r : Result ApplyFailure (Unit {0})) × (apply_headers zero_hash default_state
        (first_header ∷ [])
        (true_medians zero_hash default_state (first_header ∷ []))
      ≡ returned (t, r))
    × Verdict zero_hash default_state (first_header ∷ []) t r
apply_headers_returns_example =
    apply_headers_returns zero_hash default_state (first_header ∷ []) zero_hash-IsHash
      default_state-IsState (omega arith)

apply_headers-append_example :
    apply_headers zero_hash default_state (first_header ∷ old_header ∷ []) (0 ∷ 5 ∷ [])
    ≡ and_then
        (apply_headers zero_hash default_state (first_header ∷ []) (0 ∷ []))
        (λ t. apply_headers zero_hash t (old_header ∷ []) (5 ∷ []))
apply_headers-append_example =
    apply_headers-append zero_hash default_state (first_header ∷ []) (old_header ∷ []) (0 ∷ [])
      (5 ∷ []) (omega arith) refl refl

median_time_past_hinted_iff_example :
    (median_time_past_hinted first_state 5 ≡ true) ↔ (5 ≡ median_time_past first_state)
median_time_past_hinted_iff_example = median_time_past_hinted_iff first_state 5 refl

Follows-first_header : Follows zero_hash default_state (first_header ∷ []) first_state
unfolding Median.median_time_past U256.value U256.from_le_bytes Bytes.from_le Bytes.slice
    Header.into_header State.timestamp_count
Follows-first_header =
    step
      (record {
        epoch = record { nbits = 0; target = zero_u256; work = zero_u256 };
        difficulty = same refl;
        after_median = omega arith;
        proof_of_work = omega arith;
        header = refl;
        block_hash = refl;
        genesis_hash = refl;
        height = refl;
        work_fits = zero_u256-IsU256;
        work_added = refl;
        current_nbits = refl;
        current_target = refl;
        current_work = refl;
        epoch_start = refl;
        timestamps = refl;
      })
      (done first_state)

apply_headers_complete_example :
    apply_headers zero_hash default_state
      (first_header ∷ [])
      (true_medians zero_hash default_state (first_header ∷ []))
    ≡ returned (first_state, ok tt)
apply_headers_complete_example =
    apply_headers_complete zero_hash default_state first_state (first_header ∷ []) zero_hash-IsHash
      default_state-IsState (omega arith) Follows-first_header
