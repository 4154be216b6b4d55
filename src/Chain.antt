-- ===== src/Chain.antt =====
-- `State::apply_headers` of crates/core/src/state.rs with what it calls. The hash of a header is
-- the parameter `hash_header`, as in the source. Heights are `u32`, and `height + 1` wraps as it
-- does in the release profile.
pub mod Eager
pub mod Pending
pub mod Refine
pub mod Rules
pub mod Verdicts
pub mod Batches
pub mod Hints
pub mod Complete
pub mod Typed
pub mod SameHash
use zkpow.Prelude.{
  ℕ, ◌+◌, ◌%◌, ◌^◌, Bool, List, [], ◌∷◌, Option, none, some, Result, ok, err, Outcome, returned,
  panicked, leb, ltb, ◌==◌, if◌then◌else◌, not, length, get_or, set,
}
use zkpow.U256
use zkpow.U256.{U256, TargetError, eq_u256}
use zkpow.Work.{work_from_target}
use zkpow.Header.{Header, NewHeader, into_header}
use zkpow.State.{State, window_size, current_timestamp_slot}
use zkpow.Median.{median_time_past_hinted}
use zkpow.Target.{calculate_next_target_required, check_proof_of_work, epoch_length}

pub data ValidationErrorCode : Type 0 where
  header_payload_length_invalid : ValidationErrorCode
  pow_insufficient : ValidationErrorCode
  timestamp_too_old : ValidationErrorCode
  genesis_hash_mismatch : ValidationErrorCode

pub record ApplyFailure : Type 0 where
  pub last_valid_state : State
  pub error_code : ValidationErrorCode
  pub failure_height : ℕ

-- The difficulty values that hold for a block.
pub record Epoch : Type 0 where
  pub nbits : ℕ
  pub target : U256
  pub work : U256

unfoldable pub prepare_new_epoch : State → ℕ → Result TargetError Epoch
prepare_new_epoch s previous_timestamp =
    let (nbits, target) =
      calculate_next_target_required s.current_target s.epoch_start_timestamp previous_timestamp in
    elim (work_from_target target) [
      | ok work ↦ ok (record { nbits = nbits; target = target; work = work })
      | err e ↦ err e
    ]

unfoldable pub apply_chain_work_run : State → U256 → ℕ → State
apply_chain_work_run s run_work run_count =
    if ltb 0 run_count
    then record s { chain_work = U256.add s.chain_work (U256.mul_u32 run_work run_count) }
    else s

-- The loop's variables: the state, and the run of blocks whose work is not added yet.
pub record Run : Type 0 where
  pub state : State
  pub pending_work : Option U256
  pub pending_count : ℕ

-- `flush_pending_chain_work`
unfoldable pub flush : Run → Run
unfolding apply_chain_work_run
flush r = record {
  state = elim r.pending_work [
    | some work ↦ apply_chain_work_run r.state work r.pending_count
    | none ↦ r.state
  ];
  pending_work = none;
  pending_count = 0;
}

abbrev pub candidate_height : State → ℕ
candidate_height s = (s.height + 1) % 2 ^ 32

abbrev pub previous_timestamp : State → ℕ
previous_timestamp s = get_or s.timestamps (current_timestamp_slot s) 0

abbrev pub is_boundary : State → Bool
is_boundary s = candidate_height s % epoch_length == 0

-- The difficulty that holds for the candidate: at a boundary the pending run is flushed and the
-- next epoch prepared; `expect` panics on an error.
unfoldable pub activate : Run → Outcome (Run × Epoch)
activate r =
    let s = r.state in
    if is_boundary s
    then elim (prepare_new_epoch (flush r).state (previous_timestamp s)) [
      | ok epoch ↦ returned (flush r, epoch)
      | err e ↦ panicked
    ]
    else returned
        (r, record { nbits = s.current_nbits; target = s.current_target; work = s.current_work })

-- `if pending_run_work != Some(active_work) { flush; pending_run_work = Some(active_work) }`,
-- then `pending_run_count += 1`.
unfoldable pub extend_run : Run → U256 → Run
unfolding flush
extend_run r work =
    let started = record (flush r) { pending_work = some work; pending_count = 1 } in
    elim r.pending_work [
      | some run_work ↦
          if eq_u256 run_work work
          then record r { pending_count = (r.pending_count + 1) % 2 ^ 32 }
          else started
      | none ↦ started
    ]

-- The assignments that accept a header.
unfoldable pub assign_state : State → Header → List ℕ → Epoch → State
assign_state s header block_hash epoch =
    let height = candidate_height s in
    record s {
      height = height;
      timestamps = set s.timestamps (height % window_size) header.timestamp;
      current_nbits = epoch.nbits;
      current_target = epoch.target;
      current_work = epoch.work;
      epoch_start_timestamp =
          if height % epoch_length == 0 then header.timestamp else s.epoch_start_timestamp;
      header = header;
      block_hash = block_hash;
    }

-- What one round of the loop does: go on, return early, or panic.
pub data Round {ℓ} (A : Type ℓ) : Type ℓ where
  next : A → Round A
  reject : ApplyFailure → Round A
  stop : Round A

module _ (hash_header : Header → List ℕ) where
  -- The rest of a round, once the difficulty is known: build, hash, check, and accept.
  unfoldable pub try_header : Run → Epoch → NewHeader → Round Run
  try_header r epoch new_header =
      let s = r.state in
      let header = into_header new_header s.block_hash epoch.nbits in
      let block_hash = hash_header header in
      if not (check_proof_of_work block_hash epoch.target)
      then reject (record {
        last_valid_state = (flush r).state;
        error_code = pow_insufficient;
        failure_height = candidate_height s;
      })
      else let extended = extend_run r epoch.work in
        next (record extended { state = assign_state extended.state header block_hash epoch })

  unfoldable pub apply_header : Run → NewHeader → ℕ → Round Run
  apply_header r new_header claimed_median =
      let s = r.state in
      if not (median_time_past_hinted s claimed_median)
      then stop
      else if leb new_header.timestamp claimed_median
      then reject (record {
        last_valid_state = (flush r).state;
        error_code = timestamp_too_old;
        failure_height = candidate_height s;
      })
      else elim (activate r) [
        | returned (r', epoch) ↦ try_header r' epoch new_header
        | panicked ↦ stop
      ]

  -- The loop over the headers with their hints. The state is returned in both cases: on an error
  -- the source leaves in `self` what it copies into the failure.
  unfoldable pub apply_loop :
      Run → List NewHeader → List ℕ → Outcome (State × Result ApplyFailure (Unit {0}))
  apply_loop r [] hints = returned ((flush r).state, ok tt)
  apply_loop r (h ∷ hs) [] = returned ((flush r).state, ok tt)
  apply_loop r (h ∷ hs) (m ∷ ms) = elim (apply_header r h m) [
    | next r' ↦ apply_loop r' hs ms
    | reject failure ↦ returned (failure.last_valid_state, err failure)
    | stop ↦ panicked
  ]

  unfoldable pub apply_headers :
      State → List NewHeader → List ℕ → Outcome (State × Result ApplyFailure (Unit {0}))
  apply_headers s headers median_hints =
      if length headers == length median_hints
      then apply_loop (record { state = s; pending_work = none; pending_count = 0 }) headers
          median_hints
      else panicked
