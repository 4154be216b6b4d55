-- ===== src/Chain/Eager.antt =====
-- The specification of `apply_headers`: the same checks header by header, with each header's work
-- added to the chain's at once, so that no run of pending work is carried along.
use zkpow.Prelude.{
  ℕ, List, [], ◌∷◌, Result, ok, err, Outcome, returned, panicked, leb, if◌then◌else◌, not,
}
use zkpow.U256
use zkpow.U256.{U256}
use zkpow.Header.{Header, NewHeader, into_header}
use zkpow.State.{State}
use zkpow.Median.{median_time_past_hinted}
use zkpow.Target.{check_proof_of_work}
use zkpow.Chain.{
  Epoch, ApplyFailure, prepare_new_epoch, is_boundary, previous_timestamp, candidate_height,
  assign_state, Round, next, reject, stop, pow_insufficient, timestamp_too_old,
}

unfoldable pub active_epoch : State → Outcome Epoch
active_epoch s =
    if is_boundary s
    then elim (prepare_new_epoch s (previous_timestamp s)) [
      | ok epoch ↦ returned epoch
      | err e ↦ panicked
    ]
    else returned
        (record { nbits = s.current_nbits; target = s.current_target; work = s.current_work })

-- The state that accepts a header, its work included.
abbrev pub accept : State → Header → List ℕ → Epoch → State
accept s header block_hash epoch =
    assign_state (record s { chain_work = U256.add s.chain_work epoch.work }) header block_hash
      epoch

module _ (hash_header : Header → List ℕ) where
  unfoldable pub try_eager : State → Epoch → NewHeader → Round State
  try_eager s epoch new_header =
      let header = into_header new_header s.block_hash epoch.nbits in
      let block_hash = hash_header header in
      if not (check_proof_of_work block_hash epoch.target)
      then reject (record {
        last_valid_state = s;
        error_code = pow_insufficient;
        failure_height = candidate_height s;
      })
      else next (accept s header block_hash epoch)

  unfoldable pub eager_header : State → NewHeader → ℕ → Round State
  eager_header s new_header claimed_median =
      if not (median_time_past_hinted s claimed_median)
      then stop
      else if leb new_header.timestamp claimed_median
      then reject (record {
        last_valid_state = s;
        error_code = timestamp_too_old;
        failure_height = candidate_height s;
      })
      else elim (active_epoch s) [ returned epoch ↦ try_eager s epoch new_header | panicked ↦ stop ]

  unfoldable pub eager_loop :
      State → List NewHeader → List ℕ → Outcome (State × Result ApplyFailure (Unit {0}))
  eager_loop s [] hints = returned (s, ok tt)
  eager_loop s (h ∷ hs) [] = returned (s, ok tt)
  eager_loop s (h ∷ hs) (m ∷ ms) = elim (eager_header s h m) [
    | next s' ↦ eager_loop s' hs ms
    | reject failure ↦ returned (failure.last_valid_state, err failure)
    | stop ↦ panicked
  ]
