-- ===== src/Host/Batch.antt =====
-- crates/host/src/pipeline/batch.rs and util/simulate.rs: what one batch is made of. The database and
-- the digest of the sha2 crate are parameters, as is `SP1ProofWithPublicValues::load`.

pub mod Replays
pub mod Along
pub mod Bisect
use zkpow.Prelude.{
  ℕ, zero, suc, ◌+◌, ◌-◌, ◌/◌, ◌%◌, ◌^◌, List, [], ◌∷◌, ◌++◌, map, Option, none, some, Result, ok,
  err, Outcome, returned, panicked, Bool, true, false, length, get_elem?, ltb, ◌==◌, not, ◌>>=◌,
}
use zkpow.Header.{NewHeader, from_header}
use zkpow.Claim.{Claim}
use zkpow.State.{State, public_claim}
use zkpow.Chain.{ApplyFailure, apply_headers}
use zkpow.PublicValues.{parse_public_values, succeeded, failed}
use zkpow.Guest.{eq_bytes}
use zkpow.Host.Hash.{host_hash_header, continuation_digest_from_state}
use zkpow.Host.Db.{
  Db, HeaderRecord, HeaderBatchWitness, load_header_batch_witness, load_public_claim,
  state_from_db_at_height,
}
use zkpow.Host.Equal.{eq_claim}
use zkpow.Host.Attempt
use zkpow.Host.Attempt.{
  Attempt, BoxError, succeed, fail, call, trusted_start_with_previous_proof,
  malformed_previous_proof, previous_proof_failed, genesis_mismatch, db_state_mismatch,
  no_headers_remaining, simulation_diverges,
}

-- What the host reads of an `SP1ProofWithPublicValues`: its public values, and whether its proof is
-- compressed.
pub record SavedProof : Type 0 where
  pub public_values : List ℕ
  pub compressed : Bool

pub record PreparedBatch : Type 0 where
  pub previous_proof : Option SavedProof
  pub current_state : State
  pub headers : List NewHeader
  pub median_hints : List ℕ
  pub expected_state : State
  pub expected_continuation_digest : List ℕ
  pub first_new_height : ℕ
  pub end_height : ℕ

unfoldable pub records_to_new_headers : List HeaderRecord → List NewHeader
unfolding from_header
records_to_new_headers records = map (λ (r : HeaderRecord). from_header r.header) records

unfoldable pub median_time_past_hints_from_records : List HeaderRecord → List ℕ
median_time_past_hints_from_records records = map (λ (r : HeaderRecord). r.median_time_past) records

-- The state after `apply_headers`, where it accepts; an error panics.
unfoldable pub accepted : Outcome (State × Result ApplyFailure (Unit {0})) → Outcome State
accepted (returned (t, ok _)) = returned t
accepted (returned (t, err f)) = panicked
accepted panicked = panicked

-- The variables `replay_state` and `replayed_states` of the search.
pub record Replay : Type 0 where
  pub replay_state : State
  pub replayed_states : List State

module _ (digest : List ℕ → List ℕ) where
  unfoldable pub compute_final_state_with_hints : State → List NewHeader → List ℕ → Outcome State
  compute_final_state_with_hints initial_state headers hints =
      accepted (apply_headers (host_hash_header digest) initial_state headers hints)

  module _ (headers : List NewHeader) (median_hints : List ℕ) where
    -- One round of the loop of `replay_states_through`.
    unfoldable pub replay_next : Replay → Outcome Replay
    replay_next r = elim (get_elem? headers (length r.replayed_states)) [
      | none ↦ panicked
      | some h ↦ elim (get_elem? median_hints (length r.replayed_states)) [
        | none ↦ panicked
        | some m ↦ do
          t ← accepted (apply_headers (host_hash_header digest) r.replay_state (h ∷ []) (m ∷ []))
          returned (record { replay_state = t; replayed_states = r.replayed_states ++ (t ∷ []) })
      ]
    ]

    unfoldable pub replay_rounds : ℕ → Replay → Outcome Replay
    replay_rounds zero r = returned r
    replay_rounds (suc n) r = do r' ← replay_next r; replay_rounds n r'

    -- The loop runs while there are not more than `target_index` states, and each round adds one.
    unfoldable pub replay_states_through : Replay → ℕ → Outcome Replay
    replay_states_through r target_index =
        replay_rounds (target_index + 1 - length r.replayed_states) r

    module _ (db : Db) (genesis_hash : List ℕ) (first_new_height : ℕ) where
      -- Whether the state at an index is the database's.
      unfoldable pub agrees_at : List State → ℕ → Outcome Bool
      agrees_at states mid = do
        db_claim ← load_public_claim db ((first_new_height + mid) % 2 ^ 32) genesis_hash
        elim (get_elem? states mid) [
          | none ↦ panicked
          | some t ↦ returned (eq_claim (public_claim t) db_claim)
        ]

      -- What follows the loop of the search.
      unfoldable pub search_end : Replay → ℕ → Outcome (ℕ × State)
      search_end r lo = do
        r' ← replay_states_through r lo
        elim (get_elem? r'.replayed_states lo) [ none ↦ panicked | some t ↦ returned (lo, t) ]

      -- The loop `while lo < hi`: each round brings `lo` and `hi` closer, so that after `hi - lo`
      -- rounds, the fuel, it is over.
      unfoldable pub search_loop : ℕ → Replay → ℕ → ℕ → Outcome (ℕ × State)
      search_loop zero r lo hi = search_end r lo
      search_loop (suc fuel) r lo hi = elim (ltb lo hi) [
        | false ↦ search_end r lo
        | true ↦
            let mid = lo + (hi - lo) / 2 in
            do
              r' ← replay_states_through r mid
              same ← agrees_at r'.replayed_states mid
              elim same [
                | true ↦ search_loop fuel r' (mid + 1) hi
                | false ↦ search_loop fuel r' lo mid
              ]
      ]

      unfoldable pub find_first_diverging_state : State → Outcome (ℕ × State)
      find_first_diverging_state current_state = elim (length headers == 0) [
        | true ↦ panicked
        | false ↦ elim (length headers == length median_hints) [
          | false ↦ panicked
          | true ↦
              search_loop (length headers - 1)
                (record { replay_state = current_state; replayed_states = [] }) 0
                (length headers - 1)
        ]
      ]
