-- ===== src/Chain/Refine.antt =====
-- The loop with pending work computes what the specification does.
use zkpow.Prelude.{
  ℕ, ◌+◌, ◌%◌, ◌^◌, ◌≤◌, ◌<◌, ◌≡◌, refl, ap, ◌∙◌, arith, List, [], ◌∷◌, Option, none, some,
  Bool-cases, ==_iff, inl, inr, true, false, Result, Result-cases, err, Outcome, returned, panicked,
  leb, ltb, length,
}
use zkpow.U256
use zkpow.U256.{U256, value, eq_u256, zero_u256}
use zkpow.Header.{Header, NewHeader, into_header}
use zkpow.State.{State, timestamp_count, current_timestamp_slot}
use zkpow.Median.{median_time_past_hinted}
use zkpow.Target.{check_proof_of_work}
use zkpow.Chain.{
  Epoch, ApplyFailure, Run, activate, prepare_new_epoch, is_boundary, previous_timestamp,
  candidate_height, assign_state, try_header, apply_header, apply_loop, apply_headers, Round, next,
  reject, stop,
}
use zkpow.Chain.Eager.{active_epoch, try_eager, eager_header, eager_loop}
use zkpow.Chain.Pending.{run, settled_work, with_work, flush_lem, extended}

-- The two loops agree: one may hold work back that the other has added.
abbrev settle : Run → State
settle r = with_work r.state (settled_work r.state r.pending_work r.pending_count)

record IsRun (r : Run) : Type 0 where
  is_u32 : r.state.height < 2 ^ 32
  run_bound : r.pending_count ≤ r.state.height % 2016 + 1

abbrev Agrees : Round Run → Round State → Type 0
Agrees (next r) (next s) = (settle r ≡ s) × IsRun r
Agrees (next r) (reject f) = ⊥
Agrees (next r) stop = ⊥
Agrees (reject f) (next s) = ⊥
Agrees (reject f) (reject g) = f ≡ g
Agrees (reject f) stop = ⊥
Agrees stop (next s) = ⊥
Agrees stop (reject g) = ⊥
Agrees stop stop = Unit {0}

settle-assign_state :
    (s : State) (base total w u : U256) (n : ℕ) (h : Header) (hash : List ℕ) (epoch : Epoch)
    → 0 < n
    → U256.add base (U256.mul_u32 u n) ≡ U256.add total w
    → settle (run (assign_state (with_work s base) h hash epoch) (some u) n)
      ≡ assign_state (with_work s (U256.add total w)) h hash epoch
unfolding assign_state settled_work
settle-assign_state s base total w u n h hash epoch pos e =
    let t : ltb 0 n ≡ true = ground arith in
    rw t (ap (λ (x : U256). assign_state (with_work s x) h hash epoch) e)

assign_state-IsRun :
    (s : State) (p : Option U256) (c n : ℕ) (h : Header) (hash : List ℕ) (epoch : Epoch)
    → n ≤ c + 1
    → c ≤ candidate_height s % 2016
    → IsRun (run (assign_state s h hash epoch) p n)
unfolding assign_state
assign_state-IsRun s p c n h hash epoch a b = record {
  is_u32 = omega arith;
  run_bound = omega arith;
}

settled-median :
    (s : State) (w : U256) (m : ℕ)
    → median_time_past_hinted (with_work s w) m ≡ median_time_past_hinted s m
unfolding median_time_past_hinted timestamp_count
settled-median s w m = refl

settled-previous :
    (s : State) (w : U256) → previous_timestamp (with_work s w) ≡ previous_timestamp s
unfolding current_timestamp_slot
settled-previous s w = refl

-- Off a boundary the run is no longer than the epoch so far.
inside_bound :
    (s : State) (c : ℕ)
    → s.height < 2 ^ 32
    → c ≤ s.height % 2016 + 1
    → is_boundary s ≡ false
    → c ≤ candidate_height s % 2016
inside_bound s c small bound inside =
    let off : ¬ (candidate_height s % 2016 ≡ 0) = ground arith in omega arith

module _ (hash_header : Header → List ℕ) where
  -- What the loops do after a round.
  abbrev after_apply :
      Round Run → List NewHeader → List ℕ → Outcome (State × Result ApplyFailure (Unit {0}))
  after_apply a hs ms = elim a [
    | next r ↦ apply_loop hash_header r hs ms
    | reject failure ↦ returned (failure.last_valid_state, err failure)
    | stop ↦ panicked
  ]

  abbrev after_eager :
      Round State → List NewHeader → List ℕ → Outcome (State × Result ApplyFailure (Unit {0}))
  after_eager b hs ms = elim b [
    | next s ↦ eager_loop hash_header s hs ms
    | reject failure ↦ returned (failure.last_valid_state, err failure)
    | stop ↦ panicked
  ]

  try_header_lem :
      (s : State) (p : Option U256) (c : ℕ) (epoch : Epoch) (h : NewHeader)
      → c + 1 < 2 ^ 32
      → c ≤ candidate_height s % 2016
      → Agrees
          (try_header hash_header (run s p c) epoch h)
          (try_eager hash_header (with_work s (settled_work s p c)) epoch h)
  unfolding try_header try_eager
  try_header_lem s p c epoch h small bound =
      let block = into_header h s.block_hash epoch.nbits in
      elim (Bool-cases (check_proof_of_work (hash_header block) epoch.target)) [
        | inl good ↦
            let e = extended s p c epoch.work small in
            rw (good, e.shape)
              (
                settle-assign_state s e.base_work (settled_work s p c) epoch.work e.run_work e.count
                    block (hash_header block) epoch e.positive e.adds,
                assign_state-IsRun (with_work s e.base_work) (some e.run_work) c e.count block
                    (hash_header block) epoch e.bounded bound,
              )
        | inr bad ↦ rw (bad, flush_lem s p c) refl
      ]

  -- A round of the code and a round of the specification, from a run and its settled state.
  apply_header_lem :
      (s : State) (p : Option U256) (c : ℕ) (h : NewHeader) (m : ℕ)
      → s.height < 2 ^ 32
      → c ≤ s.height % 2016 + 1
      → Agrees
          (apply_header hash_header (run s p c) h m)
          (eager_header hash_header (with_work s (settled_work s p c)) h m)
  unfolding apply_header eager_header active_epoch activate settled_work
  apply_header_lem s p c h m small bound = elim (Bool-cases (median_time_past_hinted s m)) [
    | inr bad ↦ rw (settled-median s (settled_work s p c) m, bad) tt
    | inl good ↦ elim (Bool-cases (leb h.timestamp m)) [
      | inl old ↦ rw (settled-median s (settled_work s p c) m, good, old, flush_lem s p c) refl
      | inr young ↦ elim (Bool-cases (is_boundary s)) [
        | inl edge ↦
            let t = with_work s (settled_work s p c) in
            elim (Result-cases (prepare_new_epoch t (previous_timestamp s))) [
              | inl (epoch, e) ↦
                  rw
                    (
                      settled-median s (settled_work s p c) m,
                      good,
                      young,
                      edge,
                      flush_lem s p c,
                      settled-previous s (settled_work s p c),
                      e,
                      flush_lem s p c,
                    )
                    (try_header_lem t none 0 epoch h (omega arith) (omega arith))
              | inr (_, e) ↦
                  rw
                    (
                      settled-median s (settled_work s p c) m,
                      good,
                      young,
                      edge,
                      flush_lem s p c,
                      settled-previous s (settled_work s p c),
                      e,
                    )
                    tt
            ]
        | inr inside ↦
            rw (settled-median s (settled_work s p c) m, good, young, inside)
              (try_header_lem s p c
                (record {
                  nbits = s.current_nbits;
                  target = s.current_target;
                  work = s.current_work;
                })
                h (omega arith) (inside_bound s c small bound inside))
      ]
    ]
  ]

  after_round :
      (a : Round Run) (b : Round State) (hs : List NewHeader) (ms : List ℕ)
      → ((r : Run)
          → IsRun r
          → apply_loop hash_header r hs ms ≡ eager_loop hash_header (settle r) hs ms)
      → Agrees a b
      → after_apply a hs ms ≡ after_eager b hs ms
  after_round (next r) (next s) hs ms rest (e, inv) =
      rest r inv ∙ ap (λ (x : State). eager_loop hash_header x hs ms) e
  after_round (next r) (reject g) hs ms rest agrees = elim agrees [ ]
  after_round (next r) stop hs ms rest agrees = elim agrees [ ]
  after_round (reject f) (next s) hs ms rest agrees = elim agrees [ ]
  after_round (reject f) (reject g) hs ms rest agrees = rw agrees refl
  after_round (reject f) stop hs ms rest agrees = elim agrees [ ]
  after_round stop (next s) hs ms rest agrees = elim agrees [ ]
  after_round stop (reject g) hs ms rest agrees = elim agrees [ ]
  after_round stop stop hs ms rest agrees = refl

  -- The loops agree from a run and its settled state.
  apply_loop_lem :
      (r : Run) (hs : List NewHeader) (ms : List ℕ)
      → IsRun r
      → apply_loop hash_header r hs ms ≡ eager_loop hash_header (settle r) hs ms
  unfolding apply_loop eager_loop
  apply_loop_lem r [] ms inv = rw (flush_lem r.state r.pending_work r.pending_count) refl
  apply_loop_lem r (h ∷ hs) [] inv = rw (flush_lem r.state r.pending_work r.pending_count) refl
  apply_loop_lem r (h ∷ hs) (m ∷ ms) inv =
      after_round (apply_header hash_header r h m) (eager_header hash_header (settle r) h m) hs ms
        (λ x i. apply_loop_lem x hs ms i)
        (apply_header_lem r.state r.pending_work r.pending_count h m inv.is_u32 inv.run_bound)

-- From a state whose height is a `u32`, with as many hints as headers, the code with its batched
-- work does what the specification does, on every branch: same state, failure or panic.
pub apply_headers_refines :
    (hash_header : Header → List ℕ) (s : State) (headers : List NewHeader) (median_hints : List ℕ)
    → s.height < 2 ^ 32
    → length headers ≡ length median_hints
    → apply_headers hash_header s headers median_hints
      ≡ eager_loop hash_header s headers median_hints
unfolding apply_headers settled_work
apply_headers_refines hash_header s headers median_hints small lengths =
    rw ((==_iff (length headers) (length median_hints)).1 lengths) (
      apply_loop_lem hash_header (run s none 0) headers median_hints
        (record { is_u32 = small; run_bound = omega arith }))
