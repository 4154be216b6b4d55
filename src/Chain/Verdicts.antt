-- ===== src/Chain/Verdicts.antt =====
-- `State::apply_headers` of crates/core/src/state.rs judges headers by the consensus rules.
use zkpow.Prelude.{
  ℕ, ◌+◌, ◌/◌, ◌%◌, ◌^◌, ◌≤◌, ◌<◌, ◌≡◌, refl, sym, ap, ◌∙◌, arith, List, [], ◌∷◌, ◌++◌, Bool-cases,
  inl, inr, false, Result, ok, err, Outcome, returned, panicked, leb, length, length-set,
}
use zkpow.U256
use zkpow.U256.{U256, IsU256, value}
use zkpow.U256.Arith.{add-IsU256, value-add}
use zkpow.U256.Order.{le_iff, lt_of_not-le}
use zkpow.U256.Bytes.{from_le_bytes-IsU256}
use zkpow.Header.{Header, NewHeader, into_header}
use zkpow.State.{State}
use zkpow.Work.LongDivision.{work_from_target_ok}
use zkpow.Median.{median_time_past_hinted, median_time_past}
use zkpow.Median.Sorted.{median_time_past_hinted_iff}
use zkpow.Target.{check_proof_of_work, calculate_next_target_required, genesis_target}
use zkpow.Target.Retarget.{value-genesis_target, next_target-le, calculate_next_target_required_lem}
use zkpow.Chain.{
  Epoch, ApplyFailure, prepare_new_epoch, is_boundary, previous_timestamp, candidate_height,
  assign_state, Round, next, reject, stop, apply_headers,
}
use zkpow.Chain.Eager.{active_epoch, try_eager, eager_header, eager_loop}
use zkpow.Chain.Refine.{apply_headers_refines}
use zkpow.Chain.Rules.{
  IsHash, IsState, Difficulty, same, retarget, block_of, Accepts, Follows, done, step, Violates,
  too_old, too_easy,
}

-- A valid state has a next epoch: the work of its target is defined.
prepare_lem :
    (s : State)
    → IsState s
    → (e : Epoch) × (prepare_new_epoch s (previous_timestamp s) ≡ ok e)
      × ((e.nbits, e.target)
          ≡ calculate_next_target_required s.current_target s.epoch_start_timestamp
              (previous_timestamp s))
      × IsU256 e.work
      × (value e.work ≡ 2 ^ 256 / (value e.target + 1) % 2 ^ 256)
      × IsU256 e.target
      × (value e.target ≤ value genesis_target)
unfolding prepare_new_epoch
prepare_lem s i =
    let next_target : ℕ × U256 =
      calculate_next_target_required s.current_target s.epoch_start_timestamp
        (previous_timestamp s) in
    let (fits, a, b, c, d) =
      calculate_next_target_required_lem s.current_target s.epoch_start_timestamp
        (previous_timestamp s) i.target_bound in
    let (below, _) =
      next_target-le s.current_target s.epoch_start_timestamp (previous_timestamp s)
        i.target_bound in
    let (w, e, hw, v) =
      work_from_target_ok next_target.1 fits (omega (arith, below, value-genesis_target)) in
    (
      record { nbits = next_target.0; target = next_target.1; work = w },
      rw (e, prepare_new_epoch) refl,
      refl,
      hw,
      v,
      fits,
      below,
    )

pub active_epoch_lem :
    (s : State)
    → IsState s
    → (e : Epoch) × (active_epoch s ≡ returned e)
      × Difficulty s e
      × IsU256 e.target
      × (value e.target ≤ value genesis_target)
unfolding active_epoch
active_epoch_lem s i = elim (Bool-cases (is_boundary s)) [
  | inl edge ↦
      let (e, p, d, hw, w, fits, below) = prepare_lem s i in
      (e, rw (edge, p) refl, retarget e edge d hw w, fits, below)
  | inr inside ↦ (
    record { nbits = s.current_nbits; target = s.current_target; work = s.current_work },
    rw inside refl,
    same inside,
    i.target_fits,
    i.target_bound,
  )
]

-- What a round of the specification does with a header, by the rules.
module _ (hash_header : Header → List ℕ) where
  pub data Judged (s : State) (h : NewHeader) : Round State → Type 0 where
    allowed : (t : State) → Accepts hash_header s h t → IsState t → Judged s h (next t)
    refused :
        (f : ApplyFailure)
        → Violates hash_header s h f.error_code
        → f.last_valid_state ≡ s
        → f.failure_height ≡ candidate_height s
        → Judged s h (reject f)

  try_eager_lem :
      (s : State) (e : Epoch) (h : NewHeader)
      → IsHash hash_header
      → IsState s
      → Difficulty s e
      → IsU256 e.target
      → value e.target ≤ value genesis_target
      → median_time_past s < h.timestamp
      → Judged s h (try_eager hash_header s e h)
  unfolding try_eager check_proof_of_work assign_state into_header
  try_eager_lem s e h hashes i d fits bound later =
      let hash : List ℕ = hash_header (block_of hash_header s e h) in
      let hash_fits =
        from_le_bytes-IsU256 hash (hashes (block_of hash_header s e h)).0
          (hashes (block_of hash_header s e h)).1 in
      elim (Bool-cases (U256.le (U256.from_le_bytes hash) e.target)) [
        | inl good ↦ rw good (
            allowed _
              (record {
                epoch = e;
                difficulty = d;
                after_median = later;
                proof_of_work = (le_iff (U256.from_le_bytes hash) e.target hash_fits fits).0 good;
                header = refl;
                block_hash = refl;
                genesis_hash = refl;
                height = refl;
                work_fits = add-IsU256 s.chain_work e.work;
                work_added = value-add s.chain_work e.work;
                current_nbits = refl;
                current_target = refl;
                current_work = refl;
                epoch_start = refl;
                timestamps = refl;
              })
              (record {
                window_full = length-set s.timestamps _ h.timestamp ∙ i.window_full;
                target_fits = fits;
                target_bound = bound;
              }))
        | inr bad ↦ rw bad (
            refused _
              (too_easy e d (lt_of_not-le (U256.from_le_bytes hash) e.target hash_fits fits bad))
              refl refl)
      ]

  -- With the true median as its hint, a header is judged by the rules, without a panic.
  pub eager_header_lem :
      (s : State) (h : NewHeader)
      → IsHash hash_header
      → IsState s
      → Judged s h (eager_header hash_header s h (median_time_past s))
  unfolding eager_header
  eager_header_lem s h hashes i =
      let hinted = (median_time_past_hinted_iff s (median_time_past s) i.window_full).1 refl in
      elim (Bool-cases (leb h.timestamp (median_time_past s))) [
        | inl old ↦ rw (hinted, old) (refused _ (too_old (ground arith)) refl refl)
        | inr young ↦
            let (e, p, d, fits, bound) = active_epoch_lem s i in
            rw (hinted, young, p) (try_eager_lem s e h hashes i d fits bound (ground arith))
      ]

  pub stop_lem :
      (s : State) (h : NewHeader) (m : ℕ)
      → median_time_past_hinted s m ≡ false
      → eager_header hash_header s h m ≡ stop
  unfolding eager_header
  stop_lem s h m bad = rw bad refl

  -- What a run over headers reports: that all are valid, or the first one that is not.
  pub data Verdict (s : State)
      : List NewHeader → State → Result ApplyFailure (Unit {0}) → Type 0 where
    all_valid :
        {hs : List NewHeader} {t : State} → Follows hash_header s hs t → Verdict s hs t (ok tt)
    first_invalid :
        {hs : List NewHeader} {t : State} {f : ApplyFailure}
        → (valid : List NewHeader) (h : NewHeader) (rest : List NewHeader)
        → hs ≡ valid ++ (h ∷ rest)
        → Follows hash_header s valid t
        → Violates hash_header t h f.error_code
        → f.last_valid_state ≡ t
        → f.failure_height ≡ candidate_height t
        → Verdict s hs t (err f)

  Verdict-step :
      (s u t : State) (h : NewHeader) (hs : List NewHeader) (r : Result ApplyFailure (Unit {0}))
      → Accepts hash_header s h u
      → Verdict u hs t r
      → Verdict s (h ∷ hs) t r
  Verdict-step s u t h hs _ a (all_valid f) = all_valid (step a f)
  Verdict-step s u t h hs _ a (first_invalid valid h' rest e f v p q) =
      first_invalid (h ∷ valid) h' rest (ap (λ l. h ∷ l) e) (step a f) v p q

  -- A panic reports nothing.
  abbrev pub Reports :
      State → List NewHeader → Outcome (State × Result ApplyFailure (Unit {0})) → Type 0
  Reports s hs (returned (t, r)) = Verdict s hs t r
  Reports s hs panicked = Unit {0}

  Reports-step :
      (s u : State) (h : NewHeader) (hs : List NewHeader)
      (o : Outcome (State × Result ApplyFailure (Unit {0})))
      → Accepts hash_header s h u
      → Reports u hs o
      → Reports s (h ∷ hs) o
  Reports-step s u h hs (returned (t, r)) a v = Verdict-step s u t h hs r a v
  Reports-step s u h hs panicked a v = tt

  after-Judged :
      (s : State) (h : NewHeader) (hs : List NewHeader) (ms : List ℕ) (b : Round State)
      → Judged s h b
      → ((u : State) → IsState u → Reports u hs (eager_loop hash_header u hs ms))
      → Reports s (h ∷ hs) (elim b [
        | next u ↦ eager_loop hash_header u hs ms
        | reject failure ↦ returned (failure.last_valid_state, err failure)
        | stop ↦ panicked
      ])
  after-Judged s h hs ms _ (allowed u a i) rest =
      Reports-step s u h hs (eager_loop hash_header u hs ms) a (rest u i)
  after-Judged s h hs ms _ (refused f v p q) rest =
      first_invalid [] h hs refl (rw p (done s)) (rw p v) refl (rw p q)

  eager_loop_lem :
      (s : State) (hs : List NewHeader) (ms : List ℕ)
      → IsHash hash_header
      → IsState s
      → length hs ≡ length ms
      → Reports s hs (eager_loop hash_header s hs ms)
  unfolding eager_loop
  eager_loop_lem s [] ms hashes i e = all_valid (done s)
  eager_loop_lem s (h ∷ hs) [] hashes i e = absurd (omega arith)
  eager_loop_lem s (h ∷ hs) (m ∷ ms) hashes i e = elim (Bool-cases (median_time_past_hinted s m)) [
    | inl good ↦
        let same_median = (median_time_past_hinted_iff s m i.window_full).0 good in
        rw same_median (
          after-Judged s h hs ms (eager_header hash_header s h (median_time_past s))
            (eager_header_lem s h hashes i) (λ u j. eager_loop_lem u hs ms hashes j (omega arith)))
    | inr bad ↦ rw (stop_lem s h m bad, Reports) tt
  ]

-- For a hash of 32 bytes, from a valid state whose height is a `u32`, and whatever the hints (one
-- for each header): what the code returns is a right verdict by the rules.
pub apply_headers-Verdict :
    (hash_header : Header → List ℕ) (s t : State) (headers : List NewHeader) (median_hints : List ℕ)
    (r : Result ApplyFailure (Unit {0}))
    → IsHash hash_header
    → IsState s
    → s.height < 2 ^ 32
    → length headers ≡ length median_hints
    → apply_headers hash_header s headers median_hints ≡ returned (t, r)
    → Verdict hash_header s headers t r
apply_headers-Verdict hash_header s t headers median_hints r hashes i small lengths e =
    let run_lem = apply_headers_refines hash_header s headers median_hints small lengths in
    rw (sym run_lem ∙ e) at (eager_loop_lem hash_header s headers median_hints hashes i lengths)
