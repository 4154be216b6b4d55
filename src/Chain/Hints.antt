-- ===== src/Chain/Hints.antt =====
-- The hints that let the loop return: the true medians along the states that it goes through.
use zkpow.Prelude.{
  ℕ, ◌^◌, ◌<◌, ◌≡◌, refl, sym, ap, ◌∙◌, List, [], ◌∷◌, Result, ok, err, Outcome, returned, panicked,
  length, replicate, length-replicate, suc,
}
use zkpow.Header.{Header, NewHeader}
use zkpow.State.{State}
use zkpow.Median.{median_time_past}
use zkpow.Chain.{ApplyFailure, Round, next, reject, stop, apply_headers}
use zkpow.Chain.Eager.{eager_header, eager_loop}
use zkpow.Chain.Refine.{apply_headers_refines}
use zkpow.Chain.Rules.{IsState, IsHash}
use zkpow.Chain.Verdicts.{
  Judged, allowed, refused, eager_header_lem, Verdict, apply_headers-Verdict,
}

module _ (hash_header : Header → List ℕ) where
  -- One hint for each header: the median of the window of the state before it; what follows a
  -- header that is not accepted is never read.
  unfoldable pub true_medians : State → List NewHeader → List ℕ
  true_medians s [] = []
  true_medians s (h ∷ hs) =
      median_time_past s ∷ elim (eager_header hash_header s h (median_time_past s)) [
        | next t ↦ true_medians t hs
        | reject f ↦ replicate (length hs) 0
        | stop ↦ replicate (length hs) 0
      ]

  rest_of : Round State → List NewHeader → List ℕ
  rest_of b hs = elim b [
    | next t ↦ true_medians t hs
    | reject f ↦ replicate (length hs) 0
    | stop ↦ replicate (length hs) 0
  ]

  length-rest_of :
      (b : Round State) (hs : List NewHeader)
      → ((t : State) → length (true_medians t hs) ≡ length hs)
      → length (rest_of b hs) ≡ length hs
  unfolding rest_of
  length-rest_of (next t) hs ih = ih t
  length-rest_of (reject f) hs ih = length-replicate (length hs) 0
  length-rest_of stop hs ih = length-replicate (length hs) 0

  pub length-true_medians :
      (s : State) (hs : List NewHeader) → length (true_medians s hs) ≡ length hs
  unfolding true_medians rest_of
  length-true_medians s [] = refl
  length-true_medians s (h ∷ hs) = ap suc (
      length-rest_of (eager_header hash_header s h (median_time_past s)) hs
        (λ t. length-true_medians t hs))

  resume : Round State → List NewHeader → List ℕ → Outcome (State × Result ApplyFailure (Unit {0}))
  resume b hs ms = elim b [
    | next t ↦ eager_loop hash_header t hs ms
    | reject f ↦ returned (f.last_valid_state, err f)
    | stop ↦ panicked
  ]

  -- An outcome that is no panic.
  abbrev Returns : Outcome (State × Result ApplyFailure (Unit {0})) → Type 0
  Returns o = (t : State) × (r : Result ApplyFailure (Unit {0})) × (o ≡ returned (t, r))

  after_round :
      (s : State) (h : NewHeader) (hs : List NewHeader) (b : Round State)
      → Judged hash_header s h b
      → ((t : State) → IsState t → Returns (eager_loop hash_header t hs (true_medians t hs)))
      → Returns (resume b hs (rest_of b hs))
  unfolding rest_of resume
  after_round s h hs _ (allowed t a i) ih = ih t i
  after_round s h hs _ (refused f v p q) ih = (f.last_valid_state, err f, refl)

  eager_loop-Returns :
      (s : State) (hs : List NewHeader)
      → IsHash hash_header
      → IsState s
      → Returns (eager_loop hash_header s hs (true_medians s hs))
  unfolding eager_loop true_medians rest_of resume
  eager_loop-Returns s [] hashes i = (s, ok tt, refl)
  eager_loop-Returns s (h ∷ hs) hashes i =
      after_round s h hs (eager_header hash_header s h (median_time_past s))
        (eager_header_lem hash_header s h hashes i) (λ t j. eager_loop-Returns t hs hashes j)

-- For a hash of 32 bytes, from a valid state whose height is a `u32`, and whatever the headers:
-- with the true medians as hints the code returns, and its verdict is right.
pub apply_headers_returns :
    (hash_header : Header → List ℕ) (s : State) (headers : List NewHeader)
    → IsHash hash_header
    → IsState s
    → s.height < 2 ^ 32
    → (t : State) × (r : Result ApplyFailure (Unit {0})) × (apply_headers hash_header s headers
          (true_medians hash_header s headers)
        ≡ returned (t, r))
      × Verdict hash_header s headers t r
apply_headers_returns hash_header s headers hashes i small =
    let (t, r, e) = eager_loop-Returns hash_header s headers hashes i in
    let lengths = sym (length-true_medians hash_header s headers) in
    let run =
      apply_headers_refines hash_header s headers (true_medians hash_header s headers) small lengths
      ∙ e in
    (
      t,
      r,
      run,
      apply_headers-Verdict hash_header s t headers (true_medians hash_header s headers) r hashes i
          small lengths run,
    )
