-- ===== src/Chain/SameHash.antt =====
-- Two functions that hash headers alike, where the fields of a header fit their types: the loop does the
-- same with both.
use zkpow.Prelude.{
  ℕ, ◌≡◌, refl, sym, subst, ◌∙◌, List, [], ◌∷◌, Bool-cases, inl, inr, Result, err, Outcome,
  returned, panicked, leb, length, All,
}
use zkpow.Header.{Header, NewHeader, into_header}
use zkpow.Header.RoundTrip.{IsHeader, IsNewHeader}
use zkpow.State.{State}
use zkpow.Median.{median_time_past_hinted}
use zkpow.Median.Sorted.{median_time_past_hinted_iff}
use zkpow.Chain.{ApplyFailure, Epoch, Round, next, reject, stop, apply_headers}
use zkpow.Chain.Eager.{try_eager, eager_header, eager_loop}
use zkpow.Chain.Refine.{apply_headers_refines}
use zkpow.Chain.Rules.{IsHash}
use zkpow.Chain.Verdicts.{Judged, allowed, refused, active_epoch_lem, eager_header_lem, stop_lem}
use zkpow.Chain.Typed.{Typed, Typed-IsState, Accepts-Typed, Difficulty-types, into_header-IsHeader}

module _ (f g : Header → List ℕ) (hashes : IsHash g)
    (alike : (h : Header) → IsHeader h → f h ≡ g h) where
  try_eager-alike :
      (s : State) (e : Epoch) (h : NewHeader)
      → IsHeader (into_header h s.block_hash e.nbits)
      → try_eager f s e h ≡ try_eager g s e h
  unfolding try_eager
  try_eager-alike s e h i = rw (alike (into_header h s.block_hash e.nbits) i) refl

  eager_header-alike :
      (s : State) (h : NewHeader) (m : ℕ)
      → Typed s
      → IsNewHeader h
      → eager_header f s h m ≡ eager_header g s h m
  unfolding eager_header
  eager_header-alike s h m i j = elim (Bool-cases (median_time_past_hinted s m)) [
    | inr bad ↦ rw bad refl
    | inl good ↦ elim (Bool-cases (leb h.timestamp m)) [
      | inl old ↦ rw (good, old) refl
      | inr young ↦
          let (e, active, d, _, _) = active_epoch_lem s (Typed-IsState s i) in
          let (bits, _, _, _) = Difficulty-types s e i d in
          rw (good, young, active)
            (try_eager-alike s e h (into_header-IsHeader s h e.nbits i.types.hash_length bits j))
    ]
  ]

  -- The rounds go on with the same state, which is typed.
  after-alike :
      (s : State) (h : NewHeader) (hs : List NewHeader) (ms : List ℕ) (b : Round State)
      → Typed s
      → IsNewHeader h
      → Judged g s h b
      → ((u : State) → Typed u → eager_loop f u hs ms ≡ eager_loop g u hs ms)
      → (elim b as (λ _. Outcome (State × Result ApplyFailure (Unit {0}))) [
        | next u ↦ eager_loop f u hs ms
        | reject failure ↦ returned (failure.last_valid_state, err failure)
        | stop ↦ panicked
      ])
        ≡ (elim b [
          | next u ↦ eager_loop g u hs ms
          | reject failure ↦ returned (failure.last_valid_state, err failure)
          | stop ↦ panicked
        ])
  after-alike s h hs ms _ i j (allowed u a _) rest = rest u (Accepts-Typed g hashes s u h i j a)
  after-alike s h hs ms _ i j (refused x v p q) rest = refl

  eager_loop-alike :
      (s : State) (hs : List NewHeader) (ms : List ℕ)
      → Typed s
      → All IsNewHeader hs
      → eager_loop f s hs ms ≡ eager_loop g s hs ms
  unfolding eager_loop
  eager_loop-alike s [] ms i a = refl
  eager_loop-alike s (h ∷ hs) [] i a = refl
  eager_loop-alike s (h ∷ hs) (m ∷ ms) i (j, a) = elim (Bool-cases (median_time_past_hinted s m)) [
    | inr bad ↦ rw (eager_loop, stop_lem f s h m bad, stop_lem g s h m bad) refl
    | inl good ↦
        let same_median = (median_time_past_hinted_iff s m i.types.window_length).0 good in
        let judged =
          subst (λ (x : ℕ). Judged g s h (eager_header g s h x)) (sym same_median)
            (eager_header_lem g s h hashes (Typed-IsState s i)) in
        rw (eager_loop, eager_header-alike s h m i j)
          (after-alike s h hs ms (eager_header g s h m) i j judged
            (λ u k. eager_loop-alike u hs ms k a))
  ]

-- For functions that hash a header alike where its fields fit their types, with 32 bytes as result:
-- from a typed state, over headers whose fields fit their types, one hint each, a run does the same
-- with both.
pub apply_headers-alike :
    (f g : Header → List ℕ) (s : State) (headers : List NewHeader) (median_hints : List ℕ)
    → IsHash g
    → ((h : Header) → IsHeader h → f h ≡ g h)
    → Typed s
    → All IsNewHeader headers
    → length headers ≡ length median_hints
    → apply_headers f s headers median_hints ≡ apply_headers g s headers median_hints
apply_headers-alike f g s headers median_hints hashes alike i a lengths =
    apply_headers_refines f s headers median_hints i.types.height_fits lengths
    ∙ eager_loop-alike f g hashes alike s headers median_hints i a
    ∙ sym (apply_headers_refines g s headers median_hints i.types.height_fits lengths)
