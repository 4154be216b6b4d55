-- ===== src/Chain/Batches.antt =====
-- Headers applied in several batches, one proof after the other, against all of them at once.
use zkpow.Prelude.{
  ℕ, ◌^◌, ◌<◌, ◌≡◌, refl, sym, ap, ◌∙◌, arith, List, [], ◌∷◌, ◌++◌, Bool-cases, inl, inr, Result,
  ok, err, Outcome, returned, panicked, length, length-append, leb,
}
use zkpow.Header.{Header, NewHeader, into_header}
use zkpow.State.{State}
use zkpow.Median.{median_time_past_hinted}
use zkpow.Target.{check_proof_of_work}
use zkpow.Chain.{ApplyFailure, Epoch, Round, next, reject, stop, apply_headers, assign_state}
use zkpow.Chain.Eager.{active_epoch, try_eager, eager_header, eager_loop}
use zkpow.Chain.Refine.{apply_headers_refines}

-- Go on from the state of a run that accepted all of its headers.
abbrev pub and_then :
    Outcome (State × Result ApplyFailure (Unit {0}))
    → (State → Outcome (State × Result ApplyFailure (Unit {0})))
    → Outcome (State × Result ApplyFailure (Unit {0}))
and_then (returned (t, ok _)) rest = rest t
and_then (returned (t, err f)) rest = returned (t, err f)
and_then panicked rest = panicked

-- A height that a round leaves is a `u32`.
abbrev pub Bounded : Round State → Type 0
Bounded (next t) = t.height < 2 ^ 32
Bounded (reject f) = Unit {0}
Bounded stop = Unit {0}

module _ (hash_header : Header → List ℕ) where
  try_eager-Bounded :
      (s : State) (e : Epoch) (h : NewHeader) → Bounded (try_eager hash_header s e h)
  unfolding try_eager assign_state
  try_eager-Bounded s e h =
      elim (Bool-cases
        (check_proof_of_work (hash_header (into_header h s.block_hash e.nbits)) e.target)) [
          | inl good ↦ rw good (omega arith)
          | inr bad ↦ rw bad tt
        ]

  pub eager_header-Bounded :
      (s : State) (h : NewHeader) (m : ℕ) → Bounded (eager_header hash_header s h m)
  unfolding eager_header
  eager_header-Bounded s h m =
      let judge : (o : Outcome Epoch)
          → Bounded (elim o as (λ _. Round State) [
            | returned e ↦ try_eager hash_header s e h
            | panicked ↦ stop
          ]) =
        λ o.
          elim o
            as (λ k. Bounded (elim k as (λ _. Round State) [
              | returned e ↦ try_eager hash_header s e h
              | panicked ↦ stop
            ])) [ returned e ↦ try_eager-Bounded s e h | panicked ↦ tt ] in
      elim (Bool-cases (median_time_past_hinted s m)) [
        | inr bad ↦ rw bad tt
        | inl good ↦ elim (Bool-cases (leb h.timestamp m)) [
          | inl old ↦ rw (good, old) tt
          | inr young ↦ rw (good, young) (judge (active_epoch s))
        ]
      ]

  after_append :
      (b : Round State) (hs ks : List NewHeader) (ms ns : List ℕ)
      → ((t : State)
          → t.height < 2 ^ 32
          → eager_loop hash_header t (hs ++ ks) (ms ++ ns)
            ≡ and_then (eager_loop hash_header t hs ms) (λ u. apply_headers hash_header u ks ns))
      → Bounded b
      → (elim b as (λ _. Outcome (State × Result ApplyFailure (Unit {0}))) [
        | next t ↦ eager_loop hash_header t (hs ++ ks) (ms ++ ns)
        | reject f ↦ returned (f.last_valid_state, err f)
        | stop ↦ panicked
      ])
        ≡ and_then
            (elim b [
              | next t ↦ eager_loop hash_header t hs ms
              | reject f ↦ returned (f.last_valid_state, err f)
              | stop ↦ panicked
            ])
            (λ u. apply_headers hash_header u ks ns)
  after_append (next t) hs ks ms ns rest small = rest t small
  after_append (reject f) hs ks ms ns rest small = refl
  after_append stop hs ks ms ns rest small = refl

  eager_loop-append :
      (s : State) (hs ks : List NewHeader) (ms ns : List ℕ)
      → s.height < 2 ^ 32
      → length hs ≡ length ms
      → length ks ≡ length ns
      → eager_loop hash_header s (hs ++ ks) (ms ++ ns)
        ≡ and_then (eager_loop hash_header s hs ms) (λ t. apply_headers hash_header t ks ns)
  unfolding eager_loop
  eager_loop-append s [] ks [] ns small p q =
      sym (apply_headers_refines hash_header s ks ns small q)
  eager_loop-append s [] ks (m ∷ ms) ns small p q = absurd (omega arith)
  eager_loop-append s (h ∷ hs) ks [] ns small p q = absurd (omega arith)
  eager_loop-append s (h ∷ hs) ks (m ∷ ms) ns small p q =
      after_append (eager_header hash_header s h m) hs ks ms ns
        (λ t i. eager_loop-append t hs ks ms ns i (omega arith) q) (eager_header-Bounded s h m)

-- From a state whose height is a `u32`, with as many hints as headers: two batches, the second
-- from the state that the first left, do what one run over all the headers does, on every branch:
-- the first error or panic is the same.
pub apply_headers-append :
    (hash_header : Header → List ℕ) (s : State) (hs ks : List NewHeader) (ms ns : List ℕ)
    → s.height < 2 ^ 32
    → length hs ≡ length ms
    → length ks ≡ length ns
    → apply_headers hash_header s (hs ++ ks) (ms ++ ns)
      ≡ and_then (apply_headers hash_header s hs ms) (λ t. apply_headers hash_header t ks ns)
apply_headers-append hash_header s hs ks ms ns small p q =
    apply_headers_refines hash_header s (hs ++ ks) (ms ++ ns) small
      (omega (arith, length-append hs ks, length-append ms ns, p, q))
    ∙ eager_loop-append hash_header s hs ks ms ns small p q
    ∙ ap (λ o. and_then o (λ t. apply_headers hash_header t ks ns))
        (sym (apply_headers_refines hash_header s hs ms small p))
