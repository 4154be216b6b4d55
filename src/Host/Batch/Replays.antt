-- ===== src/Host/Batch/Replays.antt =====
-- The states that a run goes through, one header at a time.
use zkpow.Prelude.{
  ℕ, zero, suc, ◌^◌, ◌<◌, ◌≡◌, refl, sym, ap, ◌∙◌, arith, subst, min, length-take, List, [], ◌∷◌,
  none, some, Result, ok, err, Outcome, returned, panicked, length, take, get_elem?,
}
use zkpow.Header.{Header, NewHeader}
use zkpow.State.{State}
use zkpow.Chain.{ApplyFailure, Round, next, reject, stop, apply_headers}
use zkpow.Chain.Eager.{eager_header, eager_loop}
use zkpow.Chain.Refine.{apply_headers_refines}
use zkpow.Chain.Batches.{Bounded, eager_header-Bounded, and_then, apply_headers-append}

-- What an outcome of a run is, where it accepts.
and_then-accepted :
    (o : Outcome (State × Result ApplyFailure (Unit {0})))
    (rest : State → Outcome (State × Result ApplyFailure (Unit {0}))) (t : State)
    → and_then o rest ≡ returned (t, ok tt)
    → (u : State) × (o ≡ returned (u, ok tt)) × (rest u ≡ returned (t, ok tt))
and_then-accepted (returned (u, ok tt)) rest t e = (u, refl, e)
and_then-accepted (returned (u, err f)) rest t e = absurd (ground arith)
and_then-accepted panicked rest t e = absurd (ground arith)

pub some-injective : {A : Type 0} {a b : A} → some a ≡ some b → a ≡ b
some-injective {a = a} e = ap (λ o. elim o [ some x ↦ x | none ↦ a ]) e

module _ (hash_header : Header → List ℕ) where
  pub data Replays : State → List NewHeader → List ℕ → List State → Type 0 where
    nothing : (s : State) → Replays s [] [] []
    one :
        {s : State} {h : NewHeader} {m : ℕ} {hs : List NewHeader} {ms : List ℕ} {us : List State}
        → (u : State) → apply_headers hash_header s (h ∷ []) (m ∷ []) ≡ returned (u, ok tt)
        → u.height < 2 ^ 32
        → Replays u hs ms us
        → Replays s (h ∷ hs) (m ∷ ms) (u ∷ us)

  round-height :
      (b : Round State) (u : State)
      → Bounded b
      → (elim b as (λ _. Outcome (State × Result ApplyFailure (Unit {0}))) [
        | next t ↦ returned (t, ok tt)
        | reject f ↦ returned (f.last_valid_state, err f)
        | stop ↦ panicked
      ])
        ≡ returned (u, ok tt)
      → u.height < 2 ^ 32
  round-height (next t) u small e =
      let same : t ≡ u = ap (λ o. elim o [ returned x ↦ x.0 | panicked ↦ u ]) e in
      subst (λ (x : State). x.height < 2 ^ 32) same small
  round-height (reject f) u small e = absurd (ground arith)
  round-height stop u small e = absurd (ground arith)

  one_header-height :
      (s u : State) (h : NewHeader) (m : ℕ)
      → s.height < 2 ^ 32
      → apply_headers hash_header s (h ∷ []) (m ∷ []) ≡ returned (u, ok tt)
      → u.height < 2 ^ 32
  unfolding eager_loop
  one_header-height s u h m small e =
      round-height (eager_header hash_header s h m) u (eager_header-Bounded hash_header s h m)
        (sym (apply_headers_refines hash_header s (h ∷ []) (m ∷ []) small refl) ∙ e)

  -- A run that accepts its headers goes through states.
  pub apply_headers-Replays :
      (s t : State) (hs : List NewHeader) (ms : List ℕ)
      → s.height < 2 ^ 32
      → length hs ≡ length ms
      → apply_headers hash_header s hs ms ≡ returned (t, ok tt)
      → (us : List State) × Replays s hs ms us
  apply_headers-Replays s t [] [] small p e = ([], nothing s)
  apply_headers-Replays s t [] (m ∷ ms) small p e = absurd (omega arith)
  apply_headers-Replays s t (h ∷ hs) [] small p e = absurd (omega arith)
  apply_headers-Replays s t (h ∷ hs) (m ∷ ms) small p e =
      let (u, first, rest) = and_then-accepted _ _ t (
        sym (apply_headers-append hash_header s (h ∷ []) hs (m ∷ []) ms small refl (omega arith))
        ∙ e) in
      let bound = one_header-height s u h m small first in
      let (us, r) = apply_headers-Replays u t hs ms bound (omega arith) rest in
      (u ∷ us, one u first bound r)

  pub length-Replays :
      (s : State) (hs : List NewHeader) (ms : List ℕ) (us : List State)
      → Replays s hs ms us
      → (length us ≡ length hs) × (length us ≡ length ms)
  length-Replays s _ _ _ (nothing _) = (refl, refl)
  length-Replays s _ _ _ (one {hs = hs} {ms = ms} {us = us} u e b r) =
      let (p, q) = length-Replays u hs ms us r in (ap suc p, ap suc q)

  -- Each of the states is that of the run over the headers up to its index.
  pub get_elem?-Replays :
      (s t : State) (hs : List NewHeader) (ms : List ℕ) (us : List State) (k : ℕ)
      → s.height < 2 ^ 32
      → Replays s hs ms us
      → get_elem? us k ≡ some t
      → apply_headers hash_header s (take (suc k) hs) (take (suc k) ms) ≡ returned (t, ok tt)
  get_elem?-Replays s t _ _ _ k small (nothing _) g = absurd (ground arith)
  get_elem?-Replays s t _ _ _ zero small (one {h = h} {m = m} u e b r) g =
      e ∙ ap (λ (x : State). returned (x, ok tt)) (some-injective g)
  get_elem?-Replays s t _ _ _ (suc k) small
        (one {h = h} {m = m} {hs = hs} {ms = ms} {us = us} u e b r) g =
      let ih = get_elem?-Replays u t hs ms us k b r g in
      let (p, q) = length-Replays u hs ms us r in
      apply_headers-append hash_header s (h ∷ []) (take (suc k) hs) (m ∷ []) (take (suc k) ms) small
        refl
        (length-take (suc k) hs
          ∙ ap (λ n. min (suc k) n) (sym p ∙ q)
          ∙ sym (length-take (suc k) ms))
      ∙ ap (λ o. and_then o (λ x. apply_headers hash_header x (take (suc k) hs) (take (suc k) ms)))
          e
      ∙ ih
