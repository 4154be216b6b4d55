-- ===== src/Host/Batch/Along.antt =====
-- The replay of states that the binary search extends: some are there, the others still ahead.
use zkpow.Prelude.{
  ℕ, zero, suc, ◌+◌, ◌-◌, ◌≤◌, ◌<◌, ◌≡◌, refl, sym, ap, ◌∙◌, arith, List, [], ◌∷◌, ◌++◌,
  append_assoc, some, returned, length, length-append, take, drop, get_elem?,
}
use zkpow.Header.{NewHeader}
use zkpow.State.{State}
use zkpow.Host.Hash.{host_hash_header}
use zkpow.Host.Batch.{Replay, accepted, replay_next, replay_rounds, replay_states_through}
use zkpow.Host.Batch.Replays.{Replays, nothing, one}

get_elem?-drop :
    {A : Type 0} (xs : List A) (n : ℕ) (y : A) (ys : List A)
    → drop n xs ≡ y ∷ ys
    → (get_elem? xs n ≡ some y) × (drop (suc n) xs ≡ ys)
get_elem?-drop [] zero y ys e = absurd (ground arith)
get_elem?-drop [] (suc n) y ys e = absurd (ground arith)
get_elem?-drop (x ∷ xs) zero y ys e = (
  ap (λ l. elim l [ [] ↦ some x | a ∷ l' ↦ some a ]) e,
  ap (λ l. elim l [ [] ↦ [] | a ∷ l' ↦ l' ]) e,
)
get_elem?-drop (x ∷ xs) (suc n) y ys e = get_elem?-drop xs n y ys e

get_elem?-append :
    {A : Type 0} (xs ys : List A) (n : ℕ) → n < length xs → get_elem? (xs ++ ys) n ≡ get_elem? xs n
get_elem?-append [] ys n h = absurd (omega arith)
get_elem?-append (x ∷ xs) ys zero h = refl
get_elem?-append (x ∷ xs) ys (suc n) h = get_elem?-append xs ys n (omega arith)

pub get_elem?-some :
    {A : Type 0} (xs : List A) (n : ℕ) → n < length xs → (a : A) × (get_elem? xs n ≡ some a)
get_elem?-some [] n h = absurd (omega arith)
get_elem?-some (x ∷ xs) zero h = (x, refl)
get_elem?-some (x ∷ xs) (suc n) h = get_elem?-some xs n (omega arith)

pub take_all : {A : Type 0} (xs : List A) (n : ℕ) → length xs ≤ n → take n xs ≡ xs
take_all [] zero h = refl
take_all [] (suc n) h = refl
take_all (x ∷ xs) zero h = absurd (omega arith)
take_all (x ∷ xs) (suc n) h = ap (λ l. x ∷ l) (take_all xs n (omega arith))

module _ (digest : List ℕ → List ℕ) (headers : List NewHeader) (median_hints : List ℕ)
    (us : List State) where
  -- The search has replayed some of the states, and the others are still ahead.
  pub record Along (r : Replay) : Type 0 where
    pub ahead : List State
    pub together : r.replayed_states ++ ahead ≡ us
    pub remaining :
        Replays
          (host_hash_header digest)
          r.replay_state
          (drop (length r.replayed_states) headers)
          (drop (length r.replayed_states) median_hints)
          ahead

  next_lem :
      (r : Replay) (hs : List NewHeader) (ms : List ℕ) (ahead : List State)
      → r.replayed_states ++ ahead ≡ us
      → drop (length r.replayed_states) headers ≡ hs
      → drop (length r.replayed_states) median_hints ≡ ms
      → Replays (host_hash_header digest) r.replay_state hs ms ahead
      → 0 < length ahead
      → (r' : Replay) × (replay_next digest headers median_hints r ≡ returned r')
        × Along r'
        × (length r'.replayed_states ≡ suc (length r.replayed_states))
  unfolding replay_next accepted
  next_lem r _ _ _ together dh dm (nothing _) h = absurd (omega arith)
  next_lem r _ _ _ together dh dm (one {h = h} {m = m} {hs = hs} {ms = ms} {us = vs} u e b rest) _ =
      let (gh, dh') = get_elem?-drop headers (length r.replayed_states) h hs dh in
      let (gm, dm') = get_elem?-drop median_hints (length r.replayed_states) m ms dm in
      let n : length (r.replayed_states ++ (u ∷ [])) ≡ suc (length r.replayed_states) =
        omega (arith, length-append r.replayed_states (u ∷ [])) in
      (
        record { replay_state = u; replayed_states = r.replayed_states ++ (u ∷ []) },
        rw (replay_next, gh, gm, e) refl,
        record {
          ahead = vs;
          together = append_assoc r.replayed_states (u ∷ []) vs ∙ together;
          remaining = rw (n, dh', dm') rest;
        },
        n,
      )

  rounds_lem :
      (n : ℕ) (r : Replay)
      → Along r
      → n + length r.replayed_states ≤ length us
      → (r' : Replay) × (replay_rounds digest headers median_hints n r ≡ returned r')
        × Along r'
        × (length r'.replayed_states ≡ n + length r.replayed_states)
  unfolding replay_rounds
  rounds_lem zero r a h = (r, refl, a, omega arith)
  rounds_lem (suc n) r a h =
      let total = length-append r.replayed_states a.ahead in
      let whole : length (r.replayed_states ++ a.ahead) ≡ length us = ap length a.together in
      let (r1, e1, a1, n1) =
        next_lem r _ _ a.ahead a.together refl refl a.remaining (omega arith) in
      let (r2, e2, a2, n2) = rounds_lem n r1 a1 (omega arith) in
      (r2, rw (replay_rounds, e1) e2, a2, omega arith)

  -- After the call, the state at the index is there.
  pub through_lem :
      (r : Replay) (k : ℕ)
      → Along r
      → k < length us
      → (r' : Replay) × (replay_states_through digest headers median_hints r k ≡ returned r')
        × Along r'
        × (get_elem? r'.replayed_states k ≡ get_elem? us k)
  unfolding replay_states_through
  through_lem r k a h =
      let total = length-append r.replayed_states a.ahead in
      let whole : length (r.replayed_states ++ a.ahead) ≡ length us = ap length a.together in
      let (r', e, a', n) = rounds_lem (k + 1 - length r.replayed_states) r a (omega arith) in
      (
        r',
        e,
        a',
        sym (get_elem?-append r'.replayed_states a'.ahead k (omega arith))
            ∙ ap (λ (l : List State). get_elem? l k) a'.together,
      )
