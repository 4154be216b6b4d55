-- ===== src/Host/Batch/Bisect.antt =====
-- The binary search for the first header after which the host and the database differ.
use zkpow.Prelude.{
  ℕ, zero, suc, ◌+◌, ◌-◌, ◌/◌, ◌%◌, ◌^◌, ◌≤◌, ◌<◌, ◌≡◌, ◌≢◌, refl, sym, ap, ap₂, ◌∙◌, arith, List,
  [], Option, none, some, true, false, Bool-cases, inl, inr, Result, ok, Outcome, returned,
  panicked, length, take, get_elem?, ltb, ◌==◌, ==_iff, subst,
}
use zkpow.Header.{NewHeader}
use zkpow.Claim.{Claim}
use zkpow.State.{State, public_claim}
use zkpow.Chain.{ApplyFailure, apply_headers}
use zkpow.Host.Hash.{host_hash_header}
use zkpow.Host.Db.{Db, load_public_claim}
use zkpow.Host.Equal.{eq_claim, eq_claim_lem, eq_claim_refl}
use zkpow.Host.Batch.{
  Replay, replay_states_through, agrees_at, search_end, search_loop, find_first_diverging_state,
}
use zkpow.Host.Batch.Along.{get_elem?-some, take_all, Along, through_lem}
use zkpow.Host.Batch.Replays.{apply_headers-Replays, length-Replays, get_elem?-Replays}

-- Accepted runs that are equal end in one state.
end_state :
    {t u : State}
    → ◌≡◌ {A = Outcome (State × Result ApplyFailure (Unit {0}))}
        (returned (t, ok tt))
        (returned (u, ok tt))
    → t ≡ u
end_state {t = t} e = ap (λ o. elim o [ returned x ↦ x.0 | panicked ↦ t ]) e

unequal : (c d : Claim) → eq_claim c d ≡ false → c ≢ d
unequal c d other e =
    let same : eq_claim c d ≡ true = ap (λ (x : Claim). eq_claim c x) (sym e) ∙ eq_claim_refl c in
    ground arith

module _ (digest : List ℕ → List ℕ) (headers : List NewHeader) (median_hints : List ℕ)
    (us : List State) where
  module _ (db : Db) (genesis_hash : List ℕ) (first : ℕ) (claims : ℕ → Claim)
      (recorded : (i : ℕ)
        → i < length us
        → load_public_claim db ((first + i) % 2 ^ 32) genesis_hash ≡ returned (claims i)) where
    agrees_lem :
        (states : List State) (k : ℕ) (t : State)
        → k < length us
        → get_elem? states k ≡ some t
        → agrees_at digest headers median_hints db genesis_hash first states k
          ≡ returned (eq_claim (public_claim t) (claims k))
    unfolding agrees_at
    agrees_lem states k t h g = rw (agrees_at, recorded k h, g) refl

    -- What the search finds: a state that is not the database's, after the first header or after a
    -- state that is.
    Found : ℕ → State → Type 0
    Found k t =
        (k < length us)
        × (get_elem? us k ≡ some t)
        × (public_claim t ≢ claims k)
        × ((j : ℕ)
            → suc j ≡ k
            → (v : State) × (get_elem? us j ≡ some v) × (public_claim v ≡ claims j))

    end_of :
        (r r' : Replay) (k : ℕ) (t : State)
        → replay_states_through digest headers median_hints r k ≡ returned r'
        → get_elem? r'.replayed_states k ≡ some t
        → search_end digest headers median_hints db genesis_hash first r k ≡ returned (k, t)
    unfolding search_end
    end_of r r' k t e g =
        rw (search_end, e)
          (ap (λ (o : Option State). elim o [ none ↦ panicked | some x ↦ returned (k, x) ]) g)

    end_lem :
        (r : Replay) (k : ℕ) (t : State)
        → Along digest headers median_hints us r
        → Found k t
        → search_end digest headers median_hints db genesis_hash first r k ≡ returned (k, t)
    unfolding Found
    end_lem r k t a found =
        let (r', e, a', g) = through_lem digest headers median_hints us r k a found.0 in
        end_of r r' k t e (g ∙ found.1)

    agreed :
        (i j : ℕ) (v : State)
        → i ≡ j
        → get_elem? us i ≡ some v
        → public_claim v ≡ claims i
        → (w : State) × (get_elem? us j ≡ some w) × (public_claim w ≡ claims j)
    agreed i j v e g c = (v, ap (λ (n : ℕ). get_elem? us n) (sym e) ∙ g, c ∙ ap claims e)

    search_lem :
        (fuel lo hi : ℕ) (r : Replay) (t : State)
        → hi ≤ fuel + lo
        → lo ≤ hi
        → Along digest headers median_hints us r
        → hi < length us
        → get_elem? us hi ≡ some t
        → public_claim t ≢ claims hi
        → ((j : ℕ)
            → suc j ≡ lo
            → (v : State) × (get_elem? us j ≡ some v) × (public_claim v ≡ claims j))
        → (k : ℕ) × (u : State) × (search_loop digest headers median_hints db genesis_hash first
              fuel r lo hi
            ≡ returned (k, u))
          × Found k u
    unfolding search_loop Found
    search_lem zero lo hi r t f le a bound g differs before =
        let same : hi ≡ lo = omega arith in
        let found : Found lo t =
          subst (λ (k : ℕ). Found k t) same (bound, g, differs, λ j e. before j (e ∙ same)) in
        (lo, t, end_lem r lo t a found, found)
    search_lem (suc fuel) lo hi r t f le a bound g differs before = elim (Bool-cases (ltb lo hi)) [
      | inr over ↦
          let same : hi ≡ lo = ground arith in
          let found : Found lo t =
            subst (λ (k : ℕ). Found k t) same (bound, g, differs, λ j e. before j (e ∙ same)) in
          (lo, t, rw (search_loop, over) (end_lem r lo t a found), found)
      | inl less ↦
          let mid : ℕ = lo + (hi - lo) / 2 in
          let below : mid < hi = ground arith in
          let (r', e, a', g') = through_lem digest headers median_hints us r mid a (omega arith) in
          let (v, gv) = get_elem?-some us mid (omega arith) in
          let agreement = agrees_lem r'.replayed_states mid v (omega arith) (g' ∙ gv) in
          elim (Bool-cases (eq_claim (public_claim v) (claims mid))) [
            | inl same ↦
                let (k, u, run, found) =
                  search_lem fuel (mid + 1) hi r' t (omega arith) (omega arith) a' bound g differs
                    (λ j q. agreed mid j v (omega arith) gv (eq_claim_lem _ _ same)) in
                (k, u, rw (search_loop, less, e, agreement, same) run, found)
            | inr other ↦
                let (k, u, run, found) =
                  search_lem fuel lo mid r' v (omega arith) (omega arith) a' (omega arith) gv
                    (λ q. unequal (public_claim v) (claims mid) other q) before in
                (k, u, rw (search_loop, less, e, agreement, other) run, found)
          ]
    ]

-- Host and database agree on the first headers of a batch, and differ after the one at index `k`.
pub record FirstDivergence (digest : List ℕ → List ℕ) (s : State) (headers : List NewHeader)
    (median_hints : List ℕ) (claims : ℕ → Claim) (k : ℕ) (u : State) : Type 0 where
  pub in_batch : k < length headers
  pub reached :
      apply_headers (host_hash_header digest) s (take (suc k) headers) (take (suc k) median_hints)
      ≡ returned (u, ok tt)
  pub differs : public_claim u ≢ claims k
  pub before :
      (j : ℕ)
      → suc j ≡ k
      → (v : State) × (apply_headers
            (host_hash_header digest)
            s
            (take k headers)
            (take k median_hints)
          ≡ returned (v, ok tt))
        × (public_claim v ≡ claims j)

start_lem :
    (digest : List ℕ → List ℕ) (s : State) (hs : List NewHeader) (ms : List ℕ) (db : Db)
    (genesis_hash : List ℕ) (first : ℕ)
    → 0 < length hs
    → length hs ≡ length ms
    → find_first_diverging_state digest hs ms db genesis_hash first s
      ≡ search_loop digest hs ms db genesis_hash first
          (length hs - 1)
          (record { replay_state = s; replayed_states = [] })
          0
          (length hs - 1)
unfolding find_first_diverging_state
start_lem digest s hs ms db genesis_hash first some_headers p =
    let nonempty : (length hs == 0) ≡ false = ground arith in
    let same : (length hs == length ms) ≡ true = (==_iff (length hs) (length ms)).1 p in
    rw (find_first_diverging_state, nonempty, same) refl

-- For headers that a run from `s` accepts, with one hint each, where the database has a claim for
-- each height and that of the last one differs from the run's: the search returns an index and the
-- state after that header, which is not the database's, while the one before it is.
pub find_first_diverging_state_lem :
    (digest : List ℕ → List ℕ) (s t : State) (headers : List NewHeader) (median_hints : List ℕ)
    (db : Db) (genesis_hash : List ℕ) (first_new_height : ℕ) (claims : ℕ → Claim)
    → s.height < 2 ^ 32
    → 0 < length headers
    → length headers ≡ length median_hints
    → apply_headers (host_hash_header digest) s headers median_hints ≡ returned (t, ok tt)
    → ((i : ℕ)
        → i < length headers
        → load_public_claim db ((first_new_height + i) % 2 ^ 32) genesis_hash ≡ returned (claims i))
    → public_claim t ≢ claims (length headers - 1)
    → (k : ℕ) × (u : State) × (find_first_diverging_state digest headers median_hints db
          genesis_hash first_new_height s
        ≡ returned (k, u))
      × FirstDivergence digest s headers median_hints claims k u
unfolding Found
find_first_diverging_state_lem digest s t hs ms db genesis_hash first claims small some_headers p e
      recorded differs =
    let (us, r) = apply_headers-Replays (host_hash_header digest) s t hs ms small p e in
    let (ls, ls') = length-Replays (host_hash_header digest) s hs ms us r in
    let (t', last) = get_elem?-some us (length hs - 1) (omega arith) in
    let whole : ◌≡◌ {A = Outcome (State × Result ApplyFailure (Unit {0}))} (returned (t', ok tt))
        (returned (t, ok tt)) =
      sym (get_elem?-Replays (host_hash_header digest) s t' hs ms us (length hs - 1) small r last)
      ∙ ap₂ (λ (a : List NewHeader) (b : List ℕ). apply_headers (host_hash_header digest) s a b)
          (take_all hs (suc (length hs - 1)) (omega arith))
          (take_all ms (suc (length hs - 1)) (omega arith))
      ∙ e in
    let (k, u, run, (bound, g, other, before)) =
      search_lem digest hs ms us db genesis_hash first claims (λ i h. recorded i (omega arith))
        (length hs - 1) 0 (length hs - 1) (record { replay_state = s; replayed_states = [] }) t'
        (omega arith) (omega arith) (record { ahead = us; together = refl; remaining = r })
        (omega arith) last (λ q. differs (sym (ap public_claim (end_state whole)) ∙ q))
        (λ j q. absurd (omega arith)) in
    (
      k,
      u,
      start_lem digest s hs ms db genesis_hash first some_headers p ∙ run,
      record {
        in_batch = omega arith;
        reached = get_elem?-Replays (host_hash_header digest) s u hs ms us k small r g;
        differs = other;
        before = λ j q.
            let (v, gv, c) = before j q in
            (
              v,
              subst
                  (λ (n : ℕ).
                    apply_headers (host_hash_header digest) s (take n hs) (take n ms)
                    ≡ returned (v, ok tt))
                  q (get_elem?-Replays (host_hash_header digest) s v hs ms us j small r gv),
              c,
            );
      },
    )
