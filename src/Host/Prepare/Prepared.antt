-- ===== src/Host/Prepare/Prepared.antt =====
-- What holds of a batch that `prepare_batch` returns.
use zkpow.Prelude.{
  ℕ, ◌+◌, ◌%◌, ◌^◌, ◌≡◌, refl, sym, ap, subst, ◌<◌, ◌∙◌, arith, List, [], ◌∷◌, Option, none, some,
  Result, ok, err, Outcome, returned, panicked, length, Bool-cases, inl, inr,
}
use zkpow.Header.{NewHeader}
use zkpow.Claim.{Claim}
use zkpow.State.{State, public_claim}
use zkpow.Chain.{ApplyFailure, apply_headers}
use zkpow.PublicValues.{
  PublicValuesParseError, HeaderChainPublicValues, parse_public_values, succeeded, failed,
}
use zkpow.Guest.{eq_bytes}
use zkpow.Guest.Checks.{eq_bytes_lem}
use zkpow.Host.Hash.{continuation_digest_from_state, host_hash_header}
use zkpow.Host.Db.{Db, load_header_batch_witness, load_public_claim, state_from_db_at_height}
use zkpow.Host.Equal.{eq_claim, eq_claim_lem}
use zkpow.Host.Attempt.{
  genesis_mismatch, db_state_mismatch, BoxError, succeed, fail, call, call-succeed,
  returned-injective, succeed-injective, >>=-succeed,
}
use zkpow.Host.Batch.{
  SavedProof, PreparedBatch, accepted, compute_final_state_with_hints, find_first_diverging_state,
}
use zkpow.Host.Prepare.{
  load_optional_proof, successful_claim, state_of_claim, resolve_current_state, divergence,
  simulate_expected_state, prepare_headers, prepare_batch,
}

accepted-returned :
    (o : Outcome (State × Result ApplyFailure (Unit {0}))) (t : State)
    → accepted o ≡ returned t
    → o ≡ returned (t, ok tt)
unfolding accepted
accepted-returned (returned (u, ok tt)) t e =
    ap (λ (x : State). returned (x, ok tt)) (returned-injective e)
accepted-returned (returned (u, err f)) t e = absurd (ground arith)
accepted-returned panicked t e = absurd (ground arith)

module _ (digest : List ℕ → List ℕ) (load : List ℕ → Result BoxError SavedProof) (db : Db)
    (genesis_hash : List ℕ) where
  divergence-fails :
      (s t : State) (hs : List NewHeader) (ms : List ℕ) (first : ℕ)
      → divergence digest load db genesis_hash s hs ms first ≡ succeed t
      → ⊥
  unfolding divergence
  divergence-fails s t hs ms first e =
      let (found, _, e') =
        >>=-succeed (call (find_first_diverging_state digest hs ms db genesis_hash first s)) _ t
          e in
      let (c, _, e'') =
        >>=-succeed (call (load_public_claim db ((first + found.0) % 2 ^ 32) genesis_hash)) _ t
          e' in
      ground arith

  -- The state that a run over the headers ends in is the one that the database has.
  simulate_lem :
      (s t : State) (hs : List NewHeader) (ms : List ℕ) (first last : ℕ)
      → simulate_expected_state digest load db genesis_hash s hs ms first last ≡ succeed t
      → (apply_headers (host_hash_header digest) s hs ms ≡ returned (t, ok tt))
        × (load_public_claim db last genesis_hash ≡ returned (public_claim t))
  unfolding simulate_expected_state compute_final_state_with_hints
  simulate_lem s t hs ms first last e =
      let (u, p, e') =
        >>=-succeed (call (accepted (apply_headers (host_hash_header digest) s hs ms))) _ t e in
      let (c, q, e'') = >>=-succeed (call (load_public_claim db last genesis_hash)) _ t e' in
      elim (Bool-cases (eq_claim (public_claim u) c)) [
        | inr other ↦ absurd (divergence-fails s t hs ms first (rw other at e''))
        | inl same ↦
            let u_is_t : u ≡ t = succeed-injective (rw same at e'') in
            (
              accepted-returned _ t (call-succeed _ u p ∙ ap returned u_is_t),
              call-succeed _ c q
                  ∙ ap returned
                      (sym (eq_claim_lem (public_claim u) c same) ∙ ap public_claim u_is_t),
            )
      ]

  -- A proof for a segment of this chain that ends in `s`.
  pub Continues : SavedProof → State → Type 0
  Continues proof s =
      (continuation_digest : List ℕ) × (verifier_key : List ℕ) × (parse_public_values
          proof.public_values
        ≡ ok (succeeded (public_claim s) continuation_digest verifier_key))
      × (s.genesis_hash ≡ genesis_hash)

  successful_claim_lem :
      (r : Result PublicValuesParseError HeaderChainPublicValues) (claim : Claim)
      → successful_claim digest load db genesis_hash r ≡ succeed claim
      → (d : List ℕ) × (k : List ℕ) × (r ≡ ok (succeeded claim d k))
        × (claim.genesis_hash ≡ genesis_hash)
  unfolding successful_claim
  successful_claim_lem (err x) claim e = absurd (ground arith)
  successful_claim_lem (ok (failed f c d k)) claim e = absurd (ground arith)
  successful_claim_lem (ok (succeeded c d k)) claim e =
      elim (Bool-cases (eq_bytes c.genesis_hash genesis_hash)) [
        | inr other ↦ absurd (
            let e' : fail genesis_mismatch ≡ succeed claim = rw (other, successful_claim) at e in
            ground arith)
        | inl same ↦
            let c_is : c ≡ claim = succeed-injective (rw (same, successful_claim) at e) in
            (
              d,
              k,
              ap (λ (x : Claim). ok (succeeded x d k)) c_is,
              sym (ap (λ (x : Claim). x.genesis_hash) c_is)
                  ∙ eq_bytes_lem c.genesis_hash genesis_hash same,
            )
      ]

  -- Where a batch starts.
  pub data Starts : Option ℕ → Option SavedProof → State → Type 0 where
    at_genesis :
        {s : State}
        → state_from_db_at_height digest db 0 genesis_hash ≡ returned s
        → Starts none none s
    at_trusted_height :
        {s : State} {height : ℕ}
        → state_from_db_at_height digest db height genesis_hash ≡ returned s
        → Starts (some height) none s
    after_proof :
        {s : State} {proof : SavedProof}
        → state_from_db_at_height digest db s.height genesis_hash ≡ returned s
        → Continues proof s
        → Starts none (some proof) s

  state_of_claim_lem :
      (claim : Claim) (s : State)
      → state_of_claim digest load db genesis_hash claim ≡ succeed s
      → (state_from_db_at_height digest db claim.height genesis_hash ≡ returned s)
        × (public_claim s ≡ claim)
  unfolding state_of_claim
  state_of_claim_lem claim s e =
      let (u, p, e') =
        >>=-succeed (call (state_from_db_at_height digest db claim.height genesis_hash)) _ s e in
      elim (Bool-cases (eq_claim (public_claim u) claim)) [
        | inr other ↦ absurd (
            let e'' : fail (db_state_mismatch claim.height) ≡ succeed s = rw other at e' in
            ground arith)
        | inl same ↦
            let u_is : u ≡ s = succeed-injective (rw same at e') in
            (
              call-succeed _ u p ∙ ap returned u_is,
              ap public_claim (sym u_is) ∙ eq_claim_lem (public_claim u) claim same,
            )
      ]

  resolve_lem :
      (trusted_start_height : Option ℕ) (previous_proof : Option SavedProof) (s : State)
      → resolve_current_state digest load db genesis_hash trusted_start_height previous_proof
        ≡ succeed s
      → Starts trusted_start_height previous_proof s
  unfolding resolve_current_state Continues public_claim
  resolve_lem (some height) (some proof) s e = absurd (ground arith)
  resolve_lem (some height) none s e = at_trusted_height (call-succeed _ s e)
  resolve_lem none none s e = at_genesis (call-succeed _ s e)
  resolve_lem none (some proof) s e =
      let (claim, p, e') =
        >>=-succeed
          (successful_claim digest load db genesis_hash (parse_public_values proof.public_values)) _
          s e in
      let (d, k, parsed, chain) = successful_claim_lem _ claim p in
      let (loaded, claimed) = state_of_claim_lem claim s e' in
      after_proof
        (ap (λ (c : Claim). state_from_db_at_height digest db c.height genesis_hash) claimed
          ∙ loaded)
        (
          d,
          k,
          parsed ∙ ap (λ (c : Claim). ok (succeeded c d k)) (sym claimed),
          ap (λ (c : Claim). c.genesis_hash) claimed ∙ chain,
        )

  -- What a prepared batch is.
  pub record Prepared (prev_proof_path : Option (List ℕ)) (trusted_start_height : Option ℕ)
      (num_headers : ℕ) (b : PreparedBatch) : Type 0 where
    pub previous :
        load_optional_proof digest load db genesis_hash prev_proof_path ≡ succeed b.previous_proof
    pub starts : Starts trusted_start_height b.previous_proof b.current_state
    pub some_headers : 0 < length b.headers
    pub loaded :
        load_header_batch_witness db ((b.current_state.height + 1) % 2 ^ 32) num_headers
        ≡ returned (record { headers = b.headers; median_time_past_hints = b.median_hints })
    pub simulated :
        apply_headers (host_hash_header digest) b.current_state b.headers b.median_hints
        ≡ returned (b.expected_state, ok tt)
    pub recorded :
        load_public_claim db b.end_height genesis_hash ≡ returned (public_claim b.expected_state)
    pub committed :
        b.expected_continuation_digest ≡ continuation_digest_from_state digest b.expected_state
    pub first : b.first_new_height ≡ (b.current_state.height + 1) % 2 ^ 32
    pub last : b.end_height ≡ (b.current_state.height + length b.headers % 2 ^ 32) % 2 ^ 32

  prepare_headers_lem :
      (prev_proof_path : Option (List ℕ)) (start : Option ℕ) (num_headers : ℕ)
      (previous_proof : Option SavedProof) (s : State) (hs : List NewHeader) (ms : List ℕ)
      (b : PreparedBatch)
      → load_optional_proof digest load db genesis_hash prev_proof_path ≡ succeed previous_proof
      → Starts start previous_proof s
      → load_header_batch_witness db ((s.height + 1) % 2 ^ 32) num_headers
        ≡ returned (record { headers = hs; median_time_past_hints = ms })
      → prepare_headers digest load db genesis_hash previous_proof s hs ms ≡ succeed b
      → Prepared prev_proof_path start num_headers b
  unfolding prepare_headers
  prepare_headers_lem prev_proof_path start num_headers previous_proof s [] ms b previous starts
        loaded e =
      absurd (ground arith)
  prepare_headers_lem prev_proof_path start num_headers previous_proof s (h ∷ hs) ms b previous
        starts loaded e =
      let (t, p, e') =
        >>=-succeed
          (simulate_expected_state digest load db genesis_hash s (h ∷ hs) ms
            ((s.height + 1) % 2 ^ 32) ((s.height + length (h ∷ hs) % 2 ^ 32) % 2 ^ 32))
          _ b e in
      let (simulated, recorded) = simulate_lem s t (h ∷ hs) ms _ _ p in
      subst (λ (x : PreparedBatch). Prepared prev_proof_path start num_headers x)
        (succeed-injective e')
        (record {
          previous = previous;
          starts = starts;
          some_headers = omega arith;
          loaded = loaded;
          simulated = simulated;
          recorded = recorded;
          committed = refl;
          first = refl;
          last = refl;
        })

-- A batch that is returned: its previous proof is the one loaded from the path, it starts at the
-- genesis block, at the trusted height, or where a successful previous proof for the same chain ends;
-- its headers and hints are those of the next heights in the database, not none; and the code of the
-- guest, run on them, accepts them and ends in the expected state, whose claim the database has.
pub prepare_batch-Prepared :
    (digest : List ℕ → List ℕ) (load : List ℕ → Result BoxError SavedProof) (db : Db)
    (genesis_hash : List ℕ) (prev_proof_path : Option (List ℕ)) (trusted_start_height : Option ℕ)
    (num_headers : ℕ) (b : PreparedBatch)
    → prepare_batch digest load db genesis_hash prev_proof_path trusted_start_height num_headers
      ≡ succeed b
    → Prepared digest load db genesis_hash prev_proof_path trusted_start_height num_headers b
unfolding prepare_batch
prepare_batch-Prepared digest load db genesis_hash prev_proof_path start num_headers b e =
    let (proof, p, e1) =
      >>=-succeed (load_optional_proof digest load db genesis_hash prev_proof_path) _ b e in
    let (s, q, e2) =
      >>=-succeed (resolve_current_state digest load db genesis_hash start proof) _ b e1 in
    let (w, l, e3) =
      >>=-succeed (call (load_header_batch_witness db ((s.height + 1) % 2 ^ 32) num_headers)) _ b
        e2 in
    prepare_headers_lem digest load db genesis_hash prev_proof_path start num_headers proof s
      w.headers w.median_time_past_hints b p
      (resolve_lem digest load db genesis_hash start proof s q) (call-succeed _ w l) e3
