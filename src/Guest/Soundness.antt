-- ===== src/Guest/Soundness.antt =====
-- What a run of the guest that commits to public values shows.
use zkpow.Prelude.{
  ℕ, ◌^◌, ◌≤◌, ◌<◌, ◌≡◌, refl, sym, arith, Bool, true, List, Result, ok, Outcome, returned,
  panicked, Holds-ok, Result-cases, Bool-cases, inl, inr, ◌⊎◌, ltb, length, All,
}
use zkpow.Bytes.{IsByte}
use zkpow.U256.{value}
use zkpow.Header.{NewHeader}
use zkpow.State.{State, parse_state, public_claim, continuation_bytes}
use zkpow.Chain.{ApplyFailure, apply_headers}
use zkpow.Chain.Rules.{IsState}
use zkpow.Chain.Verdicts.{Verdict, apply_headers-Verdict}
use zkpow.Target.{genesis_target}
use zkpow.PublicValues.{public_values_to_bytes}
use zkpow.Input.{
  ProofCarryingState, parse_proof_carrying_state, parse_new_headers, parse_median_hints,
}
use zkpow.Guest.{
  Stdin, matches_claim, hash_header, verify_prior_proof, committed_values, validate, main,
}
use zkpow.Guest.Checks.{
  matches_claim_lem, parse_median_hints-length, parse_state-IsState, hash_header-IsHash, PriorProof,
  verify_prior_proof_lem,
}

module _ (extend : List ℕ → List ℕ) (compress : List ℕ → List ℕ → List ℕ)
    (verify_sp1_proof : List ℕ → List ℕ → Bool) where
  -- The facts that committed bytes stand for: the witness is the state of the input's claim, which
  -- is at height zero or has a prior proof, and the public values report on the headers truly.
  pub record Shown (stdin : Stdin) (bytes : List ℕ) : Type 0 where
    pub pcs : ProofCarryingState
    pub input_parsed : parse_proof_carrying_state stdin.input_bytes ≡ ok pcs
    pub state : State
    pub state_parsed : parse_state stdin.state_bytes ≡ ok state
    pub claimed : public_claim state ≡ pcs.claim
    pub proved : (pcs.claim.height ≡ 0) ⊎ PriorProof extend compress verify_sp1_proof pcs state
    pub headers : List NewHeader
    pub headers_parsed :
        parse_new_headers stdin.header_hint_address stdin.header_hint_bytes ≡ ok headers
    pub result : State × Result ApplyFailure (Unit {0})
    pub verdict :
        Verdict (hash_header extend compress verify_sp1_proof) state headers result.0 result.1
    pub committed :
        bytes
        ≡ public_values_to_bytes (committed_values extend compress verify_sp1_proof pcs result)

  -- What an outcome of `main` shows; a panic commits to nothing.
  abbrev Shows : Stdin → Outcome (List ℕ) → Type 0
  Shows stdin (returned bytes) = Shown stdin bytes
  Shows stdin panicked = Unit {0}

  -- `validate` on inputs that were parsed and checked.
  module _ (stdin : Stdin) (pcs : ProofCarryingState) (state : State) (headers : List NewHeader)
      (medians : List ℕ) (input_parsed : parse_proof_carrying_state stdin.input_bytes ≡ ok pcs)
      (state_parsed : parse_state stdin.state_bytes ≡ ok state)
      (claimed : public_claim state ≡ pcs.claim)
      (headers_parsed : parse_new_headers stdin.header_hint_address stdin.header_hint_bytes
        ≡ ok headers)
      (small : state.height < 2 ^ 32) (valid : IsState state)
      (lengths : length headers ≡ length medians) where
    after_headers :
        (o : Outcome (State × Result ApplyFailure (Unit {0})))
        → apply_headers (hash_header extend compress verify_sp1_proof) state headers medians ≡ o
        → (pcs.claim.height ≡ 0) ⊎ PriorProof extend compress verify_sp1_proof pcs state
        → Shows stdin (elim o [
          | panicked ↦ panicked
          | returned result ↦ returned (
              public_values_to_bytes (committed_values extend compress verify_sp1_proof pcs result))
        ])
    after_headers panicked e proved = tt
    after_headers (returned (t, r)) e proved = record {
      pcs = pcs;
      input_parsed = input_parsed;
      state = state;
      state_parsed = state_parsed;
      claimed = claimed;
      proved = proved;
      headers = headers;
      headers_parsed = headers_parsed;
      result = (t, r);
      verdict =
          apply_headers-Verdict (hash_header extend compress verify_sp1_proof) state t headers
            medians r (hash_header-IsHash extend compress verify_sp1_proof) valid small lengths e;
      committed = refl;
    }

    validate_lem : Shows stdin (validate extend compress verify_sp1_proof pcs state headers medians)
    unfolding validate
    validate_lem = elim (Bool-cases (ltb 0 pcs.claim.height)) [
      | inr genesis ↦ rw genesis (after_headers _ refl (inl (ground arith)))
      | inl later ↦
          elim (Bool-cases (
            verify_prior_proof extend compress verify_sp1_proof pcs.proof pcs.verifier_key pcs.claim
              (continuation_bytes state))) [
                | inr bad ↦ rw (later, bad) tt
                | inl good ↦
                    rw (later, good)
                      (after_headers _ refl (
                        inr (
                          verify_prior_proof_lem extend compress verify_sp1_proof pcs state claimed
                            good)))
              ]
    ]

  pub main_reached :
      (stdin : Stdin) (pcs : ProofCarryingState) (s : State) (hs : List NewHeader) (ms : List ℕ)
      → parse_proof_carrying_state stdin.input_bytes ≡ ok pcs
      → parse_state stdin.state_bytes ≡ ok s
      → matches_claim s pcs.claim ≡ true
      → parse_new_headers stdin.header_hint_address stdin.header_hint_bytes ≡ ok hs
      → parse_median_hints stdin.median_hint_address stdin.median_hint_bytes (length hs) ≡ ok ms
      → main extend compress verify_sp1_proof stdin
        ≡ validate extend compress verify_sp1_proof pcs s hs ms
  unfolding main
  main_reached stdin pcs s hs ms e p same h m = rw (main, e, p, same, h, m) refl

  main_lem :
      (stdin : Stdin)
      → All IsByte stdin.state_bytes
      → ((s : State)
          → parse_state stdin.state_bytes ≡ ok s
          → value s.current_target ≤ value genesis_target)
      → Shows stdin (main extend compress verify_sp1_proof stdin)
  unfolding main
  main_lem stdin bytes limit = elim (Result-cases (parse_proof_carrying_state stdin.input_bytes)) [
    | inr (_, e) ↦ rw (main, e) tt
    | inl (pcs, e) ↦ elim (Result-cases (parse_state stdin.state_bytes)) [
      | inr (_, p) ↦ rw (main, e, p) tt
      | inl (s, p) ↦ elim (Bool-cases (matches_claim s pcs.claim)) [
        | inr other ↦ rw (main, e, p, other) tt
        | inl same ↦
            elim (Result-cases
              (parse_new_headers stdin.header_hint_address stdin.header_hint_bytes)) [
                | inr (_, h) ↦ rw (main, e, p, same, h) tt
                | inl (hs, h) ↦
                    elim (Result-cases (
                      parse_median_hints stdin.median_hint_address stdin.median_hint_bytes
                        (length hs))) [
                          | inr (_, m) ↦ rw (main, e, p, same, h, m) tt
                          | inl (ms, m) ↦
                              let (small, full, fits) =
                                Holds-ok _ _ s (parse_state-IsState stdin.state_bytes bytes) p in
                              let lengths =
                                Holds-ok _ _ ms
                                  (parse_median_hints-length stdin.median_hint_address
                                    stdin.median_hint_bytes (length hs))
                                  m in
                              rw (main_reached stdin pcs s hs ms e p same h m) (
                                validate_lem stdin pcs s hs ms e p
                                  (matches_claim_lem s pcs.claim same) h small
                                  (record {
                                    window_full = full;
                                    target_fits = fits;
                                    target_bound = limit s p;
                                  })
                                  (sym lengths))
                        ]
              ]
      ]
    ]
  ]

-- If the state vector is bytes and the state parsed from it has a target of at most the limit of
-- the network, then for every run of the guest that commits to bytes the facts of `Shown` hold:
-- the state is that of the claim; the height is zero or the prior proof, for this state and this
-- key, was accepted; and the bytes are the public values of a right verdict on the parsed headers.
pub main-Shown :
    (extend : List ℕ → List ℕ) (compress : List ℕ → List ℕ → List ℕ)
    (verify_sp1_proof : List ℕ → List ℕ → Bool) (stdin : Stdin) (bytes : List ℕ)
    → All IsByte stdin.state_bytes
    → ((s : State)
        → parse_state stdin.state_bytes ≡ ok s
        → value s.current_target ≤ value genesis_target)
    → main extend compress verify_sp1_proof stdin ≡ returned bytes
    → Shown extend compress verify_sp1_proof stdin bytes
main-Shown extend compress verify_sp1_proof stdin bytes h limit e =
    rw e at (main_lem extend compress verify_sp1_proof stdin h limit)
