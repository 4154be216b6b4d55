-- ===== src/Guest.antt =====
-- The guest program of crates/guest/src/main.rs: what one recursive proof shows. The system calls for
-- SHA-256 and for the check of the prior proof are parameters; a call of `verify_sp1_proof` that
-- fails stops the program.
pub mod Checks
pub mod Digests
pub mod Soundness
use zkpow.Prelude.{
  ℕ, Bool, true, false, ◌&&◌, not, List, [], ◌∷◌, Option, none, some, Result, ok, err, Outcome,
  returned, panicked, ◌==◌, ltb, length, if◌then◌else◌,
}
use zkpow.U256.{eq_u256}
use zkpow.Header.{Header, NewHeader, header_to_bytes}
use zkpow.Claim.{Claim}
use zkpow.State.{State, parse_state, public_claim, continuation_bytes}
use zkpow.Chain.{ApplyFailure, apply_headers}
use zkpow.PublicValues.{MinimalPublicValues, success, failure, public_values_to_bytes}
use zkpow.Input.{
  Proof, ProofCarryingState, parse_proof_carrying_state, parse_new_headers, parse_median_hints,
}
use zkpow.Sha256.{sha256_116bytes, sha256_169bytes, sha256d_80bytes}

-- The derived `PartialEq` of byte arrays.
unfoldable pub eq_bytes : List ℕ → List ℕ → Bool
eq_bytes [] [] = true
eq_bytes [] (y ∷ ys) = false
eq_bytes (x ∷ xs) [] = false
eq_bytes (x ∷ xs) (y ∷ ys) = x == y && eq_bytes xs ys

-- The four vectors that the host writes, with the addresses of the two that are cast to slices.
pub record Stdin : Type 0 where
  pub input_bytes : List ℕ
  pub state_bytes : List ℕ
  pub header_hint_bytes : List ℕ
  pub median_hint_bytes : List ℕ
  pub header_hint_address : ℕ
  pub median_hint_address : ℕ

-- The condition that the guest asserts of the state witness.
unfoldable pub matches_claim : State → Claim → Bool
matches_claim state claim =
    eq_bytes state.genesis_hash claim.genesis_hash
    && eq_bytes state.block_hash claim.tip_hash
    && eq_u256 state.chain_work claim.chain_work
    && state.height == claim.height

module _ (extend : List ℕ → List ℕ) (compress : List ℕ → List ℕ → List ℕ)
    (verify_sp1_proof : List ℕ → List ℕ → Bool) where
  unfoldable pub hash_header : Header → List ℕ
  hash_header header = sha256d_80bytes extend compress (header_to_bytes header)

  unfoldable pub compute_continuation_digest : State → List ℕ
  compute_continuation_digest state = sha256_116bytes extend compress (continuation_bytes state)

  -- Whether `verify_prior_proof` returns; where not, it panics.
  unfoldable pub verify_prior_proof : Proof → List ℕ → Claim → List ℕ → Bool
  verify_prior_proof proof verifier_key prior_claim prior_continuation_bytes =
      if not (proof.exit_code == 0)
      then false
      else let continuation_digest = sha256_116bytes extend compress prior_continuation_bytes in
        let prior_pv = success prior_claim continuation_digest verifier_key in
        let actual_pv_hash = sha256_169bytes extend compress (public_values_to_bytes prior_pv) in
        if not (eq_bytes actual_pv_hash proof.public_values_digest)
        then false
        else verify_sp1_proof verifier_key proof.public_values_digest

  -- The public values that `main` commits to after `apply_headers`.
  unfoldable pub committed_values :
      ProofCarryingState → State × Result ApplyFailure (Unit {0}) → MinimalPublicValues
  committed_values pcs (state, ok _) =
      success (public_claim state) (compute_continuation_digest state) pcs.verifier_key
  committed_values pcs (state, err f) =
      failure (public_claim f.last_valid_state) f.error_code f.failure_height
        (compute_continuation_digest f.last_valid_state) pcs.verifier_key

  -- `main` from where the state is known to match the claim, and the hints are parsed.
  unfoldable pub validate : ProofCarryingState → State → List NewHeader → List ℕ → Outcome (List ℕ)
  validate pcs state header_hints median_hints =
      if ltb 0 pcs.claim.height
        && not (verify_prior_proof pcs.proof pcs.verifier_key pcs.claim (continuation_bytes state))
      then panicked
      else elim (apply_headers hash_header state header_hints median_hints) [
        | panicked ↦ panicked
        | returned result ↦ returned (public_values_to_bytes (committed_values pcs result))
      ]

  -- The bytes that `main` commits to, where it does not panic.
  unfoldable pub main : Stdin → Outcome (List ℕ)
  main stdin = elim (parse_proof_carrying_state stdin.input_bytes) [
    | err _ ↦ panicked
    | ok pcs ↦ elim (parse_state stdin.state_bytes) [
      | err _ ↦ panicked
      | ok state ↦
          if not (matches_claim state pcs.claim)
          then panicked
          else elim (parse_new_headers stdin.header_hint_address stdin.header_hint_bytes) [
            | err _ ↦ panicked
            | ok header_hints ↦
                elim (parse_median_hints stdin.median_hint_address stdin.median_hint_bytes
                  (length header_hints)) [
                    | err _ ↦ panicked
                    | ok median_hints ↦ validate pcs state header_hints median_hints
                  ]
          ]
    ]
  ]
