-- ===== src/Host/Execute/Proved.antt =====
-- The execution of a batch by the proof before it.
use zkpow.Prelude.{
  ℕ, replicate, ◌≡◌, refl, ap, ◌∙◌, ◌⊎◌, inl, inr, arith, List, Option, none, some, ok, returned,
  true, false, length, All,
}
use zkpow.Bytes.Words.{IsU32}
use zkpow.Header.{NewHeader}
use zkpow.Header.RoundTrip.{IsNewHeader}
use zkpow.Claim.{Claim}
use zkpow.Claim.RoundTrip.{IsClaim}
use zkpow.State.{State, public_claim, continuation_bytes}
use zkpow.Chain.{pow_insufficient, apply_headers}
use zkpow.Chain.Typed.{Typed}
use zkpow.PublicValues.{success, public_values_to_bytes, parse_public_values}
use zkpow.PublicValues.RoundTrip.{parse_public_values_lem}
use zkpow.Input.{Proof, default_proof, ProofCarryingState}
use zkpow.Input.RoundTrip.{IsProof}
use zkpow.Guest.{verify_prior_proof}
use zkpow.Host.Hash.{host_hash_header, continuation_digest_from_state}
use zkpow.Host.Attempt.{Attempt, fail, previous_proof_not_compressed, succeed}
use zkpow.Host.Batch.{SavedProof, PreparedBatch}
use zkpow.Host.Execute.{
  Sp1Stdin, written, build_stdin, build_proof, exit_code_of, run_guest, execute_batch_with_prover,
}
use zkpow.Host.Execute.Accepted.{
  Machine, unverified, expected_values, prior_lem, main_lem, run_lem, continuation_alike,
  length-compute_continuation_digest, public_claim-IsClaim,
}
use zkpow.Host.Execute.Runs.{length-sha256}

module _ (digest : List ℕ → List ℕ) where
  -- What the proof before a batch that starts in `s` is: there is none at height zero; else a compressed
  -- proof of a success that ends in `s`, with the same key.
  pub data Extends (vk : List ℕ) (s : State) : Option SavedProof → Type 0 where
    from_genesis : s.height ≡ 0 → Extends vk s none
    from_proof :
        (prev : SavedProof)
        → prev.compressed ≡ true
        → prev.public_values
          ≡ public_values_to_bytes
              (success (public_claim s) (continuation_digest_from_state digest s) vk)
        → Extends vk s (some prev)

-- The exit code of a proof of a success.
success-exit_code :
    (digest compute_pv_digest : List ℕ → List ℕ) (execute : Sp1Stdin → Attempt (List ℕ))
    (claim : Claim) (continuation key : List ℕ) (prev : SavedProof)
    → IsClaim claim
    → length continuation ≡ 32
    → length key ≡ 8
    → All IsU32 key
    → prev.public_values ≡ public_values_to_bytes (success claim continuation key)
    → build_proof digest compute_pv_digest execute key (some prev)
      ≡ succeed (
        key,
        record {
          public_values_digest = compute_pv_digest prev.public_values;
          exit_code = 0;
          pad = replicate 3 0;
        },
      )
unfolding build_proof exit_code_of
success-exit_code digest compute_pv_digest execute claim continuation key prev i d k fits e =
    let (parsed, _) =
      parse_public_values_lem claim pow_insufficient 0 continuation key i (omega arith) d k fits in
    let parsed' = ap parse_public_values e ∙ parsed in rw (build_proof, parsed', exit_code_of) refl

build_stdin-compressed :
    (pcs : ProofCarryingState) (s : State) (hs : List NewHeader) (ms : List ℕ) (prev : SavedProof)
    → prev.compressed ≡ true
    → build_stdin pcs s hs ms (some prev)
      ≡ succeed (record { vectors = written pcs s hs ms; proof = some prev })
unfolding build_stdin
build_stdin-compressed pcs s hs ms prev e =
    ap
      (λ b. elim b as (λ _. Attempt Sp1Stdin) [
        | false ↦ fail previous_proof_not_compressed
        | true ↦ succeed (record { vectors = written pcs s hs ms; proof = some prev })
      ])
      e

-- What the execution of one batch assumes.
module _ (extend : List ℕ → List ℕ) (compress : List ℕ → List ℕ → List ℕ)
    (digest compute_pv_digest : List ℕ → List ℕ) (execute : Sp1Stdin → Attempt (List ℕ))
    (machine : Machine extend compress digest compute_pv_digest execute) (vk : List ℕ)
    (batch : PreparedBatch) (typed : Typed batch.current_state)
    (hs_fit : All IsNewHeader batch.headers) (ms_fit : All IsU32 batch.median_hints)
    (lengths : length batch.headers ≡ length batch.median_hints)
    (simulated : apply_headers
        (host_hash_header digest)
        batch.current_state
        batch.headers
        batch.median_hints
      ≡ returned (batch.expected_state, ok tt))
    (expected : batch.expected_continuation_digest
      ≡ continuation_digest_from_state digest batch.expected_state)
    (key_length : length vk ≡ 8) (key_fits : All IsU32 vk) where
  written_for : Proof → Option SavedProof → Sp1Stdin
  written_for proof deferred = record {
    vectors =
        written
          (record { claim = public_claim batch.current_state; verifier_key = vk; proof = proof })
          batch.current_state batch.headers batch.median_hints;
    proof = deferred;
  }

  -- The guest's run, once the input is built.
  built_lem :
      (proof : Proof) (deferred : Option SavedProof)
      → IsProof proof
      → (batch.current_state.height ≡ 0)
        ⊎ (verify_prior_proof extend compress unverified proof vk
              (public_claim batch.current_state)
              (continuation_bytes batch.current_state)
            ≡ true)
      → run_guest digest compute_pv_digest execute (written_for proof deferred) (
          public_values_to_bytes
            (success (public_claim batch.expected_state) batch.expected_continuation_digest vk))
        ≡ succeed (record {
          stdin = written_for proof deferred;
          expected_pv =
              public_values_to_bytes
                (success (public_claim batch.expected_state) batch.expected_continuation_digest vk);
        })
  unfolding expected_values written_for
  built_lem proof deferred fits prior = rw expected (
      run_lem extend compress digest compute_pv_digest execute machine batch.current_state
        batch.expected_state batch.headers batch.median_hints vk typed hs_fit ms_fit lengths
        simulated key_length key_fits (written_for proof deferred)
        (main_lem extend compress digest compute_pv_digest execute machine batch.current_state
          batch.expected_state batch.headers batch.median_hints vk typed hs_fit ms_fit lengths
          simulated key_length key_fits proof deferred fits prior))

  prover_lem :
      (previous_proof : Option SavedProof)
      → batch.previous_proof ≡ previous_proof
      → Extends digest vk batch.current_state previous_proof
      → (stdin : Sp1Stdin) × (execute_batch_with_prover digest compute_pv_digest execute vk batch
          ≡ succeed (record {
            stdin = stdin;
            expected_pv =
                public_values_to_bytes (
                  success
                    (public_claim batch.expected_state)
                    batch.expected_continuation_digest
                    vk);
          }))
  unfolding execute_batch_with_prover build_stdin build_proof written_for
  prover_lem _ e (from_genesis zero_height) = (
    written_for default_proof none,
    rw (execute_batch_with_prover, e, build_proof, build_stdin)
        (built_lem default_proof none (record { digest_length = refl; pad_length = refl })
          (inl zero_height)),
  )
  prover_lem _ e (from_proof prev compressed for_state) =
      let s = batch.current_state in
      let proof : Proof = record {
        public_values_digest = compute_pv_digest prev.public_values;
        exit_code = 0;
        pad = replicate 3 0;
      } in
      let d =
        ap length (
          continuation_alike extend compress digest compute_pv_digest execute machine s typed.types)
        ∙ length-compute_continuation_digest extend compress digest compute_pv_digest execute
            machine s in
      let built =
        success-exit_code digest compute_pv_digest execute (public_claim s)
          (continuation_digest_from_state digest s) vk prev (public_claim-IsClaim s typed.types) d
          key_length key_fits for_state in
      let prior =
        prior_lem extend compress digest compute_pv_digest execute machine s vk proof typed.types
          key_length key_fits refl (ap compute_pv_digest for_state) in
      (
        written_for proof (some prev),
        rw
            (
              execute_batch_with_prover,
              e,
              built,
              build_stdin-compressed _ s batch.headers batch.median_hints prev compressed,
            )
            (built_lem proof (some prev)
              (record {
                digest_length =
                    ap length (machine.pv_digest_is _) ∙ length-sha256 extend compress _;
                pad_length = refl;
              })
              (inr prior)),
      )

-- On a machine where the host's digest is the guest's and an execution runs the guest: a prepared batch
-- that extends its previous proof, of headers and hints of the right types, as many of each, from a state
-- of the right types, is executed with success, and the guest commits to the claim and the continuation
-- digest that the host expects, for the same key.
pub execute_batch_with_prover-succeeds :
    (extend : List ℕ → List ℕ) (compress : List ℕ → List ℕ → List ℕ)
    (digest compute_pv_digest : List ℕ → List ℕ) (execute : Sp1Stdin → Attempt (List ℕ))
    (vk : List ℕ) (batch : PreparedBatch)
    → Machine extend compress digest compute_pv_digest execute
    → Typed batch.current_state
    → All IsNewHeader batch.headers
    → All IsU32 batch.median_hints
    → length batch.headers ≡ length batch.median_hints
    → apply_headers (host_hash_header digest) batch.current_state batch.headers batch.median_hints
      ≡ returned (batch.expected_state, ok tt)
    → batch.expected_continuation_digest
      ≡ continuation_digest_from_state digest batch.expected_state
    → length vk ≡ 8
    → All IsU32 vk
    → Extends digest vk batch.current_state batch.previous_proof
    → (stdin : Sp1Stdin) × (execute_batch_with_prover digest compute_pv_digest execute vk batch
        ≡ succeed (record {
          stdin = stdin;
          expected_pv =
              public_values_to_bytes
                (success (public_claim batch.expected_state) batch.expected_continuation_digest vk);
        }))
execute_batch_with_prover-succeeds extend compress digest compute_pv_digest execute vk batch machine
      typed hs_fit ms_fit lengths simulated expected key_length key_fits extends =
    prover_lem extend compress digest compute_pv_digest execute machine vk batch typed hs_fit ms_fit
      lengths simulated expected key_length key_fits batch.previous_proof refl extends
