-- ===== src/Host/Execute/Runs.antt =====
-- The execution of a batch without the proof before it.
use zkpow.Prelude.{
  ℕ, zero, suc, replicate, ◌≡◌, refl, ap, ◌∙◌, inr, arith, List, none, ok, returned, length, All,
}
use zkpow.Bytes.Words.{IsU32}
use zkpow.Header.RoundTrip.{IsNewHeader}
use zkpow.State.{public_claim}
use zkpow.Chain.{apply_headers}
use zkpow.Chain.Typed.{Typed}
use zkpow.PublicValues.{success, public_values_to_bytes}
use zkpow.Input.{Proof}
use zkpow.Input.RoundTrip.{IsProof}
use zkpow.Sha256.Reference.{sha256}
use zkpow.Guest.Checks.{length-state_to_hash}
use zkpow.Host.Hash.{host_hash_header, continuation_digest_from_state}
use zkpow.Host.Attempt.{Attempt, succeed}
use zkpow.Host.Execute.{
  Sp1Stdin, written, UnprovenBatchInput, default_key, build_stdin, stand_in_proof,
  execute_batch_without_proof,
}
use zkpow.Host.Execute.Accepted.{Machine, expected_values, prior_lem, main_lem, run_lem}

zeros-IsU32 : (n : ℕ) → All IsU32 (replicate n 0)
zeros-IsU32 zero = tt
zeros-IsU32 (suc n) = (omega arith, zeros-IsU32 n)

pub length-sha256 :
    (extend : List ℕ → List ℕ) (compress : List ℕ → List ℕ → List ℕ) (bytes : List ℕ)
    → length (sha256 extend compress bytes) ≡ 32
unfolding sha256
length-sha256 extend compress bytes = length-state_to_hash _

-- On a machine where the host's digest is the guest's and an execution runs the guest: a batch of
-- headers and hints of the right types, as many of each, from a state of the right types at any height,
-- that the host's own run accepts, is executed with success without a previous proof, and the guest
-- commits to the claim and the continuation digest that the host expects.
pub execute_batch_without_proof-succeeds :
    (extend : List ℕ → List ℕ) (compress : List ℕ → List ℕ → List ℕ)
    (digest compute_pv_digest : List ℕ → List ℕ) (execute : Sp1Stdin → Attempt (List ℕ))
    (batch : UnprovenBatchInput)
    → Machine extend compress digest compute_pv_digest execute
    → Typed batch.current_state
    → All IsNewHeader batch.headers
    → All IsU32 batch.median_hints
    → length batch.headers ≡ length batch.median_hints
    → apply_headers (host_hash_header digest) batch.current_state batch.headers batch.median_hints
      ≡ returned (batch.expected_state, ok tt)
    → batch.expected_continuation_digest
      ≡ continuation_digest_from_state digest batch.expected_state
    → (stdin : Sp1Stdin) × (execute_batch_without_proof digest compute_pv_digest execute batch
        ≡ succeed (record {
          stdin = stdin;
          expected_pv = public_values_to_bytes (
              success
                (public_claim batch.expected_state)
                batch.expected_continuation_digest
                default_key);
        }))
unfolding execute_batch_without_proof build_stdin expected_values stand_in_proof
execute_batch_without_proof-succeeds extend compress digest compute_pv_digest execute batch machine
      typed hs_fit ms_fit lengths simulated expected =
    let s = batch.current_state in
    let proof : Proof = stand_in_proof digest compute_pv_digest execute s in
    let proof_fits : IsProof proof = record {
      digest_length = ap length (machine.pv_digest_is _) ∙ length-sha256 extend compress _;
      pad_length = refl;
    } in
    let key_fits = zeros-IsU32 8 in
    let prior =
      prior_lem extend compress digest compute_pv_digest execute machine s default_key proof
        typed.types refl key_fits refl refl in
    let stdin : Sp1Stdin = record {
      vectors =
          written (record { claim = public_claim s; verifier_key = default_key; proof = proof }) s
            batch.headers batch.median_hints;
      proof = none;
    } in
    (
      stdin,
      rw expected (
          run_lem extend compress digest compute_pv_digest execute machine s batch.expected_state
            batch.headers batch.median_hints default_key typed hs_fit ms_fit lengths simulated refl
            key_fits stdin
            (main_lem extend compress digest compute_pv_digest execute machine s
              batch.expected_state batch.headers batch.median_hints default_key typed hs_fit ms_fit
              lengths simulated refl key_fits proof none proof_fits (inr prior))),
    )
