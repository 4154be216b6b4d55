-- ===== src/Host/Execute/Accepted.antt =====
-- A batch that the host prepared is one that the guest accepts: the host's execution of the guest
-- succeeds, and commits to the public values that the host expects.
use zkpow.Prelude.{
  ℕ, ◌%◌, ◌≡◌, refl, sym, ap, ◌∙◌, arith, ◌⊎◌, inl, inr, List, [], Option, ok, returned, Bool, true,
  false, Bool-cases, length, get_or, ltb, All,
}
use zkpow.U256.Order.{eq_u256_iff}
use zkpow.Sha256.{sha256_116bytes, sha256_169bytes}
use zkpow.Bytes.Words.{IsU32}
use zkpow.Header.{Header, NewHeader, header_to_bytes}
use zkpow.Header.RoundTrip.{IsHeader, IsNewHeader}
use zkpow.Claim.RoundTrip.{IsClaim}
use zkpow.State.{State, public_claim, continuation_bytes}
use zkpow.State.RoundTrip.{HasTypes, parse_state-state_to_bytes}
use zkpow.Chain.{apply_headers, pow_insufficient}
use zkpow.Chain.Typed.{Typed, apply_headers-Typed}
use zkpow.Chain.SameHash.{apply_headers-alike}
use zkpow.PublicValues.{MinimalPublicValues, success, public_values_to_bytes}
use zkpow.PublicValues.RoundTrip.{
  parse_public_values_lem, length-public_values_to_bytes, success-IsPublicValues,
}
use zkpow.Input.{Proof, ProofCarryingState, serialize_median_hints, parse_median_hints}
use zkpow.Input.RoundTrip.{
  IsProof, parse_proof_carrying_state-proof_carrying_state_to_bytes,
  parse_new_headers-serialize_new_headers, parse_median_hints-serialize_median_hints,
}
use zkpow.Sha256.Reference.{sha256, sha256_lengths_lem}
use zkpow.Guest.{
  Stdin, matches_claim, hash_header, compute_continuation_digest, verify_prior_proof,
  committed_values, validate, main,
}
use zkpow.Guest.Checks.{length-state_to_hash, hash_header-IsHash}
use zkpow.Guest.Digests.{digests_lem}
use zkpow.Guest.Soundness.{main_reached}
use zkpow.Host.Hash.{sha256d, host_hash_header, continuation_digest, continuation_digest_from_state}
use zkpow.Host.Equal.{eq_bytes_refl}
use zkpow.Host.Attempt.{Attempt, succeed}
use zkpow.Host.Batch.{SavedProof}
use zkpow.Host.Execute.{Sp1Stdin, written, verify_public_values, verify_parsed, run_guest}

-- The guest reads the vectors in their order; its allocator chooses the addresses.
unfoldable pub received : ℕ → ℕ → Sp1Stdin → Stdin
received header_address median_address stdin = record {
  input_bytes = get_or stdin.vectors 0 [];
  state_bytes = get_or stdin.vectors 1 [];
  header_hint_bytes = get_or stdin.vectors 2 [];
  median_hint_bytes = get_or stdin.vectors 3 [];
  header_hint_address = header_address;
  median_hint_address = median_address;
}

-- With the verification of deferred proofs switched off, the system call does not fail.
abbrev pub unverified : List ℕ → List ℕ → Bool
unverified verifier_key public_values_digest = true

-- What the two crates document: both digests are SHA-256, whose rounds the system calls compute, and an
-- execution gives the bytes that the guest commits to. A buffer of the guest is aligned.
pub record Machine (extend : List ℕ → List ℕ) (compress : List ℕ → List ℕ → List ℕ)
    (digest compute_pv_digest : List ℕ → List ℕ) (execute : Sp1Stdin → Attempt (List ℕ))
    : Type 0 where
  pub digest_is : (bytes : List ℕ) → digest bytes ≡ sha256 extend compress bytes
  pub pv_digest_is : (bytes : List ℕ) → compute_pv_digest bytes ≡ sha256 extend compress bytes
  pub header_address : ℕ
  pub median_address : ℕ
  pub header_aligned : header_address % 4 ≡ 0
  pub median_aligned : median_address % 4 ≡ 0
  pub executes :
      (stdin : Sp1Stdin) (bytes : List ℕ)
      → main extend compress unverified (received header_address median_address stdin)
        ≡ returned bytes
      → execute stdin ≡ succeed bytes

pub public_claim-IsClaim : (s : State) → HasTypes s → IsClaim (public_claim s)
unfolding public_claim
public_claim-IsClaim s i = record {
  genesis_length = i.genesis_length;
  tip_length = i.hash_length;
  work_fits = i.chain_work_fits;
  height_fits = i.height_fits;
}

matches_claim_refl : (s : State) → matches_claim s (public_claim s) ≡ true
unfolding matches_claim public_claim
matches_claim_refl s =
    let g = eq_bytes_refl s.genesis_hash in
    let t = eq_bytes_refl s.block_hash in
    let w = (eq_u256_iff s.chain_work s.chain_work).1 refl in ground arith

module _ (extend : List ℕ → List ℕ) (compress : List ℕ → List ℕ → List ℕ)
    (digest compute_pv_digest : List ℕ → List ℕ) (execute : Sp1Stdin → Attempt (List ℕ))
    (machine : Machine extend compress digest compute_pv_digest execute) where
  pub length-compute_continuation_digest :
      (s : State) → length (compute_continuation_digest extend compress unverified s) ≡ 32
  unfolding compute_continuation_digest sha256_116bytes
  length-compute_continuation_digest s = length-state_to_hash _

  -- Host and guest hash alike.
  pub continuation_alike :
      (s : State)
      → HasTypes s
      → continuation_digest_from_state digest s
        ≡ compute_continuation_digest extend compress unverified s
  unfolding continuation_digest_from_state continuation_digest continuation_bytes
  continuation_alike s i =
      machine.digest_is (continuation_bytes s)
      ∙ sym (digests_lem extend compress unverified s.header s i.header_fits i).1

  headers_alike :
      (s : State) (h : Header)
      → HasTypes s
      → IsHeader h
      → host_hash_header digest h ≡ hash_header extend compress unverified h
  unfolding host_hash_header sha256d
  headers_alike s h i j =
      ap digest (machine.digest_is (header_to_bytes h))
      ∙ machine.digest_is (sha256 extend compress (header_to_bytes h))
      ∙ sym (digests_lem extend compress unverified h s j i).0

  -- A proof of the public values that the host computes for a state passes the guest's check.
  pub prior_lem :
      (s : State) (key : List ℕ) (proof : Proof)
      → HasTypes s
      → length key ≡ 8
      → All IsU32 key
      → proof.exit_code ≡ 0
      → proof.public_values_digest
        ≡ compute_pv_digest (
            public_values_to_bytes
              (success (public_claim s) (continuation_digest_from_state digest s) key))
      → verify_prior_proof extend compress unverified proof key
          (public_claim s)
          (continuation_bytes s)
        ≡ true
  unfolding verify_prior_proof compute_continuation_digest
  prior_lem s key proof i k fits exit for_values =
      let pv : MinimalPublicValues =
        success (public_claim s) (compute_continuation_digest extend compress unverified s) key in
      let n = length-public_values_to_bytes pv (
        success-IsPublicValues (public_claim s)
          (compute_continuation_digest extend compress unverified s) key (public_claim-IsClaim s i)
          (length-compute_continuation_digest s) k fits) in
      let (_, _, _, at_169) = sha256_lengths_lem extend compress (public_values_to_bytes pv) in
      let hash : proof.public_values_digest
          ≡ sha256_169bytes extend compress (public_values_to_bytes pv) =
        for_values
        ∙ ap (λ d. compute_pv_digest (public_values_to_bytes (success (public_claim s) d key)))
            (continuation_alike s i)
        ∙ machine.pv_digest_is (public_values_to_bytes pv)
        ∙ sym (at_169 n) in
      rw (verify_prior_proof, exit, hash, eq_bytes_refl) refl

  -- A batch in the host's memory, the key that the guest gets, and the proof beside it.
  module _ (s t : State) (hs : List NewHeader) (ms : List ℕ) (key : List ℕ) (typed : Typed s)
      (headers_fit : All IsNewHeader hs) (hints_fit : All IsU32 ms)
      (lengths : length hs ≡ length ms)
      (simulated : apply_headers (host_hash_header digest) s hs ms ≡ returned (t, ok tt))
      (key_length : length key ≡ 8) (key_fits : All IsU32 key) where
    unfoldable pub expected_values : List ℕ
    expected_values =
        public_values_to_bytes
          (success (public_claim t) (continuation_digest_from_state digest t) key)

    guest_simulated :
        apply_headers (hash_header extend compress unverified) s hs ms ≡ returned (t, ok tt)
    guest_simulated =
        sym (
          apply_headers-alike (host_hash_header digest) (hash_header extend compress unverified) s
            hs ms (hash_header-IsHash extend compress unverified)
            (λ h. headers_alike s h typed.types) typed headers_fit lengths)
        ∙ simulated

    end_types : HasTypes t
    end_types =
        (apply_headers-Typed (hash_header extend compress unverified) s t hs ms (ok tt)
          (hash_header-IsHash extend compress unverified) typed headers_fit lengths
          guest_simulated).types

    validate_lem :
        (pcs : ProofCarryingState)
        → pcs.claim ≡ public_claim s
        → pcs.verifier_key ≡ key
        → (s.height ≡ 0)
          ⊎ (verify_prior_proof extend compress unverified pcs.proof key
                (public_claim s)
                (continuation_bytes s)
              ≡ true)
        → validate extend compress unverified pcs s hs ms ≡ returned expected_values
    unfolding validate committed_values expected_values public_claim
    validate_lem pcs claim vk (inl zero_height) =
        let start : ltb 0 (public_claim s).height ≡ false = ground arith in
        rw (validate, claim, start, guest_simulated, committed_values, vk)
          (ap (λ d. returned (public_values_to_bytes (success (public_claim t) d key)))
            (sym (continuation_alike t end_types)))
    validate_lem pcs claim vk (inr prior) = elim (Bool-cases (ltb 0 (public_claim s).height)) [
      | inr start ↦
          rw (validate, claim, start, guest_simulated, committed_values, vk)
            (ap (λ d. returned (public_values_to_bytes (success (public_claim t) d key)))
              (sym (continuation_alike t end_types)))
      | inl later ↦
          rw (validate, claim, vk, later, prior, guest_simulated, committed_values, vk)
            (ap (λ d. returned (public_values_to_bytes (success (public_claim t) d key)))
              (sym (continuation_alike t end_types)))
    ]

    -- The guest, on what the host writes.
    pub main_lem :
        (proof : Proof) (deferred : Option SavedProof)
        → IsProof proof
        → (s.height ≡ 0)
          ⊎ (verify_prior_proof extend compress unverified proof key
                (public_claim s)
                (continuation_bytes s)
              ≡ true)
        → let pcs : ProofCarryingState = record {
          claim = public_claim s;
          verifier_key = key;
          proof = proof;
        } in
          main extend compress unverified (
            received machine.header_address machine.median_address
              (record { vectors = written pcs s hs ms; proof = deferred }))
          ≡ returned expected_values
    unfolding received
    main_lem proof deferred i prior =
        let pcs : ProofCarryingState = record {
          claim = public_claim s;
          verifier_key = key;
          proof = proof;
        } in
        main_reached extend compress unverified _ pcs s hs ms
          (parse_proof_carrying_state-proof_carrying_state_to_bytes pcs
            (public_claim-IsClaim s typed.types) key_length key_fits i)
          (parse_state-state_to_bytes s typed.types) (matches_claim_refl s)
          (parse_new_headers-serialize_new_headers machine.header_address hs headers_fit
            machine.header_aligned)
          (ap (parse_median_hints machine.median_address (serialize_median_hints ms)) lengths
            ∙ parse_median_hints-serialize_median_hints machine.median_address ms hints_fit
                machine.median_aligned)
        ∙ validate_lem pcs refl refl prior

    expected_accepted : verify_public_values expected_values expected_values ≡ succeed tt
    unfolding verify_public_values verify_parsed expected_values
    expected_accepted =
        let d : length (continuation_digest_from_state digest t) ≡ 32 =
          ap length (continuation_alike t end_types) ∙ length-compute_continuation_digest t in
        let (parsed, _) =
          parse_public_values_lem (public_claim t) pow_insufficient 0
            (continuation_digest_from_state digest t) key (public_claim-IsClaim t end_types)
            (omega arith) d key_length key_fits in
        rw (verify_public_values, parsed, verify_parsed, eq_bytes_refl expected_values) refl

    pub run_lem :
        (stdin : Sp1Stdin)
        → main extend compress unverified
            (received machine.header_address machine.median_address stdin)
          ≡ returned expected_values
        → run_guest digest compute_pv_digest execute stdin expected_values
          ≡ succeed (record { stdin = stdin; expected_pv = expected_values })
    unfolding run_guest
    run_lem stdin e =
        rw (run_guest, machine.executes stdin expected_values e, expected_accepted) refl
