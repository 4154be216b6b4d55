-- ===== src/Guest/Digests.antt =====
-- What the guest hashes: with the functions for one length it computes SHA-256 of the bytes.
use zkpow.Prelude.{ℕ, ◌≡◌, ap, ◌∙◌, Bool, List, length}
use zkpow.Header.{Header, header_to_bytes}
use zkpow.Header.RoundTrip.{IsHeader, length-header_to_bytes}
use zkpow.Claim.RoundTrip.{length-continuation_to_bytes}
use zkpow.State.{State, continuation_bytes, continuation_from_state}
use zkpow.State.RoundTrip.{HasTypes}
use zkpow.Sha256.{sha256d_80bytes, sha256_80bytes}
use zkpow.Sha256.Reference.{sha256, sha256_lengths_lem}
use zkpow.Guest.{hash_header, compute_continuation_digest}
use zkpow.Guest.Checks.{length-state_to_hash}

sha256_80bytes-length :
    (extend : List ℕ → List ℕ) (compress : List ℕ → List ℕ → List ℕ) (bytes : List ℕ)
    → length (sha256_80bytes extend compress bytes) ≡ 32
unfolding sha256_80bytes
sha256_80bytes-length extend compress bytes = length-state_to_hash _

-- For a header and a state whose fields fit their types: the hash of the header is SHA-256 twice
-- of its 80 bytes, and the continuation digest is SHA-256 of the continuation data, whatever the
-- system calls compute.
pub digests_lem :
    (extend : List ℕ → List ℕ) (compress : List ℕ → List ℕ → List ℕ)
    (verify_sp1_proof : List ℕ → List ℕ → Bool) (h : Header) (s : State)
    → IsHeader h
    → HasTypes s
    → (hash_header extend compress verify_sp1_proof h
        ≡ sha256 extend compress (sha256 extend compress (header_to_bytes h)))
      × (compute_continuation_digest extend compress verify_sp1_proof s
          ≡ sha256 extend compress (continuation_bytes s))
unfolding hash_header compute_continuation_digest sha256d_80bytes continuation_bytes
    continuation_from_state
digests_lem extend compress verify_sp1_proof h s i j =
    let (_, at_80, _, _) = sha256_lengths_lem extend compress (header_to_bytes h) in
    let first = at_80 (length-header_to_bytes h i) in
    let (at_32, _, _, _) =
      sha256_lengths_lem extend compress (sha256_80bytes extend compress (header_to_bytes h)) in
    let (_, _, at_116, _) = sha256_lengths_lem extend compress (continuation_bytes s) in
    (
      at_32 (sha256_80bytes-length extend compress (header_to_bytes h))
          ∙ ap (sha256 extend compress) first,
      at_116 (length-continuation_to_bytes (continuation_from_state s) j.window_length),
    )
