-- ===== src/Input/RoundTrip.antt =====
-- The hints that the host serializes are those that the guest parses.
use zkpow.Prelude.{
  ℕ, ◌*◌, ◌/◌, ◌%◌, ◌≡◌, refl, sym, ap, ◌∙◌, append-nil, ==_iff, arith, true, List, [], ◌∷◌, ◌++◌,
  length, All, ok, ◌==◌,
}
use zkpow.Bytes.{le_bytes, from_le, slice_from_bytes, check_aligned, chunks}
use zkpow.Bytes.Le.{length-le_bytes, from_le-le_bytes}
use zkpow.Bytes.Words.{IsU32}
use zkpow.Bytes.Chunks.{serialized, length-serialized, chunks-serialized}
use zkpow.Header.{NewHeader, new_header_to_bytes, new_header_at}
use zkpow.Header.RoundTrip.{
  IsNewHeader, length-new_header_to_bytes, new_header_at-new_header_to_bytes,
}
use zkpow.Bytes.{concat, check_exact_len}
use zkpow.Bytes.Layout.{slice-concat, length-concat}
use zkpow.Bytes.Exact.{copy_from_bytes_ok}
use zkpow.Claim.{claim_to_bytes, verifier_key_to_bytes}
use zkpow.Claim.RoundTrip.{
  IsClaim, length-claim_to_bytes, parse_claim-claim_to_bytes, length-verifier_key_to_bytes,
  verifier_key_from_bytes-verifier_key_to_bytes,
}
use zkpow.Input.{
  Proof, proof_to_bytes, proof_at, proof_fields, parse_proof, ProofCarryingState, split_pcs_wire,
  parse_proof_carrying_state, proof_carrying_state_to_bytes, serialize_new_headers,
  parse_new_headers, serialize_median_hints, parse_median_hints,
}

-- A cast of an aligned buffer of a whole number of values.
slice_from_bytes_lem :
    {A : Type 0} (size : ℕ) (at : List ℕ → A) (address n : ℕ) (bytes : List ℕ)
    → length bytes % size ≡ 0
    → length bytes / size ≡ n
    → address % 4 ≡ 0
    → slice_from_bytes size 4 at address bytes ≡ ok (chunks size at n bytes)
unfolding slice_from_bytes check_aligned
slice_from_bytes_lem size at address n bytes h count a =
    let whole : (length bytes % size == 0) ≡ true = ground arith in
    let aligned : (address % 4 == 0) ≡ true = ground arith in rw (whole, aligned, count) refl

serialize_new_headers-serialized :
    (hs : List NewHeader)
    → serialize_new_headers hs ≡ serialized 44 new_header_to_bytes new_header_at hs
unfolding serialize_new_headers
serialize_new_headers-serialized [] = refl
serialize_new_headers-serialized (h ∷ hs) =
    ap (λ l. new_header_to_bytes h ++ l) (serialize_new_headers-serialized hs)

serialize_median_hints-serialized :
    (ms : List ℕ) → serialize_median_hints ms ≡ serialized 4 (le_bytes 4) from_le ms
unfolding serialize_median_hints
serialize_median_hints-serialized [] = refl
serialize_median_hints-serialized (m ∷ ms) =
    ap (λ l. le_bytes 4 m ++ l) (serialize_median_hints-serialized ms)

-- Headers whose fields fit their types, serialized into a buffer at a multiple of 4, are parsed
-- back unchanged.
pub parse_new_headers-serialize_new_headers :
    (address : ℕ) (hs : List NewHeader)
    → All IsNewHeader hs
    → address % 4 ≡ 0
    → parse_new_headers address (serialize_new_headers hs) ≡ ok hs
unfolding parse_new_headers
parse_new_headers-serialize_new_headers address hs h a =
    let bytes : List ℕ = serialized 44 new_header_to_bytes new_header_at hs in
    let n : length bytes ≡ length hs * 44 =
      length-serialized 44 new_header_to_bytes new_header_at length-new_header_to_bytes hs h in
    let whole : (length bytes % 44 == 0) ≡ true = ground arith in
    rw
      (
        serialize_new_headers-serialized hs,
        whole,
        slice_from_bytes_lem 44 new_header_at address (length hs) bytes (omega arith) (omega arith)
            a,
        chunks-serialized 44 new_header_to_bytes new_header_at length-new_header_to_bytes
            new_header_at-new_header_to_bytes hs h,
      )
      refl

-- Medians of 32 bits, serialized into a buffer at a multiple of 4, are parsed back unchanged where
-- as many are expected.
pub parse_median_hints-serialize_median_hints :
    (address : ℕ) (ms : List ℕ)
    → All IsU32 ms
    → address % 4 ≡ 0
    → parse_median_hints address (serialize_median_hints ms) (length ms) ≡ ok ms
unfolding parse_median_hints
parse_median_hints-serialize_median_hints address ms h a =
    let bytes : List ℕ = serialized 4 (le_bytes 4) from_le ms in
    let n : length bytes ≡ length ms * 4 =
      length-serialized 4 (le_bytes 4) from_le (λ m _. length-le_bytes 4 m) ms h in
    let whole : (length bytes == length ms * 4) ≡ true = ground arith in
    rw
      (
        serialize_median_hints-serialized ms,
        whole,
        slice_from_bytes_lem 4 from_le address (length ms) bytes (omega arith) (omega arith) a,
        chunks-serialized 4 (le_bytes 4) from_le (λ m _. length-le_bytes 4 m)
            (λ m k. from_le-le_bytes 4 m k) ms h,
      )
      refl

-- What the types of a proof's fields guarantee.
pub record IsProof (p : Proof) : Type 0 where
  pub digest_length : length p.public_values_digest ≡ 32
  pub pad_length : length p.pad ≡ 3

length-proof_to_bytes : (p : Proof) → IsProof p → length (proof_to_bytes p) ≡ 36
unfolding proof_to_bytes
length-proof_to_bytes p i =
    length-concat (proof_fields p) ∙ omega (arith, i.digest_length, i.pad_length)

parse_proof-proof_to_bytes : (p : Proof) → IsProof p → parse_proof (proof_to_bytes p) ≡ ok p
unfolding parse_proof proof_to_bytes proof_at
parse_proof-proof_to_bytes p i =
    let d = i.digest_length in
    let q = i.pad_length in
    rw
      (
        copy_from_bytes_ok 36 proof_at (proof_to_bytes p) (length-proof_to_bytes p i),
        slice-concat 0 0 32 (proof_fields p) refl (omega arith),
        slice-concat 1 32 33 (proof_fields p) (omega arith) (omega arith),
        slice-concat 2 33 36 (proof_fields p) (omega arith) (omega arith),
      )
      refl

split_pcs_wire-concat :
    (a b c : List ℕ)
    → length a ≡ 100
    → length b ≡ 32
    → length c ≡ 36
    → split_pcs_wire (concat (a ∷ b ∷ c ∷ [])) ≡ ok (a, b, c)
unfolding split_pcs_wire check_exact_len
split_pcs_wire-concat a b c p q r =
    let parts : List (List ℕ) = a ∷ b ∷ c ∷ [] in
    let n : length (concat parts) ≡ 168 = length-concat parts ∙ omega arith in
    rw
      (
        split_pcs_wire,
        check_exact_len,
        (==_iff (length (concat parts)) 168).1 n,
        slice-concat 0 0 100 parts refl (omega arith),
        slice-concat 1 100 132 parts (omega arith) (omega arith),
        n,
        slice-concat 2 132 168 parts (omega arith) (omega arith),
      )
      refl

-- A proof-carrying state whose fields fit their types is read back from its bytes unchanged.
pub parse_proof_carrying_state-proof_carrying_state_to_bytes :
    (pcs : ProofCarryingState)
    → IsClaim pcs.claim
    → length pcs.verifier_key ≡ 8
    → All IsU32 pcs.verifier_key
    → IsProof pcs.proof
    → parse_proof_carrying_state (proof_carrying_state_to_bytes pcs) ≡ ok pcs
unfolding parse_proof_carrying_state proof_carrying_state_to_bytes
parse_proof_carrying_state-proof_carrying_state_to_bytes pcs i k fits j =
    let whole : proof_carrying_state_to_bytes pcs
        ≡ concat (
            claim_to_bytes pcs.claim
            ∷ verifier_key_to_bytes pcs.verifier_key
            ∷ proof_to_bytes pcs.proof
            ∷ []) =
      ap (λ l. claim_to_bytes pcs.claim ++ (verifier_key_to_bytes pcs.verifier_key ++ l))
        (sym (append-nil (proof_to_bytes pcs.proof))) in
    let split =
      ap split_pcs_wire whole
      ∙ split_pcs_wire-concat (claim_to_bytes pcs.claim) (verifier_key_to_bytes pcs.verifier_key)
          (proof_to_bytes pcs.proof) (length-claim_to_bytes pcs.claim i)
          (length-verifier_key_to_bytes pcs.verifier_key k) (length-proof_to_bytes pcs.proof j) in
    rw
      (
        parse_proof_carrying_state,
        split,
        parse_claim-claim_to_bytes pcs.claim i,
        parse_proof-proof_to_bytes pcs.proof j,
        verifier_key_from_bytes-verifier_key_to_bytes pcs.verifier_key k fits,
      )
      refl
