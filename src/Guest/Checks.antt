-- ===== src/Guest/Checks.antt =====
-- What each check of the guest shows where it lets the run go on.
use zkpow.Prelude.{
  ℕ, zero, suc, ◌*◌, ◌/◌, ◌%◌, ◌^◌, ◌<◌, ◌≡◌, refl, sym, ap, ap₂, ◌∙◌, arith, Bool, true, List, [],
  ◌∷◌, ◌++◌, Holds, Result-cases, Bool-cases, inl, inr, ==_iff, ◌==◌, length, All, drop, get_or,
}
use zkpow.Bytes.{
  IsByte, from_le, slice, copy_from_bytes, check_exact_len, slice_from_bytes, check_aligned, chunks,
}
use zkpow.Bytes.Le.{All-slice, All-append}
use zkpow.Bytes.Layout.{from_le-lt_slice, length-slice}
use zkpow.Bytes.Words.{length-read_words}
use zkpow.U256.{IsU256}
use zkpow.U256.Order.{eq_u256_iff}
use zkpow.U256.Bytes.{from_le_bytes-IsU256}
use zkpow.Claim.{Claim}
use zkpow.State.{
  State, parse_state, state_at, state_size, window_size, public_claim, continuation_bytes,
}
use zkpow.Chain.Rules.{IsHash}
use zkpow.PublicValues.{success, public_values_to_bytes}
use zkpow.Input.{ProofCarryingState, parse_median_hints}
use zkpow.Sha256.{low_be_bytes, state_to_hash, sha256_32bytes, sha256_169bytes, sha256d_80bytes}
use zkpow.Guest.{
  eq_bytes, matches_claim, hash_header, compute_continuation_digest, verify_prior_proof,
}

pub eq_bytes_lem : (xs ys : List ℕ) → (eq_bytes xs ys ≡ true) → (xs ≡ ys)
unfolding eq_bytes
eq_bytes_lem [] [] h = refl
eq_bytes_lem [] (y ∷ ys) h = ground arith
eq_bytes_lem (x ∷ xs) [] h = ground arith
eq_bytes_lem (x ∷ xs) (y ∷ ys) h = ap₂ ◌∷◌ (ground arith) (eq_bytes_lem xs ys (ground arith))

pub matches_claim_lem : (s : State) (c : Claim) → matches_claim s c ≡ true → public_claim s ≡ c
unfolding matches_claim public_claim
matches_claim_lem s c h =
    let a : s.genesis_hash ≡ c.genesis_hash =
      eq_bytes_lem s.genesis_hash c.genesis_hash (ground arith) in
    let b : s.block_hash ≡ c.tip_hash = eq_bytes_lem s.block_hash c.tip_hash (ground arith) in
    let w : s.chain_work ≡ c.chain_work =
      (eq_u256_iff s.chain_work c.chain_work).0 (ground arith) in
    let n : s.height ≡ c.height = ground arith in rw (a, b, w, n) refl

length-chunks :
    {A : Type 0} (size : ℕ) (at : List ℕ → A) (n : ℕ) (bytes : List ℕ)
    → length (chunks size at n bytes) ≡ n
unfolding chunks
length-chunks size at zero bytes = refl
length-chunks size at (suc n) bytes = ap suc (length-chunks size at n (drop size bytes))

pub parse_median_hints-length :
    (address : ℕ) (bytes : List ℕ) (n : ℕ)
    → Holds (λ ms. length ms ≡ n) (parse_median_hints address bytes n)
unfolding parse_median_hints slice_from_bytes
parse_median_hints-length address bytes n = elim (Bool-cases (length bytes == n * 4)) [
  | inr bad ↦ rw bad tt
  | inl good ↦
      let e : length bytes ≡ n * 4 = (==_iff (length bytes) (n * 4)).0 good in
      let even : (length bytes % 4 == 0) ≡ true = ground arith in
      let quotient : length bytes / 4 ≡ n = omega arith in
      elim (Result-cases (check_aligned 4 address)) [
        | inl (u, a) ↦
            rw (good, even, a) (length-chunks 4 from_le (length bytes / 4) bytes ∙ quotient)
        | inr (f, a) ↦ rw (good, even, a) tt
      ]
]

-- A parsed state is one that `apply_headers` may start from, but for the limit on its target.
pub parse_state-IsState :
    (bytes : List ℕ)
    → All IsByte bytes
    → Holds
        (λ (s : State).
          (s.height < 2 ^ 32) × (length s.timestamps ≡ window_size) × IsU256 s.current_target)
        (parse_state bytes)
unfolding parse_state copy_from_bytes check_exact_len state_at
parse_state-IsState bytes h = elim (Bool-cases (length bytes == state_size)) [
  | inr bad ↦ rw (bad, Holds) tt
  | inl good ↦
      let e : length bytes ≡ 296 = (==_iff (length bytes) 296).0 good in
      rw (good, Holds)
        (
          from_le-lt_slice 4 148 152 bytes h (omega arith) refl,
          length-read_words 252 0 11 bytes,
          from_le_bytes-IsU256 (slice 216 248 bytes) (All-slice IsByte 216 248 bytes h)
              (length-slice 216 248 bytes (omega arith)),
        )
]

low_be_bytes-IsByte : (x : ℕ) → All IsByte (low_be_bytes x)
unfolding low_be_bytes
low_be_bytes-IsByte x = (omega arith, (omega arith, (omega arith, (omega arith, tt))))

low_be_bytes-front : (x : ℕ) (ys : List ℕ) → All IsByte ys → All IsByte (low_be_bytes x ++ ys)
low_be_bytes-front x ys h = All-append IsByte (low_be_bytes x) ys (low_be_bytes-IsByte x) h

state_to_hash-IsByte : (w : List ℕ) → All IsByte (state_to_hash w)
unfolding state_to_hash
state_to_hash-IsByte w = low_be_bytes-front _ _ (
    low_be_bytes-front _ _ (
      low_be_bytes-front _ _ (
        low_be_bytes-front _ _ (
          low_be_bytes-front _ _ (
            low_be_bytes-front _ _
              (low_be_bytes-front _ _ (low_be_bytes-IsByte (get_or w 7 0))))))))

pub length-state_to_hash : (w : List ℕ) → length (state_to_hash w) ≡ 32
unfolding state_to_hash low_be_bytes
length-state_to_hash w = refl

module _ (extend : List ℕ → List ℕ) (compress : List ℕ → List ℕ → List ℕ)
    (verify_sp1_proof : List ℕ → List ℕ → Bool) where
  pub hash_header-IsHash : IsHash (hash_header extend compress verify_sp1_proof)
  unfolding hash_header sha256d_80bytes sha256_32bytes
  hash_header-IsHash b = (state_to_hash-IsByte _, length-state_to_hash _)

  -- The prior proof of a segment that ends in `s`: it is a success, it is for public values with
  -- this state's claim and continuation data and the same verifier key, and it is accepted.
  pub record PriorProof (pcs : ProofCarryingState) (s : State) : Type 0 where
    pub exit_success : pcs.proof.exit_code ≡ 0
    pub for_state :
        pcs.proof.public_values_digest
        ≡ sha256_169bytes extend compress (
            public_values_to_bytes (
              success
                (public_claim s)
                (compute_continuation_digest extend compress verify_sp1_proof s)
                pcs.verifier_key))
    pub accepted : verify_sp1_proof pcs.verifier_key pcs.proof.public_values_digest ≡ true

  pub verify_prior_proof_lem :
      (pcs : ProofCarryingState) (s : State)
      → public_claim s ≡ pcs.claim
      → verify_prior_proof extend compress verify_sp1_proof pcs.proof pcs.verifier_key pcs.claim
          (continuation_bytes s)
        ≡ true
      → PriorProof pcs s
  unfolding verify_prior_proof compute_continuation_digest
  verify_prior_proof_lem pcs s e h = record {
    exit_success = ground arith;
    for_state = rw e (sym (eq_bytes_lem _ pcs.proof.public_values_digest (ground arith)));
    accepted = ground arith;
  }
