-- ===== src/Sha256/Reference.antt =====
-- SHA-256 as its standard states it, for every length: padding to whole blocks, then one block after
-- the other. The functions for one length are it.
use zkpow.Prelude.{
  ℕ, zero, suc, ◌-◌, ◌*◌, ◌/◌, ◌%◌, ◌^◌, ◌≡◌, refl, sym, ap, arith, List, [], ◌∷◌, ◌++◌, length,
  take, drop, get_or, set, replicate, bit_or,
}
use zkpow.Prelude.Bits.{bit_or-zero}
use zkpow.Sha256.{
  sha256_iv, state_to_hash, be_u64, be_u64_from_slice, load_loop, assign_words, absorb, empty_words,
  sha256_80bytes, sha256_32bytes, sha256_169bytes, sha256_116bytes,
}

-- The length in bits, as 8 bytes from the most significant down.
abbrev pub length_bytes : ℕ → List ℕ
length_bytes n =
    (n / 2 ^ 56 % 256)
    ∷ (n / 2 ^ 48 % 256)
    ∷ (n / 2 ^ 40 % 256)
    ∷ (n / 2 ^ 32 % 256)
    ∷ (n / 2 ^ 24 % 256)
    ∷ (n / 2 ^ 16 % 256)
    ∷ (n / 2 ^ 8 % 256)
    ∷ (n % 256)
    ∷ []

-- A one bit, the least number of zero bits up to 8 bytes before the end of a block, the length.
abbrev pub padding : ℕ → List ℕ
padding n = 0x80 ∷ (replicate ((119 - n % 64) % 64) 0 ++ length_bytes (8 * n))

-- The 16 words of a block, from the most significant byte down.
abbrev pub block_words : ℕ → List ℕ → List ℕ
block_words zero bytes = []
block_words (suc n) (a ∷ b ∷ c ∷ d ∷ bytes) = be_u64 a b c d ∷ block_words n bytes
block_words (suc n) _ = []

module _ (extend : List ℕ → List ℕ) (compress : List ℕ → List ℕ → List ℕ) where
  unfoldable pub absorb_blocks : ℕ → List ℕ → List ℕ → List ℕ
  absorb_blocks zero bytes state = state
  absorb_blocks (suc n) bytes state =
      absorb_blocks n (drop 64 bytes)
        (compress (extend (block_words 16 (take 64 bytes) ++ replicate 48 0)) state)

  unfoldable pub sha256 : List ℕ → List ℕ
  unfolding absorb_blocks
  sha256 bytes =
      let padded = bytes ++ padding (length bytes) in
      state_to_hash (absorb_blocks (length padded / 64) padded sha256_iv)

-- A list is the values at its indices.
abbrev tabulate : ℕ → (ℕ → ℕ) → List ℕ
tabulate zero f = []
tabulate (suc n) f = f 0 ∷ tabulate n (λ i. f (suc i))

tabulate-get_or : (n : ℕ) (xs : List ℕ) → length xs ≡ n → xs ≡ tabulate n (λ i. get_or xs i 0)
tabulate-get_or zero [] h = refl
tabulate-get_or zero (x ∷ xs) h = absurd (omega arith)
tabulate-get_or (suc n) [] h = absurd (omega arith)
tabulate-get_or (suc n) (x ∷ xs) h = ap (λ l. x ∷ l) (tabulate-get_or n xs (omega arith))

module _ (extend : List ℕ → List ℕ) (compress : List ℕ → List ℕ → List ℕ) where
  at_32 :
      (f : ℕ → ℕ)
      → sha256_32bytes extend compress (tabulate 32 f) ≡ sha256 extend compress (tabulate 32 f)
  unfolding sha256_32bytes sha256 absorb_blocks load_loop be_u64 be_u64_from_slice
  at_32 f = refl

  at_80 :
      (f : ℕ → ℕ)
      → sha256_80bytes extend compress (tabulate 80 f) ≡ sha256 extend compress (tabulate 80 f)
  unfolding sha256_80bytes sha256 absorb_blocks load_loop be_u64 be_u64_from_slice
  at_80 f = refl

  at_116 :
      (f : ℕ → ℕ)
      → sha256_116bytes extend compress (tabulate 116 f) ≡ sha256 extend compress (tabulate 116 f)
  unfolding sha256_116bytes sha256 absorb_blocks assign_words be_u64
  at_116 f = refl

  -- The word that holds the last byte of 169 and the one bit after it.
  last_word : (x : ℕ) → bit_or (x * 2 ^ 24) 0x0080_0000 ≡ be_u64 x 0x80 0 0
  unfolding be_u64
  last_word x = sym (rw (bit_or-zero, bit_or-zero) refl)

  -- The third block of 169 bytes, by its word that is not data alone.
  third_block : List ℕ → ℕ → List ℕ
  third_block bytes x =
      let state = absorb extend compress (assign_words bytes 0 0 16 empty_words) sha256_iv in
      let state' = absorb extend compress (assign_words bytes 64 0 16 empty_words) state in
      let w = set (set (assign_words bytes 128 0 10 empty_words) 10 x) 15 0x548 in
      state_to_hash (absorb extend compress w state')

  at_169 :
      (f : ℕ → ℕ)
      → sha256_169bytes extend compress (tabulate 169 f) ≡ sha256 extend compress (tabulate 169 f)
  unfolding sha256_169bytes sha256 absorb_blocks assign_words be_u64 third_block
  at_169 f = ap (third_block (tabulate 169 f)) (last_word (f 168))

-- Each function for one length computes SHA-256 of every byte string of that length, whatever the
-- two system calls compute.
pub sha256_lengths_lem :
    (extend : List ℕ → List ℕ) (compress : List ℕ → List ℕ → List ℕ) (bytes : List ℕ)
    → (length bytes ≡ 32 → sha256_32bytes extend compress bytes ≡ sha256 extend compress bytes)
      × (length bytes ≡ 80 → sha256_80bytes extend compress bytes ≡ sha256 extend compress bytes)
      × (length bytes ≡ 116 → sha256_116bytes extend compress bytes ≡ sha256 extend compress bytes)
      × (length bytes ≡ 169 → sha256_169bytes extend compress bytes ≡ sha256 extend compress bytes)
sha256_lengths_lem extend compress bytes = (
  λ h. rw (tabulate-get_or 32 bytes h) (at_32 extend compress (λ i. get_or bytes i 0)),
  λ h. rw (tabulate-get_or 80 bytes h) (at_80 extend compress (λ i. get_or bytes i 0)),
  λ h. rw (tabulate-get_or 116 bytes h) (at_116 extend compress (λ i. get_or bytes i 0)),
  λ h. rw (tabulate-get_or 169 bytes h) (at_169 extend compress (λ i. get_or bytes i 0)),
)
