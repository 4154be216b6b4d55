-- ===== src/Sha256.antt =====
-- SHA-256 of crates/guest/src/sha256.rs, one function for each length with its padding written out.
-- The two system calls of the zero-knowledge machine are parameters: `extend` fills the message
-- schedule and `compress` gives the next state.
pub mod Reference
use zkpow.Prelude.{
  ℕ, zero, suc, ◌+◌, ◌*◌, ◌/◌, ◌%◌, ◌^◌, List, [], ◌∷◌, ◌++◌, get_or, set, replicate, bit_or,
}

abbrev pub sha256_iv : List ℕ
sha256_iv =
    0x6a09e667 ∷ 0xbb67ae85 ∷ 0x3c6ef372 ∷ 0xa54ff53a ∷ 0x510e527f ∷ 0x9b05688c ∷ 0x1f83d9ab
    ∷ 0x5be0cd19 ∷ []

-- The bytes 4 to 7 of `to_be_bytes` of a `u64`.
unfoldable pub low_be_bytes : ℕ → List ℕ
low_be_bytes x = (x / 2 ^ 24 % 256) ∷ (x / 2 ^ 16 % 256) ∷ (x / 2 ^ 8 % 256) ∷ (x % 256) ∷ []

unfoldable pub state_to_hash : List ℕ → List ℕ
state_to_hash state =
    low_be_bytes (get_or state 0 0)
    ++ (low_be_bytes (get_or state 1 0)
        ++ (low_be_bytes (get_or state 2 0)
            ++ (low_be_bytes (get_or state 3 0)
                ++ (low_be_bytes (get_or state 4 0)
                    ++ (low_be_bytes (get_or state 5 0)
                        ++ (low_be_bytes (get_or state 6 0) ++ low_be_bytes (get_or state 7 0)))))))

unfoldable pub be_u64 : ℕ → ℕ → ℕ → ℕ → ℕ
be_u64 a b c d = bit_or (bit_or (bit_or (a * 2 ^ 24) (b * 2 ^ 16)) (c * 2 ^ 8)) d

unfoldable pub be_u64_from_slice : List ℕ → ℕ → ℕ
be_u64_from_slice s i =
    bit_or
      (bit_or (bit_or (get_or s (i * 4) 0 * 2 ^ 24) (get_or s (i * 4 + 1) 0 * 2 ^ 16))
        (get_or s (i * 4 + 2) 0 * 2 ^ 8))
      (get_or s (i * 4 + 3) 0)

-- `for i in 0..count { w[i] = be_u64_from_slice(data, first + i) }`, from `i` on.
unfoldable pub load_loop : List ℕ → ℕ → ℕ → ℕ → List ℕ → List ℕ
load_loop bytes first i zero w = w
load_loop bytes first i (suc count) w =
    load_loop bytes first (i + 1) count (set w i (be_u64_from_slice bytes (first + i)))

-- The assignments `w[i] = be_u64(data[at], data[at + 1], data[at + 2], data[at + 3])`, with
-- `at = start + 4 * i`, that the source writes out for the `count` indices from `i` on.
unfoldable pub assign_words : List ℕ → ℕ → ℕ → ℕ → List ℕ → List ℕ
assign_words bytes start i zero w = w
assign_words bytes start i (suc count) w =
    let at = start + 4 * i in
    assign_words bytes start (i + 1) count (
      set w i (
        be_u64 (get_or bytes at 0) (get_or bytes (at + 1) 0) (get_or bytes (at + 2) 0)
          (get_or bytes (at + 3) 0)))

abbrev pub empty_words : List ℕ
empty_words = replicate 64 0

module _ (extend : List ℕ → List ℕ) (compress : List ℕ → List ℕ → List ℕ) where
  -- The two system calls on one block.
  abbrev pub absorb : List ℕ → List ℕ → List ℕ
  absorb w state = compress (extend w) state

  unfoldable pub sha256_80bytes : List ℕ → List ℕ
  unfolding load_loop be_u64_from_slice
  sha256_80bytes bytes =
      let state = absorb (load_loop bytes 0 0 16 empty_words) sha256_iv in
      let w = set (set (load_loop bytes 16 0 4 empty_words) 4 0x8000_0000) 15 0x280 in
      state_to_hash (absorb w state)

  unfoldable pub sha256_32bytes : List ℕ → List ℕ
  unfolding load_loop be_u64_from_slice
  sha256_32bytes bytes =
      let w = set (set (load_loop bytes 0 0 8 empty_words) 8 0x8000_0000) 15 0x100 in
      state_to_hash (absorb w sha256_iv)

  unfoldable pub sha256_169bytes : List ℕ → List ℕ
  unfolding assign_words
  sha256_169bytes bytes =
      let state = absorb (assign_words bytes 0 0 16 empty_words) sha256_iv in
      let state' = absorb (assign_words bytes 64 0 16 empty_words) state in
      let w =
        set
          (set (assign_words bytes 128 0 10 empty_words) 10
            (bit_or (get_or bytes 168 0 * 2 ^ 24) 0x0080_0000))
          15 0x548 in
      state_to_hash (absorb w state')

  unfoldable pub sha256d_80bytes : List ℕ → List ℕ
  sha256d_80bytes bytes = sha256_32bytes (sha256_80bytes bytes)

  unfoldable pub sha256_116bytes : List ℕ → List ℕ
  unfolding assign_words
  sha256_116bytes bytes =
      let state = absorb (assign_words bytes 0 0 16 empty_words) sha256_iv in
      let w = set (set (assign_words bytes 64 0 13 empty_words) 13 0x8000_0000) 15 0x3A0 in
      state_to_hash (absorb w state)
