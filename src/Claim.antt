-- ===== src/Claim.antt =====
-- `Claim`, `ContinuationData` and `VerifierKeyDigest` of crates/core/src/lib.rs with their byte
-- forms: what a proof shows of a chain segment, and what the next proof needs beyond that.
pub mod RoundTrip
use zkpow.Prelude.{ℕ, ◌+◌, List, [], ◌∷◌, ◌++◌, Result, ok, err, replicate}
use zkpow.Bytes.{
  le_bytes, from_le, slice, put_all, word_fields, read_words, ParseError, check_exact_len,
}
use zkpow.U256
use zkpow.U256.{U256}

-- The eight words of a verifier key digest.
unfoldable pub verifier_key_to_bytes : List ℕ → List ℕ
verifier_key_to_bytes words = put_all (word_fields 0 0 words) (replicate 32 0)

unfoldable pub verifier_key_from_bytes : List ℕ → List ℕ
verifier_key_from_bytes bytes = read_words 0 0 8 bytes

pub record Claim : Type 0 where
  pub genesis_hash : List ℕ
  pub tip_hash : List ℕ
  pub chain_work : U256
  pub height : ℕ

abbrev pub claim_size : ℕ
claim_size = 32 + 32 + 32 + 4

-- The slices that `Claim::to_bytes` writes.
abbrev pub claim_fields : Claim → List (ℕ × List ℕ)
claim_fields c =
    (0, c.genesis_hash)
    ∷ (32, c.tip_hash)
    ∷ (64, U256.memory c.chain_work)
    ∷ (96, le_bytes 4 c.height)
    ∷ []

unfoldable pub claim_to_bytes : Claim → List ℕ
claim_to_bytes c = put_all (claim_fields c) (replicate claim_size 0)

unfoldable pub claim_at : List ℕ → Claim
claim_at bytes = record {
  genesis_hash = slice 0 32 bytes;
  tip_hash = slice 32 64 bytes;
  chain_work = U256.from_le_bytes (slice 64 96 bytes);
  height = from_le (slice 96 100 bytes);
}

unfoldable pub parse_claim : List ℕ → Result ParseError Claim
unfolding claim_at check_exact_len
parse_claim bytes = elim (check_exact_len bytes claim_size) [
  | ok _ ↦ ok (claim_at bytes)
  | err e ↦ err e
]

pub record ContinuationData : Type 0 where
  pub current_nbits : ℕ
  pub current_work : U256
  pub current_target : U256
  pub epoch_start_timestamp : ℕ
  pub timestamps : List ℕ

abbrev pub continuation_data_size : ℕ
continuation_data_size = 116

-- The slices that `ContinuationData::to_bytes` writes; the last ones are those of its loop.
abbrev pub continuation_fields : ContinuationData → List (ℕ × List ℕ)
continuation_fields c =
    (0, le_bytes 4 c.current_nbits)
    ∷ (4, U256.memory c.current_work)
    ∷ (36, U256.memory c.current_target)
    ∷ (68, le_bytes 4 c.epoch_start_timestamp)
    ∷ word_fields 72 0 c.timestamps

unfoldable pub continuation_to_bytes : ContinuationData → List ℕ
continuation_to_bytes c = put_all (continuation_fields c) (replicate continuation_data_size 0)

unfoldable pub continuation_at : List ℕ → ContinuationData
continuation_at bytes = record {
  current_nbits = from_le (slice 0 4 bytes);
  current_work = U256.from_le_bytes (slice 4 36 bytes);
  current_target = U256.from_le_bytes (slice 36 68 bytes);
  epoch_start_timestamp = from_le (slice 68 72 bytes);
  timestamps = read_words 72 0 11 bytes;
}

unfoldable pub parse_continuation : List ℕ → Result ParseError ContinuationData
unfolding continuation_at check_exact_len
parse_continuation bytes = elim (check_exact_len bytes continuation_data_size) [
  | ok _ ↦ ok (continuation_at bytes)
  | err e ↦ err e
]
