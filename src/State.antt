-- ===== src/State.antt =====
-- `State` of crates/core/src/state.rs: the validation state carried between recursive proofs, its
-- byte form, the public claim and the continuation data taken from it.
pub mod RoundTrip
use zkpow.Prelude.{ℕ, ◌+◌, ◌%◌, List, [], ◌∷◌, Result, min, replicate}
use zkpow.Bytes.{
  le_bytes, from_le, slice, concat, words_memory, read_words, ParseError, copy_from_bytes,
}
use zkpow.U256
use zkpow.U256.{U256}
use zkpow.Header.{Header, header_to_bytes, header_at}
use zkpow.Claim.{Claim, ContinuationData, continuation_to_bytes}

abbrev pub window_size : ℕ
window_size = 11

pub record State : Type 0 where
  pub header : Header
  pub block_hash : List ℕ
  pub genesis_hash : List ℕ
  pub current_nbits : ℕ
  pub height : ℕ
  pub chain_work : U256
  pub current_work : U256
  pub current_target : U256
  pub epoch_start_timestamp : ℕ
  pub timestamps : List ℕ

unfoldable pub timestamp_count : State → ℕ
timestamp_count s = min (s.height + 1) window_size

unfoldable pub current_timestamp_slot : State → ℕ
current_timestamp_slot s = s.height % window_size

abbrev pub state_size : ℕ
state_size = 296

-- The fields in memory: the `repr(C)` layout has no padding, since the limbs of `chain_work` start
-- at the multiple 152 of their alignment 8.
abbrev pub state_fields : State → List (List ℕ)
state_fields s =
    header_to_bytes s.header
    ∷ s.block_hash
    ∷ s.genesis_hash
    ∷ le_bytes 4 s.current_nbits
    ∷ le_bytes 4 s.height
    ∷ U256.memory s.chain_work
    ∷ U256.memory s.current_work
    ∷ U256.memory s.current_target
    ∷ le_bytes 4 s.epoch_start_timestamp
    ∷ words_memory s.timestamps
    ∷ []

-- `State::to_bytes`
unfoldable pub state_to_bytes : State → List ℕ
state_to_bytes s = concat (state_fields s)

unfoldable pub state_at : List ℕ → State
state_at bytes = record {
  header = header_at (slice 0 80 bytes);
  block_hash = slice 80 112 bytes;
  genesis_hash = slice 112 144 bytes;
  current_nbits = from_le (slice 144 148 bytes);
  height = from_le (slice 148 152 bytes);
  chain_work = U256.from_le_bytes (slice 152 184 bytes);
  current_work = U256.from_le_bytes (slice 184 216 bytes);
  current_target = U256.from_le_bytes (slice 216 248 bytes);
  epoch_start_timestamp = from_le (slice 248 252 bytes);
  timestamps = read_words 252 0 window_size bytes;
}

-- `State::parse`
unfoldable pub parse_state : List ℕ → Result ParseError State
parse_state bytes = copy_from_bytes state_size state_at bytes

unfoldable pub public_claim : State → Claim
public_claim s = record {
  genesis_hash = s.genesis_hash;
  tip_hash = s.block_hash;
  chain_work = s.chain_work;
  height = s.height;
}

-- `ContinuationData::from_state`
unfoldable pub continuation_from_state : State → ContinuationData
continuation_from_state s = record {
  current_nbits = s.current_nbits;
  current_work = s.current_work;
  current_target = s.current_target;
  epoch_start_timestamp = s.epoch_start_timestamp;
  timestamps = s.timestamps;
}

unfoldable pub continuation_bytes : State → List ℕ
continuation_bytes s = continuation_to_bytes (continuation_from_state s)

-- `State::default`
abbrev pub default_state : State
default_state = record {
  header = record {
    version = 0;
    prev_blockhash = replicate 32 0;
    merkle_root = replicate 32 0;
    timestamp = 0;
    compact_target = 0;
    nonce = 0;
  };
  block_hash = replicate 32 0;
  genesis_hash = replicate 32 0;
  current_nbits = 0;
  height = 0;
  chain_work = U256.zero_u256;
  current_work = U256.zero_u256;
  current_target = U256.zero_u256;
  epoch_start_timestamp = 0;
  timestamps = replicate window_size 0;
}
