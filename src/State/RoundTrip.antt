-- ===== src/State/RoundTrip.antt =====
-- The state written and read back: the witness that the host passes to the guest.
use zkpow.Prelude.{
  ℕ, ◌+◌, ◌*◌, ◌^◌, ◌<◌, ◌≡◌, refl, ap, ◌∙◌, arith, List, [], ◌++◌, length, take, All, ok,
  append-nil,
}
use zkpow.Bytes.{IsByte, le_bytes, slice, concat, words_memory, read_words}
use zkpow.Bytes.Exact.{copy_from_bytes_ok}
use zkpow.Bytes.Le.{length-le_bytes, All-slice}
use zkpow.Bytes.Layout.{
  concat-split, slice-concat, length-concat, slice-join, slice-whole, le_bytes-from_le-slice,
  length-slice,
}
use zkpow.Bytes.Words.{IsU32, read_words_lem, length-words_memory, words_memory-read_words}
use zkpow.U256
use zkpow.U256.{IsU256}
use zkpow.U256.Bytes.{length-memory, from_le_bytes-memory, memory-from_le_bytes}
use zkpow.Header.{header_to_bytes}
use zkpow.Header.RoundTrip.{
  IsHeader, word-concat, length-header_to_bytes, header_at-header_to_bytes,
  header_to_bytes-header_at,
}
use zkpow.State.{State, window_size, state_fields, state_to_bytes, state_at, parse_state}

-- What the types of the fields guarantee.
pub record HasTypes (s : State) : Type 0 where
  pub header_fits : IsHeader s.header
  pub hash_length : length s.block_hash ≡ 32
  pub genesis_length : length s.genesis_hash ≡ 32
  pub nbits_fits : s.current_nbits < 2 ^ 32
  pub height_fits : s.height < 2 ^ 32
  pub chain_work_fits : IsU256 s.chain_work
  pub work_fits : IsU256 s.current_work
  pub target_fits : IsU256 s.current_target
  pub start_fits : s.epoch_start_timestamp < 2 ^ 32
  pub window_length : length s.timestamps ≡ 11
  pub window_fits : All IsU32 s.timestamps

module _ (s : State) (i : HasTypes s) where
  -- The lengths of the fields of variable bytes.
  Lengths : Type 0
  Lengths =
      (length (header_to_bytes s.header) ≡ 80)
      × (length s.block_hash ≡ 32)
      × (length s.genesis_hash ≡ 32)
      × (length (le_bytes 4 s.current_nbits) ≡ 4)
      × (length (le_bytes 4 s.height) ≡ 4)
      × (length (U256.memory s.chain_work) ≡ 32)
      × (length (U256.memory s.current_work) ≡ 32)
      × (length (U256.memory s.current_target) ≡ 32)
      × (length (le_bytes 4 s.epoch_start_timestamp) ≡ 4)
      × (length (words_memory s.timestamps) ≡ 44)

  lengths : Lengths
  unfolding Lengths
  lengths = (
    length-header_to_bytes s.header i.header_fits,
    i.hash_length,
    i.genesis_length,
    length-le_bytes 4 s.current_nbits,
    length-le_bytes 4 s.height,
    length-memory s.chain_work,
    length-memory s.current_work,
    length-memory s.current_target,
    length-le_bytes 4 s.epoch_start_timestamp,
    length-words_memory s.timestamps ∙ omega (arith, i.window_length),
  )

  length-state_to_bytes : length (state_to_bytes s) ≡ 296
  unfolding state_to_bytes Lengths
  length-state_to_bytes = length-concat (state_fields s) ∙ omega (arith, lengths)

  timestamps_lem : read_words 252 0 window_size (concat (state_fields s)) ≡ s.timestamps
  unfolding Lengths
  timestamps_lem =
      ap (read_words 252 0 11) regroup
      ∙ read_words_lem 252 0 11 (concat (take 9 (state_fields s))) s.timestamps []
          (length-concat (take 9 (state_fields s)) ∙ omega (arith, lengths)) i.window_length
          i.window_fits
    where
      regroup :
          concat (state_fields s)
          ≡ concat (take 9 (state_fields s)) ++ (words_memory s.timestamps ++ [])
      regroup = concat-split 9 (state_fields s)

  state_at-state_to_bytes : state_at (state_to_bytes s) ≡ s
  unfolding state_at state_to_bytes Lengths
  state_at-state_to_bytes =
      let (a, b, c, d, e, f, g, h, j, k) = lengths in
      rw
        (
          slice-concat 0 0 80 (state_fields s) (omega arith) (omega arith),
          header_at-header_to_bytes s.header i.header_fits,
          slice-concat 1 80 112 (state_fields s) (omega arith) (omega arith),
          slice-concat 2 112 144 (state_fields s) (omega arith) (omega arith),
          word-concat 3 144 148 s.current_nbits (state_fields s) (omega arith) refl refl
              i.nbits_fits,
          word-concat 4 148 152 s.height (state_fields s) (omega arith) refl refl i.height_fits,
          slice-concat 5 152 184 (state_fields s) (omega arith) (omega arith),
          from_le_bytes-memory s.chain_work i.chain_work_fits,
          slice-concat 6 184 216 (state_fields s) (omega arith) (omega arith),
          from_le_bytes-memory s.current_work i.work_fits,
          slice-concat 7 216 248 (state_fields s) (omega arith) (omega arith),
          from_le_bytes-memory s.current_target i.target_fits,
          word-concat 8 248 252 s.epoch_start_timestamp (state_fields s) (omega arith) refl refl
              i.start_fits,
          timestamps_lem,
        )
        refl

-- A state whose fields fit their types is read back from its 296 bytes unchanged.
pub parse_state-state_to_bytes : (s : State) → HasTypes s → parse_state (state_to_bytes s) ≡ ok s
unfolding parse_state
parse_state-state_to_bytes s i =
    copy_from_bytes_ok 296 state_at (state_to_bytes s) (length-state_to_bytes s i)
    ∙ ap ok (state_at-state_to_bytes s i)

-- For every 296 bytes, the bytes of the state that is read from them are these bytes.
pub state_to_bytes-state_at :
    (bytes : List ℕ)
    → All IsByte bytes
    → length bytes ≡ 296
    → state_to_bytes (state_at bytes) ≡ bytes
unfolding state_to_bytes state_at
state_to_bytes-state_at bytes h n =
    rw
      (
        header_to_bytes-header_at (slice 0 80 bytes) (All-slice IsByte 0 80 bytes h)
            (length-slice 0 80 bytes (omega arith)),
        le_bytes-from_le-slice 4 144 148 bytes h (omega arith) refl,
        le_bytes-from_le-slice 4 148 152 bytes h (omega arith) refl,
        memory-from_le_bytes (slice 152 184 bytes) (All-slice IsByte 152 184 bytes h)
            (length-slice 152 184 bytes (omega arith)),
        memory-from_le_bytes (slice 184 216 bytes) (All-slice IsByte 184 216 bytes h)
            (length-slice 184 216 bytes (omega arith)),
        memory-from_le_bytes (slice 216 248 bytes) (All-slice IsByte 216 248 bytes h)
            (length-slice 216 248 bytes (omega arith)),
        le_bytes-from_le-slice 4 248 252 bytes h (omega arith) refl,
        words_memory-read_words 252 0 11 bytes h (omega arith),
        append-nil (slice (252 + 0 * 4) (252 + (0 + 11) * 4) bytes),
        slice-join 248 252 296 bytes (omega arith) (omega arith),
        slice-join 216 248 296 bytes (omega arith) (omega arith),
        slice-join 184 216 296 bytes (omega arith) (omega arith),
        slice-join 152 184 296 bytes (omega arith) (omega arith),
        slice-join 148 152 296 bytes (omega arith) (omega arith),
        slice-join 144 148 296 bytes (omega arith) (omega arith),
        slice-join 112 144 296 bytes (omega arith) (omega arith),
        slice-join 80 112 296 bytes (omega arith) (omega arith),
        slice-join 0 80 296 bytes (omega arith) (omega arith),
      )
      (slice-whole 296 bytes n)
