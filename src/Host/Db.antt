-- ===== src/Host/Db.antt =====
-- crates/host/src/util/db.rs. What its SQL queries return is a parameter: the row of a height, and the
-- rows of a range of heights. A column is an `i64`, given by its 64 bits, or a byte string.
pub mod Heights
use zkpow.Prelude.{
  ℕ, ◌+◌, ◌-◌, ◌*◌, ◌/◌, ◌%◌, ◌^◌, List, [], ◌∷◌, ◌++◌, Option, none, some, Outcome, returned,
  panicked, ◌>>=◌, expect, length, replicate, set, min, ◌==◌, if◌then◌else◌, true, false,
}
use zkpow.U256
use zkpow.U256.{U256}
use zkpow.Header.{Header, NewHeader}
use zkpow.Claim.{Claim}
use zkpow.State.{State, window_size}
use zkpow.Target.{target_from_bits, genesis_target, epoch_length}
use zkpow.Work.{work_from_target}
use zkpow.Guest.{eq_bytes}
use zkpow.Host.Hash.{host_hash_header}

-- A row of the table `headers`.
pub record Row : Type 0 where
  pub height : ℕ
  pub block_hash : List ℕ
  pub version : ℕ
  pub prev : List ℕ
  pub merkle_root : List ℕ
  pub timestamp : ℕ
  pub n_bits : ℕ
  pub nonce : ℕ
  pub chainwork : List ℕ
  pub median_time_past : ℕ

-- The queries: `WHERE height = ?1`, and `WHERE height >= ?1 AND height < ?2 ORDER BY height ASC`.
pub record Db : Type 0 where
  pub row_at : ℕ → Option Row
  pub rows_between : ℕ → ℕ → List Row

pub record HeaderRecord : Type 0 where
  pub height : ℕ
  pub header : Header
  pub chain_work : U256
  pub median_time_past : ℕ

pub record HeaderBatchWitness : Type 0 where
  pub headers : List NewHeader
  pub median_time_past_hints : List ℕ

-- `try_into().expect("… must be 32 bytes")`
abbrev pub bytes32 : List ℕ → Outcome (List ℕ)
bytes32 bytes = if length bytes == 32 then returned bytes else panicked

-- `as u32`
abbrev pub as_u32 : ℕ → ℕ
as_u32 x = x % 2 ^ 32

unfoldable pub reverse_bytes : List ℕ → List ℕ
reverse_bytes [] = []
reverse_bytes (b ∷ bs) = reverse_bytes bs ++ (b ∷ [])

unfoldable pub chain_work_from_db_bytes : List ℕ → Outcome U256
unfolding reverse_bytes
chain_work_from_db_bytes bytes = do
  raw ← bytes32 bytes
  returned (U256.from_le_bytes (reverse_bytes raw))

-- The closures that the queries map over their rows.
unfoldable pub header_record_of_row : Row → Outcome HeaderRecord
header_record_of_row row = do
  prev ← bytes32 row.prev
  merkle_root ← bytes32 row.merkle_root
  chain_work ← chain_work_from_db_bytes row.chainwork
  returned (record {
    height = row.height;
    header = record {
      version = as_u32 row.version;
      prev_blockhash = prev;
      merkle_root = merkle_root;
      timestamp = as_u32 row.timestamp;
      compact_target = as_u32 row.n_bits;
      nonce = as_u32 row.nonce;
    };
    chain_work = chain_work;
    median_time_past = as_u32 row.median_time_past;
  })

unfoldable pub witness_of_row : Row → Outcome (NewHeader × ℕ)
witness_of_row row = do
  merkle_root ← bytes32 row.merkle_root
  returned (
    record {
      version = as_u32 row.version;
      merkle_root = merkle_root;
      timestamp = as_u32 row.timestamp;
      nonce = as_u32 row.nonce;
    },
    as_u32 row.median_time_past,
  )

-- The loops that collect the rows.
unfoldable pub collect_records : List Row → Outcome (List HeaderRecord)
collect_records [] = returned []
collect_records (row ∷ rows) = do
  record_of_row ← header_record_of_row row
  rest ← collect_records rows
  returned (record_of_row ∷ rest)

unfoldable pub collect_witness : List Row → Outcome HeaderBatchWitness
collect_witness [] = returned (record { headers = []; median_time_past_hints = [] })
collect_witness (row ∷ rows) = do
  (header, median) ← witness_of_row row
  rest ← collect_witness rows
  returned (record {
    headers = header ∷ rest.headers;
    median_time_past_hints = median ∷ rest.median_time_past_hints;
  })

module _ (db : Db) where
  unfoldable pub load_header_records : ℕ → ℕ → Outcome (List HeaderRecord)
  load_header_records start_height count =
      collect_records (db.rows_between start_height ((start_height + count) % 2 ^ 64))

  unfoldable pub load_header_record : ℕ → Outcome HeaderRecord
  load_header_record height = do
    records ← load_header_records height 1
    elim records [ [] ↦ panicked | r ∷ rest ↦ returned r ]

  unfoldable pub load_header_batch_witness : ℕ → ℕ → Outcome HeaderBatchWitness
  load_header_batch_witness start_height count =
      collect_witness (db.rows_between start_height ((start_height + count) % 2 ^ 64))

  unfoldable pub load_new_headers : ℕ → ℕ → Outcome (List NewHeader)
  load_new_headers start_height count = do
    witness ← load_header_batch_witness start_height count
    returned witness.headers

  unfoldable pub load_compact_target : ℕ → Outcome ℕ
  load_compact_target height = elim (db.row_at height) [
    | none ↦ panicked
    | some row ↦ returned (as_u32 row.n_bits)
  ]

  unfoldable pub load_public_claim : ℕ → List ℕ → Outcome Claim
  load_public_claim height genesis_hash = elim (db.row_at height) [
    | none ↦ panicked
    | some row ↦ do
      tip_hash ← bytes32 row.block_hash
      chain_work ← chain_work_from_db_bytes row.chainwork
      returned (record {
        genesis_hash = genesis_hash;
        tip_hash = tip_hash;
        chain_work = chain_work;
        height = as_u32 height;
      })
  ]

-- The loop that puts the timestamps of the window into their slots.
unfoldable pub fill_window : List HeaderRecord → List ℕ → List ℕ
fill_window [] timestamps = timestamps
fill_window (r ∷ rs) timestamps =
    fill_window rs (set timestamps (r.height % window_size) r.header.timestamp)

module _ (digest : List ℕ → List ℕ) where
  -- `HeaderRecord::public_claim`
  unfoldable pub record_public_claim : HeaderRecord → List ℕ → Claim
  record_public_claim r genesis_hash = record {
    genesis_hash = genesis_hash;
    tip_hash = host_hash_header digest r.header;
    chain_work = r.chain_work;
    height = as_u32 r.height;
  }

  unfoldable pub genesis_state_from_record : HeaderRecord → List ℕ → Outcome State
  genesis_state_from_record genesis genesis_hash =
      elim (eq_bytes (host_hash_header digest genesis.header) genesis_hash) [
        | false ↦ panicked
        | true ↦ do
          genesis_work ← expect (work_from_target genesis_target)
          returned (record {
            header = genesis.header;
            block_hash = host_hash_header digest genesis.header;
            genesis_hash = genesis_hash;
            current_nbits = genesis.header.compact_target;
            height = as_u32 genesis.height;
            chain_work = genesis.chain_work;
            current_work = genesis_work;
            current_target = genesis_target;
            epoch_start_timestamp = genesis.header.timestamp;
            timestamps = set (replicate window_size 0) 0 genesis.header.timestamp;
          })
      ]

  unfoldable pub state_from_db_at_height : Db → ℕ → List ℕ → Outcome State
  state_from_db_at_height db height genesis_hash = elim (height == 0) [
    | true ↦ do genesis ← load_header_record db 0; genesis_state_from_record genesis genesis_hash
    | false ↦ do
      current ← load_header_record db height
      epoch_start_record ← load_header_record db (height / epoch_length * epoch_length)
      window_records ←
          load_header_records db (height + 1 - min (height + 1) window_size)
            (min (height + 1) window_size)
      current_work ← expect (work_from_target (target_from_bits current.header.compact_target))
      returned (record {
        header = current.header;
        block_hash = host_hash_header digest current.header;
        genesis_hash = genesis_hash;
        current_nbits = current.header.compact_target;
        height = height;
        chain_work = current.chain_work;
        current_work = current_work;
        current_target = target_from_bits current.header.compact_target;
        epoch_start_timestamp = epoch_start_record.header.timestamp;
        timestamps = fill_window window_records (replicate window_size 0);
      })
  ]
