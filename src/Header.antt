-- ===== src/Header.antt =====
-- `Header` and `NewHeader` of crates/core/src/lib.rs. A byte array is a list of bytes, and the
-- newtypes of crates/core/src/types.rs are what they wrap.
pub mod RoundTrip
use zkpow.Prelude.{ℕ, List, [], ◌∷◌, Result}
use zkpow.Bytes.{le_bytes, from_le, slice, concat, ParseError, copy_from_bytes}

pub record Header : Type 0 where
  pub version : ℕ
  pub prev_blockhash : List ℕ
  pub merkle_root : List ℕ
  pub timestamp : ℕ
  pub compact_target : ℕ
  pub nonce : ℕ

pub record NewHeader : Type 0 where
  pub version : ℕ
  pub merkle_root : List ℕ
  pub timestamp : ℕ
  pub nonce : ℕ

-- `NewHeader::from_header`
unfoldable pub from_header : Header → NewHeader
from_header h = record {
  version = h.version;
  merkle_root = h.merkle_root;
  timestamp = h.timestamp;
  nonce = h.nonce;
}

-- `NewHeader::into_header`
unfoldable pub into_header : NewHeader → List ℕ → ℕ → Header
into_header h prev_blockhash compact_target = record {
  version = h.version;
  prev_blockhash = prev_blockhash;
  merkle_root = h.merkle_root;
  timestamp = h.timestamp;
  compact_target = compact_target;
  nonce = h.nonce;
}

abbrev pub block_header_size : ℕ
block_header_size = 80

abbrev pub new_header_size : ℕ
new_header_size = 44

-- The fields of a header in memory, without padding: 4, 32, 32, 4, 4 and 4 bytes.
abbrev pub header_fields : Header → List (List ℕ)
header_fields h =
    le_bytes 4 h.version
    ∷ h.prev_blockhash
    ∷ h.merkle_root
    ∷ le_bytes 4 h.timestamp
    ∷ le_bytes 4 h.compact_target
    ∷ le_bytes 4 h.nonce
    ∷ []

-- `Header::to_bytes`
unfoldable pub header_to_bytes : Header → List ℕ
header_to_bytes h = concat (header_fields h)

unfoldable pub header_at : List ℕ → Header
header_at bytes = record {
  version = from_le (slice 0 4 bytes);
  prev_blockhash = slice 4 36 bytes;
  merkle_root = slice 36 68 bytes;
  timestamp = from_le (slice 68 72 bytes);
  compact_target = from_le (slice 72 76 bytes);
  nonce = from_le (slice 76 80 bytes);
}

-- `Header::parse`
unfoldable pub parse_header : List ℕ → Result ParseError Header
parse_header bytes = copy_from_bytes block_header_size header_at bytes

-- 4, 32, 4 and 4 bytes.
abbrev pub new_header_fields : NewHeader → List (List ℕ)
new_header_fields h =
    le_bytes 4 h.version ∷ h.merkle_root ∷ le_bytes 4 h.timestamp ∷ le_bytes 4 h.nonce ∷ []

-- `NewHeader::to_bytes`
unfoldable pub new_header_to_bytes : NewHeader → List ℕ
new_header_to_bytes h = concat (new_header_fields h)

unfoldable pub new_header_at : List ℕ → NewHeader
new_header_at bytes = record {
  version = from_le (slice 0 4 bytes);
  merkle_root = slice 4 36 bytes;
  timestamp = from_le (slice 36 40 bytes);
  nonce = from_le (slice 40 44 bytes);
}

-- `NewHeader::parse`
unfoldable pub parse_new_header : List ℕ → Result ParseError NewHeader
parse_new_header bytes = copy_from_bytes new_header_size new_header_at bytes
