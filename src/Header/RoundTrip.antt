-- ===== src/Header/RoundTrip.antt =====
-- Headers written and read back.
use zkpow.Prelude.{
  ℕ, ◌+◌, ◌^◌, ◌<◌, ◌≡◌, refl, ap, ◌∙◌, arith, List, [], length, get_or, take, All, ok, append-nil,
}
use zkpow.Bytes.{IsByte, le_bytes, from_le, slice, concat}
use zkpow.Bytes.Exact.{copy_from_bytes_ok}
use zkpow.Bytes.Le.{length-le_bytes, from_le-le_bytes}
use zkpow.Bytes.Layout.{
  slice-concat, length-concat, total, slice-join, slice-whole, le_bytes-from_le-slice,
}
use zkpow.Header.{
  Header, NewHeader, header_fields, header_to_bytes, header_at, parse_header, new_header_fields,
  new_header_at, new_header_to_bytes,
}

-- What the types of the fields guarantee.
pub record IsHeader (h : Header) : Type 0 where
  pub version_fits : h.version < 2 ^ 32
  pub prev_length : length h.prev_blockhash ≡ 32
  pub root_length : length h.merkle_root ≡ 32
  pub timestamp_fits : h.timestamp < 2 ^ 32
  pub target_fits : h.compact_target < 2 ^ 32
  pub nonce_fits : h.nonce < 2 ^ 32

pub record IsNewHeader (h : NewHeader) : Type 0 where
  pub version_fits : h.version < 2 ^ 32
  pub root_length : length h.merkle_root ≡ 32
  pub timestamp_fits : h.timestamp < 2 ^ 32
  pub nonce_fits : h.nonce < 2 ^ 32

-- An integer of four bytes read from the field number `k`.
pub word-concat :
    (k lo hi x : ℕ) (fields : List (List ℕ))
    → total (take k fields) ≡ lo
    → lo + 4 ≡ hi
    → get_or fields k [] ≡ le_bytes 4 x
    → x < 2 ^ 32
    → from_le (slice lo hi (concat fields)) ≡ x
word-concat k lo hi x fields p q e fits =
    ap from_le (
      slice-concat k lo hi fields p (ap (λ l. lo + length l) e ∙ omega (arith, length-le_bytes 4 x))
      ∙ e)
    ∙ from_le-le_bytes 4 x fits

pub length-header_to_bytes : (h : Header) → IsHeader h → length (header_to_bytes h) ≡ 80
unfolding header_to_bytes
length-header_to_bytes h i =
    length-concat (header_fields h)
    ∙ omega (
      arith,
      length-le_bytes 4 h.version,
      length-le_bytes 4 h.timestamp,
      length-le_bytes 4 h.compact_target,
      length-le_bytes 4 h.nonce,
      i.prev_length,
      i.root_length,
    )

pub header_at-header_to_bytes : (h : Header) → IsHeader h → header_at (header_to_bytes h) ≡ h
unfolding header_at header_to_bytes
header_at-header_to_bytes h i =
    let v = length-le_bytes 4 h.version in
    let t = length-le_bytes 4 h.timestamp in
    let c = length-le_bytes 4 h.compact_target in
    let p = i.prev_length in
    let r = i.root_length in
    rw
      (
        word-concat 0 0 4 h.version (header_fields h) refl refl refl i.version_fits,
        slice-concat 1 4 36 (header_fields h) (omega arith) (omega arith),
        slice-concat 2 36 68 (header_fields h) (omega arith) (omega arith),
        word-concat 3 68 72 h.timestamp (header_fields h) (omega arith) refl refl i.timestamp_fits,
        word-concat 4 72 76 h.compact_target (header_fields h) (omega arith) refl refl
            i.target_fits,
        word-concat 5 76 80 h.nonce (header_fields h) (omega arith) refl refl i.nonce_fits,
      )
      refl

-- A header whose fields fit their types is read back from its 80 bytes unchanged.
pub parse_header-header_to_bytes :
    (h : Header) → IsHeader h → parse_header (header_to_bytes h) ≡ ok h
unfolding parse_header
parse_header-header_to_bytes h i =
    copy_from_bytes_ok 80 header_at (header_to_bytes h) (length-header_to_bytes h i)
    ∙ ap ok (header_at-header_to_bytes h i)

-- For every 80 bytes, the bytes of the header that is read from them are these bytes.
pub header_to_bytes-header_at :
    (bytes : List ℕ)
    → All IsByte bytes
    → length bytes ≡ 80
    → header_to_bytes (header_at bytes) ≡ bytes
unfolding header_to_bytes header_at
header_to_bytes-header_at bytes h n =
    rw
      (
        le_bytes-from_le-slice 4 0 4 bytes h (omega arith) refl,
        le_bytes-from_le-slice 4 68 72 bytes h (omega arith) refl,
        le_bytes-from_le-slice 4 72 76 bytes h (omega arith) refl,
        le_bytes-from_le-slice 4 76 80 bytes h (omega arith) refl,
        append-nil (slice 76 80 bytes),
        slice-join 72 76 80 bytes (omega arith) (omega arith),
        slice-join 68 72 80 bytes (omega arith) (omega arith),
        slice-join 36 68 80 bytes (omega arith) (omega arith),
        slice-join 4 36 80 bytes (omega arith) (omega arith),
        slice-join 0 4 80 bytes (omega arith) (omega arith),
      )
      (slice-whole 80 bytes n)

pub length-new_header_to_bytes :
    (h : NewHeader) → IsNewHeader h → length (new_header_to_bytes h) ≡ 44
unfolding new_header_to_bytes
length-new_header_to_bytes h i =
    length-concat (new_header_fields h)
    ∙ omega (
      arith,
      length-le_bytes 4 h.version,
      length-le_bytes 4 h.timestamp,
      length-le_bytes 4 h.nonce,
      i.root_length,
    )

pub new_header_at-new_header_to_bytes :
    (h : NewHeader) → IsNewHeader h → new_header_at (new_header_to_bytes h) ≡ h
unfolding new_header_at new_header_to_bytes
new_header_at-new_header_to_bytes h i =
    let v = length-le_bytes 4 h.version in
    let t = length-le_bytes 4 h.timestamp in
    let r = i.root_length in
    rw
      (
        word-concat 0 0 4 h.version (new_header_fields h) refl refl refl i.version_fits,
        slice-concat 1 4 36 (new_header_fields h) (omega arith) (omega arith),
        word-concat 2 36 40 h.timestamp (new_header_fields h) (omega arith) refl refl
            i.timestamp_fits,
        word-concat 3 40 44 h.nonce (new_header_fields h) (omega arith) refl refl i.nonce_fits,
      )
      refl
