-- ===== src/U256/Bytes.antt =====
-- The byte form of a number: 32 bytes, little end first.
use zkpow.Prelude.{
  ℕ, ◌+◌, ◌*◌, ◌^◌, ◌≤◌, ◌≡◌, refl, sym, ap, ◌∙◌, arith, List, [], length, All, take, get_or,
  append-nil,
}
use zkpow.Bytes.{IsByte, le_bytes, from_le, slice}
use zkpow.Bytes.Le.{length-le_bytes, le_bytes-IsByte, All-append, from_le-le_bytes, from_le-append}
use zkpow.Bytes.Layout.{
  put_all_lem, slice-concat, slice-join, slice-whole, length-slice, from_le-lt_slice,
  le_bytes-from_le-slice, length-concat, total,
}
use zkpow.U256.{U256, IsU256, value, from_le_bytes, to_le_bytes, memory, limb_bytes, limb_fields}

pub length-memory : (x : U256) → length (memory x) ≡ 32
unfolding memory
length-memory x =
    length-concat (limb_bytes x)
    ∙ omega (
      arith,
      length-le_bytes 8 x.limb0,
      length-le_bytes 8 x.limb1,
      length-le_bytes 8 x.limb2,
      length-le_bytes 8 x.limb3,
    )

-- The array that `to_le_bytes` fills is the number's memory.
pub to_le_bytes-memory : (x : U256) → to_le_bytes x ≡ memory x
unfolding memory to_le_bytes
to_le_bytes-memory x = put_all_lem (limb_fields x) 32 (
    omega (
      arith,
      length-le_bytes 8 x.limb0,
      length-le_bytes 8 x.limb1,
      length-le_bytes 8 x.limb2,
      length-le_bytes 8 x.limb3,
    ))

-- The bytes of limb number `k` in memory.
limb_slice :
    (k lo hi : ℕ) (x : U256)
    → total (take k (limb_bytes x)) ≡ lo
    → lo + length (get_or (limb_bytes x) k []) ≡ hi
    → slice lo hi (memory x) ≡ get_or (limb_bytes x) k []
unfolding memory
limb_slice k lo hi x p q = slice-concat k lo hi (limb_bytes x) p q

pub from_le_bytes-memory : (x : U256) → IsU256 x → from_le_bytes (memory x) ≡ x
unfolding from_le_bytes
from_le_bytes-memory x h =
    let l0 = length-le_bytes 8 x.limb0 in
    let l1 = length-le_bytes 8 x.limb1 in
    let l2 = length-le_bytes 8 x.limb2 in
    let l3 = length-le_bytes 8 x.limb3 in
    rw (
      limb_slice 0 0 8 x (omega arith) (omega arith),
      limb_slice 1 8 16 x (omega arith) (omega arith),
      limb_slice 2 16 24 x (omega arith) (omega arith),
      limb_slice 3 24 32 x (omega arith) (omega arith),
      from_le-le_bytes 8 x.limb0 h.fits0,
      from_le-le_bytes 8 x.limb1 h.fits1,
      from_le-le_bytes 8 x.limb2 h.fits2,
      from_le-le_bytes 8 x.limb3 h.fits3,
    )

pub from_le_bytes-IsU256 :
    (bytes : List ℕ) → All IsByte bytes → length bytes ≡ 32 → IsU256 (from_le_bytes bytes)
unfolding from_le_bytes
from_le_bytes-IsU256 bytes h e = record {
  fits0 = from_le-lt_slice 8 0 8 bytes h (omega arith) refl;
  fits1 = from_le-lt_slice 8 8 16 bytes h (omega arith) refl;
  fits2 = from_le-lt_slice 8 16 24 bytes h (omega arith) refl;
  fits3 = from_le-lt_slice 8 24 32 bytes h (omega arith) refl;
}

pub memory-from_le_bytes :
    (bytes : List ℕ) → All IsByte bytes → length bytes ≡ 32 → memory (from_le_bytes bytes) ≡ bytes
unfolding from_le_bytes memory
memory-from_le_bytes bytes h e = rw (
  le_bytes-from_le-slice 8 0 8 bytes h (omega arith) refl,
  le_bytes-from_le-slice 8 8 16 bytes h (omega arith) refl,
  le_bytes-from_le-slice 8 16 24 bytes h (omega arith) refl,
  le_bytes-from_le-slice 8 24 32 bytes h (omega arith) refl,
  append-nil (slice 24 32 bytes),
  slice-join 16 24 32 bytes (omega arith) (omega arith),
  slice-join 8 16 32 bytes (omega arith) (omega arith),
  slice-join 0 8 32 bytes (omega arith) (omega arith),
  slice-whole 32 bytes e,
)

-- The lowest `n` bytes of a slice and the rest.
from_le_split :
    (n lo hi : ℕ) (bytes : List ℕ)
    → hi ≤ length bytes
    → lo + n ≤ hi
    → from_le (slice lo hi bytes)
      ≡ from_le (slice lo (lo + n) bytes) + 256 ^ n * from_le (slice (lo + n) hi bytes)
from_le_split n lo hi bytes p q =
    let e : length (slice lo (lo + n) bytes) ≡ n =
      length-slice lo (lo + n) bytes (omega arith) ∙ omega arith in
    ap from_le (sym (slice-join lo (lo + n) hi bytes (omega arith) q))
    ∙ from_le-append (slice lo (lo + n) bytes) (slice (lo + n) hi bytes)
    ∙ ap
        (λ (k : ℕ). from_le (slice lo (lo + n) bytes) + 256 ^ k * from_le (slice (lo + n) hi bytes))
        e

-- The four limbs together are the integer that the 32 bytes hold.
pub value-from_le_bytes :
    (bytes : List ℕ) → length bytes ≡ 32 → value (from_le_bytes bytes) ≡ from_le bytes
unfolding value from_le_bytes
value-from_le_bytes bytes e = omega (
  arith,
  from_le_split 8 0 32 bytes (omega arith) (omega arith),
  from_le_split 8 8 32 bytes (omega arith) (omega arith),
  from_le_split 8 16 32 bytes (omega arith) (omega arith),
  ap from_le (slice-whole 32 bytes e),
)

pub memory-IsByte : (x : U256) → All IsByte (memory x)
unfolding memory
memory-IsByte x = All-append IsByte (le_bytes 8 x.limb0) _ (le_bytes-IsByte 8 x.limb0) (
    All-append IsByte (le_bytes 8 x.limb1) _ (le_bytes-IsByte 8 x.limb1) (
      All-append IsByte (le_bytes 8 x.limb2) _ (le_bytes-IsByte 8 x.limb2)
        (All-append IsByte (le_bytes 8 x.limb3) [] (le_bytes-IsByte 8 x.limb3) tt)))
