-- ===== src/Bytes.antt =====
-- Byte strings: crates/core/src/lib.rs, `check_exact_len` to `slice_from_bytes` with `ParseError`,
-- and what the wire formats use of the language: `to_le_bytes`, `from_le_bytes`, slices of an
-- array and `copy_from_slice`. A byte string is a list of numbers.
pub mod Le
pub mod Layout
pub mod Words
pub mod Chunks
pub mod Exact
use zkpow.Prelude.{
  ℕ, zero, suc, ◌+◌, ◌-◌, ◌*◌, ◌/◌, ◌%◌, ◌<◌, List, [], ◌∷◌, ◌++◌, length, take, drop, Result, ok,
  err, if◌then◌else◌, ◌==◌,
}

abbrev pub IsByte : ℕ → Type 0
IsByte b = b < 256

-- `x.to_le_bytes()` of an integer of `n` bytes.
unfoldable pub le_bytes : ℕ → ℕ → List ℕ
le_bytes zero x = []
le_bytes (suc n) x = (x % 256) ∷ le_bytes n (x / 256)

-- `from_le_bytes`.
unfoldable pub from_le : List ℕ → ℕ
from_le [] = 0
from_le (b ∷ bs) = b + 256 * from_le bs

-- `bytes[lo..hi]`
unfoldable pub slice : ℕ → ℕ → List ℕ → List ℕ
slice lo hi bytes = take (hi - lo) (drop lo bytes)

-- `out[lo..lo + src.len()].copy_from_slice(src)`
unfoldable pub put_slice : ℕ → List ℕ → List ℕ → List ℕ
put_slice lo src out = take lo out ++ (src ++ drop (lo + length src) out)

-- Fields written one after the other into `out`, each at its offset.
abbrev pub put_all : List (ℕ × List ℕ) → List ℕ → List ℕ
put_all [] out = out
put_all ((lo, src) ∷ fields) out = put_all fields (put_slice lo src out)

-- Fields that lie side by side in memory.
abbrev pub concat : List (List ℕ) → List ℕ
concat [] = []
concat (x ∷ xs) = x ++ concat xs

-- The loop that writes `word[i]` to `out[start + i * 4..start + (i + 1) * 4]`, from index `i` on.
unfoldable pub word_fields : ℕ → ℕ → List ℕ → List (ℕ × List ℕ)
word_fields start i [] = []
word_fields start i (w ∷ ws) = (start + i * 4, le_bytes 4 w) ∷ word_fields start (i + 1) ws

-- The loop that reads `count` words back, from index `i` on.
unfoldable pub read_words : ℕ → ℕ → ℕ → List ℕ → List ℕ
read_words start i zero bytes = []
read_words start i (suc count) bytes =
    from_le (slice (start + i * 4) (start + (i + 1) * 4) bytes)
    ∷ read_words start (i + 1) count bytes

-- An array of `u32` in memory.
unfoldable pub words_memory : List ℕ → List ℕ
words_memory [] = []
words_memory (w ∷ ws) = le_bytes 4 w ++ words_memory ws

pub data ParseError : Type 0 where
  invalid_length : ℕ → ℕ → ParseError
  misaligned : ℕ → ParseError
  truncated : ℕ → ℕ → ℕ → ParseError

unfoldable pub check_exact_len : List ℕ → ℕ → Result ParseError (Unit {0})
check_exact_len bytes expected =
    if length bytes == expected then ok tt else err (invalid_length expected (length bytes))

-- The address of the buffer decides whether a cast is allowed.
unfoldable pub check_aligned : ℕ → ℕ → Result ParseError (Unit {0})
check_aligned required address =
    if address % required == 0 then ok tt else err (misaligned required)

module _ {A : Type 0} where
  -- `copy_from_bytes::<T>`: `size` is the size of `T`, and `at` reads the fields of `T` from its
  -- bytes in memory.
  unfoldable pub copy_from_bytes : ℕ → (List ℕ → A) → List ℕ → Result ParseError A
  unfolding check_exact_len
  copy_from_bytes size at bytes = elim (check_exact_len bytes size) [
    | ok _ ↦ ok (at bytes)
    | err e ↦ err e
  ]

  -- The elements of a slice cast from bytes: `count` values of `size` bytes each.
  unfoldable pub chunks : ℕ → (List ℕ → A) → ℕ → List ℕ → List A
  chunks size at zero bytes = []
  chunks size at (suc count) bytes = at (take size bytes) ∷ chunks size at count (drop size bytes)

  -- `slice_from_bytes::<T>` for a buffer at an address.
  unfoldable pub slice_from_bytes : ℕ → ℕ → (List ℕ → A) → ℕ → List ℕ → Result ParseError (List A)
  unfolding check_aligned chunks
  slice_from_bytes size align at address bytes =
      if length bytes % size == 0
      then elim (check_aligned align address) [
        | ok _ ↦ ok (chunks size at (length bytes / size) bytes)
        | err e ↦ err e
      ]
      else err (invalid_length ((length bytes + size - 1) / size * size) (length bytes))
