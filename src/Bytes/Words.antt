-- ===== src/Bytes/Words.antt =====
-- Arrays of `u32`: the loops that write and read them word by word.
use zkpow.Prelude.{
  ℕ, zero, suc, ◌+◌, ◌*◌, ◌^◌, ◌≤◌, ◌<◌, ◌≡◌, refl, sym, ap, ap₂, ◌∙◌, arith, List, [], ◌∷◌, ◌++◌,
  length, All, append_assoc, length-append,
}
use zkpow.Bytes.{IsByte, le_bytes, from_le, slice, word_fields, read_words, words_memory}
use zkpow.Bytes.Le.{length-le_bytes, from_le-le_bytes, le_bytes-from_le, All-slice}
use zkpow.Bytes.Layout.{from_le-lt_slice}
use zkpow.Bytes.Layout.{Consecutive, contents, slice-mid, slice-join, length-slice, slice-empty}

abbrev pub IsU32 : ℕ → Type 0
IsU32 w = w < 2 ^ 32

pub length-words_memory : (ws : List ℕ) → length (words_memory ws) ≡ length ws * 4
unfolding words_memory
length-words_memory [] = omega arith
length-words_memory (w ∷ ws) =
    length-append (le_bytes 4 w) (words_memory ws)
    ∙ omega (arith, length-le_bytes 4 w, length-words_memory ws)

pub contents-word_fields :
    (start i : ℕ) (ws : List ℕ) → contents (word_fields start i ws) ≡ words_memory ws
unfolding word_fields words_memory
contents-word_fields start i [] = refl
contents-word_fields start i (w ∷ ws) =
    ap (λ l. le_bytes 4 w ++ l) (contents-word_fields start (i + 1) ws)

pub word_fields-Consecutive :
    (start i lo stop : ℕ) (ws : List ℕ)
    → lo ≡ start + i * 4
    → lo + length ws * 4 ≡ stop
    → Consecutive lo (word_fields start i ws) stop
unfolding word_fields
word_fields-Consecutive start i lo stop [] p q = omega arith
word_fields-Consecutive start i lo stop (w ∷ ws) p q = (
  omega arith,
  word_fields-Consecutive start (i + 1) _ stop ws (omega (arith, length-le_bytes 4 w))
      (omega (arith, length-le_bytes 4 w)),
)

-- The words read from memory are those that were written there.
pub read_words_lem :
    (start i n : ℕ) (front ws back : List ℕ)
    → length front ≡ start + i * 4
    → length ws ≡ n
    → All IsU32 ws
    → read_words start i n (front ++ (words_memory ws ++ back)) ≡ ws
unfolding read_words words_memory
read_words_lem start i zero front [] back p q h = refl
read_words_lem start i zero front (w ∷ ws) back p q h = absurd (omega arith)
read_words_lem start i (suc n) front [] back p q h = absurd (omega arith)
read_words_lem start i (suc n) front (w ∷ ws) back p q (hw, hws) =
    ap₂ ◌∷◌ (ap from_le here ∙ from_le-le_bytes 4 w hw) (
      ap (read_words start (i + 1) n) regroup
      ∙ read_words_lem start (i + 1) n (front ++ le_bytes 4 w) ws back
          (length-append front (le_bytes 4 w) ∙ omega (arith, length-le_bytes 4 w)) (omega arith)
          hws)
  where
    regroup :
        front ++ ((le_bytes 4 w ++ words_memory ws) ++ back)
        ≡ (front ++ le_bytes 4 w) ++ (words_memory ws ++ back)
    regroup = rw (append_assoc, append_assoc)

    here :
        slice
          (start + i * 4)
          (start + (i + 1) * 4)
          (front ++ ((le_bytes 4 w ++ words_memory ws) ++ back))
        ≡ le_bytes 4 w
    here = rw (append_assoc (le_bytes 4 w) (words_memory ws) back) (
        slice-mid (start + i * 4) (start + (i + 1) * 4) front (le_bytes 4 w) _ p
          (omega (arith, length-le_bytes 4 w)))

pub length-read_words : (start i n : ℕ) (bytes : List ℕ) → length (read_words start i n bytes) ≡ n
unfolding read_words
length-read_words start i zero bytes = refl
length-read_words start i (suc n) bytes = ap suc (length-read_words start (i + 1) n bytes)

pub read_words-IsU32 :
    (start i n : ℕ) (bytes : List ℕ)
    → All IsByte bytes
    → start + (i + n) * 4 ≤ length bytes
    → All IsU32 (read_words start i n bytes)
unfolding read_words
read_words-IsU32 start i zero bytes h p = tt
read_words-IsU32 start i (suc n) bytes h p = (
  from_le-lt_slice 4 (start + i * 4) (start + (i + 1) * 4) bytes h (omega arith) (omega arith),
  read_words-IsU32 start (i + 1) n bytes h (omega arith),
)

-- Words read from a byte string and laid out again give the bytes that were read.
pub words_memory-read_words :
    (start i n : ℕ) (bytes : List ℕ)
    → All IsByte bytes
    → start + (i + n) * 4 ≤ length bytes
    → words_memory (read_words start i n bytes) ≡ slice (start + i * 4) (start + (i + n) * 4) bytes
unfolding read_words words_memory
words_memory-read_words start i zero bytes h p =
    let e : i + zero ≡ i = omega arith in rw e (sym (slice-empty (start + i * 4) bytes))
words_memory-read_words start i (suc n) bytes h p =
    let e : (i + 1) + n ≡ i + suc n = omega arith in
    ap₂ ◌++◌
      (le_bytes-from_le 4 _ (All-slice IsByte (start + i * 4) (start + (i + 1) * 4) bytes h)
        (length-slice (start + i * 4) (start + (i + 1) * 4) bytes (omega arith) ∙ omega arith))
      (words_memory-read_words start (i + 1) n bytes h (omega arith))
    ∙ slice-join (start + i * 4) (start + (i + 1) * 4) (start + ((i + 1) + n) * 4) bytes
        (omega arith) (omega arith)
    ∙ ap (λ (k : ℕ). slice (start + i * 4) (start + k * 4) bytes) e
