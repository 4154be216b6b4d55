-- ===== src/Bytes/Layout.antt =====
-- Fields at offsets: written into an array, read back, and put together again.
use zkpow.Prelude.{
  ℕ, zero, suc, ◌+◌, ◌-◌, ◌≤◌, ◌<◌, ◌≡◌, refl, sym, ap, ap₂, ◌∙◌, ◌^◌, arith, List, [], ◌∷◌, ◌++◌,
  length, All, take, drop, get_or, replicate, take-length_append, drop-length_append,
  drop-replicate, append_assoc, append-nil, length-append, length-take, length-drop,
}
use zkpow.Bytes.Le.{from_le-lt, le_bytes-from_le, All-slice}
use zkpow.Bytes.{IsByte, le_bytes, from_le, slice, put_slice, put_all, concat}

drop-drop : (m n : ℕ) (xs : List ℕ) → drop n (drop m xs) ≡ drop (m + n) xs
drop-drop zero n xs = let e : zero + n ≡ n = omega arith in rw e
drop-drop (suc m) zero [] = let e : suc m + zero ≡ suc m = omega arith in rw e
drop-drop (suc m) (suc n) [] = let e : suc m + suc n ≡ suc (m + suc n) = omega arith in rw e
drop-drop (suc m) n (x ∷ xs) =
    let e : suc m + n ≡ suc (m + n) = omega arith in rw e (drop-drop m n xs)

-- The next field written into an array whose tail is still zero.
put_slice-replicate :
    (lo n : ℕ) (front src : List ℕ)
    → length front ≡ lo
    → put_slice lo src (front ++ replicate n 0) ≡ (front ++ src) ++ replicate (n - length src) 0
unfolding put_slice
put_slice-replicate lo n front src h = rw (
  take-length_append lo front (replicate {A = ℕ} n 0) h,
  ← drop-drop lo (length src) (front ++ replicate {A = ℕ} n 0),
  drop-length_append lo front (replicate {A = ℕ} n 0) h,
  drop-replicate {A = ℕ} (length src) n 0,
  append_assoc front src (replicate {A = ℕ} (n - length src) 0),
)

-- The offsets follow the lengths, from `lo` to `stop`, with no gap.
abbrev pub Consecutive : ℕ → List (ℕ × List ℕ) → ℕ → Type 0
Consecutive lo [] stop = lo ≡ stop
Consecutive lo ((off, src) ∷ fields) stop = (off ≡ lo) × Consecutive (lo + length src) fields stop

abbrev pub contents : List (ℕ × List ℕ) → List ℕ
contents [] = []
contents ((off, src) ∷ fields) = src ++ contents fields

Consecutive-le : (lo stop : ℕ) (fields : List (ℕ × List ℕ)) → Consecutive lo fields stop → lo ≤ stop
Consecutive-le lo stop [] h = omega arith
Consecutive-le lo stop ((off, src) ∷ fields) (e, h) =
    omega (arith, Consecutive-le (lo + length src) stop fields h)

put_all_from :
    (fields : List (ℕ × List ℕ)) (lo stop n : ℕ) (front : List ℕ)
    → length front ≡ lo
    → lo + n ≡ stop
    → Consecutive lo fields stop
    → put_all fields (front ++ replicate n 0) ≡ front ++ contents fields
put_all_from [] lo stop n front h k c = let e : n ≡ 0 = omega arith in rw e
put_all_from ((off, src) ∷ fields) lo stop n front h k (e, c) = rw (
  e,
  put_slice-replicate lo n front src h,
  put_all_from fields (lo + length src) stop (n - length src) (front ++ src)
      (omega (arith, length-append front src))
      (omega (arith, Consecutive-le (lo + length src) stop fields c)) c,
  append_assoc front src (contents fields),
)

-- An array filled field by field, at consecutive offsets up to its end, holds the fields in order.
pub put_all_lem :
    (fields : List (ℕ × List ℕ)) (n : ℕ)
    → Consecutive 0 fields n
    → put_all fields (replicate n 0) ≡ contents fields
put_all_lem fields n c = put_all_from fields 0 n n [] refl (omega arith) c

-- A slice that starts behind the first part.
pub slice-skip :
    (n lo hi : ℕ) (xs ys : List ℕ)
    → length xs ≡ n
    → n ≤ lo
    → slice lo hi (xs ++ ys) ≡ slice (lo - n) (hi - n) ys
unfolding slice
slice-skip n lo hi xs ys h k =
    let e : n + (lo - n) ≡ lo = omega arith in
    let w : hi - n - (lo - n) ≡ hi - lo = omega arith in
    ap₂ take (sym w) (
      ap (λ (m : ℕ). drop m (xs ++ ys)) (sym e)
      ∙ sym (drop-drop n (lo - n) (xs ++ ys))
      ∙ ap (drop (lo - n)) (drop-length_append n xs ys h))

-- A slice that is the first part.
pub slice-here : (n : ℕ) (xs ys : List ℕ) → length xs ≡ n → slice 0 n (xs ++ ys) ≡ xs
unfolding slice
slice-here n xs ys h = take-length_append (n - 0) xs ys (omega arith)

drop-nil : (n : ℕ) → drop {A = ℕ} n [] ≡ []
drop-nil zero = refl
drop-nil (suc n) = refl

take-nil : (n : ℕ) → take {A = ℕ} n [] ≡ []
take-nil zero = refl
take-nil (suc n) = refl

slice-nil : (lo hi : ℕ) → slice lo hi [] ≡ []
unfolding slice
slice-nil lo hi = rw (drop-nil lo) (take-nil (hi - lo))

-- A slice that starts behind `front` and ends where `mid` does.
pub slice-mid :
    (lo hi : ℕ) (front mid back : List ℕ)
    → length front ≡ lo
    → lo + length mid ≡ hi
    → slice lo hi (front ++ (mid ++ back)) ≡ mid
unfolding slice
slice-mid lo hi front mid back p q =
    rw (drop-length_append lo front (mid ++ back) p)
      (take-length_append (hi - lo) mid back (omega arith))

abbrev pub total : List (List ℕ) → ℕ
total [] = 0
total (x ∷ xs) = length x + total xs

-- The field number `k` of a concatenation is the slice between its offsets.
pub slice-concat :
    (k lo hi : ℕ) (fields : List (List ℕ))
    → total (take k fields) ≡ lo
    → lo + length (get_or fields k []) ≡ hi
    → slice lo hi (concat fields) ≡ get_or fields k []
slice-concat k lo hi [] p q = slice-nil lo hi
slice-concat zero lo hi (x ∷ xs) p q =
    let e : lo ≡ 0 = omega arith in rw e (slice-here hi x (concat xs) (omega arith))
slice-concat (suc k) lo hi (x ∷ xs) p q =
    slice-skip (length x) lo hi x (concat xs) refl (omega arith)
    ∙ slice-concat k (lo - length x) (hi - length x) xs (omega arith) (omega arith)

pub length-slice :
    (lo hi : ℕ) (bytes : List ℕ) → hi ≤ length bytes → length (slice lo hi bytes) ≡ hi - lo
unfolding slice
length-slice lo hi bytes h =
    omega (arith, length-take (hi - lo) (drop lo bytes), length-drop lo bytes)

take-add : (m n : ℕ) (xs : List ℕ) → take m xs ++ take n (drop m xs) ≡ take (m + n) xs
take-add zero n xs = let e : zero + n ≡ n = omega arith in rw e
take-add (suc m) zero [] = let e : suc m + zero ≡ suc m = omega arith in rw e
take-add (suc m) (suc n) [] = let e : suc m + suc n ≡ suc (m + suc n) = omega arith in rw e
take-add (suc m) n (x ∷ xs) =
    let e : suc m + n ≡ suc (m + n) = omega arith in rw (e, take-add m n xs)

-- Slices side by side make one slice.
pub slice-join :
    (lo mid hi : ℕ) (bytes : List ℕ)
    → lo ≤ mid
    → mid ≤ hi
    → slice lo mid bytes ++ slice mid hi bytes ≡ slice lo hi bytes
unfolding slice
slice-join lo mid hi bytes p q =
    let e : lo + (mid - lo) ≡ mid = omega arith in
    let w : mid - lo + (hi - mid) ≡ hi - lo = omega arith in
    ap (λ (m : ℕ). take (mid - lo) (drop lo bytes) ++ take (hi - mid) (drop m bytes)) (sym e)
    ∙ ap (λ l. take (mid - lo) (drop lo bytes) ++ take (hi - mid) l)
        (sym (drop-drop lo (mid - lo) bytes))
    ∙ take-add (mid - lo) (hi - mid) (drop lo bytes)
    ∙ ap (λ (m : ℕ). take m (drop lo bytes)) w

pub slice-whole : (n : ℕ) (bytes : List ℕ) → length bytes ≡ n → slice 0 n bytes ≡ bytes
unfolding slice
slice-whole n bytes h =
    ap (take (n - 0)) (sym (append-nil bytes)) ∙ take-length_append (n - 0) bytes [] (omega arith)

pub slice-empty : (n : ℕ) (bytes : List ℕ) → slice n n bytes ≡ []
unfolding slice
slice-empty n bytes = let e : n - n ≡ 0 = omega arith in rw e

-- An integer read from a slice of `n` bytes fits them.
pub from_le-lt_slice :
    (n lo hi : ℕ) (bytes : List ℕ)
    → All IsByte bytes
    → hi ≤ length bytes
    → lo + n ≡ hi
    → from_le (slice lo hi bytes) < 256 ^ n
from_le-lt_slice n lo hi bytes h p q =
    let e : length (slice lo hi bytes) ≡ n = length-slice lo hi bytes p ∙ omega arith in
    rw e at (from_le-lt (slice lo hi bytes) (All-slice IsByte lo hi bytes h))

-- A slice of `n` bytes is the integer that it holds.
pub le_bytes-from_le-slice :
    (n lo hi : ℕ) (bytes : List ℕ)
    → All IsByte bytes
    → hi ≤ length bytes
    → lo + n ≡ hi
    → le_bytes n (from_le (slice lo hi bytes)) ≡ slice lo hi bytes
le_bytes-from_le-slice n lo hi bytes h p q =
    le_bytes-from_le n (slice lo hi bytes) (All-slice IsByte lo hi bytes h)
      (length-slice lo hi bytes p ∙ omega arith)

pub length-concat : (fields : List (List ℕ)) → length (concat fields) ≡ total fields
length-concat [] = refl
length-concat (x ∷ xs) =
    length-append x (concat xs) ∙ ap (λ (t : ℕ). length x + t) (length-concat xs)

pub concat-split :
    (k : ℕ) (fields : List (List ℕ))
    → concat fields ≡ concat (take k fields) ++ concat (drop k fields)
concat-split zero fields = refl
concat-split (suc k) [] = refl
concat-split (suc k) (x ∷ xs) =
    ap (λ l. x ++ l) (concat-split k xs)
    ∙ sym (append_assoc x (concat (take k xs)) (concat (drop k xs)))
