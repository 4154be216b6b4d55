-- ===== src/Bytes/Le.antt =====
-- Little-endian integers: writing and reading are inverse to each other.
use zkpow.Prelude.{
  ℕ, zero, suc, ◌+◌, ◌-◌, ◌*◌, ◌/◌, ◌%◌, ◌^◌, ◌<◌, ◌≡◌, refl, ap, arith, List, [], ◌∷◌, ◌++◌,
  length, All, take, drop,
}
use zkpow.Bytes.{IsByte, le_bytes, from_le, slice}
use native.Mathlib.Nat.{pow-succ'}

pub length-le_bytes : (n x : ℕ) → length (le_bytes n x) ≡ n
unfolding le_bytes
length-le_bytes zero x = refl
length-le_bytes (suc n) x = ap suc (length-le_bytes n (x / 256))

pub le_bytes-IsByte : (n x : ℕ) → All IsByte (le_bytes n x)
unfolding le_bytes
le_bytes-IsByte zero x = tt
le_bytes-IsByte (suc n) x = (omega arith, le_bytes-IsByte n (x / 256))

pub from_le-le_bytes : (n x : ℕ) → x < 256 ^ n → from_le (le_bytes n x) ≡ x
unfolding from_le le_bytes
from_le-le_bytes zero x h = omega arith
from_le-le_bytes (suc n) x h =
    omega (arith, from_le-le_bytes n (x / 256) (omega (arith, pow-succ' 256 n)))

pub from_le-lt : (bs : List ℕ) → All IsByte bs → from_le bs < 256 ^ length bs
unfolding from_le
from_le-lt [] h = omega arith
from_le-lt (b ∷ bs) (hb, hbs) = omega (arith, from_le-lt bs hbs, pow-succ' 256 (length bs))

pub le_bytes-from_le :
    (n : ℕ) (bs : List ℕ) → All IsByte bs → length bs ≡ n → le_bytes n (from_le bs) ≡ bs
unfolding from_le le_bytes
le_bytes-from_le zero [] h e = refl
le_bytes-from_le zero (b ∷ bs) h e = absurd (omega arith)
le_bytes-from_le (suc n) [] h e = absurd (omega arith)
le_bytes-from_le (suc n) (b ∷ bs) (hb, hbs) e =
    let low : (b + 256 * from_le bs) % 256 ≡ b = omega arith in
    let high : (b + 256 * from_le bs) / 256 ≡ from_le bs = omega arith in
    rw (low, high, le_bytes-from_le n bs hbs (omega arith))

pub All-take {ℓ} : (P : ℕ → Type ℓ) (n : ℕ) (bs : List ℕ) → All P bs → All P (take n bs)
All-take P zero bs h = tt
All-take P (suc n) [] h = tt
All-take P (suc n) (b ∷ bs) (hb, hbs) = (hb, All-take P n bs hbs)

pub All-drop {ℓ} : (P : ℕ → Type ℓ) (n : ℕ) (bs : List ℕ) → All P bs → All P (drop n bs)
All-drop P zero bs h = h
All-drop P (suc n) [] h = tt
All-drop P (suc n) (b ∷ bs) (hb, hbs) = All-drop P n bs hbs

pub All-append {ℓ} : (P : ℕ → Type ℓ) (xs ys : List ℕ) → All P xs → All P ys → All P (xs ++ ys)
All-append P [] ys h k = k
All-append P (x ∷ xs) ys (hx, hxs) k = (hx, All-append P xs ys hxs k)

pub All-slice {ℓ} : (P : ℕ → Type ℓ) (lo hi : ℕ) (bs : List ℕ) → All P bs → All P (slice lo hi bs)
unfolding slice
All-slice P lo hi bs h = All-take P (hi - lo) (drop lo bs) (All-drop P lo bs h)

pub from_le-append :
    (xs ys : List ℕ) → from_le (xs ++ ys) ≡ from_le xs + 256 ^ length xs * from_le ys
unfolding from_le
from_le-append [] ys = omega arith
from_le-append (x ∷ xs) ys =
    omega (arith, from_le-append xs ys, ap (λ (t : ℕ). t * from_le ys) (pow-succ' 256 (length xs)))
