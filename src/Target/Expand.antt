-- ===== src/Target/Expand.antt =====
-- What `target_from_bits` computes: the mantissa at its exponent, cut to 256 bits.
use zkpow.Prelude.{
  All, Bool-cases, inl, inr, ℕ, zero, suc, ◌+◌, ◌-◌, ◌*◌, ◌/◌, ◌%◌, ◌^◌, ◌≤◌, ◌<◌, ◌≡◌, refl, ap,
  ◌∙◌, arith, List, [], ◌∷◌, length, get_or, set, replicate, leb, ltb, if◌then◌else◌, length-set,
  get_or-set_ne, bit_and,
}
use zkpow.Prelude.Bits.{bit_and_mask}
use zkpow.Bytes.{IsByte, le_bytes, from_le, put_slice}
use zkpow.U256.{IsU256, value}
use zkpow.U256.Bytes.{value-from_le_bytes, from_le_bytes-IsU256}
use zkpow.Target.{zero_bytes, expanded_bytes, put_byte, target_from_bits}
use native.Mathlib.Nat.{pow-succ', pow-le-pow_right, mul-le-mul_left, div-le_self}
use native.Mathlib.Decide.{dec_lt}

-- A byte written into an array changes its number by that byte's weight.
from_le-set :
    (bs : List ℕ) (i v : ℕ)
    → i < length bs
    → from_le (set bs i v) + 256 ^ i * get_or bs i 0 ≡ from_le bs + 256 ^ i * v
unfolding from_le
from_le-set [] i v h = absurd (omega arith)
from_le-set (b ∷ bs) zero v h = omega arith
from_le-set (b ∷ bs) (suc i) v h = omega (
  arith,
  from_le-set bs i v (omega arith),
  ap (λ (t : ℕ). t * v) (pow-succ' 256 i),
  ap (λ (t : ℕ). t * get_or bs i 0) (pow-succ' 256 i),
)

from_le-replicate : (n : ℕ) → from_le (replicate n 0) ≡ 0
unfolding from_le
from_le-replicate zero = refl
from_le-replicate (suc n) = omega (arith, from_le-replicate n)

get_or-replicate : (n i : ℕ) → get_or {A = ℕ} (replicate n 0) i 0 ≡ 0
get_or-replicate zero i = refl
get_or-replicate (suc n) zero = refl
get_or-replicate (suc n) (suc i) = get_or-replicate n i

length-zero_bytes : length zero_bytes ≡ 32
unfolding zero_bytes
length-zero_bytes = refl

from_le-zero_bytes : from_le zero_bytes ≡ 0
unfolding zero_bytes
from_le-zero_bytes = from_le-replicate 32

get_or-zero_bytes : (i : ℕ) → get_or zero_bytes i 0 ≡ 0
unfolding zero_bytes
get_or-zero_bytes = get_or-replicate 32

-- What a byte adds that is written at `i`, if it is written.
abbrev weight : ℕ → ℕ → ℕ
weight i v = if ltb i 32 then 256 ^ i * v else 0

put_byte_lem :
    (bs : List ℕ) (i v : ℕ)
    → length bs ≡ 32
    → get_or bs i 0 ≡ 0
    → (from_le (put_byte i v bs) ≡ from_le bs + weight i v) × (length (put_byte i v bs) ≡ 32)
put_byte_lem bs i v h z =
    let clear : 256 ^ i * get_or bs i 0 ≡ 0 = rw z (omega arith) in
    ground (arith, from_le-set bs i v, length-set bs i v, clear)

get_or-put_byte :
    (bs : List ℕ) (i j v : ℕ) → i < j → get_or bs j 0 ≡ 0 → get_or (put_byte i v bs) j 0 ≡ 0
get_or-put_byte bs i j v h z =
    ground (arith, get_or-set_ne bs {i = i} {j = j} v 0 (λ e. omega arith))

-- The number that the compact form stands for.
abbrev pub expand : ℕ → ℕ → ℕ
expand size mantissa =
    if leb size 3 then mantissa / 2 ^ (8 * (3 - size)) else mantissa * 256 ^ (size - 3) % 2 ^ 256

pub pow_split : (a b : ℕ) → 256 ^ (a + b) ≡ 256 ^ a * 256 ^ b
pow_split zero b = let e : zero + b ≡ b = omega arith in rw e (omega arith)
pow_split (suc a) b =
    let e : suc a + b ≡ suc (a + b) = omega arith in
    rw e (
      omega (
        arith,
        pow-succ' 256 (a + b),
        pow_split a b,
        ap (λ (t : ℕ). t * 256 ^ b) (pow-succ' 256 a),
      ))

-- The three bytes of the mantissa at the exponent `o`.
by_digits :
    (o m : ℕ)
    → m < 2 ^ 23
    → m * 256 ^ o
      ≡ 256 ^ o * (m % 256) + 256 ^ (o + 1) * (m / 2 ^ 8 % 256) + 256 ^ (o + 2) * (m / 2 ^ 16 % 256)
by_digits o m hm =
    let digits : m ≡ m % 256 + 256 * (m / 256 % 256) + 65536 * (m / 65536 % 256) = omega arith in
    let p1 : 256 ^ (o + 1) ≡ 256 * 256 ^ o = pow_split o 1 ∙ omega arith in
    let p2 : 256 ^ (o + 2) ≡ 65536 * 256 ^ o = pow_split o 2 ∙ omega arith in
    rw (p1, p2) (omega (arith, ap (λ (t : ℕ). t * 256 ^ o) digits))

weights_low :
    (o m : ℕ)
    → m < 2 ^ 23
    → o < 30
    → weight o (m % 256) + weight (o + 1) (m / 2 ^ 8 % 256) + weight (o + 2) (m / 2 ^ 16 % 256)
      ≡ m * 256 ^ o % 2 ^ 256
weights_low o m hm ho =
    let p : 256 ^ o ≤ 256 ^ 29 =
      pow-le-pow_right {n = 256} (omega arith) {i = o} {j = 29} (omega arith) in
    let fits : m * 256 ^ o < 2 ^ 256 = omega (arith, mul-le-mul_left m p) in
    ground (arith, fits, by_digits o m hm)

weights_high :
    (o m : ℕ)
    → m < 2 ^ 23
    → 30 ≤ o
    → weight o (m % 256) + weight (o + 1) (m / 2 ^ 8 % 256) + weight (o + 2) (m / 2 ^ 16 % 256)
      ≡ m * 256 ^ o % 2 ^ 256
weights_high o m hm ho = elim (dec_lt o 31) [
  | yes a ↦ let e : o ≡ 30 = omega arith in rw e (omega arith)
  | no a ↦ elim (dec_lt o 32) [
    | yes b ↦ let e : o ≡ 31 = omega arith in rw e (omega arith)
    | no b ↦
        let e : 256 ^ o ≡ 256 ^ 32 * 256 ^ (o - 32) =
          ap (λ (t : ℕ). 256 ^ t) (omega arith) ∙ pow_split 32 (o - 32) in
        let multiple : m * 256 ^ o ≡ 2 ^ 256 * (m * 256 ^ (o - 32)) =
          omega (arith, ap (λ (t : ℕ). m * t) e) in
        ground (arith, multiple)
  ]
]

-- Three bytes written side by side into an array of zeros.
three_bytes :
    (z : List ℕ) (o a b c : ℕ)
    → length z ≡ 32
    → from_le z ≡ 0
    → ((i : ℕ) → get_or z i 0 ≡ 0)
    → let filled = put_byte (o + 2) c (put_byte (o + 1) b (put_byte o a z)) in
      (from_le filled ≡ weight o a + weight (o + 1) b + weight (o + 2) c) × (length filled ≡ 32)
three_bytes z o a b c l v zero_at =
    let (v0, l0) = put_byte_lem z o a l (zero_at o) in
    let z1 = get_or-put_byte z o (o + 1) a (omega arith) (zero_at (o + 1)) in
    let (v1, l1) = put_byte_lem (put_byte o a z) (o + 1) b l0 z1 in
    let z2 =
      get_or-put_byte (put_byte o a z) (o + 1) (o + 2) b (omega arith)
        (get_or-put_byte z o (o + 2) a (omega arith) (zero_at (o + 2))) in
    let (v2, l2) = put_byte_lem (put_byte (o + 1) b (put_byte o a z)) (o + 2) c l1 z2 in
    (omega (arith, v2, v1, v0, v), l2)

expanded_large :
    (size m : ℕ)
    → 3 < size
    → m < 2 ^ 23
    → (from_le (expanded_bytes size m) ≡ expand size m) × (length (expanded_bytes size m) ≡ 32)
unfolding expanded_bytes
expanded_large size m hs hm = elim (dec_lt (size - 3) 30) [
  | yes a ↦ ground (arith, bytes, masks, weights_low (size - 3) m)
  | no a ↦ ground (arith, bytes, masks, weights_high (size - 3) m)
]
  where
    masks :
        (bit_and m 0xff ≡ m % 256)
        × (bit_and (m / 2 ^ 8) 0xff ≡ m / 2 ^ 8 % 256)
        × (bit_and (m / 2 ^ 16) 0xff ≡ m / 2 ^ 16 % 256)
    masks = (bit_and_mask 8 m, bit_and_mask 8 (m / 2 ^ 8), bit_and_mask 8 (m / 2 ^ 16))

    bytes :
        let filled = put_byte (size - 3 + 2) (bit_and (m / 2 ^ 16) 0xff) (
          put_byte
            (size - 3 + 1)
            (bit_and (m / 2 ^ 8) 0xff)
            (put_byte (size - 3) (bit_and m 0xff) zero_bytes)) in
        (from_le filled
          ≡ weight (size - 3) (bit_and m 0xff)
            + weight (size - 3 + 1) (bit_and (m / 2 ^ 8) 0xff)
            + weight (size - 3 + 2) (bit_and (m / 2 ^ 16) 0xff))
        × (length filled ≡ 32)
    bytes =
        three_bytes zero_bytes (size - 3) _ _ _ length-zero_bytes from_le-zero_bytes
          get_or-zero_bytes

front_lem :
    (y : ℕ)
    → y < 2 ^ 32
    → (from_le (put_slice 0 (le_bytes 4 y) zero_bytes) ≡ y)
      × (length (put_slice 0 (le_bytes 4 y) zero_bytes) ≡ 32)
unfolding put_slice zero_bytes le_bytes from_le
front_lem y h = (omega arith, refl)

expanded_small :
    (size m : ℕ)
    → size ≤ 3
    → m < 2 ^ 23
    → (from_le (expanded_bytes size m) ≡ expand size m) × (length (expanded_bytes size m) ≡ 32)
unfolding expanded_bytes
expanded_small size m hs hm =
    let y : ℕ = m / 2 ^ (8 * (3 - size)) in
    let small : y ≤ m = div-le_self m (2 ^ (8 * (3 - size))) in
    let (v, l) = front_lem y (omega arith) in ground (arith, v, l)

expanded_bytes_lem :
    (size m : ℕ)
    → m < 2 ^ 23
    → (from_le (expanded_bytes size m) ≡ expand size m) × (length (expanded_bytes size m) ≡ 32)
expanded_bytes_lem size m hm = elim (dec_lt 3 size) [
  | yes a ↦ expanded_large size m a hm
  | no a ↦ expanded_small size m (omega arith) hm
]

-- The expanded target is the mantissa at its exponent, cut to 256 bits.
pub value-target_from_bits :
    (bits : ℕ) → value (target_from_bits bits) ≡ expand (bits / 2 ^ 24) (bits % 2 ^ 23)
unfolding target_from_bits
value-target_from_bits bits =
    let (v, l) = expanded_bytes_lem (bits / 2 ^ 24) (bits % 2 ^ 23) (omega arith) in
    rw (bit_and_mask 23 bits, value-from_le_bytes _ l, v)

set-IsByte : (bs : List ℕ) (i v : ℕ) → v < 256 → All IsByte bs → All IsByte (set bs i v)
set-IsByte [] i v h a = tt
set-IsByte (b ∷ bs) zero v h (hb, hbs) = (h, hbs)
set-IsByte (b ∷ bs) (suc i) v h (hb, hbs) = (hb, set-IsByte bs i v h hbs)

put_byte-IsByte : (bs : List ℕ) (i v : ℕ) → v < 256 → All IsByte bs → All IsByte (put_byte i v bs)
put_byte-IsByte bs i v h a = elim (Bool-cases (ltb i 32)) [
  | inl e ↦ rw e (set-IsByte bs i v h a)
  | inr e ↦ rw e a
]

zero_bytes-IsByte : All IsByte zero_bytes
unfolding zero_bytes
zero_bytes-IsByte = omega arith

front-IsByte : (y : ℕ) → All IsByte (put_slice 0 (le_bytes 4 y) zero_bytes)
unfolding put_slice zero_bytes le_bytes
front-IsByte y = omega arith

mask-IsByte : (m : ℕ) → bit_and m 0xff < 256
mask-IsByte m = omega (arith, bit_and_mask 8 m)

expanded_bytes-IsByte : (size m : ℕ) → All IsByte (expanded_bytes size m)
unfolding expanded_bytes
expanded_bytes-IsByte size m = elim (Bool-cases (leb size 3)) [
  | inl e ↦ rw e (front-IsByte (m / 2 ^ (8 * (3 - size))))
  | inr e ↦ rw e (
      put_byte-IsByte _ (size - 3 + 2) _ (mask-IsByte (m / 2 ^ 16)) (
        put_byte-IsByte _ (size - 3 + 1) _ (mask-IsByte (m / 2 ^ 8))
          (put_byte-IsByte _ (size - 3) _ (mask-IsByte m) zero_bytes-IsByte)))
]

pub target_from_bits-IsU256 : (bits : ℕ) → IsU256 (target_from_bits bits)
unfolding target_from_bits
target_from_bits-IsU256 bits =
    from_le_bytes-IsU256 _ (expanded_bytes-IsByte (bits / 2 ^ 24) (bit_and bits 0x007f_ffff)) (
      rw (bit_and_mask 23 bits)
        ((expanded_bytes_lem (bits / 2 ^ 24) (bits % 2 ^ 23) (omega arith)).1))
