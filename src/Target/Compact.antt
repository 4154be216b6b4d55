-- ===== src/Target/Compact.antt =====
-- What `target_to_bits` computes: the length in bytes and the top bytes.
use zkpow.Prelude.{
  ℕ, zero, suc, ◌+◌, ◌-◌, ◌*◌, ◌/◌, ◌%◌, ◌^◌, ◌≤◌, ◌<◌, ◌≡◌, ap, ◌∙◌, arith, get_or, bit_or, ltb,
  leb, false, if◌then◌else◌,
}
use zkpow.Prelude.Bits.{bit_and_mask, bit_and_bit, bit_or_sum}
use zkpow.Bytes.{le_bytes}
use zkpow.U256.{U256, IsU256, value}
use zkpow.Target.{top_bytes, pack_bits, target_to_bits}
use zkpow.Target.Digits.{
  digit, get_or-le_bytes, to_le_bytes-value, significant_bytes_lem, significant_bytes-zero, div-lt,
  le-div, pow_pos,
}
use zkpow.Target.Expand.{pow_split}
use native.Mathlib.Nat.{div-div-eq-div-mul, pow-succ'}

-- The mantissa and the length in bytes that a number has before the sign bit is looked at.
abbrev pub mantissa : ℕ → ℕ → ℕ
mantissa n x = if leb n 3 then x * 256 ^ (3 - n) else x / 256 ^ (n - 3)

-- The sign bit of a 24-bit mantissa moves it down by a byte.
abbrev pub packed : ℕ → ℕ → ℕ
packed n m = if ltb m (2 ^ 23) then n * 2 ^ 24 + m else (n + 1) * 2 ^ 24 + m / 256

pub pack_bits_lem : (n m : ℕ) → n ≤ 32 → m < 2 ^ 24 → pack_bits n m ≡ packed n m
unfolding pack_bits
pack_bits_lem n m hn hm =
    let sign = bit_and_bit 23 m in
    let low = bit_and_mask 23 m in
    let high = bit_and_mask 23 (m / 2 ^ 8) in
    let join0 = bit_or_sum 24 n (m % 2 ^ 23) (omega arith) in
    let join1 = bit_or_sum 24 (n + 1) (m / 2 ^ 8 % 2 ^ 23) (omega arith) in
    let e0 : n * 2 ^ 24 % 2 ^ 32 ≡ n * 2 ^ 24 = omega arith in
    let e1 : (n + 1) * 2 ^ 24 % 2 ^ 32 ≡ (n + 1) * 2 ^ 24 = omega arith in
    ground (arith, sign, low, high, join0, join1, e0, e1)

join_step : (v d : ℕ) → v < 2 ^ 24 → d < 256 → bit_or (v * 2 ^ 8 % 2 ^ 32) d ≡ v * 256 + d
join_step v d hv hd =
    let e : v * 2 ^ 8 % 2 ^ 32 ≡ v * 2 ^ 8 = omega arith in rw e (bit_or_sum 8 v d hd)

join_first : (d : ℕ) → d < 256 → bit_or 0 d ≡ d
join_first d hd = bit_or_sum 8 0 d hd ∙ omega arith

-- Three bytes or fewer are shifted up to 24 bits.
short_zero : (x : ℕ) → x < 1 → top_bytes (le_bytes 32 x) 0 ≡ x * 256 ^ 3
unfolding top_bytes
short_zero x h = omega arith

short_one : (x : ℕ) → x < 256 → top_bytes (le_bytes 32 x) 1 ≡ x * 256 ^ 2
unfolding top_bytes
short_one x h = ground (arith, get_or-le_bytes 32 x 0, join_first (get_or (le_bytes 32 x) 0 0))

short_two : (x : ℕ) → x < 256 ^ 2 → top_bytes (le_bytes 32 x) 2 ≡ x * 256
unfolding top_bytes
short_two x h =
    let b0 : ℕ = get_or (le_bytes 32 x) 0 0 in
    let b1 : ℕ = get_or (le_bytes 32 x) 1 0 in
    ground (
      arith,
      get_or-le_bytes 32 x 0,
      get_or-le_bytes 32 x 1,
      join_first b1,
      join_step (bit_or 0 b1) b0,
    )

short_three : (x : ℕ) → x < 256 ^ 3 → top_bytes (le_bytes 32 x) 3 ≡ x
unfolding top_bytes
short_three x h =
    let b0 : ℕ = get_or (le_bytes 32 x) 0 0 in
    let b1 : ℕ = get_or (le_bytes 32 x) 1 0 in
    let b2 : ℕ = get_or (le_bytes 32 x) 2 0 in
    let v1 : ℕ = bit_or (bit_or 0 b2 * 2 ^ 8 % 2 ^ 32) b1 in
    ground (
      arith,
      get_or-le_bytes 32 x 0,
      get_or-le_bytes 32 x 1,
      get_or-le_bytes 32 x 2,
      join_first b2,
      join_step (bit_or 0 b2) b1,
      join_step v1 b0,
    )

join_three :
    (a b c : ℕ)
    → b < 256
    → c < 256
    → bit_or (bit_or (a * 2 ^ 16) (b * 2 ^ 8)) c ≡ a * 65536 + b * 256 + c
join_three a b c hb hc =
    let e : a * 2 ^ 16 + b * 2 ^ 8 ≡ (a * 256 + b) * 2 ^ 8 = omega arith in
    rw (bit_or_sum 16 a (b * 2 ^ 8) (omega arith), e, bit_or_sum 8 (a * 256 + b) c hc) (omega arith)

digit-add : (x a j : ℕ) → digit x (a + j) ≡ digit (x / 256 ^ a) j
digit-add x a j = rw (pow_split a j, div-div-eq-div-mul x (256 ^ a) (256 ^ j))

-- Of a longer number the three top bytes count.
top_bytes_long :
    (x k : ℕ) → k < 29 → x < 256 ^ (k + 4) → top_bytes (le_bytes 32 x) (k + 4) ≡ x / 256 ^ (k + 1)
unfolding top_bytes
top_bytes_long x k hk hx =
    let y : ℕ = x / 256 ^ (k + 1) in
    let grow : 256 ^ (k + 4) ≡ 2 ^ 24 * 256 ^ (k + 1) =
      ap (λ (t : ℕ). 256 ^ t) three ∙ pow_split 3 (k + 1) in
    let small : y < 2 ^ 24 = div-lt x (256 ^ (k + 1)) (2 ^ 24) (pow_pos (k + 1)) (omega arith) in
    let d3 : get_or (le_bytes 32 x) (k + 4 - 1) 0 ≡ y / 256 ^ 2 % 256 = byte 2 _ (omega arith) in
    let d2 : get_or (le_bytes 32 x) (k + 4 - 2) 0 ≡ y / 256 ^ 1 % 256 = byte 1 _ (omega arith) in
    let d1 : get_or (le_bytes 32 x) (k + 4 - 3) 0 ≡ y / 256 ^ 0 % 256 = byte 0 _ (omega arith) in
    let joined =
      join_three (y / 256 ^ 2 % 256) (y / 256 ^ 1 % 256) (y / 256 ^ 0 % 256) (omega arith)
        (omega arith) in
    rw (long k, d3, d2, d1, joined) (omega arith)
  where
    three : k + 4 ≡ 3 + (k + 1)
    three = omega arith

    long : (n : ℕ) → leb (n + 4) 3 ≡ false
    long n = ground arith

    byte :
        (j i : ℕ)
        → (i ≡ k + 1 + j) × (i < 32)
        → get_or (le_bytes 32 x) i 0 ≡ digit (x / 256 ^ (k + 1)) j
    byte j i (e, b) = get_or-le_bytes 32 x i b ∙ ap (digit x) e ∙ digit-add x (k + 1) j

top_bytes_lem : (x n : ℕ) → n ≤ 32 → x < 256 ^ n → top_bytes (le_bytes 32 x) n ≡ mantissa n x
top_bytes_lem x zero hn hx = short_zero x hx
top_bytes_lem x (suc zero) hn hx = short_one x hx
top_bytes_lem x (suc (suc zero)) hn hx = short_two x hx
top_bytes_lem x (suc (suc (suc zero))) hn hx = short_three x hx ∙ omega arith
top_bytes_lem x (suc (suc (suc (suc k)))) hn hx =
    let e : suc (suc (suc (suc k))) ≡ k + 4 = omega arith in
    rw e (top_bytes_long x k (omega arith) (rw e at hx) ∙ long)
  where
    long : x / 256 ^ (k + 1) ≡ mantissa (k + 4) x
    long = let e : k + 4 - 3 ≡ k + 1 = omega arith in ground (arith, e)

pub pow_suc_three :
    (j : ℕ)
    → (256 ^ suc (suc (suc j)) ≡ 2 ^ 16 * 256 ^ suc j)
      × (256 ^ suc (suc (suc (suc j))) ≡ 2 ^ 24 * 256 ^ suc j)
pow_suc_three j =
    omega
      (arith, pow-succ' 256 (suc j), pow-succ' 256 (suc (suc j)), pow-succ' 256 (suc (suc (suc j))))

pub mantissa_bounds :
    (k x : ℕ)
    → 256 ^ k ≤ x
    → x < 256 ^ suc k
    → (2 ^ 16 ≤ mantissa (suc k) x) × (mantissa (suc k) x < 2 ^ 24)
mantissa_bounds zero x lo hi = omega arith
mantissa_bounds (suc zero) x lo hi = omega arith
mantissa_bounds (suc (suc zero)) x lo hi = omega arith
mantissa_bounds (suc (suc (suc j))) x lo hi =
    let (a, b) = pow_suc_three j in
    let small : x / 256 ^ suc j < 2 ^ 24 =
      div-lt x (256 ^ suc j) (2 ^ 24) (pow_pos (suc j)) (omega arith) in
    let large : 2 ^ 16 ≤ x / 256 ^ suc j =
      le-div x (256 ^ suc j) (2 ^ 16) (pow_pos (suc j)) (omega arith) in
    let e : suc (suc (suc (suc j))) - 3 ≡ suc j = omega arith in ground (arith, e, small, large)

-- A number of `suc k` bytes is packed with its length and its top bytes.
pub target_to_bits_lem :
    (t : U256) (k : ℕ)
    → IsU256 t
    → 256 ^ k ≤ value t
    → value t < 256 ^ suc k
    → k < 32
    → target_to_bits t ≡ packed (suc k) (mantissa (suc k) (value t))
unfolding target_to_bits
target_to_bits_lem t k h lo hi b =
    rw
      (
        to_le_bytes-value t h,
        significant_bytes_lem (value t) k 32 lo hi b (omega arith),
        top_bytes_lem (value t) (suc k) b hi,
        pack_bits_lem (suc k) (mantissa (suc k) (value t)) b (mantissa_bounds k (value t) lo hi).1,
      )
      (ground arith)

pub target_to_bits-zero : (t : U256) → IsU256 t → value t ≡ 0 → target_to_bits t ≡ 0
unfolding target_to_bits
target_to_bits-zero t h e =
    let bytes = to_le_bytes-value t h in rw (bytes, e, significant_bytes-zero 32 (omega arith))
