-- ===== src/Target/Digits.antt =====
-- The bytes of a target as digits of its number in base 256.
use zkpow.Prelude.{
  ℕ, zero, suc, ◌*◌, ◌/◌, ◌%◌, ◌^◌, ◌≤◌, ◌<◌, ◌≡◌, refl, sym, ap, ◌∙◌, arith, get_or,
}
use zkpow.Bytes.{le_bytes, from_le}
use zkpow.Bytes.Le.{le_bytes-from_le}
use zkpow.U256.{U256, IsU256, value, to_le_bytes, memory}
use zkpow.U256.Bytes.{
  to_le_bytes-memory, length-memory, memory-IsByte, from_le_bytes-memory, value-from_le_bytes,
}
use zkpow.Target.{significant_bytes}
use native.Mathlib.Nat.{
  pow-succ', div-div-eq-div-mul, div-lt_iff_lt-mul, one-le-pow, zero-div, pow-le-pow_right,
  div-eq_of_lt,
}
use native.Mathlib.Decide.{ℕ_discrete, dec_lt}

-- Digit `i` of a number in base 256.
abbrev pub digit : ℕ → ℕ → ℕ
digit x i = x / 256 ^ i % 256

pub get_or-le_bytes : (n x i : ℕ) → i < n → get_or (le_bytes n x) i 0 ≡ digit x i
unfolding le_bytes
get_or-le_bytes zero x i h = absurd (omega arith)
get_or-le_bytes (suc n) x zero h = omega arith
get_or-le_bytes (suc n) x (suc i) h =
    get_or-le_bytes n (x / 256) i (omega arith)
    ∙ rw (div-div-eq-div-mul x 256 (256 ^ i), pow-succ' 256 i)

-- The bytes of a target are those of its number.
pub to_le_bytes-value : (t : U256) → IsU256 t → to_le_bytes t ≡ le_bytes 32 (value t)
to_le_bytes-value t h =
    let e : from_le (memory t) ≡ value t =
      sym (value-from_le_bytes (memory t) (length-memory t))
      ∙ ap value (from_le_bytes-memory t h) in
    to_le_bytes-memory t
    ∙ sym (le_bytes-from_le 32 (memory t) (memory-IsByte t) (length-memory t))
    ∙ ap (le_bytes 32) e

pub div-lt : (x p k : ℕ) → 0 < p → x < k * p → x / p < k
div-lt x p k hp h = (div-lt_iff_lt-mul hp).1 h

pub le-div : (x p k : ℕ) → 0 < p → k * p ≤ x → k ≤ x / p
le-div x p k hp h = elim (dec_lt (x / p) k) [
  | yes less ↦ absurd (omega (arith, (div-lt_iff_lt-mul {x = x} {y = k} hp).0 less))
  | no more ↦ omega arith
]

pub pow_pos : (n : ℕ) → 0 < 256 ^ n
pow_pos n = one-le-pow n 256 (omega arith)

-- The loop stops at the length of the number in bytes.
pub significant_bytes_lem :
    (x k n : ℕ)
    → 256 ^ k ≤ x
    → x < 256 ^ suc k
    → k < n
    → n ≤ 32
    → significant_bytes (le_bytes 32 x) n ≡ suc k
unfolding significant_bytes
significant_bytes_lem x k zero lo hi h b = absurd (omega arith)
significant_bytes_lem x k (suc n) lo hi h b = elim (ℕ_discrete n k) [
  | yes e ↦
      let first : 1 ≤ x / 256 ^ n = le-div x (256 ^ n) 1 (pow_pos n) (rw e (omega arith)) in
      let last : x / 256 ^ n < 256 =
        div-lt x (256 ^ n) 256 (pow_pos n) (rw e (omega (arith, pow-succ' 256 k))) in
      ground (arith, get_or-le_bytes 32 x n, first, last, e)
  | no ne ↦
      let above : 256 ^ suc k ≤ 256 ^ n = pow-le-pow_right (omega arith) (omega arith) in
      let clear : x / 256 ^ n ≡ 0 = div-eq_of_lt (omega arith) in
      ground (arith, get_or-le_bytes 32 x n, clear, significant_bytes_lem x k n)
]

pub significant_bytes-zero : (n : ℕ) → n ≤ 32 → significant_bytes (le_bytes 32 0) n ≡ 0
unfolding significant_bytes
significant_bytes-zero zero h = refl
significant_bytes-zero (suc n) h =
    let e : get_or (le_bytes 32 0) n 0 ≡ 0 =
      get_or-le_bytes 32 0 n (omega arith) ∙ rw (zero-div (256 ^ n)) in
    ground (arith, e, significant_bytes-zero n (omega arith))

-- A number has a length.
pub byte_length :
    (n x : ℕ) → 0 < x → x < 256 ^ n → (k : ℕ) × (k < n) × (256 ^ k ≤ x) × (x < 256 ^ suc k)
byte_length zero x p h = absurd (omega arith)
byte_length (suc n) x p h = elim (dec_lt x (256 ^ n)) [
  | yes less ↦ let (k, a, b, c) = byte_length n x p less in (k, omega arith, b, c)
  | no more ↦ (n, omega arith, omega arith, h)
]
