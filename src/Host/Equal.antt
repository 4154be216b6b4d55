-- ===== src/Host/Equal.antt =====
-- The derived `PartialEq` of `Claim`, and what it decides.
use zkpow.Prelude.{ℕ, ◌≡◌, refl, arith, Bool, true, ◌&&◌, ◌==◌, List, [], ◌∷◌}
use zkpow.U256.{eq_u256}
use zkpow.U256.Order.{eq_u256_iff}
use zkpow.Claim.{Claim}
use zkpow.Guest.{eq_bytes}
use zkpow.Guest.Checks.{eq_bytes_lem}

unfoldable pub eq_claim : Claim → Claim → Bool
eq_claim a b =
    eq_bytes a.genesis_hash b.genesis_hash
    && eq_bytes a.tip_hash b.tip_hash
    && eq_u256 a.chain_work b.chain_work
    && a.height == b.height

pub eq_bytes_refl : (xs : List ℕ) → eq_bytes xs xs ≡ true
unfolding eq_bytes
eq_bytes_refl [] = refl
eq_bytes_refl (x ∷ xs) = let ih = eq_bytes_refl xs in ground arith

pub eq_claim_lem : (a b : Claim) → eq_claim a b ≡ true → a ≡ b
unfolding eq_claim
eq_claim_lem a b h =
    let g : a.genesis_hash ≡ b.genesis_hash =
      eq_bytes_lem a.genesis_hash b.genesis_hash (ground arith) in
    let t : a.tip_hash ≡ b.tip_hash = eq_bytes_lem a.tip_hash b.tip_hash (ground arith) in
    let w : a.chain_work ≡ b.chain_work =
      (eq_u256_iff a.chain_work b.chain_work).0 (ground arith) in
    let n : a.height ≡ b.height = ground arith in rw (g, t, w, n) refl

pub eq_claim_refl : (a : Claim) → eq_claim a a ≡ true
unfolding eq_claim
eq_claim_refl a =
    let g = eq_bytes_refl a.genesis_hash in
    let t = eq_bytes_refl a.tip_hash in
    let w = (eq_u256_iff a.chain_work a.chain_work).1 refl in ground arith
