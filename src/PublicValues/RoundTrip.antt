-- ===== src/PublicValues/RoundTrip.antt =====
-- Public values written and read back, and what a verifier reads from what the guest commits to.
use zkpow.Prelude.{
  ℕ, zero, suc, ◌+◌, ◌-◌, ◌^◌, ◌<◌, ◌≡◌, refl, ap, ◌∙◌, arith, false, List, [], ◌∷◌, ◌++◌, length,
  get_or, All, ok, ◌==◌, ==_iff,
}
use zkpow.Bytes.{le_bytes, concat}
use zkpow.Bytes.Le.{length-le_bytes}
use zkpow.Bytes.Layout.{slice-concat, length-concat, put_all_lem}
use zkpow.Bytes.Words.{IsU32}
use zkpow.U256
use zkpow.U256.{U256, IsU256}
use zkpow.U256.Bytes.{length-memory, to_le_bytes-memory, from_le_bytes-memory}
use zkpow.Header.RoundTrip.{word-concat}
use zkpow.Claim.RoundTrip.{
  IsClaim, length-verifier_key_to_bytes, verifier_key_from_bytes-verifier_key_to_bytes,
}
use zkpow.Claim.{Claim, verifier_key_to_bytes}
use zkpow.Chain.{
  ValidationErrorCode, header_payload_length_invalid, pow_insufficient, timestamp_too_old,
  genesis_hash_mismatch,
}
use zkpow.PublicValues.{
  MinimalPublicValues, public_values_fields, public_values_to_bytes, public_values_at,
  parse_minimal, as_byte, try_from, success, failure, parse_public_values, succeeded, failed,
  minimal_chain_work, minimal_pv_size,
}

-- What the types of the fields guarantee.
pub record IsPublicValues (pv : MinimalPublicValues) : Type 0 where
  pub genesis_length : length pv.genesis_hash ≡ 32
  pub tip_length : length pv.tip_hash ≡ 32
  pub work_length : length pv.chain_work ≡ 32
  pub height_fits : pv.height < 2 ^ 32
  pub failure_fits : pv.failure_height < 2 ^ 32
  pub digest_length : length pv.continuation_digest ≡ 32
  pub key_length : length pv.verifier_key ≡ 8
  pub key_fits : All IsU32 pv.verifier_key

abbrev public_values_memory : MinimalPublicValues → List (List ℕ)
public_values_memory pv =
    pv.genesis_hash
    ∷ pv.tip_hash
    ∷ pv.chain_work
    ∷ le_bytes 4 pv.height
    ∷ (pv.return_code ∷ [])
    ∷ le_bytes 4 pv.failure_height
    ∷ pv.continuation_digest
    ∷ verifier_key_to_bytes pv.verifier_key
    ∷ []

public_values_to_bytes_lem :
    (pv : MinimalPublicValues)
    → IsPublicValues pv
    → public_values_to_bytes pv ≡ concat (public_values_memory pv)
unfolding public_values_to_bytes
public_values_to_bytes_lem pv i = put_all_lem (public_values_fields pv) 169 (
    let h = length-le_bytes 4 pv.height in
    let f = length-le_bytes 4 pv.failure_height in
    let k = length-verifier_key_to_bytes pv.verifier_key i.key_length in
    omega (arith, i.genesis_length, i.tip_length, i.work_length, i.digest_length))

-- The byte number `lo` of a concatenation.
get_or-append :
    (n k i : ℕ) (xs ys : List ℕ) → length xs ≡ n → n + k ≡ i → get_or (xs ++ ys) i 0 ≡ get_or ys k 0
get_or-append n k i [] ys h e = let j : i ≡ k = omega arith in rw j refl
get_or-append n k zero (x ∷ xs) ys h e = absurd (omega arith)
get_or-append n k (suc i) (x ∷ xs) ys h e =
    get_or-append (n - 1) k i xs ys (omega arith) (omega arith)

return_code_lem :
    (pv : MinimalPublicValues)
    → IsPublicValues pv
    → get_or (concat (public_values_memory pv)) 100 0 ≡ pv.return_code
return_code_lem pv i =
    get_or-append 32 68 100 pv.genesis_hash _ i.genesis_length refl
    ∙ get_or-append 32 36 68 pv.tip_hash _ i.tip_length refl
    ∙ get_or-append 32 4 36 pv.chain_work _ i.work_length refl
    ∙ get_or-append 4 0 4 (le_bytes 4 pv.height) _ (length-le_bytes 4 pv.height) refl

public_values_at_lem :
    (pv : MinimalPublicValues)
    → IsPublicValues pv
    → public_values_at (concat (public_values_memory pv)) ≡ pv
unfolding public_values_at
public_values_at_lem pv i =
    let h = length-le_bytes 4 pv.height in
    let f = length-le_bytes 4 pv.failure_height in
    let k = length-verifier_key_to_bytes pv.verifier_key i.key_length in
    let a = i.genesis_length in
    let b = i.tip_length in
    let c = i.work_length in
    let d = i.digest_length in
    rw
      (
        slice-concat 0 0 32 (public_values_memory pv) (omega arith) (omega arith),
        slice-concat 1 32 64 (public_values_memory pv) (omega arith) (omega arith),
        slice-concat 2 64 96 (public_values_memory pv) (omega arith) (omega arith),
        word-concat 3 96 100 pv.height (public_values_memory pv) (omega arith) refl refl
            i.height_fits,
        return_code_lem pv i,
        word-concat 5 101 105 pv.failure_height (public_values_memory pv) (omega arith) refl refl
            i.failure_fits,
        slice-concat 6 105 137 (public_values_memory pv) (omega arith) (omega arith),
        slice-concat 7 137 169 (public_values_memory pv) (omega arith) (omega arith),
        verifier_key_from_bytes-verifier_key_to_bytes pv.verifier_key i.key_length i.key_fits,
      )
      refl

pub length-public_values_to_bytes :
    (pv : MinimalPublicValues) → IsPublicValues pv → length (public_values_to_bytes pv) ≡ 169
length-public_values_to_bytes pv i =
    let h = length-le_bytes 4 pv.height in
    let f = length-le_bytes 4 pv.failure_height in
    let k = length-verifier_key_to_bytes pv.verifier_key i.key_length in
    ap length (public_values_to_bytes_lem pv i)
    ∙ length-concat (public_values_memory pv)
    ∙ omega (arith, i.genesis_length, i.tip_length, i.work_length, i.digest_length)

-- Public values whose fields fit their types are read back from their 169 bytes unchanged.
pub parse_minimal-public_values_to_bytes :
    (pv : MinimalPublicValues)
    → IsPublicValues pv
    → parse_minimal (public_values_to_bytes pv) ≡ ok pv
unfolding parse_minimal
parse_minimal-public_values_to_bytes pv i =
    rw
      (
        (==_iff (length (public_values_to_bytes pv)) minimal_pv_size).1
            (length-public_values_to_bytes pv i),
        public_values_to_bytes_lem pv i,
        public_values_at_lem pv i,
      )
      refl

-- The byte of an error code names it.
try_from-as_byte : (c : ValidationErrorCode) → try_from (as_byte c) ≡ ok c
unfolding try_from as_byte
try_from-as_byte header_payload_length_invalid = refl
try_from-as_byte pow_insufficient = refl
try_from-as_byte timestamp_too_old = refl
try_from-as_byte genesis_hash_mismatch = refl

as_byte_ne : (c : ValidationErrorCode) → (as_byte c == 0) ≡ false
unfolding as_byte
as_byte_ne header_payload_length_invalid = refl
as_byte_ne pow_insufficient = refl
as_byte_ne timestamp_too_old = refl
as_byte_ne genesis_hash_mismatch = refl

length-to_le_bytes : (x : U256) → length (U256.to_le_bytes x) ≡ 32
length-to_le_bytes x = ap length (to_le_bytes-memory x) ∙ length-memory x

work_lem : (x : U256) → IsU256 x → U256.from_le_bytes (U256.to_le_bytes x) ≡ x
work_lem x h = ap U256.from_le_bytes (to_le_bytes-memory x) ∙ from_le_bytes-memory x h

pub success-IsPublicValues :
    (c : Claim) (digest key : List ℕ)
    → IsClaim c
    → length digest ≡ 32
    → length key ≡ 8
    → All IsU32 key
    → IsPublicValues (success c digest key)
unfolding success
success-IsPublicValues c digest key i d k w = record {
  genesis_length = i.genesis_length;
  tip_length = i.tip_length;
  work_length = length-to_le_bytes c.chain_work;
  height_fits = i.height_fits;
  failure_fits = omega arith;
  digest_length = d;
  key_length = k;
  key_fits = w;
}

-- For a claim, a failure height, a digest and a key that fit their types: the bytes committed to
-- for a success parse to the success with this claim, digest and key, and those for a failure to
-- the failure with its code and height as well.
pub parse_public_values_lem :
    (c : Claim) (code : ValidationErrorCode) (height : ℕ) (digest key : List ℕ)
    → IsClaim c
    → height < 2 ^ 32
    → length digest ≡ 32
    → length key ≡ 8
    → All IsU32 key
    → (parse_public_values (public_values_to_bytes (success c digest key))
        ≡ ok (succeeded c digest key))
      × (parse_public_values (public_values_to_bytes (failure c code height digest key))
          ≡ ok (failed (record { error_code = code; failure_height = height }) c digest key))
unfolding success failure parse_public_values minimal_chain_work
parse_public_values_lem c code height digest key i small d k w = (
  rw
      (
        parse_public_values,
        parse_minimal-public_values_to_bytes (success c digest key)
            (success-IsPublicValues c digest key i d k w),
        work_lem c.chain_work i.work_fits,
      )
      refl,
  rw
      (
        parse_public_values,
        parse_minimal-public_values_to_bytes (failure c code height digest key) (record {
          genesis_length = i.genesis_length;
          tip_length = i.tip_length;
          work_length = length-to_le_bytes c.chain_work;
          height_fits = i.height_fits;
          failure_fits = small;
          digest_length = d;
          key_length = k;
          key_fits = w;
        }),
        as_byte_ne code,
        try_from-as_byte code,
        work_lem c.chain_work i.work_fits,
      )
      refl,
)
