-- ===== src/PublicValues.antt =====
-- What a proof commits to, of crates/core/src/lib.rs: `ValidationErrorCode` as a byte, the 169 bytes
-- of `MinimalPublicValues`, and the parsed `HeaderChainPublicValues`.
pub mod RoundTrip
use zkpow.Prelude.{
  ℕ, List, [], ◌∷◌, Result, ok, err, Option, none, some, length, get_or, replicate, ◌+◌, ◌==◌,
  if◌then◌else◌,
}
use zkpow.Bytes.{le_bytes, from_le, slice, put_all}
use zkpow.U256
use zkpow.U256.{U256}
use zkpow.Claim.{Claim, verifier_key_to_bytes, verifier_key_from_bytes}
use zkpow.Chain.{
  ValidationErrorCode, header_payload_length_invalid, pow_insufficient, timestamp_too_old,
  genesis_hash_mismatch,
}

-- `ValidationErrorCode::as_byte`
unfoldable pub as_byte : ValidationErrorCode → ℕ
as_byte header_payload_length_invalid = 1
as_byte pow_insufficient = 2
as_byte timestamp_too_old = 3
as_byte genesis_hash_mismatch = 4

pub data PublicValuesParseError : Type 0 where
  invalid_length : ℕ → PublicValuesParseError
  unknown_error_code : ℕ → PublicValuesParseError

-- `ValidationErrorCode::try_from`
unfoldable pub try_from : ℕ → Result PublicValuesParseError ValidationErrorCode
try_from value =
    if value == 1
    then ok header_payload_length_invalid
    else if value == 2
    then ok pow_insufficient
    else if value == 3
    then ok timestamp_too_old
    else if value == 4
    then ok genesis_hash_mismatch
    else err (unknown_error_code value)

pub record MinimalPublicValues : Type 0 where
  pub genesis_hash : List ℕ
  pub tip_hash : List ℕ
  pub chain_work : List ℕ
  pub height : ℕ
  pub return_code : ℕ
  pub failure_height : ℕ
  pub continuation_digest : List ℕ
  pub verifier_key : List ℕ

abbrev pub minimal_pv_size : ℕ
minimal_pv_size = 32 + 32 + 32 + 4 + 1 + 4 + 32 + 32

-- `MinimalPublicValues::success`
unfoldable pub success : Claim → List ℕ → List ℕ → MinimalPublicValues
success claim continuation_digest verifier_key = record {
  genesis_hash = claim.genesis_hash;
  tip_hash = claim.tip_hash;
  chain_work = U256.to_le_bytes claim.chain_work;
  height = claim.height;
  return_code = 0;
  failure_height = 0;
  continuation_digest = continuation_digest;
  verifier_key = verifier_key;
}

-- `MinimalPublicValues::failure`
unfoldable pub failure : Claim → ValidationErrorCode → ℕ → List ℕ → List ℕ → MinimalPublicValues
failure claim error_code failure_height continuation_digest verifier_key = record {
  genesis_hash = claim.genesis_hash;
  tip_hash = claim.tip_hash;
  chain_work = U256.to_le_bytes claim.chain_work;
  height = claim.height;
  return_code = as_byte error_code;
  failure_height = failure_height;
  continuation_digest = continuation_digest;
  verifier_key = verifier_key;
}

-- The slices that `MinimalPublicValues::to_bytes` writes.
abbrev pub public_values_fields : MinimalPublicValues → List (ℕ × List ℕ)
public_values_fields pv =
    (0, pv.genesis_hash)
    ∷ (32, pv.tip_hash)
    ∷ (64, pv.chain_work)
    ∷ (96, le_bytes 4 pv.height)
    ∷ (100, pv.return_code ∷ [])
    ∷ (101, le_bytes 4 pv.failure_height)
    ∷ (105, pv.continuation_digest)
    ∷ (137, verifier_key_to_bytes pv.verifier_key)
    ∷ []

-- `MinimalPublicValues::to_bytes`
unfoldable pub public_values_to_bytes : MinimalPublicValues → List ℕ
public_values_to_bytes pv = put_all (public_values_fields pv) (replicate minimal_pv_size 0)

-- The fields that `MinimalPublicValues::parse` reads.
unfoldable pub public_values_at : List ℕ → MinimalPublicValues
public_values_at bytes = record {
  genesis_hash = slice 0 32 bytes;
  tip_hash = slice 32 64 bytes;
  chain_work = slice 64 96 bytes;
  height = from_le (slice 96 100 bytes);
  return_code = get_or bytes 100 0;
  failure_height = from_le (slice 101 105 bytes);
  continuation_digest = slice 105 137 bytes;
  verifier_key = verifier_key_from_bytes (slice 137 169 bytes);
}

-- `MinimalPublicValues::parse`
unfoldable pub parse_minimal : List ℕ → Result PublicValuesParseError MinimalPublicValues
parse_minimal bytes =
    if length bytes == minimal_pv_size
    then ok (public_values_at bytes)
    else err (invalid_length (length bytes))

-- `MinimalPublicValues::chain_work`
unfoldable pub minimal_chain_work : MinimalPublicValues → U256
minimal_chain_work pv = U256.from_le_bytes pv.chain_work

-- `MinimalPublicValues::error_code`
unfoldable pub minimal_error_code :
    MinimalPublicValues → Option (Result PublicValuesParseError ValidationErrorCode)
minimal_error_code pv = if pv.return_code == 0 then none else some (try_from pv.return_code)

pub record ProofFailure : Type 0 where
  pub error_code : ValidationErrorCode
  pub failure_height : ℕ

pub data HeaderChainPublicValues : Type 0 where
  succeeded : Claim → List ℕ → List ℕ → HeaderChainPublicValues
  failed : ProofFailure → Claim → List ℕ → List ℕ → HeaderChainPublicValues

-- `HeaderChainPublicValues::parse`
unfoldable pub parse_public_values : List ℕ → Result PublicValuesParseError HeaderChainPublicValues
parse_public_values bytes = elim (parse_minimal bytes) [
  | err e ↦ err e
  | ok pv ↦
      let claim : Claim = record {
        genesis_hash = pv.genesis_hash;
        tip_hash = pv.tip_hash;
        chain_work = minimal_chain_work pv;
        height = pv.height;
      } in
      if pv.return_code == 0
      then ok (succeeded claim pv.continuation_digest pv.verifier_key)
      else elim (try_from pv.return_code) [
        | err e ↦ err e
        | ok error_code ↦ ok (
            failed (record { error_code = error_code; failure_height = pv.failure_height }) claim
              pv.continuation_digest pv.verifier_key)
      ]
]

-- `HeaderChainPublicValues::claim`, `continuation_digest` and `verifier_key`
unfoldable pub claim_of : HeaderChainPublicValues → Claim
claim_of (succeeded claim digest key) = claim
claim_of (failed failure claim digest key) = claim

unfoldable pub continuation_digest_of : HeaderChainPublicValues → List ℕ
continuation_digest_of (succeeded claim digest key) = digest
continuation_digest_of (failed failure claim digest key) = digest

unfoldable pub verifier_key_of : HeaderChainPublicValues → List ℕ
verifier_key_of (succeeded claim digest key) = key
verifier_key_of (failed failure claim digest key) = key
