-- ===== src/Witnesses/ByteForms.antt =====
-- The round trips and the digests at concrete values.
use zkpow.Prelude.{ℕ, ◌≡◌, refl, arith, List, [], ◌∷◌, replicate, length, All, ok}
use zkpow.Bytes.Words.{IsU32}
use zkpow.U256.{zero_u256}
use zkpow.Header.{header_to_bytes, header_at, parse_header}
use zkpow.Header.RoundTrip.{
  IsHeader, IsNewHeader, parse_header-header_to_bytes, header_to_bytes-header_at,
}
use zkpow.Claim.{
  Claim, ContinuationData, claim_to_bytes, parse_claim, continuation_to_bytes, parse_continuation,
  verifier_key_to_bytes, verifier_key_from_bytes,
}
use zkpow.Claim.RoundTrip.{
  IsClaim, IsContinuation, parse_claim-claim_to_bytes, parse_continuation-continuation_to_bytes,
  verifier_key_from_bytes-verifier_key_to_bytes,
}
use zkpow.State.{state_to_bytes, state_at, parse_state, continuation_bytes}
use zkpow.State.RoundTrip.{HasTypes, parse_state-state_to_bytes, state_to_bytes-state_at}
use zkpow.Input.{
  parse_new_headers, serialize_new_headers, parse_median_hints, serialize_median_hints,
  ProofCarryingState, parse_proof_carrying_state, proof_carrying_state_to_bytes,
}
use zkpow.Input.RoundTrip.{
  parse_new_headers-serialize_new_headers, parse_median_hints-serialize_median_hints,
  parse_proof_carrying_state-proof_carrying_state_to_bytes,
}
use zkpow.Chain.{pow_insufficient}
use zkpow.PublicValues.{
  MinimalPublicValues, success, failure, public_values_to_bytes, parse_minimal, parse_public_values,
  succeeded, failed,
}
use zkpow.PublicValues.RoundTrip.{
  IsPublicValues, parse_minimal-public_values_to_bytes, parse_public_values_lem,
}
use zkpow.Sha256.{sha256_32bytes, sha256_80bytes, sha256_116bytes, sha256_169bytes}
use zkpow.Sha256.Reference.{sha256, sha256_lengths_lem}
use zkpow.Guest.{hash_header, compute_continuation_digest}
use zkpow.Guest.Digests.{digests_lem}
use zkpow.Witnesses.{
  first_header, first_state, same_words, zero_state, accept_all, zeros-IsByte, zero_u256-IsU256,
}

first_state-IsHeader : IsHeader first_state.header
unfolding zkpow.Header.into_header
first_state-IsHeader = record {
  version_fits = omega arith;
  prev_length = refl;
  root_length = refl;
  timestamp_fits = omega arith;
  target_fits = omega arith;
  nonce_fits = omega arith;
}

window-IsU32 : All IsU32 first_state.timestamps
window-IsU32 = (
  omega arith,
  (
    omega arith,
    (
      omega arith,
      (
        omega arith,
        (
          omega arith,
          (
            omega arith,
            (omega arith, (omega arith, (omega arith, (omega arith, (omega arith, tt))))),
          ),
        ),
      ),
    ),
  ),
)

first_state-HasTypes : HasTypes first_state
first_state-HasTypes = record {
  header_fits = first_state-IsHeader;
  hash_length = refl;
  genesis_length = refl;
  nbits_fits = omega arith;
  height_fits = omega arith;
  chain_work_fits = zero_u256-IsU256;
  work_fits = zero_u256-IsU256;
  target_fits = zero_u256-IsU256;
  start_fits = omega arith;
  window_length = refl;
  window_fits = window-IsU32;
}

parse_header-header_to_bytes_example :
    parse_header (header_to_bytes first_state.header) ≡ ok first_state.header
parse_header-header_to_bytes_example =
    parse_header-header_to_bytes first_state.header first_state-IsHeader

header_to_bytes-header_at_example : header_to_bytes (header_at (replicate 80 0)) ≡ replicate 80 0
header_to_bytes-header_at_example =
    header_to_bytes-header_at (replicate 80 0) (zeros-IsByte 80) refl

parse_state-state_to_bytes_example : parse_state (state_to_bytes first_state) ≡ ok first_state
parse_state-state_to_bytes_example = parse_state-state_to_bytes first_state first_state-HasTypes

state_to_bytes-state_at_example : state_to_bytes (state_at (replicate 296 0)) ≡ replicate 296 0
state_to_bytes-state_at_example = state_to_bytes-state_at (replicate 296 0) (zeros-IsByte 296) refl

abbrev some_claim : Claim
some_claim = record {
  genesis_hash = replicate 32 1;
  tip_hash = replicate 32 2;
  chain_work = zero_u256;
  height = 77;
}

some_claim-IsClaim : IsClaim some_claim
some_claim-IsClaim = record {
  genesis_length = refl;
  tip_length = refl;
  work_fits = zero_u256-IsU256;
  height_fits = omega arith;
}

parse_claim-claim_to_bytes_example : parse_claim (claim_to_bytes some_claim) ≡ ok some_claim
parse_claim-claim_to_bytes_example = parse_claim-claim_to_bytes some_claim some_claim-IsClaim

abbrev some_continuation : ContinuationData
some_continuation = record {
  current_nbits = 9;
  current_work = zero_u256;
  current_target = zero_u256;
  epoch_start_timestamp = 3;
  timestamps = first_state.timestamps;
}

some_continuation-IsContinuation : IsContinuation some_continuation
some_continuation-IsContinuation = record {
  nbits_fits = omega arith;
  work_fits = zero_u256-IsU256;
  target_fits = zero_u256-IsU256;
  start_fits = omega arith;
  window_length = refl;
  window_fits = window-IsU32;
}

parse_continuation-continuation_to_bytes_example :
    parse_continuation (continuation_to_bytes some_continuation) ≡ ok some_continuation
parse_continuation-continuation_to_bytes_example =
    parse_continuation-continuation_to_bytes some_continuation some_continuation-IsContinuation

abbrev some_key : List ℕ
some_key = 1 ∷ 2 ∷ 3 ∷ 4 ∷ 5 ∷ 6 ∷ 7 ∷ 4294967295 ∷ []

some_key-IsU32 : All IsU32 some_key
some_key-IsU32 = (
  omega arith,
  (
    omega arith,
    (omega arith, (omega arith, (omega arith, (omega arith, (omega arith, (omega arith, tt)))))),
  ),
)

verifier_key_from_bytes-verifier_key_to_bytes_example :
    verifier_key_from_bytes (verifier_key_to_bytes some_key) ≡ some_key
verifier_key_from_bytes-verifier_key_to_bytes_example =
    verifier_key_from_bytes-verifier_key_to_bytes some_key refl some_key-IsU32

first_header-IsNewHeader : IsNewHeader first_header
first_header-IsNewHeader = record {
  version_fits = omega arith;
  root_length = refl;
  timestamp_fits = omega arith;
  nonce_fits = omega arith;
}

parse_new_headers-serialize_new_headers_example :
    parse_new_headers 4096 (serialize_new_headers (first_header ∷ first_header ∷ []))
    ≡ ok (first_header ∷ first_header ∷ [])
parse_new_headers-serialize_new_headers_example =
    parse_new_headers-serialize_new_headers 4096 (first_header ∷ first_header ∷ [])
      (first_header-IsNewHeader, (first_header-IsNewHeader, tt)) refl

parse_median_hints-serialize_median_hints_example :
    parse_median_hints 8 (serialize_median_hints (5 ∷ 6 ∷ [])) 2 ≡ ok (5 ∷ 6 ∷ [])
parse_median_hints-serialize_median_hints_example =
    parse_median_hints-serialize_median_hints 8 (5 ∷ 6 ∷ []) (omega arith, (omega arith, tt)) refl

abbrev some_values : MinimalPublicValues
some_values = record {
  genesis_hash = replicate 32 1;
  tip_hash = replicate 32 2;
  chain_work = replicate 32 3;
  height = 77;
  return_code = 2;
  failure_height = 78;
  continuation_digest = replicate 32 4;
  verifier_key = some_key;
}

some_values-IsPublicValues : IsPublicValues some_values
some_values-IsPublicValues = record {
  genesis_length = refl;
  tip_length = refl;
  work_length = refl;
  height_fits = omega arith;
  failure_fits = omega arith;
  digest_length = refl;
  key_length = refl;
  key_fits = some_key-IsU32;
}

parse_minimal-public_values_to_bytes_example :
    parse_minimal (public_values_to_bytes some_values) ≡ ok some_values
parse_minimal-public_values_to_bytes_example =
    parse_minimal-public_values_to_bytes some_values some_values-IsPublicValues

parse_public_values_lem_example :
    (parse_public_values (public_values_to_bytes (success some_claim (replicate 32 4) some_key))
      ≡ ok (succeeded some_claim (replicate 32 4) some_key))
    × (parse_public_values (
          public_values_to_bytes (failure some_claim pow_insufficient 78 (replicate 32 4) some_key))
        ≡ ok (
            failed
              (record { error_code = pow_insufficient; failure_height = 78 })
              some_claim
              (replicate 32 4)
              some_key))
parse_public_values_lem_example =
    parse_public_values_lem some_claim pow_insufficient 78 (replicate 32 4) some_key
      some_claim-IsClaim (omega arith) refl refl some_key-IsU32

abbrev some_bytes : List ℕ
some_bytes = replicate 80 7

sha256_lengths_lem_example :
    (length some_bytes ≡ 32
      → sha256_32bytes same_words zero_state some_bytes ≡ sha256 same_words zero_state some_bytes)
    × (length some_bytes ≡ 80
        → sha256_80bytes same_words zero_state some_bytes ≡ sha256 same_words zero_state some_bytes)
    × (length some_bytes ≡ 116
        → sha256_116bytes same_words zero_state some_bytes
          ≡ sha256 same_words zero_state some_bytes)
    × (length some_bytes ≡ 169
        → sha256_169bytes same_words zero_state some_bytes
          ≡ sha256 same_words zero_state some_bytes)
sha256_lengths_lem_example = sha256_lengths_lem same_words zero_state some_bytes

digests_lem_example :
    (hash_header same_words zero_state accept_all first_state.header
      ≡ sha256 same_words zero_state
          (sha256 same_words zero_state (header_to_bytes first_state.header)))
    × (compute_continuation_digest same_words zero_state accept_all first_state
        ≡ sha256 same_words zero_state (continuation_bytes first_state))
digests_lem_example =
    digests_lem same_words zero_state accept_all first_state.header first_state first_state-IsHeader
      first_state-HasTypes

abbrev some_pcs : ProofCarryingState
some_pcs = record {
  claim = some_claim;
  verifier_key = some_key;
  proof = record { public_values_digest = replicate 32 6; exit_code = 2; pad = replicate 3 0 };
}

parse_proof_carrying_state-proof_carrying_state_to_bytes_example :
    parse_proof_carrying_state (proof_carrying_state_to_bytes some_pcs) ≡ ok some_pcs
parse_proof_carrying_state-proof_carrying_state_to_bytes_example =
    parse_proof_carrying_state-proof_carrying_state_to_bytes some_pcs some_claim-IsClaim refl
      some_key-IsU32 (record { digest_length = refl; pad_length = refl })
