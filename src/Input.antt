-- ===== src/Input.antt =====
-- The guest's input, of crates/core/src/input.rs: the proof-carrying state, and the hints that come
-- beside it. A buffer that is cast to a slice has an address.
pub mod RoundTrip
use zkpow.Prelude.{
  ℕ, List, [], ◌∷◌, ◌++◌, ◌+◌, ◌-◌, ◌*◌, ◌/◌, ◌%◌, Result, ok, err, length, ◌==◌, if◌then◌else◌,
  get_or, replicate,
}
use zkpow.Bytes.{
  le_bytes, from_le, slice, concat, ParseError, check_exact_len, copy_from_bytes, slice_from_bytes,
}
use zkpow.Header.{NewHeader, new_header_size, new_header_to_bytes, new_header_at}
use zkpow.Claim.{
  Claim, claim_size, claim_to_bytes, parse_claim, verifier_key_to_bytes, verifier_key_from_bytes,
}

pub record Proof : Type 0 where
  pub public_values_digest : List ℕ
  pub exit_code : ℕ
  pub pad : List ℕ

-- `Proof::default`
abbrev pub default_proof : Proof
default_proof = record { public_values_digest = replicate 32 0; exit_code = 0; pad = replicate 3 0 }

pub record ProofCarryingState : Type 0 where
  pub claim : Claim
  pub verifier_key : List ℕ
  pub proof : Proof

-- `InputError` wraps a `ParseError` and nothing else.
pub data InputError : Type 0 where
  parse : ParseError → InputError

-- `NewHeaderHintError` and `MedianTimePastHintError`, which have the same constructors.
pub data HintError : Type 0 where
  payload_length_invalid : ℕ → ℕ → HintError
  hint_parse : ParseError → HintError

abbrev pub proof_size : ℕ
proof_size = 36

abbrev pub proof_fields : Proof → List (List ℕ)
proof_fields p = p.public_values_digest ∷ (p.exit_code ∷ []) ∷ p.pad ∷ []

-- `Proof::to_bytes`
unfoldable pub proof_to_bytes : Proof → List ℕ
proof_to_bytes p = concat (proof_fields p)

unfoldable pub proof_at : List ℕ → Proof
proof_at bytes = record {
  public_values_digest = slice 0 32 bytes;
  exit_code = get_or (slice 32 33 bytes) 0 0;
  pad = slice 33 36 bytes;
}

-- `map_err(InputError::from)`
abbrev pub input_error {ℓ} : {A : Type ℓ} → Result ParseError A → Result InputError A
input_error (ok a) = ok a
input_error (err e) = err (parse e)

abbrev pub hint_error {ℓ} : {A : Type ℓ} → Result ParseError A → Result HintError A
hint_error (ok a) = ok a
hint_error (err e) = err (hint_parse e)

-- `Proof::parse`
unfoldable pub parse_proof : List ℕ → Result InputError Proof
parse_proof bytes = input_error (copy_from_bytes proof_size proof_at bytes)

unfoldable pub serialize_new_headers : List NewHeader → List ℕ
serialize_new_headers [] = []
serialize_new_headers (h ∷ hs) = new_header_to_bytes h ++ serialize_new_headers hs

-- `len.div_ceil(size) * size`
abbrev pub round_up : ℕ → ℕ → ℕ
round_up len size = (len + size - 1) / size * size

-- The alignment of `NewHeader` and of `BlockTimestamp` is 4.
unfoldable pub parse_new_headers : ℕ → List ℕ → Result HintError (List NewHeader)
parse_new_headers address bytes =
    if length bytes % new_header_size == 0
    then hint_error (slice_from_bytes new_header_size 4 new_header_at address bytes)
    else err (payload_length_invalid (round_up (length bytes) new_header_size) (length bytes))

unfoldable pub serialize_median_hints : List ℕ → List ℕ
serialize_median_hints [] = []
serialize_median_hints (m ∷ ms) = le_bytes 4 m ++ serialize_median_hints ms

unfoldable pub parse_median_hints : ℕ → List ℕ → ℕ → Result HintError (List ℕ)
parse_median_hints address bytes expected_count =
    let expected_len = expected_count * 4 in
    if length bytes == expected_len
    then hint_error (slice_from_bytes 4 4 from_le address bytes)
    else err (payload_length_invalid expected_len (length bytes))

abbrev pub vk_wire_size : ℕ
vk_wire_size = 32

-- The claim's, the key's and the proof's bytes.
unfoldable pub split_pcs_wire : List ℕ → Result InputError (List ℕ × List ℕ × List ℕ)
split_pcs_wire bytes = elim (check_exact_len bytes (claim_size + vk_wire_size + proof_size)) [
  | err e ↦ err (parse e)
  | ok _ ↦ ok (
    slice 0 claim_size bytes,
    slice claim_size (claim_size + vk_wire_size) bytes,
    slice (claim_size + vk_wire_size) (length bytes) bytes,
  )
]

-- `ProofCarryingState::parse`
unfoldable pub parse_proof_carrying_state : List ℕ → Result InputError ProofCarryingState
parse_proof_carrying_state bytes = elim (split_pcs_wire bytes) [
  | err e ↦ err e
  | ok (claim_bytes, vk_bytes, proof_bytes) ↦ elim (input_error (parse_claim claim_bytes)) [
    | err e ↦ err e
    | ok claim ↦ elim (parse_proof proof_bytes) [
      | err e ↦ err e
      | ok proof ↦
          ok (record {
            claim = claim;
            verifier_key = verifier_key_from_bytes vk_bytes;
            proof = proof;
          })
    ]
  ]
]

-- `ProofCarryingState::to_bytes`
unfoldable pub proof_carrying_state_to_bytes : ProofCarryingState → List ℕ
proof_carrying_state_to_bytes pcs =
    claim_to_bytes pcs.claim ++ (verifier_key_to_bytes pcs.verifier_key ++ proof_to_bytes pcs.proof)
