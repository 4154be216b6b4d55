-- ===== src/Claim/RoundTrip.antt =====
-- Claims, continuation data and verifier keys written and read back.
use zkpow.Prelude.{
  ℕ, ◌^◌, ◌<◌, ◌≡◌, refl, sym, ap, ◌∙◌, arith, List, [], ◌∷◌, ◌++◌, length, All, ok, ==_iff,
  append-nil, take,
}
use zkpow.Bytes.{le_bytes, concat, words_memory, word_fields, read_words, check_exact_len}
use zkpow.Bytes.Le.{length-le_bytes}
use zkpow.Bytes.Layout.{concat-split, slice-concat, length-concat, put_all_lem}
use zkpow.Bytes.Words.{
  IsU32, contents-word_fields, word_fields-Consecutive, read_words_lem, length-words_memory,
}
use zkpow.U256
use zkpow.U256.{U256, IsU256}
use zkpow.U256.Bytes.{length-memory, from_le_bytes-memory}
use zkpow.Header.RoundTrip.{word-concat}
use zkpow.Claim.{
  verifier_key_to_bytes, verifier_key_from_bytes, Claim, claim_fields, claim_to_bytes, claim_at,
  parse_claim, ContinuationData, continuation_fields, continuation_to_bytes, continuation_at,
  parse_continuation,
}

-- The words of a key in memory.
verifier_key_to_bytes_lem :
    (ws : List ℕ) → length ws ≡ 8 → verifier_key_to_bytes ws ≡ words_memory ws
unfolding verifier_key_to_bytes
verifier_key_to_bytes_lem ws h =
    put_all_lem (word_fields 0 0 ws) 32 (word_fields-Consecutive 0 0 0 32 ws refl (omega arith))
    ∙ contents-word_fields 0 0 ws

-- A verifier key of eight `u32` words is read back from its bytes.
pub verifier_key_from_bytes-verifier_key_to_bytes :
    (ws : List ℕ)
    → length ws ≡ 8
    → All IsU32 ws
    → verifier_key_from_bytes (verifier_key_to_bytes ws) ≡ ws
unfolding verifier_key_from_bytes
verifier_key_from_bytes-verifier_key_to_bytes ws h k =
    ap (read_words 0 0 8) (verifier_key_to_bytes_lem ws h ∙ sym (append-nil (words_memory ws)))
    ∙ read_words_lem 0 0 8 [] ws [] refl h k

pub length-verifier_key_to_bytes :
    (ws : List ℕ) → length ws ≡ 8 → length (verifier_key_to_bytes ws) ≡ 32
length-verifier_key_to_bytes ws h =
    ap length (verifier_key_to_bytes_lem ws h) ∙ omega (arith, length-words_memory ws)

-- What the types of a claim's fields guarantee.
pub record IsClaim (c : Claim) : Type 0 where
  pub genesis_length : length c.genesis_hash ≡ 32
  pub tip_length : length c.tip_hash ≡ 32
  pub work_fits : IsU256 c.chain_work
  pub height_fits : c.height < 2 ^ 32

abbrev claim_memory : Claim → List (List ℕ)
claim_memory c = c.genesis_hash ∷ c.tip_hash ∷ U256.memory c.chain_work ∷ le_bytes 4 c.height ∷ []

claim_to_bytes_lem : (c : Claim) → IsClaim c → claim_to_bytes c ≡ concat (claim_memory c)
unfolding claim_to_bytes
claim_to_bytes_lem c i = put_all_lem (claim_fields c) 100 (
    omega (
      arith,
      length-memory c.chain_work,
      length-le_bytes 4 c.height,
      i.genesis_length,
      i.tip_length,
    ))

pub length-claim_to_bytes : (c : Claim) → IsClaim c → length (claim_to_bytes c) ≡ 100
length-claim_to_bytes c i =
    ap length (claim_to_bytes_lem c i)
    ∙ length-concat (claim_memory c)
    ∙ omega (
      arith,
      length-memory c.chain_work,
      length-le_bytes 4 c.height,
      i.genesis_length,
      i.tip_length,
    )

claim_at_lem : (c : Claim) → IsClaim c → claim_at (concat (claim_memory c)) ≡ c
unfolding claim_at
claim_at_lem c i =
    let w = length-memory c.chain_work in
    let h = length-le_bytes 4 c.height in
    let a = i.genesis_length in
    let b = i.tip_length in
    rw
      (
        slice-concat 0 0 32 (claim_memory c) (omega arith) (omega arith),
        slice-concat 1 32 64 (claim_memory c) (omega arith) (omega arith),
        slice-concat 2 64 96 (claim_memory c) (omega arith) (omega arith),
        from_le_bytes-memory c.chain_work i.work_fits,
        word-concat 3 96 100 c.height (claim_memory c) (omega arith) refl refl i.height_fits,
      )
      refl

-- A claim whose fields fit their types is read back from its 100 bytes unchanged.
pub parse_claim-claim_to_bytes : (c : Claim) → IsClaim c → parse_claim (claim_to_bytes c) ≡ ok c
unfolding parse_claim check_exact_len
parse_claim-claim_to_bytes c i =
    rw
      (
        parse_claim,
        (==_iff (length (claim_to_bytes c)) 100).1 (length-claim_to_bytes c i),
        claim_to_bytes_lem c i,
        claim_at_lem c i,
      )
      refl

-- What the types of the continuation data's fields guarantee.
pub record IsContinuation (c : ContinuationData) : Type 0 where
  pub nbits_fits : c.current_nbits < 2 ^ 32
  pub work_fits : IsU256 c.current_work
  pub target_fits : IsU256 c.current_target
  pub start_fits : c.epoch_start_timestamp < 2 ^ 32
  pub window_length : length c.timestamps ≡ 11
  pub window_fits : All IsU32 c.timestamps

abbrev continuation_memory : ContinuationData → List (List ℕ)
continuation_memory c =
    le_bytes 4 c.current_nbits
    ∷ U256.memory c.current_work
    ∷ U256.memory c.current_target
    ∷ le_bytes 4 c.epoch_start_timestamp
    ∷ words_memory c.timestamps
    ∷ []

module _ (c : ContinuationData) (window : length c.timestamps ≡ 11) where
  nbits : length (le_bytes 4 c.current_nbits) ≡ 4
  nbits = length-le_bytes 4 c.current_nbits

  work : length (U256.memory c.current_work) ≡ 32
  work = length-memory c.current_work

  target : length (U256.memory c.current_target) ≡ 32
  target = length-memory c.current_target

  start : length (le_bytes 4 c.epoch_start_timestamp) ≡ 4
  start = length-le_bytes 4 c.epoch_start_timestamp

  continuation_to_bytes_lem : continuation_to_bytes c ≡ concat (continuation_memory c)
  unfolding continuation_to_bytes
  continuation_to_bytes_lem =
      put_all_lem (continuation_fields c) 116 (
        refl,
        (
          omega (arith, nbits),
          (
            omega (arith, nbits, work),
            (
              omega (arith, nbits, work, target),
              word_fields-Consecutive 72 0 _ 116 c.timestamps
                  (omega (arith, nbits, work, target, start))
                  (omega (arith, nbits, work, target, start)),
            ),
          ),
        ),
      )
      ∙ ap
          (λ l.
            le_bytes 4 c.current_nbits
            ++ (U256.memory c.current_work
                ++ (U256.memory c.current_target ++ (le_bytes 4 c.epoch_start_timestamp ++ l))))
          (contents-word_fields 72 0 c.timestamps ∙ sym (append-nil (words_memory c.timestamps)))

  pub length-continuation_to_bytes : length (continuation_to_bytes c) ≡ 116
  length-continuation_to_bytes =
      ap length continuation_to_bytes_lem
      ∙ length-concat (continuation_memory c)
      ∙ omega (arith, nbits, work, target, start, length-words_memory c.timestamps)

  window_lem :
      All IsU32 c.timestamps → read_words 72 0 11 (concat (continuation_memory c)) ≡ c.timestamps
  window_lem fits =
      ap (read_words 72 0 11) (concat-split 4 (continuation_memory c))
      ∙ read_words_lem 72 0 11 (concat (take 4 (continuation_memory c))) c.timestamps []
          (length-concat (take 4 (continuation_memory c))
            ∙ omega (arith, nbits, work, target, start))
          window fits

continuation_at_lem :
    (c : ContinuationData) → IsContinuation c → continuation_at (concat (continuation_memory c)) ≡ c
unfolding continuation_at
continuation_at_lem c i =
    let n = length-le_bytes 4 c.current_nbits in
    let w = length-memory c.current_work in
    let t = length-memory c.current_target in
    rw
      (
        word-concat 0 0 4 c.current_nbits (continuation_memory c) refl refl refl i.nbits_fits,
        slice-concat 1 4 36 (continuation_memory c) (omega arith) (omega arith),
        from_le_bytes-memory c.current_work i.work_fits,
        slice-concat 2 36 68 (continuation_memory c) (omega arith) (omega arith),
        from_le_bytes-memory c.current_target i.target_fits,
        word-concat 3 68 72 c.epoch_start_timestamp (continuation_memory c) (omega arith) refl refl
            i.start_fits,
        window_lem c i.window_length i.window_fits,
      )
      refl

-- Continuation data whose fields fit their types is read back from its 116 bytes unchanged.
pub parse_continuation-continuation_to_bytes :
    (c : ContinuationData) → IsContinuation c → parse_continuation (continuation_to_bytes c) ≡ ok c
unfolding parse_continuation check_exact_len
parse_continuation-continuation_to_bytes c i =
    rw
      (
        parse_continuation,
        (==_iff (length (continuation_to_bytes c)) 116).1
            (length-continuation_to_bytes c i.window_length),
        continuation_to_bytes_lem c i.window_length,
        continuation_at_lem c i,
      )
      refl
