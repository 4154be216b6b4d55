-- ===== src/Chain/Rules.antt =====
-- The consensus rules that a segment of headers has to obey, as a step relation on states, stated
-- without the code's loop: they ask for the median of the sorted window, and compare numbers, not
-- limbs.
use zkpow.Prelude.{
  set, if◌then◌else◌, ◌==◌, ℕ, ◌+◌, ◌/◌, ◌%◌, ◌^◌, ◌≤◌, ◌<◌, ◌≡◌, List, [], ◌∷◌, true, false,
  length, All,
}
use zkpow.U256
use zkpow.U256.{U256, IsU256, value}
use zkpow.Bytes.{IsByte}
use zkpow.Header.{Header, NewHeader, into_header}
use zkpow.State.{State, window_size}
use zkpow.Median.{median_time_past}
use zkpow.Target.{calculate_next_target_required, genesis_target}
use zkpow.Chain.{
  Epoch, ValidationErrorCode, pow_insufficient, timestamp_too_old, is_boundary, previous_timestamp,
}

-- What a hash is: 32 bytes.
abbrev pub IsHash : (Header → List ℕ) → Type 0
IsHash hash_header = (b : Header) → All IsByte (hash_header b) × (length (hash_header b) ≡ 32)

-- What every state of a run satisfies.
pub record IsState (s : State) : Type 0 where
  pub window_full : length s.timestamps ≡ window_size
  pub target_fits : IsU256 s.current_target
  pub target_bound : value s.current_target ≤ value genesis_target

-- The difficulty of the block after `s`: at the end of an epoch the retarget, with the work of the
-- new target; else what holds in `s`.
pub data Difficulty (s : State) : Epoch → Type 0 where
  same :
      is_boundary s ≡ false
      → Difficulty s
          (record { nbits = s.current_nbits; target = s.current_target; work = s.current_work })
  retarget :
      (e : Epoch)
      → is_boundary s ≡ true
      → (e.nbits, e.target)
        ≡ calculate_next_target_required s.current_target s.epoch_start_timestamp
            (previous_timestamp s)
      → IsU256 e.work
      → value e.work ≡ 2 ^ 256 / (value e.target + 1) % 2 ^ 256
      → Difficulty s e

module _ (hash_header : Header → List ℕ) where
  abbrev pub block_of : State → Epoch → NewHeader → Header
  block_of s e h = into_header h s.block_hash e.nbits

  -- A header that the rules allow after `s`, and the state that it leads to, field by field.
  pub record Accepts (s : State) (h : NewHeader) (t : State) : Type 0 where
    pub epoch : Epoch
    pub difficulty : Difficulty s epoch
    pub after_median : median_time_past s < h.timestamp
    pub proof_of_work :
        value (U256.from_le_bytes (hash_header (block_of s epoch h))) ≤ value epoch.target
    pub header : t.header ≡ block_of s epoch h
    pub block_hash : t.block_hash ≡ hash_header (block_of s epoch h)
    pub genesis_hash : t.genesis_hash ≡ s.genesis_hash
    pub height : t.height ≡ (s.height + 1) % 2 ^ 32
    pub work_fits : IsU256 t.chain_work
    pub work_added : value t.chain_work ≡ (value s.chain_work + value epoch.work) % 2 ^ 256
    pub current_nbits : t.current_nbits ≡ epoch.nbits
    pub current_target : t.current_target ≡ epoch.target
    pub current_work : t.current_work ≡ epoch.work
    pub epoch_start :
        t.epoch_start_timestamp
        ≡ (if (s.height + 1) % 2 ^ 32 % 2016 == 0 then h.timestamp else s.epoch_start_timestamp)
    pub timestamps :
        t.timestamps ≡ set s.timestamps ((s.height + 1) % 2 ^ 32 % window_size) h.timestamp

  -- Headers accepted one after the other.
  pub data Follows : State → List NewHeader → State → Type 0 where
    done : (s : State) → Follows s [] s
    step :
        {s u t : State} {h : NewHeader} {hs : List NewHeader}
        → Accepts s h u
        → Follows u hs t
        → Follows s (h ∷ hs) t

  -- Why a header is not allowed after `s`.
  pub data Violates (s : State) (h : NewHeader) : ValidationErrorCode → Type 0 where
    too_old : h.timestamp ≤ median_time_past s → Violates s h timestamp_too_old
    too_easy :
        (e : Epoch)
        → Difficulty s e
        → value e.target < value (U256.from_le_bytes (hash_header (block_of s e h)))
        → Violates s h pow_insufficient
