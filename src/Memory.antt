-- ===== src/Memory.antt =====
-- The memory accounting of crates/memory-usage: the table of samples of stages.rs, and the counters of
-- allocation.rs. A stage's label is its bytes; the tables' text is not modelled. An `i64` is its 64 bits.
pub mod Allocation
use zkpow.Prelude.{
  ℕ, ◌+◌, ◌-◌, ◌%◌, ◌^◌, List, [], ◌∷◌, ◌++◌, Option, none, some, Result, ok, err, length,
  get_elem?, ◌==◌, if◌then◌else◌, true, false,
}

pub record StageSample : Type 0 where
  pub rss_kb : ℕ
  pub live_kb : ℕ

pub data StageMetric : Type 0 where
  rss : StageMetric
  live : StageMetric

-- `StageMetric::value`
unfoldable pub metric_value : StageMetric → StageSample → ℕ
metric_value rss sample = sample.rss_kb
metric_value live sample = sample.live_kb

pub record StageCountMismatch : Type 0 where
  pub expected : ℕ
  pub actual : ℕ

pub record StageHistory : Type 0 where
  pub stage_labels : List (List ℕ)
  pub rows : List (List StageSample)

unfoldable pub new_history : List (List ℕ) → StageHistory
new_history labels = record { stage_labels = labels; rows = [] }

unfoldable pub iterations : StageHistory → ℕ
iterations h = length h.rows

unfoldable pub sample : StageHistory → ℕ → ℕ → Option StageSample
sample h iteration stage_index = elim (get_elem? h.rows iteration) [
  | none ↦ none
  | some row ↦ get_elem? row stage_index
]

unfoldable pub push_iteration :
    StageHistory → List StageSample → Result StageCountMismatch StageHistory
push_iteration h row = elim (length row == length h.stage_labels) [
  | true ↦ ok (record h { rows = h.rows ++ (row ∷ []) })
  | false ↦ err (record { expected = length h.stage_labels; actual = length row })
]

-- The difference of two samples, as an `i64`.
abbrev pub i64_difference : ℕ → ℕ → ℕ
i64_difference last first = (last % 2 ^ 64 + 2 ^ 64 - first % 2 ^ 64) % 2 ^ 64

unfoldable pub baseline_delta : StageHistory → StageMetric → ℕ → Option ℕ
unfolding sample iterations metric_value
baseline_delta h metric stage_index = elim (sample h 0 stage_index) [
  | none ↦ none
  | some first ↦ elim (iterations h == 0) [
    | true ↦ none
    | false ↦ elim (sample h (iterations h - 1) stage_index) [
      | none ↦ none
      | some last ↦ some (i64_difference (metric_value metric last) (metric_value metric first))
    ]
  ]
]
