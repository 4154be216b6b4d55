-- ===== src/Memory/Allocation/Interleaving.antt =====
-- The operations of several threads on one `AllocationTracker` of
-- crates/memory-usage/src/allocation.rs. `record_alloc` and `record_realloc` change the live count in
-- one atomic step and raise the peak in another, and between the two other threads may do theirs.
use zkpow.Prelude.{
  ℕ, ◌+◌, ◌-◌, ◌%◌, ◌^◌, ◌≤◌, ◌<◌, ◌≡◌, refl, ap, ◌∙◌, max, arith, List, [], ◌∷◌, ◌++◌,
}
use zkpow.Memory.Allocation.{
  AllocationTracker, new_tracker, read_live_bytes, read_peak_bytes, at_least_zero, i64_max,
  fetch_add, fetch_sub, fetch_max, add_to_live, size_change, record_alloc, record_dealloc,
  record_realloc,
}

-- A tracker, with the counts that threads between their two steps have still to compare the peak with.
pub record Tracking : Type 0 where
  pub tracker : AllocationTracker
  pub pending : List ℕ

unfoldable pub new_tracking : Tracking
new_tracking = record { tracker = new_tracker; pending = [] }

-- The first step of an operation that raises the peak in its second.
unfoldable pub begin_change : Tracking → ℕ → Tracking
begin_change s delta =
    let added = add_to_live s.tracker delta in
    record { tracker = added.0; pending = added.1 ∷ s.pending }

unfoldable pub free : Tracking → ℕ → Tracking
free s size = record s { tracker = record_dealloc s.tracker size }

unfoldable pub latest : List ℕ → ℕ
latest [] = 0
latest (live ∷ _) = live

unfoldable pub greatest : List ℕ → ℕ
greatest [] = 0
greatest (live ∷ earlier) = max live (greatest earlier)

-- What the threads do, in the order of their atomic steps, with the number of bytes that are live
-- after each, the latest first. A caller frees no more than is live, and what is live fits an `i64`.
pub data Run : List ℕ → Tracking → Type 0 where
  starts : Run (0 ∷ []) new_tracking
  allocates :
      {lives : List ℕ} {s : Tracking} (size : ℕ)
      → latest lives + size < 2 ^ 63
      → Run lives s
      → Run ((latest lives + size) ∷ lives) (begin_change s size)
  frees :
      {lives : List ℕ} {s : Tracking} (size : ℕ)
      → size ≤ latest lives
      → Run lives s
      → Run ((latest lives - size) ∷ lives) (free s size)
  resizes :
      {lives : List ℕ} {s : Tracking} (old_size new_size : ℕ)
      → old_size ≤ latest lives
      → latest lives - old_size + new_size < 2 ^ 63
      → Run lives s
      → Run
          ((latest lives - old_size + new_size) ∷ lives)
          (begin_change s (size_change old_size new_size))
  compares :
      {lives : List ℕ} {s : Tracking} (before after : List ℕ) (live : ℕ)
      → s.pending ≡ before ++ live ∷ after
      → Run lives s
      → Run lives (record { tracker = fetch_max s.tracker live; pending = before ++ after })

-- A thread that no other interrupts.
unfoldable alone : AllocationTracker → Tracking
alone t = record { tracker = t; pending = [] }

record_alloc-Run :
    {lives : List ℕ} (t : AllocationTracker) (size : ℕ)
    → latest lives + size < 2 ^ 63
    → Run lives (alone t)
    → Run ((latest lives + size) ∷ lives) (alone (record_alloc t size))
unfolding alone record_alloc begin_change
record_alloc-Run {lives} t size lt r =
    compares [] [] (add_to_live t size).1 refl (allocates size lt r)

record_realloc-Run :
    {lives : List ℕ} (t : AllocationTracker) (old_size new_size : ℕ)
    → old_size ≤ latest lives
    → latest lives - old_size + new_size < 2 ^ 63
    → Run lives (alone t)
    → Run
        ((latest lives - old_size + new_size) ∷ lives)
        (alone (record_realloc t old_size new_size))
unfolding alone record_realloc begin_change
record_realloc-Run {lives} t old_size new_size le lt r =
    compares [] [] (add_to_live t (size_change old_size new_size)).1 refl
      (resizes old_size new_size le lt r)

-- What holds after each step.
record Exact (lives : List ℕ) (s : Tracking) : Type 0 where
  live_exact : s.tracker.live_bytes ≡ latest lives
  peak_exact : max s.tracker.peak_bytes (greatest s.pending) ≡ greatest lives
  bounded : greatest lives < 2 ^ 63

latest-le : (lives : List ℕ) → latest lives ≤ greatest lives
unfolding latest greatest
latest-le [] = omega arith
latest-le (live ∷ earlier) = omega arith

greatest-insert :
    (before after : List ℕ) (live : ℕ)
    → greatest (before ++ live ∷ after) ≡ max live (greatest (before ++ after))
unfolding greatest
greatest-insert [] after live = refl
greatest-insert (b ∷ before) after live =
    let rest = greatest-insert before after live in omega arith

-- Below the sign bit, the order of two `i64` is that of numbers.
i64_max_lem : (x y : ℕ) → x < 2 ^ 63 → y < 2 ^ 63 → i64_max x y ≡ max x y
i64_max_lem x y x-lt y-lt = ground arith

at_least_zero_lem : (x : ℕ) → x < 2 ^ 63 → at_least_zero x ≡ x
at_least_zero_lem x lt = ground arith

-- A change of the live count by `delta`, that leads from `latest lives` to `live`.
change-Exact :
    (lives : List ℕ) (s : Tracking) (delta live : ℕ)
    → (latest lives + delta) % 2 ^ 64 ≡ live
    → live < 2 ^ 63
    → Exact lives s
    → Exact (live ∷ lives) (begin_change s delta)
unfolding begin_change add_to_live fetch_add latest greatest
change-Exact lives s delta live e lt exact =
    let count = ap (λ l. (l + delta) % 2 ^ 64) exact.live_exact ∙ e in
    record {
      live_exact = count;
      peak_exact = let p = exact.peak_exact in omega arith;
      bounded = let b = exact.bounded in omega arith;
    }

change_lem : (live delta : ℕ) → live + delta < 2 ^ 63 → (live + delta) % 2 ^ 64 ≡ live + delta
change_lem live delta lt = omega arith

resize_lem :
    (live old_size new_size : ℕ)
    → old_size ≤ live
    → live < 2 ^ 63
    → live - old_size + new_size < 2 ^ 63
    → (live + size_change old_size new_size) % 2 ^ 64 ≡ live - old_size + new_size
unfolding size_change
resize_lem live old_size new_size le live-lt lt = omega arith

free-Exact :
    (lives : List ℕ) (s : Tracking) (size : ℕ)
    → size ≤ latest lives
    → Exact lives s
    → Exact ((latest lives - size) ∷ lives) (free s size)
unfolding free record_dealloc fetch_sub latest greatest
free-Exact lives s size le exact =
    let count = exact.live_exact in
    let b = exact.bounded in
    let p = exact.peak_exact in
    let l = latest-le lives in
    record { live_exact = omega arith; peak_exact = omega arith; bounded = omega arith }

compare-Exact :
    (lives : List ℕ) (s : Tracking) (before after : List ℕ) (live : ℕ)
    → s.pending ≡ before ++ live ∷ after
    → Exact lives s
    → Exact lives (record { tracker = fetch_max s.tracker live; pending = before ++ after })
unfolding fetch_max
compare-Exact lives s before after live e exact =
    let found = ap greatest e ∙ greatest-insert before after live in
    let p = exact.peak_exact in
    let b = exact.bounded in
    let raised = i64_max_lem s.tracker.peak_bytes live (omega arith) (omega arith) in
    record { live_exact = exact.live_exact; peak_exact = omega arith; bounded = b }

run-Exact : {lives : List ℕ} {s : Tracking} → Run lives s → Exact lives s
unfolding new_tracking new_tracker latest greatest
run-Exact starts = record { live_exact = refl; peak_exact = refl; bounded = omega arith }
run-Exact (allocates {lives} {s} size lt r) =
    change-Exact lives s size (latest lives + size) (change_lem (latest lives) size lt) lt
      (run-Exact r)
run-Exact (frees {lives} {s} size le r) = free-Exact lives s size le (run-Exact r)
run-Exact (resizes {lives} {s} old_size new_size le lt r) =
    let exact = run-Exact r in
    let b = exact.bounded in
    let l = latest-le lives in
    change-Exact lives s (size_change old_size new_size) (latest lives - old_size + new_size)
      (resize_lem (latest lives) old_size new_size le (omega arith) lt) lt exact
run-Exact (compares {lives} {s} before after live e r) =
    compare-Exact lives s before after live e (run-Exact r)

-- At every point of a run, in which callers free no more than is live and what is live fits an `i64`,
-- and however the atomic steps of the threads follow on each other: the live count that is read is
-- exact, and the greatest of the peak that is read and of the counts that threads have still to
-- compare it with is the most that was ever live.
pub counters_exact :
    {lives : List ℕ} {s : Tracking}
    → Run lives s
    → (read_live_bytes s.tracker ≡ latest lives)
      × (max (read_peak_bytes s.tracker) (greatest s.pending) ≡ greatest lives)
unfolding read_live_bytes read_peak_bytes
counters_exact {lives} {s} r =
    let exact = run-Exact r in
    let p = exact.peak_exact in
    let b = exact.bounded in
    let l = latest-le lives in
    let count = exact.live_exact in
    let live = at_least_zero_lem s.tracker.live_bytes (omega arith) in
    let peak = at_least_zero_lem s.tracker.peak_bytes (omega arith) in
    (live ∙ count, ap (λ m. max m (greatest s.pending)) peak ∙ p)
