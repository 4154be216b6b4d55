-- ===== src/Witnesses/MemoryRuns.antt =====
-- A run of two threads on the allocation tracker of crates/memory-usage/src/allocation.rs.
use zkpow.Prelude.{ℕ, ◌≡◌, refl, max, arith, List, [], ◌∷◌}
use zkpow.Memory.Allocation.{
  new_tracker, read_live_bytes, read_peak_bytes, fetch_add, fetch_sub, fetch_max, add_to_live,
  size_change, record_dealloc,
}
use zkpow.Memory.Allocation.Interleaving.{
  Tracking, new_tracking, begin_change, free, latest, greatest, Run, starts, allocates, frees,
  resizes, compares, counters_exact,
}

-- One thread adds 16 bytes, another 40; the other compares first. The 40 are freed, and the 16 become
-- 8, before the first compares, with the 16 that it saw; the 8 are not compared yet.
abbrev two_threads : Tracking
two_threads = record {
  tracker =
      fetch_max
        (add_to_live
          (record_dealloc (fetch_max (add_to_live (add_to_live new_tracker 16).0 40).0 56) 40)
          (size_change 16 8)).0
        16;
  pending = 8 ∷ [];
}

abbrev two_threads_lives : List ℕ
two_threads_lives = 8 ∷ 16 ∷ 56 ∷ 16 ∷ 0 ∷ []

two_threads-Run : Run two_threads_lives two_threads
unfolding new_tracking new_tracker begin_change free latest add_to_live fetch_add size_change
    fetch_sub record_dealloc fetch_max
two_threads-Run = compares (8 ∷ []) [] 16 refl (
    resizes 16 8 (omega arith) (omega arith) (
      frees 40 (omega arith) (
        compares [] (16 ∷ []) 56 refl
          (allocates 40 (omega arith) (allocates 16 (omega arith) starts)))))

counters_exact_example :
    (read_live_bytes two_threads.tracker ≡ 8) × (max (read_peak_bytes two_threads.tracker) 8 ≡ 56)
unfolding latest greatest
counters_exact_example = counters_exact two_threads-Run
