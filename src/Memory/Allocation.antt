-- ===== src/Memory/Allocation.antt =====
-- `AllocationTracker` of crates/memory-usage/src/allocation.rs. Its counters are atomic: an operation
-- is the sequence of its atomic steps, and those of several threads interleave.
pub mod Allocator
pub mod Interleaving
use zkpow.Prelude.{ℕ, ◌+◌, ◌-◌, ◌/◌, ◌%◌, ◌^◌, ltb, if◌then◌else◌, Bool, leb}

pub record AllocationTracker : Type 0 where
  pub live_bytes : ℕ
  pub peak_bytes : ℕ

unfoldable pub new_tracker : AllocationTracker
new_tracker = record { live_bytes = 0; peak_bytes = 0 }

-- An `i64` below zero has its top bit set.
abbrev pub is_negative : ℕ → Bool
is_negative x = leb (2 ^ 63) x

-- `.max(0) as u64`
abbrev pub at_least_zero : ℕ → ℕ
at_least_zero x = if is_negative x then 0 else x

-- The order of two `i64`: that of their bits, the top one turned over.
abbrev pub i64_max : ℕ → ℕ → ℕ
i64_max x y = if ltb ((x + 2 ^ 63) % 2 ^ 64) ((y + 2 ^ 63) % 2 ^ 64) then y else x

-- The public reads.
unfoldable pub read_live_bytes : AllocationTracker → ℕ
read_live_bytes t = at_least_zero t.live_bytes

unfoldable pub read_peak_bytes : AllocationTracker → ℕ
read_peak_bytes t = at_least_zero t.peak_bytes

unfoldable pub live_kb : AllocationTracker → ℕ
live_kb t = read_live_bytes t / 1024

unfoldable pub peak_kb : AllocationTracker → ℕ
peak_kb t = read_peak_bytes t / 1024

-- `fetch_add`, with the value that it adds to beside the new state.
unfoldable pub fetch_add : AllocationTracker → ℕ → AllocationTracker × ℕ
fetch_add t delta = (record t { live_bytes = (t.live_bytes + delta) % 2 ^ 64 }, t.live_bytes)

unfoldable pub fetch_sub : AllocationTracker → ℕ → AllocationTracker
fetch_sub t delta = record t { live_bytes = (t.live_bytes + (2 ^ 64 - delta % 2 ^ 64)) % 2 ^ 64 }

unfoldable pub fetch_max : AllocationTracker → ℕ → AllocationTracker
fetch_max t value = record t { peak_bytes = i64_max t.peak_bytes value }

-- The first step of `record_alloc` and `record_realloc`, with the count that their second step
-- compares the peak with.
unfoldable pub add_to_live : AllocationTracker → ℕ → AllocationTracker × ℕ
add_to_live t delta = let added = fetch_add t delta in (added.0, (added.1 + delta) % 2 ^ 64)

-- `new_size as i64 - old_size as i64`
unfoldable pub size_change : ℕ → ℕ → ℕ
size_change old_size new_size = (new_size + (2 ^ 64 - old_size % 2 ^ 64)) % 2 ^ 64

-- The operations of one thread that no other interrupts.
unfoldable pub record_alloc : AllocationTracker → ℕ → AllocationTracker
record_alloc t size = let added = add_to_live t size in fetch_max added.0 added.1

unfoldable pub record_dealloc : AllocationTracker → ℕ → AllocationTracker
record_dealloc t size = fetch_sub t size

unfoldable pub record_realloc : AllocationTracker → ℕ → ℕ → AllocationTracker
record_realloc t old_size new_size =
    let added = add_to_live t (size_change old_size new_size) in fetch_max added.0 added.1
