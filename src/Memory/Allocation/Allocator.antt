-- ===== src/Memory/Allocation/Allocator.antt =====
-- `TrackingAllocator` of crates/memory-usage/src/allocation.rs: an allocator, a parameter, whose calls
-- are counted where they succeed. A null pointer is `none`.
use zkpow.Prelude.{ℕ, Option, none, some}
use zkpow.Memory.Allocation.{AllocationTracker, record_alloc, record_dealloc, record_realloc}

-- `std::alloc::Layout`
pub record Layout : Type 0 where
  pub size : ℕ
  pub align : ℕ

-- The calls of the allocator inside, on its state.
pub record GlobalAlloc (A : Type 0) : Type 0 where
  pub inner_alloc : A → Layout → A × Option ℕ
  pub inner_alloc_zeroed : A → Layout → A × Option ℕ
  pub inner_dealloc : A → ℕ → Layout → A
  pub inner_realloc : A → ℕ → Layout → ℕ → A × Option ℕ

pub record TrackingAllocator (A : Type 0) : Type 0 where
  pub inner : A
  pub tracker : AllocationTracker

-- `if !ptr.is_null() { .. }`
unfoldable pub unless_null : Option ℕ → AllocationTracker → AllocationTracker → AllocationTracker
unless_null none t counted = t
unless_null (some ptr) t counted = counted

module _ {A : Type 0} (calls : GlobalAlloc A) where
  unfoldable pub alloc : TrackingAllocator A → Layout → TrackingAllocator A × Option ℕ
  alloc self layout =
      let made = calls.inner_alloc self.inner layout in
      let counted = record_alloc self.tracker layout.size in
      (record { inner = made.0; tracker = unless_null made.1 self.tracker counted }, made.1)

  unfoldable pub alloc_zeroed : TrackingAllocator A → Layout → TrackingAllocator A × Option ℕ
  alloc_zeroed self layout =
      let made = calls.inner_alloc_zeroed self.inner layout in
      let counted = record_alloc self.tracker layout.size in
      (record { inner = made.0; tracker = unless_null made.1 self.tracker counted }, made.1)

  unfoldable pub dealloc : TrackingAllocator A → ℕ → Layout → TrackingAllocator A
  dealloc self ptr layout = record {
    inner = calls.inner_dealloc self.inner ptr layout;
    tracker = record_dealloc self.tracker layout.size;
  }

  unfoldable pub realloc : TrackingAllocator A → ℕ → Layout → ℕ → TrackingAllocator A × Option ℕ
  realloc self ptr layout new_size =
      let made = calls.inner_realloc self.inner ptr layout new_size in
      let counted = record_realloc self.tracker layout.size new_size in
      (record { inner = made.0; tracker = unless_null made.1 self.tracker counted }, made.1)
