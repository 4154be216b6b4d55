-- ===== src/Median.antt =====
-- `State::median_time_past_hinted` of crates/core/src/state.rs, and the median that the tests of
-- crates/core/src/lib.rs compute by sorting.
pub mod Sorted
use zkpow.Prelude.{
  ℕ, ◌+◌, ◌/◌, Bool, true, ◌&&◌, List, [], ◌∷◌, ltb, leb, ◌==◌, if◌then◌else◌, take, get_or,
}
use zkpow.State.{State, timestamp_count}

pub record Counts : Type 0 where
  pub less : ℕ
  pub equal : ℕ
  pub greater : ℕ

-- The loop over the window.
unfoldable pub count_loop : ℕ → List ℕ → Counts → Counts
count_loop claimed [] c = c
count_loop claimed (t ∷ ts) c = count_loop claimed ts (
    if ltb t claimed
    then record c { less = c.less + 1 }
    else if ltb claimed t
    then record c { greater = c.greater + 1 }
    else record c { equal = c.equal + 1 })

-- The check of the three counts against the window's length.
unfoldable pub check_counts : ℕ → Counts → Bool
check_counts window_len c =
    c.less + c.equal + c.greater == window_len
    && leb c.less (window_len / 2)
    && ltb (window_len / 2) (c.less + c.equal)

unfoldable pub median_time_past_hinted : State → ℕ → Bool
unfolding count_loop check_counts
median_time_past_hinted s claimed =
    let window_len = timestamp_count s in
    if window_len == 0
    then true
    else check_counts window_len (
        count_loop claimed (take window_len s.timestamps)
          (record { less = 0; equal = 0; greater = 0 }))

-- What sorting gives, whatever the algorithm: here by insertion.
unfoldable pub insert : ℕ → List ℕ → List ℕ
insert x [] = x ∷ []
insert x (y ∷ ys) = if leb x y then x ∷ y ∷ ys else y ∷ insert x ys

unfoldable pub sort : List ℕ → List ℕ
unfolding insert
sort [] = []
sort (x ∷ xs) = insert x (sort xs)

-- `median_time_past`
unfoldable pub median_time_past : State → ℕ
unfolding sort
median_time_past s = get_or (sort (take (timestamp_count s) s.timestamps)) (timestamp_count s / 2) 0
