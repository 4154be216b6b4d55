-- ===== src/Median/Sorted.antt =====
-- The counts decide the upper median: the check accepts one value, the one that sorting gives.
use zkpow.Prelude.{
  zero, take, get_or, false, Bool-cases, inl, inr, leb, length-take, ◌∙◌, ◌==◌, ℕ, suc, ◌+◌, ◌/◌,
  ◌≤◌, ◌<◌, ◌≡◌, refl, ◌↔◌, arith, List, [], ◌∷◌, true, length, All, if◌then◌else◌, ltb,
}
use native.Mathlib.Decide.{dec_lt, dec_le}
use zkpow.State.{State, timestamp_count, window_size}
use zkpow.Median.{
  median_time_past_hinted, median_time_past, Counts, count_loop, check_counts, insert, sort,
}

-- The elements below a value, and those up to it.
count_lt : ℕ → List ℕ → ℕ
count_lt c [] = 0
count_lt c (x ∷ xs) = (if ltb x c then 1 else 0) + count_lt c xs

count_le : ℕ → List ℕ → ℕ
count_le c [] = 0
count_le c (x ∷ xs) = (if ltb c x then 0 else 1) + count_le c xs

count_loop_lem :
    (c : ℕ) (xs : List ℕ) (k : Counts)
    → let r = count_loop c xs k in
      (r.less ≡ k.less + count_lt c xs)
      × (r.less + r.equal ≡ k.less + k.equal + count_le c xs)
      × (r.less + r.equal + r.greater ≡ k.less + k.equal + k.greater + length xs)
unfolding count_loop count_lt count_le
count_loop_lem c [] k = omega arith
count_loop_lem c (x ∷ xs) k = ground (
  arith,
  count_loop_lem c xs (record k { less = k.less + 1 }),
  count_loop_lem c xs (record k { greater = k.greater + 1 }),
  count_loop_lem c xs (record k { equal = k.equal + 1 }),
)

-- The check, in terms of the two counts.
check_lem :
    (c : ℕ) (xs : List ℕ)
    → (check_counts (length xs) (count_loop c xs (record { less = 0; equal = 0; greater = 0 }))
        ≡ true)
      ↔ ((count_lt c xs ≤ length xs / 2) × (length xs / 2 < count_le c xs))
unfolding check_counts
check_lem c xs = ground (arith, count_loop_lem c xs (record { less = 0; equal = 0; greater = 0 }))

-- An element up to `a` is below any larger `b`.
count_le-le-count_lt : (a b : ℕ) (xs : List ℕ) → a < b → count_le a xs ≤ count_lt b xs
unfolding count_lt count_le
count_le-le-count_lt a b [] h = omega arith
count_le-le-count_lt a b (x ∷ xs) h = ground (arith, count_le-le-count_lt a b xs h)

count_lt-insert : (c x : ℕ) (xs : List ℕ) → count_lt c (insert x xs) ≡ count_lt c (x ∷ xs)
unfolding count_lt insert
count_lt-insert c x [] = refl
count_lt-insert c x (y ∷ ys) = ground (arith, count_lt-insert c x ys)

count_le-insert : (c x : ℕ) (xs : List ℕ) → count_le c (insert x xs) ≡ count_le c (x ∷ xs)
unfolding count_le insert
count_le-insert c x [] = refl
count_le-insert c x (y ∷ ys) = ground (arith, count_le-insert c x ys)

-- Sorting keeps the counts and the length.
sort_counts :
    (c : ℕ) (xs : List ℕ)
    → (count_lt c (sort xs) ≡ count_lt c xs) × (count_le c (sort xs) ≡ count_le c xs)
unfolding sort count_lt count_le
sort_counts c [] = (refl, refl)
sort_counts c (x ∷ xs) =
    omega (arith, sort_counts c xs, count_lt-insert c x (sort xs), count_le-insert c x (sort xs))

length-insert : (x : ℕ) (xs : List ℕ) → length (insert x xs) ≡ suc (length xs)
unfolding insert
length-insert x [] = refl
length-insert x (y ∷ ys) = ground (arith, length-insert x ys)

length-sort : (xs : List ℕ) → length (sort xs) ≡ length xs
unfolding sort
length-sort [] = refl
length-sort (x ∷ xs) = omega (arith, length-insert x (sort xs), length-sort xs)

abbrev IsSorted : List ℕ → Type 0
IsSorted [] = Unit {0}
IsSorted (x ∷ xs) = All (λ y. x ≤ y) xs × IsSorted xs

All-insert : (n x : ℕ) (xs : List ℕ) → n ≤ x → All (λ y. n ≤ y) xs → All (λ y. n ≤ y) (insert x xs)
unfolding insert
All-insert n x [] h a = (h, tt)
All-insert n x (y ∷ ys) h (hy, a) = elim (Bool-cases (leb x y)) [
  | inl e ↦ rw e (h, (hy, a))
  | inr e ↦ rw e (hy, All-insert n x ys h a)
]

All-le : (n m : ℕ) (xs : List ℕ) → n ≤ m → All (λ y. m ≤ y) xs → All (λ y. n ≤ y) xs
All-le n m [] h a = tt
All-le n m (x ∷ xs) h (hx, a) = (omega arith, All-le n m xs h a)

insert-IsSorted : (x : ℕ) (xs : List ℕ) → IsSorted xs → IsSorted (insert x xs)
unfolding insert
insert-IsSorted x [] h = (tt, tt)
insert-IsSorted x (y ∷ ys) (a, h) = elim (dec_le x y) [
  | yes le ↦ let e : leb x y ≡ true = ground arith in rw e ((le, All-le x y ys le a), (a, h))
  | no gt ↦
      let e : leb x y ≡ false = ground arith in
      rw e (All-insert y x ys (omega arith) a, insert-IsSorted x ys h)
]

sort-IsSorted : (xs : List ℕ) → IsSorted (sort xs)
unfolding sort
sort-IsSorted [] = tt
sort-IsSorted (x ∷ xs) = insert-IsSorted x (sort xs) (sort-IsSorted xs)

get_or-All : (n : ℕ) (xs : List ℕ) (i : ℕ) → All (λ y. n ≤ y) xs → i < length xs → n ≤ get_or xs i 0
get_or-All n [] i a h = absurd (omega arith)
get_or-All n (x ∷ xs) zero (hx, a) h = hx
get_or-All n (x ∷ xs) (suc i) (hx, a) h = get_or-All n xs i a (omega arith)

count_lt-All : (x : ℕ) (xs : List ℕ) → All (λ y. x ≤ y) xs → count_lt x xs ≡ 0
unfolding count_lt
count_lt-All x [] a = refl
count_lt-All x (y ∷ ys) (h, a) = ground (arith, count_lt-All x ys a)

-- In a sorted list the element at `i` has at most `i` elements below it, and more than `i` up to it.
rank_lem :
    (xs : List ℕ) (i : ℕ)
    → IsSorted xs
    → i < length xs
    → (count_lt (get_or xs i 0) xs ≤ i) × (i < count_le (get_or xs i 0) xs)
unfolding count_lt count_le
rank_lem [] i h b = absurd (omega arith)
rank_lem (x ∷ xs) zero (a, h) b = ground (arith, count_lt-All x xs a)
rank_lem (x ∷ xs) (suc i) (a, h) b =
    ground (arith, get_or-All x xs i a (omega arith), rank_lem xs i h (omega arith))

-- The check on any list: it accepts the upper median and nothing else.
window_lem :
    (c : ℕ) (xs : List ℕ)
    → 0 < length xs
    → (check_counts (length xs) (count_loop c xs (record { less = 0; equal = 0; greater = 0 }))
        ≡ true)
      ↔ (c ≡ get_or (sort xs) (length xs / 2) 0)
window_lem c xs pos = (only, λ e. rw e ((check_lem m xs).1 median))
  where
    m : ℕ
    m = get_or (sort xs) (length xs / 2) 0

    median : (count_lt m xs ≤ length xs / 2) × (length xs / 2 < count_le m xs)
    median = omega (
      arith,
      rank_lem (sort xs) (length xs / 2) (sort-IsSorted xs) (omega (arith, length-sort xs)),
      sort_counts m xs,
    )

    only :
        check_counts (length xs) (count_loop c xs (record { less = 0; equal = 0; greater = 0 }))
          ≡ true
        → c ≡ m
    only e =
        let accepted = (check_lem c xs).0 e in
        elim (dec_lt c m) [
          | yes below ↦ absurd (omega (arith, accepted, median, count_le-le-count_lt c m xs below))
          | no more ↦ elim (dec_lt m c) [
            | yes above ↦
                absurd (omega (arith, accepted, median, count_le-le-count_lt m c xs above))
            | no same ↦ omega arith
          ]
        ]

timestamp_count_bounds : (s : State) → (0 < timestamp_count s) × (timestamp_count s ≤ window_size)
unfolding timestamp_count
timestamp_count_bounds s = omega arith

-- In a state with a full array of eleven timestamps, the check of a hint accepts the median of the
-- window that sorting gives, and no other value.
pub median_time_past_hinted_iff :
    (s : State) (claimed : ℕ)
    → length s.timestamps ≡ window_size
    → (median_time_past_hinted s claimed ≡ true) ↔ (claimed ≡ median_time_past s)
unfolding median_time_past_hinted median_time_past
median_time_past_hinted_iff s claimed full =
    let n : ℕ = timestamp_count s in
    let e : length (take n s.timestamps) ≡ n =
      length-take n s.timestamps ∙ omega (arith, timestamp_count_bounds s) in
    let nonempty : (n == 0) ≡ false = ground (arith, timestamp_count_bounds s) in
    rw nonempty
      (rw e at (window_lem claimed (take n s.timestamps) (omega (arith, timestamp_count_bounds s))))
