-- ===== src/Log/Entries.antt =====
-- Reading entries out of a log that is numbered without a gap.
use Prim.Native.Nat.{min, max}
use raftfs.Prelude.{
  ℕ, zero, suc, ◌+◌, ◌-◌, ◌/◌, ◌≤◌, ◌<◌, ◌≡◌, refl, Bool, List, [], ◌∷◌, none, some, arith, ltb,
  ◌==◌, length, get_elem?, drop,
}
use raftfs.Protocol.{Entry}
use raftfs.Log.{LogManager, lower_bound, index_le_at, get_entries_start_at, find_last, get_entry}
use raftfs.Log.Indexed.{IsIndexed, IsIndexed-get_elem?}

-- Over a range that is partitioned at t, the search ends at t, or at the nearer end of the range.
lower_bound-partition :
    (fuel : ℕ) (below : ℕ → Bool) (t first len : ℕ)
    → len ≤ fuel
    → ((p : ℕ) → first ≤ p → p < first + len → below p ≡ ltb p t)
    → lower_bound fuel below first len ≡ min (max t first) (first + len)
unfolding lower_bound
lower_bound-partition zero below t first len h part = omega arith
lower_bound-partition (suc fuel) below t first zero h part = omega arith
lower_bound-partition (suc fuel) below t first (suc len) h part =
    let half = suc len / 2 in
    ground (
      arith,
      part (first + half) (omega arith) (omega arith),
      lower_bound-partition fuel below t (first + half + 1) (suc len - half - 1) (omega arith)
          (λ p lo hi. part p (omega arith) (omega arith)),
      lower_bound-partition fuel below t first half (omega arith)
          (λ p lo hi. part p lo (omega arith)),
    )

elem_below : (log : List Entry) (p : ℕ) → p < length log → (x : Entry) × (get_elem? log p ≡ some x)
elem_below [] p h = absurd (omega arith)
elem_below (x ∷ xs) zero h = (x, refl)
elem_below (x ∷ xs) (suc p) h = elem_below xs p (omega arith)

index_le_at-eq :
    (log : List Entry) (start p : ℕ)
    → IsIndexed 0 log
    → p < length log
    → index_le_at log start p ≡ ltb p start
unfolding index_le_at
index_le_at-eq log start p h lt =
    let (x, e) = elem_below log p lt in ground (arith, e, IsIndexed-get_elem? 0 log p x h e)

drop-min : (n : ℕ) (xs : List Entry) → drop (min n (length xs)) xs ≡ drop n xs
drop-min zero xs = let e : min 0 (length xs) ≡ 0 = omega arith in rw e
drop-min (suc n) [] = let e : min (suc n) 0 ≡ 0 = omega arith in rw e
drop-min (suc n) (x ∷ xs) =
    let e : min (suc n) (suc (length xs)) ≡ suc (min n (length xs)) = omega arith in
    rw e (drop-min n xs)

-- In a log numbered without a gap the binary search finds exactly the entries behind the first
-- `start`, whatever `start` is.
pub get_entries_start_at-drop :
    (l : LogManager) (start : ℕ)
    → IsIndexed 0 l.memory_log
    → get_entries_start_at start l ≡ drop start l.memory_log
unfolding get_entries_start_at
get_entries_start_at-drop l start h =
    let n = length l.memory_log in
    let found =
      lower_bound-partition n (index_le_at l.memory_log start) start 0 n (omega arith)
        (λ p lo hi. index_le_at-eq l.memory_log start p h (omega arith)) in
    let e : min (max start 0) (0 + n) ≡ min start n = omega arith in
    rw (found, e) (drop-min start l.memory_log)

find_last-none :
    (k : ℕ) (xs : List Entry) (i : ℕ)
    → IsIndexed k xs
    → i ≤ k
    → find_last (λ e. e.index == i) xs ≡ none
unfolding find_last
find_last-none k [] i h le = refl
find_last-none k (x ∷ xs) i h le = ground (arith, find_last-none (k + 1) xs i h.1 (omega arith))

find_last-get_elem? :
    (k : ℕ) (xs : List Entry) (i j : ℕ)
    → IsIndexed k xs
    → j ≡ k + 1 + i
    → find_last (λ e. e.index == j) xs ≡ get_elem? xs i
unfolding find_last
find_last-get_elem? k [] i j h e = refl
find_last-get_elem? k (x ∷ xs) zero j h e =
    ground (arith, find_last-none (k + 1) xs j h.1 (omega arith))
find_last-get_elem? k (x ∷ xs) (suc i) j h e =
    ground (arith, find_last-get_elem? (k + 1) xs i j h.1 (omega arith))

-- In such a log the backward search for index i + 1 returns the entry at position i, and the null
-- pointer exactly where the log has no such position.
pub get_entry-get_elem? :
    (l : LogManager) (i : ℕ)
    → IsIndexed 0 l.memory_log
    → get_entry (i + 1) l ≡ get_elem? l.memory_log i
unfolding get_entry
get_entry-get_elem? l i h = find_last-get_elem? 0 l.memory_log i (i + 1) h (omega arith)
