-- ===== src/Log/Indexed.antt =====
-- Logs whose entries are numbered without a gap, as `Append(Entry *)` numbers them.
use raftfs.Prelude.{
  ℕ, zero, suc, ◌+◌, ◌≤◌, ◌≡◌, refl, ap, List, [], ◌∷◌, ◌++◌, none, some, arith, ◌==◌,
  if◌then◌else◌, length, get_elem?, take, drop, back?, find_index,
}
use raftfs.Protocol.{Entry}
use raftfs.Log.{LogManager, index_or_zero, same_entry, get_last_log_index}

-- The entries after the first `k`: their indexes are k + 1, k + 2, ...
abbrev pub IsIndexed : ℕ → List Entry → Type 0
IsIndexed k [] = Unit {0}
IsIndexed k (e ∷ es) = (e.index ≡ k + 1) × IsIndexed (k + 1) es

pub IsIndexed-append :
    (k : ℕ) (xs ys : List Entry)
    → IsIndexed k xs
    → IsIndexed (k + length xs) ys
    → IsIndexed k (xs ++ ys)
IsIndexed-append k [] ys hx hy = let e : k + 0 ≡ k = omega arith in rw e at hy
IsIndexed-append k (x ∷ xs) ys hx hy =
    let e : k + suc (length xs) ≡ k + 1 + length xs = omega arith in
    (hx.0, IsIndexed-append (k + 1) xs ys hx.1 (rw e at hy))

pub IsIndexed-take : (n k : ℕ) (xs : List Entry) → IsIndexed k xs → IsIndexed k (take n xs)
IsIndexed-take zero k xs h = tt
IsIndexed-take (suc n) k [] h = tt
IsIndexed-take (suc n) k (x ∷ xs) h = (h.0, IsIndexed-take n (k + 1) xs h.1)

pub length-take-le : (n : ℕ) (xs : List Entry) → n ≤ length xs → length (take n xs) ≡ n
length-take-le zero xs h = refl
length-take-le (suc n) [] h = absurd (omega arith)
length-take-le (suc n) (x ∷ xs) h = ap suc (length-take-le n xs (omega arith))

back-index :
    (k : ℕ) (x : Entry) (xs : List Entry)
    → IsIndexed k (x ∷ xs)
    → index_or_zero (back? (x ∷ xs)) ≡ k + suc (length xs)
back-index k x [] h = omega arith
back-index k x (y ∷ ys) h = omega (arith, back-index (k + 1) y ys h.1)

pub back-index_some :
    (k : ℕ) (xs : List Entry) (e : Entry)
    → IsIndexed k xs
    → back? xs ≡ some e
    → e.index ≡ k + length xs
back-index_some k [] e h p = ground arith
back-index_some k (x ∷ xs) e h p = ground (arith, back-index k x xs h)

pub last_index : (xs : List Entry) → IsIndexed 0 xs → index_or_zero (back? xs) ≡ length xs
last_index [] h = refl
last_index (x ∷ xs) h = omega (arith, back-index 0 x xs h)

-- The last index of a gap-free log is its length.
pub get_last_log_index-length :
    (l : LogManager) → IsIndexed 0 l.memory_log → get_last_log_index l ≡ length l.memory_log
unfolding get_last_log_index
get_last_log_index-length l h = last_index l.memory_log h

-- Where an entry numbered k + i + 1 has its twin, if the log has one.
abbrev twin_at : Entry → List Entry → ℕ → ℕ
twin_at first xs i = elim (get_elem? xs i) [
  | none ↦ length xs
  | some x ↦ if first.term == x.term then i else length xs
]

pub find_index-same_entry :
    (k : ℕ) (xs : List Entry) (i : ℕ) (first : Entry)
    → IsIndexed k xs
    → first.index ≡ k + 1 + i
    → find_index (same_entry first) xs ≡ twin_at first xs i
find_index-same_entry k [] i first h e = refl
find_index-same_entry k (x ∷ xs) zero first h e =
    ground (arith, none_below (k + 1) xs (omega arith) h.1)
  where
    none_below :
        (j : ℕ) (ys : List Entry)
        → first.index ≤ j
        → IsIndexed j ys
        → find_index (same_entry first) ys ≡ length ys
    none_below j [] le g = refl
    none_below j (y ∷ ys) le g = ground (arith, none_below (j + 1) ys (omega arith) g.1)
find_index-same_entry k (x ∷ xs) (suc i) first h e =
    ground (arith, find_index-same_entry (k + 1) xs i first h.1 (omega arith))

-- An entry of the log, by its index.
pub IsIndexed-get_elem? :
    (k : ℕ) (xs : List Entry) (i : ℕ) (x : Entry)
    → IsIndexed k xs
    → get_elem? xs i ≡ some x
    → x.index ≡ k + 1 + i
IsIndexed-get_elem? k [] i x h p = ground arith
IsIndexed-get_elem? k (y ∷ ys) zero x h p = ground arith
IsIndexed-get_elem? k (y ∷ ys) (suc i) x h p =
    omega (arith, IsIndexed-get_elem? (k + 1) ys i x h.1 p)

pub take-append-drop : (n : ℕ) (xs : List Entry) → take n xs ++ drop n xs ≡ xs
take-append-drop zero xs = refl
take-append-drop (suc n) [] = refl
take-append-drop (suc n) (x ∷ xs) = ap (◌∷◌ x) (take-append-drop n xs)

pub take-length : (xs : List Entry) → take (length xs) xs ≡ xs
take-length [] = refl
take-length (x ∷ xs) = ap (◌∷◌ x) (take-length xs)

pub length-drop-add : (n : ℕ) (xs : List Entry) → n ≤ length xs → length (drop n xs) + n ≡ length xs
length-drop-add zero xs h = omega arith
length-drop-add (suc n) [] h = absurd (omega arith)
length-drop-add (suc n) (x ∷ xs) h = omega (arith, length-drop-add n xs (omega arith))
