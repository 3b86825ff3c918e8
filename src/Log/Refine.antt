-- ===== src/Log/Refine.antt =====
-- The log of a follower after `Append(const std::vector<Entry> *)`, against the log of the leader.
use native.Mathlib.Nat.{zero-add}
use raftfs.Prelude.{
  ◌⊎◌, ℕ, zero, suc, ◌+◌, ◌≤◌, ◌<◌, ◌≡◌, refl, ◌↔◌, Bool, true, inl, inr, List, [], ◌∷◌, ◌++◌, none,
  some, arith, Bool-cases, length, get_elem?, take, drop, All,
}
use raftfs.Protocol.{Entry}
use raftfs.Log.{LogManager, same_entry, append_entries}
use raftfs.Log.Indexed.{IsIndexed, IsIndexed-append, IsIndexed-take, length-take-le, take-length}
use raftfs.Log.Overwrite.{kept, merge}
use raftfs.Log.Append.{Agrees, append_entries-appended}

pub IsIndexed-drop : (n k : ℕ) (xs : List Entry) → IsIndexed k xs → IsIndexed (k + n) (drop n xs)
IsIndexed-drop zero k xs h = let e : k + 0 ≡ k = omega arith in rw e h
IsIndexed-drop (suc n) k [] h = tt
IsIndexed-drop (suc n) k (x ∷ xs) h =
    let e : k + suc n ≡ k + 1 + n = omega arith in rw e (IsIndexed-drop n (k + 1) xs h.1)

IsIndexed-merge :
    (k : ℕ) (new rest : List Entry)
    → IsIndexed k new
    → IsIndexed k rest
    → IsIndexed k (merge new rest)
IsIndexed-merge k [] rest hn hr = tt
IsIndexed-merge k (e ∷ es) [] hn hr = hn
IsIndexed-merge k (e ∷ es) (x ∷ xs) hn hr = (ground arith, IsIndexed-merge (k + 1) es xs hn.1 hr.1)

All-drop {ℓ} : (P : Entry → Type ℓ) (n : ℕ) (xs : List Entry) → All P xs → All P (drop n xs)
All-drop P zero xs h = h
All-drop P (suc n) [] h = h
All-drop P (suc n) (x ∷ xs) h = All-drop P n xs h.1

Agrees-drop : (n : ℕ) (new log : List Entry) → Agrees new log → Agrees new (drop n log)
Agrees-drop n [] log h = tt
Agrees-drop n (e ∷ es) log h = (All-drop _ n log h.0, Agrees-drop n es log h.1)

Agrees-tail : (x : Entry) (new log : List Entry) → Agrees new (x ∷ log) → Agrees new log
Agrees-tail x [] log h = tt
Agrees-tail x (e ∷ es) log h = (h.0.1, Agrees-tail x es log h.1)

kept-eq : (e x : Entry) → (same_entry e x ≡ true → x ≡ e) → kept e x ≡ e
kept-eq e x h = elim (Bool-cases (same_entry e x)) [
  | inl same ↦ rw same (h same)
  | inr other ↦ rw other
]

-- Under Log Matching, what the loop keeps is what the leader sent.
merge-eq : (new rest : List Entry) → Agrees new rest → merge new rest ≡ new
merge-eq [] rest h = refl
merge-eq (e ∷ es) [] h = refl
merge-eq (e ∷ es) (x ∷ xs) h = rw (kept-eq e x h.0.0, merge-eq es xs (Agrees-tail x es xs h.1))

module _ (l : LogManager) (k : ℕ) (first : Entry) (rest : List Entry)
    (hl : IsIndexed 0 l.memory_log) (hn : IsIndexed k (first ∷ rest))
    (le : k ≤ length l.memory_log) where
  -- For a log and a request numbered without gaps, the request beginning within or directly behind
  -- the log and agreeing with it on entries of one index and term: an append that reports success
  -- leaves the log's first k entries followed by exactly the request's, and the commit index as is.
  pub append_entries-refines :
      (l' : LogManager)
      → Agrees (first ∷ rest) l.memory_log
      → append_entries (first ∷ rest) l ≡ some (l', true)
      → (l'.memory_log ≡ take k l.memory_log ++ first ∷ rest)
        × (l'.last_commited_index ≡ l.last_commited_index)
  append_entries-refines l' ag e = ground (
    arith,
    append_entries-appended l k first rest hl hn le,
    merge-eq (first ∷ rest) (drop k l.memory_log) (Agrees-drop k (first ∷ rest) l.memory_log ag),
    take-length l.memory_log,
  )

  merged-IsIndexed : IsIndexed 0 (take k l.memory_log ++ merge (first ∷ rest) (drop k l.memory_log))
  merged-IsIndexed =
      IsIndexed-append 0 (take k l.memory_log) _ (IsIndexed-take k 0 l.memory_log hl) (
        rw (length-take-le k l.memory_log le, zero-add k)
          (IsIndexed-merge k (first ∷ rest) (drop k l.memory_log) hn
            (rw (zero-add k) at (IsIndexed-drop k 0 l.memory_log hl))))

  appended-IsIndexed : k ≡ length l.memory_log → IsIndexed 0 (l.memory_log ++ first ∷ rest)
  appended-IsIndexed e = IsIndexed-append 0 l.memory_log (first ∷ rest) hl (rw (← e, zero-add k) hn)

  cases :
      (l' : LogManager) (b : Bool)
      → append_entries (first ∷ rest) l ≡ some (l', b)
      → ((k ≡ length l.memory_log) × (l'.memory_log ≡ l.memory_log ++ first ∷ rest))
        ⊎ (l'.memory_log ≡ take k l.memory_log ++ merge (first ∷ rest) (drop k l.memory_log))
        ⊎ (l'.memory_log ≡ l.memory_log)
  cases l' b e = ground (arith, append_entries-appended l k first rest hl hn le)

  -- Whatever an append of such a request returns, the log stays numbered without a gap.
  pub append_entries-IsIndexed :
      (l' : LogManager) (b : Bool)
      → append_entries (first ∷ rest) l ≡ some (l', b)
      → IsIndexed 0 l'.memory_log
  append_entries-IsIndexed l' b e = elim (cases l' b e) [
    | inl (at_end, same) ↦ rw same (appended-IsIndexed at_end)
    | inr (inl same) ↦ rw same merged-IsIndexed
    | inr (inr same) ↦ rw same hl
  ]

  -- Such an append is undefined exactly when the log has the first of the new entries already and
  -- the entries reach past the end of the log.
  pub append_entries-undefined : (append_entries (first ∷ rest) l ≡ none) ↔ (
      (k < length l.memory_log)
      × (length l.memory_log < k + length (first ∷ rest))
      × ((x : Entry) × (get_elem? l.memory_log k ≡ some x) × (first.term ≡ x.term)))
  append_entries-undefined =
      rw (append_entries-appended l k first rest hl hn le)
        (ground arith, λ h. ground (arith, h.2.1))
