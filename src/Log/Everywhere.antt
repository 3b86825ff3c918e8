-- ===== src/Log/Everywhere.antt =====
-- Where the entries of a log come from: a property of the entries that a log has and of those that it
-- is given is a property of all the entries that it has afterwards.
use raftfs.Prelude.{
  ℕ, zero, suc, ◌+◌, ◌≡◌, Bool, inl, inr, List, [], ◌∷◌, ◌++◌, some, arith, Option-cases,
  Bool-cases, length, get_elem?, set, take, drop, find_index, ltb, All, All-append,
}
use raftfs.Protocol.{Entry}
use raftfs.Log.{
  LogManager, valid, invalid, Iterator, overwrite, fits_at_end, overwrite_from_match,
  append_entries, get_entries_start_at, same_entry,
}

module _ {ℓ} (P : Entry → Type ℓ) where
  pub All-take : (n : ℕ) (xs : List Entry) → All P xs → All P (take n xs)
  All-take zero xs h = tt
  All-take (suc n) [] h = tt
  All-take (suc n) (x ∷ xs) h = (h.0, All-take n xs h.1)

  pub All-drop : (n : ℕ) (xs : List Entry) → All P xs → All P (drop n xs)
  All-drop zero xs h = h
  All-drop (suc n) [] h = h
  All-drop (suc n) (x ∷ xs) h = All-drop n xs h.1

  All-set : (xs : List Entry) (i : ℕ) (e : Entry) → All P xs → P e → All P (set xs i e)
  All-set [] i e h p = tt
  All-set (x ∷ xs) zero e h p = (p, h.1)
  All-set (x ∷ xs) (suc i) e h p = (h.0, All-set xs i e h.1 p)

  All-overwrite :
      (new log out : List Entry) (at : Iterator)
      → All P new
      → All P log
      → overwrite new log at ≡ some out
      → All P out
  unfolding overwrite
  All-overwrite [] log out (valid p) hn hl e =
      let same : out ≡ take p log = ground arith in rw same (All-take p log hl)
  All-overwrite [] log out invalid hn hl e = cc
  All-overwrite (x ∷ xs) log out (valid p) hn hl e = elim (Option-cases (get_elem? log p)) [
    | inl missing ↦
        All-overwrite xs (log ++ x ∷ []) out invalid hn.1 (All-append P log (x ∷ []) hl (hn.0, tt))
          (ground arith)
    | inr (y, there) ↦ elim (Bool-cases (same_entry x y)) [
      | inl twin ↦ All-overwrite xs log out (valid (p + 1)) hn.1 hl (ground arith)
      | inr other ↦
          All-overwrite xs (set log p x) out (valid (p + 1)) hn.1 (All-set log p x hl hn.0)
            (ground arith)
    ]
  ]
  All-overwrite (x ∷ xs) log out invalid hn hl e = cc

  overwrite_from_match-All :
      (new : List Entry) (l l' : LogManager) (b : Bool)
      → overwrite_from_match new l ≡ some (l', b)
      → All P new
      → All P l.memory_log
      → All P l'.memory_log
  unfolding overwrite_from_match
  overwrite_from_match-All [] l l' b e hn hl = cc
  overwrite_from_match-All (x ∷ xs) l l' b e hn hl =
      let n = find_index (same_entry x) l.memory_log in
      elim (Bool-cases (ltb n (length l.memory_log))) [
        | inl found ↦ elim (Option-cases (overwrite (x ∷ xs) l.memory_log (valid n))) [
          | inl undefined ↦ ground arith
          | inr (out, done) ↦
              let same : l'.memory_log ≡ out = ground arith in
              rw same (All-overwrite (x ∷ xs) l.memory_log out (valid n) hn hl done)
        ]
        | inr absent ↦ let same : l'.memory_log ≡ l.memory_log = ground arith in rw same hl
      ]

  -- Every entry of a log after an append has what the entries before it and the new ones have.
  pub append_entries-All :
      (new : List Entry) (l l' : LogManager) (b : Bool)
      → append_entries new l ≡ some (l', b)
      → All P new
      → All P l.memory_log
      → All P l'.memory_log
  unfolding append_entries
  append_entries-All new l l' b e hn hl = elim (Option-cases (fits_at_end l.memory_log new)) [
    | inl undefined ↦ ground arith
    | inr (fits, tested) ↦ elim (Bool-cases fits) [
      | inl at_end ↦
          let same : l'.memory_log ≡ l.memory_log ++ new = ground arith in
          rw same (All-append P l.memory_log new hl hn)
      | inr inside ↦ overwrite_from_match-All new l l' b (ground arith) hn hl
    ]
  ]

  pub get_entries_start_at-All :
      (start : ℕ) (l : LogManager) → All P l.memory_log → All P (get_entries_start_at start l)
  unfolding get_entries_start_at
  get_entries_start_at-All start l h = All-drop _ l.memory_log h
