-- ===== src/Log/Append.antt =====
-- What `Append(const std::vector<Entry> *)` does to a log that is numbered without a gap.
use raftfs.Prelude.{
  ℕ, zero, suc, ◌+◌, ◌≤◌, ◌<◌, ◌≡◌, refl, ◌∙◌, Bool, true, false, inl, inr, List, [], ◌∷◌, ◌++◌,
  Option, none, some, arith, leb, ◌==◌, if◌then◌else◌, Bool-cases, length, get_elem?, take, drop,
  back?, All,
}
use raftfs.Protocol.{Entry}
use raftfs.Log.{
  LogManager, same_entry, valid, overwrite, fits_at_end, overwrite_from_match, append_entries,
}
use raftfs.Log.Indexed.{
  IsIndexed, length-take-le, back-index_some, take-append-drop, length-drop-add,
  find_index-same_entry,
}
use raftfs.Log.Overwrite.{merge, overwrite_lem}

-- The Log Matching property between a request and a log: one index and one term name one entry.
abbrev pub Agrees : List Entry → List Entry → Type 0
Agrees new log = All (λ e. All (λ x. same_entry e x ≡ true → x ≡ e) log) new

-- The result by the position k that the first new entry is numbered for.
abbrev pub appended : ℕ → Entry → List Entry → LogManager → Option (LogManager × Bool)
appended k first rest l =
    if k == length l.memory_log
    then some (record l { memory_log = l.memory_log ++ first ∷ rest }, true)
    else elim (get_elem? l.memory_log k) [
      | none ↦ some (l, false)
      | some x ↦
          if first.term == x.term
          then if leb (k + suc (length rest)) (length l.memory_log)
            then some (
              record l {
                memory_log = take k l.memory_log ++ merge (first ∷ rest) (drop k l.memory_log);
              },
              true,
            )
            else none
          else some (l, false)
    ]

overwrite_at :
    (new log : List Entry) (k : ℕ)
    → k ≤ length log
    → overwrite new log (valid k) ≡ (
        if leb (k + length new) (length log)
        then some (take k log ++ merge new (drop k log))
        else none)
overwrite_at new log k h =
    let whole = take-append-drop k log in
    let front = length-take-le k log h in
    ground
      (arith, whole, front, overwrite_lem new (take k log) (drop k log), length-drop-add k log h)

pub has_back : (x : Entry) (xs : List Entry) → (y : Entry) × (back? (x ∷ xs) ≡ some y)
has_back x [] = (x, refl)
has_back x (y ∷ ys) = has_back y ys

has_elem : (log : List Entry) (k : ℕ) → k < length log → (y : Entry) × (get_elem? log k ≡ some y)
has_elem [] k h = absurd (omega arith)
has_elem (x ∷ xs) zero h = (x, refl)
has_elem (x ∷ xs) (suc k) h = has_elem xs k (omega arith)

fits_at_end-eq :
    (log : List Entry) (k : ℕ) (first : Entry) (rest : List Entry)
    → IsIndexed 0 log
    → first.index ≡ k + 1
    → k ≤ length log
    → fits_at_end log (first ∷ rest) ≡ some (k == length log)
unfolding fits_at_end
fits_at_end-eq [] k first rest hl hn le = ground arith
fits_at_end-eq (x ∷ xs) k first rest hl hn le =
    let (y, e) = has_back x xs in ground (arith, e, back-index_some 0 (x ∷ xs) y hl e)

overwrite_from_match-eq :
    (l : LogManager) (k : ℕ) (first : Entry) (rest : List Entry)
    → IsIndexed 0 l.memory_log
    → first.index ≡ k + 1
    → k < length l.memory_log
    → overwrite_from_match (first ∷ rest) l ≡ appended k first rest l
unfolding overwrite_from_match
overwrite_from_match-eq l k first rest hl hn lt =
    let (y, e) = has_elem l.memory_log k lt in
    ground (
      arith,
      e,
      find_index-same_entry 0 l.memory_log k first hl,
      overwrite_at (first ∷ rest) l.memory_log k,
    )

-- On every branch of the code: at the end of the log the entries are appended; inside it they
-- replace the tail if the first of them is there already, which is undefined where they reach past
-- the end; otherwise they are refused.
pub append_entries-appended :
    (l : LogManager) (k : ℕ) (first : Entry) (rest : List Entry)
    → IsIndexed 0 l.memory_log
    → IsIndexed k (first ∷ rest)
    → k ≤ length l.memory_log
    → append_entries (first ∷ rest) l ≡ appended k first rest l
unfolding append_entries
append_entries-appended l k first rest hl hn le = elim (Bool-cases (k == length l.memory_log)) [
  | inl at_end ↦ rw (fits_at_end-eq l.memory_log k first rest hl hn.0 le, at_end)
  | inr inside ↦
      rw (fits_at_end-eq l.memory_log k first rest hl hn.0 le, inside)
        (overwrite_from_match-eq l k first rest hl hn.0 (ground arith) ∙ ground arith)
]
