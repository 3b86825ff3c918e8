-- ===== src/Log/Overwrite.antt =====
-- The loop of `Append(const std::vector<Entry> *)` from the first entry that both logs have.
use raftfs.Prelude.{
  suc, ◌+◌, ◌≡◌, refl, sym, ◌∙◌, inl, inr, List, [], ◌∷◌, ◌++◌, append-nil, append_assoc, none,
  some, arith, leb, if◌then◌else◌, Bool-cases, length, set, length-append, take-append,
  get_elem?-append, get_elem?-length, set-append,
}
use raftfs.Protocol.{Entry}
use raftfs.Log.{same_entry, valid, invalid, overwrite}

abbrev pub kept : Entry → Entry → Entry
kept e x = if same_entry e x then x else e

-- What stands at the positions that the new entries reach.
abbrev pub merge : List Entry → List Entry → List Entry
merge [] rest = []
merge (e ∷ es) [] = e ∷ es
merge (e ∷ es) (x ∷ xs) = kept e x ∷ merge es xs

overwrite-invalid : (new log : List Entry) → overwrite new log invalid ≡ none
unfolding overwrite
overwrite-invalid [] log = refl
overwrite-invalid (e ∷ es) log = refl

-- One more entry moves from the part ahead of the iterator to the part behind it.
shift_length : (pre : List Entry) (y : Entry) → length (pre ++ y ∷ []) ≡ length pre + 1
shift_length pre y = omega (arith, length-append pre (y ∷ []))

set-kept :
    (pre : List Entry) (e x : Entry) (xs : List Entry)
    → (if same_entry e x then pre ++ x ∷ xs else set (pre ++ x ∷ xs) (length pre) e)
      ≡ (pre ++ kept e x ∷ []) ++ xs
set-kept pre e x xs = elim (Bool-cases (same_entry e x)) [
  | inl same ↦ rw same (sym (append_assoc pre (x ∷ []) xs))
  | inr other ↦ rw (other, set-append pre x e xs) (sym (append_assoc pre (e ∷ []) xs))
]

pub overwrite_lem :
    (new pre rest : List Entry)
    → overwrite new (pre ++ rest) (valid (length pre))
      ≡ (if leb (length new) (length rest) then some (pre ++ merge new rest) else none)
unfolding overwrite
overwrite_lem [] pre rest = rw (take-append pre rest, append-nil) (ground arith)
overwrite_lem (e ∷ es) pre [] = ground (
  arith,
  append-nil pre,
  get_elem?-length pre,
  overwrite-invalid es (pre ++ e ∷ []),
  overwrite-invalid es ((pre ++ []) ++ e ∷ []),
)
overwrite_lem (e ∷ es) pre (x ∷ xs) =
    rw (get_elem?-append pre x xs, overwrite)
      (rw (set-kept pre e x xs, ← shift_length pre (kept e x))
        (overwrite_lem es (pre ++ kept e x ∷ []) xs ∙ regroup))
  where
    regroup :
        (if leb (length es) (length xs) then some ((pre ++ kept e x ∷ []) ++ merge es xs) else none)
        ≡ (if leb (suc (length es)) (suc (length xs))
            then some (pre ++ kept e x ∷ merge es xs)
            else none)
    regroup = rw (append_assoc pre (kept e x ∷ []) (merge es xs)) (ground arith)
