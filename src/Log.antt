-- ===== src/Log.antt =====
-- storage/LogManager.h and storage/LogManager.cpp: the log in memory. Entries are values; the mutex
-- of the class makes each operation one step. `none` is undefined behaviour.
pub mod Indexed
pub mod Overwrite
pub mod Append
pub mod Refine
pub mod Entries
pub mod Replicate
pub mod Everywhere
use raftfs.Prelude.{
  ℕ, zero, suc, ◌+◌, ◌-◌, ◌/◌, Bool, true, false, ◌&&◌, List, [], ◌∷◌, ◌++◌, Option, none, some,
  ltb, leb, ◌==◌, if◌then◌else◌, ◌>>=◌, length, get_elem?, set, take, drop, front?, back?,
  find_index, ℤ, pos, minus_one,
}
use raftfs.Protocol.{Entry}

pub record LogManager : Type 0 where
  pub memory_log : List Entry
  pub last_commited_index : ℕ

unfoldable pub empty_log : LogManager
empty_log = record { memory_log = []; last_commited_index = 0 }

unfoldable pub is_empty : LogManager → Bool
is_empty l = elim l.memory_log [ [] ↦ true | _ ∷ _ ↦ false ]

abbrev size : LogManager → ℕ
size l = length l.memory_log

-- The last entry's index, or 0: `back_index` is the read of `memory_log.back()->index`.
abbrev pub index_or_zero : Option Entry → ℕ
index_or_zero none = 0
index_or_zero (some e) = e.index

abbrev pub term_or_zero : Option Entry → ℕ
term_or_zero none = 0
term_or_zero (some e) = e.term

unfoldable pub get_last_log_index : LogManager → ℕ
get_last_log_index l = index_or_zero (back? l.memory_log)

unfoldable pub get_last_log_term : LogManager → ℕ
get_last_log_term l = term_or_zero (back? l.memory_log)

unfoldable pub get_last_log_term_and_index : LogManager → ℕ × ℕ
unfolding get_last_log_term get_last_log_index
get_last_log_term_and_index l = (get_last_log_term l, get_last_log_index l)

abbrev get_log_start_index : LogManager → ℕ
get_log_start_index l = index_or_zero (front? l.memory_log)

unfoldable pub get_last_commit_index : LogManager → ℕ
get_last_commit_index l = elim l.memory_log [ [] ↦ 0 | _ ∷ _ ↦ l.last_commited_index ]

-- `memory_log.back()` of an empty deque is undefined. An index past the last is only reported.
unfoldable pub set_last_commit_index : ℕ → LogManager → Option LogManager
set_last_commit_index i l = do
  last ← back? l.memory_log
  some (if leb i last.index then record l { last_commited_index = i } else l)

-- The first position of an entry with this index, or -1.
abbrev get_entry_loc : ℕ → LogManager → ℤ
get_entry_loc i l =
    let at = find_index (λ e. e.index == i) l.memory_log in
    if ltb at (length l.memory_log) then pos at else minus_one

-- `Append(Entry *)`: the leader numbers the entry.
unfoldable pub append_entry : Entry → LogManager → LogManager × Entry
append_entry e l =
    let numbered = record e { index = length l.memory_log + 1 } in
    (record l { memory_log = l.memory_log ++ numbered ∷ [] }, numbered)

abbrev pub same_entry : Entry → Entry → Bool
same_entry a b = a.index == b.index && a.term == b.term

-- `first_same_it`. A `push_back` on a deque invalidates every iterator into it.
pub data Iterator : Type 0 where
  valid : ℕ → Iterator
  invalid : Iterator

-- The loop over the new entries and the deletion of what follows the iterator. Both the loop's test
-- and the deletion read the iterator, which is undefined once it is invalid.
pub overwrite : List Entry → List Entry → Iterator → Option (List Entry)
overwrite [] log (valid p) = some (take p log)
overwrite [] log invalid = none
overwrite (e ∷ es) log (valid p) = elim (get_elem? log p) [
  | none ↦ overwrite es (log ++ e ∷ []) invalid
  | some x ↦ overwrite es (if same_entry e x then log else set log p e) (valid (p + 1))
]
overwrite (e ∷ es) log invalid = none

-- The first test of `Append(const std::vector<Entry> *)`.
fits_at_end : List Entry → List Entry → Option Bool
fits_at_end log new = elim (back? log) [
  | none ↦ some true
  | some last ↦ (do first ← front? new; some (first.index == last.index + 1))
]

overwrite_from_match : List Entry → LogManager → Option (LogManager × Bool)
unfolding overwrite
overwrite_from_match new l = do
  first ← front? new
  let at = find_index (same_entry first) l.memory_log
  if ltb at (length l.memory_log)
      then (do
        log ← overwrite new l.memory_log (valid at)
        some (record l { memory_log = log }, true))
      else some (l, false)

-- `Append(const std::vector<Entry> *)`
unfoldable pub append_entries : List Entry → LogManager → Option (LogManager × Bool)
unfolding fits_at_end overwrite_from_match
append_entries new l = do
  fits ← fits_at_end l.memory_log new
  if fits
      then some (record l { memory_log = l.memory_log ++ new }, true)
      else overwrite_from_match new l

-- The last entry with this index; `none` is the null pointer.
pub find_last : (Entry → Bool) → List Entry → Option Entry
find_last p [] = none
find_last p (e ∷ es) = elim (find_last p es) [
  | some x ↦ some x
  | none ↦ if p e then some e else none
]

pub get_entry : ℕ → LogManager → Option Entry
unfolding find_last
get_entry i l = find_last (λ e. e.index == i) l.memory_log

-- `std::lower_bound`: the range is halved until nothing of it is left. Fuel is its length.
lower_bound : ℕ → (ℕ → Bool) → ℕ → ℕ → ℕ
lower_bound zero below first len = first
lower_bound (suc fuel) below first zero = first
lower_bound (suc fuel) below first (suc len) =
    let half = suc len / 2 in
    let right = lower_bound fuel below (first + half + 1) (suc len - half - 1) in
    let left = lower_bound fuel below first half in if below (first + half) then right else left

-- The comparison that `GetEntriesStartAt` hands to `std::lower_bound`.
index_le_at : List Entry → ℕ → ℕ → Bool
index_le_at log start p = elim (get_elem? log p) [ none ↦ false | some e ↦ leb e.index start ]

unfoldable pub get_entries_start_at : ℕ → LogManager → List Entry
unfolding lower_bound index_le_at
get_entries_start_at start l =
    let n = length l.memory_log in
    drop (lower_bound n (index_le_at l.memory_log start) 0 n) l.memory_log

-- Everything from the first entry with this index on; nothing if there is none.
abbrev remove_entry_after : ℕ → LogManager → LogManager
remove_entry_after i l =
    let at = find_index (λ e. e.index == i) l.memory_log in
    if ltb at (length l.memory_log) then record l { memory_log = take at l.memory_log } else l

-- `operator<<`: it reads the index of the last entry, which an empty log does not have. Past 10 it goes
-- back ten entries from the end, which a log that is numbered without a gap has.
unfoldable pub print_log : LogManager → Option LogManager
print_log l = elim l.memory_log [ [] ↦ none | _ ∷ _ ↦ some l ]
