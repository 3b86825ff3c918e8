-- ===== src/Log/Replicate.antt =====
-- One log sent to another: what `GetEntriesStartAt` packs and `Append` stores.
use native.Mathlib.Nat.{zero-add}
use raftfs.Prelude.{
  get_elem?, ℕ, zero, suc, ◌+◌, ◌≤◌, ◌<◌, ◌≡◌, refl, ap, true, List, [], ◌∷◌, ◌++◌, some, arith,
  length, take, drop,
}
use raftfs.Protocol.{Entry}
use raftfs.Log.{LogManager, get_entries_start_at, append_entries, get_last_log_index}
use raftfs.Log.Indexed.{
  IsIndexed, length-drop-add, IsIndexed-take, get_last_log_index-length, length-take-le,
}
use raftfs.Log.Overwrite.{merge}
use raftfs.Log.Append.{append_entries-appended}
use raftfs.Log.Refine.{IsIndexed-drop}
use raftfs.Log.Entries.{get_entries_start_at-drop}

drop-append : (xs ys : List Entry) → drop (length xs) (xs ++ ys) ≡ ys
drop-append [] ys = refl
drop-append (x ∷ xs) ys = drop-append xs ys

IsIndexed-split :
    (k : ℕ) (xs ys : List Entry)
    → IsIndexed k (xs ++ ys)
    → IsIndexed k xs × IsIndexed (k + length xs) ys
IsIndexed-split k [] ys h = let e : k + 0 ≡ k = omega arith in (tt, rw e h)
IsIndexed-split k (x ∷ xs) ys h =
    let (a, b) = IsIndexed-split (k + 1) xs ys h.1 in
    let e : k + suc (length xs) ≡ k + 1 + length xs = omega arith in ((h.0, a), rw e b)

-- A follower whose log is the leader's without the tail: the entries that the leader packs from the
-- follower's last index on, appended there, give the follower the leader's whole log.
pub append_entries-get_entries_start_at :
    (leader follower : LogManager) (first : Entry) (rest : List Entry)
    → IsIndexed 0 leader.memory_log
    → leader.memory_log ≡ follower.memory_log ++ first ∷ rest
    → append_entries (get_entries_start_at (get_last_log_index follower) leader) follower
      ≡ some (record follower { memory_log = leader.memory_log }, true)
append_entries-get_entries_start_at leader follower first rest hl e =
    let n = length follower.memory_log in
    let (hf, hn) = IsIndexed-split 0 follower.memory_log (first ∷ rest) (rw e at hl) in
    rw
      (
        get_entries_start_at-drop leader (get_last_log_index follower) hl,
        get_last_log_index-length follower hf,
        e,
        drop-append follower.memory_log (first ∷ rest),
      )
      (ground (
        arith,
        append_entries-appended follower n first rest hf (rw (zero-add n) at hn) (omega arith),
      ))

merge_self : (n : ℕ) (xs : List Entry) → n ≤ length xs → merge (take n xs) xs ≡ take n xs
merge_self zero xs h = refl
merge_self (suc n) [] h = absurd (omega arith)
merge_self (suc n) (x ∷ xs) h = ground (arith, merge_self n xs (omega arith))

get_elem?-drop :
    (k : ℕ) (log : List Entry) (x : Entry) (xs : List Entry)
    → drop k log ≡ x ∷ xs
    → get_elem? log k ≡ some x
get_elem?-drop zero [] x xs e = cc
get_elem?-drop zero (y ∷ ys) x xs e = cc
get_elem?-drop (suc k) [] x xs e = cc
get_elem?-drop (suc k) (y ∷ ys) x xs e = get_elem?-drop k ys x xs e

take-add : (k n : ℕ) (xs : List Entry) → take k xs ++ take n (drop k xs) ≡ take (k + n) xs
take-add zero n xs = rw (zero-add n)
take-add (suc k) zero [] = let e : suc k + 0 ≡ suc k = omega arith in rw e
take-add (suc k) (suc n) [] = let e : suc k + suc n ≡ suc (k + suc n) = omega arith in rw e
take-add (suc k) n (x ∷ xs) =
    let e : suc k + n ≡ suc (k + n) = omega arith in rw e (ap (◌∷◌ x) (take-add k n xs))

again :
    (l : LogManager) (k m : ℕ) (x : Entry) (xs : List Entry)
    → IsIndexed 0 l.memory_log
    → k + suc m ≤ length l.memory_log
    → drop k l.memory_log ≡ x ∷ xs
    → append_entries (x ∷ take m xs) l
      ≡ some (record l { memory_log = take k l.memory_log ++ take (suc m) (x ∷ xs) }, true)
again l k m x xs h le e =
    let long = length-drop-add k l.memory_log (omega arith) in
    let len : length (take m xs) ≡ m = length-take-le m xs (ground (arith, long)) in
    let ix : IsIndexed k (x ∷ xs) = rw (zero-add k, e) at (IsIndexed-drop k 0 l.memory_log h) in
    ground (
      arith,
      len,
      append_entries-appended l k x (take m xs) h (ix.0, IsIndexed-take m (k + 1) xs ix.1)
          (omega arith),
      get_elem?-drop k l.memory_log x xs e,
      merge_self (suc m) (x ∷ xs),
    )

-- A leader's request that repeats n entries which the log has already, from position k on, cuts off
-- every entry behind them, committed or not, and reports success.
pub append_entries_again :
    (l : LogManager) (k n : ℕ)
    → IsIndexed 0 l.memory_log
    → 0 < n
    → k + n ≤ length l.memory_log
    → append_entries (take n (drop k l.memory_log)) l
      ≡ some (record l { memory_log = take (k + n) l.memory_log }, true)
append_entries_again l k zero h pos le = absurd (omega arith)
append_entries_again l k (suc m) h pos le = go (drop k l.memory_log) refl
  where
    go :
        (d : List Entry)
        → drop k l.memory_log ≡ d
        → append_entries (take (suc m) (drop k l.memory_log)) l
          ≡ some (record l { memory_log = take (k + suc m) l.memory_log }, true)
    go [] e = absurd (omega (arith, length-drop-add k l.memory_log (omega arith), ap length e))
    go (x ∷ xs) e = rw (← take-add k (suc m) l.memory_log, e) (again l k m x xs h le e)
