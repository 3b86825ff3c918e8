-- ===== src/Raft/Leading.antt =====
-- What a leader does with the responses to its requests: commits and retries.
use raftfs.Prelude.{
  IsDistinct, insert_set-IsDistinct, ℕ, ◌≤◌, ◌<◌, ◌≡◌, ◌⊎◌, refl, inl, List, [], ◌∷◌, some, arith,
  length, insert_set, update, Bool-cases, ◌==◌, leb, inr, true, false, if◌then◌else◌, Bool,
}
use raftfs.Protocol.{Entry, AppendEntriesRequest, AppendEntriesResponse}
use raftfs.Log.{get_last_commit_index, set_last_commit_index}
use raftfs.Raft.{Consensus, Timer}
use raftfs.Raft.Remote.{count_acks, on_append_entries_response}

-- The commit index, or a later index that a quorum of the sets has.
abbrev Counted : ℕ → ℕ → (ℕ → List ℕ) → ℕ → Type 0
Counted quorum commit pending n = (n ≡ commit) ⊎ ((commit < n) × (quorum ≤ length (pending n)))

length-insert_set : (a : ℕ) (xs : List ℕ) → length xs ≤ length (insert_set a xs)
length-insert_set a xs = ground arith

count_acks-Counted :
    (quorum id commit : ℕ) (es : List Entry) (pending : ℕ → List ℕ) (n : ℕ)
    → Counted quorum commit pending n
    → (let (p, m) = count_acks quorum id commit es pending n in Counted quorum commit p m)
unfolding count_acks
count_acks-Counted quorum id commit [] pending n h = h
count_acks-Counted quorum id commit (e ∷ es) pending n h =
    count_acks-Counted quorum id commit es _ _
      (ground (arith, length-insert_set id (pending e.index), length-insert_set id (pending n)))

commits :
    (t : Timer) (id : ℕ) (req : AppendEntriesRequest) (resp : AppendEntriesResponse)
    (s s' : Consensus)
    → on_append_entries_response t id req resp s ≡ some s'
    → let old = get_last_commit_index s.log in
      let new = get_last_commit_index s'.log in
      (new ≡ old) ⊎ ((old < new) × (s.quorum_size ≤ length (s'.pending_entries new)))
unfolding on_append_entries_response set_last_commit_index get_last_commit_index
commits t id req resp s s' e = ground (
  arith,
  count_acks-Counted s.quorum_size id (get_last_commit_index s.log) req.entries s.pending_entries
      (get_last_commit_index s.log) (inl refl),
)

-- No host is recorded twice for an entry.
abbrev pub AllDistinct : (ℕ → List ℕ) → Type 0
AllDistinct pending = (k : ℕ) → IsDistinct (pending k)

recorded-AllDistinct :
    (id i : ℕ) (pending : ℕ → List ℕ)
    → AllDistinct pending
    → AllDistinct (update pending i (insert_set id (pending i)))
recorded-AllDistinct id i pending h k = elim (Bool-cases (i == k)) [
  | inl here ↦ rw here (insert_set-IsDistinct id (pending i) (h i))
  | inr elsewhere ↦ rw elsewhere (h k)
]

chosen-AllDistinct :
    (b : Bool) (p q : ℕ → List ℕ) → AllDistinct p → AllDistinct q → AllDistinct (if b then p else q)
chosen-AllDistinct true p q hp hq = hp
chosen-AllDistinct false p q hp hq = hq

count_acks-AllDistinct :
    (quorum id commit : ℕ) (es : List Entry) (pending : ℕ → List ℕ) (n : ℕ)
    → AllDistinct pending
    → AllDistinct (count_acks quorum id commit es pending n).0
unfolding count_acks
count_acks-AllDistinct quorum id commit [] pending n h = h
count_acks-AllDistinct quorum id commit (e ∷ es) pending n h =
    count_acks-AllDistinct quorum id commit es _ _ (
      chosen-AllDistinct (leb e.index commit) pending _ h
        (recorded-AllDistinct id e.index pending h))

pending_after :
    (t : Timer) (id : ℕ) (req : AppendEntriesRequest) (resp : AppendEntriesResponse)
    (s s' : Consensus)
    → on_append_entries_response t id req resp s ≡ some s'
    → (s'.pending_entries ≡ s.pending_entries)
      ⊎ (s'.pending_entries
          ≡ (count_acks s.quorum_size id
              (get_last_commit_index s.log)
              req.entries
              s.pending_entries
              (get_last_commit_index s.log)).0)
unfolding on_append_entries_response
pending_after t id req resp s s' e = ground arith

-- A response leaves a leader's commit index as it is, or moves it forward, to an index for which at
-- least quorum_size hosts are recorded to have the entry. No host is recorded twice for an entry, if
-- none was before.
pub on_append_entries_response-commits :
    (t : Timer) (id : ℕ) (req : AppendEntriesRequest) (resp : AppendEntriesResponse)
    (s s' : Consensus)
    → AllDistinct s.pending_entries
    → on_append_entries_response t id req resp s ≡ some s'
    → let old = get_last_commit_index s.log in
      let new = get_last_commit_index s'.log in
      ((new ≡ old) ⊎ ((old < new) × (s.quorum_size ≤ length (s'.pending_entries new))))
      × AllDistinct s'.pending_entries
on_append_entries_response-commits t id req resp s s' distinct e = (
  commits t id req resp s s' e,
  elim (pending_after t id req resp s s' e) [
    | inl same ↦ rw same distinct
    | inr counted ↦ rw counted (
        count_acks-AllDistinct s.quorum_size id (get_last_commit_index s.log) req.entries
          s.pending_entries (get_last_commit_index s.log) distinct)
  ],
)

-- No other host than a has acknowledged anything.
abbrev pub OnlyFrom : ℕ → (ℕ → List ℕ) → Type 0
OnlyFrom a pending = (k : ℕ) → (pending k ≡ []) ⊎ (pending k ≡ a ∷ [])

count_acks-OnlyFrom :
    (quorum a commit : ℕ) (es : List Entry) (pending : ℕ → List ℕ) (n : ℕ)
    → 2 ≤ quorum
    → OnlyFrom a pending
    → n ≡ commit
    → (let (p, m) = count_acks quorum a commit es pending n in (m ≡ commit) × OnlyFrom a p)
unfolding count_acks
count_acks-OnlyFrom quorum a commit [] pending n h only same = (same, only)
count_acks-OnlyFrom quorum a commit (e ∷ es) pending n h only same =
    let acks : length (insert_set a (pending e.index)) ≤ 1 = ground (arith, only e.index) in
    count_acks-OnlyFrom quorum a commit es _ _ h (λ k. ground (arith, only k, only e.index))
      (ground arith)

-- Where a quorum is two or more, as it is among three servers, one remote host alone never moves the
-- commit index, whatever it acknowledges: the leader does not count itself.
pub on_append_entries_response-OnlyFrom :
    (t : Timer) (a : ℕ) (req : AppendEntriesRequest) (resp : AppendEntriesResponse)
    (s s' : Consensus)
    → 2 ≤ s.quorum_size
    → OnlyFrom a s.pending_entries
    → on_append_entries_response t a req resp s ≡ some s'
    → (s'.log ≡ s.log) × OnlyFrom a s'.pending_entries
unfolding on_append_entries_response
on_append_entries_response-OnlyFrom t a req resp s s' h only e =
    let counted =
      count_acks-OnlyFrom s.quorum_size a (get_last_commit_index s.log) req.entries
        s.pending_entries (get_last_commit_index s.log) h only refl in
    let calm = counted.0 in (ground (arith, calm), λ k. ground (arith, calm, counted.1 k, only k))
