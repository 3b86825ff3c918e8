-- ===== src/Raft/Contents.antt =====
-- The entries that the operations of a server leave in its log, and those that it sends.
use native.Mathlib.Nat.{zero-add}
use raftfs.Prelude.{
  ℕ, ◌+◌, ◌-◌, ◌≡◌, Bool, inl, inr, List, [], ◌∷◌, ◌++◌, some, arith, ltb, leb, Bool-cases,
  Option-cases, pos, length, All,
}
use raftfs.Protocol.{
  Text, MetaOp, Entry, ReqVoteRequest, ReqVoteResponse, AppendEntriesRequest, AppendEntriesResponse,
}
use raftfs.Log.{
  LogManager, append_entry, set_last_commit_index, get_last_log_index, get_entries_start_at,
}
use raftfs.Log.Indexed.{IsIndexed}
use raftfs.Log.Refine.{IsIndexed-drop}
use raftfs.Log.Entries.{get_entries_start_at-drop}
use raftfs.Log.Everywhere.{append_entries-All, get_entries_start_at-All}
use raftfs.Raft.{RemoteHost, Consensus, Timer, check_leader}
use raftfs.Raft.Rpc.{on_append_entries, on_request_vote, begin_meta_operation, store_entries}
use raftfs.Raft.Remote.{
  append_entries_request, on_append_entries_response, on_request_vote_response,
}
use raftfs.Raft.Following.{outdated, accepted, advance_commit-memory_log}

pub check_leader-log : (t : Timer) (s : Consensus) → (check_leader t s).log ≡ s.log
unfolding check_leader
check_leader-log t s = ground arith

pub on_request_vote-log :
    (t u : Timer) (req : ReqVoteRequest) (s : Consensus) → (on_request_vote t u req s).0.log ≡ s.log
unfolding on_request_vote
on_request_vote-log t u req s = ground arith

pub on_request_vote_response-log :
    (id : ℕ) (resp : ReqVoteResponse) (s : Consensus)
    → (on_request_vote_response id resp s).log ≡ s.log
unfolding on_request_vote_response
on_request_vote_response-log id resp s = ground arith

pub on_append_entries_response-log :
    (t : Timer) (id : ℕ) (req : AppendEntriesRequest) (resp : AppendEntriesResponse)
    (s s' : Consensus)
    → on_append_entries_response t id req resp s ≡ some s'
    → s'.log.memory_log ≡ s.log.memory_log
unfolding on_append_entries_response set_last_commit_index
on_append_entries_response-log t id req resp s s' e = ground arith

-- The entry that a leader's client adds.
abbrev pub added : MetaOp → Text → Consensus → Entry
added op path s = record {
  term = s.current_term;
  index = length s.log.memory_log + 1;
  op = op;
  value = path;
}

pub begin_meta_operation-log :
    (op : MetaOp) (path : Text) (s : Consensus)
    → s.leader_id ≡ pos s.self_id
    → (begin_meta_operation op path s).0.log.memory_log ≡ s.log.memory_log ++ added op path s ∷ []
unfolding begin_meta_operation append_entry
begin_meta_operation-log op path s known = ground arith

module _ {ℓ} (P : Entry → Type ℓ) where
  store_entries-All :
      (prev : ℕ) (es : List Entry) (l l' : LogManager) (b : Bool)
      → store_entries prev es l ≡ some (l', b)
      → All P es
      → All P l.memory_log
      → All P l'.memory_log
  unfolding store_entries
  store_entries-All prev [] l l' b e hn hl =
      let same : l'.memory_log ≡ l.memory_log = ground arith in rw same hl
  store_entries-All prev (x ∷ xs) l l' b e hn hl =
      elim (Bool-cases (leb prev (get_last_log_index l))) [
        | inl within ↦ append_entries-All P (x ∷ xs) l l' b (ground arith) hn hl
        | inr gap ↦ let same : l'.memory_log ≡ l.memory_log = ground arith in rw same hl
      ]

  -- Whatever a request does, an entry of the log was there before or is one of the request's.
  pub on_append_entries-All :
      (t u : Timer) (req : AppendEntriesRequest) (s s' : Consensus) (resp : AppendEntriesResponse)
      → on_append_entries t u req s ≡ some (s', resp)
      → All P req.entries
      → All P s.log.memory_log
      → All P s'.log.memory_log
  on_append_entries-All t u req s s' resp e hn hl =
      elim (Bool-cases (ltb req.term s.current_term)) [
        | inl old ↦ rw (outdated t u req s s' resp e (ground arith)).0 hl
        | inr new ↦
            let (l, stored, advanced, reported) = accepted t u req s s' resp (ground arith) e in
            rw (advance_commit-memory_log req.leader_commit_index l s'.log advanced)
              (store_entries-All req.prev_log_index req.entries s.log l resp.success stored hn hl)
      ]

  pub append_entries_request-All :
      (r : RemoteHost) (s : Consensus) (req : AppendEntriesRequest)
      → append_entries_request r s ≡ some req
      → All P s.log.memory_log
      → All P req.entries
  unfolding append_entries_request
  append_entries_request-All r s req e hl = elim (Option-cases r.next_index) [
    | inl unset ↦ ground arith
    | inr (next, set) ↦ elim (Bool-cases (ltb (next - 1) (get_last_log_index s.log))) [
      | inl more ↦
          let same : req.entries ≡ get_entries_start_at (next - 1) s.log = ground arith in
          rw same (get_entries_start_at-All P (next - 1) s.log hl)
      | inr none_left ↦ let same : req.entries ≡ [] = ground arith in rw same tt
    ]
  ]

-- A request is in the term of its sender, and its entries are numbered from its previous index on.
pub append_entries_request-IsIndexed :
    (r : RemoteHost) (s : Consensus) (req : AppendEntriesRequest)
    → append_entries_request r s ≡ some req
    → IsIndexed 0 s.log.memory_log
    → (req.term ≡ s.current_term) × IsIndexed req.prev_log_index req.entries
unfolding append_entries_request
append_entries_request-IsIndexed r s req e hl = elim (Option-cases r.next_index) [
  | inl unset ↦ ground arith
  | inr (next, set) ↦ (
    ground arith,
    elim (Bool-cases (ltb (next - 1) (get_last_log_index s.log))) [
      | inl more ↦
          let same : req.entries ≡ get_entries_start_at (next - 1) s.log = ground arith in
          let at : req.prev_log_index ≡ next - 1 = ground arith in
          rw (same, at, get_entries_start_at-drop s.log (next - 1) hl)
            (rw (zero-add (next - 1)) at (IsIndexed-drop (next - 1) 0 s.log.memory_log hl))
      | inr none_left ↦ let same : req.entries ≡ [] = ground arith in rw same tt
    ],
  )
]
