-- ===== src/Cluster/Numbered.antt =====
-- The numbering and the terms of the entries in the logs and in the requests under way.
use native.Mathlib.Nat.{zero-add}
use raftfs.Prelude.{
  ℕ, ◌≤◌, ◌≡◌, ◌⊎◌, refl, true, false, ◌++◌, Bool-cases, is_minus_one, inl, inr, List, [], ◌∷◌,
  Option, some, arith, All, All-map, All-append,
}
use raftfs.Protocol.{Text, MetaOp, Entry, AppendEntriesRequest, AppendEntriesResponse}
use raftfs.Log.{empty_log, append_entry}
use raftfs.Log.Indexed.{IsIndexed, IsIndexed-append}
use raftfs.Raft.{Consensus, Timer, init}
use raftfs.Raft.Rpc.{on_append_entries, begin_meta_operation}
use raftfs.Raft.Votes.{Reach-Follows}
use raftfs.Raft.Following.{on_append_entries-IsIndexed}
use raftfs.Raft.Contents.{
  check_leader-log, on_request_vote-log, on_request_vote_response-log,
  on_append_entries_response-log, added, on_append_entries-All, append_entries_request-All,
  append_entries_request-IsIndexed,
}
use raftfs.Cluster.{
  Cluster, Call, append_asked, Condition, start, Move, check, meta, ask_vote, ask_append, vote,
  append, voted, appended, move, fail, Reach, here, next,
}
use raftfs.Cluster.Histories.{Move-Reach}
use raftfs.Cluster.Counted.{Of, Taken-All, update-cases}

-- No entry is of a later term.
abbrev pub IsUpTo : ℕ → List Entry → Type 0
IsUpTo term es = All (λ e. e.term ≤ term) es

IsUpTo-mono : (a b : ℕ) (es : List Entry) → a ≤ b → IsUpTo a es → IsUpTo b es
IsUpTo-mono a b es le h = All-map es (λ e old. omega arith) h

abbrev pub IsSound : Consensus → Type 0
IsSound s = IsIndexed 0 s.log.memory_log × IsUpTo s.current_term s.log.memory_log

abbrev pub CallIsSound : Call → Type 0
CallIsSound (append_asked i j req) =
    IsIndexed req.prev_log_index req.entries × IsUpTo req.term req.entries
CallIsSound _ = Unit

on_append_entries-terms :
    (t u : Timer) (req : AppendEntriesRequest) (s s' : Consensus) (resp : AppendEntriesResponse)
    → on_append_entries t u req s ≡ some (s', resp)
    → (s'.log ≡ s.log) ⊎ (req.term ≤ s'.current_term)
unfolding on_append_entries
on_append_entries-terms t u req s s' resp e = ground arith

on_append_entries-IsUpTo :
    (t u : Timer) (req : AppendEntriesRequest) (s s' : Consensus) (resp : AppendEntriesResponse)
    → on_append_entries t u req s ≡ some (s', resp)
    → s.current_term ≤ s'.current_term
    → IsUpTo req.term req.entries
    → IsUpTo s.current_term s.log.memory_log
    → IsUpTo s'.current_term s'.log.memory_log
on_append_entries-IsUpTo t u req s s' resp e le hn hl =
    elim (on_append_entries-terms t u req s s' resp e) [
      | inl same ↦ rw same (IsUpTo-mono _ _ _ le hl)
      | inr ahead ↦
          on_append_entries-All (λ x. x.term ≤ s'.current_term) t u req s s' resp e
            (IsUpTo-mono _ _ _ ahead hn) (IsUpTo-mono _ _ _ le hl)
    ]

-- A move that leaves the log alone.
unchanged :
    (s s' : Consensus)
    → s'.log.memory_log ≡ s.log.memory_log
    → s.current_term ≤ s'.current_term
    → IsSound s
    → IsSound s'
unchanged s s' same le h = (rw same h.0, rw same (IsUpTo-mono _ _ _ le h.1))

begin_meta_operation-term :
    (op : MetaOp) (path : Text) (s : Consensus)
    → (begin_meta_operation op path s).0.current_term ≡ s.current_term
unfolding begin_meta_operation
begin_meta_operation-term op path s = ground arith

begin_meta_operation-unknown :
    (op : MetaOp) (path : Text) (s : Consensus)
    → is_minus_one s.leader_id ≡ true
    → (begin_meta_operation op path s).0 ≡ s
unfolding begin_meta_operation
begin_meta_operation-unknown op path s unknown = ground arith

begin_meta_operation-known :
    (op : MetaOp) (path : Text) (s : Consensus)
    → is_minus_one s.leader_id ≡ false
    → (begin_meta_operation op path s).0.log.memory_log ≡ s.log.memory_log ++ added op path s ∷ []
unfolding begin_meta_operation append_entry
begin_meta_operation-known op path s known = ground arith

begin_meta_operation-IsSound :
    (op : MetaOp) (path : Text) (s : Consensus)
    → IsSound s
    → IsSound (begin_meta_operation op path s).0
begin_meta_operation-IsSound op path s h = elim (Bool-cases (is_minus_one s.leader_id)) [
  | inl unknown ↦ rw (begin_meta_operation-unknown op path s unknown) h
  | inr known ↦
      let es = s.log.memory_log in
      let e = added op path s in
      rw (begin_meta_operation-known op path s known, begin_meta_operation-term op path s)
        (
          IsIndexed-append 0 es (e ∷ []) h.0 (rw zero-add (refl, tt)),
          All-append _ es (e ∷ []) h.1 (omega arith, tt),
        )
]

-- A move keeps the log of the host sound, and what it sends is.
Move-IsSound :
    {ok : Condition} {i : ℕ} {s s' : Consensus} {ended : Option Call} {calls : List Call}
    → Move ok i s ended s' calls
    → s.current_term ≤ s'.current_term
    → Of CallIsSound ended
    → IsSound s
    → IsSound s' × All CallIsSound calls
Move-IsSound {s = s} {s'} (check t) le _ h = (unchanged s s' (rw (check_leader-log t s)) le h, tt)
Move-IsSound {s = s} (meta op path _) le _ h = (begin_meta_operation-IsSound op path s h, tt)
Move-IsSound (ask_vote k r _ _) le _ h = (h, (tt, tt))
Move-IsSound {s = s} (ask_append k r req _ _ e) le _ h =
    let (term, numbered) = append_entries_request-IsIndexed r s req e h.0 in
    (h, ((numbered, rw term (append_entries_request-All _ r s req e h.1)), tt))
Move-IsSound {s = s} {s'} (vote t u j req) le _ h =
    (unchanged s s' (rw (on_request_vote-log t u req s)) le h, (tt, tt))
Move-IsSound {s = s} (append t u j req s' resp e) le asked h = (
  (
    on_append_entries-IsIndexed t u req s s' resp e h.0 asked.0,
    on_append_entries-IsUpTo t u req s s' resp e le asked.1 h.1,
  ),
  (tt, tt),
)
Move-IsSound {s = s} {s'} (voted j req resp _) le _ h =
    (unchanged s s' (rw (on_request_vote_response-log j resp s)) le h, tt)
Move-IsSound {s = s} (appended t j req resp s' e) le _ h =
    (unchanged s s' (on_append_entries_response-log t j req resp s s' e) le h, tt)

pub record Numbered (c : Cluster) : Type 0 where
  pub logs : (i : ℕ) → IsSound (c.servers i)
  pub calls : All CallIsSound c.calls

-- In every run of the cluster, whatever is lost or late: each log is numbered 1, 2, 3, ... without a
-- gap, no entry in it is of a later term than its host, and each append request under way is
-- numbered from its previous index on and has no entry of a later term than its own.
pub Reach-Numbered :
    {ok : Condition} (hosts : List ℕ) (timers : ℕ → Timer) {c : Cluster}
    → Reach ok hosts (start hosts timers) c
    → Numbered c
unfolding start init empty_log
Reach-Numbered hosts timers here = record { logs = λ i. (tt, tt); calls = tt }
Reach-Numbered hosts timers (next {d} r (fail taken)) =
    let h = Reach-Numbered hosts timers r in
    record { logs = h.logs; calls = (Taken-All _ taken h.calls).1 }
Reach-Numbered hosts timers (next {d} r (move i known {rest = rest} {calls} {s} m taken)) =
    let h = Reach-Numbered hosts timers r in
    let (asked, others) = Taken-All _ taken h.calls in
    let (sound, said) = Move-IsSound m (Reach-Follows (Move-Reach m)).term_grows asked (h.logs i) in
    record {
      logs = λ k. elim (update-cases d.servers i k s) [
        | inl (_, moved) ↦ rw moved sound
        | inr same ↦ rw same (h.logs k)
      ];
      calls = All-append _ calls rest said others;
    }
