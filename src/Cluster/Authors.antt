-- ===== src/Cluster/Authors.antt =====
-- A host that has led in a term leads in it still, with every entry that it wrote, or has moved on.
use mathlib.Core.Path.{subst}
use raftfs.Prelude.{
  Bool-cases, List, Option, [], append-nil, arith, contains, inl, inr, length, length-append, ltb,
  refl, some, sym, true, ℕ, ◌++◌, ◌<◌, ◌∙◌, ◌∷◌, ◌≡◌, ◌≢◌, ◌≤◌, ◌⊎◌,
}
use raftfs.Protocol.{
  Entry, Text, MetaOp, ReqVoteRequest, ReqVoteResponse, AppendEntriesRequest, AppendEntriesResponse,
}
use raftfs.Raft.{Consensus, Timer, leader, check_leader}
use raftfs.Raft.Rpc.{on_append_entries, on_request_vote, begin_meta_operation}
use raftfs.Raft.Remote.{on_append_entries_response, on_request_vote_response}
use raftfs.Raft.Contents.{begin_meta_operation-log, added, on_append_entries_response-log, added}
use raftfs.Cluster.{
  Cluster, Call, Timely, start, Move, check, meta, ask_vote, ask_append, vote, append, voted,
  appended, Reach,
}
use raftfs.Raft.Votes.{Reach-Follows}
use raftfs.Cluster.Histories.{Move-Reach}
use raftfs.Cluster.Counted.{Of}
use raftfs.Cluster.Elected.{Elected, Elected-unique, leader-Elected, Reach-Election}
use raftfs.Cluster.Senders.{IsSent}

-- A leader moves on to a later term, or goes on leading in its term and only appends to its log.
abbrev pub AppendsOnly : Consensus → Consensus → Type 0
AppendsOnly s s' =
    (s.current_term < s'.current_term)
    ⊎ ((s'.current_term ≡ s.current_term)
        × (s'.current_role ≡ leader)
        × (more : List Entry) × (s'.log.memory_log ≡ s.log.memory_log ++ more))

-- A leader whose log stays the same.
pub same_log :
    (s s' : Consensus)
    → s'.log.memory_log ≡ s.log.memory_log
    → (s.current_term < s'.current_term)
      ⊎ ((s'.current_term ≡ s.current_term) × (s'.current_role ≡ leader))
    → AppendsOnly s s'
same_log s s' same (inl later) = inl later
same_log s s' same (inr (term, leads)) =
    inr (term, leads, [], same ∙ sym (append-nil s.log.memory_log))

check_leader-AppendsOnly :
    (t : Timer) (s : Consensus) → s.current_role ≡ leader → AppendsOnly s (check_leader t s)
unfolding check_leader
check_leader-AppendsOnly t s leads = same_log s (check_leader t s) (ground arith) (ground arith)

on_request_vote-AppendsOnly :
    (t u : Timer) (req : ReqVoteRequest) (s : Consensus)
    → s.current_role ≡ leader
    → AppendsOnly s (on_request_vote t u req s).0
unfolding on_request_vote
on_request_vote-AppendsOnly t u req s leads =
    same_log s (on_request_vote t u req s).0 (ground arith) (ground arith)

on_request_vote_response-AppendsOnly :
    (id : ℕ) (resp : ReqVoteResponse) (s : Consensus)
    → s.current_role ≡ leader
    → AppendsOnly s (on_request_vote_response id resp s)
unfolding on_request_vote_response
on_request_vote_response-AppendsOnly id resp s leads =
    same_log s (on_request_vote_response id resp s) (ground arith) (ground arith)

on_append_entries_response-AppendsOnly :
    (t : Timer) (id : ℕ) (req : AppendEntriesRequest) (resp : AppendEntriesResponse)
    (s s' : Consensus)
    → on_append_entries_response t id req resp s ≡ some s'
    → s.current_role ≡ leader
    → AppendsOnly s s'
unfolding on_append_entries_response
on_append_entries_response-AppendsOnly t id req resp s s' e leads =
    same_log s s' (on_append_entries_response-log t id req resp s s' e) (ground arith)

on_append_entries-AppendsOnly :
    (t u : Timer) (req : AppendEntriesRequest) (s s' : Consensus) (resp : AppendEntriesResponse)
    → on_append_entries t u req s ≡ some (s', resp)
    → req.term ≢ s.current_term
    → s.current_role ≡ leader
    → AppendsOnly s s'
unfolding on_append_entries
on_append_entries-AppendsOnly t u req s s' resp e other leads =
    elim (Bool-cases (ltb req.term s.current_term)) [
      | inl old ↦ same_log s s' (ground arith) (ground arith)
      | inr new ↦ inl (ground arith)
    ]

pub begin_meta_operation-leads :
    (op : MetaOp) (path : Text) (s : Consensus)
    → let s' = (begin_meta_operation op path s).0 in
      (s'.current_term ≡ s.current_term) × (s'.current_role ≡ s.current_role)
unfolding begin_meta_operation
begin_meta_operation-leads op path s = ground arith

module _ (hosts : List ℕ) (timers : ℕ → Timer) (i : ℕ) {c : Cluster}
    (r : Reach Timely hosts (start hosts timers) c) (known : contains i hosts ≡ true)
    (leads : (c.servers i).current_role ≡ leader) where
  -- Only the host that leads in a term sends requests in it, so no request reaches it there.
  pub Move-AppendsOnly :
      {ended : Option Call} {s' : Consensus} {calls : List Call}
      → Move Timely i (c.servers i) ended s' calls
      → Of (IsSent hosts c.servers) ended
      → AppendsOnly (c.servers i) s'
  Move-AppendsOnly (check t) _ = check_leader-AppendsOnly t (c.servers i) leads
  Move-AppendsOnly (meta op path _) _ =
      let (term, role) = begin_meta_operation-leads op path (c.servers i) in
      inr (
        term,
        role ∙ leads,
        added op path (c.servers i) ∷ [],
        begin_meta_operation-log op path (c.servers i)
            ((Reach-Election hosts timers i r).0.leader_known leads),
      )
  Move-AppendsOnly (ask_vote k _ _ _) _ =
      same_log (c.servers i) (c.servers i) refl (inr (refl, leads))
  Move-AppendsOnly (ask_append k _ req _ _ _) _ =
      same_log (c.servers i) (c.servers i) refl (inr (refl, leads))
  Move-AppendsOnly (vote t u j req) _ = on_request_vote-AppendsOnly t u req (c.servers i) leads
  Move-AppendsOnly (append t u j req s' resp e) (other, elected) =
      on_append_entries-AppendsOnly t u req (c.servers i) s' resp e
        (λ same. other (
          Elected-unique hosts c.servers (c.servers i).current_term j i
            (subst (λ n. Elected hosts c.servers n j) same elected)
            (leader-Elected hosts timers i r known leads)))
        leads
  Move-AppendsOnly (voted j req resp _) _ =
      on_request_vote_response-AppendsOnly j resp (c.servers i) leads
  Move-AppendsOnly (appended t j req resp s' e) _ =
      on_append_entries_response-AppendsOnly t j req resp (c.servers i) s' e leads

-- The host is past the term, or leads in it and has an entry numbered `index`.
abbrev pub Keeps : ℕ → ℕ → Consensus → Type 0
Keeps term index s =
    (term < s.current_term)
    ⊎ ((term ≡ s.current_term) × (s.current_role ≡ leader) × (index ≤ length s.log.memory_log))

pub Move-Keeps :
    (term index : ℕ) (hosts : List ℕ) (timers : ℕ → Timer) (i : ℕ) {c : Cluster}
    {ended : Option Call} {s' : Consensus} {calls : List Call}
    → Reach Timely hosts (start hosts timers) c
    → contains i hosts ≡ true
    → Move Timely i (c.servers i) ended s' calls
    → Of (IsSent hosts c.servers) ended
    → Keeps term index (c.servers i)
    → Keeps term index s'
Move-Keeps term index hosts timers i {c} {s' = s'} r known m sent (inl past) =
    inl (omega (arith, (Reach-Follows (Move-Reach m)).term_grows))
Move-Keeps term index hosts timers i {c} {s' = s'} r known m sent (inr (same, leads, there)) =
    elim (Move-AppendsOnly hosts timers i r known leads m sent) [
      | inl later ↦ inl (omega arith)
      | inr (term_same, still, more, grown) ↦ inr (
        omega arith,
        still,
        rw grown (omega (arith, length-append (c.servers i).log.memory_log more)),
      )
    ]
