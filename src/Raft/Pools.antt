-- ===== src/Raft/Pools.antt =====
-- The set of votes that a candidate counts.
use raftfs.Prelude.{
  ℕ, ◌≡◌, ◌⊎◌, refl, inl, inr, List, [], ◌∷◌, some, arith, insert_set, IsDistinct,
  insert_set-IsDistinct,
}
use raftfs.Protocol.{
  Text, MetaOp, ReqVoteRequest, ReqVoteResponse, AppendEntriesRequest, AppendEntriesResponse,
}
use raftfs.Raft.{Consensus, Timer, check_leader}
use raftfs.Raft.Rpc.{on_append_entries, on_request_vote, begin_meta_operation}
use raftfs.Raft.Remote.{on_append_entries_response, on_request_vote_response}
use raftfs.Raft.Step.{Step, check, append, vote, meta, appended, voted, Reach, here, next}

-- What a step makes of the votes.
abbrev Votes : ℕ → List ℕ → List ℕ → Type 0
Votes self old new =
    (new ≡ old) ⊎ ((new ≡ []) ⊎ ((new ≡ self ∷ []) ⊎ ((id : ℕ) × (new ≡ insert_set id old))))

Votes-IsDistinct :
    (self : ℕ) (old new : List ℕ) → Votes self old new → IsDistinct old → IsDistinct new
Votes-IsDistinct self old new (inl e) h = rw e h
Votes-IsDistinct self old new (inr (inl e)) h = rw e tt
Votes-IsDistinct self old new (inr (inr (inl e))) h = rw e (refl, tt)
Votes-IsDistinct self old new (inr (inr (inr (id, e)))) h = rw e (insert_set-IsDistinct id old h)

check_leader-Votes :
    (t : Timer) (s : Consensus) → Votes s.self_id s.vote_pool (check_leader t s).vote_pool
unfolding check_leader
check_leader-Votes t s = ground arith

on_request_vote-Votes :
    (t u : Timer) (req : ReqVoteRequest) (s : Consensus)
    → Votes s.self_id s.vote_pool (on_request_vote t u req s).0.vote_pool
unfolding on_request_vote
on_request_vote-Votes t u req s = ground arith

on_append_entries-Votes :
    (t u : Timer) (req : AppendEntriesRequest) (s s' : Consensus) (resp : AppendEntriesResponse)
    → on_append_entries t u req s ≡ some (s', resp)
    → Votes s.self_id s.vote_pool s'.vote_pool
unfolding on_append_entries
on_append_entries-Votes t u req s s' resp e = ground arith

begin_meta_operation-Votes :
    (s : Consensus) (op : MetaOp) (path : Text)
    → Votes s.self_id s.vote_pool (begin_meta_operation op path s).0.vote_pool
unfolding begin_meta_operation
begin_meta_operation-Votes s op path = ground arith

on_append_entries_response-Votes :
    (t : Timer) (id : ℕ) (req : AppendEntriesRequest) (resp : AppendEntriesResponse)
    (s s' : Consensus)
    → on_append_entries_response t id req resp s ≡ some s'
    → Votes s.self_id s.vote_pool s'.vote_pool
unfolding on_append_entries_response
on_append_entries_response-Votes t id req resp s s' e = ground arith

on_request_vote_response-IsDistinct :
    (id : ℕ) (resp : ReqVoteResponse) (s : Consensus)
    → ((on_request_vote_response id resp s).vote_pool ≡ s.vote_pool)
      ⊎ ((on_request_vote_response id resp s).vote_pool ≡ insert_set id s.vote_pool)
unfolding on_request_vote_response
on_request_vote_response-IsDistinct id resp s = ground arith

Step-IsDistinct : {s t : Consensus} → Step s t → IsDistinct s.vote_pool → IsDistinct t.vote_pool
Step-IsDistinct {s} (check t) h = Votes-IsDistinct _ _ _ (check_leader-Votes t s) h
Step-IsDistinct {s} (append t u req {s'} {resp} e) h =
    Votes-IsDistinct _ _ _ (on_append_entries-Votes t u req s s' resp e) h
Step-IsDistinct {s} (vote t u req) h = Votes-IsDistinct _ _ _ (on_request_vote-Votes t u req s) h
Step-IsDistinct {s} (meta op path) h =
    Votes-IsDistinct _ _ _ (begin_meta_operation-Votes s op path) h
Step-IsDistinct {s} (appended t id req resp {s'} e) h =
    Votes-IsDistinct _ _ _ (on_append_entries_response-Votes t id req resp s s' e) h
Step-IsDistinct {s} (voted id resp) h = elim (on_request_vote_response-IsDistinct id resp s) [
  | inl same ↦ rw same h
  | inr more ↦ rw more (insert_set-IsDistinct id s.vote_pool h)
]

pub Reach-IsDistinct :
    {s t : Consensus} → IsDistinct s.vote_pool → Reach s t → IsDistinct t.vote_pool
Reach-IsDistinct h here = h
Reach-IsDistinct h (next r st) = Step-IsDistinct st (Reach-IsDistinct h r)
