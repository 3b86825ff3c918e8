-- ===== src/Raft/Elections.antt =====
-- What a server's role says about its votes, in every state that it reaches.
use raftfs.Prelude.{
  ℕ, ◌+◌, ◌≤◌, ◌≡◌, true, inl, inr, List, none, some, arith, Option-cases, length, contains, pos,
  IsDistinct,
}
use raftfs.Protocol.{
  Text, MetaOp, ReqVoteRequest, ReqVoteResponse, AppendEntriesRequest, AppendEntriesResponse,
}
use raftfs.Raft.Pools.{Reach-IsDistinct}
use raftfs.Raft.{Consensus, Timer, init, check_leader, candidate, leader}
use raftfs.Raft.Rpc.{on_append_entries, on_request_vote, begin_meta_operation}
use raftfs.Raft.Remote.{on_append_entries_response, on_request_vote_response}
use raftfs.Raft.Step.{Step, check, append, vote, meta, appended, voted, Reach, here, next}

pub record Election (s : Consensus) : Type 0 where
  pub votes_past : (term host : ℕ) → s.vote_for term ≡ some host → term ≤ s.current_term
  pub candidate_votes : s.current_role ≡ candidate → s.vote_for s.current_term ≡ some s.self_id
  pub candidate_counts : s.current_role ≡ candidate → contains s.self_id s.vote_pool ≡ true
  pub leader_votes : s.current_role ≡ leader → s.vote_for s.current_term ≡ some s.self_id
  pub leader_counts : s.current_role ≡ leader → s.quorum_size ≤ length s.vote_pool
  pub leader_known : s.current_role ≡ leader → s.leader_id ≡ pos s.self_id

init-Election : (t : Timer) (self : ℕ) (others : List ℕ) → Election (init t self others)
unfolding init
init-Election t self others = record {
  votes_past = λ k h e. cc;
  candidate_votes = λ e. cc;
  candidate_counts = λ e. cc;
  leader_votes = λ e. cc;
  leader_counts = λ e. cc;
  leader_known = λ e. cc;
}

pub next_term_free : (s : Consensus) → Election s → s.vote_for (s.current_term + 1) ≡ none
next_term_free s v = elim (Option-cases (s.vote_for (s.current_term + 1))) [
  | inl free ↦ free
  | inr (host, cast) ↦ absurd (omega (arith, v.votes_past _ host cast))
]

check_leader-Election : (t : Timer) (s : Consensus) → Election s → Election (check_leader t s)
unfolding check_leader
check_leader-Election t s v = record {
  votes_past = λ k h e. ground (arith, v.votes_past k h);
  candidate_votes = λ e. ground (arith, next_term_free s v);
  candidate_counts = λ e. ground (arith, next_term_free s v);
  leader_votes = λ e. ground arith;
  leader_counts = λ e. ground arith;
  leader_known = λ e. ground arith;
}

pub on_request_vote-Election :
    (t u : Timer) (req : ReqVoteRequest) (s : Consensus)
    → Election s
    → Election (on_request_vote t u req s).0
unfolding on_request_vote
on_request_vote-Election t u req s v = record {
  votes_past = λ k h e. ground (arith, v.votes_past k h);
  candidate_votes = λ e. ground arith;
  candidate_counts = λ e. ground arith;
  leader_votes = λ e. ground arith;
  leader_counts = λ e. ground arith;
  leader_known = λ e. ground arith;
}

on_append_entries-Election :
    (t u : Timer) (req : AppendEntriesRequest) (s s' : Consensus) (resp : AppendEntriesResponse)
    → on_append_entries t u req s ≡ some (s', resp)
    → Election s
    → Election s'
unfolding on_append_entries
on_append_entries-Election t u req s s' resp e v = record {
  votes_past = λ k h c. ground (arith, v.votes_past k h);
  candidate_votes = λ c. ground arith;
  candidate_counts = λ c. ground arith;
  leader_votes = λ c. ground arith;
  leader_counts = λ c. ground arith;
  leader_known = λ c. ground arith;
}

begin_meta_operation-Election :
    (s : Consensus) (op : MetaOp) (path : Text)
    → Election s
    → Election (begin_meta_operation op path s).0
unfolding begin_meta_operation
begin_meta_operation-Election s op path v = record {
  votes_past = λ k h c. ground (arith, v.votes_past k h);
  candidate_votes = λ c. ground arith;
  candidate_counts = λ c. ground arith;
  leader_votes = λ c. ground arith;
  leader_counts = λ c. ground arith;
  leader_known = λ c. ground arith;
}

on_append_entries_response-Election :
    (t : Timer) (id : ℕ) (req : AppendEntriesRequest) (resp : AppendEntriesResponse)
    (s s' : Consensus)
    → on_append_entries_response t id req resp s ≡ some s'
    → Election s
    → Election s'
unfolding on_append_entries_response
on_append_entries_response-Election t id req resp s s' e v = record {
  votes_past = λ k h c. ground (arith, v.votes_past k h);
  candidate_votes = λ c. ground arith;
  candidate_counts = λ c. ground arith;
  leader_votes = λ c. ground arith;
  leader_counts = λ c. ground arith;
  leader_known = λ c. ground arith;
}

on_request_vote_response-Election :
    (id : ℕ) (resp : ReqVoteResponse) (s : Consensus)
    → Election s
    → Election (on_request_vote_response id resp s)
unfolding on_request_vote_response
on_request_vote_response-Election id resp s v = record {
  votes_past = λ k h c. ground (arith, v.votes_past k h);
  candidate_votes = λ c. ground arith;
  candidate_counts = λ c. ground arith;
  leader_votes = λ c. ground arith;
  leader_counts = λ c. ground arith;
  leader_known = λ c. ground arith;
}

Step-Election : {s t : Consensus} → Step s t → Election s → Election t
Step-Election {s} (check t) v = check_leader-Election t s v
Step-Election {s} (append t u req {s'} {resp} e) v =
    on_append_entries-Election t u req s s' resp e v
Step-Election {s} (vote t u req) v = on_request_vote-Election t u req s v
Step-Election {s} (meta op path) v = begin_meta_operation-Election s op path v
Step-Election {s} (appended t id req resp {s'} e) v =
    on_append_entries_response-Election t id req resp s s' e v
Step-Election {s} (voted id resp) v = on_request_vote_response-Election id resp s v

Reach-Election : {s t : Consensus} → Election s → Reach s t → Election t
Reach-Election v here = v
Reach-Election v (next r st) = Step-Election st (Reach-Election v r)

-- In every state that a server reaches from its start: no vote is for a term above its own; a
-- candidate has voted for itself and counts that vote; a leader has its own vote and a quorum of
-- votes counted, and names itself as the leader; and no vote is counted twice.
pub Reach-init-Election :
    (t : Timer) (self : ℕ) (others : List ℕ) {s : Consensus}
    → Reach (init t self others) s
    → Election s × IsDistinct s.vote_pool
unfolding init
Reach-init-Election t self others r =
    (Reach-Election (init-Election t self others) r, Reach-IsDistinct tt r)
