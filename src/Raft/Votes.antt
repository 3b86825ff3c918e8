-- ===== src/Raft/Votes.antt =====
-- Terms and votes over any history of a server.
use raftfs.Prelude.{either, ◌⊎◌, ℕ, ◌≤◌, ◌≡◌, ◌↔◌, true, false, none, some, arith}
use Prim.Native.Nat.{max}
use raftfs.Protocol.{
  Text, MetaOp, ReqVoteRequest, ReqVoteResponse, AppendEntriesRequest, AppendEntriesResponse,
}
use raftfs.Log.{get_last_log_index, get_last_log_term, get_last_log_term_and_index}
use raftfs.Raft.{Consensus, Timer, check_leader}
use raftfs.Raft.Rpc.{on_append_entries, on_request_vote, begin_meta_operation}
use raftfs.Raft.Remote.{on_append_entries_response, on_request_vote_response}
use raftfs.Raft.Step.{Step, check, append, vote, meta, appended, voted, Reach, here, next}

-- Later states keep every vote that was cast, and no term falls.
pub record Follows (s t : Consensus) : Type 0 where
  pub term_grows : s.current_term ≤ t.current_term
  pub votes_stay : (term host : ℕ) → s.vote_for term ≡ some host → t.vote_for term ≡ some host

check_leader-Follows : (t : Timer) (s : Consensus) → Follows s (check_leader t s)
unfolding check_leader
check_leader-Follows t s = record { term_grows = ground arith; votes_stay = λ k h e. ground arith }

on_append_entries-Follows :
    (t u : Timer) (req : AppendEntriesRequest) (s s' : Consensus) (resp : AppendEntriesResponse)
    → on_append_entries t u req s ≡ some (s', resp)
    → Follows s s'
unfolding on_append_entries
on_append_entries-Follows t u req s s' resp e = record {
  term_grows = ground arith;
  votes_stay = λ k h v. ground arith;
}

on_request_vote-Follows :
    (t u : Timer) (req : ReqVoteRequest) (s : Consensus) → Follows s (on_request_vote t u req s).0
unfolding on_request_vote
on_request_vote-Follows t u req s = record {
  term_grows = ground arith;
  votes_stay = λ k h v. ground arith;
}

begin_meta_operation-Follows :
    (s : Consensus) (op : MetaOp) (path : Text) → Follows s (begin_meta_operation op path s).0
unfolding begin_meta_operation
begin_meta_operation-Follows s op path = record {
  term_grows = ground arith;
  votes_stay = λ k h v. ground arith;
}

on_append_entries_response-Follows :
    (t : Timer) (id : ℕ) (req : AppendEntriesRequest) (resp : AppendEntriesResponse)
    (s s' : Consensus)
    → on_append_entries_response t id req resp s ≡ some s'
    → Follows s s'
unfolding on_append_entries_response
on_append_entries_response-Follows t id req resp s s' e = record {
  term_grows = ground arith;
  votes_stay = λ k h v. ground arith;
}

on_request_vote_response-Follows :
    (id : ℕ) (resp : ReqVoteResponse) (s : Consensus)
    → Follows s (on_request_vote_response id resp s)
unfolding on_request_vote_response
on_request_vote_response-Follows id resp s = record {
  term_grows = ground arith;
  votes_stay = λ k h v. ground arith;
}

Step-Follows : {s t : Consensus} → Step s t → Follows s t
Step-Follows {s} (check t) = check_leader-Follows t s
Step-Follows {s} (append t u req {s'} {resp} e) = on_append_entries-Follows t u req s s' resp e
Step-Follows {s} (vote t u req) = on_request_vote-Follows t u req s
Step-Follows {s} (meta op path) = begin_meta_operation-Follows s op path
Step-Follows {s} (appended t id req resp {s'} e) =
    on_append_entries_response-Follows t id req resp s s' e
Step-Follows {s} (voted id resp) = on_request_vote_response-Follows id resp s

-- Whatever requests, responses and timeouts a server sees, its term never falls, and the host that
-- it voted for in a term stays its vote in that term.
pub Reach-Follows : {s t : Consensus} → Reach s t → Follows s t
Reach-Follows here = record { term_grows = omega arith; votes_stay = λ k h v. v }
Reach-Follows (next r st) =
    let f = Reach-Follows r in
    let g = Step-Follows st in
    record {
      term_grows = omega (arith, f.term_grows, g.term_grows);
      votes_stay = λ k h v. g.votes_stay k h (f.votes_stay k h v);
    }

-- A vote is granted exactly when the candidate's last index and last term are both at least those of
-- the local log, and no other host has this server's vote in the request's term; the candidate then
-- has that vote. Otherwise no vote changes. The response carries the term after the request.
pub on_request_vote-grants :
    (t u : Timer) (req : ReqVoteRequest) (s : Consensus)
    → let (s', resp) = on_request_vote t u req s in
      ((resp.vote_granted ≡ true) ↔ (
        (get_last_log_index s.log ≤ req.last_log_index)
        × (get_last_log_term s.log ≤ req.last_log_term)
        × ((s.vote_for req.term ≡ none) ⊎ (s.vote_for req.term ≡ some req.candidate_id))))
      × (((resp.vote_granted ≡ true) × (s'.vote_for req.term ≡ some req.candidate_id))
          ⊎ ((resp.vote_granted ≡ false) × ((k : ℕ) → s'.vote_for k ≡ s.vote_for k)))
      × (resp.term ≡ s'.current_term)
      × (s'.current_term ≡ max s.current_term req.term)
unfolding on_request_vote get_last_log_term_and_index get_last_log_index get_last_log_term
on_request_vote-grants t u req s = (
  (ground arith, ground arith),
  either _ (λ h. ground arith) (λ h k. ground arith),
  ground arith,
  ground arith,
)
