-- ===== src/Cluster/Votes.antt =====
-- The votes that candidates count are votes that were cast, as long as answers come in their term.
use raftfs.Prelude.{ℕ, ◌+◌, ◌≡◌, ◌⊎◌, true, false, List, none, some, arith, contains}
use raftfs.Protocol.{
  Text, MetaOp, ReqVoteRequest, ReqVoteResponse, AppendEntriesRequest, AppendEntriesResponse,
}
use raftfs.Raft.{Consensus, Timer, is_follower, check_leader}
use raftfs.Raft.Rpc.{on_append_entries, on_request_vote, begin_meta_operation}
use raftfs.Raft.Remote.{on_append_entries_response, on_request_vote_response}
use raftfs.Cluster.{Call, vote_asked, vote_answered, append_asked, append_answered}

-- Host v is one of the hosts and has voted for host i in this term.
abbrev pub HasVoted : List ℕ → (ℕ → Consensus) → ℕ → ℕ → ℕ → Type 0
HasVoted hosts servers i term v = (contains v hosts ≡ true) × ((servers v).vote_for term ≡ some i)

-- What a call says about votes.
abbrev pub CallVotes : List ℕ → (ℕ → Consensus) → Call → Type 0
CallVotes hosts servers (vote_asked i j req) = req.candidate_id ≡ i
CallVotes hosts servers (vote_answered i j req resp) =
    resp.vote_granted ≡ true → HasVoted hosts servers i req.term j
CallVotes hosts servers (append_asked i j req) = Unit
CallVotes hosts servers (append_answered i j req resp) = Unit

-- A vote in the pool of a host after it moved: counted before, or its own, or one that was cast.
abbrev pub IsCounted : List ℕ → (ℕ → Consensus) → ℕ → Consensus → Consensus → ℕ → Type 0
IsCounted hosts servers i s s' v =
    ((contains v s.vote_pool ≡ true)
      × (is_follower s.current_role ≡ false)
      × (s'.current_term ≡ s.current_term))
    ⊎ ((v ≡ s.self_id) × (s'.vote_for s'.current_term ≡ some s.self_id))
    ⊎ HasVoted hosts servers i s'.current_term v

module _ (hosts : List ℕ) (servers : ℕ → Consensus) (i v : ℕ) where
  pub check_leader-IsCounted :
      (t : Timer) (s : Consensus)
      → s.vote_for (s.current_term + 1) ≡ none
      → is_follower (check_leader t s).current_role ≡ false
      → contains v (check_leader t s).vote_pool ≡ true
      → IsCounted hosts servers i s (check_leader t s) v
  unfolding check_leader
  check_leader-IsCounted t s free role counted = ground arith

  pub on_request_vote-IsCounted :
      (t u : Timer) (req : ReqVoteRequest) (s : Consensus)
      → is_follower (on_request_vote t u req s).0.current_role ≡ false
      → contains v (on_request_vote t u req s).0.vote_pool ≡ true
      → IsCounted hosts servers i s (on_request_vote t u req s).0 v
  unfolding on_request_vote
  on_request_vote-IsCounted t u req s role counted = ground arith

  pub on_append_entries-IsCounted :
      (t u : Timer) (req : AppendEntriesRequest) (s s' : Consensus) (resp : AppendEntriesResponse)
      → on_append_entries t u req s ≡ some (s', resp)
      → is_follower s'.current_role ≡ false
      → contains v s'.vote_pool ≡ true
      → IsCounted hosts servers i s s' v
  unfolding on_append_entries
  on_append_entries-IsCounted t u req s s' resp e role counted = ground arith

  pub begin_meta_operation-IsCounted :
      (op : MetaOp) (path : Text) (s : Consensus)
      → is_follower (begin_meta_operation op path s).0.current_role ≡ false
      → contains v (begin_meta_operation op path s).0.vote_pool ≡ true
      → IsCounted hosts servers i s (begin_meta_operation op path s).0 v
  unfolding begin_meta_operation
  begin_meta_operation-IsCounted op path s role counted = ground arith

  pub on_append_entries_response-IsCounted :
      (t : Timer) (id : ℕ) (req : AppendEntriesRequest) (resp : AppendEntriesResponse)
      (s s' : Consensus)
      → on_append_entries_response t id req resp s ≡ some s'
      → is_follower s'.current_role ≡ false
      → contains v s'.vote_pool ≡ true
      → IsCounted hosts servers i s s' v
  unfolding on_append_entries_response
  on_append_entries_response-IsCounted t id req resp s s' e role counted = ground arith

  pub on_request_vote_response-IsCounted :
      (id : ℕ) (req : ReqVoteRequest) (resp : ReqVoteResponse) (s : Consensus)
      → req.term ≡ s.current_term
      → (resp.vote_granted ≡ true → HasVoted hosts servers i req.term id)
      → is_follower (on_request_vote_response id resp s).current_role ≡ false
      → contains v (on_request_vote_response id resp s).vote_pool ≡ true
      → IsCounted hosts servers i s (on_request_vote_response id resp s) v
  unfolding on_request_vote_response
  on_request_vote_response-IsCounted id req resp s fresh cast role counted = ground arith
