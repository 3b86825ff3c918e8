-- ===== src/Cluster/Known.antt =====
-- The leader that a host names, to clients and to itself.

use raftfs.Prelude.{ℕ, ◌≡◌, ◌⊎◌, some, arith, pos}
use raftfs.Protocol.{
  Text, MetaOp, ReqVoteRequest, ReqVoteResponse, AppendEntriesRequest, AppendEntriesResponse,
}
use raftfs.Raft.{Consensus, Timer, check_leader, leader}
use raftfs.Raft.Rpc.{on_append_entries, on_request_vote, begin_meta_operation}
use raftfs.Raft.Remote.{on_append_entries_response, on_request_vote_response}
use raftfs.Cluster.{Call, append_asked}

-- A request names its sender.
abbrev pub IsSigned : Call → Type 0
IsSigned (append_asked i j req) = req.leader_id ≡ i
IsSigned _ = Unit

-- Where the leader that a host names after a move comes from.
abbrev pub Source : Consensus → Consensus → ℕ → Type 0
Source s s' j =
    ((s.leader_id ≡ pos j) × (s'.current_term ≡ s.current_term))
    ⊎ ((j ≡ s.self_id) × (s'.current_role ≡ leader))

module _ (j : ℕ) where
  pub check_leader-Source :
      (t : Timer) (s : Consensus)
      → (check_leader t s).leader_id ≡ pos j
      → Source s (check_leader t s) j
  unfolding check_leader
  check_leader-Source t s e = ground arith

  pub on_request_vote-Source :
      (t u : Timer) (req : ReqVoteRequest) (s : Consensus)
      → (on_request_vote t u req s).0.leader_id ≡ pos j
      → Source s (on_request_vote t u req s).0 j
  unfolding on_request_vote
  on_request_vote-Source t u req s e = ground arith

  pub on_request_vote_response-Source :
      (id : ℕ) (resp : ReqVoteResponse) (s : Consensus)
      → (on_request_vote_response id resp s).leader_id ≡ pos j
      → Source s (on_request_vote_response id resp s) j
  unfolding on_request_vote_response
  on_request_vote_response-Source id resp s e = ground arith

  pub begin_meta_operation-Source :
      (op : MetaOp) (path : Text) (s : Consensus)
      → (begin_meta_operation op path s).0.leader_id ≡ pos j
      → Source s (begin_meta_operation op path s).0 j
  unfolding begin_meta_operation
  begin_meta_operation-Source op path s e = ground arith

  pub on_append_entries_response-Source :
      (t : Timer) (id : ℕ) (req : AppendEntriesRequest) (resp : AppendEntriesResponse)
      (s s' : Consensus)
      → on_append_entries_response t id req resp s ≡ some s'
      → s'.leader_id ≡ pos j
      → Source s s' j
  unfolding on_append_entries_response
  on_append_entries_response-Source t id req resp s s' ran e = ground arith

  pub on_append_entries-Source :
      (t u : Timer) (req : AppendEntriesRequest) (s s' : Consensus) (resp : AppendEntriesResponse)
      → on_append_entries t u req s ≡ some (s', resp)
      → s'.leader_id ≡ pos j
      → Source s s' j ⊎ ((j ≡ req.leader_id) × (s'.current_term ≡ req.term))
  unfolding on_append_entries
  on_append_entries-Source t u req s s' resp ran e = ground arith
