-- ===== src/Raft/Step.antt =====
-- One server among others: the steps of its threads and of its RPC handlers, in any order. What the
-- others send is left open, and so is what the clock shows.
use raftfs.Prelude.{ℕ, ◌≡◌, some}
use raftfs.Protocol.{
  Text, MetaOp, ReqVoteRequest, ReqVoteResponse, AppendEntriesRequest, AppendEntriesResponse,
}
use raftfs.Raft.{Consensus, Timer, check_leader}
use raftfs.Raft.Rpc.{on_append_entries, on_request_vote, begin_meta_operation}
use raftfs.Raft.Remote.{on_append_entries_response, on_request_vote_response}

-- A handler that runs into undefined behaviour makes no step.
pub data Step (s : Consensus) : Consensus → Type 0 where
  check : (t : Timer) → Step s (check_leader t s)
  append :
      (t u : Timer) (req : AppendEntriesRequest) {s' : Consensus} {resp : AppendEntriesResponse}
      → on_append_entries t u req s ≡ some (s', resp)
      → Step s s'
  vote : (t u : Timer) (req : ReqVoteRequest) → Step s (on_request_vote t u req s).0
  meta : (op : MetaOp) (path : Text) → Step s (begin_meta_operation op path s).0
  appended :
      (t : Timer) (id : ℕ) (req : AppendEntriesRequest) (resp : AppendEntriesResponse)
      {s' : Consensus}
      → on_append_entries_response t id req resp s ≡ some s'
      → Step s s'
  voted : (id : ℕ) (resp : ReqVoteResponse) → Step s (on_request_vote_response id resp s)

-- From some state on; a server begins with `init`.
pub data Reach (s : Consensus) : Consensus → Type 0 where
  here : Reach s s
  next : {t u : Consensus} → Reach s t → Step t u → Reach s u
