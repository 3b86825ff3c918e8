-- ===== src/Protocol.antt =====
-- protocol/Raft.thrift and protocol/Client.thrift: the values that servers and clients exchange.
-- Terms, indexes and host ids are the numbers that the servers themselves produce, none below 0.
use raftfs.Prelude.{ℕ, Bool, List, Option}

-- A `std::string` or `binary`, as its bytes.
abbrev pub Text : Type 0
Text = List ℕ

pub data MetaOp : Type 0 where
  mkdir rmdir create delete get_file_info list_dir noop : MetaOp

pub record Entry : Type 0 where
  pub term : ℕ
  pub index : ℕ
  pub op : MetaOp
  pub value : Text

pub record ReqVoteRequest : Type 0 where
  pub term : ℕ
  pub candidate_id : ℕ
  pub last_log_index : ℕ
  pub last_log_term : ℕ

pub record ReqVoteResponse : Type 0 where
  pub term : ℕ
  pub vote_granted : Bool

-- An optional list that is not set reads as the empty one.
pub record AppendEntriesRequest : Type 0 where
  pub term : ℕ
  pub leader_id : ℕ
  pub prev_log_index : ℕ
  pub prev_log_term : ℕ
  pub entries : List Entry
  pub leader_commit_index : ℕ

pub record AppendEntriesResponse : Type 0 where
  pub term : ℕ
  pub success : Bool
  pub last_log_index : Option ℕ

pub data Status : Type 0 where
  ok no_leader not_leader not_found timeout exist comm_error path_error : Status
