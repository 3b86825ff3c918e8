-- ===== src/Raft.antt =====
-- server/RaftConsensus.h and the role changes of server/RaftConsensus.cpp. A method returns the new
-- state and is one step, since it holds the mutex `m` (but for `OnMetaOperation`). Condition
-- variables hold no state: a waiting thread may run at any time. `none` is undefined behaviour.
pub mod Rpc
pub mod Remote
pub mod Step
pub mod Votes
pub mod Pools
pub mod Elections
pub mod Following
pub mod Faults
pub mod Leading
pub mod Ready
pub mod Replicating
pub mod Candidates
pub mod Fixed
pub mod Contents
pub mod Timers
pub mod Retries
pub mod Unchecked
use raftfs.Prelude.{
  ℕ, ◌+◌, ◌/◌, Bool, true, false, ◌&&◌, List, [], ◌∷◌, map, Option, none, some, ltb, leb, ◌==◌,
  if◌then◌else◌, length, update, ℤ, pos, minus_one,
}
use raftfs.Log.{LogManager, empty_log, get_last_log_index}

pub data Role : Type 0 where
  follower candidate leader : Role

abbrev pub is_leader : Role → Bool
is_leader leader = true
is_leader _ = false

abbrev pub is_follower : Role → Bool
is_follower follower = true
is_follower _ = false

abbrev pub is_candidate : Role → Bool
is_candidate candidate = true
is_candidate _ = false

-- `next_index` has no value until the first `ResetNextIndex`. The socket and the RPC client are not
-- part of the state.
pub record RemoteHost : Type 0 where
  pub id : ℕ
  pub next_index : Option ℕ

pub reset_next_index : ℕ → RemoteHost → RemoteHost
reset_next_index new_index r = record r { next_index = some new_index }

-- `vote_for` and `pending_entries` by key; a key of `pending_entries` that is read is there, empty.
pub record Consensus : Type 0 where
  pub self_id : ℕ
  pub remotes : List RemoteHost
  pub current_term : ℕ
  pub vote_for : ℕ → Option ℕ
  pub vote_pool : List ℕ
  pub quorum_size : ℕ
  pub leader_id : ℤ
  pub current_role : Role
  pub next_election : ℕ
  pub log : LogManager
  pub pending_entries : ℕ → List ℕ

-- What `PostponeElection` reads: the clock, and a number that the generator draws from 500 to 1000.
pub record Timer : Type 0 where
  pub now : ℕ
  pub delay : ℕ

pub postpone_election : Timer → Consensus → Consensus
postpone_election t s = record s { next_election = t.now + t.delay }

-- The constructor; the second list holds the ids of the other hosts.
unfoldable pub init : Timer → ℕ → List ℕ → Consensus
init t self others = record {
  self_id = self;
  remotes = map (λ h. record { id = h; next_index = none }) others;
  current_term = 0;
  vote_for = λ _. none;
  vote_pool = [];
  quorum_size = (length others + 1) / 2 + 1;
  leader_id = minus_one;
  current_role = follower;
  next_election = t.now + t.delay;
  log = empty_log;
  pending_entries = λ _. [];
}

pub start_leader_election : Consensus → Consensus
start_leader_election s =
    let term = s.current_term + 1 in
    let fresh = record s {
      current_term = term;
      current_role = candidate;
      leader_id = minus_one;
      vote_pool = [];
    } in
    elim (s.vote_for term) [
      | none ↦ record fresh {
        vote_for = update s.vote_for term (some s.self_id);
        vote_pool = s.self_id ∷ [];
      }
      | some _ ↦ fresh
    ]

pub change_to_leader : Consensus → Consensus
unfolding reset_next_index
change_to_leader s = record s {
  current_role = leader;
  leader_id = pos s.self_id;
  remotes = map (reset_next_index (get_last_log_index s.log + 1)) s.remotes;
}

pub change_to_follower : Timer → ℕ → Consensus → Consensus
change_to_follower t new_term s = record s {
  vote_pool = if is_candidate s.current_role then [] else s.vote_pool;
  current_role = follower;
  current_term = new_term;
  leader_id = minus_one;
  next_election = t.now + t.delay;
}

-- One round of `CheckLeaderLoop`, without its wait.
unfoldable pub check_leader : Timer → Consensus → Consensus
unfolding start_leader_election postpone_election
check_leader t s =
    if is_leader s.current_role
    then s
    else if leb s.next_election t.now
    then postpone_election t (start_leader_election s)
    else s
