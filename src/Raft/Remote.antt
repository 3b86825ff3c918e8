-- ===== src/Raft/Remote.antt =====
-- `RemoteHostLoop` of server/RaftConsensus.cpp: what the thread of one remote host sends, and what it
-- does with the response. The mutex is free in between, so the state may have changed by then.
use raftfs.Prelude.{
  ℕ, ◌+◌, ◌-◌, ◌&&◌, List, [], ◌∷◌, map, Option, none, some, ltb, leb, ◌==◌, if◌then◌else◌, ◌>>=◌,
  length, insert_set, update,
}
use raftfs.Protocol.{
  Entry, ReqVoteRequest, ReqVoteResponse, AppendEntriesRequest, AppendEntriesResponse,
}
use raftfs.Log.{
  get_last_log_index, get_last_log_term, get_last_commit_index, set_last_commit_index,
  get_entries_start_at,
}
use raftfs.Raft.{
  RemoteHost, Consensus, Timer, reset_next_index, change_to_leader, change_to_follower,
  is_candidate,
}

-- The request of a leader, which reads the `next_index` of the remote host.
unfoldable pub append_entries_request : RemoteHost → Consensus → Option AppendEntriesRequest
append_entries_request r s = do
  next ← r.next_index
  some (record {
    term = s.current_term;
    leader_id = s.self_id;
    prev_log_index = next - 1;
    prev_log_term = get_last_log_term s.log;
    entries =
        if ltb (next - 1) (get_last_log_index s.log)
        then get_entries_start_at (next - 1) s.log
        else [];
    leader_commit_index = get_last_commit_index s.log;
  })

pub set_next : ℕ → ℕ → Consensus → Consensus
unfolding reset_next_index
set_next id next s = record s {
  remotes = map (λ r. if r.id == id then reset_next_index next r else r) s.remotes;
}

-- The loop over the entries that the remote host has stored: the hosts that have each entry, and the
-- last index that a quorum of remote hosts has.
unfoldable pub count_acks : ℕ → ℕ → ℕ → List Entry → (ℕ → List ℕ) → ℕ → (ℕ → List ℕ) × ℕ
count_acks quorum id commit [] pending new_commit = (pending, new_commit)
count_acks quorum id commit (e ∷ es) pending new_commit =
    let acks = insert_set id (pending e.index) in
    let skip = leb e.index commit in
    count_acks quorum id commit es (if skip then pending else update pending e.index acks)
      (if skip then new_commit else if leb quorum (length acks) then e.index else new_commit)

abbrev pub last_or_zero : Option ℕ → ℕ
last_or_zero none = 0
last_or_zero (some i) = i

-- A success: the remote host's next index, the acknowledgements, and the commit index.
pub on_stored : ℕ → List Entry → Option ℕ → Consensus → Option Consensus
unfolding set_next count_acks
on_stored id entries last s =
    let s' = set_next id (last_or_zero last + 1) s in
    let commit = get_last_commit_index s.log in
    let counted = count_acks s.quorum_size id commit entries s.pending_entries commit in
    let kept = record s' { pending_entries = counted.0 } in
    if counted.1 == commit
    then some kept
    else do log ← set_last_commit_index counted.1 s.log; some (record kept { log = log })

-- A refusal: five entries back.
abbrev pub backed_off : ℕ → ℕ
backed_off prev = if ltb 5 prev then prev - 5 else 1

unfoldable pub on_append_entries_response :
    Timer → ℕ → AppendEntriesRequest → AppendEntriesResponse → Consensus → Option Consensus
unfolding on_stored set_next change_to_follower
on_append_entries_response t id req resp s =
    if resp.term == s.current_term
    then if resp.success
      then elim req.entries [ [] ↦ some s | _ ∷ _ ↦ on_stored id req.entries resp.last_log_index s ]
      else some (set_next id (backed_off req.prev_log_index) s)
    else if ltb s.current_term resp.term
    then some (change_to_follower t resp.term s)
    else some s

-- The request of a candidate.
unfoldable pub request_vote_request : Consensus → ReqVoteRequest
request_vote_request s = record {
  term = s.current_term;
  candidate_id = s.self_id;
  last_log_index = get_last_log_index s.log;
  last_log_term = get_last_log_term s.log;
}

unfoldable pub on_request_vote_response : ℕ → ReqVoteResponse → Consensus → Consensus
unfolding change_to_leader
on_request_vote_response id resp s =
    if is_candidate s.current_role && (resp.vote_granted && leb resp.term s.current_term)
    then (let counted = record s { vote_pool = insert_set id s.vote_pool } in
        if leb s.quorum_size (length counted.vote_pool) then change_to_leader counted else counted)
    else s
