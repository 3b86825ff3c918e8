-- ===== src/Raft/Rpc.antt =====
-- The handlers of server/RaftConsensus.cpp: `OnAppendEntries`, `OnRequestVote`, `OnMetaOperation`.
use raftfs.Prelude.{
  ℕ, Bool, true, false, ◌&&◌, ◌||◌, List, [], ◌∷◌, Option, none, some, ltb, leb, ◌==◌,
  if◌then◌else◌, ◌>>=◌, update, pos, is_minus_one,
}
use raftfs.Protocol.{
  Text, MetaOp, Entry, ReqVoteRequest, ReqVoteResponse, AppendEntriesRequest, AppendEntriesResponse,
  Status, ok, no_leader, timeout,
}
use raftfs.Log.{
  LogManager, get_last_log_index, get_last_commit_index, get_last_log_term_and_index,
  set_last_commit_index, append_entry, append_entries, print_log,
}
use raftfs.Raft.{Consensus, Timer, postpone_election, change_to_follower, is_candidate}

-- Whether a request of the leader makes this host follow it anew.
abbrev pub steps_down : AppendEntriesRequest → Consensus → Bool
steps_down req s =
    ltb s.current_term req.term || (is_candidate s.current_role && leb s.current_term req.term)

-- The term check of a request that is not outdated, and the leader's id if none is known.
pub accept_leader : Timer → Timer → AppendEntriesRequest → Consensus → Consensus
unfolding postpone_election change_to_follower
accept_leader t u req s =
    let waiting = postpone_election t s in
    let led =
      if steps_down req s
      then record (change_to_follower u req.term waiting) { leader_id = pos req.leader_id }
      else waiting in
    if is_minus_one led.leader_id then record led { leader_id = pos req.leader_id } else led

unfoldable pub append_all : List Entry → LogManager → Option (LogManager × Bool)
append_all [] log = some (log, true)
append_all (e ∷ es) log = append_entries (e ∷ es) log

-- The log operations: the log, and whether they succeeded. A request for what lies past the end of
-- the log would leave a gap.
unfoldable pub store_entries : ℕ → List Entry → LogManager → Option (LogManager × Bool)
unfolding append_all
store_entries prev entries log =
    if leb prev (get_last_log_index log) then append_all entries log else some (log, false)

unfoldable pub advance_commit : ℕ → LogManager → Option LogManager
advance_commit commit log =
    if ltb (get_last_commit_index log) commit then set_last_commit_index commit log else some log

-- The debug output at the end of the handler, which prints the log after a request with entries.
unfoldable pub show_log : List Entry → LogManager → Option LogManager
show_log [] log = some log
show_log (e ∷ es) log = print_log log

-- A response is zeroed before the handler runs, so a field that it does not set reads as 0 or false.
-- `last_log_index` is set on success, and where the request would leave a gap.
unfoldable pub on_append_entries :
    Timer → Timer → AppendEntriesRequest → Consensus → Option (Consensus × AppendEntriesResponse)
unfolding accept_leader
on_append_entries t u req s =
    if ltb req.term s.current_term
    then some (s, record { term = s.current_term; success = false; last_log_index = none })
    else do
      (stored, success) ← store_entries req.prev_log_index req.entries s.log
      log ← advance_commit req.leader_commit_index stored
      _ ← show_log req.entries log
      let gap = ltb (get_last_log_index s.log) req.prev_log_index
      some (
        record (accept_leader t u req s) { log = log },
        record {
          term = s.current_term;
          success = success;
          last_log_index =
              if success
              then some (get_last_log_index log)
              else if gap
              then some (get_last_log_index s.log)
              else none;
        },
      )

-- `term_index` is read before the term changes, which leaves the log alone.
abbrev pub up_to_date : ReqVoteRequest → LogManager → Bool
up_to_date req log =
    let (term, index) = get_last_log_term_and_index log in
    leb index req.last_log_index && leb term req.last_log_term

abbrev pub may_vote : Option ℕ → ℕ → Bool
may_vote none c = true
may_vote (some v) c = v == c

unfoldable pub on_request_vote :
    Timer → Timer → ReqVoteRequest → Consensus → Consensus × ReqVoteResponse
unfolding change_to_follower postpone_election
on_request_vote t u req s =
    let seen = if ltb s.current_term req.term then change_to_follower t req.term s else s in
    let grant = up_to_date req s.log && may_vote (seen.vote_for req.term) req.candidate_id in
    let voted = record seen { vote_for = update seen.vote_for req.term (some req.candidate_id) } in
    let after =
      if grant
      then if req.term == seen.current_term then postpone_election u voted else voted
      else seen in
    (after, record { term = seen.current_term; vote_granted = grant })

-- `OnMetaOperation` up to its wait: the entry that it appended, or no leader.
unfoldable pub begin_meta_operation : MetaOp → Text → Consensus → Consensus × Option Entry
begin_meta_operation op path s =
    if is_minus_one s.leader_id
    then (s, none)
    else let e : Entry = record { term = s.current_term; index = 0; op = op; value = path } in
      let (log, numbered) = append_entry e s.log in (record s { log = log }, some numbered)

-- The end of the wait of `OnMetaOperation`: at the commit of the entry, or after 2 seconds. Its pointer
-- is to the entry that the log owns, and the log deletes entries that are in conflict with a leader's.
pub record Wait : Type 0 where
  pub owned : Bool
  pub log : LogManager

-- Its result. A read of the entry after its deletion is undefined.
unfoldable pub end_meta_operation : Option Entry → Wait → Option Status
end_meta_operation none wait = some no_leader
end_meta_operation (some e) wait =
    if wait.owned
    then some (if leb e.index (get_last_commit_index wait.log) then ok else timeout)
    else none
