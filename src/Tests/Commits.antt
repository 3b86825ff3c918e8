-- ===== src/Tests/Commits.antt =====
-- The change of three servers goes on: the third stores it too, and the leader commits it.
use raftfs.Prelude.{◌≡◌, refl, true, [], ◌∷◌, none, some, pos, update, get_elem?}
use raftfs.Protocol.{AppendEntriesResponse}
use raftfs.Log.{
  print_log, empty_log, get_last_log_index, get_last_log_term_and_index, append_entry,
  get_last_commit_index, set_last_commit_index, append_entries, get_entries_start_at,
}
use raftfs.Raft.{Consensus, RemoteHost, init, check_leader, leader}
use raftfs.Raft.Rpc.{
  show_log, on_request_vote, on_append_entries, store_entries, advance_commit, begin_meta_operation,
}
use raftfs.Raft.Remote.{
  request_vote_request, on_request_vote_response, append_entries_request,
  on_append_entries_response, count_acks,
}
use raftfs.Cluster.{
  Cluster, append_asked, append_answered, Led, nothing, first, start, ask_append, append, appended,
  move, fail, Reach, next,
}
use raftfs.Tests.Data.{timer}
use raftfs.Tests.Clusters.{
  hosts, begun, changed, request, following, reply, stored, on_to_stored, run_to_grown, grown,
}

abbrev remote_3 : RemoteHost
remote_3 = record { id = 3; next_index = some 1 }

-- To the third host goes what went to the second.
asks_third :
    ((stored.servers 1).current_role ≡ leader)
    × (get_elem? (stored.servers 1).remotes 1 ≡ some remote_3)
    × (append_entries_request remote_3 (stored.servers 1) ≡ some request)
unfolding start init check_leader on_request_vote_response on_request_vote request_vote_request
    empty_log get_last_log_term_and_index begin_meta_operation append_entry append_entries_request
    get_last_commit_index get_entries_start_at
asks_third = (refl, refl, refl)

abbrev sent_3 : Cluster
sent_3 = record {
  servers = update stored.servers 1 (stored.servers 1);
  calls = append_asked 1 3 request ∷ stored.calls;
}

on_to_sent_3 : {b : Cluster} → Reach Led hosts b grown → Reach Led hosts b sent_3
on_to_sent_3 r =
    next (on_to_stored r)
      (move 1 refl (ask_append 1 remote_3 request asks_third.0 asks_third.1 asks_third.2) nothing)

abbrev pub third : Consensus
third = record {
  self_id = 3;
  remotes = record { id = 1; next_index = none } ∷ record { id = 2; next_index = none } ∷ [];
  current_term = 1;
  vote_for = λ k. none;
  vote_pool = [];
  quorum_size = 2;
  leader_id = pos 1;
  current_role = following.current_role;
  next_election = 800;
  log = record { memory_log = request.entries; last_commited_index = 0 };
  pending_entries = λ k. [];
}

-- The third host is of term 0 still when it answers.
abbrev reply_3 : AppendEntriesResponse
reply_3 = record { term = 0; success = true; last_log_index = some 1 }

stores_3 : on_append_entries timer timer request (sent_3.servers 3) ≡ some (third, reply_3)
unfolding start init check_leader on_request_vote_response on_request_vote request_vote_request
    empty_log get_last_log_term_and_index begin_meta_operation append_entry append_entries_request
    on_append_entries show_log print_log store_entries append_entries advance_commit
    get_last_commit_index
stores_3 = refl

abbrev answered_3 : Cluster
answered_3 = record {
  servers = update sent_3.servers 3 third;
  calls = append_answered 1 3 request reply_3 ∷ stored.calls;
}

-- The answer is lost, and the leader asks again.
abbrev lost_3 : Cluster
lost_3 = record { servers = answered_3.servers; calls = stored.calls }

abbrev sent_again : Cluster
sent_again = record {
  servers = update lost_3.servers 1 (lost_3.servers 1);
  calls = append_asked 1 3 request ∷ stored.calls;
}

on_to_sent_again : {b : Cluster} → Reach Led hosts b grown → Reach Led hosts b sent_again
on_to_sent_again r =
    next
      (next
        (next (on_to_sent_3 r)
          (move 3 refl (append timer timer 1 request third reply_3 stores_3) first))
        (fail first))
      (move 1 refl (ask_append 1 remote_3 request asks_third.0 asks_third.1 asks_third.2) nothing)

stores_again : on_append_entries timer timer request (sent_again.servers 3) ≡ some (third, reply)
unfolding empty_log on_append_entries show_log print_log store_entries append_entries advance_commit
    get_last_commit_index get_last_log_index on_request_vote get_last_log_term_and_index start init
    request_vote_request check_leader
stores_again = refl

abbrev stored_3 : Cluster
stored_3 = record {
  servers = update sent_again.servers 3 third;
  calls = append_answered 1 3 request reply ∷ append_answered 1 2 request reply ∷ [];
}

abbrev one_ack : Consensus
one_ack = record changed {
  remotes = record { id = 2; next_index = some 1 } ∷ record { id = 3; next_index = some 2 } ∷ [];
  pending_entries = update (λ k. []) 1 (3 ∷ []);
}

counts_3 : on_append_entries_response timer 3 request reply (stored_3.servers 1) ≡ some one_ack
unfolding start init check_leader on_request_vote_response on_request_vote request_vote_request
    empty_log get_last_log_term_and_index begin_meta_operation append_entry
    on_append_entries_response get_last_commit_index count_acks
counts_3 = refl

abbrev acked_3 : Cluster
acked_3 = record {
  servers = update stored_3.servers 1 one_ack;
  calls = append_answered 1 2 request reply ∷ [];
}

abbrev pub committed : Consensus
committed = record one_ack {
  remotes = record { id = 2; next_index = some 2 } ∷ record { id = 3; next_index = some 2 } ∷ [];
  pending_entries = update (update (λ k. []) 1 (3 ∷ [])) 1 (2 ∷ 3 ∷ []);
  log = record { memory_log = request.entries; last_commited_index = 1 };
}

counts_2 : on_append_entries_response timer 2 request reply (acked_3.servers 1) ≡ some committed
unfolding start init check_leader on_request_vote_response on_request_vote request_vote_request
    empty_log get_last_log_term_and_index begin_meta_operation append_entry
    on_append_entries_response get_last_commit_index count_acks set_last_commit_index
counts_2 = refl

abbrev pub decided : Cluster
decided = record { servers = update acked_3.servers 1 committed; calls = [] }

pub on_to_committed : {b : Cluster} → Reach Led hosts b grown → Reach Led hosts b decided
on_to_committed r =
    next
      (next
        (next (on_to_sent_again r)
          (move 3 refl (append timer timer 1 request third reply stores_again) first))
        (move 1 refl (appended timer 3 request reply one_ack counts_3) first))
      (move 1 refl (appended timer 2 request reply committed counts_2) first)

pub run_to_committed : Reach Led hosts begun decided
run_to_committed = on_to_committed run_to_grown
