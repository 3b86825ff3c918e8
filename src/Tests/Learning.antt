-- ===== src/Tests/Learning.antt =====
-- The second and the third of three servers learn that the change is committed, and build the same tree.
use raftfs.Prelude.{◌≡◌, refl, arith, [], ◌∷◌, some, update, get_elem?}
use raftfs.Protocol.{AppendEntriesRequest}
use raftfs.Log.{
  print_log, empty_log, get_last_log_index, get_last_log_term_and_index, append_entry,
  get_last_commit_index, set_last_commit_index, append_entries, get_entries_start_at,
}
use raftfs.Raft.{Consensus, RemoteHost, init, check_leader, leader}
use raftfs.Raft.Rpc.{
  show_log, on_request_vote, on_append_entries, store_entries, advance_commit, begin_meta_operation,
}
use raftfs.Raft.Remote.{request_vote_request, on_request_vote_response, append_entries_request}
use raftfs.Cluster.{
  Cluster, append_asked, append_answered, Led, nothing, first, start, ask_append, append, move,
  Reach, here, next,
}
use raftfs.Namespace.{empty_namespace}
use raftfs.Apply.{update_fs}
use raftfs.Apply.Agree.{Behind}
use raftfs.Cluster.Trees.{same_trees}
use raftfs.Tests.Paths.{split}
use raftfs.Tests.Applying.{clock}
use raftfs.Tests.Data.{timer}
use raftfs.Tests.Clusters.{hosts, begun, request, following, reply, hosts-IsDistinct}
use raftfs.Tests.Commits.{third, committed, decided, run_to_committed}

abbrev remote_2 : RemoteHost
remote_2 = record { id = 2; next_index = some 2 }

abbrev heartbeat : AppendEntriesRequest
heartbeat = record {
  term = 1;
  leader_id = 1;
  prev_log_index = 1;
  prev_log_term = 1;
  entries = [];
  leader_commit_index = 1;
}

asks_second :
    (committed.current_role ≡ leader)
    × (get_elem? committed.remotes 0 ≡ some remote_2)
    × (append_entries_request remote_2 committed ≡ some heartbeat)
unfolding start init check_leader on_request_vote_response on_request_vote request_vote_request
    empty_log get_last_log_term_and_index begin_meta_operation append_entry append_entries_request
    get_last_commit_index get_entries_start_at
asks_second = (refl, refl, refl)

abbrev told : Cluster
told = record {
  servers = update decided.servers 1 committed;
  calls = append_asked 1 2 heartbeat ∷ [];
}

abbrev informed : Consensus
informed = record following {
  log = record { memory_log = request.entries; last_commited_index = 1 };
}

learns : on_append_entries timer timer heartbeat (told.servers 2) ≡ some (informed, reply)
unfolding start init check_leader on_request_vote_response on_request_vote request_vote_request
    empty_log get_last_log_term_and_index begin_meta_operation append_entry append_entries_request
    on_append_entries show_log print_log store_entries append_entries advance_commit
    get_last_commit_index set_last_commit_index get_last_log_index
learns = refl

abbrev learnt : Cluster
learnt = record {
  servers = update told.servers 2 informed;
  calls = append_answered 1 2 heartbeat reply ∷ [];
}

run_to_learnt : Reach Led hosts begun learnt
run_to_learnt =
    next
      (next run_to_committed (
        move 1 refl (ask_append 0 remote_2 heartbeat asks_second.0 asks_second.1 asks_second.2)
          nothing))
      (move 2 refl (append timer timer 1 heartbeat informed reply learns) first)

abbrev remote_3_counted : RemoteHost
remote_3_counted = record { id = 3; next_index = some 2 }

asks_third_again :
    (committed.current_role ≡ leader)
    × (get_elem? committed.remotes 1 ≡ some remote_3_counted)
    × (append_entries_request remote_3_counted committed ≡ some heartbeat)
unfolding start init check_leader on_request_vote_response on_request_vote request_vote_request
    empty_log get_last_log_term_and_index begin_meta_operation append_entry append_entries_request
    get_last_commit_index get_entries_start_at
asks_third_again = (refl, refl, refl)

abbrev told_3 : Cluster
told_3 = record {
  servers = update learnt.servers 1 committed;
  calls = append_asked 1 3 heartbeat ∷ learnt.calls;
}

abbrev informed_3 : Consensus
informed_3 = record third { log = record { memory_log = request.entries; last_commited_index = 1 } }

learns_3 : on_append_entries timer timer heartbeat (told_3.servers 3) ≡ some (informed_3, reply)
unfolding start init check_leader on_request_vote_response on_request_vote request_vote_request
    empty_log get_last_log_term_and_index begin_meta_operation append_entry append_entries_request
    on_append_entries show_log print_log store_entries append_entries advance_commit
    get_last_commit_index set_last_commit_index get_last_log_index
learns_3 = refl

abbrev learnt_3 : Cluster
learnt_3 = record {
  servers = update told_3.servers 3 informed_3;
  calls = append_answered 1 3 heartbeat reply ∷ learnt.calls;
}

run_to_learnt_3 : Reach Led hosts learnt learnt_3
run_to_learnt_3 =
    next
      (next here (
        move 1 refl
          (ask_append 1 remote_3_counted heartbeat asks_third_again.0 asks_third_again.1
            asks_third_again.2)
          nothing))
      (move 3 refl (append timer timer 1 heartbeat informed_3 reply learns_3) first)

second_follows : Behind split clock informed empty_namespace
unfolding get_last_commit_index empty_namespace start init check_leader on_request_vote
    request_vote_request get_last_log_term_and_index empty_log
second_follows = record {
  follows = refl;
  indexed = (refl, tt);
  past = refl;
  new = omega arith;
  stored = omega arith;
}

third_follows : Behind split clock informed_3 empty_namespace
unfolding get_last_commit_index empty_namespace start init check_leader on_request_vote
    request_vote_request get_last_log_term_and_index empty_log
third_follows = record {
  follows = refl;
  indexed = (refl, tt);
  past = refl;
  new = omega arith;
  stored = omega arith;
}

same_trees_example :
    update_fs split clock informed empty_namespace
    ≡ update_fs split clock informed_3 empty_namespace
unfolding get_last_commit_index
same_trees_example =
    same_trees hosts (λ i. timer) 2 3 split clock empty_namespace empty_namespace hosts-IsDistinct
      run_to_learnt run_to_learnt_3 second_follows third_follows refl refl
