-- ===== src/Tests/Services.antt =====
-- Requests of clients to a leader.
use raftfs.Prelude.{
  ◌≡◌, ◌≤◌, ◌<◌, ◌⊎◌, refl, [], ◌∷◌, none, some, true, false, codes, text_eq, is_minus_one,
}
use raftfs.Protocol.{mkdir, ok, no_leader, not_leader, timeout, path_error}
use raftfs.Log.{LogManager, get_last_commit_index}
use raftfs.Raft.{Consensus, leader, is_leader}
use raftfs.Raft.Rpc.{Wait}
use raftfs.Namespace.Files.{new_file}
use raftfs.Inode.{dir, nil, unknown, get_child, add_child, map_child, create_file}
use raftfs.Namespace.{
  FsNamespace, validate_path, create_file_at, split_path, resolve, modify, on_child,
  get_parent_folder_and_child, locate,
}
use raftfs.Service.{ChangeResponse, FileInfoResponse, change}
use raftfs.Service.Changes.{logged, change-outcome}
use raftfs.Tests.Data.{make_a, make_b, three_entries, log_with, server}
use raftfs.Tests.Paths.{split, tree, inside, path_c}

abbrev asked : Consensus
asked = server leader (log_with (make_a ∷ make_b ∷ []) 2)

abbrev response : ChangeResponse
response = record { status = timeout; leader_id = none }

abbrev later_log : LogManager
later_log = log_with three_entries 3

abbrev wait : Wait
wait = record { owned = true; log = later_log }

change-outcome_example :
    ((validate_path (codes "/c") ≡ true)
      × (is_leader asked.current_role ≡ true)
      × (is_minus_one asked.leader_id ≡ false)
      × ((change mkdir (codes "/c") asked asked wait response).0 ≡ logged mkdir (codes "/c") asked)
      × (((true ≡ true)
            × (2 < get_last_commit_index later_log)
            × ((change mkdir (codes "/c") asked asked wait response).1
                ≡ some (record response { status = ok })))
          ⊎ ((true ≡ true)
              × (get_last_commit_index later_log ≤ 2)
              × ((change mkdir (codes "/c") asked asked wait response).1
                  ≡ some (record response { status = timeout })))
          ⊎ ((true ≡ false) × ((change mkdir (codes "/c") asked asked wait response).1 ≡ none))))
    ⊎ (((change mkdir (codes "/c") asked asked wait response).0 ≡ asked)
        × (((validate_path (codes "/c") ≡ false)
              × ((change mkdir (codes "/c") asked asked wait response).1
                  ≡ some (record response { status = path_error })))
            ⊎ ((is_leader asked.current_role ≡ false)
                × ((change mkdir (codes "/c") asked asked wait response).1
                    ≡ some (record { status = not_leader; leader_id = some asked.leader_id })))
            ⊎ ((is_minus_one asked.leader_id ≡ true)
                × ((change mkdir (codes "/c") asked asked wait response).1
                    ≡ some (record response { status = no_leader })))))
change-outcome_example = change-outcome mkdir (codes "/c") asked asked wait response

abbrev with_c : FsNamespace
with_c = record tree {
  root =
      dir (record { name = codes "a"; owner = unknown; create_time = 1 })
        (add_child (new_file (codes "c") 7) inside) nil;
}

creates : create_file_at split path_c 7 tree ≡ some (with_c, true)
unfolding create_file_at on_child get_parent_folder_and_child locate split_path resolve get_child
    text_eq create_file add_child modify map_child
creates = refl

abbrev unread : FileInfoResponse
unread = record { status = timeout; info = none }
