-- ===== src/Tests/Applying.antt =====
-- Rounds of `FSUpdateLoop` at a log of three entries.
use raftfs.Prelude.{ℕ, ◌≡◌, refl, arith, some, false, text_eq, take, ◌>>=◌}
use raftfs.Log.{get_last_commit_index}
use raftfs.Raft.{Consensus, follower, candidate}
use raftfs.Namespace.{
  set_commited_index, empty_namespace, make_dir, create_file_at, split_path, make_dir_pieces,
  make_levels, resolve, modify, on_child, get_parent_folder_and_child, locate,
}
use raftfs.Inode.{get_child, create_dir, add_child, map_child, create_file}
use raftfs.Apply.{can_apply, update_fs, apply_op}
use raftfs.Apply.Replay.{replay, apply_all, AllApply, update_fs-replay}
use raftfs.Apply.Again.{update_fs-again}
use raftfs.Tests.Data.{three_entries, three_entries-IsIndexed, log_with, server}
use raftfs.Tests.Paths.{split, tree}

abbrev pub clock : ℕ → ℕ
clock i = i

abbrev applying : Consensus
applying = server follower (log_with three_entries 3)

pub two_applied : replay split clock three_entries 2 ≡ some tree
unfolding empty_namespace apply_op make_dir create_file_at split_path make_dir_pieces make_levels
    resolve get_child create_dir add_child modify map_child on_child get_parent_folder_and_child
    locate text_eq create_file
two_applied = refl

follower_applies : AllApply split clock 1 3 applying
unfolding can_apply
follower_applies j a b = refl

all_apply : AllApply split clock 3 1 applying
unfolding can_apply
all_apply j a b = refl

committed : get_last_commit_index applying.log ≡ 3
unfolding get_last_commit_index
committed = refl

update_fs-replay_example : update_fs split clock applying tree ≡ replay split clock three_entries 3
unfolding get_last_commit_index
update_fs-replay_example =
    update_fs-replay split clock applying tree three_entries-IsIndexed two_applied (omega arith)
      (omega arith) follower_applies

abbrev standing : Consensus
standing = server candidate (log_with three_entries 3)

no_role : can_apply standing 3 ≡ false
unfolding can_apply
no_role = refl

update_fs-again_example :
    (update_fs split clock standing tree ≡ some (set_commited_index 0 tree))
    × (update_fs split clock applying (set_commited_index 0 tree) ≡ (do
      fs' ← apply_all split clock 1 (take 3 three_entries) (set_commited_index 0 tree)
      some (set_commited_index 3 fs')))
unfolding get_last_commit_index
update_fs-again_example =
    update_fs-again split clock standing applying tree no_role three_entries-IsIndexed (omega arith)
      (omega arith) all_apply
