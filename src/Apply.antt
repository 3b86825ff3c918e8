-- ===== src/Apply.antt =====
-- `FSUpdateLoop` of server/RaftConsensus.cpp, which applies committed entries to the tree. One call of
-- `update_fs` is one round: what it reads of the consensus state does not change during the round, as
-- it may in Interleaved, and `clock` gives the time at which each index is applied. `none` is undefined
-- behaviour.
pub mod Index
pub mod Replay
pub mod Interleaved
pub mod Still
pub mod Again
pub mod Agree
use raftfs.Prelude.{
  ℕ, zero, suc, ◌+◌, ◌-◌, Bool, true, false, ◌&&◌, ◌||◌, List, Option, none, some, leb,
  if◌then◌else◌, ◌>>=◌, length,
}
use raftfs.Protocol.{Text, MetaOp, mkdir, rmdir, create, delete, Entry}
use raftfs.Log.{get_entry, get_last_commit_index}
use raftfs.Raft.{Consensus, is_leader, is_follower}
use raftfs.Inode.{unknown}
use raftfs.Namespace.{
  FsNamespace, set_commited_index, make_dir, delete_dir, create_file_at, remove_file,
}

-- The test before an entry is applied.
unfoldable pub can_apply : Consensus → ℕ → Bool
can_apply s i =
    is_leader s.current_role && leb s.quorum_size (length (s.pending_entries i))
    || is_follower s.current_role

module _ (split : Text → List Text) where
  -- The operation's result is only printed.
  unfoldable pub apply_op : MetaOp → Text → ℕ → FsNamespace → Option FsNamespace
  apply_op mkdir path now fs = do (fs', done) ← make_dir split path true now fs; some fs'
  apply_op rmdir path now fs = do (fs', done) ← delete_dir split path unknown true fs; some fs'
  apply_op create path now fs = do (fs', done) ← create_file_at split path now fs; some fs'
  apply_op delete path now fs = do (fs', done) ← remove_file split path unknown fs; some fs'
  apply_op _ path now fs = some fs

  module _ (clock : ℕ → ℕ) where
    -- The rounds of the inner loop that are left, its index, and its `commited`.
    pub apply_from : ℕ → ℕ → Consensus → FsNamespace → ℕ → Option (FsNamespace × ℕ)
    apply_from zero i s fs commited = some (fs, commited)
    apply_from (suc rounds) i s fs commited = elim (can_apply s i) [
      | true ↦ (do
        e ← get_entry i s.log
        fs' ← apply_op e.op e.value (clock i) fs
        apply_from rounds (i + 1) s fs' i)
      | false ↦ some (fs, commited)
    ]

    pub update_fs : Consensus → FsNamespace → Option FsNamespace
    update_fs s fs = do
      (fs', commited) ←
          apply_from (get_last_commit_index s.log - fs.commited_index) (fs.commited_index + 1) s fs
            0
      some (set_commited_index commited fs')
