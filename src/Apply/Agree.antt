-- ===== src/Apply/Agree.antt =====
-- Followers with the same committed entries, at `FSUpdateLoop`.
use raftfs.Prelude.{ℕ, ◌≤◌, ◌<◌, ◌≡◌, sym, ap, ◌∙◌, true, List, some, length, take, ◌>>=◌}
use raftfs.Protocol.{Text, Entry}
use raftfs.Log.{get_last_commit_index}
use raftfs.Log.Indexed.{IsIndexed}
use raftfs.Raft.{Consensus, follower}
use raftfs.Namespace.{FsNamespace, set_commited_index, empty_namespace}
use raftfs.Apply.{can_apply, update_fs}
use raftfs.Apply.Replay.{replay, apply_all, update_fs-replay}

-- What holds of a follower between two rounds, once entries are committed that it has not applied.
pub record Behind (split : Text → List Text) (clock : ℕ → ℕ) (s : Consensus) (fs : FsNamespace)
    : Type 0 where
  pub follows : s.current_role ≡ follower
  pub indexed : IsIndexed 0 s.log.memory_log
  pub past : replay split clock s.log.memory_log fs.commited_index ≡ some fs
  pub new : fs.commited_index < get_last_commit_index s.log
  pub stored : get_last_commit_index s.log ≤ length s.log.memory_log

can_apply-follower : (s : Consensus) (j : ℕ) → s.current_role ≡ follower → can_apply s j ≡ true
unfolding can_apply
can_apply-follower s j e = rw e

-- Two followers that have committed the same entries, and applied some of them, each as many as it
-- came to, have the same tree after their next rounds of `FSUpdateLoop`, up to the times of
-- application, which are taken to be the same.
pub update_fs-agree :
    (split : Text → List Text) (clock : ℕ → ℕ) (s t : Consensus) (fs gs : FsNamespace)
    → Behind split clock s fs
    → Behind split clock t gs
    → get_last_commit_index s.log ≡ get_last_commit_index t.log
    → take (get_last_commit_index s.log) s.log.memory_log
      ≡ take (get_last_commit_index s.log) t.log.memory_log
    → update_fs split clock s fs ≡ update_fs split clock t gs
update_fs-agree split clock s t fs gs hs ht n same =
    let one =
      update_fs-replay split clock s fs hs.indexed hs.past hs.new hs.stored
        (λ j a b. can_apply-follower s j hs.follows) in
    let two =
      update_fs-replay split clock t gs ht.indexed ht.past ht.new ht.stored
        (λ j a b. can_apply-follower t j ht.follows) in
    one
    ∙ ap
        (λ (es : List Entry). do
          fs' ← apply_all split clock 1 es empty_namespace
          some (set_commited_index (get_last_commit_index s.log) fs'))
        same
    ∙ ap (replay split clock t.log.memory_log) n
    ∙ sym two
