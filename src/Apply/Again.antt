-- ===== src/Apply/Again.antt =====
-- Rounds of `FSUpdateLoop` that apply nothing.
use raftfs.Prelude.{
  ℕ, zero, suc, ◌+◌, ◌-◌, ◌≤◌, ◌<◌, ◌≡◌, refl, false, List, some, length, take, arith, ◌>>=◌,
}
use raftfs.Protocol.{Text}
use raftfs.Log.{get_last_commit_index}
use raftfs.Log.Indexed.{IsIndexed}
use raftfs.Raft.{Consensus}
use raftfs.Namespace.{FsNamespace, set_commited_index}
use raftfs.Apply.{can_apply, apply_from, update_fs}
use raftfs.Apply.Replay.{AllApply, apply_all, update_fs-apply_all}

apply_from-refused :
    (split : Text → List Text) (clock : ℕ → ℕ) (rounds i : ℕ) (s : Consensus) (fs : FsNamespace)
    (c : ℕ)
    → can_apply s i ≡ false
    → apply_from split clock rounds i s fs c ≡ some (fs, c)
unfolding apply_from
apply_from-refused split clock zero i s fs c e = refl
apply_from-refused split clock (suc rounds) i s fs c e = rw (e, apply_from)

refused_round :
    (split : Text → List Text) (clock : ℕ → ℕ) (s : Consensus) (fs : FsNamespace)
    → can_apply s (fs.commited_index + 1) ≡ false
    → update_fs split clock s fs ≡ some (set_commited_index 0 fs)
unfolding update_fs
refused_round split clock s fs refused = rw (
    apply_from-refused split clock (get_last_commit_index s.log - fs.commited_index)
      (fs.commited_index + 1) s fs 0 refused)

-- When the first committed entry that is not applied may not be applied (its server is a candidate,
-- or a leader that counts no quorum for it), the round keeps the tree and sets the committed index
-- back to 0. A later round that may apply every entry then applies all of them from the first, on the
-- tree that has them already.
pub update_fs-again :
    (split : Text → List Text) (clock : ℕ → ℕ) (s t : Consensus) (fs : FsNamespace)
    → can_apply s (fs.commited_index + 1) ≡ false
    → IsIndexed 0 t.log.memory_log
    → 0 < get_last_commit_index t.log
    → get_last_commit_index t.log ≤ length t.log.memory_log
    → AllApply split clock (get_last_commit_index t.log) 1 t
    → (update_fs split clock s fs ≡ some (set_commited_index 0 fs))
      × (update_fs split clock t (set_commited_index 0 fs) ≡ (do
        fs' ←
            apply_all split clock 1
              (take (get_last_commit_index t.log) t.log.memory_log)
              (set_commited_index 0 fs)
        some (set_commited_index (get_last_commit_index t.log) fs')))
update_fs-again split clock s t fs refused h new le pass =
    let r = get_last_commit_index t.log - 1 in
    let e : get_last_commit_index t.log ≡ 0 + suc r = omega arith in
    let e' : get_last_commit_index t.log ≡ suc r = omega arith in
    let whole =
      update_fs-apply_all split clock t (set_commited_index 0 fs) r h e (omega arith)
        (rw e' at pass) in
    let e2 : 0 + suc r ≡ suc r = omega arith in
    (refused_round split clock s fs refused, rw e' (rw e2 at whole))
