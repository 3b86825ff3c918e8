-- ===== src/Apply/Still.antt =====
-- The round of `FSUpdateLoop` in Interleaved, where nothing moves, is the one in Apply.
use raftfs.Prelude.{
  ℕ, zero, suc, ◌+◌, ◌-◌, ◌<◌, ◌≡◌, refl, true, false, List, arith, leb, Option-cases, Bool-cases,
  inl, inr,
}
use raftfs.Protocol.{Text}
use raftfs.Log.{get_entry, get_last_commit_index}
use raftfs.Raft.{Consensus}
use raftfs.Namespace.{FsNamespace}
use raftfs.Apply.{can_apply, apply_op, apply_from, update_fs}
use raftfs.Apply.Interleaved.{Reads, apply_between, update_fs_between}

abbrev still : Consensus → Reads
still s = record { bound = λ i. s; test = λ i. s; entry = λ i. s }

module _ (split : Text → List Text) (clock : ℕ → ℕ) (s : Consensus) where
  apply_between-still :
      (fuel rounds i : ℕ) (fs : FsNamespace) (commited : ℕ)
      → rounds ≡ get_last_commit_index s.log + 1 - i
      → rounds < fuel
      → apply_between split clock (still s) fuel i fs commited
        ≡ apply_from split clock rounds i s fs commited
  unfolding apply_between apply_from
  apply_between-still zero rounds i fs commited e enough = absurd (omega arith)
  apply_between-still (suc fuel) zero i fs commited e enough =
      let over : leb i (get_last_commit_index s.log) ≡ false = ground arith in
      rw (over, apply_between, apply_from) refl
  apply_between-still (suc fuel) (suc rounds) i fs commited e enough =
      let new : leb i (get_last_commit_index s.log) ≡ true = ground arith in
      elim (Bool-cases (can_apply s i)) [
        | inl pass ↦ elim (Option-cases (get_entry i s.log)) [
          | inl missing ↦ rw (new, pass, missing, apply_between, apply_from) refl
          | inr (x, found) ↦ elim (Option-cases (apply_op split x.op x.value (clock i) fs)) [
            | inl stuck ↦ rw (new, pass, found, stuck, apply_between, apply_from) refl
            | inr (fs1, done) ↦
                rw (new, pass, found, done, apply_between, apply_from)
                  (apply_between-still fuel rounds (i + 1) fs1 i (omega arith) (omega arith))
          ]
        ]
        | inr fails ↦ rw (new, fails, apply_between, apply_from) refl
      ]

  -- With fuel for one round more than there are entries to apply.
  update_fs_between-still :
      (fuel : ℕ) (fs : FsNamespace)
      → get_last_commit_index s.log - fs.commited_index < fuel
      → update_fs_between split clock (still s) fuel fs ≡ update_fs split clock s fs
  unfolding update_fs_between update_fs
  update_fs_between-still fuel fs enough =
      rw
        (apply_between-still fuel (get_last_commit_index s.log - fs.commited_index)
          (fs.commited_index + 1) fs 0 (omega arith) enough)
        refl
