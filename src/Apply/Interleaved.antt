-- ===== src/Apply/Interleaved.antt =====
-- A round of `FSUpdateLoop` in server/RaftConsensus.cpp while the other threads go on: the loop has
-- the mutex of the tree and not the one of the consensus, so each of its reads may see another state.
use mathlib.Core.Path.{subst}
use raftfs.Prelude.{
  ℕ, zero, suc, ◌+◌, ◌≤◌, ◌<◌, ◌≡◌, ◌⊎◌, refl, sym, ◌∙◌, true, false, List, Option, none, some,
  arith, ◌>>=◌, leb, length, drop-get_elem?, get_elem?, Option-cases, Bool-cases, inl, inr,
}
use raftfs.Protocol.{Text, Entry}
use raftfs.Log.{get_entry, get_last_commit_index}
use raftfs.Raft.{Consensus}
use raftfs.Namespace.{FsNamespace, set_commited_index}
use raftfs.Apply.{can_apply, apply_op}
use raftfs.Apply.Index.{apply_op-set_commited_index}
use raftfs.Apply.Replay.{replay, replay-past}

-- The states in which the loop compares an index with the commit index, makes the test, and gets the
-- entry.
pub record Reads : Type 0 where
  pub bound : ℕ → Consensus
  pub test : ℕ → Consensus
  pub entry : ℕ → Consensus

module _ (split : Text → List Text) (clock : ℕ → ℕ) (r : Reads) where
  -- The inner loop from an index on, with its `commited`; `none` also where the fuel is used up.
  unfoldable pub apply_between : ℕ → ℕ → FsNamespace → ℕ → Option (FsNamespace × ℕ)
  apply_between zero i fs commited = none
  apply_between (suc fuel) i fs commited = elim (leb i (get_last_commit_index (r.bound i).log)) [
    | false ↦ some (fs, commited)
    | true ↦ elim (can_apply (r.test i) i) [
      | false ↦ some (fs, commited)
      | true ↦ (do
        e ← get_entry i (r.entry i).log
        fs' ← apply_op split e.op e.value (clock i) fs
        apply_between fuel (i + 1) fs' i)
    ]
  ]

  unfoldable pub update_fs_between : ℕ → FsNamespace → Option FsNamespace
  update_fs_between fuel fs = do
    (fs', commited) ← apply_between fuel (fs.commited_index + 1) fs 0
    some (set_commited_index commited fs')

  apply_between-ends :
      (fuel i commited : ℕ) (fs : FsNamespace)
      → leb i (get_last_commit_index (r.bound i).log) ≡ false
      → apply_between (suc fuel) i fs commited ≡ some (fs, commited)
  unfolding apply_between
  apply_between-ends fuel i commited fs e = rw (e, apply_between) refl

  apply_between-fails :
      (fuel i commited : ℕ) (fs : FsNamespace)
      → can_apply (r.test i) i ≡ false
      → apply_between (suc fuel) i fs commited ≡ some (fs, commited)
  unfolding apply_between
  apply_between-fails fuel i commited fs e =
      elim (Bool-cases (leb i (get_last_commit_index (r.bound i).log))) [
        | inl new ↦ rw (new, e, apply_between) refl
        | inr old ↦ rw (old, apply_between) refl
      ]

  module _ (log : List Entry) where
    replay-next :
        (k : ℕ) (fs : FsNamespace) (e : Entry)
        → replay split clock log k ≡ some (set_commited_index k fs)
        → get_elem? log k ≡ some e
        → k < length log
        → replay split clock log (k + 1) ≡ (do
          fs' ← apply_op split e.op e.value (clock (k + 1)) fs
          some (set_commited_index (k + 1) fs'))
    replay-next k fs e past found le =
        let (x, here, rest) = drop-get_elem? k log le in
        let same : x ≡ e = ground arith in
        replay-past split clock log k 1 (set_commited_index k fs) past (omega arith)
        ∙ rw (rest, same, apply_op-set_commited_index split e.op e.value (clock (k + 1)) k fs)
            (elim (Option-cases (apply_op split e.op e.value (clock (k + 1)) fs)) [
              | inl stuck ↦ rw stuck
              | inr (fs1, done) ↦ rw done
            ])

    -- Why a round that has come to an index goes no further: it was not committed, it did not pass the
    -- test, or the entry before has no meaning.
    abbrev pub Ends : ℕ → Type 0
    Ends m =
        (get_last_commit_index (r.bound (m + 1)).log ≤ m)
        ⊎ (can_apply (r.test (m + 1)) (m + 1) ≡ false)
        ⊎ (replay split clock log m ≡ none)

    -- The tree that is left is the one of a prefix of the log.
    abbrev Outcome : ℕ → ℕ → Option (FsNamespace × ℕ) → Type 0
    Outcome low high result =
        (m : ℕ) × (low ≤ m)
        × (m ≤ high)
        × ((do (fs', commited) ← result; some (set_commited_index commited fs'))
            ≡ replay split clock log m)
        × Ends m

    module _ (high : ℕ) (limit : (i : ℕ) → get_last_commit_index (r.bound i).log ≤ high)
        (entries : (i : ℕ) → i < high → get_entry (i + 1) (r.entry (i + 1)).log ≡ get_elem? log i)
        (size : high ≤ length log) where
      apply_between-next :
          (fuel k commited : ℕ) (fs : FsNamespace)
          → k < get_last_commit_index (r.bound (k + 1)).log
          → can_apply (r.test (k + 1)) (k + 1) ≡ true
          → replay split clock log k ≡ some (set_commited_index k fs)
          → ((fs1 : FsNamespace)
              → replay split clock log (k + 1) ≡ some (set_commited_index (k + 1) fs1)
              → Outcome (k + 1) high (apply_between fuel (k + 1 + 1) fs1 (k + 1)))
          → Outcome (k + 1) high (apply_between (suc fuel) (k + 1) fs commited)
      unfolding apply_between
      apply_between-next fuel k commited fs new pass past rest =
          let below : k < high = grind (arith, limit (k + 1)) in
          let (e, found, _) = drop-get_elem? k log (omega arith) in
          let inside : leb (k + 1) (get_last_commit_index (r.bound (k + 1)).log) ≡ true =
            ground arith in
          let fetched = entries k below ∙ found in
          let next = replay-next k fs e past found (omega arith) in
          rw (inside, pass, fetched, apply_between)
            (elim (Option-cases (apply_op split e.op e.value (clock (k + 1)) fs)) [
              | inl stuck ↦
                  let over : replay split clock log (k + 1) ≡ none = rw stuck at next in
                  rw stuck (k + 1, omega arith, omega arith, sym over, inr (inr over))
              | inr (fs1, done) ↦ rw done (rest fs1 (rw done at next))
            ])

      apply_between-replay :
          (fuel k : ℕ) (fs : FsNamespace)
          → k ≤ high
          → high < fuel + k
          → replay split clock log k ≡ some (set_commited_index k fs)
          → Outcome k high (apply_between fuel (k + 1) fs k)
      apply_between-replay zero k fs le enough past = absurd (omega arith)
      apply_between-replay (suc fuel) k fs le enough past =
          elim (Bool-cases (leb (k + 1) (get_last_commit_index (r.bound (k + 1)).log))) [
            | inl new ↦ elim (Bool-cases (can_apply (r.test (k + 1)) (k + 1))) [
              | inl pass ↦
                  let (m, low, up, result, end) =
                    apply_between-next fuel k k fs (ground arith) pass past (λ fs1 next.
                      apply_between-replay fuel (k + 1) fs1 (grind (arith, limit (k + 1)))
                        (omega arith) next) in
                  (m, omega arith, up, result, end)
              | inr fails ↦
                  subst (Outcome k high) (sym (apply_between-fails fuel (k + 1) k fs fails))
                    (k, omega arith, le, sym past, inr (inl fails))
            ]
            | inr old ↦
                subst (Outcome k high) (sym (apply_between-ends fuel (k + 1) k fs old))
                  (k, omega arith, le, sym past, inl (ground arith))
          ]

      -- While the other threads go on, a round that may apply its first entry leaves the tree that some
      -- prefix of the log makes of the empty one, longer than the one applied before, if it was that
      -- before: the log has the first entries of every state in which the loop gets one, as many as
      -- are ever committed, and the fuel is for so many rounds. The round stops at an index that is
      -- not committed, that may not be applied, or before which an operation is undefined.
      pub update_fs_between-replay :
          (fuel : ℕ) (fs : FsNamespace)
          → replay split clock log fs.commited_index ≡ some fs
          → high < fuel + fs.commited_index
          → fs.commited_index < get_last_commit_index (r.bound (fs.commited_index + 1)).log
          → can_apply (r.test (fs.commited_index + 1)) (fs.commited_index + 1) ≡ true
          → (m : ℕ) × (fs.commited_index < m)
            × (m ≤ high)
            × (update_fs_between fuel fs ≡ replay split clock log m)
            × Ends m
      unfolding update_fs_between
      update_fs_between-replay zero fs past enough new pass =
          absurd (grind (arith, limit (fs.commited_index + 1)))
      update_fs_between-replay (suc fuel) fs past enough new pass =
          let k = fs.commited_index in
          let (m, low, up, result, end) = apply_between-next fuel k 0 fs new pass past (λ fs1 next.
            apply_between-replay fuel (k + 1) fs1 (grind (arith, limit (k + 1))) (omega arith)
              next) in
          (m, omega arith, up, result, end)
