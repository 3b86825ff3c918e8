-- ===== src/Apply/Replay.antt =====
-- The tree that a log makes of the empty one, and the rounds of `FSUpdateLoop`.
use mathlib.Core.Option.{some_inj}
use raftfs.Prelude.{
  ℕ, zero, suc, ◌+◌, ◌-◌, ◌≤◌, ◌<◌, ◌≡◌, refl, sym, ap, ◌∙◌, true, List, [], ◌∷◌, ◌++◌, Option,
  some, arith, ◌>>=◌, length, take, drop, drop-get_elem?, Option-cases, inl, inr,
}
use raftfs.Protocol.{Text, Entry}
use raftfs.Log.{get_last_commit_index}
use raftfs.Log.Indexed.{IsIndexed, length-take-le}
use raftfs.Log.Entries.{get_entry-get_elem?}
use raftfs.Raft.{Consensus}
use raftfs.Namespace.{FsNamespace, set_commited_index, empty_namespace}
use raftfs.Apply.{can_apply, apply_op, apply_from, update_fs}
use raftfs.Apply.Index.{apply_op-set_commited_index}

take-nil : (n : ℕ) → take {A = Entry} n [] ≡ []
take-nil zero = refl
take-nil (suc n) = refl

take-take-drop : (k n : ℕ) (xs : List Entry) → take (k + n) xs ≡ take k xs ++ take n (drop k xs)
take-take-drop zero n xs = ap (λ (j : ℕ). take j xs) (omega arith)
take-take-drop (suc k) n [] =
    let e : suc k + n ≡ suc (k + n) = omega arith in rw e (sym (take-nil n))
take-take-drop (suc k) n (x ∷ xs) =
    let e : suc k + n ≡ suc (k + n) = omega arith in rw e (ap (◌∷◌ x) (take-take-drop k n xs))

module _ (split : Text → List Text) (clock : ℕ → ℕ) where
  -- The entries applied one after the other, the first as the one at index `i`.
  abbrev pub apply_all : ℕ → List Entry → FsNamespace → Option FsNamespace
  apply_all i [] fs = some fs
  apply_all i (e ∷ es) fs = do
    fs' ← apply_op split e.op e.value (clock i) fs
    apply_all (i + 1) es fs'

  -- The tree that the first `n` entries of a log make of the empty one.
  abbrev pub replay : List Entry → ℕ → Option FsNamespace
  replay log n = do fs ← apply_all 1 (take n log) empty_namespace; some (set_commited_index n fs)

  -- All of the indexes i, i + 1, ... of so many rounds pass the test.
  abbrev pub AllApply : ℕ → ℕ → Consensus → Type 0
  AllApply rounds i s = (j : ℕ) → i ≤ j → j < i + rounds → can_apply s j ≡ true

  apply_from-commited :
      (rounds i : ℕ) (s : Consensus) (fs : FsNamespace) (c d : ℕ)
      → can_apply s i ≡ true
      → apply_from split clock (suc rounds) i s fs c ≡ apply_from split clock (suc rounds) i s fs d
  unfolding apply_from
  apply_from-commited rounds i s fs c d e = rw (e, apply_from)

  apply_from-apply_all :
      (rounds k : ℕ) (s : Consensus) (fs : FsNamespace)
      → IsIndexed 0 s.log.memory_log
      → k + rounds ≤ length s.log.memory_log
      → AllApply rounds (k + 1) s
      → apply_from split clock rounds (k + 1) s fs k ≡ (do
        fs' ← apply_all (k + 1) (take rounds (drop k s.log.memory_log)) fs
        some (fs', k + rounds))
  unfolding apply_from
  apply_from-apply_all zero k s fs h le pass = ground arith
  apply_from-apply_all (suc rounds) k s fs h le pass =
      let (e, found, rest) = drop-get_elem? k s.log.memory_log (omega arith) in
      let next : suc k ≡ k + 1 = omega arith in
      let entry = get_entry-get_elem? s.log k h ∙ found in
      let ok = pass (k + 1) (omega arith) (omega arith) in
      let total : k + 1 + rounds ≡ k + suc rounds = omega arith in
      rw (ok, entry, rest, next, apply_from)
        (elim (Option-cases (apply_op split e.op e.value (clock (k + 1)) fs)) [
          | inl stuck ↦ rw stuck
          | inr (fs1, done) ↦
              rw (done, sym total)
                (apply_from-apply_all rounds (k + 1) s fs1 h (omega arith)
                  (λ j a b. pass j (omega arith) (omega arith)))
        ])

  pub update_fs-apply_all :
      (s : Consensus) (fs : FsNamespace) (rounds : ℕ)
      → IsIndexed 0 s.log.memory_log
      → get_last_commit_index s.log ≡ fs.commited_index + suc rounds
      → fs.commited_index + suc rounds ≤ length s.log.memory_log
      → AllApply (suc rounds) (fs.commited_index + 1) s
      → update_fs split clock s fs ≡ (do
        fs' ←
            apply_all
              (fs.commited_index + 1)
              (take (suc rounds) (drop fs.commited_index s.log.memory_log))
              fs
        some (set_commited_index (fs.commited_index + suc rounds) fs'))
  unfolding update_fs
  update_fs-apply_all s fs rounds h commit le pass =
      let k = fs.commited_index in
      let e : get_last_commit_index s.log - k ≡ suc rounds = omega arith in
      let ok = pass (k + 1) (omega arith) (omega arith) in
      rw
        (
          e,
          apply_from-commited rounds (k + 1) s fs 0 k ok,
          apply_from-apply_all (suc rounds) k s fs h le pass,
        )
        (elim (Option-cases (apply_all (k + 1) (take (suc rounds) (drop k s.log.memory_log)) fs)) [
          | inl stuck ↦ rw stuck
          | inr (fs1, done) ↦ rw done
        ])

  apply_all-append :
      (xs ys : List Entry) (i : ℕ) (fs : FsNamespace)
      → apply_all i (xs ++ ys) fs ≡ (do fs' ← apply_all i xs fs; apply_all (i + length xs) ys fs')
  apply_all-append [] ys i fs = ap (λ (j : ℕ). apply_all j ys fs) (omega arith)
  apply_all-append (x ∷ xs) ys i fs =
      let next : i + suc (length xs) ≡ i + 1 + length xs = omega arith in
      rw next (elim (Option-cases (apply_op split x.op x.value (clock i) fs)) [
        | inl stuck ↦ rw stuck
        | inr (fs1, done) ↦ rw done (apply_all-append xs ys (i + 1) fs1)
      ])

  pub apply_all-set_commited_index :
      (es : List Entry) (i n : ℕ) (fs : FsNamespace)
      → apply_all i es (set_commited_index n fs)
        ≡ (do fs' ← apply_all i es fs; some (set_commited_index n fs'))
  apply_all-set_commited_index [] i n fs = refl
  apply_all-set_commited_index (e ∷ es) i n fs =
      rw (apply_op-set_commited_index split e.op e.value (clock i) n fs)
        (elim (Option-cases (apply_op split e.op e.value (clock i) fs)) [
          | inl stuck ↦ rw stuck
          | inr (fs1, done) ↦ rw done (apply_all-set_commited_index es (i + 1) n fs1)
        ])

  pub replay-past :
      (log : List Entry) (k rounds : ℕ) (fs : FsNamespace)
      → replay log k ≡ some fs
      → k ≤ length log
      → replay log (k + rounds) ≡ (do
        fs' ← apply_all (k + 1) (take rounds (drop k log)) fs
        some (set_commited_index (k + rounds) fs'))
  replay-past log k rounds fs past le =
      let pieces = take-take-drop k rounds log in
      let size = length-take-le k log le in
      let next : 1 + k ≡ k + 1 = omega arith in
      rw
        (
          pieces,
          apply_all-append (take k log) (take rounds (drop k log)) 1 empty_namespace,
          size,
          next,
        )
        (elim (Option-cases (apply_all 1 (take k log) empty_namespace)) [
          | inl stuck ↦ absurd (ground (arith, stuck, past))
          | inr (fs1, done) ↦
              let here : set_commited_index k fs1 ≡ fs = some_inj.0 (rw done at past) in
              rw
                (
                  done,
                  sym here,
                  apply_all-set_commited_index (take rounds (drop k log)) (k + 1) k fs1,
                )
                (elim (Option-cases (apply_all (k + 1) (take rounds (drop k log)) fs1)) [
                  | inl stuck ↦ rw stuck
                  | inr (fs2, over) ↦ rw over
                ])
        ])

  -- A server whose tree is what its log says up to its committed index, and that may apply every
  -- index from there to the log's commit index, has after a round of `FSUpdateLoop` the tree that the
  -- log says up to the commit index. The log is numbered without gaps and reaches the commit index.
  pub update_fs-replay :
      (s : Consensus) (fs : FsNamespace)
      → IsIndexed 0 s.log.memory_log
      → replay s.log.memory_log fs.commited_index ≡ some fs
      → fs.commited_index < get_last_commit_index s.log
      → get_last_commit_index s.log ≤ length s.log.memory_log
      → AllApply (get_last_commit_index s.log - fs.commited_index) (fs.commited_index + 1) s
      → update_fs split clock s fs ≡ replay s.log.memory_log (get_last_commit_index s.log)
  update_fs-replay s fs h past new le pass =
      let k = fs.commited_index in
      let r = get_last_commit_index s.log - k - 1 in
      let e : get_last_commit_index s.log ≡ k + suc r = omega arith in
      let e' : get_last_commit_index s.log - k ≡ suc r = omega arith in
      rw e (
        update_fs-apply_all s fs r h e (omega arith) (rw e' at pass)
        ∙ sym (replay-past s.log.memory_log k (suc r) fs past (omega arith)))
