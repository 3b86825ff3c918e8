-- ===== src/Service/Acknowledged.antt =====
-- What an acknowledged change means for the servers that apply the log.
use mathlib.Core.Path.{subst}
use raftfs.Prelude.{
  ℕ, suc, ◌+◌, ◌-◌, ◌<◌, ◌≡◌, ◌==◌, refl, sym, ap, ◌∙◌, true, false, List, [], ◌∷◌, ◌++◌, some,
  length, take, drop, arith, ◌>>=◌, append_assoc, inl, inr, take-append, length-append,
  Option-cases, update, contains, is_minus_one, IsDistinct,
}
use raftfs.Protocol.{Text, MetaOp, Entry, ok}
use raftfs.Log.{append_entry, get_last_commit_index}
use raftfs.Raft.{Consensus, Timer, leader}
use raftfs.Raft.Rpc.{Wait, begin_meta_operation}
use raftfs.Namespace.{FsNamespace, set_commited_index}
use raftfs.Apply.{apply_op}
use raftfs.Apply.Replay.{apply_all, replay, replay-past}
use raftfs.Cluster.{Cluster, Timely, nothing, start, meta, move, Reach, next}
use raftfs.Cluster.AppendOnly.{Reach-AppendsOnly}
use raftfs.Service.{ChangeResponse, change}
use raftfs.Service.Changes.{requested, logged, change-outcome}

take-all : (xs : List Entry) → take (length xs) xs ≡ xs
take-all [] = refl
take-all (x ∷ xs) = ap (◌∷◌ x) (take-all xs)

drop-append : (xs ys : List Entry) → drop (length xs) (xs ++ ys) ≡ ys
drop-append [] ys = refl
drop-append (x ∷ xs) ys = drop-append xs ys

acknowledged :
    (op : MetaOp) (path : Text) (seen s : Consensus) (wait : Wait)
    (response answer : ChangeResponse)
    → (change op path seen s wait response).1 ≡ some answer
    → answer.status ≡ ok
    → ((change op path seen s wait response).0 ≡ logged op path s)
      × (is_minus_one s.leader_id ≡ false)
      × (length s.log.memory_log < get_last_commit_index wait.log)
acknowledged op path seen s wait response answer answers done =
    elim (change-outcome op path seen s wait response) [
      | inl (valid, leads, known, appended, inl (owned, commit, e)) ↦ (appended, known, commit)
      | inl (valid, leads, known, appended, inr (inl (owned, commit, e))) ↦
          absurd (ground (arith, e, answers, done))
      | inl (valid, leads, known, appended, inr (inr (gone, e))) ↦
          absurd (ground (arith, e, answers))
      | inr (same, inl (invalid, e)) ↦ absurd (ground (arith, e, answers, done))
      | inr (same, inr (inl (other, e))) ↦ absurd (ground (arith, e, answers, done))
      | inr (same, inr (inr (other, e))) ↦ absurd (ground (arith, e, answers, done))
    ]

begin_meta_operation-logged :
    (op : MetaOp) (path : Text) (s : Consensus)
    → is_minus_one s.leader_id ≡ false
    → (begin_meta_operation op path s).0 ≡ logged op path s
unfolding begin_meta_operation append_entry
begin_meta_operation-logged op path s known = rw known refl

replay-after :
    (split : Text → List Text) (clock : ℕ → ℕ) (log : List Entry) (e : Entry) (rest : List Entry)
    (commit : ℕ) (fs : FsNamespace)
    → length log < commit
    → replay split clock log (length log) ≡ some fs
    → replay split clock (log ++ e ∷ rest) commit ≡ (do
      fs1 ← apply_op split e.op e.value (clock (length log + 1)) fs
      fs2 ← apply_all split clock (length log + 1 + 1) (take (commit - length log - 1) rest) fs1
      some (set_commited_index commit fs2))
replay-after split clock log e rest commit fs lt past =
    let n = length log in
    let m = commit - n - 1 in
    let total : commit ≡ n + suc m = omega arith in
    let past' : replay split clock (log ++ e ∷ rest) n ≡ some fs =
      rw (take-append log (e ∷ rest)) (rw (take-all log) at past) in
    let next =
      replay-past split clock (log ++ e ∷ rest) n (suc m) fs past'
        (rw (length-append log (e ∷ rest)) (omega arith)) in
    let next' = rw (drop-append log (e ∷ rest)) at next in
    ap (replay split clock (log ++ e ∷ rest)) total ∙ next' ∙ joined n m total
  where
    joined :
        (n m : ℕ)
        → commit ≡ n + suc m
        → (do
          fs2 ← apply_all split clock (n + 1) (e ∷ take m rest) fs
          some (set_commited_index (n + suc m) fs2))
          ≡ (do
            fs1 ← apply_op split e.op e.value (clock (n + 1)) fs
            fs2 ← apply_all split clock (n + 1 + 1) (take m rest) fs1
            some (set_commited_index commit fs2))
    joined n m total =
        rw total (elim (Option-cases (apply_op split e.op e.value (clock (n + 1)) fs)) [
          | inl stuck ↦ rw stuck
          | inr (fs1, done) ↦ rw done
        ])

-- The cluster after the handler of host i has come to its wait.
abbrev pub waiting : MetaOp → Text → Consensus → Wait → ChangeResponse → ℕ → Cluster → Cluster
waiting op path seen wait response i c = record {
  servers = update c.servers i (change op path seen (c.servers i) wait response).0;
  calls = c.calls;
}

module _ (hosts : List ℕ) (timers : ℕ → Timer) (i : ℕ) (distinct : IsDistinct hosts)
    (known : contains i hosts ≡ true) {c : Cluster} (r : Reach Timely hosts (start hosts timers) c)
    (leads : (c.servers i).current_role ≡ leader) where
  -- While the host leads on in its term, the log keeps what it had when the wait began.
  kept_log :
      (op : MetaOp) (path : Text) {d : Cluster} (s' : Consensus)
      → s' ≡ logged op path (c.servers i)
      → is_minus_one (c.servers i).leader_id ≡ false
      → Reach Timely hosts (record { servers = update c.servers i s'; calls = c.calls }) d
      → (d.servers i).current_term ≡ (c.servers i).current_term
      → (rest : List Entry) × ((d.servers i).log.memory_log
          ≡ (c.servers i).log.memory_log ++ requested op path (c.servers i) ∷ rest)
  kept_log op path {d} s' is_logged led q same_term =
      let s = c.servers i in
      let moved = begin_meta_operation-logged op path s led in
      let q' : Reach Timely hosts
          (record {
            servers = update c.servers i (begin_meta_operation op path s).0;
            calls = c.calls;
          })
          d =
        subst
          (λ t. Reach Timely hosts (record { servers = update c.servers i t; calls = c.calls }) d)
          (is_logged ∙ sym moved) q in
      let at : update c.servers i (begin_meta_operation op path s).0 i ≡ logged op path s =
        (let self : (i == i) ≡ true = ground arith in rw self moved) in
      let still =
        Reach-AppendsOnly hosts timers i distinct known
          (next r (move i known (meta op path tt) nothing)) q'
          (ap (λ (t : Consensus). t.current_role) at ∙ leads) in
      elim still [
        | inl later ↦
            absurd (omega (arith, later, ap (λ (t : Consensus). t.current_term) at, same_term))
        | inr (term, role, more, grown) ↦ (
          more,
          grown
              ∙ ap (λ (t : Consensus). t.log.memory_log ++ more) at
              ∙ append_assoc s.log.memory_log (requested op path s ∷ []) more,
        )
      ]

  -- Take a change that a leader i answers by ok, in a run of distinct hosts in which votes are answered
  -- in their term: c is the cluster before the change, d at the end of the wait, i is still in the term
  -- then, and `fs` is the tree that the entries before the change make. The log of i is then the one
  -- from before, the entry of the change, and any entries after it; and those of them up to the commit
  -- index make the tree that the change makes of `fs`, and then the later ones.
  pub change-acknowledged :
      (split : Text → List Text) (clock : ℕ → ℕ) (op : MetaOp) (path : Text) (seen : Consensus)
      {d : Cluster} (wait : Wait) (response answer : ChangeResponse) (fs : FsNamespace)
      → Reach Timely hosts (waiting op path seen wait response i c) d
      → wait.log ≡ (d.servers i).log
      → (d.servers i).current_term ≡ (c.servers i).current_term
      → (change op path seen (c.servers i) wait response).1 ≡ some answer
      → answer.status ≡ ok
      → replay split clock (c.servers i).log.memory_log (length (c.servers i).log.memory_log)
        ≡ some fs
      → let before = (c.servers i).log.memory_log in
        let after = (d.servers i).log in
        (rest : List Entry) × (after.memory_log ≡ before ++ requested op path (c.servers i) ∷ rest)
        × (replay split clock after.memory_log (get_last_commit_index after) ≡ (do
          fs1 ← apply_op split op path (clock (length before + 1)) fs
          fs2 ←
              apply_all split clock
                (length before + 1 + 1)
                (take (get_last_commit_index after - length before - 1) rest)
                fs1
          some (set_commited_index (get_last_commit_index after) fs2)))
  change-acknowledged split clock op path seen {d} wait response answer fs q end same_term answers
        done past =
      let (is_logged, led, commit) =
        acknowledged op path seen (c.servers i) wait response answer answers done in
      let log = (c.servers i).log.memory_log in
      let e = requested op path (c.servers i) in
      let (rest, whole) = kept_log op path _ is_logged led q same_term in
      let commit' : length log < get_last_commit_index (d.servers i).log = rw end at commit in
      (
        rest,
        whole,
        ap (λ (l : List Entry). replay split clock l (get_last_commit_index (d.servers i).log))
              whole
            ∙ replay-after split clock log e rest (get_last_commit_index (d.servers i).log) fs
                commit' past,
      )
