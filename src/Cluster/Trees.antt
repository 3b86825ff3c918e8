-- ===== src/Cluster/Trees.antt =====
-- The trees of two followers of a cluster: Cluster, Log and `FSUpdateLoop` together.
use raftfs.Prelude.{ℕ, zero, suc, ◌+◌, ◌≡◌, refl, List, [], ◌∷◌, map, arith, take, IsDistinct}
use raftfs.Protocol.{Text, Entry}
use raftfs.Log.{get_last_commit_index}
use raftfs.Log.Indexed.{IsIndexed}
use raftfs.Log.Append.{Agrees}
use raftfs.Raft.{Timer}
use raftfs.Namespace.{FsNamespace}
use raftfs.Apply.{update_fs}
use raftfs.Apply.Agree.{Behind, update_fs-agree}
use raftfs.Cluster.{Cluster, Led, start, Reach}
use raftfs.Cluster.Entries.{same_entries}

Agrees-tail : (y : Entry) (new log : List Entry) → Agrees new (y ∷ log) → Agrees new log
Agrees-tail y [] log h = tt
Agrees-tail y (e ∷ es) log h = (h.0.1, Agrees-tail y es log h.1)

abbrev pub terms : List Entry → List ℕ
terms es = map (λ e. e.term) es

-- Of logs that agree and are numbered alike, those that have the same terms have the same entries.
take-terms :
    (n k : ℕ) (xs ys : List Entry)
    → IsIndexed k xs
    → IsIndexed k ys
    → Agrees xs ys
    → terms (take n xs) ≡ terms (take n ys)
    → take n xs ≡ take n ys
take-terms zero k xs ys hx hy ag same = refl
take-terms (suc n) k [] [] hx hy ag same = refl
take-terms (suc n) k [] (y ∷ ys) hx hy ag same = cc
take-terms (suc n) k (x ∷ xs) [] hx hy ag same = cc
take-terms (suc n) k (x ∷ xs) (y ∷ ys) hx hy ag same =
    let twins : y ≡ x = ag.0.0 (ground arith) in
    let rest : terms (take n xs) ≡ terms (take n ys) = ground arith in
    rw (twins, take-terms n (k + 1) xs ys hx.1 hy.1 (Agrees-tail y xs ys ag.1) rest)

-- In a run of distinct hosts, in which votes are answered in their term and a host that begins a change
-- of a client leads when it comes to the log: a follower, and a follower at that time or later, that
-- have applied some of their committed entries, each as many as it came to, have the same tree after
-- their next rounds of `FSUpdateLoop`, if they have committed up to the same index and their entries up
-- to there have the same terms. The times of application are taken to be the same.
pub same_trees :
    (hosts : List ℕ) (timers : ℕ → Timer) (i j : ℕ) {c d : Cluster} (split : Text → List Text)
    (clock : ℕ → ℕ) (fs gs : FsNamespace)
    → IsDistinct hosts
    → Reach Led hosts (start hosts timers) c
    → Reach Led hosts c d
    → Behind split clock (c.servers i) fs
    → Behind split clock (d.servers j) gs
    → get_last_commit_index (c.servers i).log ≡ get_last_commit_index (d.servers j).log
    → terms (take (get_last_commit_index (c.servers i).log) (c.servers i).log.memory_log)
      ≡ terms (take (get_last_commit_index (c.servers i).log) (d.servers j).log.memory_log)
    → update_fs split clock (c.servers i) fs ≡ update_fs split clock (d.servers j) gs
same_trees hosts timers i j {c} {d} split clock fs gs distinct r q one two commits same =
    update_fs-agree split clock (c.servers i) (d.servers j) fs gs one two commits (
      take-terms (get_last_commit_index (c.servers i).log) 0 (c.servers i).log.memory_log
        (d.servers j).log.memory_log one.indexed two.indexed
        (same_entries hosts timers i j distinct r q) same)
