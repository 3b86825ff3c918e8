-- ===== src/Cluster/Elected.antt =====
-- In a run of the cluster in which votes are answered in their term, from the start on.
use mathlib.Core.Path.{subst}
use raftfs.Prelude.{
  ℕ, ◌+◌, ◌/◌, ◌≤◌, ◌≡◌, ◌∙◌, true, inl, inr, List, ◌++◌, Option, arith, length, contains, update,
  remove, length-remove, IsDistinct, quorums_meet, All-map, All-append,
}
use raftfs.Raft.{Consensus, Timer, init, leader}
use raftfs.Raft.Step
use raftfs.Raft.Votes.{Follows, Reach-Follows}
use raftfs.Raft.Elections.{Election, Reach-init-Election}
use raftfs.Raft.Fixed.{remote_ids, Reach-init-Fixed}
use raftfs.Cluster.{
  Cluster, Call, Condition, Timely, Taken, start, Move, move, fail, Reach, here, next,
}
use raftfs.Cluster.Histories.{Reach-history, Move-Reach, update-Reach}
use raftfs.Cluster.Votes.{HasVoted, CallVotes}
use raftfs.Cluster.Counted.{
  Taken-All, Move-IsCounted, Move-CallVotes, Counted, update-cases, mover-HasVoted, HasVoted-mono,
  CallVotes-mono,
}

module _ (hosts : List ℕ) (c : Cluster) (h : Counted hosts c)
    (elected : (k : ℕ) → Election (c.servers k)) (named : (k : ℕ) → (c.servers k).self_id ≡ k) where
  move-Counted :
      (i : ℕ) {ended : Option Call} {rest calls : List Call} {s : Consensus}
      → contains i hosts ≡ true
      → Move Timely i (c.servers i) ended s calls
      → Taken ended c.calls rest
      → Counted hosts (record { servers = update c.servers i s; calls = calls ++ rest })
  move-Counted i {calls = calls} {s = s} known m taken =
      let servers' = update c.servers i s in
      let later : (k : ℕ) → Follows (c.servers k) (servers' k) =
        λ k. Reach-Follows (update-Reach c.servers i s k (Move-Reach m)) in
      let now : servers' i ≡ s = ground arith in
      let (asked, others) = Taken-All (CallVotes hosts c.servers) taken h.calls in
      record {
        pools = λ k v role counted. elim (update-cases c.servers i k s) [
          | inl (e, moved) ↦ rw moved (
              subst (λ n. HasVoted hosts servers' n s.current_term v) e
                (mover-HasVoted hosts c h elected named servers' i v s known now later (
                  Move-IsCounted hosts c.servers i (c.servers i) (elected i) v m asked
                    (rw moved at role) (rw moved at counted))))
          | inr same ↦ rw same (
              HasVoted-mono hosts c.servers servers' k _ v later
                (h.pools k v (rw same at role) (rw same at counted)))
        ];
        calls =
            All-append _ calls _
              (Move-CallVotes hosts c.servers i (c.servers i) (elected i) servers' known (named i)
                now m asked)
              (All-map _ (λ c' said. CallVotes-mono hosts c.servers servers' c' later said) others);
      }

-- What the single server's theorems say of host i.
module _ {ok : Condition} (hosts : List ℕ) (timers : ℕ → Timer) (i : ℕ) {c : Cluster}
    (r : Reach ok hosts (start hosts timers) c) where
  pub history : Step.Reach (init (timers i) i (remove i hosts)) (c.servers i)
  unfolding start
  history = Reach-history i r

  pub Reach-Election : Election (c.servers i) × IsDistinct (c.servers i).vote_pool
  Reach-Election = Reach-init-Election (timers i) i (remove i hosts) history

  pub Reach-named : (c.servers i).self_id ≡ i
  Reach-named = (Reach-init-Fixed (timers i) i (remove i hosts) history).0

  pub Reach-quorum : contains i hosts ≡ true → (c.servers i).quorum_size ≡ length hosts / 2 + 1
  Reach-quorum known =
      (Reach-init-Fixed (timers i) i (remove i hosts) history).1 ∙ rw (length-remove i hosts known)

  pub Reach-remote_ids : remote_ids (c.servers i) ≡ remove i hosts
  Reach-remote_ids = (Reach-init-Fixed (timers i) i (remove i hosts) history).2

pub Reach-Counted :
    (hosts : List ℕ) (timers : ℕ → Timer) {c : Cluster}
    → Reach Timely hosts (start hosts timers) c
    → Counted hosts c
unfolding start init
Reach-Counted hosts timers here = record { pools = λ i v role counted. cc; calls = tt }
Reach-Counted hosts timers (next {d} r (move i known m taken)) =
    move-Counted hosts d (Reach-Counted hosts timers r) (λ k. (Reach-Election hosts timers k r).0)
      (λ k. Reach-named hosts timers k r) i known m taken
Reach-Counted hosts timers (next {d} r (fail taken)) =
    let h = Reach-Counted hosts timers r in
    record { pools = h.pools; calls = (Taken-All _ taken h.calls).1 }

-- A majority of the hosts has voted for host i in this term.
pub record Elected (hosts : List ℕ) (servers : ℕ → Consensus) (term i : ℕ) : Type 0 where
  pub voters : List ℕ
  pub distinct : IsDistinct voters
  pub majority : length hosts / 2 + 1 ≤ length voters
  pub cast : (v : ℕ) → contains v voters ≡ true → HasVoted hosts servers i term v

pub Elected-mono :
    (hosts : List ℕ) (f g : ℕ → Consensus) (term i : ℕ)
    → ((h : ℕ) → Follows (f h) (g h))
    → Elected hosts f term i
    → Elected hosts g term i
Elected-mono hosts f g term i later e = record {
  voters = e.voters;
  distinct = e.distinct;
  majority = e.majority;
  cast = λ v h. HasVoted-mono hosts f g i term v later (e.cast v h);
}

-- Two majorities share a voter, who has one vote in a term.
pub Elected-unique :
    (hosts : List ℕ) (servers : ℕ → Consensus) (term i j : ℕ)
    → Elected hosts servers term i
    → Elected hosts servers term j
    → i ≡ j
Elected-unique hosts servers term i j a b =
    let (v, for_i, for_j) =
      quorums_meet a.voters b.voters hosts a.distinct b.distinct (λ v h. (a.cast v h).0)
        (λ v h. (b.cast v h).0) (omega (arith, a.majority, b.majority)) in
    ground (arith, a.cast v for_i, b.cast v for_j)

pub leader-Elected :
    (hosts : List ℕ) (timers : ℕ → Timer) (i : ℕ) {c : Cluster}
    → Reach Timely hosts (start hosts timers) c
    → contains i hosts ≡ true
    → (c.servers i).current_role ≡ leader
    → Elected hosts c.servers (c.servers i).current_term i
leader-Elected hosts timers i {c} r known leads =
    let (elected, distinct) = Reach-Election hosts timers i r in
    record {
      voters = (c.servers i).vote_pool;
      distinct = distinct;
      majority = rw (← Reach-quorum hosts timers i r known) (elected.leader_counts leads);
      cast = λ v counted. (Reach-Counted hosts timers r).pools i v (rw leads) counted;
    }
