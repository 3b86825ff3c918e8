-- ===== src/Cluster/AppendOnly.antt =====
-- Leader append-only, over whole runs.
use mathlib.Core.Path.{subst}
use raftfs.Prelude.{
  ℕ, ◌≡◌, ◌≤◌, refl, sym, ◌∙◌, true, inl, inr, List, ◌++◌, append_assoc, arith, contains, update,
  IsDistinct,
}
use raftfs.Raft.{Consensus, Timer, leader}
use raftfs.Raft.Votes.{Reach-Follows}
use raftfs.Cluster.{Cluster, Timely, start, Step, move, fail, Reach, here, next}
use raftfs.Cluster.Histories.{Reach-history, joined}
use raftfs.Cluster.Counted.{Taken-All, update-cases}
use raftfs.Cluster.Senders.{Reach-IsSent}
use raftfs.Cluster.Authors.{AppendsOnly, same_log, Move-AppendsOnly}

AppendsOnly-trans :
    (s t u : Consensus)
    → t.current_term ≤ u.current_term
    → AppendsOnly s t
    → (t.current_role ≡ leader → AppendsOnly t u)
    → AppendsOnly s u
AppendsOnly-trans s t u grows (inl later) after = inl (omega arith)
AppendsOnly-trans s t u grows (inr (term, leads, more, grown)) after = elim (after leads) [
  | inl later ↦ inl (omega arith)
  | inr (term', leads', further, grown') ↦ inr (
    term' ∙ term,
    leads',
    more ++ further,
    grown' ∙ (rw grown (append_assoc s.log.memory_log more further)),
  )
]

module _ (hosts : List ℕ) (timers : ℕ → Timer) (i : ℕ) (distinct : IsDistinct hosts)
    (known : contains i hosts ≡ true) where
  Step-AppendsOnly :
      {c d : Cluster}
      → Reach Timely hosts (start hosts timers) c
      → Step Timely hosts c d
      → (c.servers i).current_role ≡ leader
      → AppendsOnly (c.servers i) (d.servers i)
  Step-AppendsOnly {c} r (fail taken) leads =
      same_log (c.servers i) (c.servers i) refl (inr (refl, leads))
  Step-AppendsOnly {c} r (move k known_k {s = s} m taken) leads =
      elim (update-cases c.servers k i s) [
        | inl (same, moved) ↦
            let back : i ≡ k = sym same in
            let there : (c.servers k).current_role ≡ leader =
              subst (λ n. (c.servers n).current_role ≡ leader) back leads in
            let sent = (Taken-All _ taken (Reach-IsSent hosts timers distinct r)).0 in
            rw moved (
              subst (λ n. AppendsOnly (c.servers n) s) same
                (Move-AppendsOnly hosts timers k r known_k there m sent))
        | inr same ↦
            same_log (c.servers i) (update c.servers k s i) (rw same) (inr (rw same, rw same leads))
      ]

  -- In a run of distinct hosts in which votes are answered in their term, a host that leads goes on
  -- leading in its term with a log that only grows at its end, until it comes to a later term.
  pub Reach-AppendsOnly :
      {c d : Cluster}
      → Reach Timely hosts (start hosts timers) c
      → Reach Timely hosts c d
      → (c.servers i).current_role ≡ leader
      → AppendsOnly (c.servers i) (d.servers i)
  Reach-AppendsOnly {c} r here leads = same_log (c.servers i) (c.servers i) refl (inr (refl, leads))
  Reach-AppendsOnly {c} {d = last} r (next {d = middle} q st) leads =
      AppendsOnly-trans (c.servers i) (middle.servers i) (last.servers i)
        (Reach-Follows (Reach-history i (next here st))).term_grows (Reach-AppendsOnly r q leads)
        (Step-AppendsOnly (joined r q) st)
