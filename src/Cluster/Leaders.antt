-- ===== src/Cluster/Leaders.antt =====
-- Election safety: one leader in a term.
use mathlib.Core.Path.{subst}
use raftfs.Prelude.{ℕ, ◌≡◌, true, List, contains}
use raftfs.Raft.{Timer, leader}
use raftfs.Raft.Votes.{Reach-Follows}
use raftfs.Cluster.{Cluster, Timely, start, Reach}
use raftfs.Cluster.Histories.{Reach-history, joined}
use raftfs.Cluster.Elected.{Elected, Elected-mono, Elected-unique, leader-Elected}

-- Among hosts of one list, each of which starts with the others as its remote hosts: as long as the
-- answer to a vote request reaches its candidate within the term it was asked for, no two of them
-- lead in one term, neither at one moment nor at two. Changes of clients may begin at any host that
-- knows a leader.
pub one_leader :
    (hosts : List ℕ) (timers : ℕ → Timer) (i j : ℕ) {c d : Cluster}
    → Reach Timely hosts (start hosts timers) c
    → Reach Timely hosts c d
    → contains i hosts ≡ true
    → contains j hosts ≡ true
    → (c.servers i).current_role ≡ leader
    → (d.servers j).current_role ≡ leader
    → (c.servers i).current_term ≡ (d.servers j).current_term
    → i ≡ j
one_leader hosts timers i j {c} {d} r q known_i known_j leads_i leads_j same =
    Elected-unique hosts d.servers (d.servers j).current_term i j
      (subst (λ term. Elected hosts d.servers term i) same kept)
      (leader-Elected hosts timers j (joined r q) known_j leads_j)
  where
    kept : Elected hosts d.servers (c.servers i).current_term i
    kept =
        Elected-mono hosts c.servers d.servers (c.servers i).current_term i
          (λ h. Reach-Follows (Reach-history h q)) (leader-Elected hosts timers i r known_i leads_i)
