-- ===== src/Cluster/Histories.antt =====
-- What a server of the cluster does is what one server does whose environment is left open.
use raftfs.Prelude.{ℕ, ◌≡◌, inl, inr, List, Option, arith, Bool-cases, ◌==◌, update}
use raftfs.Raft.{Consensus}
use raftfs.Raft.Step
use raftfs.Raft.Step.{here, next}
use raftfs.Cluster.{
  Cluster, Call, Condition, Timely, Led, Move, check, meta, ask_vote, ask_append, vote, append,
  voted, appended, Step, move, fail, Reach,
}

pub Move-Reach :
    {ok : Condition} {i : ℕ} {s s' : Consensus} {ended : Option Call} {calls : List Call}
    → Move ok i s ended s' calls
    → Step.Reach s s'
Move-Reach (check t) = next here (Step.check t)
Move-Reach (meta op path _) = next here (Step.meta op path)
Move-Reach (ask_vote k r _ _) = here
Move-Reach (ask_append k r req _ _ _) = here
Move-Reach (vote t u j req) = next here (Step.vote t u req)
Move-Reach (append t u j req s' resp e) = next here (Step.append t u req e)
Move-Reach (voted j req resp _) = next here (Step.voted j resp)
Move-Reach (appended t j req resp s' e) = next here (Step.appended t j req resp e)

pub chain : {s t u : Consensus} → Step.Reach s t → Step.Reach t u → Step.Reach s u
chain r here = r
chain r (next q st) = next (chain r q) st

pub update-Reach :
    (f : ℕ → Consensus) (i : ℕ) (s : Consensus) (h : ℕ)
    → Step.Reach (f i) s
    → Step.Reach (f h) (update f i s h)
update-Reach f i s h r = elim (Bool-cases (i == h)) [
  | inl same ↦ rw same (let e : i ≡ h = ground arith in rw e at r)
  | inr other ↦ rw other here
]

Step-history :
    {ok : Condition} {hosts : List ℕ} {c d : Cluster} (h : ℕ)
    → Step ok hosts c d
    → Step.Reach (c.servers h) (d.servers h)
Step-history {c = c} h (move i _ {s = s} m _) = update-Reach c.servers i s h (Move-Reach m)
Step-history h (fail _) = here

-- Each server's part of a run of the cluster is a run of that server.
pub Reach-history :
    {ok : Condition} {hosts : List ℕ} {c d : Cluster} (h : ℕ)
    → Reach ok hosts c d
    → Step.Reach (c.servers h) (d.servers h)
Reach-history h Reach.here = here
Reach-history h (Reach.next r st) = chain (Reach-history h r) (Step-history h st)

pub joined :
    {ok : Condition} {hosts : List ℕ} {a b c : Cluster}
    → Reach ok hosts a b
    → Reach ok hosts b c
    → Reach ok hosts a c
joined r Reach.here = r
joined r (Reach.next q st) = Reach.next (joined r q) st

-- A run in which only leaders begin changes is a run.
pub Move-Timely :
    {i : ℕ} {s s' : Consensus} {ended : Option Call} {calls : List Call}
    → Move Led i s ended s' calls
    → Move Timely i s ended s' calls
Move-Timely (check t) = check t
Move-Timely (meta op path _) = meta op path tt
Move-Timely (ask_vote k r role at) = ask_vote k r role at
Move-Timely (ask_append k r req role at e) = ask_append k r req role at e
Move-Timely (vote t u j req) = vote t u j req
Move-Timely (append t u j req s' resp e) = append t u j req s' resp e
Move-Timely (voted j req resp timely) = voted j req resp timely
Move-Timely (appended t j req resp s' e) = appended t j req resp s' e

pub Step-Timely : {hosts : List ℕ} {c d : Cluster} → Step Led hosts c d → Step Timely hosts c d
Step-Timely (move i known m taken) = move i known (Move-Timely m) taken
Step-Timely (fail taken) = fail taken

pub Reach-Timely : {hosts : List ℕ} {c d : Cluster} → Reach Led hosts c d → Reach Timely hosts c d
Reach-Timely Reach.here = Reach.here
Reach-Timely (Reach.next r st) = Reach.next (Reach-Timely r) (Step-Timely st)
