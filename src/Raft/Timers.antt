-- ===== src/Raft/Timers.antt =====
-- The election timer of a host that hears from its leader.
use raftfs.Prelude.{◌+◌, ◌≤◌, ◌<◌, ◌≡◌, ◌≢◌, some, arith}
use raftfs.Protocol.{AppendEntriesRequest, AppendEntriesResponse}
use raftfs.Raft.{Consensus, Timer, check_leader, candidate, leader}
use raftfs.Raft.Rpc.{on_append_entries}

-- What the generator of `PostponeElection` draws.
abbrev pub IsDrawn : Timer → Type 0
IsDrawn t = (500 ≤ t.delay) × (t.delay ≤ 1000)

timer_set :
    (t u : Timer) (req : AppendEntriesRequest) (s s' : Consensus) (resp : AppendEntriesResponse)
    → on_append_entries t u req s ≡ some (s', resp)
    → s.current_term ≤ req.term
    → IsDrawn t
    → IsDrawn u
    → t.now ≤ u.now
    → (t.now + 500 ≤ s'.next_election) × (s'.next_election ≤ u.now + 1000)
unfolding on_append_entries
timer_set t u req s s' resp e le dt du order = ground arith

check_leader-early : (v : Timer) (s : Consensus) → v.now < s.next_election → check_leader v s ≡ s
unfolding check_leader
check_leader-early v s early = ground arith

check_leader-late :
    (v : Timer) (s : Consensus)
    → s.next_election ≤ v.now
    → s.current_role ≢ leader
    → ((check_leader v s).current_role ≡ candidate)
      × ((check_leader v s).current_term ≡ s.current_term + 1)
unfolding check_leader
check_leader-late v s late other = (ground arith, ground arith)

-- After a request that is not outdated, at a time between those of t and u: for 500 milliseconds from t
-- on, no round of the timer's loop changes the host; and if the host is not a leader and nothing else
-- reaches it, a round 1000 milliseconds after u or later starts an election in the next term.
pub on_append_entries-check_leader :
    (t u v : Timer) (req : AppendEntriesRequest) (s s' : Consensus) (resp : AppendEntriesResponse)
    → on_append_entries t u req s ≡ some (s', resp)
    → s.current_term ≤ req.term
    → IsDrawn t
    → IsDrawn u
    → t.now ≤ u.now
    → (v.now < t.now + 500 → check_leader v s' ≡ s')
      × (u.now + 1000 ≤ v.now
          → s'.current_role ≢ leader
          → ((check_leader v s').current_role ≡ candidate)
            × ((check_leader v s').current_term ≡ s'.current_term + 1))
on_append_entries-check_leader t u v req s s' resp e le dt du order =
    let (low, high) = timer_set t u req s s' resp e le dt du order in
    ((λ early. check_leader-early v s' (omega arith)), λ late. check_leader-late v s' (omega arith))
