-- ===== src/Tests/Servers.antt =====
-- A leader and its followers.
use raftfs.Prelude.{
  ℕ, ◌≢◌, inr, Bool-cases, ◌≡◌, ◌≤◌, ◌<◌, ◌↔◌, ◌⊎◌, inl, refl, arith, [], ◌∷◌, none, some, true,
  false, length, pos, get_elem?, if◌then◌else◌, ◌==◌, codes,
}
use raftfs.Protocol.{mkdir, AppendEntriesRequest, AppendEntriesResponse}
use raftfs.Log.{
  print_log, empty_log, get_last_log_index, get_last_commit_index, append_entries,
  set_last_commit_index,
}
use raftfs.Raft.{Consensus, RemoteHost, follower, leader, init}
use raftfs.Raft.Rpc.{show_log, on_append_entries, store_entries, advance_commit}
use raftfs.Raft.Remote.{append_entries_request, on_append_entries_response}
use raftfs.Raft.Unchecked.{on_append_entries-unchecked}
use raftfs.Raft.Retries.{refused_rounds, refused_rounds-first}
use raftfs.Raft.Replicating.{on_append_entries-replicates}
use raftfs.Raft.Leading.{AllDistinct, on_append_entries_response-commits}
use raftfs.Raft.Faults.{on_append_entries-empty_log, on_append_entries-refused_commits}
use raftfs.Tests.Data.{
  entry, make_a, make_b, make_c, three_entries, three_entries-IsIndexed, log_with, server, timer,
}

abbrev host : RemoteHost
host = record { id = 2; next_index = some 3 }

abbrev leading : Consensus
leading = server leader (log_with three_entries 1)

abbrev following : Consensus
following = record (server follower (log_with (make_a ∷ make_b ∷ []) 1)) {
  self_id = 2;
  leader_id = pos 3;
}

on_append_entries-replicates_example :
    (req : AppendEntriesRequest) × (f' : Consensus) × (resp : AppendEntriesResponse)
    × (append_entries_request host leading ≡ some req)
    × (on_append_entries timer timer req following ≡ some (f', resp))
    × (resp.success ≡ true)
    × (f'.log.memory_log ≡ three_entries)
    × (resp.last_log_index ≡ some 3)
on_append_entries-replicates_example =
    on_append_entries-replicates timer timer host leading following 2 three_entries-IsIndexed refl
      (omega arith) refl (omega arith)

-- What the leader sends, and what the follower has afterwards and answers.
abbrev request : AppendEntriesRequest
request = record {
  term = 2;
  leader_id = 3;
  prev_log_index = 2;
  prev_log_term = 2;
  entries = make_c ∷ [];
  leader_commit_index = 2;
}

abbrev followed : Consensus
followed = record following {
  leader_id = pos 3;
  next_election = 800;
  log = log_with three_entries 2;
}

abbrev stored : AppendEntriesResponse
stored = record { term = 2; success = true; last_log_index = some 3 }

follows : on_append_entries timer timer request following ≡ some (followed, stored)
unfolding on_append_entries show_log print_log store_entries get_last_log_index append_entries
    advance_commit get_last_commit_index set_last_commit_index
follows = refl

-- An answer of host 2 to the leader, when host 3 has acknowledged the entry at index 2 already.
abbrev waiting : Consensus
waiting = record leading { pending_entries = λ k. if 2 == k then 3 ∷ [] else [] }

waiting-AllDistinct : AllDistinct waiting.pending_entries
waiting-AllDistinct k = elim (Bool-cases (2 == k)) [
  | inl here ↦ rw here (refl, tt)
  | inr elsewhere ↦ rw elsewhere tt
]

abbrev sent : AppendEntriesRequest
sent = record request {
  leader_id = 1;
  prev_log_index = 1;
  entries = make_b ∷ [];
  leader_commit_index = 1;
}

abbrev kept : AppendEntriesResponse
kept = record { term = 2; success = true; last_log_index = some 2 }

abbrev committed : Consensus
committed = record waiting {
  pending_entries = λ k. if 2 == k then 2 ∷ 3 ∷ [] else if 2 == k then 3 ∷ [] else [];
  log = log_with three_entries 2;
}

commits : on_append_entries_response timer 2 sent kept waiting ≡ some committed
unfolding on_append_entries_response get_last_commit_index set_last_commit_index get_last_log_index
commits = refl

on_append_entries_response-commits_example :
    ((get_last_commit_index committed.log ≡ get_last_commit_index waiting.log)
      ⊎ ((get_last_commit_index waiting.log < get_last_commit_index committed.log)
          × (2 ≤ length (committed.pending_entries (get_last_commit_index committed.log)))))
    × AllDistinct committed.pending_entries
on_append_entries_response-commits_example =
    on_append_entries_response-commits timer 2 sent kept waiting committed waiting-AllDistinct
      commits

-- A new host, and a leader that has committed an entry.
abbrev new_host : Consensus
new_host = init timer 2 (1 ∷ 3 ∷ [])

abbrev heartbeat : AppendEntriesRequest
heartbeat = record request { prev_log_index = 0; entries = []; leader_commit_index = 1 }

on_append_entries-empty_log_example :
    (on_append_entries timer timer heartbeat new_host ≡ none)
    ↔ (((heartbeat.entries ≡ []) × (0 < 1)) ⊎ ((heartbeat.entries ≢ []) × (0 < 0)))
unfolding init empty_log
on_append_entries-empty_log_example =
    on_append_entries-empty_log timer timer heartbeat new_host (omega arith) refl

-- A follower whose third entry is not the leader's.
abbrev differing : Consensus
differing = record following {
  log = log_with (make_a ∷ make_b ∷ entry 1 3 mkdir (codes "/d") ∷ []) 1;
}

abbrev correction : AppendEntriesRequest
correction = record request { leader_commit_index = 3 }

refuses : store_entries 2 (make_c ∷ []) differing.log ≡ some (differing.log, false)
unfolding store_entries get_last_log_index append_entries
refuses = refl

on_append_entries-refused_commits_example :
    (s' : Consensus) × (resp : AppendEntriesResponse) × (on_append_entries timer timer correction
        differing
      ≡ some (s', resp))
    × (resp.success ≡ false)
    × (s'.log.last_commited_index ≡ 3)
unfolding get_last_commit_index get_last_log_index
on_append_entries-refused_commits_example =
    on_append_entries-refused_commits timer timer correction differing (omega arith) refuses
      (omega arith) (omega arith)

abbrev retrying : Consensus
retrying = server leader (log_with three_entries 0)

abbrev refusals : ℕ → AppendEntriesResponse
refusals m = record { term = 2; success = false; last_log_index = some m }

refused_rounds-first_example :
    (s : Consensus) × (refused_rounds 3 timer 1 refusals retrying ≡ some s)
    × (get_elem? s.remotes 1 ≡ some (record { id = 3; next_index = some 1 }))
    × (s ≡ record retrying { remotes = s.remotes })
refused_rounds-first_example =
    refused_rounds-first 3 timer 1 4 (record { id = 3; next_index = some 4 }) refusals retrying refl
      refl (omega arith) (omega arith) (λ m lt. (refl, refl))

-- A follower whose second entry is of another term than the leader's.
abbrev conflicting : Consensus
conflicting = server follower (log_with (make_a ∷ entry 2 2 mkdir (codes "/x") ∷ []) 0)

on_append_entries-unchecked_example :
    (req : AppendEntriesRequest) × (f : Consensus) × (resp : AppendEntriesResponse)
    × (append_entries_request (record { id = 2; next_index = some 3 }) retrying ≡ some req)
    × (on_append_entries timer timer req conflicting ≡ some (f, resp))
    × (resp.success ≡ true)
    × (f.log.memory_log ≡ make_a ∷ entry 2 2 mkdir (codes "/x") ∷ make_c ∷ [])
    × (resp.last_log_index ≡ some 3)
on_append_entries-unchecked_example =
    on_append_entries-unchecked timer timer (record { id = 2; next_index = some 3 }) retrying
      conflicting three_entries-IsIndexed (refl, (refl, tt)) (omega arith) refl (omega arith)
