-- ===== src/Tests/Clusters.antt =====
-- Three servers: the first is elected by the second, takes a change, and sends it.
use raftfs.Prelude.{
  arith, ◌≢◌, ◌+◌, ◌≤◌, ◌<◌, ℕ, ◌≡◌, ◌⊎◌, refl, true, false, List, [], ◌∷◌, none, some, codes, pos,
  update, IsDistinct, get_elem?,
}
use raftfs.Protocol.{
  mkdir, ReqVoteRequest, ReqVoteResponse, AppendEntriesRequest, AppendEntriesResponse,
}
use raftfs.Log.{
  print_log, empty_log, get_last_log_index, get_last_log_term_and_index, append_entry,
  get_last_commit_index, append_entries, get_entries_start_at,
}
use raftfs.Log.Append.{Agrees}
use raftfs.Raft.{Consensus, Timer, RemoteHost, init, check_leader, candidate, leader}
use raftfs.Raft.Rpc.{
  show_log, on_request_vote, on_append_entries, store_entries, advance_commit, begin_meta_operation,
}
use raftfs.Raft.Remote.{request_vote_request, on_request_vote_response, append_entries_request}
use raftfs.Cluster.{
  Cluster, vote_asked, vote_answered, append_asked, append_answered, Timely, Led, nothing, first,
  start, check, meta, ask_vote, ask_append, vote, voted, append, move, Reach, here, next,
}
use raftfs.Cluster.Histories.{Reach-Timely}
use raftfs.Cluster.Leaders.{one_leader}
use raftfs.Cluster.Authors.{AppendsOnly}
use raftfs.Cluster.AppendOnly.{Reach-AppendsOnly}
use raftfs.Cluster.Electable.{leads_in_some_run}
use raftfs.Cluster.Agreement.{leaders_agree}
use raftfs.Cluster.Numbered.{Numbered, Reach-Numbered}
use raftfs.Cluster.Entries.{same_entries, delivered_request}
use raftfs.Raft.Following.{requested}
use raftfs.Raft.Timers.{on_append_entries-check_leader}
use raftfs.Tests.Data.{timer, entry}

abbrev pub hosts : List ℕ
hosts = 1 ∷ 2 ∷ 3 ∷ []

abbrev expired : Timer
expired = record { now = 1000; delay = 600 }

abbrev pub begun : Cluster
begun = start hosts (λ i. timer)

abbrev standing : Consensus
standing = check_leader expired (begun.servers 1)

abbrev stood : Cluster
stood = record { servers = update begun.servers 1 standing; calls = [] }

abbrev vote_request : ReqVoteRequest
vote_request = request_vote_request standing

abbrev asked : Cluster
asked = record {
  servers = update stood.servers 1 standing;
  calls = vote_asked 1 2 vote_request ∷ [];
}

abbrev granting : Consensus × ReqVoteResponse
granting = on_request_vote timer timer vote_request (asked.servers 2)

abbrev answered : Cluster
answered = record {
  servers = update asked.servers 2 granting.0;
  calls = vote_answered 1 2 vote_request granting.1 ∷ [];
}

abbrev pub leading : Consensus
leading = on_request_vote_response 2 granting.1 standing

abbrev pub led : Cluster
led = record { servers = update answered.servers 1 leading; calls = [] }

abbrev pub changed : Consensus
changed = (begin_meta_operation mkdir (codes "/a") leading).0

abbrev pub grown : Cluster
grown = record { servers = update led.servers 1 changed; calls = [] }

stands : standing.current_role ≡ candidate
unfolding start init check_leader
stands = refl

remote_of_standing : get_elem? standing.remotes 0 ≡ some (record { id = 2; next_index = none })
unfolding start init check_leader
remote_of_standing = refl

pub leads : leading.current_role ≡ leader
unfolding start init check_leader on_request_vote_response on_request_vote request_vote_request
    empty_log get_last_log_term_and_index
leads = refl

run_to_asked : Reach Led hosts begun asked
unfolding start
run_to_asked = next (next here (move 1 refl (check expired) nothing)) (
    move 1 refl (ask_vote 0 (record { id = 2; next_index = none }) stands remote_of_standing)
      nothing)

in_term : vote_request.term ≡ standing.current_term
unfolding request_vote_request
in_term = refl

pub run_to_led : Reach Led hosts begun led
run_to_led =
    next (next run_to_asked (move 2 refl (vote timer timer 1 vote_request) first))
      (move 1 refl (voted 2 vote_request granting.1 in_term) first)

abbrev remote : RemoteHost
remote = record { id = 2; next_index = some 1 }

abbrev pub request : AppendEntriesRequest
request = record {
  term = 1;
  leader_id = 1;
  prev_log_index = 0;
  prev_log_term = 1;
  entries = entry 1 1 mkdir (codes "/a") ∷ [];
  leader_commit_index = 0;
}

abbrev sent : Cluster
sent = record { servers = update grown.servers 1 changed; calls = append_asked 1 2 request ∷ [] }

remote_of_changed :
    (get_elem? changed.remotes 0 ≡ some remote)
    × (changed.current_role ≡ leader)
    × (append_entries_request remote changed ≡ some request)
unfolding start init check_leader on_request_vote_response on_request_vote request_vote_request
    empty_log get_last_log_term_and_index begin_meta_operation append_entry append_entries_request
    get_last_commit_index get_entries_start_at
remote_of_changed = (refl, refl, refl)

pub run_to_grown : Reach Led hosts begun grown
run_to_grown = next run_to_led (move 1 refl (meta mkdir (codes "/a") leads) nothing)

on_to_sent : {b : Cluster} → Reach Led hosts b grown → Reach Led hosts b sent
on_to_sent r = next r (
    move 1 refl
      (ask_append 0 remote request remote_of_changed.1 remote_of_changed.0 remote_of_changed.2)
      nothing)

run_to_sent : Reach Led hosts begun sent
run_to_sent = on_to_sent run_to_grown

abbrev host_2 : Consensus
host_2 = granting.0

abbrev pub following : Consensus
following = record host_2 {
  leader_id = pos 1;
  next_election = 800;
  log = record { memory_log = request.entries; last_commited_index = 0 };
}

abbrev pub reply : AppendEntriesResponse
reply = record { term = 1; success = true; last_log_index = some 1 }

stores : on_append_entries timer timer request (sent.servers 2) ≡ some (following, reply)
unfolding start init check_leader on_request_vote_response on_request_vote request_vote_request
    empty_log get_last_log_term_and_index begin_meta_operation append_entry append_entries_request
    on_append_entries show_log print_log store_entries append_entries advance_commit
    get_last_commit_index
stores = refl

abbrev pub stored : Cluster
stored = record {
  servers = update sent.servers 2 following;
  calls = append_answered 1 2 request reply ∷ [];
}

pub on_to_stored : {b : Cluster} → Reach Led hosts b grown → Reach Led hosts b stored
on_to_stored r =
    next (on_to_sent r) (move 2 refl (append timer timer 1 request following reply stores) first)

pub run_to_stored : Reach Led hosts begun stored
run_to_stored = on_to_stored run_to_grown

pub hosts-IsDistinct : IsDistinct hosts
hosts-IsDistinct = (refl, (refl, (refl, tt)))

abbrev host : ℕ
host = 1

same_term : leading.current_term ≡ changed.current_term
unfolding begin_meta_operation on_request_vote_response check_leader start init on_request_vote
    get_last_log_term_and_index empty_log request_vote_request
same_term = refl

one_leader_example : host ≡ host
one_leader_example =
    one_leader hosts (λ i. timer) host host (Reach-Timely run_to_led)
      (next here (move 1 refl (meta mkdir (codes "/a") tt) nothing)) refl refl leads
      remote_of_changed.1 same_term

Reach-Numbered_example : Numbered stored
Reach-Numbered_example = Reach-Numbered hosts (λ i. timer) run_to_stored

same_entries_example : Agrees following.log.memory_log changed.log.memory_log
same_entries_example = same_entries hosts (λ i. timer) 2 1 hosts-IsDistinct run_to_stored here

delivered_request_example :
    ((true ≡ true)
      × (following.log.memory_log ≡ requested 0 request.entries (sent.servers 2).log.memory_log)
      × (some 1 ≡ some (get_last_log_index following.log)))
    ⊎ ((true ≡ false) × (following.log.memory_log ≡ (sent.servers 2).log.memory_log))
delivered_request_example =
    delivered_request hosts (λ i. timer) 1 2 timer timer hosts-IsDistinct run_to_sent first stores

not_ahead : (sent.servers 2).current_term ≤ 1
unfolding start init check_leader on_request_vote_response on_request_vote request_vote_request
    empty_log get_last_log_term_and_index begin_meta_operation
not_ahead = omega arith

abbrev soon : Timer
soon = record { now = 599; delay = 700 }

on_append_entries-check_leader_example :
    (599 < 100 + 500 → check_leader soon following ≡ following)
    × (100 + 1000 ≤ 599
        → following.current_role ≢ leader
        → ((check_leader soon following).current_role ≡ candidate)
          × ((check_leader soon following).current_term ≡ following.current_term + 1))
on_append_entries-check_leader_example =
    on_append_entries-check_leader timer timer soon request (sent.servers 2) following reply stores
      not_ahead (omega arith, omega arith) (omega arith, omega arith) (omega arith)

both_name :
    (changed.leader_id ≡ pos host)
    × (following.leader_id ≡ pos host)
    × (changed.current_term ≡ following.current_term)
unfolding begin_meta_operation on_request_vote_response check_leader start init on_request_vote
    get_last_log_term_and_index empty_log request_vote_request
both_name = (refl, refl, refl)

leaders_agree_example : host ≡ host
leaders_agree_example =
    leaders_agree hosts (λ i. timer) 1 2 host host hosts-IsDistinct (Reach-Timely run_to_grown)
      (next
        (next here (
          move 1 refl
            (ask_append 0 remote request remote_of_changed.1 remote_of_changed.0
              remote_of_changed.2)
            nothing))
        (move 2 refl (append timer timer 1 request following reply stores) first))
      both_name.0 both_name.1 both_name.2

leads_in_some_run_example :
    (d : Cluster) × (Reach Timely hosts (start hosts (λ i. timer)) d
      × ((d.servers 3).current_role ≡ leader)
      × ((d.servers 3).current_term ≡ 1))
leads_in_some_run_example =
    leads_in_some_run hosts (λ i. timer) 3 refl hosts-IsDistinct expired (omega arith) (omega arith)

Reach-AppendsOnly_example : AppendsOnly leading changed
Reach-AppendsOnly_example =
    Reach-AppendsOnly hosts (λ i. timer) 1 hosts-IsDistinct refl (Reach-Timely run_to_led)
      (next here (move 1 refl (meta mkdir (codes "/a") tt) nothing)) leads
