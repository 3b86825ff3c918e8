-- ===== src/Tests/Elections.antt =====
-- Elections among three servers.
use Prim.Native.Nat.{max}
use raftfs.Prelude.{
  IsDistinct, ℕ, ◌+◌, ◌≡◌, ◌≤◌, ◌<◌, ◌↔◌, ◌≢◌, ◌⊎◌, refl, arith, [], ◌∷◌, none, some, true, false,
  All,
}
use raftfs.Protocol.{noop, ReqVoteRequest, ReqVoteResponse}
use raftfs.Log.{get_last_log_index, get_last_log_term, empty_log}
use raftfs.Raft.{Consensus, Timer, follower, candidate, leader, init, check_leader}
use raftfs.Raft.Rpc.{on_request_vote}
use raftfs.Raft.Remote.{request_vote_request, on_request_vote_response}
use raftfs.Raft.Step.{Reach, here, next, check, voted}
use raftfs.Raft.Elections.{Election, Reach-init-Election}
use raftfs.Raft.Votes.{Follows, Reach-Follows, on_request_vote-grants}
use raftfs.Raft.Ready.{HasRequest, append_entries_request-defined}
use raftfs.Raft.Candidates.{stale_vote_elects_two}
use raftfs.Raft.Unchecked.{on_request_vote-stand_off}
use raftfs.Tests.Data.{timer, entry, log_with, server}

abbrev first : Consensus
first = init timer 1 (2 ∷ 3 ∷ [])

abbrev expired : Timer
expired = record { now = 1000; delay = 600 }

abbrev granted : ReqVoteResponse
granted = record { term = 1; vote_granted = true }

abbrev standing : Consensus
standing = check_leader expired first

abbrev elected : Consensus
elected = on_request_vote_response 2 granted standing

abbrev run : Reach first elected
run = next (next here (check expired)) (voted 2 granted)

Reach-init-Election_example : Election elected × IsDistinct elected.vote_pool
Reach-init-Election_example = Reach-init-Election timer 1 (2 ∷ 3 ∷ []) run

Reach-Follows_example : Follows first elected
Reach-Follows_example = Reach-Follows run

leads : elected.current_role ≡ leader
unfolding init check_leader on_request_vote_response
leads = refl

append_entries_request-defined_example : All (HasRequest elected) elected.remotes
append_entries_request-defined_example =
    append_entries_request-defined timer 1 (2 ∷ 3 ∷ []) run leads

abbrev vote_request : ReqVoteRequest
vote_request = record { term = 1; candidate_id = 2; last_log_index = 0; last_log_term = 0 }

on_request_vote-grants_example :
    (((on_request_vote timer timer vote_request first).1.vote_granted ≡ true) ↔ (
      (get_last_log_index first.log ≤ 0)
      × (get_last_log_term first.log ≤ 0)
      × ((first.vote_for 1 ≡ none) ⊎ (first.vote_for 1 ≡ some 2))))
    × ((((on_request_vote timer timer vote_request first).1.vote_granted ≡ true)
          × ((on_request_vote timer timer vote_request first).0.vote_for 1 ≡ some 2))
        ⊎ (((on_request_vote timer timer vote_request first).1.vote_granted ≡ false)
            × ((k : ℕ)
                → (on_request_vote timer timer vote_request first).0.vote_for k
                  ≡ first.vote_for k)))
    × ((on_request_vote timer timer vote_request first).1.term
        ≡ (on_request_vote timer timer vote_request first).0.current_term)
    × ((on_request_vote timer timer vote_request first).0.current_term ≡ max first.current_term 1)
on_request_vote-grants_example = on_request_vote-grants timer timer vote_request first

stands : standing.current_role ≡ candidate
unfolding init check_leader
stands = refl

-- Candidate 1 in term 1, candidate 3 in term 2, and host 2 in term 0.
abbrev second : Consensus
second = init timer 2 (1 ∷ 3 ∷ [])

abbrev later : Timer
later = record { now = 5000; delay = 600 }

abbrev third : Consensus
third = check_leader later (check_leader expired (init timer 3 (1 ∷ 2 ∷ [])))

abbrev after_first : Consensus × ReqVoteResponse
after_first = on_request_vote timer timer (request_vote_request standing) second

abbrev after_third : Consensus × ReqVoteResponse
after_third = on_request_vote timer timer (request_vote_request third) after_first.0

third_stands :
    (third.current_role ≡ candidate)
    × (third.current_term ≡ standing.current_term + 1)
    × (second.current_term < standing.current_term)
    × ((standing.quorum_size ≡ 2) × (third.quorum_size ≡ 2))
    × (second.log.memory_log ≡ [])
    × (third.vote_pool ≡ third.self_id ∷ [])
    × ((second.self_id ≢ standing.self_id) × (second.self_id ≢ third.self_id))
    × (standing.next_election ≤ 5000)
unfolding init check_leader empty_log
third_stands = (
  refl,
  refl,
  omega arith,
  (refl, refl),
  refl,
  refl,
  ((λ e. omega arith), (λ e. omega arith)),
  omega arith,
)

stale_vote_elects_two_example :
    ((on_request_vote_response second.self_id after_first.1
        (check_leader later standing)).current_role
      ≡ leader)
    × ((on_request_vote_response second.self_id after_third.1 third).current_role ≡ leader)
    × ((on_request_vote_response second.self_id after_first.1
          (check_leader later standing)).current_term
        ≡ (on_request_vote_response second.self_id after_third.1 third).current_term)
stale_vote_elects_two_example =
    stale_vote_elects_two timer timer timer timer later standing second third
      (Reach-init-Election timer 1 (2 ∷ 3 ∷ []) (next here (check expired))).0
      (Reach-init-Election timer 2 (1 ∷ 3 ∷ []) here).0 stands third_stands.0 third_stands.1
      third_stands.2 third_stands.3 third_stands.4 third_stands.5 third_stands.6 third_stands.7

-- A log of three entries of term 1, and one of one entry of term 2.
abbrev longer : Consensus
longer =
    server follower (log_with (entry 1 1 noop [] ∷ entry 1 2 noop [] ∷ entry 1 3 noop [] ∷ []) 0)

abbrev newer : Consensus
newer = server candidate (log_with (entry 2 1 noop [] ∷ []) 0)

stand_off_logs :
    (get_last_log_index newer.log < get_last_log_index longer.log)
    × (get_last_log_term longer.log < get_last_log_term newer.log)
unfolding get_last_log_index get_last_log_term
stand_off_logs = (omega arith, omega arith)

on_request_vote-stand_off_example :
    ((on_request_vote timer timer (request_vote_request newer) longer).1.vote_granted ≡ false)
    × ((on_request_vote timer timer (request_vote_request longer) newer).1.vote_granted ≡ false)
on_request_vote-stand_off_example =
    on_request_vote-stand_off timer timer longer newer stand_off_logs.0 stand_off_logs.1
