-- ===== src/Tests/Answers.antt =====
-- The change of three servers is answered by ok.
use raftfs.Prelude.{
  ◌+◌, ◌-◌, ◌≡◌, refl, true, length, List, ◌∷◌, ◌++◌, none, some, take, codes, ◌>>=◌,
}
use raftfs.Protocol.{Entry, mkdir, ok, timeout}
use raftfs.Log.{empty_log, get_last_log_term_and_index, append_entry, get_last_commit_index}
use raftfs.Raft.{init, check_leader}
use raftfs.Raft.Rpc.{Wait, on_request_vote, begin_meta_operation, end_meta_operation}
use raftfs.Raft.Remote.{request_vote_request, on_request_vote_response}
use raftfs.Namespace.{set_commited_index, empty_namespace, validate_path}
use raftfs.Apply.{apply_op}
use raftfs.Apply.Replay.{replay, apply_all}
use raftfs.Cluster.{start, Led, Reach, here}
use raftfs.Cluster.Histories.{Reach-Timely}
use raftfs.Service.{ChangeResponse, change}
use raftfs.Service.Changes.{requested}
use raftfs.Service.Acknowledged.{waiting, change-acknowledged}
use raftfs.Tests.Data.{timer}
use raftfs.Tests.Paths.{split}
use raftfs.Tests.Applying.{clock}
use raftfs.Tests.Clusters.{hosts, hosts-IsDistinct, led, leading, leads, run_to_led}
use raftfs.Tests.Commits.{committed, decided, on_to_committed}

abbrev wait : Wait
wait = record { owned = true; log = committed.log }

abbrev response : ChangeResponse
response = record { status = timeout; leader_id = none }

abbrev answer : ChangeResponse
answer = record { status = ok; leader_id = none }

begun_and_committed :
    Reach Led hosts (waiting mkdir (codes "/a") leading wait response 1 led) decided
unfolding change validate_path start init check_leader on_request_vote_response on_request_vote
    request_vote_request empty_log get_last_log_term_and_index
begun_and_committed = on_to_committed here

answers : (change mkdir (codes "/a") leading leading wait response).1 ≡ some answer
unfolding change validate_path start init check_leader on_request_vote_response on_request_vote
    request_vote_request empty_log get_last_log_term_and_index begin_meta_operation append_entry
    end_meta_operation get_last_commit_index
answers = refl

same_term : committed.current_term ≡ leading.current_term
unfolding start init check_leader on_request_vote_response on_request_vote request_vote_request
    empty_log get_last_log_term_and_index begin_meta_operation
same_term = refl

nothing_yet : replay split clock leading.log.memory_log 0 ≡ some empty_namespace
unfolding start init check_leader on_request_vote_response on_request_vote request_vote_request
    empty_log get_last_log_term_and_index empty_namespace
nothing_yet = refl

change-acknowledged_example :
    let before = leading.log.memory_log in
    (rest : List Entry) × (committed.log.memory_log
      ≡ before ++ requested mkdir (codes "/a") leading ∷ rest)
    × (replay split clock committed.log.memory_log (get_last_commit_index committed.log) ≡ (do
      fs1 ← apply_op split mkdir (codes "/a") (clock (length before + 1)) empty_namespace
      fs2 ←
          apply_all split clock
            (length before + 1 + 1)
            (take (get_last_commit_index committed.log - length before - 1) rest)
            fs1
      some (set_commited_index (get_last_commit_index committed.log) fs2)))
unfolding start init check_leader on_request_vote_response on_request_vote request_vote_request
    empty_log get_last_log_term_and_index
change-acknowledged_example =
    change-acknowledged hosts (λ i. timer) 1 hosts-IsDistinct refl (Reach-Timely run_to_led) leads
      split clock mkdir (codes "/a") leading wait response answer empty_namespace
      (Reach-Timely begun_and_committed) refl same_term answers refl nothing_yet
