-- ===== src/Tests/Benchmarks.antt =====
-- A benchmark against a file system that answers every command by ok.
use raftfs.Prelude.{ℕ, ◌+◌, ◌≡◌, ◌≢◌, refl, true, List, [], ◌∷◌, some, arith, All}
use raftfs.Protocol.{Text, Status, ok}
use raftfs.PerfTest.{
  Command, perf_mkdir, perf_rmdir, perf_listdir, perf_getfinfo, perf_createfile, perf_delete,
  FileSystem, PerfTest, same_command, new, create_test_tree,
}
use raftfs.PerfTest.Run.{Ending, finished, run}
use raftfs.PerfTest.Counts.{Tally, run-Tally}
use raftfs.PerfTest.Limits.{run-short}
use raftfs.PerfTest.LastNode.{IsUsed, run-IsUsed}

abbrev answers : Text → ℕ → ℕ × Status
answers name calls = (calls + 1, ok)

abbrev file_system : FileSystem ℕ
file_system = record {
  mkdir = answers;
  rmdir = answers;
  list_dir = answers;
  get_file_info = answers;
  create_file = answers;
  delete_file = answers;
}

abbrev once : Command → ℕ
once c = 1

abbrev tester : PerfTest
tester = record {
  cmd_limit = once;
  cmd_count = λ c. 0;
  cmd_total_to_run = 6;
  cmd_executed = 0;
  records = [];
  test_tree = [];
  read_tree = [];
  write_tree = [];
  read_count = 0;
  write_count = 0;
  correct_write_count = 0;
  total_read_latency = 0;
  total_write_latency = 0;
  correct_write_latency = 0;
}

made : new 6 once (0, 0, 0) ≡ some tester
unfolding new
made = refl

abbrev draws : List Command
draws =
    perf_mkdir ∷ perf_mkdir ∷ perf_rmdir ∷ perf_createfile ∷ perf_delete ∷ perf_listdir
    ∷ perf_getfinfo ∷ []

abbrev begun : PerfTest × ℕ
begun = create_test_tree file_system 2 true tester 0

abbrev ended : Ending × PerfTest × ℕ
ended = run file_system (λ i. 3) draws begun.0 begun.1

-- The second mkdir is drawn again, since its limit is one; six calls prepared the trees.
run_ends : (ended.0 ≡ finished) × (ended.1.cmd_executed ≡ 6) × (ended.2 ≡ 12)
unfolding run create_test_tree same_command
run_ends = (refl, refl, refl)

run-Tally_example : Tally ended.1
run-Tally_example = run-Tally file_system (λ i. 3) draws 6 once (0, 0, 0) tester 2 true 0 made

run-IsUsed_example : All IsUsed ended.1.records
run-IsUsed_example = run-IsUsed file_system (λ i. 3) draws 6 once (0, 0, 0) tester true 0 made

abbrev longer : PerfTest
longer = record tester { cmd_total_to_run = 7 }

made_longer : new 7 once (0, 0, 0) ≡ some longer
unfolding new
made_longer = refl

run-short_example :
    (run file_system (λ i. 3) draws (create_test_tree file_system 2 true longer 0).0 6).0 ≢ finished
unfolding create_test_tree
run-short_example =
    run-short file_system (λ i. 3) draws 7 once (0, 0, 0) longer 2 true 0 made_longer (omega arith)
