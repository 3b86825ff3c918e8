-- ===== src/PerfTest/Limits.antt =====
-- A benchmark whose limits fall short of the commands asked for, as rounding or the ratios make them.
use raftfs.Prelude.{ℕ, zero, suc, ◌≤◌, ◌<◌, ◌≡◌, ◌≢◌, refl, ◌∙◌, Bool, List, some, arith}
use raftfs.Protocol.{Text, Status}
use raftfs.PerfTest.{
  Command, Node, perf_mkdir, perf_rmdir, perf_listdir, perf_getfinfo, perf_createfile, perf_delete,
  FileSystem, PerfTest, sum_limits, new, create_test_tree,
}
use raftfs.PerfTest.Run.{run, finished, note, account, with_tree}
use raftfs.PerfTest.Counts.{
  Tally, run_from-keeps, execute_parts, note-Tally, new-Tally, create_test_tree-Tally,
}

-- The limits and the total are those that the constructor set.
abbrev IsGiven : (Command → ℕ) → ℕ → PerfTest → Type 0
IsGiven limit total p = Tally p × (p.cmd_limit ≡ limit) × (p.cmd_total_to_run ≡ total)

new-set :
    (total : ℕ) (limit : Command → ℕ) (garbage : ℕ × ℕ × ℕ) (p : PerfTest)
    → new total limit garbage ≡ some p
    → (p.cmd_limit ≡ limit) × (p.cmd_total_to_run ≡ total)
unfolding new
new-set total limit garbage p e = (ground arith, ground arith)

create_test_tree-set :
    {S : Type 0} (fs : FileSystem S) (number : ℕ) (do_rpc : Bool) (p : PerfTest) (w : S)
    → let q = (create_test_tree fs number do_rpc p w).0 in
      (q.cmd_limit ≡ p.cmd_limit) × (q.cmd_total_to_run ≡ p.cmd_total_to_run)
unfolding create_test_tree
create_test_tree-set fs zero do_rpc p w = (refl, refl)
create_test_tree-set fs (suc zero) do_rpc p w = (refl, refl)
create_test_tree-set fs (suc (suc zero)) do_rpc p w = (refl, refl)
create_test_tree-set fs (suc (suc (suc n))) do_rpc p w = (refl, refl)

note-set :
    (c : Command) (name : Text) (rtn : Status) (time : ℕ) (tree : List Node) (p : PerfTest)
    → let q = note c name rtn (account c rtn time (with_tree c tree p)) in
      (q.cmd_limit ≡ p.cmd_limit) × (q.cmd_total_to_run ≡ p.cmd_total_to_run)
unfolding note account
note-set c name rtn time tree p = (ground arith, ground arith)

sum_limits-le : (f g : Command → ℕ) → ((c : Command) → f c ≤ g c) → sum_limits f ≤ sum_limits g
sum_limits-le f g h = omega (
  arith,
  h perf_mkdir,
  h perf_rmdir,
  h perf_listdir,
  h perf_getfinfo,
  h perf_createfile,
  h perf_delete,
)

-- If the limits of the commands together are below the number of commands to run, no draws at all let
-- `run` end by having executed its commands: it gives up, reads out of bounds, or draws for ever.
pub run-short :
    {S : Type 0} (fs : FileSystem S) (took : ℕ → ℕ) (draws : List Command) (total : ℕ)
    (limit : Command → ℕ) (garbage : ℕ × ℕ × ℕ) (p : PerfTest) (number : ℕ) (do_rpc : Bool) (w : S)
    → new total limit garbage ≡ some p
    → sum_limits limit < total
    → let (q, v) = create_test_tree fs number do_rpc p w in (run fs took draws q v).0 ≢ finished
unfolding run
run-short fs took draws total limit garbage p number do_rpc w e short ended =
    let (q, v) = create_test_tree fs number do_rpc p w in
    let set = create_test_tree-set fs number do_rpc p w in
    let given = new-set total limit garbage p e in
    let ((tally, limits, all), end) =
      run_from-keeps fs took (IsGiven limit total)
        (λ c k s s' x x' more room _ done h.
          let (n, rtn, _, same) = execute_parts fs took c k s s' x x' done in
          let kept = note-set c n.fullname rtn _ _ s in
          rw same (note-Tally c n.fullname rtn _ _ s room more h.0, kept.0 ∙ h.1, kept.1 ∙ h.2))
        draws 0 q v
        (
          create_test_tree-Tally fs number do_rpc p w (new-Tally total limit garbage p e),
          set.0 ∙ given.0,
          set.1 ∙ given.1,
        ) in
    let below = sum_limits-le _ _ tally.within in
    absurd (omega (arith, end ended, tally.executed, rw limits at below, all))
