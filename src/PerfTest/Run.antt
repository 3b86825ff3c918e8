-- ===== src/PerfTest/Run.antt =====
-- `PerfTest::run` and the counts of `result_write_stats`. `draws` are the commands that `rand` gives, and
-- `took` the time that each command takes.
use raftfs.Prelude.{
  ℕ, ◌+◌, ◌-◌, Bool, true, false, not, ◌&&◌, List, [], ◌∷◌, ◌++◌, Option, none, some, ltb, ◌==◌,
  if◌then◌else◌, ◌>>=◌, length, get_elem?, set, drop,
}
use raftfs.Protocol.{Text, Status}
use raftfs.PerfTest.{
  Command, perf_mkdir, perf_rmdir, perf_listdir, perf_getfinfo, perf_createfile, perf_delete,
  same_command, Node, Rec, FileSystem, PerfTest, is_ok,
}

abbrev pub is_read : Command → Bool
is_read perf_listdir = true
is_read perf_getfinfo = true
is_read _ = false

-- The do-while loops that look for a node from position i on. The result is the position after the node
-- that the loop stops at; `none` is a read out of bounds.
pub search_node : (Node → Bool) → ℕ → ℕ → List Node → Option ℕ
search_node skip limit i [] = none
search_node skip limit i (n ∷ rest) =
    let further = search_node skip limit (i + 1) rest in
    if ltb (i + 1) limit && skip n then further else some (i + 1)

-- A search that runs into its limit has found nothing.
abbrev found : ℕ → ℕ → Option ℕ
found limit i = if i == limit then none else some (i - 1)

abbrev exists_already : Node → Bool
exists_already n = n.should_exist

abbrev is_missing : Node → Bool
is_missing n = not n.should_exist

-- The first `switch`: the position of the node for a command, in the tree that the command works on.
unfoldable pub choose_node : Command → PerfTest → Option (Option ℕ)
unfolding search_node
choose_node perf_mkdir p = do
  i ← search_node exists_already (length p.write_tree) 4 (drop 4 p.write_tree)
  some (found (length p.write_tree) i)
choose_node perf_rmdir p = do
  i ← search_node is_missing (length p.write_tree) 4 (drop 4 p.write_tree)
  some (found (length p.write_tree) i)
choose_node perf_createfile p = do
  i ← search_node exists_already 4 1 (drop 1 p.write_tree)
  some (found 4 i)
choose_node perf_delete p = do
  i ← search_node is_missing (length p.write_tree) 1 (drop 1 p.write_tree)
  some (found (length p.write_tree) i)
choose_node perf_getfinfo p = some (some 1)
choose_node perf_listdir p = some (some 0)

abbrev pub tree_of : Command → PerfTest → List Node
tree_of c p = if is_read c then p.read_tree else p.write_tree

-- The node after its command: `should_exist` is set from the status alone.
abbrev pub marked : Command → Status → Node → Node
marked perf_rmdir rtn n = record n { should_exist = not (is_ok rtn) }
marked perf_delete rtn n = record n { should_exist = not (is_ok rtn) }
marked _ rtn n = record n { should_exist = is_ok rtn }

abbrev pub with_tree : Command → List Node → PerfTest → PerfTest
with_tree c tree p =
    if is_read c then record p { read_tree = tree } else record p { write_tree = tree }

-- The latencies and the counts of reads and writes.
unfoldable pub account : Command → Status → ℕ → PerfTest → PerfTest
account c rtn time p =
    if is_read c
    then record p {
      total_read_latency = p.total_read_latency + time;
      read_count = p.read_count + 1;
    }
    else if is_ok rtn
    then record p {
      total_write_latency = p.total_write_latency + time;
      write_count = p.write_count + 1;
      correct_write_count = p.correct_write_count + 1;
      correct_write_latency = p.correct_write_latency + time;
    }
    else record p {
      total_write_latency = p.total_write_latency + time;
      write_count = p.write_count + 1;
    }

-- The record of a command, and its count.
unfoldable pub note : Command → Text → Status → PerfTest → PerfTest
note c name rtn p = record p {
  records = p.records ++ record { cmd = c; node = name; err_no = rtn } ∷ [];
  cmd_count = λ d. if same_command c d then p.cmd_count d + 1 else p.cmd_count d;
  cmd_executed = p.cmd_executed + 1;
}

-- How `run` ends: all commands executed, given up, out of draws while it still runs, undefined.
pub data Ending : Type 0 where
  finished gave_up draws_out undefined : Ending

module _ {S : Type 0} (fs : FileSystem S) (took : ℕ → ℕ) where
  abbrev pub call : Command → Text → S → S × Status
  call perf_mkdir = fs.mkdir
  call perf_rmdir = fs.rmdir
  call perf_listdir = fs.list_dir
  call perf_getfinfo = fs.get_file_info
  call perf_createfile = fs.create_file
  call perf_delete = fs.delete_file

  -- The second `switch` and what follows it.
  unfoldable pub execute : Command → ℕ → PerfTest → S → Option (PerfTest × S)
  unfolding account note
  execute c k p w = do
    n ← get_elem? (tree_of c p) k
    let (w', rtn) = call c n.fullname w
    let p' = with_tree c (set (tree_of c p) k (marked c rtn n)) p
    some (note c n.fullname rtn (account c rtn (took p.cmd_executed) p'), w')

  -- The loop of `run`: a draw over the limit is drawn again. `no_valid` counts the commands for which
  -- no node was found since the last one that ran.
  unfoldable pub run_from : List Command → ℕ → PerfTest → S → Ending × PerfTest × S
  unfolding choose_node execute
  run_from [] no_valid p w =
      (if ltb p.cmd_executed p.cmd_total_to_run then draws_out else finished, p, w)
  run_from (c ∷ draws) no_valid p w = elim (ltb p.cmd_executed p.cmd_total_to_run) [
    | false ↦ (finished, p, w)
    | true ↦ elim (ltb (p.cmd_limit c) (p.cmd_count c + 1)) [
      | true ↦ run_from draws no_valid p w
      | false ↦ elim (ltb 1000 no_valid) [
        | true ↦ (gave_up, p, w)
        | false ↦ elim (choose_node c p) [
          | none ↦ (undefined, p, w)
          | some none ↦ run_from draws (no_valid + 1) p w
          | some (some k) ↦ elim (execute c k p w) [
            | none ↦ (undefined, p, w)
            | some r ↦ run_from draws 0 r.0 r.1
          ]
        ]
      ]
    ]
  ]

  unfoldable pub run : List Command → PerfTest → S → Ending × PerfTest × S
  unfolding run_from
  run draws p w = run_from draws 0 p w

-- The loop of `result_write_stats`: the records by command, and those that succeeded.
unfoldable pub count_cmd : Command → List Rec → ℕ
count_cmd c [] = 0
count_cmd c (r ∷ rs) = let rest = count_cmd c rs in if same_command r.cmd c then rest + 1 else rest

unfoldable pub cmd_correct : List Rec → ℕ
cmd_correct [] = 0
cmd_correct (r ∷ rs) = let rest = cmd_correct rs in if is_ok r.err_no then rest + 1 else rest
