-- ===== src/PerfTest/Counts.antt =====
-- What the counters of a benchmark say, whatever is drawn and whatever the client answers.
use raftfs.Prelude.{
  ℕ, zero, suc, ◌+◌, ◌≤◌, ◌<◌, ◌≡◌, refl, Bool, true, inl, inr, List, [], ◌∷◌, ◌++◌, none, some,
  arith, ltb, if◌then◌else◌, Bool-cases, Option-cases, get_elem?, set,
}
use raftfs.Protocol.{Text, Status}
use raftfs.PerfTest.{
  Command, Node, perf_mkdir, perf_rmdir, perf_listdir, perf_getfinfo, perf_createfile, perf_delete,
  same_command, Rec, FileSystem, PerfTest, sum_limits, new, create_test_tree, is_ok,
}
use raftfs.PerfTest.Run.{
  choose_node, execute, run_from, run, finished, count_cmd, cmd_correct, account, note, with_tree,
  tree_of, marked, call,
}

pub record Tally (p : PerfTest) : Type 0 where
  pub within : (c : Command) → p.cmd_count c ≤ p.cmd_limit c
  pub executed : p.cmd_executed ≡ sum_limits p.cmd_count
  pub by_kind : p.read_count + p.write_count ≡ p.cmd_executed
  pub recorded : (c : Command) → count_cmd c p.records ≡ p.cmd_count c
  pub correct : p.correct_write_count ≤ p.write_count
  pub reported : p.correct_write_count ≤ cmd_correct p.records
  pub bounded : p.cmd_executed ≤ p.cmd_total_to_run

same_command_eq : (c d : Command) → same_command c d ≡ true → c ≡ d
unfolding same_command
same_command_eq c d e = ground arith

same_command_refl : (c : Command) → same_command c c ≡ true
unfolding same_command
same_command_refl c = ground arith

-- One more of one command is one more in all.
sum_limits-one :
    (c : Command) (f : Command → ℕ)
    → sum_limits (λ d. if same_command c d then f d + 1 else f d) ≡ sum_limits f + 1
unfolding same_command
sum_limits-one perf_mkdir f = omega arith
sum_limits-one perf_rmdir f = omega arith
sum_limits-one perf_listdir f = omega arith
sum_limits-one perf_getfinfo f = omega arith
sum_limits-one perf_createfile f = omega arith
sum_limits-one perf_delete f = omega arith

count_cmd-append :
    (c d : Command) (name : Text) (rtn : Status) (rs : List Rec)
    → count_cmd c (rs ++ record { cmd = d; node = name; err_no = rtn } ∷ [])
      ≡ (if same_command d c then count_cmd c rs + 1 else count_cmd c rs)
unfolding count_cmd
count_cmd-append c d name rtn [] = refl
count_cmd-append c d name rtn (r ∷ rs) = ground (arith, count_cmd-append c d name rtn rs)

cmd_correct-append :
    (d : Command) (name : Text) (rtn : Status) (rs : List Rec)
    → cmd_correct (rs ++ record { cmd = d; node = name; err_no = rtn } ∷ [])
      ≡ (if is_ok rtn then cmd_correct rs + 1 else cmd_correct rs)
unfolding cmd_correct
cmd_correct-append d name rtn [] = refl
cmd_correct-append d name rtn (r ∷ rs) = ground (arith, cmd_correct-append d name rtn rs)

module _ {S : Type 0} (fs : FileSystem S) (took : ℕ → ℕ) where
  -- What a command that runs makes of the state.
  pub execute_parts :
      (c : Command) (k : ℕ) (p p' : PerfTest) (w w' : S)
      → execute fs took c k p w ≡ some (p', w')
      → (n : Node) × (rtn : Status) × (get_elem? (tree_of c p) k ≡ some n)
        × (p'
            ≡ note c n.fullname rtn (
                account c rtn
                  (took p.cmd_executed)
                  (with_tree c (set (tree_of c p) k (marked c rtn n)) p)))
  unfolding execute
  execute_parts c k p p' w w' e = elim (Option-cases (get_elem? (tree_of c p) k)) [
    | inl missing ↦ ground arith
    | inr (n, there) ↦ (n, (call fs took c n.fullname w).1, there, ground arith)
  ]

pub note-Tally :
    (c : Command) (name : Text) (rtn : Status) (time : ℕ) (tree : List Node) (p : PerfTest)
    → p.cmd_count c + 1 ≤ p.cmd_limit c
    → p.cmd_executed < p.cmd_total_to_run
    → Tally p
    → Tally (note c name rtn (account c rtn time (with_tree c tree p)))
unfolding note account
note-Tally c name rtn time tree p room more h = record {
  within = λ d. ground (arith, h.within d, same_command_eq c d);
  executed = ground (arith, h.executed, sum_limits-one c p.cmd_count);
  by_kind = ground (arith, h.by_kind);
  recorded = λ d. ground (arith, h.recorded d, count_cmd-append d c name rtn p.records);
  correct = ground (arith, h.correct);
  reported = ground (arith, h.reported, cmd_correct-append c name rtn p.records);
  bounded = ground arith;
}

module _ {S : Type 0} (fs : FileSystem S) (took : ℕ → ℕ) where
  -- A property that every command which the loop runs keeps is one of the whole run, which ends as
  -- finished only when all commands have been executed.
  pub run_from-keeps {ℓ} :
      (P : PerfTest → Type ℓ)
      → ((c : Command) (k : ℕ) (p p' : PerfTest) (w w' : S)
          → p.cmd_executed < p.cmd_total_to_run
          → p.cmd_count c + 1 ≤ p.cmd_limit c
          → choose_node c p ≡ some (some k)
          → execute fs took c k p w ≡ some (p', w')
          → P p
          → P p')
      → (draws : List Command) (no_valid : ℕ) (p : PerfTest) (w : S) → P p
      → let (end, q, _) = run_from fs took draws no_valid p w in
        P q × (end ≡ finished → q.cmd_total_to_run ≤ q.cmd_executed)
  unfolding run_from
  run_from-keeps P keep [] no_valid p w h = (h, λ e. ground arith)
  run_from-keeps P keep (c ∷ draws) no_valid p w h =
      elim (Bool-cases (ltb p.cmd_executed p.cmd_total_to_run)) [
        | inr over ↦ rw (run_from, over) (h, λ e. ground arith)
        | inl more ↦ elim (Bool-cases (ltb (p.cmd_limit c) (p.cmd_count c + 1))) [
          | inl full ↦ rw (run_from, more, full) (run_from-keeps P keep draws no_valid p w h)
          | inr room ↦ elim (Bool-cases (ltb 1000 no_valid)) [
            | inl tired ↦ rw (run_from, more, room, tired) (h, λ e. cc)
            | inr fresh ↦ elim (Option-cases (choose_node c p)) [
              | inl outside ↦ rw (run_from, more, room, fresh, outside) (h, λ e. cc)
              | inr (none, chosen) ↦
                  rw (run_from, more, room, fresh, chosen)
                    (run_from-keeps P keep draws (no_valid + 1) p w h)
              | inr (some k, chosen) ↦ elim (Option-cases (execute fs took c k p w)) [
                | inl outside ↦ rw (run_from, more, room, fresh, chosen, outside) (h, λ e. cc)
                | inr ((p', w'), done) ↦
                    rw (run_from, more, room, fresh, chosen, done)
                      (run_from-keeps P keep draws 0 p' w'
                        (keep c k p p' w w' (ground arith) (ground arith) chosen done h))
              ]
            ]
          ]
        ]
      ]

pub new-Tally :
    (total : ℕ) (limit : Command → ℕ) (garbage : ℕ × ℕ × ℕ) (p : PerfTest)
    → new total limit garbage ≡ some p
    → Tally p
unfolding new count_cmd cmd_correct
new-Tally total limit garbage p e = record {
  within = λ d. ground arith;
  executed = ground arith;
  by_kind = ground arith;
  recorded = λ d. ground arith;
  correct = ground arith;
  reported = ground arith;
  bounded = ground arith;
}

pub other_trees :
    (p : PerfTest) (test read write : List Node)
    → Tally p
    → Tally (record p { test_tree = test; read_tree = read; write_tree = write })
other_trees p test read write h = record {
  within = h.within;
  executed = h.executed;
  by_kind = h.by_kind;
  recorded = h.recorded;
  correct = h.correct;
  reported = h.reported;
  bounded = h.bounded;
}

-- A test tree leaves the counters alone.
pub create_test_tree-Tally :
    {S : Type 0} (fs : FileSystem S) (number : ℕ) (do_rpc : Bool) (p : PerfTest) (w : S)
    → Tally p
    → Tally (create_test_tree fs number do_rpc p w).0
unfolding create_test_tree
create_test_tree-Tally fs zero do_rpc p w h = h
create_test_tree-Tally fs (suc zero) do_rpc p w h = other_trees p _ _ _ h
create_test_tree-Tally fs (suc (suc zero)) do_rpc p w h = other_trees p _ _ _ h
create_test_tree-Tally fs (suc (suc (suc n))) do_rpc p w h = h

-- In every state that a benchmark ends in, for any draws, test tree and answers of the client: no command
-- has run more often than its limit, nor more commands than asked for; the commands executed are the
-- sum of the counts, and the reads and writes together; the statistics that count the records of a
-- command give the count of that command; and no more
-- writes are correct than were made, nor than the statistics report as correct commands.
pub run-Tally :
    {S : Type 0} (fs : FileSystem S) (took : ℕ → ℕ) (draws : List Command) (total : ℕ)
    (limit : Command → ℕ) (garbage : ℕ × ℕ × ℕ) (p : PerfTest) (number : ℕ) (do_rpc : Bool) (w : S)
    → new total limit garbage ≡ some p
    → let (q, v) = create_test_tree fs number do_rpc p w in Tally (run fs took draws q v).1
unfolding run
run-Tally fs took draws total limit garbage p number do_rpc w e =
    let (q, v) = create_test_tree fs number do_rpc p w in
    (run_from-keeps fs took Tally
      (λ c k s s' x x' more room _ done h.
        let (n, rtn, _, same) = execute_parts fs took c k s s' x x' done in
        rw same (note-Tally c n.fullname rtn _ _ s room more h))
      draws 0 q v
      (create_test_tree-Tally fs number do_rpc p w (new-Tally total limit garbage p e))).0
