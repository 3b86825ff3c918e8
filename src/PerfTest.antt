-- ===== src/PerfTest.antt =====
-- client/PerfTest.h and client/PerfTest.cpp: the benchmark that client/client_main.cpp runs through a
-- client. `FileSystem` is the part of client/RaftFS.h that it calls. `parent` and `exists` of a node, and
-- `cmd_ratio` and `cmd_cumulated_gate`, are never read. The output is not part of the state.
pub mod Run
pub mod Counts
pub mod Limits
pub mod LastNode
use raftfs.Prelude.{
  ℕ, zero, suc, ◌+◌, ◌-◌, ◌≡◌, Bool, true, false, not, ◌&&◌, List, [], ◌∷◌, ◌++◌, Option, none,
  some, ltb, leb, ◌==◌, if◌then◌else◌, ◌>>=◌, length, get_elem?, set, drop, codes,
}
use raftfs.Protocol.{Text, Status, ok}

pub data Command : Type 0 where
  perf_mkdir perf_rmdir perf_listdir perf_getfinfo perf_createfile perf_delete : Command

abbrev pub code : Command → ℕ
code perf_mkdir = 0
code perf_rmdir = 1
code perf_listdir = 2
code perf_getfinfo = 3
code perf_createfile = 4
code perf_delete = 5

unfoldable pub same_command : Command → Command → Bool
same_command a b = code a == code b

pub record Node : Type 0 where
  pub fullname : Text
  pub should_exist : Bool

abbrev pub new_node : Text → Node
new_node name = record { fullname = name; should_exist = false }

pub record Rec : Type 0 where
  pub cmd : Command
  pub node : Text
  pub err_no : Status

-- What the benchmark asks of its client, whose state is S.
pub record FileSystem (S : Type 0) : Type 0 where
  pub mkdir : Text → S → S × Status
  pub rmdir : Text → S → S × Status
  pub list_dir : Text → S → S × Status
  pub get_file_info : Text → S → S × Status
  pub create_file : Text → S → S × Status
  pub delete_file : Text → S → S × Status

pub record PerfTest : Type 0 where
  pub cmd_limit : Command → ℕ
  pub cmd_count : Command → ℕ
  pub cmd_total_to_run : ℕ
  pub cmd_executed : ℕ
  pub records : List Rec
  pub test_tree : List Node
  pub read_tree : List Node
  pub write_tree : List Node
  pub read_count : ℕ
  pub write_count : ℕ
  pub correct_write_count : ℕ
  pub total_read_latency : ℕ
  pub total_write_latency : ℕ
  pub correct_write_latency : ℕ

abbrev pub sum_limits : (Command → ℕ) → ℕ
sum_limits f =
    f perf_mkdir
    + f perf_rmdir
    + f perf_listdir
    + f perf_getfinfo
    + f perf_createfile
    + f perf_delete

-- The constructor; `limit` is the truncated product of the total and a ratio, computed in doubles. The
-- three latencies have no initial value: `garbage` is what they hold. `none` is a failed assertion.
unfoldable pub new : ℕ → (Command → ℕ) → ℕ × ℕ × ℕ → Option PerfTest
new total limit garbage =
    if leb (sum_limits limit) total
    then some (record {
      cmd_limit = limit;
      cmd_count = λ c. 0;
      cmd_total_to_run = total;
      cmd_executed = 0;
      records = [];
      test_tree = [];
      read_tree = [];
      write_tree = [];
      read_count = 0;
      write_count = 0;
      correct_write_count = 0;
      total_read_latency = garbage.0;
      total_write_latency = garbage.1;
      correct_write_latency = garbage.2;
    })
    else none

abbrev pub is_ok : Status → Bool
is_ok ok = true
is_ok _ = false

-- A node of the trees that are there from the start.
abbrev present : Text → Node
present name = record { fullname = name; should_exist = true }

module _ {S : Type 0} (fs : FileSystem S) where
  -- The calls of `create_test_tree(2, do_rpc)`, in their order.
  pub prepare : Bool → S → S
  prepare do_rpc w =
      let read =
        if do_rpc
        then (fs.create_file (codes "/read/file13")
            (fs.create_file (codes "/read/file12")
              (fs.create_file (codes "/read/file11") (fs.mkdir (codes "/read") w).0).0).0).0
        else w in
      let listed = (fs.list_dir (codes "/read") read).0 in
      if do_rpc then (fs.mkdir (codes "/write") listed).0 else listed

  -- `create_test_tree`; a case that does not exist is only reported.
  unfoldable pub create_test_tree : ℕ → Bool → PerfTest → S → PerfTest × S
  unfolding prepare
  create_test_tree (suc zero) do_rpc p w = (
    record p {
      test_tree =
          p.test_tree
          ++ new_node (codes "/dir1")
            ∷ new_node (codes "/dir1/file11")
            ∷ new_node (codes "/dir1/file12")
            ∷ new_node (codes "/dir1/file13")
            ∷ new_node (codes "/dir2")
            ∷ new_node (codes "/dir1/dir21")
            ∷ new_node (codes "/dir1/dir22")
            ∷ new_node (codes "/dir1/dir23")
            ∷ new_node (codes "/dir2")
            ∷ [];
    },
    w,
  )
  create_test_tree (suc (suc zero)) do_rpc p w = (
    record p {
      read_tree =
          p.read_tree
          ++ present (codes "/read")
            ∷ present (codes "/read/file11")
            ∷ present (codes "/read/file12")
            ∷ present (codes "/read/file13")
            ∷ [];
      write_tree =
          p.write_tree
          ++ present (codes "/write")
            ∷ new_node (codes "/write/file21")
            ∷ new_node (codes "/write/file22")
            ∷ new_node (codes "/write/file23")
            ∷ new_node (codes "/write/dir21")
            ∷ new_node (codes "/write/dir22")
            ∷ new_node (codes "/write/dir23")
            ∷ [];
    },
    prepare do_rpc w,
  )
  create_test_tree _ do_rpc p w = (p, w)
