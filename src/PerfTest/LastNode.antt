-- ===== src/PerfTest/LastNode.antt =====
-- The nodes that a benchmark never touches, since a search that ends at the last one counts as failed.
use raftfs.Prelude.{
  ℕ, ◌≡◌, ◌⊎◌, refl, ◌∙◌, Bool, true, false, inl, inr, List, [], ◌∷◌, ◌++◌, some, arith, codes,
  get_elem?, set, All, All-append,
}
use raftfs.Protocol.{Text, Status}
use raftfs.PerfTest.{
  Command, perf_mkdir, perf_rmdir, perf_listdir, perf_getfinfo, perf_createfile, perf_delete, Node,
  Rec, FileSystem, PerfTest, new, create_test_tree,
}
use raftfs.PerfTest.Run.{choose_node, run, is_read, tree_of, with_tree, marked, note, account}
use raftfs.PerfTest.Counts.{run_from-keeps, execute_parts}

abbrev node : Text → Bool → Node
node name exists = record { fullname = name; should_exist = exists }

-- The write tree, with its third file and its third directory never made.
abbrev tree : Bool → Bool → Bool → Bool → Bool → List Node
tree a b c d e =
    node (codes "/write") a
    ∷ node (codes "/write/file21") b
    ∷ node (codes "/write/file22") c
    ∷ node (codes "/write/file23") false
    ∷ node (codes "/write/dir21") d
    ∷ node (codes "/write/dir22") e
    ∷ node (codes "/write/dir23") false
    ∷ []

-- A command that reads, or one on the first two files or the first two directories.
abbrev pub IsUsed : Rec → Type 0
IsUsed r =
    (is_read r.cmd ≡ true)
    ⊎ (r.node ≡ codes "/write/file21")
    ⊎ (r.node ≡ codes "/write/file22")
    ⊎ (r.node ≡ codes "/write/dir21")
    ⊎ (r.node ≡ codes "/write/dir22")

abbrev Untouched : PerfTest → Type 0
Untouched p =
    ((a : Bool) × (b : Bool) × (c : Bool) × (d : Bool) × (e : Bool) × (p.write_tree
        ≡ tree a b c d e))
    × All IsUsed p.records

abbrev Position : ℕ → Type 0
Position k = (k ≡ 1) ⊎ (k ≡ 2) ⊎ (k ≡ 4) ⊎ (k ≡ 5)

choose_node-Position :
    (c : Command) (k : ℕ) (p : PerfTest) (a b d e f : Bool)
    → p.write_tree ≡ tree a b d e f
    → choose_node c p ≡ some (some k)
    → (is_read c ≡ true) ⊎ Position k
unfolding choose_node
choose_node-Position perf_mkdir k p a b d e f same chosen = ground arith
choose_node-Position perf_rmdir k p a b d e f same chosen = ground arith
choose_node-Position perf_createfile k p a b d e f same chosen = ground arith
choose_node-Position perf_delete k p a b d e f same chosen = ground arith
choose_node-Position perf_listdir k p a b d e f same chosen = inl refl
choose_node-Position perf_getfinfo k p a b d e f same chosen = inl refl

-- A command changes at most the flag of its node.
marked-node :
    (c : Command) (rtn : Status) (n : Node) → (b : Bool) × (marked c rtn n ≡ node n.fullname b)
marked-node c rtn n = ((marked c rtn n).should_exist, ground arith)

set-tree :
    (k : ℕ) (a b c d e : Bool) (n : Node) (flag : Bool)
    → Position k
    → get_elem? (tree a b c d e) k ≡ some n
    → ((x : Bool) × (y : Bool) × (z : Bool) × (v : Bool) × (w : Bool) × (set
            (tree a b c d e)
            k
            (node n.fullname flag)
          ≡ tree x y z v w))
      × ((n.fullname ≡ codes "/write/file21")
          ⊎ (n.fullname ≡ codes "/write/file22")
          ⊎ (n.fullname ≡ codes "/write/dir21")
          ⊎ (n.fullname ≡ codes "/write/dir22"))
set-tree k a b c d e n flag (inl at) there =
    let name : n.fullname ≡ codes "/write/file21" = ground arith in
    ((a, flag, c, d, e, rw (at, name)), inl name)
set-tree k a b c d e n flag (inr (inl at)) there =
    let name : n.fullname ≡ codes "/write/file22" = ground arith in
    ((a, b, flag, d, e, rw (at, name)), inr (inl name))
set-tree k a b c d e n flag (inr (inr (inl at))) there =
    let name : n.fullname ≡ codes "/write/dir21" = ground arith in
    ((a, b, c, flag, e, rw (at, name)), inr (inr (inl name)))
set-tree k a b c d e n flag (inr (inr (inr at))) there =
    let name : n.fullname ≡ codes "/write/dir22" = ground arith in
    ((a, b, c, d, flag, rw (at, name)), inr (inr (inr name)))

noted :
    (c : Command) (name : Text) (rtn : Status) (time : ℕ) (new : List Node) (p : PerfTest)
    → let q = note c name rtn (account c rtn time (with_tree c new p)) in
      (q.records ≡ p.records ++ record { cmd = c; node = name; err_no = rtn } ∷ [])
      × (((is_read c ≡ true) × (q.write_tree ≡ p.write_tree))
          ⊎ ((is_read c ≡ false) × (q.write_tree ≡ new)))
unfolding note account
noted c name rtn time new p = (ground arith, ground arith)

command-Untouched :
    (c : Command) (k : ℕ) (p : PerfTest) (n : Node) (rtn : Status) (time : ℕ)
    → choose_node c p ≡ some (some k)
    → get_elem? (tree_of c p) k ≡ some n
    → Untouched p
    → Untouched (
        note c n.fullname rtn
          (account c rtn time (with_tree c (set (tree_of c p) k (marked c rtn n)) p)))
command-Untouched c k p n rtn time chosen there ((a, b, d, e, f, same), used) =
    let new = set (tree_of c p) k (marked c rtn n) in
    let (recorded, kind) = noted c n.fullname rtn time new p in
    elim kind [
      | inl (reads, kept) ↦ (
        (a, b, d, e, f, kept ∙ same),
        rw recorded (All-append IsUsed p.records _ used (inl reads, tt)),
      )
      | inr (writes, changed) ↦ elim (choose_node-Position c k p a b d e f same chosen) [
        | inl reads ↦ absurd (ground arith)
        | inr position ↦
            let (flag, mark) = marked-node c rtn n in
            let whole : tree_of c p ≡ tree a b d e f = ground arith in
            let ((x, y, z, v, w, after), name) =
              set-tree k a b d e f n flag position (rw whole at there) in
            (
              (x, y, z, v, w, changed ∙ rw (whole, mark) after),
              rw recorded (All-append IsUsed p.records _ used (inr name, tt)),
            )
      ]
    ]

new-Untouched :
    {S : Type 0} (fs : FileSystem S) (total : ℕ) (limit : Command → ℕ) (garbage : ℕ × ℕ × ℕ)
    (p : PerfTest) (do_rpc : Bool) (w : S)
    → new total limit garbage ≡ some p
    → Untouched (create_test_tree fs 2 do_rpc p w).0
unfolding new create_test_tree
new-Untouched fs total limit garbage p do_rpc w e = (
  (true, false, false, false, false, ground arith),
  let none_yet : p.records ≡ [] = ground arith in rw none_yet tt,
)

-- With the test tree that the benchmark is run on, whatever is drawn and answered: every command that it
-- runs and that is not a read is on one of the first two files or the first two directories, so the
-- third file and the third directory are never made.
pub run-IsUsed :
    {S : Type 0} (fs : FileSystem S) (took : ℕ → ℕ) (draws : List Command) (total : ℕ)
    (limit : Command → ℕ) (garbage : ℕ × ℕ × ℕ) (p : PerfTest) (do_rpc : Bool) (w : S)
    → new total limit garbage ≡ some p
    → let (q, v) = create_test_tree fs 2 do_rpc p w in All IsUsed (run fs took draws q v).1.records
unfolding run
run-IsUsed fs took draws total limit garbage p do_rpc w e =
    let (q, v) = create_test_tree fs 2 do_rpc p w in
    (run_from-keeps fs took Untouched
      (λ c k s s' x x' _ _ chosen done h.
        let (n, rtn, there, same) = execute_parts fs took c k s s' x x' done in
        rw same (command-Untouched c k s n rtn (took s.cmd_executed) chosen there h))
      draws 0 q v (new-Untouched fs total limit garbage p do_rpc w e)).0.1
