-- ===== src/Tests/Directories.antt =====
-- The root directory as it is stored, with the directory a, a file in it, and the file b.
use raftfs.Prelude.{ℕ, ◌≡◌, refl, true, [], ◌∷◌, none, some, map, codes, text_eq, contains}
use raftfs.Protocol.{Text}
use raftfs.Inode.{Children, nil, INode, inode_file, unknown, get_child, create_file, list_dir_name}
use raftfs.Inode.Lookup.{name_of}
use raftfs.Inode.Table.{
  Directory, empty_directory, get_child_pointer, create_pointer, create_file_pointer,
  create_dir_pointer, erase_first, write_child, list_dir_inode, made_file, made_dir, erased,
  written, stored_change, tree_change, Change,
}
use raftfs.Inode.Table.Search.{at, tree_of}
use raftfs.Inode.Table.Runs.{Run, begun, changed, Run-get_child_pointer}

abbrev no_node : INode
no_node = inode_file (record { name = []; owner = unknown; create_time = 0 }) none

abbrev first : Directory
first = stored_change 4 (made_dir (codes "a") 1) (empty_directory (λ p. no_node))

abbrev inner : Change
inner = written (codes "a") (λ k. (create_file (codes "c") 2 k).0)

abbrev second : Directory
second = stored_change 5 inner first

abbrev third : Directory
third = stored_change 5 (made_file (codes "b") 3) second

-- The address 4 is free when a is gone, and is used again.
abbrev fourth : Directory
fourth = stored_change 6 (erased (codes "a")) third

abbrev last : Directory
last = stored_change 4 (made_file (codes "a") 7) fourth

abbrev last_tree : Children
last_tree = tree_change (made_file (codes "a") 7) (
    tree_change (erased (codes "a")) (
      tree_change (made_file (codes "b") 3)
        (tree_change inner (tree_change (made_dir (codes "a") 1) nil))))

run_to_last : Run (λ p. no_node) last last_tree
unfolding create_pointer create_file_pointer create_dir_pointer write_child erase_first text_eq
run_to_last = changed 4 (made_file (codes "a") 7) refl (
    changed 6 (erased (codes "a")) refl (
      changed 5 (made_file (codes "b") 3) refl
        (changed 5 inner refl (changed 4 (made_dir (codes "a") 1) refl begun))))

pointers : list_dir_inode last ≡ 5 ∷ 4 ∷ []
unfolding create_pointer create_file_pointer create_dir_pointer write_child erase_first text_eq
pointers = refl

Run-get_child_pointer_example :
    ((n : Text) → at last.nodes (get_child_pointer n last) ≡ get_child n last_tree)
    × ((n : Text) (p : ℕ) → get_child_pointer n last ≡ some p → contains p last.children ≡ true)
    × (tree_of last.nodes last.children ≡ last_tree)
    × (map (λ p. name_of (last.nodes p)) (list_dir_inode last) ≡ list_dir_name last_tree)
Run-get_child_pointer_example = Run-get_child_pointer (λ p. no_node) run_to_last
