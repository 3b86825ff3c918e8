-- ===== src/Inode/Table.antt =====
-- A directory of filesystem/INode.cpp as it is stored: the vector `children` owns the nodes,
-- `children_map` has a plain pointer to each under its name. A node is at an address; whoever got its
-- pointer changes it there. The allocator chooses an address that no child has.
pub mod Search
pub mod Erased
pub mod Written
pub mod Refine
pub mod Runs
use raftfs.Prelude.{ℕ, List, [], ◌∷◌, ◌++◌, Option, none, some, if◌then◌else◌, map, text_eq, update}
use raftfs.Protocol.{Text}
use raftfs.Inode.{
  Children, nil, file, dir, INode, inode_file, inode_directory, unknown, create_file, create_dir,
  erase, map_child,
}
use raftfs.Inode.Lookup.{name_of}

pub record Directory : Type 0 where
  pub nodes : ℕ → INode
  pub children : List ℕ
  pub children_map : Text → Option ℕ

abbrev pub empty_directory : (ℕ → INode) → Directory
empty_directory nodes = record { nodes = nodes; children = []; children_map = λ n. none }

-- An entry of the map is set or, with `none`, erased.
abbrev pub set_name : (Text → Option ℕ) → Text → Option ℕ → Text → Option ℕ
set_name m n o k = if text_eq n k then o else m k

-- `GetChild`
abbrev pub get_child_pointer : Text → Directory → Option ℕ
get_child_pointer n d = d.children_map n

-- `AddChild` of the node at an address.
abbrev pub add_child_pointer : ℕ → Directory → Directory
add_child_pointer p d = record d {
  children = d.children ++ p ∷ [];
  children_map = set_name d.children_map (name_of (d.nodes p)) (some p);
}

-- `CreateFile` and `CreateDir`, where the new node comes to an address.
unfoldable pub create_pointer : ℕ → INode → Directory → Directory × Option ℕ
create_pointer p i d = elim (get_child_pointer (name_of i) d) [
  | some q ↦ (d, none)
  | none ↦ (add_child_pointer p (record d { nodes = update d.nodes p i }), some p)
]

unfoldable pub create_file_pointer : ℕ → Text → ℕ → Directory → Directory × Option ℕ
create_file_pointer p n now d =
    create_pointer p (inode_file (record { name = n; owner = unknown; create_time = now }) none) d

unfoldable pub create_dir_pointer : ℕ → Text → ℕ → Directory → Directory × Option ℕ
create_dir_pointer p n now d =
    create_pointer p (inode_directory (record { name = n; owner = unknown; create_time = now }) nil)
      d

-- `ListDirINode`
abbrev pub list_dir_inode : Directory → List ℕ
list_dir_inode d = d.children

-- `find_if` and `children.erase` in `DeleteChild`: the first child of this name goes.
unfoldable pub erase_first : (ℕ → INode) → Text → List ℕ → List ℕ
erase_first nodes n [] = []
erase_first nodes n (p ∷ ps) =
    let rest = erase_first nodes n ps in if text_eq (name_of (nodes p)) n then ps else p ∷ rest

-- The end of `DeleteChild`, for a child that may go.
abbrev pub erase_child_pointer : Text → Directory → Directory
erase_child_pointer n d = record d {
  children = erase_first d.nodes n d.children;
  children_map = set_name d.children_map n none;
}

abbrev pub change_children : (Children → Children) → INode → INode
change_children g (inode_file a s) = inode_file a s
change_children g (inode_directory a k) = inode_directory a (g k)

-- The children of a directory are changed through the pointer that `GetChild` gives.
unfoldable pub write_child : Text → (Children → Children) → Directory → Directory
write_child n g d = elim (get_child_pointer n d) [
  | none ↦ d
  | some p ↦ record d { nodes = update d.nodes p (change_children g (d.nodes p)) }
]

pub data Change : Type 0 where
  made_file : Text → ℕ → Change
  made_dir : Text → ℕ → Change
  erased : Text → Change
  written : Text → (Children → Children) → Change

-- A change of the stored directory, with the address for a new node. The callers of `DeleteChild` see
-- to it that the child is there.
abbrev pub stored_change : ℕ → Change → Directory → Directory
stored_change p (made_file n now) d = (create_file_pointer p n now d).0
stored_change p (made_dir n now) d = (create_dir_pointer p n now d).0
stored_change p (erased n) d = elim (get_child_pointer n d) [
  | none ↦ d
  | some q ↦ erase_child_pointer n d
]
stored_change p (written n g) d = write_child n g d

-- The same change of the tree of values.
abbrev pub tree_change : Change → Children → Children
tree_change (made_file n now) c = (create_file n now c).0
tree_change (made_dir n now) c = (create_dir n now c).0
tree_change (erased n) c = erase n c
tree_change (written n g) c = map_child n g c
