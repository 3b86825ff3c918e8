-- ===== src/Inode.antt =====
-- filesystem/INode.h and filesystem/INode.cpp: files and directories as a tree of values. A directory
-- is its children in the order of the vector; `children_map` finds a child by its name, and is
-- written with the vector by `AddChild` and `DeleteChild`; here the vector is searched, and Table has the
-- map. The parent of a node is the node above it.
pub mod Lookup
pub mod Unique
pub mod Table
use raftfs.Prelude.{
  ℕ, ◌/◌, Bool, true, false, ◌&&◌, not, List, [], ◌∷◌, ◌++◌, Option, none, some, if◌then◌else◌,
  ◌==◌, codes, text_eq, contains,
}
use raftfs.Protocol.{Text}

-- The fields of `INode`. The times of modification and access stay the time of creation.
pub record Attributes : Type 0 where
  pub name : Text
  pub owner : Text
  pub create_time : ℕ

-- The vector of children, one constructor for each class of child. The size of a file is `none`
-- where the constructor leaves it uninitialised.
pub data Children : Type 0 where
  nil : Children
  file : Attributes → Option ℕ → Children → Children
  dir : Attributes → Children → Children → Children

pub data INode : Type 0 where
  inode_file : Attributes → Option ℕ → INode
  inode_directory : Attributes → Children → INode

abbrev pub unknown : Text
unknown = codes "unknown"

abbrev pub slash : ℕ
slash = b'/'

-- `ValidName`: a leading slash, and none of the special characters.
abbrev all_outside : List ℕ → Text → Bool
all_outside banned [] = true
all_outside banned (c ∷ cs) = not (contains c banned) && all_outside banned cs

abbrev valid_name : Text → Bool
valid_name [] = false
valid_name (c ∷ cs) = c == slash && all_outside (codes ",><[]{}|~&^*()") (c ∷ cs)

pub is_empty : Children → Bool
is_empty nil = true
is_empty (file a s r) = false
is_empty (dir a k r) = false

unfoldable pub get_child : Text → Children → Option INode
get_child n nil = none
get_child n (file a s r) = if text_eq a.name n then some (inode_file a s) else get_child n r
get_child n (dir a k r) = if text_eq a.name n then some (inode_directory a k) else get_child n r

-- `AddChild`: at the end of the vector.
unfoldable pub add_child : INode → Children → Children
add_child (inode_file a s) nil = file a s nil
add_child (inode_directory a k) nil = dir a k nil
add_child i (file a s r) = file a s (add_child i r)
add_child i (dir a k r) = dir a k (add_child i r)

-- `CreateFile` with the constructor of two arguments: the owner is unknown, the size is not set. The
-- flag tells whether a pointer is returned.
unfoldable pub create_file : Text → ℕ → Children → Children × Bool
create_file n now c = elim (get_child n c) [
  | some _ ↦ (c, false)
  | none ↦ (
    add_child (inode_file (record { name = n; owner = unknown; create_time = now }) none) c,
    true,
  )
]

unfoldable pub create_dir : Text → ℕ → Children → Children × Bool
create_dir n now c = elim (get_child n c) [
  | some _ ↦ (c, false)
  | none ↦ (
    add_child (inode_directory (record { name = n; owner = unknown; create_time = now }) nil) c,
    true,
  )
]

abbrev pub list_dir_name : Children → List Text
list_dir_name nil = []
list_dir_name (file a s r) = a.name ∷ list_dir_name r
list_dir_name (dir a k r) = a.name ∷ list_dir_name r

-- The erasure of the first child of this name.
pub erase : Text → Children → Children
erase n nil = nil
erase n (file a s r) = if text_eq a.name n then r else file a s (erase n r)
erase n (dir a k r) = if text_eq a.name n then r else dir a k (erase n r)

-- The children of the first child of this name, if it is a directory, become others.
unfoldable pub map_child : Text → (Children → Children) → Children → Children
map_child n g nil = nil
map_child n g (file a s r) = if text_eq a.name n then file a s r else file a s (map_child n g r)
map_child n g (dir a k r) = if text_eq a.name n then dir a (g k) r else dir a k (map_child n g r)

-- `DeleteAllChild`: `DeleteChild` of the front child, recursively, until none is left. The front
-- child is the first of its name, so the search for the name stops there.
pub delete_all_child : Children → Children × Bool
delete_all_child nil = (nil, true)
delete_all_child (file a s r) = delete_all_child r
delete_all_child (dir a k r) =
    let inner = delete_all_child k in
    let rest = delete_all_child r in
    if is_empty k then rest else if inner.1 then rest else (dir a inner.0 r, false)

-- `DeleteChild`; a child that is not there is undefined.
unfoldable pub delete_child : Text → Bool → Children → Option (Children × Bool)
unfolding is_empty erase map_child
delete_child n recursive c = elim (get_child n c) [
  | none ↦ none
  | some (inode_file a s) ↦ some (erase n c, true)
  | some (inode_directory a k) ↦
      if is_empty k
      then some (erase n c, true)
      else if recursive
      then (let (k', done) = delete_all_child k in
          if done then some (erase n c, true) else some (map_child n (λ _. k') c, false))
      else some (c, false)
]

pub record FileInfo : Type 0 where
  pub path : Text
  pub size : Option ℕ
  pub creator : Text
  pub create_time : ℕ

-- The walk to the root in `ToFileInfo`; the names of the directories above, the nearest first.
unfoldable pub path_from : List Text → Text → Text
path_from [] path = path
path_from (p ∷ ps) path =
    let up = path_from ps (p ++ slash ∷ path) in if text_eq p (slash ∷ []) then p ++ path else up

-- A time is in nanoseconds since the epoch, as the system clock of the GNU library has it, and is
-- reported in whole seconds.
abbrev pub seconds : ℕ → ℕ
seconds time = time / 1000000000

unfoldable pub to_file_info : List Text → Attributes → Option ℕ → FileInfo
unfolding path_from
to_file_info parents a size = record {
  path = path_from parents a.name;
  size = size;
  creator = a.owner;
  create_time = seconds a.create_time;
}
