-- ===== src/Namespace.antt =====
-- filesystem/FSNamespace.h and filesystem/FSNamespace.cpp: paths, and the operations on the tree.
-- A pointer to a directory is the list of names that leads to it from the root. `split` stands for
-- `boost::split` at every "/". `none` is undefined behaviour.
pub mod Paths
pub mod Apart
pub mod Files
pub mod Dirs
pub mod Levels
pub mod MakeDir
pub mod Ensure
pub mod Info
use mathlib.Core.List.{reverse}
use raftfs.Prelude.{
  ℕ, zero, suc, ◌+◌, ◌-◌, Bool, true, false, ◌&&◌, ◌||◌, not, List, [], ◌∷◌, ◌++◌, Option, none,
  some, if◌then◌else◌, ◌==◌, ◌>>=◌, text_eq, drop, back?, length, get_elem?,
}
use raftfs.Protocol.{Text}
use raftfs.Inode.{
  Attributes, Children, nil, INode, inode_file, inode_directory, unknown, slash, get_child,
  create_file, create_dir, list_dir_name, map_child, delete_child, FileInfo, to_file_info,
}

pub record FsNamespace : Type 0 where
  pub root : Children
  pub commited_index : ℕ

abbrev pub root_name : Text
root_name = slash ∷ []

unfoldable pub empty_namespace : FsNamespace
empty_namespace = record { root = nil; commited_index = 0 }

abbrev pub set_commited_index : ℕ → FsNamespace → FsNamespace
set_commited_index new_index fs = record fs { commited_index = new_index }

unfoldable pub validate_path : Text → Bool
validate_path [] = false
validate_path (c ∷ cs) = c == slash

-- `SplitPath` drops the piece before the first slash.
unfoldable pub split_path : (Text → List Text) → Text → List Text
split_path split path = drop 1 (split path)

unfoldable pub resolve : List Text → Children → Option Children
resolve [] c = some c
resolve (n ∷ ns) c = elim (get_child n c) [
  | none ↦ none
  | some (inode_file a s) ↦ none
  | some (inode_directory a k) ↦ resolve ns k
]

-- A write to the directory that the names lead to.
unfoldable pub modify : List Text → (Children → Children) → Children → Children
modify [] f c = f c
modify (n ∷ ns) f c = map_child n (modify ns f) c

abbrev pub but_last : List Text → List Text
but_last [] = []
but_last (x ∷ []) = []
but_last (x ∷ y ∷ ys) = x ∷ but_last (y ∷ ys)

-- The result of `GetParentFolderAndChild`: a directory with its content and the child's name, the
-- null pointer, or a read of the last of no pieces.
pub data Target : Type 0 where
  at : List Text → Children → Text → Target
  nowhere : Target
  undefined : Target

unfoldable pub locate : List Text → Children → Target
locate pieces root = elim (back? pieces) [
  | none ↦ undefined
  | some child ↦ elim (resolve (but_last pieces) root) [
    | none ↦ nowhere
    | some c ↦ at (but_last pieces) c child
  ]
]

unfoldable pub get_parent_folder_and_child : (Text → List Text) → Text → Children → Target
unfolding locate split_path
get_parent_folder_and_child split path root =
    if text_eq path root_name then at [] root [] else locate (split_path split path) root

-- The common frame of the operations on a child: it needs a parent and a name.
unfoldable pub on_child :
    Target
    → (Children → Text → Option (Children × Bool))
    → FsNamespace
    → Option (FsNamespace × Bool)
on_child undefined f fs = none
on_child nowhere f fs = some (fs, false)
on_child (at dirs c []) f fs = some (fs, false)
on_child (at dirs c (b ∷ bs)) f fs = do
  (c', done) ← f c (b ∷ bs)
  some (record fs { root = modify dirs (λ _. c') fs.root }, done)

abbrev pub may_delete : Attributes → Text → Bool
may_delete a visitor = text_eq a.owner visitor || text_eq a.owner unknown

abbrev pub dir_deletion : Text → Bool → Children → Text → Option (Children × Bool)
dir_deletion visitor recursive c n = elim (get_child n c) [
  | none ↦ some (c, false)
  | some (inode_file a s) ↦ some (c, false)
  | some (inode_directory a k) ↦
      if may_delete a visitor then delete_child n recursive c else some (c, false)
]

abbrev pub file_deletion : Text → Children → Text → Option (Children × Bool)
file_deletion visitor c n = elim (get_child n c) [
  | none ↦ some (c, false)
  | some (inode_directory a k) ↦ some (c, false)
  | some (inode_file a s) ↦ if may_delete a visitor then delete_child n false c else some (c, false)
]

-- Where `MakeDir` stands: the tree, the pointer `current`, and whether that is in truth a file, which
-- makes any use of it as a directory undefined.
pub record Walk : Type 0 where
  pub root : Children
  pub current : List Text
  pub at_file : Bool
  pub new_dir : ℕ
  pub i : ℕ

pub data Outcome : Type 0 where
  fails : Outcome
  ends : Walk → Outcome

-- The child that a round of the loop in `MakeDir` looks up.
child_of : Text → Walk → Option (Option INode)
child_of n w = if w.at_file then none else (do c ← resolve w.current w.root; some (get_child n c))

abbrev is_file : INode → Bool
is_file (inode_file a s) = true
is_file (inode_directory a k) = false

-- The round for a name that is not there. The flag tells whether it is the last.
missing_level : Bool → Bool → ℕ → Text → Walk → Option Outcome
missing_level parents last now n w =
    let new_dir = if last then w.new_dir else if w.new_dir == 0 then w.i else w.new_dir in
    if last || parents
    then (do
      c ← resolve w.current w.root
      let (c', done) = create_dir n now c
      some (
          ends (record w {
            root = modify w.current (λ _. c') w.root;
            current = if last then w.current else w.current ++ n ∷ [];
            new_dir = if last then if done then 0 else new_dir else new_dir;
            i = w.i + 1;
          })))
    else some fails

-- The loop of `MakeDir` over the pieces that are left.
unfoldable pub make_levels : Bool → ℕ → List Text → Walk → Option Outcome
unfolding child_of missing_level
make_levels parents now [] w = some (ends w)
make_levels parents now (n ∷ ns) w = do
  sub ← child_of n w
  elim sub [
    | some x ↦
        make_levels parents now ns
          (record w { current = w.current ++ n ∷ []; at_file = is_file x; i = w.i + 1 })
    | none ↦ (do
      outcome ← missing_level parents (length ns == 0) now n w
      elim outcome [ fails ↦ some fails | ends w' ↦ make_levels parents now ns w' ])
  ]

-- The way up from `current` in the undoing at the end of `MakeDir`.
climb : ℕ → List Text → List Text
climb zero p = p
climb (suc k) p = climb k (but_last p)

undo_levels : List Text → Walk → Option (Children × Bool)
unfolding climb
undo_levels pieces w = do
  let top = climb (w.i - (w.new_dir - 1)) w.current
  n ← get_elem? pieces w.new_dir
  c ← resolve top w.root
  (c', done) ← delete_child n true c
  some (modify top (λ _. c') w.root, false)

-- `MakeDir`
unfoldable pub make_dir_pieces : Bool → ℕ → List Text → Children → Option (Children × Bool)
unfolding undo_levels
make_dir_pieces parents now pieces root = do
  outcome ←
      make_levels parents now pieces
        (record { root = root; current = []; at_file = false; new_dir = 0; i = 0 })
  elim outcome [
    | fails ↦ some (root, false)
    | ends w ↦
        if not (w.new_dir == 0) && not (w.new_dir == w.i)
        then undo_levels pieces w
        else some (w.root, true)
  ]

-- `ListDir` and `GetFileInfo` at the parent and the name of a child; the info if it is written.
abbrev list_at : Children → Text → Option (List Text)
list_at c [] = some (list_dir_name c)
list_at c (b ∷ bs) = elim (get_child (b ∷ bs) c) [
  | none ↦ some []
  | some (inode_directory a k) ↦ some (list_dir_name k)
  | some (inode_file a s) ↦ none
]

unfoldable pub info_at : List Text → Children → Text → Option (Bool × Option FileInfo)
info_at dirs c [] = some (true, none)
info_at dirs c (b ∷ bs) = elim (get_child (b ∷ bs) c) [
  | none ↦ some (false, none)
  | some (inode_file a s) ↦ some (true, some (to_file_info (reverse (root_name ∷ dirs)) a s))
  | some (inode_directory a k) ↦ none
]

module _ (split : Text → List Text) where
  unfoldable pub make_dir : Text → Bool → ℕ → FsNamespace → Option (FsNamespace × Bool)
  make_dir path parents now fs = do
    (root, done) ← make_dir_pieces parents now (split_path split path) fs.root
    some (record fs { root = root }, done)

  unfoldable pub delete_dir : Text → Text → Bool → FsNamespace → Option (FsNamespace × Bool)
  delete_dir path visitor recursive fs =
      on_child (get_parent_folder_and_child split path fs.root) (dir_deletion visitor recursive) fs

  -- `CreateFile` does not use the owner that it is given.
  unfoldable pub create_file_at : Text → ℕ → FsNamespace → Option (FsNamespace × Bool)
  create_file_at path now fs =
      on_child (get_parent_folder_and_child split path fs.root) (λ c n. some (create_file n now c))
        fs

  unfoldable pub remove_file : Text → Text → FsNamespace → Option (FsNamespace × Bool)
  remove_file path visitor fs =
      on_child (get_parent_folder_and_child split path fs.root) (file_deletion visitor) fs

  abbrev pub list_dir : Text → FsNamespace → Option (List Text)
  list_dir path fs = elim (get_parent_folder_and_child split path fs.root) [
    | undefined ↦ none
    | nowhere ↦ some []
    | at dirs c n ↦ list_at c n
  ]

  unfoldable pub get_file_info : Text → FsNamespace → Option (Bool × Option FileInfo)
  get_file_info path fs = elim (get_parent_folder_and_child split path fs.root) [
    | undefined ↦ none
    | nowhere ↦ some (true, none)
    | at dirs c n ↦ info_at dirs c n
  ]
