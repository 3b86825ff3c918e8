-- ===== src/Tests/Paths.antt =====
-- The operations on a tree with the directory /a and the file /a/b.
use raftfs.Prelude.{
  ℕ, ◌≡◌, ◌≢◌, ◌⊎◌, refl, List, [], ◌∷◌, Option, none, some, true, false, if◌then◌else◌, ◌==◌,
  ◌>>=◌, codes, text_eq,
}
use raftfs.Protocol.{Text}
use raftfs.Inode.{
  Attributes, Children, nil, file, dir, inode_file, inode_directory, slash, unknown, get_child,
  to_file_info, path_from, seconds,
}
use raftfs.Inode.Unique.{IsUnique}
use raftfs.Namespace.{
  FsNamespace, split_path, resolve, make_dir, delete_dir, create_file_at, remove_file,
  get_file_info, get_parent_folder_and_child, info_at,
}
use raftfs.Namespace.Apart.{parts, find_node}
use raftfs.Namespace.Files.{Names, remove_file-create_file_at}
use raftfs.Namespace.Dirs.{Deletable, delete_dir-outcome}
use raftfs.Namespace.Levels.{Clear}
use raftfs.Namespace.Ensure.{make_dir-outcome}
use raftfs.Namespace.Info.{Splits, get_file_info-outcome}

abbrev pub begin_with : ℕ → List Text → List Text
begin_with c [] = (c ∷ []) ∷ []
begin_with c (w ∷ ws) = (c ∷ w) ∷ ws

-- A split at every slash, as `boost::split` does it.
abbrev pub split : Text → List Text
split [] = [] ∷ []
split (c ∷ cs) = let rest = split cs in if c == slash then [] ∷ rest else begin_with c rest

abbrev named : Text → ℕ → Attributes
named n t = record { name = n; owner = unknown; create_time = t }

abbrev pub inside : Children
inside = file (named (codes "b") 2) none nil

abbrev pub tree : FsNamespace
tree = record { root = dir (named (codes "a") 1) inside nil; commited_index = 2 }

abbrev pub path_b : Text
path_b = codes "/a/b"

abbrev pub path_c : Text
path_c = codes "/a/c"

pub path_b-Names : Names split path_b (codes "a" ∷ []) (codes "b")
unfolding text_eq split_path
path_b-Names = record { below_root = refl; pieces = refl; named = λ e. cc }

pub path_c-Names : Names split path_c (codes "a" ∷ []) (codes "c")
unfolding text_eq split_path
path_c-Names = record { below_root = refl; pieces = refl; named = λ e. cc }

path_a-Names : Names split (codes "/a") [] (codes "a")
unfolding text_eq split_path
path_a-Names = record { below_root = refl; pieces = refl; named = λ e. cc }

pub path_b-Splits : Splits split path_b (codes "a" ∷ []) (codes "b")
unfolding text_eq
path_b-Splits = record { at_slashes = refl; joined = refl; no_slash = (refl, tt) }

pub path_c-Splits : Splits split path_c (codes "a" ∷ []) (codes "c")
unfolding text_eq
path_c-Splits = record { at_slashes = refl; joined = refl; no_slash = (refl, tt) }

pub in_a : resolve (codes "a" ∷ []) tree.root ≡ some inside
unfolding resolve get_child text_eq
in_a = refl

in_root : resolve [] tree.root ≡ some tree.root
unfolding resolve
in_root = refl

tree-IsUnique : IsUnique tree.root
unfolding get_child text_eq
tree-IsUnique = (refl, (refl, tt), tt)

free_c : get_child (codes "c") inside ≡ none
unfolding get_child text_eq
free_c = refl

remove_file-create_file_at_example :
    (create_file_at split path_c 7 tree >>= λ r. remove_file split path_c unknown r.0)
    ≡ some (tree, true)
remove_file-create_file_at_example =
    remove_file-create_file_at split path_c (codes "a" ∷ []) (codes "c") tree inside path_c-Names
      in_a 7 unknown free_c

delete_dir-outcome_example :
    (Deletable unknown true tree.root (codes "a")
      × ((fs' : FsNamespace) × (c' : Children) × (delete_dir split (codes "/a") unknown true tree
            ≡ some (fs', true))
          × (resolve [] fs'.root ≡ some c')
          × (get_child (codes "a") c' ≡ none)
          × ((j : Text) → j ≢ codes "a" → get_child j c' ≡ get_child j tree.root)
          × ((p : List Text)
              → parts p (codes "a" ∷ []) ≡ true
              → find_node p fs'.root ≡ find_node p tree.root)
          × (fs'.commited_index ≡ tree.commited_index)))
    ⊎ (¬ Deletable unknown true tree.root (codes "a")
        × (delete_dir split (codes "/a") unknown true tree ≡ some (tree, false)))
delete_dir-outcome_example =
    delete_dir-outcome split (codes "/a") [] (codes "a") tree tree.root path_a-Names in_root unknown
      true tree-IsUnique

clear : Clear (split_path split (codes "/a/x/y")) tree.root
unfolding split_path get_child text_eq
clear = tt

make_dir-outcome_example :
    (fs' : FsNamespace) × (c : Children) × (make_dir split (codes "/a/x/y") true 5 tree
      ≡ some (fs', true))
    × (resolve (split_path split (codes "/a/x/y")) fs'.root ≡ some c)
    × ((q : List Text) (k : Children)
        → resolve q tree.root ≡ some k
        → (k' : Children) × (resolve q fs'.root ≡ some k'))
    × IsUnique fs'.root
    × (make_dir split (codes "/a/x/y") true 6 fs' ≡ some (fs', true))
make_dir-outcome_example = make_dir-outcome split (codes "/a/x/y") 5 6 tree clear tree-IsUnique

get_file_info-outcome_example :
    ((resolve (codes "a" ∷ []) tree.root ≡ none)
      × (get_file_info split path_b tree ≡ some (true, none)))
    ⊎ ((c : Children) × (resolve (codes "a" ∷ []) tree.root ≡ some c)
        × (((get_child (codes "b") c ≡ none)
              × (get_file_info split path_b tree ≡ some (false, none)))
            ⊎ (((a : Attributes) × (k : Children) × (get_child (codes "b") c
                    ≡ some (inode_directory a k))
                  × (get_file_info split path_b tree ≡ none))
                ⊎ ((a : Attributes) × (size : Option ℕ) × (get_child (codes "b") c
                      ≡ some (inode_file a size))
                    × (get_file_info split path_b tree
                        ≡ some (
                          true,
                          some (record {
                            path = path_b;
                            size = size;
                            creator = a.owner;
                            create_time = seconds a.create_time;
                          }),
                        ))))))
get_file_info-outcome_example =
    get_file_info-outcome split path_b (codes "a" ∷ []) (codes "b") tree path_b-Names path_b-Splits

-- A whole run of `GetFileInfo`.
finds_b :
    get_file_info split path_b tree
    ≡ some (true, some (record { path = path_b; size = none; creator = unknown; create_time = 0 }))
unfolding get_file_info get_parent_folder_and_child split_path text_eq resolve get_child info_at
    to_file_info path_from
finds_b = refl
