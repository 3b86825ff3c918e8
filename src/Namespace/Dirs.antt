-- ===== src/Namespace/Dirs.antt =====
-- `DeleteDir` by path.
use raftfs.Prelude.{
  ◌≡◌, ◌≢◌, ◌⊎◌, ◌||◌, refl, ◌∙◌, Bool, true, false, List, [], ◌∷◌, ◌++◌, none, some, arith,
  if◌then◌else◌, text_eq, text_eq_iff, text_eq_refl, Bool-cases, inl, inr, Option-cases,
}
use raftfs.Protocol.{Text}
use raftfs.Inode.{Attributes, Children, inode_file, inode_directory, get_child, erase, is_empty}
use raftfs.Inode.Unique.{IsUnique, get_child-erase, delete_child-directory}
use raftfs.Namespace.{FsNamespace, resolve, modify, may_delete, dir_deletion, delete_dir}
use raftfs.Namespace.Paths.{resolve-modify, modify-same, resolve-IsUnique}
use raftfs.Namespace.Apart.{parts, find_node, find_node-modify}
use raftfs.Namespace.Files.{Names, changes_at}

-- A directory of this name that the visitor may delete, and that is empty unless all of it is to go.
abbrev pub Deletable : Text → Bool → Children → Text → Type 0
Deletable visitor recursive c n =
    (a : Attributes) × (k : Children) × (get_child n c ≡ some (inode_directory a k))
    × (may_delete a visitor ≡ true)
    × ((recursive ≡ true) ⊎ (is_empty k ≡ true))

deletion_cases :
    (visitor : Text) (recursive : Bool) (c : Children) (n : Text)
    → (Deletable visitor recursive c n
        × (dir_deletion visitor recursive c n ≡ some (erase n c, true)))
      ⊎ (¬ Deletable visitor recursive c n × (dir_deletion visitor recursive c n ≡ some (c, false)))
deletion_cases visitor recursive c n = elim (Option-cases (get_child n c)) [
  | inl missing ↦ inr ((λ d. ground (arith, d.2)), rw (missing, dir_deletion))
  | inr (inode_file a s, e) ↦ inr ((λ d. ground (arith, d.2)), rw (e, dir_deletion))
  | inr (inode_directory a k, e) ↦ elim (Bool-cases (may_delete a visitor)) [
    | inr may_not ↦ inr ((λ d. ground (arith, d.2, d.3)), ground arith)
    | inl may ↦ elim (Bool-cases (is_empty k || recursive)) [
      | inl gone ↦
          inl (
            (a, k, e, may, ground arith),
            ground (arith, delete_child-directory n recursive c a k e),
          )
      | inr kept ↦ inr (
        (λ d. ground (arith, d.2, d.4)),
        ground (arith, delete_child-directory n recursive c a k e),
      )
    ]
  ]
]

module _ (split : Text → List Text) (path : Text) (dirs : List Text) (n : Text) (fs : FsNamespace)
    (c : Children) (names : Names split path dirs n) (parent : resolve dirs fs.root ≡ some c) where
  -- On a path to the name n, which is not empty, in a directory c that exists, where names are unique:
  -- `DeleteDir` succeeds exactly if c has a directory of this name that the visitor may delete and that
  -- is empty, unless all of it is to go. It then takes away that child of c and no other, and leaves
  -- every node whose path parts with the one that was asked for, and the committed index. Otherwise it
  -- changes nothing.
  pub delete_dir-outcome :
      (visitor : Text) (recursive : Bool)
      → IsUnique fs.root
      → (Deletable visitor recursive c n
          × ((fs' : FsNamespace) × (c' : Children) × (delete_dir split path visitor recursive fs
                ≡ some (fs', true))
              × (resolve dirs fs'.root ≡ some c')
              × (get_child n c' ≡ none)
              × ((j : Text) → j ≢ n → get_child j c' ≡ get_child j c)
              × ((p : List Text)
                  → parts p (dirs ++ n ∷ []) ≡ true
                  → find_node p fs'.root ≡ find_node p fs.root)
              × (fs'.commited_index ≡ fs.commited_index)))
        ⊎ (¬ Deletable visitor recursive c n
            × (delete_dir split path visitor recursive fs ≡ some (fs, false)))
  unfolding delete_dir
  delete_dir-outcome visitor recursive u = elim (deletion_cases visitor recursive c n) [
    | inl (d, e) ↦ inl (
      d,
      (
        record fs { root = modify dirs (λ _. erase n c) fs.root },
        erase n c,
        changes_at split path dirs n fs c names parent (dir_deletion visitor recursive) (erase n c)
            true e,
        resolve-modify dirs (λ _. erase n c) fs.root c parent,
        ground (arith, gone n, text_eq_refl n),
        (λ j other. ground (arith, gone j, text_eq_iff n j)),
        (λ p apart.
            find_node-modify dirs p n (λ _. erase n c) fs.root c parent
              (λ j other. ground (arith, gone j, text_eq_iff n j, text_eq_iff j n)) apart),
        refl,
      ),
    )
    | inr (d, e) ↦ inr (
      d,
      changes_at split path dirs n fs c names parent (dir_deletion visitor recursive) c false e
          ∙ rw (modify-same dirs (λ _. c) fs.root c parent refl),
    )
  ]
    where
      gone : (j : Text) → get_child j (erase n c) ≡ (if text_eq n j then none else get_child j c)
      gone j = get_child-erase j n c (resolve-IsUnique dirs fs.root c parent u)
