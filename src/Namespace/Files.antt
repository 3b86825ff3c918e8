-- ===== src/Namespace/Files.antt =====
-- Creation and deletion by path.
use raftfs.Prelude.{
  ℕ, ◌≡◌, ◌≢◌, ◌⊎◌, refl, ap, ◌∙◌, Bool, true, false, List, [], ◌∷◌, ◌++◌, Option, none, some,
  arith, if◌then◌else◌, ◌>>=◌, text_eq, text_eq_iff, text_eq_refl, Bool-cases, inl, inr,
  Option-cases, back?-append,
}
use raftfs.Protocol.{Text}
use raftfs.Inode.{
  Attributes, Children, INode, inode_file, inode_directory, get_child, add_child, erase,
  create_file, delete_child, unknown,
}
use raftfs.Inode.Lookup.{get_child-add_child, erase-add_child}
use raftfs.Inode.Unique.{IsUnique, get_child-erase}
use raftfs.Namespace.{
  FsNamespace, root_name, split_path, resolve, modify, but_last, at, get_parent_folder_and_child,
  on_child, may_delete, file_deletion, create_file_at, remove_file,
}
use raftfs.Namespace.Paths.{resolve-modify, modify-modify, modify-same, resolve-IsUnique}

-- The path names the child n of the directory that the names in dirs lead to.
pub record Names (split : Text → List Text) (path : Text) (dirs : List Text) (n : Text)
    : Type 0 where
  pub below_root : text_eq path root_name ≡ false
  pub pieces : split_path split path ≡ dirs ++ n ∷ []
  pub named : n ≢ []

pub but_last-append : (xs : List Text) (x : Text) → but_last (xs ++ x ∷ []) ≡ xs
but_last-append [] x = refl
but_last-append (y ∷ []) x = refl
but_last-append (y ∷ z ∷ zs) x = ap (◌∷◌ y) (but_last-append (z ∷ zs) x)

pub located :
    (split : Text → List Text) (path : Text) (dirs : List Text) (n : Text) (root c : Children)
    → Names split path dirs n
    → resolve dirs root ≡ some c
    → get_parent_folder_and_child split path root ≡ at dirs c n
unfolding get_parent_folder_and_child
located split path dirs n root c names e =
    ground (arith, names.below_root, names.pieces, back?-append dirs n, but_last-append dirs n)

on_child-at :
    (dirs : List Text) (c : Children) (n : Text) (f : Children → Text → Option (Children × Bool))
    (fs : FsNamespace)
    → n ≢ []
    → on_child (at dirs c n) f fs
      ≡ (f c n >>= λ r. some (record fs { root = modify dirs (λ _. r.0) fs.root }, r.1))
unfolding on_child
on_child-at dirs c [] f fs h = absurd (h refl)
on_child-at dirs c (b ∷ bs) f fs h = refl

abbrev pub new_file : Text → ℕ → INode
new_file n now = inode_file (record { name = n; owner = unknown; create_time = now }) none

-- An operation on the child that leads from c to c'.
pub changes_at :
    (split : Text → List Text) (path : Text) (dirs : List Text) (n : Text) (fs : FsNamespace)
    (c : Children)
    → Names split path dirs n
    → resolve dirs fs.root ≡ some c
    → (f : Children → Text → Option (Children × Bool)) (c' : Children) (b : Bool)
    → f c n ≡ some (c', b)
    → on_child (get_parent_folder_and_child split path fs.root) f fs
      ≡ some (record fs { root = modify dirs (λ _. c') fs.root }, b)
changes_at split path dirs n fs c names parent f c' b e =
    rw (located split path dirs n fs.root c names parent)
      (rw (on_child-at dirs c n f fs names.named, e))

erased_in :
    (n : Text) (c : Children) (visitor : Text) (a : Attributes) (size : Option ℕ)
    → get_child n c ≡ some (inode_file a size)
    → may_delete a visitor ≡ true
    → file_deletion visitor c n ≡ some (erase n c, true)
unfolding delete_child
erased_in n c visitor a size e may = ground arith

module _ (split : Text → List Text) (path : Text) (dirs : List Text) (n : Text) (fs : FsNamespace)
    (c : Children) (names : Names split path dirs n) (parent : resolve dirs fs.root ≡ some c) where
  changes :
      (f : Children → Text → Option (Children × Bool)) (c' : Children) (b : Bool)
      → f c n ≡ some (c', b)
      → on_child (get_parent_folder_and_child split path fs.root) f fs
        ≡ some (record fs { root = modify dirs (λ _. c') fs.root }, b)
  changes = changes_at split path dirs n fs c names parent

  leaves :
      (f : Children → Text → Option (Children × Bool)) (b : Bool)
      → f c n ≡ some (c, b)
      → on_child (get_parent_folder_and_child split path fs.root) f fs ≡ some (fs, b)
  leaves f b e = changes f c b e ∙ rw (modify-same dirs (λ _. c) fs.root c parent refl)

  -- Given a path to the child n of an existing directory c: if c has no such child, `CreateFile`
  -- succeeds, and c then has that file, of unknown owner and with no size, and its other children as
  -- before; if it has one, `CreateFile` fails and changes nothing.
  pub create_file_at-outcome :
      (now : ℕ)
      → ((get_child n c ≡ none)
          × ((fs' : FsNamespace) × (c' : Children) × (create_file_at split path now fs
                ≡ some (fs', true))
              × (resolve dirs fs'.root ≡ some c')
              × (get_child n c' ≡ some (new_file n now))
              × ((j : Text) → j ≢ n → get_child j c' ≡ get_child j c)))
        ⊎ ((get_child n c ≢ none) × (create_file_at split path now fs ≡ some (fs, false)))
  unfolding create_file_at create_file
  create_file_at-outcome now = elim (Option-cases (get_child n c)) [
    | inl free ↦
        let i = new_file n now in
        let fs' : FsNamespace = record fs { root = modify dirs (λ _. add_child i c) fs.root } in
        inl (
          free,
          (
            fs',
            add_child i c,
            changes (λ d m. some (create_file m now d)) (add_child i c) true
                (rw (free, create_file)),
            resolve-modify dirs (λ _. add_child i c) fs.root c parent,
            ground (arith, get_child-add_child n i c, text_eq_refl n),
            λ j other. ground (arith, get_child-add_child j i c, text_eq_iff n j),
          ),
        )
    | inr (i, taken) ↦
        inr
          (ground arith, leaves (λ d m. some (create_file m now d)) false (rw (taken, create_file)))
  ]

  -- A path to a file that is there, with a visitor who may delete it: `RemoveFile` takes it away from
  -- its directory c, whose other children stay. Otherwise it fails and changes nothing.
  pub remove_file-outcome :
      (visitor : Text)
      → IsUnique fs.root
      → ((a : Attributes) × (size : Option ℕ) × (get_child n c ≡ some (inode_file a size))
          × (may_delete a visitor ≡ true)
          × ((fs' : FsNamespace) × (c' : Children) × (remove_file split path visitor fs
                ≡ some (fs', true))
              × (resolve dirs fs'.root ≡ some c')
              × (get_child n c' ≡ none)
              × ((j : Text) → j ≢ n → get_child j c' ≡ get_child j c)))
        ⊎ (((a : Attributes) (size : Option ℕ)
              → get_child n c ≡ some (inode_file a size)
              → may_delete a visitor ≡ false)
            × (remove_file split path visitor fs ≡ some (fs, false)))
  unfolding remove_file
  remove_file-outcome visitor u = elim (Option-cases (get_child n c)) [
    | inl missing ↦ inr (
      (λ a size e. ground arith),
      leaves (file_deletion visitor) false (rw (missing, file_deletion)),
    )
    | inr (inode_directory a k, e) ↦
        inr
          ((λ b size f. ground arith), leaves (file_deletion visitor) false (rw (e, file_deletion)))
    | inr (inode_file a size, e) ↦ elim (Bool-cases (may_delete a visitor)) [
      | inl may ↦ inl (
        a,
        size,
        e,
        may,
        (
          record fs { root = modify dirs (λ _. erase n c) fs.root },
          erase n c,
          changes (file_deletion visitor) (erase n c) true (erased_in n c visitor a size e may),
          resolve-modify dirs (λ _. erase n c) fs.root c parent,
          ground (arith, gone n, text_eq_refl n),
          λ j other. ground (arith, gone j, text_eq_iff n j),
        ),
      )
      | inr may_not ↦
          inr ((λ b size' f. ground arith), leaves (file_deletion visitor) false (ground arith))
    ]
  ]
    where
      gone : (j : Text) → get_child j (erase n c) ≡ (if text_eq n j then none else get_child j c)
      gone j = get_child-erase j n c (resolve-IsUnique dirs fs.root c parent u)

  -- Where the name is free, a file that `CreateFile` makes and `RemoveFile` takes away again, for
  -- whichever visitor, leaves the whole name space as it was.
  pub remove_file-create_file_at :
      (now : ℕ) (visitor : Text)
      → get_child n c ≡ none
      → (create_file_at split path now fs >>= λ r. remove_file split path visitor r.0)
        ≡ some (fs, true)
  unfolding create_file_at remove_file create_file
  remove_file-create_file_at now visitor free =
      let i = new_file n now in
      let made =
        changes (λ d m. some (create_file m now d)) (add_child i c) true (rw (free, create_file)) in
      let fs' : FsNamespace = record fs { root = modify dirs (λ _. add_child i c) fs.root } in
      let root : Children = modify dirs (λ _. add_child i c) fs.root in
      let held : get_child n (add_child i c) ≡ some i =
        ground (arith, get_child-add_child n i c, text_eq_refl n) in
      let may : may_delete (record { name = n; owner = unknown; create_time = now }) visitor
          ≡ true =
        ground (arith, text_eq_refl unknown) in
      let back : modify dirs (λ _. erase n (add_child i c)) root ≡ fs.root =
        modify-modify dirs (λ _. erase n (add_child i c)) (λ _. add_child i c) fs.root
        ∙ modify-same dirs (λ _. erase n (add_child i c)) fs.root c parent
            (erase-add_child n i c refl free) in
      rw made (
        changes_at split path dirs n fs' (add_child i c) names
          (resolve-modify dirs (λ _. add_child i c) fs.root c parent) (file_deletion visitor)
          (erase n (add_child i c)) true (erased_in n (add_child i c) visitor _ none held may)
        ∙ rw back)
