-- ===== src/Inode/Table/Runs.antt =====
-- A stored directory of filesystem/INode.cpp from its construction on.
use mathlib.Core.Path.{subst}
use raftfs.Prelude.{
  ℕ, ◌≡◌, refl, ap, sym, ◌∙◌, Option-cases, inl, inr, true, false, List, [], ◌∷◌, none, some, arith,
  map, contains,
}
use raftfs.Protocol.{Text}
use raftfs.Inode.{
  Children, nil, INode, inode_file, inode_directory, get_child, create_file, create_dir, erase,
  map_child, list_dir_name, unknown,
}
use raftfs.Inode.Lookup.{name_of}
use raftfs.Inode.Table.{
  Directory, empty_directory, get_child_pointer, create_pointer, create_file_pointer,
  create_dir_pointer, erase_child_pointer, write_child, list_dir_inode, Change, made_file, made_dir,
  erased, written, stored_change, tree_change,
}
use raftfs.Inode.Table.Search.{at, tree_of, search-contains}
use raftfs.Inode.Table.Refine.{
  Matches, Refines, created, stored_tree, get_child-stored_tree, erase_child_pointer-Refines,
  write_child-Refines, create_pointer-Refines,
}

-- The same changes of a directory as it is stored and of its tree of values.
pub data Run (nodes : ℕ → INode) : Directory → Children → Type 0 where
  begun : Run nodes (empty_directory nodes) nil
  changed :
      {d : Directory} {c : Children} (p : ℕ) (ch : Change)
      → contains p d.children ≡ false
      → Run nodes d c
      → Run nodes (stored_change p ch d) (tree_change ch c)

erase-missing : (n : Text) (c : Children) → get_child n c ≡ none → erase n c ≡ c
unfolding get_child erase
erase-missing n Children.nil e = refl
erase-missing n (Children.file a s r) e = ground (arith, erase-missing n r)
erase-missing n (Children.dir a k r) e = ground (arith, erase-missing n r)

create_file-created :
    (n : Text) (now : ℕ) (c : Children)
    → (create_file n now c).0
      ≡ created (inode_file (record { name = n; owner = unknown; create_time = now }) none) c
unfolding create_file
create_file-created n now c = ground arith

create_dir-created :
    (n : Text) (now : ℕ) (c : Children)
    → (create_dir n now c).0
      ≡ created (inode_directory (record { name = n; owner = unknown; create_time = now }) nil) c
unfolding create_dir
create_dir-created n now c = ground arith

erased-Refines :
    (p : ℕ) (n : Text) (d : Directory)
    → Matches d
    → Refines (stored_change p (erased n) d) (erase n (stored_tree d))
erased-Refines p n d h = elim (Option-cases (d.children_map n)) [
  | inl missing ↦
      let absent : get_child n (stored_tree d) ≡ none =
        get_child-stored_tree n d h ∙ ap (at d.nodes) missing in
      let kept : stored_change p (erased n) d ≡ d = ground arith in
      subst (λ e. Refines e (erase n (stored_tree d))) (sym kept)
        (h, sym (erase-missing n (stored_tree d) absent))
  | inr (q, there) ↦
      let gone : stored_change p (erased n) d ≡ erase_child_pointer n d = ground arith in
      subst (λ e. Refines e (erase n (stored_tree d))) (sym gone)
        (erase_child_pointer-Refines n d h)
]

stored_change-Refines :
    (p : ℕ) (ch : Change) (d : Directory)
    → contains p d.children ≡ false
    → Matches d
    → Refines (stored_change p ch d) (tree_change ch (stored_tree d))
unfolding create_file_pointer create_dir_pointer
stored_change-Refines p (made_file n now) d fresh h =
    subst (Refines (create_file_pointer p n now d).0)
      (sym (create_file-created n now (stored_tree d)))
      (create_pointer-Refines p
        (inode_file (record { name = n; owner = unknown; create_time = now }) none) d fresh h)
stored_change-Refines p (made_dir n now) d fresh h =
    subst (Refines (create_dir_pointer p n now d).0)
      (sym (create_dir-created n now (stored_tree d)))
      (create_pointer-Refines p
        (inode_directory (record { name = n; owner = unknown; create_time = now }) nil) d fresh h)
stored_change-Refines p (erased n) d fresh h = erased-Refines p n d h
stored_change-Refines p (written n g) d fresh h = write_child-Refines n g d h

Run-Refines : {nodes : ℕ → INode} {d : Directory} {c : Children} → Run nodes d c → Refines d c
unfolding raftfs.Inode.Table.Search.search
Run-Refines begun = (record { apart = tt; found = λ n. refl }, refl)
Run-Refines (changed {d} {c} p ch fresh r) =
    let (h, tree) = Run-Refines r in
    let (h', tree') = stored_change-Refines p ch d fresh h in (h', tree' ∙ ap (tree_change ch) tree)

list_dir_name-tree_of :
    (nodes : ℕ → INode) (ps : List ℕ)
    → map (λ p. name_of (nodes p)) ps ≡ list_dir_name (tree_of nodes ps)
list_dir_name-tree_of nodes [] = refl
list_dir_name-tree_of nodes (p ∷ ps) = ground (arith, list_dir_name-tree_of nodes ps)

-- After any creations and deletions of children and any changes below them, each new node being at
-- an address that no child has then, the map gives for every name the child that a search of the tree
-- of values gives, all its pointers are to children, and the vector has the children of the tree in
-- their order.
pub Run-get_child_pointer :
    (nodes : ℕ → INode) {d : Directory} {c : Children}
    → Run nodes d c
    → ((n : Text) → at d.nodes (get_child_pointer n d) ≡ get_child n c)
      × ((n : Text) (p : ℕ) → get_child_pointer n d ≡ some p → contains p d.children ≡ true)
      × (tree_of d.nodes d.children ≡ c)
      × (map (λ p. name_of (d.nodes p)) (list_dir_inode d) ≡ list_dir_name c)
Run-get_child_pointer nodes {d} {c} r =
    let (h, tree) = Run-Refines r in
    (
      λ n. sym (get_child-stored_tree n d h) ∙ ap (get_child n) tree,
      λ n p e. search-contains d.nodes n d.children p (sym (h.found n) ∙ e),
      tree,
      list_dir_name-tree_of d.nodes d.children ∙ ap list_dir_name tree,
    )
