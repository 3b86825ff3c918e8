-- ===== src/Inode/Table/Erased.antt =====
-- The end of `DeleteChild` on a stored directory and on the tree of values.
use raftfs.Prelude.{
  ℕ, ◌≡◌, refl, Bool-cases, inl, inr, List, [], ◌∷◌, none, if◌then◌else◌, arith, text_eq,
  text_eq_iff,
}
use raftfs.Protocol.{Text}
use raftfs.Inode.{Children, INode, inode_file, inode_directory, erase}
use raftfs.Inode.Lookup.{name_of}
use raftfs.Inode.Table.{erase_first}
use raftfs.Inode.Table.Search.{search, join, tree_of, NamedApart}

erase-join :
    (n : Text) (i : INode) (c : Children)
    → erase n (join i c) ≡ (if text_eq (name_of i) n then c else join i (erase n c))
unfolding erase
erase-join n (inode_file a s) c = refl
erase-join n (inode_directory a k) c = refl

module _ (nodes : ℕ → INode) (n : Text) where
  pub tree_of-erase_first :
      (ps : List ℕ) → tree_of nodes (erase_first nodes n ps) ≡ erase n (tree_of nodes ps)
  unfolding erase_first erase
  tree_of-erase_first [] = refl
  tree_of-erase_first (p ∷ ps) =
      ground (arith, tree_of-erase_first ps, erase-join n (nodes p) (tree_of nodes ps))

  search-erase_first-none :
      (j : Text) (ps : List ℕ)
      → search nodes j ps ≡ none
      → search nodes j (erase_first nodes n ps) ≡ none
  unfolding search erase_first
  search-erase_first-none j [] h = refl
  search-erase_first-none j (p ∷ ps) h = ground (arith, search-erase_first-none j ps)

  pub NamedApart-erase_first :
      (ps : List ℕ) → NamedApart nodes ps → NamedApart nodes (erase_first nodes n ps)
  unfolding erase_first
  NamedApart-erase_first [] h = tt
  NamedApart-erase_first (p ∷ ps) h = elim (Bool-cases (text_eq (name_of (nodes p)) n)) [
    | inl hit ↦ rw hit h.1
    | inr miss ↦
        rw miss (search-erase_first-none (name_of (nodes p)) ps h.0, NamedApart-erase_first ps h.1)
  ]

  pub search-erase_first :
      (j : Text) (ps : List ℕ)
      → NamedApart nodes ps
      → search nodes j (erase_first nodes n ps) ≡ (if text_eq n j then none else search nodes j ps)
  unfolding search erase_first
  search-erase_first j [] h = ground arith
  search-erase_first j (p ∷ ps) h = ground (
    arith,
    text_eq_iff (name_of (nodes p)) n,
    text_eq_iff n j,
    text_eq_iff (name_of (nodes p)) j,
    search-erase_first j ps h.1,
  )
