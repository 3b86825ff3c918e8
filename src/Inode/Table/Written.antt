-- ===== src/Inode/Table/Written.antt =====
-- A child of a stored directory changed through its pointer, and the same change of the tree of values.
use mathlib.Core.Path.{subst}
use raftfs.Prelude.{
  ℕ, ◌≡◌, refl, ap, sym, ◌∙◌, ◌==◌, ==_iff, Bool-cases, inl, inr, true, false, List, [], ◌∷◌, none,
  some, if◌then◌else◌, arith, text_eq, text_eq_iff, text_eq_refl, update,
}
use raftfs.Protocol.{Text}
use raftfs.Inode.{Children, INode, inode_file, inode_directory, map_child}
use raftfs.Inode.Lookup.{name_of}
use raftfs.Inode.Table.{change_children}
use raftfs.Inode.Table.Search.{search, join, tree_of, NamedApart, search-name_of}

name_of-change_children :
    (g : Children → Children) (i : INode) → name_of (change_children g i) ≡ name_of i
name_of-change_children g (inode_file a s) = refl
name_of-change_children g (inode_directory a k) = refl

map_child-join :
    (n : Text) (g : Children → Children) (i : INode) (c : Children)
    → map_child n g (join i c)
      ≡ (if text_eq (name_of i) n then join (change_children g i) c else join i (map_child n g c))
unfolding map_child
map_child-join n g (inode_file a s) c = refl
map_child-join n g (inode_directory a k) c = refl

module _ (nodes : ℕ → INode) (p : ℕ) (g : Children → Children) where
  abbrev written_nodes : ℕ → INode
  written_nodes = update nodes p (change_children g (nodes p))

  written_nodes-at : written_nodes p ≡ change_children g (nodes p)
  written_nodes-at = let self : (p == p) ≡ true = ground arith in rw self refl

  -- Names stay.
  name_of-written : (q : ℕ) → name_of (written_nodes q) ≡ name_of (nodes q)
  name_of-written q = elim (Bool-cases (p == q)) [
    | inl same ↦
        let e : p ≡ q = (==_iff p q).0 same in
        rw same (name_of-change_children g (nodes p) ∙ ap (λ k. name_of (nodes k)) e)
    | inr other ↦ rw other refl
  ]

  pub search-written : (n : Text) (ps : List ℕ) → search written_nodes n ps ≡ search nodes n ps
  unfolding search
  search-written n [] = refl
  search-written n (q ∷ ps) = rw (name_of-written q, search-written n ps)

  pub NamedApart-written : (ps : List ℕ) → NamedApart nodes ps → NamedApart written_nodes ps
  NamedApart-written [] h = tt
  NamedApart-written (q ∷ ps) h = (
    ap (λ m. search written_nodes m ps) (name_of-written q)
        ∙ search-written (name_of (nodes q)) ps
        ∙ h.0,
    NamedApart-written ps h.1,
  )

  -- The node is not among others that do not have its name.
  tree_of-elsewhere :
      (ps : List ℕ)
      → search nodes (name_of (nodes p)) ps ≡ none
      → tree_of written_nodes ps ≡ tree_of nodes ps
  unfolding search
  tree_of-elsewhere [] e = refl
  tree_of-elsewhere (q ∷ ps) e =
      let other : (p == q) ≡ false = ground (arith, ==_iff p q, text_eq_refl (name_of (nodes p))) in
      rw (other, tree_of-elsewhere ps (ground arith))

  pub tree_of-written :
      (n : Text) (ps : List ℕ)
      → NamedApart nodes ps
      → search nodes n ps ≡ some p
      → tree_of written_nodes ps ≡ map_child n g (tree_of nodes ps)
  unfolding search
  tree_of-written n [] h e = cc
  tree_of-written n (q ∷ ps) h e = elim (Bool-cases (text_eq (name_of (nodes q)) n)) [
    | inl hit ↦
        let same : q ≡ p = ground arith in
        let found : written_nodes q ≡ change_children g (nodes q) =
          subst (λ k. written_nodes k ≡ change_children g (nodes k)) (sym same) written_nodes-at in
        let rest : tree_of written_nodes ps ≡ tree_of nodes ps =
          tree_of-elsewhere ps (ap (λ k. search nodes (name_of (nodes k)) ps) (sym same) ∙ h.0) in
        rw (found, rest) (sym (map_child-join n g (nodes q) (tree_of nodes ps) ∙ rw hit refl))
    | inr miss ↦
        let further : search nodes n ps ≡ some p = ground arith in
        let other : (p == q) ≡ false = ground (
          arith,
          ==_iff p q,
          search-name_of nodes n ps p further,
          text_eq_iff (name_of (nodes q)) n,
        ) in
        rw (other, tree_of-written n ps h.1 further)
          (sym (map_child-join n g (nodes q) (tree_of nodes ps) ∙ rw miss refl))
  ]
