-- ===== src/Inode/Table/Search.antt =====
-- The search of the vector of a stored directory, and the tree of values that it holds.
use raftfs.Prelude.{
  ℕ, ◌≡◌, refl, ap, sym, ◌∙◌, ◌==◌, Bool-cases, inl, inr, true, false, List, [], ◌∷◌, ◌++◌, Option,
  none, some, if◌then◌else◌, arith, text_eq, text_eq_iff, update, contains,
}
use raftfs.Protocol.{Text}
use raftfs.Inode.{
  Children, nil, file, dir, INode, inode_file, inode_directory, get_child, add_child,
}
use raftfs.Inode.Lookup.{name_of}

-- The first address in the vector with a node of this name.
unfoldable pub search : (ℕ → INode) → Text → List ℕ → Option ℕ
search nodes n [] = none
search nodes n (p ∷ ps) =
    let rest = search nodes n ps in if text_eq (name_of (nodes p)) n then some p else rest

abbrev pub join : INode → Children → Children
join (inode_file a s) c = file a s c
join (inode_directory a k) c = dir a k c

abbrev pub tree_of : (ℕ → INode) → List ℕ → Children
tree_of nodes [] = nil
tree_of nodes (p ∷ ps) = join (nodes p) (tree_of nodes ps)

-- No two children have the same name.
abbrev pub NamedApart : (ℕ → INode) → List ℕ → Type 0
NamedApart nodes [] = Unit {0}
NamedApart nodes (p ∷ ps) = (search nodes (name_of (nodes p)) ps ≡ none) × NamedApart nodes ps

abbrev pub at : (ℕ → INode) → Option ℕ → Option INode
at nodes none = none
at nodes (some p) = some (nodes p)

pub get_child-join :
    (n : Text) (i : INode) (c : Children)
    → get_child n (join i c) ≡ (if text_eq (name_of i) n then some i else get_child n c)
unfolding get_child
get_child-join n (inode_file a s) c = refl
get_child-join n (inode_directory a k) c = refl

pub search-get_child :
    (nodes : ℕ → INode) (n : Text) (ps : List ℕ)
    → at nodes (search nodes n ps) ≡ get_child n (tree_of nodes ps)
unfolding search get_child
search-get_child nodes n [] = refl
search-get_child nodes n (p ∷ ps) =
    ground (arith, search-get_child nodes n ps, get_child-join n (nodes p) (tree_of nodes ps))

pub search-name_of :
    (nodes : ℕ → INode) (n : Text) (ps : List ℕ) (p : ℕ)
    → search nodes n ps ≡ some p
    → name_of (nodes p) ≡ n
unfolding search
search-name_of nodes n [] p e = cc
search-name_of nodes n (q ∷ ps) p e = elim (Bool-cases (text_eq (name_of (nodes q)) n)) [
  | inl hit ↦
      let same : q ≡ p = ground arith in
      sym (ap (λ k. name_of (nodes k)) same) ∙ (text_eq_iff (name_of (nodes q)) n).0 hit
  | inr miss ↦ search-name_of nodes n ps p (ground arith)
]

pub search-contains :
    (nodes : ℕ → INode) (n : Text) (ps : List ℕ) (p : ℕ)
    → search nodes n ps ≡ some p
    → contains p ps ≡ true
unfolding search
search-contains nodes n [] p e = cc
search-contains nodes n (q ∷ ps) p e = ground (arith, search-contains nodes n ps p)

pub search-append :
    (nodes : ℕ → INode) (n : Text) (ps : List ℕ) (p : ℕ)
    → search nodes n ps ≡ none
    → search nodes n (ps ++ p ∷ []) ≡ (if text_eq (name_of (nodes p)) n then some p else none)
unfolding search
search-append nodes n [] p e = refl
search-append nodes n (q ∷ ps) p e = ground (arith, search-append nodes n ps p)

pub search-append-some :
    (nodes : ℕ → INode) (n : Text) (ps : List ℕ) (p q : ℕ)
    → search nodes n ps ≡ some q
    → search nodes n (ps ++ p ∷ []) ≡ some q
unfolding search
search-append-some nodes n [] p q e = cc
search-append-some nodes n (k ∷ ps) p q e = ground (arith, search-append-some nodes n ps p q)

add_child-join : (i x : INode) (c : Children) → add_child i (join x c) ≡ join x (add_child i c)
unfolding add_child
add_child-join (inode_file a s) (inode_file b t) c = refl
add_child-join (inode_file a s) (inode_directory b t) c = refl
add_child-join (inode_directory a s) (inode_file b t) c = refl
add_child-join (inode_directory a s) (inode_directory b t) c = refl

add_child-nil : (i : INode) → add_child i nil ≡ join i nil
unfolding add_child
add_child-nil (inode_file a s) = refl
add_child-nil (inode_directory a k) = refl

pub tree_of-append :
    (nodes : ℕ → INode) (ps : List ℕ) (p : ℕ)
    → tree_of nodes (ps ++ p ∷ []) ≡ add_child (nodes p) (tree_of nodes ps)
tree_of-append nodes [] p = sym (add_child-nil (nodes p))
tree_of-append nodes (q ∷ ps) p =
    ap (join (nodes q)) (tree_of-append nodes ps p)
    ∙ sym (add_child-join (nodes p) (nodes q) (tree_of nodes ps))

pub NamedApart-append :
    (nodes : ℕ → INode) (ps : List ℕ) (p : ℕ)
    → search nodes (name_of (nodes p)) ps ≡ none
    → NamedApart nodes ps
    → NamedApart nodes (ps ++ p ∷ [])
unfolding search
NamedApart-append nodes [] p e h = (refl, tt)
NamedApart-append nodes (q ∷ ps) p e h = (
  ground (
    arith,
    search-append nodes (name_of (nodes q)) ps p h.0,
    text_eq_iff (name_of (nodes p)) (name_of (nodes q)),
    text_eq_iff (name_of (nodes q)) (name_of (nodes p)),
  ),
  NamedApart-append nodes ps p (ground arith) h.1,
)

-- An address that no child has, in another use.
module _ (nodes : ℕ → INode) (p : ℕ) (i : INode) where
  pub search-fresh :
      (n : Text) (ps : List ℕ)
      → contains p ps ≡ false
      → search (update nodes p i) n ps ≡ search nodes n ps
  unfolding search
  search-fresh n [] e = refl
  search-fresh n (q ∷ ps) e =
      let other : (p == q) ≡ false = ground arith in rw (other, search-fresh n ps (ground arith))

  pub tree_of-fresh :
      (ps : List ℕ) → contains p ps ≡ false → tree_of (update nodes p i) ps ≡ tree_of nodes ps
  tree_of-fresh [] e = refl
  tree_of-fresh (q ∷ ps) e =
      let other : (p == q) ≡ false = ground arith in rw (other, tree_of-fresh ps (ground arith))

  pub NamedApart-fresh :
      (ps : List ℕ) → contains p ps ≡ false → NamedApart nodes ps → NamedApart (update nodes p i) ps
  NamedApart-fresh [] e h = tt
  NamedApart-fresh (q ∷ ps) e h =
      let other : (p == q) ≡ false = ground arith in
      (
        rw other (search-fresh (name_of (nodes q)) ps (ground arith) ∙ h.0),
        NamedApart-fresh ps (ground arith) h.1,
      )
