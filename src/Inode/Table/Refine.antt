-- ===== src/Inode/Table/Refine.antt =====
-- The stored directory does what the tree of values of Inode does.
use mathlib.Core.Path.{subst}
use raftfs.Prelude.{
  ℕ, ◌≡◌, refl, ap, sym, ◌∙◌, ◌==◌, Option-cases, inl, inr, true, false, [], ◌∷◌, ◌++◌, Option,
  none, some, if◌then◌else◌, arith, text_eq, text_eq_iff, update, contains,
}
use raftfs.Protocol.{Text}
use raftfs.Inode.{Children, nil, file, dir, INode, get_child, add_child, erase, map_child}
use raftfs.Inode.Lookup.{name_of}
use raftfs.Inode.Table.{
  Directory, add_child_pointer, create_pointer, set_name, erase_child_pointer, write_child,
  change_children,
}
use raftfs.Inode.Table.Search.{
  search, tree_of, at, NamedApart, search-get_child, search-append, search-append-some,
  tree_of-append, NamedApart-append, search-fresh, tree_of-fresh, NamedApart-fresh,
}
use raftfs.Inode.Table.Erased.{tree_of-erase_first, NamedApart-erase_first, search-erase_first}
use raftfs.Inode.Table.Written.{search-written, NamedApart-written, tree_of-written}

-- The map gives what a search of the vector gives.
pub record Matches (d : Directory) : Type 0 where
  pub apart : NamedApart d.nodes d.children
  pub found : (n : Text) → d.children_map n ≡ search d.nodes n d.children

abbrev pub stored_tree : Directory → Children
stored_tree d = tree_of d.nodes d.children

abbrev pub created : INode → Children → Children
created i c = elim (get_child (name_of i) c) [ some j ↦ c | none ↦ add_child i c ]

abbrev pub Refines : Directory → Children → Type 0
Refines d c = Matches d × (stored_tree d ≡ c)

map_child-missing :
    (n : Text) (g : Children → Children) (c : Children) → get_child n c ≡ none → map_child n g c ≡ c
unfolding get_child map_child
map_child-missing n g nil e = refl
map_child-missing n g (file a s r) e = ground (arith, map_child-missing n g r)
map_child-missing n g (dir a k r) e = ground (arith, map_child-missing n g r)

pub get_child-stored_tree :
    (n : Text) (d : Directory)
    → Matches d
    → get_child n (stored_tree d) ≡ at d.nodes (d.children_map n)
get_child-stored_tree n d h =
    sym (search-get_child d.nodes n d.children) ∙ ap (at d.nodes) (sym (h.found n))

pub erase_child_pointer-Refines :
    (n : Text) (d : Directory)
    → Matches d
    → Refines (erase_child_pointer n d) (erase n (stored_tree d))
erase_child_pointer-Refines n d h = (
  record {
    apart = NamedApart-erase_first d.nodes n d.children h.apart;
    found = λ k.
        ap (λ o. if text_eq n k then none else o) (h.found k)
        ∙ sym (search-erase_first d.nodes n k d.children h.apart);
  },
  tree_of-erase_first d.nodes n d.children,
)

write_child-none :
    (n : Text) (g : Children → Children) (d : Directory)
    → d.children_map n ≡ none
    → write_child n g d ≡ d
unfolding write_child
write_child-none n g d e = ground arith

write_child-some :
    (n : Text) (g : Children → Children) (d : Directory) (p : ℕ)
    → d.children_map n ≡ some p
    → write_child n g d ≡ record d { nodes = update d.nodes p (change_children g (d.nodes p)) }
unfolding write_child
write_child-some n g d p e = ground arith

pub write_child-Refines :
    (n : Text) (g : Children → Children) (d : Directory)
    → Matches d
    → Refines (write_child n g d) (map_child n g (stored_tree d))
write_child-Refines n g d h = elim (Option-cases (d.children_map n)) [
  | inl missing ↦
      subst (λ e. Refines e (map_child n g (stored_tree d))) (sym (write_child-none n g d missing))
        (
          h,
          sym (
              map_child-missing n g (stored_tree d)
                (get_child-stored_tree n d h ∙ ap (at d.nodes) missing)),
        )
  | inr (p, there) ↦
      subst (λ e. Refines e (map_child n g (stored_tree d))) (sym (write_child-some n g d p there))
        (
          record {
            apart = NamedApart-written d.nodes p g d.children h.apart;
            found = λ k. h.found k ∙ sym (search-written d.nodes p g k d.children);
          },
          tree_of-written d.nodes p g n d.children h.apart (sym (h.found n) ∙ there),
        )
]

add_child_pointer-Refines :
    (p : ℕ) (d : Directory)
    → Matches d
    → d.children_map (name_of (d.nodes p)) ≡ none
    → Refines (add_child_pointer p d) (add_child (d.nodes p) (stored_tree d))
add_child_pointer-Refines p d h missing = (
  record { apart = NamedApart-append d.nodes d.children p absent h.apart; found = entry },
  tree_of-append d.nodes d.children p,
)
  where
    absent : search d.nodes (name_of (d.nodes p)) d.children ≡ none
    absent = sym (h.found (name_of (d.nodes p))) ∙ missing

    clash : (k : Text) → name_of (d.nodes p) ≡ k → search d.nodes k d.children ≡ none
    clash k same = ap (λ m. search d.nodes m d.children) (sym same) ∙ absent

    entry :
        (k : Text)
        → set_name d.children_map (name_of (d.nodes p)) (some p) k
          ≡ search d.nodes k (d.children ++ p ∷ [])
    entry k = elim (Option-cases (search d.nodes k d.children)) [
      | inl none_yet ↦
          ap (λ o. if text_eq (name_of (d.nodes p)) k then some p else o) (h.found k ∙ none_yet)
          ∙ sym (search-append d.nodes k d.children p none_yet)
      | inr (q, is_q) ↦
          let other : text_eq (name_of (d.nodes p)) k ≡ false =
            ground (arith, text_eq_iff (name_of (d.nodes p)) k, absent, clash k) in
          rw other (h.found k ∙ is_q ∙ sym (search-append-some d.nodes k d.children p q is_q))
    ]

-- A new node at an address that no child has.
module _ (p : ℕ) (i : INode) (d : Directory) (fresh : contains p d.children ≡ false) where
  abbrev allocated : Directory
  allocated = record d { nodes = update d.nodes p i }

  allocated-at : allocated.nodes p ≡ i
  allocated-at = let self : (p == p) ≡ true = ground arith in rw self refl

  allocated-Matches : Matches d → Matches allocated
  allocated-Matches h = record {
    apart = NamedApart-fresh d.nodes p i d.children fresh h.apart;
    found = λ k. h.found k ∙ sym (search-fresh d.nodes p i k d.children fresh);
  }

  create_pointer-new :
      d.children_map (name_of i) ≡ none → (create_pointer p i d).0 ≡ add_child_pointer p allocated
  unfolding create_pointer
  create_pointer-new e =
      ap (λ (r : Directory × Option ℕ). r.0)
        (ap
          (λ (o : Option ℕ). elim o [
            | some q ↦ (d, none)
            | none ↦ (add_child_pointer p allocated, some p)
          ])
          e)

  create_pointer-old : (q : ℕ) → d.children_map (name_of i) ≡ some q → (create_pointer p i d).0 ≡ d
  unfolding create_pointer
  create_pointer-old q e = ground arith

  pub create_pointer-Refines :
      Matches d → Refines (create_pointer p i d).0 (created i (stored_tree d))
  create_pointer-Refines h = elim (Option-cases (d.children_map (name_of i))) [
    | inl missing ↦
        let made : created i (stored_tree d) ≡ add_child i (stored_tree d) =
          ground (arith, get_child-stored_tree (name_of i) d h) in
        let (matches, tree) =
          add_child_pointer-Refines p allocated (allocated-Matches h)
            (ap d.children_map (ap name_of allocated-at) ∙ missing) in
        (
          subst Matches (sym (create_pointer-new missing)) matches,
          ap stored_tree (create_pointer-new missing)
              ∙ tree
              ∙ ap (λ j. add_child j (stored_tree allocated)) allocated-at
              ∙ ap (add_child i) (tree_of-fresh d.nodes p i d.children fresh)
              ∙ sym made,
        )
    | inr (q, there) ↦
        let kept : created i (stored_tree d) ≡ stored_tree d =
          ground (arith, get_child-stored_tree (name_of i) d h) in
        (
          subst Matches (sym (create_pointer-old q there)) h,
          ap stored_tree (create_pointer-old q there) ∙ sym kept,
        )
  ]
