-- ===== src/Namespace/Apart.antt =====
-- The nodes of a tree that a write to one child of one directory leaves alone.
use raftfs.Prelude.{
  ◌≡◌, refl, sym, ◌∙◌, Bool, Bool-cases, inl, inr, true, false, List, [], ◌∷◌, ◌++◌, Option, none,
  some, if◌then◌else◌, arith, text_eq, text_eq_iff,
}
use raftfs.Protocol.{Text}
use raftfs.Inode.{Attributes, Children, INode, inode_file, inode_directory, get_child, map_child}
use raftfs.Inode.Lookup.{get_child-map_child}
use raftfs.Namespace.{resolve, modify}
use raftfs.Namespace.Paths.{resolve-cons}

-- The file or directory that names lead to.
unfoldable pub find_node : List Text → Children → Option INode
find_node [] c = none
find_node (n ∷ []) c = get_child n c
find_node (n ∷ m ∷ ns) c = elim (get_child n c) [
  | none ↦ none
  | some (inode_file a s) ↦ none
  | some (inode_directory a k) ↦ find_node (m ∷ ns) k
]

-- Two paths that part at some name: neither leads through the end of the other.
unfoldable pub parts : List Text → List Text → Bool
parts [] q = false
parts (x ∷ p) [] = false
parts (x ∷ p) (y ∷ q) = let rest = parts p q in if text_eq x y then rest else true

find_node-same :
    (j m : Text) (ns : List Text) (c d : Children)
    → get_child j d ≡ get_child j c
    → find_node (j ∷ m ∷ ns) d ≡ find_node (j ∷ m ∷ ns) c
unfolding find_node
find_node-same j m ns c d same = rw (same, find_node) refl

find_node-directory :
    (j m : Text) (ns : List Text) (a : Attributes) (k c : Children)
    → get_child j c ≡ some (inode_directory a k)
    → find_node (j ∷ m ∷ ns) c ≡ find_node (m ∷ ns) k
unfolding find_node
find_node-directory j m ns a k c e = rw (e, find_node) refl

find_node-child :
    (p : List Text) (n : Text) (c d : Children)
    → ((j : Text) → text_eq j n ≡ false → get_child j d ≡ get_child j c)
    → parts p (n ∷ []) ≡ true
    → find_node p d ≡ find_node p c
unfolding find_node parts
find_node-child [] n c d same apart = cc
find_node-child (j ∷ []) n c d same apart = same j (ground arith)
find_node-child (j ∷ m ∷ ns) n c d same apart = find_node-same j m ns c d (same j (ground arith))

pub find_node-modify :
    (dirs p : List Text) (n : Text) (f : Children → Children) (root c : Children)
    → resolve dirs root ≡ some c
    → ((j : Text) → text_eq j n ≡ false → get_child j (f c) ≡ get_child j c)
    → parts p (dirs ++ n ∷ []) ≡ true
    → find_node p (modify dirs f root) ≡ find_node p root
unfolding find_node parts modify
find_node-modify [] p n f root c e same apart =
    let at : c ≡ root = unfold resolve in ground arith in
    find_node-child p n root (f root) (rw at at same) apart
find_node-modify (x ∷ xs) [] n f root c e same apart = cc
find_node-modify (x ∷ xs) (j ∷ []) n f root c e same apart =
    ground (arith, get_child-map_child j x (modify xs f) root, text_eq_iff j x, text_eq_iff x j)
find_node-modify (x ∷ xs) (j ∷ m ∷ ns) n f root c e same apart = elim (Bool-cases (text_eq j x)) [
  | inl hit ↦
      let (a, k, here, there) = resolve-cons x xs root c e in
      let is_x : j ≡ x = (text_eq_iff j x).0 hit in
      let old : get_child j root ≡ some (inode_directory a k) = rw is_x here in
      let new : get_child j (map_child x (modify xs f) root)
          ≡ some (inode_directory a (modify xs f k)) =
        ground (arith, get_child-map_child j x (modify xs f) root, text_eq_iff x j) in
      find_node-directory j m ns a (modify xs f k) _ new
      ∙ find_node-modify xs (m ∷ ns) n f k c there same (rw hit at apart)
      ∙ sym (find_node-directory j m ns a k root old)
  | inr miss ↦
      find_node-same j m ns root (map_child x (modify xs f) root) (
        ground
          (arith, get_child-map_child j x (modify xs f) root, text_eq_iff j x, text_eq_iff x j))
]
