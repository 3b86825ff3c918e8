-- ===== src/Inode/Unique.antt =====
-- Unique names in every directory.
use raftfs.Prelude.{
  ◌≡◌, ◌||◌, refl, Bool, true, false, none, some, arith, if◌then◌else◌, text_eq, text_eq_iff,
  Bool-cases, inl, inr,
}
use raftfs.Protocol.{Text}
use raftfs.Inode.{
  Attributes, Children, nil, file, dir, INode, inode_file, inode_directory, get_child, add_child,
  erase, map_child, is_empty, delete_child,
}
use raftfs.Inode.Lookup.{name_of, get_child-add_child, get_child-map_child, delete_all_child_lem}

abbrev pub IsUnique : Children → Type 0
IsUnique nil = Unit {0}
IsUnique (file a s r) = (get_child a.name r ≡ none) × IsUnique r
IsUnique (dir a k r) = (get_child a.name r ≡ none) × IsUnique k × IsUnique r

abbrev pub IsUniqueNode : INode → Type 0
IsUniqueNode (inode_file a s) = Unit {0}
IsUniqueNode (inode_directory a k) = IsUnique k

pub add_child-IsUnique :
    (i : INode) (c : Children)
    → IsUniqueNode i
    → get_child (name_of i) c ≡ none
    → IsUnique c
    → IsUnique (add_child i c)
unfolding get_child add_child
add_child-IsUnique (inode_file a s) nil w h u = (refl, tt)
add_child-IsUnique (inode_directory a k) nil w h u = (refl, w, tt)
add_child-IsUnique (inode_file a t) (file b s r) w h u = (
  ground (
    arith,
    get_child-add_child b.name (inode_file a t) r,
    text_eq_iff a.name b.name,
    text_eq_iff b.name a.name,
  ),
  add_child-IsUnique (inode_file a t) r w (ground arith) u.1,
)
add_child-IsUnique (inode_file a t) (dir b m r) w h u = (
  ground (
    arith,
    get_child-add_child b.name (inode_file a t) r,
    text_eq_iff a.name b.name,
    text_eq_iff b.name a.name,
  ),
  u.1,
  add_child-IsUnique (inode_file a t) r w (ground arith) u.2,
)
add_child-IsUnique (inode_directory a t) (file b s r) w h u = (
  ground (
    arith,
    get_child-add_child b.name (inode_directory a t) r,
    text_eq_iff a.name b.name,
    text_eq_iff b.name a.name,
  ),
  add_child-IsUnique (inode_directory a t) r w (ground arith) u.1,
)
add_child-IsUnique (inode_directory a t) (dir b m r) w h u = (
  ground (
    arith,
    get_child-add_child b.name (inode_directory a t) r,
    text_eq_iff a.name b.name,
    text_eq_iff b.name a.name,
  ),
  u.1,
  add_child-IsUnique (inode_directory a t) r w (ground arith) u.2,
)

-- A name that is not there is not there after an erasure.
get_child-erase-none :
    (j n : Text) (c : Children) → get_child j c ≡ none → get_child j (erase n c) ≡ none
unfolding get_child erase
get_child-erase-none j n nil h = refl
get_child-erase-none j n (file a s r) h = ground (arith, get_child-erase-none j n r)
get_child-erase-none j n (dir a k r) h = ground (arith, get_child-erase-none j n r)

pub erase-IsUnique : (n : Text) (c : Children) → IsUnique c → IsUnique (erase n c)
unfolding erase
erase-IsUnique n nil u = tt
erase-IsUnique n (file a s r) u = elim (Bool-cases (text_eq a.name n)) [
  | inl hit ↦ rw hit u.1
  | inr miss ↦ rw miss (get_child-erase-none a.name n r u.0, erase-IsUnique n r u.1)
]
erase-IsUnique n (dir a k r) u = elim (Bool-cases (text_eq a.name n)) [
  | inl hit ↦ rw hit u.2
  | inr miss ↦ rw miss (get_child-erase-none a.name n r u.0, u.1, erase-IsUnique n r u.2)
]

-- In a directory with unique names an erasure takes away the one child of that name.
pub get_child-erase :
    (j n : Text) (c : Children)
    → IsUnique c
    → get_child j (erase n c) ≡ (if text_eq n j then none else get_child j c)
unfolding get_child erase
get_child-erase j n nil u = ground arith
get_child-erase j n (file a s r) u =
    ground (
      arith,
      text_eq_iff a.name n,
      text_eq_iff n j,
      text_eq_iff a.name j,
      get_child-erase j n r u.1,
    )
get_child-erase j n (dir a k r) u =
    ground (
      arith,
      text_eq_iff a.name n,
      text_eq_iff n j,
      text_eq_iff a.name j,
      get_child-erase j n r u.2,
    )

pub map_child-IsUnique :
    (n : Text) (g : Children → Children) (c : Children)
    → ((a : Attributes) (k : Children)
        → get_child n c ≡ some (inode_directory a k)
        → IsUnique (g k))
    → IsUnique c
    → IsUnique (map_child n g c)
unfolding map_child get_child
map_child-IsUnique n g nil h u = tt
map_child-IsUnique n g (file a s r) h u = elim (Bool-cases (text_eq a.name n)) [
  | inl hit ↦ rw hit u
  | inr miss ↦ rw miss (
    ground (arith, get_child-map_child a.name n g r),
    map_child-IsUnique n g r (λ b k e. h b k (ground arith)) u.1,
  )
]
map_child-IsUnique n g (dir a m r) h u = elim (Bool-cases (text_eq a.name n)) [
  | inl hit ↦ rw hit (u.0, h a m (ground arith), u.2)
  | inr miss ↦ rw miss (
    ground (arith, get_child-map_child a.name n g r),
    u.1,
    map_child-IsUnique n g r (λ b k e. h b k (ground arith)) u.2,
  )
]

-- A node found in such a directory is such a node.
pub get_child-IsUnique :
    (n : Text) (c : Children) (a : Attributes) (k : Children)
    → IsUnique c
    → get_child n c ≡ some (inode_directory a k)
    → IsUnique k
unfolding get_child
get_child-IsUnique n nil a k u e = absurd (ground arith)
get_child-IsUnique n (file b s r) a k u e = elim (Bool-cases (text_eq b.name n)) [
  | inl hit ↦ absurd (ground arith)
  | inr miss ↦ get_child-IsUnique n r a k u.1 (ground arith)
]
get_child-IsUnique n (dir b m r) a k u e = elim (Bool-cases (text_eq b.name n)) [
  | inl hit ↦ let same : k ≡ m = ground arith in rw same u.1
  | inr miss ↦ get_child-IsUnique n r a k u.2 (ground arith)
]

-- `DeleteChild` of a directory takes it away if it is empty or the deletion is recursive; otherwise
-- it fails and changes nothing. The recursion ends, and always succeeds.
pub delete_child-directory :
    (n : Text) (recursive : Bool) (c : Children) (a : Attributes) (k : Children)
    → get_child n c ≡ some (inode_directory a k)
    → delete_child n recursive c
      ≡ (if is_empty k || recursive then some (erase n c, true) else some (c, false))
unfolding delete_child
delete_child-directory n recursive c a k e = ground (arith, e, delete_all_child_lem k)
