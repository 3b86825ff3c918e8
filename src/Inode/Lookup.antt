-- ===== src/Inode/Lookup.antt =====
-- `get_child` after each change of a directory.
use raftfs.Prelude.{◌≡◌, refl, true, Option, none, some, arith, if◌then◌else◌, text_eq, text_eq_iff}
use raftfs.Protocol.{Text}
use raftfs.Inode.{
  Attributes, Children, nil, file, dir, INode, inode_file, inode_directory, get_child, add_child,
  erase, map_child, delete_all_child,
}

abbrev pub name_of : INode → Text
name_of (inode_file a s) = a.name
name_of (inode_directory a k) = a.name

abbrev pub with_children : (Children → Children) → Option INode → Option INode
with_children g none = none
with_children g (some (inode_file a s)) = some (inode_file a s)
with_children g (some (inode_directory a k)) = some (inode_directory a (g k))

abbrev pub or_else : Option INode → Option INode → Option INode
or_else none y = y
or_else (some x) y = some x

pub get_child-add_child :
    (j : Text) (i : INode) (c : Children)
    → get_child j (add_child i c)
      ≡ or_else (get_child j c) (if text_eq (name_of i) j then some i else none)
unfolding get_child add_child
get_child-add_child j (inode_file a s) nil = refl
get_child-add_child j (inode_directory a k) nil = refl
get_child-add_child j (inode_file b t) (file a s r) =
    ground (arith, get_child-add_child j (inode_file b t) r)
get_child-add_child j (inode_file b t) (dir a k r) =
    ground (arith, get_child-add_child j (inode_file b t) r)
get_child-add_child j (inode_directory b t) (file a s r) =
    ground (arith, get_child-add_child j (inode_directory b t) r)
get_child-add_child j (inode_directory b t) (dir a k r) =
    ground (arith, get_child-add_child j (inode_directory b t) r)

pub get_child-map_child :
    (j n : Text) (g : Children → Children) (c : Children)
    → get_child j (map_child n g c)
      ≡ (if text_eq n j then with_children g (get_child j c) else get_child j c)
unfolding get_child map_child
get_child-map_child j n g nil = ground arith
get_child-map_child j n g (file a s r) = ground (
  arith,
  text_eq_iff a.name n,
  text_eq_iff n j,
  text_eq_iff a.name j,
  get_child-map_child j n g r,
)
get_child-map_child j n g (dir a k r) = ground (
  arith,
  text_eq_iff a.name n,
  text_eq_iff n j,
  text_eq_iff a.name j,
  get_child-map_child j n g r,
)

-- The node of a name has that name.
pub name_of-get_child :
    (n : Text) (c : Children) (i : INode) → get_child n c ≡ some i → name_of i ≡ n
unfolding get_child
name_of-get_child n nil i e = cc
name_of-get_child n (file a s r) i e = ground (arith, text_eq_iff a.name n, name_of-get_child n r i)
name_of-get_child n (dir a k r) i e = ground (arith, text_eq_iff a.name n, name_of-get_child n r i)

-- A write of what is there already.
pub map_child-same :
    (n : Text) (g : Children → Children) (a : Attributes) (k c : Children)
    → get_child n c ≡ some (inode_directory a k)
    → g k ≡ k
    → map_child n g c ≡ c
unfolding get_child map_child
map_child-same n g a k nil e h = refl
map_child-same n g a k (file b s r) e h = ground (arith, map_child-same n g a k r)
map_child-same n g a k (dir b m r) e h = ground (arith, map_child-same n g a k r)

pub map_child-map_child :
    (n : Text) (f g : Children → Children) (c : Children)
    → map_child n f (map_child n g c) ≡ map_child n (λ k. f (g k)) c
unfolding map_child
map_child-map_child n f g nil = refl
map_child-map_child n f g (file b s r) = ground (arith, map_child-map_child n f g r)
map_child-map_child n f g (dir b m r) = ground (arith, map_child-map_child n f g r)

-- What is added under a new name can be written to, and taken away again.
pub map_child-add_child :
    (n : Text) (g : Children → Children) (a : Attributes) (k c : Children)
    → a.name ≡ n
    → get_child n c ≡ none
    → map_child n g (add_child (inode_directory a k) c) ≡ add_child (inode_directory a (g k)) c
unfolding get_child map_child add_child
map_child-add_child n g a k nil e h = ground (arith, text_eq_iff a.name n)
map_child-add_child n g a k (file b s r) e h = ground (arith, map_child-add_child n g a k r e)
map_child-add_child n g a k (dir b m r) e h = ground (arith, map_child-add_child n g a k r e)

pub erase-add_child :
    (n : Text) (i : INode) (c : Children)
    → name_of i ≡ n
    → get_child n c ≡ none
    → erase n (add_child i c) ≡ c
unfolding get_child erase add_child
erase-add_child n (inode_file a s) nil e h = ground (arith, text_eq_iff a.name n)
erase-add_child n (inode_directory a k) nil e h = ground (arith, text_eq_iff a.name n)
erase-add_child n (inode_file a t) (file b s r) e h =
    ground (arith, erase-add_child n (inode_file a t) r e)
erase-add_child n (inode_file a t) (dir b m r) e h =
    ground (arith, erase-add_child n (inode_file a t) r e)
erase-add_child n (inode_directory a t) (file b s r) e h =
    ground (arith, erase-add_child n (inode_directory a t) r e)
erase-add_child n (inode_directory a t) (dir b m r) e h =
    ground (arith, erase-add_child n (inode_directory a t) r e)

-- `DeleteAllChild` ends, succeeds, and leaves nothing.
pub delete_all_child_lem : (c : Children) → delete_all_child c ≡ (nil, true)
unfolding delete_all_child
delete_all_child_lem nil = refl
delete_all_child_lem (file a s r) = delete_all_child_lem r
delete_all_child_lem (dir a k r) = ground (arith, delete_all_child_lem k, delete_all_child_lem r)
