-- ===== src/Namespace/Paths.antt =====
-- Reading and writing the directory that a list of names leads to.
use mathlib.Core.Path.{fun_ext}
use raftfs.Prelude.{
  ◌≡◌, refl, ap, ◌∙◌, List, [], ◌∷◌, ◌++◌, some, arith, ◌>>=◌, text_eq_refl, inl, inr, Option-cases,
}
use raftfs.Protocol.{Text}
use raftfs.Inode.{Attributes, Children, inode_file, inode_directory, get_child, map_child}
use raftfs.Inode.Lookup.{get_child-map_child, map_child-same, map_child-map_child}
use raftfs.Inode.Unique.{IsUnique, map_child-IsUnique, get_child-IsUnique}
use raftfs.Namespace.{resolve, modify}

pub resolve-append :
    (p q : List Text) (root : Children) → resolve (p ++ q) root ≡ (resolve p root >>= resolve q)
unfolding resolve
resolve-append [] q root = refl
resolve-append (n ∷ ns) q root = elim (Option-cases (get_child n root)) [
  | inl missing ↦ ground (arith, missing)
  | inr (inode_file a s, e) ↦ ground (arith, e)
  | inr (inode_directory a k, e) ↦ rw (e, resolve) (resolve-append ns q k)
]

-- The head of a path that leads somewhere is a directory.
pub resolve-cons :
    (n : Text) (ns : List Text) (root c : Children)
    → resolve (n ∷ ns) root ≡ some c
    → (a : Attributes) × (k : Children) × (get_child n root ≡ some (inode_directory a k))
      × (resolve ns k ≡ some c)
unfolding resolve
resolve-cons n ns root c e = elim (Option-cases (get_child n root)) [
  | inl missing ↦ absurd (ground arith)
  | inr (inode_file a s, f) ↦ absurd (ground arith)
  | inr (inode_directory a k, f) ↦ (a, k, f, ground arith)
]

pub resolve-modify :
    (p : List Text) (f : Children → Children) (root c : Children)
    → resolve p root ≡ some c
    → resolve p (modify p f root) ≡ some (f c)
unfolding modify resolve
resolve-modify [] f root c e = ground arith
resolve-modify (n ∷ ns) f root c e =
    let (a, k, here, there) = resolve-cons n ns root c e in
    ground (
      arith,
      here,
      get_child-map_child n n (modify ns f) root,
      text_eq_refl n,
      resolve-modify ns f k c there,
    )

pub modify-append :
    (p q : List Text) (f : Children → Children) (root : Children)
    → modify (p ++ q) f root ≡ modify p (modify q f) root
unfolding modify
modify-append [] q f root = refl
modify-append (n ∷ ns) q f root =
    ap (λ h. map_child n h root) (fun_ext (λ k. modify-append ns q f k))

pub modify-modify :
    (p : List Text) (f g : Children → Children) (root : Children)
    → modify p f (modify p g root) ≡ modify p (λ c. f (g c)) root
unfolding modify
modify-modify [] f g root = refl
modify-modify (n ∷ ns) f g root =
    map_child-map_child n (modify ns f) (modify ns g) root
    ∙ ap (λ h. map_child n h root) (fun_ext (λ k. modify-modify ns f g k))

pub modify-same :
    (p : List Text) (f : Children → Children) (root c : Children)
    → resolve p root ≡ some c
    → f c ≡ c
    → modify p f root ≡ root
unfolding modify
modify-same [] f root c e h = let same : c ≡ root = unfold resolve in ground arith in rw same at h
modify-same (n ∷ ns) f root c e h =
    let (a, k, here, there) = resolve-cons n ns root c e in
    map_child-same n (modify ns f) a k root here (modify-same ns f k c there h)

map_child-only :
    (n : Text) (f g : Children → Children) (a : Attributes) (k c : Children)
    → get_child n c ≡ some (inode_directory a k)
    → f k ≡ g k
    → map_child n f c ≡ map_child n g c
unfolding map_child get_child
map_child-only n f g a k Children.nil e h = refl
map_child-only n f g a k (Children.file b s r) e h = ground (arith, map_child-only n f g a k r)
map_child-only n f g a k (Children.dir b m r) e h = ground (arith, map_child-only n f g a k r)

-- A write depends only on what it makes of the directory that is there.
pub modify-only :
    (p : List Text) (f g : Children → Children) (root c : Children)
    → resolve p root ≡ some c
    → f c ≡ g c
    → modify p f root ≡ modify p g root
unfolding modify
modify-only [] f g root c e h = let same : c ≡ root = unfold resolve in ground arith in rw same at h
modify-only (n ∷ ns) f g root c e h =
    let (a, k, here, there) = resolve-cons n ns root c e in
    map_child-only n (modify ns f) (modify ns g) a k root here (modify-only ns f g k c there h)

pub modify-IsUnique :
    (p : List Text) (f : Children → Children) (root c : Children)
    → resolve p root ≡ some c
    → (IsUnique c → IsUnique (f c))
    → IsUnique root
    → IsUnique (modify p f root)
unfolding modify
modify-IsUnique [] f root c e h u =
    let same : c ≡ root = unfold resolve in ground arith in (rw same at h) u
modify-IsUnique (n ∷ ns) f root c e h u =
    let (a, k, here, there) = resolve-cons n ns root c e in
    map_child-IsUnique n (modify ns f) root
      (λ b m g.
        let same : m ≡ k = ground arith in
        rw same (modify-IsUnique ns f k c there h (get_child-IsUnique n root a k u here)))
      u

pub resolve-IsUnique :
    (p : List Text) (root c : Children) → resolve p root ≡ some c → IsUnique root → IsUnique c
resolve-IsUnique [] root c e u = let same : c ≡ root = unfold resolve in ground arith in rw same u
resolve-IsUnique (n ∷ ns) root c e u =
    let (a, k, here, there) = resolve-cons n ns root c e in
    resolve-IsUnique ns k c there (get_child-IsUnique n root a k u here)
