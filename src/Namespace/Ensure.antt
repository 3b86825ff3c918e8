-- ===== src/Namespace/Ensure.antt =====
-- What `MakeDir` means for the tree, by the paths that lead to directories.
use raftfs.Prelude.{
  ℕ, ◌≡◌, refl, true, List, [], ◌∷◌, none, some, arith, if◌then◌else◌, text_eq, text_eq_iff,
  text_eq_refl, Bool-cases, inl, inr, Option-cases,
}
use raftfs.Protocol.{Text}
use raftfs.Inode.{Children, nil, inode_directory, get_child}
use raftfs.Inode.Lookup.{get_child-add_child, get_child-map_child, map_child-same, with_children}
use raftfs.Inode.Unique.{IsUnique, add_child-IsUnique, map_child-IsUnique, get_child-IsUnique}
use raftfs.Namespace.{FsNamespace, split_path, resolve, make_dir}
use raftfs.Namespace.Paths.{resolve-cons}
use raftfs.Namespace.Levels.{ensure, Clear, Clear-nil, new_dir_attributes}
use raftfs.Namespace.MakeDir.{Clear-directory, make_dir_pieces-ensure}

-- The child of the first name, after the levels are made.
get_child-ensure :
    (now : ℕ) (n j : Text) (ns : List Text) (c : Children)
    → get_child j (ensure now (n ∷ ns) c) ≡ (
        if text_eq n j
        then elim (get_child n c) [
          | none ↦ some (inode_directory (new_dir_attributes n now) (ensure now ns nil))
          | some i ↦ with_children (ensure now ns) (get_child j c)
        ]
        else get_child j c)
unfolding ensure
get_child-ensure now n j ns c = elim (Option-cases (get_child n c)) [
  | inl free ↦ ground (
    arith,
    free,
    text_eq_iff n j,
    get_child-add_child j (inode_directory (new_dir_attributes n now) (ensure now ns nil)) c,
  )
  | inr (i, e) ↦ ground (arith, e, get_child-map_child j n (ensure now ns) c)
]

get_child-nil : (n : Text) → get_child n nil ≡ none
unfolding get_child
get_child-nil n = refl

-- The path leads to a directory afterwards.
pub resolve-ensure :
    (now : ℕ) (ns : List Text) (c : Children)
    → Clear ns c
    → (c' : Children) × (resolve ns (ensure now ns c) ≡ some c')
unfolding resolve
resolve-ensure now [] c clear = (c, unfold ensure in refl)
resolve-ensure now (n ∷ ns) c clear = elim (Clear-directory n ns c clear) [
  | inl free ↦
      let (c', e) = resolve-ensure now ns nil (Clear-nil ns) in
      (c', ground (arith, get_child-ensure now n n ns c, text_eq_refl n, free, e))
  | inr (a, k, g, below) ↦
      let (c', e) = resolve-ensure now ns k below in
      (c', ground (arith, get_child-ensure now n n ns c, text_eq_refl n, g, e))
]

-- The directories of the path are all there already: nothing changes.
pub ensure-same :
    (now : ℕ) (ns : List Text) (c k : Children) → resolve ns c ≡ some k → ensure now ns c ≡ c
unfolding ensure
ensure-same now [] c k e = refl
ensure-same now (n ∷ ns) c k e =
    let (a, m, here, there) = resolve-cons n ns c k e in
    ground (arith, here, map_child-same n (ensure now ns) a m c here (ensure-same now ns m k there))

-- Every directory that a path led to is still there.
pub resolve-ensure_old :
    (now : ℕ) (ns q : List Text) (c k : Children)
    → resolve q c ≡ some k
    → (k' : Children) × (resolve q (ensure now ns c) ≡ some k')
unfolding resolve
resolve-ensure_old now [] q c k e = (k, unfold ensure in e)
resolve-ensure_old now (n ∷ ns) [] c k e = (ensure now (n ∷ ns) c, refl)
resolve-ensure_old now (n ∷ ns) (j ∷ js) c k e =
    let (a, m, here, there) = resolve-cons j js c k e in
    elim (Bool-cases (text_eq n j)) [
      | inl same ↦
          let (k', f) = resolve-ensure_old now ns js m k there in
          (k', ground (arith, get_child-ensure now n j ns c, text_eq_iff n j, here, f))
      | inr other ↦ (k, ground (arith, get_child-ensure now n j ns c, here, there))
    ]

pub ensure-IsUnique :
    (now : ℕ) (ns : List Text) (c : Children) → IsUnique c → IsUnique (ensure now ns c)
unfolding ensure
ensure-IsUnique now [] c u = u
ensure-IsUnique now (n ∷ ns) c u = elim (Option-cases (get_child n c)) [
  | inl free ↦
      rw (free, ensure)
        (add_child-IsUnique (inode_directory (new_dir_attributes n now) (ensure now ns nil)) c
          (ensure-IsUnique now ns nil tt) free u)
  | inr (i, e) ↦
      rw (e, ensure)
        (map_child-IsUnique n (ensure now ns) c
          (λ a k g. ensure-IsUnique now ns k (get_child-IsUnique n c a k u g)) u)
]

-- A path that leads to a directory has no file on it.
resolve-Clear : (ns : List Text) (c k : Children) → resolve ns c ≡ some k → Clear ns c
resolve-Clear [] c k e = tt
resolve-Clear (n ∷ ns) c k e =
    let (a, m, here, there) = resolve-cons n ns c k e in
    rw (here, Clear) (resolve-Clear ns m k there)

-- Where no level of the path is a file, `MakeDir` with its parents is defined and succeeds; the path
-- then leads to a directory, every path that led to one still does, and the names stay unique. Asked
-- again, it succeeds and changes nothing.
pub make_dir-outcome :
    (split : Text → List Text) (path : Text) (now later : ℕ) (fs : FsNamespace)
    → Clear (split_path split path) fs.root
    → IsUnique fs.root
    → (fs' : FsNamespace) × (c : Children) × (make_dir split path true now fs ≡ some (fs', true))
      × (resolve (split_path split path) fs'.root ≡ some c)
      × ((q : List Text) (k : Children)
          → resolve q fs.root ≡ some k
          → (k' : Children) × (resolve q fs'.root ≡ some k'))
      × IsUnique fs'.root
      × (make_dir split path true later fs' ≡ some (fs', true))
unfolding make_dir
make_dir-outcome split path now later fs clear u =
    let pieces = split_path split path in
    let (c, e) = resolve-ensure now pieces fs.root clear in
    let root : Children = ensure now pieces fs.root in
    let fs' : FsNamespace = record fs { root = root } in
    let again = make_dir_pieces-ensure later pieces root (resolve-Clear pieces root c e) in
    (
      fs',
      c,
      ground (arith, make_dir_pieces-ensure now pieces fs.root clear),
      e,
      (λ q k f. resolve-ensure_old now pieces q fs.root k f),
      ensure-IsUnique now pieces fs.root u,
      ground (arith, again, ensure-same later pieces root c e),
    )
