-- ===== src/Namespace/Levels.antt =====
-- The levels of a path: the tree in which they are made, and the rounds of `MakeDir`.

use raftfs.Prelude.{
  ℕ, ◌+◌, ◌≡◌, refl, ◌∙◌, true, false, List, [], ◌∷◌, ◌++◌, none, some, arith, if◌then◌else◌, ◌==◌,
  text_eq_refl,
}
use raftfs.Protocol.{Text}
use raftfs.Inode.{
  Attributes, Children, nil, INode, inode_file, inode_directory, get_child, map_child, add_child,
  create_dir, unknown,
}
use raftfs.Inode.Lookup.{get_child-add_child, map_child-add_child}
use raftfs.Namespace.{resolve, modify, Walk, ends, make_levels}
use raftfs.Namespace.Paths.{
  resolve-append, resolve-modify, modify-append, modify-modify, modify-only,
}

abbrev pub new_dir_attributes : Text → ℕ → Attributes
new_dir_attributes n now = record { name = n; owner = unknown; create_time = now }

-- The directory with every level of the path made that was missing.
unfoldable pub ensure : ℕ → List Text → Children → Children
ensure now [] c = c
ensure now (n ∷ ns) c =
    let made = ensure now ns nil in
    elim (get_child n c) [
      | none ↦ add_child (inode_directory (new_dir_attributes n now) made) c
      | some _ ↦ map_child n (ensure now ns) c
    ]

-- No level of the path is a file.
abbrev pub Clear : List Text → Children → Type 0
Clear [] c = Unit {0}
Clear (n ∷ ns) c = elim (get_child n c) [
  | none ↦ Unit {0}
  | some (inode_file a s) ↦ ⊥
  | some (inode_directory a k) ↦ Clear ns k
]

pub Clear-nil : (ns : List Text) → Clear ns nil
unfolding get_child
Clear-nil [] = tt
Clear-nil (n ∷ ns) = tt

-- One round of the loop for a name that is there.
pub existing_round :
    (now : ℕ) (n : Text) (ns : List Text) (w : Walk) (c : Children) (a : Attributes) (k : Children)
    → w.at_file ≡ false
    → resolve w.current w.root ≡ some c
    → get_child n c ≡ some (inode_directory a k)
    → make_levels true now (n ∷ ns) w
      ≡ make_levels true now ns
          (record w { current = w.current ++ n ∷ []; at_file = false; i = w.i + 1 })
unfolding make_levels
existing_round now n ns w c a k f e g = ground (arith, g)

-- One round for a name that is not there, in the middle of the path and at its end.
pub middle_round :
    (now : ℕ) (n m : Text) (ns : List Text) (w : Walk) (c : Children)
    → w.at_file ≡ false
    → resolve w.current w.root ≡ some c
    → get_child n c ≡ none
    → make_levels true now (n ∷ m ∷ ns) w
      ≡ make_levels true now (m ∷ ns) (record w {
        root =
            modify w.current
              (λ _. add_child (inode_directory (new_dir_attributes n now) nil) c)
              w.root;
        current = w.current ++ n ∷ [];
        new_dir = if w.new_dir == 0 then w.i else w.new_dir;
        i = w.i + 1;
      })
unfolding make_levels create_dir
middle_round now n m ns w c f e g = ground (arith, g)

pub last_round :
    (now : ℕ) (n : Text) (w : Walk) (c : Children)
    → w.at_file ≡ false
    → resolve w.current w.root ≡ some c
    → get_child n c ≡ none
    → make_levels true now (n ∷ []) w
      ≡ some (
          ends (record w {
            root =
                modify w.current
                  (λ _. add_child (inode_directory (new_dir_attributes n now) nil) c)
                  w.root;
            new_dir = 0;
            i = w.i + 1;
          }))
unfolding make_levels create_dir
last_round now n w c f e g = ground (arith, g)

-- Inside a new directory, under the name n, what the rest of the path makes.
pub made_below :
    (now : ℕ) (n : Text) (ns : List Text) (p : List Text) (root c : Children)
    → resolve p root ≡ some c
    → get_child n c ≡ none
    → modify
        (p ++ n ∷ [])
        (ensure now ns)
        (modify p (λ _. add_child (inode_directory (new_dir_attributes n now) nil) c) root)
      ≡ modify p (ensure now (n ∷ ns)) root
unfolding ensure
made_below now n ns p root c e free =
    let d = inode_directory (new_dir_attributes n now) nil in
    modify-append p (n ∷ []) (ensure now ns) _
    ∙ modify-modify p (modify (n ∷ []) (ensure now ns)) (λ _. add_child d c) root
    ∙ modify-only p _ (ensure now (n ∷ ns)) root c e below
  where
    below :
        modify
          (n ∷ [])
          (ensure now ns)
          (add_child (inode_directory (new_dir_attributes n now) nil) c)
        ≡ ensure now (n ∷ ns) c
    below =
        unfold modify in
        ground
          (arith, map_child-add_child n (ensure now ns) (new_dir_attributes n now) nil c refl free)

pub resolve-new :
    (now : ℕ) (n : Text) (p : List Text) (root c : Children)
    → resolve p root ≡ some c
    → get_child n c ≡ none
    → resolve
        (p ++ n ∷ [])
        (modify p (λ _. add_child (inode_directory (new_dir_attributes n now) nil) c) root)
      ≡ some nil
unfolding resolve
resolve-new now n p root c e free =
    let d = inode_directory (new_dir_attributes n now) nil in
    rw
      (
        resolve-append p (n ∷ []) (modify p (λ _. add_child d c) root),
        resolve-modify p (λ _. add_child d c) root c e,
      )
      (ground (arith, get_child-add_child n d c, text_eq_refl n))

pub resolve-old :
    (n : Text) (p : List Text) (root c : Children) (a : Attributes) (k : Children)
    → resolve p root ≡ some c
    → get_child n c ≡ some (inode_directory a k)
    → resolve (p ++ n ∷ []) root ≡ some k
unfolding resolve
resolve-old n p root c a k e g = rw (resolve-append p (n ∷ []) root, e) (ground (arith, g))

pub kept_below :
    (now : ℕ) (n : Text) (ns : List Text) (p : List Text) (root c : Children) (i : INode)
    → resolve p root ≡ some c
    → get_child n c ≡ some i
    → modify (p ++ n ∷ []) (ensure now ns) root ≡ modify p (ensure now (n ∷ ns)) root
unfolding ensure
kept_below now n ns p root c i e g =
    modify-append p (n ∷ []) (ensure now ns) root
    ∙ modify-only p (modify (n ∷ []) (ensure now ns)) (ensure now (n ∷ ns)) root c e
        (unfold modify in ground (arith, g))
