-- ===== src/Namespace/MakeDir.antt =====
-- `MakeDir` against a recursive description of the tree that it makes.
use mathlib.Core.Path.{subst}
use raftfs.Prelude.{
  ℕ, ◌+◌, ◌≡◌, ◌⊎◌, refl, sym, ap, ◌∙◌, true, false, List, [], ◌∷◌, ◌++◌, Option, none, some, arith,
  if◌then◌else◌, ◌==◌, inl, inr,
}
use raftfs.Protocol.{Text}
use raftfs.Inode.{
  Attributes, Children, nil, INode, inode_file, inode_directory, get_child, add_child,
}
use raftfs.Namespace.{resolve, modify, Walk, ends, make_levels, make_dir_pieces}
use raftfs.Namespace.Paths.{modify-same, modify-only}
use raftfs.Namespace.Levels.{
  new_dir_attributes, ensure, Clear, Clear-nil, existing_round, middle_round, last_round,
  made_below, resolve-new, resolve-old, kept_below,
}

-- What the loop ends with: the levels made, and no level to undo.
record Made (now : ℕ) (ns : List Text) (w w' : Walk) : Type 0 where
  root : w'.root ≡ modify w.current (ensure now ns) w.root
  nothing_new : w'.new_dir ≡ 0

-- A level that is new has nothing below it.
abbrev IsFresh : Walk → Children → Type 0
IsFresh w c = (w.new_dir ≡ 0) ⊎ (c ≡ nil)

pub Clear-directory :
    (n : Text) (ns : List Text) (c : Children)
    → Clear (n ∷ ns) c
    → (get_child n c ≡ none)
      ⊎ ((a : Attributes) × (k : Children) × (get_child n c ≡ some (inode_directory a k))
          × Clear ns k)
Clear-directory n ns c clear = go (get_child n c) refl
  where
    go :
        (found : Option INode)
        → get_child n c ≡ found
        → (get_child n c ≡ none)
          ⊎ ((a : Attributes) × (k : Children) × (get_child n c ≡ some (inode_directory a k))
              × Clear ns k)
    go none e = inl e
    go (some (inode_file a s)) e = absurd (subst (λ x. clear_at x) e clear)
      where
        clear_at : Option INode → Type 0
        clear_at x = elim x [
          | none ↦ Unit {0}
          | some (inode_file b t) ↦ ⊥
          | some (inode_directory b k) ↦ Clear ns k
        ]
    go (some (inode_directory a k)) e = inr (a, k, e, subst (λ x. clear_at x) e clear)
      where
        clear_at : Option INode → Type 0
        clear_at x = elim x [
          | none ↦ Unit {0}
          | some (inode_file b t) ↦ ⊥
          | some (inode_directory b m) ↦ Clear ns m
        ]

-- A directory with a child is not new.
old_level :
    (n : Text) (w : Walk) (c : Children) (i : INode)
    → get_child n c ≡ some i
    → IsFresh w c
    → w.new_dir ≡ 0
unfolding get_child
old_level n w c i e (inl old) = old
old_level n w c i e (inr empty) = ground (arith, ap (get_child n) empty)

abbrev Result : ℕ → List Text → Walk → Type 0
Result now ns w = (w' : Walk) × (make_levels true now ns w ≡ some (ends w')) × Made now ns w w'

-- From the round for the first name to the whole path.
then_rest :
    (now : ℕ) (ns rest : List Text) (w w1 : Walk)
    → make_levels true now ns w ≡ make_levels true now rest w1
    → modify w1.current (ensure now rest) w1.root ≡ modify w.current (ensure now ns) w.root
    → Result now rest w1
    → Result now ns w
then_rest now ns rest w w1 step same (w', e, made) =
    (w', step ∙ e, record { root = made.root ∙ same; nothing_new = made.nothing_new })

make_levels-Made :
    (now : ℕ) (ns : List Text) (w : Walk) (c : Children)
    → w.at_file ≡ false
    → resolve w.current w.root ≡ some c
    → Clear ns c
    → IsFresh w c
    → (ns ≡ [] → w.new_dir ≡ 0)
    → Result now ns w
make_levels-Made now [] w c f e clear fresh last = (
  w,
  unfold make_levels in refl,
  record {
    root = sym (modify-same w.current (ensure now []) w.root c e (unfold ensure in refl));
    nothing_new = last refl;
  },
)
make_levels-Made now (n ∷ []) w c f e clear fresh last = elim (Clear-directory n [] c clear) [
  | inl free ↦ (
    _,
    last_round now n w c f e free,
    record {
      root =
          modify-only w.current _ (ensure now (n ∷ [])) w.root c e
            (unfold ensure in ground (arith, free));
      nothing_new = refl;
    },
  )
  | inr (a, k, g, below) ↦
      let w1 : Walk = record w { current = w.current ++ n ∷ []; at_file = false; i = w.i + 1 } in
      let old = old_level n w c (inode_directory a k) g fresh in
      then_rest now (n ∷ []) [] w w1 (existing_round now n [] w c a k f e g)
        (kept_below now n [] w.current w.root c (inode_directory a k) e g)
        (make_levels-Made now [] w1 k refl (resolve-old n w.current w.root c a k e g) below
          (inl old) (λ _. old))
]
make_levels-Made now (n ∷ m ∷ ns) w c f e clear fresh last =
    elim (Clear-directory n (m ∷ ns) c clear) [
      | inl free ↦
          let w1 : Walk = record w {
            root =
                modify w.current (λ _. add_child (inode_directory (new_dir_attributes n now) nil) c)
                  w.root;
            current = w.current ++ n ∷ [];
            new_dir = if w.new_dir == 0 then w.i else w.new_dir;
            i = w.i + 1;
          } in
          then_rest now (n ∷ m ∷ ns) (m ∷ ns) w w1 (middle_round now n m ns w c f e free)
            (made_below now n (m ∷ ns) w.current w.root c e free)
            (make_levels-Made now (m ∷ ns) w1 nil f (resolve-new now n w.current w.root c e free)
              (Clear-nil (m ∷ ns)) (inr refl) (λ q. cc))
      | inr (a, k, g, below) ↦
          let w1 : Walk = record w {
            current = w.current ++ n ∷ [];
            at_file = false;
            i = w.i + 1;
          } in
          let old = old_level n w c (inode_directory a k) g fresh in
          then_rest now (n ∷ m ∷ ns) (m ∷ ns) w w1 (existing_round now n (m ∷ ns) w c a k f e g)
            (kept_below now n (m ∷ ns) w.current w.root c (inode_directory a k) e g)
            (make_levels-Made now (m ∷ ns) w1 k refl (resolve-old n w.current w.root c a k e g)
              below (inl old) (λ _. old))
    ]

-- Where no level of a path is a file, `MakeDir` with its parents is defined and succeeds, never comes
-- to its undoing of new levels, and makes exactly the missing levels.
pub make_dir_pieces-ensure :
    (now : ℕ) (pieces : List Text) (root : Children)
    → Clear pieces root
    → make_dir_pieces true now pieces root ≡ some (ensure now pieces root, true)
unfolding make_dir_pieces modify resolve
make_dir_pieces-ensure now pieces root clear =
    let start : Walk = record { root = root; current = []; at_file = false; new_dir = 0; i = 0 } in
    let (w, e, made) =
      make_levels-Made now pieces start root refl refl clear (inl refl) (λ _. refl) in
    rw e (ground (arith, made.nothing_new, made.root))
