-- ===== src/Apply/Index.antt =====
-- The committed index of a name space and the operations, which do not read it.

use raftfs.Prelude.{
  ℕ, ◌≡◌, refl, Bool, true, List, [], ◌∷◌, Option, none, some, ◌>>=◌, Option-cases, inl, inr,
}
use raftfs.Protocol.{Text, MetaOp, mkdir, rmdir, create, delete, get_file_info, list_dir, noop}
use raftfs.Inode.{Children, unknown, create_file}
use raftfs.Namespace.{
  FsNamespace, set_commited_index, make_dir_pieces, split_path, get_parent_folder_and_child,
  dir_deletion, file_deletion, Target, at, nowhere, undefined, make_dir, delete_dir, create_file_at,
  remove_file, on_child,
}
use raftfs.Apply.{apply_op}

rewound :
    (n : ℕ) {a : Option (FsNamespace × Bool)} (b : Option (FsNamespace × Bool))
    → a ≡ (do (fs', done) ← b; some (set_commited_index n fs', done))
    → (do (fs', done) ← a; some fs')
      ≡ (do fs1 ← (do (fs', done) ← b; some fs'); some (set_commited_index n fs1))
rewound n none e = rw e
rewound n (some (fs1, done)) e = rw e

module _ (split : Text → List Text) where
  on_child-set_commited_index :
      (n : ℕ) (t : Target) (f : Children → Text → Option (Children × Bool)) (fs : FsNamespace)
      → on_child t f (set_commited_index n fs)
        ≡ (do (fs', done) ← on_child t f fs; some (set_commited_index n fs', done))
  unfolding on_child
  on_child-set_commited_index n undefined f fs = refl
  on_child-set_commited_index n nowhere f fs = refl
  on_child-set_commited_index n (at dirs c []) f fs = refl
  on_child-set_commited_index n (at dirs c (b ∷ bs)) f fs = elim (Option-cases (f c (b ∷ bs))) [
    | inl stuck ↦ rw stuck
    | inr ((c1, done), e) ↦ rw e
  ]

  pub apply_op-set_commited_index :
      (op : MetaOp) (path : Text) (now n : ℕ) (fs : FsNamespace)
      → apply_op split op path now (set_commited_index n fs)
        ≡ (do fs' ← apply_op split op path now fs; some (set_commited_index n fs'))
  unfolding apply_op make_dir delete_dir create_file_at remove_file
  apply_op-set_commited_index mkdir path now n fs =
      elim (Option-cases (make_dir_pieces true now (split_path split path) fs.root)) [
        | inl stuck ↦ rw stuck
        | inr ((c1, done), e) ↦ rw e
      ]
  apply_op-set_commited_index rmdir path now n fs = rewound n _ (
      on_child-set_commited_index n (get_parent_folder_and_child split path fs.root)
        (dir_deletion unknown true) fs)
  apply_op-set_commited_index create path now n fs = rewound n _ (
      on_child-set_commited_index n (get_parent_folder_and_child split path fs.root)
        (λ c n1. some (create_file n1 now c)) fs)
  apply_op-set_commited_index delete path now n fs = rewound n _ (
      on_child-set_commited_index n (get_parent_folder_and_child split path fs.root)
        (file_deletion unknown) fs)
  apply_op-set_commited_index get_file_info path now n fs = refl
  apply_op-set_commited_index list_dir path now n fs = refl
  apply_op-set_commited_index noop path now n fs = refl
