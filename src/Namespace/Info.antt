-- ===== src/Namespace/Info.antt =====
-- `GetFileInfo` and `ListDir`, and the path that `ToFileInfo` puts together.
use mathlib.Core.List.{reverse, reverse-cons}
use raftfs.Prelude.{
  ℕ, ◌≡◌, ◌≢◌, ◌⊎◌, refl, sym, ap, ◌∙◌, true, false, List, [], ◌∷◌, ◌++◌, Option, none, some, arith,
  text_eq, text_eq_refl, inl, inr, Option-cases, back?-append, All,
}
use raftfs.Protocol.{Text}
use raftfs.Inode.{
  Attributes, Children, inode_file, inode_directory, get_child, slash, path_from, seconds,
  to_file_info,
}
use raftfs.Inode.Lookup.{name_of-get_child}
use raftfs.Namespace.{
  FsNamespace, root_name, resolve, nowhere, get_parent_folder_and_child, get_file_info, info_at,
}
use raftfs.Namespace.Files.{but_last-append, Names, located}

-- The pieces with a slash between each two.
abbrev pub rejoin : List Text → Text
rejoin [] = []
rejoin (x ∷ []) = x
rejoin (x ∷ y ∷ ys) = x ++ slash ∷ rejoin (y ∷ ys)

above : List Text → Text → Text
above [] path = path
above (p ∷ ps) path = above ps (p ++ slash ∷ path)

above-append :
    (xs : List Text) (y : Text) (path : Text)
    → above (xs ++ y ∷ []) path ≡ y ++ slash ∷ above xs path
unfolding above
above-append [] y path = refl
above-append (x ∷ xs) y path = above-append xs y (x ++ slash ∷ path)

above-reverse : (dirs : List Text) (n : Text) → above (reverse dirs) n ≡ rejoin (dirs ++ n ∷ [])
above-reverse [] n = unfold above in refl
above-reverse (d ∷ []) n = unfold above in refl
above-reverse (d ∷ e ∷ ds) n =
    rw (reverse-cons d (e ∷ ds), above-append (reverse (e ∷ ds)) d n)
      (ap (λ (t : Text). d ++ slash ∷ t) (above-reverse (e ∷ ds) n))

abbrev NoSlash : List Text → Type 0
NoSlash = All (λ p. text_eq p root_name ≡ false)

NoSlash-append : (xs ys : List Text) → NoSlash xs → NoSlash ys → NoSlash (xs ++ ys)
NoSlash-append [] ys a b = b
NoSlash-append (x ∷ xs) ys a b = (a.0, NoSlash-append xs ys a.1 b)

NoSlash-reverse : (xs : List Text) → NoSlash xs → NoSlash (reverse xs)
NoSlash-reverse [] h = tt
NoSlash-reverse (x ∷ xs) h =
    rw (reverse-cons x xs) (NoSlash-append (reverse xs) (x ∷ []) (NoSlash-reverse xs h.1) (h.0, tt))

path_from-above :
    (ps : List Text) (path : Text)
    → NoSlash ps
    → path_from (ps ++ root_name ∷ []) path ≡ slash ∷ above ps path
unfolding path_from above
path_from-above [] path h = ground (arith, text_eq_refl root_name)
path_from-above (p ∷ ps) path h = ground (arith, h.0, path_from-above ps (p ++ slash ∷ path) h.1)

path_from-rejoin :
    (dirs : List Text) (n : Text)
    → NoSlash dirs
    → path_from (reverse (root_name ∷ dirs)) n ≡ slash ∷ rejoin (dirs ++ n ∷ [])
path_from-rejoin dirs n h = rw (reverse-cons root_name dirs) (
    path_from-above (reverse dirs) n (NoSlash-reverse dirs h)
    ∙ ap (◌∷◌ slash) (above-reverse dirs n))

-- What is assumed of `boost::split` at a path below the root: the first piece is what stands before
-- the leading slash, no piece is a slash, and the pieces joined by slashes are the path.
pub record Splits (split : Text → List Text) (path : Text) (dirs : List Text) (n : Text)
    : Type 0 where
  pub at_slashes : split path ≡ [] ∷ dirs ++ n ∷ []
  pub joined : rejoin (split path) ≡ path
  pub no_slash : All (λ p. text_eq p root_name ≡ false) dirs

pub rejoin-leading :
    (dirs : List Text) (n : Text) → rejoin ([] ∷ dirs ++ n ∷ []) ≡ slash ∷ rejoin (dirs ++ n ∷ [])
rejoin-leading [] n = refl
rejoin-leading (d ∷ ds) n = refl

info_at-file :
    (dirs : List Text) (c : Children) (n : Text) (a : Attributes) (size : Option ℕ)
    → n ≢ []
    → get_child n c ≡ some (inode_file a size)
    → info_at dirs c n ≡ some (true, some (to_file_info (reverse (root_name ∷ dirs)) a size))
unfolding info_at
info_at-file dirs c [] a size h e = absurd (h refl)
info_at-file dirs c (b ∷ bs) a size h e = rw (e, info_at)

info_at-missing :
    (dirs : List Text) (c : Children) (n : Text)
    → n ≢ []
    → get_child n c ≡ none
    → info_at dirs c n ≡ some (false, none)
unfolding info_at
info_at-missing dirs c [] h e = absurd (h refl)
info_at-missing dirs c (b ∷ bs) h e = rw (e, info_at)

nowhere_below :
    (split : Text → List Text) (path : Text) (dirs : List Text) (n : Text) (root : Children)
    → Names split path dirs n
    → resolve dirs root ≡ none
    → get_parent_folder_and_child split path root ≡ nowhere
unfolding get_parent_folder_and_child
nowhere_below split path dirs n root names e =
    ground (arith, names.below_root, names.pieces, back?-append dirs n, but_last-append dirs n)

pub get_file_info-path :
    (split : Text → List Text) (path : Text) (dirs : List Text) (n : Text) (fs : FsNamespace)
    (c : Children) (a : Attributes) (size : Option ℕ)
    → Names split path dirs n
    → Splits split path dirs n
    → resolve dirs fs.root ≡ some c
    → get_child n c ≡ some (inode_file a size)
    → get_file_info split path fs
      ≡ some (
        true,
        some (record {
          path = path;
          size = size;
          creator = a.owner;
          create_time = seconds a.create_time;
        }),
      )
unfolding get_file_info to_file_info
get_file_info-path split path dirs n fs c a size names s parent found =
    let named : a.name ≡ n = name_of-get_child n c (inode_file a size) found in
    let whole : path_from (reverse (root_name ∷ dirs)) n ≡ path =
      path_from-rejoin dirs n s.no_slash
      ∙ sym (rejoin-leading dirs n)
      ∙ sym (ap rejoin s.at_slashes)
      ∙ s.joined in
    rw (get_file_info, located split path dirs n fs.root c names parent)
      (rw (info_at-file dirs c n a size names.named found) (rw (named, whole)))

info_at-directory :
    (dirs : List Text) (c : Children) (n : Text) (a : Attributes) (k : Children)
    → n ≢ []
    → get_child n c ≡ some (inode_directory a k)
    → info_at dirs c n ≡ none
unfolding info_at
info_at-directory dirs c [] a k h e = absurd (h refl)
info_at-directory dirs c (b ∷ bs) a k h e = rw (e, info_at)

-- `GetFileInfo` on a path of directories and a last name that is not empty, by what the path leads to:
-- for a file it succeeds, with the path that was asked for, which it puts together from the directories
-- above, the owner, the size, and the time of creation in whole seconds; a name that its directory does
-- not have is reported as missing; a directory is taken for a file, which is undefined; and a path
-- through a directory that does not exist is reported as found, with no info.
pub get_file_info-outcome :
    (split : Text → List Text) (path : Text) (dirs : List Text) (n : Text) (fs : FsNamespace)
    → Names split path dirs n
    → Splits split path dirs n
    → ((resolve dirs fs.root ≡ none) × (get_file_info split path fs ≡ some (true, none)))
      ⊎ ((c : Children) × (resolve dirs fs.root ≡ some c)
          × (((get_child n c ≡ none) × (get_file_info split path fs ≡ some (false, none)))
              ⊎ (((a : Attributes) × (k : Children) × (get_child n c ≡ some (inode_directory a k))
                    × (get_file_info split path fs ≡ none))
                  ⊎ ((a : Attributes) × (size : Option ℕ) × (get_child n c
                        ≡ some (inode_file a size))
                      × (get_file_info split path fs
                          ≡ some (
                            true,
                            some (record {
                              path = path;
                              size = size;
                              creator = a.owner;
                              create_time = seconds a.create_time;
                            }),
                          ))))))
unfolding get_file_info
get_file_info-outcome split path dirs n fs names s = elim (Option-cases (resolve dirs fs.root)) [
  | inl gone ↦ inl (gone, rw (get_file_info, nowhere_below split path dirs n fs.root names gone))
  | inr (c, parent) ↦
      let there = located split path dirs n fs.root c names parent in
      inr (
        c,
        parent,
        elim (Option-cases (get_child n c)) [
          | inl free ↦
              inl (free, rw (get_file_info, there) (info_at-missing dirs c n names.named free))
          | inr (inode_directory a k, e) ↦ inr (
              inl
                (a, k, e, rw (get_file_info, there) (info_at-directory dirs c n a k names.named e)))
          | inr (inode_file a size, e) ↦
              inr (
                inr (a, size, e, get_file_info-path split path dirs n fs c a size names s parent e))
        ],
      )
]
