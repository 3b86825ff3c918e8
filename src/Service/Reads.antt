-- ===== src/Service/Reads.antt =====
-- The operations that read the tree.
use raftfs.Prelude.{ℕ, ◌≡◌, inl, inr, sym, ap, ◌∙◌, true, List, [], ◌∷◌, ◌++◌, none, some, arith}
use raftfs.Protocol.{Text, ok}
use raftfs.Inode.{Children, slash, unknown, seconds}
use raftfs.Namespace.{FsNamespace, resolve, validate_path, create_file_at}
use raftfs.Namespace.Files.{Names, create_file_at-outcome}
use raftfs.Namespace.Info.{Splits, rejoin, get_file_info-path, rejoin-leading}
use raftfs.Service.{FileInfoResponse, get_file_info_rpc}

validate_path-split :
    (split : Text → List Text) (path : Text) (dirs : List Text) (n : Text)
    → Splits split path dirs n
    → validate_path path ≡ true
unfolding validate_path
validate_path-split split path dirs n s =
    let e : slash ∷ rejoin (dirs ++ n ∷ []) ≡ path =
      sym (rejoin-leading dirs n) ∙ sym (ap rejoin s.at_slashes) ∙ s.joined in
    rw⁻¹ e

-- A file that `CreateFile` has just made in an existing directory is found by a client that asks for
-- its path: the reply is ok, with that path, the time of its creation in whole seconds, and the owner
-- unknown; the size is never written.
pub get_file_info_rpc-create_file_at :
    (split : Text → List Text) (path : Text) (dirs : List Text) (n : Text) (fs fs' : FsNamespace)
    (c : Children) (now : ℕ) (response : FileInfoResponse)
    → Names split path dirs n
    → Splits split path dirs n
    → resolve dirs fs.root ≡ some c
    → create_file_at split path now fs ≡ some (fs', true)
    → get_file_info_rpc split path fs' response
      ≡ some (record {
        status = ok;
        info =
            some
              (record { path = path; size = none; creator = unknown; create_time = seconds now });
      })
unfolding get_file_info_rpc
get_file_info_rpc-create_file_at split path dirs n fs fs' c now response names s parent made =
    elim (create_file_at-outcome split path dirs n fs c names parent now) [
      | inr (taken, failed) ↦ absurd (ground (arith, made, failed))
      | inl (free, (fs1, c', made', there, held, others)) ↦
          let same : fs1 ≡ fs' = cc in
          let info = get_file_info-path split path dirs n fs1 c' _ none names s there held in
          rw (validate_path-split split path dirs n s, sym same, info)
    ]
