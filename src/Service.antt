-- ===== src/Service.antt =====
-- server/ClientRPCService.cpp: what a server answers to a client.
-- The consensus state moves on while a handler runs: `seen` is the state that its tests read, `s` the
-- one at the call of `OnMetaOperation`, and `wait` is what there is at the end of the wait there.
pub mod Changes
pub mod Acknowledged
pub mod Reads
use raftfs.Prelude.{ℕ, Bool, true, false, List, Option, none, some, if◌then◌else◌, ◌>>=◌, ℤ}
use raftfs.Protocol.{
  Text, MetaOp, mkdir, rmdir, create, delete, Status, ok, not_leader, not_found, path_error,
}
use raftfs.Raft.{Consensus, is_leader}
use raftfs.Raft.Rpc.{Wait, begin_meta_operation, end_meta_operation}
use raftfs.Inode.{FileInfo}
use raftfs.Namespace.{FsNamespace, validate_path, get_file_info, list_dir}

-- `GetLeaderResponse`, whose status the handler does not write.
pub record LeaderResponse : Type 0 where
  pub status : Status
  pub leader_id : ℤ

-- The response of the four operations that change the tree.
pub record ChangeResponse : Type 0 where
  pub status : Status
  pub leader_id : Option ℤ

pub record FileInfoResponse : Type 0 where
  pub status : Status
  pub info : Option FileInfo

pub record ListDirResponse : Type 0 where
  pub status : Status
  pub dir_list : Option (List Text)

unfoldable pub get_leader : Consensus → LeaderResponse → LeaderResponse
get_leader s response = record response { leader_id = s.leader_id }

-- The body that the four handlers share: the state, and the response, if that is defined.
unfoldable pub change :
    MetaOp
    → Text
    → Consensus
    → Consensus
    → Wait
    → ChangeResponse
    → Consensus × Option ChangeResponse
change op path seen s wait response =
    if validate_path path
    then if is_leader seen.current_role
      then (let (s', appended) = begin_meta_operation op path s in
          (
            s',
            (do
              status ← end_meta_operation appended wait
              some (record response { status = status })),
          ))
      else (s, some (record response { status = not_leader; leader_id = some seen.leader_id }))
    else (s, some (record response { status = path_error }))

abbrev mkdir_rpc :
    Text → Consensus → Consensus → Wait → ChangeResponse → Consensus × Option ChangeResponse
mkdir_rpc = change mkdir

abbrev rmdir_rpc :
    Text → Consensus → Consensus → Wait → ChangeResponse → Consensus × Option ChangeResponse
rmdir_rpc = change rmdir

abbrev create_file_rpc :
    Text → Consensus → Consensus → Wait → ChangeResponse → Consensus × Option ChangeResponse
create_file_rpc = change create

abbrev delete_file_rpc :
    Text → Consensus → Consensus → Wait → ChangeResponse → Consensus × Option ChangeResponse
delete_file_rpc = change delete

module _ (split : Text → List Text) where
  pub get_file_info_rpc : Text → FsNamespace → FileInfoResponse → Option FileInfoResponse
  get_file_info_rpc path fs response =
      if validate_path path
      then (do
        (found, info) ← get_file_info split path fs
        let written : FileInfoResponse = elim info [
          | none ↦ response
          | some i ↦ record response { info = some i }
        ]
        some (record written { status = if found then ok else not_found }))
      else some (record response { status = path_error })

  abbrev list_dir_rpc : Text → FsNamespace → ListDirResponse → Option ListDirResponse
  list_dir_rpc path fs response =
      if validate_path path
      then (do
        names ← list_dir split path fs
        some (record response { status = ok; dir_list = some names }))
      else some (record response { status = path_error })
