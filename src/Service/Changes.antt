-- ===== src/Service/Changes.antt =====
-- What the operations that change the tree do to the log of the server that is asked.
use raftfs.Prelude.{
  ◌+◌, ◌≤◌, ◌<◌, ◌≡◌, ◌⊎◌, inl, inr, true, false, [], ◌∷◌, ◌++◌, none, some, length, arith, leb,
  Bool-cases, is_minus_one,
}
use raftfs.Protocol.{Text, MetaOp, Entry, ok, no_leader, not_leader, timeout, path_error}
use raftfs.Log.{append_entry, get_last_commit_index}
use raftfs.Raft.{Consensus, is_leader}
use raftfs.Raft.Rpc.{Wait, begin_meta_operation, end_meta_operation}
use raftfs.Namespace.{validate_path}
use raftfs.Service.{ChangeResponse, change}

-- The entry that a server appends for a request.
abbrev pub requested : MetaOp → Text → Consensus → Entry
requested op path s = record {
  term = s.current_term;
  index = length s.log.memory_log + 1;
  op = op;
  value = path;
}

abbrev pub logged : MetaOp → Text → Consensus → Consensus
logged op path s = record s {
  log = record s.log { memory_log = s.log.memory_log ++ requested op path s ∷ [] };
}

-- A change is logged exactly when its path begins with a slash, the server is the leader, and it still
-- knows a leader when it comes to the log: then one entry with the operation is appended, in the
-- current term and numbered next, and the reply is that of the commit index at the end of the wait, if
-- the log still owns the entry, and undefined otherwise. Without that nothing changes, and the reply is
-- the error.
pub change-outcome :
    (op : MetaOp) (path : Text) (seen s : Consensus) (wait : Wait) (response : ChangeResponse)
    → ((validate_path path ≡ true)
        × (is_leader seen.current_role ≡ true)
        × (is_minus_one s.leader_id ≡ false)
        × ((change op path seen s wait response).0 ≡ logged op path s)
        × (((wait.owned ≡ true)
              × (length s.log.memory_log < get_last_commit_index wait.log)
              × ((change op path seen s wait response).1 ≡ some (record response { status = ok })))
            ⊎ ((wait.owned ≡ true)
                × (get_last_commit_index wait.log ≤ length s.log.memory_log)
                × ((change op path seen s wait response).1
                    ≡ some (record response { status = timeout })))
            ⊎ ((wait.owned ≡ false) × ((change op path seen s wait response).1 ≡ none))))
      ⊎ (((change op path seen s wait response).0 ≡ s)
          × (((validate_path path ≡ false)
                × ((change op path seen s wait response).1
                    ≡ some (record response { status = path_error })))
              ⊎ ((is_leader seen.current_role ≡ false)
                  × ((change op path seen s wait response).1
                      ≡ some (record { status = not_leader; leader_id = some seen.leader_id })))
              ⊎ ((is_minus_one s.leader_id ≡ true)
                  × ((change op path seen s wait response).1
                      ≡ some (record response { status = no_leader })))))
unfolding change begin_meta_operation end_meta_operation append_entry
change-outcome op path seen s wait response = elim (Bool-cases (validate_path path)) [
  | inr invalid ↦ inr (rw invalid, inl (invalid, rw invalid))
  | inl valid ↦ elim (Bool-cases (is_leader seen.current_role)) [
    | inr other ↦ inr (rw (valid, other), inr (inl (other, rw (valid, other))))
    | inl leads ↦ elim (Bool-cases (is_minus_one s.leader_id)) [
      | inl unknown ↦
          inr (rw (valid, leads, unknown), inr (inr (unknown, rw (valid, leads, unknown))))
      | inr known ↦ inl (
        valid,
        leads,
        known,
        rw (valid, leads, known),
        elim (Bool-cases wait.owned) [
          | inr gone ↦ inr (inr (gone, rw (valid, leads, known, gone)))
          | inl owned ↦
              elim (Bool-cases
                (leb (length s.log.memory_log + 1) (get_last_commit_index wait.log))) [
                  | inl done ↦
                      inl (owned, ground (arith, done), rw (valid, leads, known, owned, done))
                  | inr over ↦
                      inr (inl (owned, ground (arith, over), rw (valid, leads, known, owned, over)))
                ]
        ],
      )
    ]
  ]
]
