-- ===== src/Raft/Fixed.antt =====
-- What a server never changes: its id, its quorum, and the ids of its remote hosts.
use raftfs.Prelude.{
  ℕ, ◌+◌, ◌/◌, ◌≡◌, refl, ◌∙◌, List, [], ◌∷◌, none, some, map, arith, length, ◌==◌, if◌then◌else◌,
}
use raftfs.Protocol.{
  Text, MetaOp, ReqVoteRequest, AppendEntriesRequest, ReqVoteResponse, AppendEntriesResponse,
}
use raftfs.Log.{get_last_log_index}
use raftfs.Raft.{RemoteHost, Consensus, Timer, reset_next_index, check_leader, init}
use raftfs.Raft.Rpc.{on_append_entries, on_request_vote, begin_meta_operation}
use raftfs.Raft.Remote.{
  last_or_zero, backed_off, on_append_entries_response, on_request_vote_response,
}
use raftfs.Raft.Step.{Step, check, append, vote, meta, appended, voted, Reach, here, next}

abbrev pub remote_ids : Consensus → List ℕ
remote_ids s = map (λ r. r.id) s.remotes

pub record Fixed (s t : Consensus) : Type 0 where
  pub self_same : t.self_id ≡ s.self_id
  pub quorum_same : t.quorum_size ≡ s.quorum_size
  pub ids_same : remote_ids t ≡ remote_ids s

reset-ids :
    (n : ℕ) (rs : List RemoteHost)
    → map (λ (r : RemoteHost). r.id) (map (reset_next_index n) rs) ≡ map (λ r. r.id) rs
unfolding reset_next_index
reset-ids n [] = refl
reset-ids n (r ∷ rs) = ground (arith, reset-ids n rs)

set-ids :
    (id n : ℕ) (rs : List RemoteHost)
    → map (λ (r : RemoteHost). r.id) (map (λ r. if r.id == id then reset_next_index n r else r) rs)
      ≡ map (λ r. r.id) rs
unfolding reset_next_index
set-ids id n [] = refl
set-ids id n (r ∷ rs) = ground (arith, set-ids id n rs)

check_leader-Fixed : (t : Timer) (s : Consensus) → Fixed s (check_leader t s)
unfolding check_leader
check_leader-Fixed t s = record {
  self_same = ground arith;
  quorum_same = ground arith;
  ids_same = ground arith;
}

on_append_entries-Fixed :
    (t u : Timer) (req : AppendEntriesRequest) (s s' : Consensus) (resp : AppendEntriesResponse)
    → on_append_entries t u req s ≡ some (s', resp)
    → Fixed s s'
unfolding on_append_entries
on_append_entries-Fixed t u req s s' resp e = record {
  self_same = ground arith;
  quorum_same = ground arith;
  ids_same = ground arith;
}

on_request_vote-Fixed :
    (t u : Timer) (req : ReqVoteRequest) (s : Consensus) → Fixed s (on_request_vote t u req s).0
unfolding on_request_vote
on_request_vote-Fixed t u req s = record {
  self_same = ground arith;
  quorum_same = ground arith;
  ids_same = ground arith;
}

begin_meta_operation-Fixed :
    (op : MetaOp) (path : Text) (s : Consensus) → Fixed s (begin_meta_operation op path s).0
unfolding begin_meta_operation
begin_meta_operation-Fixed op path s = record {
  self_same = ground arith;
  quorum_same = ground arith;
  ids_same = ground arith;
}

on_append_entries_response-Fixed :
    (t : Timer) (id : ℕ) (req : AppendEntriesRequest) (resp : AppendEntriesResponse)
    (s s' : Consensus)
    → on_append_entries_response t id req resp s ≡ some s'
    → Fixed s s'
unfolding on_append_entries_response
on_append_entries_response-Fixed t id req resp s s' e = record {
  self_same = ground arith;
  quorum_same = ground arith;
  ids_same = ground (
    arith,
    set-ids id (last_or_zero resp.last_log_index + 1) s.remotes,
    set-ids id (backed_off req.prev_log_index) s.remotes,
  );
}

on_request_vote_response-Fixed :
    (id : ℕ) (resp : ReqVoteResponse) (s : Consensus) → Fixed s (on_request_vote_response id resp s)
unfolding on_request_vote_response
on_request_vote_response-Fixed id resp s = record {
  self_same = ground arith;
  quorum_same = ground arith;
  ids_same = ground (arith, reset-ids (get_last_log_index s.log + 1) s.remotes);
}

Step-Fixed : {s t : Consensus} → Step s t → Fixed s t
Step-Fixed {s} (check t) = check_leader-Fixed t s
Step-Fixed {s} (append t u req {s'} {resp} e) = on_append_entries-Fixed t u req s s' resp e
Step-Fixed {s} (vote t u req) = on_request_vote-Fixed t u req s
Step-Fixed {s} (meta op path) = begin_meta_operation-Fixed op path s
Step-Fixed {s} (appended t id req resp {s'} e) =
    on_append_entries_response-Fixed t id req resp s s' e
Step-Fixed {s} (voted id resp) = on_request_vote_response-Fixed id resp s

pub Reach-Fixed : {s t : Consensus} → Reach s t → Fixed s t
Reach-Fixed here = record { self_same = refl; quorum_same = refl; ids_same = refl }
Reach-Fixed (next r st) =
    let f = Reach-Fixed r in
    let g = Step-Fixed st in
    record {
      self_same = g.self_same ∙ f.self_same;
      quorum_same = g.quorum_same ∙ f.quorum_same;
      ids_same = g.ids_same ∙ f.ids_same;
    }

init-ids :
    (others : List ℕ)
    → map (λ (r : RemoteHost). r.id) (map (λ h. record { id = h; next_index = none }) others)
      ≡ others
init-ids [] = refl
init-ids (h ∷ hs) = ground (arith, init-ids hs)

-- In every state a server has the id, the quorum and the remote hosts that it was started with.
pub Reach-init-Fixed :
    (t : Timer) (self : ℕ) (others : List ℕ) {s : Consensus}
    → Reach (init t self others) s
    → (s.self_id ≡ self) × (s.quorum_size ≡ (length others + 1) / 2 + 1) × (remote_ids s ≡ others)
unfolding init
Reach-init-Fixed t self others r =
    let f = Reach-Fixed r in (f.self_same, f.quorum_same, f.ids_same ∙ init-ids others)
