-- ===== src/Raft/Ready.antt =====
-- The next indexes that a leader keeps for its remote hosts.
use raftfs.Prelude.{
  ℕ, suc, ◌+◌, ◌-◌, ◌≤◌, ◌≡◌, ◌⊎◌, sym, ◌∙◌, inl, inr, List, [], ◌∷◌, map, some, arith, ◌==◌,
  if◌then◌else◌, Bool-cases, Option-cases, All, All-map,
}
use raftfs.Protocol.{
  MetaOp, Text, ReqVoteRequest, ReqVoteResponse, AppendEntriesRequest, AppendEntriesResponse,
}
use raftfs.Log.{get_last_log_index}
use raftfs.Raft.{RemoteHost, Consensus, Timer, init, check_leader, reset_next_index, leader}
use raftfs.Raft.Rpc.{on_append_entries, on_request_vote, begin_meta_operation}
use raftfs.Raft.Remote.{
  on_append_entries_response, on_request_vote_response, backed_off, last_or_zero,
  append_entries_request,
}
use raftfs.Raft.Step.{Step, check, append, vote, meta, appended, voted, Reach, here, next}

-- Its next index has been set, and to 1 at least.
abbrev HasNext : RemoteHost → Type 0
HasNext r = (n : ℕ) × (r.next_index ≡ some (suc n))

abbrev IsReady : Consensus → Type 0
IsReady s = s.current_role ≡ leader → All HasNext s.remotes

reset-HasNext : (n : ℕ) (rs : List RemoteHost) → All HasNext (map (reset_next_index (n + 1)) rs)
unfolding reset_next_index
reset-HasNext n [] = tt
reset-HasNext n (r ∷ rs) = ((n, ground arith), reset-HasNext n rs)

set_next-HasNext :
    (id n : ℕ) (rs : List RemoteHost)
    → 1 ≤ n
    → All HasNext rs
    → All HasNext (map (λ r. if r.id == id then reset_next_index n r else r) rs)
unfolding reset_next_index
set_next-HasNext id n [] pos h = tt
set_next-HasNext id n (r ∷ rs) pos h = (head, set_next-HasNext id n rs pos h.1)
  where
    head : HasNext (if r.id == id then reset_next_index n r else r)
    head = elim (Bool-cases (r.id == id)) [
      | inl hit ↦ rw hit (n - 1, ground arith)
      | inr miss ↦ rw miss h.0
    ]

-- Neither the remote hosts change nor does the server become the leader.
abbrev Quiet : Consensus → Consensus → Type 0
Quiet s t = (t.current_role ≡ leader → s.current_role ≡ leader) × (t.remotes ≡ s.remotes)

Quiet-IsReady : (s t : Consensus) → Quiet s t → IsReady s → IsReady t
Quiet-IsReady s t q v e = rw q.1 (v (q.0 e))

check_leader-Quiet : (t : Timer) (s : Consensus) → Quiet s (check_leader t s)
unfolding check_leader
check_leader-Quiet t s = (ground arith, ground arith)

on_append_entries-Quiet :
    (t u : Timer) (req : AppendEntriesRequest) (s s' : Consensus) (resp : AppendEntriesResponse)
    → on_append_entries t u req s ≡ some (s', resp)
    → Quiet s s'
unfolding on_append_entries
on_append_entries-Quiet t u req s s' resp e = (ground arith, ground arith)

on_request_vote-Quiet :
    (t u : Timer) (req : ReqVoteRequest) (s : Consensus) → Quiet s (on_request_vote t u req s).0
unfolding on_request_vote
on_request_vote-Quiet t u req s = (ground arith, ground arith)

begin_meta_operation-Quiet :
    (s : Consensus) (op : MetaOp) (path : Text) → Quiet s (begin_meta_operation op path s).0
unfolding begin_meta_operation
begin_meta_operation-Quiet s op path = (ground arith, ground arith)

-- The next index that a response gives its host, if it gives one.
abbrev answered : AppendEntriesRequest → AppendEntriesResponse → ℕ
answered req resp =
    if resp.success then last_or_zero resp.last_log_index + 1 else backed_off req.prev_log_index

response_cases :
    (t : Timer) (id : ℕ) (req : AppendEntriesRequest) (resp : AppendEntriesResponse)
    (s s' : Consensus)
    → on_append_entries_response t id req resp s ≡ some s'
    → Quiet s s'
      ⊎ ((s'.current_role ≡ s.current_role)
          × (s'.remotes
              ≡ map
                  (λ r. if r.id == id then reset_next_index (answered req resp) r else r)
                  s.remotes))
unfolding on_append_entries_response
response_cases t id req resp s s' e = elim (Bool-cases resp.success) [
  | inl stored ↦ ground arith
  | inr refused ↦ ground arith
]

voted_cases :
    (id : ℕ) (resp : ReqVoteResponse) (s : Consensus)
    → Quiet s (on_request_vote_response id resp s)
      ⊎ ((on_request_vote_response id resp s).remotes
          ≡ map (reset_next_index (get_last_log_index s.log + 1)) s.remotes)
unfolding on_request_vote_response
voted_cases id resp s = ground arith

Step-IsReady : {s t : Consensus} → Step s t → IsReady s → IsReady t
Step-IsReady {s} {t = w} (check t) v = Quiet-IsReady s w (check_leader-Quiet t s) v
Step-IsReady {s} {t = w} (append t u req {resp = resp} eq) v =
    Quiet-IsReady s w (on_append_entries-Quiet t u req s w resp eq) v
Step-IsReady {s} {t = w} (vote t u req) v = Quiet-IsReady s w (on_request_vote-Quiet t u req s) v
Step-IsReady {s} {t = w} (meta op path) v =
    Quiet-IsReady s w (begin_meta_operation-Quiet s op path) v
Step-IsReady {s} {t = w} (appended t id req resp eq) v =
    elim (response_cases t id req resp s w eq) [
      | inl q ↦ Quiet-IsReady s w q v
      | inr (same, remotes) ↦ λ e.
          rw remotes
            (set_next-HasNext id (answered req resp) s.remotes (ground arith) (v (sym same ∙ e)))
    ]
Step-IsReady {s} {t = w} (voted id resp) v = elim (voted_cases id resp s) [
  | inl q ↦ Quiet-IsReady s w q v
  | inr remotes ↦ λ e. rw remotes (reset-HasNext (get_last_log_index s.log) s.remotes)
]

Reach-IsReady : {s t : Consensus} → IsReady s → Reach s t → IsReady t
Reach-IsReady v here = v
Reach-IsReady v (next r st) = Step-IsReady st (Reach-IsReady v r)

init-IsReady : (t : Timer) (self : ℕ) (others : List ℕ) → IsReady (init t self others)
unfolding init
init-IsReady t self others e = cc

-- The request for a remote host exists, and begins one entry before the host's next index.
abbrev pub HasRequest : Consensus → RemoteHost → Type 0
HasRequest s r =
    (req : AppendEntriesRequest) × (append_entries_request r s ≡ some req)
    × (r.next_index ≡ some (req.prev_log_index + 1))

HasNext-HasRequest : (s : Consensus) (r : RemoteHost) → HasNext r → HasRequest s r
unfolding append_entries_request
HasNext-HasRequest s r (n, set) = elim (Option-cases (append_entries_request r s)) [
  | inl undefined ↦ absurd (ground arith)
  | inr (req, e) ↦ (req, e, ground arith)
]

-- In every state in which a server is the leader, each of its remote hosts has a next index, which is
-- at least 1: the request for it can be built, and its previous index is the one before the next
-- index, so that it is never negative.
pub append_entries_request-defined :
    (t : Timer) (self : ℕ) (others : List ℕ) {s : Consensus}
    → Reach (init t self others) s
    → s.current_role ≡ leader
    → All (HasRequest s) s.remotes
append_entries_request-defined t self others {s} r e =
    All-map s.remotes (HasNext-HasRequest s) (Reach-IsReady (init-IsReady t self others) r e)
