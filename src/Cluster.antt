-- ===== src/Cluster.antt =====
-- Several servers of server/RaftConsensus.cpp and the calls between them: `RemoteHostLoop` on the side
-- of the caller, the handlers of server/RaftRPCService.cpp on the side of the callee. A thread gives
-- the mutex back while its call is under way, so what a server knew when it asked may be past when the
-- answer comes. A call may take any time, overtake others, or be lost on the way there or back.
pub mod Histories
pub mod Votes
pub mod Counted
pub mod Elected
pub mod Leaders
pub mod Numbered
pub mod Senders
pub mod Authors
pub mod AppendOnly
pub mod Canvass
pub mod Electable
pub mod Known
pub mod Agreement
pub mod Book
pub mod Entries
pub mod Trees
use raftfs.Prelude.{
  ℕ, ◌≡◌, Bool, true, List, [], ◌∷◌, ◌++◌, Option, none, some, get_elem?, contains, remove, update,
}
use raftfs.Protocol.{
  Text, MetaOp, ReqVoteRequest, ReqVoteResponse, AppendEntriesRequest, AppendEntriesResponse,
}
use raftfs.Raft.{RemoteHost, Consensus, Timer, Role, candidate, leader, init, check_leader}
use raftfs.Raft.Rpc.{on_append_entries, on_request_vote, begin_meta_operation}
use raftfs.Raft.Remote.{
  append_entries_request, on_append_entries_response, request_vote_request,
  on_request_vote_response,
}

-- A call that is under way, with its caller and its callee.
pub data Call : Type 0 where
  vote_asked : ℕ → ℕ → ReqVoteRequest → Call
  vote_answered : ℕ → ℕ → ReqVoteRequest → ReqVoteResponse → Call
  append_asked : ℕ → ℕ → AppendEntriesRequest → Call
  append_answered : ℕ → ℕ → AppendEntriesRequest → AppendEntriesResponse → Call

pub record Cluster : Type 0 where
  pub servers : ℕ → Consensus
  pub calls : List Call

-- Every host starts with the ids of the others, as `Options::GetHosts` gives them.
unfoldable pub start : List ℕ → (ℕ → Timer) → Cluster
start hosts timers = record { servers = λ i. init (timers i) i (remove i hosts); calls = [] }

-- The call that a move ends, if it ends one, out of those under way, and the others.
pub data Taken : Option Call → List Call → List Call → Type 0 where
  nothing : {calls : List Call} → Taken none calls calls
  first : {c : Call} {calls : List Call} → Taken (some c) (c ∷ calls) calls
  behind :
      {b c : Call} {calls rest : List Call}
      → Taken (some c) calls rest
      → Taken (some c) (b ∷ calls) (b ∷ rest)

-- Conditions on a run: on when the answer to a vote request comes back to the candidate, and on the
-- server that begins a change of a client. The program has a test for neither.
pub record Condition : Type 1 where
  pub answer : ReqVoteRequest → Consensus → Type 0
  pub change : Consensus → Type 0

-- The answer comes back in the term in which the vote was asked for.
abbrev pub Timely : Condition
Timely = record { answer = λ req s. req.term ≡ s.current_term; change = λ s. Unit {0} }

-- And the server still leads when it comes to the log. A handler of server/ClientRPCService.cpp tests
-- for that before, without the mutex; `OnMetaOperation` only tests that a leader is known.
abbrev pub Led : Condition
Led = record { answer = λ req s. req.term ≡ s.current_term; change = λ s. s.current_role ≡ leader }

-- Server i from its state on: the call that the move ends, its new state, and the calls that it makes
-- or answers. `OnMetaOperation` up to its wait may come at any time.
pub data Move (ok : Condition) (i : ℕ) (s : Consensus)
    : Option Call → Consensus → List Call → Type 0 where
  check : (t : Timer) → Move ok i s none (check_leader t s) []
  meta :
      (op : MetaOp) (path : Text)
      → ok.change s
      → Move ok i s none (begin_meta_operation op path s).0 []
  ask_vote :
      (k : ℕ) (r : RemoteHost)
      → s.current_role ≡ candidate
      → get_elem? s.remotes k ≡ some r
      → Move ok i s none s (vote_asked i r.id (request_vote_request s) ∷ [])
  ask_append :
      (k : ℕ) (r : RemoteHost) (req : AppendEntriesRequest)
      → s.current_role ≡ leader
      → get_elem? s.remotes k ≡ some r
      → append_entries_request r s ≡ some req
      → Move ok i s none s (append_asked i r.id req ∷ [])
  vote :
      (t u : Timer) (j : ℕ) (req : ReqVoteRequest)
      → Move ok i s
          (some (vote_asked j i req))
          (on_request_vote t u req s).0
          (vote_answered j i req (on_request_vote t u req s).1 ∷ [])
  append :
      (t u : Timer) (j : ℕ) (req : AppendEntriesRequest) (s' : Consensus)
      (resp : AppendEntriesResponse)
      → on_append_entries t u req s ≡ some (s', resp)
      → Move ok i s (some (append_asked j i req)) s' (append_answered j i req resp ∷ [])
  voted :
      (j : ℕ) (req : ReqVoteRequest) (resp : ReqVoteResponse)
      → ok.answer req s
      → Move ok i s (some (vote_answered i j req resp)) (on_request_vote_response j resp s) []
  appended :
      (t : Timer) (j : ℕ) (req : AppendEntriesRequest) (resp : AppendEntriesResponse)
      (s' : Consensus)
      → on_append_entries_response t j req resp s ≡ some s'
      → Move ok i s (some (append_answered i j req resp)) s' []

-- One host moves, or a call fails.
pub data Step (ok : Condition) (hosts : List ℕ) (c : Cluster) : Cluster → Type 0 where
  move :
      (i : ℕ)
      → contains i hosts ≡ true
      → {ended : Option Call} {rest calls : List Call} {s : Consensus}
      → Move ok i (c.servers i) ended s calls
      → Taken ended c.calls rest
      → Step ok hosts c (record { servers = update c.servers i s; calls = calls ++ rest })
  fail :
      {ended : Option Call} {rest : List Call}
      → Taken ended c.calls rest
      → Step ok hosts c (record { servers = c.servers; calls = rest })

pub data Reach (ok : Condition) (hosts : List ℕ) (c : Cluster) : Cluster → Type 0 where
  here : Reach ok hosts c c
  next : {d e : Cluster} → Reach ok hosts c d → Step ok hosts d e → Reach ok hosts c e
