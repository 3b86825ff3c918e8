-- ===== src/Cluster/Canvass.antt =====
-- The vote of a host that has done nothing yet, and what it does for the candidate.
use raftfs.Prelude.{
  ℕ, suc, ◌<◌, ◌≡◌, ◌⊎◌, refl, true, false, inl, inr, List, [], ◌∷◌, Option, some, arith, map, ◌==◌,
  Bool-cases, length, get_elem?, contains,
}
use raftfs.Protocol.{ReqVoteResponse}
use raftfs.Log.{empty_log, get_last_log_index, get_last_log_term_and_index}
use raftfs.Raft.{RemoteHost, Consensus, Timer, init, candidate, leader}
use raftfs.Raft.Rpc.{on_request_vote}
use raftfs.Raft.Remote.{request_vote_request, on_request_vote_response}

-- The remote host with a given id.
pub find_remote :
    (rs : List RemoteHost) (v : ℕ)
    → contains v (map (λ (r : RemoteHost). r.id) rs) ≡ true
    → (k : ℕ) × (n : Option ℕ) × (get_elem? rs k ≡ some (record { id = v; next_index = n }))
find_remote [] v h = cc
find_remote (x ∷ rs) v h = elim (Bool-cases (v == x.id)) [
  | inl same ↦ (0, x.next_index, ground arith)
  | inr other ↦ let (k, n, at) = find_remote rs v (ground arith) in (suc k, n, at)
]

pub request_vote_request-term : (s : Consensus) → (request_vote_request s).term ≡ s.current_term
unfolding request_vote_request
request_vote_request-term s = refl

-- A host that has done nothing yet votes for a candidate of term 1.
pub init-votes :
    (t u w : Timer) (v : ℕ) (others : List ℕ) (s : Consensus)
    → s.current_term ≡ 1
    → let resp = (on_request_vote t u (request_vote_request s) (init w v others)).1 in
      (resp.vote_granted ≡ true) × (resp.term ≡ 1)
unfolding on_request_vote request_vote_request init get_last_log_term_and_index get_last_log_index
    empty_log
init-votes t u w v others s term = (ground arith, ground arith)

-- What a granted vote does to a candidate of term 1.
abbrev pub Counts : ℕ → Consensus → Consensus → Type 0
Counts v s s' =
    (s'.current_term ≡ 1)
    × ((s'.current_role ≡ leader)
        ⊎ ((s'.current_role ≡ candidate)
            × (s'.vote_pool ≡ v ∷ s.vote_pool)
            × (length s'.vote_pool < s.quorum_size)
            × (s'.quorum_size ≡ s.quorum_size)))

pub counted :
    (v : ℕ) (resp : ReqVoteResponse) (s : Consensus)
    → s.current_role ≡ candidate
    → s.current_term ≡ 1
    → contains v s.vote_pool ≡ false
    → resp.vote_granted ≡ true
    → resp.term ≡ 1
    → Counts v s (on_request_vote_response v resp s)
unfolding on_request_vote_response
counted v resp s stands term new granted at = (ground arith, ground arith)
