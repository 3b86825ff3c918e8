-- ===== src/Raft/Candidates.antt =====
-- Elections: the timeout, the count of the votes, and late votes.
use raftfs.Prelude.{
  ℕ, ◌+◌, ◌≤◌, ◌<◌, ◌≡◌, ◌≢◌, ◌⊎◌, ◌↔◌, refl, ap, ◌∙◌, true, inl, inr, List, [], ◌∷◌, map, some,
  arith, Option-cases, All, insert_set, length,
}
use raftfs.Protocol.{ReqVoteRequest, ReqVoteResponse}
use raftfs.Log.{LogManager, get_last_log_index, get_last_log_term_and_index}
use raftfs.Raft.{RemoteHost, Consensus, Timer, check_leader, reset_next_index, leader, candidate}
use raftfs.Raft.Rpc.{on_request_vote}
use raftfs.Raft.Remote.{on_request_vote_response, request_vote_request}
use raftfs.Raft.Elections.{Election, on_request_vote-Election}

-- A server starts an election, in the next term, exactly when it is not the leader and its timer has
-- run out; it then waits again for the time that was drawn. Otherwise nothing changes.
pub check_leader-starts :
    (t : Timer) (s : Consensus)
    → Election s
    → ((s.current_role ≢ leader)
        × (s.next_election ≤ t.now)
        × ((check_leader t s).current_term ≡ s.current_term + 1)
        × ((check_leader t s).current_role ≡ candidate)
        × ((check_leader t s).vote_pool ≡ s.self_id ∷ [])
        × ((check_leader t s).next_election ≡ t.now + t.delay))
      ⊎ (((s.current_role ≡ leader) ⊎ (t.now < s.next_election)) × (check_leader t s ≡ s))
unfolding check_leader
check_leader-starts t s v = elim (Option-cases (s.vote_for (s.current_term + 1))) [
  | inl free ↦ ground arith
  | inr (h, cast) ↦ absurd (omega (arith, v.votes_past _ h cast))
]

All-reset :
    (n : ℕ) (rs : List RemoteHost) → All (λ r. r.next_index ≡ some n) (map (reset_next_index n) rs)
unfolding reset_next_index
All-reset n [] = tt
All-reset n (r ∷ rs) = (refl, All-reset n rs)

won-remotes :
    (id : ℕ) (resp : ReqVoteResponse) (s : Consensus)
    → s.current_role ≡ candidate
    → (on_request_vote_response id resp s).current_role ≡ leader
    → (on_request_vote_response id resp s).remotes
      ≡ map (reset_next_index (get_last_log_index s.log + 1)) s.remotes
unfolding on_request_vote_response
won-remotes id resp s e won = ground arith

-- A candidate becomes the leader with a response exactly when the vote is granted in a term not above
-- its own and is one of at least quorum_size distinct votes with it. It then sends every remote host
-- what follows its last entry. It stays in its term.
pub on_request_vote_response-wins :
    (id : ℕ) (resp : ReqVoteResponse) (s : Consensus)
    → s.current_role ≡ candidate
    → let s' = on_request_vote_response id resp s in
      ((s'.current_role ≡ leader) ↔ (
        (resp.vote_granted ≡ true)
        × (resp.term ≤ s.current_term)
        × (s.quorum_size ≤ length (insert_set id s.vote_pool))))
      × (s'.current_role ≡ leader
          → All (λ r. r.next_index ≡ some (get_last_log_index s.log + 1)) s'.remotes)
      × (s'.current_term ≡ s.current_term)
unfolding on_request_vote_response
on_request_vote_response-wins id resp s e = (
  (ground arith, ground arith),
  (λ won. rw (won-remotes id resp s e won) (All-reset _ s.remotes)),
  ground arith,
)

-- A host with an empty log that is behind in its term grants the vote.
first_vote :
    (t u : Timer) (req : ReqVoteRequest) (s : Consensus)
    → Election s
    → s.log.memory_log ≡ []
    → s.current_term < req.term
    → let (s', resp) = on_request_vote t u req s in
      (resp.vote_granted ≡ true)
      × (resp.term ≡ req.term)
      × (s'.current_term ≡ req.term)
      × (s'.log ≡ s.log)
unfolding on_request_vote get_last_log_term_and_index
first_vote t u req s v empty behind = elim (Option-cases (s.vote_for req.term)) [
  | inl free ↦ ground arith
  | inr (h, cast) ↦ absurd (omega (arith, v.votes_past _ h cast))
]

second_vote_wins :
    (id : ℕ) (resp : ReqVoteResponse) (s : Consensus)
    → s.current_role ≡ candidate
    → s.quorum_size ≡ 2
    → s.vote_pool ≡ s.self_id ∷ []
    → id ≢ s.self_id
    → resp.vote_granted ≡ true
    → resp.term ≤ s.current_term
    → ((on_request_vote_response id resp s).current_role ≡ leader)
      × ((on_request_vote_response id resp s).current_term ≡ s.current_term)
unfolding on_request_vote_response
second_vote_wins id resp s r q p n g le = ground arith

check_leader-kept :
    (t : Timer) (s : Consensus)
    → ((check_leader t s).self_id ≡ s.self_id) × ((check_leader t s).quorum_size ≡ s.quorum_size)
unfolding check_leader
check_leader-kept t s = ground arith

-- The vote that a host gave a candidate in one term is counted in the candidate's next term too: the
-- response may come when the candidate has timed out and started over. Among three servers with
-- empty logs, where b lies behind the candidates a and c, c is one term ahead of a, and a times out
-- before it sees the response, both become leaders, and of the same term.
pub stale_vote_elects_two :
    (t u v w x : Timer) (a b c : Consensus)
    → Election a
    → Election b
    → a.current_role ≡ candidate
    → c.current_role ≡ candidate
    → c.current_term ≡ a.current_term + 1
    → b.current_term < a.current_term
    → (a.quorum_size ≡ 2) × (c.quorum_size ≡ 2)
    → b.log.memory_log ≡ []
    → c.vote_pool ≡ c.self_id ∷ []
    → (b.self_id ≢ a.self_id) × (b.self_id ≢ c.self_id)
    → a.next_election ≤ x.now
    → let (b1, r1) = on_request_vote t u (request_vote_request a) b in
      let (b2, r2) = on_request_vote v w (request_vote_request c) b1 in
      let a' = on_request_vote_response b.self_id r1 (check_leader x a) in
      let c' = on_request_vote_response b.self_id r2 c in
      (a'.current_role ≡ leader) × (c'.current_role ≡ leader) × (a'.current_term ≡ c'.current_term)
unfolding request_vote_request
stale_vote_elects_two t u v w x a b c ea eb ra rc tc tb q lb pc n late =
    let b1 = (on_request_vote t u (request_vote_request a) b).0 in
    let (g1, t1, c1, l1) = first_vote t u (request_vote_request a) b eb lb tb in
    let e1 = on_request_vote-Election t u (request_vote_request a) b eb in
    let (g2, t2, c2, l2) =
      first_vote v w (request_vote_request c) b1 e1 (ap (λ (m : LogManager). m.memory_log) l1 ∙ lb)
        (ground arith) in
    let (self, quorum) = check_leader-kept x a in
    let restarted = check_leader-starts x a ea in
    let wa =
      second_vote_wins b.self_id (on_request_vote t u (request_vote_request a) b).1
        (check_leader x a) (ground arith) (ground arith) (ground arith) (ground arith) g1
        (ground arith) in
    let wc =
      second_vote_wins b.self_id (on_request_vote v w (request_vote_request c) b1).1 c rc q.1 pc n.1
        g2 (omega arith) in
    (wa.0, wc.0, ground arith)
