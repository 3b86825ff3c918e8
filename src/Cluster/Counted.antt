-- ===== src/Cluster/Counted.antt =====
-- Every vote in a pool was cast for its owner in the term of the owner, whatever has happened since.

use raftfs.Prelude.{
  ℕ, ◌≡◌, ◌⊎◌, refl, ◌∙◌, true, false, inl, inr, List, Option, none, some, arith, contains, update,
  All,
}
use raftfs.Raft.{Consensus, is_follower}
use raftfs.Raft.Remote.{request_vote_request}
use raftfs.Raft.Votes.{Follows, on_request_vote-grants}
use raftfs.Raft.Elections.{Election, next_term_free}
use raftfs.Cluster.{
  Cluster, Call, vote_asked, vote_answered, append_asked, append_answered, Timely, Taken, nothing,
  first, behind, Move, check, meta, ask_vote, ask_append, vote, append, voted, appended,
}
use raftfs.Cluster.Votes.{
  HasVoted, CallVotes, IsCounted, check_leader-IsCounted, on_request_vote-IsCounted,
  on_append_entries-IsCounted, begin_meta_operation-IsCounted, on_append_entries_response-IsCounted,
  on_request_vote_response-IsCounted,
}

-- A predicate of the call that a move ends.
abbrev pub Of {ℓ} : (Call → Type ℓ) → Option Call → Type ℓ
Of P none = Unit
Of P (some c) = P c

pub Taken-All {ℓ} :
    (P : Call → Type ℓ) {ended : Option Call} {calls rest : List Call}
    → Taken ended calls rest
    → All P calls
    → Of P ended × All P rest
Taken-All P nothing h = (tt, h)
Taken-All P first h = h
Taken-All P (behind t) h = let (p, r) = Taken-All P t h.1 in (p, (h.0, r))

module _ (hosts : List ℕ) where
  pub HasVoted-mono :
      (f g : ℕ → Consensus) (i term v : ℕ)
      → ((h : ℕ) → Follows (f h) (g h))
      → HasVoted hosts f i term v
      → HasVoted hosts g i term v
  HasVoted-mono f g i term v later h = (h.0, (later v).votes_stay term i h.1)

  pub CallVotes-mono :
      (f g : ℕ → Consensus) (c : Call)
      → ((h : ℕ) → Follows (f h) (g h))
      → CallVotes hosts f c
      → CallVotes hosts g c
  CallVotes-mono f g (vote_asked i j req) later h = h
  CallVotes-mono f g (vote_answered i j req resp) later h =
      λ granted. HasVoted-mono f g i req.term j later (h granted)
  CallVotes-mono f g (append_asked i j req) later h = tt
  CallVotes-mono f g (append_answered i j req resp) later h = tt

  module _ (servers : ℕ → Consensus) (i : ℕ) (s : Consensus) (elected : Election s) where
    -- What the mover counts once it has moved.
    pub Move-IsCounted :
        {ended : Option Call} {s' : Consensus} {calls : List Call} (v : ℕ)
        → Move Timely i s ended s' calls
        → Of (CallVotes hosts servers) ended
        → is_follower s'.current_role ≡ false
        → contains v s'.vote_pool ≡ true
        → IsCounted hosts servers i s s' v
    Move-IsCounted v (check t) _ role counted =
        check_leader-IsCounted hosts servers i v t s (next_term_free s elected) role counted
    Move-IsCounted v (meta op path _) _ role counted =
        begin_meta_operation-IsCounted hosts servers i v op path s role counted
    Move-IsCounted v (ask_vote k r _ _) _ role counted = inl (counted, role, refl)
    Move-IsCounted v (ask_append k r req _ _ _) _ role counted = inl (counted, role, refl)
    Move-IsCounted v (vote t u j req) _ role counted =
        on_request_vote-IsCounted hosts servers i v t u req s role counted
    Move-IsCounted v (append t u j req s' resp e) _ role counted =
        on_append_entries-IsCounted hosts servers i v t u req s s' resp e role counted
    Move-IsCounted v (voted j req resp fresh) cast role counted =
        on_request_vote_response-IsCounted hosts servers i v j req resp s fresh cast role counted
    Move-IsCounted v (appended t j req resp s' e) _ role counted =
        on_append_entries_response-IsCounted hosts servers i v t j req resp s s' e role counted

    -- What the mover says in its call or its answer.
    pub Move-CallVotes :
        (servers' : ℕ → Consensus) {ended : Option Call} {s' : Consensus} {calls : List Call}
        → contains i hosts ≡ true
        → s.self_id ≡ i
        → servers' i ≡ s'
        → Move Timely i s ended s' calls
        → Of (CallVotes hosts servers) ended
        → All (CallVotes hosts servers') calls
    unfolding request_vote_request
    Move-CallVotes servers' known own now (check t) _ = tt
    Move-CallVotes servers' known own now (meta op path _) _ = tt
    Move-CallVotes servers' known own now (ask_vote k r _ _) _ = (own, tt)
    Move-CallVotes servers' known own now (ask_append k r req _ _ _) _ = (tt, tt)
    Move-CallVotes servers' known own now (vote t u j req) asked =
        (λ granted. (known, ground (arith, on_request_vote-grants t u req s)), tt)
    Move-CallVotes servers' known own now (append t u j req s' resp e) _ = (tt, tt)
    Move-CallVotes servers' known own now (voted j req resp fresh) cast = tt
    Move-CallVotes servers' known own now (appended t j req resp s' e) _ = tt

pub record Counted (hosts : List ℕ) (c : Cluster) : Type 0 where
  pub pools :
      (i v : ℕ)
      → is_follower (c.servers i).current_role ≡ false
      → contains v (c.servers i).vote_pool ≡ true
      → HasVoted hosts c.servers i (c.servers i).current_term v
  pub calls : All (CallVotes hosts c.servers) c.calls

pub update-cases :
    (f : ℕ → Consensus) (i h : ℕ) (s : Consensus)
    → ((i ≡ h) × (update f i s h ≡ s)) ⊎ (update f i s h ≡ f h)
update-cases f i h s = ground arith

module _ (hosts : List ℕ) (c : Cluster) (h : Counted hosts c)
    (elected : (k : ℕ) → Election (c.servers k)) (named : (k : ℕ) → (c.servers k).self_id ≡ k) where
  pub mover-HasVoted :
      (servers' : ℕ → Consensus) (i v : ℕ) (s : Consensus)
      → contains i hosts ≡ true
      → servers' i ≡ s
      → ((k : ℕ) → Follows (c.servers k) (servers' k))
      → IsCounted hosts c.servers i (c.servers i) s v
      → HasVoted hosts servers' i s.current_term v
  mover-HasVoted servers' i v s known now later (inl (counted, role, same)) =
      rw same (HasVoted-mono hosts c.servers servers' i _ v later (h.pools i v role counted))
  mover-HasVoted servers' i v s known now later (inr (inl (self, cast))) =
      let e : v ≡ i = self ∙ named i in rw e (known, ground (arith, named i))
  mover-HasVoted servers' i v s known now later (inr (inr cast)) =
      HasVoted-mono hosts c.servers servers' i _ v later cast
