-- ===== src/Cluster/Agreement.antt =====
-- All hosts of a term that name a leader name the one that was elected in it.
use mathlib.Core.Path.{subst}
use raftfs.Prelude.{
  ℕ, ◌≡◌, ◌⊎◌, sym, ◌∙◌, inl, inr, List, Option, some, arith, update, pos, IsDistinct, All,
  All-append,
}
use raftfs.Protocol.{AppendEntriesRequest}
use raftfs.Raft.{RemoteHost, Consensus, Timer, init, leader}
use raftfs.Raft.Remote.{append_entries_request}
use raftfs.Raft.Votes.{Follows, Reach-Follows}
use raftfs.Cluster.{
  Cluster, Call, Timely, start, Move, check, meta, ask_vote, ask_append, vote, append, voted,
  appended, move, fail, Reach, here, next,
}
use raftfs.Cluster.Histories.{Move-Reach, update-Reach, Reach-history, joined}
use raftfs.Cluster.Counted.{Of, Taken-All, update-cases}
use raftfs.Cluster.Elected.{Elected, Elected-mono, Elected-unique, leader-Elected, Reach-named}
use raftfs.Cluster.Senders.{IsSent, Reach-IsSent}
use raftfs.Cluster.Known.{
  IsSigned, Source, check_leader-Source, on_request_vote-Source, on_request_vote_response-Source,
  begin_meta_operation-Source, on_append_entries_response-Source, on_append_entries-Source,
}

-- Whoever a host names is elected in the host's term.
abbrev pub NamesElected : List ℕ → (ℕ → Consensus) → Consensus → Type 0
NamesElected hosts servers s =
    (j : ℕ) → s.leader_id ≡ pos j → Elected hosts servers s.current_term j

append_entries_request-leader_id :
    (r : RemoteHost) (s : Consensus) (req : AppendEntriesRequest)
    → append_entries_request r s ≡ some req
    → req.leader_id ≡ s.self_id
unfolding append_entries_request
append_entries_request-leader_id r s req e = ground arith

module _ (hosts : List ℕ) (servers : ℕ → Consensus) (i : ℕ) (own : (servers i).self_id ≡ i) where
  Move-IsSigned :
      {ended : Option Call} {s' : Consensus} {calls : List Call}
      → Move Timely i (servers i) ended s' calls
      → All IsSigned calls
  Move-IsSigned (check t) = tt
  Move-IsSigned (meta op path _) = tt
  Move-IsSigned (ask_vote k r _ _) = (tt, tt)
  Move-IsSigned (ask_append k r req _ _ e) =
      (append_entries_request-leader_id r (servers i) req e ∙ own, tt)
  Move-IsSigned (vote t u j req) = (tt, tt)
  Move-IsSigned (append t u j req s' resp e) = (tt, tt)
  Move-IsSigned (voted j req resp _) = tt
  Move-IsSigned (appended t j req resp s' e) = tt

  -- Elected by the servers before the move, or the mover itself.
  abbrev Outcome : Consensus → ℕ → Type 0
  Outcome s' j = Elected hosts servers s'.current_term j ⊎ ((j ≡ i) × (s'.current_role ≡ leader))

  from_source :
      (s' : Consensus) (j : ℕ)
      → NamesElected hosts servers (servers i)
      → Source (servers i) s' j
      → Outcome s' j
  from_source s' j h (inl (named, same)) = inl (rw same (h j named))
  from_source s' j h (inr (self, leads)) = inr (self ∙ own, leads)

  Move-Outcome :
      {ended : Option Call} {s' : Consensus} {calls : List Call} (j : ℕ)
      → Move Timely i (servers i) ended s' calls
      → Of IsSigned ended
      → Of (IsSent hosts servers) ended
      → NamesElected hosts servers (servers i)
      → s'.leader_id ≡ pos j
      → Outcome s' j
  Move-Outcome {s' = s'} j (check t) _ _ h e =
      from_source s' j h (check_leader-Source j t (servers i) e)
  Move-Outcome {s' = s'} j (meta op path _) _ _ h e =
      from_source s' j h (begin_meta_operation-Source j op path (servers i) e)
  Move-Outcome j (ask_vote k r _ _) _ _ h e = inl (h j e)
  Move-Outcome j (ask_append k r req _ _ _) _ _ h e = inl (h j e)
  Move-Outcome {s' = s'} j (vote t u k req) _ _ h e =
      from_source s' j h (on_request_vote-Source j t u req (servers i) e)
  Move-Outcome j (append t u k req s' resp ran) signed sent h e =
      elim (on_append_entries-Source j t u req (servers i) s' resp ran e) [
        | inl source ↦ from_source s' j h source
        | inr (sender, term) ↦
            inl (
              rw term
                (subst (λ n. Elected hosts servers req.term n) (sym (sender ∙ signed)) sent.1))
      ]
  Move-Outcome {s' = s'} j (voted k req resp _) _ _ h e =
      from_source s' j h (on_request_vote_response-Source j k resp (servers i) e)
  Move-Outcome j (appended t k req resp s' ran) _ _ h e =
      from_source s' j h (on_append_entries_response-Source j t k req resp (servers i) s' ran e)

pub record Known (hosts : List ℕ) (c : Cluster) : Type 0 where
  pub names : (i : ℕ) → NamesElected hosts c.servers (c.servers i)
  pub signed : All IsSigned c.calls

Reach-Known :
    (hosts : List ℕ) (timers : ℕ → Timer) {c : Cluster}
    → IsDistinct hosts
    → Reach Timely hosts (start hosts timers) c
    → Known hosts c
unfolding start init
Reach-Known hosts timers distinct here = record { names = λ i j e. cc; signed = tt }
Reach-Known hosts timers distinct (next r (fail taken)) =
    let h = Reach-Known hosts timers distinct r in
    record { names = h.names; signed = (Taken-All _ taken h.signed).1 }
Reach-Known hosts timers distinct (next {d} r (move i known {rest = rest} {calls} {s} m taken)) =
    let h = Reach-Known hosts timers distinct r in
    let (asked, others) = Taken-All _ taken h.signed in
    let sent = (Taken-All _ taken (Reach-IsSent hosts timers distinct r)).0 in
    let own = Reach-named hosts timers i r in
    let later : (k : ℕ) → Follows (d.servers k) (update d.servers i s k) =
      λ k. Reach-Follows (update-Reach d.servers i s k (Move-Reach m)) in
    let keep = λ (term j : ℕ) (e : Elected hosts d.servers term j).
      Elected-mono hosts d.servers (update d.servers i s) term j later e in
    let now : update d.servers i s i ≡ s = ground arith in
    record {
      names = λ k j e. elim (update-cases d.servers i k s) [
        | inl (_, moved) ↦
            elim (Move-Outcome hosts d.servers i own j m asked sent (h.names i) (rw moved at e)) [
              | inl elected ↦ rw moved (keep s.current_term j elected)
              | inr (self, leads) ↦
                  let mine =
                    leader-Elected hosts timers i (next r (move i known m taken)) known
                      (rw now leads) in
                  rw moved (
                    subst (λ n. Elected hosts (update d.servers i s) s.current_term n) (sym self)
                      (rw now at mine))
            ]
        | inr same ↦ rw same (keep (d.servers k).current_term j (h.names k j (rw same at e)))
      ];
      signed = All-append _ calls rest (Move-IsSigned hosts d.servers i own m) others;
    }

-- In a run of distinct hosts in which votes are answered in their term, hosts that are in one term and
-- name a leader name the same one, at one moment as at two.
pub leaders_agree :
    (hosts : List ℕ) (timers : ℕ → Timer) (i k a b : ℕ) {c d : Cluster}
    → IsDistinct hosts
    → Reach Timely hosts (start hosts timers) c
    → Reach Timely hosts c d
    → (c.servers i).leader_id ≡ pos a
    → (d.servers k).leader_id ≡ pos b
    → (c.servers i).current_term ≡ (d.servers k).current_term
    → a ≡ b
leaders_agree hosts timers i k a b {c} {d} distinct r q names_a names_b same =
    Elected-unique hosts d.servers (d.servers k).current_term a b
      (subst (λ term. Elected hosts d.servers term a) same
        (Elected-mono hosts c.servers d.servers (c.servers i).current_term a
          (λ h. Reach-Follows (Reach-history h q))
          ((Reach-Known hosts timers distinct r).names i a names_a)))
      ((Reach-Known hosts timers distinct (joined r q)).names k b names_b)
