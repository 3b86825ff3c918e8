-- ===== src/Cluster/Senders.antt =====
-- Who sends append requests: an elected host, and never to itself.
use raftfs.Prelude.{
  ℕ, zero, suc, ◌≡◌, ◌≢◌, true, List, [], ◌∷◌, Option, some, map, arith, get_elem?, contains,
  contains-remove_same, update, remove, IsDistinct, All, All-map, All-append,
}
use raftfs.Protocol.{AppendEntriesRequest}
use raftfs.Raft.{RemoteHost, Consensus, Timer}
use raftfs.Raft.Remote.{append_entries_request}
use raftfs.Raft.Votes.{Follows, Reach-Follows}
use raftfs.Cluster.{
  Cluster, Call, vote_asked, vote_answered, append_asked, append_answered, Timely, start, Move,
  check, meta, ask_vote, ask_append, vote, append, voted, appended, move, fail, Reach, here, next,
}
use raftfs.Cluster.Histories.{Move-Reach, update-Reach}
use raftfs.Cluster.Counted.{Taken-All}
use raftfs.Cluster.Elected.{Elected, Elected-mono, leader-Elected, Reach-remote_ids}

-- What an append request under way says about its sender.
abbrev pub IsSent : List ℕ → (ℕ → Consensus) → Call → Type 0
IsSent hosts servers (append_asked i j req) = (i ≢ j) × Elected hosts servers req.term i
IsSent hosts servers _ = Unit

IsSent-mono :
    (hosts : List ℕ) (f g : ℕ → Consensus) (c : Call)
    → ((h : ℕ) → Follows (f h) (g h))
    → IsSent hosts f c
    → IsSent hosts g c
IsSent-mono hosts f g (vote_asked i j req) later h = tt
IsSent-mono hosts f g (vote_answered i j req resp) later h = tt
IsSent-mono hosts f g (append_asked i j req) later h =
    (h.0, Elected-mono hosts f g req.term i later h.1)
IsSent-mono hosts f g (append_answered i j req resp) later h = tt

-- A remote host is one of the remote ids.
remote_known :
    (rs : List RemoteHost) (k : ℕ) (r : RemoteHost)
    → get_elem? rs k ≡ some r
    → contains r.id (map (λ (x : RemoteHost). x.id) rs) ≡ true
remote_known [] k r e = cc
remote_known (x ∷ rs) zero r e = ground arith
remote_known (x ∷ rs) (suc k) r e = ground (arith, remote_known rs k r e)

append_entries_request-term :
    (r : RemoteHost) (s : Consensus) (req : AppendEntriesRequest)
    → append_entries_request r s ≡ some req
    → req.term ≡ s.current_term
unfolding append_entries_request
append_entries_request-term r s req e = ground arith

module _ (hosts : List ℕ) (distinct : IsDistinct hosts) (timers : ℕ → Timer) {c : Cluster}
    (r : Reach Timely hosts (start hosts timers) c) (i : ℕ) (known : contains i hosts ≡ true) where
  -- No host is among its own remote hosts.
  other_host : (k : ℕ) (h : RemoteHost) → get_elem? (c.servers i).remotes k ≡ some h → i ≢ h.id
  other_host k h at e =
      let seen = remote_known (c.servers i).remotes k h at in
      let own : contains i (remove i hosts) ≡ true =
        rw (← Reach-remote_ids hosts timers i r) (rw (← e) at seen) in
      ground (arith, own, contains-remove_same i hosts distinct)

  Move-IsSent :
      {ended : Option Call} {s' : Consensus} {calls : List Call}
      → Move Timely i (c.servers i) ended s' calls
      → All (IsSent hosts c.servers) calls
  Move-IsSent (check t) = tt
  Move-IsSent (meta op path _) = tt
  Move-IsSent (ask_vote k h _ _) = (tt, tt)
  Move-IsSent (ask_append k h req leads at e) = (
    (
      other_host k h at,
      rw (append_entries_request-term h (c.servers i) req e)
          (leader-Elected hosts timers i r known leads),
    ),
    tt,
  )
  Move-IsSent (vote t u j req) = (tt, tt)
  Move-IsSent (append t u j req s' resp e) = (tt, tt)
  Move-IsSent (voted j req resp fresh) = tt
  Move-IsSent (appended t j req resp s' e) = tt

pub Reach-IsSent :
    (hosts : List ℕ) (timers : ℕ → Timer) {c : Cluster}
    → IsDistinct hosts
    → Reach Timely hosts (start hosts timers) c
    → All (IsSent hosts c.servers) c.calls
unfolding start
Reach-IsSent hosts timers distinct here = tt
Reach-IsSent hosts timers distinct (next r (fail taken)) =
    (Taken-All _ taken (Reach-IsSent hosts timers distinct r)).1
Reach-IsSent hosts timers distinct (next {d} r (move i known {rest = rest} {calls} {s} m taken)) =
    let later : (k : ℕ) → Follows (d.servers k) (update d.servers i s k) =
      λ k. Reach-Follows (update-Reach d.servers i s k (Move-Reach m)) in
    let mono = λ (c' : Call) (said : IsSent hosts d.servers c').
      IsSent-mono hosts d.servers _ c' later said in
    All-append _ calls rest (All-map calls mono (Move-IsSent hosts distinct timers r i known m))
      (All-map rest mono (Taken-All _ taken (Reach-IsSent hosts timers distinct r)).1)
