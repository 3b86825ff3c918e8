-- ===== src/Cluster/Electable.antt =====
-- From the start on, each host can come to lead: its timer runs out, and enough others answer.
use raftfs.Prelude.{
  ℕ, ◌+◌, ◌/◌, ◌≤◌, ◌<◌, ◌≡◌, ◌≢◌, ◌⊎◌, ◌∙◌, true, false, inl, inr, List, [], ◌∷◌, arith, length,
  contains, update, remove, remove-within, remove-IsDistinct, contains-remove_same, length-remove,
  IsDistinct,
}
use raftfs.Raft.{RemoteHost, Consensus, Timer, init, check_leader, candidate, leader}
use raftfs.Raft.Rpc.{on_request_vote}
use raftfs.Raft.Remote.{request_vote_request, on_request_vote_response}
use raftfs.Raft.Fixed.{remote_ids}
use raftfs.Cluster.{
  Cluster, Timely, nothing, first, start, check, ask_vote, vote, voted, move, Reach, here, next,
}
use raftfs.Cluster.Elected.{Reach-remote_ids, Reach-quorum}
use raftfs.Cluster.Canvass.{find_remote, request_vote_request-term, init-votes, Counts, counted}

module _ (hosts : List ℕ) (timers : ℕ → Timer) (i : ℕ) (known : contains i hosts ≡ true)
    (distinct : IsDistinct hosts) where
  abbrev fresh : ℕ → Consensus
  fresh v = init (timers v) v (remove v hosts)

  -- Host i stands in term 1, and the hosts of the list have done nothing yet.
  record Canvass (c : Cluster) (left : List ℕ) : Type 0 where
    run : Reach Timely hosts (start hosts timers) c
    stands : (c.servers i).current_role ≡ candidate
    term : (c.servers i).current_term ≡ 1
    untouched : (v : ℕ) → contains v left ≡ true → c.servers v ≡ fresh v
    others :
        (v : ℕ)
        → contains v left ≡ true
        → (contains v (remove i hosts) ≡ true) × (contains v (c.servers i).vote_pool ≡ false)
    distinct_left : IsDistinct left

  abbrev Leads : Cluster → Type 0
  Leads c =
      Reach Timely hosts (start hosts timers) c
      × ((c.servers i).current_role ≡ leader)
      × ((c.servers i).current_term ≡ 1)

  within_hosts : (v : ℕ) → contains v (remove i hosts) ≡ true → (v ≢ i) × (contains v hosts ≡ true)
  within_hosts v h =
      (λ e. ground (arith, contains-remove_same i hosts distinct), remove-within i v hosts h)

  -- Host i asks one more host, which votes for it.
  ask_next :
      (c : Cluster) (v : ℕ) (left : List ℕ)
      → Canvass c (v ∷ left)
      → (d : Cluster) × Reach Timely hosts (start hosts timers) d
        × Counts v (c.servers i) (d.servers i)
        × ((x : ℕ) → x ≢ i → x ≢ v → d.servers x ≡ c.servers x)
  ask_next c v left h =
      let s = c.servers i in
      let (other, free) = h.others v (ground arith) in
      let (apart, host) = within_hosts v other in
      let ids : contains v (remote_ids s) ≡ true =
        rw (Reach-remote_ids hosts timers i h.run) other in
      let (k, n, at) = find_remote s.remotes v ids in
      let r : RemoteHost = record { id = v; next_index = n } in
      let req = request_vote_request s in
      let f1 = update c.servers i s in
      let (w, resp) = on_request_vote (timers v) (timers v) req (f1 v) in
      let f2 = update f1 v w in
      let s' = on_request_vote_response v resp (f2 i) in
      let unmoved : f1 v ≡ fresh v = ground (arith, h.untouched v (ground arith)) in
      let (granted, answer) : (resp.vote_granted ≡ true) × (resp.term ≡ 1) =
        rw unmoved (init-votes (timers v) (timers v) (timers v) v (remove v hosts) s h.term) in
      let still : f2 i ≡ s = ground arith in
      let in_term : req.term ≡ (f2 i).current_term = request_vote_request-term s ∙ rw still in
      let d : Cluster = record { servers = update f2 i s'; calls = c.calls } in
      let run_to_d : Reach Timely hosts (start hosts timers) d =
        next
          (next (next h.run (move i known (ask_vote k r h.stands at) nothing))
            (move v host (vote (timers v) (timers v) i req) first))
          (move i known (voted v req resp in_term) first) in
      let now : d.servers i ≡ s' = ground arith in
      (
        d,
        run_to_d,
        rw (now, still) (counted v resp s h.stands h.term free granted answer),
        λ x not_i not_v. ground arith,
      )

  -- It leads then, or goes on with the rest of the list.
  round :
      (c : Cluster) (v : ℕ) (left : List ℕ)
      → Canvass c (v ∷ left)
      → (d : Cluster) × (Leads d
          ⊎ (Canvass d left
              × (length (d.servers i).vote_pool ≡ length (c.servers i).vote_pool + 1)
              × (length (d.servers i).vote_pool < (d.servers i).quorum_size)))
  round c v left h =
      let (d, run, (term, role), same) = ask_next c v left h in
      let in_list = λ (x : ℕ) (there : contains x left ≡ true). h.others x (ground arith) in
      let differs = λ (x : ℕ) (there : contains x left ≡ true).
        let (apart, _) = within_hosts x (in_list x there).0 in
        let other : x ≢ v = λ e. ground (arith, h.distinct_left.0) in same x apart other in
      (
        d,
        elim role [
          | inl leads ↦ inl (run, leads, term)
          | inr (stands, pool, few, quorum) ↦ inr (
            record {
              run = run;
              stands = stands;
              term = term;
              untouched = λ x there. differs x there ∙ h.untouched x (ground arith);
              others = λ x there. (
                (in_list x there).0,
                rw pool (ground (arith, (in_list x there).1, h.distinct_left.0)),
              );
              distinct_left = h.distinct_left.1;
            },
            rw pool (omega arith),
            rw quorum few,
          )
        ],
      )

  canvass :
      (left : List ℕ) (c : Cluster)
      → Canvass c left
      → length (c.servers i).vote_pool < length hosts / 2 + 1
      → length hosts / 2 + 1 ≤ length (c.servers i).vote_pool + length left
      → (d : Cluster) × Leads d
  canvass [] c h few enough = absurd (omega arith)
  canvass (v ∷ left) c h few enough =
      let (d, outcome) = round c v left h in
      elim outcome [
        | inl leads ↦ (d, leads)
        | inr (on, more, short) ↦
            let quorum = Reach-quorum hosts timers i on.run known in
            canvass left d on (omega arith) (omega arith)
      ]

  -- Host i after its timer has run out.
  abbrev standing : Timer → Cluster
  standing t = record {
    servers = update (start hosts timers).servers i (check_leader t (fresh i));
    calls = [];
  }

  stands-Canvass :
      (t : Timer)
      → (timers i).now + (timers i).delay ≤ t.now
      → Canvass (standing t) (remove i hosts) × (((standing t).servers i).vote_pool ≡ i ∷ [])
  unfolding start init check_leader
  stands-Canvass t late = (
    record {
      run = next here (move i known (check t) nothing);
      stands = ground arith;
      term = ground arith;
      untouched = λ v there. let (apart, _) = within_hosts v there in ground arith;
      others = λ v there. (there, let (apart, _) = within_hosts v there in ground arith);
      distinct_left = remove-IsDistinct i hosts distinct;
    },
    ground arith,
  )

  -- Among two distinct hosts or more, each host of the list can come to lead in term 1: there is a run
  -- from the start that ends so, once its timer may have run out.
  pub leads_in_some_run :
      (t : Timer)
      → 2 ≤ length hosts
      → (timers i).now + (timers i).delay ≤ t.now
      → (d : Cluster) × (Reach Timely hosts (start hosts timers) d
          × ((d.servers i).current_role ≡ leader)
          × ((d.servers i).current_term ≡ 1))
  leads_in_some_run t two late =
      let (h, pool) = stands-Canvass t late in
      let size : length ((standing t).servers i).vote_pool ≡ 1 = rw pool in
      canvass (remove i hosts) (standing t) h (omega arith)
        (omega (arith, length-remove i hosts known))
