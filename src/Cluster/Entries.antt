-- ===== src/Cluster/Entries.antt =====
-- One term and one index name one entry, at any host and at any time.
use mathlib.Core.Path.{subst}
use raftfs.Prelude.{
  ℕ, ◌≡◌, ◌⊎◌, sym, true, false, inl, inr, List, Option, none, some, arith, contains, update, All,
  All-map, All-append, IsDistinct,
}
use raftfs.Protocol.{Entry, AppendEntriesRequest, AppendEntriesResponse}
use raftfs.Log.{empty_log, get_last_log_index}
use raftfs.Log.Append.{Agrees}
use raftfs.Raft.{Consensus, Timer, init}
use raftfs.Raft.Rpc.{on_append_entries}
use raftfs.Raft.Following.{requested, on_append_entries-requested}
use raftfs.Raft.Votes.{Reach-Follows}
use raftfs.Cluster.{
  Cluster, Call, append_asked, Timely, Led, Taken, start, Move, Step, move, fail, Reach, here, next,
}
use raftfs.Cluster.Histories.{Move-Reach, update-Reach, Move-Timely, Reach-Timely}
use raftfs.Cluster.Counted.{Of, Taken-All, update-cases}
use raftfs.Cluster.Elected.{Elected-mono}
use raftfs.Cluster.Numbered.{Reach-Numbered}
use raftfs.Cluster.Senders.{IsSent, Reach-IsSent}
use raftfs.Cluster.Authors.{Keeps, Move-Keeps}
use raftfs.Cluster.Book.{
  Book, IsRecorded, Extends, CallIsRecorded-mono, IsAuthor, Written, Move-Recording,
}

module _ (hosts : List ℕ) (timers : ℕ → Timer) (distinct : IsDistinct hosts) where
  -- An author stays the author.
  IsAuthor-stays :
      (i : ℕ) {c : Cluster} {ended : Option Call} {s' : Consensus} {calls : List Call}
      (term index j : ℕ)
      → Reach Timely hosts (start hosts timers) c
      → contains i hosts ≡ true
      → Move Timely i (c.servers i) ended s' calls
      → Of (IsSent hosts c.servers) ended
      → IsAuthor hosts c.servers term index j
      → IsAuthor hosts (update c.servers i s') term index j
  IsAuthor-stays i {c} {s' = s'} term index j r known m asked (elected, keeps) = (
    Elected-mono hosts c.servers _ term j
        (λ k. Reach-Follows (update-Reach c.servers i s' k (Move-Reach m))) elected,
    elim (update-cases c.servers i j s') [
      | inl (e, moved) ↦ rw moved (
          Move-Keeps term index hosts timers i r known m asked
            (let back = sym e in subst (λ k. Keeps term index (c.servers k)) back keeps))
      | inr same ↦ rw same keeps
    ],
  )

  Step-Written :
      {c d : Cluster} (book : Book)
      → Reach Led hosts (start hosts timers) c
      → Step Led hosts c d
      → Written hosts c book
      → (book' : Book) × Extends book book' × Written hosts d book'
  Step-Written book r (fail taken) w = (
    book,
    λ term index e there. there,
    record { logs = w.logs; calls = (Taken-All _ taken w.calls).1; authors = w.authors },
  )
  Step-Written {c} book r (move i known {rest = rest} {calls} {s} m taken) w =
      let (asked, others) = Taken-All _ taken w.calls in
      let sent = (Taken-All _ taken (Reach-IsSent hosts timers distinct (Reach-Timely r))).0 in
      let n = Move-Recording hosts timers i book (Reach-Timely r) known w m asked in
      let mono = λ (e : Entry) (there : IsRecorded book e). n.extends e.term e.index e there in
      (
        n.new,
        n.extends,
        record {
          logs = λ k. elim (update-cases c.servers i k s) [
            | inl (_, moved) ↦ rw moved n.log
            | inr same ↦ rw same (All-map (c.servers k).log.memory_log mono (w.logs k))
          ];
          calls =
              All-append _ calls rest n.sent
                (All-map rest (λ c' said. CallIsRecorded-mono book n.new c' n.extends said) others);
          authors = λ term index e there. elim (n.source term index e there) [
            | inl old ↦
                let (j, author) = w.authors term index e old in
                (
                  j,
                  IsAuthor-stays i term index j (Reach-Timely r) known (Move-Timely m) sent author,
                )
            | inr (elected, keeps) ↦ (
              i,
              (
                Elected-mono hosts c.servers _ term i
                    (λ k. Reach-Follows (update-Reach c.servers i s k (Move-Reach m))) elected,
                let now : update c.servers i s i ≡ s = ground arith in rw now keeps,
              ),
            )
          ];
        },
      )

  pub Reach-Written :
      {c : Cluster} → Reach Led hosts (start hosts timers) c → (book : Book) × Written hosts c book
  unfolding start init empty_log
  Reach-Written here = (
    λ term index. none,
    record { logs = λ i. tt; calls = tt; authors = λ term index e there. cc },
  )
  Reach-Written (next r st) =
      let (book, w) = Reach-Written r in
      let (book', _, w') = Step-Written book r st w in (book', w')

  -- The book of a later moment has what is in the book now.
  Reach-Extends :
      {c d : Cluster} (book : Book)
      → Reach Led hosts (start hosts timers) c
      → Written hosts c book
      → Reach Led hosts c d
      → (book' : Book) × Extends book book'
        × Written hosts d book'
        × Reach Led hosts (start hosts timers) d
  Reach-Extends book r w here = (book, (λ term index e there. there), w, r)
  Reach-Extends book r w (next q st) =
      let (old, more, w', r') = Reach-Extends book r w q in
      let (new, further, w'') = Step-Written old r' st w' in
      (new, (λ term index e there. further term index e (more term index e there)), w'', next r' st)

recorded-Agrees :
    (book : Book) (new log : List Entry)
    → All (IsRecorded book) new
    → All (IsRecorded book) log
    → Agrees new log
recorded-Agrees book new log hn hl =
    All-map new (λ e there. All-map log (λ x here same. ground arith) hl) hn

module _ (hosts : List ℕ) (timers : ℕ → Timer) (i j : ℕ) {c : Cluster} where
  -- Among distinct hosts, each of which starts with the others as its remote hosts, as long as votes are
  -- answered in their term and a host that begins a change of a client leads when it comes to the log:
  -- an entry in the log of one host, and an entry in the log of any host at that time or later, are the
  -- same entry if their terms and their indexes are equal.
  pub same_entries :
      {d : Cluster}
      → IsDistinct hosts
      → Reach Led hosts (start hosts timers) c
      → Reach Led hosts c d
      → Agrees (c.servers i).log.memory_log (d.servers j).log.memory_log
  same_entries distinct r q =
      let (book, w) = Reach-Written hosts timers distinct r in
      let (later, more, w', _) = Reach-Extends hosts timers distinct book r w q in
      recorded-Agrees later _ _
        (All-map (c.servers i).log.memory_log (λ e there. more e.term e.index e there) (w.logs i))
        (w'.logs j)

  pub request-Agrees :
      {req : AppendEntriesRequest} {rest : List Call}
      → IsDistinct hosts
      → Reach Led hosts (start hosts timers) c
      → Taken (some (append_asked i j req)) c.calls rest
      → Agrees req.entries (c.servers j).log.memory_log
  request-Agrees {req} distinct r taken =
      let (book, w) = Reach-Written hosts timers distinct r in
      recorded-Agrees book req.entries _ (Taken-All _ taken w.calls).0 (w.logs j)

  -- Among distinct hosts, as long as votes are answered in their term and a host that begins a change of
  -- a client leads when it comes to the log: if an append request under way reaches a host, and the
  -- handler is defined, then a host that stores it has as its log its first prev_log_index entries and
  -- the entries of the request (the log itself where the request has none), and its answer has the index
  -- of the last entry; and a host that refuses has its log as before.
  pub delivered_request :
      (t u : Timer) {req : AppendEntriesRequest} {rest : List Call} {s : Consensus}
      {resp : AppendEntriesResponse}
      → IsDistinct hosts
      → Reach Led hosts (start hosts timers) c
      → Taken (some (append_asked i j req)) c.calls rest
      → on_append_entries t u req (c.servers j) ≡ some (s, resp)
      → ((resp.success ≡ true)
          × (s.log.memory_log
              ≡ requested req.prev_log_index req.entries (c.servers j).log.memory_log)
          × (resp.last_log_index ≡ some (get_last_log_index s.log)))
        ⊎ ((resp.success ≡ false) × (s.log.memory_log ≡ (c.servers j).log.memory_log))
  delivered_request t u {req} {s = s} {resp} distinct r taken e =
      let h = Reach-Numbered hosts timers r in
      on_append_entries-requested t u req (c.servers j) s resp e (h.logs j).0
        (Taken-All _ taken h.calls).0.0 (request-Agrees distinct r taken)
