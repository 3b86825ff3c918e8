-- ===== src/Cluster/Book.antt =====
-- What the entries of one term and one index are, over all hosts and requests: a book of the entries
-- that leaders wrote, to which nothing is added twice.
use mathlib.Core.Path.{subst}
use raftfs.Prelude.{
  ℕ, ◌+◌, ◌≡◌, ◌⊎◌, ◌∙◌, sym, true, ◌&&◌, inl, inr, List, [], ◌∷◌, Option, none, some, arith, ◌==◌,
  if◌then◌else◌, Bool-cases, Option-cases, length, length-append, contains, All, All-map,
  All-append,
}
use raftfs.Protocol.{Text, MetaOp, Entry}
use raftfs.Raft.{Consensus, Timer, leader}
use raftfs.Raft.Rpc.{begin_meta_operation}
use raftfs.Raft.Contents.{
  check_leader-log, on_request_vote-log, on_request_vote_response-log,
  on_append_entries_response-log, added, begin_meta_operation-log, on_append_entries-All,
  append_entries_request-All,
}
use raftfs.Cluster.{
  Cluster, Call, vote_asked, vote_answered, append_asked, append_answered, Timely, Led, start, Move,
  check, meta, ask_vote, ask_append, vote, append, voted, appended, Reach,
}
use raftfs.Cluster.Counted.{Of}
use raftfs.Cluster.Elected.{Elected, Elected-unique, leader-Elected, Reach-Election}
use raftfs.Cluster.Authors.{Keeps, begin_meta_operation-leads}

-- The entry of a term and an index, if there is one.
abbrev pub Book : Type 0
Book = ℕ → ℕ → Option Entry

abbrev pub IsRecorded : Book → Entry → Type 0
IsRecorded book e = book e.term e.index ≡ some e

abbrev pub CallIsRecorded : Book → Call → Type 0
CallIsRecorded book (append_asked i j req) = All (IsRecorded book) req.entries
CallIsRecorded book _ = Unit

abbrev pub Extends : Book → Book → Type 0
Extends old new = (term index : ℕ) (e : Entry) → old term index ≡ some e → new term index ≡ some e

abbrev record_entry : Entry → Book → Book
record_entry e book term index =
    if term == e.term && index == e.index then some e else book term index

pub CallIsRecorded-mono :
    (old new : Book) (c : Call) → Extends old new → CallIsRecorded old c → CallIsRecorded new c
CallIsRecorded-mono old new (vote_asked i j req) more h = tt
CallIsRecorded-mono old new (vote_answered i j req resp) more h = tt
CallIsRecorded-mono old new (append_asked i j req) more h =
    All-map req.entries (λ e there. more e.term e.index e there) h
CallIsRecorded-mono old new (append_answered i j req resp) more h = tt

-- The host that wrote an entry.
abbrev pub IsAuthor : List ℕ → (ℕ → Consensus) → ℕ → ℕ → ℕ → Type 0
IsAuthor hosts servers term index i = Elected hosts servers term i × Keeps term index (servers i)

pub record Written (hosts : List ℕ) (c : Cluster) (book : Book) : Type 0 where
  pub logs : (i : ℕ) → All (IsRecorded book) (c.servers i).log.memory_log
  pub calls : All (CallIsRecorded book) c.calls
  pub authors :
      (term index : ℕ) (e : Entry)
      → book term index ≡ some e
      → (i : ℕ) × IsAuthor hosts c.servers term index i

-- The book after a move: what the mover has and sends is in it, and what is new in it is the mover's.
pub record Recording (hosts : List ℕ) (servers : ℕ → Consensus) (i : ℕ) (book : Book)
    (s' : Consensus) (calls : List Call) : Type 0 where
  pub new : Book
  pub extends : Extends book new
  pub log : All (IsRecorded new) s'.log.memory_log
  pub sent : All (CallIsRecorded new) calls
  pub source :
      (term index : ℕ) (e : Entry)
      → new term index ≡ some e
      → (book term index ≡ some e) ⊎ (Elected hosts servers term i × Keeps term index s')

nothing_new :
    (hosts : List ℕ) (servers : ℕ → Consensus) (i : ℕ) (book : Book) (s' : Consensus)
    (calls : List Call)
    → All (IsRecorded book) s'.log.memory_log
    → All (CallIsRecorded book) calls
    → Recording hosts servers i book s' calls
nothing_new hosts servers i book s' calls log sent = record {
  new = book;
  extends = λ term index e there. there;
  log = log;
  sent = sent;
  source = λ term index e there. inl there;
}

module _ (hosts : List ℕ) (timers : ℕ → Timer) (i : ℕ) {c : Cluster} (book : Book)
    (r : Reach Timely hosts (start hosts timers) c) (known : contains i hosts ≡ true)
    (w : Written hosts c book) where
  -- A leader's next index is not taken.
  next_free :
      (c.servers i).current_role ≡ leader
      → book (c.servers i).current_term (length (c.servers i).log.memory_log + 1) ≡ none
  next_free leads =
      let s = c.servers i in
      elim (Option-cases (book s.current_term (length s.log.memory_log + 1))) [
        | inl free ↦ free
        | inr (e, taken) ↦
            let (j, (elected, keeps)) =
              w.authors s.current_term (length s.log.memory_log + 1) e taken in
            let same : j ≡ i =
              Elected-unique hosts c.servers s.current_term j i elected
                (leader-Elected hosts timers i r known leads) in
            let kept : Keeps s.current_term (length s.log.memory_log + 1) s =
              subst (λ k. Keeps s.current_term (length s.log.memory_log + 1) (c.servers k)) same
                keeps in
            absurd (ground arith)
      ]

  meta-Recording :
      (op : MetaOp) (path : Text)
      → (c.servers i).current_role ≡ leader
      → Recording hosts c.servers i book (begin_meta_operation op path (c.servers i)).0 []
  meta-Recording op path leads =
      let s = c.servers i in
      let e = added op path s in
      let free = next_free leads in
      let log =
        begin_meta_operation-log op path s
          ((Reach-Election hosts timers i r).0.leader_known leads) in
      let (same_term, same_role) = begin_meta_operation-leads op path s in
      let elected = leader-Elected hosts timers i r known leads in
      let more : Extends book (record_entry e book) = λ term index x there. ground arith in
      record {
        new = record_entry e book;
        extends = more;
        log = rw log (
            All-append _ s.log.memory_log (e ∷ [])
              (All-map s.log.memory_log (λ x there. more x.term x.index x there) (w.logs i))
              (ground arith, tt));
        sent = tt;
        source = λ term index x there. elim (Bool-cases (term == e.term && index == e.index)) [
          | inl own ↦
              let at : term ≡ s.current_term = ground arith in
              inr (
                rw at elected,
                inr (
                  at ∙ sym same_term,
                  same_role ∙ leads,
                  rw log (ground (arith, length-append s.log.memory_log (e ∷ []))),
                ),
              )
          | inr other ↦ inl (ground arith)
        ];
      }

  pub Move-Recording :
      {ended : Option Call} {s' : Consensus} {calls : List Call}
      → Move Led i (c.servers i) ended s' calls
      → Of (CallIsRecorded book) ended
      → Recording hosts c.servers i book s' calls
  Move-Recording (check t) _ =
      nothing_new hosts c.servers i book _ _ (rw (check_leader-log t (c.servers i)) (w.logs i)) tt
  Move-Recording (meta op path leads) _ = meta-Recording op path leads
  Move-Recording (ask_vote k h _ _) _ = nothing_new hosts c.servers i book _ _ (w.logs i) (tt, tt)
  Move-Recording (ask_append k h req _ _ e) _ =
      nothing_new hosts c.servers i book _ _ (w.logs i)
        (append_entries_request-All _ h (c.servers i) req e (w.logs i), tt)
  Move-Recording (vote t u j req) _ =
      nothing_new hosts c.servers i book _ _
        (rw (on_request_vote-log t u req (c.servers i)) (w.logs i)) (tt, tt)
  Move-Recording (append t u j req s' resp e) asked =
      nothing_new hosts c.servers i book _ _
        (on_append_entries-All _ t u req (c.servers i) s' resp e asked (w.logs i)) (tt, tt)
  Move-Recording (voted j req resp _) _ =
      nothing_new hosts c.servers i book _ _
        (rw (on_request_vote_response-log j resp (c.servers i)) (w.logs i)) tt
  Move-Recording (appended t j req resp s' e) _ =
      nothing_new hosts c.servers i book _ _
        (rw (on_append_entries_response-log t j req resp (c.servers i) s' e) (w.logs i)) tt
