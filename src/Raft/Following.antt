-- ===== src/Raft/Following.antt =====
-- What `OnAppendEntries` does to the log of a host, and what it reports.
use raftfs.Prelude.{
  ℕ, ◌≤◌, ◌<◌, ◌≡◌, ◌⊎◌, ap, ◌∙◌, Bool, true, false, inl, inr, List, [], ◌∷◌, ◌++◌, some, arith,
  leb, ltb, Bool-cases, Option-cases, length, take,
}
use raftfs.Protocol.{Entry, AppendEntriesRequest, AppendEntriesResponse}
use raftfs.Log.{LogManager, append_entries, get_last_log_index, set_last_commit_index}
use raftfs.Log.Indexed.{IsIndexed, get_last_log_index-length}
use raftfs.Log.Append.{Agrees}
use raftfs.Log.Refine.{append_entries-refines, append_entries-IsIndexed}
use raftfs.Raft.{Consensus, Timer}
use raftfs.Raft.Rpc.{on_append_entries, store_entries, advance_commit}

pub advance_commit-memory_log :
    (commit : ℕ) (l l' : LogManager)
    → advance_commit commit l ≡ some l'
    → l'.memory_log ≡ l.memory_log
unfolding advance_commit set_last_commit_index
advance_commit-memory_log commit l l' e = ground arith

-- The log that a request which succeeded asks for.
abbrev pub requested : ℕ → List Entry → List Entry → List Entry
requested prev [] log = log
requested prev (e ∷ es) log = take prev log ++ e ∷ es

module _ (prev : ℕ) (l : LogManager) (hl : IsIndexed 0 l.memory_log) where
  within-length : leb prev (get_last_log_index l) ≡ true → prev ≤ length l.memory_log
  within-length e = ground (arith, get_last_log_index-length l hl)

  store_entries-requested :
      (es : List Entry) (l' : LogManager)
      → IsIndexed prev es
      → Agrees es l.memory_log
      → store_entries prev es l ≡ some (l', true)
      → (l'.memory_log ≡ requested prev es l.memory_log)
        × (l'.last_commited_index ≡ l.last_commited_index)
  unfolding store_entries
  store_entries-requested [] l' hn ag e = ground arith
  store_entries-requested (x ∷ xs) l' hn ag e =
      elim (Bool-cases (leb prev (get_last_log_index l))) [
        | inl within ↦
            append_entries-refines l prev x xs hl hn (within-length within) l' ag (ground arith)
        | inr gap ↦ ground arith
      ]

  store_entries-IsIndexed :
      (es : List Entry) (l' : LogManager) (b : Bool)
      → IsIndexed prev es
      → store_entries prev es l ≡ some (l', b)
      → IsIndexed 0 l'.memory_log
  unfolding store_entries
  store_entries-IsIndexed [] l' b hn e =
      let same : l'.memory_log ≡ l.memory_log = ground arith in rw same hl
  store_entries-IsIndexed (x ∷ xs) l' b hn e = elim (Bool-cases (leb prev (get_last_log_index l))) [
    | inl within ↦
        append_entries-IsIndexed l prev x xs hl hn (within-length within) l' b (ground arith)
    | inr gap ↦ let same : l'.memory_log ≡ l.memory_log = ground arith in rw same hl
  ]

-- A refused append leaves the log alone.
store_entries-refused :
    (prev : ℕ) (es : List Entry) (l l' : LogManager)
    → store_entries prev es l ≡ some (l', false)
    → l' ≡ l
unfolding store_entries append_entries
store_entries-refused prev [] l l' e = ground arith
store_entries-refused prev (x ∷ xs) l l' e = ground arith

-- The parts of a call that is not refused for its term.
pub accepted :
    (t u : Timer) (req : AppendEntriesRequest) (s s' : Consensus) (resp : AppendEntriesResponse)
    → s.current_term ≤ req.term
    → on_append_entries t u req s ≡ some (s', resp)
    → (l : LogManager) × (store_entries req.prev_log_index req.entries s.log
        ≡ some (l, resp.success))
      × (advance_commit req.leader_commit_index l ≡ some s'.log)
      × (resp.success ≡ true → resp.last_log_index ≡ some (get_last_log_index s'.log))
unfolding on_append_entries
accepted t u req s s' resp le e =
    elim (Option-cases (store_entries req.prev_log_index req.entries s.log)) [
      | inl undefined ↦ ground arith
      | inr ((l, ok), stored) ↦ (l, ground arith, ground arith, ground arith)
    ]

module _ (t u : Timer) (req : AppendEntriesRequest) (s s' : Consensus)
    (resp : AppendEntriesResponse) (returned : on_append_entries t u req s ≡ some (s', resp)) where
  pub outdated : req.term < s.current_term → (s'.log ≡ s.log) × (resp.success ≡ false)
  unfolding on_append_entries
  outdated h = ground arith

  -- A host with a log numbered without a gap takes a request whose entries are numbered from the
  -- previous index on and agree with its log: if the response is a success, the log is its first
  -- prev_log_index entries and then the request's (the log itself where the request has none), and
  -- the response reports its last index; if not, the entries of the log stay as they were.
  pub on_append_entries-requested :
      IsIndexed 0 s.log.memory_log
      → IsIndexed req.prev_log_index req.entries
      → Agrees req.entries s.log.memory_log
      → ((resp.success ≡ true)
          × (s'.log.memory_log ≡ requested req.prev_log_index req.entries s.log.memory_log)
          × (resp.last_log_index ≡ some (get_last_log_index s'.log)))
        ⊎ ((resp.success ≡ false) × (s'.log.memory_log ≡ s.log.memory_log))
  on_append_entries-requested hl hn ag = elim (Bool-cases (ltb req.term s.current_term)) [
    | inl old ↦ let (same, refused) = outdated (ground arith) in inr (refused, rw same)
    | inr new ↦
        let (l, stored, advanced, reported) = accepted t u req s s' resp (ground arith) returned in
        let kept = advance_commit-memory_log req.leader_commit_index l s'.log advanced in
        elim (Bool-cases resp.success) [
          | inl e ↦ inl (
            e,
            kept
                ∙ (store_entries-requested req.prev_log_index s.log hl req.entries l hn ag
                    (rw e at stored)).0,
            reported e,
          )
          | inr e ↦ inr (
            e,
            kept
                ∙ ap (λ (m : LogManager). m.memory_log)
                    (store_entries-refused req.prev_log_index req.entries s.log l (rw e at stored)),
          )
        ]
  ]

  -- Whatever such a request does, the log stays numbered without a gap.
  pub on_append_entries-IsIndexed :
      IsIndexed 0 s.log.memory_log
      → IsIndexed req.prev_log_index req.entries
      → IsIndexed 0 s'.log.memory_log
  on_append_entries-IsIndexed hl hn = elim (Bool-cases (ltb req.term s.current_term)) [
    | inl old ↦ rw (outdated (ground arith)).0 hl
    | inr new ↦
        let (l, stored, advanced, reported) = accepted t u req s s' resp (ground arith) returned in
        rw (advance_commit-memory_log req.leader_commit_index l s'.log advanced)
          (store_entries-IsIndexed req.prev_log_index s.log hl req.entries l resp.success hn stored)
  ]
