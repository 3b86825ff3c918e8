-- ===== src/Raft/Faults.antt =====
-- `OnAppendEntries` and its answer off the common path: empty logs, refusals, older terms.
use raftfs.Prelude.{
  ℕ, ◌≤◌, ◌<◌, ◌≡◌, ◌⊎◌, refl, ◌↔◌, false, inl, inr, List, [], ◌∷◌, Option, none, some, arith,
  Option-cases, Bool-cases, ◌==◌, ◌∙◌, back?, ◌≢◌, ◌>>=◌,
}
use raftfs.Protocol.{Entry, AppendEntriesRequest, AppendEntriesResponse}
use raftfs.Log.{
  LogManager, append_entries, get_last_log_index, get_last_commit_index, set_last_commit_index,
  print_log,
}
use raftfs.Log.Append.{has_back}
use raftfs.Raft.{Consensus, Timer}
use raftfs.Raft.Rpc.{on_append_entries, store_entries, advance_commit, show_log}
use raftfs.Raft.Following.{advance_commit-memory_log}
use raftfs.Raft.Replicating.{show_log-filled}
use raftfs.Raft.Remote.{on_append_entries_response}

-- The log operations of the handler.
abbrev log_step : ℕ → ℕ → List Entry → LogManager → Option LogManager
log_step c prev es l =
    store_entries prev es l >>= λ r. (advance_commit c r.0 >>= λ m. show_log es m)

on_append_entries-log_step :
    (t u : Timer) (req : AppendEntriesRequest) (s : Consensus)
    → s.current_term ≤ req.term
    → (on_append_entries t u req s ≡ none)
      ↔ (log_step req.leader_commit_index req.prev_log_index req.entries s.log ≡ none)
unfolding on_append_entries
on_append_entries-log_step t u req s le =
    elim (Option-cases (store_entries req.prev_log_index req.entries s.log)) [
      | inl undefined ↦ (ground arith, ground arith)
      | inr ((l, ok), stored) ↦ elim (Option-cases (advance_commit req.leader_commit_index l)) [
        | inl undefined ↦ (ground arith, ground arith)
        | inr (m, advanced) ↦ elim (Option-cases (show_log req.entries m)) [
          | inl undefined ↦ (ground arith, ground arith)
          | inr (k, shown) ↦ (ground arith, ground arith)
        ]
      ]
    ]

commit_empty : (c : ℕ) (l : LogManager) → l.memory_log ≡ [] → (advance_commit c l ≡ none) ↔ (0 < c)
unfolding advance_commit set_last_commit_index get_last_commit_index
commit_empty c l e = (ground arith, ground arith)

commit_filled :
    (c : ℕ) (l : LogManager) (x : Entry) (xs : List Entry)
    → l.memory_log ≡ x ∷ xs
    → advance_commit c l ≢ none
unfolding advance_commit set_last_commit_index
commit_filled c l x xs e = let (y, b) = has_back x xs in ground (arith, b)

print_log-empty : (l : LogManager) → l.memory_log ≡ [] → print_log l ≡ none
unfolding print_log
print_log-empty l e = rw e refl

-- Entries that are refused leave the log empty.
log_step-refused :
    (c prev : ℕ) (x : Entry) (xs : List Entry) (l : LogManager)
    → l.memory_log ≡ []
    → 0 < prev
    → log_step c prev (x ∷ xs) l ≡ none
unfolding store_entries get_last_log_index show_log
log_step-refused c prev x xs l e past = elim (Option-cases (advance_commit c l)) [
  | inl undefined ↦ ground arith
  | inr (m, advanced) ↦
      let shown = print_log-empty m (advance_commit-memory_log c l m advanced ∙ e) in ground arith
]

log_step-stored :
    (c : ℕ) (x : Entry) (xs : List Entry) (l : LogManager)
    → l.memory_log ≡ []
    → log_step c 0 (x ∷ xs) l ≢ none
unfolding store_entries append_entries get_last_log_index
log_step-stored c x xs l e =
    let filled : LogManager = record l { memory_log = x ∷ xs } in
    elim (Option-cases (advance_commit c filled)) [
      | inl undefined ↦ absurd (commit_filled c filled x xs refl undefined)
      | inr (m, advanced) ↦
          let log = advance_commit-memory_log c filled m advanced in
          let shown = show_log-filled (x ∷ xs) m (inr (λ n. ground arith)) in
          ground (arith, advanced, shown)
    ]

log_step-entries :
    (c prev : ℕ) (x : Entry) (xs : List Entry) (l : LogManager)
    → l.memory_log ≡ []
    → (log_step c prev (x ∷ xs) l ≡ none) ↔ (0 < prev)
log_step-entries c prev x xs l e = elim (Bool-cases (prev == 0)) [
  | inl first ↦
      let at : prev ≡ 0 = ground arith in
      ((λ h. absurd (log_step-stored c x xs l e (rw at at h))), λ h. absurd (omega arith))
  | inr past ↦ ((λ h. ground arith), log_step-refused c prev x xs l e)
]

log_step-undefined :
    (c prev : ℕ) (es : List Entry) (l : LogManager)
    → l.memory_log ≡ []
    → (log_step c prev es l ≡ none) ↔ (((es ≡ []) × (0 < c)) ⊎ ((es ≢ []) × (0 < prev)))
unfolding store_entries append_entries get_last_log_index show_log
log_step-undefined c prev [] l e =
    (ground (arith, (commit_empty c l e).0), ground (arith, (commit_empty c l e).1))
log_step-undefined c prev (x ∷ xs) l e =
    let (there, back) = log_step-entries c prev x xs l e in
    ((λ h. inr ((λ n. cc), there h)), λ h. back (ground arith))

-- A host whose log is empty takes a request that is not outdated: the handler reads the last entry of
-- an empty log, which is undefined, exactly when the request carries no entries and the leader has
-- committed something, or it carries entries and begins past index 0.
pub on_append_entries-empty_log :
    (t u : Timer) (req : AppendEntriesRequest) (s : Consensus)
    → s.current_term ≤ req.term
    → s.log.memory_log ≡ []
    → (on_append_entries t u req s ≡ none) ↔ (
        ((req.entries ≡ []) × (0 < req.leader_commit_index))
        ⊎ ((req.entries ≢ []) × (0 < req.prev_log_index)))
on_append_entries-empty_log t u req s le e =
    let first = on_append_entries-log_step t u req s le in
    let second =
      log_step-undefined req.leader_commit_index req.prev_log_index req.entries s.log e in
    ((λ h. second.0 (first.0 h)), λ h. first.1 (second.1 h))

advance_commit-within :
    (c : ℕ) (l : LogManager)
    → get_last_commit_index l < c
    → c ≤ get_last_log_index l
    → advance_commit c l ≡ some (record l { last_commited_index = c })
unfolding advance_commit set_last_commit_index get_last_log_index
advance_commit-within c l behind long = elim (Option-cases (back? l.memory_log)) [
  | inl empty ↦ ground arith
  | inr (y, e) ↦ ground arith
]

get_last_log_index-empty : (l : LogManager) → l.memory_log ≡ [] → get_last_log_index l ≡ 0
unfolding get_last_log_index
get_last_log_index-empty l e = rw e refl

-- A request that the handler refuses to store, since the log ends before its previous index or has
-- no entry like its first, still moves the commit index, to the leader's, if the log is that long.
pub on_append_entries-refused_commits :
    (t u : Timer) (req : AppendEntriesRequest) (s : Consensus)
    → s.current_term ≤ req.term
    → store_entries req.prev_log_index req.entries s.log ≡ some (s.log, false)
    → get_last_commit_index s.log < req.leader_commit_index
    → req.leader_commit_index ≤ get_last_log_index s.log
    → (s' : Consensus) × (resp : AppendEntriesResponse) × (on_append_entries t u req s
        ≡ some (s', resp))
      × (resp.success ≡ false)
      × (s'.log.last_commited_index ≡ req.leader_commit_index)
unfolding on_append_entries
on_append_entries-refused_commits t u req s le refused behind long =
    let moved = advance_commit-within req.leader_commit_index s.log behind long in
    let shown =
      show_log-filled req.entries (record (s.log) { last_commited_index = req.leader_commit_index })
        (inr (λ n. absurd (omega (arith, get_last_log_index-empty s.log n)))) in
    elim (Option-cases (on_append_entries t u req s)) [
      | inl undefined ↦ ground (arith, moved, shown)
      | inr ((s', resp), e) ↦
          (s', resp, e, ground (arith, moved, shown), ground (arith, moved, shown))
    ]

-- A host of an older term answers a leader with the term that it had before: the leader, still in the
-- term of its request, does nothing with the answer, even if the host has stored the entries.
pub on_append_entries_response-older_term :
    (t u w : Timer) (id : ℕ) (req : AppendEntriesRequest) (s s' l : Consensus)
    (resp : AppendEntriesResponse)
    → s.current_term < req.term
    → l.current_term ≡ req.term
    → on_append_entries t u req s ≡ some (s', resp)
    → on_append_entries_response w id req resp l ≡ some l
unfolding on_append_entries_response on_append_entries
on_append_entries_response-older_term t u w id req s s' l resp older same e = ground arith
