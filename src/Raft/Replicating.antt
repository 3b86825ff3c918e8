-- ===== src/Raft/Replicating.antt =====
-- One round of replication: a leader's request, and the log of the host that handles it.
use raftfs.Prelude.{
  ℕ, ◌+◌, ◌-◌, ◌≤◌, ◌<◌, ◌≡◌, ◌≢◌, ◌⊎◌, refl, sym, ap, ◌∙◌, true, false, inl, inr, List, [], ◌∷◌,
  ◌++◌, none, some, arith, leb, ltb, if◌then◌else◌, Bool-cases, Option-cases, length, take, drop,
  back?,
}
use raftfs.Protocol.{Entry, AppendEntriesRequest, AppendEntriesResponse}
use raftfs.Log.{
  print_log, LogManager, get_last_log_term, get_last_log_index, get_last_commit_index,
  set_last_commit_index, get_entries_start_at,
}
use raftfs.Log.Indexed.{
  IsIndexed, IsIndexed-take, length-take-le, take-append-drop, take-length,
  get_last_log_index-length, length-drop-add,
}
use raftfs.Log.Append.{has_back}
use raftfs.Log.Entries.{get_entries_start_at-drop}
use raftfs.Log.Replicate.{append_entries-get_entries_start_at}
use raftfs.Raft.{RemoteHost, Consensus, Timer}
use raftfs.Raft.Rpc.{show_log, on_append_entries, store_entries, append_all, advance_commit}
use raftfs.Raft.Remote.{append_entries_request}

-- The entries of the request for a host whose next index is k + 1.
abbrev pub sent : ℕ → LogManager → List Entry
sent k l = if ltb k (get_last_log_index l) then get_entries_start_at k l else []

module _ (l f : LogManager) (k : ℕ) (hl : IsIndexed 0 l.memory_log) (le : k ≤ length l.memory_log)
    (prefix : f.memory_log ≡ take k l.memory_log) where
  follower_last : get_last_log_index f ≡ k
  follower_last =
      get_last_log_index-length f (rw prefix (IsIndexed-take k 0 l.memory_log hl))
      ∙ (rw prefix (length-take-le k l.memory_log le))

  append_all-sent :
      (x : Entry) (xs : List Entry)
      → drop k l.memory_log ≡ x ∷ xs
      → append_all (get_entries_start_at k l) f
        ≡ some (record f { memory_log = l.memory_log }, true)
  unfolding append_all
  append_all-sent x xs e =
      let packed : get_entries_start_at k l ≡ x ∷ xs = get_entries_start_at-drop l k hl ∙ e in
      let whole : l.memory_log ≡ f.memory_log ++ x ∷ xs =
        sym (take-append-drop k l.memory_log) ∙ rw (e, prefix) in
      let stored = append_entries-get_entries_start_at l f x xs hl whole in
      rw packed (rw (follower_last, packed) at stored)

  store_entries-sent :
      store_entries k (sent k l) f ≡ some (record f { memory_log = l.memory_log }, true)
  unfolding store_entries
  store_entries-sent = elim (Bool-cases (ltb k (get_last_log_index l))) [
    | inl more ↦
        rw (follower_last, more)
          (fill (drop k l.memory_log) refl (ground (arith, get_last_log_index-length l hl)))
    | inr up ↦ rw (follower_last, up) (ground (arith, same up))
  ]
    where
      fill :
          (d : List Entry)
          → drop k l.memory_log ≡ d
          → k < length l.memory_log
          → (if leb k k then append_all (get_entries_start_at k l) f else some (f, false))
            ≡ some (record f { memory_log = l.memory_log }, true)
      fill [] e lt = absurd (omega (arith, length-drop-add k l.memory_log le, ap length e))
      fill (x ∷ xs) e lt = ground (arith, append_all-sent x xs e)

      same : ltb k (get_last_log_index l) ≡ false → f.memory_log ≡ l.memory_log
      same up =
          let whole : k ≡ length l.memory_log = ground (arith, get_last_log_index-length l hl) in
          prefix ∙ (rw whole (take-length l.memory_log))

back?-none : (xs : List Entry) → back? xs ≡ none → xs ≡ []
back?-none [] e = refl
back?-none (x ∷ xs) e = let (y, b) = has_back x xs in cc

pub advance_commit-defined :
    (c : ℕ) (l : LogManager)
    → (c ≡ 0) ⊎ (l.memory_log ≢ [])
    → (l' : LogManager) × (advance_commit c l ≡ some l') × (l'.memory_log ≡ l.memory_log)
unfolding advance_commit set_last_commit_index
advance_commit-defined c l h = elim (Option-cases (advance_commit c l)) [
  | inl undefined ↦ absurd (ground (arith, back?-none l.memory_log))
  | inr (l', e) ↦ (l', e, ground arith)
]

pub commit_of_filled : (l : LogManager) → (get_last_commit_index l ≡ 0) ⊎ (l.memory_log ≢ [])
unfolding get_last_commit_index
commit_of_filled l = ground arith

abbrev pub request : ℕ → Consensus → AppendEntriesRequest
request k l = record {
  term = l.current_term;
  leader_id = l.self_id;
  prev_log_index = k;
  prev_log_term = get_last_log_term l.log;
  entries = sent k l.log;
  leader_commit_index = get_last_commit_index l.log;
}

pub request_lem :
    (r : RemoteHost) (l : Consensus) (k : ℕ)
    → r.next_index ≡ some (k + 1)
    → append_entries_request r l ≡ some (request k l)
unfolding append_entries_request
request_lem r l k e = let pred : k + 1 - 1 ≡ k = omega arith in rw (e, append_entries_request, pred)

pub show_log-filled :
    (es : List Entry) (l : LogManager) → (es ≡ []) ⊎ (l.memory_log ≢ []) → show_log es l ≡ some l
unfolding show_log print_log
show_log-filled es l h = ground arith

sent-filled : (k : ℕ) (l : LogManager) → (sent k l ≡ []) ⊎ (l.memory_log ≢ [])
unfolding get_last_log_index
sent-filled k l = ground arith

pub handled :
    (t u : Timer) (req : AppendEntriesRequest) (f : Consensus) (m m' : LogManager)
    → f.current_term ≤ req.term
    → store_entries req.prev_log_index req.entries f.log ≡ some (m, true)
    → advance_commit req.leader_commit_index m ≡ some m'
    → (req.entries ≡ []) ⊎ (m'.memory_log ≢ [])
    → (f' : Consensus) × (resp : AppendEntriesResponse) × (on_append_entries t u req f
        ≡ some (f', resp))
      × (resp.success ≡ true)
      × (f'.log ≡ m')
      × (resp.last_log_index ≡ some (get_last_log_index m'))
unfolding on_append_entries
handled t u req f m m' term stored advanced filled =
    let shown : show_log req.entries m' ≡ some m' = show_log-filled req.entries m' filled in
    elim (Option-cases (on_append_entries t u req f)) [
      | inl undefined ↦ absurd (ground arith)
      | inr ((f', resp), e) ↦ (f', resp, e, ground arith, ground arith, ground arith)
    ]

-- A leader whose log is numbered without a gap has k + 1 as the next index of a host, and the host,
-- not ahead in its term, has the leader's first k entries: the leader's request, handled, is
-- defined and a success, gives the host exactly the leader's entries and reports the last index.
pub on_append_entries-replicates :
    (t u : Timer) (r : RemoteHost) (l f : Consensus) (k : ℕ)
    → IsIndexed 0 l.log.memory_log
    → r.next_index ≡ some (k + 1)
    → k ≤ length l.log.memory_log
    → f.log.memory_log ≡ take k l.log.memory_log
    → f.current_term ≤ l.current_term
    → (req : AppendEntriesRequest) × (f' : Consensus) × (resp : AppendEntriesResponse)
      × (append_entries_request r l ≡ some req)
      × (on_append_entries t u req f ≡ some (f', resp))
      × (resp.success ≡ true)
      × (f'.log.memory_log ≡ l.log.memory_log)
      × (resp.last_log_index ≡ some (length l.log.memory_log))
on_append_entries-replicates t u r l f k hl next le prefix term =
    let stored = store_entries-sent l.log f.log k hl le prefix in
    let (m, advanced, kept) =
      advance_commit-defined (get_last_commit_index l.log)
        (record (f.log) { memory_log = l.log.memory_log }) (commit_of_filled l.log) in
    let (f', resp, e, success, log, last) =
      handled t u (request k l) f _ m term stored advanced (rw kept (sent-filled k l.log)) in
    let same : f'.log.memory_log ≡ l.log.memory_log =
      ap (λ (n : LogManager). n.memory_log) log ∙ kept in
    let whole = get_last_log_index-length m (rw kept hl) in
    (request k l, f', resp, request_lem r l k next, e, success, same, last ∙ rw (whole, kept))
