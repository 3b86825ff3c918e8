-- ===== src/Raft/Unchecked.antt =====
-- What `OnAppendEntries` and `OnRequestVote` do with the terms of entries.
use raftfs.Prelude.{
  ◌+◌, ◌≤◌, ◌<◌, ◌≡◌, ◌≢◌, refl, ap, ◌∙◌, true, false, List, [], ◌∷◌, ◌++◌, some, inr, arith,
  length, length-append, drop,
}
use raftfs.Protocol.{Entry, AppendEntriesRequest, AppendEntriesResponse}
use raftfs.Log.{
  LogManager, get_last_log_index, get_last_log_term, get_last_commit_index,
  get_last_log_term_and_index, append_entries,
}
use raftfs.Log.Indexed.{IsIndexed, IsIndexed-append, get_last_log_index-length, length-drop-add}
use raftfs.Log.Append.{append_entries-appended}
use raftfs.Log.Entries.{get_entries_start_at-drop}
use raftfs.Log.Refine.{IsIndexed-drop}
use raftfs.Raft.{RemoteHost, Consensus, Timer}
use raftfs.Raft.Rpc.{on_append_entries, on_request_vote, store_entries, append_all}
use raftfs.Raft.Remote.{append_entries_request, request_vote_request}
use raftfs.Raft.Replicating.{sent, request, request_lem, handled, advance_commit-defined}

-- Of two hosts, of which one has the longer log and the other the later last term, neither votes for the
-- other, whatever their terms and votes are: `OnRequestVote` wants both to be at least its own.
pub on_request_vote-stand_off :
    (t u : Timer) (longer newer : Consensus)
    → get_last_log_index newer.log < get_last_log_index longer.log
    → get_last_log_term longer.log < get_last_log_term newer.log
    → ((on_request_vote t u (request_vote_request newer) longer).1.vote_granted ≡ false)
      × ((on_request_vote t u (request_vote_request longer) newer).1.vote_granted ≡ false)
unfolding on_request_vote request_vote_request get_last_log_term_and_index
on_request_vote-stand_off t u longer newer shorter older = (ground arith, ground arith)

module _ (l f : LogManager) (hl : IsIndexed 0 l.memory_log) (hf : IsIndexed 0 f.memory_log)
    (more : length f.memory_log < length l.memory_log) where
  stored :
      (x : Entry) (xs : List Entry)
      → drop (length f.memory_log) l.memory_log ≡ x ∷ xs
      → append_entries (x ∷ xs) f ≡ some (record f { memory_log = f.memory_log ++ x ∷ xs }, true)
  stored x xs e =
      let k = length f.memory_log in
      let numbered : IsIndexed k (x ∷ xs) = rw e at (
        let behind : IsIndexed (0 + k) (drop k l.memory_log) = IsIndexed-drop k 0 l.memory_log hl in
        let at : 0 + k ≡ k = omega arith in rw at at behind) in
      append_entries-appended f k x xs hf numbered (omega arith) ∙ ground arith

  store_entries-behind :
      (es : List Entry)
      → drop (length f.memory_log) l.memory_log ≡ es
      → store_entries (length f.memory_log) es f
        ≡ some (record f { memory_log = f.memory_log ++ es }, true)
  unfolding store_entries append_all
  store_entries-behind [] e =
      absurd (
        omega
          (arith, length-drop-add (length f.memory_log) l.memory_log (omega arith), ap length e))
  store_entries-behind (x ∷ xs) e = ground (arith, stored x xs e, get_last_log_index-length f hf)

  sent-behind : sent (length f.memory_log) l ≡ drop (length f.memory_log) l.memory_log
  sent-behind =
      ground (
        arith,
        get_last_log_index-length l hl,
        get_entries_start_at-drop l (length f.memory_log) hl,
      )

behind-filled : (xs ys : List Entry) → xs ++ ys ≡ [] → length ys ≡ 0
behind-filled xs ys e = omega (arith, length-append xs ys, ap length e)

-- A leader with the longer log, and k + 1 as the next index of a host that has k entries, both logs
-- numbered without a gap and the host's term not ahead: the leader's request, handled, is defined and a
-- success, and leaves the host with its own k entries, whatever their terms and contents are, and behind
-- them the leader's; it reports the last index of the leader.
pub on_append_entries-unchecked :
    (t u : Timer) (r : RemoteHost) (l f : Consensus)
    → IsIndexed 0 l.log.memory_log
    → IsIndexed 0 f.log.memory_log
    → length f.log.memory_log < length l.log.memory_log
    → r.next_index ≡ some (length f.log.memory_log + 1)
    → f.current_term ≤ l.current_term
    → (req : AppendEntriesRequest) × (f' : Consensus) × (resp : AppendEntriesResponse)
      × (append_entries_request r l ≡ some req)
      × (on_append_entries t u req f ≡ some (f', resp))
      × (resp.success ≡ true)
      × (f'.log.memory_log ≡ f.log.memory_log ++ drop (length f.log.memory_log) l.log.memory_log)
      × (resp.last_log_index ≡ some (length l.log.memory_log))
on_append_entries-unchecked t u r l f hl hf more next term =
    let k = length f.log.memory_log in
    let es = drop k l.log.memory_log in
    let whole = length-drop-add k l.log.memory_log (omega arith) in
    let kept : LogManager = record (f.log) { memory_log = f.log.memory_log ++ es } in
    let filled : kept.memory_log ≢ [] =
      λ none. absurd (omega (arith, whole, behind-filled f.log.memory_log es none)) in
    let (m, advanced, same) =
      advance_commit-defined (get_last_commit_index l.log) kept (inr filled) in
    let put : store_entries k (sent k l.log) f.log ≡ some (kept, true) =
      rw (sent-behind l.log f.log hl hf more)
        (store_entries-behind l.log f.log hl hf more es refl) in
    let (f', resp, e, success, log, last) =
      handled t u (request k l) f kept m term put advanced (inr (rw same filled)) in
    let entries : f'.log.memory_log ≡ kept.memory_log =
      ap (λ (n : LogManager). n.memory_log) log ∙ same in
    let size : length kept.memory_log ≡ length l.log.memory_log =
      omega (arith, length-append f.log.memory_log es, whole) in
    (
      request k l,
      f',
      resp,
      request_lem r l k next,
      e,
      success,
      entries,
      last ∙ ap some (get_last_log_index-length m (rw same numbered) ∙ rw same size),
    )
  where
    numbered : IsIndexed 0 (f.log.memory_log ++ drop (length f.log.memory_log) l.log.memory_log)
    numbered =
        IsIndexed-append 0 f.log.memory_log _ hf
          (IsIndexed-drop (length f.log.memory_log) 0 l.log.memory_log hl)
