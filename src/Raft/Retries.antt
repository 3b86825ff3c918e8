-- ===== src/Raft/Retries.antt =====
-- The loop of `RemoteHostLoop` over the answers of a host that stores nothing.
use raftfs.Prelude.{
  ℕ, zero, suc, ◌+◌, ◌-◌, ◌≤◌, ◌<◌, ◌≡◌, refl, ◌∙◌, false, List, [], ◌∷◌, map, Option, some, arith,
  ◌==◌, ◌>>=◌, if◌then◌else◌, get_elem?,
}
use raftfs.Protocol.{AppendEntriesResponse}
use raftfs.Raft.{RemoteHost, Consensus, Timer, reset_next_index}
use raftfs.Raft.Remote.{append_entries_request, on_append_entries_response, backed_off}

-- A refusal that comes back in the term of the leader, with any index in it.
abbrev pub Refuses : ℕ → AppendEntriesResponse → Type 0
Refuses term resp = (resp.term ≡ term) × (resp.success ≡ false)

-- n rounds for the remote host at position k; `answers m` comes in the round after which m are left.
pub refused_rounds : ℕ → Timer → ℕ → (ℕ → AppendEntriesResponse) → Consensus → Option Consensus
refused_rounds zero t k answers s = some s
refused_rounds (suc n) t k answers s = do
  r ← get_elem? s.remotes k
  req ← append_entries_request r s
  s' ← on_append_entries_response t r.id req (answers n) s
  refused_rounds n t k answers s'

get_elem?-map :
    (f : RemoteHost → RemoteHost) (rs : List RemoteHost) (k : ℕ) (r : RemoteHost)
    → get_elem? rs k ≡ some r
    → get_elem? (map f rs) k ≡ some (f r)
get_elem?-map f [] k r e = cc
get_elem?-map f (x ∷ rs) zero r e = ground arith
get_elem?-map f (x ∷ rs) (suc k) r e = get_elem?-map f rs k r e

abbrev step_back : ℕ → ℕ → RemoteHost → RemoteHost
step_back id next r = if r.id == id then reset_next_index next r else r

-- One round: the host's next index steps back, and nothing else changes.
round :
    (t : Timer) (k next : ℕ) (r : RemoteHost) (s : Consensus)
    → get_elem? s.remotes k ≡ some r
    → r.next_index ≡ some next
    → (s' : Consensus) × ((answers : ℕ → AppendEntriesResponse) (n : ℕ)
        → Refuses s.current_term (answers n)
        → refused_rounds (suc n) t k answers s ≡ refused_rounds n t k answers s')
      × (get_elem? s'.remotes k ≡ some (record r { next_index = some (backed_off (next - 1)) }))
      × (s' ≡ record s { remotes = map (step_back r.id (backed_off (next - 1))) s.remotes })
unfolding refused_rounds append_entries_request on_append_entries_response reset_next_index
round t k next r s at set =
    let back = backed_off (next - 1) in
    (
      record s { remotes = map (step_back r.id back) s.remotes },
      (λ answers n refused. ground (arith, at, set, refused)),
      ground (arith, get_elem?-map (step_back r.id back) s.remotes k r at),
      refl,
    )

-- A remote host whose next index is n + 1 at most, and whose answers are refusals with the term in which
-- the leader is: after n rounds, each of which is defined, its next index is 1, so that the next request
-- begins with the first entry. The rounds change nothing but next indexes.
pub refused_rounds-first :
    (n : ℕ) (t : Timer) (k next : ℕ) (r : RemoteHost) (answers : ℕ → AppendEntriesResponse)
    (s : Consensus)
    → get_elem? s.remotes k ≡ some r
    → r.next_index ≡ some next
    → 1 ≤ next
    → next ≤ n + 1
    → ((m : ℕ) → m < n → Refuses s.current_term (answers m))
    → (s' : Consensus) × (refused_rounds n t k answers s ≡ some s')
      × (get_elem? s'.remotes k ≡ some (record r { next_index = some 1 }))
      × (s' ≡ record s { remotes = s'.remotes })
unfolding refused_rounds
refused_rounds-first zero t k next r answers s at set pos le refused =
    let one : next ≡ 1 = omega arith in (s, refl, ground arith, refl)
refused_rounds-first (suc n) t k next r answers s at set pos le refused =
    let (s1, runs, at1, same1) = round t k next r s at set in
    let same_term : s1.current_term ≡ s.current_term = rw same1 refl in
    let (s', rest, at', same') =
      refused_rounds-first n t k (backed_off (next - 1)) _ answers s1 at1 refl (ground arith)
        (ground arith) (λ m lt. rw same_term (refused m (omega arith))) in
    (s', runs answers n (refused n (omega arith)) ∙ rest, at', ground (arith, same1, same'))
