-- ===== src/Tests/Data.antt =====
-- Entries, logs and servers that the tests share.
use raftfs.Prelude.{ℕ, refl, List, [], ◌∷◌, none, some, codes, pos}
use raftfs.Protocol.{Text, MetaOp, mkdir, create, Entry}
use raftfs.Log.{LogManager}
use raftfs.Log.Indexed.{IsIndexed}
use raftfs.Raft.{Consensus, Timer, Role}

abbrev pub entry : ℕ → ℕ → MetaOp → Text → Entry
entry t i op path = record { term = t; index = i; op = op; value = path }

abbrev pub make_a : Entry
make_a = entry 1 1 mkdir (codes "/a")

abbrev pub make_b : Entry
make_b = entry 1 2 create (codes "/a/b")

abbrev pub make_c : Entry
make_c = entry 2 3 mkdir (codes "/c")

abbrev pub three_entries : List Entry
three_entries = make_a ∷ make_b ∷ make_c ∷ []

abbrev pub three_entries-IsIndexed : IsIndexed 0 three_entries
three_entries-IsIndexed = (refl, (refl, (refl, tt)))

abbrev pub two_entries-IsIndexed : IsIndexed 0 (make_a ∷ make_b ∷ [])
two_entries-IsIndexed = (refl, (refl, tt))

abbrev pub third-IsIndexed : IsIndexed 2 (make_c ∷ [])
third-IsIndexed = (refl, tt)

abbrev pub log_with : List Entry → ℕ → LogManager
log_with es commit = record { memory_log = es; last_commited_index = commit }

abbrev pub timer : Timer
timer = record { now = 100; delay = 700 }

-- Server 1 of three, in term 2.
abbrev pub server : Role → LogManager → Consensus
server role log = record {
  self_id = 1;
  remotes = record { id = 2; next_index = some 3 } ∷ record { id = 3; next_index = some 4 } ∷ [];
  current_term = 2;
  vote_for = λ k. none;
  vote_pool = [];
  quorum_size = 2;
  leader_id = pos 1;
  current_role = role;
  next_election = 50;
  log = log;
  pending_entries = λ k. [];
}
