-- ===== src/Tests/Rounds.antt =====
-- A round of `FSUpdateLoop` in which the commit index moves from 1 to 2 while the first entry is applied.
use raftfs.Prelude.{ℕ, ◌+◌, ◌≤◌, ◌<◌, ◌≡◌, refl, arith, leb, if◌then◌else◌, get_elem?}
use raftfs.Log.{get_entry, get_last_commit_index}
use raftfs.Log.Entries.{get_entry-get_elem?}
use raftfs.Raft.{Consensus, follower}
use raftfs.Namespace.{empty_namespace}
use raftfs.Apply.{can_apply}
use raftfs.Apply.Replay.{replay}
use raftfs.Apply.Interleaved.{Reads, Ends, update_fs_between, update_fs_between-replay}
use raftfs.Tests.Data.{three_entries, three_entries-IsIndexed, log_with, server}
use raftfs.Tests.Paths.{split}
use raftfs.Tests.Applying.{clock}

abbrev moving : ℕ → Consensus
moving i = server follower (log_with three_entries (if leb i 1 then 1 else 2))

abbrev reads : Reads
reads = record { bound = moving; test = moving; entry = moving }

limit : (i : ℕ) → get_last_commit_index (reads.bound i).log ≤ 2
unfolding get_last_commit_index
limit i = ground arith

entries : (i : ℕ) → i < 2 → get_entry (i + 1) (reads.entry (i + 1)).log ≡ get_elem? three_entries i
entries i h = get_entry-get_elem? (reads.entry (i + 1)).log i three_entries-IsIndexed

update_fs_between-replay_example :
    (m : ℕ) × (0 < m)
    × (m ≤ 2)
    × (update_fs_between split clock reads 3 empty_namespace ≡ replay split clock three_entries m)
    × Ends split clock reads three_entries m
unfolding empty_namespace get_last_commit_index can_apply
update_fs_between-replay_example =
    update_fs_between-replay split clock reads three_entries 2 limit entries (omega arith) 3
      empty_namespace refl (omega arith) (omega arith) refl
