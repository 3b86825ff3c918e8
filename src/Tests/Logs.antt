-- ===== src/Tests/Logs.antt =====
-- The log at three entries.
use raftfs.Prelude.{◌≡◌, ◌<◌, ◌↔◌, refl, arith, [], ◌∷◌, none, some, true}
use raftfs.Protocol.{Entry}
use raftfs.Log.{LogManager, append_entries}
use raftfs.Log.Append.{Agrees}
use raftfs.Log.Refine.{append_entries-refines, append_entries-undefined}
use raftfs.Log.Replicate.{append_entries_again}
use raftfs.Tests.Data.{
  make_a, make_b, make_c, three_entries, three_entries-IsIndexed, two_entries-IsIndexed,
  third-IsIndexed, log_with,
}

abbrev short_log : LogManager
short_log = log_with (make_a ∷ make_b ∷ []) 1

abbrev whole_log : LogManager
whole_log = log_with three_entries 1

appends : append_entries (make_c ∷ []) short_log ≡ some (whole_log, true)
unfolding append_entries
appends = refl

third-Agrees : Agrees (make_c ∷ []) short_log.memory_log
third-Agrees = ((λ e. cc, (λ e. cc, tt)), tt)

append_entries-refines_example :
    (whole_log.memory_log ≡ three_entries)
    × (whole_log.last_commited_index ≡ short_log.last_commited_index)
append_entries-refines_example =
    append_entries-refines short_log 2 make_c [] two_entries-IsIndexed third-IsIndexed (omega arith)
      whole_log third-Agrees appends

append_entries-undefined_example :
    (append_entries (make_b ∷ make_c ∷ []) short_log ≡ none)
    ↔ ((1 < 2) × (2 < 3) × ((x : Entry) × (some make_b ≡ some x) × (1 ≡ x.term)))
append_entries-undefined_example =
    append_entries-undefined short_log 1 make_b (make_c ∷ []) two_entries-IsIndexed
      (refl, (refl, tt)) (omega arith)

append_entries_again_example :
    append_entries (make_a ∷ []) whole_log ≡ some (log_with (make_a ∷ []) 1, true)
append_entries_again_example =
    append_entries_again whole_log 0 1 three_entries-IsIndexed (omega arith) (omega arith)
