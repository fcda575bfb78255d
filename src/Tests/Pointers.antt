-- ===== src/Tests/Pointers.antt =====
-- Runs of the cache on the heap.
use adbncfs.Prelude.{refl, some, none, text_eq, if◌then◌else◌, ◌≡◌, List, [], ◌∷◌, codes}
use adbncfs.FileCache.History.{Event, run}
use adbncfs.FileCache.History
use adbncfs.Prelude.Dict.{find, put}
use adbncfs.FileCache.Pointers.Lifetime.{put_stat_at-lifetime}
use adbncfs.FileCache.Pointers.{EntryObject, put_stat_at, run_at}
use adbncfs.FileCache.Pointers.Owned.{IsOwned, run_at-IsOwned}
use adbncfs.FileCache.Pointers.Refinement.{cache_of, run_at-run}

abbrev calls : List Event
calls =
    History.link_put 7 (codes "/b") (codes "c" ∷ [])
    ∷ History.stat_put 5 (codes "/b") (codes "2" ∷ [])
    ∷ History.invalidated (codes "/a")
    ∷ History.stat_put 3 (codes "/a") (codes "1" ∷ [])
    ∷ []

run_at-IsOwned_example : IsOwned (run_at calls)
run_at-IsOwned_example = run_at-IsOwned calls

run_at-run_example : cache_of (run_at calls) ≡ run calls
run_at-run_example = run_at-run calls

abbrev one_call : List Event
one_call = History.stat_put 3 (codes "/a") (codes "1" ∷ []) ∷ []

-- The entry has its list behind pointer 1: pointer 0 was that of the entry that it was copied from.
abbrev entry : EntryObject
entry = record { time = 3; p_stat_output = some 1; p_read_link_output = none }

entry_found : find (run_at one_call).entries (codes "/a") ≡ some entry
unfolding run_at put_stat_at find put text_eq
entry_found = refl

put_stat_at-lifetime_example :
    (put_stat_at 9 (run_at one_call) (codes "/a") (codes "2" ∷ [])).heap.cell 1
    ≡ (if text_eq (codes "/a") (codes "/a") then none else (run_at one_call).heap.cell 1)
put_stat_at-lifetime_example =
    put_stat_at-lifetime 9 (run_at one_call) (codes "/a") (codes "/a") (codes "2" ∷ []) entry 1
      (run_at-IsOwned one_call) entry_found refl
