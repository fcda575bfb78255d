-- ===== src/Tests/Status.antt =====
-- Runs of the two caches.
use adbncfs.Prelude.{
  ℕ, ◌≡◌, ◌≢◌, ◌↔◌, Option, none, some, List, [], ◌∷◌, if◌then◌else◌, is_empty, Text, codes,
}
use adbncfs.Prelude.Int.{ℤ, pos}
use adbncfs.Prelude.Dict.{find}
use adbncfs.FileCache
use adbncfs.FileCache.{get_stat, get_read_link}
use adbncfs.FileCache.History
use adbncfs.FileCache.History.{
  stat_put, link_put, invalidated, last_put, last_stat, last_link, is_fresh, get-run,
  get_stat-put_read_link,
}
use adbncfs.FileStatus.{flush, release}
use adbncfs.FileStatus.History.{Event, written, renamed, dirty, source, run}
use adbncfs.FileStatus.Results.{outcome, flush-run, release_zero_iff}

abbrev path : Text
path = codes "/sdcard/x"

abbrev history : List FileCache.History.Event
history =
    link_put 200 path (codes "/y" ∷ [])
    ∷ invalidated (codes "/z")
    ∷ stat_put 100 path (codes "x 1" ∷ [])
    ∷ []

get-run_example :
    (get_stat 300 (FileCache.History.run history) path
      ≡ (if is_fresh 300 (last_put path history) then last_stat path history else none))
    × (get_read_link 300 (FileCache.History.run history) path
        ≡ (if is_fresh 300 (last_put path history) then last_link path history else none))
get-run_example = get-run 300 history path

-- A push that notes what it pushes and from where, and a close that fails.
abbrev push : Text → Text → List Text → ℤ × List Text
push from to log = (pos 0, from ∷ to ∷ log)

abbrev close : ℤ → List Text → Option ℕ × List Text
close fh log = (some 9, log)

-- A file that is written under another name, renamed and then written again.
abbrev events : List Event
events = written path ∷ renamed path (codes "/tmp/old") ∷ []

flush-run_example : outcome (flush push (run push close [] events) path (codes "/tmp/x") []) ≡ (
    if dirty path events
    then push (if is_empty (source path events) then codes "/tmp/x" else source path events) path []
    else (pos 0, []))
flush-run_example = flush-run push close [] [] events path (codes "/tmp/x")

close-ne-zero : (close (pos 3) []).0 ≢ some 0
close-ne-zero = cc

release_zero_iff_example :
    ((release close (run push close [] events) path (pos 3) []).0 ≡ pos 0) ↔ (
      (find (run push close [] events) path ≡ none)
      × ((release close (run push close [] events) path (pos 3) []).2 ≡ []))
release_zero_iff_example =
    release_zero_iff push close (run push close [] events) path (pos 3) [] close-ne-zero
