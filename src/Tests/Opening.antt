-- ===== src/Tests/Opening.antt =====
-- Runs of `adbnc_open`, on the device of `World`.
use adbncfs.Prelude.{ℕ, ◌≡◌, refl, true, false, [], ◌∷◌, Text, codes, starts_with, contains}
use adbncfs.Prelude.Int.{pos}
use adbncfs.Prelude.Dict.{find}
use adbncfs.FileCache.{put_stat, get_stat}
use adbncfs.FileStatus.{is_pending_open}
use adbncfs.Fs.State.{Env, State, ok, ◌>>◌}
use adbncfs.Fs.Shell.{read_output, exec_command_via_net_cat, adbnc_shell}
use adbncfs.Fs.Stat.{do_stat_exists, stat_output, fetch_stat, exists_result}
use adbncfs.Fs.Files.{FileInfo, adbnc_flush, adbnc_truncate}
use adbncfs.Fs.Files.Truncating.{cut_state, adbnc_truncate-flush}
use adbncfs.Tests.World.{answer, env, start}

abbrev handle : FileInfo
handle = record { fh = pos 0; flags = 2 }

abbrev path : Text
path = codes "/d/a"

-- A host that has every file.
abbrev full : Env
full = record env { exists_file = λ p w. true }

-- Behind the question for the file.
abbrev asked : State ℕ
asked = record start { world = 1; file_cache = put_stat 1 [] path (answer ∷ []) }

file_known : do_stat_exists env path start ≡ (ok (pos 0), asked)
unfolding do_stat_exists stat_output fetch_stat exists_result get_stat find adbnc_shell
    exec_command_via_net_cat read_output contains starts_with
file_known = refl

not_pending : is_pending_open asked.file_status path ≡ false
unfolding is_pending_open find
not_pending = refl

adbnc_truncate-flush_example :
    (adbnc_truncate env path 0 >> adbnc_flush env path handle) start
    ≡ (ok (pos 0), cut_state env path 1 asked)
adbnc_truncate-flush_example =
    adbnc_truncate-flush env path 0 handle start asked 1 1 file_known refl refl not_pending
