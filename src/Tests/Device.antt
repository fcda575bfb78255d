-- ===== src/Tests/Device.antt =====
-- Runs of the callbacks on the device of `World`, and of what they make of its output.
use adbncfs.Prelude.{
  ℕ, suc, ◌+◌, ◌≤◌, ◌≡◌, refl, ◌&&◌, ◌||◌, none, List, [], ◌∷◌, ◌++◌, arith, if◌then◌else◌, length,
  All, Text, codes, text_eq, starts_with, contains,
}
use adbncfs.Prelude.Int.{pos}
use adbncfs.Prelude.Dict.{find}
use adbncfs.Path.{slash, make_local_path}
use adbncfs.Path.Parent.{IsName}
use adbncfs.Strings.Tokens.{tokenize}
use adbncfs.Strings.Tokens.Join.{IsWord, join}
use adbncfs.FileStatus.{is_pending_open, set_renamed}
use adbncfs.FileStatus.History.{at}
use adbncfs.MountInfo.Lookup.{directory}
use adbncfs.Fs.State.{State, ok}
use adbncfs.Fs.Shell.Framing.{IsMarking}
use adbncfs.Fs.Stat.{stat_result}
use adbncfs.Fs.Stat.Lines.{blanks, stat_result_fields}
use adbncfs.Fs.Links.{relative_target, link_result}
use adbncfs.Fs.Links.Resolving.{Leads, relative_target-Leads, link_result_fits}
use adbncfs.Fs.Names.{adbnc_rename}
use adbncfs.Fs.Names.Effects.{adbnc_rename_effects}
use adbncfs.Tests.World.{answer, env, start}

pub env-IsMarking : IsMarking env (λ c w. (answer ∷ [], suc w))
unfolding contains starts_with
env-IsMarking c w = (refl, (refl, tt))

abbrev numbers : List Text
numbers =
    codes "1"
    ∷ codes "2"
    ∷ codes "81a4"
    ∷ codes "0"
    ∷ codes "0"
    ∷ codes "5"
    ∷ codes "6"
    ∷ codes "7"
    ∷ codes "8"
    ∷ codes "9"
    ∷ codes "10"
    ∷ codes "11"
    ∷ codes "12"
    ∷ codes "13"
    ∷ []

numbers-IsWord : All (IsWord blanks) numbers
numbers-IsWord = ground arith

stat_result_fields_example :
    (t : Text) × (stat_result ((codes "a") ∷ (codes "b c" ++ 32 ∷ join 32 numbers) ∷ [])
      ≡ (pos 0, t ∷ numbers))
unfolding tokenize
stat_result_fields_example =
    stat_result_fields (codes "a" ∷ []) (codes "b c") numbers numbers-IsWord refl (omega arith)

abbrev link : List Text
link = codes "l" ∷ codes "d" ∷ []

link-IsName : All IsName link
link-IsName = ((cc, ground arith), ((cc, ground arith), tt))

relative_target-Leads_example :
    Leads
      (codes "d" ∷ [])
      (relative_target (directory link) (slash ∷ codes "etc/x"))
      []
      (codes "etc/x")
relative_target-Leads_example =
    relative_target-Leads (codes "l") (codes "d" ∷ []) (codes "etc/x") link-IsName

link_result_fits_example :
    (length (codes "y") + 1 ≤ 2) × ((link_result (codes "/d/l") 2 (codes "y" ∷ [])).0 ≡ pos 0)
unfolding link_result
link_result_fits_example = link_result_fits (codes "/d/l") 2 (codes "y" ∷ []) (codes "y") refl

adbnc_rename_effects_example :
    (u : State ℕ) × (adbnc_rename env (codes "/a") (codes "/b") start ≡ (ok (pos 0), u))
    × (find u.file_cache (codes "/a/c") ≡ (
        if text_eq (codes "/a") (codes "/a/c") || text_eq (codes "/b") (codes "/a/c")
        then none
        else find start.file_cache (codes "/a/c")))
    × (at u.file_status (codes "/a/c") ≡ (
        if is_pending_open start.file_status (codes "/a") && text_eq (codes "/b") (codes "/a/c")
        then set_renamed
            (at start.file_status (codes "/a/c"))
            (make_local_path start.temp_dir (codes "/a"))
        else at start.file_status (codes "/a/c")))
adbnc_rename_effects_example =
    adbnc_rename_effects env (codes "/a") (codes "/b") (codes "/a/c") start
