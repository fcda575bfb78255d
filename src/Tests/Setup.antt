-- ===== src/Tests/Setup.antt =====
-- Runs of what reads the outputs of `adb devices` and `df`.
use adbncfs.Prelude.{◌≡◌, refl, some, List, [], ◌∷◌, arith, All, Text, codes}
use adbncfs.Prelude.Int.{pos}
use adbncfs.Strings.Numbers.{stoul}
use adbncfs.Strings.Tokens.Join.{IsWord}
use adbncfs.Strings.Tokens.Padded.{IsColumn}
use adbncfs.Fs.State.{ok}
use adbncfs.Fs.Stat.Lines.{blanks}
use adbncfs.Fs.Space.{zero_statvfs, fill_blocks, fill_inodes, df_result}
use adbncfs.Fs.Space.Numbers.{df_result-line}

abbrev header : Text
header = codes "List of devices attached"

-- `tmpfs      100   35      65   0% /dev`
abbrev tail : List (Text × Text)
tail = (codes "   ", codes "0%") ∷ (codes " ", codes "/dev") ∷ []

abbrev total : Text × Text
total = (codes "      ", codes "100")

abbrev used : Text × Text
used = (codes "   ", codes "35")

abbrev free : Text × Text
free = (codes "      ", codes "65")

name-IsWord : IsWord blanks (codes "tmpfs")
name-IsWord = ground arith

columns-IsColumn : All (IsColumn blanks) (total ∷ used ∷ free ∷ tail)
columns-IsColumn = ground arith

total_read : stoul (codes "100") ≡ some 100
unfolding stoul
total_read = refl

free_read : stoul (codes "65") ≡ some 65
unfolding stoul
free_read = refl

abbrev line : Text
line = codes "tmpfs      100   35      65   0% /dev"

df_result-line_example :
    (df_result fill_blocks zero_statvfs (header ∷ line ∷ [])
      ≡ ok (
        pos 0,
        record zero_statvfs {
          f_bsize = 4096;
          f_frsize = 4096;
          f_blocks = 100;
          f_bfree = 65;
          f_bavail = 65;
        },
      ))
    × (df_result fill_inodes zero_statvfs (header ∷ line ∷ [])
        ≡ ok (pos 0, record zero_statvfs { f_files = 100; f_ffree = 65; f_favail = 65 }))
df_result-line_example =
    df_result-line (codes "tmpfs") total used free tail 100 65 name-IsWord columns-IsColumn
      (omega arith) total_read free_read header [] zero_statvfs
