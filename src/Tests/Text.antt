-- ===== src/Tests/Text.antt =====
-- Runs of the functions on text: tokens, paths, and the outputs of `id`, `stat` and `readlink`.
use adbncfs.Prelude.{◌↔◌, map, zero, ◌≡◌, ◌↔◌, ◌⊎◌, [], ◌∷◌, ◌++◌, map, arith, Text, codes}
use adbncfs.Prelude.Int.{pos}
use adbncfs.Path.{make_local_path, slash, string_replacer, parent}
use adbncfs.Path.Parent.{above, parent-append}
use adbncfs.Path.Replace.{replace_all, string_replacer-replace_all, flat, make_local_path-same_iff}
use adbncfs.Strings.Tokens.{token_loop}
use adbncfs.Strings.Tokens.Scan.{words, token_loop-words}
use adbncfs.Strings.Tokens.Join.{IsWord}
use adbncfs.Strings.Numbers.{atoi}
use adbncfs.UserInfo.{UserInfo, access, parse_user_info, eacces, equal_delim}
use adbncfs.UserInfo.Access.{class_bits, access_iff}
use adbncfs.UserInfo.Parse.{id_line, parse_user_info-id_line}
use adbncfs.Bits.{Covers}

abbrev comma : Text
comma = codes ","

uid_word : IsWord equal_delim (codes "0(root)")
uid_word = (cc, ground arith)

gid_word : IsWord comma (codes "1015(sdcard_rw)")
gid_word = (cc, ground arith)

token_loop-words_example : token_loop comma 6 (codes ",a,,b") ≡ words comma [] (codes ",a,,b")
token_loop-words_example = token_loop-words comma 6 (codes ",a,,b") (omega arith)

parent-append_example :
    (parent (codes "/sdcard" ++ slash ∷ codes "x") ≡ above (codes "/sdcard"))
    × (parent ((codes "/sdcard" ++ slash ∷ codes "x") ++ slash ∷ []) ≡ above (codes "/sdcard"))
parent-append_example = parent-append (codes "/sdcard") (codes "x") (cc, ground arith)

string_replacer-replace_all_example :
    string_replacer (codes "/a/b") (slash ∷ []) (codes "-")
    ≡ replace_all slash [] (codes "-") zero (codes "/a/b")
string_replacer-replace_all_example =
    string_replacer-replace_all slash [] (codes "-") (codes "/a/b")

make_local_path-same_iff_example :
    (make_local_path (codes "/tmp/x") (codes "/a/b")
      ≡ make_local_path (codes "/tmp/x") (codes "/a-b"))
    ↔ (map flat (codes "/a/b") ≡ map flat (codes "/a-b"))
make_local_path-same_iff_example =
    make_local_path-same_iff (codes "/tmp/x") (codes "/a/b") (codes "/a-b")

-- root, in the group of the SD card
abbrev root : UserInfo
root = record { uid = pos 0; gid = pos 0; groups = pos 1015 ∷ [] }

-- A file of root that only its group may write: root may not.
access_iff_example :
    ((access root (pos 0) (pos 1015) 36 2 ≡ 0) ↔ Covers (class_bits root (pos 0) (pos 1015) 36) 2)
    × ((access root (pos 0) (pos 1015) 36 2 ≡ 0) ⊎ (access root (pos 0) (pos 1015) 36 2 ≡ eacces))
access_iff_example = access_iff root (pos 0) (pos 1015) 36 2 (omega arith)

parse_user_info-id_line_example :
    parse_user_info root
      (id_line (codes "0(root)") (codes "0(root)") (codes "1015(sdcard_rw)" ∷ []))
    ≡ record {
      uid = atoi (codes "0(root)");
      gid = atoi (codes "0(root)");
      groups = map atoi (codes "1015(sdcard_rw)" ∷ []);
    }
parse_user_info-id_line_example =
    parse_user_info-id_line root (codes "0(root)") (codes "0(root)") (codes "1015(sdcard_rw)" ∷ [])
      uid_word uid_word (gid_word, tt)
