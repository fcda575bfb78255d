-- ===== src/UserInfo/Parse.antt =====
-- `parseUserInfoString` reads back what `busybox id` prints.
use adbncfs.Prelude.{◌≡◌, refl, ◌∙◌, some, List, [], ◌∷◌, ◌++◌, map, arith, All, Text, codes}
use adbncfs.Strings.Numbers.{atoi}
use adbncfs.Strings.Tokens.Join.{IsWord, join, tokens-join, strtok-word}
use adbncfs.UserInfo.{
  UserInfo, equal_delim, is_token, parse_gid_value, parse_gid, parse_uid_value, parse_ids,
  parse_user_info,
}

-- A line of `busybox id`: the digits of the user, of the group, and of each further group.
abbrev pub id_line : Text → Text → List Text → Text
id_line u g gs =
    codes "uid"
    ++ b'='
      ∷ (u ++ 32 ∷ (codes "gid" ++ b'=' ∷ (g ++ 32 ∷ (codes "groups" ++ b'=' ∷ join b',' gs))))

uid_word : IsWord equal_delim (codes "uid")
uid_word = (cc, ground arith)

gid_word : IsWord equal_delim (codes "gid")
gid_word = (cc, ground arith)

groups_word : IsWord equal_delim (codes "groups")
groups_word = (cc, ground arith)

gid_value :
    (info : UserInfo) (g r : Text)
    → IsWord equal_delim g
    → parse_gid_value info (g ++ 32 ∷ (codes "groups" ++ b'=' ∷ r))
      ≡ record { info = record info { gid = atoi g }; pch = some (codes "groups"); save = r }
unfolding parse_gid_value
gid_value info g r h = ground (
  arith,
  strtok-word equal_delim g 32 (codes "groups" ++ b'=' ∷ r) h refl,
  strtok-word equal_delim (codes "groups") b'=' r groups_word refl,
)

gid_lem :
    (info : UserInfo) (s : Text) → parse_gid info (codes "gid" ++ b'=' ∷ s) ≡ parse_gid_value info s
unfolding parse_gid
gid_lem info s = rw (strtok-word equal_delim (codes "gid") b'=' s gid_word refl)

uid_value :
    (info : UserInfo) (u s : Text)
    → IsWord equal_delim u
    → parse_uid_value info (u ++ 32 ∷ s) ≡ parse_gid (record info { uid = atoi u }) s
unfolding parse_uid_value
uid_value info u s h = ground (arith, strtok-word equal_delim u 32 s h refl)

ids_lem :
    (info : UserInfo) (s : Text) → parse_ids info (codes "uid" ++ b'=' ∷ s) ≡ parse_uid_value info s
unfolding parse_ids
ids_lem info s = rw (strtok-word equal_delim (codes "uid") b'=' s uid_word refl)

-- What is read of a line: the two ids, and the text behind `groups=`.
ids-id_line :
    (info : UserInfo) (u g : Text) (gs : List Text)
    → IsWord equal_delim u
    → IsWord equal_delim g
    → parse_ids info (id_line u g gs) ≡ record {
      info = record info { uid = atoi u; gid = atoi g };
      pch = some (codes "groups");
      save = join b',' gs;
    }
ids-id_line info u g gs hu hg =
    let r = codes "groups" ++ b'=' ∷ join b',' gs in
    let s = codes "gid" ++ b'=' ∷ (g ++ 32 ∷ r) in
    ids_lem info (u ++ 32 ∷ s)
    ∙ uid_value info u s hu
    ∙ gid_lem (record info { uid = atoi u }) (g ++ 32 ∷ r)
    ∙ gid_value (record info { uid = atoi u }) g (join b',' gs) hg

-- Every id is read, whatever the members held before.
pub parse_user_info-id_line :
    (memory : UserInfo) (u g : Text) (gs : List Text)
    → IsWord equal_delim u
    → IsWord equal_delim g
    → All (IsWord (codes ",")) gs
    → parse_user_info memory (id_line u g gs)
      ≡ record { uid = atoi u; gid = atoi g; groups = map atoi gs }
unfolding parse_user_info is_token
parse_user_info-id_line memory u g gs hu hg hs =
    rw (ids-id_line (record memory { groups = [] }) u g gs hu hg)
      (rw (tokens-join (codes ",") b',' gs refl hs))
