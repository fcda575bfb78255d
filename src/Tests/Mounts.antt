-- ===== src/Tests/Mounts.antt =====
-- Runs of the functions on the mounts of a device.
use adbncfs.Prelude.{◌≡◌, refl, ◌↔◌, ◌⊎◌, false, some, List, [], ◌∷◌, arith, All, Text, codes}
use adbncfs.Prelude.Int.{ℤ, pos, neg}
use adbncfs.Bits.{Covers}
use adbncfs.Path.Parent.{IsName}
use adbncfs.Strings.Numbers.{stoul_hex, stoi}
use adbncfs.UserInfo.{UserInfo}
use adbncfs.UserInfo.Access.{class_bits}
use adbncfs.MountInfo.{Entry, MountInfo, parse_mount_info, mount_point}
use adbncfs.MountInfo.Lookup.{path_of, nearest, mount_point-nearest}
use adbncfs.MountInfo.Parse.{mount_line, IsPrintable, parse_mount_info-mount_line}
use adbncfs.Fs.State.{ok, eacces}
use adbncfs.Fs.Access.{Owner, read_owner, access_result}
use adbncfs.Fs.Access.Grants.{mount_refuses, access_result_iff}

abbrev sd_card : Entry
sd_card = record {
  file_system = codes "sdcardfs";
  mount_point = codes "/sdcard";
  dev_type = codes "sdcardfs";
  options = codes "ro" ∷ codes "noexec" ∷ [];
}

-- A device with one mount, which is read-only.
abbrev mounts : MountInfo
mounts = (codes "/sdcard", sd_card) ∷ []

-- /sdcard/x
abbrev names : List Text
names = codes "x" ∷ codes "sdcard" ∷ []

names-IsName : All IsName names
names-IsName = ((cc, ground arith), ((cc, ground arith), tt))

mount_point-nearest_example : mount_point mounts (path_of names) ≡ some (nearest mounts names)
mount_point-nearest_example = mount_point-nearest mounts names names-IsName

sd_card-IsPrintable : IsPrintable sd_card
sd_card-IsPrintable = record {
  file_system = (cc, ground arith);
  mount_point = (cc, ground arith);
  dev_type = (cc, ground arith);
  options = ((cc, ground arith), ((cc, ground arith), tt));
  open_paren = (cc, ground arith);
}

parse_mount_info-mount_line_example : parse_mount_info (mount_line sd_card) ≡ sd_card
parse_mount_info-mount_line_example = parse_mount_info-mount_line sd_card sd_card-IsPrintable

abbrev user : UserInfo
user = record { uid = pos 0; gid = pos 0; groups = [] }

abbrev owner : Owner
owner = record { uid = pos 0; gid = pos 0; mode = 33188 }

-- 0x81a4, 0644 for a regular file
owner_read : read_owner (codes "81a4") (codes "0") (codes "0") ≡ some owner
unfolding read_owner stoul_hex stoi
owner_read = refl

abbrev fields : List Text
fields = codes "x" ∷ codes "1" ∷ codes "8" ∷ codes "81a4" ∷ codes "0" ∷ codes "0" ∷ []

-- Writing to the file of the user is refused, since the mount is read-only.
access_result_iff_example :
    (r : ℤ) × (access_result (some user) (some mounts) (path_of names) 2 (pos 0, fields) ≡ ok r)
    × ((r ≡ pos 0) ↔ (
        Covers (class_bits user owner.uid owner.gid owner.mode) 2
        × (mount_refuses mounts names 2 ≡ false)))
    × ((r ≡ pos 0) ⊎ (r ≡ neg eacces))
access_result_iff_example =
    access_result_iff mounts names names-IsName user owner 2 (codes "x") (codes "1") (codes "8")
      (codes "81a4") (codes "0") (codes "0") [] (omega arith) (omega arith) owner_read
