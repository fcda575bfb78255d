-- ===== src/MountInfo/Parse.antt =====
-- `parseMountInfo` reads back what `busybox mount` prints.
use adbncfs.Prelude.{◌≡◌, refl, ◌∙◌, some, List, [], ◌∷◌, ◌++◌, arith, All, Text, codes}
use adbncfs.Strings.Tokens.Join.{IsWord, join, tokens-join, tokens_end, strtok-word, strtok_last}
use adbncfs.MountInfo.{
  Entry, blank, blank_delim, parse_dev_type, parse_type, parse_mount_point, parse_on, parse_words,
  parse_mount_info,
}

-- A line of `busybox mount`: `fs on point type dev (option,option)`.
abbrev pub option_text : List Text → Text
option_text os = join b',' os ++ b')' ∷ []

abbrev pub mount_line : Entry → Text
mount_line e =
    e.file_system
    ++ 32
      ∷ (codes "on"
          ++ 32
            ∷ (e.mount_point
                ++ 32 ∷ (codes "type" ++ 32 ∷ (e.dev_type ++ 32 ∷ (b'(' ∷ option_text e.options)))))

-- What the parser needs of a mount: no space in a word, and no comma or parenthesis in an option.
pub record IsPrintable (e : Entry) : Type 0 where
  pub file_system : IsWord blank_delim e.file_system
  pub mount_point : IsWord blank_delim e.mount_point
  pub dev_type : IsWord blank_delim e.dev_type
  pub options : All (IsWord (codes ",)")) e.options
  pub open_paren : IsWord (codes "(") (option_text e.options)

on_word : IsWord blank_delim (codes "on")
on_word = (cc, ground arith)

type_word : IsWord blank_delim (codes "type")
type_word = (cc, ground arith)

dev_type_lem :
    (e : Entry) (t os : Text)
    → IsWord blank_delim t
    → IsWord (codes "(") os
    → parse_dev_type e (t ++ 32 ∷ (b'(' ∷ os))
      ≡ record { entry = record e { dev_type = t }; pch = some os; save = [] }
unfolding parse_dev_type
dev_type_lem e t os h k =
    ground (
      arith,
      strtok-word blank_delim t 32 (b'(' ∷ os) h refl,
      strtok_last (codes "(") b'(' os k refl,
    )

type_lem : (e : Entry) (s : Text) → parse_type e (codes "type" ++ 32 ∷ s) ≡ parse_dev_type e s
unfolding parse_type
type_lem e s = rw (strtok-word blank_delim (codes "type") 32 s type_word refl)

mount_point_lem :
    (e : Entry) (t s : Text)
    → IsWord blank_delim t
    → parse_mount_point e (t ++ 32 ∷ s) ≡ parse_type (record e { mount_point = t }) s
unfolding parse_mount_point
mount_point_lem e t s h = ground (arith, strtok-word blank_delim t 32 s h refl)

on_lem : (e : Entry) (s : Text) → parse_on e (codes "on" ++ 32 ∷ s) ≡ parse_mount_point e s
unfolding parse_on
on_lem e s = rw (strtok-word blank_delim (codes "on") 32 s on_word refl)

words_lem :
    (t s : Text)
    → IsWord blank_delim t
    → parse_words (t ++ 32 ∷ s) ≡ parse_on (record blank { file_system = t }) s
unfolding parse_words
words_lem t s h = ground (arith, strtok-word blank_delim t 32 s h refl)

-- parseMountInfo reads all fields of a mount back from the line that busybox mount prints for it, if
-- the device, the mount point and the type are not empty and without a space, and each option is not
-- empty and without a comma or a parenthesis.
pub parse_mount_info-mount_line : (e : Entry) → IsPrintable e → parse_mount_info (mount_line e) ≡ e
unfolding parse_mount_info
parse_mount_info-mount_line e h =
    let os = option_text e.options in
    let s3 = e.dev_type ++ 32 ∷ (b'(' ∷ os) in
    let s2 = e.mount_point ++ 32 ∷ (codes "type" ++ 32 ∷ s3) in
    let e1 = record blank { file_system = e.file_system } in
    let e2 = record e1 { mount_point = e.mount_point } in
    let read : parse_words (mount_line e)
        ≡ record { entry = record e2 { dev_type = e.dev_type }; pch = some os; save = [] } =
      words_lem e.file_system (codes "on" ++ 32 ∷ s2) h.file_system
      ∙ on_lem e1 s2
      ∙ mount_point_lem e1 e.mount_point (codes "type" ++ 32 ∷ s3) h.mount_point
      ∙ type_lem e2 s3
      ∙ dev_type_lem e2 e.dev_type os h.dev_type h.open_paren in
    rw read (
      rw (
        tokens_end (codes ",)") (join b',' e.options) b')' refl,
        tokens-join (codes ",)") b',' e.options refl h.options,
      ))
