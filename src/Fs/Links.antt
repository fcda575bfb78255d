-- ===== src/Fs/Links.antt =====
-- `adbnc_readlink`: the target of a link, relative to the directory of the link.
pub mod Resolving
use adbncfs.Prelude.{
  ℕ, zero, suc, ◌+◌, ◌-◌, ◌*◌, ◌/◌, ◌%◌, ◌^◌, ◌≤◌, ◌<◌, ◌≡◌, refl, sym, ap, ◌∙◌, fun_ext, ◌≢◌, ◌↔◌,
  ◌⊎◌, inl, inr, Bool, true, false, not, ◌&&◌, ◌||◌, Option, none, some, List, [], ◌∷◌, ◌++◌, map,
  append-nil, append_assoc, arith, ltb, leb, ◌==◌, ==_iff, ==_refl, ltb→lt, lt→ltb, leb→le, tests,
  if◌then◌else◌, Bool-cases, Option-cases, length, get_elem?, take, drop, is_empty, length-append,
  length-drop, All, All-append, Text, codes, text_eq, text_eq_iff, text_eq_refl, starts_with,
  contains, is_delim,
}
use adbncfs.Prelude.Int.{ℤ, pos, neg}
use adbncfs.Path.{slash}
use adbncfs.FileCache.{get_read_link, put_read_link}
use adbncfs.Fs.State.{Env, State, M, Result, ok, continue, pure, ◌>>=◌, enoent, enosys}
use adbncfs.Fs.Shell.{adbnc_shell}
use adbncfs.Fs.Stat.{quoted}

-- The number of slashes in a path; the source counts from -1, so `iDepth` is one less.
unfoldable pub slashes : Text → ℕ
slashes [] = 0
slashes (c ∷ s) = if c == slash then suc (slashes s) else slashes s

-- `while (iDepth > 0) { strRes.insert(0, "../"); iDepth--; }`
unfoldable pub go_up : ℕ → Text → Text
go_up zero target = target
go_up (suc depth) target = go_up depth (codes "../" ++ target)

-- An absolute target becomes relative; another is taken as it is.
unfoldable pub relative_target : Text → Text → Text
unfolding slashes go_up
relative_target path [] = []
relative_target path (c ∷ s) = if c == slash then go_up (slashes path - 1) s else c ∷ s

-- What is copied into a buffer of so many bytes; the byte 0 behind the target is not shown.
unfoldable pub copy_target : Text → ℕ → ℤ × Option Text
copy_target target size =
    if leb size (length target) then (neg enosys, none) else (pos 0, some target)

unfoldable pub link_result : Text → ℕ → List Text → ℤ × Option Text
unfolding relative_target copy_target
link_result path size [] = (neg enoent, none)
link_result path size (line ∷ lines) = copy_target (relative_target path line) size

module _ (env : Env) where
  open env use {World, time}

  unfoldable pub fetch_link : Text → M World (List Text)
  fetch_link path s =
      let (r, s') = adbnc_shell env (codes "readlink -f " ++ quoted path) s in
      continue r
        (λ output t. (
          ok output,
          record t { file_cache = put_read_link (time t.world) t.file_cache path output },
        ))
        s'

  unfoldable pub link_output : Text → M World (List Text)
  link_output path s = elim (get_read_link (time s.world) s.file_cache path) [
    | some output ↦ (ok output, s)
    | none ↦ fetch_link path s
  ]

  -- `adbnc_readlink`: the result, and what is put into the buffer.
  unfoldable pub adbnc_readlink : Text → ℕ → M World (ℤ × Option Text)
  unfolding link_output link_result
  adbnc_readlink path size = do output ← link_output path; pure (link_result path size output)
