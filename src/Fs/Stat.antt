-- ===== src/Fs/Stat.antt =====
-- `doStat`: the attributes of a file on the device, from the cache or from the device.
pub mod Lines
use adbncfs.Prelude.{
  ℕ, zero, suc, ◌+◌, ◌-◌, ◌*◌, ◌/◌, ◌%◌, ◌^◌, ◌≤◌, ◌<◌, ◌≡◌, refl, sym, ap, ◌∙◌, fun_ext, ◌≢◌, ◌↔◌,
  ◌⊎◌, inl, inr, Bool, true, false, not, ◌&&◌, ◌||◌, Option, none, some, List, [], ◌∷◌, ◌++◌, map,
  append-nil, append_assoc, arith, ltb, leb, ◌==◌, ==_iff, ==_refl, ltb→lt, lt→ltb, leb→le, tests,
  if◌then◌else◌, Bool-cases, Option-cases, length, get_elem?, take, drop, is_empty, length-append,
  length-drop, All, All-append, Text, codes, text_eq, text_eq_iff, text_eq_refl, starts_with,
  contains, is_delim,
}
use adbncfs.Prelude.Int.{ℤ, pos, neg}
use adbncfs.Strings.Tokens.{tokenize}
use adbncfs.FileCache.{get_stat, put_stat}
use adbncfs.Fs.State.{Env, State, M, Result, ok, fault, continue, pure, ◌>>=◌, ◌>>◌, enoent}
use adbncfs.Fs.Shell.{adbnc_shell}

-- A path in single quotes. A quote in the path ends the quotes: nothing is escaped.
abbrev pub quoted : Text → Text
quoted path = codes "'" ++ path ++ codes "'"

-- The first line, with all lines behind it, the first line once more among them, if there are
-- several: the loop begins at the first line, to which it appends.
unfoldable pub append_lines : Text → List Text → Text
append_lines front [] = front
append_lines front (line ∷ lines) = append_lines (front ++ line) lines

unfoldable pub stat_line : Text → List Text → Text
unfolding append_lines
stat_line line [] = line
stat_line line (next ∷ lines) = append_lines (line ++ line) (next ∷ lines)

-- Tokens are taken off the front while there are more than 15.
unfoldable pub last_15 : List Text → List Text
last_15 ts = drop (length ts - 15) ts

-- What `doStat` returns, and the tokens that it leaves in `*pOutputTokens`.
unfoldable pub stat_result : List Text → ℤ × List Text
unfolding stat_line last_15 tokenize
stat_result [] = (neg enoent, [])
stat_result (line ∷ lines) =
    let ts = tokenize (stat_line line lines) in
    if ltb (length ts) 13 then (neg enoent, ts) else (pos 0, last_15 ts)

-- With NULL for `pOutputTokens` the tokens are not looked at.
unfoldable pub exists_result : List Text → ℤ
exists_result [] = neg enoent
exists_result (line ∷ lines) = pos 0

module _ (env : Env) where
  open env use {World, time}

  -- The output of `stat -t` from the device, which is put into the cache.
  unfoldable pub fetch_stat : Text → M World (List Text)
  unfolding adbnc_shell
  fetch_stat path s =
      let (r, s') = adbnc_shell env (codes "stat -t " ++ quoted path) s in
      continue r
        (λ output t.
          (ok output, record t { file_cache = put_stat (time t.world) t.file_cache path output }))
        s'

  -- The output from the cache, or else from the device.
  unfoldable pub stat_output : Text → M World (List Text)
  stat_output path s = elim (get_stat (time s.world) s.file_cache path) [
    | some output ↦ (ok output, s)
    | none ↦ fetch_stat path s
  ]

  -- `doStat(pcPath, &tokens)` and `doStat(pcPath)`
  unfoldable pub do_stat : Text → M World (ℤ × List Text)
  do_stat path = do output ← stat_output path; pure (stat_result output)

  unfoldable pub do_stat_exists : Text → M World ℤ
  do_stat_exists path = do output ← stat_output path; pure (exists_result output)
