-- ===== src/Fs/Names.antt =====
-- The callbacks that change names on the device: `adbnc_mkdir`, `adbnc_rename`, `adbnc_rmdir`,
-- `adbnc_unlink` and `adbnc_utimens`.
pub mod Effects
use adbncfs.Prelude.{
  ℕ, zero, suc, ◌+◌, ◌-◌, ◌*◌, ◌/◌, ◌%◌, ◌^◌, ◌≤◌, ◌<◌, ◌≡◌, refl, sym, ap, ◌∙◌, fun_ext, ◌≢◌, ◌↔◌,
  ◌⊎◌, inl, inr, Bool, true, false, not, ◌&&◌, ◌||◌, Option, none, some, List, [], ◌∷◌, ◌++◌, map,
  append-nil, append_assoc, arith, ltb, leb, ◌==◌, ==_iff, ==_refl, ltb→lt, lt→ltb, leb→le, tests,
  if◌then◌else◌, Bool-cases, Option-cases, length, get_elem?, take, drop, is_empty, length-append,
  length-drop, All, All-append, Text, codes, text_eq, text_eq_iff, text_eq_refl, starts_with,
  contains, is_delim,
}
use adbncfs.Prelude.Int.{ℤ, pos}
use adbncfs.Path.{make_local_path}
use adbncfs.FileStatus.{is_pending_open, pending_open_renamed}
use adbncfs.Fs.State.{Env, State, M, Result, ok, pure, gets, on_world, ◌>>=◌, ◌>>◌}
use adbncfs.Fs.Shell.{adbnc_shell}
use adbncfs.Fs.Stat.{quoted}
use adbncfs.Fs.Files.{cache_invalidate, set_status, local_path}

module _ (env : Env) where
  open env use {World, sys_unlink}

  -- `adbnc_mkdir`
  unfoldable pub adbnc_mkdir : Text → M World ℤ
  adbnc_mkdir path = do
    cache_invalidate path
    adbnc_shell env (codes "mkdir " ++ quoted path)
    pure (pos 0)

  -- `adbnc_rmdir`
  unfoldable pub adbnc_rmdir : Text → M World ℤ
  adbnc_rmdir path = do
    cache_invalidate path
    adbnc_shell env (codes "rmdir " ++ quoted path)
    pure (pos 0)

  -- `adbnc_unlink`
  unfoldable pub adbnc_unlink : Text → M World ℤ
  adbnc_unlink path = do
    cache_invalidate path
    local ← local_path path
    on_world (sys_unlink local)
    adbnc_shell env (codes "rm " ++ quoted path)
    pure (pos 0)

  -- `adbnc_utimens`
  unfoldable pub adbnc_utimens : Text → M World ℤ
  adbnc_utimens path = do
    cache_invalidate path
    adbnc_shell env (codes "touch \"" ++ path ++ codes "\"")
    pure (pos 0)

  -- An open file keeps its local copy, under the old name.
  unfoldable pub transfer_pending : Text → Text → M World (Unit {0})
  transfer_pending from to = do
    pending ← gets (λ s. is_pending_open s.file_status from)
    local ← local_path from
    if pending then set_status (λ m. pending_open_renamed m to local) else pure tt

  -- `adbnc_rename`
  unfoldable pub adbnc_rename : Text → Text → M World ℤ
  unfolding transfer_pending
  adbnc_rename from to = do
    adbnc_shell env (codes "mv " ++ quoted from ++ codes " " ++ quoted to)
    cache_invalidate to
    cache_invalidate from
    transfer_pending from to
    pure (pos 0)
