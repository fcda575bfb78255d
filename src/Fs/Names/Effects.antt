-- ===== src/Fs/Names/Effects.antt =====
-- What `adbnc_rename` does to the cache and to the status of open files.
use adbncfs.Prelude.{
  ◌≡◌, refl, ap, ◌∙◌, inl, inr, ◌&&◌, ◌||◌, none, arith, if◌then◌else◌, Bool-cases, Text, text_eq,
}
use adbncfs.Prelude.Int.{pos}
use adbncfs.Prelude.Dict.{find}
use adbncfs.Path.{make_local_path}
use adbncfs.FileCache.{invalidate}
use adbncfs.FileCache.History.{find-invalidate}
use adbncfs.FileStatus.{FileStatus, is_pending_open, set_renamed, pending_open_renamed}
use adbncfs.FileStatus.History.{at, at-change}
use adbncfs.Fs.State.{Env, State, ok, ◌>>=◌}
use adbncfs.Fs.Shell.{exec_command_via_net_cat, adbnc_shell}
use adbncfs.Fs.Names.{transfer_pending, adbnc_rename}

module _ (env : Env) where
  open env use {World}

  -- What `adbnc_rename` leaves behind.
  abbrev after_rename : Text → Text → State World → State World
  after_rename from to s = (adbnc_rename env from to s).1

  rename_ok : (from to : Text) (s : State World) → (adbnc_rename env from to s).0 ≡ ok (pos 0)
  unfolding adbnc_rename adbnc_shell exec_command_via_net_cat transfer_pending
  rename_ok from to s = elim (Bool-cases (is_pending_open s.file_status from)) [
    | inl e ↦ rw (e, ◌>>=◌) refl
    | inr e ↦ rw (e, ◌>>=◌) refl
  ]

  rename_cache :
      (from to : Text) (s : State World)
      → (after_rename from to s).file_cache ≡ invalidate (invalidate s.file_cache to) from
  unfolding adbnc_rename adbnc_shell exec_command_via_net_cat transfer_pending is_pending_open
      invalidate find
  rename_cache from to s = elim (Bool-cases (is_pending_open s.file_status from)) [
    | inl e ↦ rw (e, ◌>>=◌) refl
    | inr e ↦ rw (e, ◌>>=◌) refl
  ]

  rename_status :
      (from to : Text) (s : State World)
      → (after_rename from to s).file_status ≡ (
          if is_pending_open s.file_status from
          then pending_open_renamed s.file_status to (make_local_path s.temp_dir from)
          else s.file_status)
  unfolding adbnc_rename adbnc_shell exec_command_via_net_cat transfer_pending pending_open_renamed
      is_pending_open find
  rename_status from to s = elim (Bool-cases (is_pending_open s.file_status from)) [
    | inl e ↦ rw (e, ◌>>=◌) refl
    | inr e ↦ rw (e, ◌>>=◌) refl
  ]

  at-pending_open_renamed :
      (m : FileStatus) (q local path : Text)
      → at (pending_open_renamed m q local) path
        ≡ (if text_eq q path then set_renamed (at m path) local else at m path)
  unfolding pending_open_renamed
  at-pending_open_renamed m q local path = at-change m q (λ e. set_renamed e local) path

  renamed_view :
      (from to p : Text) (s : State World)
      → at (after_rename from to s).file_status p ≡ (
          if is_pending_open s.file_status from && text_eq to p
          then set_renamed (at s.file_status p) (make_local_path s.temp_dir from)
          else at s.file_status p)
  renamed_view from to p s =
      ap (λ m. at m p) (rename_status from to s)
      ∙ elim (Bool-cases (is_pending_open s.file_status from)) [
        | inl e ↦
            rw e (at-pending_open_renamed s.file_status to (make_local_path s.temp_dir from) p)
        | inr e ↦ rw e refl
      ]

  -- A rename returns 0 whatever the device says. It takes the two paths out of the cache and leaves
  -- every other path in it, those below the old name too. If the old path is pending, the status of
  -- the new path becomes pending with the local copy of the old one, while its mark for writing stays
  -- what it was, and every other path keeps its status, the old one too.
  pub adbnc_rename_effects :
      (from to p : Text) (s : State World)
      → (u : State World) × (adbnc_rename env from to s ≡ (ok (pos 0), u))
        × (find u.file_cache p
            ≡ (if text_eq from p || text_eq to p then none else find s.file_cache p))
        × (at u.file_status p ≡ (
            if is_pending_open s.file_status from && text_eq to p
            then set_renamed (at s.file_status p) (make_local_path s.temp_dir from)
            else at s.file_status p))
  adbnc_rename_effects from to p s = (
    after_rename from to s,
    ap (λ r. (r, after_rename from to s)) (rename_ok from to s),
    ap (λ c. find c p) (rename_cache from to s)
        ∙ ground (
          arith,
          find-invalidate (invalidate s.file_cache to) from p,
          find-invalidate s.file_cache to p,
        ),
    renamed_view from to p s,
  )
