-- ===== src/Session/Names.antt =====
-- The callbacks on names, links and space in a session.
use adbncfs.Prelude.{
  ℕ, ◌≡◌, refl, ◌⊎◌, inl, inr, Option, List, [], ◌∷◌, ◌++◌, Text, codes, text_eq, text_eq_iff,
}
use adbncfs.Prelude.Int.{ℤ, pos, is_ok}
use adbncfs.Path.{slash}
use adbncfs.MountInfo.{MountInfo}
use adbncfs.UserInfo.{UserInfo}
use adbncfs.Fs.State.{Env, ok, pure}
use adbncfs.Fs.Shell.{adbnc_shell}
use adbncfs.Fs.Shell.Framing.{IsMarking}
use adbncfs.Fs.Stat.{quoted}
use adbncfs.Fs.Links.{link_output, link_result, adbnc_readlink}
use adbncfs.Fs.Names.{
  adbnc_mkdir, adbnc_rmdir, adbnc_unlink, adbnc_utimens, transfer_pending, adbnc_rename,
}
use adbncfs.Fs.Space.{
  Statvfs, zero_statvfs, fill_blocks, fill_inodes, df_result, block_info, inode_info, adbnc_statfs,
}
use adbncfs.Session.Sound.{Printed, PrintedLink}
use adbncfs.Session.Ensures.{
  Ensures, Serves, Ensures-pure, Ensures-if, Ensures-bind, Ensures-implies, Ensures-reply,
  Ensures-after,
}
use adbncfs.Session.Kept.{adbnc_shell-Printed, link_output-PrintedLink}
use adbncfs.Session.Faultless.{fill_blocks-Returns, fill_inodes-Returns}
use adbncfs.Session.Answers.{Measures}
use adbncfs.Session.Calls.{call_rules}

module _ (env : Env) (command : Text → env.World → List Text × env.World) (first : env.World)
    (u : Option UserInfo) (m : Option MountInfo) (marks : IsMarking env command) where
  open env use {World}

  abbrev Succeeds : ℤ → Type 0
  Succeeds r = r ≡ pos 0

  Succeeds-zero : Ensures env command first u m Succeeds (pure (pos 0))
  Succeeds-zero = Ensures-pure env command first u m (pos 0) refl

  ruleset succeeds_rules = (call_rules, Ensures-after, Succeeds-zero)

  pub adbnc_mkdir-Ensures :
      (path : Text) → Ensures env command first u m Succeeds (adbnc_mkdir env path)
  unfolding adbnc_mkdir
  adbnc_mkdir-Ensures path = search succeeds_rules depth 9

  pub adbnc_rmdir-Ensures :
      (path : Text) → Ensures env command first u m Succeeds (adbnc_rmdir env path)
  unfolding adbnc_rmdir
  adbnc_rmdir-Ensures path = search succeeds_rules depth 9

  pub adbnc_utimens-Ensures :
      (path : Text) → Ensures env command first u m Succeeds (adbnc_utimens env path)
  unfolding adbnc_utimens
  adbnc_utimens-Ensures path = search succeeds_rules depth 9

  pub adbnc_unlink-Ensures :
      (path : Text) → Ensures env command first u m Succeeds (adbnc_unlink env path)
  unfolding adbnc_unlink
  adbnc_unlink-Ensures path = search succeeds_rules depth 12

  transfer_pending-Serves :
      (from to : Text) → Serves env command first u m (transfer_pending env from to)
  unfolding transfer_pending
  transfer_pending-Serves from to = search call_rules depth 9

  pub adbnc_rename-Ensures :
      (from to : Text) → Ensures env command first u m Succeeds (adbnc_rename env from to)
  unfolding adbnc_rename
  adbnc_rename-Ensures from to = search (succeeds_rules, transfer_pending-Serves) depth 12

  pub adbnc_readlink-Ensures :
      (path : Text) (size : ℕ)
      → Ensures env command first u m
          (λ r.
            (output : List Text) × PrintedLink env command first path output
            × (link_result path size output ≡ r))
          (adbnc_readlink env path size)
  unfolding adbnc_readlink
  adbnc_readlink-Ensures path size =
      Ensures-reply env command first u m (link_output env path) (link_result path size)
        (link_output-PrintedLink env command first u m marks path) (λ output q. (output, q, refl))

  block_info-Reads :
      (path : Text) (b : Statvfs)
      → Ensures env command first u m
          (λ r.
            (output : List Text) × Printed env command first
              (codes "df -P -B 4096 " ++ quoted path)
              output
            × (df_result fill_blocks b output ≡ ok r))
          (block_info env path b)
  unfolding block_info
  block_info-Reads path b =
      Ensures-bind env command first u m (adbnc_shell env (codes "df -P -B 4096 " ++ quoted path)) _
        (adbnc_shell-Printed env command first u m marks (codes "df -P -B 4096 " ++ quoted path))
        λ output q.
          let (r, f) = fill_blocks-Returns b output in
          record { at = λ s h. (r, s, rw f refl, h, (output, q, f)) }

  inode_info-Reads :
      (path : Text) (b : Statvfs)
      → Ensures env command first u m
          (λ r.
            (lines : List Text) × Printed env command first (codes "df -P -i " ++ quoted path) lines
            × (n : ℤ × Statvfs) × (df_result fill_inodes b lines ≡ ok n)
            × (r ≡ (n.0, record n.1 { f_namemax = 1024 })))
          (inode_info env path b)
  unfolding inode_info
  inode_info-Reads path b =
      Ensures-bind env command first u m (adbnc_shell env (codes "df -P -i " ++ quoted path)) _
        (adbnc_shell-Printed env command first u m marks (codes "df -P -i " ++ quoted path))
        λ lines q.
          let (n, f) = fill_inodes-Returns b lines in
          record { at = λ s h. (_, s, rw f refl, h, (lines, q, n, f, refl)) }

  pub adbnc_statfs-Measures :
      (path : Text)
      → Ensures env command first u m
          (λ r.
            ((path ≡ slash ∷ []) × (r ≡ (pos 0, zero_statvfs))) ⊎ Measures env command first path r)
          (adbnc_statfs env path)
  unfolding adbnc_statfs
  adbnc_statfs-Measures path =
      Ensures-if env command first u m (text_eq path (slash ∷ [])) _ _
        (λ e.
          Ensures-pure env command first u m _ (inl ((text_eq_iff path (slash ∷ [])).0 e, refl)))
        (λ e.
          Ensures-bind env command first u m (block_info env path zero_statvfs) _
            (block_info-Reads path zero_statvfs)
            λ b (output, q, f).
              Ensures-if env command first u m (is_ok b.0) _ _
                (λ t.
                  Ensures-implies env command first u m _ (inode_info-Reads path b.1)
                    (λ r (lines, p, n, g, e). inr (output, q, b, f, inr (t, lines, p, n, g, e))))
                (λ t. Ensures-pure env command first u m _ (inr (output, q, b, f, inl (t, refl)))))
