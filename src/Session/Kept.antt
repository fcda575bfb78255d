-- ===== src/Session/Kept.antt =====
-- What the calls that the callbacks are made from keep: commands, the cache, the status of the files
-- and programs of the host.
use adbncfs.Prelude.{◌≡◌, refl, inl, inr, Bool, Option, List, ◌++◌, Option-cases, Text, codes}
use adbncfs.Prelude.Int.{ℤ}
use adbncfs.FileCache.{get_stat, get_read_link}
use adbncfs.FileStatus.{FileStatus}
use adbncfs.UserInfo.{UserInfo}
use adbncfs.MountInfo.{MountInfo}
use adbncfs.Fs.State.{Env}
use adbncfs.Fs.Shell.{adbnc_shell}
use adbncfs.Fs.Shell.Framing.{IsMarking, exec_command_lem}
use adbncfs.Fs.Program.{exec_prog}
use adbncfs.Fs.Stat.{
  quoted, stat_output, fetch_stat, do_stat, do_stat_exists, stat_result, exists_result,
}
use adbncfs.Fs.Links.{link_output, fetch_link}
use adbncfs.Fs.Files.{cache_invalidate, set_status}
use adbncfs.Session.Sound.{
  Printed, PrintedStat, PrintedLink, Holds-world, Holds-quiet, Holds-cache, spawned, ran,
}
use adbncfs.Session.Ensures.{Ensures, Serves, Ensures-modify, Ensures-bind, Ensures-reply}
use adbncfs.Session.Cached.{
  invalidate-AllGenuine, put_stat-AllGenuine, put_read_link-AllGenuine, get_stat-PrintedStat,
  get_read_link-PrintedLink,
}

module _ (env : Env) (command : Text → env.World → List Text × env.World) (first : env.World) where
  open env use {World}

  module _ (u : Option UserInfo) (m : Option MountInfo) where
    -- A command of the device prints its own lines.
    pub adbnc_shell-Printed :
        IsMarking env command
        → (c : Text)
        → Ensures env command first u m (Printed env command first c) (adbnc_shell env c)
    unfolding adbnc_shell
    adbnc_shell-Printed marks c = record {
      at = λ s h. (
        _,
        _,
        exec_command_lem env command marks (codes "busybox " ++ c) s h.quiet,
        Holds-world env command first u m (Holds-quiet env command first u m h) _
            (ran (codes "busybox " ++ c) s.world h.later),
        (s.world, h.later, refl),
      );
    }

    pub cache_invalidate-Serves :
        (path : Text) → Serves env command first u m (cache_invalidate path)
    cache_invalidate-Serves path = Ensures-modify env command first u m _ λ s h.
        Holds-cache env command first u m h _
          (invalidate-AllGenuine env command first s.file_cache path h.cached)

    pub set_status-Serves :
        (f : FileStatus → FileStatus) → Serves env command first u m (set_status f)
    set_status-Serves f = Ensures-modify env command first u m _ λ s h. h

    pub exec_prog-Serves :
        (argv : List Text) (e : Bool) (r : ℤ)
        → Serves env command first u m (exec_prog env argv e r)
    unfolding exec_prog
    exec_prog-Serves argv e r = record {
      at = λ s h.
          (_, _, refl, Holds-world env command first u m h _ (spawned argv e s.world h.later), tt);
    }

    fetch_stat-PrintedStat :
        IsMarking env command
        → (path : Text)
        → Ensures env command first u m (PrintedStat env command first path) (fetch_stat env path)
    unfolding fetch_stat
    fetch_stat-PrintedStat marks path =
        Ensures-bind env command first u m (adbnc_shell env (codes "stat -t " ++ quoted path)) _
          (adbnc_shell-Printed marks (codes "stat -t " ++ quoted path))
          λ output q. record {
            at = λ s h. (
              output,
              _,
              refl,
              Holds-cache env command first u m h _ (
                  put_stat-AllGenuine env command first (env.time s.world) s.file_cache path output
                    h.cached q),
              q,
            );
          }

    fetch_link-PrintedLink :
        IsMarking env command
        → (path : Text)
        → Ensures env command first u m (PrintedLink env command first path) (fetch_link env path)
    unfolding fetch_link
    fetch_link-PrintedLink marks path =
        Ensures-bind env command first u m (adbnc_shell env (codes "readlink -f " ++ quoted path)) _
          (adbnc_shell-Printed marks (codes "readlink -f " ++ quoted path))
          λ output q. record {
            at = λ s h. (
              output,
              _,
              refl,
              Holds-cache env command first u m h _ (
                  put_read_link-AllGenuine env command first (env.time s.world) s.file_cache path
                    output h.cached q),
              q,
            );
          }

    pub stat_output-PrintedStat :
        IsMarking env command
        → (path : Text)
        → Ensures env command first u m (PrintedStat env command first path) (stat_output env path)
    unfolding stat_output
    stat_output-PrintedStat marks path = record {
      at = λ s h. elim (Option-cases (get_stat (env.time s.world) s.file_cache path)) [
        | inl e ↦ rw (e, stat_output) ((fetch_stat-PrintedStat marks path).at s h)
        | inr (out, e) ↦
            rw (e, stat_output)
              (
                out,
                s,
                refl,
                h,
                get_stat-PrintedStat env command first (env.time s.world) s.file_cache path out
                    h.cached e,
              )
      ];
    }

    pub link_output-PrintedLink :
        IsMarking env command
        → (path : Text)
        → Ensures env command first u m (PrintedLink env command first path) (link_output env path)
    unfolding link_output
    link_output-PrintedLink marks path = record {
      at = λ s h. elim (Option-cases (get_read_link (env.time s.world) s.file_cache path)) [
        | inl e ↦ rw (e, link_output) ((fetch_link-PrintedLink marks path).at s h)
        | inr (out, e) ↦
            rw (e, link_output)
              (
                out,
                s,
                refl,
                h,
                get_read_link-PrintedLink env command first (env.time s.world) s.file_cache path out
                    h.cached e,
              )
      ];
    }

    pub do_stat-PrintedStat :
        IsMarking env command
        → (path : Text)
        → Ensures env command first u m
            (λ found.
              (output : List Text) × PrintedStat env command first path output
              × (stat_result output ≡ found))
            (do_stat env path)
    unfolding do_stat
    do_stat-PrintedStat marks path =
        Ensures-reply env command first u m (stat_output env path) stat_result
          (stat_output-PrintedStat marks path) (λ output q. (output, q, refl))

    pub do_stat_exists-Serves :
        IsMarking env command
        → (path : Text) → Serves env command first u m (do_stat_exists env path)
    unfolding do_stat_exists
    do_stat_exists-Serves marks path =
        Ensures-reply env command first u m (stat_output env path) exists_result
          (stat_output-PrintedStat marks path) (λ output q. tt)
