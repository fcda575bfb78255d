-- ===== src/Fs/Files/Opening.antt =====
-- When `adbnc_open` pulls a copy from the device.
use adbncfs.Prelude.{zero, suc, ◌≡◌, refl, Bool, true, false, if◌then◌else◌, Text}
use adbncfs.Prelude.Int.{ℤ, pos, negsuc}
use adbncfs.Path.{make_local_path}
use adbncfs.FileStatus.{is_truncated}
use adbncfs.Fs.State.{Env, State, M, Result, ok, fault, pure, gets, ◌>>=◌, when_ok}
use adbncfs.Fs.Stat.{do_stat_exists}
use adbncfs.Fs.Transfer.{adbnc_pull}
use adbncfs.Fs.Files.{FileInfo, fetch_copy, open_copy, prepare_copy, adbnc_open}

module _ (env : Env) (path : Text) where
  open env use {World, exists_file}

  -- `when_ok` of an answer that changes nothing is the answer.
  keep_result :
      (here : World → Bool) (more : M World ℤ) (p : Result ℤ × State World)
      → ((w : World) → here w ≡ true)
      → ((λ (s : State World). p) >>= (λ found.
            gets (λ t. here t.world) >>= (λ h. when_ok found (if h then pure (pos 0) else more))))
          p.1
        ≡ p
  keep_result here more (fault f, t) h = refl
  keep_result here more (ok (pos zero), t) h = rw (h t.world) refl
  keep_result here more (ok (pos (suc n)), t) h = refl
  keep_result here more (ok (negsuc n), t) h = refl

  fetch_copy-host :
      (s : State World)
      → ((w : World) → exists_file path w ≡ true)
      → fetch_copy env path s ≡ do_stat_exists env path s
  unfolding fetch_copy
  fetch_copy-host s h =
      keep_result (exists_file path)
        (gets (λ t. make_local_path t.temp_dir path) >>= adbnc_pull env path)
        (do_stat_exists env path s) h

  -- If the host has a file under the path that the file has on the device, `adbnc_open` pulls
  -- nothing: it opens the local copy, whether there is one or not, once the device knows the file.
  pub adbnc_open-host :
      (fi : FileInfo) (s : State World)
      → ((w : World) → exists_file path w ≡ true)
      → is_truncated s.file_status path ≡ false
      → adbnc_open env path fi s ≡ (do_stat_exists env path >>= open_copy env path fi) s
  unfolding adbnc_open prepare_copy
  adbnc_open-host fi s h e = rw (e, ◌>>=◌, prepare_copy, fetch_copy-host s h) refl

  -- If the host has none, which is the usual case, each `adbnc_open` of a file that the device knows
  -- pulls it again, also over a local copy that is there.
  pub adbnc_open-pull :
      (fi : FileInfo) (s t : State World)
      → ((w : World) → exists_file path w ≡ false)
      → is_truncated s.file_status path ≡ false
      → do_stat_exists env path s ≡ (ok (pos 0), t)
      → adbnc_open env path fi s
        ≡ (adbnc_pull env path (make_local_path t.temp_dir path) >>= open_copy env path fi) t
  unfolding adbnc_open prepare_copy fetch_copy
  adbnc_open-pull fi s t h e f = rw (e, ◌>>=◌, prepare_copy, fetch_copy, f, h t.world) refl
