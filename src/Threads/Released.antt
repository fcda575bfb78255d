-- ===== src/Threads/Released.antt =====
-- `adbnc_readdir` of src/adbncfs.cpp walks over a listing without a mutex.
use adbncfs.Prelude.{ℕ, ◌≡◌, refl, none, some, List, [], ◌∷◌, arith, Text}
use adbncfs.Prelude.Dict.{find, erase}
use adbncfs.Fs.State.{Env, State}
use adbncfs.Threads.{
  Caller, plain, opendir, opening, readdir, Pc, idle, exec_lock, exec_write, exec_read, exec_unlock,
  opendir_lock, opendir_test, opendir_wait, opendir_keep, opendir_unlock, release_lock, release_set,
  release_erase, release_signal, release_clear, release_unlock, open_lock, open_body, reading,
  Shared, resume, keep_output, Move, Threads, update, System, Step, pick, initial, Reach, start,
  later,
}
use adbncfs.Threads

find-erase_same : {V : Type 0} (d : List (Text × V)) (k : Text) → find (erase d k) k ≡ none
unfolding find erase
find-erase_same [] k = refl
find-erase_same ((j, v) ∷ d) k = ground (arith, find-erase_same d k)

module _ (env : Env) where
  open env use {World}

  -- A state in which a thread goes over a listing that is no longer in openDirs.
  pub data Dangling (s : State World) (path : Text) (names : List Text) : Type 0 where
    dangling :
        {t : System env} (i : ℕ)
        → Reach env s t
        → t.pc i ≡ reading path names
        → find t.shared.state.open_dirs path ≡ none
        → Dangling s path names

  -- From any state with an open directory the threads reach a state in which one of them is in the
  -- loop of adbnc_readdir over its listing and openDirs has no listing of it any more.
  pub Reach-Dangling :
      (s : State World) (path : Text) (names : List Text)
      → find s.open_dirs path ≡ some names
      → Dangling s path names
  Reach-Dangling s path names h =
      dangling 0
        (later
          (later
            (later
              (later (later start (pick 0 (Threads.call_readdir path names h)))
                (pick 1 (Threads.call_releasedir path)))
              (pick 1 (Threads.lock_releasedir refl)))
            (pick 1 Threads.set_flag))
          (pick 1 Threads.erase_listing))
        refl (find-erase_same s.open_dirs path)
