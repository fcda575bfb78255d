-- ===== src/Session/Changed.antt =====
-- What a program that changes a file through the file system sees of its attributes afterwards.
use adbncfs.Prelude.{
  ℕ, ◌≡◌, refl, sym, ap, ◌∙◌, ◌≢◌, inl, inr, Bool, true, false, List, [], ◌∷◌, ◌++◌, arith,
  if◌then◌else◌, Bool-cases, All, Text, text_eq, text_eq_iff, text_eq_refl,
}
use adbncfs.Prelude.Int.{ℤ, pos}
use adbncfs.Path.{slash, parent}
use adbncfs.Path.Parent.{above, parent-append, length-above, length-name, shorter-ne}
use adbncfs.MountInfo.Lookup.{directory, above_cons}
use adbncfs.FileStatus.{is_pending_open}
use adbncfs.Fs.State.{Env, State, M, Result, ok, pure, ◌>>=◌}
use adbncfs.Fs.Attributes.{Stat, adbnc_getattr}
use adbncfs.Fs.Files.{adbnc_fsync, adbnc_flush, adbnc_truncate, adbnc_mknod}
use adbncfs.Fs.Names.{adbnc_mkdir, adbnc_rmdir, adbnc_unlink, adbnc_utimens, adbnc_rename}
use adbncfs.Main.Inversion.{continue_inv}
use adbncfs.Session.{
  Request, statfs, opendir, readdir, releasedir, getattr, access, open_file, flush, fsync, release,
  read, write, utimens, truncate, mknod, mkdir, rename, rmdir, unlink, readlink, Reply, status,
  serve,
}
use adbncfs.Session.Faultless.{IsPath}
use adbncfs.Session.Reaches.{IsForgotten, Reaches, Drops}
use adbncfs.Session.Flushed.{adbnc_flush-forgets}
use adbncfs.Session.Forgets.{
  asked, getattr-asked, HasErrno, adbnc_mkdir-forgets, adbnc_rmdir-forgets, adbnc_unlink-forgets,
  adbnc_utimens-forgets, adbnc_rename-forgets, adbnc_truncate-forgets, adbnc_mknod-forgets,
  adbnc_fsync-forgets,
}

-- Only a file is open: its path is not that of the root.
abbrev pub IsOfFile : Request → Type 0
IsOfFile (flush path fi) = IsPath path × (path ≢ slash ∷ [])
IsOfFile _ = Unit

-- The paths whose attributes a request changes when it is answered with 0, on the device or, for a
-- truncation, in the local copy; a file that is not pending is not pushed.
abbrev pub changed : {W : Type 0} → State W → Request → List Text
changed s (mkdir path) = path ∷ []
changed s (rmdir path) = path ∷ []
changed s (unlink path) = path ∷ []
changed s (utimens path) = path ∷ []
changed s (rename from to) = from ∷ to ∷ []
changed s (truncate path size) = path ∷ []
changed s (mknod path mode rdev) = path ∷ []
changed s (flush path fi) = if is_pending_open s.file_status path then path ∷ [] else []
changed s (fsync path fi) = if is_pending_open s.file_status path then path ∷ [] else []
changed s _ = []

parent_apart : (path : Text) → IsPath path → path ≢ slash ∷ [] → text_eq (parent path) path ≡ false
parent_apart path ([], h, e) n = absurd (n (sym e))
parent_apart path (c ∷ cs, h, e) n = elim (Bool-cases (text_eq (parent path) path)) [
  | inr f ↦ f
  | inl t ↦
      let same : parent path ≡ path = (text_eq_iff (parent path) path).0 t in
      let whole : directory cs ++ slash ∷ c ≡ path = sym (above_cons (directory cs) c) ∙ e in
      let up : above (directory cs) ≡ directory cs ++ slash ∷ c =
        sym (parent-append (directory cs) c h.0).0 ∙ ap parent whole ∙ same ∙ sym whole in
      absurd (
        shorter-ne (above (directory cs)) (directory cs ++ slash ∷ c)
          (omega (arith, length-above (directory cs), length-name (directory cs) c h.0)) up)
]

All-if :
    (P : Text → Type 0) (b : Bool) (path : Text)
    → (b ≡ true → P path)
    → All P (if b then path ∷ [] else [])
All-if P true path h = (h refl, tt)
All-if P false path h = tt

module _ (env : Env) {B : Type 0} (filler : B → Text → Stat → ℕ → B × Bool) (fresh : B) where
  open env use {World}

  reply_inv :
      (p : M World ℤ) (s t : State World)
      → (p >>= λ r. pure {A = Reply B} (status r)) s ≡ (ok (status (pos 0)), t)
      → p s ≡ (ok (pos 0), t)
  reply_inv p s t e =
      let (a, u, f, g) =
        continue_inv (p s) (λ r. pure {A = Reply B} (status r)) t (status (pos 0)) e in
      let value : a ≡ pos 0 = cc in
      let state : u ≡ t = ap (λ (q : Result (Reply B) × State World). q.1) g in
      f ∙ ap (λ x. (ok x, u)) value ∙ ap (λ v. (ok (pos 0), v)) state

  dropped :
      (path : Text) (p : M World ℤ) (s t : State World)
      → Reaches (Drops path) p
      → (p >>= λ r. pure {A = Reply B} (status r)) s ≡ (ok (status (pos 0)), t)
      → IsForgotten path t
  dropped path p s t h e = h.at s t (pos 0) (reply_inv p s t e) refl

  serve-forgets :
      (request : Request) (s t : State World)
      → HasErrno env
      → IsOfFile request
      → serve env filler fresh request s ≡ (ok (status (pos 0)), t)
      → All (λ path. IsForgotten path t) (changed s request)
  unfolding serve
  serve-forgets (mkdir path) s t h q e =
      (dropped path (adbnc_mkdir env path) s t (adbnc_mkdir-forgets env path) e, tt)
  serve-forgets (rmdir path) s t h q e =
      (dropped path (adbnc_rmdir env path) s t (adbnc_rmdir-forgets env path) e, tt)
  serve-forgets (unlink path) s t h q e =
      (dropped path (adbnc_unlink env path) s t (adbnc_unlink-forgets env path) e, tt)
  serve-forgets (utimens path) s t h q e =
      (dropped path (adbnc_utimens env path) s t (adbnc_utimens-forgets env path) e, tt)
  serve-forgets (rename from to) s t h q e = (
    dropped from (adbnc_rename env from to) s t
        (adbnc_rename-forgets env from to from (ground (arith, text_eq_refl from))) e,
    (
      dropped to (adbnc_rename env from to) s t
          (adbnc_rename-forgets env from to to (ground (arith, text_eq_refl to))) e,
      tt,
    ),
  )
  serve-forgets (truncate path size) s t h q e = (
    dropped path (adbnc_truncate env path size) s t (adbnc_truncate-forgets env path size h) e,
    tt,
  )
  serve-forgets (mknod path mode rdev) s t h q e = (
    dropped path (adbnc_mknod env path mode rdev) s t (adbnc_mknod-forgets env path mode rdev h) e,
    tt,
  )
  serve-forgets (flush path fi) s t h (q, n) e =
      All-if _ (is_pending_open s.file_status path) path (λ p.
        adbnc_flush-forgets env path fi s t h (parent_apart path q n) p
          (reply_inv (adbnc_flush env path fi) s t e))
  serve-forgets (fsync path fi) s t h q e =
      All-if _ (is_pending_open s.file_status path) path
        (λ p. adbnc_fsync-forgets env path fi s t h p (reply_inv (adbnc_fsync env path fi) s t e))
  serve-forgets (statfs path) s t h q e = tt
  serve-forgets (opendir path) s t h q e = tt
  serve-forgets (readdir path offset) s t h q e = tt
  serve-forgets (releasedir path) s t h q e = tt
  serve-forgets (getattr path) s t h q e = tt
  serve-forgets (access path mask) s t h q e = tt
  serve-forgets (open_file path fi) s t h q e = tt
  serve-forgets (release path fi) s t h q e = tt
  serve-forgets (read path size offset fi) s t h q e = tt
  serve-forgets (write path contents offset fi) s t h q e = tt
  serve-forgets (readlink path size) s t h q e = tt

  All-map :
      {P Q : Text → Type 0} (paths : List Text)
      → ((path : Text) → P path → Q path)
      → All P paths
      → All Q paths
  All-map [] f h = tt
  All-map (path ∷ paths) f h = (f path h.0, All-map paths f h.1)

  -- After mkdir, rmdir, unlink, utimens, rename, truncate or mknod, or after flush or fsync of a file
  -- that is pending, answered with 0, adbnc_getattr asks the device for the attributes of the paths
  -- that the request names, and does not take them from the cache, if failing calls of the host set
  -- errno, and a file that is flushed has an absolute path other than the root.
  pub serve-asked :
      (request : Request) (s t : State World)
      → HasErrno env
      → IsOfFile request
      → serve env filler fresh request s ≡ (ok (status (pos 0)), t)
      → All (λ path. (adbnc_getattr env path t).0 ≡ asked env path t) (changed s request)
  serve-asked request s t h q e =
      All-map (changed s request) (λ path f. getattr-asked env path t f)
        (serve-forgets request s t h q e)
