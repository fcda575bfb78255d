-- ===== src/Session/Directories.antt =====
-- The callbacks on directories in a session, and `adbnc_getattr`, which `adbnc_readdir` calls.
use adbncfs.Prelude.{
  ℕ, suc, ◌+◌, ◌<◌, ◌≡◌, refl, ap, ◌⊎◌, inl, inr, Bool, true, ◌||◌, Option, none, some, List, [],
  ◌∷◌, ◌++◌, arith, ltb, if◌then◌else◌, Bool-cases, Option-cases, is_empty, Text, codes, text_eq,
  text_eq_iff,
}
use mathlib.Core.Path.{subst}
use adbncfs.Prelude.Int.{pos, neg, is_ok}
use adbncfs.Prelude.Dict.{Dict, find, erase, find-erase}
use adbncfs.MountInfo.{MountInfo}
use adbncfs.UserInfo.{UserInfo}
use adbncfs.Fs.State.{Env, M, eio}
use adbncfs.Fs.Shell.{adbnc_shell}
use adbncfs.Fs.Shell.Framing.{IsMarking}
use adbncfs.Fs.Stat.{quoted, do_stat}
use adbncfs.Fs.Attributes.{Stat, adbnc_getattr}
use adbncfs.Fs.Directories.{
  add_listing, entry_path, keep_listing, adbnc_opendir, adbnc_releasedir, put_entry, visit,
  read_entries, read_listing, adbnc_readdir,
}
use adbncfs.Fs.Directories.Sharing.{find-add_listing}
use adbncfs.Session.Sound.{IsComplete, PrintedNames, AllListed, Holds-dirs}
use adbncfs.Session.Ensures.{
  Ensures, Ensures-pure, Ensures-if, Ensures-bind, Ensures-implies, Ensures-reply,
}
use adbncfs.Session.Kept.{adbnc_shell-Printed, do_stat-PrintedStat}
use adbncfs.Session.Faultless.{attr_result-Returns}
use adbncfs.Session.Answers.{Describes, Fills, at_end, passed, gone, listed, full, Lists}

module _ (env : Env) (command : Text → env.World → List Text × env.World) (first : env.World) where
  open env use {World}

  -- A listing that is kept was printed.
  add_listing-AllListed :
      (dirs : Dict (List Text)) (path : Text) (line : Text) (lines : List Text)
      → AllListed env command first dirs
      → PrintedNames env command first path (line ∷ lines)
      → AllListed env command first (add_listing dirs path (line ∷ lines))
  add_listing-AllListed dirs path line lines h q j names e = elim (Bool-cases (text_eq path j)) [
    | inl t ↦
        let same : path ≡ j = (text_eq_iff path j).0 t in
        elim (Option-cases (find dirs j)) [
          | inl n ↦
              let value : line ∷ lines ≡ names =
                ground (arith, find-add_listing dirs path line lines j, e, n, t) in
              subst (λ p. PrintedNames env command first p names) same
                (subst (PrintedNames env command first path) value q)
          | inr (old, n) ↦
              h j names (ground (arith, find-add_listing dirs path line lines j, e, n, t))
        ]
    | inr n ↦ h j names (ground (arith, find-add_listing dirs path line lines j, e, n))
  ]

  erase-AllListed :
      (dirs : Dict (List Text)) (path : Text)
      → AllListed env command first dirs
      → AllListed env command first (erase dirs path)
  erase-AllListed dirs path h j names e = h j names (ground (arith, find-erase dirs path j, e))

  module _ (u : Option UserInfo) (m : Option MountInfo) (marks : IsMarking env command) where
    Serves-keep_listing :
        (path : Text) (output : List Text)
        → PrintedNames env command first path output
        → Ensures env command first u m
            (λ r. r ≡ (if is_empty output then neg eio else pos 0))
            (keep_listing env path output)
    unfolding keep_listing
    Serves-keep_listing path [] q = Ensures-pure env command first u m (neg eio) refl
    Serves-keep_listing path (line ∷ lines) q = record {
      at = λ s h. (
        pos 0,
        _,
        refl,
        Holds-dirs env command first u m h _
            (add_listing-AllListed s.open_dirs path line lines h.listed q),
        refl,
      );
    }

    pub adbnc_opendir-PrintedNames :
        (path : Text)
        → Ensures env command first u m
            (λ r.
              (names : List Text) × PrintedNames env command first path names
              × (r ≡ (if is_empty names then neg eio else pos 0)))
            (adbnc_opendir env path)
    unfolding adbnc_opendir
    adbnc_opendir-PrintedNames path =
        Ensures-bind env command first u m (adbnc_shell env (codes "ls -1a " ++ quoted path)) _
          (adbnc_shell-Printed env command first u m marks (codes "ls -1a " ++ quoted path))
          λ output q.
            Ensures-implies env command first u m _ (Serves-keep_listing path output q)
              (λ r e. (output, q, e))

    pub adbnc_releasedir-Ensures :
        (path : Text) → Ensures env command first u m (λ r. r ≡ pos 0) (adbnc_releasedir env path)
    unfolding adbnc_releasedir
    adbnc_releasedir-Ensures path = record {
      at = λ s h. (
        pos 0,
        _,
        refl,
        Holds-dirs env command first u m h _ (erase-AllListed s.open_dirs path h.listed),
        refl,
      );
    }

    module _ (whole : IsComplete env command first) where
      pub adbnc_getattr-Describes :
          (path : Text)
          → Ensures env command first u m
              (Describes env command first path)
              (adbnc_getattr env path)
      unfolding adbnc_getattr do_stat
      adbnc_getattr-Describes path =
          Ensures-bind env command first u m (do_stat env path) _
            (do_stat-PrintedStat env command first u m marks path)
            λ found (output, q, e).
              let (r, f) = attr_result-Returns output (whole path output q) in
              record {
                at = λ s h. (
                  r,
                  s,
                  rw (← e, f) refl,
                  h,
                  record { output = output; printed = q; result = f },
                );
              }

      module _ {B : Type 0} (filler : B → Text → Stat → ℕ → B × Bool) (fresh : B) (path : Text)
          (offset : ℕ) where
        passed_by : (i : ℕ) → (ltb i 2 || ltb i offset) ≡ true → (i < 2) ⊎ (i < offset)
        passed_by i e = ground (arith, e)

        visit-Fills :
            (name : Text) (names : List Text) (i : ℕ) (b : B) (rest : B → M World B)
            → ((c : B)
                → Ensures env command first u m
                    (Fills env command first filler fresh path offset names (suc i) c)
                    (rest c))
            → Ensures env command first u m
                (Fills env command first filler fresh path offset (name ∷ names) i b)
                (visit env filler path name (i + 1) b rest)
        unfolding visit put_entry
        visit-Fills name names i b rest h =
            Ensures-bind env command first u m (adbnc_getattr env (entry_path path name)) _
              (adbnc_getattr-Describes (entry_path path name))
              λ r q.
                Ensures-if env command first u m (is_ok r.0) _ _
                  (λ t.
                    Ensures-if env command first u m (filler b name r.1 (i + 1)).1 _ _
                      (λ e. Ensures-pure env command first u m _ (
                        full name names i b _ r q t
                          (ap (λ x. ((filler b name r.1 (i + 1)).0, x)) e)))
                      (λ e. Ensures-implies env command first u m _ (h _) (λ d f.
                        listed name names i b _ d r q t
                          (ap (λ x. ((filler b name r.1 (i + 1)).0, x)) e) f)))
                  (λ t.
                    Ensures-implies env command first u m _ (h b)
                      (λ d f. gone name names i b d r q t f))

        read_entries-Fills :
            (names : List Text) (i : ℕ) (b : B)
            → Ensures env command first u m
                (Fills env command first filler fresh path offset names i b)
                (read_entries env filler path offset names i b)
        unfolding read_entries
        read_entries-Fills [] i b = Ensures-pure env command first u m b (at_end i b)
        read_entries-Fills (name ∷ names) i b =
            Ensures-if env command first u m (ltb i 2 || ltb i offset) _ _
              (λ e.
                Ensures-implies env command first u m _ (read_entries-Fills names (suc i) b)
                  (λ c f. passed name names i b c (passed_by i e) f))
              (λ e. visit-Fills name names i b _ (λ c. read_entries-Fills names (suc i) c))

        read_listing-Lists :
            (listing : Option (List Text))
            → ((names : List Text)
                → listing ≡ some names
                → PrintedNames env command first path names)
            → Ensures env command first u m
                (Lists env command first filler fresh path offset)
                (read_listing env filler path offset listing fresh)
        unfolding read_listing
        read_listing-Lists none h = Ensures-pure env command first u m _ (inl refl)
        read_listing-Lists (some names) h =
            Ensures-reply env command first u m _ (λ b. (pos 0, b))
              (read_entries-Fills names 0 fresh) (λ b f. inr (names, h names refl, refl, f))

        pub adbnc_readdir-Lists :
            Ensures env command first u m
              (Lists env command first filler fresh path offset)
              (adbnc_readdir env filler path offset fresh)
        unfolding adbnc_readdir
        adbnc_readdir-Lists = record {
          at = λ s h. (read_listing-Lists (find s.open_dirs path) (h.listed path)).at s h;
        }
