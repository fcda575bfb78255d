-- ===== src/Session/Reaches.antt =====
-- What an action leaves behind when it returns; here, that the cache holds nothing for a path.
use adbncfs.Prelude.{zero, suc, ◌≡◌, ap, ◌≢◌, none, arith, Text, text_eq_refl}
use mathlib.Core.Path.{subst}
use adbncfs.Prelude.Int.{ℤ, pos, negsuc}
use adbncfs.Prelude.Dict.{find}
use adbncfs.FileCache.{invalidate}
use adbncfs.FileCache.History.{find-invalidate}
use adbncfs.Fs.State.{State, M, Result, ok, pure, on_world, ◌>>=◌, ◌>>◌, when_ok}
use adbncfs.Fs.Files.{cache_invalidate}
use adbncfs.Main.Inversion.{continue_inv}

-- The cache holds nothing for the path.
abbrev pub IsForgotten : {W : Type 0} → Text → State W → Type 0
IsForgotten path s = find s.file_cache path ≡ none

module _ {W : Type 0} where
  pub forgets :
      (path : Text) (s : State W)
      → IsForgotten path (record s { file_cache = invalidate s.file_cache path })
  forgets path s = ground (arith, find-invalidate s.file_cache path path, text_eq_refl path)

  -- When the action returns, its value and the state that it leaves satisfy `Q`.
  pub record Reaches {A : Type 0} (Q : A → State W → Type 0) (p : M W A) : Type 0 where
    pub at : (s t : State W) (a : A) → p s ≡ (ok a, t) → Q a t

  module _ {A B : Type 0} {Q : B → State W → Type 0} where
    pub Reaches-given :
        (V : A → Type 0) (p : M W A) (f : A → M W B)
        → ((s t : State W) (a : A) → p s ≡ (ok a, t) → V a)
        → ((a : A) → V a → Reaches Q (f a))
        → Reaches Q (p >>= f)
    Reaches-given V p f h k = record {
      at = λ s t b e.
          let (a, u, e1, e2) = continue_inv (p s) f t b e in (k a (h s u a e1)).at u t b e2;
    }

    pub Reaches-bind :
        (p : M W A) (f : A → M W B) → ((a : A) → Reaches Q (f a)) → Reaches Q (p >>= f)
    Reaches-bind p f h = Reaches-given (λ a. Unit {0}) p f (λ s t a e. tt) (λ a v. h a)

  pub Reaches-call :
      {A B : Type 0} {Q : B → State W → Type 0} (V : A → Type 0) (f : W → A × W) (k : A → M W B)
      → ((w : W) → V (f w).0)
      → ((a : A) → V a → Reaches Q (k a))
      → Reaches Q (on_world f >>= k)
  Reaches-call V f k h g =
      Reaches-given V (on_world f) k
        (λ s t a e. let same : (f s.world).0 ≡ a = cc in subst V same (h s.world)) g

  module _ (path : Text) where
    -- A success leaves nothing in the cache.
    abbrev pub Drops : ℤ → State W → Type 0
    Drops r s = r ≡ pos 0 → IsForgotten path s

    pub Reaches-fails : (r : ℤ) → r ≢ pos 0 → Reaches Drops (pure r)
    Reaches-fails r h = record { at = λ s t a e z. let same : r ≡ pos 0 = cc in absurd (h same) }

    pub Reaches-when_ok : (r : ℤ) (p : M W ℤ) → Reaches Drops p → Reaches Drops (when_ok r p)
    Reaches-when_ok (pos zero) p h = h
    Reaches-when_ok (pos (suc n)) p h = Reaches-fails (pos (suc n)) (λ e. cc)
    Reaches-when_ok (negsuc n) p h = Reaches-fails (negsuc n) (λ e. cc)

    pub ends_forgotten : (p : M W ℤ) → ((s : State W) → IsForgotten path (p s).1) → Reaches Drops p
    ends_forgotten p h = record {
      at = λ s t a e z. subst (IsForgotten path) (ap (λ (q : Result ℤ × State W). q.1) e) (h s);
    }

    -- The change of the cache is the last that is done.
    pub Reaches-last :
        (p : M W (Unit {0})) (r : ℤ) → Reaches Drops (p >> (cache_invalidate path >> pure r))
    Reaches-last p r = Reaches-bind p _ (λ x. ends_forgotten _ (forgets path))
