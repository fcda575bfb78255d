-- ===== src/Fs/Keeps.antt =====
-- Invariants of actions, one rule for each way to make an action. A fault keeps them, too.
use adbncfs.Prelude.{zero, suc, Bool, true, false, if◌then◌else◌}
use adbncfs.Prelude.Int.{ℤ, pos, negsuc}
use adbncfs.Fs.State.{State, M, Result, ok, fault, pure, gets, on_world, continue, ◌>>=◌, when_ok}

-- The action keeps `P`, whether it returns or not.
pub record Keeps {W : Type 0} (P : State W → Type 0) {A : Type 0} (p : M W A) : Type 0 where
  pub at : (s : State W) → P s → P (p s).1

module _ {W : Type 0} {P : State W → Type 0} where
  pub Keeps-pure : {A : Type 0} (a : A) → Keeps P (pure a)
  Keeps-pure a = record { at = λ s h. h }

  pub Keeps-gets : {A : Type 0} (f : State W → A) → Keeps P (gets f)
  Keeps-gets f = record { at = λ s h. h }

  pub Keeps-result : {A : Type 0} (f : State W → Result A) → Keeps P (λ s. (f s, s))
  Keeps-result f = record { at = λ s h. h }

  pub Keeps-on_world :
      {A : Type 0} (f : W → A × W)
      → ((s : State W) (w : W) → P s → P (record s { world = w }))
      → Keeps P (on_world f)
  Keeps-on_world f k = record { at = λ s h. k s (f s.world).1 h }

  continue_kept :
      {A B : Type 0} (r : Result A) (f : A → M W B) (s : State W)
      → ((a : A) → Keeps P (f a))
      → P s
      → P (continue r f s).1
  continue_kept (ok a) f s k h = (k a).at s h
  continue_kept (fault x) f s k h = h

  pub Keeps-bind :
      {A B : Type 0} (p : M W A) (f : A → M W B)
      → Keeps P p
      → ((a : A) → Keeps P (f a))
      → Keeps P (p >>= f)
  Keeps-bind p f h k = record { at = λ s i. continue_kept (p s).0 f (p s).1 k (h.at s i) }

  pub Keeps-if :
      {A : Type 0} (b : Bool) (p q : M W A) → Keeps P p → Keeps P q → Keeps P (if b then p else q)
  Keeps-if true p q h k = h
  Keeps-if false p q h k = k

  pub Keeps-when_ok : (r : ℤ) (p : M W ℤ) → Keeps P p → Keeps P (when_ok r p)
  Keeps-when_ok (pos zero) p h = h
  Keeps-when_ok (pos (suc n)) p h = Keeps-pure (pos (suc n))
  Keeps-when_ok (negsuc n) p h = Keeps-pure (negsuc n)

pub ruleset keeps_rules =
    (Keeps-pure, Keeps-gets, Keeps-result, Keeps-on_world, Keeps-bind, Keeps-if, Keeps-when_ok)
