-- ===== src/Session/Ensures.antt =====
-- Actions that return from a sound state, and what they give: one rule for each way to make an action.
use adbncfs.Prelude.{zero, suc, ◌≡◌, refl, Bool, true, false, Option, List, if◌then◌else◌, Text}
use adbncfs.Prelude.Int.{ℤ, pos, negsuc}
use adbncfs.UserInfo.{UserInfo}
use adbncfs.MountInfo.{MountInfo}
use adbncfs.Fs.State.{Env, State, M, ok, pure, gets, modify, on_world, ◌>>=◌, when_ok}
use adbncfs.Session.Sound.{
  Later, IsSound, Holds-world, now, ran, spawned, opened, closed, synced, did_read, wrote, cut,
  made, removed,
}

module _ (env : Env) (command : Text → env.World → List Text × env.World) (first : env.World) where
  open env use {World}

  module _ (u : Option UserInfo) (m : Option MountInfo) where
    abbrev Sound : State World → Type 0
    Sound = IsSound env command first u m

    -- From a sound state, the action returns a value with `Q`, and leaves a sound state.
    pub record Ensures {A : Type 0} (Q : A → Type 0) (action : M World A) : Type 0 where
      pub at :
          (s : State World)
          → Sound s
          → (a : A) × (t : State World) × (action s ≡ (ok a, t)) × Sound t × Q a

    abbrev pub Serves : {A : Type 0} → M World A → Type 0
    Serves action = Ensures (λ a. Unit {0}) action

    module _ {A : Type 0} {Q : A → Type 0} where
      pub Ensures-pure : (a : A) → Q a → Ensures Q (pure a)
      Ensures-pure a q = record { at = λ s h. (a, s, refl, h, q) }

      pub Ensures-gets :
          (f : State World → A) → ((s : State World) → Sound s → Q (f s)) → Ensures Q (gets f)
      Ensures-gets f q = record { at = λ s h. (f s, s, refl, h, q s h) }

    pub Ensures-modify :
        (f : State World → State World)
        → ((s : State World) → Sound s → Sound (f s))
        → Serves (modify f)
    Ensures-modify f q = record { at = λ s h. (tt, f s, refl, q s h, tt) }

    module _ {A : Type 0} where
      pub Ensures-on_world :
          (f : World → A × World)
          → ((w : World) → Later env command first w → Later env command first (f w).1)
          → Serves (on_world f)
      Ensures-on_world f q = record {
        at = λ s h. (
          (f s.world).0,
          _,
          refl,
          Holds-world env command first u m h (f s.world).1 (q s.world h.later),
          tt,
        );
      }

      pub Ensures-if :
          {Q : A → Type 0} (b : Bool) (p q : M World A)
          → (b ≡ true → Ensures Q p)
          → (b ≡ false → Ensures Q q)
          → Ensures Q (if b then p else q)
      Ensures-if true p q h g = h refl
      Ensures-if false p q h g = g refl

    pub Ensures-implies :
        {A : Type 0} {Q R : A → Type 0} (p : M World A)
        → Ensures Q p
        → ((a : A) → Q a → R a)
        → Ensures R p
    Ensures-implies p h g = record {
      at = λ s i. let (a, t, e, j, q) = h.at s i in (a, t, e, j, g a q);
    }

    pub Serves-when_ok : (r : ℤ) (p : M World ℤ) → Serves p → Serves (when_ok r p)
    Serves-when_ok (pos zero) p h = h
    Serves-when_ok (pos (suc n)) p h = Ensures-pure (pos (suc n)) tt
    Serves-when_ok (negsuc n) p h = Ensures-pure (negsuc n) tt

    module _ {A B : Type 0} {Q : A → Type 0} {R : B → Type 0} where
      pub Ensures-bind :
          (p : M World A) (f : A → M World B)
          → Ensures Q p
          → ((a : A) → Q a → Ensures R (f a))
          → Ensures R (p >>= f)
      Ensures-bind p f h g = record {
        at = λ s i.
            let (a, t, e, j, q) = h.at s i in
            let (b, v, e', k, r) = (g a q).at t j in (b, v, rw (e, ◌>>=◌) e', k, r);
      }

      -- A value that is given back in another form.
      pub Ensures-reply :
          (p : M World A) (k : A → B)
          → Ensures Q p
          → ((a : A) → Q a → R (k a))
          → Ensures R (p >>= λ a. pure (k a))
      Ensures-reply p k h g = Ensures-bind p _ h (λ a q. Ensures-pure (k a) (g a q))

    pub Serves-gets : {A : Type 0} (f : State World → A) → Serves (gets f)
    Serves-gets f = Ensures-gets f (λ s h. tt)

    pub Serves-pure : {A : Type 0} (a : A) → Serves (pure a)
    Serves-pure a = Ensures-pure a tt

    pub Serves-bind :
        {A B : Type 0} (p : M World A) (f : A → M World B)
        → Serves p
        → ((a : A) → Serves (f a))
        → Serves (p >>= f)
    Serves-bind p f h g = Ensures-bind p f h (λ a q. g a)

    pub Ensures-after :
        {A B : Type 0} {R : B → Type 0} (p : M World A) (f : A → M World B)
        → Serves p
        → ((a : A) → Ensures R (f a))
        → Ensures R (p >>= f)
    Ensures-after p f h g = Ensures-bind p f h (λ a q. g a)

    pub Serves-if :
        {A : Type 0} (b : Bool) (p q : M World A)
        → Serves p
        → Serves q
        → Serves (if b then p else q)
    Serves-if b p q h g = Ensures-if b p q (λ e. h) (λ e. g)

pub ruleset serves_rules = (
  Serves-pure, Serves-bind, Serves-gets, Serves-if, Serves-when_ok, Ensures-on_world, opened,
  closed, synced, did_read, wrote, cut, made, removed,
)
