-- ===== src/Main/Inversion.antt =====
-- What is known of the parts of a chain of actions that came to its end.
use adbncfs.Prelude.{zero, suc, ◌≡◌, refl, ap, ◌∙◌}
use adbncfs.Prelude.Int.{ℤ, pos, negsuc}
use adbncfs.Fs.State.{State, M, Result, ok, fault, continue, ◌>>=◌, when_ok}

module _ {W : Type 0} where
  pub continue_inv :
      {A B : Type 0} (p : Result A × State W) (f : A → M W B) (t : State W) (b : B)
      → continue p.0 f p.1 ≡ (ok b, t)
      → (a : A) × (u : State W) × (p ≡ (ok a, u)) × (f a u ≡ (ok b, t))
  continue_inv (ok a, u) f t b e = (a, u, refl, e)
  continue_inv (fault x, u) f t b e = absurd (cc)

  pub when_ok_inv :
      (r : ℤ) (m : M W ℤ) (s t : State W)
      → when_ok r m s ≡ (ok (pos 0), t)
      → (r ≡ pos 0) × (m s ≡ (ok (pos 0), t))
  when_ok_inv (pos zero) m s t e = (refl, e)
  when_ok_inv (pos (suc n)) m s t e = absurd (cc)
  when_ok_inv (negsuc n) m s t e = absurd (cc)

  -- Two actions, the second of which is only done behind a first that gives 0.
  pub then_inv :
      (m n : M W ℤ) (s t : State W)
      → (m >>= λ r. when_ok r n) s ≡ (ok (pos 0), t)
      → (u : State W) × (m s ≡ (ok (pos 0), u)) × (n u ≡ (ok (pos 0), t))
  then_inv m n s t e =
      let (r, u, f, g) = continue_inv (m s) (λ r. when_ok r n) t (pos 0) e in
      let (z, h) = when_ok_inv r n u t g in (u, f ∙ ap (λ x. (ok x, u)) z, h)

  pub pure_inv :
      {A : Type 0} (a b : A) (u t : State W)
      → ◌≡◌ {A = Result A × State W} (ok a, u) (ok b, t)
      → (a ≡ b) × (u ≡ t)
  pure_inv {A = A} a b u t e = (cc, ap (λ (p : Result A × State W). p.1) e)
