-- ===== src/Common/Exec/Throws.antt =====
-- Actions that throw an exception from every state with `P`.
use m3sec.Common.Exec.{Exn, Outcome, throw, Exec, lift, after, ◌>>=◌}
use m3sec.Common.Exec.Ensures.{Ensures}
use mathlib.Core.Path.{◌≡◌, ap, ◌∙◌}

module _ {ℓ} {S A : Type ℓ} where
  pub record Throws (P : S → Type ℓ) (m : Exec S A) (e : Exn) : Type ℓ where
    pub at : (s : S) → P s → (m s).0 ≡ throw e

  pub Throws-lift : {P : S → Type ℓ} (o : Outcome A) (e : Exn) → o ≡ throw e → Throws P (lift o) e
  unfolding lift
  Throws-lift o e h = record { at = λ s p. h }

  pub Throws-assume :
      {E : Type ℓ} {P : S → Type ℓ} (m : Exec S A) (e : Exn)
      → (E → Throws P m e)
      → Throws (λ s. E × P s) m e
  Throws-assume m e k = record { at = λ s h. (k h.0).at s h.1 }

module _ {ℓ} {S A B : Type ℓ} {P : S → Type ℓ} (m : Exec S A) (f : A → Exec S B) (e : Exn) where
  -- What follows is not done.
  pub Throws-first : Throws P m e → Throws P (m >>= f) e
  unfolding ◌>>=◌
  Throws-first h = record { at = λ s p. ap (λ (o : Outcome A). (after o f (m s).1).0) (h.at s p) }

  pub Throws-then :
      {R : A → S → Type ℓ} → Ensures P m R → ((a : A) → Throws (R a) (f a) e) → Throws P (m >>= f) e
  unfolding ◌>>=◌
  Throws-then h k = record {
    at = λ s p.
        let (a, q, r) = h.at s p in
        ap (λ (o : Outcome A). (after o f (m s).1).0) q ∙ (k a).at (m s).1 r;
  }
