-- ===== src/Common/Exec/Ensures.antt =====
-- Total correctness of actions: from a state with `P` the action returns, and the result and the
-- new state have `Q`.
use m3sec.Common.Exec.{Exn, Outcome, ok, Exec, pure, lift, on, after, ◌>>=◌, rescue, try_catch}
use m3sec.Common.Exec.Keeps.{Keeps}
use mathlib.Core.Path.{◌≡◌, refl, sym, ap, subst}

module _ {ℓ} {S A : Type ℓ} where
  pub record Ensures (P : S → Type ℓ) (m : Exec S A) (Q : A → S → Type ℓ) : Type ℓ where
    pub at : (s : S) → P s → (a : A) × ((m s).0 ≡ ok a) × Q a (m s).1

  pub Ensures-pure : {Q : A → S → Type ℓ} (a : A) → Ensures (Q a) (pure a) Q
  unfolding pure
  Ensures-pure a = record { at = λ s q. (a, refl, q) }

  pub Ensures-return :
      {P : S → Type ℓ} {Q : A → S → Type ℓ} (a : A) → ((s : S) → P s → Q a s) → Ensures P (pure a) Q
  unfolding pure
  Ensures-return a h = record { at = λ s p. (a, refl, h s p) }

  pub Ensures-lift :
      {P : S → Type ℓ} {Q : A → S → Type ℓ} (o : Outcome A) (a : A)
      → o ≡ ok a
      → ((s : S) → P s → Q a s)
      → Ensures P (lift o) Q
  unfolding lift
  Ensures-lift o a e k = record { at = λ s p. (a, e, k s p) }

  pub Ensures-mono :
      {P P' : S → Type ℓ} {Q Q' : A → S → Type ℓ} (m : Exec S A)
      → ((s : S) → P' s → P s)
      → ((a : A) (s : S) → Q a s → Q' a s)
      → Ensures P m Q
      → Ensures P' m Q'
  Ensures-mono m f g h = record {
    at = λ s p. let (a, e, q) = h.at s (f s p) in (a, e, g a (m s).1 q);
  }

  -- A fact that the precondition carries is at hand for the whole action.
  pub Ensures-assume :
      {E : Type ℓ} {P : S → Type ℓ} {Q : A → S → Type ℓ} (m : Exec S A)
      → (E → Ensures P m Q)
      → Ensures (λ s. E × P s) m Q
  Ensures-assume m k = record { at = λ s h. (k h.0).at s h.1 }

  -- An invariant goes along.
  pub Ensures-Keeps :
      {P I : S → Type ℓ} {Q : A → S → Type ℓ} (m : Exec S A)
      → Ensures P m Q
      → Keeps I m
      → Ensures (λ s. P s × I s) m (λ a s. Q a s × I s)
  Ensures-Keeps m h k = record { at = λ s p. let (a, e, q) = h.at s p.0 in (a, e, (q, k.at s p.1)) }

  pub Ensures-exists :
      {E : Type ℓ} {P : E → S → Type ℓ} {Q : A → S → Type ℓ} (m : Exec S A)
      → ((e : E) → Ensures (P e) m Q)
      → Ensures (λ s. (e : E) × P e s) m Q
  Ensures-exists m k = record { at = λ s h. (k h.0).at s h.1 }

  pub Ensures-try_catch :
      {P : S → Type ℓ} {Q : A → S → Type ℓ} (m : Exec S A) (h : Exn → Exec S A)
      → Ensures P m Q
      → Ensures P (try_catch m h) Q
  unfolding try_catch
  Ensures-try_catch {Q} m h k = record {
    at = λ s p.
        let (a, e, q) = k.at s p in
        subst (λ (r : Outcome A × S). (x : A) × (r.0 ≡ ok x) × Q x r.1)
          (ap (λ (o : Outcome A). rescue o h (m s).1) (sym e)) (a, refl, q);
  }

module _ {ℓ} {S A B : Type ℓ} {P : S → Type ℓ} {R : A → S → Type ℓ} {Q : B → S → Type ℓ} where
  pub Ensures-bind :
      (m : Exec S A) (f : A → Exec S B)
      → Ensures P m R
      → ((a : A) → Ensures (R a) (f a) Q)
      → Ensures P (m >>= f) Q
  unfolding ◌>>=◌
  Ensures-bind m f hm hf = record {
    at = λ s p.
        let (a, e, r) = hm.at s p in
        subst (λ (t : Outcome B × S). (b : B) × (t.0 ≡ ok b) × Q b t.1)
          (ap (λ (o : Outcome A). after o f (m s).1) (sym e)) ((hf a).at (m s).1 r);
  }

-- A library call on one part of the state.
pub Ensures-on {ℓ} :
    {S T A : Type ℓ} {P : S → Type ℓ} {Q : A → S → Type ℓ} (part : S → T) (set_part : S → T → S)
    (m : Exec T A)
    → ((s : S) → P s → (a : A) × ((m (part s)).0 ≡ ok a) × Q a (set_part s (m (part s)).1))
    → Ensures P (on part set_part m) Q
unfolding on
Ensures-on part set_part m h = record { at = h }
