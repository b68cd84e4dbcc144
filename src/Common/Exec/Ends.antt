-- ===== src/Common/Exec/Ends.antt =====
-- Actions that return or throw; `Q` holds of what they return.
use m3sec.Common.Exec.{Outcome, ok, throw, running, Exec, pure, modify, on, after, ◌>>=◌}
use mathlib.Core.Path.{refl}
use mathlib.Core.Logic.{◌≢◌}

-- The outcome is a value with `Q`, or an exception.
abbrev pub Ended {ℓ} : {A : Type ℓ} → (A → Type 0) → Outcome A → Type 0
Ended Q (ok a) = Q a
Ended Q (throw e) = Unit
Ended Q running = ⊥

pub record Ends {ℓ} {S A : Type ℓ} (Q : A → Type 0) (m : Exec S A) : Type ℓ where
  pub at : (s : S) → Ended Q (m s).0

abbrev pub Always {ℓ} : {A : Type ℓ} → A → Type 0
Always a = Unit

module _ {ℓ} {S A : Type ℓ} {Q : A → Type 0} where
  pub Ends-pure : (a : A) → Q a → Ends {S = S} Q (pure a)
  unfolding pure
  Ends-pure a q = record { at = λ s. q }

Ended_of_ne {ℓ} : {A : Type ℓ} (o : Outcome A) → o ≢ running → Ended Always o
Ended_of_ne (ok a) h = tt
Ended_of_ne (throw e) h = tt
Ended_of_ne running h = absurd (h refl)

-- A library call that does not run on for ever.
pub Ends-on {ℓ} :
    {S T A : Type ℓ} (part : S → T) (set_part : S → T → S) (m : Exec T A)
    → ((t : T) → (m t).0 ≢ running)
    → Ends Always (on part set_part m)
unfolding on
Ends-on part set_part m h = record { at = λ s. Ended_of_ne (m (part s)).0 (h (part s)) }

pub Ends-modify {ℓ} : {S : Type ℓ} (f : S → S) → Ends Always (modify f)
unfolding modify
Ends-modify f = record { at = λ s. tt }

module _ {ℓ} {S A B : Type ℓ} {Q : B → Type 0} where
  Ended-after :
      (o : Outcome A) (f : A → Exec S B)
      → Ended Always o
      → ((a : A) → Ends Q (f a))
      → (s : S) → Ended Q (after o f s).0
  Ended-after (ok a) f h k s = (k a).at s
  Ended-after (throw e) f h k s = tt
  Ended-after running f h k s = absurd h

  pub Ends-bind :
      (m : Exec S A) (f : A → Exec S B)
      → Ends Always m
      → ((a : A) → Ends Q (f a))
      → Ends Q (m >>= f)
  unfolding ◌>>=◌
  Ends-bind m f h k = record { at = λ s. let (o, s') = m s in Ended-after o f (h.at s) k s' }
