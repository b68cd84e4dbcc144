-- ===== src/Common/Exec/Keeps.antt =====
-- Invariants of actions, whether they return, throw or run on: one rule for each way to build one.
use m3sec.Common.Exec.{
  Exn, Outcome, ok, throw, running, Exec, pure, raise, diverge, gets, lift, after, ◌>>=◌, rescue,
  try_catch,
}
use m3sec.Common.Numbers.{if◌then◌else◌}
use mathlib.Core.Bool.{Bool, true, false}

-- The action ends, in whichever way, in a state with the invariant that it was started in.
pub record Keeps {κ} {State V : Type κ} (Inv : State → Type κ) (act : Exec State V) : Type κ where
  pub at : (before : State) → Inv before → Inv (act before).1

module _ {κ} {State V : Type κ} {Inv : State → Type κ} where
  Keeps-rescue :
      (o : Outcome V) (handler : Exn → Exec State V)
      → ((x : Exn) → Keeps Inv (handler x))
      → (mid : State) → Inv mid
      → Inv (rescue o handler mid).1
  Keeps-rescue (ok v) handler keeps mid inv = inv
  Keeps-rescue (throw x) handler keeps mid inv = (keeps x).at mid inv
  Keeps-rescue running handler keeps mid inv = inv

  pub Keeps-try_catch :
      (body : Exec State V) (handler : Exn → Exec State V)
      → Keeps Inv body
      → ((x : Exn) → Keeps Inv (handler x))
      → Keeps Inv (try_catch body handler)
  unfolding try_catch
  Keeps-try_catch body handler first keeps = record {
    at = λ before inv.
        Keeps-rescue (body before).0 handler keeps (body before).1 (first.at before inv);
  }

  pub Keeps-if :
      (test : Bool) (then_act else_act : Exec State V)
      → Keeps Inv then_act
      → Keeps Inv else_act
      → Keeps Inv (if test then then_act else else_act)
  Keeps-if true then_act else_act left right = left
  Keeps-if false then_act else_act left right = right

  -- What does not write the state keeps everything.
  pub Keeps-gets : (read : State → V) → Keeps Inv (gets read)
  unfolding gets
  Keeps-gets read = record { at = λ _ inv. inv }

  pub Keeps-pure : (v : V) → Keeps Inv (pure v)
  unfolding pure
  Keeps-pure v = record { at = λ _ inv. inv }

  pub Keeps-lift : (o : Outcome V) → Keeps Inv (lift o)
  unfolding lift
  Keeps-lift o = record { at = λ _ inv. inv }

  pub Keeps-raise : (x : Exn) → Keeps Inv (raise {A = V} x)
  unfolding raise
  Keeps-raise x = record { at = λ _ inv. inv }

module _ {κ} {State V R : Type κ} {Inv : State → Type κ} where
  Keeps-after :
      (o : Outcome V) (next : V → Exec State R)
      → ((v : V) → Keeps Inv (next v))
      → (mid : State) → Inv mid
      → Inv (after o next mid).1
  Keeps-after (ok v) next keeps mid inv = (keeps v).at mid inv
  Keeps-after (throw x) next keeps mid inv = inv
  Keeps-after running next keeps mid inv = inv

  pub Keeps-bind :
      (first : Exec State V) (next : V → Exec State R)
      → Keeps Inv first
      → ((v : V) → Keeps Inv (next v))
      → Keeps Inv (first >>= next)
  unfolding ◌>>=◌
  Keeps-bind first next kept keeps = record {
    at =
        λ before inv. Keeps-after (first before).0 next keeps (first before).1 (kept.at before inv);
  }

-- The running action leaves the state as it is.
pub Keeps-diverge {κ} :
    {State V : Type κ} {Inv : State → Type κ} → Keeps Inv (diverge {S = State} {A = V})
unfolding diverge
Keeps-diverge = record { at = λ _ inv. inv }

pub ruleset keeps_rules = (
  Keeps-bind, Keeps-try_catch, Keeps-if, Keeps-gets, Keeps-pure, Keeps-lift, Keeps-raise,
  Keeps-diverge,
)
