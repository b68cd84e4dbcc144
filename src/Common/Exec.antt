-- ===== src/Common/Exec.antt =====
-- Actions on a state. An action returns, throws, or is still running when its fuel is used up; what
-- it wrote before a throw stays written.
pub mod Keeps
pub mod Ensures
pub mod Ends
pub mod Throws
use m3sec.Common.Numbers.{ℤ}
use m3sec.Common.Text.{Bytes}

-- DbException with its errno, an exception of the standard library that a library call throws, and
-- the `std::out_of_range` of `vector::at`. The texts of `what()` are the libraries'.
pub data Exn : Type 0 where
  db_exception : ℤ → Exn
  std_exception : Bytes → Exn
  out_of_range : Exn

pub data Outcome {ℓ} (A : Type ℓ) : Type ℓ where
  ok : A → Outcome A
  throw : Exn → Outcome A
  running : Outcome A

abbrev pub Exec {ℓ} : Type ℓ → Type ℓ → Type ℓ
Exec S A = S → Outcome A × S

module _ {ℓ} {S A : Type ℓ} where
  pub pure : A → Exec S A
  pure a s = (ok a, s)

  pub raise : Exn → Exec S A
  raise e s = (throw e, s)

  -- A loop whose fuel is used up.
  pub diverge : Exec S A
  diverge s = (running, s)

  pub gets : (S → A) → Exec S A
  gets f s = (ok (f s), s)

  pub lift : Outcome A → Exec S A
  lift o s = (o, s)

  abbrev pub rescue : Outcome A → (Exn → Exec S A) → Exec S A
  rescue (ok a) h s = (ok a, s)
  rescue (throw e) h s = h e s
  rescue running h s = (running, s)

  -- `try { m } catch (DbException &e) { h e } catch (std::exception &e) { h e }`
  unfoldable pub try_catch : Exec S A → (Exn → Exec S A) → Exec S A
  try_catch m h s = let (o, s') = m s in rescue o h s'

module _ {ℓ} {S : Type ℓ} where
  pub modify : (S → S) → Exec S (Unit {ℓ})
  modify f s = (ok tt, f s)

module _ {ℓ} {S T A : Type ℓ} where
  -- A call into a library that owns one part of the state.
  pub on : (S → T) → (S → T → S) → Exec T A → Exec S A
  on part set_part m s = let (o, t) = m (part s) in (o, set_part s t)

module _ {ℓ} {S A B : Type ℓ} where
  abbrev pub after : Outcome A → (A → Exec S B) → Exec S B
  after (ok a) f s = f a s
  after (throw e) f s = (throw e, s)
  after running f s = (running, s)

  infixl 10 ◌>>=◌ ◌>>◌
  -- Opening this opens the other ways to build an action.
  unfoldable pub ◌>>=◌ : Exec S A → (A → Exec S B) → Exec S B
  unfolding pure raise diverge gets lift modify on try_catch
  ◌>>=◌ m f s = let (o, s') = m s in after o f s'

  abbrev pub ◌>>◌ : Exec S A → Exec S B → Exec S B
  m >> k = m >>= λ _. k
