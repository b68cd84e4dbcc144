-- ===== src/AccessExample/Input.antt =====
-- The reversal, and the loop over the input.
use m3sec.Common.{
  ℕ, zero, suc, ◌≤◌, ◌<◌, Bool, true, false, [], ◌∷◌, ◌++◌, some, Bytes, ◌≡◌, refl, ap, ◌∙◌, arith,
  length, get_elem?, take, c_string,
}
use m3sec.Common.Exec.{ok, running, ◌>>=◌}
use m3sec.Common.Exec.Ensures.{Ensures, Ensures-bind, Ensures-pure, Ensures-on}
use m3sec.Console.{lit}
use m3sec.AccessExample.{
  store, Store, report_key, long, take_line, Access, scan, reversed, print, put_line, read_line,
  input_loop,
}

-- The text backwards.
abbrev pub backwards : Bytes → Bytes
backwards [] = []
backwards (c ∷ s) = backwards s ++ c ∷ []

backwards-snoc : (s : Bytes) (c : ℕ) → backwards (s ++ c ∷ []) ≡ c ∷ backwards s
backwards-snoc [] c = refl
backwards-snoc (x ∷ s) c = rw (backwards-snoc s c)

-- The character at `n` is the last one of the first `n + 1`.
last_taken :
    (s : Bytes) (n : ℕ)
    → n < length s
    → (c : ℕ) × ((get_elem? s n ≡ some c) × (take (suc n) s ≡ take n s ++ c ∷ []))
last_taken [] n h = absurd (omega arith)
last_taken (x ∷ s) zero h = (x, (refl, refl))
last_taken (x ∷ s) (suc n) h =
    let (c, (e, t)) = last_taken s n (omega arith) in (c, (e, ap (λ r. x ∷ r) t))

take_all : (s : Bytes) → take (length s) s ≡ s
take_all [] = refl
take_all (x ∷ s) = ap (λ r. x ∷ r) (take_all s)

reversed-take : (s : Bytes) (n : ℕ) → n ≤ length s → reversed s n ≡ backwards (take n s)
unfolding reversed store
reversed-take s zero h = refl
reversed-take s (suc n) h =
    let (c, (e, t)) = last_taken s n (omega arith) in
    rw (e, t, backwards-snoc (take n s) c, reversed-take s n (omega arith))

-- The loop over the two pointers leaves the text backwards in `rbuf`.
pub reversed_lem : (s : Bytes) → reversed s (length s) ≡ backwards s
reversed_lem s = reversed-take s (length s) (omega arith) ∙ ap backwards (take_all s)

module _ (d : Store) where
  -- Once the failbit is set, the loop goes round for ever.
  input_loop-running_of_fail :
      (fuel : ℕ) (s : Access d.World) → s.fail ≡ true → (input_loop d fuel s).0 ≡ running
  unfolding input_loop read_line put_line print ◌>>=◌
  input_loop-running_of_fail zero s h = refl
  input_loop-running_of_fail (suc fuel) s h = rw h (
      input_loop-running_of_fail fuel
        (record s { cout = s.cout ++ lit "input> " ∷ []; fail = true }) refl)

  abbrev Failed : Access d.World → Type 0
  Failed s = s.fail ≡ true

  -- `put` returns, whatever it finds.
  abbrev pub Puts : Type 0
  Puts = (k v : Bytes) (w : d.World) → (x : Bool) × ((d.put k v w).0 ≡ ok x)

  report_key-Failed : (buf : Bytes) (x : Bool) → Ensures Failed (report_key d buf x) (λ _. Failed)
  unfolding report_key print ◌>>=◌
  report_key-Failed buf true = record { at = λ s h. (tt, refl, h) }
  report_key-Failed buf false = record { at = λ s h. (tt, refl, h) }

  put_line-Failed : Puts → (buf : Bytes) → Ensures Failed (put_line d buf) (λ _. Failed)
  unfolding put_line
  put_line-Failed puts [] = Ensures-pure tt
  put_line-Failed puts (c ∷ buf) =
      Ensures-bind _ _ (Ensures-on _ _ _ λ s h. let (x, e) = puts _ _ s.db in (x, e, h))
        λ x. report_key-Failed (c ∷ buf) x

  -- If the next line of the input has more characters than the buffer takes, and every put returns,
  -- the loop does not end: it is still running when any fuel is used up.
  pub input_loop-running :
      (fuel : ℕ) (s : Access d.World) (t rest : Bytes)
      → s.fail ≡ false
      → scan 1023 s.input ≡ long t rest
      → Puts
      → (input_loop d fuel s).0 ≡ running
  unfolding input_loop read_line take_line print ◌>>=◌
  input_loop-running zero s t rest h e puts = refl
  input_loop-running (suc fuel) s t rest h e puts =
      let s1 : Access d.World = record s {
        cout = s.cout ++ lit "input> " ∷ [];
        input = rest;
        fail = true;
      } in
      let (u, r, q) = (put_line-Failed puts (c_string t)).at s1 refl in
      rw (h, e, r) (input_loop-running_of_fail fuel (put_line d (c_string t) s1).1 q)
