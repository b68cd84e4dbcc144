-- ===== src/AccessExample/Line.antt =====
-- A line that fits in the buffer.
use m3sec.Common.{
  eq_of_ne, ℕ, zero, suc, ◌≤◌, false, [], ◌∷◌, ◌++◌, Bytes, ◌≡◌, ◌≢◌, refl, arith, length, All,
  NulFree, with_nul, c_string_of_NulFree,
}
use m3sec.Common.Exec.{on, ◌>>=◌, ◌>>◌}
use m3sec.Console.{lit}
use m3sec.AccessExample.{
  Store, Access, line, scan, in_front, take_line, read_line, print, report_key, put_line,
  input_loop,
}
use m3sec.AccessExample.Input.{backwards, reversed_lem}

scan-append :
    (n : ℕ) (l rest : Bytes)
    → All (λ c. c ≢ 10) l
    → length l ≤ n
    → scan n (l ++ 10 ∷ rest) ≡ line l rest
unfolding scan in_front
scan-append zero [] rest h fits = refl
scan-append (suc n) [] rest h fits = refl
scan-append zero (c ∷ l) rest h fits = absurd (omega arith)
scan-append (suc n) (c ∷ l) rest (hc, h) fits =
    rw (eq_of_ne c 10 hc, scan-append n l rest h (omega arith))

module _ (d : Store) where
  -- If the stream has not failed and the next line of the input is not empty, has at most 1023
  -- characters and no NUL, the loop prompts, puts the terminated line with the terminated line
  -- backwards, reports an existing key, and goes on with the rest of the input.
  pub input_loop-line :
      (fuel : ℕ) (s : Access d.World) (c : ℕ) (l rest : Bytes)
      → s.fail ≡ false
      → s.input ≡ (c ∷ l) ++ 10 ∷ rest
      → All (λ x. x ≢ 10) (c ∷ l)
      → NulFree (c ∷ l)
      → length (c ∷ l) ≤ 1023
      → input_loop d (suc fuel) s
        ≡ ((on
                  (λ t. t.db)
                  (λ t w. record t { db = w })
                  (d.put (with_nul (c ∷ l)) (with_nul (backwards (c ∷ l))))
                >>= report_key d (c ∷ l))
              >> input_loop d fuel)
            (record s { cout = s.cout ++ lit "input> " ∷ []; input = rest; fail = false })
  unfolding input_loop read_line take_line put_line print ◌>>=◌
  input_loop-line fuel s c l rest ok_fail e newlines nuls fits = rw (
    ok_fail,
    e,
    scan-append 1023 (c ∷ l) rest newlines fits,
    c_string_of_NulFree (c ∷ l) nuls,
    reversed_lem (c ∷ l),
  )
