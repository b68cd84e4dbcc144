-- ===== src/BerkeleyTest/Usage.antt =====
-- A wrong option ends the run of berkeley_test before a table is touched.
use m3sec.Common.{ℕ, minus_one, List, ◌∷◌, ◌++◌, ◌≡◌, refl, ap, ◌∙◌}
use m3sec.Common.Exec.{ok}
use m3sec.Common.Exec.Ensures.{Ensures, Ensures-bind, Ensures-return, Ensures-assume}
use m3sec.Bdb.{Bdb, rdonly}
use m3sec.BdbVfs.{State}
use m3sec.Testfs.{Opt, opt_other, Parsed, returned}
use m3sec.Testfs.Usage.{Untouched, say-Untouched, parse_options-Untouched}
use m3sec.BerkeleyTest.{after_options, main_test}

module _ (b : Bdb) {F : Type 0} (fuel : ℕ) (w : b.World) (v : F) where
  after_options-Untouched :
      (p : Parsed)
      → p ≡ returned minus_one
      → Ensures (Untouched w v) (after_options b fuel p) (λ c s. (c ≡ minus_one) × Untouched w v s)
  unfolding after_options
  after_options-Untouched p e = rw e (Ensures-return minus_one λ s h. (refl, h))

  main_test-Untouched :
      (pre post : List Opt)
      → Ensures
          (Untouched w v)
          (main_test b fuel (pre ++ opt_other ∷ post))
          (λ c s. (c ≡ minus_one) × Untouched w v s)
  unfolding main_test
  main_test-Untouched pre post = Ensures-bind _ _ (say-Untouched w v _) λ _.
      Ensures-bind _ _ (parse_options-Untouched w v rdonly pre post)
        λ p. Ensures-assume _ λ e. after_options-Untouched p e

-- If any option is a wrong one, `main` returns -1, whatever options come before and behind it, and
-- leaves the world of Berkeley DB as it was.
main_test_usage :
    (b : Bdb) (F : Type 0) (fuel : ℕ) (pre post : List Opt) (s : State b.World F)
    → let r = main_test b fuel (pre ++ opt_other ∷ post) s in (r.0 ≡ ok minus_one) × (r.1.db ≡ s.db)
main_test_usage b F fuel pre post s =
    let (c, e, (h, k)) = (main_test-Untouched b fuel s.db s.fuse pre post).at s (refl, refl) in
    (e ∙ ap ok h, k.0)
