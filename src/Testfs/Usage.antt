-- ===== src/Testfs/Usage.antt =====
-- A wrong option ends the run of testfs before a table is touched.
use m3sec.Common.{ℕ, minus_one, List, [], ◌∷◌, ◌++◌, Bytes, ◌≡◌, refl, ap, ◌∙◌}
use m3sec.Common.Exec.{ok, ◌>>=◌}
use m3sec.Common.Exec.Ensures.{Ensures, Ensures-bind, Ensures-return, Ensures-assume}
use m3sec.Console.{Chunk}
use m3sec.Bdb.{Bdb, OpenFlags, create_truncate, rdonly}
use m3sec.Fusekit.{Fusekit}
use m3sec.BdbVfs.{State, say}
use m3sec.Testfs.{
  Opt, opt_c, opt_r, opt_other, Parsed, returned, usage, parse_options, after_options, main_testfs,
}

module _ {W F : Type 0} (w : W) (v : F) where
  -- The worlds of the two libraries.
  abbrev pub Untouched : State W F → Type 0
  Untouched s = (s.db ≡ w) × (s.fuse ≡ v)

  pub say-Untouched : (l : List Chunk) → Ensures Untouched (say l) (λ _. Untouched)
  unfolding say ◌>>=◌
  say-Untouched l = record { at = λ s h. (tt, refl, h) }

  usage-Untouched : Ensures Untouched usage (λ c s. (c ≡ minus_one) × Untouched s)
  unfolding usage
  usage-Untouched =
      Ensures-bind _ _ (say-Untouched _)
        λ _. Ensures-bind _ _ (say-Untouched _) λ _. Ensures-return minus_one λ s h. (refl, h)

  pub parse_options-Untouched :
      (fl : OpenFlags) (pre post : List Opt)
      → Ensures Untouched
          (parse_options fl (pre ++ opt_other ∷ post))
          (λ p s. (p ≡ returned minus_one) × Untouched s)
  unfolding parse_options
  parse_options-Untouched fl [] post =
      Ensures-bind _ _ usage-Untouched
        λ c. Ensures-assume _ λ e. Ensures-return (returned c) λ s h. (ap returned e, h)
  parse_options-Untouched fl (opt_c ∷ pre) post =
      Ensures-bind _ _ (say-Untouched _) λ _. parse_options-Untouched create_truncate pre post
  parse_options-Untouched fl (opt_r ∷ pre) post =
      Ensures-bind _ _ (say-Untouched _) λ _. parse_options-Untouched rdonly pre post
  parse_options-Untouched fl (opt_other ∷ pre) post =
      Ensures-bind _ _ usage-Untouched
        λ c. Ensures-assume _ λ e. Ensures-return (returned c) λ s h. (ap returned e, h)

module _ (b : Bdb) (f : Fusekit) (fuel : ℕ) (argv : List Bytes) (w : b.World) (v : f.World) where
  after_options-Untouched :
      (p : Parsed)
      → p ≡ returned minus_one
      → Ensures
          (Untouched w v)
          (after_options b f fuel argv p)
          (λ c s. (c ≡ minus_one) × Untouched w v s)
  unfolding after_options
  after_options-Untouched p e = rw e (Ensures-return minus_one λ s h. (refl, h))

  main-Untouched :
      (pre post : List Opt)
      → Ensures
          (Untouched w v)
          (main_testfs b f fuel (pre ++ opt_other ∷ post) argv)
          (λ c s. (c ≡ minus_one) × Untouched w v s)
  unfolding main_testfs
  main-Untouched pre post = Ensures-bind _ _ (say-Untouched w v _) λ _.
      Ensures-bind _ _ (parse_options-Untouched w v rdonly pre post)
        λ p. Ensures-assume _ λ e. after_options-Untouched p e

-- If any option is a wrong one, `main` returns -1, whatever options come before and behind it, and
-- leaves the world of Berkeley DB and that of fusekit as they were.
pub main_usage :
    (b : Bdb) (f : Fusekit) (fuel : ℕ) (argv : List Bytes) (pre post : List Opt)
    (s : State b.World f.World)
    → let r = main_testfs b f fuel (pre ++ opt_other ∷ post) argv s in
      (r.0 ≡ ok minus_one) × (r.1.db ≡ s.db) × (r.1.fuse ≡ s.fuse)
main_usage b f fuel argv pre post s =
    let (c, e, (h, k)) = (main-Untouched b f fuel argv s.db s.fuse pre post).at s (refl, refl) in
    (e ∙ ap ok h, k.0, k.1)
