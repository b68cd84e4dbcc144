-- ===== src/Testfs/Runs.antt =====
-- testfs with the option -c over a lawful Berkeley DB.
use m3sec.Common.{ℕ, ◌<◌, ℤ, List, [], ◌∷◌, none, some, Bytes, codes, ◌≡◌, refl, arith, c_string}
use m3sec.Common.Exec.{ok, ◌>>=◌}
use m3sec.Common.Exec.Ensures.{
  Ensures, Ensures-bind, Ensures-return, Ensures-mono, Ensures-assume, Ensures-try_catch,
  Ensures-Keeps,
}
use m3sec.Bdb.{Bdb, create_truncate}
use m3sec.BdbLaws.{Tables, Lawful}
use m3sec.Rows.Reading.{View}
use m3sec.Fusekit.{Fusekit}
use m3sec.BdbVfs.{State, say, on_fuse}
use m3sec.BdbVfs.Loaded.{Holding, say-Holding}
use m3sec.BdbVfs.Contents.{created, loaded, AllFresh}
use m3sec.BdbVfs.Vfs.Total.{Answers, build_tree-Rows}
use m3sec.BdbVfs.Vfs.Frame.{build_tree-Keeps}
use m3sec.Testfs.{opt_c, flags, test_vfs, guarded, after_options, main_testfs}
use m3sec.Testfs.Output.{all_shut, close_tables-Ensures, output_data-Ensures}
use m3sec.Testfs.Created.{open_tables-Ensures, insert_data-Ensures, options-Ensures}

module _ (b : Bdb) (f : Fusekit) (laws : Lawful b) (answers : Answers f) where
  open laws use {view}

  -- The vectors and the tables of the run, from the tables `t`.
  abbrev pub Made : Tables → State b.World f.World → Type 0
  Made t =
      Holding b f.World laws (View b laws (all_shut (loaded (created t))))
        (codes "I" ∷ codes "Kirill" ∷ codes "Katya" ∷ [])
        (codes "am" ∷ codes "has" ∷ codes "sister of" ∷ [])
        (codes "Kirill." ∷ codes "a sister." ∷ codes "Kirill" ∷ [])

  test_vfs-Made : (t : Tables) → Ensures (Made t) (test_vfs b f) (λ _. Made t)
  unfolding test_vfs say on_fuse ◌>>=◌
  test_vfs-Made t =
      Ensures-mono _ (λ s h. ((h.1.1, h.1.2), h)) (λ _ s h. h.1)
        (Ensures-Keeps _ (build_tree-Rows b.World f answers _ _ (omega arith)) (
          build_tree-Keeps b.World f (Made t) (λ l. record { at = λ s h. h })
            (λ A m. record { at = λ s h. h })))

  guarded-Ensures :
      (ss ps os : List Bytes) (fuel : ℕ) (t : Tables)
      → AllFresh b f.World laws t
      → 3 < fuel
      → Ensures
          (Holding b f.World laws (View b laws t) ss ps os)
          (guarded b f fuel create_truncate)
          (λ c s. (c ≡ none) × Made t s)
  unfolding guarded c_string
  guarded-Ensures ss ps os fuel t fresh' lt =
      let nuls : Unit {0} × (Unit {0} × (Unit {0} × Unit {0})) = (tt, (tt, (tt, tt))) in
      let t1 = loaded (created t) in
      Ensures-try_catch _ _ (
        Ensures-bind _ _ (open_tables-Ensures b f.World laws t fresh') λ _.
          Ensures-bind _ _
            (insert_data-Ensures b f.World laws (created t) (refl, refl, tt) (refl, refl, tt)
              (refl, refl, tt))
            λ _.
              Ensures-bind _ _
                (output_data-Ensures b f.World laws _ _ _ fuel t1 (refl, refl, refl)
                  (nuls, nuls, nuls) (omega arith))
                λ _.
                  Ensures-bind _ _ (close_tables-Ensures b f.World laws _ _ _ t1 (refl, refl, refl))
                    λ _.
                      Ensures-bind _ _ (test_vfs-Made t) λ _. Ensures-return none λ s h. (refl, h))

  -- `c` is what the daemon returned, in the world in which it was started.
  abbrev pub FromDaemon : List Bytes → ℤ → Type 0
  FromDaemon argv c = (v : f.World) × ((f.run argv v).0 ≡ ok c)

  after_options-Ensures :
      (argv : List Bytes) (ss ps os : List Bytes) (fuel : ℕ) (t : Tables)
      → AllFresh b f.World laws t
      → 3 < fuel
      → Ensures
          (Holding b f.World laws (View b laws t) ss ps os)
          (after_options b f fuel argv (flags create_truncate))
          (λ c s. FromDaemon argv c × Made t s)
  unfolding after_options on_fuse ◌>>=◌
  after_options-Ensures argv ss ps os fuel t fresh' lt =
      Ensures-bind _ _ (guarded-Ensures ss ps os fuel t fresh' lt) λ r. Ensures-assume _ λ e.
        rw e
          record { at = λ s h. let (c, e') = answers.run argv s.fuse in (c, e', ((s.fuse, e'), h)) }

  main_testfs-Ensures :
      (argv : List Bytes) (ss ps os : List Bytes) (fuel : ℕ) (t : Tables)
      → AllFresh b f.World laws t
      → 3 < fuel
      → Ensures
          (Holding b f.World laws (View b laws t) ss ps os)
          (main_testfs b f fuel (opt_c ∷ []) argv)
          (λ c s. FromDaemon argv c × Made t s)
  unfolding main_testfs
  main_testfs-Ensures argv ss ps os fuel t fresh' lt =
      Ensures-bind _ _ (say-Holding b f.World laws _ _) λ _.
        Ensures-bind _ _ (options-Ensures b f.World laws ss ps os t)
          λ p. Ensures-assume _ λ e. rw e (after_options-Ensures argv ss ps os fuel t fresh' lt)

  -- With the option -c, over a lawful Berkeley DB whose three tables were never opened, and with a
  -- fusekit whose calls return: testfs with fuel for four rounds of its loop returns what the daemon
  -- returned. The three vectors then hold just the nine texts, in order, whatever they held before,
  -- and the tables the nine records, with their handles closed.
  pub main_testfs-Made :
      (fuel : ℕ) (argv : List Bytes) (t : Tables) (s : State b.World f.World)
      → view s.db ≡ some t
      → AllFresh b f.World laws t
      → 3 < fuel
      → (c : ℤ) × ((main_testfs b f fuel (opt_c ∷ []) argv s).0 ≡ ok c)
        × FromDaemon argv c
        × Made t (main_testfs b f fuel (opt_c ∷ []) argv s).1
  main_testfs-Made fuel argv t s v fresh' lt =
      let (c, e, (ran, made)) =
        (main_testfs-Ensures argv _ _ _ fuel t fresh' lt).at s (v, (refl, refl, refl)) in
      (c, e, ran, made)
