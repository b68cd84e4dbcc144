-- ===== src/Tests/ProgramRuns.antt =====
-- The theorems about the three test programs and AccessExample at concrete inputs.
use m3sec.Common.{
  ℤ, pos, some, minus_one, true, false, List, [], ◌∷◌, ◌++◌, none, Bytes, codes, ◌≡◌, refl, arith,
  replicate,
}
use m3sec.Common.Exec.{Outcome, ok, running}
use m3sec.Bdb.{Fetch, found, not_found, failed}
use m3sec.BdbLaws.{Tables}
use m3sec.BdbVfs.{State, read_rows}
use m3sec.BdbVfs.Contents.{created, loaded}
use m3sec.BdbVfs.Menu.Sessions.{start}
use m3sec.Testfs.{Maps, opt_c, walk, main_testfs}
use m3sec.Testfs.Runs.{Made, FromDaemon, main_testfs-Made}
use m3sec.Testfs.Walk.{Walked, walk_lem}
use m3sec.Testfs.Output.{all_shut}
use m3sec.BerkeleyTest.{main_test}
use m3sec.BerkeleyTest.Runs.{main_test_lem}
use m3sec.BdbRead.{Reader, Console}
use m3sec.BdbRead.Loop.{all_lines, fetch_and_read, read_loop_lem}
use m3sec.AccessExample.{Store, Access, scan, in_front, input_loop}
use m3sec.AccessExample.Line.{input_loop-line}
use m3sec.Tests.Checks.{All-of_avoids}
use m3sec.Common.{with_nul}
use m3sec.Common.Exec.{on, ◌>>=◌, ◌>>◌}
use m3sec.Console.{lit}
use m3sec.AccessExample.{report_key}
use m3sec.AccessExample.Input.{backwards, input_loop-running}
use m3sec.Tests.Memory.{memory, memory-Lawful, unused, listing, listing-Answers}

abbrev ready : State Tables (List Bytes)
ready = start (loaded (created unused)) []

abbrev no_maps : Maps
no_maps = record { multi_subjs = []; multi_preds = []; multi_objs = [] }

walk_lem_example : Walked no_maps ready (walk memory 4 no_maps ready) (read_rows memory 4 ready)
walk_lem_example = walk_lem memory 4 no_maps ready

abbrev never_opened : State Tables (List Bytes)
never_opened = start unused []

main_testfs-Made_example :
    (c : ℤ) × ((main_testfs memory listing 4 (opt_c ∷ []) [] never_opened).0 ≡ ok c)
    × FromDaemon memory listing memory-Lawful listing-Answers [] c
    × Made memory listing memory-Lawful listing-Answers unused
        (main_testfs memory listing 4 (opt_c ∷ []) [] never_opened).1
main_testfs-Made_example =
    main_testfs-Made memory listing memory-Lawful listing-Answers 4 [] unused never_opened refl
      (refl, refl, refl) (omega arith)

main_test_lem_example :
    ((main_test memory 4 (opt_c ∷ []) never_opened).0 ≡ ok (pos 0))
    × (some (main_test memory 4 (opt_c ∷ []) never_opened).1.db
        ≡ some (all_shut (loaded (created unused))))
main_test_lem_example =
    main_test_lem memory (List Bytes) memory-Lawful 4 unused never_opened refl (refl, refl, refl)
      (omega arith)

abbrev give : List (Bytes × Bytes) → Outcome Fetch × List (Bytes × Bytes)
give [] = (ok not_found, [])
give ((k, v) ∷ rs) = (ok (found k v), rs)

-- The world is what is left to read.
abbrev reader : Reader
reader = record {
  World = List (Bytes × Bytes);
  open_env = λ n w. (ok tt, w);
  open_db = λ n w. (ok tt, w);
  cursor = λ w. (ok tt, w);
  get_next = λ w. give w;
  close_cursor = λ w. (ok tt, w);
  close_db = λ w. (ok tt, w);
  close_env = λ w. (ok tt, w);
  err = λ n t w. w;
  errx = λ t e w. w;
}

abbrev broken : Reader
broken = record reader { get_next = λ w. (ok (failed minus_one), w) }

abbrev two : List (Bytes × Bytes)
two = (codes "a", codes "b") ∷ (codes "c", codes "d") ∷ []

abbrev console : Console (List (Bytes × Bytes))
console = record { db = two; created = true; cout = [] }

read_loop_lem_example :
    fetch_and_read reader 3 none console
    ≡ (ok tt, record console { db = []; cout = [] ++ all_lines two })
read_loop_lem_example =
    read_loop_lem reader 3 two none [] console
      ((codes "c", codes "d") ∷ [], (refl, ([], (refl, refl)))) (omega arith)

-- The world is what was put.
abbrev log : Store
log = record { World = List (Bytes × Bytes); put = λ k v w. (ok false, w ++ (k, v) ∷ []) }

abbrev typed : Access (List (Bytes × Bytes))
typed = record {
  db = [];
  cout = [];
  cerr = [];
  input = replicate 1024 97 ++ 10 ∷ codes "ab";
  fail = false;
}

input_loop-running_example : (input_loop log 7 typed).0 ≡ running
unfolding scan in_front
input_loop-running_example =
    input_loop-running log 7 typed (replicate 1023 97) (97 ∷ 10 ∷ codes "ab") refl refl
      (λ k v w. (false, refl))

abbrev short : Access (List (Bytes × Bytes))
short = record { db = []; cout = []; cerr = []; input = codes "ab" ++ 10 ∷ codes "c"; fail = false }

input_loop-line_example :
    input_loop log 3 short
    ≡ ((on
              (λ t. t.db)
              (λ t w. record t { db = w })
              (log.put (with_nul (codes "ab")) (with_nul (backwards (codes "ab"))))
            >>= report_key log (codes "ab"))
          >> input_loop log 2)
        (record short { cout = short.cout ++ lit "input> " ∷ []; input = codes "c"; fail = false })
input_loop-line_example =
    input_loop-line log 2 short 97 (codes "b") (codes "c") refl refl
      (All-of_avoids 10 (codes "ab") refl) (All-of_avoids 0 (codes "ab") refl) (omega arith)
