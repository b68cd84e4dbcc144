-- ===== src/Tests/ClientRuns.antt =====
-- legacy_client.c on an echo server in memory.
use m3sec.Common.{ℕ, zero, suc, false, [], ◌∷◌, ◌++◌, some, ℤ, pos, negsuc, Bytes, ◌≡◌, refl}
use m3sec.Common.Exec.{ok, running}
use m3sec.HipTests.{Sockets}
use m3sec.HipTests.Client.{Client, main_client}
use m3sec.HipTests.Client.Runs
use m3sec.HipTests.Client.Runs.{
  Try, refused, answered, try_lines, main_client-Tries, main_client-undefined,
}

-- The address 0 refuses every connection.
abbrev refuses_zero : ℕ → ℤ
refuses_zero zero = negsuc 0
refuses_zero (suc addr) = pos 0

-- The byte that was sent last.
abbrev first_or : ℕ → Bytes → ℕ
first_or w [] = w
first_or w (c ∷ s) = c

-- The world is the byte that was sent last; `created` is the result of `socket`.
abbrev echoing : ℤ → Sockets
echoing created = record {
  World = ℕ;
  Addr = ℕ;
  getaddrinfo = λ host service w. (ok (pos 0, some (0 ∷ 1 ∷ [])), w);
  socket = λ addr w. (ok created, w);
  connect = λ sock addr w. (ok (refuses_zero addr), w);
  send = λ sock s w. (ok (pos 1), first_or w s);
  recv = λ sock size w. (ok (pos 1, w ∷ []), w);
  close = λ sock w. (ok (pos 0), w);
  freeaddrinfo = λ res w. (ok tt, w);
}

abbrev started : Client ℕ
started = record { world = 0; freed = false; received = 0; printed = [] }

main_client-Tries_example : main_client (echoing (pos 3)) started ≡ (
  ok (pos 0),
  record {
    world = b'b';
    freed = false;
    received = b'b';
    printed = [] ++ try_lines b'a' (refused ∷ answered b'b' ∷ []);
  },
)
main_client-Tries_example =
    main_client-Tries (echoing (pos 3)) 0 (1 ∷ []) (refused ∷ answered b'b' ∷ []) 0 0 b'b' 0 [] refl
      (Runs.next (Runs.refuses 3 0 (pos 0) refl refl refl)
        (Runs.next (Runs.answers 3 0 0 0 (pos 0) refl refl refl refl refl) Runs.no_more))

main_client-undefined_example : (main_client (echoing (negsuc 0)) started).0 ≡ running
main_client-undefined_example =
    main_client-undefined (echoing (negsuc 0)) 0 (1 ∷ []) [] (1 ∷ []) 0 [] 0 0 0 0 0 0 0 0 (pos 0)
      [] refl refl Runs.no_more refl refl refl
