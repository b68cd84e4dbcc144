-- ===== src/Tests/HipRuns.antt =====
-- The exchange of hip_example.c with a server that echoes one byte at a time.
use m3sec.Common.{
  ℕ, ◌≤◌, ◌<◌, [], ◌∷◌, ◌++◌, Option, none, some, pos, Bytes, codes, length, take, ◌≡◌, refl, arith,
}
use m3sec.Common.Exec.{Exec, ok}
use m3sec.Hip.{Net, exchange, compared}
use m3sec.Hip.Steps.{Echoes}
use m3sec.Hip.Echo.{exchange-echo}

abbrev gives : {A : Type 0} → A → Exec Bytes A
gives a w = (ok a, w)

abbrev give_one : Bytes → Exec Bytes (Option Bytes)
give_one [] w = (ok none, w)
give_one (c ∷ s) w = (ok (some (c ∷ [])), s)

-- The world is what is on its way back; a send takes one byte of what it is given.
abbrev echo : Net
echo = record {
  World = Bytes;
  Ed = Unit {0};
  Info = Unit {0};
  socket = λ type. gives (pos 3);
  load_pem = gives (pos 0);
  getlocaled = gives none;
  bind = λ fd. gives (pos 0);
  getendpointinfo = λ peer port type. gives (pos 0, []);
  stdin = gives [];
  connect = λ fd info. gives (pos 0);
  send = λ fd s w. (ok (pos (length (take 1 s))), w ++ take 1 s);
  recv = λ fd n w. give_one w w;
  close = λ fd. gives (pos 0);
  free_endpointinfo = λ res. gives tt;
  free_ed = λ ed. gives tt;
}

echo_send :
    (s w : Bytes)
    → 0 < length s
    → (k : ℕ) × ((echo.send (pos 3) s w).0 ≡ ok (pos k))
      × (0 < k)
      × (k ≤ length s)
      × ((echo.send (pos 3) s w).1 ≡ w ++ take k s)
echo_send [] w h = absurd (omega arith)
echo_send (c ∷ s) w h = (1, refl, omega arith, omega arith, refl)

echo_recv :
    (m : ℕ) (w : Bytes)
    → 0 < m
    → 0 < length w
    → (c : ℕ) × (s : Bytes) × ((echo.recv (pos 3) m w).0 ≡ ok (some (c ∷ s)))
      × (length (c ∷ s) ≤ m)
      × (w ≡ (c ∷ s) ++ (echo.recv (pos 3) m w).1)
echo_recv m [] h k = absurd (omega arith)
echo_recv m (c ∷ w) h k = (c, [], refl, omega arith, refl)

abbrev echo-Echoes : Echoes echo (pos 3)
echo-Echoes = record { pending = λ w. w; send_law = echo_send; recv_law = echo_recv }

exchange-echo_example :
    ((exchange echo (pos 3) (codes "abc") 4 0 [] []).0 ≡ ok (some (codes "abc")))
    × (compared echo (codes "abc") (some (codes "abc")) ≡ pos 0)
exchange-echo_example = exchange-echo echo (pos 3) echo-Echoes (codes "abc") [] refl
