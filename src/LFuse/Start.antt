-- ===== src/LFuse/Start.antt =====
-- main of afsfuse_server.c, and main and GetIpAddress of afsfuse_client.c: Rx is set up, and the
-- server waits for calls, or the client is mounted. On x86-64 a `u_long` has 8 bytes. What is
-- undefined in C has no outcome.
use m3sec.Common.{
  ℕ, ◌<◌, Bool, true, false, not, List, [], ◌∷◌, ◌++◌, Option, none, some, ℤ, pos, negsuc, Bytes,
  codes, length, take, ltb, ◌==◌, if◌then◌else◌, ◌≡◌, ◌≢◌, refl, eq_of_ne, ltb_of_lt,
}
use m3sec.Common.Exec.{Exec, running, ok, pure, diverge, modify, on, ◌>>=◌, ◌>>◌}
use m3sec.LFuse.Host.{is_err}
use m3sec.Console.{Chunk, text, lit, number}

-- The calls of the client. `scan_word` is scanf("%s", …), which gives no word at the end of the
-- input; `gethostbyname` gives h_length and the memory at h_addr, or none for NULL.
pub record Mount : Type 1 where
  pub World : Type 0
  pub sem_init : Exec World ℤ
  pub rx_init : ℕ → Exec World ℤ
  pub scan_word : Exec World (Option Bytes)
  pub gethostbyname : Bytes → Exec World (Option (ℕ × Bytes))
  pub new_security_object : Exec World (Unit {0})
  pub new_connection : Bytes → Exec World (Unit {0})
  pub fuse_main : Exec World ℤ

pub record Terminal (W : Type 0) : Type 0 where
  pub world : W
  pub printed : List Chunk

-- How main ends: by its return, or by a call of exit.
pub data Ending : Type 0 where
  returned : ℤ → Ending
  exited : ℤ → Ending

-- sizeof(u_long)
abbrev u_long_size : ℕ
u_long_size = 8

module _ {W : Type 0} where
  on_world : {A : Type 0} → Exec W A → Exec (Terminal W) A
  on_world = on (λ s. s.world) (λ s w. record s { world = w })

  print : List Chunk → Exec (Terminal W) (Unit {0})
  print line = modify λ s. record s { printed = s.printed ++ line }

module _ (m : Mount) where
  -- The bytes of the address, or none where exit(1) is called.
  checked_length : Option (ℕ × Bytes) → Bytes → Exec (Terminal m.World) (Option Bytes)
  unfolding print
  checked_length none hostname =
      print (lit "host " ∷ text hostname ∷ lit " not found" ∷ []) >> pure none
  checked_length (some (h_length, h_addr)) hostname =
      if h_length == u_long_size
      then pure (some (take u_long_size h_addr))
      else (print (lit "host address is disagreeable length (" ∷ number h_length ∷ lit ")" ∷ [])
          >> pure none)

  get_ip_address : Bytes → Exec (Terminal m.World) (Option Bytes)
  unfolding checked_length on_world
  get_ip_address hostname = do
    hostent ← on_world (m.gethostbyname hostname)
    checked_length hostent hostname

  -- The text in `server`, a buffer of 128 bytes that was cleared.
  abbrev server_name : Option Bytes → Option Bytes
  server_name none = some []
  server_name (some word) = if ltb (length word) 128 then some word else none

  -- From the connection on.
  connect_and_mount : Option Bytes → Exec (Terminal m.World) Ending
  unfolding on_world
  connect_and_mount none = pure (exited (pos 1))
  connect_and_mount (some host) = do
    on_world m.new_security_object
    on_world (m.new_connection host)
    code ← on_world m.fuse_main
    pure (returned code)

  with_server : Option Bytes → Exec (Terminal m.World) Ending
  unfolding get_ip_address connect_and_mount
  with_server none = diverge
  with_server (some []) = get_ip_address (codes "127.0.0.1") >>= connect_and_mount
  with_server (some (c ∷ word)) = get_ip_address (c ∷ word) >>= connect_and_mount

  -- Behind sem_init; the text that `perror` adds is left out.
  after_sem_init : Bool → Exec (Terminal m.World) Ending
  unfolding on_world print with_server
  after_sem_init true = print (lit "Failed to initialize semaphore" ∷ []) >> pure (returned (pos 1))
  after_sem_init false = do
    on_world (m.rx_init 0)
    print (lit "Please Enter the name of the server default: localhost.\n" ∷ [])
    word ← on_world m.scan_word
    with_server (server_name word)

  -- main of the client
  pub main_mount : Exec (Terminal m.World) Ending
  unfolding on_world after_sem_init
  main_mount = do code ← on_world m.sem_init; after_sem_init (is_err code)

  -- If the semaphore is initialised, Rx too, and the word that is entered fits in the buffer and is
  -- not empty, but the host's address has another length than the 8 bytes of a `u_long`, as every
  -- IPv4 address, then the client exits with 1, and has made no connection and mounted nothing.
  main_mount-exits :
      (k h_length : ℕ) (code : ℤ) (c : ℕ) (word h_addr : Bytes) (w w1 w2 w3 w4 : m.World)
      (p : List Chunk)
      → m.sem_init w ≡ (ok (pos k), w1)
      → m.rx_init 0 w1 ≡ (ok code, w2)
      → m.scan_word w2 ≡ (ok (some (c ∷ word)), w3)
      → length (c ∷ word) < 128
      → m.gethostbyname (c ∷ word) w3 ≡ (ok (some (h_length, h_addr)), w4)
      → h_length ≢ 8
      → main_mount (record { world = w; printed = p }) ≡ (
        ok (exited (pos 1)),
        record {
          world = w4;
          printed =
              p
              ++ lit "Please Enter the name of the server default: localhost.\n" ∷ []
              ++ lit "host address is disagreeable length (" ∷ number h_length ∷ lit ")" ∷ [];
        },
      )
  unfolding main_mount after_sem_init with_server get_ip_address checked_length connect_and_mount
      on_world print ◌>>=◌
  main_mount-exits k h_length code c word h_addr w w1 w2 w3 w4 p e1 e2 e3 fits e4 odd =
      rw (e1, e2, e3, ltb_of_lt (length (c ∷ word)) 128 fits, e4, eq_of_ne h_length 8 odd) refl

-- The calls of the server. `new_service` gives the field connDeadTime of the service, or none for
-- NULL; `start_server` gives the thread to Rx.
pub record Listen : Type 1 where
  pub World : Type 0
  pub rx_init : ℕ → Exec World ℤ
  pub new_security_object : Exec World Bool
  pub new_service : Exec World (Option ℕ)
  pub start_server : Exec World (Unit {0})

module _ (n : Listen) (show_int : ℤ → Bytes) where
  complain_if : Bool → Chunk → Exec (Terminal n.World) (Unit {0})
  unfolding print
  complain_if true line = print (line ∷ [])
  complain_if false line = pure tt

  abbrev is_negative : ℤ → Bool
  is_negative (pos k) = false
  is_negative (negsuc k) = true

  -- From the line that prints service->connDeadTime on; the test of the pointer comes after it.
  serve : Option ℕ → Exec (Terminal n.World) ℤ
  unfolding print on_world
  serve none = diverge
  serve (some dead_time) = do
    print (lit "Dead time: " ∷ number dead_time ∷ lit "\n" ∷ [])
    print (lit "Putting thread to pool" ∷ [])
    on_world n.start_server
    print (lit "Going to quit" ∷ [])
    print (lit "StartServer returned?" ∷ [])
    pure (pos 0)

  -- main of the server
  pub main_listen : Exec (Terminal n.World) ℤ
  unfolding print on_world complain_if serve
  main_listen = do
    print (lit "RX Init" ∷ lit "Error for rxinit" ∷ [])
    retcode ← on_world (n.rx_init 5000)
    print (lit "value for retcode is " ∷ text (show_int retcode) ∷ [])
    complain_if (is_negative retcode) (lit "rx_init")
    print (lit "Setting security" ∷ [])
    made ← on_world n.new_security_object
    complain_if (not made) (lit "rxnull_NewServerSecurityObject")
    print (lit "Setting New Service" ∷ [])
    service ← on_world n.new_service
    serve service

  -- If Rx starts and gives a security object but no service, the run is undefined, since the service
  -- is used before it is tested.
  main_listen-no_service :
      (k : ℕ) (w w1 w2 w3 : n.World) (p : List Chunk)
      → n.rx_init 5000 w ≡ (ok (pos k), w1)
      → n.new_security_object w1 ≡ (ok true, w2)
      → n.new_service w2 ≡ (ok none, w3)
      → (main_listen (record { world = w; printed = p })).0 ≡ running
  unfolding main_listen complain_if serve print on_world ◌>>=◌
  main_listen-no_service k w w1 w2 w3 p e1 e2 e3 = rw (e1, e2, e3) refl
