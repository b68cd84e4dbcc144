-- ===== src/HipTests/Client.antt =====
-- main of legacy_client.c: every address of the server is tried with a byte of its own.
pub mod Runs
use m3sec.Common.{
  ℕ, ◌+◌, ◌%◌, Bool, true, false, not, List, [], ◌∷◌, ◌++◌, Option, none, some, ℤ, pos, negsuc,
  zero, suc, Bytes, codes, ◌==◌, if◌then◌else◌,
}
use m3sec.Common.Exec.{Exec, pure, diverge, gets, modify, on, ◌>>=◌, ◌>>◌}
use m3sec.Console.{Chunk, lit}
use m3sec.HipTests.{Sockets}

-- `freed` is whether the address list was freed, and `received` is receiveddata[0].
pub record Client (W : Type 0) : Type 0 where
  pub world : W
  pub freed : Bool
  pub received : ℕ
  pub printed : List Chunk

abbrev is_negative : ℤ → Bool
is_negative (pos n) = false
is_negative (negsuc n) = true

-- `… <= 0`
abbrev not_positive : ℤ → Bool
not_positive (pos zero) = true
not_positive (pos (suc n)) = false
not_positive (negsuc n) = true

module _ (n : Sockets) where
  pub on_world : {A : Type 0} → Exec n.World A → Exec (Client n.World) A
  on_world = on (λ s. s.world) (λ s w. record s { world = w })

  pub printf : Chunk → Exec (Client n.World) (Unit {0})
  printf line = modify λ s. record s { printed = s.printed ++ line ∷ [] }

  -- The memory of the address list is used.
  abbrev unless_freed : Bool → Exec (Client n.World) (Unit {0})
  unless_freed true = diverge
  unless_freed false = pure tt

  pub use_list : Exec (Client n.World) (Unit {0})
  use_list = gets (λ s. s.freed) >>= unless_freed

  -- freeaddrinfo(res);
  pub free_list : List n.Addr → Exec (Client n.World) (Unit {0})
  unfolding use_list on_world
  free_list res = do use_list; on_world (n.freeaddrinfo res); modify λ s. record s { freed = true }

  -- close(sock);
  pub close_sock : ℤ → Exec (Client n.World) (Unit {0})
  unfolding on_world
  close_sock sock = on_world (n.close sock) >> pure tt

  -- A complaint, after which the code goes on.
  pub give_up : List n.Addr → ℤ → Chunk → Exec (Client n.World) (Unit {0})
  unfolding printf free_list close_sock
  give_up res sock line = do printf line; free_list res; close_sock sock

  module _ (res : List n.Addr) where
    -- The socket, or 0 where there is none.
    pub checked_socket : ℤ → Exec (Client n.World) ℤ
    unfolding give_up
    checked_socket (pos sock) = pure (pos sock)
    checked_socket (negsuc m) = give_up res (pos 0) (lit "socket creation failed\n") >> pure (pos 0)

    pub complain_if : Bool → ℤ → Chunk → Exec (Client n.World) (Unit {0})
    unfolding give_up
    complain_if true sock line = give_up res sock line
    complain_if false sock line = pure tt

    -- The first of the bytes is stored in receiveddata.
    pub store_received : Bytes → Exec (Client n.World) (Unit {0})
    store_received [] = pure tt
    store_received (c ∷ s) = modify λ st. record st { received = c }

    -- if (!memcmp(sentdata, receiveddata, 1))
    pub compare_data : ℕ → Exec (Client n.World) (Unit {0})
    unfolding printf
    compare_data sent = do
      received ← gets (λ s. s.received)
      printf (if sent == received then lit "Data transfer OK\n" else lit "Data transfer failed\n")

    -- From the send on.
    pub transfer : ℕ → ℤ → Exec (Client n.World) (Unit {0})
    unfolding on_world complain_if store_received compare_data close_sock
    transfer sent sock = do
      sentnum ← on_world (n.send sock (sent ∷ []))
      complain_if (not_positive sentnum) sock (lit "Sending failed\n")
      (receivednum, bytes) ← on_world (n.recv sock 1)
      store_received bytes
      complain_if (not_positive receivednum) sock (lit "Receive failed\n")
      compare_data sent
      close_sock sock

    -- From the connect on: `continue`, or the transfer.
    pub after_connect : ℕ → ℤ → Bool → Exec (Client n.World) (Unit {0})
    unfolding transfer close_sock printf
    after_connect sent sock true = close_sock sock >> printf (lit "error: trying next\n")
    after_connect sent sock false = transfer sent sock

    -- The body of the loop; `first` is *res and `addr` is *try.
    pub try_address : n.Addr → n.Addr → ℕ → Exec (Client n.World) (Unit {0})
    unfolding use_list on_world checked_socket after_connect printf
    try_address first addr sent = do
      use_list
      created ← on_world (n.socket first)
      sock ← checked_socket created
      printf (lit "Trying to connect to crossroads.infrahip.net\n")
      use_list
      err ← on_world (n.connect sock addr)
      after_connect sent sock (is_negative err)

    -- for (try = res; try != NULL; try = try->ai_next, i++)
    pub try_all : n.Addr → List n.Addr → ℕ → Exec (Client n.World) (Unit {0})
    unfolding try_address use_list
    try_all first [] i = pure tt
    try_all first (addr ∷ rest) i = do
      try_address first addr i
      use_list
      try_all first rest ((i + 1) % 256)

  -- With the result of getaddrinfo, whose code is not looked at; `i` is 'a' at first.
  pub with_list : ℤ × Option (List n.Addr) → Exec (Client n.World) ℤ
  unfolding try_all
  with_list (err, none) = diverge
  with_list (err, some []) = pure (pos 0)
  with_list (err, some (first ∷ rest)) =
      try_all (first ∷ rest) first (first ∷ rest) b'a' >> pure (pos 0)

  pub main_client : Exec (Client n.World) ℤ
  unfolding with_list on_world
  main_client =
      on_world (n.getaddrinfo (codes "crossroads.infrahip.net") (codes "echo")) >>= with_list
