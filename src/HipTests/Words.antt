-- ===== src/HipTests/Words.antt =====
-- main of legacy_hip_test.c and of native_hip_test.c, which send the word "hello" and receive into
-- it. No code is looked at. The word is a string literal, so that a byte that is received into it is
-- undefined.
use m3sec.Common.{ℕ, List, [], ◌∷◌, Option, none, some, ℤ, pos, Bytes, codes, ◌≡◌, refl}
use m3sec.Common.Exec.{Exec, ok, running, pure, diverge, ◌>>=◌, ◌>>◌}
use m3sec.HipTests.{Sockets}

abbrev hello : Bytes
hello = codes "hello"

-- What is written into the literal.
pub written : {W : Type 0} → Bytes → Exec W (Unit {0})
written [] = pure tt
written (c ∷ s) = diverge

module _ (n : Sockets) where
  -- for (try = res; try; try = try->ai_next)
  pub connect_all : ℤ → List n.Addr → Exec n.World (Unit {0})
  connect_all sock [] = pure tt
  connect_all sock (addr ∷ rest) = n.connect sock addr >> connect_all sock rest

  -- From `res->ai_family` on, which an empty list does not have.
  pub with_res : Option (List n.Addr) → Exec n.World ℤ
  unfolding connect_all written
  with_res none = diverge
  with_res (some []) = diverge
  with_res (some (first ∷ rest)) = do
    sock ← n.socket first
    connect_all sock (first ∷ rest)
    n.send sock hello
    (bytes, word) ← n.recv sock 5
    written word
    n.close sock
    n.freeaddrinfo (first ∷ rest)
    pure (pos 0)

  -- main of legacy_hip_test.c
  pub main_legacy : Exec n.World ℤ
  unfolding with_res
  main_legacy = do (err, res) ← n.getaddrinfo (codes "www.host.org") (codes "echo"); with_res res

  -- The loop goes through the whole list, also where it has connected.
  pub data Connected (sock : ℤ) : List n.Addr → n.World → n.World → Type 0 where
    no_more : {w : n.World} → Connected sock [] w w
    next :
        {addr : n.Addr} {rest : List n.Addr} (code : ℤ) {w w1 w2 : n.World}
        → n.connect sock addr w ≡ (ok code, w1)
        → Connected sock rest w1 w2
        → Connected sock (addr ∷ rest) w w2

  connect_all-Connected :
      (sock : ℤ) (addrs : List n.Addr) (w w' : n.World)
      → Connected sock addrs w w'
      → connect_all sock addrs w ≡ (ok tt, w')
  unfolding connect_all ◌>>=◌
  connect_all-Connected sock [] w w' no_more = refl
  connect_all-Connected sock (addr ∷ rest) w w' (next code {w1 = w1} e c) =
      rw (e, connect_all-Connected sock rest w1 w' c) refl

  -- If the resolver gives a list, the calls up to the recv return, whatever their codes, and the recv
  -- brings a byte, then the run is undefined: an echo server that answers is enough.
  pub main_legacy-echoed :
      (err sock sent code : ℤ) (first : n.Addr) (rest : List n.Addr) (c : ℕ) (word : Bytes)
      (w w1 w2 w3 w4 w5 : n.World)
      → n.getaddrinfo (codes "www.host.org") (codes "echo") w ≡ (ok (err, some (first ∷ rest)), w1)
      → n.socket first w1 ≡ (ok sock, w2)
      → Connected sock (first ∷ rest) w2 w3
      → n.send sock hello w3 ≡ (ok sent, w4)
      → n.recv sock 5 w4 ≡ (ok (code, c ∷ word), w5)
      → main_legacy w ≡ (running, w5)
  unfolding main_legacy with_res written ◌>>=◌
  main_legacy-echoed err sock sent code first rest c word w w1 w2 w3 w4 w5 e1 e2 con e3 e4 =
      rw (e1, e2, connect_all-Connected sock (first ∷ rest) w2 w3 con, e3, e4) refl

-- The calls of native_hip_test.c on the socket of the family PF_HIP. `bind` is given the address of
-- the user's endpoint; freeaddrinfo is given the list of getendpointinfo, or NULL.
pub record Endpoints : Type 1 where
  pub World : Type 0
  pub load_hip_endpoint_pem : Bytes → Exec World ℤ
  pub setmyeid : Exec World ℤ
  pub socket : Exec World ℤ
  pub bind : ℤ → Exec World ℤ
  pub getendpointinfo : Bytes → Bytes → Exec World ℤ
  pub send : ℤ → Bytes → Exec World ℤ
  pub recv : ℤ → ℕ → Exec World (ℤ × Bytes)
  pub close : ℤ → Exec World ℤ
  pub freeaddrinfo : Exec World (Unit {0})

module _ (n : Endpoints) where
  -- main of native_hip_test.c; nothing connects the socket.
  unfoldable pub main_native : Exec n.World ℤ
  unfolding written
  main_native = do
    n.load_hip_endpoint_pem (codes "/etc/hip/hip_host_dsa_key")
    n.setmyeid
    sockfd ← n.socket
    n.bind sockfd
    n.getendpointinfo (codes "www.host.org") (codes "echo")
    n.send sockfd hello
    (bytes, word) ← n.recv sockfd 5
    written word
    n.close sockfd
    n.freeaddrinfo
    pure (pos 0)
