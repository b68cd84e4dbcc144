-- ===== src/HipTests/Client/Runs.antt =====
-- What legacy_client.c prints where each connection is refused or answered, and what it does where a
-- socket is not created.
use m3sec.Common.{
  ℕ, suc, ◌+◌, ◌%◌, false, List, [], ◌∷◌, ◌++◌, some, Option, ℤ, pos, negsuc, codes, ◌≡◌, refl, sym,
  ap, ◌∙◌, append-nil, append_assoc, ◌==◌, if◌then◌else◌,
}
use m3sec.Common.Exec.{ok, running, ◌>>=◌}
use m3sec.Console.{Chunk, lit}
use m3sec.HipTests.{Sockets}
use m3sec.HipTests.Client.{
  Client, on_world, printf, use_list, free_list, close_sock, give_up, checked_socket, complain_if,
  store_received, compare_data, transfer, after_connect, try_address, try_all, with_list,
  main_client,
}

-- What an address does: it refuses the connection, or answers with a byte.
pub data Try : Type 0 where
  refused : Try
  answered : ℕ → Try

abbrev pub try_line : ℕ → Try → Chunk
try_line sent refused = lit "error: trying next\n"
try_line sent (answered c) =
    if sent == c then lit "Data transfer OK\n" else lit "Data transfer failed\n"

-- The next byte that is sent.
abbrev pub next_byte : ℕ → ℕ
next_byte i = (i + 1) % 256

abbrev pub try_lines : ℕ → List Try → List Chunk
try_lines i [] = []
try_lines i (t ∷ ts) =
    lit "Trying to connect to crossroads.infrahip.net\n" ∷ try_line i t ∷ try_lines (next_byte i) ts

abbrev received_by : ℕ → Try → ℕ
received_by r refused = r
received_by r (answered c) = c

abbrev pub last_received : ℕ → List Try → ℕ
last_received r [] = r
last_received r (t ∷ ts) = last_received (received_by r t) ts

module _ (n : Sockets) (first : n.Addr) where
  -- What the calls do for one address, which is sent the byte.
  pub data Tried : n.Addr → ℕ → Try → n.World → n.World → Type 0 where
    refuses :
        {addr : n.Addr} {sent : ℕ} (sock m : ℕ) (code : ℤ) {w w1 w2 w3 : n.World}
        → n.socket first w ≡ (ok (pos sock), w1)
        → n.connect (pos sock) addr w1 ≡ (ok (negsuc m), w2)
        → n.close (pos sock) w2 ≡ (ok code, w3)
        → Tried addr sent refused w w3
    answers :
        {addr : n.Addr} {sent c : ℕ} (sock k sentnum receivednum : ℕ) (code : ℤ)
        {w w1 w2 w3 w4 w5 : n.World}
        → n.socket first w ≡ (ok (pos sock), w1)
        → n.connect (pos sock) addr w1 ≡ (ok (pos k), w2)
        → n.send (pos sock) (sent ∷ []) w2 ≡ (ok (pos (suc sentnum)), w3)
        → n.recv (pos sock) 1 w3 ≡ (ok (pos (suc receivednum), c ∷ []), w4)
        → n.close (pos sock) w4 ≡ (ok code, w5)
        → Tried addr sent (answered c) w w5

  pub data Tries : List n.Addr → ℕ → List Try → n.World → n.World → Type 0 where
    no_more : {i : ℕ} {w : n.World} → Tries [] i [] w w
    next :
        {addr : n.Addr} {rest : List n.Addr} {i : ℕ} {t : Try} {ts : List Try} {w w1 w2 : n.World}
        → Tried addr i t w w1
        → Tries rest (next_byte i) ts w1 w2
        → Tries (addr ∷ rest) i (t ∷ ts) w w2

  -- The state while the list is there.
  abbrev client : n.World → ℕ → List Chunk → Client n.World
  client w r p = record { world = w; freed = false; received = r; printed = p }

  module _ (res : List n.Addr) where
    try_address-Tried :
        (addr : n.Addr) (i r : ℕ) (t : Try) (w w' : n.World) (p : List Chunk)
        → Tried addr i t w w'
        → try_address n res first addr i (client w r p) ≡ (
          ok tt,
          client w'
              (received_by r t)
              (p ++ lit "Trying to connect to crossroads.infrahip.net\n" ∷ try_line i t ∷ []),
        )
    unfolding try_address use_list on_world checked_socket after_connect transfer complain_if
        store_received compare_data close_sock printf ◌>>=◌
    try_address-Tried addr i r refused w w' p (refuses sock m code e1 e2 e3) =
        rw (e1, e2, e3, append_assoc p (lit "Trying to connect to crossroads.infrahip.net\n" ∷ []))
          refl
    try_address-Tried addr i r (answered c) w w' p
          (answers sock k sentnum receivednum code e1 e2 e3 e4 e5) =
        rw
          (
            e1,
            e2,
            e3,
            e4,
            e5,
            append_assoc p (lit "Trying to connect to crossroads.infrahip.net\n" ∷ []),
          )
          refl

    -- The addresses before others.
    try_all-append :
        (before behind : List n.Addr) (i r : ℕ) (ts : List Try) (w w' : n.World) (p : List Chunk)
        → Tries before i ts w w'
        → (j : ℕ) × (try_all n res first (before ++ behind) i (client w r p)
            ≡ try_all n res first behind j (client w' (last_received r ts) (p ++ try_lines i ts)))
    unfolding try_all use_list ◌>>=◌
    try_all-append [] behind i r [] w w' p no_more =
        (i, ap (λ q. try_all n res first behind i (client w r q)) (sym (append-nil p)))
    try_all-append [] behind i r (t ∷ ts) w w' p y = elim y [ ]
    try_all-append (addr ∷ rest) behind i r [] w w' p y = elim y [ ]
    try_all-append (addr ∷ rest) behind i r (t ∷ ts) w w' p (next {w1 = w1} tried tries) =
        let p1 = p ++ lit "Trying to connect to crossroads.infrahip.net\n" ∷ try_line i t ∷ [] in
        let (j, e) = try_all-append rest behind (next_byte i) (received_by r t) ts w1 w' p1 tries in
        (
          j,
          rw
              (
                try_address-Tried addr i r t w w1 p tried,
                e,
                append_assoc p
                    (lit "Trying to connect to crossroads.infrahip.net\n" ∷ try_line i t ∷ [])
                    (try_lines (next_byte i) ts),
              )
              refl,
        )

    try_all-Tries :
        (addrs : List n.Addr) (i r : ℕ) (ts : List Try) (w w' : n.World) (p : List Chunk)
        → Tries addrs i ts w w'
        → try_all n res first addrs i (client w r p)
          ≡ (ok tt, client w' (last_received r ts) (p ++ try_lines i ts))
    unfolding try_all ◌>>=◌
    try_all-Tries addrs i r ts w w' p tries =
        let (j, e) = try_all-append addrs [] i r ts w w' p tries in
        ap (λ l. try_all n res first l i (client w r p)) (sym (append-nil addrs)) ∙ e

    -- Where the socket is not created.
    try_all-undefined :
        (addr : n.Addr) (rest : List n.Addr) (i r m : ℕ) (code : ℤ) (w w1 w2 w3 : n.World)
        (p : List Chunk)
        → n.socket first w ≡ (ok (negsuc m), w1)
        → n.freeaddrinfo res w1 ≡ (ok tt, w2)
        → n.close (pos 0) w2 ≡ (ok code, w3)
        → (try_all n res first (addr ∷ rest) i (client w r p)).0 ≡ running
    unfolding try_all try_address checked_socket give_up free_list close_sock printf use_list
        on_world ◌>>=◌
    try_all-undefined addr rest i r m code w w1 w2 w3 p e1 e2 e3 = rw (e1, e2, e3) refl

module _ (n : Sockets) where
  abbrev list_of : n.Addr → List n.Addr → ℤ × Option (List n.Addr)
  list_of first rest = (pos 0, some (first ∷ rest))

  -- If the resolver gives a list of addresses, and each of them refuses the connection or answers
  -- with one byte, with a socket for each and no other call failing, then main returns 0, has printed
  -- two lines for each address, in order, which say whether it refused, answered with the byte that it
  -- was sent, from 'a' on, or with another, and has not freed the list.
  pub main_client-Tries :
      (first : n.Addr) (rest : List n.Addr) (ts : List Try) (w w1 w2 : n.World) (r : ℕ)
      (p : List Chunk)
      → n.getaddrinfo (codes "crossroads.infrahip.net") (codes "echo") w
        ≡ (ok (list_of first rest), w1)
      → Tries n first (first ∷ rest) b'a' ts w1 w2
      → main_client n (record { world = w; freed = false; received = r; printed = p }) ≡ (
        ok (pos 0),
        record {
          world = w2;
          freed = false;
          received = last_received r ts;
          printed = p ++ try_lines b'a' ts;
        },
      )
  unfolding main_client with_list on_world ◌>>=◌
  main_client-Tries first rest ts w w1 w2 r p e tries =
      rw (e, try_all-Tries n first (first ∷ rest) (first ∷ rest) b'a' r ts w1 w2 p tries) refl

  -- If the resolver gives a list of addresses, some of them refuse or answer as above, and then a
  -- socket is not created, while freeaddrinfo and close return, then the run is undefined: the list
  -- is used after it was freed.
  pub main_client-undefined :
      (first : n.Addr) (rest before behind : List n.Addr) (addr : n.Addr) (ts : List Try)
      (w w1 w2 w3 w4 w5 : n.World) (r m : ℕ) (code : ℤ) (p : List Chunk)
      → n.getaddrinfo (codes "crossroads.infrahip.net") (codes "echo") w
        ≡ (ok (list_of first rest), w1)
      → first ∷ rest ≡ before ++ addr ∷ behind
      → Tries n first before b'a' ts w1 w2
      → n.socket first w2 ≡ (ok (negsuc m), w3)
      → n.freeaddrinfo (first ∷ rest) w3 ≡ (ok tt, w4)
      → n.close (pos 0) w4 ≡ (ok code, w5)
      → (main_client n (record { world = w; freed = false; received = r; printed = p })).0 ≡ running
  unfolding main_client with_list on_world ◌>>=◌
  main_client-undefined first rest before behind addr ts w w1 w2 w3 w4 w5 r m code p e split tries
        e1 e2 e3 =
      let s = client n first w1 r p in
      let (j, q) =
        try_all-append n first (first ∷ rest) before (addr ∷ behind) b'a' r ts w1 w2 p tries in
      let undefined =
        ap (λ l. (try_all n (first ∷ rest) first l b'a' s).0) split
        ∙ ap (λ x. x.0) q
        ∙ try_all-undefined n first (first ∷ rest) addr behind j (last_received r ts) m code w2 w3
            w4 w5 (p ++ try_lines b'a' ts) e1 e2 e3 in
      rw (e, undefined) refl
