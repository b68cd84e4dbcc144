-- ===== src/Hip.antt =====
-- hip/tests_old/hip_example.c: the input is sent over a HIP socket to a server that is to echo it,
-- and what comes back is compared. The lines that `printf` and `perror` write, and the time that the
-- connection takes, are left out.
pub mod Steps
pub mod Echo
pub mod Ends
use m3sec.Common.{
  ℕ, zero, suc, ◌+◌, ◌-◌, ◌<◌, Bool, true, false, not, ◌||◌, List, [], ◌∷◌, ◌++◌, Option, none,
  some, ℤ, pos, negsuc, is_int, Bytes, codes, length, take, drop, replicate, ltb, ◌==◌,
  if◌then◌else◌, eq_bytes,
}
use m3sec.Common.Exec.{Exec, pure, diverge, ◌>>=◌, ◌>>◌}
use m3sec.LFuse.Host.{is_err}

-- The socket type, with the protocol that goes with it.
pub data SockType : Type 0 where
  sock_stream sock_dgram : SockType

-- The calls of the resolver and of the socket, which give a code. `getlocaled` gives an address, or
-- `none` for NULL; `getendpointinfo` gives its list, whose members `connect` is given. `recv` gives
-- the bytes that came, or `none` where its result is negative. `bind` is given the address of the
-- variable `my_ed`, so not the address that it points at.
pub record Net : Type 1 where
  pub World : Type 0
  pub Ed : Type 0
  pub Info : Type 0
  pub socket : SockType → Exec World ℤ
  pub load_pem : Exec World ℤ
  pub getlocaled : Exec World (Option Ed)
  pub bind : ℤ → Exec World ℤ
  pub getendpointinfo : Bytes → Bytes → SockType → Exec World (ℤ × List Info)
  pub stdin : Exec World Bytes
  pub connect : ℤ → Info → Exec World ℤ
  pub send : ℤ → Bytes → Exec World ℤ
  pub recv : ℤ → ℕ → Exec World (Option Bytes)
  pub close : ℤ → Exec World ℤ
  pub free_endpointinfo : List Info → Exec World (Unit {0})
  pub free_ed : Ed → Exec World (Unit {0})

abbrev ip_maxpacket : ℕ
ip_maxpacket = 65535

module _ (n : Net) (sockfd : ℤ) (sent_data : Bytes) where
  -- `datasent` behind a send; `none` is the way to `out`.
  abbrev sent_so_far : ℕ → ℤ → Option ℕ
  sent_so_far datasent (pos sendnum) = some (datasent + sendnum)
  sent_so_far datasent (negsuc m) = none

  pub send_some : ℕ → Exec n.World (Option ℕ)
  send_some datasent =
      if ltb datasent (length sent_data)
      then (n.send sockfd (drop datasent sent_data) >>= λ sendnum.
          pure (sent_so_far datasent sendnum))
      else pure (some datasent)

  -- `receiveddata` behind a recv.
  abbrev received_so_far : Bytes → Option Bytes → Option Bytes
  received_so_far received none = none
  received_so_far received (some []) = none
  received_so_far received (some (c ∷ s)) = some (received ++ c ∷ s)

  pub recv_some : Bytes → Exec n.World (Option Bytes)
  recv_some received =
      if ltb (length received) (length sent_data)
      then (n.recv sockfd (length sent_data - length received) >>= λ got.
          pure (received_so_far received got))
      else pure (some received)

  pub after_recv :
      (Bytes → Exec n.World (Option Bytes)) → Option Bytes → Exec n.World (Option Bytes)
  after_recv rounds none = pure none
  after_recv rounds (some received) = rounds received

  pub after_send :
      (ℕ → Bytes → Exec n.World (Option Bytes)) → Bytes → Option ℕ → Exec n.World (Option Bytes)
  unfolding after_recv recv_some
  after_send rounds received none = pure none
  after_send rounds received (some datasent) = recv_some received >>= after_recv (rounds datasent)

  -- while ((datasent < datalen) || (datareceived < datalen)): what was received, or `none` on an
  -- error.
  pub exchange : ℕ → ℕ → Bytes → Exec n.World (Option Bytes)
  unfolding send_some after_send
  exchange zero datasent received = diverge
  exchange (suc fuel) datasent received =
      let round = send_some datasent >>= after_send (exchange fuel) received in
      if ltb datasent (length sent_data) || ltb (length received) (length sent_data)
      then round
      else pure (some received)

-- A buffer of IP_MAXPACKET bytes that was cleared.
pub buffer_of : Bytes → Bytes
buffer_of s = s ++ replicate (ip_maxpacket - length s) 0

module _ (n : Net) where
  -- if (sockfd) close(sockfd);
  close_socket : ℤ → Exec n.World (Unit {0})
  close_socket sockfd = if is_int sockfd 0 then pure tt else (n.close sockfd >> pure tt)

  free_res : List n.Info → Exec n.World (Unit {0})
  free_res [] = pure tt
  free_res (i ∷ is) = n.free_endpointinfo (i ∷ is)

  free_my_ed : Option n.Ed → Exec n.World (Unit {0})
  free_my_ed none = pure tt
  free_my_ed (some ed) = n.free_ed ed

  -- From `out:` on.
  pub out : ℤ → List n.Info → Option n.Ed → ℤ → Exec n.World ℤ
  unfolding close_socket free_res free_my_ed
  out sockfd res my_ed err = do close_socket sockfd; free_res res; free_my_ed my_ed; pure err

  -- while (epinfo): each round connects to the first of the list. The last code.
  connect_rounds : ℤ → n.Info → List n.Info → Exec n.World ℤ
  connect_rounds sockfd first [] = pure (pos 0)
  connect_rounds sockfd first (epinfo ∷ rest) = do
    err ← n.connect sockfd first
    let more = connect_rounds sockfd first rest in if is_int err 0 then more else pure err

  -- The error behind the comparison of the two buffers.
  pub compared : Bytes → Option Bytes → ℤ
  unfolding buffer_of
  compared sent_data none = pos 1
  compared sent_data (some received) =
      if eq_bytes (buffer_of sent_data) (buffer_of received) then pos 0 else pos 1

  -- `fuel` is the number of rounds that the exchange may take.
  module _ (fuel : ℕ) where
    transfer : ℤ → Bytes → Exec n.World ℤ
    unfolding compared
    transfer sockfd sent_data =
        exchange n sockfd sent_data fuel 0 [] >>= λ received. pure (compared sent_data received)

    connected : ℤ → Bytes → ℤ → Exec n.World ℤ
    unfolding transfer
    connected sockfd sent_data err = if is_int err 0 then transfer sockfd sent_data else pure err

    -- `res->ei_family` of an empty list is undefined. At most IP_MAXPACKET bytes are read.
    looked_up : ℤ → ℤ × List n.Info → Exec n.World ℤ
    unfolding connected connect_rounds
    looked_up sockfd (err, []) = if is_int err 0 then diverge else pure err
    looked_up sockfd (err, i ∷ is) =
        if is_int err 0
        then (n.stdin >>= λ input.
            connect_rounds sockfd i (i ∷ is) >>= connected sockfd (take ip_maxpacket input))
        else pure err

    bound : ℤ → Bytes → Bytes → SockType → n.Ed → ℤ → Exec n.World ℤ
    unfolding looked_up out
    bound sockfd peer port type ed err =
        if is_int err 0
        then (n.getendpointinfo peer port type >>= λ found.
            looked_up sockfd found >>= out sockfd found.1 (some ed))
        else out sockfd [] (some ed) err

    localed : ℤ → Bytes → Bytes → SockType → Option n.Ed → Exec n.World ℤ
    unfolding bound out
    localed sockfd peer port type none = out sockfd [] none (pos 1)
    localed sockfd peer port type (some ed) = n.bind sockfd >>= bound sockfd peer port type ed

    loaded : ℤ → Bytes → Bytes → SockType → ℤ → Exec n.World ℤ
    unfolding localed out
    loaded sockfd peer port type err =
        if is_int err 0
        then (n.getlocaled >>= localed sockfd peer port type)
        else out sockfd [] none err

    created : Bytes → Bytes → SockType → ℤ → Exec n.World ℤ
    unfolding loaded out
    created peer port type sockfd =
        if is_err sockfd
        then out sockfd [] none (pos 1)
        else (n.load_pem >>= loaded sockfd peer port type)

    -- The transport protocol, by its name.
    pub sock_type : Bytes → Option SockType
    sock_type proto_name =
        if eq_bytes proto_name (codes "tcp")
        then some sock_stream
        else if eq_bytes proto_name (codes "udp")
        then some sock_dgram
        else none

    with_type : Bytes → Bytes → Option SockType → Exec n.World ℤ
    unfolding created out
    with_type peer port none = out (pos 0) [] none (pos 1)
    with_type peer port (some type) = n.socket type >>= created peer port type

    -- main, on `argv`
    pub main_hip : List Bytes → Exec n.World ℤ
    unfolding with_type sock_type out
    main_hip (program ∷ peer_name ∷ proto_name ∷ peer_port_name ∷ []) =
        with_type peer_name peer_port_name (sock_type proto_name)
    main_hip argv = out (pos 0) [] none (pos 1)
