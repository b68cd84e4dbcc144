-- ===== src/LFuse/Client/Streams.antt =====
-- fuse/examples/l-fuse/afsfuse_client.c: the operations that move data over a call, and the listing
-- of a directory. In xmp_getattr and xmp_write a `goto throwerror` goes to `fail_…`.
pub mod Delivered
pub mod Listing
pub mod Reading
pub mod Silent
pub mod Writing
use m3sec.Common.{
  ℕ, zero, suc, ◌+◌, ◌-◌, Bool, true, false, not, ◌||◌, List, [], ◌∷◌, ◌++◌, Option, none, some, ℤ,
  pos, negsuc, minus_one, is_int, to_int, Bytes, take, length, replicate, ltb, ◌==◌, if◌then◌else◌,
}
use m3sec.Common.Exec.{Exec, pure, diverge, ◌>>=◌, ◌>>◌}
use m3sec.LFuse.Host.{Dirent}
use m3sec.LFuse.Remote.{Remote, FileInfo}
use m3sec.LFuse.Client.{getconnection, on_connection, with_connection, relconnection, u32}

module _ (r : Remote) where
  -- xmp_getattr from `throwerror` on: the error of Rx is the result.
  unfoldable fail_getattr : Bytes → Exec r.World (ℤ × Bytes)
  fail_getattr stbuf = do error ← r.rx_error; r.end_call error; relconnection r; pure (error, stbuf)

  -- The bytes that came. A `struct stat` has 144; `memset(stbuf, 0, sizeof(stbuf))` clears 8.
  unfoldable got_stat : Bytes → Exec r.World (ℤ × Bytes)
  got_stat [] = fail_getattr (replicate 8 0)
  got_stat (c ∷ s) =
      if ltb 144 (length (c ∷ s))
      then diverge
      else (r.end_call (pos 0) >> (relconnection r >> pure (pos 0, c ∷ s)))

  unfoldable got_length : Option ℤ → Exec r.World (ℤ × Bytes)
  got_length none = fail_getattr []
  got_length (some (negsuc n)) = diverge
  got_length (some (pos n)) = r.rx_read n >>= got_stat

  unfoldable started_getattr : ℤ → Exec r.World (ℤ × Bytes)
  started_getattr code = if is_int code 0 then (r.xdr_get >>= got_length) else fail_getattr []

  -- The body of the loop of xmp_read on the bytes that came, with the rounds that follow. `room`
  -- bytes are left in the buffer. The result is the error and all bytes.
  pub next_round : Exec r.World (ℤ × Bytes) → ℕ → Bytes → Bytes → Exec r.World (ℤ × Bytes)
  next_round rounds room got [] = do
    code ← r.rx_error
    pure (if is_int code 0 then pos 0 else pos 1, got)
  next_round rounds room got (c ∷ s) = if ltb room (length (c ∷ s)) then diverge else rounds

  -- while (!error || (length != size)): the test holds until the loop is left by `break`.
  pub read_rounds : ℕ → ℕ → Bytes → Exec r.World (ℤ × Bytes)
  read_rounds zero room got = diverge
  read_rounds (suc fuel) room got = do
    bytes ← r.rx_read 1024
    next_round (read_rounds fuel (room - length bytes) (got ++ bytes)) room got bytes

  -- xmp_read behind `rx_NewCall`. On both ways to `throwerror` the call is not ended. `length` is not
  -- looked at but to be printed.
  length_read : ℕ → ℕ → Option ℤ → Exec r.World (ℤ × Bytes)
  length_read fuel size none = relconnection r >> pure (pos 0, [])
  length_read fuel size (some announced) = do
    res ← read_rounds fuel size []
    r.end_call res.0
    relconnection r
    pure (to_int (length res.1), res.1)

  started_read : ℕ → ℕ → ℤ → Exec r.World (ℤ × Bytes)
  started_read fuel size code =
      if is_int code 0
      then (r.xdr_get >>= length_read fuel size)
      else (relconnection r >> pure (pos 0, []))

  -- xmp_write from `throwerror` on
  fail_write : Exec r.World ℤ
  fail_write = do error ← r.rx_error; relconnection r; pure error

  ended_write : ℕ → ℤ → Exec r.World ℤ
  unfolding fail_write
  ended_write size error =
      if is_int error 0 then (relconnection r >> pure (to_int size)) else fail_write

  sent_write : ℕ → ℕ → Exec r.World ℤ
  unfolding fail_write ended_write
  sent_write size zero = fail_write
  sent_write size (suc nbytes) = r.end_call (pos 0) >>= ended_write size

  -- Behind the length, an `int` that is read as a `long`: its value is taken for what is sent.
  put_write : ℕ → Bytes → Bool → Exec r.World ℤ
  unfolding fail_write sent_write
  put_write size buffer false = fail_write
  put_write size buffer true = r.rx_write (take size buffer) >>= sent_write size

  started_write : ℕ → Bytes → ℤ → Exec r.World ℤ
  unfolding fail_write put_write
  started_write size buffer code =
      if is_int code 0 then (r.xdr_put (to_int size) >>= put_write size buffer) else fail_write

  -- The loop over the entries of xmp_getdir. Its last round, `iter == len`, is one past the last
  -- entry.
  pub give_entries : (Bytes → ℕ → Exec r.World ℤ) → List Dirent → Exec r.World (Unit {0})
  give_entries filler [] = diverge
  give_entries filler (de ∷ des) = do
    res ← filler de.name de.type
    let rest = give_entries filler des in if is_int res 0 then rest else pure tt

  unfoldable got_entries : (Bytes → ℕ → Exec r.World ℤ) → ℤ × List Dirent → Exec r.World ℤ
  got_entries filler (code, handles) =
      if is_int code 0 then (give_entries filler handles >> pure (pos 0)) else pure minus_one

  module _ (fuel : ℕ) where
    -- xmp_getattr, on the path, which is copied to 512 bytes first: the result, and what is written
    -- to `stbuf`.
    unfoldable xmp_getattr : Bytes → Exec r.World (ℤ × Bytes)
    unfolding started_getattr
    xmp_getattr path =
        if ltb 511 (length path)
        then diverge
        else (getconnection r fuel >>= λ local.
            on_connection r local
              do r.new_call; code ← r.start_getattr path 100; started_getattr code)

    -- xmp_read: the result, and what is written to `buffer`, which has `size` bytes. The loop may go
    -- `rounds` rounds.
    pub xmp_read : ℕ → Bytes → ℕ → ℕ → FileInfo → Exec r.World (ℤ × Bytes)
    xmp_read rounds path size offset fi = do
      local ← getconnection r fuel
      on_connection r local do
        r.new_call
        code ← r.start_read path (u32 size) (u32 offset) fi
        started_read rounds size code

    -- Each way through gives the connection back itself.
    pub xmp_write : Bytes → Bytes → ℕ → ℕ → FileInfo → Exec r.World ℤ
    xmp_write path buffer size offset fi = do
      local ← getconnection r fuel
      on_connection r local do
        r.new_call
        code ← r.start_write path (u32 size) (u32 offset) fi
        started_write size buffer code

    unfoldable xmp_getdir : Bytes → (Bytes → ℕ → Exec r.World ℤ) → Exec r.World ℤ
    unfolding got_entries
    xmp_getdir path filler = with_connection r fuel (r.getdir path >>= got_entries filler)
