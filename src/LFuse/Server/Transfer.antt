-- ===== src/LFuse/Server/Transfer.antt =====
-- fuse/examples/l-fuse/afsfuse_server.c: the handlers that move data, which are getattr, the listing
-- of a directory, read and write. An `int` whose address is given to xdr_long for sending is taken
-- for its value.
pub mod Files
pub mod Names
pub mod Silent
use m3sec.Common.{
  ℕ, zero, suc, ◌+◌, ◌-◌, ◌<◌, Bool, true, false, not, List, [], ◌∷◌, Option, none, some, ℤ, pos,
  negsuc, is_int, is_negative, minus, minus_one, Bytes, length, take, ltb, ◌==◌, if◌then◌else◌,
}
use m3sec.Common.Exec.{Exec, pure, diverge, gets, ◌>>=◌, ◌>>◌}
use m3sec.LFuse.Host.{Host, Dirent, is_err}
use m3sec.LFuse.Server.{with_path, minus_errno, is_allowed_path}

module _ (h : Host) where
  -- The struct is sent behind its length; a call that fails makes the error -1.
  unfoldable send_stat : Bytes → Exec h.World ℤ
  send_stat stemp = do
    sent_length ← h.xdr_put (pos (length stemp))
    nbytes ← h.rx_write stemp
    pure
        (if not sent_length then minus_one else if nbytes == length stemp then pos 0 else minus_one)

  unfoldable got_stat : ℤ × Bytes → Exec h.World ℤ
  got_stat (res, stemp) = if is_err res then minus_errno h else send_stat stemp

  pub rxc_getattr : Bytes → Exec h.World ℤ
  rxc_getattr path =
      with_path h path λ lbuff.
        (if is_allowed_path lbuff == 0 then pure minus_one else (h.lstat lbuff >>= got_stat))

  -- strcpy(t->name, de->d_name) for each entry, into the cells that were counted before, and one
  -- more.
  fill : ℕ → List Dirent → Exec h.World (List Dirent)
  fill cells [] = pure []
  fill zero (de ∷ des) = diverge
  fill (suc cells) (de ∷ des) =
      if ltb (length de.name) 512 then (fill cells des >>= λ rest. pure (de ∷ rest)) else diverge

  second_pass : ℕ → Option (List Dirent) → Exec h.World (ℤ × List Dirent)
  second_pass count none = pure (pos 1, [])
  second_pass count (some des) = fill (count + 1) des >>= λ handles. pure (pos 0, handles)

  first_pass : Bytes → Option (List Dirent) → Exec h.World (ℤ × List Dirent)
  first_pass lbuff none = pure (pos 1, [])
  first_pass lbuff (some des) = h.scan lbuff >>= second_pass (length des)

  pub rxc_getdir : Bytes → Exec h.World (ℤ × List Dirent)
  rxc_getdir path = with_path h path λ lbuff. (h.scan lbuff >>= first_pass lbuff)

  -- if (fd > 0) close(fd);
  close_fd : ℤ → Exec h.World (Unit {0})
  close_fd (pos zero) = pure tt
  close_fd (pos (suc fd)) = h.close (pos (suc fd)) >> pure tt
  close_fd (negsuc n) = pure tt

  -- The length, and then the bytes; a call that fails makes the error 1. The length is read as a
  -- `long` at the address of an `int`: its value is taken for what is sent.
  send_bytes : ℤ → ℕ → Bytes → Exec h.World ℤ
  send_bytes error nbytes buffer = do
    sent_length ← h.xdr_put (pos nbytes)
    written ← h.rx_write (take nbytes buffer)
    pure (if not sent_length then pos 1 else if written == nbytes then error else pos 1)

  -- if (!error) …
  send_unless : ℤ → ℕ → Bytes → Exec h.World ℤ
  send_unless error nbytes buffer =
      if is_int error 0 then send_bytes error nbytes buffer else pure error

  -- rxc_rxc_read behind `pread`: `nbytes = pread(…) == -1` assigns the truth value.
  send_read : ℤ → ℤ × Bytes → Exec h.World ℤ
  send_read error (res, buffer) = do
    errno ← minus_errno h
    send_unless (if is_err res then errno else error) (if is_err res then 1 else 0) buffer

  -- `fd == 0` is taken for the failure of `open`.
  pub rxc_read : Bytes → ℕ → ℕ → Exec h.World ℤ
  rxc_read path size offset = with_path h path λ lbuff. do
    fd ← h.open_file lbuff 0
    let error = if is_int fd 0 then pos 1 else pos 0
    got ← h.pread fd size offset
    error' ← send_read error got
    close_fd fd
    pure error'

  -- rxc_rxc_write: a length that does not come, or is negative, leaves `malloc` and `rx_Read` without
  -- one. The bytes that came, fewer than announced where Rx failed, are written.
  receive : ℕ → Exec h.World (ℤ × Bytes)
  receive announced = do
    buffer ← h.rx_read announced
    if length buffer == announced
        then pure (pos 0, buffer)
        else (h.rx_error >>= λ code. pure (code, buffer))

  write_at : Bytes → ℕ → ℤ × Bytes → Exec h.World ℤ
  write_at lbuff offset (error, buffer) = do
    fd ← h.open_file lbuff 1
    errno ← minus_errno h
    let error1 = if is_int fd 0 then errno else error
    nbytes ← h.pwrite fd buffer offset
    errno1 ← minus_errno h
    let error2 = if is_negative nbytes then errno1 else error1
    close_fd fd
    pure error2

  -- The number is stored at the address of an `int`, where a larger `long` does not fit.
  stored_int : Option ℤ → Exec h.World (Option ℤ)
  stored_int none = pure none
  stored_int (some n) = if ltb 4 h.sizeof_long then diverge else pure (some n)

  write_announced : Bytes → ℕ → Option ℤ → Exec h.World ℤ
  write_announced lbuff offset none = diverge
  write_announced lbuff offset (some (negsuc n)) = diverge
  write_announced lbuff offset (some (pos n)) = receive n >>= write_at lbuff offset

  pub rxc_write : Bytes → ℕ → Exec h.World ℤ
  rxc_write path offset =
      with_path h path λ lbuff. ((h.xdr_get >>= stored_int) >>= write_announced lbuff offset)
