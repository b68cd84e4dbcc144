-- ===== src/LFuse/Server/Transfer/Files.antt =====
-- What a read and a write of the server come to.
use m3sec.Common.{
  ℕ, suc, ◌≤◌, true, [], ◌++◌, some, ℤ, pos, Bytes, codes, length, ◌≡◌, refl, arith, eq_refl,
  eq_of_ne, ltb_of_le, ltb_of_lt, ◌<◌,
}
use m3sec.Common.Exec.{ok, running, ◌>>=◌}
use m3sec.LFuse.Host.{Host}
use m3sec.LFuse.Server.{with_path, minus_errno}
use m3sec.LFuse.Server.Paths.{translate_path-fits}
use m3sec.LFuse.Server.Transfer.{
  rxc_read, rxc_write, send_read, send_unless, send_bytes, close_fd, write_announced, write_at,
  stored_int, receive,
}

module _ (h : Host) where
  -- If the file opens with a descriptor that is not 0, the kernel's read gives some bytes, and Rx
  -- takes what it is given, then the server announces 0 bytes, sends none, closes the file and
  -- answers 0, whatever was read.
  rxc_read-sends_nothing :
      (path buffer : Bytes) (size offset fd n : ℕ) (res : ℤ) (w w1 w2 w3 w4 w5 : h.World)
      → length path ≤ 507
      → h.open_file (codes "/afs" ++ path) 0 w ≡ (ok (pos (suc fd)), w1)
      → h.pread (pos (suc fd)) size offset w1 ≡ (ok (pos n, buffer), w2)
      → h.xdr_put (pos 0) w2 ≡ (ok true, w3)
      → h.rx_write [] w3 ≡ (ok 0, w4)
      → h.close (pos (suc fd)) w4 ≡ (ok res, w5)
      → rxc_read h path size offset w ≡ (ok (pos 0), w5)
  unfolding rxc_read with_path send_read send_unless send_bytes close_fd minus_errno ◌>>=◌
  rxc_read-sends_nothing path buffer size offset fd n res w w1 w2 w3 w4 w5 fits e1 e2 e3 e4 e5 =
      rw
        (
          translate_path-fits path fits,
          e1,
          e2,
          eq_of_ne (suc fd) 0 (λ q. absurd (omega arith)),
          e3,
          e4,
          e5,
        )
        refl

  -- If a `long` has at most 4 bytes, the announced bytes come, the file opens with a descriptor that
  -- is not 0, and the kernel's write gives a number of bytes, then the server answers 0, also if the
  -- number is smaller.
  pub rxc_write-answers :
      (path buffer : Bytes) (offset fd n : ℕ) (res : ℤ) (w w1 w2 w3 w4 w5 : h.World)
      → h.sizeof_long ≤ 4
      → length path ≤ 507
      → h.xdr_get w ≡ (ok (some (pos (length buffer))), w1)
      → h.rx_read (length buffer) w1 ≡ (ok buffer, w2)
      → h.open_file (codes "/afs" ++ path) 1 w2 ≡ (ok (pos (suc fd)), w3)
      → h.pwrite (pos (suc fd)) buffer offset w3 ≡ (ok (pos n), w4)
      → h.close (pos (suc fd)) w4 ≡ (ok res, w5)
      → rxc_write h path offset w ≡ (ok (pos 0), w5)
  unfolding rxc_write stored_int with_path write_announced write_at receive close_fd minus_errno
      ◌>>=◌
  rxc_write-answers path buffer offset fd n res w w1 w2 w3 w4 w5 small fits e1 e2 e3 e4 e5 =
      rw
        (
          translate_path-fits path fits,
          e1,
          ltb_of_le 4 h.sizeof_long small,
          e2,
          eq_refl (length buffer),
          e3,
          eq_of_ne (suc fd) 0 (λ q. absurd (omega arith)),
          e4,
          e5,
        )
        refl

  -- If a `long` has more than 4 bytes, as on x86-64, the path is not longer than 507 characters and a
  -- length comes, then the handler of a write is undefined.
  rxc_write-undefined :
      (path : Bytes) (offset : ℕ) (announced : ℤ) (w w1 : h.World)
      → 4 < h.sizeof_long
      → length path ≤ 507
      → h.xdr_get w ≡ (ok (some announced), w1)
      → (rxc_write h path offset w).0 ≡ running
  unfolding rxc_write stored_int with_path ◌>>=◌
  rxc_write-undefined path offset announced w w1 large fits e =
      rw (translate_path-fits path fits, e, ltb_of_lt 4 h.sizeof_long large) refl
