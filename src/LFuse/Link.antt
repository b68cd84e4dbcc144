-- ===== src/LFuse/Link.antt =====
-- A split call of afsfuse.xg between xmp_read or xmp_write of the client and the handler of the
-- server: what is documented of the streams of Rx and XDR at both ends.
use m3sec.Common.{ℕ, true, [], ◌++◌, Option, none, some, ℤ, pos, Bytes, length, ◌≡◌}
use m3sec.Common.Exec.{ok}
use m3sec.LFuse.Host.{Host}
use m3sec.LFuse.Server.Transfer.{rxc_read, rxc_write}
use m3sec.LFuse.Remote.{Remote, FileInfo}
use m3sec.LFuse.Client.Lock.{LockLaws}
use m3sec.LFuse.Client.Composed.{Delivers}

-- The server's end. `of_call b s` is the world `s` in which a call comes with the bytes `b`, and
-- `sent` what its handler has sent. The bytes come in order, Rx takes what it is given, a file can be
-- closed, and the kernel's calls send nothing.
pub record Served (h : Host) : Type 0 where
  pub encode : ℤ → Bytes
  pub of_call : Bytes → h.World → h.World
  pub sent : h.World → Bytes
  pub sent_first : (b : Bytes) (s : h.World) → sent (of_call b s) ≡ []
  pub get_long :
      (n : ℤ) (b : Bytes) (s : h.World)
      → h.xdr_get (of_call (encode n ++ b) s) ≡ (ok (some n), of_call b s)
  pub read_bytes :
      (b : Bytes) (s : h.World) → h.rx_read (length b) (of_call b s) ≡ (ok b, of_call [] s)
  pub put_long :
      (n : ℤ) (s : h.World)
      → (s1 : h.World) × (h.xdr_put n s ≡ (ok true, s1)) × (sent s1 ≡ sent s ++ encode n)
  pub write_bytes :
      (b : Bytes) (s : h.World)
      → (s1 : h.World) × (h.rx_write b s ≡ (ok (length b), s1)) × (sent s1 ≡ sent s ++ b)
  pub open_sent :
      (path : Bytes) (flags : ℕ) (s : h.World) → sent (h.open_file path flags s).1 ≡ sent s
  pub pread_sent :
      (fd : ℤ) (size offset : ℕ) (s : h.World) → sent (h.pread fd size offset s).1 ≡ sent s
  pub close_sent :
      (fd : ℤ) (s : h.World)
      → (res : ℤ) × (s1 : h.World) × (h.close fd s ≡ (ok res, s1)) × (sent s1 ≡ sent s)

-- The client's end. `incoming` is what came and is not yet read, and `writing` the call whose handler
-- waits for its bytes: its path, its offset, and the bytes so far. A read is sent whole by its stub,
-- so that its handler can run; a write when the call ends.
pub record Linked (r : Remote) (h : Host) (l : LockLaws r) (d : Delivers r h) (v : Served h)
    : Type 0 where
  pub incoming : r.World → Bytes
  pub writing : r.World → Option (Bytes × ℕ × Bytes)
  pub new_call_server : (w : r.World) → d.server (r.new_call w).1 ≡ d.server w
  pub start_read :
      (path : Bytes) (size offset : ℕ) (fi : FileInfo) (w : r.World) (code : ℤ) (s1 : h.World)
      → rxc_read h path size offset (v.of_call [] (d.server w)) ≡ (ok code, s1)
      → (w1 : r.World) × (r.start_read path size offset fi w ≡ (ok (pos 0), w1))
        × (incoming w1 ≡ v.sent s1)
        × (l.free w1 ≡ l.free w)
  pub get_long :
      (n : ℤ) (b : Bytes) (w : r.World)
      → incoming w ≡ v.encode n ++ b
      → (w1 : r.World) × (r.xdr_get w ≡ (ok (some n), w1))
        × (incoming w1 ≡ b)
        × (l.free w1 ≡ l.free w)
  pub get_nothing :
      (w : r.World)
      → incoming w ≡ []
      → (w1 : r.World) × (r.xdr_get w ≡ (ok none, w1)) × (l.free w1 ≡ l.free w)
  pub read_nothing :
      (n : ℕ) (w : r.World)
      → incoming w ≡ []
      → (w1 : r.World) × (r.rx_read n w ≡ (ok [], w1)) × (l.free w1 ≡ l.free w)
  pub start_write :
      (path : Bytes) (size offset : ℕ) (fi : FileInfo) (w : r.World)
      → (w1 : r.World) × (r.start_write path size offset fi w ≡ (ok (pos 0), w1))
        × (writing w1 ≡ some (path, offset, []))
        × (d.server w1 ≡ d.server w)
        × (l.free w1 ≡ l.free w)
  pub put_long :
      (n : ℤ) (path : Bytes) (offset : ℕ) (b : Bytes) (w : r.World)
      → writing w ≡ some (path, offset, b)
      → (w1 : r.World) × (r.xdr_put n w ≡ (ok true, w1))
        × (writing w1 ≡ some (path, offset, b ++ v.encode n))
        × (d.server w1 ≡ d.server w)
        × (l.free w1 ≡ l.free w)
  pub write_bytes :
      (bytes path : Bytes) (offset : ℕ) (b : Bytes) (w : r.World)
      → writing w ≡ some (path, offset, b)
      → (w1 : r.World) × (r.rx_write bytes w ≡ (ok (length bytes), w1))
        × (writing w1 ≡ some (path, offset, b ++ bytes))
        × (d.server w1 ≡ d.server w)
        × (l.free w1 ≡ l.free w)
  pub end_write :
      (path : Bytes) (offset : ℕ) (b : Bytes) (w : r.World) (code : ℤ) (s1 : h.World)
      → writing w ≡ some (path, offset, b)
      → rxc_write h path offset (v.of_call b (d.server w)) ≡ (ok code, s1)
      → (w1 : r.World) × (r.end_call (pos 0) w ≡ (ok code, w1))
        × (d.server w1 ≡ s1)
        × (l.free w1 ≡ l.free w)
