-- ===== src/LFuse/Client/Streams/Delivered.antt =====
-- A write with the server's handler at the other end of the call.
use m3sec.Common.{
  ℕ, zero, suc, ◌≤◌, ◌<◌, ◌^◌, [], ◌++◌, some, ℤ, pos, Bytes, codes, length, take, to_int-pos, ◌≡◌,
  refl, ap, ◌∙◌, arith, length-take,
}
use m3sec.Common.Exec.{ok, ◌>>=◌}
use m3sec.LFuse.Host.{Host}
use m3sec.LFuse.Server.Transfer.{rxc_write}
use m3sec.LFuse.Server.Transfer.Files.{rxc_write-answers}
use m3sec.LFuse.Remote.{Remote, FileInfo}
use m3sec.LFuse.Client.{u32}
use m3sec.LFuse.Client.Lock.{LockLaws}
use m3sec.LFuse.Client.Composed.{Delivers, relconnection-Delivers, on_getconnection-Delivers}
use m3sec.LFuse.Client.Streams.{xmp_write, started_write, put_write, sent_write, ended_write}
use m3sec.LFuse.Link.{Served, Linked}

module _ (r : Remote) (h : Host) (l : LockLaws r) (d : Delivers r h) (v : Served h)
    (k : Linked r h l d v) where
  after_start :
      (path buffer : Bytes) (size offset : ℕ) (w : r.World) (s1 : h.World)
      → 0 < size
      → length (take size buffer) ≡ size
      → size < 2 ^ 31
      → k.writing w ≡ some (path, offset, [])
      → rxc_write h path offset (v.of_call (v.encode (pos size) ++ take size buffer) (d.server w))
        ≡ (ok (pos 0), s1)
      → (w1 : r.World) × (started_write r size buffer (pos 0) w ≡ (ok (pos size), w1))
        × (d.server w1 ≡ s1)
        × (l.free w1 ≡ suc (l.free w))
  unfolding started_write put_write sent_write ended_write ◌>>=◌
  after_start path buffer zero offset w s1 some_bytes long short e run = absurd (omega arith)
  after_start path buffer (suc n) offset w s1 some_bytes long short e run =
      let (w1, e1, p1, d1, f1) = k.put_long (pos (suc n)) path offset [] w e in
      let (w2, e2, p2, d2, f2) =
        k.write_bytes (take (suc n) buffer) path offset (v.encode (pos (suc n))) w1 p1 in
      let (w3, e3, d3, f3) =
        k.end_write path offset (v.encode (pos (suc n)) ++ take (suc n) buffer) w2 (pos 0) s1 p2 (
          ap
            (λ s.
              rxc_write h path offset (v.of_call (v.encode (pos (suc n)) ++ take (suc n) buffer) s))
            (d2 ∙ d1)
          ∙ run) in
      let (w4, e4, d4, f4) = relconnection-Delivers r h l d w3 in
      (
        w4,
        rw (to_int-pos (suc n) short, e1, e2, long, e3, e4)
            (ap (λ z. (ok z, w4)) (to_int-pos (suc n) short)),
        d4 ∙ d3,
        f4 ∙ ap suc (f3 ∙ f2 ∙ f1),
      )

  -- Over a semaphore that counts, and streams of Rx that carry what is put into them: if a `long`
  -- of the server has at most 4 bytes, the semaphore can be taken, the path is not longer than 507
  -- characters, from 1 to 2 ^ 31 - 1 bytes are to be written, which the buffer has, and on the
  -- server the file opens with a descriptor that is not 0 and the kernel's write of just these
  -- bytes, at the offset cut to 32 bits, gives a number, then xmp_write returns the number of all
  -- bytes, also if the kernel's is smaller, the server has made these calls and closed the file,
  -- and the semaphore is given back.
  pub xmp_write-Delivers :
      (path buffer : Bytes) (size offset : ℕ) (fi : FileInfo) (fuel n fd written : ℕ) (res : ℤ)
      (w : r.World) (s1 s2 s3 : h.World)
      → h.sizeof_long ≤ 4
      → l.free w ≡ suc n
      → length path ≤ 507
      → 0 < size
      → size ≤ length buffer
      → size < 2 ^ 31
      → h.open_file (codes "/afs" ++ path) 1 (v.of_call [] (d.server w)) ≡ (ok (pos (suc fd)), s1)
      → h.pwrite (pos (suc fd)) (take size buffer) (u32 offset) s1 ≡ (ok (pos written), s2)
      → h.close (pos (suc fd)) s2 ≡ (ok res, s3)
      → ((xmp_write r (suc fuel) path buffer size offset fi w).0 ≡ ok (pos size))
        × (d.server (xmp_write r (suc fuel) path buffer size offset fi w).1 ≡ s3)
        × (l.free (xmp_write r (suc fuel) path buffer size offset fi w).1 ≡ suc n)
  unfolding xmp_write ◌>>=◌
  xmp_write-Delivers path buffer size offset fi fuel n fd written res w s1 s2 s3 small p fits
        some_bytes enough short e1 e2 e3 =
      let long : length (take size buffer) ≡ size = omega (arith, length-take size buffer) in
      let call = v.of_call (v.encode (pos size) ++ take size buffer) (d.server w) in
      let announced = v.get_long (pos size) (take size buffer) (d.server w) in
      let run : rxc_write h path (u32 offset) call ≡ (ok (pos 0), s3) =
        rxc_write-answers h path (take size buffer) (u32 offset) fd written res call
          (v.of_call (take size buffer) (d.server w)) (v.of_call [] (d.server w)) s1 s2 s3 small
          fits (rw long announced) (v.read_bytes (take size buffer) (d.server w)) e1 e2 e3 in
      on_getconnection-Delivers r h l d (λ s. s ≡ s3) fuel n _ (pos size) w p
        λ w' f server_eq.
          let (u, e4, f4) = l.new_call_law w' in
          let (w2, e5, p5, d5, f5) =
            k.start_write path (u32 size) (u32 offset) fi (r.new_call w').1 in
          let (w3, e6, d6, f6) =
            after_start path buffer size (u32 offset) w2 s3 some_bytes long short p5 (
              ap
                (λ s.
                  rxc_write h path (u32 offset)
                    (v.of_call (v.encode (pos size) ++ take size buffer) s))
                (d5 ∙ k.new_call_server w' ∙ server_eq)
              ∙ run) in
          (w3, rw (e4, e5, e6) refl, d6, f6 ∙ ap suc (f5 ∙ f4 ∙ f))
