-- ===== src/LFuse/Client/Streams/Silent.antt =====
-- A read with the server's handler at the other end of the call.
use m3sec.Common.{
  ℕ, suc, ◌≤◌, ◌<◌, true, [], ◌++◌, ℤ, pos, Bytes, codes, length, is_int, to_int-pos, if◌then◌else◌,
  ◌≡◌, refl, sym, ap, ◌∙◌, ◌⊎◌, inl, inr, arith, append-nil,
}
use m3sec.Common.Exec.{ok, ◌>>=◌}
use m3sec.LFuse.Host.{Host, is_err}
use m3sec.LFuse.Server.Transfer.{rxc_read}
use m3sec.LFuse.Server.Transfer.Silent.{Empty, rxc_read_lem}
use m3sec.LFuse.Remote.{Remote, FileInfo}
use m3sec.LFuse.Client.{u32}
use m3sec.LFuse.Client.Lock.{LockLaws}
use m3sec.LFuse.Client.Composed.{Delivers, relconnection-Delivers, on_getconnection-Delivers}
use m3sec.LFuse.Client.Streams.{read_rounds, next_round, xmp_read, started_read, length_read}
use m3sec.LFuse.Link.{Served, Linked}

module _ (r : Remote) (h : Host) (l : LockLaws r) (d : Delivers r h) (v : Served h)
    (k : Linked r h l d v) where
  -- What comes in is the number 0 or nothing: the client leaves the loop at once.
  after_start :
      (rounds size : ℕ) (w : r.World)
      → (k.incoming w ≡ v.encode (pos 0)) ⊎ (k.incoming w ≡ [])
      → (w1 : r.World) × (started_read r (suc rounds) size (pos 0) w ≡ (ok (pos 0, []), w1))
        × (l.free w1 ≡ suc (l.free w))
  unfolding started_read length_read read_rounds next_round ◌>>=◌
  after_start rounds size w (inl e) =
      let (w1, e1, i1, f1) = k.get_long (pos 0) [] w (e ∙ sym (append-nil (v.encode (pos 0)))) in
      let (w2, e2, f2) = k.read_nothing 1024 w1 i1 in
      let (code, e3, f3) = l.rx_error_law w2 in
      let error = if is_int code 0 then pos 0 else pos 1 in
      let (res, e4, f4) = l.end_call_law error (r.rx_error w2).1 in
      let (w5, e5, d5, f5) =
        relconnection-Delivers r h l d (r.end_call error (r.rx_error w2).1).1 in
      (
        w5,
        rw (e1, e2, e3, e4, e5) (ap (λ z. (ok (z, []), w5)) (to_int-pos 0 (omega arith))),
        f5 ∙ ap suc (f4 ∙ f3 ∙ f2 ∙ f1),
      )
  after_start rounds size w (inr e) =
      let (w1, e1, f1) = k.get_nothing w e in
      let (w2, e2, d2, f2) = relconnection-Delivers r h l d w1 in
      (w2, rw (e1, e2) refl, f2 ∙ ap suc f1)

  came :
      (s3 s : h.World) (w : r.World)
      → k.incoming w ≡ v.sent s3
      → Empty h v s s3
      → v.sent s ≡ []
      → (k.incoming w ≡ v.encode (pos 0)) ⊎ (k.incoming w ≡ [])
  came s3 s w e (inl q) z = inl (e ∙ q ∙ ap (λ b. b ++ v.encode (pos 0)) z)
  came s3 s w e (inr q) z = inr (e ∙ q ∙ z)

  -- Over a semaphore that counts, and streams of Rx that carry what is put into them: if the
  -- semaphore can be taken, the path is not longer than 507 characters, and the kernel's open and
  -- read return on the server, the read with errno set where it gives -1, then xmp_read returns 0
  -- and no byte, whatever the kernel read, and has given the semaphore back.
  pub xmp_read-Empty :
      (path : Bytes) (size offset : ℕ) (fi : FileInfo) (fuel rounds n : ℕ) (w : r.World)
      (s1 s2 : h.World) (fd res : ℤ) (buffer : Bytes)
      → l.free w ≡ suc n
      → length path ≤ 507
      → h.open_file (codes "/afs" ++ path) 0 (v.of_call [] (d.server w)) ≡ (ok fd, s1)
      → h.pread fd (u32 size) (u32 offset) s1 ≡ (ok (res, buffer), s2)
      → (is_err res ≡ true → 0 < h.errno s2)
      → ((xmp_read r (suc fuel) (suc rounds) path size offset fi w).0 ≡ ok (pos 0, []))
        × (l.free (xmp_read r (suc fuel) (suc rounds) path size offset fi w).1 ≡ suc n)
  unfolding xmp_read ◌>>=◌
  xmp_read-Empty path size offset fi fuel rounds n w s1 s2 fd res buffer p fits e1 e2 failed =
      let (code, s3, e3, sent) =
        rxc_read_lem h v path (u32 size) (u32 offset) (v.of_call [] (d.server w)) s1 s2 fd res
          buffer fits e1 e2 failed in
      let (e, t, f) =
        on_getconnection-Delivers r h l d (λ _. Unit {0}) fuel n _ (pos 0, []) w p
          λ w' f server_eq.
            let (u, e4, f4) = l.new_call_law w' in
            let (w2, e5, i5, f5) =
              k.start_read path (u32 size) (u32 offset) fi (r.new_call w').1 code s3 (
                ap (λ s. rxc_read h path (u32 size) (u32 offset) (v.of_call [] s))
                  (k.new_call_server w' ∙ server_eq)
                ∙ e3) in
            let (w3, e6, f6) =
              after_start rounds size w2
                (came s3 (v.of_call [] (d.server w)) w2 i5 sent (v.sent_first [] (d.server w))) in
            (w3, rw (e4, e5, e6) refl, tt, f6 ∙ ap suc (f5 ∙ f4 ∙ f)) in
      (e, f)
