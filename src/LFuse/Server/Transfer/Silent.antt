-- ===== src/LFuse/Server/Transfer/Silent.antt =====
-- What the handler of a read sends.
use m3sec.Common.{
  ℕ, zero, suc, ◌≤◌, ◌<◌, true, [], ◌++◌, ℤ, pos, negsuc, Bytes, codes, length, is_int, minus,
  if◌then◌else◌, ◌≡◌, refl, sym, ap, ◌∙◌, ◌⊎◌, inl, inr, Bool-cases, arith, append-nil,
}
use m3sec.Common.Exec.{ok, ◌>>=◌}
use m3sec.LFuse.Host.{Host, is_err}
use m3sec.LFuse.Server.{with_path, minus_errno}
use m3sec.LFuse.Server.Paths.{translate_path-fits}
use m3sec.LFuse.Server.Transfer.{rxc_read, send_read, send_unless, send_bytes, close_fd}
use m3sec.LFuse.Link.{Served}

module _ (h : Host) (v : Served h) where
  -- The handler has sent the number 0 or nothing.
  abbrev pub Empty : h.World → h.World → Type 0
  Empty s s1 = (v.sent s1 ≡ v.sent s ++ v.encode (pos 0)) ⊎ (v.sent s1 ≡ v.sent s)

  close_fd_lem :
      (fd : ℤ) (s : h.World)
      → (s1 : h.World) × (close_fd h fd s ≡ (ok tt, s1)) × (v.sent s1 ≡ v.sent s)
  unfolding close_fd ◌>>=◌
  close_fd_lem (pos zero) s = (s, refl, refl)
  close_fd_lem (pos (suc fd)) s =
      let (res, s1, e, k) = v.close_sent (pos (suc fd)) s in (s1, rw e refl, k)
  close_fd_lem (negsuc n) s = (s, refl, refl)

  send_nothing :
      (error : ℤ) (buffer : Bytes) (s : h.World)
      → (code : ℤ) × (s1 : h.World) × (send_unless h error 0 buffer s ≡ (ok code, s1)) × Empty s s1
  unfolding send_unless send_bytes ◌>>=◌
  send_nothing error buffer s = elim (Bool-cases (is_int error 0)) [
    | inl e ↦
        let (s1, e1, k1) = v.put_long (pos 0) s in
        let (s2, e2, k2) = v.write_bytes [] s1 in
        (error, s2, rw (e, e1, e2) refl, inl (k2 ∙ append-nil (v.sent s1) ∙ k1))
    | inr e ↦ (error, s, rw e refl, inr refl)
  ]

  negative_sends_nothing :
      (n k : ℕ) (buffer : Bytes) (s : h.World)
      → 0 < n
      → send_unless h (minus n) k buffer s ≡ (ok (minus n), s)
  unfolding send_unless ◌>>=◌
  negative_sends_nothing zero k buffer s lt = absurd (omega arith)
  negative_sends_nothing (suc n) k buffer s lt = refl

  send_read_lem :
      (error res : ℤ) (buffer : Bytes) (s : h.World)
      → (is_err res ≡ true → 0 < h.errno s)
      → (code : ℤ) × (s1 : h.World) × (send_read h error (res, buffer) s ≡ (ok code, s1))
        × Empty s s1
  unfolding send_read minus_errno ◌>>=◌
  send_read_lem error res buffer s failed = elim (Bool-cases (is_err res)) [
    | inl e ↦ (
      minus (h.errno s),
      s,
      rw e (negative_sends_nothing (h.errno s) 1 buffer s (failed e)),
      inr refl,
    )
    | inr e ↦ rw e (send_nothing error buffer s)
  ]

  -- Whatever the file holds, no byte of it is sent.
  pub rxc_read_lem :
      (path : Bytes) (size offset : ℕ) (s s1 s2 : h.World) (fd res : ℤ) (buffer : Bytes)
      → length path ≤ 507
      → h.open_file (codes "/afs" ++ path) 0 s ≡ (ok fd, s1)
      → h.pread fd size offset s1 ≡ (ok (res, buffer), s2)
      → (is_err res ≡ true → 0 < h.errno s2)
      → (code : ℤ) × (s3 : h.World) × (rxc_read h path size offset s ≡ (ok code, s3)) × Empty s s3
  unfolding rxc_read with_path ◌>>=◌
  rxc_read_lem path size offset s s1 s2 fd res buffer fits e1 e2 failed =
      let (code, s3, e3, k3) =
        send_read_lem (if is_int fd 0 then pos 1 else pos 0) res buffer s2 failed in
      let (s4, e4, k4) = close_fd_lem fd s3 in
      let before : v.sent s2 ≡ v.sent s =
        sym (ap (λ p. v.sent p.1) e2)
        ∙ v.pread_sent fd size offset s1
        ∙ sym (ap (λ p. v.sent p.1) e1)
        ∙ v.open_sent (codes "/afs" ++ path) 0 s in
      (
        code,
        s4,
        rw (translate_path-fits path fits, e1, e2, e3, e4) refl,
        elim k3 [
          | inl k ↦ inl (k4 ∙ k ∙ ap (λ b. b ++ v.encode (pos 0)) before)
          | inr k ↦ inr (k4 ∙ k ∙ before)
        ],
      )
