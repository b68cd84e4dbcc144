-- ===== src/LFuse/Client/Streams/Writing.antt =====
-- Every way through xmp_write gives the semaphore back.
use m3sec.Common.{
  ℕ, zero, suc, Bool, true, false, ℤ, pos, is_int, Bytes, to_int, take, ◌≡◌, if◌then◌else◌,
}
use m3sec.Common.Exec.{Exec, ok}
use m3sec.Common.Exec.Ensures.{Ensures, Ensures-bind, Ensures-return}
use m3sec.LFuse.Remote.{Remote, FileInfo}
use m3sec.LFuse.Client.{u32}
use m3sec.LFuse.Client.Lock.{
  LockLaws, Free, Ensures_of_Returns, on_getconnection-Ensures, relconnection-releases,
}
use m3sec.LFuse.Client.Streams.{
  xmp_write, started_write, put_write, sent_write, ended_write, fail_write,
}

module _ (r : Remote) (l : LockLaws r) (n : ℕ) where
  -- With the connection held, and at the end given back.
  abbrev GivesBack : {A : Type 0} → Exec r.World A → Type 0
  GivesBack m = Ensures (Free r l n) m (λ _. Free r l (suc n))

  if-GivesBack :
      {A : Type 0} (b : Bool) (x y : Exec r.World A)
      → GivesBack x
      → GivesBack y
      → GivesBack (if b then x else y)
  if-GivesBack true x y hx hy = hx
  if-GivesBack false x y hx hy = hy

  fail_write-GivesBack : GivesBack (fail_write r)
  unfolding fail_write
  fail_write-GivesBack =
      Ensures-bind _ _ (Ensures_of_Returns r l n r.rx_error l.rx_error_law) λ error.
        Ensures-bind _ _ (relconnection-releases r l n) λ _. Ensures-return error (λ _ p. p)

  ended_write-GivesBack : (size : ℕ) (error : ℤ) → GivesBack (ended_write r size error)
  unfolding ended_write
  ended_write-GivesBack size error =
      if-GivesBack (is_int error 0) _ _
        (Ensures-bind _ _ (relconnection-releases r l n)
          λ _. Ensures-return (to_int size) (λ _ p. p))
        fail_write-GivesBack

  sent_write-GivesBack : (size nbytes : ℕ) → GivesBack (sent_write r size nbytes)
  unfolding sent_write
  sent_write-GivesBack size zero = fail_write-GivesBack
  sent_write-GivesBack size (suc nbytes) =
      Ensures-bind _ _ (Ensures_of_Returns r l n (r.end_call (pos 0)) (l.end_call_law (pos 0)))
        (ended_write-GivesBack size)

  put_write-GivesBack :
      (size : ℕ) (buffer : Bytes) (sent : Bool) → GivesBack (put_write r size buffer sent)
  unfolding put_write
  put_write-GivesBack size buffer false = fail_write-GivesBack
  put_write-GivesBack size buffer true =
      Ensures-bind _ _
        (Ensures_of_Returns r l n (r.rx_write (take size buffer))
          (l.rx_write_law (take size buffer)))
        (sent_write-GivesBack size)

  started_write-GivesBack :
      (size : ℕ) (buffer : Bytes) (code : ℤ) → GivesBack (started_write r size buffer code)
  unfolding started_write
  started_write-GivesBack size buffer code =
      if-GivesBack (is_int code 0) _ _
        (Ensures-bind _ _
          (Ensures_of_Returns r l n (r.xdr_put (to_int size)) (l.xdr_put_law (to_int size)))
          (put_write-GivesBack size buffer))
        fail_write-GivesBack

  xmp_write-Ensures :
      (k : ℕ) (path buffer : Bytes) (size offset : ℕ) (fi : FileInfo)
      → Ensures
          (Free r l (suc n))
          (xmp_write r (suc k) path buffer size offset fi)
          (λ _. Free r l (suc n))
  unfolding xmp_write
  xmp_write-Ensures k path buffer size offset fi =
      on_getconnection-Ensures r k _ (λ w. l.wait_law w n)
        (Ensures-bind _ _ (Ensures_of_Returns r l n r.new_call l.new_call_law) λ _.
          Ensures-bind _ _
            (Ensures_of_Returns r l n (r.start_write path (u32 size) (u32 offset) fi)
              (l.start_write_law path (u32 size) (u32 offset) fi))
            (started_write-GivesBack size buffer))

  -- Over a semaphore that counts, and calls of Rx that return and do not touch it: if the semaphore
  -- can be taken, xmp_write returns, whatever Rx answers, and as many can take the semaphore as
  -- before.
  pub xmp_write-releases :
      (k : ℕ) (path buffer : Bytes) (size offset : ℕ) (fi : FileInfo) (w : r.World)
      → l.free w ≡ suc n
      → (res : ℤ) × ((xmp_write r (suc k) path buffer size offset fi w).0 ≡ ok res)
        × (l.free (xmp_write r (suc k) path buffer size offset fi w).1 ≡ suc n)
  xmp_write-releases k path buffer size offset fi w p =
      (xmp_write-Ensures k path buffer size offset fi).at w p
