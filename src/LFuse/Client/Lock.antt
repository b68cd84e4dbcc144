-- ===== src/LFuse/Client/Lock.antt =====
-- The semaphore: what it promises, and that the operations give it back.
use m3sec.Common.{ℕ, suc, Bool, true, false, ℤ, pos, Bytes, ◌≡◌, refl, ap, ◌∙◌}
use m3sec.Common.Exec.{Exec, ok, ◌>>=◌}
use m3sec.Common.Exec.Ensures.{Ensures, Ensures-bind, Ensures-return}
use m3sec.LFuse.Requests.{
  Request, rmdir, mkdir, unlink, truncate, mknod, chmod, chown, utime, symlink, rename, link,
}
use m3sec.LFuse.Remote.{Remote, FileInfo}
use m3sec.LFuse.Client.{
  wait_rounds, getconnection, relconnection, on_connection, with_connection, xmp_oper, u32,
}

-- The action returns and leaves `free` as it was.
abbrev Returns : {W A : Type 0} → (W → ℕ) → Exec W A → Type 0
Returns {W} {A} free m = (w : W) → (a : A) × ((m w).0 ≡ ok a) × (free (m w).1 ≡ free w)

-- A semaphore counts: a wait takes one at once where there is one, a post gives one back, and the
-- calls of Rx, which return, do not touch it.
pub record LockLaws (r : Remote) : Type 0 where
  pub free : r.World → ℕ
  pub wait_law :
      (w : r.World) (n : ℕ)
      → free w ≡ suc n
      → ((r.sem_wait w).0 ≡ ok (pos 0)) × (free (r.sem_wait w).1 ≡ n)
  pub post_law :
      (w : r.World)
      → (res : ℤ) × ((r.sem_post w).0 ≡ ok res) × (free (r.sem_post w).1 ≡ suc (free w))
  pub request_law : (q : Request) → Returns free (r.request q)
  pub new_call_law : Returns free r.new_call
  pub end_call_law : (error : ℤ) → Returns free (r.end_call error)
  pub rx_error_law : Returns free r.rx_error
  pub start_write_law :
      (path : Bytes) (size offset : ℕ) (fi : FileInfo)
      → Returns free (r.start_write path size offset fi)
  pub xdr_put_law : (n : ℤ) → Returns free (r.xdr_put n)
  pub rx_write_law : (buffer : Bytes) → Returns free (r.rx_write buffer)

module _ (r : Remote) where
  getconnection-Ensures :
      {P During : r.World → Type 0} (k : ℕ)
      → ((w : r.World) → P w → ((r.sem_wait w).0 ≡ ok (pos 0)) × During (r.sem_wait w).1)
      → Ensures P (getconnection r (suc k)) (λ local w. (local ≡ true) × During w)
  unfolding getconnection wait_rounds ◌>>=◌
  getconnection-Ensures k taken = record {
    at = λ w p. let (e, d) = taken w p in (true, rw e refl, (refl, rw e d));
  }

  relconnection-Ensures :
      {P After : r.World → Type 0}
      → ((w : r.World) → P w → (res : ℤ) × ((r.sem_post w).0 ≡ ok res) × After (r.sem_post w).1)
      → Ensures P (relconnection r) (λ _. After)
  unfolding relconnection ◌>>=◌
  relconnection-Ensures given = record {
    at = λ w q. let (res, e, h) = given w q in (tt, rw e refl, rw e h);
  }

  on_connection-Ensures :
      {A : Type 0} {During : r.World → Type 0} {Q : A → r.World → Type 0} (body : Exec r.World A)
      → Ensures During body Q
      → (local : Bool) → Ensures (λ w. (local ≡ true) × During w) (on_connection r local body) Q
  unfolding on_connection
  on_connection-Ensures body h true = record { at = λ w p. h.at w p.1 }
  on_connection-Ensures body h false = record { at = λ w p. let q : false ≡ true = p.0 in cc }

  -- The rule for an operation that gives the connection back itself.
  pub on_getconnection-Ensures :
      {A : Type 0} {P During : r.World → Type 0} {Q : A → r.World → Type 0} (k : ℕ)
      (body : Exec r.World A)
      → ((w : r.World) → P w → ((r.sem_wait w).0 ≡ ok (pos 0)) × During (r.sem_wait w).1)
      → Ensures During body Q
      → Ensures P (getconnection r (suc k) >>= λ local. on_connection r local body) Q
  on_getconnection-Ensures k body taken h =
      Ensures-bind (getconnection r (suc k)) _ (getconnection-Ensures k taken)
        λ local. on_connection-Ensures body h local

  -- The rule for what an operation does between its wait and its post.
  pub with_connection-Ensures :
      {A : Type 0} {P During : r.World → Type 0} {Q After : A → r.World → Type 0} (k : ℕ)
      (body : Exec r.World A)
      → ((w : r.World) → P w → ((r.sem_wait w).0 ≡ ok (pos 0)) × During (r.sem_wait w).1)
      → Ensures During body Q
      → ((a : A) (w : r.World)
          → Q a w
          → (res : ℤ) × ((r.sem_post w).0 ≡ ok res) × After a (r.sem_post w).1)
      → Ensures P (with_connection r (suc k) body) After
  unfolding with_connection
  with_connection-Ensures k body taken h given =
      Ensures-bind (getconnection r (suc k)) _ (getconnection-Ensures k taken) λ local.
        Ensures-bind (on_connection r local body) _ (on_connection-Ensures body h local) λ res.
          Ensures-bind (relconnection r) _ (relconnection-Ensures (given res))
            λ _. Ensures-return res (λ _ p. p)

module _ (r : Remote) (l : LockLaws r) where
  -- `n` of the semaphore are free.
  abbrev pub Free : ℕ → r.World → Type 0
  Free n w = l.free w ≡ n

  -- An action that returns keeps the count.
  pub Ensures_of_Returns :
      {A : Type 0} (n : ℕ) (m : Exec r.World A)
      → Returns l.free m
      → Ensures (Free n) m (λ _. Free n)
  Ensures_of_Returns n m h = record { at = λ w p. let (a, e, f) = h w in (a, e, rw f p) }

  -- The end of an operation.
  pub relconnection-releases : (n : ℕ) → Ensures (Free n) (relconnection r) (λ _. Free (suc n))
  relconnection-releases n =
      relconnection-Ensures r λ w q. let (res, e, f) = l.post_law w in (res, e, f ∙ ap suc q)

  -- What keeps the count while the connection is held is an operation that gives it back.
  pub releases :
      {A : Type 0} (n k : ℕ) (body : Exec r.World A)
      → Ensures (Free n) body (λ _. Free n)
      → Ensures (Free (suc n)) (with_connection r (suc k) body) (λ _. Free (suc n))
  releases n k body h =
      with_connection-Ensures r k body (λ w. l.wait_law w n) h
        (λ _ w q. let (res, e, f) = l.post_law w in (res, e, f ∙ ap suc q))

  request-Ensures :
      (q : Request) (n k : ℕ)
      → Ensures (Free (suc n)) (with_connection r (suc k) (r.request q)) (λ _. Free (suc n))
  request-Ensures q n k =
      releases n k (r.request q) (Ensures_of_Returns n (r.request q) (l.request_law q))

  oper-Ensures :
      (q : Request) (n k : ℕ) → Ensures (Free (suc n)) (xmp_oper r (suc k) q) (λ _. Free (suc n))
  unfolding xmp_oper
  oper-Ensures (rmdir path) n k = request-Ensures (rmdir path) n k
  oper-Ensures (unlink path) n k = request-Ensures (unlink path) n k
  oper-Ensures (mkdir path mode) n k = request-Ensures (mkdir path (u32 mode)) n k
  oper-Ensures (truncate path size) n k = request-Ensures (truncate path (u32 size)) n k
  oper-Ensures (chmod path mode) n k = request-Ensures (chmod path (u32 mode)) n k
  oper-Ensures (mknod path mode rdev) n k = request-Ensures (mknod path (u32 mode) (u32 rdev)) n k
  oper-Ensures (chown path uid gid) n k = request-Ensures (chown path (u32 uid) (u32 gid)) n k
  oper-Ensures (utime path at mt) n k = request-Ensures (utime path (u32 at) (u32 mt)) n k
  oper-Ensures (symlink from to) n k = request-Ensures (symlink from to) n k
  oper-Ensures (rename from to) n k = request-Ensures (rename from to) n k
  oper-Ensures (link from to) n k = request-Ensures (link from to) n k

  -- Over a semaphore that counts, and calls of Rx that return and do not touch it: if the semaphore
  -- can be taken, then each operation of `xmp_oper` that sends one request returns, and as many can
  -- take the semaphore as before.
  pub xmp_oper-releases :
      (q : Request) (n k : ℕ) (w : r.World)
      → l.free w ≡ suc n
      → (res : ℤ) × ((xmp_oper r (suc k) q w).0 ≡ ok res)
        × (l.free (xmp_oper r (suc k) q w).1 ≡ suc n)
  xmp_oper-releases q n k w p = (oper-Ensures q n k).at w p
