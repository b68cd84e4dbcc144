-- ===== src/LFuse/Client/Composed.antt =====
-- The client over a transport that carries each request to the server.
use m3sec.Common.{ℕ, suc, ℤ, pos, ◌≡◌, refl, ap, ◌∙◌, if◌then◌else◌}
use m3sec.Common.Exec.{Exec, ok, ◌>>=◌}
use m3sec.Common.Exec.Ensures.{Ensures}
use m3sec.LFuse.Requests.{
  Request, rmdir, mkdir, unlink, truncate, mknod, chmod, chown, utime, symlink, rename, link,
}
use m3sec.LFuse.Host.{Host, is_err}
use m3sec.LFuse.Server.{answer}
use m3sec.LFuse.Server.Calls.{kernel_call, code_of, Fits, answer_lem}
use m3sec.LFuse.Remote.{Remote}
use m3sec.LFuse.Client.{with_connection, getconnection, on_connection, relconnection, xmp_oper, u32}
use m3sec.LFuse.Client.Lock.{LockLaws, with_connection-Ensures, on_getconnection-Ensures}

-- The world of the client has the server's in it. The semaphore is not the server's business, and a
-- stub gives what the handler of the request gives.
pub record Delivers (r : Remote) (h : Host) : Type 0 where
  pub server : r.World → h.World
  pub wait_server : (w : r.World) → server (r.sem_wait w).1 ≡ server w
  pub post_server : (w : r.World) → server (r.sem_post w).1 ≡ server w
  pub request_delivers :
      (q : Request) (w : r.World) (res : ℤ) (s1 : h.World)
      → answer h q (server w) ≡ (ok res, s1)
      → ((r.request q w).0 ≡ ok res) × (server (r.request q w).1 ≡ s1)

-- A request with its numbers as they are sent.
abbrev narrow : Request → Request
narrow (rmdir path) = rmdir path
narrow (unlink path) = unlink path
narrow (mkdir path mode) = mkdir path (u32 mode)
narrow (truncate path size) = truncate path (u32 size)
narrow (chmod path mode) = chmod path (u32 mode)
narrow (mknod path mode rdev) = mknod path (u32 mode) (u32 rdev)
narrow (chown path uid gid) = chown path (u32 uid) (u32 gid)
narrow (utime path at mt) = utime path (u32 at) (u32 mt)
narrow (symlink from to) = symlink from to
narrow (rename from to) = rename from to
narrow (link from to) = link from to

module _ (r : Remote) (h : Host) (l : LockLaws r) (d : Delivers r h) where
  pub relconnection-Delivers :
      (w : r.World)
      → (w1 : r.World) × (relconnection r w ≡ (ok tt, w1))
        × (d.server w1 ≡ d.server w)
        × (l.free w1 ≡ suc (l.free w))
  unfolding relconnection ◌>>=◌
  relconnection-Delivers w =
      let (res, e, f) = l.post_law w in ((r.sem_post w).1, rw e refl, d.post_server w, f)

  -- What is done with the connection begins in the server's world, and gives the semaphore back.
  pub on_getconnection-Delivers :
      {A : Type 0} (T : h.World → Type 0) (k n : ℕ) (body : Exec r.World A) (a : A) (w : r.World)
      → l.free w ≡ suc n
      → ((w' : r.World)
          → l.free w' ≡ n
          → d.server w' ≡ d.server w
          → (w1 : r.World) × (body w' ≡ (ok a, w1)) × T (d.server w1) × (l.free w1 ≡ suc n))
      → let m = getconnection r (suc k) >>= λ local. on_connection r local body in
        ((m w).0 ≡ ok a) × T (d.server (m w).1) × (l.free (m w).1 ≡ suc n)
  on_getconnection-Delivers T k n body a w p run =
      let (a', e, (q, (t, f))) =
        (on_getconnection-Ensures r {P = λ w'. (l.free w' ≡ suc n) × (d.server w' ≡ d.server w)}
            {During = λ w'. (l.free w' ≡ n) × (d.server w' ≡ d.server w)}
            {Q = λ a' w'. (a' ≡ a) × (T (d.server w') × (l.free w' ≡ suc n))} k body
            (λ w' c. let (t, f) = l.wait_law w' n c.0 in (t, (f, d.wait_server w' ∙ c.1)))
            record {
              at = λ w' c.
                  let (w1, e1, t1, f1) = run w' c.0 c.1 in
                  (a, ap (λ x. x.0) e1, (refl, rw e1 (t1, f1)));
            }).at
          w (p, refl) in
      (e ∙ ap ok q, t, f)

  request-Ensures :
      (q : Request) (k n : ℕ) (s0 s1 : h.World) (res : ℤ)
      → answer h q s0 ≡ (ok res, s1)
      → Ensures
          (λ w. (l.free w ≡ suc n) × (d.server w ≡ s0))
          (with_connection r (suc k) (r.request q))
          (λ a w. (a ≡ res) × (d.server w ≡ s1))
  request-Ensures q k n s0 s1 res e =
      with_connection-Ensures r {During = λ w. d.server w ≡ s0}
        {Q = λ a w. (a ≡ res) × (d.server w ≡ s1)} k (r.request q)
        (λ w p. ((l.wait_law w n p.0).0, d.wait_server w ∙ p.1))
        record {
          at = λ w p. let (f, g) = d.request_delivers q w res s1 (rw p e) in (res, f, (refl, g));
        }
        (λ a w p. let (res', f, _) = l.post_law w in (res', f, (p.0, d.post_server w ∙ p.1)))

  oper-request : (q : Request) (k : ℕ) → xmp_oper r k q ≡ with_connection r k (r.request (narrow q))
  unfolding xmp_oper
  oper-request (rmdir path) k = refl
  oper-request (unlink path) k = refl
  oper-request (mkdir path mode) k = refl
  oper-request (truncate path size) k = refl
  oper-request (chmod path mode) k = refl
  oper-request (mknod path mode rdev) k = refl
  oper-request (chown path uid gid) k = refl
  oper-request (utime path at mt) k = refl
  oper-request (symlink from to) k = refl
  oper-request (rename from to) k = refl
  oper-request (link from to) k = refl

  oper-Ensures :
      (q : Request) (k n : ℕ) (s0 s1 : h.World) (res : ℤ)
      → Fits (narrow q)
      → kernel_call h (narrow q) s0 ≡ (ok res, s1)
      → Ensures
          (λ w. (l.free w ≡ suc n) × (d.server w ≡ s0))
          (xmp_oper r (suc k) q)
          (λ a w.
            (a ≡ (if is_err res then code_of h (narrow q) (h.errno s1) else pos 0))
            × (d.server w ≡ s1))
  oper-Ensures q k n s0 s1 res fits e =
      rw (oper-request q (suc k))
        (request-Ensures (narrow q) k n s0 s1 _ (answer_lem h (narrow q) s0 s1 res fits e))

  -- Over a semaphore that counts, and a transport that gives for each request what the server's
  -- handler gives: if the semaphore can be taken, no path of the request is longer than 507
  -- characters, and the server's kernel gives a result for the call on the paths below /afs with
  -- the numbers cut to 32 bits, then the client's operation returns 0 where the result is not -1,
  -- else the negative errno, or -1 for chmod, chown and utime, and the server has made just that
  -- call.
  pub xmp_oper_lem :
      (q : Request) (k n : ℕ) (w : r.World) (s1 : h.World) (res : ℤ)
      → l.free w ≡ suc n
      → Fits (narrow q)
      → kernel_call h (narrow q) (d.server w) ≡ (ok res, s1)
      → ((xmp_oper r (suc k) q w).0
          ≡ ok (if is_err res then code_of h (narrow q) (h.errno s1) else pos 0))
        × (d.server (xmp_oper r (suc k) q w).1 ≡ s1)
  xmp_oper_lem q k n w s1 res p fits e =
      let (a, f, (g, m)) = (oper-Ensures q k n (d.server w) s1 res fits e).at w (p, refl) in
      (f ∙ ap ok g, m)
