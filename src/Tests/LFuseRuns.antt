-- ===== src/Tests/LFuseRuns.antt =====
-- The theorems about l-fuse at concrete inputs: a kernel that lists the paths of its calls, and a
-- transport that carries each request to the server.
use m3sec.Common.{
  ℕ, zero, suc, true, List, [], ◌∷◌, ◌++◌, none, some, ℤ, pos, negsuc, minus_one, Bytes, codes,
  length, take, ◌≡◌, refl, ap, arith, if◌then◌else◌, eq_bytes,
}
use m3sec.Common.Exec.{Exec, Outcome, ok, throw, running}
use m3sec.LFuse.Requests.{rename, truncate}
use m3sec.LFuse.Host.{Host}
use m3sec.LFuse.Server.{answer, is_allowed_path}
use m3sec.LFuse.Server.Paths.{is_allowed_path_lem, all_letters, up_to_slash}
use m3sec.LFuse.Remote.{Remote, FileInfo}
use m3sec.LFuse.Client.{xmp_oper}
use m3sec.LFuse.Client.Lock.{LockLaws, xmp_oper-releases}
use m3sec.LFuse.Client.Composed.{Delivers, xmp_oper_lem}
use m3sec.LFuse.Client.Streams.{xmp_read, xmp_write}
use m3sec.LFuse.Client.Streams.Reading.{at_end, piece, xmp_read-Gives}
use m3sec.LFuse.Client.Streams.Writing.{xmp_write-releases}

abbrev Log : Type 0
Log = List Bytes

-- A call on a path, which fails below /afs/none.
abbrev touch : Bytes → Exec Log ℤ
touch path log =
    (ok (if eq_bytes (take 9 path) (codes "/afs/none") then minus_one else pos 0), log ++ path ∷ [])

abbrev gives : {A : Type 0} → A → Exec Log A
gives a log = (ok a, log)

abbrev listing_host : Host
listing_host = record {
  World = Log;
  errno = λ _. 2;
  sizeof_long = 4;
  rmdir = touch;
  mkdir = λ path _. touch path;
  unlink = touch;
  truncate = λ path _. touch path;
  mknod = λ path _ _. touch path;
  chmod = λ path _. touch path;
  lchown = λ path _ _. touch path;
  utime = λ path _ _. touch path;
  symlink = λ from to. touch to;
  rename = λ from to. touch from;
  link = λ from to. touch to;
  open_file = λ path _ log. (ok (pos 3), log ++ path ∷ []);
  close = λ _. gives (pos 0);
  readlink = λ path _. gives (pos 0, []);
  statfs = λ path. gives (pos 0, []);
  lstat = λ path. gives (pos 0, []);
  scan = λ path. gives none;
  pread = λ _ size offset. gives (pos 5, codes "hello");
  pwrite = λ _ buffer offset. gives (pos (length buffer));
  xdr_put = λ _. gives true;
  xdr_get = gives none;
  rx_read = λ _. gives [];
  rx_write = λ s log. (ok (length s), log ++ s ∷ []);
  rx_error = gives (pos 0);
}

is_allowed_path_lem_example :
    is_allowed_path (codes "/afs/../etc/passwd")
    ≡ (if all_letters (up_to_slash 3 (codes "/afs/../etc/passwd")) then 1 else 0)
is_allowed_path_lem_example = is_allowed_path_lem (codes "/afs/../etc/passwd")

-- The free places of the semaphore, the server's world, and the pieces that Rx has for the client.
record Wire : Type 0 where
  count : ℕ
  log : Log
  pieces : List Bytes

-- A request whose handler does not return is answered with -1.
abbrev settle : Outcome ℤ → ℤ
settle (ok res) = res
settle (throw e) = minus_one
settle running = minus_one

-- A wait with no free place blocks.
abbrev wait : ℕ → Exec Wire ℤ
wait zero w = (running, w)
wait (suc n) w = (ok (pos 0), record w { count = n })

abbrev next_piece : List Bytes → Exec Wire Bytes
next_piece [] w = (ok [], w)
next_piece (p ∷ ps) w = (ok p, record w { pieces = ps })

abbrev answers : {A : Type 0} → A → Exec Wire A
answers a w = (ok a, w)

abbrev wire : Remote
wire = record {
  World = Wire;
  errno = λ _. 0;
  sem_wait = λ w. wait w.count w;
  sem_post = λ w. (ok (pos 0), record w { count = suc w.count });
  request =
      λ q w. let (o, log) = answer listing_host q w.log in (ok (settle o), record w { log = log });
  release = λ path mfi. answers (pos 0);
  fsync = λ path isdatasync mfi. answers (pos 0);
  flush = λ path mfi. answers (pos 0);
  open_file = λ path flags. answers (pos 0, 3);
  statfs = λ path st. answers (pos 0, st);
  readlink = λ path size buffer. answers (pos 0, buffer);
  getdir = λ path. answers (pos 0, []);
  start_getattr = λ path dummy. answers (pos 0);
  start_read = λ path size offset fi. answers (pos 0);
  start_write = λ path size offset fi. answers (pos 0);
  new_call = answers tt;
  end_call = λ error. answers error;
  rx_error = answers (pos 0);
  xdr_get = answers (some (pos 0));
  xdr_put = λ _. answers true;
  rx_read = λ _ w. next_piece w.pieces w;
  rx_write = λ s. answers (length s);
}

wait_taken :
    (c n : ℕ) (w : Wire) → c ≡ suc n → ((wait c w).0 ≡ ok (pos 0)) × ((wait c w).1.count ≡ n)
wait_taken zero n w e = absurd (omega arith)
wait_taken (suc m) n w e = (refl, omega arith)

abbrev wire-LockLaws : LockLaws wire
wire-LockLaws = record {
  free = λ w. w.count;
  wait_law = λ w n e. wait_taken w.count n w e;
  post_law = λ w. (pos 0, refl, refl);
  request_law = λ q w. (_, refl, refl);
  new_call_law = λ w. (_, refl, refl);
  end_call_law = λ error w. (_, refl, refl);
  rx_error_law = λ w. (_, refl, refl);
  start_write_law = λ path size offset fi w. (_, refl, refl);
  xdr_put_law = λ n w. (_, refl, refl);
  rx_write_law = λ buffer w. (_, refl, refl);
}

wait_log : (c : ℕ) (w : Wire) → (wait c w).1.log ≡ w.log
wait_log zero w = refl
wait_log (suc n) w = refl

abbrev wire-Delivers : Delivers wire listing_host
wire-Delivers = record {
  server = λ w. w.log;
  wait_server = λ w. wait_log w.count w;
  post_server = λ w. refl;
  request_delivers = λ q w res s1 e. (ap (λ p. ok (settle p.0)) e, ap (λ p. p.1) e);
}

abbrev idle : Wire
idle = record { count = 1; log = []; pieces = codes "ab" ∷ codes "c" ∷ [] }

xmp_oper_lem_example :
    ((xmp_oper wire 1 (truncate (codes "/none") 5) idle).0 ≡ ok (negsuc 1))
    × ((xmp_oper wire 1 (truncate (codes "/none") 5) idle).1.log ≡ codes "/afs/none" ∷ [])
unfolding eq_bytes
xmp_oper_lem_example =
    xmp_oper_lem wire listing_host wire-LockLaws wire-Delivers (truncate (codes "/none") 5) 0 0 idle
      (codes "/afs/none" ∷ []) minus_one refl (omega arith) refl

xmp_oper-releases_example :
    (res : ℤ) × ((xmp_oper wire 1 (rename (codes "/a") (codes "/b")) idle).0 ≡ ok res)
    × ((xmp_oper wire 1 (rename (codes "/a") (codes "/b")) idle).1.count ≡ 1)
xmp_oper-releases_example =
    xmp_oper-releases wire wire-LockLaws (rename (codes "/a") (codes "/b")) 0 0 idle refl

abbrev no_info : FileInfo
no_info = record { flags = 0; fh = 0; writepage = 0 }

xmp_write-releases_example :
    (res : ℤ) × ((xmp_write wire 1 (codes "/a") (codes "text") 4 0 no_info idle).0 ≡ ok res)
    × ((xmp_write wire 1 (codes "/a") (codes "text") 4 0 no_info idle).1.count ≡ 1)
xmp_write-releases_example =
    xmp_write-releases wire wire-LockLaws 0 0 (codes "/a") (codes "text") 4 0 no_info idle refl

xmp_read-Gives_example :
    xmp_read wire 1 3 (codes "/a") 8 0 no_info idle
    ≡ (ok (pos 3, codes "abc"), record idle { pieces = [] })
xmp_read-Gives_example =
    let held = record idle { count = 0 } in
    let read = record held { pieces = [] } in
    xmp_read-Gives wire (codes "/a") 8 0 no_info (pos 0) (codes "ab" ∷ codes "c" ∷ []) 0 3 0 (pos 0)
      (pos 0) idle held held held held read read (record idle { pieces = [] }) refl refl refl refl
      (piece refl (piece refl (at_end refl refl))) (omega arith) (omega arith) (omega arith) refl
      refl
