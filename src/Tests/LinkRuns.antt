-- ===== src/Tests/LinkRuns.antt =====
-- A read and a write of l-fuse with a server in memory at the other end of the call.
use m3sec.Common.{
  ℕ, zero, suc, true, [], ◌∷◌, ◌++◌, Option, none, some, ℤ, pos, negsuc, minus_one, Bytes, codes,
  length, ◌≡◌, refl, ap, arith,
}
use m3sec.Common.Exec.{Exec, Outcome, ok, throw, running}
use m3sec.LFuse.Host.{Host}
use m3sec.LFuse.Server.{answer}
use m3sec.LFuse.Server.Transfer.{rxc_read, rxc_write}
use m3sec.LFuse.Remote.{Remote, FileInfo}
use m3sec.LFuse.Client.Lock.{LockLaws}
use m3sec.LFuse.Client.Composed.{Delivers}
use m3sec.LFuse.Client.Streams.{xmp_read, xmp_write}
use m3sec.LFuse.Client.Streams.Silent.{xmp_read-Empty}
use m3sec.LFuse.Client.Streams.Delivered.{xmp_write-Delivers}
use m3sec.LFuse.Link.{Served, Linked}

-- What came and what was sent on the call, and the one file.
record Site : Type 0 where
  arrived : Bytes
  sent : Bytes
  file : Bytes

-- A number and its sign.
abbrev encode : ℤ → Bytes
encode (pos n) = 0 ∷ n ∷ []
encode (negsuc n) = 1 ∷ n ∷ []

-- The number in front, and the bytes behind it.
abbrev decode : Bytes → Option ℤ × Bytes
decode [] = (none, [])
decode (sign ∷ []) = (none, [])
decode (zero ∷ n ∷ b) = (some (pos n), b)
decode (suc sign ∷ n ∷ b) = (some (negsuc n), b)

decode-encode : (n : ℤ) (b : Bytes) → decode (encode n ++ b) ≡ (some n, b)
decode-encode (pos n) b = refl
decode-encode (negsuc n) b = refl

abbrev gives : {W A : Type 0} → A → Exec W A
gives a w = (ok a, w)

abbrev site : Host
site = record {
  World = Site;
  errno = λ _. 2;
  sizeof_long = 4;
  rmdir = λ path. gives (pos 0);
  mkdir = λ path _. gives (pos 0);
  unlink = λ path. gives (pos 0);
  truncate = λ path _. gives (pos 0);
  mknod = λ path _ _. gives (pos 0);
  chmod = λ path _. gives (pos 0);
  lchown = λ path _ _. gives (pos 0);
  utime = λ path _ _. gives (pos 0);
  symlink = λ from to. gives (pos 0);
  rename = λ from to. gives (pos 0);
  link = λ from to. gives (pos 0);
  open_file = λ path _. gives (pos 3);
  close = λ _. gives (pos 0);
  readlink = λ path _. gives (pos 0, []);
  statfs = λ path. gives (pos 0, []);
  lstat = λ path. gives (pos 0, []);
  scan = λ path. gives none;
  pread = λ _ size offset s. (ok (pos (length s.file), s.file), s);
  pwrite = λ _ buffer offset s. (ok (pos (length buffer)), record s { file = buffer });
  xdr_put = λ n s. (ok true, record s { sent = s.sent ++ encode n });
  xdr_get = λ s. (ok (decode s.arrived).0, record s { arrived = (decode s.arrived).1 });
  rx_read = λ _ s. (ok s.arrived, record s { arrived = [] });
  rx_write = λ b s. (ok (length b), record s { sent = s.sent ++ b });
  rx_error = gives (pos 0);
}

abbrev site-Served : Served site
site-Served = record {
  encode = encode;
  of_call = λ b s. record s { arrived = b; sent = [] };
  sent = λ s. s.sent;
  sent_first = λ b s. refl;
  get_long = λ n b s. rw (decode-encode n b) refl;
  read_bytes = λ b s. refl;
  put_long = λ n s. (_, refl, refl);
  write_bytes = λ b s. (_, refl, refl);
  open_sent = λ path flags s. refl;
  pread_sent = λ fd size offset s. refl;
  close_sent = λ fd s. (pos 0, s, refl, refl);
}

-- The free places of the semaphore, the server, what came, and the write that waits.
record Wire : Type 0 where
  count : ℕ
  server : Site
  incoming : Bytes
  writing : Option (Bytes × ℕ × Bytes)

abbrev settle : Outcome ℤ → ℤ
settle (ok res) = res
settle (throw e) = minus_one
settle running = minus_one

abbrev wait : ℕ → Exec Wire ℤ
wait zero w = (running, w)
wait (suc n) w = (ok (pos 0), record w { count = n })

abbrev appended : Bytes → Option (Bytes × ℕ × Bytes) → Option (Bytes × ℕ × Bytes)
appended bytes none = none
appended bytes (some (path, offset, b)) = some (path, offset, b ++ bytes)

-- A write is answered where the call ends.
abbrev finish : Option (Bytes × ℕ × Bytes) → Exec Wire ℤ
finish none w = (ok (pos 0), w)
finish (some (path, offset, b)) w =
    let (o, s) = rxc_write site path offset (record w.server { arrived = b; sent = [] }) in
    (ok (settle o), record w { server = s; writing = none })

abbrev started_read : Bytes → ℕ → ℕ → Exec Wire ℤ
started_read path size offset w =
    let (o, s) = rxc_read site path size offset (record w.server { arrived = []; sent = [] }) in
    (ok (pos 0), record w { server = s; incoming = s.sent })

abbrev wire : Remote
wire = record {
  World = Wire;
  errno = λ _. 0;
  sem_wait = λ w. wait w.count w;
  sem_post = λ w. (ok (pos 0), record w { count = suc w.count });
  request = λ q w. let (o, s) = answer site q w.server in (ok (settle o), record w { server = s });
  release = λ path mfi. gives (pos 0);
  fsync = λ path isdatasync mfi. gives (pos 0);
  flush = λ path mfi. gives (pos 0);
  open_file = λ path flags. gives (pos 0, 3);
  statfs = λ path st. gives (pos 0, st);
  readlink = λ path size buffer. gives (pos 0, buffer);
  getdir = λ path. gives (pos 0, []);
  start_getattr = λ path dummy. gives (pos 0);
  start_read = λ path size offset fi. started_read path size offset;
  start_write =
      λ path size offset fi w. (ok (pos 0), record w { writing = some (path, offset, []) });
  new_call = gives tt;
  end_call = λ error w. finish w.writing w;
  rx_error = gives (pos 0);
  xdr_get = λ w. (ok (decode w.incoming).0, record w { incoming = (decode w.incoming).1 });
  xdr_put = λ n w. (ok true, record w { writing = appended (encode n) w.writing });
  rx_read = λ _ w. (ok w.incoming, record w { incoming = [] });
  rx_write = λ b w. (ok (length b), record w { writing = appended b w.writing });
}

wait_taken :
    (c n : ℕ) (w : Wire) → c ≡ suc n → ((wait c w).0 ≡ ok (pos 0)) × ((wait c w).1.count ≡ n)
wait_taken zero n w e = absurd (omega arith)
wait_taken (suc m) n w e = (refl, omega arith)

wait_server : (c : ℕ) (w : Wire) → (wait c w).1.server ≡ w.server
wait_server zero w = refl
wait_server (suc n) w = refl

finish_returns :
    (writing : Option (Bytes × ℕ × Bytes)) (w : Wire)
    → (res : ℤ) × ((finish writing w).0 ≡ ok res) × ((finish writing w).1.count ≡ w.count)
finish_returns none w = (pos 0, refl, refl)
finish_returns (some (path, offset, b)) w = (_, refl, refl)

abbrev wire-LockLaws : LockLaws wire
wire-LockLaws = record {
  free = λ w. w.count;
  wait_law = λ w n e. wait_taken w.count n w e;
  post_law = λ w. (pos 0, refl, refl);
  request_law = λ q w. (_, refl, refl);
  new_call_law = λ w. (_, refl, refl);
  end_call_law = λ error w. finish_returns w.writing w;
  rx_error_law = λ w. (_, refl, refl);
  start_write_law = λ path size offset fi w. (_, refl, refl);
  xdr_put_law = λ n w. (_, refl, refl);
  rx_write_law = λ buffer w. (_, refl, refl);
}

abbrev wire-Delivers : Delivers wire site
wire-Delivers = record {
  server = λ w. w.server;
  wait_server = λ w. wait_server w.count w;
  post_server = λ w. refl;
  request_delivers = λ q w res s1 e. (ap (λ p. ok (settle p.0)) e, ap (λ p. p.1) e);
}

abbrev wire-Linked : Linked wire site wire-LockLaws wire-Delivers site-Served
wire-Linked = record {
  incoming = λ w. w.incoming;
  writing = λ w. w.writing;
  new_call_server = λ w. refl;
  start_read = λ path size offset fi w code s1 e. (_, refl, ap (λ p. p.1.sent) e, refl);
  get_long = λ n b w e. (record w { incoming = b }, rw (e, decode-encode n b) refl, refl, refl);
  get_nothing = λ w e. (record w { incoming = [] }, rw e refl, refl);
  read_nothing = λ n w e. (record w { incoming = [] }, rw e refl, refl);
  start_write = λ path size offset fi w. (_, refl, refl, refl, refl);
  put_long = λ n path offset b w e. (_, refl, ap (appended (encode n)) e, refl, refl);
  write_bytes = λ bytes path offset b w e. (_, refl, ap (appended bytes) e, refl, refl);
  end_write = λ path offset b w code s1 e run.
      (record w { server = s1; writing = none }, rw (e, run) refl, refl, refl);
}

abbrev server : Site
server = record { arrived = []; sent = []; file = codes "hello" }

abbrev idle : Wire
idle = record { count = 1; server = server; incoming = []; writing = none }

abbrev no_info : FileInfo
no_info = record { flags = 0; fh = 0; writepage = 0 }

xmp_read-Empty_example :
    ((xmp_read wire 1 1 (codes "/f") 5 0 no_info idle).0 ≡ ok (pos 0, []))
    × ((xmp_read wire 1 1 (codes "/f") 5 0 no_info idle).1.count ≡ 1)
xmp_read-Empty_example =
    xmp_read-Empty wire site wire-LockLaws wire-Delivers site-Served wire-Linked (codes "/f") 5 0
      no_info 0 0 0 idle server server (pos 3) (pos 5) (codes "hello") refl (omega arith) refl refl
      (λ e. absurd cc)

xmp_write-Delivers_example :
    ((xmp_write wire 1 (codes "/f") (codes "bye") 3 0 no_info idle).0 ≡ ok (pos 3))
    × ((xmp_write wire 1 (codes "/f") (codes "bye") 3 0 no_info idle).1.server
        ≡ record server { file = codes "bye" })
    × ((xmp_write wire 1 (codes "/f") (codes "bye") 3 0 no_info idle).1.count ≡ 1)
xmp_write-Delivers_example =
    xmp_write-Delivers wire site wire-LockLaws wire-Delivers site-Served wire-Linked (codes "/f")
      (codes "bye") 3 0 no_info 0 0 2 3 (pos 0) idle server (record server { file = codes "bye" })
      (record server { file = codes "bye" }) (omega arith) refl (omega arith) (omega arith)
      (omega arith) (omega arith) refl refl refl
