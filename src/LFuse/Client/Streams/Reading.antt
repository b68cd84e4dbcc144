-- ===== src/LFuse/Client/Streams/Reading.antt =====
-- What xmp_read collects.
use m3sec.Common.{
  ℕ, zero, suc, ◌-◌, ◌^◌, ◌≤◌, ◌<◌, List, [], ◌∷◌, ◌++◌, some, ℤ, pos, Bytes, length, length-append,
  to_int-pos, ◌≡◌, refl, arith, ltb_of_le, append-nil, append_assoc,
}
use m3sec.Common.Exec.{ok, ◌>>=◌}
use m3sec.LFuse.Remote.{Remote, FileInfo}
use m3sec.LFuse.Client.{
  with_connection, getconnection, wait_rounds, on_connection, relconnection, u32,
}
use m3sec.LFuse.Client.Streams.{read_rounds, next_round, xmp_read, started_read, length_read}

abbrev concat : List Bytes → Bytes
concat [] = []
concat (b ∷ bs) = b ++ concat bs

module _ (r : Remote) where
  -- The reads of 1024 bytes give the pieces in order, none of which is empty, then nothing, and Rx
  -- has seen no error.
  pub data Gives : List Bytes → r.World → r.World → Type 0 where
    at_end :
        {w w1 w2 : r.World}
        → r.rx_read 1024 w ≡ (ok [], w1)
        → r.rx_error w1 ≡ (ok (pos 0), w2)
        → Gives [] w w2
    piece :
        {c : ℕ} {s : Bytes} {rest : List Bytes} {w w1 w2 : r.World}
        → r.rx_read 1024 w ≡ (ok (c ∷ s), w1)
        → Gives rest w1 w2
        → Gives ((c ∷ s) ∷ rest) w w2

  read_rounds-Gives :
      (pieces : List Bytes) (fuel room : ℕ) (got : Bytes) (w w1 : r.World)
      → Gives pieces w w1
      → length pieces < fuel
      → length (concat pieces) ≤ room
      → read_rounds r fuel room got w ≡ (ok (pos 0, got ++ concat pieces), w1)
  unfolding read_rounds next_round ◌>>=◌
  read_rounds-Gives pieces zero room got w w1 g long fits = absurd (omega arith)
  read_rounds-Gives [] (suc fuel) room got w w1 (at_end e e') long fits =
      rw (e, e', append-nil got) refl
  read_rounds-Gives ([] ∷ rest) (suc fuel) room got w w1 g long fits = elim g [ ]
  read_rounds-Gives ((c ∷ s) ∷ rest) (suc fuel) room got w w1 (piece e g) long fits =
      rw
        (
          e,
          ltb_of_le room (length (c ∷ s)) (omega (arith, length-append (c ∷ s) (concat rest))),
          read_rounds-Gives rest fuel (room - length (c ∷ s)) (got ++ c ∷ s) _ w1 g (omega arith)
              (omega (arith, length-append (c ∷ s) (concat rest))),
          append_assoc got (c ∷ s) (concat rest),
        )
        refl

  -- If the semaphore is taken, the call starts, a length comes, whichever it is, Rx gives some
  -- pieces and then nothing more, with no error, the pieces fit in the buffer together and are
  -- shorter than 2 ^ 31 bytes, there is one round more than pieces, and the end of the call and the
  -- post return, then xmp_read writes all bytes in order and returns their number, and has ended
  -- the call and given the semaphore back.
  pub xmp_read-Gives :
      (path : Bytes) (size offset : ℕ) (fi : FileInfo) (announced : ℤ) (pieces : List Bytes)
      (fuel rounds m : ℕ) (code res : ℤ) (w w1 w2 w3 w4 w5 w6 w7 : r.World)
      → r.sem_wait w ≡ (ok (pos m), w1)
      → r.new_call w1 ≡ (ok tt, w2)
      → r.start_read path (u32 size) (u32 offset) fi w2 ≡ (ok (pos 0), w3)
      → r.xdr_get w3 ≡ (ok (some announced), w4)
      → Gives pieces w4 w5
      → length pieces < rounds
      → length (concat pieces) ≤ size
      → length (concat pieces) < 2 ^ 31
      → r.end_call (pos 0) w5 ≡ (ok code, w6)
      → r.sem_post w6 ≡ (ok res, w7)
      → xmp_read r (suc fuel) rounds path size offset fi w
        ≡ (ok (pos (length (concat pieces)), concat pieces), w7)
  unfolding xmp_read with_connection started_read length_read getconnection wait_rounds
      on_connection relconnection ◌>>=◌
  xmp_read-Gives path size offset fi announced pieces fuel rounds m code res w w1 w2 w3 w4 w5 w6 w7
        e1 e2 e3 e4 g long fits short e5 e6 =
      rw
        (
          e1,
          e2,
          e3,
          e4,
          read_rounds-Gives pieces rounds size [] w4 w5 g long fits,
          e5,
          e6,
          to_int-pos (length (concat pieces)) short,
        )
        refl
