-- ===== src/LFuse/Bulk/Copies.antt =====
-- The two loops move all bytes.
use m3sec.Common.{
  ℕ, zero, suc, ◌<◌, true, [], ◌∷◌, ◌++◌, some, ℤ, pos, Bytes, ◌≡◌, refl, sym, ap, ◌∙◌, arith,
  length, length-append, append-nil, append_assoc, eq_refl,
}
use m3sec.Common.Exec.{Exec, ok, ◌>>=◌}
use m3sec.LFuse.Bulk.{
  Sides, next_piece, copy_rounds, bulk_send_file, bulk_receive_file, begin_send, begin_receive,
}

-- `left` is what the source has still to give, `done` what the sink has taken. The source gives some
-- of what is left, as long as there is any, and has no error; the sink takes everything.
pub record Flows {W : Type 0} (source : Exec W Bytes) (source_error : Exec W ℤ)
    (sink : Bytes → Exec W ℕ) : Type 0 where
  pub left : W → Bytes
  pub done : W → Bytes
  pub source_law :
      (w : W)
      → (s : Bytes) × ((source w).0 ≡ ok s)
        × (left w ≡ s ++ left (source w).1)
        × ((0 < length (left w)) → 0 < length s)
        × (done (source w).1 ≡ done w)
  pub error_law : (w : W) → ((source_error w).0 ≡ ok (pos 0)) × (done (source_error w).1 ≡ done w)
  pub sink_law :
      (s : Bytes) (w : W)
      → ((sink s w).0 ≡ ok (length s))
        × (done (sink s w).1 ≡ done w ++ s)
        × (left (sink s w).1 ≡ left w)

nil_of_none : (s : Bytes) → ((0 < length s) → 0 < 0) → s ≡ []
nil_of_none [] h = refl
nil_of_none (c ∷ s) h = let k : 0 < 0 = h (omega arith) in absurd (omega arith)

module _ {W : Type 0} (source : Exec W Bytes) (source_error : Exec W ℤ) (sink : Bytes → Exec W ℕ)
    (l : Flows source source_error sink) where
  -- All that was left is done.
  abbrev Moved : Exec W ℤ → W → Type 0
  Moved m w = ((m w).0 ≡ ok (pos 0)) × (l.done (m w).1 ≡ l.done w ++ l.left w)

  next_piece-Flows :
      (fuel : ℕ) (s : Bytes) (w : W)
      → ((w' : W)
          → length (l.left w') < fuel
          → Moved (copy_rounds source source_error sink fuel) w')
      → length (s ++ l.left w) < suc fuel
      → ((0 < length (l.left w)) → 0 < length s)
      → ((next_piece source source_error sink (copy_rounds source source_error sink fuel) s w).0
          ≡ ok (pos 0))
        × (l.done
              (next_piece source source_error sink
                (copy_rounds source source_error sink fuel)
                s
                w).1
            ≡ l.done w ++ (s ++ l.left w))
  unfolding next_piece ◌>>=◌
  next_piece-Flows fuel [] w ih lt more =
      let (e, d) = l.error_law w in
      let nothing : l.left w ≡ [] = nil_of_none (l.left w) more in
      (rw e refl, rw e (d ∙ sym (append-nil (l.done w)) ∙ ap (λ t. l.done w ++ t) (sym nothing)))
  next_piece-Flows fuel (c ∷ s) w ih lt more =
      let (e, d, k) = l.sink_law (c ∷ s) w in
      let (f, m) =
        ih (sink (c ∷ s) w).1 (omega (arith, ap length k, length-append (c ∷ s) (l.left w))) in
      (
        rw (e, eq_refl (length (c ∷ s))) f,
        rw (e, eq_refl (length (c ∷ s)))
            (m
              ∙ ap (λ t. t ++ l.left (sink (c ∷ s) w).1) d
              ∙ append_assoc (l.done w) (c ∷ s) (l.left (sink (c ∷ s) w).1)
              ∙ ap (λ t. l.done w ++ (c ∷ s ++ t)) k),
      )

  copy_rounds-Flows :
      (fuel : ℕ) (w : W)
      → length (l.left w) < fuel
      → Moved (copy_rounds source source_error sink fuel) w
  unfolding copy_rounds ◌>>=◌
  copy_rounds-Flows zero w lt = absurd (omega arith)
  copy_rounds-Flows (suc fuel) w lt =
      let (s, e, split, more, same) = l.source_law w in
      let (f, m) =
        next_piece-Flows fuel s (source w).1 (copy_rounds-Flows fuel)
          (omega (arith, ap length split))
          (λ some_left.
            more (omega (arith, ap length split, length-append s (l.left (source w).1)))) in
      (
        rw e f,
        rw e (
            m
            ∙ ap (λ t. t ++ (s ++ l.left (source w).1)) same
            ∙ ap (λ t. l.done w ++ t) (sym split)),
      )

module _ (b : Sides) where
  -- If the length can be sent, the file gives its bytes piece by piece with no error, Rx takes
  -- every piece, and there is fuel for one round more than there are bytes, then bulk_SendFile
  -- returns 0 and has sent the bytes of the file, in order, behind the length.
  bulk_send_file-Flows :
      (l : Flows b.fread b.ferror b.rx_write) (fuel : ℕ) (w w1 : b.World)
      → b.xdr_put (pos 1024) w ≡ (ok true, w1)
      → length (l.left w1) < fuel
      → ((bulk_send_file b fuel w).0 ≡ ok (pos 0))
        × (l.done (bulk_send_file b fuel w).1 ≡ l.done w1 ++ l.left w1)
  unfolding bulk_send_file begin_send ◌>>=◌
  bulk_send_file-Flows l fuel w w1 e lt =
      rw e (copy_rounds-Flows b.fread b.ferror b.rx_write l fuel w1 lt)

  -- If a length comes, whichever it is, Rx gives the bytes of the call piece by piece with no
  -- error, the file takes every piece, and there is fuel for one round more than there are bytes,
  -- then bulk_ReceiveFile returns 0 and has written the bytes of the call to the file, in order.
  pub bulk_receive_file-Flows :
      (l : Flows b.rx_read b.rx_error b.fwrite) (fuel : ℕ) (size : ℤ) (w w1 : b.World)
      → b.xdr_get w ≡ (ok (some size), w1)
      → length (l.left w1) < fuel
      → ((bulk_receive_file b fuel w).0 ≡ ok (pos 0))
        × (l.done (bulk_receive_file b fuel w).1 ≡ l.done w1 ++ l.left w1)
  unfolding bulk_receive_file begin_receive ◌>>=◌
  bulk_receive_file-Flows l fuel size w w1 e lt =
      rw e (copy_rounds-Flows b.rx_read b.rx_error b.fwrite l fuel w1 lt)
