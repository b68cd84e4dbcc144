-- ===== src/Tests/BulkRuns.antt =====
-- A file that is received byte by byte.
use m3sec.Common.{ℕ, ◌<◌, true, [], ◌∷◌, ◌++◌, some, ℤ, pos, Bytes, codes, length, ◌≡◌, refl, arith}
use m3sec.Common.Exec.{Exec, ok}
use m3sec.LFuse.Bulk.{Sides, bulk_receive_file}
use m3sec.LFuse.Bulk.Copies.{Flows, bulk_receive_file-Flows}

-- What is to come, and the file.
record Copy : Type 0 where
  coming : Bytes
  file : Bytes

abbrev one_byte : Bytes → Exec Copy Bytes
one_byte [] w = (ok [], w)
one_byte (c ∷ s) w = (ok (c ∷ []), record w { coming = s })

abbrev append_file : Bytes → Exec Copy ℕ
append_file s w = (ok (length s), record w { file = w.file ++ s })

abbrev no_error : Exec Copy ℤ
no_error w = (ok (pos 0), w)

abbrev sides : Sides
sides = record {
  World = Copy;
  fread = λ w. one_byte w.coming w;
  ferror = no_error;
  fwrite = append_file;
  xdr_put = λ _ w. (ok true, w);
  xdr_get = λ w. (ok (some (pos 1024)), w);
  rx_read = λ w. one_byte w.coming w;
  rx_error = no_error;
  rx_write = append_file;
}

one_byte_law :
    (l : Bytes) (w : Copy)
    → l ≡ w.coming
    → (s : Bytes) × ((one_byte l w).0 ≡ ok s)
      × (l ≡ s ++ (one_byte l w).1.coming)
      × ((0 < length l) → 0 < length s)
      × ((one_byte l w).1.file ≡ w.file)
one_byte_law [] w e = ([], refl, e, (λ h. h), refl)
one_byte_law (c ∷ s) w e = (c ∷ [], refl, refl, (λ h. omega arith), refl)

abbrev sides-Flows : Flows sides.rx_read sides.rx_error sides.fwrite
sides-Flows = record {
  left = λ w. w.coming;
  done = λ w. w.file;
  source_law = λ w. one_byte_law w.coming w refl;
  error_law = λ w. (refl, refl);
  sink_law = λ s w. (refl, refl, refl);
}

abbrev call : Copy
call = record { coming = codes "abc"; file = [] }

bulk_receive_file-Flows_example :
    ((bulk_receive_file sides 4 call).0 ≡ ok (pos 0))
    × ((bulk_receive_file sides 4 call).1.file ≡ codes "abc")
bulk_receive_file-Flows_example =
    bulk_receive_file-Flows sides sides-Flows 4 (pos 1024) call call refl (omega arith)
