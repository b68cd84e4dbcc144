-- ===== src/CExample/Results.antt =====
-- What the example returns.
use m3sec.Common.{
  ℕ, ℤ, pos, negsuc, is_int, Bytes, codes, with_nul, ◌≡◌, refl, inl, inr, Bool-cases,
}
use m3sec.Common.Exec.{ok, ◌>>=◌}
use m3sec.CExample.{
  CDb, Console, database_name, fruit, apple, main_c, on_db, print, fail, retrieved, second_get,
  after_del, first_get, after_put, after_open, close_and_return, after_create,
}

module _ (b : CDb) where
  -- If every step of the example gives 0, and the second get, after the deletion, gives a code that
  -- is not 0, as DB_NOTFOUND is, then main closes the handle and returns that code.
  pub main_c-not_found :
      (s : Console b.World) (stored beyond : Bytes) (n : ℕ) (t_ret : ℤ)
      (w1 w2 w3 w4 w5 w6 w7 w8 : b.World)
      → b.create s.db ≡ (ok (pos 0), w1)
      → b.open_db database_name w1 ≡ (ok (pos 0), w2)
      → b.put (with_nul fruit) (with_nul apple) w2 ≡ (ok (pos 0), w3)
      → b.get (with_nul fruit) w3 ≡ (ok (pos 0, stored), w4)
      → b.del (with_nul fruit) w4 ≡ (ok (pos 0), w5)
      → b.get (with_nul fruit) w5 ≡ (ok (negsuc n, beyond), w6)
      → b.err (negsuc n) (codes "DB->get") w6 ≡ (ok tt, w7)
      → b.close w7 ≡ (ok t_ret, w8)
      → ((main_c b s).0 ≡ ok (negsuc n)) × ((main_c b s).1.db ≡ w8)
  unfolding main_c after_create on_db after_open after_put first_get after_del second_get fail
      retrieved print close_and_return ◌>>=◌
  main_c-not_found s stored beyond n t_ret w1 w2 w3 w4 w5 w6 w7 w8 e1 e2 e3 e4 e5 e6 e7 e8 =
      rw (e1, e2, e3, e4, e5, e6, e7, e8)
        (elim (Bool-cases (is_int t_ret 0)) [
          | inl e ↦ rw e (refl, refl)
          | inr e ↦ rw e (refl, refl)
        ])

  -- If the file does not open, and the report of it returns, then main closes the handle, whatever
  -- that gives, and returns the code of the opening.
  main_c-open_fails :
      (s : Console b.World) (n : ℕ) (t_ret : ℤ) (w1 w2 w3 w4 : b.World)
      → b.create s.db ≡ (ok (pos 0), w1)
      → b.open_db database_name w1 ≡ (ok (negsuc n), w2)
      → b.err (negsuc n) database_name w2 ≡ (ok tt, w3)
      → b.close w3 ≡ (ok t_ret, w4)
      → main_c b s ≡ (ok (negsuc n), record s { db = w4 })
  unfolding main_c after_create on_db after_open fail close_and_return ◌>>=◌
  main_c-open_fails s n t_ret w1 w2 w3 w4 e1 e2 e3 e4 =
      rw (e1, e2, e3, e4)
        (elim (Bool-cases (is_int t_ret 0)) [ inl e ↦ rw e refl | inr e ↦ rw e refl ])
