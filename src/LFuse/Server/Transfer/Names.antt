-- ===== src/LFuse/Server/Transfer/Names.antt =====
-- The listing of a directory, and the paths that getattr refuses.
use m3sec.Common.{
  ℕ, zero, suc, ◌+◌, ◌≤◌, ◌<◌, false, List, [], ◌∷◌, ◌++◌, some, pos, minus_one, Bytes, codes,
  length, All, ◌≡◌, refl, arith, ltb, ltb_of_lt, Bool-cases, inl, inr,
}
use m3sec.Common.Exec.{ok, running, ◌>>=◌}
use m3sec.LFuse.Host.{Host, Dirent}
use m3sec.LFuse.Server.{with_path}
use m3sec.LFuse.Server.Paths.{translate_path-fits, is_allowed_path_lem, all_letters, up_to_slash}
use m3sec.LFuse.Server.Transfer.{rxc_getdir, rxc_getattr, first_pass, second_pass, fill}

module _ (h : Host) where
  fill_lem :
      (cells : ℕ) (des : List Dirent) (w : h.World)
      → length des ≤ cells
      → All (λ de. length de.name < 512) des
      → fill h cells des w ≡ (ok des, w)
  unfolding fill ◌>>=◌
  fill_lem zero [] w le short = refl
  fill_lem (suc cells) [] w le short = refl
  fill_lem zero (de ∷ des) w le short = absurd (omega arith)
  fill_lem (suc cells) (de ∷ des) w le (s, short) =
      rw (ltb_of_lt (length de.name) 512 s, fill_lem cells des w (omega arith) short)

  fill-overruns :
      (cells : ℕ) (des : List Dirent) (w : h.World)
      → cells < length des
      → fill h cells des w ≡ (running, w)
  unfolding fill ◌>>=◌
  fill-overruns cells [] w lt = absurd (omega arith)
  fill-overruns zero (de ∷ des) w lt = refl
  fill-overruns (suc cells) (de ∷ des) w lt = elim (Bool-cases (ltb (length de.name) 512)) [
    | inl e ↦ rw (e, fill-overruns cells des w (omega arith)) refl
    | inr e ↦ rw e refl
  ]

  -- If both passes over the directory below /afs give their entries, the second pass has at most one
  -- more than the first, and its names have less than 512 bytes, then the server answers 0 and the
  -- entries of the second pass in order.
  rxc_getdir_lem :
      (path : Bytes) (des1 des2 : List Dirent) (w w1 w2 : h.World)
      → length path ≤ 507
      → h.scan (codes "/afs" ++ path) w ≡ (ok (some des1), w1)
      → h.scan (codes "/afs" ++ path) w1 ≡ (ok (some des2), w2)
      → length des2 ≤ length des1 + 1
      → All (λ de. length de.name < 512) des2
      → rxc_getdir h path w ≡ (ok (pos 0, des2), w2)
  unfolding rxc_getdir with_path first_pass second_pass ◌>>=◌
  rxc_getdir_lem path des1 des2 w w1 w2 fits e1 e2 le short =
      rw (translate_path-fits path fits, e1, e2, fill_lem (length des1 + 1) des2 w2 le short)

  -- If the directory below /afs has grown by more than one entry between the two passes, the server
  -- writes past the memory for the entries.
  rxc_getdir-overruns :
      (path : Bytes) (des1 des2 : List Dirent) (w w1 w2 : h.World)
      → length path ≤ 507
      → h.scan (codes "/afs" ++ path) w ≡ (ok (some des1), w1)
      → h.scan (codes "/afs" ++ path) w1 ≡ (ok (some des2), w2)
      → length des1 + 1 < length des2
      → rxc_getdir h path w ≡ (running, w2)
  unfolding rxc_getdir with_path first_pass second_pass ◌>>=◌
  rxc_getdir-overruns path des1 des2 w w1 w2 fits e1 e2 lt =
      rw (translate_path-fits path fits, e1, e2, fill-overruns (length des1 + 1) des2 w2 lt)

  -- If the path below /afs has a character up to its third slash that is not one of the listed, then
  -- getattr answers -1 and calls nothing.
  rxc_getattr-refuses :
      (path : Bytes) (w : h.World)
      → length path ≤ 507
      → all_letters (up_to_slash 3 (codes "/afs" ++ path)) ≡ false
      → rxc_getattr h path w ≡ (ok minus_one, w)
  unfolding rxc_getattr with_path ◌>>=◌
  rxc_getattr-refuses path w fits bad =
      rw (translate_path-fits path fits, is_allowed_path_lem (codes "/afs" ++ path), bad) refl
