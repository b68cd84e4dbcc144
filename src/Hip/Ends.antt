-- ===== src/Hip/Ends.antt =====
-- The ways out of main before anything is sent.
use m3sec.Common.{
  ℕ, suc, List, [], ◌∷◌, none, some, ℤ, pos, negsuc, Bytes, ◌≡◌, refl, eq_of_ne, arith,
}
use m3sec.Common.Exec.{ok, ◌>>=◌}
use m3sec.Hip.{
  Net, SockType, main_hip, with_type, sock_type, out, close_socket, free_res, free_my_ed, created,
  loaded, localed, bound,
}

module _ (n : Net) (fuel : ℕ) where
  -- If there are not three arguments behind the program's name, or the second is neither "tcp" nor
  -- "udp", main returns 1 and has called nothing.
  main_hip-usage :
      (argv : List Bytes) (w : n.World)
      → ((program host proto port : Bytes)
          → argv ≡ program ∷ host ∷ proto ∷ port ∷ []
          → sock_type n fuel proto ≡ none)
      → main_hip n fuel argv w ≡ (ok (pos 1), w)
  unfolding main_hip with_type out close_socket free_res free_my_ed ◌>>=◌
  main_hip-usage [] w h = refl
  main_hip-usage (a ∷ []) w h = refl
  main_hip-usage (a ∷ b ∷ []) w h = refl
  main_hip-usage (a ∷ b ∷ c ∷ []) w h = refl
  main_hip-usage (a ∷ b ∷ c ∷ d ∷ []) w h = rw (h a b c d refl) refl
  main_hip-usage (a ∷ b ∷ c ∷ d ∷ e ∷ argv) w h = refl

  -- If the socket opens with a descriptor that is not 0, the key loads, the local address is there,
  -- and the socket does not bind, then main returns the code of `bind`, and has closed the socket and
  -- freed the address, and called nothing else.
  main_hip-bind_fails :
      (program host proto port : Bytes) (type : SockType) (fd m : ℕ) (ed : n.Ed) (res : ℤ)
      (w w1 w2 w3 w4 w5 w6 : n.World)
      → sock_type n fuel proto ≡ some type
      → n.socket type w ≡ (ok (pos (suc fd)), w1)
      → n.load_pem w1 ≡ (ok (pos 0), w2)
      → n.getlocaled w2 ≡ (ok (some ed), w3)
      → n.bind (pos (suc fd)) w3 ≡ (ok (negsuc m), w4)
      → n.close (pos (suc fd)) w4 ≡ (ok res, w5)
      → n.free_ed ed w5 ≡ (ok tt, w6)
      → main_hip n fuel (program ∷ host ∷ proto ∷ port ∷ []) w ≡ (ok (negsuc m), w6)
  unfolding main_hip with_type created loaded localed bound out close_socket free_res free_my_ed
      ◌>>=◌
  main_hip-bind_fails program host proto port type fd m ed res w w1 w2 w3 w4 w5 w6 e0 e1 e2 e3 e4 e5
        e6 =
      rw (e0, e1, e2, e3, e4, eq_of_ne (suc fd) 0 (λ q. absurd (omega arith)), e5, e6) refl
