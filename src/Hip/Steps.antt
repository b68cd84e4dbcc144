-- ===== src/Hip/Steps.antt =====
-- A server that echoes, and what one send and one recv do to the bytes that are on their way.
use m3sec.Common.{
  ℕ, zero, suc, ◌+◌, ◌-◌, ◌≤◌, ◌<◌, [], ◌∷◌, ◌++◌, Option, none, some, ℤ, pos, Bytes, ◌≡◌, refl,
  sym, ap, ◌∙◌, inl, inr, arith, length, length-append, length-take, length-drop, take, drop,
  append_assoc, ltb_of_lt, ltb_of_le, le_or_lt,
}
use m3sec.Common.Exec.{ok, ◌>>=◌}
use m3sec.Common.Exec.Ensures.{Ensures}
use m3sec.Hip.{Net, send_some, recv_some}

-- Behind `sockfd` is a server that echoes: the bytes that were sent and have not come back are
-- pending, a send takes some of what it is given, and a recv gives some of what is pending.
pub record Echoes (n : Net) (sockfd : ℤ) : Type 0 where
  pub pending : n.World → Bytes
  pub send_law :
      (s : Bytes) (w : n.World)
      → 0 < length s
      → (k : ℕ) × ((n.send sockfd s w).0 ≡ ok (pos k))
        × (0 < k)
        × (k ≤ length s)
        × (pending (n.send sockfd s w).1 ≡ pending w ++ take k s)
  pub recv_law :
      (m : ℕ) (w : n.World)
      → 0 < m
      → 0 < length (pending w)
      → (c : ℕ) × (s : Bytes) × ((n.recv sockfd m w).0 ≡ ok (some (c ∷ s)))
        × (length (c ∷ s) ≤ m)
        × (pending w ≡ (c ∷ s) ++ pending (n.recv sockfd m w).1)

take-take-drop : (n k : ℕ) (s : Bytes) → take n s ++ take k (drop n s) ≡ take (n + k) s
take-take-drop zero k s = ap (λ m. take m s) (omega arith)
take-take-drop (suc n) zero [] = let q : suc n + 0 ≡ suc n = omega arith in rw q refl
take-take-drop (suc n) (suc k) [] =
    let q : suc n + suc k ≡ suc (n + suc k) = omega arith in rw q refl
take-take-drop (suc n) k (c ∷ s) =
    let q : suc n + k ≡ suc (n + k) = omega arith in rw q (ap (λ t. c ∷ t) (take-take-drop n k s))

module _ (n : Net) (sockfd : ℤ) (l : Echoes n sockfd) (sent_data : Bytes) where
  -- What came back and what is pending is what was sent.
  abbrev pub Balanced : ℕ → Bytes → n.World → Type 0
  Balanced datasent received w =
      (received ++ l.pending w ≡ take datasent sent_data) × (datasent ≤ length sent_data)

  pub came_back :
      (datasent : ℕ) (received : Bytes) (w : n.World)
      → Balanced datasent received w
      → length received ≤ datasent
  came_back datasent received w p =
      omega
        (arith, length-append received (l.pending w), ap length p.0, length-take datasent sent_data)

  extended :
      (datasent : ℕ) (received : Bytes) (w : n.World) (k : ℕ)
      → Balanced datasent received w
      → received ++ (l.pending w ++ take k (drop datasent sent_data))
        ≡ take (datasent + k) sent_data
  extended datasent received w k p =
      sym (append_assoc received (l.pending w) (take k (drop datasent sent_data)))
      ∙ ap (λ t. t ++ take k (drop datasent sent_data)) p.0
      ∙ take-take-drop datasent k sent_data

  -- After the send there is more to come, as long as not all came back.
  abbrev pub Sent : Bytes → Option ℕ → n.World → Type 0
  Sent received none w = ⊥
  Sent received (some datasent) w =
      Balanced datasent received w
      × ((length received < length sent_data) → length received < datasent)

  pub send_some-Ensures :
      (datasent : ℕ) (received : Bytes)
      → Ensures (Balanced datasent received) (send_some n sockfd sent_data datasent) (Sent received)
  unfolding send_some ◌>>=◌
  send_some-Ensures datasent received = record {
    at = λ w p. elim (le_or_lt (length sent_data) datasent) [
      | inl le ↦
          rw (ltb_of_le datasent (length sent_data) le)
            (some datasent, refl, (p, λ lt. omega arith))
      | inr lt ↦
          let (k, e, pos_k, le, q) =
            l.send_law (drop datasent sent_data) w
              (omega (arith, length-drop datasent sent_data)) in
          rw (ltb_of_lt datasent (length sent_data) lt, e)
            (
              some (datasent + k),
              refl,
              (
                (
                  rw q (extended datasent received w k p),
                  omega (arith, length-drop datasent sent_data),
                ),
                λ r. omega (arith, came_back datasent received w p),
              ),
            )
    ];
  }

  -- After the recv there is more, as long as not all came back.
  abbrev pub Got : ℕ → Bytes → Option Bytes → n.World → Type 0
  Got datasent received none w = ⊥
  Got datasent received (some received') w =
      Balanced datasent received' w
      × ((length received < length sent_data) → length received < length received')
      × (length received ≤ length received')

  pub recv_some-Ensures :
      (datasent : ℕ) (received : Bytes)
      → Ensures
          (Sent received (some datasent))
          (recv_some n sockfd sent_data received)
          (Got datasent received)
  unfolding recv_some ◌>>=◌
  recv_some-Ensures datasent received = record {
    at = λ w p. elim (le_or_lt (length sent_data) (length received)) [
      | inl le ↦
          rw (ltb_of_le (length received) (length sent_data) le)
            (some received, refl, (p.0, (λ lt. absurd (omega arith)), omega arith))
      | inr lt ↦
          let (c, s, e, le, q) = l.recv_law (length sent_data - length received) w (omega arith) (
            omega (
              arith,
              p.1 lt,
              length-append received (l.pending w),
              ap length p.0.0,
              length-take datasent sent_data,
            )) in
          rw (ltb_of_lt (length received) (length sent_data) lt, e)
            (
              some (received ++ c ∷ s),
              refl,
              (
                (append_assoc received (c ∷ s) _ ∙ ap (λ t. received ++ t) (sym q) ∙ p.0.0, p.0.1),
                (λ _. omega (arith, length-append received (c ∷ s))),
                omega (arith, length-append received (c ∷ s)),
              ),
            )
    ];
  }
