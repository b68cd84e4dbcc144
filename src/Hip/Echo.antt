-- ===== src/Hip/Echo.antt =====
-- The exchange with a server that echoes ends, with the bytes that were sent.
use m3sec.Common.{
  ℕ, zero, suc, ◌+◌, ◌≤◌, ◌<◌, ◌||◌, Bool, true, false, [], ◌∷◌, ◌++◌, Option, none, some, ℤ, pos,
  Bytes, ◌≡◌, refl, sym, ap, ◌∙◌, inl, inr, arith, length, length-append, length-take, take_all,
  append-nil, ltb, ltb_of_lt, ltb_of_le, le_or_lt, eq_bytes_refl,
}
use m3sec.Common.Exec.{Exec, ok, pure, ◌>>=◌}
use m3sec.Common.Exec.Ensures.{Ensures, Ensures-bind}
use m3sec.Hip.{Net, send_some, recv_some, after_send, after_recv, exchange, compared, buffer_of}
use m3sec.Hip.Steps.{Echoes, Balanced, Sent, Got, came_back, send_some-Ensures, recv_some-Ensures}

nil_of_length : (s : Bytes) → length s ≡ 0 → s ≡ []
nil_of_length [] h = refl
nil_of_length (c ∷ s) h = absurd (omega arith)

pure_ok : {W A : Type 0} (a : A) (w : W) → (pure a w).0 ≡ ok a
unfolding ◌>>=◌
pure_ok a w = refl

or_true : (b : Bool) → (b || true) ≡ true
or_true true = refl
or_true false = refl

module _ (n : Net) (sockfd : ℤ) (l : Echoes n sockfd) (sent_data : Bytes) where
  compared_same : compared n sent_data (some sent_data) ≡ pos 0
  unfolding compared
  compared_same = rw (eq_bytes_refl (buffer_of sent_data)) refl

  all_back :
      (datasent : ℕ) (received : Bytes) (w : n.World)
      → Balanced n sockfd l sent_data datasent received w
      → length sent_data ≤ length received
      → received ≡ sent_data
  all_back datasent received w p le =
      let nothing : length (l.pending w) ≡ 0 = omega (
        arith,
        length-append received (l.pending w),
        ap length p.0,
        length-take datasent sent_data,
      ) in
      sym (append-nil received)
      ∙ ap (λ t. received ++ t) (sym (nil_of_length (l.pending w) nothing))
      ∙ p.0
      ∙ take_all datasent sent_data
          (omega (arith, came_back n sockfd l sent_data datasent received w p))

  after_recv-Ensures :
      (datasent : ℕ) (received : Bytes) (rounds : Bytes → Exec n.World (Option Bytes))
      → ((received' : Bytes)
          → length received < length received'
          → Ensures
              (Balanced n sockfd l sent_data datasent received')
              (rounds received')
              (λ r _. r ≡ some sent_data))
      → length received < length sent_data
      → (got : Option Bytes)
      → Ensures
          (Got n sockfd l sent_data datasent received got)
          (after_recv n sockfd sent_data rounds got)
          (λ r _. r ≡ some sent_data)
  unfolding after_recv
  after_recv-Ensures datasent received rounds h lt none = record { at = λ w p. absurd p }
  after_recv-Ensures datasent received rounds h lt (some received') = record {
    at = λ w p. (h received' (p.1 lt)).at w p.0;
  }

  after_send-Ensures :
      (received : Bytes) (rounds : ℕ → Bytes → Exec n.World (Option Bytes))
      → ((datasent : ℕ) (received' : Bytes)
          → length received < length received'
          → Ensures
              (Balanced n sockfd l sent_data datasent received')
              (rounds datasent received')
              (λ r _. r ≡ some sent_data))
      → length received < length sent_data
      → (sent : Option ℕ)
      → Ensures
          (Sent n sockfd l sent_data received sent)
          (after_send n sockfd sent_data rounds received sent)
          (λ r _. r ≡ some sent_data)
  unfolding after_send
  after_send-Ensures received rounds h lt none = record { at = λ w p. absurd p }
  after_send-Ensures received rounds h lt (some datasent) =
      Ensures-bind (recv_some n sockfd sent_data received) _
        (recv_some-Ensures n sockfd l sent_data datasent received)
        (after_recv-Ensures datasent received (rounds datasent) (h datasent) lt)

  -- Any number of rounds that is larger than the number of bytes that are still to come.
  exchange-Ensures :
      (fuel datasent : ℕ) (received : Bytes)
      → length sent_data < length received + fuel
      → Ensures
          (Balanced n sockfd l sent_data datasent received)
          (exchange n sockfd sent_data fuel datasent received)
          (λ r _. r ≡ some sent_data)
  unfolding exchange
  exchange-Ensures zero datasent received enough = record {
    at = λ w p. absurd (omega (arith, came_back n sockfd l sent_data datasent received w p, p.1));
  }
  exchange-Ensures (suc fuel) datasent received enough =
      elim (le_or_lt (length sent_data) (length received)) [
        | inl le ↦ record {
          at = λ w p.
              rw
                (
                  ltb_of_le datasent (length sent_data)
                      (omega (arith, came_back n sockfd l sent_data datasent received w p)),
                  ltb_of_le (length received) (length sent_data) le,
                )
                (
                  some received,
                  pure_ok (some received) w,
                  ap some (all_back datasent received w p le),
                );
        }
        | inr lt ↦
            rw
              (
                ltb_of_lt (length received) (length sent_data) lt,
                or_true (ltb datasent (length sent_data)),
              )
              (Ensures-bind (send_some n sockfd sent_data datasent) _
                (send_some-Ensures n sockfd l sent_data datasent received)
                (after_send-Ensures received (exchange n sockfd sent_data fuel)
                  (λ datasent' received' more.
                    exchange-Ensures fuel datasent' received' (omega arith))
                  lt))
      ]

  -- If the server echoes, every send takes a byte at least, every recv gives one at least where
  -- some are pending, and nothing is pending at first, then the loop that sends and receives ends
  -- in one round more than there are bytes, what came back is what was sent, and the comparison of
  -- the buffers gives no error.
  pub exchange-echo :
      (w : n.World)
      → l.pending w ≡ []
      → ((exchange n sockfd sent_data (suc (length sent_data)) 0 [] w).0 ≡ ok (some sent_data))
        × (compared n sent_data (some sent_data) ≡ pos 0)
  exchange-echo w e =
      let (got, f, g) =
        (exchange-Ensures (suc (length sent_data)) 0 [] (omega arith)).at w (e, omega arith) in
      (f ∙ ap ok g, compared_same)
