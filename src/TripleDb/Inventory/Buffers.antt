-- ===== src/TripleDb/Inventory/Buffers.antt =====
-- Writing behind a prefix, and reading behind one.
use m3sec.Common.{
  ℕ, zero, suc, ◌-◌, ◌≤◌, ◌<◌, [], ◌∷◌, ◌++◌, Option, none, some, Bytes, ◌≡◌, refl, ap, arith,
  length, drop, take, replicate, with_nul, NulFree,
}
use m3sec.Common.Options.{◌>>=◌}
use m3sec.TripleDb.Inventory.{overlay, copy_at, read_string}

overlay-fits :
    (src : Bytes) (k : ℕ)
    → length src ≤ k
    → overlay src (replicate k 0) ≡ some (src ++ replicate (k - length src) 0)
unfolding overlay
overlay-fits [] k h = ap (λ n. some (replicate n 0)) (omega arith)
overlay-fits (x ∷ src) zero h = absurd (omega arith)
overlay-fits (x ∷ src) (suc k) h =
    rw (overlay-fits src k (omega arith))
      (ap (λ n. some (x ∷ (src ++ replicate n 0))) (omega arith))

overlay-overruns : (src : Bytes) (k : ℕ) → k < length src → overlay src (replicate k 0) ≡ none
unfolding overlay
overlay-overruns [] k h = absurd (omega arith)
overlay-overruns (x ∷ src) zero h = refl
overlay-overruns (x ∷ src) (suc k) h = rw (overlay-overruns src k (omega arith))

bind_some : (o : Option Bytes) → o ≡ (o >>= λ b. some b)
bind_some none = refl
bind_some (some b) = refl

bind_bind :
    (o : Option Bytes) (f g : Bytes → Bytes)
    → ((o >>= λ b. some (f b)) >>= λ b. some (g b)) ≡ (o >>= λ b. some (g (f b)))
bind_bind none f g = refl
bind_bind (some b) f g = refl

-- Writing behind the prefix is writing on what follows it.
copy_at-append :
    (c src buf : Bytes)
    → copy_at (length c) src (c ++ buf) ≡ (overlay src buf >>= λ b. some (c ++ b))
unfolding copy_at
copy_at-append [] src buf = bind_some (overlay src buf)
copy_at-append (x ∷ c) src buf =
    rw (copy_at-append c src buf) (bind_bind (overlay src buf) (λ b. c ++ b) (λ b. x ∷ b))

pub copy_at-fits :
    (c src : Bytes) (k : ℕ)
    → length src ≤ k
    → copy_at (length c) src (c ++ replicate k 0)
      ≡ some (c ++ (src ++ replicate (k - length src) 0))
copy_at-fits c src k h = rw (copy_at-append c src (replicate k 0), overlay-fits src k h)

pub copy_at-overruns :
    (c src : Bytes) (k : ℕ) → k < length src → copy_at (length c) src (c ++ replicate k 0) ≡ none
copy_at-overruns c src k h = rw (copy_at-append c src (replicate k 0), overlay-overruns src k h)

pub drop-append : (c r : Bytes) (n : ℕ) → n ≡ length c → drop n (c ++ r) ≡ r
drop-append [] r zero e = refl
drop-append [] r (suc n) e = absurd (omega arith)
drop-append (x ∷ c) r zero e = absurd (omega arith)
drop-append (x ∷ c) r (suc n) e = drop-append c r n (omega arith)

pub take-append : (c r : Bytes) (n : ℕ) → n ≡ length c → take n (c ++ r) ≡ c
take-append [] r zero e = refl
take-append [] r (suc n) e = absurd (omega arith)
take-append (x ∷ c) r zero e = absurd (omega arith)
take-append (x ∷ c) r (suc n) e = ap (λ t. x ∷ t) (take-append c r n (omega arith))

-- A text with no NUL is read up to the terminator.
pub read_string-with_nul :
    (s beyond : Bytes) → NulFree s → read_string (with_nul s ++ beyond) ≡ some s
unfolding read_string
read_string-with_nul [] beyond h = refl
read_string-with_nul (zero ∷ s) beyond (h, _) = absurd (h refl)
read_string-with_nul (suc c ∷ s) beyond (_, h) = rw (read_string-with_nul s beyond h)
