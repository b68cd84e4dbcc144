-- ===== src/HipTests.antt =====
-- hip/tests_old/legacy_client.c, legacy_hip_test.c and native_hip_test.c: a byte or a word is sent to
-- an echo server. What is undefined in C, such as a look at the address list after freeaddrinfo, has
-- no outcome.
pub mod Client
pub mod Words
use m3sec.Common.{ℕ, Bool, true, false, List, Option, ℤ, Bytes}
use m3sec.Common.Exec.{Exec}

-- The calls on sockets, which give a code. `Addr` is a member of an address list, whose head
-- `socket` and the resolver's lists are given by; `getaddrinfo` gives no list where it leaves its
-- result variable as it was. `recv` gives its code and the bytes that it wrote.
pub record Sockets : Type 1 where
  pub World : Type 0
  pub Addr : Type 0
  pub getaddrinfo : Bytes → Bytes → Exec World (ℤ × Option (List Addr))
  pub socket : Addr → Exec World ℤ
  pub connect : ℤ → Addr → Exec World ℤ
  pub send : ℤ → Bytes → Exec World ℤ
  pub recv : ℤ → ℕ → Exec World (ℤ × Bytes)
  pub close : ℤ → Exec World ℤ
  pub freeaddrinfo : List Addr → Exec World (Unit {0})
