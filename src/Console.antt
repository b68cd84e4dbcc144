-- ===== src/Console.antt =====
-- What the programs write to `cout` and `cerr`.
use m3sec.Common.{ℕ, Bytes, codes, String}
use m3sec.Common.Exec.{Exn}

-- One operand of `<<`. `what e` stands for the text of `e.what()`, which the libraries choose.
pub data Chunk : Type 0 where
  text : Bytes → Chunk
  number : ℕ → Chunk
  what : Exn → Chunk
  endl : Chunk

abbrev pub lit : String → Chunk
lit s = text (codes s)
