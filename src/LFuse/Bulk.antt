-- ===== src/LFuse/Bulk.antt =====
-- fuse/examples/l-fuse/bulk_io.c: a file is sent over a call of Rx, and received. The two loops have
-- one shape: pieces are taken from one side and put on the other. What is printed is left out.
pub mod Copies
use m3sec.Common.{
  ℕ, zero, suc, Bool, true, false, List, [], ◌∷◌, Option, none, some, ℤ, pos, is_int, Bytes, length,
  ◌==◌, if◌then◌else◌,
}
use m3sec.Common.Exec.{Exec, pure, diverge, ◌>>=◌}

-- stdio on the file, and Rx on the call. `fread` and `rx_read` give at most 1024 bytes, and none at
-- the end or on an error; `rx_write` and `fwrite` give the number of bytes that they took.
pub record Sides : Type 1 where
  pub World : Type 0
  pub fread : Exec World Bytes
  pub ferror : Exec World ℤ
  pub fwrite : Bytes → Exec World ℕ
  pub xdr_put : ℤ → Exec World Bool
  pub xdr_get : Exec World (Option ℤ)
  pub rx_read : Exec World Bytes
  pub rx_error : Exec World ℤ
  pub rx_write : Bytes → Exec World ℕ

module _ {W : Type 0} (source : Exec W Bytes) (source_error : Exec W ℤ)
    (sink : Bytes → Exec W ℕ) where
  -- The body of a loop on the piece that came, with the rounds that follow.
  pub next_piece : Exec W ℤ → Bytes → Exec W ℤ
  next_piece rounds [] = do error ← source_error; pure (if is_int error 0 then pos 0 else pos 1)
  next_piece rounds (c ∷ s) = do
    n ← sink (c ∷ s)
    if n == length (c ∷ s) then rounds else pure (pos 1)

  -- while (!error)
  pub copy_rounds : ℕ → Exec W ℤ
  unfolding next_piece
  copy_rounds zero = diverge
  copy_rounds (suc fuel) = source >>= next_piece (copy_rounds fuel)

module _ (b : Sides) (fuel : ℕ) where
  begin_send : Bool → Exec b.World ℤ
  begin_send false = pure (pos 1)
  begin_send true = copy_rounds b.fread b.ferror b.rx_write fuel

  -- bulk_SendFile
  pub bulk_send_file : Exec b.World ℤ
  unfolding begin_send
  bulk_send_file = b.xdr_put (pos 1024) >>= begin_send

  begin_receive : Option ℤ → Exec b.World ℤ
  begin_receive none = pure (pos 1)
  begin_receive (some size) = copy_rounds b.rx_read b.rx_error b.fwrite fuel

  -- bulk_ReceiveFile, which does not look at the length
  pub bulk_receive_file : Exec b.World ℤ
  unfolding begin_receive
  bulk_receive_file = b.xdr_get >>= begin_receive
