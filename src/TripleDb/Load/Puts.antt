-- ===== src/TripleDb/Load/Puts.antt =====
-- What loadInventoryDB puts for well-formed lines.
use m3sec.Common.{
  ℕ, ◌-◌, ◌≤◌, List, [], ◌∷◌, ◌++◌, Bytes, ◌≡◌, refl, ap, ◌∙◌, length, All, map, replicate, zero,
  suc, with_nul,
}
use m3sec.Common.Exec.{Outcome, ok, throw, running, Exec, pure, after, ◌>>=◌, ◌>>◌}
use m3sec.TripleDb.Inventory.{InventoryData, clear}
use m3sec.TripleDb.Inventory.Marshal.{image, packed, get_buffer_lem, stored-packed}
use m3sec.TripleDb.Load.{pound, load_line, load_lines}
use m3sec.TripleDb.Load.Fields.{Line, IsLine, tail_of, text_of, with_line, parse_line-text_of}

-- The object of a program that was just started, up to what its members held.
abbrev pub blank : InventoryData
blank = record {
  category = [];
  name = [];
  vendor = [];
  sku = [];
  price = 0;
  quantity = 0;
  buf_len = 0;
  databuf = [];
}

after-after :
    {W D : Type 0} (o : Outcome (Unit {0})) (w : W) (d : D) (k : D → Exec W (Unit {0}))
    → (let (o', w') = after o (λ _. pure d) w in after o' k w') ≡ after o (λ _. k d) w
unfolding ◌>>=◌
after-after (ok u) w d k = refl
after-after (throw e) w d k = refl
after-after running w d k = refl

-- The value that an action returns behind a call is handed on.
bind-pure :
    {W D : Type 0} (m : Exec W (Unit {0})) (d : D) (k : D → Exec W (Unit {0}))
    → ((m >> pure d) >>= k) ≡ (m >> k d)
unfolding ◌>>=◌
bind-pure m d k i w = after-after (m w).0 (m w).1 d k i

module _ (strtod strtol : Bytes → ℕ) where
  -- The record that is stored for a line.
  abbrev pub record_of : Line → Bytes
  record_of l = image (with_line strtod strtol l blank)

  -- The record fits in the buffer.
  abbrev pub Fits : Line → Type 0
  Fits l = IsLine l × (length (record_of l) ≤ 500)

  module _ {W : Type 0} (put : Bytes → Bytes → Exec W (Unit {0})) where
    -- One put for each line, in order: the terminated SKU, and the record.
    abbrev pub put_all : List Line → Exec W (Unit {0})
    put_all [] = pure tt
    put_all (l ∷ ls) = put (with_nul l.sku) (record_of l) >> put_all ls

    next_line :
        (name rest : Bytes) (lines : List Bytes) (d : InventoryData)
        → load_lines strtod strtol put ((name ++ pound ∷ rest) ∷ lines) d ≡ (
            load_line strtod strtol put (name ++ pound ∷ rest) d >>= λ d'.
            load_lines strtod strtol put lines d')
    unfolding load_lines
    next_line [] rest lines d = refl
    next_line (c ∷ name) rest lines d = refl

    load_line_lem :
        (l : Line) (d : InventoryData)
        → IsLine l
        → length (record_of l) ≤ 500
        → load_line strtod strtol put (text_of l) d ≡ (
            put (with_nul l.sku) (record_of l)
            >> pure (
                packed
                  (with_line strtod strtol l (clear d))
                  (record_of l)
                  (500 - length (record_of l))))
    unfolding load_line clear
    load_line_lem l d hl fits = rw (
      parse_line-text_of strtod strtol l (clear d) hl,
      get_buffer_lem (with_line strtod strtol l (clear d)) fits,
      stored-packed (with_line strtod strtol l (clear d)) (record_of l)
          (500 - length (record_of l)),
    )

    blank_lines :
        (n : ℕ) (d : InventoryData) → load_lines strtod strtol put (replicate n []) d ≡ pure tt
    unfolding load_lines
    blank_lines zero d = refl
    blank_lines (suc n) d = blank_lines n (clear d)

    -- If every line has six fields with no pound sign and its record fits in the buffer, the loop
    -- over these lines and any number of empty ones behind them does just this: for each line, in
    -- order, a put of the terminated SKU and the record, up to the first put that does not return.
    pub load_lines_lem :
        (n : ℕ) (ls : List Line) (d : InventoryData)
        → All Fits ls
        → load_lines strtod strtol put (map text_of ls ++ replicate n []) d ≡ put_all ls
    unfolding load_lines
    load_lines_lem n [] d h = blank_lines n d
    load_lines_lem n (l ∷ ls) d ((hl, fits), h) =
        next_line l.name (tail_of l) (map text_of ls ++ replicate n []) d
        ∙ ap (λ m. m >>= λ d'. load_lines strtod strtol put (map text_of ls ++ replicate n []) d')
            (load_line_lem l d hl fits)
        ∙ bind-pure _ _ _
        ∙ ap (λ m. put (with_nul l.sku) (record_of l) >> m) (load_lines_lem n ls _ h)
