-- ===== src/TripleDb/Vendor/Layout.antt =====
-- The layout of a VENDOR: the texts of its members, each filled up with zeros, and how they print.
use m3sec.Common.{
  ℕ, zero, suc, ◌+◌, ◌-◌, ◌≤◌, ◌<◌, List, [], ◌∷◌, ◌++◌, some, Bytes, ◌≡◌, refl, ap, sym, arith,
  length, drop, take, replicate, All, NulFree, length-append, append_assoc,
}
use m3sec.Console.{Chunk, text, lit, endl}
use m3sec.TripleDb.Inventory.{read_string}
use m3sec.TripleDb.Inventory.Buffers.{read_string-with_nul}
use m3sec.TripleDb.Vendor.{vendor_lines}

-- A text in a member of `width` bytes.
abbrev pad : ℕ → Bytes → Bytes
pad width s = s ++ replicate (width - length s) 0

-- Members in order, with their widths.
abbrev pub layout : List (ℕ × Bytes) → Bytes
layout [] = []
layout ((width, s) ∷ fields) = pad width s ++ layout fields

abbrev total : List (ℕ × Bytes) → ℕ
total [] = 0
total ((width, s) ∷ fields) = width + total fields

-- The text has no NUL, and leaves room for one.
abbrev pub Terminated : List (ℕ × Bytes) → Type 0
Terminated = All (λ f. NulFree f.1 × (length f.1 < f.0))

length-replicate : (n : ℕ) → length {A = ℕ} (replicate n 0) ≡ n
length-replicate zero = refl
length-replicate (suc n) = ap suc (length-replicate n)

length-pad : (width : ℕ) (s : Bytes) → length s ≤ width → length (pad width s) ≡ width
length-pad width s h =
    omega
      (arith, length-append s (replicate (width - length s) 0), length-replicate (width - length s))

drop_more : (c r : Bytes) (n k : ℕ) → n ≡ length c → drop (n + k) (c ++ r) ≡ drop k r
drop_more [] r n k e = ap (λ m. drop m r) (omega arith)
drop_more (x ∷ c) r zero k e = absurd (omega arith)
drop_more (x ∷ c) r (suc n) k e =
    let q : suc n + k ≡ suc (n + k) = omega arith in rw q (drop_more c r n k (omega arith))

pub read_string-pad :
    (width : ℕ) (s rest : Bytes)
    → NulFree s
    → length s < width
    → read_string (pad width s ++ rest) ≡ some s
read_string-pad width s rest free lt =
    let e : width - length s ≡ suc (width - length s - 1) = omega arith in
    rw
      (
        e,
        append_assoc s (0 ∷ replicate (width - length s - 1) 0) rest,
        ← append_assoc s (0 ∷ []) (replicate (width - length s - 1) 0 ++ rest),
      )
      (read_string-with_nul s (replicate (width - length s - 1) 0 ++ rest) free)

-- Where the members before it end, the text of a member is read.
member_lem :
    (before : List (ℕ × Bytes)) (width : ℕ) (s : Bytes) (behind : List (ℕ × Bytes))
    → Terminated (before ++ (width, s) ∷ behind)
    → read_string (drop (total before) (layout (before ++ (width, s) ∷ behind))) ≡ some s
member_lem [] width s behind ((free, lt), h) = read_string-pad width s (layout behind) free lt
member_lem ((v, t) ∷ before) width s behind ((_, lt), h) =
    rw
      (drop_more (pad v t) (layout (before ++ (width, s) ∷ behind)) v (total before)
        (sym (length-pad v t (omega arith))))
      (member_lem before width s behind h)

-- The members of the struct.
pub record Vendor : Type 0 where
  pub name : Bytes
  pub street : Bytes
  pub city : Bytes
  pub state : Bytes
  pub zipcode : Bytes
  pub phone_number : Bytes
  pub sales_rep : Bytes
  pub sales_rep_phone : Bytes

abbrev pub members : Vendor → List (ℕ × Bytes)
members v =
    (20, v.name)
    ∷ (20, v.street)
    ∷ (20, v.city)
    ∷ (3, v.state)
    ∷ (6, v.zipcode)
    ∷ (13, v.phone_number)
    ∷ (20, v.sales_rep)
    ∷ (20, v.sales_rep_phone)
    ∷ []

abbrev pub lines_for : Vendor → List Chunk
lines_for v =
    lit "        "
    ∷ text v.street
    ∷ lit "\n"
    ∷ lit "        "
    ∷ text v.city
    ∷ lit ", "
    ∷ text v.state
    ∷ lit "\n"
    ∷ lit "        "
    ∷ text v.zipcode
    ∷ lit "\n"
    ∷ lit "        "
    ∷ text v.phone_number
    ∷ lit "\n"
    ∷ lit "        Contact: "
    ∷ text v.sales_rep
    ∷ lit "\n"
    ∷ lit "                 "
    ∷ text v.sales_rep_phone
    ∷ endl
    ∷ []

-- If the texts of a vendor have no NUL and each leaves room for one in its member, then show_vendor
-- prints just these texts of the structure.
pub vendor_lines-layout :
    (v : Vendor) → Terminated (members v) → vendor_lines (layout (members v)) ≡ some (lines_for v)
unfolding vendor_lines
vendor_lines-layout v h = rw (
  member_lem (take 1 (members v)) 20 v.street (drop 2 (members v)) h,
  member_lem (take 2 (members v)) 20 v.city (drop 3 (members v)) h,
  member_lem (take 3 (members v)) 3 v.state (drop 4 (members v)) h,
  member_lem (take 4 (members v)) 6 v.zipcode (drop 5 (members v)) h,
  member_lem (take 5 (members v)) 13 v.phone_number (drop 6 (members v)) h,
  member_lem (take 6 (members v)) 20 v.sales_rep (drop 7 (members v)) h,
  member_lem (take 7 (members v)) 20 v.sales_rep_phone [] h,
)
