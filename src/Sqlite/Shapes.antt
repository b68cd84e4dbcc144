-- ===== src/Sqlite/Shapes.antt =====
-- When the three vectors of DB are equally long, and when they are not.
use m3sec.Common.{
  eq_bytes, ◌+◌, Bool, true, false, List, [], ◌∷◌, map, append-nil, Bytes, ◌≡◌, refl, arith, length,
  length-append, All, Bool-cases, inl, inr,
}
use m3sec.BdbVfs.{State}
use m3sec.Sqlite.{each_triple}
use m3sec.Common.{eq_of_eq_bytes}
use m3sec.Sqlite.Classify.{
  Triple, Node, triple_row, node_row, texts, is_subject, is_predicate, is_object, gathered,
  each_triple_lem,
}

-- Two tests that agree on every identifier select the same texts.
pub texts-ext :
    (f g : Bytes → Bool) (ns : List Node) → ((id : Bytes) → f id ≡ g id) → texts f ns ≡ texts g ns
unfolding texts
texts-ext f g [] h = refl
texts-ext f g (n ∷ ns) h = rw (h n.id, texts-ext f g ns h)

-- A test that fails everywhere selects nothing.
pub texts_of_false :
    (f : Bytes → Bool) (ns : List Node) → ((id : Bytes) → f id ≡ false) → texts f ns ≡ []
unfolding texts
texts_of_false f [] h = refl
texts_of_false f (n ∷ ns) h = rw (h n.id, texts_of_false f ns h)

-- Two strings that differ are not both equal to a third.
pub eq_bytes-other :
    (a b id : Bytes) → eq_bytes a b ≡ false → eq_bytes b id ≡ true → eq_bytes a id ≡ false
eq_bytes-other a b id h e = rw (← eq_of_eq_bytes b id e) h

-- The identifiers of the triple differ, and each is that of one node.
pub record IsPlain (ns : List Node) (t : Triple) : Type 0 where
  pub s_p : eq_bytes t.s t.p ≡ false
  pub s_o : eq_bytes t.s t.o ≡ false
  pub p_o : eq_bytes t.p t.o ≡ false
  pub one_s : length (texts (eq_bytes t.s) ns) ≡ 1
  pub one_p : length (texts (eq_bytes t.p) ns) ≡ 1
  pub one_o : length (texts (eq_bytes t.o) ns) ≡ 1

module _ (ns : List Node) (t : Triple) (h : IsPlain ns t) where
  predicate-eq : (id : Bytes) → is_predicate t id ≡ eq_bytes t.p id
  predicate-eq id = elim (Bool-cases (eq_bytes t.p id)) [
    | inl e ↦ rw (e, eq_bytes-other t.s t.p id h.s_p e)
    | inr e ↦ ground arith
  ]

  object-eq : (id : Bytes) → is_object t id ≡ eq_bytes t.o id
  object-eq id = elim (Bool-cases (eq_bytes t.o id)) [
    | inl e ↦ rw (e, eq_bytes-other t.s t.o id h.s_o e, eq_bytes-other t.p t.o id h.p_o e)
    | inr e ↦ ground arith
  ]

  pub one_predicate : length (texts (is_predicate t) ns) ≡ 1
  one_predicate = rw (texts-ext _ _ ns predicate-eq) h.one_p

  pub one_object : length (texts (is_object t) ns) ≡ 1
  one_object = rw (texts-ext _ _ ns object-eq) h.one_o

pub length-gathered :
    (f : Triple → Bytes → Bool) (ts : List Triple) (ns : List Node)
    → All (λ t. length (texts (f t) ns) ≡ 1) ts
    → length (gathered f ts ns) ≡ length ts
unfolding gathered
length-gathered f [] ns h = refl
length-gathered f (t ∷ ts) ns (h, hs) =
    omega (arith, h, length-append (texts (f t) ns) (gathered f ts ns), length-gathered f ts ns hs)

pub All-mono :
    {P Q : Triple → Type 0} (ts : List Triple) → ((t : Triple) → P t → Q t) → All P ts → All Q ts
All-mono [] f h = tt
All-mono (t ∷ ts) f (h, hs) = (f t h, All-mono ts f hs)

gathered_none :
    (f : Triple → Bytes → Bool) (ts : List Triple) (ns : List Node)
    → All (λ t. (id : Bytes) → f t id ≡ false) ts
    → gathered f ts ns ≡ []
unfolding gathered
gathered_none f [] ns h = refl
gathered_none f (t ∷ ts) ns (h, hs) = rw (texts_of_false (f t) ns h, gathered_none f ts ns hs)

-- A node that is the object of such a triple is its subject, which is tested first.
pub no_object : (t : Triple) → t.s ≡ t.o → (id : Bytes) → is_object t id ≡ false
no_object t e id = rw e (elim (Bool-cases (eq_bytes t.o id)) [
  | inl u ↦ rw u
  | inr u ↦ elim (Bool-cases (eq_bytes t.p id)) [ inl v ↦ rw (u, v) | inr v ↦ rw (u, v) ]
])

module _ {W F : Type 0} where
  -- If every triple has three different identifiers and each is that of just one node, each of the
  -- three vectors grows by one text for each triple.
  plain_lengths :
      (ts : List Triple) (ns : List Node) (s : State W F)
      → All (IsPlain ns) ts
      → let r = (each_triple (map triple_row ts) (map node_row ns) s).1 in
        (length r.subj_vector ≡ length s.subj_vector + length ts)
        × (length r.pred_vector ≡ length s.pred_vector + length ts)
        × (length r.obj_vector ≡ length s.obj_vector + length ts)
  plain_lengths ts ns s h = rw (each_triple_lem ts ns s) (
      omega (
        arith,
        length-append s.subj_vector (gathered is_subject ts ns),
        length-append s.pred_vector (gathered is_predicate ts ns),
        length-append s.obj_vector (gathered is_object ts ns),
        length-gathered is_subject ts ns (All-mono ts (λ t k. k.one_s) h),
        length-gathered is_predicate ts ns (All-mono ts (one_predicate ns) h),
        length-gathered is_object ts ns (All-mono ts (one_object ns) h),
      ))

  -- If the subject of every triple is also its object, the loops push nothing on O, whatever the
  -- nodes are.
  pub loops_lem :
      (ts : List Triple) (ns : List Node) (s : State W F)
      → All (λ t. t.s ≡ t.o) ts
      → (each_triple (map triple_row ts) (map node_row ns) s).1.obj_vector ≡ s.obj_vector
  loops_lem ts ns s h = rw (
    each_triple_lem ts ns s,
    gathered_none is_object ts ns (All-mono ts no_object h),
    append-nil s.obj_vector,
  )
