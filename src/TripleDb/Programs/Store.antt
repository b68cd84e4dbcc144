-- ===== src/TripleDb/Programs/Store.antt =====
-- Tables in the order of their keys, in which a put overwrites what has the same key.
use m3sec.Common.{
  ◌+◌, ◌≤◌, length, arith, List, [], ◌∷◌, map, Option, none, some, Bytes, ◌≡◌, refl, ap, All,
}
use mathlib.Core.Path.{subst}
use mathlib.Core.Option.{some_inj}
use Prim.Native.Nat.{Ordering, compare}

-- The default comparison of keys: byte for byte.
unfoldable pub compare_keys : Bytes → Bytes → Ordering
compare_keys [] [] = Ordering.eq
compare_keys [] (b ∷ t) = Ordering.lt
compare_keys (a ∷ s) [] = Ordering.gt
compare_keys (a ∷ s) (b ∷ t) =
    let rest = compare_keys s t in
    elim (compare a b) [
      | Ordering.lt ↦ Ordering.lt
      | Ordering.eq ↦ rest
      | Ordering.gt ↦ Ordering.gt
    ]

module _ {A : Type 0} (key : A → Bytes) where
  -- A put: `rest` is the table with the put behind `x`.
  abbrev place : Ordering → A → A → List A → List A → List A
  place Ordering.lt a x xs rest = a ∷ x ∷ xs
  place Ordering.eq a x xs rest = a ∷ xs
  place Ordering.gt a x xs rest = x ∷ rest

  unfoldable pub insert : A → List A → List A
  insert a [] = a ∷ []
  insert a (x ∷ xs) = place (compare_keys (key a) (key x)) a x xs (insert a xs)

  abbrev pub insert_all : List A → List A → List A
  insert_all [] xs = xs
  insert_all (a ∷ rest) xs = insert_all rest (insert a xs)

  abbrev pick : Ordering → A → Option A → Option A
  pick Ordering.lt x rest = rest
  pick Ordering.eq x rest = some x
  pick Ordering.gt x rest = rest

  unfoldable pub find : Bytes → List A → Option A
  find k [] = none
  find k (x ∷ xs) = pick (compare_keys k (key x)) x (find k xs)

  module _ (P : A → Type 0) where
    place-All :
        (o : Ordering) (a x : A) (xs rest : List A)
        → P a
        → P x
        → All P xs
        → All P rest
        → All P (place o a x xs rest)
    place-All Ordering.lt a x xs rest pa px h k = (pa, (px, h))
    place-All Ordering.eq a x xs rest pa px h k = (pa, h)
    place-All Ordering.gt a x xs rest pa px h k = (px, k)

    pub insert-All : (a : A) (xs : List A) → P a → All P xs → All P (insert a xs)
    unfolding insert
    insert-All a [] pa h = (pa, tt)
    insert-All a (x ∷ xs) pa (px, h) =
        place-All (compare_keys (key a) (key x)) a x xs (insert a xs) pa px h (insert-All a xs pa h)

    pub insert_all-All : (new xs : List A) → All P new → All P xs → All P (insert_all new xs)
    insert_all-All [] xs h k = k
    insert_all-All (a ∷ rest) xs (pa, h) k =
        insert_all-All rest (insert a xs) h (insert-All a xs pa k)

    find-pick :
        (o : Ordering) (x v : A) (rest : Option A)
        → P x
        → (rest ≡ some v → P v)
        → pick o x rest ≡ some v
        → P v
    find-pick Ordering.lt x v rest px h e = h e
    find-pick Ordering.eq x v rest px h e = subst P (some_inj.0 e) px
    find-pick Ordering.gt x v rest px h e = h e

    -- What is found is in the table.
    pub find-All : (k : Bytes) (xs : List A) (v : A) → All P xs → find k xs ≡ some v → P v
    unfolding find
    find-All k [] v h e = cc
    find-All k (x ∷ xs) v (px, h) e =
        find-pick (compare_keys k (key x)) x v (find k xs) px (find-All k xs v h) e

  length-place :
      (o : Ordering) (a x : A) (xs rest : List A)
      → length rest ≤ length xs + 1
      → length (place o a x xs rest) ≤ length xs + 2
  length-place Ordering.lt a x xs rest h = omega arith
  length-place Ordering.eq a x xs rest h = omega arith
  length-place Ordering.gt a x xs rest h = omega arith

  length-insert : (a : A) (xs : List A) → length (insert a xs) ≤ length xs + 1
  unfolding insert
  length-insert a [] = omega arith
  length-insert a (x ∷ xs) =
      omega (
        arith,
        length-place (compare_keys (key a) (key x)) a x xs (insert a xs) (length-insert a xs),
      )

  pub length-insert_all : (new xs : List A) → length (insert_all new xs) ≤ length new + length xs
  length-insert_all [] xs = omega arith
  length-insert_all (a ∷ rest) xs =
      omega (arith, length-insert_all rest (insert a xs), length-insert a xs)

-- Records for values.
module _ {A B : Type 0} (f : A → B) (key : B → Bytes) where
  map-place :
      (o : Ordering) (a x : A) (xs rest : List A)
      → map f (place (λ y. key (f y)) o a x xs rest)
        ≡ place key o (f a) (f x) (map f xs) (map f rest)
  map-place Ordering.lt a x xs rest = refl
  map-place Ordering.eq a x xs rest = refl
  map-place Ordering.gt a x xs rest = refl

  pub map-insert :
      (a : A) (xs : List A) → map f (insert (λ y. key (f y)) a xs) ≡ insert key (f a) (map f xs)
  unfolding insert
  map-insert a [] = refl
  map-insert a (x ∷ xs) =
      rw (map-place (compare_keys (key (f a)) (key (f x))) a x xs (insert (λ y. key (f y)) a xs)) (
        ap (place key (compare_keys (key (f a)) (key (f x))) (f a) (f x) (map f xs))
          (map-insert a xs))

  pub map-insert_all :
      (new xs : List A)
      → map f (insert_all (λ y. key (f y)) new xs) ≡ insert_all key (map f new) (map f xs)
  map-insert_all [] xs = refl
  map-insert_all (a ∷ rest) xs =
      rw (map-insert_all rest (insert (λ y. key (f y)) a xs), map-insert a xs) refl

  find-map-place :
      (o : Ordering) (x : A) (rest : Option A) (rest' : Option B) (v : A)
      → (rest ≡ some v → rest' ≡ some (f v))
      → pick (λ y. key (f y)) o x rest ≡ some v
      → pick key o (f x) rest' ≡ some (f v)
  find-map-place Ordering.lt x rest rest' v h e = h e
  find-map-place Ordering.eq x rest rest' v h e = cc
  find-map-place Ordering.gt x rest rest' v h e = h e

  pub find-map :
      (k : Bytes) (xs : List A) (v : A)
      → find (λ y. key (f y)) k xs ≡ some v
      → find key k (map f xs) ≡ some (f v)
  unfolding find
  find-map k [] v e = cc
  find-map k (x ∷ xs) v e =
      find-map-place (compare_keys k (key (f x))) x (find (λ y. key (f y)) k xs)
        (find key k (map f xs)) v (find-map k xs v) e

-- The key of a record.
abbrev pub record_key : Bytes × Bytes → Bytes
record_key r = r.0

abbrev pub Records : Type 0
Records = List (Bytes × Bytes)
