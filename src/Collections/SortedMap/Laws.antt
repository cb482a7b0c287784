-- ===== src/Collections/SortedMap/Laws.antt =====
-- A sorted map stays sorted, and its operations are those of a function from keys to values.
use my_mad_kv.Prelude.{
  ◌≡◌, refl, true, not, ◌&&◌, none, some, [], ◌∷◌, Ordering, arith, if◌then◌else◌,
}
use my_mad_kv.Text.{Text, text_compare, text_eq, text_ltb}
use my_mad_kv.Text.Order.{
  text_compare-eq_iff, text_ltb_trans, text_compare_flip, text_compare_trans,
}
use my_mad_kv.Collections.SortedMap.{SortedMap, lookup, insert, remove, between, IsAbove, IsSorted}

module _ {ℓ} {V : Type ℓ} where
  IsAbove-trans : (i j : Text) (m : SortedMap V) → text_ltb i j ≡ true → IsAbove j m → IsAbove i m
  IsAbove-trans i j [] h a = tt
  IsAbove-trans i j ((k, w) ∷ m) h a = (text_ltb_trans i j k h a.0, IsAbove-trans i j m h a.1)

  -- A key below all others is not there.
  pub lookup-IsAbove : (k : Text) (m : SortedMap V) → IsAbove k m → lookup k m ≡ none
  unfolding lookup text_ltb
  lookup-IsAbove k [] a = refl
  lookup-IsAbove k ((j, w) ∷ m) a = ground arith

  IsAbove-insert :
      (i k : Text) (v : V) (m : SortedMap V)
      → text_ltb i k ≡ true
      → IsAbove i m
      → IsAbove i (insert k v m)
  unfolding insert
  IsAbove-insert i k v [] h a = (h, tt)
  IsAbove-insert i k v ((j, w) ∷ m) h a = ground (arith, IsAbove-insert i k v m)

  IsAbove-remove : (i k : Text) (m : SortedMap V) → IsAbove i m → IsAbove i (remove k m)
  unfolding remove
  IsAbove-remove i k [] a = tt
  IsAbove-remove i k ((j, w) ∷ m) a = ground (arith, IsAbove-remove i k m)

  pub insert-IsSorted : (k : Text) (v : V) (m : SortedMap V) → IsSorted m → IsSorted (insert k v m)
  unfolding insert text_ltb
  insert-IsSorted k v [] s = (tt, tt)
  insert-IsSorted k v ((j, w) ∷ m) s = ground (
    arith,
    insert-IsSorted k v m,
    IsAbove-insert j k v m,
    IsAbove-trans k j m,
    text_compare_flip j k,
  )

  pub remove-IsSorted : (k : Text) (m : SortedMap V) → IsSorted m → IsSorted (remove k m)
  unfolding remove
  remove-IsSorted k [] s = tt
  remove-IsSorted k ((j, w) ∷ m) s = ground (arith, remove-IsSorted k m, IsAbove-remove j k m)

  pub lookup-insert :
      (j k : Text) (v : V) (m : SortedMap V)
      → lookup j (insert k v m) ≡ (if text_eq k j then some v else lookup j m)
  unfolding lookup insert text_eq
  lookup-insert j k v [] = ground (arith, text_compare-eq_iff k j, text_compare-eq_iff j k)
  lookup-insert j k v ((i, w) ∷ m) = ground (
    arith,
    lookup-insert j k v m,
    text_compare-eq_iff k j,
    text_compare-eq_iff j k,
    text_compare-eq_iff k i,
    text_compare-eq_iff j i,
    text_compare_trans j k i,
    text_compare_flip j k,
    text_compare_flip k j,
    text_compare_trans j i k,
    text_compare_flip k i,
    text_compare_flip i k,
    text_compare_flip i j,
    text_compare_flip j i,
  )

  pub lookup-below :
      (j k : Text) (m : SortedMap V)
      → text_compare j k ≡ Ordering.lt
      → IsAbove k m
      → lookup j m ≡ none
  unfolding text_ltb
  lookup-below j k m h a = lookup-IsAbove j m (IsAbove-trans j k m (rw (h, text_ltb)) a)

  pub lookup-remove :
      (j k : Text) (m : SortedMap V)
      → IsSorted m
      → lookup j (remove k m) ≡ (if text_eq k j then none else lookup j m)
  unfolding lookup remove text_eq
  lookup-remove j k [] s = ground arith
  lookup-remove j k ((i, w) ∷ m) s = ground (
    arith,
    lookup-remove j k m s.1,
    text_compare-eq_iff k j,
    text_compare-eq_iff j k,
    text_compare-eq_iff k i,
    text_compare-eq_iff j i,
    lookup-below j i m,
    lookup-IsAbove i m,
    text_compare_trans j k i,
  )

  IsAbove-between : (i lo hi : Text) (m : SortedMap V) → IsAbove i m → IsAbove i (between lo hi m)
  unfolding between
  IsAbove-between i lo hi [] a = tt
  IsAbove-between i lo hi ((j, w) ∷ m) a = ground (arith, IsAbove-between i lo hi m)

  pub between-IsSorted : (lo hi : Text) (m : SortedMap V) → IsSorted m → IsSorted (between lo hi m)
  unfolding between
  between-IsSorted lo hi [] s = tt
  between-IsSorted lo hi ((j, w) ∷ m) s =
      ground (arith, between-IsSorted lo hi m, IsAbove-between j lo hi m)

  pub lookup-between :
      (k lo hi : Text) (m : SortedMap V)
      → IsSorted m
      → lookup k (between lo hi m)
        ≡ (if not (text_ltb k lo) && text_ltb k hi then lookup k m else none)
  unfolding lookup between
  lookup-between k lo hi [] s = ground arith
  lookup-between k lo hi ((j, w) ∷ m) s = ground (
    arith,
    lookup-between k lo hi m s.1,
    text_compare-eq_iff k j,
    lookup-below k j m,
    lookup-IsAbove j m,
  )

  lookup_nil : (k : Text) → lookup {V = V} k [] ≡ none
  unfolding lookup
  lookup_nil k = refl

  lookup_first : (j : Text) (w : V) (m : SortedMap V) → lookup j ((j, w) ∷ m) ≡ some w
  unfolding lookup
  lookup_first j w m = ground (arith, text_compare-eq_iff j j)

  -- The first entries of two sorted maps with the same lookups are the same.
  first_keys :
      (j i : Text) (w x : V) (m n : SortedMap V)
      → ((k : Text) → lookup k ((j, w) ∷ m) ≡ lookup k ((i, x) ∷ n))
      → (j ≡ i) × (w ≡ x)
  unfolding lookup
  first_keys j i w x m n h = ground (
    arith,
    h j,
    h i,
    text_compare-eq_iff j j,
    text_compare-eq_iff i i,
    text_compare-eq_iff j i,
    text_compare_flip j i,
    text_compare_flip i j,
  )

  lookup_rest :
      (k j : Text) (w x : V) (m n : SortedMap V)
      → IsAbove j m
      → IsAbove j n
      → lookup k ((j, w) ∷ m) ≡ lookup k ((j, x) ∷ n)
      → lookup k m ≡ lookup k n
  unfolding lookup
  lookup_rest k j w x m n a b h = ground (
    arith,
    text_compare-eq_iff k j,
    lookup-below k j m,
    lookup-below k j n,
    lookup-IsAbove j m,
    lookup-IsAbove j n,
  )

  -- A sorted map is known from its lookups.
  pub SortedMap-ext :
      (m n : SortedMap V) → IsSorted m → IsSorted n → ((k : Text) → lookup k m ≡ lookup k n) → m ≡ n
  SortedMap-ext [] [] s t h = refl
  SortedMap-ext [] ((i, x) ∷ n) s t h = cc (h i, lookup_first i x n, lookup_nil i)
  SortedMap-ext ((j, w) ∷ m) [] s t h = cc (h j, lookup_first j w m, lookup_nil j)
  SortedMap-ext ((j, w) ∷ m) ((i, x) ∷ n) s t h =
      let (e, f) = first_keys j i w x m n h in
      let above : IsAbove j n = rw e t.0 in
      let tails : m ≡ n =
        SortedMap-ext m n s.1 t.1 (λ k. lookup_rest k j w x m n s.0 above (rw (← e) at (h k))) in
      cc
