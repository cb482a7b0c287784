-- ===== src/Bencher/Stats/Latency.antt =====
-- What `latency_stats` of runner/src/bin/bencher/main.rs says of its samples.
use my_mad_kv.Prelude.{
  ℕ, zero, suc, ◌-◌, ◌<◌, ◌≤◌, true, some, List, [], ◌∷◌, arith, length, get_elem?, ◌≡◌, refl, ap,
  All, All-mono, All-get_elem?, Bool-cases, inl, inr,
}
use mathlib.Core.Path.{subst}
use my_mad_kv.Bencher.Stats.{
  Float, insert_sorted, sorted, p99_index, Latencies, no_samples, latencies, panicked,
  latency_stats,
}

module _ (float : Float) where
  open float use {F, zero_float, div, le, le_total, le_trans}

  abbrev IsOrdered : List F → Type 0
  IsOrdered [] = Unit
  IsOrdered (x ∷ xs) = All (λ y. le x y ≡ true) xs × IsOrdered xs

  All-insert_sorted :
      (P : F → Type 0) (x : F) (xs : List F) → P x → All P xs → All P (insert_sorted float x xs)
  unfolding insert_sorted
  All-insert_sorted P x [] p a = (p, tt)
  All-insert_sorted P x (y ∷ ys) p a = elim (Bool-cases (le x y)) [
    | inl e ↦ rw e (p, a)
    | inr e ↦ rw e (a.0, All-insert_sorted P x ys p a.1)
  ]

  All-insert_sorted_back :
      (P : F → Type 0) (x : F) (xs : List F) → All P (insert_sorted float x xs) → P x × All P xs
  unfolding insert_sorted
  All-insert_sorted_back P x [] a = a
  All-insert_sorted_back P x (y ∷ ys) a = elim (Bool-cases (le x y)) [
    | inl e ↦ (rw e at a)
    | inr e ↦ let b = (rw e at a) in let (p, q) = All-insert_sorted_back P x ys b.1 in (p, (b.0, q))
  ]

  All-sorted : (P : F → Type 0) (xs : List F) → All P xs → All P (sorted float xs)
  unfolding sorted
  All-sorted P [] a = tt
  All-sorted P (x ∷ xs) a = All-insert_sorted P x (sorted float xs) a.0 (All-sorted P xs a.1)

  All-sorted_back : (P : F → Type 0) (xs : List F) → All P (sorted float xs) → All P xs
  unfolding sorted
  All-sorted_back P [] a = tt
  All-sorted_back P (x ∷ xs) a =
      let (p, q) = All-insert_sorted_back P x (sorted float xs) a in (p, All-sorted_back P xs q)

  insert_sorted-IsOrdered :
      (x : F) (xs : List F) → IsOrdered xs → IsOrdered (insert_sorted float x xs)
  unfolding insert_sorted
  insert_sorted-IsOrdered x [] h = (tt, tt)
  insert_sorted-IsOrdered x (y ∷ ys) h = elim (Bool-cases (le x y)) [
    | inl e ↦ rw e ((e, All-mono _ _ ys (λ z f. le_trans x y z e f) h.0), h)
    | inr e ↦ rw e (All-insert_sorted _ x ys (le_total x y e) h.0, insert_sorted-IsOrdered x ys h.1)
  ]

  sorted-IsOrdered : (xs : List F) → IsOrdered (sorted float xs)
  unfolding sorted
  sorted-IsOrdered [] = tt
  sorted-IsOrdered (x ∷ xs) = insert_sorted-IsOrdered x (sorted float xs) (sorted-IsOrdered xs)

  length-insert_sorted : (x : F) (xs : List F) → length (insert_sorted float x xs) ≡ suc (length xs)
  unfolding insert_sorted
  length-insert_sorted x [] = refl
  length-insert_sorted x (y ∷ ys) = elim (Bool-cases (le x y)) [
    | inl e ↦ rw e refl
    | inr e ↦ rw e (ap suc (length-insert_sorted x ys))
  ]

  le_refl : (a : F) → le a a ≡ true
  le_refl a = elim (Bool-cases (le a a)) [ inl e ↦ e | inr e ↦ le_total a a e ]

  -- an element of an ordered list bounds those in front of it from above
  IsOrdered-last :
      (xs : List F) (i : ℕ) (z : F)
      → IsOrdered xs
      → get_elem? xs i ≡ some z
      → length xs ≤ suc i
      → All (λ y. le y z ≡ true) xs
  IsOrdered-last [] i z h e lt = tt
  IsOrdered-last (x ∷ []) zero z h e lt = (rw (the_same x z e) (le_refl z), tt)
    where
      the_same : (a b : F) → some a ≡ some b → a ≡ b
      the_same a b f = cc
  IsOrdered-last (x ∷ y ∷ xs) zero z h e lt = absurd (omega (arith, lt))
  IsOrdered-last (x ∷ xs) (suc i) z h e lt =
      (All-get_elem? _ xs h.0 i z e, IsOrdered-last xs i z h.1 e (omega arith))

  get_elem?-inside : (xs : List F) (i : ℕ) → i < length xs → (z : F) × (get_elem? xs i ≡ some z)
  get_elem?-inside [] i h = absurd (omega (arith, h))
  get_elem?-inside (x ∷ xs) zero h = (x, refl)
  get_elem?-inside (x ∷ xs) (suc i) h = get_elem?-inside xs i (omega arith)

  -- one of the samples
  abbrev pub IsSample : List F → F → Type 0
  IsSample xs z = (i : ℕ) × (get_elem? xs i ≡ some z)

  -- There are no samples, or the smallest, the largest and the percentile are samples, and the
  -- first two bound all samples.
  abbrev pub Describes : List F → Latencies float → Type 0
  Describes xs no_samples = length xs ≡ 0
  Describes xs panicked = ⊥
  Describes xs (latencies avg smallest largest p99) =
      IsSample xs smallest
      × IsSample xs largest
      × IsSample xs p99
      × All (λ x. (le smallest x ≡ true) × (le x largest ≡ true)) xs

  All-IsSample : (xs : List F) (P : F → Type 0) → ((z : F) → IsSample xs z → P z) → All P xs
  All-IsSample [] P f = tt
  All-IsSample (x ∷ xs) P f = (f x (0, refl), All-IsSample xs P (λ z s. f z (suc s.0, s.1)))

  All-both : (P Q : F → Type 0) (xs : List F) → All P xs → All Q xs → All (λ x. P x × Q x) xs
  All-both P Q [] a b = tt
  All-both P Q (x ∷ xs) a b = ((a.0, b.0), All-both P Q xs a.1 b.1)

  IsOrdered-first :
      (xs : List F) (z : F) → IsOrdered xs → get_elem? xs 0 ≡ some z → All (λ y. le z y ≡ true) xs
  IsOrdered-first [] z h e = tt
  IsOrdered-first (x ∷ xs) z h e =
      subst (λ w. All (λ y. le w y ≡ true) (x ∷ xs)) (the_same x z e) (le_refl x, h.0)
    where
      the_same : (a b : F) → some a ≡ some b → a ≡ b
      the_same a b f = cc

  -- Of any samples latency_stats reports nothing, exactly if there are none, or values that are
  -- samples: a smallest, a largest and a percentile, of which the first two bound all samples. It
  -- panics on no samples, wherever the rounding of the percentile's index ends.
  pub latency_stats-Describes : (xs : List F) → Describes xs (latency_stats float xs)
  unfolding latency_stats p99_index sorted
  latency_stats-Describes [] = refl
  latency_stats-Describes (x ∷ xs) =
      let ys = sorted float (x ∷ xs) in
      let order = sorted-IsOrdered (x ∷ xs) in
      let full : 0 < length ys = omega (arith, length-insert_sorted x (sorted float xs)) in
      let (smallest, at_first) = get_elem?-inside ys 0 full in
      let (largest, at_last) = get_elem?-inside ys (length ys - 1) (omega (arith, full)) in
      let (p99, at_p99) = get_elem?-inside ys (p99_index float (length ys)) (omega (arith, full)) in
      let samples = All-sorted (IsSample (x ∷ xs)) (x ∷ xs) (All-IsSample (x ∷ xs) _ (λ z s. s)) in
      rw (at_first, latency_stats)
        (rw (at_last, latency_stats)
          (rw (at_p99, latency_stats)
            (
              All-get_elem? _ ys samples 0 smallest at_first,
              All-get_elem? _ ys samples (length ys - 1) largest at_last,
              All-get_elem? _ ys samples (p99_index float (length ys)) p99 at_p99,
              All-sorted_back _ (x ∷ xs) (
                  All-both _ _ ys (IsOrdered-first ys smallest order at_first) (
                    IsOrdered-last ys (length ys - 1) largest order at_last (omega (arith, full)))),
            )))
