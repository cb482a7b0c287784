-- ===== src/Fuzzer/History/Bounds.antt =====
-- The bounds that `apply_update` of runner/src/bin/fuzzer/history.rs trims by.
use my_mad_kv.Prelude.{
  ℕ, zero, suc, ◌≤◌, ◌≡◌, some, List, [], ◌∷◌, arith, set, get_elem?, All, All-mono, min,
}
use my_mad_kv.Fuzzer.History.{QueuedSpan, u64_max, min_coming, min_from, min_queued}
use my_mad_kv.Fuzzer.History.Alike.{CalledFrom}

-- The smallest element of a list is bounded below by what bounds them all.
min_from-le : (b m : ℕ) (l : List ℕ) → b ≤ m → All (λ x. b ≤ x) l → b ≤ min_from m l
unfolding min_from
min_from-le b m [] h a = h
min_from-le b m (x ∷ l) h a = min_from-le b (min m x) l (omega arith) a.1

min_from-below : (m : ℕ) (l : List ℕ) → (min_from m l ≤ m) × All (λ x. min_from m l ≤ x) l
unfolding min_from
min_from-below m [] = (omega arith, tt)
min_from-below m (x ∷ l) =
    let (a, b) = min_from-below (min m x) l in (omega arith, (omega arith, b))

-- A larger value in one place does not make the smallest one smaller.
All-set :
    (b : ℕ) (l : List ℕ) (i t u : ℕ)
    → get_elem? l i ≡ some t
    → t ≤ u
    → All (λ x. b ≤ x) l
    → All (λ x. b ≤ x) (set l i u)
All-set b [] i t u e h a = tt
All-set b (x ∷ l) zero t u e h a = (ground arith, a.1)
All-set b (x ∷ l) (suc i) t u e h a = (a.0, All-set b l i t u e h a.1)

min_coming-le : (b : ℕ) (x : ℕ) (l : List ℕ) → All (λ y. b ≤ y) (x ∷ l) → b ≤ min_coming (x ∷ l)
unfolding min_coming
min_coming-le b x l a = min_from-le b x l a.0 a.1

min_coming-below : (l : List ℕ) → All (λ x. min_coming l ≤ x) l
unfolding min_coming
min_coming-below [] = tt
min_coming-below (x ∷ l) = min_from-below x l

pub min_coming-set :
    (l : List ℕ) (i t u : ℕ)
    → get_elem? l i ≡ some t
    → t ≤ u
    → min_coming l ≤ min_coming (set l i u)
min_coming-set [] i t u e h = absurd (cc)
min_coming-set (x ∷ l) zero t u e h =
    min_coming-le _ u l (All-set _ (x ∷ l) zero t u e h (min_coming-below (x ∷ l)))
min_coming-set (x ∷ l) (suc i) t u e h =
    min_coming-le _ x (set l i u) (All-set _ (x ∷ l) (suc i) t u e h (min_coming-below (x ∷ l)))

pub min_coming-get : (l : List ℕ) (i t : ℕ) → get_elem? l i ≡ some t → min_coming l ≤ t
min_coming-get l i t e = below (min_coming l) l i e (min_coming-below l)
  where
    below : (b : ℕ) (l : List ℕ) (i : ℕ) → get_elem? l i ≡ some t → All (λ x. b ≤ x) l → b ≤ t
    below b [] i e a = absurd (cc)
    below b (x ∷ l) zero e a = ground arith
    below b (x ∷ l) (suc i) e a = below b l i e a.1

pub min_queued-le : (b : ℕ) (q : List QueuedSpan) → b ≤ u64_max → CalledFrom b q → b ≤ min_queued q
unfolding min_queued
min_queued-le b [] h a = h
min_queued-le b (e ∷ []) h a = a.0
min_queued-le b (e ∷ f ∷ q) h a = omega (arith, min_queued-le b (f ∷ q) h a.1)

pub min_queued-below : (q : List QueuedSpan) → CalledFrom (min_queued q) q
unfolding min_queued
min_queued-below [] = tt
min_queued-below (e ∷ []) = (omega arith, tt)
min_queued-below (e ∷ f ∷ q) =
    (omega arith, All-mono _ _ (f ∷ q) (λ x h. omega arith) (min_queued-below (f ∷ q)))

pub min_queued-le-u64_max :
    (q : List QueuedSpan) → All (λ (e : QueuedSpan). e.ts_call ≤ u64_max) q → min_queued q ≤ u64_max
unfolding min_queued
min_queued-le-u64_max [] a = omega arith
min_queued-le-u64_max (e ∷ []) a = a.0
min_queued-le-u64_max (e ∷ f ∷ q) a = omega (arith, min_queued-le-u64_max (f ∷ q) a.1)
