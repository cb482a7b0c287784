-- ===== src/Bencher/Stats.antt =====
-- `Stats` of runner/src/bin/bencher/main.rs.
pub mod Merging
pub mod Latency
use my_mad_kv.Prelude.{
  ℕ, zero, suc, ◌+◌, ◌-◌, ◌==◌, min, Bool, true, false, Option, none, some, List, [], ◌∷◌, ◌++◌,
  length, get_elem?, if◌then◌else◌, ◌≡◌,
}
use my_mad_kv.Text.{Text}
use my_mad_kv.Collections.HashMap
use my_mad_kv.Collections.HashMap.{HashMap}

-- What the code uses of `f64`. The samples are times, of which none is a NaN, so that
-- `partial_cmp` gives an order; the laws are those of the order.
pub record Float : Type 1 where
  pub F : Type 0
  pub zero_float : F
  pub add : F → F → F
  -- division by a length
  pub div : F → ℕ → F
  pub max_float : F → F → F
  -- `partial_cmp(..).unwrap()` is `Less` or `Equal`
  pub le : F → F → Bool
  -- `((len as f64) * 0.99).ceil() as usize`
  pub ceil_99 : ℕ → ℕ
  pub le_total : (a b : F) → le a b ≡ false → le b a ≡ true
  pub le_trans : (a b c : F) → le a b ≡ true → le b c ≡ true → le a c ≡ true

module _ (float : Float) where
  open float use {F, zero_float, add, div, max_float, le, ceil_99}

  pub record Stats : Type 0 where
    pub merged : ℕ
    pub total_ms : F
    pub lat_samples : HashMap (List F)

  unfoldable pub new : Stats
  new = record { merged = 0; total_ms = zero_float; lat_samples = [] }

  -- `entry(op).or_default()`
  abbrev pub samples_of : Text → HashMap (List F) → List F
  samples_of op m = elim (HashMap.lookup op m) [ none ↦ [] | some samples ↦ samples ]

  -- `entry(op).or_default().extend(samples)`
  unfoldable pub extend_entry : Text → List F → HashMap (List F) → HashMap (List F)
  extend_entry op samples m = HashMap.insert op (samples_of op m ++ samples) m

  unfoldable pub record_op : Text → F → Stats → Stats
  unfolding extend_entry
  record_op op latency_us s = record s {
    lat_samples = extend_entry op (latency_us ∷ []) s.lat_samples;
  }

  unfoldable pub count_samples : HashMap (List F) → ℕ
  count_samples [] = 0
  count_samples ((op, samples) ∷ m) = length samples + count_samples m

  unfoldable pub total_ops : Stats → ℕ
  unfolding count_samples
  total_ops s = count_samples s.lat_samples

  -- the loop over the samples of the other struct
  unfoldable pub extend_all : HashMap (List F) → HashMap (List F) → HashMap (List F)
  unfolding extend_entry
  extend_all [] m = m
  extend_all ((op, samples) ∷ other) m = extend_all other (extend_entry op samples m)

  unfoldable pub merge : Stats → Stats → Stats
  unfolding extend_all
  merge s other = if s.merged == 0 then other else record {
    merged = s.merged + other.merged;
    total_ms = max_float s.total_ms other.total_ms;
    lat_samples = extend_all other.lat_samples s.lat_samples;
  }

  -- `sort_by`, which is stable
  unfoldable pub insert_sorted : F → List F → List F
  insert_sorted x [] = x ∷ []
  insert_sorted x (y ∷ ys) =
      let rest = insert_sorted x ys in if le x y then x ∷ y ∷ ys else y ∷ rest

  unfoldable pub sorted : List F → List F
  unfolding insert_sorted
  sorted [] = []
  sorted (x ∷ xs) = insert_sorted x (sorted xs)

  -- `iter().sum()`
  unfoldable pub sum : F → List F → F
  sum acc [] = acc
  sum acc (x ∷ xs) = sum (add acc x) xs

  -- the index that `saturating_sub` and `min` make of the rounded product
  unfoldable pub p99_index : ℕ → ℕ
  p99_index len = min (ceil_99 len - 1) (len - 1)

  -- What `latency_stats` returns, or that an index is out of bounds.
  pub data Latencies : Type 0 where
    no_samples : Latencies
    latencies : F → F → F → F → Latencies
    panicked : Latencies

  unfoldable pub latency_stats : List F → Latencies
  unfolding sorted sum p99_index
  latency_stats [] = no_samples
  latency_stats (x ∷ xs) =
      let ys = sorted (x ∷ xs) in
      elim (get_elem? ys 0) [
        | none ↦ panicked
        | some smallest ↦ elim (get_elem? ys (length ys - 1)) [
          | none ↦ panicked
          | some largest ↦ elim (get_elem? ys (p99_index (length ys))) [
            | none ↦ panicked
            | some p99 ↦ latencies (div (sum zero_float ys) (length ys)) smallest largest p99
          ]
        ]
      ]
