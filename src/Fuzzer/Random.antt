-- ===== src/Fuzzer/Random.antt =====
-- runner/src/bin/fuzzer/random.rs
pub mod Calls
pub mod Draws
use my_mad_kv.Prelude.{
  ℕ, zero, suc, ◌+◌, Bool, true, false, ◌==◌, ◌||◌, leb, Option, none, some, List, [], ◌∷◌, length,
  get_elem?, if◌then◌else◌,
}
use my_mad_kv.Text.{Text, text_ltb}
use my_mad_kv.Runner.Ioapi.{KvCall, put, swap, get, scan, delete}
use my_mad_kv.Fuzzer.Stats.{Stats, value_len, count_key}
use my_mad_kv.Fuzzer.Outside.{Rng, Bits}

-- What a generator returns: a value and the source that is left, an index out of bounds, or
-- no value within the fuel.
pub data Drawn {ℓ κ} (S : Type ℓ) (A : Type κ) : Type (ℓ ⊔ κ) where
  drawn : A → S → Drawn S A
  panicked : Drawn S A
  out_of_fuel : Drawn S A

infixl 5 ◌>>=◌
abbrev pub ◌>>=◌ {ℓ κ ι} :
    {S : Type ℓ} {A : Type κ} {B : Type ι} → Drawn S A → (A × S → Drawn S B) → Drawn S B
drawn a s >>= f = f (a, s)
panicked >>= f = panicked
out_of_fuel >>= f = out_of_fuel

-- `keys[kidx]`
abbrev pub key_at {ℓ} : {S : Type ℓ} → List Text → ℕ → S → Drawn S Text
key_at [] kidx s = panicked
key_at (k ∷ keys) zero s = drawn k s
key_at (k ∷ keys) (suc kidx) s = key_at keys kidx s

abbrev pub counted {ℓ} : {S : Type ℓ} → ℕ → ℕ → List (List ℕ) → S → Drawn S (List (List ℕ))
counted cidx kidx freqs s = elim (count_key cidx kidx freqs) [
  | none ↦ panicked
  | some freqs' ↦ drawn freqs' s
]

module _ (rng : Rng) where
  open rng use {Source, index, flip, text}

  unfoldable pub gen_rand_index : ℕ → Source → ℕ × Source
  gen_rand_index max s = index max s

  unfoldable pub gen_rand_string : ℕ → Source → Text × Source
  gen_rand_string len s = text len s

  -- one key of the pool, with its index
  unfoldable pub gen_rand_key : List Text → Source → Drawn Source (ℕ × Text)
  unfolding gen_rand_index
  gen_rand_key keys s =
      let (kidx, s') = gen_rand_index (length keys) s in
      key_at keys kidx s' >>= λ (k, s''). drawn (kidx, k) s''

  unfoldable pub gen_put : List Text → Stats → ℕ → Source → Drawn Source (KvCall × Stats)
  unfolding gen_rand_key gen_rand_string
  gen_put keys stats cidx s = gen_rand_key keys s >>= λ (k, s1).
      counted cidx k.0 stats.keys_freq s1 >>= λ (freqs, s2).
      let (value, s3) = gen_rand_string value_len s2 in
      drawn (put k.1 value, record stats { cnt_put = stats.cnt_put + 1; keys_freq = freqs }) s3

  unfoldable pub gen_swap : List Text → Stats → ℕ → Source → Drawn Source (KvCall × Stats)
  unfolding gen_rand_key gen_rand_string
  gen_swap keys stats cidx s = gen_rand_key keys s >>= λ (k, s1).
      counted cidx k.0 stats.keys_freq s1 >>= λ (freqs, s2).
      let (value, s3) = gen_rand_string value_len s2 in
      drawn (swap k.1 value, record stats { cnt_swap = stats.cnt_swap + 1; keys_freq = freqs }) s3

  unfoldable pub gen_get : List Text → Stats → ℕ → Source → Drawn Source (KvCall × Stats)
  unfolding gen_rand_key
  gen_get keys stats cidx s = gen_rand_key keys s >>= λ (k, s1).
      counted cidx k.0 stats.keys_freq s1 >>= λ (freqs, s2).
      drawn (get k.1, record stats { cnt_get = stats.cnt_get + 1; keys_freq = freqs }) s2

  -- the two keys of a scan, swapped if the second is the smaller
  unfoldable pub gen_scan : List Text → Stats → ℕ → Source → Drawn Source (KvCall × Stats)
  unfolding gen_rand_index
  gen_scan keys stats cidx s =
      let (ksidx, s1) = gen_rand_index (length keys) s in
      let (keidx, s2) = gen_rand_index (length keys) s1 in
      key_at keys ksidx s2 >>= λ (key_start, s3). key_at keys keidx s3 >>= λ (key_end, s4).
      counted cidx ksidx stats.keys_freq s4 >>= λ (freqs, s5).
      counted cidx keidx freqs s5 >>= λ (freqs', s6).
      drawn
        (
          if text_ltb key_end key_start then scan key_end key_start else scan key_start key_end,
          record stats { cnt_scan = stats.cnt_scan + 1; keys_freq = freqs' },
        )
        s6

  unfoldable pub gen_delete : List Text → Stats → ℕ → Source → Drawn Source (KvCall × Stats)
  unfolding gen_rand_key
  gen_delete keys stats cidx s = gen_rand_key keys s >>= λ (k, s1).
      counted cidx k.0 stats.keys_freq s1 >>= λ (freqs, s2).
      drawn (delete k.1, record stats { cnt_delete = stats.cnt_delete + 1; keys_freq = freqs }) s2

  unfoldable pub gen_rand_kvcall : List Text → Stats → ℕ → Source → Drawn Source (KvCall × Stats)
  unfolding gen_rand_index
  gen_rand_kvcall keys stats cidx s =
      let (kind, s1) = gen_rand_index 10 s in
      if leb kind 1
      then gen_put keys stats cidx s1
      else if leb kind 3
      then gen_swap keys stats cidx s1
      else if leb kind 6
      then gen_get keys stats cidx s1
      else if leb kind 8
      then gen_scan keys stats cidx s1
      else if kind == 9
      then gen_delete keys stats cidx s1
      else panicked

  module _ (bits : Bits) where
    open bits use {BitVec}

    unfoldable pub gen_call_vs_wait : ℕ → ℕ → BitVec → Source → Bool × Source
    gen_call_vs_wait ops_called num_ops flying s =
        if ops_called == num_ops || bits.all flying
        then (false, s)
        else if bits.none_set flying
        then (true, s)
        else flip s

    -- The loop draws until a client has the wanted status.
    unfoldable pub gen_rand_client : ℕ → BitVec → Bool → Source → Drawn Source ℕ
    gen_rand_client zero flying want_flying s = out_of_fuel
    gen_rand_client (suc fuel) flying want_flying s =
        let (cidx, s') = index (bits.len flying) s in
        let rest = gen_rand_client fuel flying want_flying s' in
        elim (bits.get flying cidx) [
          | none ↦ panicked
          | some true ↦ if want_flying then drawn cidx s' else rest
          | some false ↦ if want_flying then rest else drawn cidx s'
        ]
