-- ===== src/Fuzzer/Stats.antt =====
-- `Stats` and the constants of runner/src/bin/fuzzer/main.rs.
use my_mad_kv.Prelude.{
  ℕ, ◌+◌, Option, none, some, get_elem?, set, ltb, if◌then◌else◌, List, [], ◌∷◌, length, replicate,
  modify,
}
use my_mad_kv.Text.{Text}

abbrev pub key_len : ℕ
key_len = 8

abbrev pub value_len : ℕ
value_len = 16

abbrev pub remain_thresh : ℕ
remain_thresh = 1000

pub record Stats : Type 0 where
  pub cnt_put : ℕ
  pub cnt_swap : ℕ
  pub cnt_get : ℕ
  pub cnt_scan : ℕ
  pub cnt_delete : ℕ
  pub keys_freq : List (List ℕ)

abbrev pub zero_freqs : List (List Text) → List (List ℕ)
zero_freqs [] = []
zero_freqs (ks ∷ keys) = replicate (length ks) 0 ∷ zero_freqs keys

unfoldable pub new : List (List Text) → Stats
new keys = record {
  cnt_put = 0;
  cnt_swap = 0;
  cnt_get = 0;
  cnt_scan = 0;
  cnt_delete = 0;
  keys_freq = zero_freqs keys;
}

-- `stats.keys_freq[cidx][kidx] += 1`; `none` is an index out of bounds
abbrev pub count_key : ℕ → ℕ → List (List ℕ) → Option (List (List ℕ))
count_key cidx kidx freqs = elim (get_elem? freqs cidx) [
  | none ↦ none
  | some row ↦
      if ltb kidx (length row) then some (set freqs cidx (modify (λ n. n + 1) kidx row)) else none
]
