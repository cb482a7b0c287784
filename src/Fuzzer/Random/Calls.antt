-- ===== src/Fuzzer/Random/Calls.antt =====
-- What runner/src/bin/fuzzer/random.rs draws, whatever the source of random values.
use my_mad_kv.Prelude.{
  ℕ, zero, suc, ◌+◌, ◌<◌, ◌≡◌, refl, ◌∙◌, true, false, ◌==◌, leb, some, List, [], ◌∷◌, length,
  get_elem?, set, ltb, sym, ap, modify, arith, Bool-cases, inl, inr,
}
use my_mad_kv.Text.{Text, text_ltb}
use my_mad_kv.Text.Order.{text_ltb_asymm}
use my_mad_kv.Runner.Ioapi.{KvCall, put, swap, get, scan, delete, stop}
use my_mad_kv.Fuzzer.Stats.{Stats, count_key}
use my_mad_kv.Fuzzer.Outside.{Rng}
use my_mad_kv.Fuzzer.Random.{
  Drawn, drawn, panicked, out_of_fuel, key_at, counted, gen_rand_index, gen_rand_key, gen_put,
  gen_swap, gen_get, gen_scan, gen_delete, gen_rand_kvcall,
}

-- The key stands in the pool.
abbrev pub InPool : List Text → Text → Type 0
InPool keys k = (i : ℕ) × (get_elem? keys i ≡ some k)

-- A call of the tester: its keys are of the pool, and a scan's start is not above its end.
abbrev pub IsPoolCall : List Text → KvCall → Type 0
IsPoolCall keys (put k v) = InPool keys k
IsPoolCall keys (swap k v) = InPool keys k
IsPoolCall keys (get k) = InPool keys k
IsPoolCall keys (scan lo hi) = InPool keys lo × InPool keys hi × (text_ltb hi lo ≡ false)
IsPoolCall keys (delete k) = InPool keys k
IsPoolCall keys stop = ⊥

-- the five counters, in the order in which `Stats` declares them
abbrev pub counters : Stats → List ℕ
counters s = s.cnt_put ∷ s.cnt_swap ∷ s.cnt_get ∷ s.cnt_scan ∷ s.cnt_delete ∷ []

-- the place of the call's counter
abbrev pub counter_of : KvCall → ℕ
counter_of (put k v) = 0
counter_of (swap k v) = 1
counter_of (get k) = 2
counter_of (scan lo hi) = 3
counter_of (delete k) = 4
counter_of stop = 5

-- The keys of a pool of that size are counted in that row.
abbrev pub HasRow : ℕ → ℕ → List (List ℕ) → Type 0
HasRow cidx size freqs = (row : List ℕ) × (get_elem? freqs cidx ≡ some row) × (length row ≡ size)

-- Something is drawn, a call over the pool, its counter alone is one higher, and the rows of the
-- key frequencies keep their sizes.
abbrev pub DrawsCall {ℓ} : {S : Type ℓ} → List Text → Stats → Drawn S (KvCall × Stats) → Type 0
DrawsCall keys stats (drawn (call, stats') s) =
    IsPoolCall keys call
    × (counters stats' ≡ modify (λ n. n + 1) (counter_of call) (counters stats))
    × ((c size : ℕ) → HasRow c size stats.keys_freq → HasRow c size stats'.keys_freq)
DrawsCall keys stats panicked = ⊥
DrawsCall keys stats out_of_fuel = ⊥

key_at-InPool {ℓ} :
    {S : Type ℓ} (keys : List Text) (i : ℕ) (s : S)
    → i < length keys
    → (k : Text) × (key_at keys i s ≡ drawn k s) × (get_elem? keys i ≡ some k)
key_at-InPool [] i s h = absurd (omega (arith, h))
key_at-InPool (k ∷ keys) zero s h = (k, refl, refl)
key_at-InPool (k ∷ keys) (suc i) s h = key_at-InPool keys i s (omega arith)

length-modify : (f : ℕ → ℕ) (i : ℕ) (l : List ℕ) → length (modify f i l) ≡ length l
length-modify f i [] = refl
length-modify f zero (x ∷ l) = refl
length-modify f (suc i) (x ∷ l) = ap suc (length-modify f i l)

HasRow-set :
    (freqs : List (List ℕ)) (cidx : ℕ) (row row' : List ℕ)
    → get_elem? freqs cidx ≡ some row
    → length row' ≡ length row
    → (c size : ℕ) → HasRow c size freqs
    → HasRow c size (set freqs cidx row')
HasRow-set [] cidx row row' e same c size h = absurd (cc)
HasRow-set (r ∷ freqs) zero row row' e same zero size (q, f, g) =
    (row', refl, same ∙ (ap length (the_same (sym e ∙ f)) ∙ g))
  where
    the_same : some row ≡ some q → row ≡ q
    the_same i = cc
HasRow-set (r ∷ freqs) zero row row' e same (suc c) size h = h
HasRow-set (r ∷ freqs) (suc cidx) row row' e same zero size h = h
HasRow-set (r ∷ freqs) (suc cidx) row row' e same (suc c) size h =
    HasRow-set freqs cidx row row' e same c size h

counted-HasRow {ℓ} :
    {S : Type ℓ} (cidx kidx size : ℕ) (freqs : List (List ℕ)) (s : S)
    → HasRow cidx size freqs
    → kidx < size
    → (freqs' : List (List ℕ)) × (counted cidx kidx freqs s ≡ drawn freqs' s)
      × ((c n : ℕ) → HasRow c n freqs → HasRow c n freqs')
counted-HasRow cidx kidx size freqs s (row, e, same) lt =
    let inside : ltb kidx (length row) ≡ true = ground arith in
    (
      set freqs cidx (modify (λ n. n + 1) kidx row),
      rw (e, counted, count_key) (rw inside refl),
      HasRow-set freqs cidx row _ e (length-modify _ kidx row),
    )

module _ (rng : Rng) (keys : List Text) (stats : Stats) (cidx : ℕ) (some_key : 0 < length keys)
    (counted_keys : HasRow cidx (length keys) stats.keys_freq) where
  open rng use {Source, index, index_lt}

  gen_rand_key-InPool :
      (s : Source)
      → (i : ℕ) × (k : Text) × (s' : Source) × (i < length keys)
        × (gen_rand_key rng keys s ≡ drawn (i, k) s')
        × (get_elem? keys i ≡ some k)
  unfolding gen_rand_key gen_rand_index
  gen_rand_key-InPool s =
      let (k, found, there) =
        key_at-InPool keys (index (length keys) s).0 (index (length keys) s).1
          (index_lt (length keys) s some_key) in
      (
        (index (length keys) s).0,
        k,
        (index (length keys) s).1,
        index_lt (length keys) s some_key,
        rw found refl,
        there,
      )

  gen_put-DrawsCall : (s : Source) → DrawsCall keys stats (gen_put rng keys stats cidx s)
  unfolding gen_put
  gen_put-DrawsCall s =
      let (i, k, s', lt, found, there) = gen_rand_key-InPool s in
      let (freqs, in_row, rows) = counted-HasRow cidx i _ stats.keys_freq s' counted_keys lt in
      rw found (rw in_row ((i, there), refl, rows))

  gen_swap-DrawsCall : (s : Source) → DrawsCall keys stats (gen_swap rng keys stats cidx s)
  unfolding gen_swap
  gen_swap-DrawsCall s =
      let (i, k, s', lt, found, there) = gen_rand_key-InPool s in
      let (freqs, in_row, rows) = counted-HasRow cidx i _ stats.keys_freq s' counted_keys lt in
      rw found (rw in_row ((i, there), refl, rows))

  gen_get-DrawsCall : (s : Source) → DrawsCall keys stats (gen_get rng keys stats cidx s)
  unfolding gen_get
  gen_get-DrawsCall s =
      let (i, k, s', lt, found, there) = gen_rand_key-InPool s in
      let (freqs, in_row, rows) = counted-HasRow cidx i _ stats.keys_freq s' counted_keys lt in
      rw found (rw in_row ((i, there), refl, rows))

  gen_delete-DrawsCall : (s : Source) → DrawsCall keys stats (gen_delete rng keys stats cidx s)
  unfolding gen_delete
  gen_delete-DrawsCall s =
      let (i, k, s', lt, found, there) = gen_rand_key-InPool s in
      let (freqs, in_row, rows) = counted-HasRow cidx i _ stats.keys_freq s' counted_keys lt in
      rw found (rw in_row ((i, there), refl, rows))

  gen_scan-DrawsCall : (s : Source) → DrawsCall keys stats (gen_scan rng keys stats cidx s)
  unfolding gen_scan gen_rand_index
  gen_scan-DrawsCall s =
      let (i, s1) = index (length keys) s in
      let (j, s2) = index (length keys) s1 in
      let (lo, found_lo, there_lo) = key_at-InPool keys i s2 (index_lt (length keys) s some_key) in
      let (hi, found_hi, there_hi) = key_at-InPool keys j s2 (index_lt (length keys) s1 some_key) in
      let (freqs, in_row, rows) =
        counted-HasRow cidx i _ stats.keys_freq s2 counted_keys
          (index_lt (length keys) s some_key) in
      let (freqs', in_row', rows') =
        counted-HasRow cidx j _ freqs s2 (rows cidx _ counted_keys)
          (index_lt (length keys) s1 some_key) in
      let both = λ (c n : ℕ) (h : HasRow c n stats.keys_freq). rows' c n (rows c n h) in
      rw found_lo (
        rw found_hi (
          rw in_row (
            rw in_row' (elim (Bool-cases (text_ltb hi lo)) [
              | inl e ↦ rw e (((j, there_hi), (i, there_lo), text_ltb_asymm hi lo e), refl, both)
              | inr e ↦ rw e (((i, there_lo), (j, there_hi), e), refl, both)
            ]))))

  -- From a pool with a key in it, whose keys are counted in a row of their number, a call is drawn
  -- without a panic, whatever the source: its keys are of the pool, a scan's start is not above its
  -- end, of the five counters the call's own alone goes up by one, and every row keeps its size.
  pub gen_rand_kvcall-DrawsCall :
      (s : Source) → DrawsCall keys stats (gen_rand_kvcall rng keys stats cidx s)
  unfolding gen_rand_kvcall gen_rand_index
  gen_rand_kvcall-DrawsCall s =
      let (kind, s1) = index 10 s in
      elim (Bool-cases (leb kind 1)) [
        | inl e ↦ rw e (gen_put-DrawsCall s1)
        | inr e ↦ rw e (elim (Bool-cases (leb kind 3)) [
          | inl e ↦ rw e (gen_swap-DrawsCall s1)
          | inr e ↦ rw e (elim (Bool-cases (leb kind 6)) [
            | inl e ↦ rw e (gen_get-DrawsCall s1)
            | inr e ↦ rw e (elim (Bool-cases (leb kind 8)) [
              | inl e ↦ rw e (gen_scan-DrawsCall s1)
              | inr e ↦
                  let nine : (kind == 9) ≡ true = ground (arith, index_lt 10 s (omega arith)) in
                  rw e (rw nine (gen_delete-DrawsCall s1))
            ])
          ])
        ])
      ]

pub DrawsCall-some {ℓ} :
    {S : Type ℓ} (keys : List Text) (stats : Stats) (d : Drawn S (KvCall × Stats))
    → DrawsCall keys stats d
    → (call : KvCall) × (stats' : Stats) × (s' : S) × (d ≡ drawn (call, stats') s')
      × ((c size : ℕ) → HasRow c size stats.keys_freq → HasRow c size stats'.keys_freq)
DrawsCall-some keys stats (drawn (call, stats') s') h = (call, stats', s', refl, h.2)
DrawsCall-some keys stats panicked h = absurd h
DrawsCall-some keys stats out_of_fuel h = absurd h
