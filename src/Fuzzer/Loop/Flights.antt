-- ===== src/Fuzzer/Loop/Flights.antt =====
-- The clients in flight in the loop of `fuzz_test` (runner/src/bin/fuzzer/main.rs): so many as have
-- been called and not been waited for.
use my_mad_kv.Prelude.{
  ℕ, zero, suc, ◌+◌, ◌<◌, ◌≡◌, refl, sym, ap, ◌∙◌, ◌≢◌, Bool, true, false, not, Option, none, some,
  arith, inl, inr, ◌⊎◌, ◌==◌, Bool-cases, if◌then◌else◌,
}
use mathlib.Core.Path.{subst}
use my_mad_kv.Fuzzer.Outside.{Rng, Bits}
use my_mad_kv.Fuzzer.Random.{out_of_fuel, gen_rand_client, gen_call_vs_wait}
use my_mad_kv.Fuzzer.Random.Draws
use my_mad_kv.Fuzzer.Random.Draws.{gen_rand_client-DrawsClient, gen_call_vs_wait_lem}

abbrev flies : Option Bool → ℕ
flies (some true) = 1
flies (some false) = 0
flies none = 0

-- how many of the first `n` places are set
abbrev pub flights : (ℕ → Option Bool) → ℕ → ℕ
flights g zero = 0
flights g (suc n) = flies (g n) + flights g n

flights-same :
    (g g' : ℕ → Option Bool) (n : ℕ) → ((i : ℕ) → i < n → g' i ≡ g i) → flights g' n ≡ flights g n
flights-same g g' zero same = refl
flights-same g g' (suc n) same =
    let rest = flights-same g g' n (λ i lt. same i (omega arith)) in
    let this = ap flies (same n (omega arith)) in omega (arith, rest, this)

-- one place is changed
flights-change :
    (g g' : ℕ → Option Bool) (c n : ℕ)
    → ((i : ℕ) → c ≢ i → g' i ≡ g i)
    → c < n
    → flights g' n + flies (g c) ≡ flights g n + flies (g' c)
flights-change g g' c zero same lt = absurd (omega (arith, lt))
flights-change g g' c (suc n) same lt = elim (Bool-cases (c == n)) [
  | inl e ↦
      let on : c ≡ n = ground arith in
      let rest =
        flights-same g g' n (λ i below. same i (λ f. absurd (omega (arith, on, f, below)))) in
      let this = ap (λ i. flies (g i)) on in
      let that = ap (λ i. flies (g' i)) on in omega (arith, rest, this, that)
  | inr e ↦
      let off : c ≢ n = ground arith in
      let rest = flights-change g g' c n same (ground arith) in
      let this = ap flies (same n off) in omega (arith, rest, this)
]

-- the first of the places that has the value, or all others
find_status :
    (g : ℕ → Option Bool) (want : Bool) (n : ℕ)
    → ((i : ℕ) → i < n → (b : Bool) × (g i ≡ some b))
    → ((i : ℕ) × (i < n) × (g i ≡ some want)) ⊎ ((i : ℕ) → i < n → g i ≡ some (not want))
find_status g want zero known = inr (λ i lt. absurd (omega (arith, lt)))
find_status g want (suc n) known = elim (find_status g want n (λ i lt. known i (omega arith))) [
  | inl (i, lt, e) ↦ inl (i, omega arith, e)
  | inr others ↦ by_status want (known n (omega arith)) others
]
  where
    up :
        (v : Bool)
        → g n ≡ some v
        → ((i : ℕ) → i < n → g i ≡ some v)
        → (i : ℕ) → i < suc n
        → g i ≡ some v
    up v e others i lt = elim (Bool-cases (i == n)) [
      | inl q ↦ let on : i ≡ n = ground arith in ap g on ∙ e
      | inr q ↦ others i (ground arith)
    ]

    by_status :
        (w : Bool)
        → (b : Bool) × (g n ≡ some b)
        → ((i : ℕ) → i < n → g i ≡ some (not w))
        → ((i : ℕ) × (i < suc n) × (g i ≡ some w)) ⊎ ((i : ℕ) → i < suc n → g i ≡ some (not w))
    by_status true (true, e) others = inl (n, omega arith, e)
    by_status true (false, e) others = inr (up false e others)
    by_status false (true, e) others = inr (up true e others)
    by_status false (false, e) others = inl (n, omega arith, e)

pub flights_none :
    (g : ℕ → Option Bool) (n : ℕ) → ((i : ℕ) → i < n → g i ≡ some false) → flights g n ≡ 0
flights_none g zero unset = refl
flights_none g (suc n) unset =
    let rest = flights_none g n (λ i lt. unset i (omega arith)) in
    let this = ap flies (unset n (omega arith)) in omega (arith, rest, this)

module _ (rng : Rng) where
  -- the source after so many draws below `n`
  abbrev pub draws : ℕ → ℕ → rng.Source → rng.Source
  draws n zero s = s
  draws n (suc i) s = draws n i (rng.index n s).1

  -- From any source on, each number below `n` comes up among so many draws.
  abbrev pub Hits : ℕ → ℕ → Type 0
  Hits fuel n =
      (c : ℕ) (s : rng.Source) → c < n → (i : ℕ) × (i < fuel) × ((rng.index n (draws n i s)).0 ≡ c)

module _ (rng : Rng) (bits : Bits) (n : ℕ) (some_client : 0 < n) (flying : bits.BitVec)
    (len : bits.len flying ≡ n) where
  after-draws :
      (i : ℕ) (s : rng.Source) → Draws.after rng bits flying i s ≡ draws rng (bits.len flying) i s
  after-draws zero s = refl
  after-draws (suc i) s = after-draws i (rng.index (bits.len flying) s).1

  pub status_known : (i : ℕ) → i < n → (b : Bool) × (bits.get flying i ≡ some b)
  status_known i lt = bits.get-lt flying i (rw len lt)

  -- While a client has the wanted status, the draw finds one.
  pub gen_rand_client-found :
      (fuel : ℕ) (want : Bool) (s : rng.Source) (c : ℕ)
      → Hits rng fuel n
      → c < n
      → bits.get flying c ≡ some want
      → gen_rand_client rng bits fuel flying want s ≢ out_of_fuel
  gen_rand_client-found fuel want s c hits lt e q =
      let (i, below, there) = subst (Hits rng fuel) (sym len) hits c s (rw len lt) in
      let met =
        subst (Draws.DrawsClient rng bits flying fuel want s) q
          (gen_rand_client-DrawsClient rng bits flying (rw len some_client) fuel want s) i below in
      let at : (rng.index (bits.len flying) (Draws.after rng bits flying i s)).0 ≡ c =
        ap (λ t. (rng.index (bits.len flying) t).0) (after-draws i s) ∙ there in
      by_want want (sym e ∙ (ap (bits.get flying) (sym at) ∙ met))
    where
      by_want : (w : Bool) → some w ≡ some (not w) → ⊥
      by_want true f = cc
      by_want false f = cc

  -- The choice to call leaves a client that is not in flight, the choice to wait one that is.
  pub gen_call_vs_wait-calls :
      (called total : ℕ) (s : rng.Source)
      → (gen_call_vs_wait rng bits called total flying s).0 ≡ true
      → (c : ℕ) × (c < n) × (bits.get flying c ≡ some false)
  gen_call_vs_wait-calls called total s e =
      elim (find_status (bits.get flying) false n status_known) [
        | inl found ↦ found
        | inr others ↦
            let free = ((gen_call_vs_wait_lem rng bits flying called total s).0 e).1 in
            let full = (bits.all_iff flying).1 (λ i lt. others i (omega (arith, lt, len))) in
            absurd (cc (free, full))
      ]

  pub gen_call_vs_wait-waits :
      (called waited total : ℕ) (s : rng.Source)
      → flights (bits.get flying) n + waited ≡ called
      → waited < total
      → (gen_call_vs_wait rng bits called total flying s).0 ≡ false
      → (c : ℕ) × (c < n) × (bits.get flying c ≡ some true)
  gen_call_vs_wait-waits called waited total s count more e =
      elim (find_status (bits.get flying) true n status_known) [
        | inl found ↦ found
        | inr others ↦
            absurd (by_choice others ((gen_call_vs_wait_lem rng bits flying called total s).1 e))
      ]
    where
      by_choice :
          ((i : ℕ) → i < n → bits.get flying i ≡ some false)
          → (called ≡ total) ⊎ ((bits.all flying ≡ true) ⊎ (bits.none_set flying ≡ false))
          → ⊥
      by_choice others (inl same) =
          let unset = flights_none (bits.get flying) n others in omega (arith, unset, same)
      by_choice others (inr (inl full)) =
          let set = (bits.all_iff flying).0 full 0 (rw len some_client) in
          let unset = others 0 some_client in cc (set, unset)
      by_choice others (inr (inr some_set)) =
          let unset = (bits.none_set_iff flying).1 (λ i lt. others i (omega (arith, lt, len))) in
          cc (some_set, unset)

  flights-set :
      (c : ℕ) (b : Bool)
      → c < n
      → flights (bits.get (bits.set flying c b)) n + flies (bits.get flying c)
        ≡ flights (bits.get flying) n + flies (some b)
  flights-set c b lt =
      let on : (c == c) ≡ true = ground arith in
      let inside : c < bits.len flying = rw len lt in
      let there : bits.get (bits.set flying c b) c ≡ some b =
        bits.get-set flying c c b inside ∙ ap (λ t. if t then some b else bits.get flying c) on in
      let moved =
        flights-change (bits.get flying) (bits.get (bits.set flying c b)) c n
          (λ i ne.
            let off : (c == i) ≡ false = ground arith in
            bits.get-set flying c i b inside
            ∙ ap (λ t. if t then some b else bits.get flying i) off)
          lt in
      moved ∙ ap (λ o. flights (bits.get flying) n + flies o) there

  pub flights-called :
      (c : ℕ)
      → c < n
      → bits.get flying c ≡ some false
      → flights (bits.get (bits.set flying c true)) n ≡ flights (bits.get flying) n + 1
  flights-called c lt e =
      let one_more = flights-set c true lt in
      let before = ap flies e in omega (arith, one_more, before)

  pub flights-harvested :
      (c : ℕ)
      → c < n
      → bits.get flying c ≡ some true
      → flights (bits.get (bits.set flying c false)) n + 1 ≡ flights (bits.get flying) n
  flights-harvested c lt e =
      let one_less = flights-set c false lt in
      let before = ap flies e in omega (arith, one_less, before)
