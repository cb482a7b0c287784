-- ===== src/Fuzzer/Loop/Rounds.antt =====
-- The invariant of the loop of `fuzz_test` (runner/src/bin/fuzzer/main.rs): no round panics.
use my_mad_kv.Prelude.{
  ℕ, zero, suc, ◌≤◌, ◌<◌, ◌≡◌, refl, sym, ap, ◌∙◌, ◌≢◌, Bool, true, Option, none, some, List, [],
  ◌∷◌, arith, length, set, get_elem?, All, All-append, All-mono, inl, inr, ◌⊎◌,
}
use my_mad_kv.Text.{Text}
use my_mad_kv.Runner.Ioapi.{KvResp}
use my_mad_kv.Fuzzer.History.{QueuedSpan, History, Applied, applied, panicked, add_to_queue}
use my_mad_kv.Fuzzer.History.Invariant.{IsValid}
use my_mad_kv.Fuzzer.History.Preserved.{
  AppliedValid, add_to_queue-IsValid, apply_update-IsValid, get_elem?-lt,
}
use my_mad_kv.Fuzzer.History.Untrimmed.Whole.{Keeps, apply_update-Keeps}
use my_mad_kv.Fuzzer.Random.Calls.{HasRow}
use my_mad_kv.Fuzzer.Outside.{Rng, Bits, Clients}
use my_mad_kv.Fuzzer.Loop.{
  Memo, FuzzState, Judged, fine, violation, index_panic, judge_applied, judge,
}

module _ {ℓ} {A : Type ℓ} where
  pub length-set_lem : (l : List A) (i : ℕ) (v : A) → length (set l i v) ≡ length l
  length-set_lem [] i v = refl
  length-set_lem (x ∷ l) zero v = refl
  length-set_lem (x ∷ l) (suc i) v = ap suc (length-set_lem l i v)

  pub get_elem?-set_same :
      (l : List A) (i : ℕ) (v : A) → i < length l → get_elem? (set l i v) i ≡ some v
  get_elem?-set_same [] i v h = absurd (omega (arith, h))
  get_elem?-set_same (x ∷ l) zero v h = refl
  get_elem?-set_same (x ∷ l) (suc i) v h = get_elem?-set_same l i v (omega arith)

  pub get_elem?-set_other :
      (l : List A) (i j : ℕ) (v : A) → i ≢ j → get_elem? (set l i v) j ≡ get_elem? l j
  get_elem?-set_other [] i j v h = refl
  get_elem?-set_other (x ∷ l) zero zero v h = absurd (h refl)
  get_elem?-set_other (x ∷ l) zero (suc j) v h = refl
  get_elem?-set_other (x ∷ l) (suc i) zero v h = refl
  get_elem?-set_other (x ∷ l) (suc i) (suc j) v h = get_elem?-set_other l i j v (λ e. h (ap suc e))

  pub get_elem?-some : (l : List A) (i : ℕ) → i < length l → (a : A) × (get_elem? l i ≡ some a)
  get_elem?-some [] i h = absurd (omega (arith, h))
  get_elem?-some (x ∷ l) zero h = (x, refl)
  get_elem?-some (x ∷ l) (suc i) h = get_elem?-some l i (omega arith)

  -- What is read after a write is the value written, or what stood at another place.
  pub get_elem?-set_cases :
      (l : List A) (i j : ℕ) (v w : A)
      → get_elem? (set l i v) j ≡ some w
      → ((i ≡ j) × (v ≡ w)) ⊎ ((i ≢ j) × (get_elem? l j ≡ some w))
  get_elem?-set_cases [] i j v w h = absurd (cc)
  get_elem?-set_cases (x ∷ l) zero zero v w h = inl (refl, cc)
  get_elem?-set_cases (x ∷ l) zero (suc j) v w h = inr ((λ e. absurd (omega (arith, e))), h)
  get_elem?-set_cases (x ∷ l) (suc i) zero v w h = inr ((λ e. absurd (omega (arith, e))), h)
  get_elem?-set_cases (x ∷ l) (suc i) (suc j) v w h = elim (get_elem?-set_cases l i j v w h) [
    | inl (e, f) ↦ inl (ap suc e, f)
    | inr (e, f) ↦ inr ((λ g. e (omega (arith, g))), f)
  ]

-- What holds of the memo of a client and of its last acknowledged update: both lie in the past,
-- and a call in flight came after the update.
abbrev pub IsClientTimed : ℕ → Option Bool → ℕ → Memo → Type 0
IsClientTimed now status last memo =
    (last ≤ now) × ((status ≡ some true) → (memo.0 ≤ now) × (last < memo.0))

-- What holds at the top of each round of the loop, with `n` clients, at the time `now`.
pub record LoopValid {rng : Rng} {bits : Bits} {clients : Clients} (n : ℕ) (keys : List (List Text))
    (now : ℕ) (s : FuzzState rng bits clients) : Type 0 where
  pub flying_len : bits.len s.flying ≡ n
  pub memo_len : length s.call_memo ≡ n
  pub rows :
      (c : ℕ) (ks : List Text) → get_elem? keys c ≡ some ks → HasRow c (length ks) s.stats.keys_freq
  pub history : IsValid n s.history
  pub queued : All (λ (e : QueuedSpan). e.ts_resp ≤ now) s.history.queue
  pub timed :
      (c last : ℕ) (memo : Memo)
      → get_elem? s.history.maxtr c ≡ some last
      → get_elem? s.call_memo c ≡ some memo
      → IsClientTimed now (bits.get s.flying c) last memo

-- Neither the clock nor the source of random values matters to it.
pub LoopValid-ticked :
    {rng : Rng} {bits : Bits} {clients : Clients} (n : ℕ) (keys : List (List Text)) (now later : ℕ)
    (source : rng.Source) (s : FuzzState rng bits clients)
    → LoopValid n keys now s
    → LoopValid n keys now (record s { timestamp = later; source = source })
LoopValid-ticked n keys now later source s v = record {
  flying_len = v.flying_len;
  memo_len = v.memo_len;
  rows = v.rows;
  history = v.history;
  queued = v.queued;
  timed = v.timed;
}

-- A judged response leaves a well-formed history, and the last acknowledged updates of the other
-- clients as they were; no index is out of bounds.
abbrev pub JudgedValid : ℕ → ℕ → ℕ → List ℕ → Judged → Type 0
JudgedValid n cidx now maxtr (fine h) =
    IsValid n h
    × All (λ (e : QueuedSpan). e.ts_resp ≤ now) h.queue
    × ((c last : ℕ) → get_elem? h.maxtr c ≡ some last → c ≢ cidx → get_elem? maxtr c ≡ some last)
    × ((last : ℕ) → get_elem? h.maxtr cidx ≡ some last → last ≤ now)
JudgedValid n cidx now maxtr (violation h) = Unit
JudgedValid n cidx now maxtr index_panic = ⊥

judge_applied-JudgedValid :
    (n cidx now : ℕ) (maxtr : List ℕ) (a : Applied)
    → AppliedValid n a
    → cidx < length maxtr
    → Keeps (λ e. e.ts_resp ≤ now) (set maxtr cidx now) a
    → JudgedValid n cidx now maxtr (judge_applied a)
unfolding judge_applied
judge_applied-JudgedValid n cidx now maxtr (applied h none) v lt k = (
  v,
  k.1,
  (λ c last e ne.
      sym (get_elem?-set_other maxtr cidx c now (λ i. ne (sym i)))
      ∙ (ap (λ m. get_elem? m c) (sym k.0) ∙ e)),
  λ last e.
      let stamp = sym e ∙ (ap (λ m. get_elem? m cidx) k.0 ∙ get_elem?-set_same maxtr cidx now lt) in
      ground arith,
)
judge_applied-JudgedValid n cidx now maxtr (applied h (some r)) v lt k = tt
judge_applied-JudgedValid n cidx now maxtr panicked v lt k = v

-- A response that came after its call, which came after the client's last update.
pub judge-JudgedValid :
    (n cidx last now : ℕ) (memo : Memo) (resp : KvResp) (h : History)
    → IsValid n h
    → All (λ (e : QueuedSpan). e.ts_resp < now) h.queue
    → get_elem? h.maxtr cidx ≡ some last
    → last < memo.0
    → memo.0 < now
    → JudgedValid n cidx now h.maxtr (judge cidx memo now resp h)
unfolding judge add_to_queue
judge-JudgedValid n cidx last now memo resp h v before e after timed = by_memo memo.1
  where
    to_queue : History
    to_queue = add_to_queue memo.0 now resp h

    to_queue_valid : IsValid n to_queue
    to_queue_valid = add_to_queue-IsValid n memo.0 now resp h timed before v

    to_queue_before : All (λ (f : QueuedSpan). f.ts_resp ≤ now) to_queue.queue
    to_queue_before =
        All-append _ h.queue _ (All-mono _ _ h.queue (λ f b. omega arith) before) (omega arith, tt)

    last_le : (l : ℕ) → get_elem? h.maxtr cidx ≡ some l → l ≤ now
    last_le l f = let same = sym e ∙ f in ground arith

    by_memo :
        (u : Option (Text × Option Text))
        → JudgedValid n cidx now h.maxtr (judge cidx (memo.0, u) now resp h)
    by_memo none = (to_queue_valid, to_queue_before, (λ c l f ne. f), last_le)
    by_memo (some (key, value)) =
        judge_applied-JudgedValid n cidx now h.maxtr _
          (apply_update-IsValid n cidx last memo.0 now key value to_queue e after timed
            to_queue_valid)
          (get_elem?-lt h.maxtr cidx e)
          (apply_update-Keeps (λ f. f.ts_resp ≤ now) cidx memo.0 now key value to_queue
            to_queue_before)
