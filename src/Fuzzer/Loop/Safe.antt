-- ===== src/Fuzzer/Loop/Safe.antt =====
-- `fuzz_test` of runner/src/bin/fuzzer/main.rs does not panic, with a hundred operations or more.
pub mod Steps
use my_mad_kv.Prelude.{
  ℕ, ◌+◌, ◌/◌, ◌≤◌, ◌<◌, ◌≡◌, refl, sym, ap, ◌∙◌, ◌≢◌, Bool, true, false, Option, some, List, arith,
  length, set, get_elem?, ◌==◌, if◌then◌else◌, All, All-mono, All-get_elem?, Bool-cases, inl, inr,
  ◌⊎◌,
}
use mathlib.Core.Path.{subst}
use my_mad_kv.Text.{Text}
use my_mad_kv.Runner.Error.{RunnerError, Result, ok, err, out_of_fuel}
use my_mad_kv.Runner.Ioapi.{update_info}
use my_mad_kv.Fuzzer.History.{History}
use my_mad_kv.Fuzzer.Stats.{Stats}
use my_mad_kv.Fuzzer.Outside.{Rng, Bits, Clients}
use my_mad_kv.Fuzzer.Random.Calls.{HasRow, gen_rand_kvcall-DrawsCall, DrawsCall-some}
use my_mad_kv.Fuzzer.Random.Draws.{gen_rand_client-DrawsClient, DrawsClient-cases}
use my_mad_kv.Fuzzer.Loop.{
  Memo, no_memo, FuzzState, Round, next, broken, failed, crashed, stuck, Judged, fine, violation,
  index_panic, make_call, finish_wait, is_stop_resp, harvest, judge,
}
use my_mad_kv.Fuzzer.Loop.Trace.{Calls, Hears, Heard, silent, calling, hearing}
use my_mad_kv.Fuzzer.Loop.Protocol.{Harvest}
use my_mad_kv.Fuzzer.Loop.Rounds.{
  length-set_lem, get_elem?-set_cases, get_elem?-some, LoopValid, JudgedValid, judge-JudgedValid,
}

pub Result-cases {ℓ} :
    {A : Type ℓ} (r : Result RunnerError A)
    → ((a : A) × (r ≡ ok a)) ⊎ (((e : RunnerError) × (r ≡ err e)) ⊎ (r ≡ out_of_fuel))
Result-cases (ok a) = inl (a, refl)
Result-cases (err e) = inr (inl (e, refl))
Result-cases out_of_fuel = inr (inr refl)

-- The round did not panic, and after it the loop's invariant and the condition hold.
abbrev pub RoundValid :
    {rng : Rng} {bits : Bits} {clients : Clients}
    → ℕ
    → List (List Text)
    → (FuzzState rng bits clients → Type 0)
    → Round (FuzzState rng bits clients)
    → Type 0
RoundValid n keys P (next s) = LoopValid n keys s.timestamp s × P s
RoundValid n keys P (broken s) = Unit
RoundValid n keys P (failed e) = Unit
RoundValid n keys P crashed = ⊥
RoundValid n keys P stuck = Unit

-- the counters after one round: so many operations called and waited for, at that time
abbrev pub Counts :
    {rng : Rng} {bits : Bits} {clients : Clients} → ℕ → ℕ → FuzzState rng bits clients → Type 0
Counts called waited s = (s.ops_called ≡ called) × (s.ops_waited ≡ waited)

-- A call has been made: it leaves the history as it was.
abbrev pub Called :
    {rng : Rng} {bits : Bits} {clients : Clients}
    → FuzzState rng bits clients
    → FuzzState rng bits clients
    → Type 0
Called s t =
    Counts (s.ops_called + 1) s.ops_waited t
    × (t.timestamp ≡ s.timestamp)
    × (t.history ≡ s.history)
    × Calls s.timestamp s t

-- A response has been judged, at the time `now`: it came after its call, which came after the last
-- update of its client, and what else is known of it holds.
abbrev pub HarvestedFrom : (Harvest → Type 0) → History → ℕ → History → Type 0
HarvestedFrom P h now h' =
    (x : Harvest) × (last : ℕ) × P x
    × (x.ts_resp ≡ now)
    × (get_elem? h.maxtr x.cidx ≡ some last)
    × (last < x.memo.0)
    × (x.memo.0 < x.ts_resp)
    × (judge x.cidx x.memo x.ts_resp x.resp h ≡ fine h')

abbrev pub Harvested :
    {rng : Rng} {bits : Bits} {clients : Clients}
    → FuzzState rng bits clients
    → FuzzState rng bits clients
    → Type 0
Harvested s t =
    Counts s.ops_called (s.ops_waited + 1) t
    × (t.timestamp ≡ s.timestamp)
    × HarvestedFrom (Hears s.timestamp s t.procs) s.history s.timestamp t.history

-- what holds of the history that a judged response leaves
abbrev OfFine : (History → Type 0) → Judged → Type 0
OfFine Q (fine h) = Q h
OfFine Q (violation h) = Unit
OfFine Q index_panic = Unit

OfFine-intro : (Q : History → Type 0) (j : Judged) → ((h : History) → j ≡ fine h → Q h) → OfFine Q j
OfFine-intro Q (fine h) f = f h refl
OfFine-intro Q (violation h) f = tt
OfFine-intro Q index_panic f = tt

module _ (rng : Rng) (bits : Bits) (clients : Clients) (n : ℕ) (keys : List (List Text)) (now : ℕ)
    (s : FuzzState rng bits clients) (valid : LoopValid n keys now s) (ticked : now < s.timestamp)
    (cidx : ℕ) (inside : cidx < n) where
  status_other :
      (c : ℕ) (b : Bool) → cidx ≢ c → bits.get (bits.set s.flying cidx b) c ≡ bits.get s.flying c
  status_other c b ne =
      let off : (cidx == c) ≡ false = ground arith in
      bits.get-set s.flying cidx c b (rw (valid.flying_len) inside)
      ∙ ap (λ t. if t then some b else bits.get s.flying c) off

  status_same : (b : Bool) → bits.get (bits.set s.flying cidx b) cidx ≡ some b
  status_same b =
      let on : (cidx == cidx) ≡ true = ground arith in
      bits.get-set s.flying cidx cidx b (rw (valid.flying_len) inside)
      ∙ ap (λ t. if t then some b else bits.get s.flying cidx) on

  -- what holds after a call of the client
  called-LoopValid :
      (old : Memo) (u : Option (Text × Option Text)) (ops : ℕ) (source : rng.Source)
      (procs : clients.Procs) (stats : Stats)
      → get_elem? s.call_memo cidx ≡ some old
      → ((c size : ℕ) → HasRow c size s.stats.keys_freq → HasRow c size stats.keys_freq)
      → LoopValid n keys s.timestamp (record s {
        flying = bits.set s.flying cidx true;
        call_memo = set s.call_memo cidx (s.timestamp, u);
        ops_called = ops;
        source = source;
        procs = procs;
        stats = stats;
      })
  called-LoopValid old u ops source procs stats there more_rows = record {
    flying_len = bits.len-set s.flying cidx true ∙ valid.flying_len;
    memo_len = length-set_lem s.call_memo cidx (s.timestamp, u) ∙ valid.memo_len;
    rows = λ c ks e. more_rows c _ (valid.rows c ks e);
    history = valid.history;
    queued = All-mono _ _ s.history.queue (λ e h. omega arith) valid.queued;
    timed = λ c last memo e f.
        elim (get_elem?-set_cases s.call_memo cidx c (s.timestamp, u) memo f) [
          | inl (same, written) ↦
              let past =
                (valid.timed c last old e
                  (subst (λ i. get_elem? s.call_memo i ≡ some old) same there)).0 in
              let stamp = ap (λ (m : Memo). m.0) written in
              (omega arith, λ h. (omega (arith, stamp), omega (arith, stamp)))
          | inr (other, kept) ↦
              let old_timed = valid.timed c last memo e kept in
              (
                omega (arith, old_timed.0),
                λ h.
                    let in_flight = old_timed.1 (sym (status_other c true other) ∙ h) in
                    (omega (arith, in_flight.0), in_flight.1),
              )
        ];
  }

  -- what holds after a response of the client
  waited-LoopValid :
      (h : History) (ops : ℕ) (source : rng.Source) (procs : clients.Procs)
      → JudgedValid n cidx s.timestamp s.history.maxtr (fine h)
      → LoopValid n keys s.timestamp (record s {
        flying = bits.set s.flying cidx false;
        call_memo = set s.call_memo cidx no_memo;
        history = h;
        ops_waited = ops;
        source = source;
        procs = procs;
      })
  waited-LoopValid h ops source procs judged = record {
    flying_len = bits.len-set s.flying cidx false ∙ valid.flying_len;
    memo_len = length-set_lem s.call_memo cidx no_memo ∙ valid.memo_len;
    rows = valid.rows;
    history = judged.0;
    queued = judged.1;
    timed = λ c last memo e f. elim (get_elem?-set_cases s.call_memo cidx c no_memo memo f) [
      | inl (same, written) ↦ (
        judged.3 last (subst (λ i. get_elem? h.maxtr i ≡ some last) (sym same) e),
        λ g. absurd (
            let set_false =
              subst (λ i. bits.get (bits.set s.flying cidx false) i ≡ some false) same
                (status_same false) in
            cc),
      )
      | inr (other, kept) ↦
          let old_timed = valid.timed c last memo (judged.2 c last e (λ i. other (sym i))) kept in
          (
            omega (arith, old_timed.0),
            λ g.
                let in_flight = old_timed.1 (sym (status_other c false other) ∙ g) in
                (omega (arith, in_flight.0), in_flight.1),
          )
    ];
  }
