-- ===== src/Fuzzer/Loop/Ends.antt =====
-- How the loop of `fuzz_test` (runner/src/bin/fuzzer/main.rs) ends: two rounds for each operation
-- are enough, and nothing panics.
use my_mad_kv.Prelude.{
  ◌⊎◌, inl, inr, ℕ, zero, suc, ◌+◌, ◌-◌, ◌≤◌, ◌<◌, ◌≡◌, refl, List, arith, length, ltb, All,
  Bool-cases,
}
use my_mad_kv.Text.{Text}
use my_mad_kv.Fuzzer.Outside.{Rng, Bits, Clients}
use my_mad_kv.Fuzzer.Random.{gen_call_vs_wait}
use my_mad_kv.Fuzzer.Random.Draws.{gen_call_vs_wait_lem}
use my_mad_kv.Fuzzer.Loop.{FuzzState, Round, next, broken, failed, crashed, stuck, round, rounds}
use my_mad_kv.Fuzzer.Loop.Trace.{Calls, Hears}
use my_mad_kv.Fuzzer.Loop.Rounds.{LoopValid-ticked, LoopValid}
use my_mad_kv.Fuzzer.Loop.Safe.{RoundValid, Called, Harvested, HarvestedFrom}
use my_mad_kv.Fuzzer.Loop.Safe.Steps.{make_call-RoundValid, harvest-RoundValid}

-- the number of rounds that are left at most
abbrev pub left : {rng : Rng} {bits : Bits} {clients : Clients} → ℕ → FuzzState rng bits clients → ℕ
left total_ops s = (total_ops - s.ops_called) + (total_ops - s.ops_waited)

module _ (rng : Rng) (bits : Bits) (clients : Clients) (draw_fuel total_ops : ℕ)
    (keys : List (List Text)) where
  -- the loop gets from one state to the other
  pub data Reaches : FuzzState rng bits clients → FuzzState rng bits clients → Type 0 where
    here : {s : FuzzState rng bits clients} → Reaches s s
    step :
        {s t u : FuzzState rng bits clients}
        → s.ops_waited < total_ops
        → round rng bits clients draw_fuel total_ops keys s ≡ next t
        → Reaches t u
        → Reaches s u

  -- All responses are harvested, or the test breaks off; only a round that does not end, reached
  -- from the start, keeps the loop from its end.
  abbrev pub EndValid : ℕ → FuzzState rng bits clients → Round (FuzzState rng bits clients) → Type 0
  EndValid n s (next t) = LoopValid n keys t.timestamp t × (t.ops_waited ≡ total_ops) × Reaches s t
  EndValid n s (broken t) = Unit
  EndValid n s (failed e) = Unit
  EndValid n s crashed = ⊥
  EndValid n s stuck =
      (t : FuzzState rng bits clients) × Reaches s t
      × (t.ops_waited < total_ops)
      × (round rng bits clients draw_fuel total_ops keys t ≡ stuck)

module _ (rng : Rng) (bits : Bits) (clients : Clients) (draw_fuel total_ops n : ℕ)
    (some_client : 0 < n) (keys : List (List Text)) (pools : length keys ≡ n)
    (filled : All (λ (ks : List Text). 0 < length ks) keys) (enough : 100 ≤ total_ops) where
  -- The operations that are called and harvested are no more than there are, and one is new; time
  -- goes on by one; and the history is as it was, or one response more has been judged.
  abbrev pub Advances : FuzzState rng bits clients → FuzzState rng bits clients → Type 0
  Advances s t =
      (t.ops_called ≤ total_ops)
      × (t.ops_waited ≤ total_ops)
      × (left total_ops t < left total_ops s)
      × (t.timestamp ≡ s.timestamp + 1)
      × (t.ops_called + t.ops_waited ≡ s.ops_called + s.ops_waited + 1)
      × (((t.history ≡ s.history) × (t.ops_waited ≡ s.ops_waited) × Calls (s.timestamp + 1) s t)
          ⊎ ((t.ops_waited ≡ s.ops_waited + 1)
              × HarvestedFrom (Hears (s.timestamp + 1) s t.procs) s.history (s.timestamp + 1)
                  t.history))

  RoundValid-mono :
      (P Q : FuzzState rng bits clients → Type 0) (r : Round (FuzzState rng bits clients))
      → ((t : FuzzState rng bits clients) → P t → Q t)
      → RoundValid n keys P r
      → RoundValid n keys Q r
  RoundValid-mono P Q (next t) f h = (h.0, f t h.1)
  RoundValid-mono P Q (broken t) f h = h
  RoundValid-mono P Q (failed e) f h = h
  RoundValid-mono P Q crashed f h = h
  RoundValid-mono P Q stuck f h = h

  -- A round of the loop does not panic, keeps the loop's invariant, and calls or harvests one
  -- operation.
  pub round-RoundValid :
      (s : FuzzState rng bits clients)
      → LoopValid n keys s.timestamp s
      → s.ops_called ≤ total_ops
      → s.ops_waited < total_ops
      → RoundValid n keys (Advances s) (round rng bits clients draw_fuel total_ops keys s)
  unfolding round
  round-RoundValid s v called waited =
      let s' : FuzzState rng bits clients = record s {
        timestamp = s.timestamp + 1;
        source = (gen_call_vs_wait rng bits s.ops_called total_ops s.flying s.source).1;
      } in
      let v' = LoopValid-ticked n keys s.timestamp s'.timestamp s'.source s v in
      let choice = gen_call_vs_wait_lem rng bits s.flying s.ops_called total_ops s.source in
      elim (Bool-cases (gen_call_vs_wait rng bits s.ops_called total_ops s.flying s.source).0) [
        | inl e ↦
            let more = (choice.0 e).0 in
            rw (e, round)
              (RoundValid-mono (Called s') (Advances s) _
                (λ t c.
                  let (c0, c1) = c.0 in
                  (omega arith, omega arith, omega arith, c.1, omega arith, inl (c.2, c1, c.3)))
                (make_call-RoundValid rng bits clients draw_fuel total_ops n some_client keys pools
                  filled enough s.timestamp s' v' (omega arith)))
        | inr e ↦
            rw (e, round)
              (RoundValid-mono (Harvested s') (Advances s) _
                (λ t c.
                  let (c0, c1) = c.0 in
                  (omega arith, omega arith, omega arith, c.1, omega arith, inr (c1, c.2)))
                (harvest-RoundValid rng bits clients draw_fuel total_ops n some_client keys pools
                  filled enough s.timestamp s' v' (omega arith)))
      ]

  EndValid-step :
      (s t : FuzzState rng bits clients) (r : Round (FuzzState rng bits clients))
      → s.ops_waited < total_ops
      → round rng bits clients draw_fuel total_ops keys s ≡ next t
      → EndValid rng bits clients draw_fuel total_ops keys n t r
      → EndValid rng bits clients draw_fuel total_ops keys n s r
  EndValid-step s t (next u) lt e h = (h.0, h.1, step lt e h.2)
  EndValid-step s t (broken u) lt e h = tt
  EndValid-step s t (failed f) lt e h = tt
  EndValid-step s t crashed lt e h = h
  EndValid-step s t stuck lt e h =
      let (u, reaches, more, ends) = h in (u, step lt e reaches, more, ends)

  -- With more rounds than operations to call and to harvest, the loop ends, unless a round that it
  -- reaches does not end. It does not panic, and it harvests every operation if it is not broken
  -- off.
  pub rounds-EndValid :
      (fuel : ℕ) (s : FuzzState rng bits clients)
      → LoopValid n keys s.timestamp s
      → s.ops_called ≤ total_ops
      → s.ops_waited ≤ total_ops
      → left total_ops s < fuel
      → EndValid rng bits clients draw_fuel total_ops keys n s
          (rounds rng bits clients draw_fuel total_ops fuel keys s)
  unfolding rounds
  rounds-EndValid zero s v called waited lt = absurd (omega (arith, lt))
  rounds-EndValid (suc fuel) s v called waited lt = elim (Bool-cases (ltb s.ops_waited total_ops)) [
    | inr e ↦ rw (e, rounds) (v, ground arith, here)
    | inl e ↦
        let more : s.ops_waited < total_ops = ground arith in
        rw (e, rounds)
          (by_round more _ refl (round-RoundValid s v called more)
            (λ t v' h. rounds-EndValid fuel t v' (h.0) (h.1) (omega (arith, h.2))))
  ]
    where
      by_round :
          s.ops_waited < total_ops
          → (r : Round (FuzzState rng bits clients))
          → round rng bits clients draw_fuel total_ops keys s ≡ r
          → RoundValid n keys (Advances s) r
          → ((t : FuzzState rng bits clients)
              → LoopValid n keys t.timestamp t
              → Advances s t
              → EndValid rng bits clients draw_fuel total_ops keys n t
                  (rounds rng bits clients draw_fuel total_ops fuel keys t))
          → EndValid rng bits clients draw_fuel total_ops keys n s (elim r [
            | next t ↦ rounds rng bits clients draw_fuel total_ops fuel keys t
            | broken t ↦ broken t
            | failed f ↦ failed f
            | crashed ↦ crashed
            | stuck ↦ stuck
          ])
      by_round more (next t) e h rec = EndValid-step s t _ more e (rec t h.0 h.1)
      by_round more (broken t) e h rec = tt
      by_round more (failed f) e h rec = tt
      by_round more crashed e h rec = h
      by_round more stuck e h rec = (s, here, more, e)
