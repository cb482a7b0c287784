-- ===== src/Fuzzer/Loop/Alarms.antt =====
-- What it means that `fuzz_test` (runner/src/bin/fuzzer/main.rs) reports a failed check: a client
-- has answered with STOP, or the responses are not those of a linearizable store.
use my_mad_kv.Prelude.{
  ℕ, zero, suc, ◌+◌, ◌≤◌, ◌<◌, ◌≡◌, ◌⊎◌, inl, inr, refl, List, arith, length, ltb, All, Bool-cases,
}
use my_mad_kv.Text.{Text}
use my_mad_kv.Fuzzer.Outside.{Rng, Bits, Clients}
use my_mad_kv.Fuzzer.Random.{gen_call_vs_wait}
use my_mad_kv.Fuzzer.Loop.{FuzzState, Round, next, broken, failed, crashed, stuck, round, rounds}
use my_mad_kv.Fuzzer.Loop.Trace.{Hears}
use my_mad_kv.Fuzzer.Loop.Rounds.{LoopValid-ticked, LoopValid}
use my_mad_kv.Fuzzer.Loop.Safe.{RoundValid}
use my_mad_kv.Fuzzer.Loop.Ends.{Reaches, here, step, Advances, round-RoundValid}
use my_mad_kv.Fuzzer.Loop.Breaks.{Violates, HearsStop, Breaks, harvest-Breaks, make_call-Breaks}

module _ (rng : Rng) (bits : Bits) (clients : Clients) (draw_fuel total_ops n : ℕ)
    (some_client : 0 < n) (keys : List (List Text)) (pools : length keys ≡ n)
    (filled : All (λ (ks : List Text). 0 < length ks) keys) where
  -- A round that breaks off has heard a STOP, or a response that is a violation.
  abbrev pub RoundBreaks : FuzzState rng bits clients → Round (FuzzState rng bits clients) → Type 0
  RoundBreaks s (broken t) =
      HearsStop rng bits clients draw_fuel total_ops s
      ⊎ Violates (Hears (s.timestamp + 1) s t.procs) s.history (s.timestamp + 1)
  RoundBreaks s (next t) = Unit
  RoundBreaks s (failed e) = Unit
  RoundBreaks s crashed = Unit
  RoundBreaks s stuck = Unit

  Breaks-RoundBreaks :
      (s : FuzzState rng bits clients) (source : rng.Source)
      (r : Round (FuzzState rng bits clients))
      → Breaks rng bits clients draw_fuel total_ops n some_client keys pools filled
          (record s { timestamp = s.timestamp + 1; source = source })
          r
      → RoundBreaks s r
  Breaks-RoundBreaks s source (broken t) h = h
  Breaks-RoundBreaks s source (next t) h = h
  Breaks-RoundBreaks s source (failed e) h = h
  Breaks-RoundBreaks s source crashed h = h
  Breaks-RoundBreaks s source stuck h = h

  round-RoundBreaks :
      (s : FuzzState rng bits clients)
      → LoopValid n keys s.timestamp s
      → RoundBreaks s (round rng bits clients draw_fuel total_ops keys s)
  unfolding round
  round-RoundBreaks s v =
      let source' = (gen_call_vs_wait rng bits s.ops_called total_ops s.flying s.source).1 in
      let s' : FuzzState rng bits clients = record s {
        timestamp = s.timestamp + 1;
        source = source';
      } in
      let v' = LoopValid-ticked n keys s.timestamp s'.timestamp s'.source s v in
      elim (Bool-cases (gen_call_vs_wait rng bits s.ops_called total_ops s.flying s.source).0) [
        | inl e ↦
            rw (e, round)
              (Breaks-RoundBreaks s source' _ (
                make_call-Breaks rng bits clients draw_fuel total_ops n some_client keys pools
                  filled s.timestamp s' v'))
        | inr e ↦
            rw (e, round)
              (Breaks-RoundBreaks s source' _ (
                harvest-Breaks rng bits clients draw_fuel total_ops n some_client keys pools filled
                  s.timestamp s' v' (omega arith)))
      ]

  -- a loop that breaks off does so in a round that it reaches
  abbrev pub RunBreaks : FuzzState rng bits clients → Round (FuzzState rng bits clients) → Type 0
  RunBreaks s (broken t) =
      (u : FuzzState rng bits clients) × Reaches rng bits clients draw_fuel total_ops keys s u
      × (u.ops_waited < total_ops)
      × (round rng bits clients draw_fuel total_ops keys u ≡ broken t)
      × (HearsStop rng bits clients draw_fuel total_ops u
          ⊎ Violates (Hears (u.timestamp + 1) u t.procs) u.history (u.timestamp + 1))
  RunBreaks s (next t) = Unit
  RunBreaks s (failed e) = Unit
  RunBreaks s crashed = Unit
  RunBreaks s stuck = Unit

  RunBreaks-step :
      (s t : FuzzState rng bits clients) (r : Round (FuzzState rng bits clients))
      → s.ops_waited < total_ops
      → round rng bits clients draw_fuel total_ops keys s ≡ next t
      → RunBreaks t r
      → RunBreaks s r
  RunBreaks-step s t (broken b) lt e (u, reaches, more, breaks, h) =
      (u, step lt e reaches, more, breaks, h)
  RunBreaks-step s t (next b) lt e h = tt
  RunBreaks-step s t (failed f) lt e h = tt
  RunBreaks-step s t crashed lt e h = tt
  RunBreaks-step s t stuck lt e h = tt

  module _ (enough : 100 ≤ total_ops) where
    pub rounds-RunBreaks :
        (fuel : ℕ) (s : FuzzState rng bits clients)
        → LoopValid n keys s.timestamp s
        → s.ops_called ≤ total_ops
        → RunBreaks s (rounds rng bits clients draw_fuel total_ops fuel keys s)
    unfolding rounds
    rounds-RunBreaks zero s v called = tt
    rounds-RunBreaks (suc fuel) s v called = elim (Bool-cases (ltb s.ops_waited total_ops)) [
      | inr e ↦ rw (e, rounds) tt
      | inl e ↦
          let more : s.ops_waited < total_ops = ground arith in
          rw (e, rounds)
            (by_round more _ refl
              (round-RoundValid rng bits clients draw_fuel total_ops n some_client keys pools filled
                enough s v called more)
              (round-RoundBreaks s v) (λ t v' c. rounds-RunBreaks fuel t v' c))
    ]
      where
        by_round :
            s.ops_waited < total_ops
            → (r : Round (FuzzState rng bits clients))
            → round rng bits clients draw_fuel total_ops keys s ≡ r
            → RoundValid n keys
                (Advances rng bits clients draw_fuel total_ops n some_client keys pools filled
                  enough s)
                r
            → RoundBreaks s r
            → ((t : FuzzState rng bits clients)
                → LoopValid n keys t.timestamp t
                → t.ops_called ≤ total_ops
                → RunBreaks t (rounds rng bits clients draw_fuel total_ops fuel keys t))
            → RunBreaks s (elim r [
              | next t ↦ rounds rng bits clients draw_fuel total_ops fuel keys t
              | broken t ↦ broken t
              | failed f ↦ failed f
              | crashed ↦ crashed
              | stuck ↦ stuck
            ])
        by_round more (next t) e (v', h) b rec = RunBreaks-step s t _ more e (rec t v' h.0)
        by_round more (broken t) e h b rec = (s, here, more, e, b)
        by_round more (failed f) e h b rec = tt
        by_round more crashed e h b rec = tt
        by_round more stuck e h b rec = tt
