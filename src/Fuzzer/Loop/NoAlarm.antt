-- ===== src/Fuzzer/Loop/NoAlarm.antt =====
-- The tests of runner/src/bin/fuzzer/main.rs raise no false alarm: one that reports a failed check
-- has heard a STOP, or responses that no linearizable store gives.
use my_mad_kv.Prelude.{
  ℕ, ◌+◌, ◌*◌, ◌≤◌, ◌<◌, ◌≡◌, ◌⊎◌, none, some, List, [], ◌∷◌, ◌++◌, length, replicate, All,
}
use my_mad_kv.Text.{Text}
use my_mad_kv.Fuzzer.History
use my_mad_kv.Fuzzer.History.{History, u64_max}
use my_mad_kv.Fuzzer.Stats
use my_mad_kv.Fuzzer.Outside.{Rng, Bits, Clients}
use my_mad_kv.Fuzzer.Loop.{
  FuzzState, broken, judge, Tested, tested, test_failed, test_crashed, test_stuck, initial, round,
}
use my_mad_kv.Fuzzer.Loop.Protocol.{Harvest, judge_all, InOrder, outcome}
use my_mad_kv.Fuzzer.Loop.Ends.{Reaches}
use my_mad_kv.Fuzzer.Loop.Trace.{Hears, Heard}
use my_mad_kv.Fuzzer.Loop.Breaks.{HearsStop}
use my_mad_kv.Fuzzer.Loop.Sound.{Effect, harvests, Linearizable}
use my_mad_kv.Fuzzer.Loop.Sound.NoAlarm.{pool_of}

-- The responses come in the order that the loop keeps, the history finds a violation in them, and
-- no linearizable store over the keys of the pool gives them.
abbrev pub NotLinear : (n : ℕ) → 0 < n → List (List Text) → List Harvest → Type 0
NotLinear n some_client keys xs =
    InOrder (replicate n 0) 0 xs
    × (outcome (judge_all judge xs (History.new n keys)) ≡ some none)
    × ((ys : List Effect) → harvests ys ≡ xs → Linearizable (pool_of n some_client keys) ys → ⊥)

module _ (rng : Rng) (bits : Bits) (clients : Clients) (draw_fuel total_ops n : ℕ)
    (some_client : 0 < n) (keys : List (List Text)) where
  -- A test that reports a failed check breaks off in the first round that does, and these are the
  -- responses that it has heard up to there. In that round a client answers with STOP, or with a
  -- response that, behind those heard before, no linearizable store gives.
  abbrev pub Alarm : FuzzState rng bits clients → Tested → Type 0
  Alarm s (tested none) =
      (u : FuzzState rng bits clients) × (t : FuzzState rng bits clients) × (xs : List Harvest)
      × Reaches rng bits clients draw_fuel total_ops keys s u
      × (u.ops_waited < total_ops)
      × (round rng bits clients draw_fuel total_ops keys u ≡ broken t)
      × Heard rng bits clients draw_fuel total_ops keys s u xs
      × (s.ops_waited + length xs ≡ u.ops_waited)
      × (HearsStop rng bits clients draw_fuel total_ops u
          ⊎ ((x : Harvest) × Hears (u.timestamp + 1) u t.procs x
              × NotLinear n some_client keys (xs ++ x ∷ [])))
  Alarm s (tested (some left_checks)) = Unit
  Alarm s (test_failed e) = Unit
  Alarm s test_crashed = Unit
  Alarm s test_stuck = Unit

  module _ (pools : length keys ≡ n) (filled : All (λ (ks : List Text). 0 < length ks) keys)
      (enough : 100 ≤ total_ops) (small : 2 * total_ops ≤ u64_max) (procs : clients.Procs)
      (source : rng.Source) where
    unfoldable starts : FuzzState rng bits clients
    starts = initial rng bits clients n keys (Stats.new keys) procs source
