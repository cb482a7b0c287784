-- ===== src/Fuzzer/Loop/Liveness.antt =====
-- `fuzz_test` (runner/src/bin/fuzzer/main.rs) comes to an end, if its draws hit each client and its
-- clients return.
use my_mad_kv.Prelude.{
  ℕ, ◌*◌, ◌%◌, ◌^◌, ◌≤◌, ◌<◌, ◌≡◌, ◌⊎◌, inl, inr, refl, false, Option, none, some, List, arith,
  length, All,
}
use my_mad_kv.Text.{Text}
use my_mad_kv.Runner.Error.{RunnerError}
use my_mad_kv.Fuzzer.Stats
use my_mad_kv.Fuzzer.Outside.{Rng, Bits, Clients}
use my_mad_kv.Fuzzer.Loop.{
  Tested, tested, test_failed, test_crashed, test_stuck, initial, fuzz_test,
}
use my_mad_kv.Fuzzer.Loop.Whole.{TestEnd, fuzz_test-TestEnd, initial-LoopValid}
use my_mad_kv.Fuzzer.Loop.Flights.{flights_none, Hits}
use my_mad_kv.Fuzzer.Loop.Flying.{Returning, stop_clients-returns, Reaches-ends}

-- the test returns a verdict or an error
abbrev pub Returns : Tested → Type 0
Returns r =
    ((verdict : Option ℕ) × (r ≡ tested verdict)) ⊎ ((e : RunnerError) × (r ≡ test_failed e))

module _ (rng : Rng) (bits : Bits) (clients : Clients) (draw_fuel total_ops n : ℕ)
    (some_client : 0 < n) (keys : List (List Text)) (pools : length keys ≡ n)
    (filled : All (λ (ks : List Text). 0 < length ks) keys) (hits : Hits rng draw_fuel n)
    (returning : Returning clients) (enough : 100 ≤ total_ops) (procs : clients.Procs)
    (source : rng.Source) where
  TestEnd-Returns :
      (r : Tested)
      → TestEnd rng bits clients draw_fuel total_ops n keys
          (initial rng bits clients n keys (Stats.new keys) procs source)
          r
      → Returns r
  unfolding initial
  TestEnd-Returns (tested (some left_checks)) h = inl (some left_checks, refl)
  TestEnd-Returns (tested none) h = inl (none, refl)
  TestEnd-Returns (test_failed e) h = inr (e, refl)
  TestEnd-Returns test_crashed h = absurd h
  TestEnd-Returns test_stuck (t, reaches, inl (more, e)) =
      let unset = flights_none (bits.get (bits.from_elem n false)) n (bits.get-from_elem n false) in
      absurd (
        Reaches-ends rng bits clients draw_fuel total_ops n some_client keys pools filled hits
          returning enough (initial rng bits clients n keys (Stats.new keys) procs source) t reaches
          (initial-LoopValid rng bits clients n keys procs source) (omega arith)
          (omega (arith, unset)) more e)
  TestEnd-Returns test_stuck (t, reaches, inr e) =
      absurd (stop_clients-returns clients returning n 0 t.procs e)

-- With a client, a pool with a key for each, and a hundred operations in total: if from every source
-- on each client comes up within the draws of a choice, and the operations on the client processes
-- return, with whatever answer or error, then the test returns a verdict or an error.
pub fuzz_test-Returns :
    (rng : Rng) (bits : Bits) (clients : Clients) (draw_fuel num_ops n : ℕ)
    (keys : List (List Text)) (procs : clients.Procs) (source : rng.Source)
    → 0 < n
    → length keys ≡ n
    → All (λ (ks : List Text). 0 < length ks) keys
    → 100 ≤ (num_ops * n) % 2 ^ 64
    → Hits rng draw_fuel n
    → Returning clients
    → Returns (fuzz_test rng bits clients draw_fuel num_ops n keys (Stats.new keys) procs source)
fuzz_test-Returns rng bits clients draw_fuel num_ops n keys procs source some_client pools filled
      enough hits returning =
    TestEnd-Returns rng bits clients draw_fuel _ n some_client keys pools filled hits returning
      enough procs source _
      (fuzz_test-TestEnd rng bits clients draw_fuel num_ops n keys procs source some_client pools
        filled enough)
