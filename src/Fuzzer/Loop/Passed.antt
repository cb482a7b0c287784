-- ===== src/Fuzzer/Loop/Passed.antt =====
-- What a passed run of `fuzz_test` (runner/src/bin/fuzzer/main.rs) says of the whole history.
use my_mad_kv.Prelude.{
  refl, ℕ, ◌*◌, ◌^◌, ◌%◌, ◌≤◌, ◌<◌, ◌≡◌, sym, ap, ◌∙◌, none, some, List, arith, length, replicate,
  All, append-nil, [],
}
use mathlib.Core.Path.{subst}
use my_mad_kv.Text.{Text}
use my_mad_kv.Fuzzer.History
use my_mad_kv.Fuzzer.History.{History, u64_max}
use my_mad_kv.Fuzzer.Stats
use my_mad_kv.Fuzzer.Outside.{Rng, Bits, Clients}
use my_mad_kv.Fuzzer.Loop.Ends.{Reaches}
use my_mad_kv.Fuzzer.Loop.{
  judge, fine, FuzzState, Tested, tested, test_failed, test_crashed, test_stuck, initial, fuzz_test,
}
use my_mad_kv.Fuzzer.Loop.Protocol.{Harvest, judge_whole, judge_all, InOrder, outcome}
use my_mad_kv.Fuzzer.Loop.Protocol.Outcome.{judge_all-whole}
use my_mad_kv.Fuzzer.Loop.Whole.{TestEnd, fuzz_test-TestEnd, initial-LoopValid}
use my_mad_kv.Fuzzer.Loop.Harvests.{Extends, Reaches-Hearing}
use my_mad_kv.Fuzzer.Loop.Trace.{Heard}

-- A test that has passed is left in a state that the loop reaches. One response is heard for each
-- operation on the way; they come in the order that the loop keeps, and its history is that which
-- they lead to; on these the whole history finds no violation either, with as many checks left.
abbrev pub PassesWhole :
    (rng : Rng) (bits : Bits) (clients : Clients)
    → ℕ
    → ℕ
    → ℕ
    → List (List Text)
    → FuzzState rng bits clients
    → Tested
    → Type 0
PassesWhole rng bits clients draw_fuel total_ops n keys s (tested (some left_checks)) =
    (t : FuzzState rng bits clients) × Reaches rng bits clients draw_fuel total_ops keys s t
    × (t.ops_waited ≡ total_ops)
    × (xs : List Harvest) × Heard rng bits clients draw_fuel total_ops keys s t xs
    × (length xs ≡ total_ops)
    × InOrder (replicate n 0) 0 xs
    × (judge_all judge xs (History.new n keys) ≡ fine t.history)
    × (outcome (judge_all judge_whole xs (History.new n keys)) ≡ some (some left_checks))
PassesWhole rng bits clients draw_fuel total_ops n keys s (tested none) = Unit
PassesWhole rng bits clients draw_fuel total_ops n keys s (test_failed e) = Unit
PassesWhole rng bits clients draw_fuel total_ops n keys s test_crashed = Unit
PassesWhole rng bits clients draw_fuel total_ops n keys s test_stuck = Unit

new-Extends :
    (n : ℕ) (keys : List (List Text)) (h : History) (now left_checks : ℕ) (xs : List Harvest)
    → left_checks ≡ History.queue_len h
    → Extends 0 (History.new n keys) xs now h
    → InOrder (replicate n 0) 0 xs
      × (judge_all judge xs (History.new n keys) ≡ fine h)
      × (outcome (judge_all judge_whole xs (History.new n keys)) ≡ some (some left_checks))
unfolding History.new judge_all
new-Extends n keys h now left_checks xs same extends =
    let (order, run) =
      subst (λ l. InOrder (replicate n 0) 0 l × (judge_all judge l (History.new n keys) ≡ fine h))
        (append-nil xs) (extends [] (fine h) tt refl) in
    (
      order,
      run,
      sym (judge_all-whole n keys xs order).0
          ∙ (ap outcome run ∙ ap (λ k. some (some k)) (sym same)),
    )

module _ (rng : Rng) (bits : Bits) (clients : Clients) (draw_fuel total_ops n : ℕ)
    (some_client : 0 < n) (keys : List (List Text)) (pools : length keys ≡ n)
    (filled : All (λ (ks : List Text). 0 < length ks) keys) (enough : 100 ≤ total_ops)
    (small : 2 * total_ops ≤ u64_max) (procs : clients.Procs) (source : rng.Source) where
  TestEnd-PassesWhole :
      (r : Tested)
      → TestEnd rng bits clients draw_fuel total_ops n keys
          (initial rng bits clients n keys (Stats.new keys) procs source)
          r
      → PassesWhole rng bits clients draw_fuel total_ops n keys
          (initial rng bits clients n keys (Stats.new keys) procs source)
          r
  unfolding initial
  TestEnd-PassesWhole (tested (some left_checks)) (t, reaches, waited, same, valid) =
      let (xs, heard, many, called, time, extends) =
        Reaches-Hearing rng bits clients draw_fuel total_ops n some_client keys pools filled enough
          small (initial rng bits clients n keys (Stats.new keys) procs source) t reaches
          (initial-LoopValid rng bits clients n keys procs source) (omega arith) (omega arith)
          (omega arith) in
      let (order, run, whole) =
        new-Extends n keys t.history t.timestamp left_checks xs same extends in
      (t, reaches, waited, xs, heard, omega (arith, many, waited), order, run, whole)
  TestEnd-PassesWhole (tested none) h = tt
  TestEnd-PassesWhole (test_failed e) h = tt
  TestEnd-PassesWhole test_crashed h = tt
  TestEnd-PassesWhole test_stuck h = tt

-- With a client, a pool with a key for each, a hundred operations in total, and time stamps of two
-- for each operation that a machine word holds: a test that passes is left in a state that the loop
-- reaches with all operations harvested; the responses that the clients in flight have given on the
-- way, one for each operation, come in the order that the loop keeps, and the test's history is
-- that which they lead to without a violation; and on these the history that is never trimmed
-- finds no violation either, and leaves as many checks as the test returns.
pub fuzz_test-PassesWhole :
    (rng : Rng) (bits : Bits) (clients : Clients) (draw_fuel num_ops n : ℕ)
    (keys : List (List Text)) (procs : clients.Procs) (source : rng.Source)
    → 0 < n
    → length keys ≡ n
    → All (λ (ks : List Text). 0 < length ks) keys
    → 100 ≤ (num_ops * n) % 2 ^ 64
    → 2 * ((num_ops * n) % 2 ^ 64) ≤ u64_max
    → PassesWhole rng bits clients draw_fuel
        ((num_ops * n) % 2 ^ 64)
        n
        keys
        (initial rng bits clients n keys (Stats.new keys) procs source)
        (fuzz_test rng bits clients draw_fuel num_ops n keys (Stats.new keys) procs source)
fuzz_test-PassesWhole rng bits clients draw_fuel num_ops n keys procs source some_client pools
      filled enough small =
    TestEnd-PassesWhole rng bits clients draw_fuel _ n some_client keys pools filled enough small
      procs source _
      (fuzz_test-TestEnd rng bits clients draw_fuel num_ops n keys procs source some_client pools
        filled enough)
