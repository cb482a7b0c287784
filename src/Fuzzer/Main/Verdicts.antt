-- ===== src/Fuzzer/Main/Verdicts.antt =====
-- What a verdict of the fuzz tester, `main` of runner/src/bin/fuzzer/main.rs, stands for.
use my_mad_kv.Prelude.{
  ℕ, zero, suc, ◌*◌, ◌%◌, ◌^◌, ◌<◌, ◌≤◌, ◌≡◌, refl, ap, Bool, true, false, none, some, List, arith,
  length, All, leb, Bool-cases, inl, inr,
}
use mathlib.Core.Path.{subst}
use my_mad_kv.Text.{Text}
use my_mad_kv.Fuzzer.History
use my_mad_kv.Fuzzer.Outside.{Rng, Bits, Clients}
use my_mad_kv.Fuzzer.Stats
use my_mad_kv.Fuzzer.Loop.{
  FuzzState, Tested, tested, test_failed, test_crashed, test_stuck, initial, fuzz_test,
}
use my_mad_kv.Fuzzer.Loop.Whole.{TestEnd, fuzz_test-TestEnd}
use my_mad_kv.Fuzzer.Loop.Ends.{Reaches}
use my_mad_kv.Fuzzer.Main.{
  Args, args_valid, gen_pool, gen_pools, test_unfair, test_passed, check_failed, verdict, Main,
  judged, main_failed, main_panicked, main_stuck, report, fuzz_main,
}

length-gen_pool :
    (rng : Rng) (left i : ℕ) (conflict : Bool) (s : rng.Source)
    → length (gen_pool rng left i conflict s).0 ≡ left
unfolding gen_pool
length-gen_pool rng zero i conflict s = refl
length-gen_pool rng (suc left) i true s = ap suc (length-gen_pool rng left (suc i) true s)
length-gen_pool rng (suc left) i false s = ap suc (length-gen_pool rng left (suc i) false _)

pub length-gen_pools :
    (rng : Rng) (left num_keys : ℕ) (conflict : Bool) (s : rng.Source)
    → length (gen_pools rng left num_keys conflict s).0 ≡ left
unfolding gen_pools
length-gen_pools rng zero num_keys conflict s = refl
length-gen_pools rng (suc left) num_keys conflict s =
    ap suc (length-gen_pools rng left num_keys conflict _)

pub gen_pools-filled :
    (rng : Rng) (left num_keys : ℕ) (conflict : Bool) (s : rng.Source)
    → 0 < num_keys
    → All (λ (ks : List Text). 0 < length ks) (gen_pools rng left num_keys conflict s).0
unfolding gen_pools
gen_pools-filled rng zero num_keys conflict s h = tt
gen_pools-filled rng (suc left) num_keys conflict s h = (
  omega (arith, length-gen_pool rng num_keys 0 conflict s),
  gen_pools-filled rng left num_keys conflict _ h,
)

pub product_large : (a b : ℕ) → 1000 ≤ a → 0 < b → 100 ≤ a * b
product_large a zero h k = absurd (omega (arith, k))
product_large a (suc b) h k = omega (arith, h)

-- the end of the test that a verdict reports
module _ (rng : Rng) (bits : Bits) (clients : Clients) (draw_fuel total_ops n : ℕ)
    (keys : List (List Text)) (s : FuzzState rng bits clients) where
  -- `main` does not panic. It says that the test passed, or that it was unfair, only after the loop
  -- has harvested all operations, with less than a thousand checks left, or more.
  abbrev pub IsFair : Main → Type 0
  IsFair (judged test_passed) =
      (t : FuzzState rng bits clients) × Reaches rng bits clients draw_fuel total_ops keys s t
      × (t.ops_waited ≡ total_ops)
      × (History.queue_len t.history < 1000)
  IsFair (judged test_unfair) =
      (t : FuzzState rng bits clients) × Reaches rng bits clients draw_fuel total_ops keys s t
      × (t.ops_waited ≡ total_ops)
      × (1000 ≤ History.queue_len t.history)
  IsFair (judged check_failed) = Unit
  IsFair (main_failed e) = Unit
  IsFair main_panicked = ⊥
  IsFair main_stuck = Unit

  report-IsFair :
      (t : Tested) → TestEnd rng bits clients draw_fuel total_ops n keys s t → IsFair (report t)
  unfolding report verdict
  report-IsFair (tested none) h = tt
  report-IsFair (tested (some remaining)) h = elim (Bool-cases (leb 1000 remaining)) [
    | inl e ↦
        let same = h.3 in
        let many : 1000 ≤ remaining = ground arith in
        rw e (h.0, h.1, h.2, omega (arith, same, many))
    | inr e ↦
        let same = h.3 in
        let few : remaining < 1000 = ground arith in rw e (h.0, h.1, h.2, omega (arith, same, few))
  ]
  report-IsFair (test_failed e) h = tt
  report-IsFair test_crashed h = h
  report-IsFair test_stuck h = tt

-- With arguments that pass the assertions, and a number of operations in total that a machine word
-- holds, the fuzz tester does not panic. It says that the test has passed only after the loop has
-- harvested all operations with less than a thousand checks left, and that it was unfair only
-- after the loop has harvested all operations with a thousand checks left or more.
pub fuzz_main-IsFair :
    (rng : Rng) (bits : Bits) (clients : Clients) (draw_fuel : ℕ) (args : Args)
    (procs : clients.Procs) (source : rng.Source)
    → args_valid args ≡ true
    → args.num_ops * args.num_clis < 2 ^ 64
    → IsFair rng bits clients draw_fuel
        (args.num_ops * args.num_clis)
        args.num_clis
        (gen_pools rng args.num_clis args.num_keys args.conflict source).0
        (initial rng bits clients args.num_clis
          (gen_pools rng args.num_clis args.num_keys args.conflict source).0
          (Stats.new (gen_pools rng args.num_clis args.num_keys args.conflict source).0)
          procs
          (gen_pools rng args.num_clis args.num_keys args.conflict source).1)
        (fuzz_main rng bits clients draw_fuel args procs source)
unfolding fuzz_main args_valid
fuzz_main-IsFair rng bits clients draw_fuel args procs source valid fits =
    let some_client : 0 < args.num_clis = ground arith in
    let some_key : 0 < args.num_keys = ground arith in
    let many_ops : 1000 ≤ args.num_ops = ground arith in
    let fit : (args.num_ops * args.num_clis) % 2 ^ 64 ≡ args.num_ops * args.num_clis =
      omega (arith, fits) in
    let enough : 100 ≤ args.num_ops * args.num_clis =
      product_large args.num_ops args.num_clis many_ops some_client in
    let keys = (gen_pools rng args.num_clis args.num_keys args.conflict source).0 in
    let rest = (gen_pools rng args.num_clis args.num_keys args.conflict source).1 in
    rw valid (
      report-IsFair rng bits clients draw_fuel _ _ keys _ _ (
        subst
          (λ total.
            TestEnd rng bits clients draw_fuel total args.num_clis keys
              (initial rng bits clients args.num_clis keys (Stats.new keys) procs rest)
              (fuzz_test rng bits clients draw_fuel args.num_ops args.num_clis keys (Stats.new keys)
                procs rest))
          fit
          (fuzz_test-TestEnd rng bits clients draw_fuel args.num_ops args.num_clis keys procs rest
            some_client (length-gen_pools rng args.num_clis args.num_keys args.conflict source)
            (gen_pools-filled rng args.num_clis args.num_keys args.conflict source some_key)
            (rw fit enough))))
