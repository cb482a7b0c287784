-- ===== src/Fuzzer/Main.antt =====
-- `main` of runner/src/bin/fuzzer/main.rs, behind the parsing of its arguments; the clients are
-- already started.
pub mod Verdicts
pub mod Settles
use my_mad_kv.Prelude.{
  ℕ, zero, suc, ◌+◌, ◌-◌, ◌*◌, ◌/◌, ◌%◌, ◌^◌, Bool, true, false, not, ◌&&◌, Option, none, some,
  List, [], ◌∷◌, ◌++◌, ltb, leb, ◌==◌, if◌then◌else◌,
}
use my_mad_kv.Text.{Text, codes}
use my_mad_kv.Runner.Error.{RunnerError}
use my_mad_kv.Fuzzer.Stats
use my_mad_kv.Fuzzer.Stats.{key_len, remain_thresh}
use my_mad_kv.Fuzzer.Outside.{Rng, Bits, Clients}
use my_mad_kv.Fuzzer.Random.{gen_rand_string}
use my_mad_kv.Fuzzer.Loop.{Tested, tested, test_failed, test_crashed, test_stuck, fuzz_test}

pub record Args : Type 0 where
  pub num_clis : ℕ
  pub num_keys : ℕ
  pub num_ops : ℕ
  pub conflict : Bool

-- the four assertions
unfoldable pub args_valid : Args → Bool
args_valid args =
    not (args.num_clis == 0)
    && (not (args.num_keys == 0) && (ltb args.num_keys 100000 && leb 1000 args.num_ops))

-- `{:0w$}` of a number below `10 ^ w`, as the assertion on the number of keys makes them
unfoldable pub padded : ℕ → ℕ → Text
padded zero i = []
padded (suc w) i = (i / 10 ^ w % 10 + b'0') ∷ padded w i

abbrev pub key_name : ℕ → Text
unfolding padded
key_name i = codes "key" ++ padded (key_len - 3) i

module _ (rng : Rng) where
  -- the keys of one client, from the number `i` on
  unfoldable pub gen_pool : ℕ → ℕ → Bool → rng.Source → List Text × rng.Source
  unfolding gen_rand_string
  gen_pool zero i conflict s = ([], s)
  gen_pool (suc left) i true s =
      let (keys, s') = gen_pool left (suc i) true s in (key_name i ∷ keys, s')
  gen_pool (suc left) i false s =
      let (key, s1) = gen_rand_string rng key_len s in
      let (keys, s2) = gen_pool left (suc i) false s1 in (key ∷ keys, s2)

  unfoldable pub gen_pools : ℕ → ℕ → Bool → rng.Source → List (List Text) × rng.Source
  unfolding gen_pool
  gen_pools zero num_keys conflict s = ([], s)
  gen_pools (suc left) num_keys conflict s =
      let (pool, s1) = gen_pool num_keys 0 conflict s in
      let (pools, s2) = gen_pools left num_keys conflict s1 in (pool ∷ pools, s2)

-- what `main` prints at its end
pub data Verdict : Type 0 where
  test_unfair test_passed check_failed : Verdict

unfoldable pub verdict : Option ℕ → Verdict
verdict none = check_failed
verdict (some remaining) = if leb remain_thresh remaining then test_unfair else test_passed

-- How `main` ends: with a verdict, with an error, with a panic, or not at all.
pub data Main : Type 0 where
  judged : Verdict → Main
  main_failed : RunnerError → Main
  main_panicked : Main
  main_stuck : Main

unfoldable pub report : Tested → Main
unfolding verdict
report (tested result) = judged (verdict result)
report (test_failed e) = main_failed e
report test_crashed = main_panicked
report test_stuck = main_stuck

unfoldable pub fuzz_main :
    (rng : Rng) (bits : Bits) (clients : Clients) → ℕ → Args → clients.Procs → rng.Source → Main
unfolding report gen_pools
fuzz_main rng bits clients draw_fuel args procs source =
    let (keys, source') = gen_pools rng args.num_clis args.num_keys args.conflict source in
    if args_valid args
    then report (
        fuzz_test rng bits clients draw_fuel args.num_ops args.num_clis keys (Stats.new keys) procs
          source')
    else main_panicked
