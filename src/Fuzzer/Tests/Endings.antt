-- ===== src/Fuzzer/Tests/Endings.antt =====
-- The theorems about the end of a fuzz test at concrete inputs.
use my_mad_kv.Prelude.{
  ℕ, zero, suc, ◌+◌, ◌-◌, ◌<◌, ◌≡◌, refl, true, false, List, [], ◌∷◌, arith, ltb, replicate,
  if◌then◌else◌,
}
use my_mad_kv.Text.{Text, codes}
use my_mad_kv.Fuzzer.Stats
use my_mad_kv.Fuzzer.Outside.{Rng}
use my_mad_kv.Fuzzer.Samples.{bitmap, empty_clients}
use my_mad_kv.Fuzzer.Loop.{fuzz_test}
use my_mad_kv.Fuzzer.Main.{Args, gen_pools}
use my_mad_kv.Fuzzer.Main.Settles.{Settles}
use my_mad_kv.Fuzzer.Loop.Flights.{Hits}
use my_mad_kv.Fuzzer.Loop.Flying.{Returning}
use my_mad_kv.Fuzzer.Loop.Liveness.{Returns, fuzz_test-Returns}

cycling_lt : (max s : ℕ) → 0 < max → (if ltb (s + 1) max then s else (max - 1)) < max
cycling_lt max s h = ground arith

-- It draws the numbers below the bound in turn.
abbrev cycling : Rng
cycling = record {
  Source = ℕ;
  index =
      λ max s. (if ltb (s + 1) max then s else (max - 1), if ltb (s + 1) max then (s + 1) else 0);
  flip = λ s. (true, s);
  text = λ len s. (replicate len 97, s);
  index_lt = cycling_lt;
}

cycling-Hits : Hits cycling 4 2
cycling-Hits zero zero lt = (0, omega arith, refl)
cycling-Hits zero (suc s) lt =
    let last : ltb (suc s + 1) 2 ≡ false = ground arith in (1, omega arith, rw last refl)
cycling-Hits (suc zero) zero lt = (1, omega arith, refl)
cycling-Hits (suc zero) (suc s) lt =
    let last : ltb (suc s + 1) 2 ≡ false = ground arith in (0, omega arith, rw last refl)
cycling-Hits (suc (suc c)) s lt = absurd (omega (arith, lt))

empty_clients-Returning : Returning empty_clients
empty_clients-Returning = record {
  sends = λ c call procs e. cc;
  answers = λ c procs e. cc;
  stops = λ c procs e. cc;
}

abbrev pools : List (List Text)
pools = (codes "a" ∷ []) ∷ (codes "b" ∷ []) ∷ []

fuzz_test-Returns_example :
    Returns (fuzz_test cycling bitmap empty_clients 4 100 2 pools (Stats.new pools) 0 0)
fuzz_test-Returns_example =
    fuzz_test-Returns cycling bitmap empty_clients 4 100 2 pools 0 0 (omega arith) refl
      (omega arith, (omega arith, tt)) (omega arith) cycling-Hits empty_clients-Returning

abbrev two_args : Args
two_args = record { num_clis = 2; num_keys = 1; num_ops = 1000; conflict = true }

abbrev shared_pools : List (List Text)
shared_pools = (gen_pools cycling 2 1 true 0).0
