-- ===== src/Bencher/Launch/Measures.antt =====
-- What `ycsb_bench` of runner/src/bin/bencher/main.rs comes to, by the scripts of its drivers.
use my_mad_kv.Prelude.{ℕ, suc, ◌≡◌, refl, ap, ◌∙◌, Bool, some, List, [], ◌∷◌, arith, length}
use my_mad_kv.Text.{Text}
use my_mad_kv.Runner.Proc.{ClientProc}
use my_mad_kv.Bencher.Ycsb.{KeySet}
use my_mad_kv.Bencher.Stats
use my_mad_kv.Bencher.Stats.{Float, Stats, total_ops, merge}
use my_mad_kv.Bencher.Feeder.{Clock}
use my_mad_kv.Bencher.Feeder.Script.{Calls}
use my_mad_kv.Bencher.Feeder.Delivered.{span}
use my_mad_kv.Bencher.Launch.{
  Machine, Bench, done, failed, panicked, ycsb_profile, ycsb_command, Args, ycsb_bench,
}
use my_mad_kv.Bencher.Launch.Scripts.{handed, AllWork, NoneWork, exec_all-Starts}
use my_mad_kv.Bencher.Launch.Merges.{total, slowest, slowest_of, Merges, started-Merges}

module _ (float : Float) (clocks : ℕ → Clock float) (machine : Machine) where
  -- the longest of the times
  abbrev pub longest : ℕ → List Calls → float.F
  longest n [] = float.zero_float
  longest n (calls ∷ rest) = slowest float clocks (suc n) (span float (clocks n) calls) rest

  -- What a phase of the benchmark comes to.
  abbrev pub Measured :
      List Text → ℕ → List ClientProc → KeySet → Bench (Stats float × KeySet) → Type 0
  Measured command n clients ikeys (done (stats, keys)) =
      (scripts : List Calls) × AllWork float clocks machine command n clients ikeys scripts
      × (stats.merged ≡ length clients)
      × (total_ops float stats ≡ total scripts)
      × (stats.total_ms ≡ longest n scripts)
  Measured command n clients ikeys (failed e) =
      NoneWork float clocks machine command n clients ikeys
  Measured command n clients ikeys panicked = ⊥

  length-AllWork :
      (command : List Text) (n : ℕ) (clients : List ClientProc) (ikeys : KeySet)
      (scripts : List Calls)
      → AllWork float clocks machine command n clients ikeys scripts
      → length scripts ≡ length clients
  length-AllWork command n [] ikeys [] w = refl
  length-AllWork command n [] ikeys (calls ∷ scripts) w = absurd w
  length-AllWork command n (client ∷ clients) ikeys [] w = absurd w
  length-AllWork command n (client ∷ clients) ikeys (calls ∷ scripts) w =
      ap (λ x. suc x) (length-AllWork command (suc n) clients ikeys scripts w.1)

  slowest_of-new :
      (n : ℕ) (scripts : List Calls)
      → slowest_of float clocks n scripts (Stats.new float) ≡ longest n scripts
  unfolding Stats.new
  slowest_of-new n [] = refl
  slowest_of-new n (calls ∷ rest) = refl

  new-facts : ((Stats.new float).merged ≡ 0) × (total_ops float (Stats.new float) ≡ 0)
  unfolding Stats.new total_ops Stats.count_samples
  new-facts = (refl, refl)

  -- It is that, and the keys that it hands on are those that the scripts leave.
  abbrev pub Gathered :
      List Text → ℕ → List ClientProc → KeySet → Bench (Stats float × KeySet) → Type 0
  Gathered command n clients ikeys (done (stats, keys)) =
      (scripts : List Calls) × (w : AllWork float clocks machine command n clients ikeys scripts)
      × (keys ≡ handed float clocks machine command n clients ikeys scripts w [])
      × (stats.merged ≡ length clients)
      × (total_ops float stats ≡ total scripts)
      × (stats.total_ms ≡ longest n scripts)
  Gathered command n clients ikeys (failed e) =
      NoneWork float clocks machine command n clients ikeys
  Gathered command n clients ikeys panicked = ⊥

  Merges-Gathered :
      (command : List Text) (n : ℕ) (clients : List ClientProc) (ikeys : KeySet)
      (r : Bench (Stats float × KeySet))
      → Merges float clocks machine command n clients ikeys (Stats.new float) [] r
      → Gathered command n clients ikeys r
  Merges-Gathered command n clients ikeys (done (stats, keys)) (scripts, w, same, (m, ops, ms)) =
      let (none_merged, no_ops) = new-facts in
      (
        scripts,
        w,
        same,
        omega (arith, m, none_merged, length-AllWork command n clients ikeys scripts w),
        omega (arith, ops, no_ops),
        ms ∙ slowest_of-new n scripts,
      )
  Merges-Gathered command n clients ikeys (failed e) h = h
  Merges-Gathered command n clients ikeys panicked h = h

  pub ycsb_bench-Gathered :
      (n : ℕ) (args : Args) (profile : Text) (clients : List ClientProc) (load : Bool)
      (ikeys : KeySet)
      → ycsb_profile args.workload ≡ some profile
      → Gathered
          (ycsb_command profile args.num_ops load)
          n
          clients
          ikeys
          (ycsb_bench float clocks machine n args clients load ikeys)
  unfolding ycsb_bench
  ycsb_bench-Gathered n args profile clients load ikeys e =
      let command = ycsb_command profile args.num_ops load in
      Merges-Gathered command n clients ikeys _ (
        started-Merges float clocks machine command n clients ikeys _ (
          exec_all-Starts float clocks machine command args.workload args.num_ops load profile e
            refl n clients ikeys))

  Gathered-Measured :
      (command : List Text) (n : ℕ) (clients : List ClientProc) (ikeys : KeySet)
      (r : Bench (Stats float × KeySet))
      → Gathered command n clients ikeys r
      → Measured command n clients ikeys r
  Gathered-Measured command n clients ikeys (done (stats, keys)) (scripts, w, same, m, ops, ms) =
      (scripts, w, m, ops, ms)
  Gathered-Measured command n clients ikeys (failed e) h = h
  Gathered-Measured command n clients ikeys panicked h = h

  -- With a valid workload a phase of the benchmark succeeds only if each client has a driver that
  -- writes calls that the client answers, and that ends in time; it then reports as many feeders
  -- as there are clients, as many operations as there are calls in all the scripts together, and
  -- the longest of the times. It fails only if there are no such scripts, and it does not panic.
  pub ycsb_bench-Measured :
      (n : ℕ) (args : Args) (profile : Text) (clients : List ClientProc) (load : Bool)
      (ikeys : KeySet)
      → ycsb_profile args.workload ≡ some profile
      → Measured
          (ycsb_command profile args.num_ops load)
          n
          clients
          ikeys
          (ycsb_bench float clocks machine n args clients load ikeys)
  ycsb_bench-Measured n args profile clients load ikeys e =
      Gathered-Measured _ n clients ikeys _
        (ycsb_bench-Gathered n args profile clients load ikeys e)
