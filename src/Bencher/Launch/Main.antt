-- ===== src/Bencher/Launch/Main.antt =====
-- What `main` of runner/src/bin/bencher/main.rs reports of its two phases.
use my_mad_kv.Prelude.{
  ◌≢◌, ℕ, zero, suc, ◌≡◌, refl, ap, sym, ◌∙◌, Bool, true, false, inl, inr, ◌⊎◌, ◌==◌, some, List,
  [], ◌∷◌, arith, length,
}
use mathlib.Core.Path.{subst}
use my_mad_kv.Text.{Text}
use my_mad_kv.Collections.SortedMap.{IsSorted}
use my_mad_kv.Runner.Proc.{ClientProc}
use my_mad_kv.Bencher.Ycsb.{KeySet}
use my_mad_kv.Bencher.Stats.{Float, Stats, total_ops}
use my_mad_kv.Bencher.Feeder.{Clock}
use my_mad_kv.Bencher.Feeder.Script.{Calls}
use my_mad_kv.Bencher.Launch.{
  Machine, Bench, done, failed, panicked, and_then, spawned, ycsb_profile, ycsb_command, Args,
  workload_valid, ycsb_bench, new_clients, phase, bench_main,
}
use my_mad_kv.Bencher.Launch.Scripts.{AllWork, handed}
use my_mad_kv.Bencher.Launch.Merges.{total}
use my_mad_kv.Bencher.Launch.Measures.{longest, Gathered, ycsb_bench-Gathered}
use my_mad_kv.Bencher.Launch.Keys.{PutsAll, handed-PutsAll, KeysSorted, phase-Sorted}
use my_mad_kv.Bencher.Launch.Panics.{bench_main-panicked_iff}

module _ (float : Float) (clocks : ℕ → Clock float) (machine : Machine) where
  -- The statistics of a phase, from clients and drivers of that number on, over those keys: so many
  -- clients are started, and each has a driver that works with it by its script.
  abbrev pub Phase :
      List Text → ℕ → Args → KeySet → List ClientProc → List Calls → Stats float → Type 0
  Phase command n args ikeys clients scripts stats =
      (new_clients float clocks machine n args.client_just_args args.num_clis ≡ done clients)
      × (length clients ≡ args.num_clis)
      × (stats.merged ≡ args.num_clis)
      × (total_ops float stats ≡ total scripts)
      × (stats.total_ms ≡ longest float clocks machine n scripts)
      × AllWork float clocks machine command n clients ikeys scripts

  abbrev PhaseEnds : List Text → ℕ → Args → KeySet → Bench (Stats float × KeySet) → Type 0
  PhaseEnds command n args ikeys (done (stats, keys)) =
      (clients : List ClientProc) × (scripts : List Calls) × (w : AllWork float clocks machine
        command n clients ikeys scripts)
      × (keys ≡ handed float clocks machine command n clients ikeys scripts w [])
      × Phase command n args ikeys clients scripts stats
  PhaseEnds command n args ikeys (failed e) = Unit
  PhaseEnds command n args ikeys panicked = Unit

  abbrev SoMany : ℕ → Bench (List ClientProc) → Type 0
  SoMany left (done clients) = length clients ≡ left
  SoMany left (failed e) = Unit
  SoMany left panicked = Unit

  one_more :
      (client : ClientProc) (left : ℕ) (r : Bench (List ClientProc))
      → SoMany left r
      → SoMany (suc left) (and_then r (λ clients. done (client ∷ clients)))
  one_more client left (done clients) h = ap (λ n. suc n) h
  one_more client left (failed e) h = tt
  one_more client left panicked h = tt

  new_clients-SoMany :
      (left n : ℕ) (just_args : List Text)
      → SoMany left (new_clients float clocks machine n just_args left)
  unfolding new_clients
  new_clients-SoMany zero n just_args = refl
  new_clients-SoMany (suc left) n just_args =
      by_spawn (machine.spawn_client n just_args) (new_clients-SoMany left (suc n) just_args)
    where
      by_spawn :
          (r : Text ⊎ ClientProc)
          → SoMany left (new_clients float clocks machine (suc n) just_args left)
          → SoMany (suc left) (
              and_then (spawned r) (λ client.
                and_then
                  (new_clients float clocks machine (suc n) just_args left)
                  (λ clients. done (client ∷ clients))))
      by_spawn (inl msg) h = tt
      by_spawn (inr client) h = one_more client left _ h

  Gathered-PhaseEnds :
      (command : List Text) (n : ℕ) (args : Args) (clients : List ClientProc) (ikeys : KeySet)
      (r : Bench (Stats float × KeySet))
      → new_clients float clocks machine n args.client_just_args args.num_clis ≡ done clients
      → length clients ≡ args.num_clis
      → Gathered float clocks machine command n clients ikeys r
      → PhaseEnds command n args ikeys r
  Gathered-PhaseEnds command n args clients ikeys (done (stats, keys)) e many
        (scripts, w, same, m, ops, ms) =
      (clients, scripts, w, same, (e, many, m ∙ many, ops, ms, w))
  Gathered-PhaseEnds command n args clients ikeys (failed x) e many h = tt
  Gathered-PhaseEnds command n args clients ikeys panicked e many h = tt

  phase-PhaseEnds :
      (n : ℕ) (args : Args) (profile : Text) (load : Bool) (ikeys : KeySet)
      → ycsb_profile args.workload ≡ some profile
      → PhaseEnds
          (ycsb_command profile args.num_ops load)
          n
          args
          ikeys
          (phase float clocks machine n args load ikeys)
  unfolding phase
  phase-PhaseEnds n args profile load ikeys e =
      by_clients (new_clients float clocks machine n args.client_just_args args.num_clis) refl
        (new_clients-SoMany args.num_clis n args.client_just_args)
    where
      by_clients :
          (r : Bench (List ClientProc))
          → new_clients float clocks machine n args.client_just_args args.num_clis ≡ r
          → SoMany args.num_clis r
          → PhaseEnds
              (ycsb_command profile args.num_ops load)
              n
              args
              ikeys
              (and_then r (λ clients. ycsb_bench float clocks machine n args clients load ikeys))
      by_clients (done clients) q h =
          Gathered-PhaseEnds _ n args clients ikeys _ q h
            (ycsb_bench-Gathered float clocks machine n args profile clients load ikeys e)
      by_clients (failed x) q h = tt
      by_clients panicked q h = tt

  -- What the benchmark reports. The run phase works over the keys that the scripts of the load
  -- phase put.
  abbrev pub Reports : Args → Text → Bench (Stats float × Stats float) → Type 0
  Reports args profile (done (stats_load, stats_run)) =
      (clients_load : List ClientProc) × (scripts_load : List Calls) × (ikeys : KeySet)
      × (clients_run : List ClientProc) × (scripts_run : List Calls) × Phase
          (ycsb_command profile args.num_ops true) 0 args [] clients_load scripts_load stats_load
      × IsSorted ikeys
      × PutsAll scripts_load [] ikeys
      × Phase (ycsb_command profile args.num_ops false) args.num_clis args ikeys clients_run
          scripts_run stats_run
  Reports args profile (failed e) = Unit
  Reports args profile panicked = ⊥

  -- the two phases, one after the other
  abbrev both :
      Bench (Stats float × KeySet)
      → (KeySet → Bench (Stats float × KeySet))
      → Bench (Stats float × Stats float)
  both load run =
      and_then load
        (λ (stats_load, keys). and_then (run keys) (λ (stats_run, k). done (stats_load, stats_run)))

  run-Reports :
      (args : Args) (profile : Text) (stats : Stats float) (keys : KeySet)
      (r : Bench (Stats float × KeySet))
      → PhaseEnds (ycsb_command profile args.num_ops true) 0 args [] (done (stats, keys))
      → IsSorted keys
      → PhaseEnds (ycsb_command profile args.num_ops false) args.num_clis args keys r
      → (both (done (stats, keys)) (λ k. r) ≡ panicked → ⊥)
      → Reports args profile (both (done (stats, keys)) (λ k. r))
  run-Reports args profile stats keys (done (t, last)) (clients_load, scripts_load, w, same, h) k
        (clients_run, scripts_run, w', same', g) calm =
      (
        clients_load,
        scripts_load,
        keys,
        clients_run,
        scripts_run,
        h,
        k,
        subst (PutsAll scripts_load []) (sym same)
            (handed-PutsAll float clocks machine _ 0 clients_load scripts_load w []),
        g,
      )
  run-Reports args profile stats keys (failed e) h k g calm = tt
  run-Reports args profile stats keys panicked h k g calm = calm refl

  both-Reports :
      (args : Args) (profile : Text) (load : Bench (Stats float × KeySet))
      (run : KeySet → Bench (Stats float × KeySet))
      → PhaseEnds (ycsb_command profile args.num_ops true) 0 args [] load
      → KeysSorted float clocks machine load
      → ((keys : KeySet)
          → PhaseEnds (ycsb_command profile args.num_ops false) args.num_clis args keys (run keys))
      → (both load run ≡ panicked → ⊥)
      → Reports args profile (both load run)
  both-Reports args profile (done (s, keys)) run h k f calm =
      run-Reports args profile s keys (run keys) h k (f keys) calm
  both-Reports args profile (failed e) run h k f calm = tt
  both-Reports args profile panicked run h k f calm = calm refl

  ycsb_profile-valid :
      (w : ℕ) (profile : Text) → ycsb_profile w ≡ some profile → workload_valid w ≡ true
  unfolding workload_valid ycsb_profile
  ycsb_profile-valid w profile e = ground arith

  bench_main-both :
      (args : Args)
      → (args.num_clis == 0) ≡ false
      → workload_valid args.workload ≡ true
      → bench_main float clocks machine args
        ≡ both
            (phase float clocks machine 0 args true [])
            (phase float clocks machine args.num_clis args false)
  unfolding bench_main
  bench_main-both args z v = rw (z, v) refl

  -- With a client or more and a workload of the six, the benchmark does not panic. Where it
  -- succeeds it reports two phases, each of the clients that are started for it, as many as asked
  -- for, with as many operations as there are calls in the scripts of their drivers. The scripts of
  -- the run phase are those over the sorted set of exactly the keys that the scripts of the load
  -- phase put.
  pub bench_main-Reports :
      (args : Args) (profile : Text)
      → args.num_clis ≢ 0
      → ycsb_profile args.workload ≡ some profile
      → Reports args profile (bench_main float clocks machine args)
  bench_main-Reports args profile z e =
      let valid = ycsb_profile-valid args.workload profile e in
      let some_clis : (args.num_clis == 0) ≡ false = ground arith in
      let calm : bench_main float clocks machine args ≡ panicked → ⊥ = λ p.
        elim ((bench_main-panicked_iff float clocks machine args).0 p) [
          | inl y ↦ z y
          | inr y ↦ cc (valid, y)
        ] in
      let parts = bench_main-both args some_clis valid in
      subst (Reports args profile) (sym parts) (
        both-Reports args profile (phase float clocks machine 0 args true [])
          (phase float clocks machine args.num_clis args false)
          (phase-PhaseEnds 0 args profile true [] e)
          (phase-Sorted float clocks machine 0 args true [])
          (λ keys. phase-PhaseEnds args.num_clis args profile false keys e) (λ p. calm (parts ∙ p)))
