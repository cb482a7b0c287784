-- ===== src/Bencher/Launch/Panics.antt =====
-- When `main` of runner/src/bin/bencher/main.rs panics: only where its assertions say so.
use my_mad_kv.Prelude.{
  ℕ, zero, suc, ◌≡◌, ◌⊎◌, ◌↔◌, refl, Bool, true, false, Bool-cases, inl, inr, Option, none, some,
  List, [], ◌∷◌, ◌==◌, arith,
}
use mathlib.Core.Path.{subst}
use my_mad_kv.Text.{Text, codes}
use my_mad_kv.Runner.Error.{io}
use my_mad_kv.Runner.Proc.{ClientProc}
use my_mad_kv.Bencher.Ycsb.{KeySet}
use my_mad_kv.Bencher.Stats.{Float, Stats, merge}
use my_mad_kv.Bencher.Feeder.{Clock}
use my_mad_kv.Bencher.Launch.{
  Machine, Bench, done, failed, panicked, and_then, spawned, ycsb_profile, ycsb_command, Args,
  workload_valid, YcsbDriver, exec, receive, killed, wait, exec_all, wait_all, ycsb_bench,
  new_clients, phase, bench_main, extend_keys,
}

-- A step does not panic.
abbrev Calm {ℓ} : {A : Type ℓ} → Bench A → Type 0
Calm (done a) = Unit
Calm (failed e) = Unit
Calm panicked = ⊥

module _ {ℓ κ} {A : Type ℓ} {B : Type κ} where
  and_then-Calm :
      (first : Bench A) (next : A → Bench B)
      → Calm first
      → ((a : A) → Calm (next a))
      → Calm (and_then first next)
  and_then-Calm (done a) next h k = k a
  and_then-Calm (failed e) next h k = tt
  and_then-Calm panicked next h k = h

spawned-Calm : {A : Type 0} (r : Text ⊎ A) → Calm (spawned r)
spawned-Calm (inl msg) = tt
spawned-Calm (inr a) = tt

ycsb_profile-none : (w : ℕ) → workload_valid w ≡ true → ycsb_profile w ≡ none → ⊥
unfolding workload_valid ycsb_profile
ycsb_profile-none w h k = ground arith

module _ (float : Float) (clocks : ℕ → Clock float) (machine : Machine) where
  exec-Calm :
      (n w num_ops : ℕ) (load : Bool) (client : ClientProc) (ikeys : KeySet)
      → workload_valid w ≡ true
      → Calm (exec float clocks machine n w num_ops load client ikeys)
  unfolding exec
  exec-Calm n w num_ops load client ikeys h = by_profile (ycsb_profile w) refl
    where
      by_profile :
          (p : Option Text)
          → ycsb_profile w ≡ p
          → Calm (exec float clocks machine n w num_ops load client ikeys)
      by_profile none e = absurd (ycsb_profile-none w h e)
      by_profile (some profile) e =
          rw (e, exec)
            (and_then-Calm (spawned (machine.spawn_ycsb n (ycsb_command profile num_ops load))) _
              (spawned-Calm (machine.spawn_ycsb n (ycsb_command profile num_ops load))) (λ a. tt))

  exec_all-Calm :
      (n w num_ops : ℕ) (load : Bool) (clients : List ClientProc) (ikeys : KeySet)
      → workload_valid w ≡ true
      → Calm (exec_all float clocks machine n w num_ops load clients ikeys)
  unfolding exec_all
  exec_all-Calm n w num_ops load [] ikeys h = tt
  exec_all-Calm n w num_ops load (client ∷ clients) ikeys h =
      and_then-Calm (exec float clocks machine n w num_ops load client ikeys) _
        (exec-Calm n w num_ops load client ikeys h)
        (λ driver.
          and_then-Calm (exec_all float clocks machine (suc n) w num_ops load clients ikeys) _
            (exec_all-Calm (suc n) w num_ops load clients ikeys h) (λ drivers. tt))

  receive-Calm :
      (driver : YcsbDriver float clocks machine) → Calm (receive float clocks machine driver)
  receive-Calm driver = by_late driver.handle.late driver.feeder
    where
      by_late :
          (late : Option Text) (feeder : Option (Option (Stats float × KeySet)))
          → Calm (
              receive float clocks machine
                (record { handle = record driver.handle { late = late }; feeder = feeder }))
      by_late (some msg) feeder = tt
      by_late none none = tt
      by_late none (some result) = tt

  wait-Calm : (driver : YcsbDriver float clocks machine) → Calm (wait float clocks machine driver)
  unfolding wait
  wait-Calm driver =
      and_then-Calm (receive float clocks machine driver) _ (receive-Calm driver)
        (by_kill driver.handle.kill_failure)
    where
      by_kill :
          (failure : Option Text) (result : Option (Stats float × KeySet))
          → Calm (killed float clocks machine failure result)
      by_kill none result = tt
      by_kill (some msg) result = tt

  wait_all-Calm :
      (drivers : List (YcsbDriver float clocks machine)) (stats : Stats float) (ikeys : KeySet)
      → Calm (wait_all float clocks machine drivers stats ikeys)
  unfolding wait_all
  wait_all-Calm [] stats ikeys = tt
  wait_all-Calm (driver ∷ drivers) stats ikeys =
      and_then-Calm (wait float clocks machine driver) _ (wait-Calm driver)
        (by_result (λ s k. wait_all-Calm drivers s k))
    where
      by_result :
          ((s : Stats float) (k : KeySet) → Calm (wait_all float clocks machine drivers s k))
          → (result : Option (Stats float × KeySet))
          → Calm (elim result as (λ x. Bench (Stats float × KeySet)) [
            | none ↦ failed (io (codes "a YCSB driver process failed"))
            | some (s, k) ↦
                wait_all float clocks machine drivers (merge float stats s) (extend_keys ikeys k)
          ])
      by_result ih none = tt
      by_result ih (some (s, k)) = ih _ _

  new_clients-Calm :
      (n : ℕ) (just_args : List Text) (left : ℕ)
      → Calm (new_clients float clocks machine n just_args left)
  unfolding new_clients
  new_clients-Calm n just_args zero = tt
  new_clients-Calm n just_args (suc left) =
      and_then-Calm (spawned (machine.spawn_client n just_args)) _
        (spawned-Calm (machine.spawn_client n just_args))
        (λ client.
          and_then-Calm (new_clients float clocks machine (suc n) just_args left) _
            (new_clients-Calm (suc n) just_args left) (λ clients. tt))

  phase-Calm :
      (n : ℕ) (args : Args) (load : Bool) (ikeys : KeySet)
      → workload_valid args.workload ≡ true
      → Calm (phase float clocks machine n args load ikeys)
  unfolding phase ycsb_bench
  phase-Calm n args load ikeys h =
      and_then-Calm (new_clients float clocks machine n args.client_just_args args.num_clis) _
        (new_clients-Calm n args.client_just_args args.num_clis)
        (λ clients.
          and_then-Calm
            (exec_all float clocks machine n args.workload args.num_ops load clients ikeys) _
            (exec_all-Calm n args.workload args.num_ops load clients ikeys h)
            (λ drivers. wait_all-Calm drivers _ []))

  -- the two phases
  abbrev phases : Args → Bench (Stats float × Stats float)
  phases args = and_then (phase float clocks machine 0 args true []) (λ (stats_load, ikeys_load).
      and_then (phase float clocks machine args.num_clis args false ikeys_load)
        (λ (stats_run, ikeys_run). done (stats_load, stats_run)))

  phases-Calm : (args : Args) → workload_valid args.workload ≡ true → Calm (phases args)
  phases-Calm args h =
      and_then-Calm (phase float clocks machine 0 args true []) _ (phase-Calm 0 args true [] h)
        (λ p.
          and_then-Calm (phase float clocks machine args.num_clis args false p.1) _
            (phase-Calm args.num_clis args false p.1 h) (λ q. tt))

  -- The benchmark panics exactly if there is no client, or if the workload is none of the six: with
  -- a valid workload no file of a workload is unreachable, whatever the clients and drivers do.
  pub bench_main-panicked_iff :
      (args : Args)
      → (bench_main float clocks machine args ≡ panicked)
        ↔ ((args.num_clis ≡ 0) ⊎ (workload_valid args.workload ≡ false))
  unfolding bench_main
  bench_main-panicked_iff args = (
    λ e. elim (Bool-cases (args.num_clis == 0)) [
      | inl z ↦ inl (ground arith)
      | inr z ↦ elim (Bool-cases (workload_valid args.workload)) [
        | inr v ↦ inr v
        | inl v ↦ absurd (subst Calm (rw (z, v) at e) (phases-Calm args v))
      ]
    ],
    λ d. elim (Bool-cases (args.num_clis == 0)) [
      | inl z ↦ rw z refl
      | inr z ↦ elim d [ inl y ↦ absurd (ground arith) | inr v ↦ rw (z, v) refl ]
    ],
  )
