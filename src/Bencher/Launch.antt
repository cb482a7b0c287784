-- ===== src/Bencher/Launch.antt =====
-- The YCSB drivers of runner/src/bin/bencher/ycsb.rs as processes, and `ycsb_bench` and `main` of
-- runner/src/bin/bencher/main.rs, behind the parsing of the arguments. What the operating system
-- does with a process is a parameter.
pub mod Panics
pub mod Drivers
pub mod Scripts
pub mod Merges
pub mod Measures
pub mod Keys
pub mod Main
use my_mad_kv.Prelude.{
  ℕ, zero, suc, ◌+◌, ◌/◌, ◌%◌, Bool, true, false, not, ◌||◌, ◌⊎◌, inl, inr, Option, none, some,
  List, [], ◌∷◌, ◌++◌, ◌==◌, if◌then◌else◌,
}
use my_mad_kv.Text.{Text, codes}
use my_mad_kv.Collections.SortedMap
use my_mad_kv.Runner.Error.{RunnerError, io, io_error, recv_timeout_error, from}
use my_mad_kv.Runner.Ioapi.Reader.{Reader}
use my_mad_kv.Runner.Proc.{ClientProc}
use my_mad_kv.Bencher.Ycsb.{KeySet}
use my_mad_kv.Bencher.Stats
use my_mad_kv.Bencher.Stats.{Float, Stats, merge}
use my_mad_kv.Bencher.Feeder.{Clock, Feeding, returned, feeding_on, feeder_thread}

-- A driver that has been started: what it writes, the message of the error if its feeder's signal
-- does not come in time, and the error with which it cannot be killed.
pub record Process : Type 0 where
  pub stdout : Reader
  pub late : Option Text
  pub kill_failure : Option Text

-- What becomes of a command that is spawned, for the number of the spawn: the message of an error,
-- or a process.
pub record Machine : Type 0 where
  pub spawn_ycsb : ℕ → List Text → Text ⊎ Process
  pub spawn_client : ℕ → List Text → Text ⊎ ClientProc

-- what a step comes to
pub data Bench {ℓ} (A : Type ℓ) : Type ℓ where
  done : A → Bench A
  failed : RunnerError → Bench A
  panicked : Bench A

-- `?`
abbrev pub and_then {ℓ κ} : {A : Type ℓ} {B : Type κ} → Bench A → (A → Bench B) → Bench B
and_then (done a) f = f a
and_then (failed e) f = failed e
and_then panicked f = panicked

-- `?` on what has been spawned
abbrev pub spawned {ℓ} : {A : Type ℓ} → Text ⊎ A → Bench A
spawned (inl msg) = failed (from (io_error msg))
spawned (inr a) = done a

abbrev pub ycsb_bin : Text
ycsb_bin = codes "ycsb/bin/ycsb.sh"

-- the profile of a workload; the other characters are unreachable
unfoldable pub ycsb_profile : ℕ → Option Text
ycsb_profile workload =
    if workload == b'a'
    then some (codes "ycsb/workloads/workloada")
    else if workload == b'b'
    then some (codes "ycsb/workloads/workloadb")
    else if workload == b'c'
    then some (codes "ycsb/workloads/workloadc")
    else if workload == b'd'
    then some (codes "ycsb/workloads/workloadd")
    else if workload == b'e'
    then some (codes "ycsb/workloads/workloade")
    else if workload == b'f'
    then some (codes "ycsb/workloads/workloadf")
    else none

-- the decimal digits of a number of so many digits at most, in front of those that are written
unfoldable pub decimal : ℕ → ℕ → Text → Text
decimal zero n digits = digits
decimal (suc w) n digits =
    let rest = decimal w (n / 10) ((n % 10 + b'0') ∷ digits) in
    if n / 10 == 0 then (n % 10 + b'0') ∷ digits else rest

-- the command line of a driver; a `usize` has 20 digits at most
unfoldable pub ycsb_command : Text → ℕ → Bool → List Text
unfolding decimal
ycsb_command profile num_ops load =
    ycsb_bin
    ∷ (if load then codes "load" else codes "run")
    ∷ codes "basic"
    ∷ codes "-P"
    ∷ profile
    ∷ codes "-p"
    ∷ (codes "operationcount=" ++ decimal 20 num_ops [])
    ∷ []

-- `BTreeSet::extend`
unfoldable pub extend_keys : KeySet → KeySet → KeySet
extend_keys ikeys [] = ikeys
extend_keys ikeys ((key, u) ∷ other) = extend_keys (SortedMap.insert key tt ikeys) other

pub record Args : Type 0 where
  pub num_clis : ℕ
  pub num_ops : ℕ
  pub workload : ℕ
  pub client_just_args : List Text

-- `VALID_WORKLOADS.contains(..)`
unfoldable pub workload_valid : ℕ → Bool
workload_valid w = w == b'a' || w == b'b' || w == b'c' || w == b'd' || w == b'e' || w == b'f'

module _ (float : Float) (clocks : ℕ → Clock float) (machine : Machine) where
  open machine use {spawn_ycsb, spawn_client}

  -- a driver, and what its feeder returns, if it ends
  pub record YcsbDriver : Type 0 where
    pub handle : Process
    pub feeder : Option (Option (Stats float × KeySet))

  abbrev pub joined :
      {clock : Clock float} → Feeding float clock → Option (Option (Stats float × KeySet))
  joined (returned end) = some end.result
  joined feeding_on = none

  -- the driver of that number
  unfoldable pub exec : ℕ → ℕ → ℕ → Bool → ClientProc → KeySet → Bench YcsbDriver
  unfolding ycsb_profile ycsb_command
  exec n workload num_ops load client ikeys = elim (ycsb_profile workload) [
    | none ↦ panicked
    | some profile ↦
        and_then (spawned (spawn_ycsb n (ycsb_command profile num_ops load))) (λ process.
          done (record {
            handle = process;
            feeder = joined (feeder_thread float (clocks n) process.stdout client ikeys);
          }))
  ]

  -- `recv_timeout`: a feeder that does not end sends no signal
  abbrev pub receive : YcsbDriver → Bench (Option (Stats float × KeySet))
  receive driver = elim driver.handle.late [
    | some msg ↦ failed (from (recv_timeout_error msg))
    | none ↦ elim driver.feeder [
      | none ↦ failed (from (recv_timeout_error (codes "timed out waiting on channel")))
      | some result ↦ done result
    ]
  ]

  -- `kill`, and the result behind it
  abbrev pub killed {ℓ} : {A : Type ℓ} → Option Text → A → Bench A
  killed none result = done result
  killed (some msg) result = failed (from (io_error msg))

  -- A feeder does not panic, so that joining it does not fail.
  unfoldable pub wait : YcsbDriver → Bench (Option (Stats float × KeySet))
  wait driver = and_then (receive driver) (killed driver.handle.kill_failure)

  -- the first loop of `ycsb_bench`, from that number on
  unfoldable pub exec_all : ℕ → ℕ → ℕ → Bool → List ClientProc → KeySet → Bench (List YcsbDriver)
  unfolding exec
  exec_all n workload num_ops load [] ikeys = done []
  exec_all n workload num_ops load (client ∷ clients) ikeys =
      and_then (exec n workload num_ops load client ikeys) (λ driver.
        and_then (exec_all (suc n) workload num_ops load clients ikeys)
          (λ drivers. done (driver ∷ drivers)))

  -- the second loop
  unfoldable pub wait_all : List YcsbDriver → Stats float → KeySet → Bench (Stats float × KeySet)
  unfolding wait extend_keys
  wait_all [] stats ikeys = done (stats, ikeys)
  wait_all (driver ∷ drivers) stats ikeys = and_then (wait driver) (λ result. elim result [
    | none ↦ failed (io (codes "a YCSB driver process failed"))
    | some (cli_stats, cli_ikeys) ↦
        wait_all drivers (merge float stats cli_stats) (extend_keys ikeys cli_ikeys)
  ])

  unfoldable pub ycsb_bench :
      ℕ → Args → List ClientProc → Bool → KeySet → Bench (Stats float × KeySet)
  unfolding exec_all wait_all
  ycsb_bench n args clients load ikeys =
      and_then (exec_all n args.workload args.num_ops load clients ikeys)
        (λ drivers. wait_all drivers (Stats.new float) [])

  -- so many clients, from that number on
  unfoldable pub new_clients : ℕ → List Text → ℕ → Bench (List ClientProc)
  new_clients n just_args zero = done []
  new_clients n just_args (suc left) =
      and_then (spawned (spawn_client n just_args)) (λ client.
        and_then (new_clients (suc n) just_args left) (λ clients. done (client ∷ clients)))

  -- one of the two phases
  unfoldable pub phase : ℕ → Args → Bool → KeySet → Bench (Stats float × KeySet)
  unfolding ycsb_bench new_clients
  phase n args load ikeys =
      and_then (new_clients n args.client_just_args args.num_clis)
        (λ clients. ycsb_bench n args clients load ikeys)

  -- the statistics of the load phase and of the run phase, which `main` prints
  unfoldable pub bench_main : Args → Bench (Stats float × Stats float)
  unfolding phase workload_valid
  bench_main args =
      if args.num_clis == 0
      then panicked
      else if not (workload_valid args.workload)
      then panicked
      else and_then (phase 0 args true []) (λ (stats_load, ikeys_load).
        and_then (phase args.num_clis args false ikeys_load)
          (λ (stats_run, ikeys_run). done (stats_load, stats_run)))
