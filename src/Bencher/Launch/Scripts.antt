-- ===== src/Bencher/Launch/Scripts.antt =====
-- The first loop of `ycsb_bench` (runner/src/bin/bencher/main.rs): the drivers that it starts, and
-- the scripts by which they work.
use my_mad_kv.Prelude.{ℕ, suc, ◌≡◌, ◌⊎◌, refl, ap, sym, Bool, inl, inr, some, List, [], ◌∷◌}
use mathlib.Core.Path.{subst}
use my_mad_kv.Text.{Text}
use my_mad_kv.Runner.Proc.{ClientProc}
use my_mad_kv.Bencher.Ycsb.{KeySet}
use my_mad_kv.Bencher.Stats.{Float}
use my_mad_kv.Bencher.Feeder.{Clock}
use my_mad_kv.Bencher.Feeder.Script.{Calls}
use my_mad_kv.Bencher.Launch.{
  Machine, Process, Bench, done, failed, panicked, and_then, spawned, ycsb_profile, ycsb_command,
  extend_keys, YcsbDriver, exec, exec_all,
}
use my_mad_kv.Bencher.Launch.Drivers.{Works, started}

module _ (float : Float) (clocks : ℕ → Clock float) (machine : Machine) (command : List Text) where
  open machine use {spawn_ycsb}

  -- Each client has a driver, the first of that number, that works with it, by those calls.
  abbrev pub AllWork : ℕ → List ClientProc → KeySet → List Calls → Type 0
  AllWork n [] ikeys [] = Unit
  AllWork n [] ikeys (calls ∷ scripts) = ⊥
  AllWork n (client ∷ clients) ikeys [] = ⊥
  AllWork n (client ∷ clients) ikeys (calls ∷ scripts) =
      ((process : Process) × (spawn_ycsb n command ≡ inr process)
        × Works process client ikeys calls)
      × AllWork (suc n) clients ikeys scripts

  -- the keys that the scripts leave, with those that are there
  abbrev pub handed :
      (n : ℕ) (clients : List ClientProc) (ikeys : KeySet) (scripts : List Calls)
      → AllWork n clients ikeys scripts
      → KeySet
      → KeySet
  handed n [] ikeys [] w acc = acc
  handed n [] ikeys (calls ∷ scripts) w acc = acc
  handed n (client ∷ clients) ikeys [] w acc = acc
  handed n (client ∷ clients) ikeys (calls ∷ scripts) ((process, q, (l, k, f, a, (keys, e))), w)
        acc =
      handed (suc n) clients ikeys scripts w (extend_keys acc keys)

  -- the drivers are those that are started for the clients
  abbrev pub AreStarted :
      ℕ → List ClientProc → KeySet → List (YcsbDriver float clocks machine) → Type 0
  AreStarted n [] ikeys [] = Unit
  AreStarted n [] ikeys (driver ∷ drivers) = ⊥
  AreStarted n (client ∷ clients) ikeys [] = ⊥
  AreStarted n (client ∷ clients) ikeys (driver ∷ drivers) =
      ((process : Process) × (spawn_ycsb n command ≡ inr process)
        × (driver ≡ started float clocks machine n process client ikeys))
      × AreStarted (suc n) clients ikeys drivers

  -- no scripts make all drivers work
  abbrev pub NoneWork : ℕ → List ClientProc → KeySet → Type 0
  NoneWork n clients ikeys = (scripts : List Calls) → AllWork n clients ikeys scripts → ⊥

  abbrev pub Starts :
      ℕ → List ClientProc → KeySet → Bench (List (YcsbDriver float clocks machine)) → Type 0
  Starts n clients ikeys (done drivers) = AreStarted n clients ikeys drivers
  Starts n clients ikeys (failed e) = NoneWork n clients ikeys
  Starts n clients ikeys panicked = ⊥

  pub NoneWork-rest :
      (n : ℕ) (client : ClientProc) (clients : List ClientProc) (ikeys : KeySet)
      → NoneWork (suc n) clients ikeys
      → NoneWork n (client ∷ clients) ikeys
  NoneWork-rest n client clients ikeys h [] w = w
  NoneWork-rest n client clients ikeys h (calls ∷ scripts) w = h scripts w.1

  -- what `exec` does with what has been spawned
  abbrev exec_spawned :
      ℕ → ClientProc → KeySet → Text ⊎ Process → Bench (YcsbDriver float clocks machine)
  exec_spawned n client ikeys r =
      and_then (spawned r) (λ process. done (started float clocks machine n process client ikeys))

  exec-spawned :
      (w num_ops : ℕ) (load : Bool) (profile : Text)
      → ycsb_profile w ≡ some profile
      → ycsb_command profile num_ops load ≡ command
      → (n : ℕ) (client : ClientProc) (ikeys : KeySet)
      → exec float clocks machine n w num_ops load client ikeys
        ≡ exec_spawned n client ikeys (spawn_ycsb n command)
  unfolding exec
  exec-spawned w num_ops load profile e c n client ikeys =
      rw (e, exec) (ap (λ x. exec_spawned n client ikeys (spawn_ycsb n x)) c)

  -- the drivers, the first of which comes from that spawn
  abbrev exec_then :
      ℕ
      → ClientProc
      → KeySet
      → Bench (List (YcsbDriver float clocks machine))
      → Bench (YcsbDriver float clocks machine)
      → Bench (List (YcsbDriver float clocks machine))
  exec_then n client ikeys rest first =
      and_then first (λ driver. and_then rest (λ drivers. done (driver ∷ drivers)))

  started-Starts :
      (n : ℕ) (client : ClientProc) (clients : List ClientProc) (ikeys : KeySet) (process : Process)
      (r : Bench (List (YcsbDriver float clocks machine)))
      → spawn_ycsb n command ≡ inr process
      → Starts (suc n) clients ikeys r
      → Starts n
          (client ∷ clients)
          ikeys
          (exec_then n client ikeys r (done (started float clocks machine n process client ikeys)))
  started-Starts n client clients ikeys process (done drivers) q h = ((process, q, refl), h)
  started-Starts n client clients ikeys process (failed x) q h =
      NoneWork-rest n client clients ikeys h
  started-Starts n client clients ikeys process panicked q h = h

  spawned-Starts :
      (n : ℕ) (client : ClientProc) (clients : List ClientProc) (ikeys : KeySet)
      (r : Text ⊎ Process) (rest : Bench (List (YcsbDriver float clocks machine)))
      → spawn_ycsb n command ≡ r
      → Starts (suc n) clients ikeys rest
      → Starts n
          (client ∷ clients)
          ikeys
          (exec_then n client ikeys rest (exec_spawned n client ikeys r))
  spawned-Starts n client clients ikeys (inl msg) rest q h = unspawned
    where
      unspawned : NoneWork n (client ∷ clients) ikeys
      unspawned [] w = w
      unspawned (calls ∷ scripts) ((process, q', w), ws) = cc (q, q')
  spawned-Starts n client clients ikeys (inr process) rest q h =
      started-Starts n client clients ikeys process rest q h

  pub exec_all-Starts :
      (w num_ops : ℕ) (load : Bool) (profile : Text)
      → ycsb_profile w ≡ some profile
      → ycsb_command profile num_ops load ≡ command
      → (n : ℕ) (clients : List ClientProc) (ikeys : KeySet)
      → Starts n clients ikeys (exec_all float clocks machine n w num_ops load clients ikeys)
  unfolding exec_all
  exec_all-Starts w num_ops load profile e c n [] ikeys = tt
  exec_all-Starts w num_ops load profile e c n (client ∷ clients) ikeys =
      let rest = exec_all float clocks machine (suc n) w num_ops load clients ikeys in
      subst (λ first. Starts n (client ∷ clients) ikeys (exec_then n client ikeys rest first))
        (sym (exec-spawned w num_ops load profile e c n client ikeys))
        (spawned-Starts n client clients ikeys (spawn_ycsb n command) rest refl
          (exec_all-Starts w num_ops load profile e c (suc n) clients ikeys))
