-- ===== src/Bencher/Launch/Merges.antt =====
-- The second loop of `ycsb_bench` (runner/src/bin/bencher/main.rs), which waits for the drivers and
-- merges what they report.
use my_mad_kv.Prelude.{
  ℕ, suc, ◌+◌, ◌≡◌, refl, ap, sym, ◌∙◌, false, Bool-cases, inl, inr, Option, none, some, List, [],
  ◌∷◌, ◌==◌, arith, length, if◌then◌else◌,
}
use mathlib.Core.Path.{subst}
use my_mad_kv.Text.{Text, codes}
use my_mad_kv.Runner.Error.{io}
use my_mad_kv.Runner.Proc.{ClientProc}
use my_mad_kv.Bencher.Ycsb.{KeySet}
use my_mad_kv.Bencher.Stats
use my_mad_kv.Bencher.Stats.{Float, Stats, total_ops, merge}
use my_mad_kv.Bencher.Stats.Merging.{total_ops-merge}
use my_mad_kv.Bencher.Feeder.{Clock}
use my_mad_kv.Bencher.Feeder.Script.{Calls, lines, script}
use my_mad_kv.Bencher.Feeder.Delivered.{Tells, span}
use my_mad_kv.Bencher.Launch.{
  Machine, Process, Bench, done, failed, panicked, and_then, extend_keys, YcsbDriver, wait,
  wait_all,
}
use my_mad_kv.Bencher.Launch.Drivers.{Works, Waits, wait-Waits}
use my_mad_kv.Bencher.Launch.Scripts.{handed, AllWork, AreStarted, NoneWork, NoneWork-rest, Starts}

-- the number of all the calls
abbrev pub total : List Calls → ℕ
total [] = 0
total (calls ∷ rest) = length calls + total rest

module _ (float : Float) (clocks : ℕ → Clock float) where
  -- The longest of the times, from that one on.
  abbrev pub slowest : ℕ → float.F → List Calls → float.F
  slowest n ms [] = ms
  slowest n ms (calls ∷ rest) =
      slowest (suc n) (float.max_float ms (span float (clocks n) calls)) rest

  -- the longest of the times, of which that of a struct with nothing merged does not count
  abbrev pub slowest_of : ℕ → List Calls → Stats float → float.F
  slowest_of n [] stats = stats.total_ms
  slowest_of n (calls ∷ rest) stats =
      if stats.merged == 0
      then slowest (suc n) (span float (clocks n) calls) rest
      else slowest n stats.total_ms (calls ∷ rest)

module _ (float : Float) (clocks : ℕ → Clock float) (machine : Machine) (command : List Text) where
  open machine use {spawn_ycsb}

  -- the statistics have come from the others by the scripts
  abbrev pub Adds : ℕ → List Calls → Stats float → Stats float → Type 0
  Adds n scripts stats stats' =
      (stats'.merged ≡ stats.merged + length scripts)
      × (total_ops float stats' ≡ total_ops float stats + total scripts)
      × (stats'.total_ms ≡ slowest_of float clocks n scripts stats)

  abbrev pub Merges :
      ℕ → List ClientProc → KeySet → Stats float → KeySet → Bench (Stats float × KeySet) → Type 0
  Merges n clients ikeys stats acc (done (stats', keys)) =
      (scripts : List Calls) × (w : AllWork float clocks machine command n clients ikeys scripts)
      × (keys ≡ handed float clocks machine command n clients ikeys scripts w acc)
      × Adds n scripts stats stats'
  Merges n clients ikeys stats acc (failed e) =
      NoneWork float clocks machine command n clients ikeys
  Merges n clients ikeys stats acc panicked = ⊥

  merged-merge :
      (stats s : Stats float) → s.merged ≡ 1 → (merge float stats s).merged ≡ stats.merged + 1
  unfolding merge
  merged-merge stats s e = ground arith

  slowest_of-merged :
      (n : ℕ) (scripts : List Calls) (stats : Stats float)
      → (stats.merged == 0) ≡ false
      → slowest_of float clocks n scripts stats ≡ slowest float clocks n stats.total_ms scripts
  slowest_of-merged n [] stats e = refl
  slowest_of-merged n (calls ∷ scripts) stats e =
      ap
        (λ b.
          if b
          then slowest float clocks (suc n) (span float (clocks n) calls) scripts
          else slowest float clocks n stats.total_ms (calls ∷ scripts))
        e

  merge-slowest :
      (n : ℕ) (calls : Calls) (scripts : List Calls) (stats s : Stats float)
      → s.total_ms ≡ span float (clocks n) calls
      → slowest float clocks (suc n) (merge float stats s).total_ms scripts
        ≡ slowest_of float clocks n (calls ∷ scripts) stats
  unfolding merge
  merge-slowest n calls scripts stats s e = elim (Bool-cases (stats.merged == 0)) [
    | inl z ↦ rw z (ap (λ ms. slowest float clocks (suc n) ms scripts) e)
    | inr z ↦
        rw z (ap (λ ms. slowest float clocks (suc n) (float.max_float stats.total_ms ms) scripts) e)
  ]

  merge-Adds :
      (n : ℕ) (calls : Calls) (scripts : List Calls) (stats s stats' : Stats float)
      → (stats.merged ≡ 0 → total_ops float stats ≡ 0)
      → Tells float (clocks n) calls s
      → Adds (suc n) scripts (merge float stats s) stats'
      → Adds n (calls ∷ scripts) stats stats'
  merge-Adds n calls scripts stats s stats' fresh (one, ops, samples, ms) (merged, added, slow) =
      let merges = merged-merge stats s one in
      let not_fresh : ((merge float stats s).merged == 0) ≡ false = ground (arith, merges) in
      (
        omega (arith, merged, merges),
        omega (arith, added, total_ops-merge float stats s fresh, ops),
        slow
            ∙ slowest_of-merged (suc n) scripts (merge float stats s) not_fresh
            ∙ merge-slowest n calls scripts stats s ms,
      )

  -- what the loop does with the first result
  abbrev merge_then :
      List (YcsbDriver float clocks machine)
      → Stats float
      → KeySet
      → Bench (Option (Stats float × KeySet))
      → Bench (Stats float × KeySet)
  merge_then drivers stats keys r = and_then r (λ result. elim result [
    | none ↦ failed (io (codes "a YCSB driver process failed"))
    | some (s, k) ↦ wait_all float clocks machine drivers (merge float stats s) (extend_keys keys k)
  ])

  add_script :
      (n : ℕ) (client : ClientProc) (clients : List ClientProc) (ikeys : KeySet) (process : Process)
      (calls : Calls) (stats s : Stats float) (acc k : KeySet) (r : Bench (Stats float × KeySet))
      → spawn_ycsb n command ≡ inr process
      → Works process client ikeys calls
      → script (lines process.stdout.pending) ikeys ≡ some (calls, k)
      → (stats.merged ≡ 0 → total_ops float stats ≡ 0)
      → Tells float (clocks n) calls s
      → Merges (suc n) clients ikeys (merge float stats s) (extend_keys acc k) r
      → Merges n (client ∷ clients) ikeys stats acc r
  add_script n client clients ikeys process calls stats s acc k (done (stats', keys)) q
        (l, m, f, a, left) e fresh t (scripts, ws, same, h) =
      (
        calls ∷ scripts,
        ((process, q, (l, m, f, a, (k, e))), ws),
        same,
        merge-Adds n calls scripts stats s stats' fresh t h,
      )
  add_script n client clients ikeys process calls stats s acc k (failed x) q w e fresh t h =
      NoneWork-rest float clocks machine command n client clients ikeys h
  add_script n client clients ikeys process calls stats s acc k panicked q w e fresh t h = h

  none-Works :
      (n : ℕ) (client : ClientProc) (clients : List ClientProc) (ikeys : KeySet) (process : Process)
      → spawn_ycsb n command ≡ inr process
      → ((calls : Calls) → Works process client ikeys calls → ⊥)
      → NoneWork float clocks machine command n (client ∷ clients) ikeys
  none-Works n client clients ikeys process q h [] w = w
  none-Works n client clients ikeys process q h (calls ∷ scripts) ((process', q', w), ws) =
      h calls (subst (λ p. Works p client ikeys calls) (cc (q, q')) w)

  merge_then-Merges :
      (n : ℕ) (client : ClientProc) (clients : List ClientProc) (ikeys : KeySet) (process : Process)
      (drivers : List (YcsbDriver float clocks machine)) (stats : Stats float) (keys : KeySet)
      → spawn_ycsb n command ≡ inr process
      → (stats.merged ≡ 0 → total_ops float stats ≡ 0)
      → ((s : Stats float) (k : KeySet)
          → (s.merged ≡ 0 → total_ops float s ≡ 0)
          → Merges (suc n) clients ikeys s k (wait_all float clocks machine drivers s k))
      → (r : Bench (Option (Stats float × KeySet)))
      → Waits float clocks machine n process client ikeys r
      → Merges n (client ∷ clients) ikeys stats keys (merge_then drivers stats keys r)
  merge_then-Merges n client clients ikeys process drivers stats keys q fresh ih
        (done (some (s, k))) (calls, w, e, t) =
      add_script n client clients ikeys process calls stats s keys k _ q w e fresh t (
        ih (merge float stats s) (extend_keys keys k)
          (λ z. absurd (ground (arith, merged-merge stats s t.0))))
  merge_then-Merges n client clients ikeys process drivers stats keys q fresh ih (done none) h =
      none-Works n client clients ikeys process q h
  merge_then-Merges n client clients ikeys process drivers stats keys q fresh ih (failed e) h =
      none-Works n client clients ikeys process q h
  merge_then-Merges n client clients ikeys process drivers stats keys q fresh ih panicked h = h

  wait_all-Merges :
      (n : ℕ) (clients : List ClientProc) (ikeys : KeySet)
      (drivers : List (YcsbDriver float clocks machine)) (stats : Stats float) (keys : KeySet)
      → AreStarted float clocks machine command n clients ikeys drivers
      → (stats.merged ≡ 0 → total_ops float stats ≡ 0)
      → Merges n clients ikeys stats keys (wait_all float clocks machine drivers stats keys)
  unfolding wait_all
  wait_all-Merges n [] ikeys [] stats keys a fresh =
      ([], tt, refl, (omega arith, omega arith, refl))
  wait_all-Merges n [] ikeys (driver ∷ drivers) stats keys a fresh = absurd a
  wait_all-Merges n (client ∷ clients) ikeys [] stats keys a fresh = absurd a
  wait_all-Merges n (client ∷ clients) ikeys (driver ∷ drivers) stats keys ((process, q, e), a)
        fresh =
      subst
        (λ d.
          Merges n (client ∷ clients) ikeys stats keys
            (merge_then drivers stats keys (wait float clocks machine d)))
        (sym e)
        (merge_then-Merges n client clients ikeys process drivers stats keys q fresh
          (λ s k f. wait_all-Merges (suc n) clients ikeys drivers s k a f) _
          (wait-Waits float clocks machine n process client ikeys))

  pub started-Merges :
      (n : ℕ) (clients : List ClientProc) (ikeys : KeySet)
      (r : Bench (List (YcsbDriver float clocks machine)))
      → Starts float clocks machine command n clients ikeys r
      → Merges n clients ikeys
          (Stats.new float)
          []
          (and_then r (λ drivers. wait_all float clocks machine drivers (Stats.new float) []))
  unfolding Stats.new total_ops Stats.count_samples
  started-Merges n clients ikeys (done drivers) h =
      wait_all-Merges n clients ikeys drivers (Stats.new float) [] h (λ e. refl)
  started-Merges n clients ikeys (failed e) h = h
  started-Merges n clients ikeys panicked h = h
