-- ===== src/Bencher/Launch/Drivers.antt =====
-- One YCSB driver (runner/src/bin/bencher/ycsb.rs), from its start to the end of `wait`.
use my_mad_kv.Prelude.{
  is_some, ℕ, ◌≡◌, ◌⊎◌, refl, ap, sym, ◌∙◌, true, false, not, ◌&&◌, inl, inr, Option, none, some,
}
use my_mad_kv.Text.{Text}
use my_mad_kv.Runner.Error.{RunnerError, Result}
use my_mad_kv.Runner.Ioapi.Reader.{Reader}
use my_mad_kv.Runner.Proc.{ClientProc}
use my_mad_kv.Bencher.Ycsb.{KeySet}
use my_mad_kv.Bencher.Stats.{Float, Stats}
use my_mad_kv.Bencher.Feeder.{Clock, Feeding, returned, feeding_on, feeder_thread}
use my_mad_kv.Bencher.Feeder.Script.{Calls, lines, script}
use my_mad_kv.Bencher.Feeder.Whole.{
  answers_all, feeds, feeds_script, Returns, feeder_thread-Returns,
}
use my_mad_kv.Bencher.Feeder.Delivered.{Tells, Delivers, Delivered, feeder_thread-Delivered}
use my_mad_kv.Bencher.Launch.{
  Machine, Process, Bench, done, failed, panicked, YcsbDriver, joined, wait,
}

-- A driver writes those calls without an error, and a client answers them in time; the feeder's
-- signal comes in time, and the driver can be killed.
abbrev pub Works : Process → ClientProc → KeySet → Calls → Type 0
Works process client ikeys calls =
    (process.late ≡ none)
    × (process.kill_failure ≡ none)
    × (process.stdout.failure ≡ none)
    × (answers_all calls client ≡ true)
    × ((keys : KeySet) × (script (lines process.stdout.pending) ikeys ≡ some (calls, keys)))

Works-feeds :
    (process : Process) (client : ClientProc) (ikeys : KeySet) (calls : Calls)
    → Works process client ikeys calls
    → feeds process.stdout client ikeys ≡ true
Works-feeds process client ikeys calls (l, k, f, a, (keys, s)) =
    ap (λ o. not (is_some o) && feeds_script (script (lines process.stdout.pending) ikeys) client) f
    ∙ ap (λ o. feeds_script o client) s
    ∙ a

feeds-parts :
    (stdout : Reader) (client : ClientProc) (ikeys : KeySet) (calls : Calls) (keys : KeySet)
    → feeds stdout client ikeys ≡ true
    → script (lines stdout.pending) ikeys ≡ some (calls, keys)
    → (stdout.failure ≡ none) × (answers_all calls client ≡ true)
feeds-parts stdout client ikeys calls keys b q = by_failure stdout.failure refl
  where
    by_failure :
        (failure : Option Text)
        → stdout.failure ≡ failure
        → (stdout.failure ≡ none) × (answers_all calls client ≡ true)
    by_failure none e = (
      e,
      sym (
            ap (λ o. not (is_some o) && feeds_script (script (lines stdout.pending) ikeys) client) e
            ∙ ap (λ o. feeds_script o client) q)
          ∙ b,
    )
    by_failure (some msg) e = absurd (
        cc (
          b,
          ap (λ o. not (is_some o) && feeds_script (script (lines stdout.pending) ikeys) client) e,
        ))

module _ (float : Float) (clocks : ℕ → Clock float) (machine : Machine) where
  -- the thread's two results
  abbrev FeederWays :
      ℕ → Process → ClientProc → KeySet → Option (Option (Stats float × KeySet)) → Type 0
  FeederWays n process client ikeys feeder =
      ((feeder ≡ some none) × (feeds process.stdout client ikeys ≡ false))
      ⊎ ((s : Stats float) × (k : KeySet) × (calls : Calls) × (feeder ≡ some (some (s, k)))
          × (feeds process.stdout client ikeys ≡ true)
          × (script (lines process.stdout.pending) ikeys ≡ some (calls, k))
          × Tells float (clocks n) calls s)

  feeder-ways :
      (n : ℕ) (process : Process) (client : ClientProc) (ikeys : KeySet)
      → FeederWays n process client ikeys
          (joined float clocks machine (feeder_thread float (clocks n) process.stdout client ikeys))
  feeder-ways n process client ikeys =
      by_end (feeder_thread float (clocks n) process.stdout client ikeys)
        (feeder_thread-Returns float (clocks n) process.stdout client ikeys)
        (feeder_thread-Delivered float (clocks n) process.stdout client ikeys)
    where
      by_result :
          (o : Option (Stats float × KeySet)) (reported : Option RunnerError)
          (stopped : Result RunnerError ClientProc)
          → is_some o ≡ feeds process.stdout client ikeys
          → Delivers float (clocks n) process.stdout client ikeys reported stopped o
          → FeederWays n process client ikeys (some o)
      by_result none reported stopped r d = inl (refl, sym r)
      by_result (some (s, k)) reported stopped r (calls, e, c, q, t) =
          inr (s, k, calls, refl, sym r, e, t)

      by_end :
          (r : Feeding float (clocks n))
          → Returns float (clocks n) (feeds process.stdout client ikeys) r
          → Delivered float (clocks n) process.stdout client ikeys r
          → FeederWays n process client ikeys (joined float clocks machine r)
      by_end (returned end) r d = by_result end.result end.reported end.stopped r d
      by_end feeding_on r d = absurd r

  -- What waiting for the driver of that number comes to.
  abbrev pub Waits :
      ℕ → Process → ClientProc → KeySet → Bench (Option (Stats float × KeySet)) → Type 0
  Waits n process client ikeys (done (some (s, k))) =
      (calls : Calls) × Works process client ikeys calls
      × (script (lines process.stdout.pending) ikeys ≡ some (calls, k))
      × Tells float (clocks n) calls s
  Waits n process client ikeys (done none) = (calls : Calls) → Works process client ikeys calls → ⊥
  Waits n process client ikeys (failed e) = (calls : Calls) → Works process client ikeys calls → ⊥
  Waits n process client ikeys panicked = ⊥

  abbrev pub started : ℕ → Process → ClientProc → KeySet → YcsbDriver float clocks machine
  started n process client ikeys = record {
    handle = process;
    feeder =
        joined float clocks machine (feeder_thread float (clocks n) process.stdout client ikeys);
  }

  no_late : {A : Type 0} (msg : Text) → ◌≡◌ {A = Option Text} (some msg) none → A
  no_late msg e = absurd (cc e)

  idle :
      (process : Process) (client : ClientProc) (ikeys : KeySet)
      → feeds process.stdout client ikeys ≡ false
      → (calls : Calls) → Works process client ikeys calls
      → ⊥
  idle process client ikeys b calls w = cc (b, Works-feeds process client ikeys calls w)

  waited :
      (n : ℕ) (stdout : Reader) (late failure : Option Text) (client : ClientProc) (ikeys : KeySet)
      (feeder : Option (Option (Stats float × KeySet)))
      → let process : Process = record { stdout = stdout; late = late; kill_failure = failure } in
        FeederWays n process client ikeys feeder
        → Waits n process client ikeys
            (wait float clocks machine (record { handle = process; feeder = feeder }))
  unfolding wait
  waited n stdout (some msg) failure client ikeys feeder h = λ calls w. no_late msg w.0
  waited n stdout none (some msg) client ikeys feeder (inl (e, b)) =
      rw e (λ calls w. no_late msg w.1)
  waited n stdout none (some msg) client ikeys feeder (inr (s, k, calls, e, b, q, t)) =
      rw e (λ calls w. no_late msg w.1)
  waited n stdout none none client ikeys feeder (inl (e, b)) =
      rw e (idle (record { stdout = stdout; late = none; kill_failure = none }) client ikeys b)
  waited n stdout none none client ikeys feeder (inr (s, k, calls, e, b, q, t)) =
      let (f, a) = feeds-parts stdout client ikeys calls k b q in
      rw e (calls, (refl, refl, f, a, (k, q)), q, t)

  pub wait-Waits :
      (n : ℕ) (process : Process) (client : ClientProc) (ikeys : KeySet)
      → Waits n process client ikeys (wait float clocks machine (started n process client ikeys))
  wait-Waits n process client ikeys =
      waited n process.stdout process.late process.kill_failure client ikeys _
        (feeder-ways n process client ikeys)
