-- ===== src/Bencher/Feeder/Delivered.antt =====
-- What the statistics and the client of `feeder_thread` (runner/src/bin/bencher/ycsb.rs) tell of its
-- script.
use my_mad_kv.Prelude.{
  ◌+◌, ◌*◌, ◌≡◌, refl, ap, sym, ◌∙◌, true, false, not, inl, inr, Option, none, some, [], ◌∷◌, arith,
  length, if◌then◌else◌,
}
use mathlib.Core.Path.{subst}
use my_mad_kv.Text.{Text}
use my_mad_kv.Runner.Error.{RunnerError, Result}
use my_mad_kv.Runner.Ioapi.Reader.{Reader}
use my_mad_kv.Runner.Proc.{ClientProc, stop_proc}
use my_mad_kv.Bencher.Ycsb.{KeySet}
use my_mad_kv.Bencher.Stats
use my_mad_kv.Bencher.Stats.{Float, Stats, samples_of, count_samples, total_ops}
use my_mad_kv.Bencher.Feeder.{
  Clock, Feeder, Fed, fed, feed_failed, feed_endless, Feeding, returned, feeding_on, timed,
  feeder_result, end_feeding, fresh_feeder, feeder_thread,
}
use my_mad_kv.Bencher.Feeder.Script.{Calls, lines, script, after}
use my_mad_kv.Bencher.Feeder.Outcome.{Fails}
use my_mad_kv.Bencher.Feeder.Afterwards.{
  count_op, served, after-client, after-ends, total_ops-after, count-after, started-after,
  last_end-after,
}
use my_mad_kv.Bencher.Feeder.Whole.{thread_loop, thread_loop-Ways}

module _ (float : Float) (clock : Clock float) where
  open clock use {Instant, now, millis}

  -- from the start of the first call to the end of the last
  abbrev pub span : Calls → float.F
  span [] = float.zero_float
  span (call ∷ calls) = millis (now 0) (now (2 + 3 * length calls))

  -- the statistics tell of the calls
  abbrev pub Tells : Calls → Stats float → Type 0
  Tells calls stats =
      (stats.merged ≡ 1)
      × (total_ops float stats ≡ length calls)
      × ((op : Text) → length (samples_of float op stats.lat_samples) ≡ count_op op calls)
      × (stats.total_ms ≡ span calls)

  timed-lat_samples :
      (f : Feeder float clock) → (timed float clock f).lat_samples ≡ f.stats.lat_samples
  unfolding timed
  timed-lat_samples f = by_started f.started refl f.last_end refl
    where
      by_started :
          (s : Option Instant)
          → f.started ≡ s
          → (l : Option Instant) → f.last_end ≡ l
          → (timed float clock f).lat_samples ≡ f.stats.lat_samples
      by_started none e l k = rw (e, timed) refl
      by_started (some start) e none k = rw (e, k, timed) refl
      by_started (some start) e (some end) k = rw (e, k, timed) refl

  timed-span :
      (f : Feeder float clock) (start end : Instant)
      → f.started ≡ some start
      → f.last_end ≡ some end
      → (timed float clock f).total_ms ≡ millis start end
  unfolding timed
  timed-span f start end e k = rw (e, k, timed) refl

  timed-none :
      (f : Feeder float clock)
      → f.started ≡ none
      → (timed float clock f).total_ms ≡ f.stats.total_ms
  unfolding timed
  timed-none f e = rw (e, timed) refl

  timed-total_ms :
      (calls : Calls) (keys : KeySet) (f : Feeder float clock)
      → f.started ≡ none
      → f.readings ≡ 0
      → f.stats.total_ms ≡ float.zero_float
      → (timed float clock (after float clock calls keys f)).total_ms ≡ span calls
  unfolding after
  timed-total_ms [] keys f e r z = timed-none (after float clock [] keys f) e ∙ z
  timed-total_ms (call ∷ calls) keys f e r z =
      timed-span (after float clock (call ∷ calls) keys f) _ _
        (started-after float clock (call ∷ calls) keys f ∙ rw (e, r) refl)
        (last_end-after float clock (call ∷ calls) keys f
          ∙ ap (λ n. some (now n)) (omega (arith, r)))

  total_ops-fresh :
      (stdout : Reader) (client : ClientProc) (ikeys : KeySet)
      → total_ops float (fresh_feeder float clock stdout client ikeys).stats ≡ 0
  unfolding fresh_feeder total_ops Stats.new Stats.count_samples
  total_ops-fresh stdout client ikeys = refl

  fresh-count :
      (op : Text) (stdout : Reader) (client : ClientProc) (ikeys : KeySet)
      → length
          (samples_of float op (fresh_feeder float clock stdout client ikeys).stats.lat_samples)
        ≡ 0
  unfolding fresh_feeder Stats.new my_mad_kv.Collections.HashMap.lookup
  fresh-count op stdout client ikeys = refl

  total_ops-kept :
      (s s' : Stats float) → s.lat_samples ≡ s'.lat_samples → total_ops float s ≡ total_ops float s'
  unfolding total_ops
  total_ops-kept s s' e = ap (count_samples float) e

  fresh-total_ms :
      (stdout : Reader) (client : ClientProc) (ikeys : KeySet)
      → ((fresh_feeder float clock stdout client ikeys).started ≡ none)
        × ((fresh_feeder float clock stdout client ikeys).readings ≡ 0)
        × ((fresh_feeder float clock stdout client ikeys).stats.total_ms ≡ float.zero_float)
  unfolding fresh_feeder Stats.new
  fresh-total_ms stdout client ikeys = (refl, refl, refl)

  fresh-client :
      (calls : Calls) (stdout : Reader) (client : ClientProc) (ikeys : KeySet)
      → served calls (fresh_feeder float clock stdout client ikeys).client ≡ served calls client
  unfolding fresh_feeder
  fresh-client calls stdout client ikeys = refl

  after-Tells :
      (calls : Calls) (keys : KeySet) (stdout : Reader) (client : ClientProc) (ikeys : KeySet)
      → Tells calls
          (record (timed float clock
            (after float clock calls keys (fresh_feeder float clock stdout client ikeys))) {
              merged = 1;
            })
  after-Tells calls keys stdout client ikeys =
      let f = fresh_feeder float clock stdout client ikeys in
      let kept = timed-lat_samples (after float clock calls keys f) in
      let (none_started, none_read, zero_ms) = fresh-total_ms stdout client ikeys in
      (
        refl,
        omega (
          arith,
          total_ops-kept
              (record (timed float clock (after float clock calls keys f)) { merged = 1 })
              (after float clock calls keys f).stats kept,
          total_ops-after float clock calls keys f,
          total_ops-fresh stdout client ikeys,
        ),
        λ op. omega (
          arith,
          ap (λ m. length (samples_of float op m)) kept,
          count-after float clock op calls keys f,
          fresh-count op stdout client ikeys,
        ),
        timed-total_ms calls keys f none_started none_read zero_ms,
      )

  -- what the thread returns tells of the calls of its script
  abbrev pub Delivers :
      Reader
      → ClientProc
      → KeySet
      → Option RunnerError
      → Result RunnerError ClientProc
      → Option (Stats float × KeySet)
      → Type 0
  Delivers stdout client ikeys reported stopped none = Unit
  Delivers stdout client ikeys reported stopped (some (stats, keys)) =
      (calls : Calls) × (script (lines stdout.pending) ikeys ≡ some (calls, keys))
      × (stopped ≡ stop_proc (served calls client))
      × (reported ≡ none)
      × Tells calls stats

  abbrev pub Delivered : Reader → ClientProc → KeySet → Feeding float clock → Type 0
  Delivered stdout client ikeys (returned end) =
      Delivers stdout client ikeys end.reported end.stopped end.result
  Delivered stdout client ikeys feeding_on = ⊥

  feeder_result-none :
      (f : Feeder float clock) → f.ended ≡ false → feeder_result float clock f ≡ none
  unfolding feeder_result
  feeder_result-none f h = rw h refl

  feeder_result-some :
      (f : Feeder float clock)
      → f.ended ≡ true
      → feeder_result float clock f ≡ some (record (timed float clock f) { merged = 1 }, f.ikeys)
  unfolding feeder_result
  feeder_result-some f h =
      ap (λ b. if not b then none else some (record (timed float clock f) { merged = 1 }, f.ikeys))
        h

  Fails-Delivered :
      (stdout : Reader) (client : ClientProc) (ikeys : KeySet) (r : Fed float clock)
      → Fails float clock r
      → Delivered stdout client ikeys (end_feeding float clock r)
  unfolding end_feeding
  Fails-Delivered stdout client ikeys (fed f) h = absurd h
  Fails-Delivered stdout client ikeys (feed_failed e f) h =
      subst (Delivers stdout client ikeys _ _) (sym (feeder_result-none f h)) tt
  Fails-Delivered stdout client ikeys feed_endless h = absurd h

  fed-Delivered :
      (stdout : Reader) (client : ClientProc) (ikeys : KeySet) (calls : Calls) (keys : KeySet)
      (f : Feeder float clock)
      → script (lines stdout.pending) ikeys ≡ some (calls, keys)
      → f.ended ≡ true
      → f.ikeys ≡ keys
      → f.client ≡ served calls client
      → Tells calls (record (timed float clock f) { merged = 1 })
      → Delivered stdout client ikeys (end_feeding float clock (fed f))
  unfolding end_feeding
  fed-Delivered stdout client ikeys calls keys f k e i c h =
      subst (Delivers stdout client ikeys none (stop_proc f.client)) (sym (feeder_result-some f e))
        (calls, k ∙ ap (λ x. some (calls, x)) (sym i), ap stop_proc c, refl, h)

  -- What the feeder returns on success tells of the calls that its output stands for: the client
  -- has been given these calls, in this order, and the call to stop; so many operations are
  -- recorded, each under its name, as one feeder; the total time is from the first call's start to
  -- the last call's end, and the keys are those that the calls insert.
  pub feeder_thread-Delivered :
      (stdout : Reader) (client : ClientProc) (ikeys : KeySet)
      → Delivered stdout client ikeys (feeder_thread float clock stdout client ikeys)
  unfolding feeder_thread
  feeder_thread-Delivered stdout client ikeys =
      elim (thread_loop-Ways float clock stdout.failure stdout.pending client ikeys) [
        | inl (b, h) ↦
            Fails-Delivered stdout client ikeys (thread_loop float clock stdout client ikeys) h
        | inr (b, (calls, keys, e, k, q)) ↦
            let f = fresh_feeder float clock stdout client ikeys in
            let ends = after-ends float clock calls keys f in
            subst (λ r. Delivered stdout client ikeys (end_feeding float clock r)) (sym q)
              (fed-Delivered stdout client ikeys calls keys (after float clock calls keys f) k
                ends.0 ends.1
                (after-client float clock calls keys f ∙ fresh-client calls stdout client ikeys)
                (after-Tells calls keys stdout client ikeys))
      ]
