-- ===== src/Bencher/Feeder/Whole.antt =====
-- What `feeder_thread` of runner/src/bin/bencher/ycsb.rs returns, by the calls of its script.
use my_mad_kv.Prelude.{
  suc, ◌≡◌, ◌⊎◌, refl, ap, sym, ◌∙◌, Bool, true, false, not, ◌&&◌, ◌||◌, leb, inl, inr, Option,
  none, some, arith, length, is_some,
}
use my_mad_kv.Text.{Text, is_empty}
use my_mad_kv.Runner.Ioapi.Reader.{Reader}
use my_mad_kv.Runner.Ioapi.Reading.{at}
use my_mad_kv.Runner.Proc.{ClientProc}
use my_mad_kv.Bencher.Ycsb.{KeySet}
use my_mad_kv.Bencher.Stats.{Float}
use my_mad_kv.Bencher.Feeder.{
  Clock, Feeder, Fed, fed, feed_failed, feed_endless, feeder_loop, Feeding, returned, feeding_on,
  feeder_result, end_feeding, fresh_feeder, feeder_thread,
}
use my_mad_kv.Bencher.Feeder.Script.{Calls, lines, script, serves, after}
use my_mad_kv.Bencher.Feeder.Outcome.{Fails, Comes, Outcome, feeder_loop-Outcome}
use my_mad_kv.Bencher.Feeder.Afterwards.{serves-enough, after-ends}
use my_mad_kv.Bencher.Feeder.Failing.{feeder_loop-Fails}

-- the client's thread runs, and so many responses come in time
abbrev pub answers_all : Calls → ClientProc → Bool
answers_all calls p = is_empty calls || (p.driver_runs && leb (length calls) (length p.coming))

abbrev pub feeds_script : Option (Calls × KeySet) → ClientProc → Bool
feeds_script none client = false
feeds_script (some (calls, keys)) client = answers_all calls client

-- The output does not fail, its lines stand for calls, and the client answers them all.
abbrev pub feeds : Reader → ClientProc → KeySet → Bool
feeds stdout client ikeys =
    not (is_some stdout.failure) && feeds_script (script (lines stdout.pending) ikeys) client

module _ (float : Float) (clock : Clock float) where
  -- The loop fails, or feeds the calls of the script.
  abbrev pub Ways : Reader → ClientProc → KeySet → Fed float clock → Type 0
  Ways stdout client ikeys r =
      ((feeds stdout client ikeys ≡ false) × Fails float clock r)
      ⊎ ((feeds stdout client ikeys ≡ true)
          × ((calls : Calls) × (keys : KeySet) × (stdout.failure ≡ none)
              × (script (lines stdout.pending) ikeys ≡ some (calls, keys))
              × (r
                  ≡ fed (
                      after float clock calls keys
                        (fresh_feeder float clock stdout client ikeys)))))

  Outcome-Ways :
      (t : Text) (client : ClientProc) (ikeys : KeySet) (r : Fed float clock)
      (o : Option (Calls × KeySet))
      → script (lines t) ikeys ≡ o
      → Outcome float clock o (fresh_feeder float clock (at none t) client ikeys) r
      → Ways (at none t) client ikeys r
  unfolding fresh_feeder
  Outcome-Ways t client ikeys r none k h = inl (ap (λ o. feeds_script o client) k, h)
  Outcome-Ways t client ikeys r (some (calls, keys)) k h = by_serves (serves calls client) refl h
    where
      by_serves :
          (b : Bool)
          → serves calls client ≡ b
          → Comes float clock b
              (after float clock calls keys (fresh_feeder float clock (at none t) client ikeys))
              r
          → Ways (at none t) client ikeys r
      by_serves true s q = inr (
        ap (λ o. feeds_script o client) k ∙ sym (serves-enough calls client) ∙ s,
        (calls, keys, refl, k, q),
      )
      by_serves false s q =
          inl (ap (λ o. feeds_script o client) k ∙ sym (serves-enough calls client) ∙ s, q)

  -- the loop of the thread
  abbrev pub thread_loop : Reader → ClientProc → KeySet → Fed float clock
  thread_loop stdout client ikeys =
      feeder_loop float clock (suc (length stdout.pending))
        (fresh_feeder float clock stdout client ikeys)

  pub thread_loop-Ways :
      (failure : Option Text) (t : Text) (client : ClientProc) (ikeys : KeySet)
      → Ways (at failure t) client ikeys (thread_loop (at failure t) client ikeys)
  unfolding fresh_feeder
  thread_loop-Ways none t client ikeys =
      Outcome-Ways t client ikeys _ (script (lines t) ikeys) refl (
        feeder_loop-Outcome float clock (suc (length t)) t ikeys
          (fresh_feeder float clock (at none t) client ikeys) (omega arith))
  thread_loop-Ways (some msg) t client ikeys = inl (
    refl,
    feeder_loop-Fails float clock (suc (length t)) msg t
        (fresh_feeder float clock (at (some msg) t) client ikeys) (omega arith),
  )

  -- the thread returns a result exactly if its calls have been fed
  abbrev pub Returns : Bool → Feeding float clock → Type 0
  Returns b (returned end) = is_some end.result ≡ b
  Returns b feeding_on = ⊥

  Fails-Returns :
      (r : Fed float clock) → Fails float clock r → Returns false (end_feeding float clock r)
  unfolding end_feeding feeder_result
  Fails-Returns (fed f) h = absurd h
  Fails-Returns (feed_failed e f) h = rw h refl
  Fails-Returns feed_endless h = absurd h

  fed-Returns :
      (f : Feeder float clock) → f.ended ≡ true → Returns true (end_feeding float clock (fed f))
  unfolding end_feeding feeder_result
  fed-Returns f h = rw h refl

  -- The feeder ends, whatever the YCSB driver writes and the client does. It returns statistics
  -- and keys exactly if its output does not fail, each call line in it is well formed, no other
  -- line says that a file is missing, and the client answers all the calls in time.
  pub feeder_thread-Returns :
      (stdout : Reader) (client : ClientProc) (ikeys : KeySet)
      → Returns (feeds stdout client ikeys) (feeder_thread float clock stdout client ikeys)
  unfolding feeder_thread
  feeder_thread-Returns stdout client ikeys =
      elim (thread_loop-Ways stdout.failure stdout.pending client ikeys) [
        | inl (b, h) ↦ rw b (Fails-Returns (thread_loop stdout client ikeys) h)
        | inr (b, (calls, keys, e, k, q)) ↦
            rw (b, q)
              (fed-Returns
                (after float clock calls keys (fresh_feeder float clock stdout client ikeys))
                (after-ends float clock calls keys
                  (fresh_feeder float clock stdout client ikeys)).0)
      ]
