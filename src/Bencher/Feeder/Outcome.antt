-- ===== src/Bencher/Feeder/Outcome.antt =====
-- What the loop of the feeder (runner/src/bin/bencher/ycsb.rs) comes to: it feeds the calls of its
-- script, or fails before the end of the output.
use my_mad_kv.Prelude.{
  ℕ, zero, suc, ◌<◌, ◌≡◌, refl, ap, sym, ◌∙◌, Bool, true, false, not, ◌&&◌, ◌⊎◌, Bool-cases, inl,
  inr, Option, none, some, List, [], ◌∷◌, arith, length, if◌then◌else◌,
}
use mathlib.Core.Path.{subst}
use my_mad_kv.Text.{Text, codes, utf8_len, is_empty, trim, starts_with, contains}
use my_mad_kv.Runner.Error.{RunnerError, Result, ok, err, out_of_fuel}
use my_mad_kv.Runner.Ioapi.{KvCall, KvResp}
use my_mad_kv.Runner.Ioapi.Reader.{take_line, read_line}
use my_mad_kv.Runner.Ioapi.Reading.{at}
use my_mad_kv.Runner.Ioapi.Ending.{take_line_total, take_line-cons, length-take_line}
use my_mad_kv.Runner.Proc.{ClientProc, send_call, wait_resp}
use my_mad_kv.Bencher.Ycsb.{KeySet, interpret_ycsb_call}
use my_mad_kv.Bencher.Stats.{Float}
use my_mad_kv.Bencher.Feeder.{
  Clock, Feeder, Fed, fed, feed_failed, feed_endless, record_call, feed_call, feed_other, feed_line,
  feed_a_line, feeder_loop,
}
use my_mad_kv.Bencher.Feeder.Script.{
  Calls, lines, is_missing, cons_call, script, next_client, serves, after,
}
use my_mad_kv.Bencher.Feeder.Lines.{take_line-lines, utf8_len-positive, interpret_ycsb_call-Ends}

pub read_line-at :
    (failure : Option Text) (t line rest : Text)
    → take_line failure t ≡ ok (line, rest)
    → read_line (at failure t) [] ≡ ok (utf8_len line, line, at failure rest)
unfolding read_line
read_line-at failure t line rest h = rw h refl

module _ (float : Float) (clock : Clock float) where
  -- the loop has ended by an error, before the end of the output
  abbrev pub Fails : Fed float clock → Type 0
  Fails (fed f) = ⊥
  Fails (feed_failed e f) = f.ended ≡ false
  Fails feed_endless = ⊥

  -- the loop comes to that feeder, or fails
  abbrev pub Comes : Bool → Feeder float clock → Fed float clock → Type 0
  Comes true g r = r ≡ fed g
  Comes false g r = Fails r

  -- The loop, from a feeder on, comes to what the script tells.
  abbrev pub Outcome : Option (Calls × KeySet) → Feeder float clock → Fed float clock → Type 0
  Outcome none f r = Fails r
  Outcome (some (calls, ikeys)) f r =
      Comes (serves calls f.client) (after float clock calls ikeys f) r

  -- a feeder whose output is a text that does not fail
  abbrev pub over : Text → KeySet → Feeder float clock → Feeder float clock
  over t ikeys f = record f { stdout = at none t; ikeys = ikeys; ended = false }

  after-over :
      (calls : Calls) (ikeys : KeySet) (t : Text) (keys : KeySet) (f : Feeder float clock)
      → after float clock calls ikeys (over t keys f) ≡ after float clock calls ikeys f
  unfolding after record_call
  after-over [] ikeys t keys f = refl
  after-over ((call, op) ∷ calls) ikeys t keys f =
      after-over calls ikeys t keys (record_call float clock op (next_client call f.client) f)

  Outcome-over :
      (o : Option (Calls × KeySet)) (t : Text) (keys : KeySet) (f : Feeder float clock)
      (r : Fed float clock)
      → Outcome o (over t keys f) r
      → Outcome o f r
  Outcome-over none t keys f r = λ h. h
  Outcome-over (some (calls, ikeys)) t keys f r =
      subst (λ g. Comes (serves calls f.client) g r) (after-over calls ikeys t keys f)

  -- a client that answers one call
  abbrev answers : ClientProc → Bool
  answers p = p.driver_runs && not (is_empty p.coming)

  -- the two ways of a call
  abbrev pub CallWays : KvCall → Text → Feeder float clock → Fed float clock → Type 0
  CallWays call op f r =
      ((answers f.client ≡ true)
        × (r ≡ fed (record_call float clock op (next_client call f.client) f)))
      ⊎ ((answers f.client ≡ false)
          × ((e : RunnerError) × (g : Feeder float clock) × (r ≡ feed_failed e g)
              × (g.ended ≡ f.ended)))

  pub feed_call-ways :
      (call : KvCall) (op : Text) (f : Feeder float clock)
      → CallWays call op f (feed_call float clock call op f)
  unfolding feed_call send_call wait_resp
  feed_call-ways call op f = elim (Bool-cases f.client.driver_runs) [
    | inr e ↦ rw e (inr (refl, (_, _, refl, refl)))
    | inl e ↦ by_coming e f.client.coming refl
  ]
    where
      by_coming :
          f.client.driver_runs ≡ true
          → (coming : List KvResp) → f.client.coming ≡ coming
          → CallWays call op f (feed_call float clock call op f)
      by_coming e [] k = rw (e, k) (inr (refl, (_, _, refl, refl)))
      by_coming e (resp ∷ coming) k = rw (e, k) (inl (refl, refl))

  serves-answers :
      (call : KvCall) (op : Text) (calls : Calls) (p : ClientProc)
      → serves ((call, op) ∷ calls) p ≡ (answers p && serves calls (next_client call p))
  unfolding serves
  serves-answers call op calls p = elim (Bool-cases p.driver_runs) [
    | inl e ↦ rw e refl
    | inr e ↦ rw e refl
  ]

  Outcome-cons :
      (call : KvCall) (op : Text) (f : Feeder float clock) (o : Option (Calls × KeySet))
      (r : Fed float clock)
      → answers f.client ≡ true
      → Outcome o (record_call float clock op (next_client call f.client) f) r
      → Outcome (cons_call (call, op) o) f r
  unfolding after record_call
  Outcome-cons call op f none r e h = h
  Outcome-cons call op f (some (calls, ikeys)) r e h =
      subst (λ b. Comes b (after float clock ((call, op) ∷ calls) ikeys f) r)
        (sym (
          serves-answers call op calls f.client
          ∙ ap (λ b. b && serves calls (next_client call f.client)) e))
        h

  Outcome-unserved :
      (call : KvCall) (op : Text) (f : Feeder float clock) (o : Option (Calls × KeySet))
      (r : Fed float clock)
      → answers f.client ≡ false
      → Fails r
      → Outcome (cons_call (call, op) o) f r
  Outcome-unserved call op f none r e h = h
  Outcome-unserved call op f (some (calls, ikeys)) r e h =
      subst (λ b. Comes b (after float clock ((call, op) ∷ calls) ikeys f) r)
        (sym (
          serves-answers call op calls f.client
          ∙ ap (λ b. b && serves calls (next_client call f.client)) e))
        h

  -- the loop behind a line
  abbrev pub then_loop : (Feeder float clock → Fed float clock) → Fed float clock → Fed float clock
  then_loop next (fed f) = let rest = next f in if f.ended then fed f else rest
  then_loop next (feed_failed e f) = feed_failed e f
  then_loop next feed_endless = feed_endless

  -- What the loop comes to behind a line that has been fed.
  abbrev Continues : (Feeder float clock → Fed float clock) → List Text → Text → Type 0
  Continues next rest t =
      (keys : KeySet) (f : Feeder float clock) → Outcome (script rest keys) f (next (over t keys f))

  Outcome-call :
      (call : KvCall) (op : Text) (rest : List Text) (t : Text) (keys : KeySet)
      (f : Feeder float clock) (next : Feeder float clock → Fed float clock)
      → Continues next rest t
      → Outcome
          (cons_call (call, op) (script rest keys))
          f
          (then_loop next (feed_call float clock call op (over t keys f)))
  unfolding record_call
  Outcome-call call op rest t keys f next h = elim (feed_call-ways call op (over t keys f)) [
    | inl (a, e) ↦ rw e (
        Outcome-cons call op f (script rest keys) _ a
          (h keys (record_call float clock op (next_client call f.client) f)))
    | inr (a, (e, g, q, ends)) ↦ rw q (Outcome-unserved call op f (script rest keys) _ a ends)
  ]

  Outcome-other :
      (line : Text) (rest : List Text) (t : Text) (keys : KeySet) (f : Feeder float clock)
      (next : Feeder float clock → Fed float clock)
      → Continues next rest t
      → Outcome
          (if is_missing line then none else script rest keys)
          f
          (then_loop next (feed_other float clock line (over t keys f)))
  unfolding feed_other
  Outcome-other line rest t keys f next h = elim (Bool-cases (starts_with (codes "[") line)) [
    | inl e ↦ rw e (h keys f)
    | inr e ↦ elim (Bool-cases (contains (codes "No such file") line)) [
      | inl k ↦ rw (e, k) refl
      | inr k ↦ rw (e, k) (h keys f)
    ]
  ]

  -- A line that is fed leads to what the script tells of it.
  Outcome-line :
      (line : Text) (rest : List Text) (t : Text) (keys : KeySet) (f : Feeder float clock)
      (next : Feeder float clock → Fed float clock)
      → Continues next rest t
      → Outcome
          (script (line ∷ rest) keys)
          f
          (then_loop next (feed_line float clock line (over t keys f)))
  unfolding feed_line script
  Outcome-line line rest t keys f next h = elim (Bool-cases (is_empty (trim line))) [
    | inl e ↦ rw e (h keys f)
    | inr e ↦ by_call e (interpret_ycsb_call line keys) refl
  ]
    where
      by_call :
          is_empty (trim line) ≡ false
          → (r : Result RunnerError (Option (KvCall × Text) × KeySet))
          → interpret_ycsb_call line keys ≡ r
          → Outcome
              (script (line ∷ rest) keys)
              f
              (then_loop next (feed_line float clock line (over t keys f)))
      by_call e (ok (some (call, op), keys')) k =
          rw (e, k) (Outcome-call call op rest t keys' f next h)
      by_call e (ok (none, keys')) k = rw (e, k) (Outcome-other line rest t keys' f next h)
      by_call e (err x) k = rw (e, k) refl
      by_call e out_of_fuel k = absurd (interpret_ycsb_call-Ends line keys k)

  feed_a_line-line :
      (t line rest : Text) (keys : KeySet) (f : Feeder float clock)
      → take_line none t ≡ ok (line, rest)
      → 0 < length line
      → feed_a_line float clock (over t keys f) ≡ feed_line float clock line (over rest keys f)
  unfolding feed_a_line
  feed_a_line-line t line rest keys f h l =
      rw (read_line-at none t line rest h, utf8_len-positive line l, feed_a_line) refl

  -- one round of the loop on a line
  feeder_loop-line :
      (fuel : ℕ) (c : ℕ) (t line rest : Text) (keys : KeySet) (f : Feeder float clock)
      → take_line none (c ∷ t) ≡ ok (line, rest)
      → feeder_loop float clock (suc fuel) (over (c ∷ t) keys f)
        ≡ then_loop (feeder_loop float clock fuel) (feed_line float clock line (over rest keys f))
  unfolding feeder_loop
  feeder_loop-line fuel c t line rest keys f h =
      ap (then_loop (feeder_loop float clock fuel))
        (feed_a_line-line (c ∷ t) line rest keys f h (take_line-cons none c t line rest h))

  feeder_loop-end :
      (fuel : ℕ) (keys : KeySet) (f : Feeder float clock)
      → feeder_loop float clock (suc fuel) (over [] keys f) ≡ fed (after float clock [] keys f)
  unfolding feeder_loop feed_a_line read_line take_line after utf8_len
  feeder_loop-end fuel keys f = refl

  -- With a round for each character, and one more, the loop comes to what the script tells.
  pub feeder_loop-Outcome :
      (fuel : ℕ) (t : Text) (keys : KeySet) (f : Feeder float clock)
      → length t < fuel
      → Outcome (script (lines t) keys) f (feeder_loop float clock fuel (over t keys f))
  unfolding script lines serves
  feeder_loop-Outcome zero t keys f l = elim l [ ]
  feeder_loop-Outcome (suc fuel) [] keys f l = feeder_loop-end fuel keys f
  feeder_loop-Outcome (suc fuel) (c ∷ t) keys f l =
      let (line, rest, e) = take_line_total (c ∷ t) in
      let shorter : length rest < fuel = omega (
        arith,
        l,
        length-take_line none (c ∷ t) line rest e,
        take_line-cons none c t line rest e,
      ) in
      rw (take_line-lines c t line rest e, feeder_loop-line fuel c t line rest keys f e)
        (Outcome-line line (lines rest) rest keys f (feeder_loop float clock fuel)
          (λ keys' g. feeder_loop-Outcome fuel rest keys' g shorter))
