-- ===== src/Bencher/Feeder/Failing.antt =====
-- The loop of the feeder (runner/src/bin/bencher/ycsb.rs) on an output that fails: it fails too.
use my_mad_kv.Prelude.{
  ℕ, zero, suc, ◌<◌, ◌≡◌, refl, ap, sym, ◌∙◌, false, Bool-cases, inl, inr, Option, none, some, [],
  ◌∷◌, arith, length, if◌then◌else◌,
}
use mathlib.Core.Path.{subst}
use my_mad_kv.Text.{Text, codes, is_empty, trim, starts_with, contains}
use my_mad_kv.Runner.Error.{RunnerError, from, ForeignError, Result, ok, err, out_of_fuel}
use my_mad_kv.Runner.Ioapi.{KvCall}
use my_mad_kv.Runner.Ioapi.Reader.{take_line, read_line}
use my_mad_kv.Runner.Ioapi.Reading.{at}
use my_mad_kv.Runner.Ioapi.Ending.{take_line-ne_out_of_fuel, take_line-cons, length-take_line}
use my_mad_kv.Bencher.Ycsb.{KeySet, interpret_ycsb_call}
use my_mad_kv.Bencher.Stats.{Float}
use my_mad_kv.Bencher.Feeder.{
  Clock, Feeder, Fed, fed, feed_failed, feed_endless, record_call, feed_call, feed_other, feed_line,
  feed_a_line, feeder_loop,
}
use my_mad_kv.Bencher.Feeder.Lines.{utf8_len-positive, interpret_ycsb_call-Ends}
use my_mad_kv.Bencher.Feeder.Outcome.{read_line-at, Fails, then_loop, feed_call-ways}

module _ (float : Float) (clock : Clock float) where
  -- a line is fed without a change of the output or of the flag
  abbrev Keeps : Feeder float clock → Fed float clock → Type 0
  Keeps f (fed g) = (g.stdout ≡ f.stdout) × (g.ended ≡ f.ended)
  Keeps f (feed_failed e g) = g.ended ≡ f.ended
  Keeps f feed_endless = ⊥

  feed_call-Keeps :
      (call : KvCall) (op : Text) (f : Feeder float clock)
      → Keeps f (feed_call float clock call op f)
  unfolding record_call
  feed_call-Keeps call op f = elim (feed_call-ways float clock call op f) [
    | inl (a, e) ↦ rw e (refl, refl)
    | inr (a, (e, g, q, ends)) ↦ rw q ends
  ]

  feed_other-Keeps :
      (line : Text) (f : Feeder float clock) → Keeps f (feed_other float clock line f)
  unfolding feed_other
  feed_other-Keeps line f = elim (Bool-cases (starts_with (codes "[") line)) [
    | inl e ↦ rw e (refl, refl)
    | inr e ↦ elim (Bool-cases (contains (codes "No such file") line)) [
      | inl k ↦ rw (e, k) refl
      | inr k ↦ rw (e, k) (refl, refl)
    ]
  ]

  feed_line-Keeps : (line : Text) (f : Feeder float clock) → Keeps f (feed_line float clock line f)
  unfolding feed_line
  feed_line-Keeps line f = elim (Bool-cases (is_empty (trim line))) [
    | inl e ↦ rw e (refl, refl)
    | inr e ↦ by_call e (interpret_ycsb_call line f.ikeys) refl
  ]
    where
      by_call :
          is_empty (trim line) ≡ false
          → (r : Result RunnerError (Option (KvCall × Text) × KeySet))
          → interpret_ycsb_call line f.ikeys ≡ r
          → Keeps f (feed_line float clock line f)
      by_call e (ok (some (call, op), keys)) k =
          rw (e, k) (feed_call-Keeps call op (record f { ikeys = keys }))
      by_call e (ok (none, keys)) k = rw (e, k) (feed_other-Keeps line (record f { ikeys = keys }))
      by_call e (err x) k = rw (e, k) refl
      by_call e out_of_fuel k = absurd (interpret_ycsb_call-Ends line f.ikeys k)

  -- a feeder whose output is a text behind which it fails
  abbrev pub failing : Text → Text → Feeder float clock → Feeder float clock
  failing msg t f = record f { stdout = at (some msg) t; ended = false }

  feed_a_line-failing :
      (msg t line rest : Text) (f : Feeder float clock)
      → take_line (some msg) t ≡ ok (line, rest)
      → 0 < length line
      → feed_a_line float clock (failing msg t f) ≡ feed_line float clock line (failing msg rest f)
  unfolding feed_a_line
  feed_a_line-failing msg t line rest f h l =
      rw (read_line-at (some msg) t line rest h, utf8_len-positive line l, feed_a_line) refl

  read_line-err :
      (msg t : Text) {x : ForeignError}
      → take_line (some msg) t ≡ err x
      → read_line (at (some msg) t) [] ≡ err x
  unfolding read_line
  read_line-err msg t h = rw h refl

  feed_a_line-err :
      (msg t : Text) (f : Feeder float clock) {x : ForeignError}
      → take_line (some msg) t ≡ err x
      → feed_a_line float clock (failing msg t f) ≡ feed_failed (from x) (failing msg t f)
  unfolding feed_a_line
  feed_a_line-err msg t f h = rw (read_line-err msg t h, feed_a_line) refl

  then_Fails :
      (fuel : ℕ) (msg t : Text) (f : Feeder float clock) (r : Fed float clock)
      → Keeps (failing msg t f) r
      → ((g : Feeder float clock)
          → Fails float clock (feeder_loop float clock fuel (failing msg t g)))
      → Fails float clock (then_loop float clock (feeder_loop float clock fuel) r)
  then_Fails fuel msg t f (fed g) h ih =
      let same : g ≡ failing msg t g =
        ap (λ stdout. record g { stdout = stdout }) h.0
        ∙ ap (λ ended. record g { stdout = at (some msg) t; ended = ended }) h.1 in
      let goes_on : Fails float clock (feeder_loop float clock fuel g) =
        subst (λ x. Fails float clock (feeder_loop float clock fuel x)) (sym same) (ih g) in
      subst (λ b. Fails float clock (if b then fed g else feeder_loop float clock fuel g)) (sym h.1)
        goes_on
  then_Fails fuel msg t f (feed_failed e g) h ih = h
  then_Fails fuel msg t f feed_endless h ih = h

  -- With a round for each character, and one more, the loop over an output that fails ends by an
  -- error.
  pub feeder_loop-Fails :
      (fuel : ℕ) (msg t : Text) (f : Feeder float clock)
      → length t < fuel
      → Fails float clock (feeder_loop float clock fuel (failing msg t f))
  unfolding feeder_loop
  feeder_loop-Fails zero msg t f l = elim l [ ]
  feeder_loop-Fails (suc fuel) msg [] f l =
      unfold feed_a_line in unfold read_line in unfold take_line in refl
  feeder_loop-Fails (suc fuel) msg (c ∷ t) f l =
      by_line (take_line (some msg) (c ∷ t)) refl (λ rest g. feeder_loop-Fails fuel msg rest g)
    where
      by_line :
          (r : Result ForeignError (Text × Text))
          → take_line (some msg) (c ∷ t) ≡ r
          → ((rest : Text) (g : Feeder float clock)
              → length rest < fuel
              → Fails float clock (feeder_loop float clock fuel (failing msg rest g)))
          → Fails float clock (feeder_loop float clock (suc fuel) (failing msg (c ∷ t) f))
      by_line (ok (line, rest)) e ih =
          subst (λ r. Fails float clock (then_loop float clock (feeder_loop float clock fuel) r))
            (sym (
              feed_a_line-failing msg (c ∷ t) line rest f e
                (take_line-cons (some msg) c t line rest e)))
            (then_Fails fuel msg rest f (feed_line float clock line (failing msg rest f))
              (feed_line-Keeps line (failing msg rest f))
              (λ g. ih rest g (
                omega (
                  arith,
                  l,
                  length-take_line (some msg) (c ∷ t) line rest e,
                  take_line-cons (some msg) c t line rest e,
                ))))
      by_line (err x) e ih =
          subst (λ r. Fails float clock (then_loop float clock (feeder_loop float clock fuel) r))
            (sym (feed_a_line-err msg (c ∷ t) f e)) refl
      by_line out_of_fuel e ih = absurd (take_line-ne_out_of_fuel (some msg) (c ∷ t) e)
