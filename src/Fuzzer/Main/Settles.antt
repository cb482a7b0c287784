-- ===== src/Fuzzer/Main/Settles.antt =====
-- `main` of runner/src/bin/fuzzer/main.rs comes to a verdict, and reports a failed check for a
-- reason.
use my_mad_kv.Prelude.{ℕ, ◌<◌, none, List}
use my_mad_kv.Text.{Text}
use my_mad_kv.Fuzzer.Stats
use my_mad_kv.Fuzzer.Outside.{Rng, Bits, Clients}
use my_mad_kv.Fuzzer.Loop.{FuzzState, tested}
use my_mad_kv.Fuzzer.Loop.NoAlarm.{Alarm}
use my_mad_kv.Fuzzer.Main.{
  Main, judged, main_failed, main_panicked, main_stuck, test_passed, test_unfair, check_failed,
}

module _ (rng : Rng) (bits : Bits) (clients : Clients) (draw_fuel total_ops n : ℕ)
    (some_client : 0 < n) (keys : List (List Text)) (s : FuzzState rng bits clients) where
  -- `main` comes to a verdict or an error; a failed check is an alarm of its test.
  abbrev pub Settles : Main → Type 0
  Settles (judged check_failed) =
      Alarm rng bits clients draw_fuel total_ops n some_client keys s (tested none)
  Settles (judged test_passed) = Unit
  Settles (judged test_unfair) = Unit
  Settles (main_failed e) = Unit
  Settles main_panicked = ⊥
  Settles main_stuck = ⊥
