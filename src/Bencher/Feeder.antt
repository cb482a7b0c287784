-- ===== src/Bencher/Feeder.antt =====
-- `feed_a_line` and `feeder_thread` of runner/src/bin/bencher/ycsb.rs: the lines that the YCSB
-- driver writes, translated and fed to a client. The output of the driver is a reader, and the
-- clock is a sequence of readings.
pub mod Script
pub mod Lines
pub mod Outcome
pub mod Afterwards
pub mod Failing
pub mod Whole
pub mod Delivered
pub mod Keys
use my_mad_kv.Prelude.{
  ℕ, zero, suc, ◌+◌, Bool, true, false, not, ◌&&◌, Option, none, some, List, [], ◌∷◌, ◌++◌, length,
  ◌==◌, if◌then◌else◌,
}
use my_mad_kv.Text.{Text, codes, is_empty, trim, starts_with, contains}
use my_mad_kv.Runner.Error.{RunnerError, io, from, Result, ok, err, out_of_fuel}
use my_mad_kv.Runner.Ioapi.{KvCall}
use my_mad_kv.Runner.Ioapi.Reader.{Reader, read_line}
use my_mad_kv.Runner.Proc.{ClientProc, send_call, wait_resp, stop_proc, is_chan}
use my_mad_kv.Bencher.Ycsb.{KeySet, interpret_ycsb_call}
use my_mad_kv.Bencher.Stats
use my_mad_kv.Bencher.Stats.{Float, Stats, record_op}

-- What the code uses of `Instant`: the reading of each number, and how long it is from one to
-- another, as `as_micros() as f64` and as `as_secs_f64() * 1000.0`.
pub record Clock (float : Float) : Type 1 where
  pub Instant : Type 0
  pub now : ℕ → Instant
  pub micros : Instant → Instant → float.F
  pub millis : Instant → Instant → float.F

module _ (float : Float) (clock : Clock float) where
  open clock use {Instant, now, micros, millis}

  -- What the thread has: the driver's output, the client, the keys inserted, the statistics, its
  -- flag and its two instants, and how often it has read the clock.
  pub record Feeder : Type 0 where
    pub stdout : Reader
    pub client : ClientProc
    pub ikeys : KeySet
    pub stats : Stats float
    pub ended : Bool
    pub started : Option Instant
    pub last_end : Option Instant
    pub readings : ℕ

  -- How a line ends: with `Ok(())`, with an error, or not at all.
  pub data Fed : Type 0 where
    fed : Feeder → Fed
    feed_failed : RunnerError → Feeder → Fed
    feed_endless : Fed

  -- the instants and the statistics, behind the response
  unfoldable pub record_call : Text → ClientProc → Feeder → Feeder
  record_call op client f = record f {
    client = client;
    stats = record_op float op (micros (now f.readings) (now (suc f.readings))) f.stats;
    started = elim f.started [ none ↦ some (now f.readings) | some start ↦ some start ];
    last_end = some (now (2 + f.readings));
    readings = 3 + f.readings;
  }

  -- the arm of a call
  unfoldable pub feed_call : KvCall → Text → Feeder → Fed
  unfolding record_call
  feed_call call op f = elim (send_call call f.client) [
    | ok called ↦ elim (wait_resp called) [
      | ok (resp, client) ↦ fed (record_call op client f)
      | err e ↦ feed_failed e (record f { client = called; readings = suc f.readings })
      | out_of_fuel ↦ feed_endless
    ]
    | err e ↦ feed_failed e (record f { readings = suc f.readings })
    | out_of_fuel ↦ feed_endless
  ]

  -- the arms of a line that is not a call
  unfoldable pub feed_other : Text → Feeder → Fed
  feed_other line f =
      if starts_with (codes "[") line
      then fed f
      else if contains (codes "No such file") line
      then feed_failed (io line) f
      else fed f

  -- a line that has been read
  unfoldable pub feed_line : Text → Feeder → Fed
  unfolding feed_call feed_other
  feed_line line f =
      if is_empty (trim line) then fed f else elim (interpret_ycsb_call line f.ikeys) [
        | ok (some (call, op), ikeys) ↦ feed_call call op (record f { ikeys = ikeys })
        | ok (none, ikeys) ↦ feed_other line (record f { ikeys = ikeys })
        | err e ↦ feed_failed e f
        | out_of_fuel ↦ feed_endless
      ]

  unfoldable pub feed_a_line : Feeder → Fed
  unfolding feed_line
  feed_a_line f = elim (read_line f.stdout []) [
    | ok (size, line, stdout) ↦
        if size == 0
        then fed (record f { stdout = stdout; ended = true })
        else feed_line line (record f { stdout = stdout })
    | err e ↦ feed_failed (from e) f
    | out_of_fuel ↦ feed_endless
  ]

  unfoldable pub feeder_loop : ℕ → Feeder → Fed
  unfolding feed_a_line
  feeder_loop zero f = feed_endless
  feeder_loop (suc fuel) f = elim (feed_a_line f) [
    | fed f' ↦ let rest = feeder_loop fuel f' in if f'.ended then fed f' else rest
    | feed_failed e f' ↦ feed_failed e f'
    | feed_endless ↦ feed_endless
  ]

  -- What the thread leaves: the error that it reports, how the client stops, and what the thread
  -- returns, before which it sends its signal.
  pub record Returned : Type 0 where
    pub reported : Option RunnerError
    pub stopped : Result RunnerError ClientProc
    pub result : Option (Stats float × KeySet)

  -- How the thread ends, if it does.
  pub data Feeding : Type 0 where
    returned : Returned → Feeding
    feeding_on : Feeding

  -- the total time, from the first call to the end of the last
  unfoldable pub timed : Feeder → Stats float
  timed f = elim f.started [
    | none ↦ f.stats
    | some start ↦ elim f.last_end [
      | none ↦ f.stats
      | some end ↦ record f.stats { total_ms = millis start end }
    ]
  ]

  unfoldable pub feeder_result : Feeder → Option (Stats float × KeySet)
  unfolding timed
  feeder_result f = if not f.ended then none else some (record (timed f) { merged = 1 }, f.ikeys)

  -- the thread behind its loop
  unfoldable pub end_feeding : Fed → Feeding
  unfolding feeder_result
  end_feeding (fed f) =
      returned (record { reported = none; stopped = stop_proc f.client; result = feeder_result f })
  end_feeding (feed_failed e f) = returned (record {
    reported = if not (is_chan e) then some e else none;
    stopped = stop_proc f.client;
    result = feeder_result f;
  })
  end_feeding feed_endless = feeding_on

  unfoldable pub fresh_feeder : Reader → ClientProc → KeySet → Feeder
  fresh_feeder stdout client ikeys = record {
    stdout = stdout;
    client = client;
    ikeys = ikeys;
    stats = Stats.new float;
    ended = false;
    started = none;
    last_end = none;
    readings = 0;
  }

  -- with a round of fuel for each character that the driver writes, and one more
  unfoldable pub feeder_thread : Reader → ClientProc → KeySet → Feeding
  unfolding feeder_loop end_feeding fresh_feeder
  feeder_thread stdout client ikeys =
      end_feeding (feeder_loop (suc (length stdout.pending)) (fresh_feeder stdout client ikeys))
