-- ===== src/Bencher/Tests.antt =====
-- The theorems about the benchmark at concrete inputs.
use my_mad_kv.Prelude.{
  none, some, inr, ◌⊎◌, ◌↔◌, ℕ, ◌+◌, ◌-◌, ◌≡◌, refl, min, true, false, [], ◌∷◌, arith, leb, length,
}
use my_mad_kv.Text.{Text, codes}
use my_mad_kv.Collections.SortedMap.{IsSorted}
use my_mad_kv.Bencher.Ycsb.{KeySet, keys_from, scan_end}
use my_mad_kv.Bencher.Ycsb.ScanEnd.{count_upto, scan_end-count_upto}
use my_mad_kv.Bencher.Stats.{Float, Stats, total_ops, merge, latency_stats}
use my_mad_kv.Bencher.Stats.Merging.{total_ops-merge}
use my_mad_kv.Bencher.Stats.Latency.{Describes, latency_stats-Describes}
use my_mad_kv.Bencher.Feeder.{Clock, feeder_thread}
use my_mad_kv.Bencher.Feeder.Whole.{feeds, Returns, feeder_thread-Returns}
use my_mad_kv.Bencher.Feeder.Delivered.{Delivered, feeder_thread-Delivered}
use my_mad_kv.Bencher.Feeder.Keys.{HandsOn, feeder_thread-HandsOn}
use my_mad_kv.Bencher.Launch.{
  Machine, Args, panicked, workload_valid, ycsb_profile, ycsb_command, ycsb_bench, bench_main,
}
use my_mad_kv.Bencher.Launch.Panics.{bench_main-panicked_iff}
use my_mad_kv.Bencher.Launch.Measures.{Measured, ycsb_bench-Measured}
use my_mad_kv.Bencher.Launch.Main.{Reports, bench_main-Reports}
use my_mad_kv.Runner.Ioapi.{put_resp, get_resp, stop_resp}
use my_mad_kv.Runner.Ioapi.Reader.{Reader}
use my_mad_kv.Runner.Proc.{ClientProc}

leb_total : (a b : ℕ) → leb a b ≡ false → leb b a ≡ true
leb_total a b h = ground arith

leb_trans : (a b c : ℕ) → leb a b ≡ true → leb b c ≡ true → leb a c ≡ true
leb_trans a b c h k = ground arith

-- whole microseconds
abbrev whole : Float
whole = record {
  F = ℕ;
  zero_float = 0;
  add = λ a b. a + b;
  div = λ a n. a;
  max_float = λ a b. a + b - min a b;
  le = leb;
  ceil_99 = λ n. n;
  le_total = leb_total;
  le_trans = leb_trans;
}

abbrev two_stats : Stats whole
two_stats = record {
  merged = 1;
  total_ms = 5;
  lat_samples = (codes "READ", 3 ∷ 1 ∷ []) ∷ (codes "SCAN", 4 ∷ []) ∷ [];
}

total_ops-merge_example :
    total_ops whole (merge whole two_stats two_stats)
    ≡ total_ops whole two_stats + total_ops whole two_stats
total_ops-merge_example = total_ops-merge whole two_stats two_stats (λ e. absurd (omega (arith, e)))

latency_stats-Describes_example :
    Describes whole (3 ∷ 1 ∷ 2 ∷ []) (latency_stats whole (3 ∷ 1 ∷ 2 ∷ []))
latency_stats-Describes_example = latency_stats-Describes whole (3 ∷ 1 ∷ 2 ∷ [])

abbrev inserted : KeySet
inserted = (codes "user_b", tt) ∷ (codes "user_c", tt) ∷ []

inserted-IsSorted : IsSorted ((codes "user_a", tt) ∷ inserted)
unfolding my_mad_kv.Text.text_ltb my_mad_kv.Text.text_compare
inserted-IsSorted = ((refl, (refl, tt)), ((refl, tt), (tt, tt)))

scan_end-count_upto_example :
    count_upto
      (scan_end (codes "user_b") 1 (codes "user_a") inserted)
      (keys_from (codes "user_b") ((codes "user_a", tt) ∷ inserted))
    ≡ min 1 (length (keys_from (codes "user_b") ((codes "user_a", tt) ∷ inserted)))
scan_end-count_upto_example =
    scan_end-count_upto (codes "user_b") 1 (codes "user_a") inserted inserted-IsSorted (omega arith)
      (omega arith)

-- a clock that ticks at each reading
abbrev ticking : Clock whole
ticking = record { Instant = ℕ; now = λ n. n; micros = λ a b. b - a; millis = λ a b. b - a }

-- an output of two calls, and a report behind them
abbrev output : Reader
output = record {
  pending =
      codes
        "INSERT usertable user1 [ field0=x ]\nREAD usertable user1 [ <all fields>]\n[OVERALL], RunTime(ms), 12\n";
  failure = none;
}

-- a client that answers two calls and the call to stop
abbrev answering : ClientProc
answering = record {
  sent = [];
  driver_runs = true;
  coming =
      put_resp (codes "usertable_user1") false
      ∷ get_resp (codes "usertable_user1") none
      ∷ stop_resp
      ∷ [];
  timeout_msg = codes "timed out waiting on channel";
  kill_failure = none;
}

feeder_thread-Returns_example :
    Returns whole ticking
      (feeds output answering [])
      (feeder_thread whole ticking output answering [])
feeder_thread-Returns_example = feeder_thread-Returns whole ticking output answering []

feeder_thread-Delivered_example :
    Delivered whole ticking output answering [] (feeder_thread whole ticking output answering [])
feeder_thread-Delivered_example = feeder_thread-Delivered whole ticking output answering []

feeder_thread-HandsOn_example :
    HandsOn whole ticking [] answering (feeder_thread whole ticking output answering [])
feeder_thread-HandsOn_example = feeder_thread-HandsOn whole ticking output answering [] tt

-- each driver writes that output, and each client answers it
abbrev machine : Machine
machine = record {
  spawn_ycsb = λ n command. inr (record { stdout = output; late = none; kill_failure = none });
  spawn_client = λ n just_args. inr answering;
}

abbrev two_clients : Args
two_clients = record {
  num_clis = 2;
  num_ops = 2;
  workload = b'a';
  client_just_args = codes "client" ∷ [];
}

bench_main-panicked_iff_example :
    (bench_main whole (λ n. ticking) machine two_clients ≡ panicked)
    ↔ ((two_clients.num_clis ≡ 0) ⊎ (workload_valid two_clients.workload ≡ false))
bench_main-panicked_iff_example = bench_main-panicked_iff whole (λ n. ticking) machine two_clients

abbrev workload_a : Text
workload_a = codes "ycsb/workloads/workloada"

profile_a : ycsb_profile two_clients.workload ≡ some workload_a
unfolding ycsb_profile
profile_a = refl

ycsb_bench-Measured_example :
    Measured whole
      (λ n. ticking)
      machine
      (ycsb_command workload_a 2 true)
      0
      (answering ∷ answering ∷ [])
      []
      (ycsb_bench whole (λ n. ticking) machine 0 two_clients (answering ∷ answering ∷ []) true [])
ycsb_bench-Measured_example =
    ycsb_bench-Measured whole (λ n. ticking) machine 0 two_clients workload_a
      (answering ∷ answering ∷ []) true [] profile_a

bench_main-Reports_example :
    Reports whole
      (λ n. ticking)
      machine
      two_clients
      workload_a
      (bench_main whole (λ n. ticking) machine two_clients)
bench_main-Reports_example =
    bench_main-Reports whole (λ n. ticking) machine two_clients workload_a (λ e. absurd (cc e))
      profile_a
