-- ===== src/Fuzzer/Loop.antt =====
-- `fuzz_test` of runner/src/bin/fuzzer/main.rs. The printing is left out. The counters do not wrap:
-- a run takes two rounds for each operation at most.
pub mod Trace
pub mod Rounds
pub mod Safe
pub mod Ends
pub mod Whole
pub mod Harvests
pub mod Passed
pub mod Protocol
pub mod Sound
pub mod Breaks
pub mod Alarms
pub mod Flights
pub mod Flying
pub mod Liveness
pub mod NoAlarm
use my_mad_kv.Prelude.{
  ℕ, zero, suc, ◌+◌, ◌*◌, ◌^◌, ◌%◌, ◌/◌, Bool, true, false, Option, none, some, List, [], ◌∷◌,
  length, set, get_elem?, replicate, ltb, ◌==◌, if◌then◌else◌,
}
use my_mad_kv.Text.{Text}
use my_mad_kv.Runner.Error.{RunnerError, Result, ok, err, out_of_fuel}
use my_mad_kv.Runner.Ioapi.{KvCall, KvResp, stop_resp, update_info}
use my_mad_kv.Fuzzer.History
use my_mad_kv.Fuzzer.History.{History, Applied, applied, panicked}
use my_mad_kv.Fuzzer.Stats.{Stats}
use my_mad_kv.Fuzzer.Outside.{Rng, Bits, Clients}
use my_mad_kv.Fuzzer.Random
use my_mad_kv.Fuzzer.Random.{Drawn, drawn}

-- `(start_ts, put_value)`
abbrev pub Memo : Type 0
Memo = ℕ × Option (Text × Option Text)

abbrev pub no_memo : Memo
no_memo = (0, none)

-- the variables of the loop
pub record FuzzState (rng : Rng) (bits : Bits) (clients : Clients) : Type 0 where
  pub flying : bits.BitVec
  pub timestamp : ℕ
  pub call_memo : List Memo
  pub history : History
  pub ops_called : ℕ
  pub ops_waited : ℕ
  pub source : rng.Source
  pub procs : clients.Procs
  pub stats : Stats

-- How a round ends: the loop goes on, it is left with `passed` false, it returns an error, it
-- panics, or it does not end: no client with the wanted status is drawn within the fuel, or a
-- client process does not return.
pub data Round (S : Type 0) : Type 0 where
  next : S → Round S
  broken : S → Round S
  failed : RunnerError → Round S
  crashed : Round S
  stuck : Round S

-- What `apply_update` says of an update, if there is one: whether the test goes on.
pub data Judged : Type 0 where
  fine : History → Judged
  violation : History → Judged
  index_panic : Judged

-- the `match` on `apply_update`
unfoldable pub judge_applied : Applied → Judged
judge_applied (applied h none) = fine h
judge_applied (applied h (some failed_check)) = violation h
judge_applied panicked = index_panic

-- `add_to_queue`, and `apply_update` if the call was an update
unfoldable pub judge : ℕ → Memo → ℕ → KvResp → History → Judged
unfolding judge_applied
judge cidx (ts_call, none) ts_resp resp h = fine (History.add_to_queue ts_call ts_resp resp h)
judge cidx (ts_call, some (key, value)) ts_resp resp h = judge_applied (
    History.apply_update cidx ts_call ts_resp key value
      (History.add_to_queue ts_call ts_resp resp h))

module _ (rng : Rng) (bits : Bits) (clients : Clients) (draw_fuel total_ops : ℕ) where
  -- the branch that makes a new call
  unfoldable pub make_call :
      List (List Text) → FuzzState rng bits clients → Round (FuzzState rng bits clients)
  make_call keys s = elim (Random.gen_rand_client rng bits draw_fuel s.flying false s.source) [
    | Drawn.panicked ↦ crashed
    | Drawn.out_of_fuel ↦ stuck
    | drawn cidx s1 ↦ elim (get_elem? keys cidx) [
      | none ↦ crashed
      | some cli_keys ↦ elim (Random.gen_rand_kvcall rng cli_keys s.stats cidx s1) [
        | Drawn.panicked ↦ crashed
        | Drawn.out_of_fuel ↦ stuck
        | drawn (call, stats') s2 ↦ elim (get_elem? s.call_memo cidx) [
          | none ↦ crashed
          | some old ↦ elim (clients.send_call cidx call s.procs) [
            | err e ↦ failed e
            | out_of_fuel ↦ stuck
            | ok procs' ↦ next (record s {
              flying = bits.set s.flying cidx true;
              call_memo = set s.call_memo cidx (s.timestamp, update_info call);
              ops_called = s.ops_called + 1;
              source = s2;
              procs = procs';
              stats = stats';
            })
          ]
        ]
      ]
    ]
  ]

  -- The end of a round that has judged a response. The progress line divides by a hundredth of
  -- the operations.
  unfoldable pub finish_wait :
      ℕ → FuzzState rng bits clients → Judged → Round (FuzzState rng bits clients)
  finish_wait cidx s (violation h) = broken (record s { history = h })
  finish_wait cidx s index_panic = crashed
  finish_wait cidx s (fine h) =
      if total_ops / 100 == 0
      then crashed
      else next (record s {
        flying = bits.set s.flying cidx false;
        history = h;
        ops_waited = s.ops_waited + 1;
      })

  abbrev pub is_stop_resp : KvResp → Bool
  is_stop_resp stop_resp = true
  is_stop_resp _ = false

  -- the branch that harvests a response
  unfoldable pub harvest : FuzzState rng bits clients → Round (FuzzState rng bits clients)
  unfolding finish_wait judge
  harvest s = elim (Random.gen_rand_client rng bits draw_fuel s.flying true s.source) [
    | Drawn.panicked ↦ crashed
    | Drawn.out_of_fuel ↦ stuck
    | drawn cidx s1 ↦ elim (clients.wait_resp cidx s.procs) [
      | err e ↦ failed e
      | out_of_fuel ↦ stuck
      | ok (resp, procs') ↦ elim (is_stop_resp resp) [
        | true ↦ broken (record s { source = s1; procs = procs' })
        | false ↦ elim (get_elem? s.call_memo cidx) [
          | none ↦ crashed
          | some memo ↦
              finish_wait cidx
                (record s { call_memo = set s.call_memo cidx no_memo; source = s1; procs = procs' })
                (judge cidx memo s.timestamp resp s.history)
        ]
      ]
    ]
  ]

  -- one round of the loop
  unfoldable pub round :
      List (List Text) → FuzzState rng bits clients → Round (FuzzState rng bits clients)
  unfolding make_call harvest
  round keys s0 =
      let (calls, source') =
        Random.gen_call_vs_wait rng bits s0.ops_called total_ops s0.flying s0.source in
      let s = record s0 { timestamp = s0.timestamp + 1; source = source' } in
      if calls then make_call keys s else harvest s

  -- `while ops_waited < total_ops`; what is left when the loop ends, and whether it passed
  unfoldable pub rounds :
      ℕ → List (List Text) → FuzzState rng bits clients → Round (FuzzState rng bits clients)
  rounds zero keys s = stuck
  rounds (suc fuel) keys s =
      let rest : Round (FuzzState rng bits clients) = elim (round keys s) [
        | next s' ↦ rounds fuel keys s'
        | broken s' ↦ broken s'
        | failed e ↦ failed e
        | crashed ↦ crashed
        | stuck ↦ stuck
      ] in
      if ltb s.ops_waited total_ops then rest else next s

module _ (clients : Clients) where
  -- the loop that stops the clients
  unfoldable pub stop_clients : ℕ → ℕ → clients.Procs → Result RunnerError (clients.Procs)
  stop_clients zero cidx procs = ok procs
  stop_clients (suc left) cidx procs = elim (clients.stop_client cidx procs) [
    | ok procs' ↦ stop_clients left (suc cidx) procs'
    | err e ↦ err e
    | out_of_fuel ↦ out_of_fuel
  ]

-- What `fuzz_test` returns, or that it panics or does not end.
pub data Tested : Type 0 where
  tested : Option ℕ → Tested
  test_failed : RunnerError → Tested
  test_crashed : Tested
  test_stuck : Tested

module _ (rng : Rng) (bits : Bits) (clients : Clients) where
  unfoldable pub initial :
      ℕ → List (List Text) → Stats → clients.Procs → rng.Source → FuzzState rng bits clients
  initial num_clis keys stats procs source = record {
    flying = bits.from_elem num_clis false;
    timestamp = 0;
    call_memo = replicate num_clis no_memo;
    history = History.new num_clis keys;
    ops_called = 0;
    ops_waited = 0;
    source = source;
    procs = procs;
    stats = stats;
  }

  -- what follows the loop
  unfoldable pub conclude : ℕ → Round (FuzzState rng bits clients) → Tested
  unfolding stop_clients
  conclude num_clis (next s) = elim (stop_clients clients num_clis 0 s.procs) [
    | ok procs' ↦ tested (some (History.queue_len s.history))
    | err e ↦ test_failed e
    | out_of_fuel ↦ test_stuck
  ]
  conclude num_clis (broken s) = tested none
  conclude num_clis (failed e) = test_failed e
  conclude num_clis crashed = test_crashed
  conclude num_clis stuck = test_stuck

  -- `fuzz_test` with `num_clis` clients, that many draws for each choice of a client, and two
  -- rounds for each operation and one more
  unfoldable pub fuzz_test :
      ℕ → ℕ → ℕ → List (List Text) → Stats → clients.Procs → rng.Source → Tested
  unfolding initial conclude
  fuzz_test draw_fuel num_ops num_clis keys stats procs source =
      let total_ops = (num_ops * num_clis) % 2 ^ 64 in
      conclude num_clis (
        rounds rng bits clients draw_fuel total_ops (suc (2 * total_ops)) keys
          (initial num_clis keys stats procs source))
