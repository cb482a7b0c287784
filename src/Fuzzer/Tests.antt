-- ===== src/Fuzzer/Tests.antt =====
-- The theorems about the fuzz tester at concrete inputs.
pub mod Alarms
pub mod Endings
use my_mad_kv.Prelude.{
  inl, ◌%◌, ◌*◌, ◌^◌, ◌≡◌, refl, ◌≢◌, ◌↔◌, true, false, none, some, List, [], ◌∷◌, arith, All,
  get_elem?,
}
use my_mad_kv.Text.{Text, codes}
use my_mad_kv.Collections.HashMap
use my_mad_kv.Collections.HashMap.{HashMap}
use my_mad_kv.Runner.Ioapi.{get_resp, put_resp}
use my_mad_kv.Fuzzer.History
use my_mad_kv.Fuzzer.History.{
  UpdateSpan, QueuedSpan, KeySpans, dummy, check_call, trim_client, apply_update,
}
use my_mad_kv.Fuzzer.History.Instants.{at_tick, IsUpto-refl}
use my_mad_kv.Fuzzer.History.Checks.{explained}
use my_mad_kv.Fuzzer.History.Trimming.{trim_client-explained}
use my_mad_kv.Fuzzer.History.Verdicts.{Accepts, check_call_iff}
use my_mad_kv.Fuzzer.History.Linear.{Placed, IsPlaced, Holds, all_spans_of, check_call-Holds}
use my_mad_kv.Fuzzer.History.Preserved.{AppliedValid, apply_update-IsValid, new-IsValid}
use my_mad_kv.Fuzzer.Stats
use my_mad_kv.Fuzzer.Stats.{Stats}
use my_mad_kv.Fuzzer.Loop.Passed.{PassesWhole, fuzz_test-PassesWhole}
use my_mad_kv.Fuzzer.Main.{Args, args_valid, gen_pools, fuzz_main}
use my_mad_kv.Fuzzer.Main.Verdicts.{IsFair, fuzz_main-IsFair}
use my_mad_kv.Fuzzer.Samples.{counting, bitmap, empty_clients}
use my_mad_kv.Fuzzer.Random.{gen_rand_kvcall, gen_rand_client}
use my_mad_kv.Fuzzer.Random.Calls.{DrawsCall, gen_rand_kvcall-DrawsCall}
use my_mad_kv.Fuzzer.Random.Draws.{DrawsClient, gen_rand_client-DrawsClient}
use my_mad_kv.Fuzzer.Loop.{judge, initial, fuzz_test}
use my_mad_kv.Fuzzer.Loop.Whole.{TestEnd, fuzz_test-TestEnd}
use my_mad_kv.Fuzzer.Loop.Protocol.{Harvest, judge_whole, judge_all, outcome}
use my_mad_kv.Fuzzer.Loop.Protocol.Outcome.{judge_all-whole}

abbrev put_a : UpdateSpan
put_a = record { ts_call = 1; ts_resp = 2; value = some (codes "1") }

abbrev one_key : HashMap KeySpans
one_key = (codes "a", (dummy ∷ put_a ∷ []) ∷ []) ∷ []

abbrev stale_get : QueuedSpan
stale_get = record { ts_call = 3; ts_resp = 4; resp = get_resp (codes "a") none }

check_call_iff_example :
    (check_call one_key stale_get ≡ true) ↔ Accepts one_key 3 4 (get_resp (codes "a") none)
check_call_iff_example = check_call_iff one_key stale_get

trim_client-explained_example :
    explained (λ v. true) 3 4 (trim_client 3 3 (dummy ∷ put_a ∷ []))
    ≡ explained (λ v. true) 3 4 (dummy ∷ put_a ∷ [])
trim_client-explained_example =
    trim_client-explained (λ v. true) 3 3 3 4 (omega arith) (dummy ∷ put_a ∷ []) (omega arith)

abbrev placed_dummy : Placed
placed_dummy = record { span = dummy; point = at_tick 0 }

abbrev placed_put : Placed
placed_put = record { span = put_a; point = at_tick 2 }

abbrev one_client : List (List Placed)
one_client = (placed_dummy ∷ placed_put ∷ []) ∷ []

one_client-IsPlaced : All IsPlaced one_client
one_client-IsPlaced = (
  (
    IsUpto-refl (at_tick 0),
    IsUpto-refl (at_tick 0),
    (inl (omega arith), tt),
    (inl (omega arith), IsUpto-refl (at_tick 2), tt, tt),
  ),
  tt,
)

one_client-Holds : Holds (at_tick 3) (some (codes "1")) one_client
one_client-Holds = record {
  before = [];
  behind = [];
  older = placed_dummy ∷ [];
  last = placed_put;
  newer = [];
  splits = refl;
  in_time = inl (omega arith);
  latest = ((λ h. inl (omega arith), (λ h. IsUpto-refl (at_tick 2), tt)), tt);
  is_value = refl;
}

one_key_lem : HashMap.lookup (codes "a") one_key ≡ some (all_spans_of one_client)
unfolding HashMap.lookup my_mad_kv.Text.text_eq my_mad_kv.Text.text_compare
one_key_lem = refl

check_call-Holds_example :
    check_call one_key
      (record { ts_call = 3; ts_resp = 4; resp = get_resp (codes "a") (some (codes "1")) })
    ≡ true
check_call-Holds_example =
    check_call-Holds one_client one_client-IsPlaced 3 4 (at_tick 3) (IsUpto-refl (at_tick 3))
      (inl (omega arith)) (some (codes "1")) one_client-Holds one_key (codes "a")
      (get_resp (codes "a") (some (codes "1"))) one_key_lem (refl, refl)

abbrev first_put : Harvest
first_put = record {
  cidx = 0;
  memo = (1, some (codes "a", some (codes "1")));
  ts_resp = 2;
  resp = put_resp (codes "a") false;
}

judge_all-whole_example :
    (outcome (judge_all judge (first_put ∷ []) (History.new 1 ((codes "a" ∷ []) ∷ [])))
      ≡ outcome (judge_all judge_whole (first_put ∷ []) (History.new 1 ((codes "a" ∷ []) ∷ []))))
    × (outcome (judge_all judge (first_put ∷ []) (History.new 1 ((codes "a" ∷ []) ∷ []))) ≢ none)
judge_all-whole_example =
    judge_all-whole 1 ((codes "a" ∷ []) ∷ []) (first_put ∷ [])
      ((0, refl, omega arith), omega arith, omega arith, omega arith, tt)

abbrev fresh : History.History
fresh = History.new 1 ((codes "a" ∷ []) ∷ [])

fresh_maxtr : get_elem? fresh.maxtr 0 ≡ some 0
unfolding History.new
fresh_maxtr = refl

apply_update-IsValid_example :
    AppliedValid 1 (apply_update 0 1 2 (codes "a") (some (codes "1")) fresh)
apply_update-IsValid_example =
    apply_update-IsValid 1 0 0 1 2 (codes "a") (some (codes "1")) fresh fresh_maxtr (omega arith)
      (omega arith) (new-IsValid 1 ((codes "a" ∷ []) ∷ []))

abbrev one_pool : List (List Text)
one_pool = (codes "a" ∷ []) ∷ []

abbrev no_stats : Stats
no_stats = record {
  cnt_put = 0;
  cnt_swap = 0;
  cnt_get = 0;
  cnt_scan = 0;
  cnt_delete = 0;
  keys_freq = (0 ∷ 0 ∷ []) ∷ [];
}

gen_rand_kvcall-DrawsCall_example :
    DrawsCall
      (codes "a" ∷ codes "b" ∷ [])
      no_stats
      (gen_rand_kvcall counting (codes "a" ∷ codes "b" ∷ []) no_stats 0 7)
gen_rand_kvcall-DrawsCall_example =
    gen_rand_kvcall-DrawsCall counting (codes "a" ∷ codes "b" ∷ []) no_stats 0 (omega arith)
      (0 ∷ 0 ∷ [], refl, refl) 7

gen_rand_client-DrawsClient_example :
    DrawsClient counting bitmap
      (true ∷ false ∷ [])
      5
      false
      0
      (gen_rand_client counting bitmap 5 (true ∷ false ∷ []) false 0)
gen_rand_client-DrawsClient_example =
    gen_rand_client-DrawsClient counting bitmap (true ∷ false ∷ []) (omega arith) 5 false 0

fuzz_test-TestEnd_example :
    TestEnd counting bitmap empty_clients 4
      ((200 * 1) % 2 ^ 64)
      1
      one_pool
      (initial counting bitmap empty_clients 1 one_pool (Stats.new one_pool) 0 0)
      (fuzz_test counting bitmap empty_clients 4 200 1 one_pool (Stats.new one_pool) 0 0)
fuzz_test-TestEnd_example =
    fuzz_test-TestEnd counting bitmap empty_clients 4 200 1 one_pool 0 0 (omega arith) refl
      (omega arith, tt) (omega arith)

abbrev some_args : Args
some_args = record { num_clis = 2; num_keys = 3; num_ops = 1000; conflict = true }

some_args_lem : args_valid some_args ≡ true
unfolding args_valid
some_args_lem = refl

fuzz_main-IsFair_example :
    IsFair counting bitmap empty_clients 4
      (1000 * 2)
      2
      (gen_pools counting 2 3 true 0).0
      (initial counting bitmap empty_clients 2
        (gen_pools counting 2 3 true 0).0
        (Stats.new (gen_pools counting 2 3 true 0).0)
        0
        (gen_pools counting 2 3 true 0).1)
      (fuzz_main counting bitmap empty_clients 4 some_args 0 0)
fuzz_main-IsFair_example =
    fuzz_main-IsFair counting bitmap empty_clients 4 some_args 0 0 some_args_lem (omega arith)

fuzz_test-PassesWhole_example :
    PassesWhole counting bitmap empty_clients 4
      ((200 * 1) % 2 ^ 64)
      1
      one_pool
      (initial counting bitmap empty_clients 1 one_pool (Stats.new one_pool) 0 0)
      (fuzz_test counting bitmap empty_clients 4 200 1 one_pool (Stats.new one_pool) 0 0)
fuzz_test-PassesWhole_example =
    fuzz_test-PassesWhole counting bitmap empty_clients 4 200 1 one_pool 0 0 (omega arith) refl
      (omega arith, tt) (omega arith) (omega arith)
