-- ===== src/Fuzzer/Loop/Trace.antt =====
-- What the loop of `fuzz_test` (runner/src/bin/fuzzer/main.rs) and its clients say to each other.
use my_mad_kv.Prelude.{ℕ, ◌+◌, ◌<◌, ◌≡◌, true, false, some, List, [], ◌∷◌, set, get_elem?}
use my_mad_kv.Text.{Text}
use my_mad_kv.Runner.Error.{ok}
use my_mad_kv.Runner.Ioapi.{KvCall, update_info}
use my_mad_kv.Fuzzer.Outside.{Rng, Bits, Clients}
use my_mad_kv.Fuzzer.Loop.{FuzzState, next, round}
use my_mad_kv.Fuzzer.Loop.Protocol.{Harvest}

module _ {rng : Rng} {bits : Bits} {clients : Clients} where
  -- Between the two states a client that was not in flight has taken a call, whose time and update
  -- are noted.
  abbrev pub Calls : ℕ → FuzzState rng bits clients → FuzzState rng bits clients → Type 0
  Calls now s t =
      (cidx : ℕ) × (call : KvCall) × (bits.get s.flying cidx ≡ some false)
      × (clients.send_call cidx call s.procs ≡ ok t.procs)
      × (t.call_memo ≡ set s.call_memo cidx (now, update_info call))

  -- A client in flight answers, and the response is put together with what is noted of its call.
  abbrev pub Hears : ℕ → FuzzState rng bits clients → clients.Procs → Harvest → Type 0
  Hears now s procs x =
      (bits.get s.flying x.cidx ≡ some true)
      × (clients.wait_resp x.cidx s.procs ≡ ok (x.resp, procs))
      × (get_elem? s.call_memo x.cidx ≡ some x.memo)
      × (x.ts_resp ≡ now)

module _ (rng : Rng) (bits : Bits) (clients : Clients) (draw_fuel total_ops : ℕ)
    (keys : List (List Text)) where
  -- The loop gets from one state to the other, and these are the responses that it hears on the
  -- way, in their order.
  pub data Heard
      : FuzzState rng bits clients → FuzzState rng bits clients → List Harvest → Type 0 where
    silent : {s : FuzzState rng bits clients} → Heard s s []
    calling :
        {s t u : FuzzState rng bits clients} {xs : List Harvest}
        → s.ops_waited < total_ops
        → round rng bits clients draw_fuel total_ops keys s ≡ next t
        → Calls (s.timestamp + 1) s t
        → Heard t u xs
        → Heard s u xs
    hearing :
        {s t u : FuzzState rng bits clients} {x : Harvest} {xs : List Harvest}
        → s.ops_waited < total_ops
        → round rng bits clients draw_fuel total_ops keys s ≡ next t
        → Hears (s.timestamp + 1) s t.procs x
        → Heard t u xs
        → Heard s u (x ∷ xs)
