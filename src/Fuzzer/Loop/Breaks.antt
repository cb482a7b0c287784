-- ===== src/Fuzzer/Loop/Breaks.antt =====
-- What it means that a round of `fuzz_test` (runner/src/bin/fuzzer/main.rs) breaks off.
use my_mad_kv.Prelude.{
  ℕ, ◌/◌, ◌<◌, ◌≡◌, ◌==◌, ◌⊎◌, inl, inr, refl, true, false, some, List, arith, length, set,
  get_elem?, All, All-get_elem?, Bool-cases,
}
use my_mad_kv.Text.{Text}
use my_mad_kv.Runner.Error.{ok}
use my_mad_kv.Runner.Ioapi.{KvResp}
use my_mad_kv.Fuzzer.History.{History}
use my_mad_kv.Fuzzer.Outside.{Rng, Bits, Clients}
use my_mad_kv.Fuzzer.Random.Calls.{gen_rand_kvcall-DrawsCall, DrawsCall-some}
use my_mad_kv.Fuzzer.Random.Draws.{gen_rand_client-DrawsClient, DrawsClient-cases}
use my_mad_kv.Fuzzer.Loop.{
  no_memo, FuzzState, Round, next, broken, failed, crashed, stuck, Judged, fine, violation,
  index_panic, judge, make_call, finish_wait, is_stop_resp, harvest,
}
use my_mad_kv.Fuzzer.Loop.Trace.{Hears}
use my_mad_kv.Fuzzer.Loop.Protocol.{Harvest}
use my_mad_kv.Fuzzer.Loop.Rounds.{get_elem?-some, LoopValid}
use my_mad_kv.Fuzzer.Loop.Safe.{Result-cases}

-- A judged response is a violation: it came after its call, which came after the last update of
-- its client, and what else is known of it holds.
abbrev pub Violates : (Harvest → Type 0) → History → ℕ → Type 0
Violates P h now =
    (x : Harvest) × (last : ℕ) × (h' : History) × P x
    × (x.ts_resp ≡ now)
    × (get_elem? h.maxtr x.cidx ≡ some last)
    × (last < x.memo.0)
    × (x.memo.0 < x.ts_resp)
    × (judge x.cidx x.memo x.ts_resp x.resp h ≡ violation h')

module _ (rng : Rng) (bits : Bits) (clients : Clients) (draw_fuel total_ops : ℕ) where
  -- A client in flight answers with STOP.
  abbrev pub HearsStop : FuzzState rng bits clients → Type 0
  HearsStop s =
      (cidx : ℕ) × (resp : KvResp) × (procs : clients.Procs) × (bits.get s.flying cidx ≡ some true)
      × (clients.wait_resp cidx s.procs ≡ ok (resp, procs))
      × (is_stop_resp rng bits clients draw_fuel total_ops resp ≡ true)

module _ (rng : Rng) (bits : Bits) (clients : Clients) (draw_fuel total_ops n : ℕ)
    (some_client : 0 < n) (keys : List (List Text)) (pools : length keys ≡ n)
    (filled : All (λ (ks : List Text). 0 < length ks) keys) where
  -- a round that breaks off does so by a violation, or by a STOP
  abbrev pub Breaks : FuzzState rng bits clients → Round (FuzzState rng bits clients) → Type 0
  Breaks s (broken t) =
      HearsStop rng bits clients draw_fuel total_ops s
      ⊎ Violates (Hears s.timestamp s t.procs) s.history s.timestamp
  Breaks s (next t) = Unit
  Breaks s (failed e) = Unit
  Breaks s crashed = Unit
  Breaks s stuck = Unit

  finish_wait-Breaks :
      (s t : FuzzState rng bits clients) (cidx : ℕ) (j : Judged)
      → ((h : History)
          → j ≡ violation h
          → Violates (Hears s.timestamp s t.procs) s.history s.timestamp)
      → Breaks s (finish_wait rng bits clients draw_fuel total_ops cidx t j)
  unfolding finish_wait
  finish_wait-Breaks s t cidx (fine h) v = elim (Bool-cases (total_ops / 100 == 0)) [
    | inl e ↦ rw e tt
    | inr e ↦ rw e tt
  ]
  finish_wait-Breaks s t cidx (violation h) v = inr (v h refl)
  finish_wait-Breaks s t cidx index_panic v = tt

  pub harvest-Breaks :
      (now : ℕ) (s : FuzzState rng bits clients)
      → LoopValid n keys now s
      → now < s.timestamp
      → Breaks s (harvest rng bits clients draw_fuel total_ops s)
  unfolding harvest
  harvest-Breaks now s v ticked =
      let len = v.flying_len in
      elim (DrawsClient-cases rng bits s.flying draw_fuel true s.source _ (
        gen_rand_client-DrawsClient rng bits s.flying (rw len some_client) draw_fuel true
          s.source)) [
            | inl e ↦ rw (e, harvest) tt
            | inr (cidx, s1, e, lt, status) ↦ elim (Result-cases (clients.wait_resp cidx s.procs)) [
              | inr (inl (f, unheard)) ↦ rw (e, harvest) (rw unheard tt)
              | inr (inr unheard) ↦ rw (e, harvest) (rw unheard tt)
              | inl ((resp, procs), heard) ↦
                  elim (Bool-cases (is_stop_resp rng bits clients draw_fuel total_ops resp)) [
                    | inl stopped ↦
                        rw (e, harvest)
                          (rw heard (rw stopped (inl (cidx, resp, procs, status, heard, stopped))))
                    | inr going ↦
                        let inside : cidx < n = omega (arith, lt, len) in
                        let (memo, in_memo) =
                          get_elem?-some s.call_memo cidx (omega (arith, inside, v.memo_len)) in
                        let (last, in_maxtr) =
                          get_elem?-some s.history.maxtr cidx
                            (omega (arith, inside, v.history.clients)) in
                        let in_flight = (v.timed cidx last memo in_maxtr in_memo).1 status in
                        rw (e, harvest)
                          (rw heard (
                            rw going (
                              rw in_memo (
                                finish_wait-Breaks s
                                  (record s {
                                    call_memo = set s.call_memo cidx no_memo;
                                    source = s1;
                                    procs = procs;
                                  })
                                  cidx _
                                  (λ h same. (
                                    record {
                                      cidx = cidx;
                                      memo = memo;
                                      ts_resp = s.timestamp;
                                      resp = resp;
                                    },
                                    last,
                                    h,
                                    (status, heard, in_memo, refl),
                                    refl,
                                    in_maxtr,
                                    in_flight.1,
                                    omega (arith, in_flight.0, ticked),
                                    same,
                                  ))))))
                  ]
            ]
          ]

  pub make_call-Breaks :
      (now : ℕ) (s : FuzzState rng bits clients)
      → LoopValid n keys now s
      → Breaks s (make_call rng bits clients draw_fuel total_ops keys s)
  unfolding make_call
  make_call-Breaks now s v =
      let len = v.flying_len in
      elim (DrawsClient-cases rng bits s.flying draw_fuel false s.source _ (
        gen_rand_client-DrawsClient rng bits s.flying (rw len some_client) draw_fuel false
          s.source)) [
            | inl e ↦ rw (e, make_call) tt
            | inr (cidx, s1, e, lt, status) ↦
                let inside : cidx < n = omega (arith, lt, len) in
                let (pool, in_keys) = get_elem?-some keys cidx (omega (arith, inside, pools)) in
                let (old, in_memo) =
                  get_elem?-some s.call_memo cidx (omega (arith, inside, v.memo_len)) in
                let (call, stats, s2, drawn_call, rows) = DrawsCall-some pool s.stats _ (
                  gen_rand_kvcall-DrawsCall rng pool s.stats cidx
                    (All-get_elem? _ keys filled cidx pool in_keys) (v.rows cidx pool in_keys)
                    s1) in
                rw (e, make_call)
                  (rw in_keys (
                    rw drawn_call (
                      rw in_memo (elim (Result-cases (clients.send_call cidx call s.procs)) [
                        | inl (procs, sent) ↦ rw sent tt
                        | inr (inl (f, unsent)) ↦ rw unsent tt
                        | inr (inr unsent) ↦ rw unsent tt
                      ]))))
          ]
