-- ===== src/Fuzzer/Loop/Safe/Steps.antt =====
-- The two branches of a round of the loop of runner/src/bin/fuzzer/main.rs.
use my_mad_kv.Prelude.{
  ℕ, ◌+◌, ◌/◌, ◌≤◌, ◌<◌, ◌≡◌, refl, true, false, some, List, arith, length, set, get_elem?, ◌==◌,
  All, All-mono, All-get_elem?, Bool-cases, inl, inr,
}
use my_mad_kv.Text.{Text}
use my_mad_kv.Runner.Ioapi.{update_info}
use my_mad_kv.Fuzzer.Outside.{Rng, Bits, Clients}
use my_mad_kv.Fuzzer.Random.Calls.{gen_rand_kvcall-DrawsCall, DrawsCall-some}
use my_mad_kv.Fuzzer.Random.Draws.{gen_rand_client-DrawsClient, DrawsClient-cases}
use my_mad_kv.Fuzzer.Loop.{
  no_memo, FuzzState, Judged, fine, violation, index_panic, make_call, finish_wait, is_stop_resp,
  harvest,
}
use my_mad_kv.Fuzzer.Loop.Trace.{Hears}
use my_mad_kv.Fuzzer.Loop.Rounds.{get_elem?-some, LoopValid, JudgedValid, judge-JudgedValid}
use my_mad_kv.Fuzzer.Loop.Safe.{
  Result-cases, RoundValid, Called, HarvestedFrom, Harvested, OfFine, OfFine-intro,
  called-LoopValid, waited-LoopValid,
}

module _ (rng : Rng) (bits : Bits) (clients : Clients) (draw_fuel total_ops n : ℕ)
    (some_client : 0 < n) (keys : List (List Text)) (pools : length keys ≡ n)
    (filled : All (λ (ks : List Text). 0 < length ks) keys) (enough : 100 ≤ total_ops) where
  pool_filled : (c : ℕ) (ks : List Text) → get_elem? keys c ≡ some ks → 0 < length ks
  pool_filled = All-get_elem? _ keys filled

  pub make_call-RoundValid :
      (now : ℕ) (s : FuzzState rng bits clients)
      → LoopValid n keys now s
      → now < s.timestamp
      → RoundValid n keys (Called s) (make_call rng bits clients draw_fuel total_ops keys s)
  unfolding make_call
  make_call-RoundValid now s v ticked =
      let len = v.flying_len in
      elim (DrawsClient-cases rng bits s.flying draw_fuel false s.source _ (
        gen_rand_client-DrawsClient rng bits s.flying (rw len some_client) draw_fuel false
          s.source)) [
            | inl e ↦ rw (e, make_call) tt
            | inr (cidx, s1, e, lt, status) ↦
                let inside : cidx < n = omega (arith, lt, len) in
                let (pool, in_keys) = get_elem?-some keys cidx (omega (arith, inside, pools)) in
                let (old, in_memo) =
                  get_elem?-some s.call_memo cidx (omega (arith, inside, v.memo_len)) in
                let (call, stats, s2, drawn_call, rows) = DrawsCall-some pool s.stats _ (
                  gen_rand_kvcall-DrawsCall rng pool s.stats cidx (pool_filled cidx pool in_keys)
                    (v.rows cidx pool in_keys) s1) in
                rw (e, make_call)
                  (rw in_keys (
                    rw drawn_call (
                      rw in_memo (elim (Result-cases (clients.send_call cidx call s.procs)) [
                        | inl (procs, sent) ↦ rw sent (
                          (called-LoopValid rng bits clients n keys now s v ticked cidx inside old
                              (update_info call) (s.ops_called + 1) s2 procs stats in_memo rows),
                          ((refl, refl), refl, refl, (cidx, call, status, sent, refl)),
                        )
                        | inr (inl (f, unsent)) ↦ rw unsent tt
                        | inr (inr unsent) ↦ rw unsent tt
                      ]))))
          ]

  finish_wait-RoundValid :
      (now : ℕ) (s : FuzzState rng bits clients) (cidx : ℕ) (source : rng.Source)
      (procs : clients.Procs) (j : Judged)
      → LoopValid n keys now s
      → now < s.timestamp
      → cidx < n
      → JudgedValid n cidx s.timestamp s.history.maxtr j
      → OfFine (HarvestedFrom (Hears s.timestamp s procs) s.history s.timestamp) j
      → RoundValid n keys (Harvested s) (
          finish_wait rng bits clients draw_fuel total_ops cidx
            (record s { call_memo = set s.call_memo cidx no_memo; source = source; procs = procs })
            j)
  unfolding finish_wait
  finish_wait-RoundValid now s cidx source procs (fine h) v ticked inside judged q =
      let some_step : (total_ops / 100 == 0) ≡ false = ground arith in
      rw some_step (
        (waited-LoopValid rng bits clients n keys now s v ticked cidx inside h (s.ops_waited + 1)
            source procs judged),
        ((refl, refl), refl, q),
      )
  finish_wait-RoundValid now s cidx source procs (violation h) v ticked inside judged q = tt
  finish_wait-RoundValid now s cidx source procs index_panic v ticked inside judged q = judged

  pub harvest-RoundValid :
      (now : ℕ) (s : FuzzState rng bits clients)
      → LoopValid n keys now s
      → now < s.timestamp
      → RoundValid n keys (Harvested s) (harvest rng bits clients draw_fuel total_ops s)
  unfolding harvest
  harvest-RoundValid now s v ticked =
      let len = v.flying_len in
      elim (DrawsClient-cases rng bits s.flying draw_fuel true s.source _ (
        gen_rand_client-DrawsClient rng bits s.flying (rw len some_client) draw_fuel true
          s.source)) [
            | inl e ↦ rw (e, harvest) tt
            | inr (cidx, s1, e, lt, status) ↦ elim (Result-cases (clients.wait_resp cidx s.procs)) [
              | inr (inl (f, unheard)) ↦ rw (e, harvest) (rw unheard tt)
              | inr (inr unheard) ↦ rw (e, harvest) (rw unheard tt)
              | inl ((resp, procs), heard) ↦
                  elim (Bool-cases (is_stop_resp rng bits clients draw_fuel total_ops resp)) [
                    | inl stopped ↦ rw (e, harvest) (rw heard (rw stopped tt))
                    | inr going ↦
                        let inside : cidx < n = omega (arith, lt, len) in
                        let (memo, in_memo) =
                          get_elem?-some s.call_memo cidx (omega (arith, inside, v.memo_len)) in
                        let (last, in_maxtr) =
                          get_elem?-some s.history.maxtr cidx
                            (omega (arith, inside, v.history.clients)) in
                        let in_flight = (v.timed cidx last memo in_maxtr in_memo).1 status in
                        rw (e, harvest)
                          (rw heard (
                            rw going (
                              rw in_memo (
                                finish_wait-RoundValid now s cidx s1 procs _ v ticked inside
                                  (judge-JudgedValid n cidx last s.timestamp memo resp s.history
                                    v.history
                                    (All-mono _ _ s.history.queue (λ q b. omega arith) v.queued)
                                    in_maxtr (in_flight.1) (omega (arith, in_flight.0)))
                                  (OfFine-intro
                                    (HarvestedFrom (Hears s.timestamp s procs) s.history
                                      s.timestamp)
                                    _
                                    (λ h same. (
                                      record {
                                        cidx = cidx;
                                        memo = memo;
                                        ts_resp = s.timestamp;
                                        resp = resp;
                                      },
                                      last,
                                      (status, heard, in_memo, refl),
                                      refl,
                                      in_maxtr,
                                      in_flight.1,
                                      omega (arith, in_flight.0),
                                      same,
                                    )))))))
                  ]
            ]
          ]
