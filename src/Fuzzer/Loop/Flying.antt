-- ===== src/Fuzzer/Loop/Flying.antt =====
-- The rounds of `fuzz_test` (runner/src/bin/fuzzer/main.rs) come to an end, if its draws hit each
-- client and its clients return.
use my_mad_kv.Prelude.{
  ℕ, zero, suc, ◌+◌, ◌/◌, ◌≤◌, ◌<◌, ◌≡◌, ◌==◌, inl, inr, ◌≢◌, true, false, some, List, arith,
  length, set, All, All-get_elem?, Bool-cases,
}
use mathlib.Core.Path.{subst}
use my_mad_kv.Text.{Text}
use my_mad_kv.Runner.Error.{out_of_fuel}
use my_mad_kv.Runner.Ioapi.{KvCall}
use my_mad_kv.Fuzzer.Outside.{Rng, Bits, Clients}
use my_mad_kv.Fuzzer.Random.{gen_call_vs_wait}
use my_mad_kv.Fuzzer.Random.Calls.{gen_rand_kvcall-DrawsCall, DrawsCall-some}
use my_mad_kv.Fuzzer.Random.Draws.{gen_rand_client-DrawsClient, DrawsClient-cases}
use my_mad_kv.Fuzzer.Loop.{
  no_memo, FuzzState, Round, next, broken, failed, crashed, stuck, Judged, fine, violation,
  index_panic, make_call, finish_wait, is_stop_resp, harvest, round, stop_clients,
}
use my_mad_kv.Fuzzer.Loop.Rounds.{LoopValid-ticked, get_elem?-some, LoopValid}
use my_mad_kv.Fuzzer.Loop.Safe.{Result-cases, RoundValid}
use my_mad_kv.Fuzzer.Loop.Ends.{Reaches, here, step, Advances, round-RoundValid}
use my_mad_kv.Fuzzer.Loop.Flights.{
  flights, flights-called, flights-harvested, Hits, gen_rand_client-found, gen_call_vs_wait-calls,
  gen_call_vs_wait-waits,
}

-- The operations on the client processes return, with a value or an error.
pub record Returning (clients : Clients) : Type 0 where
  pub sends :
      (c : ℕ) (call : KvCall) (procs : clients.Procs) → clients.send_call c call procs ≢ out_of_fuel
  pub answers : (c : ℕ) (procs : clients.Procs) → clients.wait_resp c procs ≢ out_of_fuel
  pub stops : (c : ℕ) (procs : clients.Procs) → clients.stop_client c procs ≢ out_of_fuel

pub stop_clients-returns :
    (clients : Clients) (returning : Returning clients) (left c : ℕ) (procs : clients.Procs)
    → stop_clients clients left c procs ≢ out_of_fuel
unfolding stop_clients
stop_clients-returns clients returning zero c procs = λ e. cc
stop_clients-returns clients returning (suc left) c procs =
    elim (Result-cases (clients.stop_client c procs)) [
      | inl (procs', e) ↦
          rw (e, stop_clients) (stop_clients-returns clients returning left (suc c) procs')
      | inr (inl (f, e)) ↦ rw (e, stop_clients) (λ q. cc)
      | inr (inr e) ↦ absurd (returning.stops c procs e)
    ]

module _ (rng : Rng) (bits : Bits) (clients : Clients) (draw_fuel total_ops n : ℕ)
    (some_client : 0 < n) (keys : List (List Text)) (pools : length keys ≡ n)
    (filled : All (λ (ks : List Text). 0 < length ks) keys) (hits : Hits rng draw_fuel n)
    (returning : Returning clients) where
  -- so many clients are in flight as have been called and not been waited for
  abbrev pub Flying : FuzzState rng bits clients → Type 0
  Flying s = flights (bits.get s.flying) n + s.ops_waited ≡ s.ops_called

  -- the round ends, and the clients in flight are still so many
  abbrev RoundFlying : Round (FuzzState rng bits clients) → Type 0
  RoundFlying (next t) = Flying t
  RoundFlying (broken t) = Unit
  RoundFlying (failed e) = Unit
  RoundFlying crashed = Unit
  RoundFlying stuck = ⊥

  finish_wait-RoundFlying :
      (s : FuzzState rng bits clients) (cidx : ℕ) (j : Judged)
      → bits.len s.flying ≡ n
      → cidx < n
      → bits.get s.flying cidx ≡ some true
      → Flying s
      → RoundFlying (finish_wait rng bits clients draw_fuel total_ops cidx s j)
  unfolding finish_wait
  finish_wait-RoundFlying s cidx (fine h) len inside flew count =
      elim (Bool-cases (total_ops / 100 == 0)) [
        | inl e ↦ rw e tt
        | inr e ↦
            let fewer = flights-harvested rng bits n some_client s.flying len cidx inside flew in
            rw e (omega (arith, fewer, count))
      ]
  finish_wait-RoundFlying s cidx (violation h) len inside flew count = tt
  finish_wait-RoundFlying s cidx index_panic len inside flew count = tt

  make_call-RoundFlying :
      (now : ℕ) (s : FuzzState rng bits clients) (c : ℕ)
      → LoopValid n keys now s
      → Flying s
      → c < n
      → bits.get s.flying c ≡ some false
      → RoundFlying (make_call rng bits clients draw_fuel total_ops keys s)
  unfolding make_call
  make_call-RoundFlying now s c v count below free =
      let len = v.flying_len in
      elim (DrawsClient-cases rng bits s.flying draw_fuel false s.source _ (
        gen_rand_client-DrawsClient rng bits s.flying (rw len some_client) draw_fuel false
          s.source)) [
            | inl e ↦ absurd (
                gen_rand_client-found rng bits n some_client s.flying len draw_fuel false s.source c
                  hits below free e)
            | inr (cidx, s1, e, lt, status) ↦
                let inside : cidx < n = omega (arith, lt, len) in
                let (pool, in_keys) = get_elem?-some keys cidx (omega (arith, inside, pools)) in
                let (old, in_memo) =
                  get_elem?-some s.call_memo cidx (omega (arith, inside, v.memo_len)) in
                let (call, stats, s2, drawn_call, rows) = DrawsCall-some pool s.stats _ (
                  gen_rand_kvcall-DrawsCall rng pool s.stats cidx
                    (All-get_elem? _ keys filled cidx pool in_keys) (v.rows cidx pool in_keys)
                    s1) in
                let more = flights-called rng bits n some_client s.flying len cidx inside status in
                rw (e, make_call)
                  (rw in_keys (
                    rw drawn_call (
                      rw in_memo (elim (Result-cases (clients.send_call cidx call s.procs)) [
                        | inl (procs, sent) ↦ rw sent (omega (arith, more, count))
                        | inr (inl (f, unsent)) ↦ rw unsent tt
                        | inr (inr unsent) ↦ absurd (returning.sends cidx call s.procs unsent)
                      ]))))
          ]

  harvest-RoundFlying :
      (now : ℕ) (s : FuzzState rng bits clients) (c : ℕ)
      → LoopValid n keys now s
      → Flying s
      → c < n
      → bits.get s.flying c ≡ some true
      → RoundFlying (harvest rng bits clients draw_fuel total_ops s)
  unfolding harvest
  harvest-RoundFlying now s c v count below flew =
      let len = v.flying_len in
      elim (DrawsClient-cases rng bits s.flying draw_fuel true s.source _ (
        gen_rand_client-DrawsClient rng bits s.flying (rw len some_client) draw_fuel true
          s.source)) [
            | inl e ↦ absurd (
                gen_rand_client-found rng bits n some_client s.flying len draw_fuel true s.source c
                  hits below flew e)
            | inr (cidx, s1, e, lt, status) ↦ elim (Result-cases (clients.wait_resp cidx s.procs)) [
              | inr (inl (f, unheard)) ↦ rw (e, harvest) (rw unheard tt)
              | inr (inr unheard) ↦ absurd (returning.answers cidx s.procs unheard)
              | inl ((resp, procs), heard) ↦
                  elim (Bool-cases (is_stop_resp rng bits clients draw_fuel total_ops resp)) [
                    | inl stopped ↦ rw (e, harvest) (rw heard (rw stopped tt))
                    | inr going ↦
                        let inside : cidx < n = omega (arith, lt, len) in
                        let (memo, in_memo) =
                          get_elem?-some s.call_memo cidx (omega (arith, inside, v.memo_len)) in
                        rw (e, harvest)
                          (rw heard (
                            rw going (
                              rw in_memo (
                                finish_wait-RoundFlying
                                  (record s {
                                    call_memo = set s.call_memo cidx no_memo;
                                    source = s1;
                                    procs = procs;
                                  })
                                  cidx _ len inside status count))))
                  ]
            ]
          ]

  round-RoundFlying :
      (s : FuzzState rng bits clients)
      → LoopValid n keys s.timestamp s
      → Flying s
      → s.ops_waited < total_ops
      → RoundFlying (round rng bits clients draw_fuel total_ops keys s)
  unfolding round
  round-RoundFlying s v count more =
      let len = v.flying_len in
      let s' : FuzzState rng bits clients = record s {
        timestamp = s.timestamp + 1;
        source = (gen_call_vs_wait rng bits s.ops_called total_ops s.flying s.source).1;
      } in
      let v' = LoopValid-ticked n keys s.timestamp s'.timestamp s'.source s v in
      elim (Bool-cases (gen_call_vs_wait rng bits s.ops_called total_ops s.flying s.source).0) [
        | inl e ↦
            let (c, below, free) =
              gen_call_vs_wait-calls rng bits n some_client s.flying len s.ops_called total_ops
                s.source e in
            rw (e, round) (make_call-RoundFlying s.timestamp s' c v' count below free)
        | inr e ↦
            let (c, below, flew) =
              gen_call_vs_wait-waits rng bits n some_client s.flying len s.ops_called s.ops_waited
                total_ops s.source count more e in
            rw (e, round) (harvest-RoundFlying s.timestamp s' c v' count below flew)
      ]

  module _ (enough : 100 ≤ total_ops) where
    -- no round that the loop reaches is stuck
    pub Reaches-ends :
        (s t : FuzzState rng bits clients)
        → Reaches rng bits clients draw_fuel total_ops keys s t
        → LoopValid n keys s.timestamp s
        → s.ops_called ≤ total_ops
        → Flying s
        → t.ops_waited < total_ops
        → round rng bits clients draw_fuel total_ops keys t ≢ stuck
    Reaches-ends s t here v called count more =
        λ e. subst RoundFlying e (round-RoundFlying s v count more)
    Reaches-ends s t (step {t = u} lt moves reaches) v called count more =
        let (valid, advances) =
          subst
            (RoundValid n keys (
              Advances rng bits clients draw_fuel total_ops n some_client keys pools filled enough
                s))
            moves
            (round-RoundValid rng bits clients draw_fuel total_ops n some_client keys pools filled
              enough s v called lt) in
        let flying : Flying u = subst RoundFlying moves (round-RoundFlying s v count lt) in
        Reaches-ends u t reaches valid advances.0 flying more
