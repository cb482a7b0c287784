-- ===== src/Refcli/Driven.antt =====
-- The driver thread of runner/src/proc.rs and the reference client, refcli/src/main.rs, connected.
use my_mad_kv.Prelude.{
  suc, ◌≡◌, refl, ◌∙◌, Bool, true, false, Option, none, List, [], ◌∷◌, ◌++◌, All, All-append,
  append_assoc, append-nil, if◌then◌else◌, length,
}
use my_mad_kv.Text.{Text}
use my_mad_kv.Collections.SortedMap.{SortedMap}
use my_mad_kv.Runner.Error.{ok}
use my_mad_kv.Runner.Ioapi.{KvCall, stop, into_write, KvResp, stop_resp}
use my_mad_kv.Runner.Ioapi.Reading.{at}
use my_mad_kv.Runner.Proc.{
  quietly, is_stop_call, send_resp, driver_iter, end_loop, driver_loop, driver_thread,
}
use my_mad_kv.Refcli.{write_response, run_client}
use my_mad_kv.Refcli.Store.{Store, view}
use my_mad_kv.Refcli.Responses.{IsReadable, from_read-write_response}
use my_mad_kv.Refcli.Session.{
  Serves, served, serves, IsPlain, write_calls, write_responses, run_client-Serves,
}

abbrev stopped_by : List KvCall → Bool → Bool
stopped_by [] stopped = stopped
stopped_by (call ∷ calls) stopped = stopped_by calls (if is_stop_call call then true else stopped)

-- The calls and the responses go together, one by one.
abbrev pub Paired : List KvCall → List KvResp → Type 0
Paired [] [] = Unit
Paired [] (resp ∷ resps) = ⊥
Paired (call ∷ calls) [] = ⊥
Paired (call ∷ calls) (resp ∷ resps) = Paired calls resps

driver_loop-write_responses :
    (failure : Option Text) (calls : List KvCall) (resps : List KvResp) (stdin rest : Text)
    (sent : List KvResp) (stopped : Bool)
    → Paired calls resps
    → All IsReadable resps
    → driver_loop calls (record {
      calls = calls;
      stdin = stdin;
      stdout = at failure (write_responses resps ++ rest);
      resps = sent;
      receiver = true;
      stopped = stopped;
    })
      ≡ quietly (record {
        calls = [];
        stdin = stdin ++ write_calls calls [];
        stdout = at failure rest;
        resps = sent ++ resps;
        receiver = true;
        stopped = stopped_by calls stopped;
      })
unfolding driver_loop driver_iter end_loop my_mad_kv.Runner.Error.from
driver_loop-write_responses failure [] [] stdin rest sent true p h = simp append-nil
driver_loop-write_responses failure [] [] stdin rest sent false p h = simp append-nil
driver_loop-write_responses failure [] (resp ∷ resps) stdin rest sent stopped p h = absurd p
driver_loop-write_responses failure (call ∷ calls) [] stdin rest sent stopped p h = absurd p
driver_loop-write_responses failure (call ∷ calls) (resp ∷ resps) stdin rest sent stopped p h =
    simp append_assoc (
      rw
        (
          from_read-write_response failure (write_responses resps ++ rest) resp h.0,
          driver_loop,
          driver_iter,
          send_resp,
        )
        (driver_loop-write_responses failure calls resps (stdin ++ into_write call) rest
            (sent ++ resp ∷ []) _ p h.1
          ∙ simp append_assoc))

Serves-Paired :
    (g : Store) {f : Store} {calls : List KvCall} {resps : List KvResp}
    → Serves g f calls resps
    → Paired calls resps
Serves-Paired g (served same) = tt
Serves-Paired g (serves answer later) = Serves-Paired g later

Paired-append :
    (calls : List KvCall) (resps : List KvResp)
    → Paired calls resps
    → Paired (calls ++ stop ∷ []) (resps ++ stop_resp ∷ [])
Paired-append [] [] p = tt
Paired-append [] (resp ∷ resps) p = absurd p
Paired-append (call ∷ calls) [] p = absurd p
Paired-append (call ∷ calls) (resp ∷ resps) p = Paired-append calls resps p

write_calls-append :
    (calls more : List KvCall) (rest : Text)
    → write_calls (calls ++ more) rest ≡ write_calls calls (write_calls more rest)
write_calls-append [] more rest = refl
write_calls-append (call ∷ calls) more rest = simp (write_calls-append calls more rest)

write_responses-append :
    (resps more : List KvResp)
    → write_responses (resps ++ more) ≡ write_responses resps ++ write_responses more
write_responses-append [] more = refl
write_responses-append (resp ∷ resps) more = simp (append_assoc, write_responses-append resps more)

stopped_by-stop :
    (calls : List KvCall) (stopped : Bool) → stopped_by (calls ++ stop ∷ []) stopped ≡ true
stopped_by-stop [] stopped = refl
stopped_by-stop (call ∷ calls) stopped = stopped_by-stop calls _

-- For plain calls and the call to stop, the reference client that reads what the driver thread
-- writes comes to an end by itself. There are responses that a store, empty at first, gives to the
-- calls; and if these can be told apart on the wire, the driver thread that reads what the client
-- has written ends without a reported error, and has handed over exactly these, in their order,
-- and then `STOP`.
pub driver_thread-Serves :
    (failure : Option Text) (calls : List KvCall)
    → All IsPlain calls
    → (resps : List KvResp) × (final : SortedMap Text) × Serves (view final) (λ k. none) calls resps
      × ((out : Text) × (run_client
              (suc (length calls))
              (at none (write_calls (calls ++ stop ∷ []) []))
            ≡ (out, ok final))
          × (All IsReadable resps
              → driver_thread (calls ++ stop ∷ []) (at failure out)
                ≡ quietly (record {
                  calls = [];
                  stdin = write_calls (calls ++ stop ∷ []) [];
                  stdout = at failure [];
                  resps = resps ++ stop_resp ∷ [];
                  receiver = true;
                  stopped = true;
                })))
unfolding driver_thread write_response
driver_thread-Serves failure calls plain =
    let (resps, final, answered, run) = run_client-Serves none calls [] plain in
    (
      resps,
      final,
      answered,
      (
        write_responses (resps ++ stop_resp ∷ []),
        (rw (write_calls-append calls (stop ∷ []) [])
            (run ∙ (rw (write_responses-append resps (stop_resp ∷ [])) refl))),
        λ readable.
            (simp append-nil)
            ∙ driver_loop-write_responses failure (calls ++ stop ∷ []) (resps ++ stop_resp ∷ []) []
                [] [] false (Paired-append calls resps (Serves-Paired (view final) answered))
                (All-append _ resps _ readable (tt, tt))
            ∙ (rw (stopped_by-stop calls false) refl),
      ),
    )
