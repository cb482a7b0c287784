-- ===== src/Refcli/Session.antt =====
-- A whole run of the reference client, `main` of refcli/src/main.rs.
use my_mad_kv.Prelude.{
  ℕ, suc, ◌≡◌, refl, ◌∙◌, false, Option, none, some, List, [], ◌∷◌, ◌++◌, All, append_assoc, arith,
  length,
}
use my_mad_kv.Text.{Text, codes}
use my_mad_kv.Text.Words.{is_empty-trim}
use my_mad_kv.Text.Lines.{IsWord, lined}
use my_mad_kv.Collections.SortedMap.{SortedMap, IsSorted}
use my_mad_kv.Collections.SortedMap
use my_mad_kv.Runner.Error.{ok, ◌>>=◌}
use my_mad_kv.Runner.Ioapi.{KvCall, stop, into_write, KvResp, stop_resp}
use my_mad_kv.Runner.Ioapi.Reader.{read_line}
use my_mad_kv.Runner.Ioapi.Reading.{at, take_line-lined, is_blank-lined}
use my_mad_kv.Refcli.{
  Client, handle_kv_call, write_response, read_input, answer, serve_one, serve, run_client, to_stop,
}
use my_mad_kv.Refcli.Store.{
  Store, Same, Answers, view, is_inverted, is_stop, handle_kv_call-Handled, Handled-some,
  Answers-to_stop,
}
use my_mad_kv.Refcli.Calls.{
  HasWords, first_word, fields, parse_input_call-words, words-IsWord, into_write-words,
}

read_input-of_line :
    (failure : Option Text) (fuel : ℕ) (w : Text) (ws : List Text) (rest : Text)
    → All IsWord (w ∷ ws)
    → read_input (suc fuel) (at failure (lined (w ∷ ws) rest)) []
      ≡ ok (lined (w ∷ ws) [], at failure rest)
unfolding read_input read_line
read_input-of_line failure fuel w ws rest h =
    rw (take_line-lined failure (w ∷ ws) rest h, read_input)
      (ground (arith, is_empty-trim (lined (w ∷ ws) []), is_blank-lined w ws [] h.0))

-- One round on the line of a call is the answer to the call.
serve_one-into_write :
    (failure : Option Text) (call : KvCall) (rest : Text) (m : SortedMap Text) (out : Text)
    → HasWords call
    → serve_one (record { stdin = at failure (into_write call ++ rest); state = m; stdout = out })
      ≡ answer call (record { stdin = at failure rest; state = m; stdout = out })
unfolding serve_one
serve_one-into_write failure call rest m out h = rw (into_write-words call rest) (
    rw
      (
        read_input-of_line failure _ (first_word call) (fields call) rest (words-IsWord call h),
        ◌>>=◌,
      )
      (rw (parse_input_call-words call h, ◌>>=◌) refl))

-- Responses that answer calls one after the other, from store `f` to store `g`.
pub data Serves (g : Store) : Store → List KvCall → List KvResp → Type 0 where
  served : {f : Store} → Same f g → Serves g f [] []
  serves :
      {f f' : Store} {call : KvCall} {calls : List KvCall} {resp : KvResp} {resps : List KvResp}
      → Answers call f resp f'
      → Serves g f' calls resps
      → Serves g f (call ∷ calls) (resp ∷ resps)

abbrev pub write_calls : List KvCall → Text → Text
write_calls [] rest = rest
write_calls (call ∷ calls) rest = into_write call ++ write_calls calls rest

abbrev pub write_responses : List KvResp → Text
write_responses [] = []
write_responses (resp ∷ resps) = write_response resp ++ write_responses resps

-- A call that leaves the client running: its texts are words, it is not the call to stop, and it
-- is no scan whose end lies below its start.
abbrev pub IsPlain : KvCall → Type 0
IsPlain call = HasWords call × (is_inverted call ≡ false) × (is_stop call ≡ false)

abbrev client : Option Text → Text → SortedMap Text → Text → Client
client failure pending m out = record { stdin = at failure pending; state = m; stdout = out }

serve-stop :
    (failure : Option Text) (fuel : ℕ) (rest : Text) (m : SortedMap Text) (out : Text)
    → serve (suc fuel) (client failure (into_write stop ++ rest) m out)
      ≡ (out ++ write_response stop_resp, ok m)
unfolding serve
serve-stop failure fuel rest m out =
    rw (serve_one-into_write failure stop rest m out tt, serve) (unfold answer in refl)

serve-call :
    (failure : Option Text) (fuel : ℕ) (call : KvCall) (rest : Text) (m m' : SortedMap Text)
    (out : Text) (resp : KvResp)
    → HasWords call
    → handle_kv_call call m ≡ some (resp, m')
    → to_stop resp ≡ false
    → serve (suc fuel) (client failure (into_write call ++ rest) m out)
      ≡ serve fuel (client failure rest m' (out ++ write_response resp))
unfolding serve
serve-call failure fuel call rest m m' out resp w h e =
    rw (serve_one-into_write failure call rest m out w, serve) (unfold answer in rw h (rw e refl))

-- The result of a run over the calls, a call to stop behind them, and any text behind that.
record Session (failure : Option Text) (calls : List KvCall) (rest : Text) (m : SortedMap Text)
    (out : Text) : Type 0 where
  resps : List KvResp
  final : SortedMap Text
  sorted : IsSorted final
  answered : Serves (view final) (view m) calls resps
  result :
      serve
        (suc (length calls))
        (client failure (write_calls calls (into_write stop ++ rest)) m out)
      ≡ (out ++ (write_responses resps ++ write_response stop_resp), ok final)

serve-Session :
    (failure : Option Text) (calls : List KvCall) (rest : Text) (m : SortedMap Text) (out : Text)
    → IsSorted m
    → All IsPlain calls
    → Session failure calls rest m out
serve-Session failure [] rest m out s h = record {
  resps = [];
  final = m;
  sorted = s;
  answered = served (λ j. refl);
  result = serve-stop failure 0 rest m out;
}
serve-Session failure (call ∷ calls) rest m out s h =
    let (resp, m', e, s', a) = Handled-some call m _ (handle_kv_call-Handled call m s) h.0.1 in
    let later = serve-Session failure calls rest m' (out ++ write_response resp) s' h.1 in
    record {
      resps = resp ∷ later.resps;
      final = later.final;
      sorted = later.sorted;
      answered = serves a later.answered;
      result =
          serve-call failure _ call _ m m' out resp h.0.0 e
            (Answers-to_stop call _ _ resp a ∙ h.0.2)
          ∙ later.result
          ∙ simp append_assoc;
    }

-- Over plain calls and the call to stop the client ends by itself, within one round for each
-- call, and writes the responses that a store, empty at first, gives to them, and then `STOP`.
pub run_client-Serves :
    (failure : Option Text) (calls : List KvCall) (rest : Text)
    → All IsPlain calls
    → (resps : List KvResp) × (final : SortedMap Text) × Serves (view final) (λ k. none) calls resps
      × (run_client (suc (length calls)) (at failure (write_calls calls (into_write stop ++ rest)))
          ≡ (write_responses resps ++ codes "STOP\n", ok final))
unfolding run_client SortedMap.lookup write_response
run_client-Serves failure calls rest h =
    let s = serve-Session failure calls rest [] [] tt h in (s.resps, s.final, s.answered, s.result)
