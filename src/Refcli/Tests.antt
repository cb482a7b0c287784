-- ===== src/Refcli/Tests.antt =====
-- Runs of the reference client at concrete inputs, and the theorems about it at such.
use my_mad_kv.Prelude.{All, true, ◌≡◌, refl, none, List, [], ◌∷◌, ◌++◌}
use my_mad_kv.Text.{
  Text, codes, trim, text_eq, text_ltb, text_compare, is_whitespace, split_whitespace, utf8_len,
}
use my_mad_kv.Text.Words.{is_word}
use my_mad_kv.Collections.SortedMap
use my_mad_kv.Collections.SortedMap.{SortedMap}
use my_mad_kv.Runner.Error.{ok}
use my_mad_kv.Runner.Ioapi.{KvCall, put, scan, stop, into_write, KvResp, scan_resp, stop_resp}
use my_mad_kv.Runner.Ioapi.Reader.{from_read, read_line, take_line}
use my_mad_kv.Runner.Ioapi.Reading.{at}
use my_mad_kv.Refcli.{
  parse_input_call, write_response, run_client, serve, serve_one, answer, read_input,
  handle_kv_call,
}
use my_mad_kv.Refcli.Calls.{parse_input_call-into_write}
use my_mad_kv.Refcli.Responses.{IsReadable, from_read-write_response}
use my_mad_kv.Refcli.Session.{Serves, write_calls, write_responses, run_client-Serves}
use my_mad_kv.Runner.Proc.{quietly, driver_thread}
use my_mad_kv.Refcli.Driven.{driver_thread-Serves}
use my_mad_kv.Refcli.Store.{view, Handled, handle_kv_call-Handled}

abbrev two_entries : SortedMap Text
two_entries = (codes "a", codes "1") ∷ (codes "b", codes "2") ∷ []

abbrev some_calls : List KvCall
some_calls = put (codes "b") (codes "1") ∷ scan (codes "a") (codes "c") ∷ []

parse_input_call-into_write_example :
    parse_input_call (trim (into_write (put (codes "key") (codes "value"))))
    ≡ ok (put (codes "key") (codes "value"))
unfolding is_word is_whitespace
parse_input_call-into_write_example =
    parse_input_call-into_write (put (codes "key") (codes "value")) (refl, refl)

from_read-write_response_example :
    from_read
      (at none (write_response (scan_resp (codes "a") (codes "c") two_entries) ++ codes "STOP\n"))
    ≡ ok (scan_resp (codes "a") (codes "c") two_entries, at none (codes "STOP\n"))
unfolding is_word is_whitespace text_eq text_compare
from_read-write_response_example =
    from_read-write_response none (codes "STOP\n") (scan_resp (codes "a") (codes "c") two_entries)
      (refl, refl, ((refl, refl, refl), ((refl, refl, refl), tt)))

handle_kv_call-Handled_example :
    Handled
      (scan (codes "a") (codes "b"))
      two_entries
      (handle_kv_call (scan (codes "a") (codes "b")) two_entries)
unfolding text_ltb text_compare
handle_kv_call-Handled_example =
    handle_kv_call-Handled (scan (codes "a") (codes "b")) two_entries ((refl, tt), (tt, tt))

run_client-Serves_example :
    (resps : List KvResp) × (final : SortedMap Text) × Serves
      (view final)
      (λ k. none)
      some_calls
      resps
    × (run_client 3 (at none (write_calls some_calls (into_write stop ++ [])))
        ≡ (write_responses resps ++ codes "STOP\n", ok final))
unfolding is_word is_whitespace text_ltb text_compare
run_client-Serves_example =
    run_client-Serves none some_calls []
      (((refl, refl), refl, refl), (((refl, refl), refl, refl), tt))

driver_thread-Serves_example :
    (resps : List KvResp) × (final : SortedMap Text) × Serves
      (view final)
      (λ k. none)
      some_calls
      resps
    × ((out : Text) × (run_client 3 (at none (write_calls (some_calls ++ stop ∷ []) []))
          ≡ (out, ok final))
        × (All IsReadable resps
            → driver_thread (some_calls ++ stop ∷ []) (at none out)
              ≡ quietly (record {
                calls = [];
                stdin = write_calls (some_calls ++ stop ∷ []) [];
                stdout = at none [];
                resps = resps ++ stop_resp ∷ [];
                receiver = true;
                stopped = true;
              })))
unfolding is_word is_whitespace text_ltb text_compare
driver_thread-Serves_example =
    driver_thread-Serves none some_calls
      (((refl, refl), refl, refl), (((refl, refl), refl, refl), tt))

-- A session as a user sees it.
session : run_client 4 (at none (codes "\nPUT b 1\n  GET b\n\nSCAN a b\nSTOP\n")) ≡ (
  codes "PUT b not_found\nGET b 1\nSCAN a b BEGIN\nSCAN END\nSTOP\n",
  ok ((codes "b", codes "1") ∷ []),
)
unfolding run_client serve serve_one answer read_input read_line take_line utf8_len trim
    is_whitespace parse_input_call split_whitespace text_eq text_ltb text_compare handle_kv_call
    SortedMap.lookup SortedMap.insert SortedMap.range SortedMap.between write_response
session = refl
