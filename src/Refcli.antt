-- ===== src/Refcli.antt =====
-- refcli/src/main.rs: the reference client, which reads calls from its standard input, keeps a
-- sorted map and writes responses to its standard output. Its `KvCall` and `KvResp` are those of
-- runner/src/ioapi.rs, and its `expect_next_seg` differs in the error's type alone.
pub mod Driven
pub mod Calls
pub mod Responses
pub mod Store
pub mod Session
pub mod Tests
use my_mad_kv.Prelude.{
  ℕ, zero, suc, Bool, true, false, not, Option, none, some, List, [], ◌∷◌, ◌++◌, length, is_some,
  if◌then◌else◌,
}
use my_mad_kv.Text.{Text, codes, is_empty, trim, text_eq, split_whitespace}
use my_mad_kv.Collections.SortedMap
use my_mad_kv.Collections.SortedMap.{SortedMap}
use my_mad_kv.Runner.Error.{ForeignError, Result, ok, err, out_of_fuel, ◌>>=◌}
use my_mad_kv.Runner.Ioapi.{
  KvCall, put, swap, get, scan, delete, stop, KvResp, put_resp, swap_resp, get_resp, scan_resp,
  delete_resp, stop_resp,
}
use my_mad_kv.Runner.Ioapi.Reader.{Reader, read_line}

-- Why the client ends early: an `io::Error` of its own, one of its standard input, or a panic.
pub data Failure : Type 0 where
  invalid_input : Text → Failure
  stdin_failed : ForeignError → Failure
  panicked : Failure

abbrev pub invalid_input_line : Text → Failure
invalid_input_line line = invalid_input (codes "invalid input line: " ++ line)

unfoldable pub expect_next_seg : List Text → Text → Result Failure (Text × List Text)
expect_next_seg [] line = err (invalid_input_line line)
expect_next_seg (s ∷ segs) line = ok (s, segs)

-- the arms with two fields
unfoldable pub parse_two : (Text → Text → KvCall) → List Text → Text → Result Failure KvCall
unfolding expect_next_seg
parse_two call segs line = do
  a ← expect_next_seg segs line
  b ← expect_next_seg a.1 line
  ok (call a.0 b.0)

-- the arms with one field
unfoldable pub parse_one : (Text → KvCall) → List Text → Text → Result Failure KvCall
unfolding expect_next_seg
parse_one call segs line = do a ← expect_next_seg segs line; ok (call a.0)

-- the `match` on the first segment
unfoldable pub parse_segs : List Text → Text → Result Failure KvCall
unfolding parse_two parse_one
parse_segs [] line = err (invalid_input_line line)
parse_segs (tag ∷ segs) line =
    if text_eq tag (codes "PUT")
    then parse_two put segs line
    else if text_eq tag (codes "SWAP")
    then parse_two swap segs line
    else if text_eq tag (codes "GET")
    then parse_one get segs line
    else if text_eq tag (codes "SCAN")
    then parse_two scan segs line
    else if text_eq tag (codes "DELETE")
    then parse_one delete segs line
    else if text_eq tag (codes "STOP")
    then ok stop
    else err (invalid_input_line line)

unfoldable pub parse_input_call : Text → Result Failure KvCall
unfolding parse_segs
parse_input_call line = parse_segs (split_whitespace line) line

-- The response and the new state; `none` is the panic of `BTreeMap::range`.
unfoldable pub handle_kv_call : KvCall → SortedMap Text → Option (KvResp × SortedMap Text)
handle_kv_call (put key value) state =
    some (put_resp key (is_some (SortedMap.lookup key state)), SortedMap.insert key value state)
handle_kv_call (swap key value) state =
    some (swap_resp key (SortedMap.lookup key state), SortedMap.insert key value state)
handle_kv_call (get key) state = some (get_resp key (SortedMap.lookup key state), state)
handle_kv_call (scan key_start key_end) state = elim (SortedMap.range key_start key_end state) [
  | none ↦ none
  | some entries ↦ some (scan_resp key_start key_end entries, state)
]
handle_kv_call (delete key) state =
    some (delete_resp key (is_some (SortedMap.lookup key state)), SortedMap.remove key state)
handle_kv_call stop state = some (stop_resp, state)

abbrev pub show_found : Bool → Text
show_found true = codes "found"
show_found false = codes "not_found"

abbrev pub show_value : Option Text → Text
show_value none = codes "null"
show_value (some value) = value

unfoldable pub write_entries : List (Text × Text) → Text
write_entries [] = codes "SCAN END\n"
write_entries ((k, v) ∷ entries) =
    codes "  " ++ (k ++ (codes " " ++ (v ++ (codes "\n" ++ write_entries entries))))

-- The text written to the standard output, which is taken not to fail.
unfoldable pub write_response : KvResp → Text
unfolding write_entries
write_response (put_resp key found) =
    codes "PUT " ++ (key ++ (codes " " ++ (show_found found ++ codes "\n")))
write_response (swap_resp key old_value) =
    codes "SWAP " ++ (key ++ (codes " " ++ (show_value old_value ++ codes "\n")))
write_response (get_resp key value) =
    codes "GET " ++ (key ++ (codes " " ++ (show_value value ++ codes "\n")))
write_response (scan_resp key_start key_end entries) =
    codes "SCAN "
    ++ (key_start ++ (codes " " ++ (key_end ++ (codes " BEGIN\n" ++ write_entries entries))))
write_response (delete_resp key found) =
    codes "DELETE " ++ (key ++ (codes " " ++ (show_found found ++ codes "\n")))
write_response stop_resp = codes "STOP\n"

-- The inner loop of `main`: lines are read into the one buffer until it is not blank.
unfoldable pub read_input : ℕ → Reader → Text → Result Failure (Text × Reader)
read_input zero stdin buffer = out_of_fuel
read_input (suc fuel) stdin buffer = elim (read_line stdin buffer) [
  | ok (size, buffer', stdin') ↦
      let rest = read_input fuel stdin' buffer' in
      if not (is_empty (trim buffer')) then ok (buffer', stdin') else rest
  | err e ↦ err (stdin_failed e)
  | out_of_fuel ↦ out_of_fuel
]

pub record Client : Type 0 where
  pub stdin : Reader
  pub state : SortedMap Text
  pub stdout : Text

abbrev pub to_stop : KvResp → Bool
to_stop stop_resp = true
to_stop _ = false

-- `handle_kv_call`, `write_response` and the test whether to stop
unfoldable pub answer : KvCall → Client → Result Failure (Bool × Client)
unfolding handle_kv_call
answer call client = elim (handle_kv_call call client.state) [
  | none ↦ err panicked
  | some (resp, state') ↦ ok (
    to_stop resp,
    record client { state = state'; stdout = client.stdout ++ write_response resp },
  )
]

-- one round of the outer loop; the flag says to leave it
unfoldable pub serve_one : Client → Result Failure (Bool × Client)
serve_one client = read_input (suc (length client.stdin.pending)) client.stdin [] >>= λ line.
    parse_input_call (trim line.0) >>= λ call. answer call (record client { stdin = line.1 })

-- The outer loop of `main`, and the text written when it ends, also early.
unfoldable pub serve : ℕ → Client → Text × Result Failure (SortedMap Text)
serve zero client = (client.stdout, out_of_fuel)
serve (suc fuel) client = elim (serve_one client) [
  | ok (true, client') ↦ (client'.stdout, ok client'.state)
  | ok (false, client') ↦ serve fuel client'
  | err e ↦ (client.stdout, err e)
  | out_of_fuel ↦ (client.stdout, out_of_fuel)
]

-- `main` over a standard input
unfoldable pub run_client : ℕ → Reader → Text × Result Failure (SortedMap Text)
run_client fuel stdin = serve fuel (record { stdin = stdin; state = []; stdout = [] })
