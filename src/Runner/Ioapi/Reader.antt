-- ===== src/Runner/Ioapi/Reader.antt =====
-- runner/src/ioapi.rs, `KvResp::from_read`: responses read from the lines of a client's output.
-- A `BufRead` is the text that it has still to give, and the error with which it fails behind it;
-- with no such error the text ends in the end of the file, where `read_line` returns 0.
use my_mad_kv.Prelude.{
  ℕ, zero, suc, Bool, true, false, not, Option, none, some, List, [], ◌∷◌, ◌++◌, ◌==◌, length,
  if◌then◌else◌,
}
use my_mad_kv.Text.{Text, codes, newline, is_empty, trim, text_eq, split_whitespace, utf8_len}
use my_mad_kv.Runner.Error.{
  RunnerError, io, parse, ForeignError, io_error, from, Result, ok, err, out_of_fuel, ◌>>=◌,
}
use my_mad_kv.Runner.Ioapi.{
  KvResp, put_resp, swap_resp, get_resp, scan_resp, delete_resp, stop_resp,
}

pub record Reader : Type 0 where
  pub pending : Text
  pub failure : Option Text

-- the next line with its newline, and the text behind it
unfoldable pub take_line : Option Text → Text → Result ForeignError (Text × Text)
take_line failure [] = elim failure [ none ↦ ok ([], []) | some msg ↦ err (io_error msg) ]
take_line failure (c ∷ cs) =
    let rest = take_line failure cs in
    if c == newline then ok (c ∷ [], cs) else rest >>= λ r. ok (c ∷ r.0, r.1)

-- `BufRead::read_line`, which appends the line to the buffer and returns its size
unfoldable pub read_line : Reader → Text → Result ForeignError (ℕ × Text × Reader)
read_line reader buffer = take_line reader.failure reader.pending >>= λ r.
    ok (utf8_len r.0, buffer ++ r.0, record reader { pending = r.1 })

-- The loop of `read_next_line`. It clears the buffer before the loop, and not in it.
unfoldable pub read_next_line_loop : ℕ → Reader → Text → Result RunnerError (ℕ × Text × Reader)
read_next_line_loop zero reader buffer = out_of_fuel
read_next_line_loop (suc fuel) reader buffer = elim (read_line reader buffer) [
  | ok (size, buffer', reader') ↦
      let rest = read_next_line_loop fuel reader' buffer' in
      if not (is_empty (trim buffer')) then ok (size, buffer', reader') else rest
  | err e ↦ err (from e)
  | out_of_fuel ↦ out_of_fuel
]

unfoldable pub read_next_line : ℕ → Reader → Result RunnerError (ℕ × Text × Reader)
read_next_line fuel reader = read_next_line_loop fuel reader []

abbrev pub invalid_line : Text → RunnerError
invalid_line buffer = io (codes "invalid line: " ++ buffer)

-- the next segment, and the segments behind it
unfoldable pub expect_next_seg : List Text → Text → Result RunnerError (Text × List Text)
expect_next_seg [] buffer = err (invalid_line buffer)
expect_next_seg (s ∷ segs) buffer = ok (s, segs)

-- the field `found` of `PUT` and `DELETE`
unfoldable pub read_found : Text → Result RunnerError Bool
read_found found =
    if text_eq found (codes "found")
    then ok true
    else if text_eq found (codes "not_found")
    then ok false
    else err (parse (codes "invalid 'found' field: " ++ found))

-- the fields `old_value` of `SWAP` and `value` of `GET`
unfoldable pub read_value : Text → Option Text
read_value value = if text_eq value (codes "null") then none else some value

-- The loop through the scan results, each round of which reads one line.
unfoldable pub read_entries :
    ℕ → Reader → List (Text × Text) → Result RunnerError (List (Text × Text) × Reader)
read_entries zero reader entries = out_of_fuel
read_entries (suc fuel) reader entries =
    read_next_line (suc (length reader.pending)) reader >>= λ line.
    elim (text_eq (trim line.1) (codes "SCAN END")) [
      | true ↦ ok (entries, line.2)
      | false ↦ expect_next_seg (split_whitespace line.1) line.1 >>= λ k.
          expect_next_seg k.1 line.1 >>= λ v. read_entries fuel line.2 (entries ++ (k.0, v.0) ∷ [])
    ]

-- The arms of `from_read` behind the first segment.
unfoldable pub read_put : List Text → Text → Result RunnerError KvResp
unfolding expect_next_seg read_found
read_put segs buffer = do
  key ← expect_next_seg segs buffer
  found ← expect_next_seg key.1 buffer
  b ← read_found found.0
  ok (put_resp key.0 b)

unfoldable pub read_swap : List Text → Text → Result RunnerError KvResp
unfolding expect_next_seg read_value
read_swap segs buffer = do
  key ← expect_next_seg segs buffer
  old_value ← expect_next_seg key.1 buffer
  ok (swap_resp key.0 (read_value old_value.0))

unfoldable pub read_get : List Text → Text → Result RunnerError KvResp
unfolding expect_next_seg read_value
read_get segs buffer = do
  key ← expect_next_seg segs buffer
  value ← expect_next_seg key.1 buffer
  ok (get_resp key.0 (read_value value.0))

unfoldable pub read_delete : List Text → Text → Result RunnerError KvResp
unfolding expect_next_seg read_found
read_delete segs buffer = do
  key ← expect_next_seg segs buffer
  found ← expect_next_seg key.1 buffer
  b ← read_found found.0
  ok (delete_resp key.0 b)

unfoldable pub read_scan : List Text → Text → Reader → Result RunnerError (KvResp × Reader)
unfolding expect_next_seg
read_scan segs buffer reader = do
  key_start ← expect_next_seg segs buffer
  key_end ← expect_next_seg key_start.1 buffer
  begin ← expect_next_seg key_end.1 buffer
  if text_eq begin.0 (codes "BEGIN")
      then read_entries (suc (length reader.pending)) reader []
        >>= (λ r. ok (scan_resp key_start.0 key_end.0 r.0, r.1))
      else err (invalid_line buffer)

-- the reader that stands behind the line goes on with the response
abbrev pub with_reader : Reader → Result RunnerError KvResp → Result RunnerError (KvResp × Reader)
with_reader reader r = r >>= λ resp. ok (resp, reader)

-- the `match` on the first segment
unfoldable pub read_resp : List Text → Text → Reader → Result RunnerError (KvResp × Reader)
read_resp [] buffer reader = err (invalid_line buffer)
read_resp (tag ∷ segs) buffer reader =
    if text_eq tag (codes "PUT")
    then with_reader reader (read_put segs buffer)
    else if text_eq tag (codes "SWAP")
    then with_reader reader (read_swap segs buffer)
    else if text_eq tag (codes "GET")
    then with_reader reader (read_get segs buffer)
    else if text_eq tag (codes "SCAN")
    then read_scan segs buffer reader
    else if text_eq tag (codes "DELETE")
    then with_reader reader (read_delete segs buffer)
    else if text_eq tag (codes "STOP")
    then ok (stop_resp, reader)
    else err (invalid_line buffer)

-- `from_read`, with one round of fuel for each character that is pending, and one more
unfoldable pub from_read : Reader → Result RunnerError (KvResp × Reader)
from_read reader = read_next_line (suc (length reader.pending)) reader >>= λ line.
    read_resp (split_whitespace line.1) line.1 line.2
