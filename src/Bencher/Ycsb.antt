-- ===== src/Bencher/Ycsb.antt =====
-- runner/src/bin/bencher/ycsb.rs: the lines of the YCSB driver, and the calls that they stand for.
pub mod ScanEnd
use my_mad_kv.Prelude.{
  ℕ, zero, suc, ◌+◌, ◌-◌, ◌*◌, ◌^◌, ◌%◌, Bool, true, false, not, ◌&&◌, Option, none, some, List, [],
  ◌∷◌, ◌++◌, ltb, leb, get_elem?, if◌then◌else◌,
}
use my_mad_kv.Text.{Text, codes, text_eq, text_ltb, is_empty, split_whitespace}
use my_mad_kv.Collections.SortedMap
use my_mad_kv.Collections.SortedMap.{SortedMap}
use my_mad_kv.Runner.Error.{
  RunnerError, parse, parse_int_error, from, Result, ok, err, out_of_fuel, ◌>>=◌,
}
use my_mad_kv.Runner.Ioapi.{KvCall, put, swap, get, scan}

-- `BTreeSet<String>`
abbrev pub KeySet : Type 0
KeySet = SortedMap Unit

abbrev pub key_missing : RunnerError
key_missing = parse (codes "missing key segment")

-- `segs.next().ok_or(..)`
abbrev pub next_or : RunnerError → List Text → Result RunnerError (Text × List Text)
next_or e [] = err e
next_or e (s ∷ segs) = ok (s, segs)

unfoldable pub parse_ycsb_key : List Text → Result RunnerError (Text × List Text)
parse_ycsb_key segs = next_or key_missing segs >>= λ (table, rest).
    next_or key_missing rest >>= λ (id, rest'). ok (table ++ codes "_" ++ id, rest')

-- the loop over the segments behind the bracket
unfoldable pub join_value : List Text → Text
join_value [] = []
join_value (seg ∷ segs) = codes "_" ++ seg ++ join_value segs

unfoldable pub parse_ycsb_value : List Text → Result RunnerError Text
unfolding join_value
parse_ycsb_value [] = err (parse (codes "no value start bracket"))
parse_ycsb_value (seg ∷ segs) =
    if text_eq seg (codes "[")
    then ok (join_value segs)
    else err (parse (codes "no value start bracket"))

-- The digits of `str::parse::<usize>`, behind those that are read.
unfoldable pub parse_digits : ℕ → Text → Result RunnerError ℕ
parse_digits acc [] = ok acc
parse_digits acc (c ∷ cs) =
    let rest = parse_digits (acc * 10 + (c - b'0')) cs in
    if not (leb b'0' c && leb c b'9')
    then err (from (parse_int_error (codes "invalid digit found in string")))
    else if ltb (acc * 10 + (c - b'0')) (2 ^ 64)
    then rest
    else err (from (parse_int_error (codes "number too large to fit in target type")))

-- `str::parse::<usize>`, which takes a plus sign in front of the digits
unfoldable pub parse_usize : Text → Result RunnerError ℕ
unfolding parse_digits
parse_usize [] = err (from (parse_int_error (codes "cannot parse integer from empty string")))
parse_usize (c ∷ []) = parse_digits 0 (c ∷ [])
parse_usize (c ∷ d ∷ cs) =
    if text_eq (c ∷ []) (codes "+") then parse_digits 0 (d ∷ cs) else parse_digits 0 (c ∷ d ∷ cs)

unfoldable pub parse_ycsb_scnt : List Text → Result RunnerError ℕ
unfolding parse_usize
parse_ycsb_scnt segs =
    next_or (parse (codes "missing scan count")) segs >>= λ (seg, rest). parse_usize seg

-- `range(key_start..)`
unfoldable pub keys_from : Text → KeySet → List Text
keys_from key_start [] = []
keys_from key_start ((key, u) ∷ ikeys) =
    let rest = keys_from key_start ikeys in if text_ltb key key_start then rest else key ∷ rest

-- `last().unwrap()` of the set with that first key
unfoldable pub last_key : Text → KeySet → Text
last_key key [] = key
last_key key ((key', u) ∷ ikeys) = last_key key' ikeys

-- The end of a scan of so many keys, over the set with that first key. The subtraction wraps, as
-- in a release build.
unfoldable pub scan_end : Text → ℕ → Text → KeySet → Text
unfolding keys_from last_key
scan_end key_start scnt key ikeys =
    elim (get_elem? (keys_from key_start ((key, tt) ∷ ikeys)) ((scnt + (2 ^ 64 - 1)) % 2 ^ 64)) [
      | none ↦ last_key key ikeys
      | some key_end ↦ key_end
    ]

-- the arm of a scan
unfoldable pub interpret_scan : List Text → KeySet → Result RunnerError KvCall
unfolding parse_ycsb_key parse_ycsb_scnt scan_end
interpret_scan segs [] =
    parse_ycsb_key segs >>= λ (key_start, rest). ok (scan key_start (codes "zzzzzzzz"))
interpret_scan segs ((key, u) ∷ ikeys) = parse_ycsb_key segs >>= λ (key_start, rest).
    parse_ycsb_scnt rest >>= λ scnt. ok (scan key_start (scan_end key_start scnt key ikeys))

-- The call and the name of its operation, if the line is a call, and the keys that are left.
unfoldable pub interpret_ycsb_call :
    Text → KeySet → Result RunnerError (Option (KvCall × Text) × KeySet)
unfolding interpret_scan parse_ycsb_value
interpret_ycsb_call line ikeys = elim (split_whitespace line) [
  | [] ↦ ok (none, ikeys)
  | tag ∷ segs ↦
      if text_eq tag (codes "INSERT")
      then (parse_ycsb_key segs >>= λ (key, rest). parse_ycsb_value rest >>= λ value.
          ok (some (put key value, codes "INSERT"), SortedMap.insert key tt ikeys))
      else if text_eq tag (codes "UPDATE")
      then (parse_ycsb_key segs >>= λ (key, rest).
          parse_ycsb_value rest >>= λ value. ok (some (swap key value, codes "UPDATE"), ikeys))
      else if text_eq tag (codes "READ")
      then (parse_ycsb_key segs >>= λ (key, rest). ok (some (get key, codes "READ"), ikeys))
      else if text_eq tag (codes "SCAN")
      then (interpret_scan segs ikeys >>= λ call. ok (some (call, codes "SCAN"), ikeys))
      else ok (none, ikeys)
]
