-- ===== src/Fuzzer/History.antt =====
-- runner/src/bin/fuzzer/history.rs: the checker of responses against the acknowledged updates.
-- The `debug_assert!`s, which a release build leaves out, are no part of the operations: what they
-- ask of the callers stands as hypotheses. A `VecDeque` is the list from its front to its back.
pub mod Checks
pub mod Accepts
pub mod Scans
pub mod Verdicts
pub mod Trimming
pub mod Invariant
pub mod Preserved
pub mod Alike
pub mod Instants
pub mod Linear
pub mod Bounds
pub mod Untrimmed
use my_mad_kv.Prelude.{
  ℕ, zero, suc, ◌-◌, ◌^◌, Bool, true, false, not, ◌&&◌, ◌||◌, Option, none, some, List, [], ◌∷◌,
  ◌++◌, ltb, length, set, replicate, same_bool, min, if◌then◌else◌,
}
use mathlib.Core.List.{reverse}
use my_mad_kv.Text.{Text, text_eq, text_ltb}
use my_mad_kv.Collections.HashMap
use my_mad_kv.Collections.HashMap.{HashMap}
use my_mad_kv.Runner.Ioapi.{
  KvResp, put_resp, swap_resp, get_resp, scan_resp, delete_resp, stop_resp,
}

pub record UpdateSpan : Type 0 where
  pub ts_call : ℕ
  pub ts_resp : ℕ
  pub value : Option Text

pub record QueuedSpan : Type 0 where
  pub ts_call : ℕ
  pub ts_resp : ℕ
  pub resp : KvResp

-- the updates of one key, for each client
abbrev pub KeySpans : Type 0
KeySpans = List (List UpdateSpan)

pub record History : Type 0 where
  pub queue : List QueuedSpan
  pub spans : HashMap KeySpans
  pub maxtr : List ℕ

-- `u64::MAX`
abbrev pub u64_max : ℕ
u64_max = 2 ^ 64 - 1

-- the dummy Delete in front of every client's updates
abbrev pub dummy : UpdateSpan
dummy = record { ts_call = 0; ts_resp = 0; value = none }

-- the inner loop of `new`, over the keys of one client
unfoldable pub add_keys : ℕ → List Text → HashMap KeySpans → HashMap KeySpans
add_keys num_clis [] spans = spans
add_keys num_clis (key ∷ keys) spans = add_keys num_clis keys (
    if not (HashMap.contains_key key spans)
    then HashMap.insert key (replicate num_clis (dummy ∷ [])) spans
    else spans)

-- the outer loop of `new`
unfoldable pub add_all_keys : ℕ → List (List Text) → HashMap KeySpans → HashMap KeySpans
unfolding add_keys
add_all_keys num_clis [] spans = spans
add_all_keys num_clis (cli_keys ∷ keys) spans =
    add_all_keys num_clis keys (add_keys num_clis cli_keys spans)

unfoldable pub new : ℕ → List (List Text) → History
unfolding add_all_keys
new num_clis keys = record {
  queue = [];
  spans = add_all_keys num_clis keys [];
  maxtr = replicate num_clis 0;
}

unfoldable pub add_to_queue : ℕ → ℕ → KvResp → History → History
add_to_queue ts_call ts_resp resp h = record h {
  queue = h.queue ++ record { ts_call = ts_call; ts_resp = ts_resp; resp = resp } ∷ [];
}

unfoldable pub queue_len : History → ℕ
queue_len h = length h.queue

-- The loop over one client's updates, the last one first, that the four checks of a single key
-- have in common: `matches` is the test of the value.
unfoldable pub scan_back : (Option Text → Bool) → ℕ → ℕ → List UpdateSpan → Bool
scan_back matches ts_call ts_resp [] = false
scan_back matches ts_call ts_resp (span ∷ older) =
    let rest = scan_back matches ts_call ts_resp older in
    if ltb span.ts_call ts_resp && matches span.value
    then true
    else if ltb span.ts_resp ts_call
    then false
    else rest

-- the loop over the clients
unfoldable pub check_clients : (Option Text → Bool) → ℕ → ℕ → KeySpans → Bool
unfolding scan_back
check_clients matches ts_call ts_resp [] = false
check_clients matches ts_call ts_resp (cli_spans ∷ key_spans) =
    let rest = check_clients matches ts_call ts_resp key_spans in
    if scan_back matches ts_call ts_resp (reverse cli_spans) then true else rest

-- `span.value.is_some() == *found`
abbrev pub found_matches : Bool → Option Text → Bool
found_matches found none = same_bool false found
found_matches found (some v) = same_bool true found

-- `span.value.as_ref() == value`
abbrev pub value_matches : Option Text → Option Text → Bool
value_matches none none = true
value_matches none (some w) = false
value_matches (some v) none = false
value_matches (some v) (some w) = text_eq w v

unfoldable pub check_put : KeySpans → ℕ → ℕ → Bool → Bool
check_put key_spans ts_call ts_resp found =
    check_clients (found_matches found) ts_call ts_resp key_spans

unfoldable pub check_swap : KeySpans → ℕ → ℕ → Option Text → Bool
check_swap key_spans ts_call ts_resp old_value =
    check_clients (value_matches old_value) ts_call ts_resp key_spans

unfoldable pub check_get : KeySpans → ℕ → ℕ → Option Text → Bool
check_get key_spans ts_call ts_resp value =
    check_clients (value_matches value) ts_call ts_resp key_spans

unfoldable pub check_delete : KeySpans → ℕ → ℕ → Bool → Bool
check_delete key_spans ts_call ts_resp found =
    check_clients (found_matches found) ts_call ts_resp key_spans

-- The first loop of `check_scan`: `none` is its `return false`.
unfoldable pub collect_entries :
    Text → Text → List (Text × Text) → HashMap Text → Option (HashMap Text)
collect_entries key_start key_end [] entries_map = some entries_map
collect_entries key_start key_end ((key, value) ∷ entries) entries_map =
    let rest = collect_entries key_start key_end entries (HashMap.insert key value entries_map) in
    if text_ltb key key_start || text_ltb key_end key
    then none
    else if HashMap.contains_key key entries_map
    then none
    else rest

-- the second loop of `check_scan`
unfoldable pub check_keys : Text → Text → ℕ → ℕ → HashMap Text → HashMap KeySpans → Bool
unfolding check_get
check_keys key_start key_end ts_call ts_resp entries_map [] = true
check_keys key_start key_end ts_call ts_resp entries_map ((key, key_spans) ∷ spans) =
    let rest = check_keys key_start key_end ts_call ts_resp entries_map spans in
    if not (text_ltb key key_start)
      && not (text_ltb key_end key)
      && not (check_get key_spans ts_call ts_resp (HashMap.lookup key entries_map))
    then false
    else rest

unfoldable pub check_scan : HashMap KeySpans → ℕ → ℕ → Text → Text → List (Text × Text) → Bool
unfolding collect_entries check_keys
check_scan spans ts_call ts_resp key_start key_end entries =
    elim (collect_entries key_start key_end entries []) [
      | none ↦ false
      | some entries_map ↦ check_keys key_start key_end ts_call ts_resp entries_map spans
    ]

-- `if let Some(key_spans) = self.spans.get(key)`, with `false` for its `else`
abbrev pub on_key : Option KeySpans → (KeySpans → Bool) → Bool
on_key none check = false
on_key (some key_spans) check = check key_spans

unfoldable pub check_resp : HashMap KeySpans → ℕ → ℕ → KvResp → Bool
unfolding check_put check_swap check_get check_delete check_scan
check_resp spans ts_call ts_resp (put_resp key found) =
    on_key (HashMap.lookup key spans) (λ ks. check_put ks ts_call ts_resp found)
check_resp spans ts_call ts_resp (swap_resp key old_value) =
    on_key (HashMap.lookup key spans) (λ ks. check_swap ks ts_call ts_resp old_value)
check_resp spans ts_call ts_resp (get_resp key value) =
    on_key (HashMap.lookup key spans) (λ ks. check_get ks ts_call ts_resp value)
check_resp spans ts_call ts_resp (scan_resp key_start key_end entries) =
    check_scan spans ts_call ts_resp key_start key_end entries
check_resp spans ts_call ts_resp (delete_resp key found) =
    on_key (HashMap.lookup key spans) (λ ks. check_delete ks ts_call ts_resp found)
check_resp spans ts_call ts_resp stop_resp = false

unfoldable pub check_call : HashMap KeySpans → QueuedSpan → Bool
unfolding check_resp
check_call spans entry = check_resp spans entry.ts_call entry.ts_resp entry.resp

-- `iter().min()`, over a first element and the others
unfoldable pub min_from : ℕ → List ℕ → ℕ
min_from m [] = m
min_from m (x ∷ xs) = min_from (min m x) xs

-- `self.maxtr.iter().min().unwrap()`; its panic on no client comes after that of the index
unfoldable pub min_coming : List ℕ → ℕ
unfolding min_from
min_coming [] = 0
min_coming (x ∷ xs) = min_from x xs

-- the smallest `ts_call` in the queue, or `u64::MAX`
unfoldable pub min_queued : List QueuedSpan → ℕ
min_queued [] = u64_max
min_queued (e ∷ []) = e.ts_call
min_queued (e ∷ f ∷ queue) = min e.ts_call (min_queued (f ∷ queue))

-- The `for` loop that looks for `keep_ts`, over the updates from the last one on.
unfoldable pub keep_ts : ℕ → ℕ → List UpdateSpan → ℕ
keep_ts min_coming_ts min_queued_ts [] = 0
keep_ts min_coming_ts min_queued_ts (span ∷ older) =
    let rest = keep_ts min_coming_ts min_queued_ts older in
    if ltb span.ts_resp min_coming_ts && ltb span.ts_resp min_queued_ts then span.ts_call else rest

-- the `while` loop that pops the front
unfoldable pub trim_front : ℕ → List UpdateSpan → List UpdateSpan
trim_front keep [] = []
trim_front keep (span ∷ []) = span ∷ []
trim_front keep (span ∷ next ∷ later) =
    let rest = trim_front keep (next ∷ later) in
    if ltb span.ts_resp keep then rest else span ∷ next ∷ later

unfoldable pub trim_client : ℕ → ℕ → List UpdateSpan → List UpdateSpan
unfolding keep_ts trim_front
trim_client min_coming_ts min_queued_ts cli_spans =
    trim_front (keep_ts min_coming_ts min_queued_ts (reverse cli_spans)) cli_spans

unfoldable pub trim_clients : ℕ → ℕ → KeySpans → KeySpans
unfolding trim_client
trim_clients min_coming_ts min_queued_ts [] = []
trim_clients min_coming_ts min_queued_ts (cli_spans ∷ key_spans) =
    trim_client min_coming_ts min_queued_ts cli_spans
    ∷ trim_clients min_coming_ts min_queued_ts key_spans

-- The last loop of `apply_update`: the queue that is left, and the response whose check failed.
unfoldable pub drain : ℕ → HashMap KeySpans → List QueuedSpan → List QueuedSpan × Option KvResp
drain min_coming_ts spans [] = ([], none)
drain min_coming_ts spans (entry ∷ queue) =
    let rest = drain min_coming_ts spans queue in
    if ltb entry.ts_resp min_coming_ts
    then if not (check_call spans entry) then (queue, some entry.resp) else rest
    else (entry ∷ queue, none)

-- `key_spans[cidx].push_back(..)`
abbrev pub push_span : UpdateSpan → ℕ → KeySpans → KeySpans
push_span span i [] = []
push_span span zero (cli_spans ∷ key_spans) = (cli_spans ++ span ∷ []) ∷ key_spans
push_span span (suc i) (cli_spans ∷ key_spans) = cli_spans ∷ push_span span i key_spans

-- The history after an update, and what the function returns; or an index out of bounds.
pub data Applied : Type 0 where
  applied : History → Option (Option KvResp) → Applied
  panicked : Applied

-- `apply_update` behind the lookup of the key and the tests of the index
unfoldable pub update_key : ℕ → UpdateSpan → Text → KeySpans → History → Applied
unfolding min_coming min_queued trim_clients drain
update_key cidx span key key_spans h =
    let maxtr' = set h.maxtr cidx span.ts_resp in
    let min_coming_ts = min_coming maxtr' in
    let min_queued_ts = min_queued h.queue in
    let trimmed = trim_clients min_coming_ts min_queued_ts (push_span span cidx key_spans) in
    let spans' = HashMap.insert key trimmed h.spans in
    let (queue', failed) = drain min_coming_ts spans' h.queue in
    applied (record { queue = queue'; spans = spans'; maxtr = maxtr' })
      (elim failed [ none ↦ none | some resp ↦ some (some resp) ])

unfoldable pub apply_update : ℕ → ℕ → ℕ → Text → Option Text → History → Applied
unfolding update_key
apply_update cidx ts_call ts_resp key value h = elim (HashMap.lookup key h.spans) [
  | none ↦ applied h (some none)
  | some key_spans ↦
      if ltb cidx (length key_spans) && ltb cidx (length h.maxtr)
      then update_key cidx (record { ts_call = ts_call; ts_resp = ts_resp; value = value }) key
          key_spans h
      else panicked
]
