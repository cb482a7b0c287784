-- ===== src/Fuzzer/Loop/Sound.antt =====
-- What it means that the responses to the calls of runner/src/bin/fuzzer/main.rs are those of a
-- linearizable store: each call takes effect at a point between its call and its response, and the
-- response tells of what the calls in front of that point have left.
pub mod Rows
pub mod Knows
pub mod Steps
pub mod Coming
pub mod Runs
pub mod NoAlarm
use my_mad_kv.Fuzzer.History.Instants.{
  Instant, at_tick, IsBefore, IsUpto, IsBefore-or, IsBefore-absurd, IsUpto-refl, IsBefore-IsUpto,
  IsUpto-IsBefore, IsUpto-IsUpto, at_tick-IsBefore, at_tick-IsUpto, IsBefore-lt, IsUpto-le,
}
use my_mad_kv.Prelude.{ℕ, ◌≤◌, ◌<◌, ◌≡◌, ◌⊎◌, true, Option, none, some, List, [], ◌∷◌, is_some, All}
use my_mad_kv.Text.{Text}
use my_mad_kv.Collections.HashMap.{HashMap, lookup}
use my_mad_kv.Runner.Ioapi.{
  KvResp, put_resp, swap_resp, get_resp, scan_resp, delete_resp, stop_resp,
}
use my_mad_kv.Fuzzer.History.{KeySpans}
use my_mad_kv.Fuzzer.History.Scans.{in_range, AllInRange, IsDistinct}
use my_mad_kv.Fuzzer.Loop.Protocol.{Harvest}

-- A response with the moment at which its call takes effect. The clock of the tester ticks at calls
-- and responses only, and any number of moments lie between two ticks.
pub record Effect : Type 0 where
  pub harvest : Harvest
  pub point : Instant

abbrev pub harvests : List Effect → List Harvest
harvests [] = []
harvests (y ∷ ys) = y.harvest ∷ harvests ys

abbrev pub Elem : {A : Type 0} → A → List A → Type 0
Elem x [] = ⊥
Elem x (y ∷ l) = (x ≡ y) ⊎ Elem x l

-- The call is an update of the key, to that value.
abbrev pub IsUpdate : Effect → Text → Option Text → Type 0
IsUpdate y key value = y.harvest.memo.1 ≡ some (key, value)

-- No update of the key takes effect between the two points.
abbrev pub NoneBetween : List Effect → Text → Instant → Instant → Type 0
NoneBetween all key from now =
    (y : Effect) (value : Option Text)
    → Elem y all
    → IsUpdate y key value
    → IsBefore y.point now
    → IsUpto y.point from

-- At that point the key has the value: that of the last update in front of it, or none if there
-- is no such update.
abbrev pub ValueAt : List Effect → Text → Instant → Option Text → Type 0
ValueAt all key now value =
    ((y : Effect) × Elem y all
      × IsUpdate y key value
      × IsBefore y.point now
      × NoneBetween all key y.point now)
    ⊎ ((value ≡ none) × NoneBetween all key (at_tick 0) now)

-- The key is in the pool.
abbrev pub IsKnown : HashMap KeySpans → Text → Type 0
IsKnown spans key = is_some (lookup key spans) ≡ true

-- A response tells of the values that the keys have at a point.
abbrev pub Answers : List Effect → HashMap KeySpans → Instant → KvResp → Type 0
Answers all pool now (put_resp key found) =
    IsKnown pool key × ((v : Option Text) × ValueAt all key now v × (is_some v ≡ found))
Answers all pool now (swap_resp key old_value) = IsKnown pool key × ValueAt all key now old_value
Answers all pool now (get_resp key value) = IsKnown pool key × ValueAt all key now value
Answers all pool now (scan_resp key_start key_end entries) =
    AllInRange key_start key_end entries
    × IsDistinct entries
    × ((key : Text)
        → IsKnown pool key
        → in_range key_start key_end key ≡ true
        → ValueAt all key now (lookup key entries))
Answers all pool now (delete_resp key found) =
    IsKnown pool key × ((v : Option Text) × ValueAt all key now v × (is_some v ≡ found))
Answers all pool now stop_resp = ⊥

-- One call of a linearizable store.
abbrev pub IsLinear : List Effect → HashMap KeySpans → Effect → Type 0
IsLinear all pool y =
    IsUpto (at_tick y.harvest.memo.0) y.point
    × IsUpto y.point (at_tick y.harvest.ts_resp)
    × ((key : Text) (value : Option Text) → IsUpdate y key value → IsKnown pool key)
    × Answers all pool y.point y.harvest.resp

-- The calls are those of a linearizable store whose keys are all of the pool.
abbrev pub Linearizable : HashMap KeySpans → List Effect → Type 0
Linearizable pool all = All (IsLinear all pool) all
