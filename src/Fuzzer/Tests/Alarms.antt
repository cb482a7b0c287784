-- ===== src/Fuzzer/Tests/Alarms.antt =====
-- The theorems about the alarms of the fuzz tester at concrete inputs.
use my_mad_kv.Prelude.{
  ◌+◌, sym, ℕ, ◌≡◌, ◌≤◌, refl, ap, inl, inr, Option, none, some, List, [], ◌∷◌, arith, replicate,
}
use mathlib.Core.Path.{subst}
use my_mad_kv.Text.{Text, codes}
use my_mad_kv.Collections.HashMap
use my_mad_kv.Runner.Error.{ok}
use my_mad_kv.Runner.Ioapi.{get_resp, swap_resp}
use my_mad_kv.Fuzzer.History
use my_mad_kv.Fuzzer.Stats
use my_mad_kv.Fuzzer.Outside.{Clients}
use my_mad_kv.Fuzzer.Loop.{judge}
use my_mad_kv.Fuzzer.History.Instants.{at_tick, IsBefore, IsUpto, IsBefore-absurd}
use my_mad_kv.Fuzzer.Loop.Protocol.{judge_all, InOrder, outcome}
use my_mad_kv.Fuzzer.Loop.Sound.{Effect, harvests, NoneBetween, IsKnown, IsLinear}
use my_mad_kv.Fuzzer.Loop.Sound.NoAlarm.{pool_of, judge_all-Linearizable}

-- Three clients swap at a time. The third's swap takes effect first, and the first's last, all
-- between two ticks of the clock.
abbrev swap_of : ℕ → Text → Option Text → ℕ → Effect
swap_of cidx value old_value rank = record {
  harvest = record {
    cidx = cidx;
    memo = (cidx + 1, some (codes "a", some value));
    ts_resp = cidx + 4;
    resp = swap_resp (codes "a") old_value;
  };
  point = record { tick = 3; rank = rank };
}

abbrev first_swap : Effect
first_swap = swap_of 0 (codes "x") (some (codes "y")) 3

abbrev second_swap : Effect
second_swap = swap_of 1 (codes "y") (some (codes "z")) 2

abbrev third_swap : Effect
third_swap = swap_of 2 (codes "z") none 1

abbrev calls : List Effect
calls = first_swap ∷ second_swap ∷ third_swap ∷ []

abbrev three_pools : List (List Text)
three_pools = (codes "a" ∷ []) ∷ (codes "b" ∷ []) ∷ (codes "c" ∷ []) ∷ []

abbrev pool : HashMap.HashMap History.KeySpans
pool = pool_of 3 (omega arith) three_pools

a-IsKnown : IsKnown pool (codes "a")
unfolding History.new History.add_all_keys History.add_keys HashMap.lookup HashMap.insert
    HashMap.contains_key my_mad_kv.Text.text_eq my_mad_kv.Text.text_compare
a-IsKnown = refl

-- a swap of this rank is the last in front of the next
calls-NoneBetween :
    (rank : ℕ)
    → NoneBetween calls
        (codes "a")
        (record { tick = 3; rank = rank })
        (record { tick = 3; rank = rank + 1 })
calls-NoneBetween rank y value e update lt = ground (arith, lt)

none_early :
    (y : Effect) (r : ℕ)
    → y.point ≡ record { tick = 3; rank = r }
    → 1 ≤ r
    → IsBefore y.point (record { tick = 3; rank = 1 })
    → IsUpto y.point (at_tick 0)
none_early y r e le lt = absurd (
    IsBefore-absurd y.point (record { tick = 3; rank = 1 }) lt
      (subst (IsUpto (record { tick = 3; rank = 1 })) (sym e) (inr (refl, le))))

none-NoneBetween : NoneBetween calls (codes "a") (at_tick 0) (record { tick = 3; rank = 1 })
none-NoneBetween y value (inl e) update lt = none_early y 3 (ap (λ y. y.point) e) (omega arith) lt
none-NoneBetween y value (inr (inl e)) update lt =
    none_early y 2 (ap (λ y. y.point) e) (omega arith) lt
none-NoneBetween y value (inr (inr (inl e))) update lt =
    none_early y 1 (ap (λ y. y.point) e) (omega arith) lt
none-NoneBetween y value (inr (inr (inr e))) update lt = absurd e

by_some : (a b : Text × Option Text) → some a ≡ some b → a.0 ≡ b.0
by_some a b e = let same : a ≡ b = cc in ap (λ p. p.0) same

swap-IsKnown :
    (new_value key : Text) (value : Option Text)
    → ◌≡◌ {A = Option (Text × Option Text)} (some (codes "a", some new_value)) (some (key, value))
    → IsKnown pool key
swap-IsKnown new_value key value e = subst (IsKnown pool) (by_some _ (key, value) e) a-IsKnown

first_swap-IsLinear : IsLinear calls pool first_swap
first_swap-IsLinear = (
  inl (omega arith),
  inl (omega arith),
  swap-IsKnown (codes "x"),
  (
    a-IsKnown,
    inl (second_swap, inr (inl refl), refl, inr (refl, omega arith), calls-NoneBetween 2),
  ),
)

second_swap-IsLinear : IsLinear calls pool second_swap
second_swap-IsLinear = (
  inl (omega arith),
  inl (omega arith),
  swap-IsKnown (codes "y"),
  (
    a-IsKnown,
    inl (third_swap, inr (inr (inl refl)), refl, inr (refl, omega arith), calls-NoneBetween 1),
  ),
)

third_swap-IsLinear : IsLinear calls pool third_swap
third_swap-IsLinear = (
  inr (refl, omega arith),
  inl (omega arith),
  swap-IsKnown (codes "z"),
  (a-IsKnown, inr (refl, none-NoneBetween)),
)

calls-InOrder : InOrder (replicate 3 0) 0 (harvests calls)
calls-InOrder = (
  (0, refl, omega arith),
  omega arith,
  omega arith,
  omega arith,
  (
    (0, refl, omega arith),
    omega arith,
    omega arith,
    omega arith,
    ((0, refl, omega arith), omega arith, omega arith, omega arith, tt),
  ),
)

judge_all-Linearizable_example :
    (left_checks : ℕ) × (outcome (judge_all judge (harvests calls) (History.new 3 three_pools))
      ≡ some (some left_checks))
judge_all-Linearizable_example =
    judge_all-Linearizable 3 (omega arith) three_pools calls
      (first_swap-IsLinear, (second_swap-IsLinear, (third_swap-IsLinear, tt))) calls-InOrder

-- Clients that answer a get with a value that no call has put.
abbrev lying_clients : Clients
lying_clients = record {
  Procs = ℕ;
  send_call = λ cidx call procs. ok procs;
  wait_resp = λ cidx procs. ok (get_resp (codes "a") (some (codes "never")), procs);
  stop_client = λ cidx procs. ok procs;
}

abbrev lone_pool : List (List Text)
lone_pool = (codes "a" ∷ []) ∷ []
