-- ===== src/Bencher/Launch/Keys.antt =====
-- The set of keys that `ycsb_bench` (runner/src/bin/bencher/main.rs) hands on: it is sorted, and from
-- no keys on it has those that the calls insert.
use my_mad_kv.Prelude.{
  ◌≡◌, refl, ap, ◌∙◌, true, false, ◌||◌, is_some, if◌then◌else◌, arith, suc, ℕ, Bool, Option, none,
  some, List, [], ◌∷◌,
}
use my_mad_kv.Text.{Text, codes, text_eq, text_ltb}
use my_mad_kv.Collections.SortedMap
use my_mad_kv.Text.Order.{text_compare-eq_iff}
use my_mad_kv.Collections.SortedMap.{IsSorted, IsAbove}
use my_mad_kv.Collections.SortedMap.Laws.{insert-IsSorted, lookup-insert, lookup-below}
use my_mad_kv.Runner.Error.{io}
use my_mad_kv.Bencher.Ycsb.{KeySet}
use my_mad_kv.Bencher.Stats
use my_mad_kv.Bencher.Stats.{Float, Stats, merge}
use my_mad_kv.Bencher.Feeder.{Clock}
use my_mad_kv.Bencher.Feeder.Keys.{puts, Inserts, ScriptInserts, script-Inserts}
use my_mad_kv.Bencher.Feeder.Script.{Calls, lines}
use mathlib.Core.Path.{subst}
use my_mad_kv.Runner.Proc.{ClientProc}
use my_mad_kv.Bencher.Launch.Scripts.{AllWork, handed}
use my_mad_kv.Bencher.Launch.{
  Machine, Bench, done, failed, panicked, and_then, extend_keys, Args, YcsbDriver, wait, exec_all,
  wait_all, ycsb_bench, new_clients, phase,
}

extend_keys-IsSorted : (other ikeys : KeySet) → IsSorted ikeys → IsSorted (extend_keys ikeys other)
unfolding extend_keys
extend_keys-IsSorted [] ikeys s = s
extend_keys-IsSorted ((key, u) ∷ other) ikeys s =
    extend_keys-IsSorted other _ (insert-IsSorted key tt ikeys s)

-- a key below all others of a sorted set comes first
lookup-first :
    (key j : Text) (u : Unit {0}) (m : KeySet)
    → IsAbove j m
    → SortedMap.lookup key ((j, u) ∷ m)
      ≡ (if text_eq j key then some tt else SortedMap.lookup key m)
unfolding SortedMap.lookup text_eq text_ltb
lookup-first key j u m a =
    ground (arith, lookup-below key j m, text_compare-eq_iff key j, text_compare-eq_iff j key)

lookup-extend_keys :
    (other acc : KeySet) (key : Text)
    → IsSorted other
    → SortedMap.lookup key (extend_keys acc other)
      ≡ (if is_some (SortedMap.lookup key other) then some tt else SortedMap.lookup key acc)
unfolding extend_keys SortedMap.lookup
lookup-extend_keys [] acc key s = refl
lookup-extend_keys ((j, u) ∷ other) acc key s =
    lookup-extend_keys other (SortedMap.insert j tt acc) key s.1
    ∙ either (text_eq j key) (is_some (SortedMap.lookup key other)) _ _ _
        (lookup-insert key j tt acc)
        (ap is_some (lookup-first key j u other s.0)
          ∙ is_some_if (text_eq j key) (SortedMap.lookup key other))
  where
    is_some_if :
        (b : Bool) (o : Option (Unit {0})) → is_some (if b then some tt else o) ≡ (b || is_some o)
    is_some_if true o = refl
    is_some_if false o = refl

    either :
        (b c d : Bool) (x y : Option (Unit {0}))
        → x ≡ (if b then some tt else y)
        → d ≡ (b || c)
        → (if c then some tt else x) ≡ (if d then some tt else y)
    either true true d x y e f = rw f refl
    either true false d x y e f = rw (e, f) refl
    either false true d x y e f = rw f refl
    either false false d x y e f = rw (e, f) refl

-- one of the scripts puts that key
unfoldable pub puts_any : Text → List Calls → Bool
puts_any key [] = false
puts_any key (calls ∷ scripts) = puts key calls || puts_any key scripts

module _ (float : Float) (clocks : ℕ → Clock float) (machine : Machine) where
  -- The set of keys in a result is sorted.
  abbrev pub KeysSorted {ℓ} : {A : Type ℓ} → Bench (A × KeySet) → Type 0
  KeysSorted (done (a, keys)) = IsSorted keys
  KeysSorted (failed e) = Unit
  KeysSorted panicked = Unit

  -- after every step that succeeds, so is the result
  and_then-Sorted {ℓ κ} :
      {A : Type ℓ} {B : Type κ} (first : Bench A) (next : A → Bench (B × KeySet))
      → ((a : A) → KeysSorted (next a))
      → KeysSorted (and_then first next)
  and_then-Sorted (done a) next h = h a
  and_then-Sorted (failed e) next h = tt
  and_then-Sorted panicked next h = tt

  wait_all-Sorted :
      (drivers : List (YcsbDriver float clocks machine)) (stats : Stats float) (keys : KeySet)
      → IsSorted keys
      → KeysSorted (wait_all float clocks machine drivers stats keys)
  unfolding wait_all
  wait_all-Sorted [] stats keys s = s
  wait_all-Sorted (driver ∷ drivers) stats keys s =
      and_then-Sorted (wait float clocks machine driver) _
        (by_result (λ st k. wait_all-Sorted drivers st k))
    where
      by_result :
          ((st : Stats float) (k : KeySet)
            → IsSorted k
            → KeysSorted (wait_all float clocks machine drivers st k))
          → (result : Option (Stats float × KeySet))
          → KeysSorted (elim result as (λ x. Bench (Stats float × KeySet)) [
            | none ↦ failed (io (codes "a YCSB driver process failed"))
            | some (st, k) ↦
                wait_all float clocks machine drivers (merge float stats st) (extend_keys keys k)
          ])
      by_result ih none = tt
      by_result ih (some (st, k)) =
          ih (merge float stats st) (extend_keys keys k) (extend_keys-IsSorted k keys s)

  pub phase-Sorted :
      (n : ℕ) (args : Args) (load : Bool) (ikeys : KeySet)
      → KeysSorted (phase float clocks machine n args load ikeys)
  unfolding phase ycsb_bench
  phase-Sorted n args load ikeys =
      and_then-Sorted (new_clients float clocks machine n args.client_just_args args.num_clis) _
        (λ clients.
          and_then-Sorted
            (exec_all float clocks machine n args.workload args.num_ops load clients ikeys) _
            (λ drivers. wait_all-Sorted drivers (Stats.new float) [] tt))

either_puts :
    (a b : Bool) (x : Option (Unit {0}))
    → (if b then some tt else if a then some tt else x) ≡ (if a || b then some tt else x)
either_puts true true x = refl
either_puts true false x = refl
either_puts false true x = refl
either_puts false false x = refl

-- The keys are those that the scripts put, and others that are there.
abbrev pub PutsAll : List Calls → KeySet → KeySet → Type 0
PutsAll scripts acc keys =
    (key : Text)
    → SortedMap.lookup key keys
      ≡ (if puts_any key scripts then some tt else SortedMap.lookup key acc)

PutsAll-cons :
    (calls : Calls) (scripts : List Calls) (acc k keys : KeySet)
    → Inserts calls [] k
    → PutsAll scripts (extend_keys acc k) keys
    → PutsAll (calls ∷ scripts) acc keys
unfolding puts_any SortedMap.lookup
PutsAll-cons calls scripts acc k keys (sorted, are) rest key =
    rest key
    ∙ ap (λ o. if puts_any key scripts then some tt else o)
        (lookup-extend_keys k acc key sorted
          ∙ ap (λ b. if b then some tt else SortedMap.lookup key acc)
              (ap is_some (are key) ∙ is_some_puts (puts key calls)))
    ∙ either_puts (puts key calls) (puts_any key scripts) (SortedMap.lookup key acc)
  where
    is_some_puts : (b : Bool) → is_some (if b then some (tt {0}) else none) ≡ b
    is_some_puts true = refl
    is_some_puts false = refl

module _ (float : Float) (clocks : ℕ → Clock float) (machine : Machine) (command : List Text) where
  -- From no keys on, the drivers hand on the keys that their scripts put.
  pub handed-PutsAll :
      (n : ℕ) (clients : List ClientProc) (scripts : List Calls)
      (w : AllWork float clocks machine command n clients [] scripts) (acc : KeySet)
      → PutsAll scripts acc (handed float clocks machine command n clients [] scripts w acc)
  unfolding puts_any
  handed-PutsAll n [] [] w acc = λ key. refl
  handed-PutsAll n [] (calls ∷ scripts) w acc = absurd w
  handed-PutsAll n (client ∷ clients) [] w acc = absurd w
  handed-PutsAll n (client ∷ clients) (calls ∷ scripts) ((process, q, (l, k, f, a, (keys, e))), w)
        acc =
      PutsAll-cons calls scripts acc keys _
        (subst (ScriptInserts []) e (script-Inserts (lines process.stdout.pending) [] tt))
        (handed-PutsAll (suc n) clients scripts w (extend_keys acc keys))
