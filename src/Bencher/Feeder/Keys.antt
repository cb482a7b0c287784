-- ===== src/Bencher/Feeder/Keys.antt =====
-- The keys that the feeder (runner/src/bin/bencher/ycsb.rs) hands on: those that it has been given,
-- and those of the calls that insert.
use my_mad_kv.Prelude.{
  ◌≡◌, ◌⊎◌, refl, ap, sym, ◌∙◌, Bool, true, false, ◌||◌, arith, Bool-cases, inl, inr, Option, none,
  some, List, [], ◌∷◌, if◌then◌else◌,
}
use mathlib.Core.Path.{subst}
use my_mad_kv.Text.{Text, codes, text_eq, split_whitespace, is_empty, trim}
use my_mad_kv.Collections.SortedMap
use my_mad_kv.Collections.SortedMap.{IsSorted}
use my_mad_kv.Collections.SortedMap.Laws.{insert-IsSorted, lookup-insert}
use my_mad_kv.Runner.Error.{RunnerError, Result, ok, err, out_of_fuel, ◌>>=◌}
use my_mad_kv.Runner.Ioapi.{KvCall, put, swap, get, scan, delete, stop}
use my_mad_kv.Runner.Ioapi.Reader.{Reader}
use my_mad_kv.Bencher.Feeder.Afterwards.{served}
use my_mad_kv.Runner.Proc.{ClientProc, stop_proc}
use my_mad_kv.Bencher.Ycsb.{
  KeySet, parse_ycsb_key, parse_ycsb_value, parse_ycsb_scnt, interpret_scan, interpret_ycsb_call,
}
use my_mad_kv.Bencher.Stats.{Float, Stats}
use my_mad_kv.Bencher.Feeder.{Clock, Feeding, returned, feeding_on, feeder_thread}
use my_mad_kv.Bencher.Feeder.Script.{Calls, lines, is_missing, cons_call, script}
use my_mad_kv.Bencher.Feeder.Delivered.{Delivers, Delivered, feeder_thread-Delivered}

-- the keys behind a line
abbrev with_call : Option (KvCall × Text) → KeySet → KeySet
with_call (some (put key value, op)) ikeys = SortedMap.insert key tt ikeys
with_call _ ikeys = ikeys

-- a line changes the keys by its call
abbrev Follows : KeySet → Result RunnerError (Option (KvCall × Text) × KeySet) → Type 0
Follows ikeys (ok (call, keys)) = keys ≡ with_call call ikeys
Follows ikeys (err e) = Unit
Follows ikeys out_of_fuel = Unit

module _ {A : Type 0} where
  bind-Follows :
      (ikeys : KeySet) (first : Result RunnerError A)
      (next : A → Result RunnerError (Option (KvCall × Text) × KeySet))
      → ((a : A) → Follows ikeys (next a))
      → Follows ikeys (first >>= next)
  bind-Follows ikeys (ok a) next h = h a
  bind-Follows ikeys (err e) next h = tt
  bind-Follows ikeys out_of_fuel next h = tt

  bind_bind-Follows :
      {B : Type 0} (ikeys : KeySet) (first : Result RunnerError A) (next : A → Result RunnerError B)
      (last : B → Result RunnerError (Option (KvCall × Text) × KeySet))
      → ((a : A) → Follows ikeys (next a >>= last))
      → Follows ikeys (first >>= next >>= last)
  bind_bind-Follows ikeys (ok a) next last h = h a
  bind_bind-Follows ikeys (err e) next last h = tt
  bind_bind-Follows ikeys out_of_fuel next last h = tt

if-Follows :
    (ikeys : KeySet) (b : Bool) (x y : Result RunnerError (Option (KvCall × Text) × KeySet))
    → Follows ikeys x
    → Follows ikeys y
    → Follows ikeys (if b then x else y)
if-Follows ikeys true x y h k = h
if-Follows ikeys false x y h k = k

scan-Follows :
    (segs : List Text) (ikeys : KeySet)
    → Follows ikeys (interpret_scan segs ikeys >>= λ call. ok (some (call, codes "SCAN"), ikeys))
unfolding interpret_scan
scan-Follows segs [] = bind_bind-Follows [] (parse_ycsb_key segs) _ _ (λ p. refl)
scan-Follows segs ((key, u) ∷ ikeys) =
    bind_bind-Follows ((key, u) ∷ ikeys) (parse_ycsb_key segs) _ _
      (λ p. bind_bind-Follows ((key, u) ∷ ikeys) (parse_ycsb_scnt p.1) _ _ (λ n. refl))

interpret_ycsb_call-Follows :
    (line : Text) (ikeys : KeySet) → Follows ikeys (interpret_ycsb_call line ikeys)
unfolding interpret_ycsb_call
interpret_ycsb_call-Follows line ikeys = by_segs (split_whitespace line) refl
  where
    by_segs :
        (segs : List Text)
        → split_whitespace line ≡ segs
        → Follows ikeys (interpret_ycsb_call line ikeys)
    by_segs [] e = rw (e, interpret_ycsb_call) refl
    by_segs (tag ∷ segs) e =
        rw (e, interpret_ycsb_call)
          (if-Follows ikeys (text_eq tag (codes "INSERT")) _ _
            (bind-Follows ikeys (parse_ycsb_key segs) _
              (λ p. bind-Follows ikeys (parse_ycsb_value p.1) _ (λ v. refl)))
            (if-Follows ikeys (text_eq tag (codes "UPDATE")) _ _
              (bind-Follows ikeys (parse_ycsb_key segs) _
                (λ p. bind-Follows ikeys (parse_ycsb_value p.1) _ (λ v. refl)))
              (if-Follows ikeys (text_eq tag (codes "READ")) _ _
                (bind-Follows ikeys (parse_ycsb_key segs) _ (λ p. refl))
                (if-Follows ikeys (text_eq tag (codes "SCAN")) _ _ (scan-Follows segs ikeys)
                  refl))))

-- one of the calls puts that key
unfoldable pub puts : Text → Calls → Bool
puts key [] = false
puts key ((put key' value, op) ∷ calls) = text_eq key' key || puts key calls
puts key (call ∷ calls) = puts key calls

-- The keys are sorted, and are those of the others and those that the calls put.
abbrev pub Inserts : Calls → KeySet → KeySet → Type 0
Inserts calls ikeys keys =
    IsSorted keys
    × ((key : Text)
        → SortedMap.lookup key keys
          ≡ (if puts key calls then some tt else SortedMap.lookup key ikeys))

abbrev pub ScriptInserts : KeySet → Option (Calls × KeySet) → Type 0
ScriptInserts ikeys none = Unit
ScriptInserts ikeys (some (calls, keys)) = Inserts calls ikeys keys

put-or :
    {A : Type 0} (a b : Bool) (x : A) (first ikey : Option A)
    → first ≡ (if a then some x else ikey)
    → (if b then some x else first) ≡ (if a || b then some x else ikey)
put-or a b x first ikey h = ground arith

cons_call-Inserts :
    (call : KvCall) (op : Text) (ikeys keys : KeySet) (o : Option (Calls × KeySet))
    → keys ≡ with_call (some (call, op)) ikeys
    → ScriptInserts keys o
    → ScriptInserts ikeys (cons_call (call, op) o)
unfolding puts
cons_call-Inserts call op ikeys keys none e h = tt
cons_call-Inserts (put k v) op ikeys keys (some (calls, last)) e h = (
  h.0,
  λ key.
      h.1 key
      ∙ put-or (text_eq k key) (puts key calls) tt _ _
          (ap (SortedMap.lookup key) e ∙ lookup-insert key k tt ikeys),
)
cons_call-Inserts (swap k v) op ikeys keys (some (calls, last)) e h =
    subst (λ m. Inserts calls m last) e h
cons_call-Inserts (get k) op ikeys keys (some (calls, last)) e h =
    subst (λ m. Inserts calls m last) e h
cons_call-Inserts (scan lo hi) op ikeys keys (some (calls, last)) e h =
    subst (λ m. Inserts calls m last) e h
cons_call-Inserts (delete k) op ikeys keys (some (calls, last)) e h =
    subst (λ m. Inserts calls m last) e h
cons_call-Inserts stop op ikeys keys (some (calls, last)) e h =
    subst (λ m. Inserts calls m last) e h

with_call-IsSorted :
    (call : Option (KvCall × Text)) (ikeys : KeySet)
    → IsSorted ikeys
    → IsSorted (with_call call ikeys)
with_call-IsSorted none ikeys s = s
with_call-IsSorted (some (put k v, op)) ikeys s = insert-IsSorted k tt ikeys s
with_call-IsSorted (some (swap k v, op)) ikeys s = s
with_call-IsSorted (some (get k, op)) ikeys s = s
with_call-IsSorted (some (scan lo hi, op)) ikeys s = s
with_call-IsSorted (some (delete k, op)) ikeys s = s
with_call-IsSorted (some (stop, op)) ikeys s = s

-- what a call line leads to
line-Inserts :
    (call : Option (KvCall × Text)) (rest : List Text) (ikeys keys : KeySet)
    → IsSorted ikeys
    → keys ≡ with_call call ikeys
    → ((m : KeySet) → IsSorted m → ScriptInserts m (script rest m))
    → ScriptInserts keys (script rest keys)
line-Inserts call rest ikeys keys s e ih =
    ih keys (subst IsSorted (sym e) (with_call-IsSorted call ikeys s))

pub script-Inserts :
    (rest : List Text) (ikeys : KeySet) → IsSorted ikeys → ScriptInserts ikeys (script rest ikeys)
unfolding script puts
script-Inserts [] ikeys s = (s, λ key. refl)
script-Inserts (line ∷ rest) ikeys s =
    by_call (Bool-cases (is_empty (trim line))) (interpret_ycsb_call line ikeys) refl
      (interpret_ycsb_call-Follows line ikeys) (λ keys. script-Inserts rest keys)
  where
    by_call :
        ((is_empty (trim line) ≡ true) ⊎ (is_empty (trim line) ≡ false))
        → (r : Result RunnerError (Option (KvCall × Text) × KeySet))
        → interpret_ycsb_call line ikeys ≡ r
        → Follows ikeys (interpret_ycsb_call line ikeys)
        → ((keys : KeySet) → IsSorted keys → ScriptInserts keys (script rest keys))
        → ScriptInserts ikeys (script (line ∷ rest) ikeys)
    by_call (inl b) r e h ih = rw b (ih ikeys s)
    by_call (inr b) (ok (some (call, op), keys)) e h ih =
        let follows : keys ≡ with_call (some (call, op)) ikeys = rw e at h in
        rw (b, e)
          (cons_call-Inserts call op ikeys keys (script rest keys) follows
            (line-Inserts (some (call, op)) rest ikeys keys s follows ih))
    by_call (inr b) (ok (none, keys)) e h ih = elim (Bool-cases (is_missing line)) [
      | inl m ↦ rw (b, e, m) tt
      | inr m ↦
          rw (b, e, m)
            (let same : keys ≡ ikeys = rw e at h in
              subst (λ m. ScriptInserts m (script rest keys)) same
                (line-Inserts none rest ikeys keys s same ih))
    ]
    by_call (inr b) (err x) e h ih = rw (b, e) tt
    by_call (inr b) out_of_fuel e h ih = rw (b, e) tt

module _ (float : Float) (clock : Clock float) where
  -- what is handed on, by the calls that the client has been given
  abbrev pub Hands :
      KeySet → ClientProc → Result RunnerError ClientProc → Option (Stats float × KeySet) → Type 0
  Hands ikeys client stopped none = Unit
  Hands ikeys client stopped (some (stats, keys)) =
      (calls : Calls) × (stopped ≡ stop_proc (served calls client)) × Inserts calls ikeys keys

  abbrev pub HandsOn : KeySet → ClientProc → Feeding float clock → Type 0
  HandsOn ikeys client (returned end) = Hands ikeys client end.stopped end.result
  HandsOn ikeys client feeding_on = ⊥

  -- From a sorted set of keys on, the feeder hands on a sorted set: of the keys that it has been
  -- given, and of those of the calls to put that it has given to its client.
  pub feeder_thread-HandsOn :
      (stdout : Reader) (client : ClientProc) (ikeys : KeySet)
      → IsSorted ikeys
      → HandsOn ikeys client (feeder_thread float clock stdout client ikeys)
  feeder_thread-HandsOn stdout client ikeys s =
      by_end (feeder_thread float clock stdout client ikeys)
        (feeder_thread-Delivered float clock stdout client ikeys)
        (script-Inserts (lines stdout.pending) ikeys s)
    where
      by_result :
          (reported : Option RunnerError) (stopped : Result RunnerError ClientProc)
          (result : Option (Stats float × KeySet))
          → Delivers float clock stdout client ikeys reported stopped result
          → ScriptInserts ikeys (script (lines stdout.pending) ikeys)
          → Hands ikeys client stopped result
      by_result reported stopped none d i = tt
      by_result reported stopped (some (stats, keys)) (calls, e, c, q, t) i =
          (calls, c, subst (ScriptInserts ikeys) e i)

      by_end :
          (r : Feeding float clock)
          → Delivered float clock stdout client ikeys r
          → ScriptInserts ikeys (script (lines stdout.pending) ikeys)
          → HandsOn ikeys client r
      by_end (returned end) d i = by_result end.reported end.stopped end.result d i
      by_end feeding_on d i = absurd d
