-- ===== src/Bencher/Feeder/Afterwards.antt =====
-- What the feeder (runner/src/bin/bencher/ycsb.rs) has at its end, by the calls of its script: the
-- client's calls, the counts of the samples, and the first and the last instant.
use my_mad_kv.Prelude.{
  ℕ, zero, suc, ◌+◌, ◌*◌, ◌≡◌, refl, ap, sym, ◌∙◌, Bool, true, false, not, ◌&&◌, ◌||◌, leb,
  Bool-cases, inl, inr, Option, none, some, List, [], ◌∷◌, ◌++◌, arith, length, length-append,
  if◌then◌else◌, append_assoc, append-nil,
}
use my_mad_kv.Text.{Text, text_eq, is_empty}
use my_mad_kv.Text.Order.{text_eq_iff}
use my_mad_kv.Collections.HashMap
use my_mad_kv.Collections.HashMap.{HashMap}
use my_mad_kv.Collections.HashMap.Laws.{lookup-insert}
use my_mad_kv.Runner.Ioapi.{KvCall, KvResp}
use my_mad_kv.Runner.Proc.{ClientProc}
use my_mad_kv.Bencher.Ycsb.{KeySet}
use my_mad_kv.Bencher.Stats.{Float, samples_of, extend_entry, record_op, total_ops}
use my_mad_kv.Bencher.Stats.Merging.{total_ops-record_op}
use my_mad_kv.Bencher.Feeder.{Clock, Feeder, record_call}
use my_mad_kv.Bencher.Feeder.Script.{Calls, tail, next_client, serves, after}

-- the calls without the names of their operations
abbrev pub calls_of : Calls → List KvCall
calls_of [] = []
calls_of ((call, op) ∷ calls) = call ∷ calls_of calls

-- how many of the calls have that name
unfoldable pub count_op : Text → Calls → ℕ
count_op op [] = 0
count_op op ((call, op') ∷ calls) = (if text_eq op' op then 1 else 0) + count_op op calls

abbrev pub drop : {A : Type 0} → ℕ → List A → List A
drop zero xs = xs
drop (suc n) xs = drop n (tail xs)

-- the client once it has answered the calls
abbrev pub served : Calls → ClientProc → ClientProc
served calls p = record p { sent = p.sent ++ calls_of calls; coming = drop (length calls) p.coming }

enough :
    (runs : Bool) (calls : Calls) (n : ℕ)
    → (runs && (is_empty calls || (runs && leb (length calls) n)))
      ≡ (runs && leb (suc (length calls)) (suc n))
enough true [] n = ground arith
enough true (call ∷ calls) n = ground arith
enough false calls n = refl

-- A client answers the calls exactly if there are none, or if its thread runs and so many
-- responses come in time.
pub serves-enough :
    (calls : Calls) (p : ClientProc)
    → serves calls p ≡ (is_empty calls || (p.driver_runs && leb (length calls) (length p.coming)))
unfolding serves
serves-enough [] p = refl
serves-enough ((call, op) ∷ calls) p =
    by_coming p.coming refl (serves-enough calls (next_client call p))
  where
    by_coming :
        (coming : List KvResp)
        → p.coming ≡ coming
        → serves calls (next_client call p)
          ≡ (is_empty calls || (p.driver_runs && leb (length calls) (length (tail p.coming))))
        → serves ((call, op) ∷ calls) p
          ≡ (p.driver_runs && leb (suc (length calls)) (length p.coming))
    by_coming [] k ih = rw k (ap (λ b. p.driver_runs && b) (ground arith))
    by_coming (resp ∷ coming) k ih =
        ap (λ b. p.driver_runs && (not (is_empty p.coming) && b)) ih
        ∙ rw k (enough p.driver_runs calls (length coming))

-- the value, or that one if there is none
abbrev pub or : {A : Type 0} → Option A → A → A
or none a = a
or (some x) a = x

or-or :
    {A : Type 0} (o : Option A) (a b : A)
    → or (elim o [ none ↦ some a | some x ↦ some x ]) b ≡ or o a
or-or none a b = refl
or-or (some x) a b = refl

some-or :
    {A : Type 0} (o : Option A) (a : A)
    → ◌≡◌ {A = Option A} (elim o [ none ↦ some a | some x ↦ some x ]) (some (or o a))
some-or none a = refl
some-or (some x) a = refl

module _ (float : Float) (clock : Clock float) where
  open clock use {now}

  pub after-client :
      (calls : Calls) (keys : KeySet) (f : Feeder float clock)
      → (after float clock calls keys f).client ≡ served calls f.client
  unfolding after record_call
  after-client [] keys f =
      ap (λ sent. record f.client { sent = sent }) (sym (append-nil f.client.sent))
  after-client ((call, op) ∷ calls) keys f =
      after-client calls keys (record_call float clock op (next_client call f.client) f)
      ∙ ap
          (λ sent. record f.client {
            sent = sent;
            coming = drop (length calls) (tail f.client.coming);
          })
          (append_assoc f.client.sent (call ∷ []) (calls_of calls))

  pub after-ends :
      (calls : Calls) (keys : KeySet) (f : Feeder float clock)
      → ((after float clock calls keys f).ended ≡ true)
        × ((after float clock calls keys f).ikeys ≡ keys)
  unfolding after
  after-ends [] keys f = (refl, refl)
  after-ends ((call, op) ∷ calls) keys f = after-ends calls keys _

  pub total_ops-after :
      (calls : Calls) (keys : KeySet) (f : Feeder float clock)
      → total_ops float (after float clock calls keys f).stats
        ≡ total_ops float f.stats + length calls
  unfolding after record_call
  total_ops-after [] keys f = omega arith
  total_ops-after ((call, op) ∷ calls) keys f = omega (
    arith,
    total_ops-after calls keys (record_call float clock op (next_client call f.client) f),
    total_ops-record_op float op _ f.stats,
  )

  samples_of-insert :
      (op op' : Text) (samples : List float.F) (m : HashMap (List float.F))
      → samples_of float op (HashMap.insert op' samples m)
        ≡ (if text_eq op' op then samples else samples_of float op m)
  samples_of-insert op op' samples m =
      ap (λ o. elim o [ none ↦ [] | some old ↦ old ]) (lookup-insert op op' samples m)
      ∙ ground arith

  samples-extend_entry :
      (op op' : Text) (samples : List float.F) (m : HashMap (List float.F))
      → length (samples_of float op (extend_entry float op' samples m))
        ≡ (if text_eq op' op then length samples else 0) + length (samples_of float op m)
  unfolding extend_entry
  samples-extend_entry op op' samples m =
      let inserted = samples_of-insert op op' (samples_of float op' m ++ samples) m in
      elim (Bool-cases (text_eq op' op)) [
        | inl e ↦
            let same : op' ≡ op = (text_eq_iff op' op).0 e in
            ap length inserted
            ∙ rw e (
                omega (
                  arith,
                  length-append (samples_of float op' m) samples,
                  ap (λ o. length (samples_of float o m)) same,
                ))
        | inr e ↦ ap length inserted ∙ rw e (omega arith)
      ]

  pub count-after :
      (op : Text) (calls : Calls) (keys : KeySet) (f : Feeder float clock)
      → length (samples_of float op (after float clock calls keys f).stats.lat_samples)
        ≡ length (samples_of float op f.stats.lat_samples) + count_op op calls
  unfolding after record_call record_op count_op
  count-after op [] keys f = omega arith
  count-after op ((call, op') ∷ calls) keys f = omega (
    arith,
    count-after op calls keys (record_call float clock op' (next_client call f.client) f),
    samples-extend_entry op op' _ f.stats.lat_samples,
  )

  pub started-after :
      (calls : Calls) (keys : KeySet) (f : Feeder float clock)
      → (after float clock calls keys f).started
        ≡ elim calls [ [] ↦ f.started | ◌∷◌ x xs ↦ some (or f.started (now f.readings)) ]
  unfolding after record_call
  started-after [] keys f = refl
  started-after ((call, op) ∷ []) keys f = some-or f.started (now f.readings)
  started-after ((call, op) ∷ next ∷ calls) keys f =
      started-after (next ∷ calls) keys (record_call float clock op (next_client call f.client) f)
      ∙ ap some (or-or f.started _ _)

  pub last_end-after :
      (calls : Calls) (keys : KeySet) (f : Feeder float clock)
      → (after float clock calls keys f).last_end
        ≡ elim calls [ [] ↦ f.last_end | ◌∷◌ x xs ↦ some (now (f.readings + (2 + 3 * length xs))) ]
  unfolding after record_call
  last_end-after [] keys f = refl
  last_end-after ((call, op) ∷ []) keys f = ap (λ n. some (now n)) (omega arith)
  last_end-after ((call, op) ∷ next ∷ calls) keys f =
      last_end-after (next ∷ calls) keys (record_call float clock op (next_client call f.client) f)
      ∙ ap (λ n. some (now n)) (omega arith)
