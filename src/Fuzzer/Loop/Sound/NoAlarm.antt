-- ===== src/Fuzzer/Loop/Sound/NoAlarm.antt =====
-- The responses of a linearizable store raise no alarm: over all of them the history of
-- runner/src/bin/fuzzer/history.rs finds no violation.
use my_mad_kv.Prelude.{
  ℕ, ◌<◌, ◌≡◌, inl, inr, refl, sym, ap, ◌∙◌, some, List, [], ◌∷◌, All, Bool-cases, replicate,
}
use my_mad_kv.Text.{Text}
use my_mad_kv.Collections.HashMap.{HashMap}
use my_mad_kv.Fuzzer.History
use my_mad_kv.Fuzzer.History.{
  UpdateSpan, KeySpans, QueuedSpan, History, push_span, min_coming, drain, check_call, Applied,
  applied, panicked, add_to_queue,
}
use my_mad_kv.Fuzzer.Loop.{Judged, fine, violation, index_panic, judge}
use my_mad_kv.Fuzzer.Loop.Protocol.{judge_whole, judge_all, InOrder}
use my_mad_kv.Fuzzer.Loop.Sound.{Effect, harvests, Linearizable}
use my_mad_kv.Collections.HashMap.{contains_key}
use my_mad_kv.Collections.HashMap.Laws.{All-insert, All-lookup}
use my_mad_kv.Fuzzer.History.{dummy, add_keys, add_all_keys, queue_len}
use my_mad_kv.Fuzzer.Loop.Protocol.{outcome}
use my_mad_kv.Fuzzer.Loop.Protocol.Outcome.{judge_all-whole}
use my_mad_kv.Fuzzer.Loop.Sound.Rows.{
  start, all_spans_of-start, RowsValid-start, InRows-start, All-replicate,
}
use my_mad_kv.Fuzzer.Loop.Sound.Knows.{DistinctKeys, From}
use my_mad_kv.Fuzzer.Loop.Sound.Steps.{DistinctKeys-insert}
use my_mad_kv.Fuzzer.Loop.Sound.Runs.{Stands, StandsJudged, judge_whole-Judged}

module _ (pool : HashMap KeySpans) (all : List Effect) (linear : Linearizable pool all) where
  -- over the rest of the responses
  judge_all-fine :
      (rest recorded : List Effect) (now : ℕ) (h : History)
      → Stands pool all linear recorded rest now h
      → (h' : History) × (judge_all judge_whole (harvests rest) h ≡ fine h')
  unfolding judge_all
  judge_all-fine [] recorded now h stands = (h, refl)
  judge_all-fine (x ∷ rest) recorded now h stands =
      by_judged (judge_whole x.harvest.cidx x.harvest.memo x.harvest.ts_resp x.harvest.resp h) refl
        (judge_whole-Judged pool all linear x recorded rest now h stands)
        (λ g s. judge_all-fine rest (x ∷ recorded) x.harvest.ts_resp g s)
    where
      by_judged :
          (j : Judged)
          → judge_whole x.harvest.cidx x.harvest.memo x.harvest.ts_resp x.harvest.resp h ≡ j
          → StandsJudged pool all linear (x ∷ recorded) rest x.harvest.ts_resp j
          → ((g : History)
              → Stands pool all linear (x ∷ recorded) rest x.harvest.ts_resp g
              → (h' : History) × (judge_all judge_whole (harvests rest) g ≡ fine h'))
          → (h' : History) × (judge_all judge_whole (harvests (x ∷ rest)) h ≡ fine h')
      by_judged (fine g) e s ih = let (h', q) = ih g s in (h', rw (e, judge_all) q)
      by_judged (violation g) e s ih = absurd s
      by_judged index_panic e s ih = absurd s

-- every key has the dummy in each client's row
abbrev IsFresh : ℕ → HashMap KeySpans → Type 0
IsFresh n spans =
    All (λ (e : Text × KeySpans). e.1 ≡ replicate n (dummy ∷ [])) spans × DistinctKeys spans

add_keys-IsFresh :
    (n : ℕ) (keys : List Text) (spans : HashMap KeySpans)
    → IsFresh n spans
    → IsFresh n (add_keys n keys spans)
unfolding add_keys
add_keys-IsFresh n [] spans f = f
add_keys-IsFresh n (key ∷ keys) spans f = elim (Bool-cases (contains_key key spans)) [
  | inl e ↦ rw e (add_keys-IsFresh n keys spans f)
  | inr e ↦ rw e (
      add_keys-IsFresh n keys _ (
        All-insert (λ ks. ks ≡ replicate n (dummy ∷ [])) key (replicate n (dummy ∷ [])) spans refl
            f.0,
        DistinctKeys-insert key (replicate n (dummy ∷ [])) spans f.1,
      ))
]

add_all_keys-IsFresh :
    (n : ℕ) (keys : List (List Text)) (spans : HashMap KeySpans)
    → IsFresh n spans
    → IsFresh n (add_all_keys n keys spans)
unfolding add_all_keys
add_all_keys-IsFresh n [] spans f = f
add_all_keys-IsFresh n (cli_keys ∷ keys) spans f =
    add_all_keys-IsFresh n keys _ (add_keys-IsFresh n cli_keys spans f)

module _ (n : ℕ) (some_client : 0 < n) (keys : List (List Text)) where
  abbrev pub pool_of : HashMap KeySpans
  pool_of = (History.new n keys).spans

  new-IsFresh : IsFresh n pool_of
  unfolding History.new
  new-IsFresh = add_all_keys-IsFresh n keys [] (tt, tt)

  new-Stands :
      (ys : List Effect) (linear : Linearizable pool_of ys)
      → InOrder (replicate n 0) 0 (harvests ys)
      → Stands pool_of ys linear [] ys 0 (History.new n keys)
  unfolding History.new
  new-Stands ys linear order = record {
    rows = λ key. replicate n (start ∷ []);
    records = record {
      valid = λ key. RowsValid-start n;
      from = λ key. All-replicate (All (From [] key)) n (start ∷ []) (inl refl, tt);
      has_start = λ key. InRows-start n some_client;
      has = λ key y value e u. absurd e;
      spans_are = λ key ks e.
          All-lookup (λ ks. ks ≡ replicate n (dummy ∷ [])) key pool_of new-IsFresh.0 e
          ∙ sym (all_spans_of-start n);
      known = λ key. refl;
      distinct = new-IsFresh.1;
    };
    queued = tt;
    into = λ y e. absurd e;
    out = λ y e. inr e;
    coming = λ y e. e;
    order = order;
  }

  -- If the responses, in the order that the loop keeps, are those of a linearizable store over the
  -- keys of the pool, each call of which takes effect at a moment from its call to its response, the
  -- history that is trimmed at each update finds no violation in them.
  pub judge_all-Linearizable :
      (ys : List Effect)
      → Linearizable pool_of ys
      → InOrder (replicate n 0) 0 (harvests ys)
      → (left_checks : ℕ) × (outcome (judge_all judge (harvests ys) (History.new n keys))
          ≡ some (some left_checks))
  judge_all-Linearizable ys linear order =
      let (h, e) =
        judge_all-fine pool_of ys linear ys [] 0 (History.new n keys)
          (new-Stands ys linear order) in
      (queue_len h, (judge_all-whole n keys (harvests ys) order).0 ∙ ap outcome e)
