-- ===== src/Fuzzer/Loop/Sound/Knows.antt =====
-- What the untrimmed history (runner/src/bin/fuzzer/history.rs) has recorded of the calls of a
-- linearizable store is enough to accept every response that is checked.
use my_mad_kv.Fuzzer.History.Instants.{
  Instant, at_tick, IsBefore, IsUpto, IsBefore-absurd, IsUpto-refl, IsUpto-of_IsBefore, zero_least,
  IsBefore-IsUpto, IsUpto-IsBefore, at_tick-IsBefore,
}
use my_mad_kv.Prelude.{
  ℕ, ◌<◌, ◌≡◌, ◌⊎◌, inl, inr, refl, sym, ap, ◌∙◌, true, Option, none, some, List, [], ◌∷◌, All,
  All-mono, is_some, Option-cases, Bool-cases,
}
use mathlib.Core.Path.{subst}
use my_mad_kv.Text.{Text, text_eq}
use my_mad_kv.Text.Order.{text_eq_refl, text_eq_iff}
use my_mad_kv.Collections.HashMap.{HashMap, lookup}
use my_mad_kv.Runner.Ioapi.{
  KvResp, put_resp, swap_resp, get_resp, scan_resp, delete_resp, stop_resp,
}
use my_mad_kv.Fuzzer.History.{KeySpans, check_call}
use my_mad_kv.Fuzzer.History.Accepts.{Explanation}
use my_mad_kv.Fuzzer.History.Verdicts.{KeyExplains, Accepts, check_call_iff}
use my_mad_kv.Fuzzer.History.Linear.{Placed, all_spans_of, Holds, Holds-Explanation}
use my_mad_kv.Fuzzer.Loop.Sound.{Effect, Elem, IsUpdate, NoneBetween, ValueAt, IsKnown, Answers}
use my_mad_kv.Fuzzer.Loop.Sound.Rows.{
  place, start, Rows, RowsValid, RowsValid-All, InRows, InRows-Holds,
}

-- A recorded update is the dummy or comes from one of the calls.
abbrev pub From : List Effect → Text → Placed → Type 0
From recorded key q =
    (q ≡ start)
    ⊎ ((y : Effect) × (value : Option Text) × Elem y recorded
        × IsUpdate y key value
        × (q ≡ place y value))

-- no key twice
abbrev pub DistinctKeys : HashMap KeySpans → Type 0
DistinctKeys [] = Unit
DistinctKeys ((key, ks) ∷ spans) = (lookup key spans ≡ none) × DistinctKeys spans

-- The spans record the updates among the calls, key by key.
pub record Records (pool : HashMap KeySpans) (recorded : List Effect) (maxtr : List ℕ)
    (spans : HashMap KeySpans) (rows : Text → Rows) : Type 0 where
  pub valid : (key : Text) → RowsValid maxtr (rows key)
  pub from : (key : Text) → All (All (From recorded key)) (rows key)
  pub has_start : (key : Text) → InRows start (rows key)
  pub has :
      (key : Text) (y : Effect) (value : Option Text)
      → Elem y recorded
      → IsUpdate y key value
      → InRows (place y value) (rows key)
  pub spans_are :
      (key : Text) (ks : KeySpans) → lookup key spans ≡ some ks → ks ≡ all_spans_of (rows key)
  pub known : (key : Text) → is_some (lookup key spans) ≡ is_some (lookup key pool)
  pub distinct : DistinctKeys spans

-- every entry is the one that its key finds
entries-found :
    (spans : HashMap KeySpans)
    → DistinctKeys spans
    → All (λ (s : Text × KeySpans). lookup s.0 spans ≡ some s.1) spans
unfolding lookup
entries-found [] d = tt
entries-found ((key, ks) ∷ spans) d = (
  rw (text_eq_refl key) refl,
  All-mono _ _ spans
      (λ s e. elim (Bool-cases (text_eq key s.0)) [
        | inl q ↦ absurd (cc (d.0, e, ap (λ k. lookup k spans) ((text_eq_iff key s.0).0 q)))
        | inr q ↦ rw q e
      ])
      (entries-found spans d.1),
)

module _ (pool : HashMap KeySpans) (all recorded rest : List Effect) (maxtr : List ℕ)
    (spans : HashMap KeySpans) (rows : Text → Rows)
    (records : Records pool recorded maxtr spans rows)
    (into : (y : Effect) → Elem y recorded → Elem y all)
    (out : (y : Effect) → Elem y all → Elem y recorded ⊎ Elem y rest) (y : Effect)
    (begun : 0 < y.harvest.memo.0) (called : IsUpto (at_tick y.harvest.memo.0) y.point)
    (answered : IsUpto y.point (at_tick y.harvest.ts_resp))
    (later : (z : Effect) → Elem z rest → IsBefore (at_tick y.harvest.ts_resp) z.point) where
  late-IsUpto : (z : Effect) → Elem z rest → IsUpto y.point z.point
  late-IsUpto z e =
      IsUpto-of_IsBefore y.point z.point
        (IsUpto-IsBefore y.point (at_tick y.harvest.ts_resp) z.point answered (later z e))

  latest :
      (key : Text) (from : Instant)
      → NoneBetween all key from y.point
      → (q : Placed) → From recorded key q
      → IsUpto (at_tick 0) from
      → IsBefore q.point y.point
      → IsUpto q.point from
  latest key from none_between q (inl e) least lt = rw e least
  latest key from none_between q (inr (z, v, ez, u, e)) least lt =
      let points : q.point ≡ z.point = ap (λ p. p.point) e in
      subst (λ p. IsUpto p from) (sym points)
        (none_between z v (into z ez) u (subst (λ p. IsBefore p y.point) points lt))

  value-Holds :
      (key : Text) (value : Option Text)
      → ValueAt all key y.point value
      → Holds y.point value (rows key)
  value-Holds key value (inl (z, ez, u, lt, none_between)) =
      InRows-Holds y.point value (place z value) (rows key)
        (elim (out z ez) [
          | inl r ↦ records.has key z value r u
          | inr r ↦ absurd (IsBefore-absurd z.point y.point lt (late-IsUpto z r))
        ])
        lt
        (All-mono _ _ (rows key)
          (λ row a.
            All-mono _ _ row (λ q f. latest key z.point none_between q f (zero_least z.point)) a)
          (records.from key))
        refl
  value-Holds key value (inr (e, none_between)) =
      InRows-Holds y.point value start (rows key) (records.has_start key)
        (IsBefore-IsUpto _ (at_tick y.harvest.memo.0) _ (at_tick-IsBefore 0 y.harvest.memo.0 begun)
          called)
        (All-mono _ _ (rows key)
          (λ row a.
            All-mono _ _ row
              (λ q f. latest key (at_tick 0) none_between q f (IsUpto-refl (at_tick 0))) a)
          (records.from key))
        (sym e)

  value-Explanation :
      (key : Text) (value : Option Text) (P : Option Text → Type 0) (ks : KeySpans)
      → lookup key spans ≡ some ks
      → ValueAt all key y.point value
      → P value
      → Explanation P y.harvest.memo.0 y.harvest.ts_resp ks
  value-Explanation key value P ks found at fits =
      subst (Explanation P y.harvest.memo.0 y.harvest.ts_resp)
        (sym (records.spans_are key ks found))
        (Holds-Explanation (rows key) (RowsValid-All maxtr (rows key) (records.valid key))
          y.harvest.memo.0 y.harvest.ts_resp y.point called answered value
          (value-Holds key value at) P fits)

  value-KeyExplains :
      (key : Text) (value : Option Text) (P : Option Text → Type 0)
      → IsKnown pool key
      → ValueAt all key y.point value
      → P value
      → KeyExplains P spans key y.harvest.memo.0 y.harvest.ts_resp
  value-KeyExplains key value P known at fits = elim (Option-cases (lookup key spans)) [
    | inl e ↦ absurd (cc (records.known key, known, ap is_some e))
    | inr (ks, e) ↦ record {
      key_spans = ks;
      known = e;
      explanation = value-Explanation key value P ks e at fits;
    }
  ]

  Answers-Accepts :
      (resp : KvResp)
      → Answers all pool y.point resp
      → Accepts spans y.harvest.memo.0 y.harvest.ts_resp resp
  Answers-Accepts (put_resp key found) (k, (v, at, fits)) = value-KeyExplains key v _ k at fits
  Answers-Accepts (swap_resp key old_value) (k, at) = value-KeyExplains key old_value _ k at refl
  Answers-Accepts (get_resp key value) (k, at) = value-KeyExplains key value _ k at refl
  Answers-Accepts (scan_resp lo hi entries) (ranged, distinct, at) = record {
    ranged = ranged;
    distinct = distinct;
    explained =
        All-mono _ _ spans
          (λ s found inside.
            value-Explanation s.0 (lookup s.0 entries) _ s.1 found
              (at s.0 (sym (records.known s.0) ∙ ap is_some found) inside) refl)
          (entries-found spans records.distinct);
  }
  Answers-Accepts (delete_resp key found) (k, (v, at, fits)) = value-KeyExplains key v _ k at fits
  Answers-Accepts stop_resp a = a

  -- The checker accepts a response that tells of the values at its point, once every call that
  -- takes effect before it is recorded.
  pub Answers-check_call :
      Answers all pool y.point y.harvest.resp
      → check_call spans (record {
        ts_call = y.harvest.memo.0;
        ts_resp = y.harvest.ts_resp;
        resp = y.harvest.resp;
      })
        ≡ true
  Answers-check_call a = (check_call_iff spans _).1 (Answers-Accepts y.harvest.resp a)
