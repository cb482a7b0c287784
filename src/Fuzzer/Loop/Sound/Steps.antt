-- ===== src/Fuzzer/Loop/Sound/Steps.antt =====
-- The records of a linearizable store's updates (runner/src/bin/fuzzer/history.rs) stay what they
-- are at each response.
use my_mad_kv.Fuzzer.History.Instants.{at_tick, IsUpto, IsUpto-IsUpto, IsUpto-le}
use my_mad_kv.Prelude.{
  ℕ, ◌<◌, ◌≡◌, inl, inr, refl, sym, ap, ◌∙◌, Option, none, some, List, [], ◌∷◌, All, All-mono,
  arith, is_some, Bool-cases, set, get_elem?, length, if◌then◌else◌,
}
use mathlib.Core.Path.{subst}
use my_mad_kv.Text.{Text, text_eq}
use my_mad_kv.Text.Order.{text_eq_iff}
use my_mad_kv.Collections.HashMap.{HashMap, lookup, insert}
use my_mad_kv.Collections.HashMap.Laws.{lookup-insert}
use my_mad_kv.Fuzzer.History.{KeySpans, push_span}
use my_mad_kv.Fuzzer.History.Preserved.{get_elem?-lt}
use my_mad_kv.Fuzzer.History.Linear.{Placed, all_spans_of}
use my_mad_kv.Fuzzer.Loop.Sound.{Effect, Elem, IsUpdate}
use my_mad_kv.Fuzzer.Loop.Sound.Rows.{
  place, start, Rows, push_placed, all_spans_of-push, RowsValid, RowsValid-length, RowsValid-set,
  RowsValid-push, AllRows-push, InRows, InRows-kept, InRows-push,
}
use my_mad_kv.Fuzzer.Loop.Sound.Knows.{From, DistinctKeys, Records}

From-mono :
    (x : Effect) (recorded : List Effect) (key : Text) (q : Placed)
    → From recorded key q
    → From (x ∷ recorded) key q
From-mono x recorded key q (inl e) = inl e
From-mono x recorded key q (inr (y, v, e, u, p)) = inr (y, v, inr e, u, p)

AllFrom-mono :
    (x : Effect) (recorded : List Effect) (key : Text) (rows : Rows)
    → All (All (From recorded key)) rows
    → All (All (From (x ∷ recorded) key)) rows
AllFrom-mono x recorded key rows a =
    All-mono _ _ rows (λ row b. All-mono _ _ row (From-mono x recorded key) b) a

-- A call that is no update leaves the records as they are.
pub Records-read :
    (pool : HashMap KeySpans) (x : Effect) (recorded : List Effect) (maxtr : List ℕ)
    (spans : HashMap KeySpans) (rows : Text → Rows)
    → x.harvest.memo.1 ≡ none
    → Records pool recorded maxtr spans rows
    → Records pool (x ∷ recorded) maxtr spans rows
Records-read pool x recorded maxtr spans rows e r = record {
  valid = r.valid;
  from = λ key. AllFrom-mono x recorded key (rows key) (r.from key);
  has_start = r.has_start;
  has = λ key y value el u. elim el [
    | inl q ↦ absurd (cc (e, u, ap (λ z. z.harvest.memo.1) q))
    | inr q ↦ r.has key y value q u
  ];
  spans_are = r.spans_are;
  known = r.known;
  distinct = r.distinct;
}

pub DistinctKeys-insert :
    (key : Text) (ks : KeySpans) (spans : HashMap KeySpans)
    → DistinctKeys spans
    → DistinctKeys (insert key ks spans)
unfolding insert lookup
DistinctKeys-insert key ks [] d = (refl, tt)
DistinctKeys-insert key ks ((j, old) ∷ spans) d = elim (Bool-cases (text_eq j key)) [
  | inl e ↦ rw e d
  | inr e ↦ rw e (
    lookup-insert j key ks spans ∙ ground (arith, text_eq_iff key j, text_eq_iff j key, d.0),
    DistinctKeys-insert key ks spans d.1,
  )
]

module _ (pool : HashMap KeySpans) (x : Effect) (recorded : List Effect) (maxtr : List ℕ)
    (spans : HashMap KeySpans) (rows : Text → Rows) (r : Records pool recorded maxtr spans rows)
    (key : Text) (value : Option Text) (update : IsUpdate x key value) (ks : KeySpans)
    (found : lookup key spans ≡ some ks) (t : ℕ) (last : get_elem? maxtr x.harvest.cidx ≡ some t)
    (after : t < x.harvest.memo.0) (called : IsUpto (at_tick x.harvest.memo.0) x.point)
    (answered : IsUpto x.point (at_tick x.harvest.ts_resp)) where
  abbrev pushed_spans : KeySpans
  pushed_spans = push_span (place x value).span x.harvest.cidx ks

  abbrev new_spans : HashMap KeySpans
  new_spans = insert key pushed_spans spans

  -- the rows of that key with the update, and the others
  abbrev pub new_rows : Text → Rows
  new_rows k = if text_eq key k then push_placed (place x value) x.harvest.cidx (rows k) else rows k

  -- what holds of both kinds of rows holds of all
  by_key :
      (P : Text → Rows → Type 0) (k : Text)
      → (key ≡ k → P k (push_placed (place x value) x.harvest.cidx (rows k)))
      → P k (rows k)
      → P k (new_rows k)
  by_key P k pushed kept = elim (Bool-cases (text_eq key k)) [
    | inl e ↦ rw e (pushed ((text_eq_iff key k).0 e))
    | inr e ↦ rw e kept
  ]

  new_valid : (k : Text) → RowsValid (set maxtr x.harvest.cidx x.harvest.ts_resp) (new_rows k)
  new_valid k =
      by_key (λ k rs. RowsValid (set maxtr x.harvest.cidx x.harvest.ts_resp) rs) k
        (λ e.
          RowsValid-push (place x value) maxtr (rows k) x.harvest.cidx t last after called answered
            (r.valid k))
        (RowsValid-set maxtr (rows k) x.harvest.cidx t x.harvest.ts_resp last
          (omega (
            arith,
            after,
            IsUpto-le x.harvest.memo.0 x.harvest.ts_resp
                (IsUpto-IsUpto _ x.point _ called answered),
          ))
          (r.valid k))

  new_from : (k : Text) → All (All (From (x ∷ recorded) k)) (new_rows k)
  new_from k =
      by_key (λ k rs. All (All (From (x ∷ recorded) k)) rs) k
        (λ e.
          AllRows-push (From (x ∷ recorded) k) (place x value) x.harvest.cidx (rows k)
            (inr (x, value, inl refl, update ∙ ap (λ j. some (j, value)) e, refl))
            (AllFrom-mono x recorded k (rows k) (r.from k)))
        (AllFrom-mono x recorded k (rows k) (r.from k))

  new_start : (k : Text) → InRows start (new_rows k)
  new_start k =
      by_key (λ k rs. InRows start rs) k
        (λ e. InRows-kept start (place x value) x.harvest.cidx (rows k) (r.has_start k))
        (r.has_start k)

  inside : (k : Text) → x.harvest.cidx < length (rows k)
  inside k =
      omega
        (arith, get_elem?-lt maxtr x.harvest.cidx last, RowsValid-length maxtr (rows k) (r.valid k))

  new_has :
      (k : Text) (y : Effect) (v : Option Text)
      → Elem y (x ∷ recorded)
      → IsUpdate y k v
      → InRows (place y v) (new_rows k)
  new_has k y v (inl e) u =
      let same_update : some (k, v) ≡ some (key, value) =
        sym u ∙ ap (λ z. z.harvest.memo.1) e ∙ update in
      let same_key : key ≡ k = cc (same_update) in
      let same_value : v ≡ value = cc (same_update) in
      rw ((text_eq_iff key k).1 same_key) (
        subst (λ p. InRows p (push_placed (place x value) x.harvest.cidx (rows k)))
          (ap (λ z. place z value) (sym e) ∙ ap (place y) (sym same_value))
          (InRows-push (place x value) x.harvest.cidx (rows k) (inside k)))
  new_has k y v (inr e) u =
      by_key (λ k rs. InRows (place y v) rs) k
        (λ q. InRows-kept (place y v) (place x value) x.harvest.cidx (rows k) (r.has k y v e u))
        (r.has k y v e u)

  new_spans_are :
      (k : Text) (ks' : KeySpans) → lookup k new_spans ≡ some ks' → ks' ≡ all_spans_of (new_rows k)
  new_spans_are k ks' e = elim (Bool-cases (text_eq key k)) [
    | inl q ↦
        let same : key ≡ k = (text_eq_iff key k).0 q in
        let inserted : lookup k new_spans ≡ some pushed_spans =
          lookup-insert k key pushed_spans spans ∙ rw q refl in
        let is_pushed : ks' ≡ pushed_spans = cc (e, inserted) in
        is_pushed
        ∙ ap (push_span (place x value).span x.harvest.cidx)
            (r.spans_are key ks found ∙ ap (λ j. all_spans_of (rows j)) same)
        ∙ sym (all_spans_of-push (place x value) x.harvest.cidx (rows k))
        ∙ rw q refl
    | inr q ↦
        let kept : lookup k new_spans ≡ lookup k spans =
          lookup-insert k key pushed_spans spans ∙ rw q refl in
        r.spans_are k ks' (sym kept ∙ e) ∙ rw q refl
  ]

  new_known : (k : Text) → is_some (lookup k new_spans) ≡ is_some (lookup k pool)
  new_known k = elim (Bool-cases (text_eq key k)) [
    | inl q ↦
        let same : key ≡ k = (text_eq_iff key k).0 q in
        let inserted : lookup k new_spans ≡ some pushed_spans =
          lookup-insert k key pushed_spans spans ∙ rw q refl in
        ap is_some inserted
        ∙ sym (ap is_some found)
        ∙ r.known key
        ∙ ap (λ j. is_some (lookup j pool)) same
    | inr q ↦
        let kept : lookup k new_spans ≡ lookup k spans =
          lookup-insert k key pushed_spans spans ∙ rw q refl in
        ap is_some kept ∙ r.known k
  ]

  -- An update is recorded in the row of its client.
  pub Records-update :
      Records pool (x ∷ recorded) (set maxtr x.harvest.cidx x.harvest.ts_resp) new_spans new_rows
  Records-update = record {
    valid = new_valid;
    from = new_from;
    has_start = new_start;
    has = new_has;
    spans_are = new_spans_are;
    known = new_known;
    distinct = DistinctKeys-insert key _ spans r.distinct;
  }
