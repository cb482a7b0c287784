-- ===== src/Fuzzer/History/Accepts.antt =====
-- An independent description of the responses on one key that runner/src/bin/fuzzer/history.rs
-- accepts, and that the checks decide it.
use my_mad_kv.Prelude.{
  ℕ, ◌≤◌, ◌<◌, ◌≡◌, refl, sym, ap, ◌∙◌, ◌↔◌, inl, inr, Bool, true, false, ◌&&◌, Option, none, some,
  List, [], ◌∷◌, ◌++◌, arith, ltb, All, is_some, ltb_iff, and_split, and_join, or_split,
}
use my_mad_kv.Text.{Text}
use my_mad_kv.Text.Order.{text_eq_iff}
use my_mad_kv.Fuzzer.History.{UpdateSpan, KeySpans, check_clients, found_matches, value_matches}
use my_mad_kv.Fuzzer.History.Checks.{
  fits, all_open, explained, explained_by_some, check_clients-explained,
}

-- Some update of the key, by any client, was called before the response came and has a value with
-- `P`, and the same client had no later update acknowledged before the call.
pub record Explanation (P : Option Text → Type 0) (ts_call ts_resp : ℕ) (key_spans : KeySpans)
    : Type 0 where
  pub before : KeySpans
  pub behind : KeySpans
  pub older : List UpdateSpan
  pub span : UpdateSpan
  pub newer : List UpdateSpan
  pub splits : key_spans ≡ before ++ (older ++ span ∷ newer) ∷ behind
  pub begun : span.ts_call < ts_resp
  pub value_fits : P span.value
  pub pending : All (λ (s : UpdateSpan). ts_call ≤ s.ts_resp) newer

all_open_iff :
    (ts_call : ℕ) (l : List UpdateSpan)
    → (all_open ts_call l ≡ true) ↔ All (λ (s : UpdateSpan). ts_call ≤ s.ts_resp) l
unfolding all_open
all_open_iff ts_call [] = (λ _. tt, λ _. refl)
all_open_iff ts_call (s ∷ l) = ground (arith, all_open_iff ts_call l)

module _ (matches : Option Text → Bool) (P : Option Text → Type 0)
    (decides : (v : Option Text) → (matches v ≡ true) ↔ P v) (ts_call ts_resp : ℕ) where
  -- an explanation among the updates of one client
  record Within (l : List UpdateSpan) : Type 0 where
    older : List UpdateSpan
    span : UpdateSpan
    newer : List UpdateSpan
    splits : l ≡ older ++ span ∷ newer
    begun : span.ts_call < ts_resp
    value_fits : P span.value
    pending : All (λ (s : UpdateSpan). ts_call ≤ s.ts_resp) newer

  fits_iff : (s : UpdateSpan) → (fits matches ts_resp s ≡ true) ↔ (s.ts_call < ts_resp) × P s.value
  fits_iff s = (
    λ h.
        let (a, b) = and_split (ltb s.ts_call ts_resp) (matches s.value) h in
        ((ltb_iff s.ts_call ts_resp).0 a, (decides s.value).0 b),
    λ (a, b).
        and_join (ltb s.ts_call ts_resp) (matches s.value) ((ltb_iff s.ts_call ts_resp).1 a)
          ((decides s.value).1 b),
  )

  explained→Within : (l : List UpdateSpan) → explained matches ts_call ts_resp l ≡ true → Within l
  unfolding explained
  explained→Within [] h = absurd (cc)
  explained→Within (s ∷ l) h =
      elim (or_split (fits matches ts_resp s && all_open ts_call l)
        (explained matches ts_call ts_resp l) h) [
          | inl here ↦
              let (a, b) = and_split (fits matches ts_resp s) (all_open ts_call l) here in
              let (begun, value) = (fits_iff s).0 a in
              record {
                older = [];
                span = s;
                newer = l;
                splits = refl;
                begun = begun;
                value_fits = value;
                pending = (all_open_iff ts_call l).0 b;
              }
          | inr later ↦
              let w = explained→Within l later in
              record {
                older = s ∷ w.older;
                span = w.span;
                newer = w.newer;
                splits = ap (◌∷◌ s) w.splits;
                begun = w.begun;
                value_fits = w.value_fits;
                pending = w.pending;
              }
        ]

  explained_split :
      (older newer : List UpdateSpan) (s : UpdateSpan)
      → fits matches ts_resp s ≡ true
      → all_open ts_call newer ≡ true
      → explained matches ts_call ts_resp (older ++ s ∷ newer) ≡ true
  unfolding explained
  explained_split [] newer s h k = ground arith
  explained_split (t ∷ older) newer s h k = ground (arith, explained_split older newer s h k)

  some→Explanation :
      (ks : KeySpans)
      → explained_by_some matches ts_call ts_resp ks ≡ true
      → Explanation P ts_call ts_resp ks
  unfolding explained_by_some
  some→Explanation [] h = absurd (cc)
  some→Explanation (l ∷ ks) h =
      elim (or_split (explained matches ts_call ts_resp l)
        (explained_by_some matches ts_call ts_resp ks) h) [
          | inl here ↦
              let w = explained→Within l here in
              record {
                before = [];
                behind = ks;
                older = w.older;
                span = w.span;
                newer = w.newer;
                splits = ap (λ c. c ∷ ks) w.splits;
                begun = w.begun;
                value_fits = w.value_fits;
                pending = w.pending;
              }
          | inr there ↦
              let e = some→Explanation ks there in
              record {
                before = l ∷ e.before;
                behind = e.behind;
                older = e.older;
                span = e.span;
                newer = e.newer;
                splits = ap (◌∷◌ l) e.splits;
                begun = e.begun;
                value_fits = e.value_fits;
                pending = e.pending;
              }
        ]

  some_split :
      (before behind : KeySpans) (l : List UpdateSpan)
      → explained matches ts_call ts_resp l ≡ true
      → explained_by_some matches ts_call ts_resp (before ++ l ∷ behind) ≡ true
  unfolding explained_by_some
  some_split [] behind l h = ground arith
  some_split (k ∷ before) behind l h = ground (arith, some_split before behind l h)

  Explanation→some :
      (ks : KeySpans)
      → Explanation P ts_call ts_resp ks
      → explained_by_some matches ts_call ts_resp ks ≡ true
  Explanation→some ks e =
      ap (explained_by_some matches ts_call ts_resp) e.splits
      ∙ some_split e.before e.behind (e.older ++ e.span ∷ e.newer) (
          explained_split e.older e.newer e.span ((fits_iff e.span).1 (e.begun, e.value_fits))
            ((all_open_iff ts_call e.newer).1 e.pending))

  pub check_clients_iff :
      (ks : KeySpans)
      → (check_clients matches ts_call ts_resp ks ≡ true) ↔ Explanation P ts_call ts_resp ks
  check_clients_iff ks = (
    λ h. some→Explanation ks (sym (check_clients-explained matches ts_call ts_resp ks) ∙ h),
    λ e. check_clients-explained matches ts_call ts_resp ks ∙ Explanation→some ks e,
  )

pub found_matches_iff :
    (found : Bool) (v : Option Text) → (found_matches found v ≡ true) ↔ (is_some v ≡ found)
found_matches_iff true none = ground arith
found_matches_iff true (some v) = ground arith
found_matches_iff false none = ground arith
found_matches_iff false (some v) = ground arith

pub value_matches_iff : (value v : Option Text) → (value_matches value v ≡ true) ↔ (v ≡ value)
value_matches_iff none none = ground arith
value_matches_iff none (some w) = ground arith
value_matches_iff (some x) none = ground arith
value_matches_iff (some x) (some w) = ground (arith, text_eq_iff w x)
