-- ===== src/Fuzzer/History/Linear.antt =====
-- The checks of runner/src/bin/fuzzer/history.rs raise no false alarm: what a linearization of the
-- recorded updates lets a call see is accepted.
use my_mad_kv.Fuzzer.History.Instants.{
  Instant, at_tick, IsBefore, IsUpto, IsBefore-or, IsBefore-absurd, IsBefore-IsUpto,
  IsUpto-IsBefore, IsUpto-IsUpto, IsBefore-lt, IsUpto-le,
}
use my_mad_kv.Prelude.{
  ℕ, ◌≤◌, ◌≡◌, ◌⊎◌, inl, inr, refl, sym, ap, ◌∙◌, true, Option, some, List, [], ◌∷◌, ◌++◌, All,
  is_some,
}
use mathlib.Core.Path.{subst}
use my_mad_kv.Text.{Text}
use my_mad_kv.Collections.HashMap.{HashMap, lookup}
use my_mad_kv.Runner.Ioapi.{
  KvResp, put_resp, swap_resp, get_resp, scan_resp, delete_resp, stop_resp,
}
use my_mad_kv.Fuzzer.History.{UpdateSpan, KeySpans, check_call}
use my_mad_kv.Fuzzer.History.Accepts.{Explanation}
use my_mad_kv.Fuzzer.History.Verdicts.{check_call_iff, Accepts, KeyExplains}

-- An update with the moment at which it takes effect.
pub record Placed : Type 0 where
  pub span : UpdateSpan
  pub point : Instant

-- Each point lies between the call and the response of its update, and in front of the points of
-- the client's later updates.
abbrev pub IsPlaced : List Placed → Type 0
IsPlaced [] = Unit
IsPlaced (p ∷ l) =
    IsUpto (at_tick p.span.ts_call) p.point
    × IsUpto p.point (at_tick p.span.ts_resp)
    × All (λ (q : Placed). IsBefore p.point q.point) l
    × IsPlaced l

abbrev pub spans_of : List Placed → List UpdateSpan
spans_of [] = []
spans_of (p ∷ l) = p.span ∷ spans_of l

abbrev pub all_spans_of : List (List Placed) → KeySpans
all_spans_of [] = []
all_spans_of (l ∷ ks) = spans_of l ∷ all_spans_of ks

-- Of the updates that take effect before `now`, this one is the last.
abbrev pub IsLast : Instant → Placed → List (List Placed) → Type 0
IsLast now p = All (All (λ (q : Placed). IsBefore q.point now → IsUpto q.point p.point))

-- At `now` the key has the value: its last update before has it.
pub record Holds (now : Instant) (value : Option Text) (ks : List (List Placed)) : Type 0 where
  pub before : List (List Placed)
  pub behind : List (List Placed)
  pub older : List Placed
  pub last : Placed
  pub newer : List Placed
  pub splits : ks ≡ before ++ (older ++ last ∷ newer) ∷ behind
  pub in_time : IsBefore last.point now
  pub latest : IsLast now last ks
  pub is_value : last.span.value ≡ value

-- The response tells of the value that its key had before the call took effect.
abbrev pub Tells : KvResp → Text → Option Text → Type 0
Tells (put_resp key found) k v = (k ≡ key) × (is_some v ≡ found)
Tells (swap_resp key old_value) k v = (k ≡ key) × (v ≡ old_value)
Tells (get_resp key value) k v = (k ≡ key) × (v ≡ value)
Tells (scan_resp lo hi entries) k v = ⊥
Tells (delete_resp key found) k v = (k ≡ key) × (is_some v ≡ found)
Tells stop_resp k v = ⊥

pub spans_of-append : (l m : List Placed) → spans_of (l ++ m) ≡ spans_of l ++ spans_of m
spans_of-append [] m = refl
spans_of-append (p ∷ l) m = ap (◌∷◌ p.span) (spans_of-append l m)

all_spans_of-append :
    (l m : List (List Placed)) → all_spans_of (l ++ m) ≡ all_spans_of l ++ all_spans_of m
all_spans_of-append [] m = refl
all_spans_of-append (p ∷ l) m = ap (◌∷◌ (spans_of p)) (all_spans_of-append l m)

All-split {κ} :
    {A : Type 0} (P : A → Type κ) (l : List A) (x : A) (m : List A)
    → All P (l ++ x ∷ m)
    → P x × All P m
All-split P [] x m a = a
All-split P (y ∷ l) x m a = All-split P l x m a.1

IsPlaced-split : (l m : List Placed) → IsPlaced (l ++ m) → IsPlaced m
IsPlaced-split [] m h = h
IsPlaced-split (p ∷ l) m h = IsPlaced-split l m h.3

-- No update of the same client behind the last one was acknowledged before the call.
newer_pending :
    (ts_call : ℕ) (now : Instant) (p : Placed) (newer : List Placed)
    → IsUpto (at_tick ts_call) now
    → IsPlaced newer
    → All (λ (q : Placed). IsBefore p.point q.point) newer
    → All (λ (q : Placed). IsBefore q.point now → IsUpto q.point p.point) newer
    → All (λ (s : UpdateSpan). ts_call ≤ s.ts_resp) (spans_of newer)
newer_pending ts_call now p [] h w a b = tt
newer_pending ts_call now p (q ∷ newer) h w a b =
    (pending_call (IsBefore-or q.point now), newer_pending ts_call now p newer h w.3 a.1 b.1)
  where
    pending_call : IsBefore q.point now ⊎ IsUpto now q.point → ts_call ≤ q.span.ts_resp
    pending_call (inl early) = absurd (IsBefore-absurd p.point q.point a.0 (b.0 early))
    pending_call (inr late) =
        IsUpto-le ts_call q.span.ts_resp
          (IsUpto-IsUpto _ q.point _ (IsUpto-IsUpto _ now _ h late) w.1)

module _ (ks : List (List Placed)) (placed : All IsPlaced ks) (ts_call ts_resp : ℕ) (now : Instant)
    (called : IsUpto (at_tick ts_call) now) (answered : IsUpto now (at_tick ts_resp))
    (value : Option Text) (holds : Holds now value ks) where
  pub Holds-Explanation :
      (P : Option Text → Type 0) → P value → Explanation P ts_call ts_resp (all_spans_of ks)
  Holds-Explanation P fits =
      let open_client = subst (All IsPlaced) holds.splits placed in
      let client = (All-split IsPlaced holds.before _ holds.behind open_client).0 in
      let last = IsPlaced-split holds.older (holds.last ∷ holds.newer) client in
      let latest_client =
        (All-split _ holds.before _ holds.behind
          (subst (IsLast now holds.last) holds.splits holds.latest)).0 in
      let latest = (All-split _ holds.older holds.last holds.newer latest_client).1 in
      record {
        before = all_spans_of holds.before;
        behind = all_spans_of holds.behind;
        older = spans_of holds.older;
        span = holds.last.span;
        newer = spans_of holds.newer;
        splits =
            ap all_spans_of holds.splits
            ∙ all_spans_of-append holds.before _
            ∙ ap (λ l. all_spans_of holds.before ++ l ∷ all_spans_of holds.behind)
                (spans_of-append holds.older (holds.last ∷ holds.newer));
        begun = IsBefore-lt holds.last.span.ts_call ts_resp (
            IsUpto-IsBefore _ holds.last.point _ last.0
              (IsBefore-IsUpto _ now _ holds.in_time answered));
        value_fits = subst P (sym holds.is_value) fits;
        pending = newer_pending ts_call now holds.last holds.newer called last.3 last.2 latest;
      }

  -- If the recorded updates of a key take effect at points between their calls and responses, a
  -- response of one key that tells of the value at a point between its call and its response is
  -- accepted.
  pub check_call-Holds :
      (spans : HashMap KeySpans) (key : Text) (resp : KvResp)
      → lookup key spans ≡ some (all_spans_of ks)
      → Tells resp key value
      → check_call spans (record { ts_call = ts_call; ts_resp = ts_resp; resp = resp }) ≡ true
  check_call-Holds spans key resp known tells =
      (check_call_iff spans (record { ts_call = ts_call; ts_resp = ts_resp; resp = resp })).1
        (accepts resp tells)
    where
      explains :
          (P : Option Text → Type 0) (k : Text)
          → key ≡ k
          → P value
          → KeyExplains P spans k ts_call ts_resp
      explains P k e fits = record {
        key_spans = all_spans_of ks;
        known = rw (← e) known;
        explanation = Holds-Explanation P fits;
      }

      accepts : (r : KvResp) → Tells r key value → Accepts spans ts_call ts_resp r
      accepts (put_resp k found) t = explains _ k t.0 t.1
      accepts (swap_resp k old_value) t = explains _ k t.0 t.1
      accepts (get_resp k v) t = explains _ k t.0 t.1
      accepts (scan_resp lo hi entries) t = absurd t
      accepts (delete_resp k found) t = explains _ k t.0 t.1
      accepts stop_resp t = t
