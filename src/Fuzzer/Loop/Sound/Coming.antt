-- ===== src/Fuzzer/Loop/Sound/Coming.antt =====
-- Steps of the history of runner/src/bin/fuzzer/history.rs over responses in order: what is queued,
-- what is still to come, and a queue that is drained without a complaint.
use my_mad_kv.Prelude.{
  ℕ, ◌<◌, ◌≡◌, inl, inr, refl, sym, ap, true, Option, none, some, List, [], ◌∷◌, All, arith,
  Bool-cases, set, ltb,
}
use mathlib.Core.Path.{subst}
use my_mad_kv.Text.{Text}
use my_mad_kv.Collections.HashMap.{HashMap, insert}
use my_mad_kv.Fuzzer.History.{
  UpdateSpan, KeySpans, QueuedSpan, History, push_span, min_coming, drain, check_call,
}
use my_mad_kv.Fuzzer.History.Bounds.{min_coming-set, min_coming-get}
use my_mad_kv.Fuzzer.History.Untrimmed.{update_key_whole}
use my_mad_kv.Fuzzer.Loop.{fine, judge_applied}
use my_mad_kv.Fuzzer.Loop.Protocol.{Harvest, acknowledged, InOrder}
use my_mad_kv.Fuzzer.Loop.Sound.{Effect, harvests, Elem}

-- the entry of the queue for a response
abbrev pub entry : Effect → QueuedSpan
entry y = record { ts_call = y.harvest.memo.0; ts_resp = y.harvest.ts_resp; resp = y.harvest.resp }

-- a queued response is one of those harvested
abbrev pub Queued : List Effect → QueuedSpan → Type 0
Queued recorded e = (y : Effect) × Elem y recorded × (e ≡ entry y) × (0 < y.harvest.memo.0)

pub acknowledged-none :
    (x : Harvest) (maxtr : List ℕ) → x.memo.1 ≡ none → acknowledged x maxtr ≡ maxtr
acknowledged-none x maxtr e = rw e refl

pub acknowledged-some :
    (x : Harvest) (maxtr : List ℕ) (u : Text × Option Text)
    → x.memo.1 ≡ some u
    → acknowledged x maxtr ≡ set maxtr x.cidx x.ts_resp
acknowledged-some x maxtr u e = rw e refl

-- An update of a key in the pool, whose responses are all accepted, is fine.
pub update_key_whole-fine :
    (cidx : ℕ) (span : UpdateSpan) (key : Text) (ks : KeySpans) (h : History)
    → (drain
        (min_coming (set h.maxtr cidx span.ts_resp))
        (insert key (push_span span cidx ks) h.spans)
        h.queue).1
      ≡ none
    → judge_applied (update_key_whole cidx span key ks h)
      ≡ fine (record {
        queue =
            (drain
              (min_coming (set h.maxtr cidx span.ts_resp))
              (insert key (push_span span cidx ks) h.spans)
              h.queue).0;
        spans = insert key (push_span span cidx ks) h.spans;
        maxtr = set h.maxtr cidx span.ts_resp;
      })
unfolding update_key_whole judge_applied
update_key_whole-fine cidx span key ks h e = rw e refl

-- Every call that is still to come is made after all that is acknowledged.
pub InOrder-coming :
    (maxtr : List ℕ) (now : ℕ) (rest : List Effect)
    → InOrder maxtr now (harvests rest)
    → (z : Effect) → Elem z rest
    → min_coming maxtr < z.harvest.memo.0
InOrder-coming maxtr now [] o z e = absurd e
InOrder-coming maxtr now (x ∷ rest) ((t, last, after), timed, later, small, o) z (inl e) =
    let same : z.harvest.memo.0 ≡ x.harvest.memo.0 = ap (λ y. y.harvest.memo.0) e in
    omega (arith, same, after, min_coming-get maxtr x.harvest.cidx t last)
InOrder-coming maxtr now (x ∷ rest) ((t, last, after), timed, later, small, o) z (inr e) =
    let coming = InOrder-coming (acknowledged x.harvest maxtr) x.harvest.ts_resp rest o z e in
    by_memo x.harvest.memo.1 refl coming
  where
    by_memo :
        (u : Option (Text × Option Text))
        → x.harvest.memo.1 ≡ u
        → min_coming (acknowledged x.harvest maxtr) < z.harvest.memo.0
        → min_coming maxtr < z.harvest.memo.0
    by_memo none q c = rw q at c
    by_memo (some u) q c =
        let set_on : min_coming (set maxtr x.harvest.cidx x.harvest.ts_resp) < z.harvest.memo.0 =
          rw q at c in
        omega (
          arith,
          set_on,
          min_coming-set maxtr x.harvest.cidx t x.harvest.ts_resp last
              (omega (arith, after, timed)),
        )

-- A queue whose checked entries are all accepted is drained without a complaint.
pub drain-none :
    (mc : ℕ) (spans : HashMap KeySpans) (queue : List QueuedSpan)
    → All (λ (e : QueuedSpan). e.ts_resp < mc → check_call spans e ≡ true) queue
    → (drain mc spans queue).1 ≡ none
unfolding drain
drain-none mc spans [] a = refl
drain-none mc spans (e ∷ queue) a = elim (Bool-cases (ltb e.ts_resp mc)) [
  | inl q ↦ rw (q, a.0 (ground arith)) (drain-none mc spans queue a.1)
  | inr q ↦ rw q refl
]

pub All-Elem : (P : Effect → Type 0) (l : List Effect) (y : Effect) → All P l → Elem y l → P y
All-Elem P [] y a e = absurd e
All-Elem P (z ∷ l) y a (inl e) = subst P (sym e) a.0
All-Elem P (z ∷ l) y a (inr e) = All-Elem P l y a.1 e
