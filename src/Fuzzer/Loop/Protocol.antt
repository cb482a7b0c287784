-- ===== src/Fuzzer/Loop/Protocol.antt =====
-- The responses that the loop of runner/src/bin/fuzzer/main.rs hands to the history, one after the
-- other, and what the history says of them, with trimming and without.
pub mod Outcome
use my_mad_kv.Prelude.{
  ℕ, ◌≤◌, ◌<◌, ◌≡◌, refl, sym, ap, ◌∙◌, ◌≢◌, Option, none, some, List, [], ◌∷◌, arith, set,
  get_elem?, replicate, All, All-append, All-mono,
}
use mathlib.Core.Path.{subst}
use my_mad_kv.Text.{Text}
use my_mad_kv.Collections.HashMap.{HashMap}
use my_mad_kv.Runner.Ioapi.{KvResp}
use my_mad_kv.Fuzzer.History
use my_mad_kv.Fuzzer.History.{
  QueuedSpan, KeySpans, History, u64_max, Applied, applied, panicked, add_to_queue, apply_update,
  queue_len, update_key,
}
use my_mad_kv.Fuzzer.History.Alike.{AlikeKey, Alike}
use my_mad_kv.Fuzzer.History.Bounds.{min_coming-get}
use my_mad_kv.Fuzzer.History.Preserved.{
  AppliedValid, apply_update-IsValid, add_to_queue-IsValid, new-IsValid,
}
use my_mad_kv.Fuzzer.History.Untrimmed.{Related, with_spans, SameEnd, apply_update_whole}
use my_mad_kv.Fuzzer.History.Untrimmed.Whole.{Keeps, apply_update-Keeps, apply_update-SameEnd}
use my_mad_kv.Fuzzer.Loop.{Memo, Judged, fine, violation, index_panic, judge_applied, judge}

-- A harvested response: its client, the memo of its call, and its timestamp.
pub record Harvest : Type 0 where
  pub cidx : ℕ
  pub memo : Memo
  pub ts_resp : ℕ
  pub resp : KvResp

-- `judge` with no trimming
unfoldable pub judge_whole : ℕ → Memo → ℕ → KvResp → History → Judged
unfolding judge_applied
judge_whole cidx (ts_call, none) ts_resp resp h = fine (add_to_queue ts_call ts_resp resp h)
judge_whole cidx (ts_call, some (key, value)) ts_resp resp h =
    judge_applied
      (apply_update_whole cidx ts_call ts_resp key value (add_to_queue ts_call ts_resp resp h))

-- All responses in turn, up to the first that is a violation.
unfoldable pub judge_all :
    (ℕ → Memo → ℕ → KvResp → History → Judged) → List Harvest → History → Judged
judge_all judge_one [] h = fine h
judge_all judge_one (x ∷ xs) h = elim (judge_one x.cidx x.memo x.ts_resp x.resp h) [
  | fine h' ↦ judge_all judge_one xs h'
  | violation h' ↦ violation h'
  | index_panic ↦ index_panic
]

-- the last acknowledged updates behind a response
abbrev pub acknowledged : Harvest → List ℕ → List ℕ
acknowledged x maxtr = elim x.memo.1 [ none ↦ maxtr | some u ↦ set maxtr x.cidx x.ts_resp ]

-- The order that the loop keeps: a client calls after its last update was acknowledged, and each
-- response comes after its call and after the responses before it.
abbrev pub InOrder : List ℕ → ℕ → List Harvest → Type 0
InOrder maxtr now [] = Unit
InOrder maxtr now (x ∷ xs) =
    ((t : ℕ) × (get_elem? maxtr x.cidx ≡ some t) × (t < x.memo.0))
    × (x.memo.0 < x.ts_resp)
    × (now < x.ts_resp)
    × (x.ts_resp ≤ u64_max)
    × InOrder (acknowledged x maxtr) x.ts_resp xs

-- What a run says at its end: the number of checks left, or that a check has failed.
abbrev pub outcome : Judged → Option (Option ℕ)
outcome (fine h) = some (some (queue_len h))
outcome (violation h) = some none
outcome index_panic = none

outcome_some : (j : Judged) → j ≢ index_panic → outcome j ≢ none
outcome_some (fine h) p e = cc
outcome_some (violation h) p e = cc
outcome_some index_panic p e = p refl

-- One response judged twice, with histories that stay related.
abbrev SameJudged : ℕ → ℕ → List ℕ → Judged → Judged → Type 0
SameJudged num_clis now maxtr (fine h) (fine g) =
    (g ≡ with_spans h g.spans)
    × ((bound : ℕ) × Related num_clis bound h g.spans)
    × (h.maxtr ≡ maxtr)
    × All (λ (e : QueuedSpan). e.ts_resp ≤ now) h.queue
SameJudged num_clis now maxtr (violation h) (violation g) = Unit
SameJudged num_clis now maxtr _ _ = ⊥

module _ (num_clis bound t : ℕ) (x : Harvest) (h : History) (whole : HashMap KeySpans)
    (rel : Related num_clis bound h whole) (now : ℕ)
    (before : All (λ (e : QueuedSpan). e.ts_resp ≤ now) h.queue)
    (last : get_elem? h.maxtr x.cidx ≡ some t) (after : t < x.memo.0) (timed : x.memo.0 < x.ts_resp)
    (later : now < x.ts_resp) (small : x.ts_resp ≤ u64_max) where
  abbrev queued : History
  queued = add_to_queue x.memo.0 x.ts_resp x.resp h

  queued-Related : Related num_clis bound queued whole
  unfolding add_to_queue
  queued-Related = record {
    valid =
        add_to_queue-IsValid num_clis x.memo.0 x.ts_resp x.resp h timed
          (All-mono _ _ h.queue (λ e b. omega arith) before) rel.valid;
    alike = rel.alike;
    low = rel.low;
    called =
        All-append _ h.queue _ rel.called
          (omega (arith, rel.low, min_coming-get h.maxtr x.cidx t last), tt);
    stamps = All-append _ h.queue _ rel.stamps (omega arith, tt);
    small = rel.small;
  }

  queued-before : All (λ (e : QueuedSpan). e.ts_resp ≤ x.ts_resp) queued.queue
  unfolding add_to_queue
  queued-before =
      All-append _ h.queue _ (All-mono _ _ h.queue (λ e b. omega arith) before) (omega arith, tt)

judge_applied-SameJudged :
    (num_clis now : ℕ) (maxtr : List ℕ) (a b : Applied)
    → SameEnd num_clis a b
    → (a ≢ panicked)
    → Keeps (λ e. e.ts_resp ≤ now) maxtr a
    → SameJudged num_clis now maxtr (judge_applied a) (judge_applied b)
unfolding judge_applied
judge_applied-SameJudged n now maxtr (applied h none) (applied g none) s p k =
    (s.1, (s.2, s.3), k.0, k.1)
judge_applied-SameJudged n now maxtr (applied h none) (applied g (some r)) s p k = absurd (cc (s.0))
judge_applied-SameJudged n now maxtr (applied h (some q)) (applied g none) s p k = absurd (cc (s.0))
judge_applied-SameJudged n now maxtr (applied h (some q)) (applied g (some r)) s p k = tt
judge_applied-SameJudged n now maxtr (applied h r) panicked s p k = absurd s
judge_applied-SameJudged n now maxtr panicked (applied g r) s p k = absurd s
judge_applied-SameJudged n now maxtr panicked panicked s p k = absurd (p refl)

AppliedValid-ne_panicked : (num_clis : ℕ) (a : Applied) → AppliedValid num_clis a → a ≢ panicked
AppliedValid-ne_panicked n (applied h r) v e = cc
AppliedValid-ne_panicked n panicked v e = v

-- One response judged twice, on a trimmed history and on a whole one.
judge-SameJudged :
    (num_clis bound t : ℕ) (x : Harvest) (h : History) (whole : HashMap KeySpans) (now : ℕ)
    → Related num_clis bound h whole
    → All (λ (e : QueuedSpan). e.ts_resp ≤ now) h.queue
    → get_elem? h.maxtr x.cidx ≡ some t
    → t < x.memo.0
    → x.memo.0 < x.ts_resp
    → now < x.ts_resp
    → x.ts_resp ≤ u64_max
    → SameJudged num_clis x.ts_resp
        (acknowledged x h.maxtr)
        (judge x.cidx x.memo x.ts_resp x.resp h)
        (judge_whole x.cidx x.memo x.ts_resp x.resp (with_spans h whole))
unfolding judge judge_whole add_to_queue
judge-SameJudged n bound t x h whole now rel before last after timed later small = by_memo x.memo.1
  where
    to_queue : History
    to_queue = add_to_queue x.memo.0 x.ts_resp x.resp h

    q_rel : Related n bound to_queue whole
    q_rel = queued-Related n bound t x h whole rel now before last after timed later small

    q_before : All (λ (e : QueuedSpan). e.ts_resp ≤ x.ts_resp) to_queue.queue
    q_before = queued-before n bound t x h whole rel now before last after timed later small

    by_memo :
        (u : Option (Text × Option Text))
        → SameJudged n x.ts_resp
            (elim u [ none ↦ h.maxtr | some v ↦ set h.maxtr x.cidx x.ts_resp ])
            (judge x.cidx (x.memo.0, u) x.ts_resp x.resp h)
            (judge_whole x.cidx (x.memo.0, u) x.ts_resp x.resp (with_spans h whole))
    by_memo none = (refl, (bound, q_rel), refl, q_before)
    by_memo (some (key, value)) =
        judge_applied-SameJudged n x.ts_resp (set h.maxtr x.cidx x.ts_resp) _ _
          (apply_update-SameEnd n bound x.cidx t x.memo.0 x.ts_resp key value to_queue whole q_rel
            last after timed)
          (AppliedValid-ne_panicked n _ (
            apply_update-IsValid n x.cidx t x.memo.0 x.ts_resp key value to_queue last after timed
              q_rel.valid))
          (apply_update-Keeps (λ e. e.ts_resp ≤ x.ts_resp) x.cidx x.memo.0 x.ts_resp key value
            to_queue q_before)
