-- ===== src/Fuzzer/Loop/Protocol/Outcome.antt =====
-- The outcome of a run of the loop of runner/src/bin/fuzzer/main.rs, with trimming and without.
use my_mad_kv.Prelude.{
  ℕ, ◌≤◌, ◌≡◌, refl, sym, ap, ◌∙◌, ◌≢◌, none, List, [], ◌∷◌, arith, replicate, All,
}
use mathlib.Core.Path.{subst}
use my_mad_kv.Text.{Text}
use my_mad_kv.Collections.HashMap.{HashMap}
use my_mad_kv.Runner.Ioapi.{KvResp}
use my_mad_kv.Fuzzer.History
use my_mad_kv.Fuzzer.History.{
  QueuedSpan, KeySpans, History, u64_max, Applied, applied, panicked, add_to_queue, apply_update,
  queue_len, update_key,
}
use my_mad_kv.Fuzzer.History.Alike.{AlikeKey, Alike}
use my_mad_kv.Fuzzer.History.Preserved.{new-IsValid}
use my_mad_kv.Fuzzer.History.Untrimmed.{Related, with_spans}
use my_mad_kv.Fuzzer.Loop.{Memo, Judged, fine, violation, index_panic, judge}
use my_mad_kv.Fuzzer.Loop.Protocol.{
  Harvest, judge_whole, judge_all, acknowledged, InOrder, outcome, outcome_some, SameJudged,
  judge-SameJudged,
}

-- what is proved of the responses that are left, in two runs over them
abbrev SameOutcome : Judged → Judged → Type 0
SameOutcome j k = (outcome j ≡ outcome k) × (j ≢ index_panic)

-- the rest of a run behind one response
abbrev rest_of : (ℕ → Memo → ℕ → KvResp → History → Judged) → List Harvest → Judged → Judged
rest_of judge_one xs j = elim j [
  | fine h ↦ judge_all judge_one xs h
  | violation h ↦ violation h
  | index_panic ↦ index_panic
]

rest-SameOutcome :
    (num_clis now : ℕ) (maxtr : List ℕ) (xs : List Harvest) (j k : Judged)
    → SameJudged num_clis now maxtr j k
    → InOrder maxtr now xs
    → ((bound : ℕ) (h : History) (whole : HashMap KeySpans)
        → Related num_clis bound h whole
        → All (λ (e : QueuedSpan). e.ts_resp ≤ now) h.queue
        → InOrder h.maxtr now xs
        → SameOutcome (judge_all judge xs h) (judge_all judge_whole xs (with_spans h whole)))
    → SameOutcome (rest_of judge xs j) (rest_of judge_whole xs k)
rest-SameOutcome n now maxtr xs (fine h) (fine g) s o ih =
    let (same, safe) = ih s.1.0 h g.spans s.1.1 s.3 (subst (λ m. InOrder m now xs) (sym s.2) o) in
    (same ∙ ap (λ z. outcome (judge_all judge_whole xs z)) (sym s.0), safe)
rest-SameOutcome n now maxtr xs (fine h) (violation g) s o ih = absurd s
rest-SameOutcome n now maxtr xs (fine h) index_panic s o ih = absurd s
rest-SameOutcome n now maxtr xs (violation h) (fine g) s o ih = absurd s
rest-SameOutcome n now maxtr xs (violation h) (violation g) s o ih = (refl, λ e. cc)
rest-SameOutcome n now maxtr xs (violation h) index_panic s o ih = absurd s
rest-SameOutcome n now maxtr xs index_panic k s o ih = absurd s

-- Histories that stay related give one outcome, over all responses.
judge_all-SameOutcome :
    (num_clis : ℕ) (xs : List Harvest) (bound now : ℕ) (h : History) (whole : HashMap KeySpans)
    → Related num_clis bound h whole
    → All (λ (e : QueuedSpan). e.ts_resp ≤ now) h.queue
    → InOrder h.maxtr now xs
    → SameOutcome (judge_all judge xs h) (judge_all judge_whole xs (with_spans h whole))
unfolding judge_all queue_len
judge_all-SameOutcome n [] bound now h whole rel before o = (refl, λ e. cc)
judge_all-SameOutcome n (x ∷ xs) bound now h whole rel before
      ((t, last, after), timed, later, small, rest) =
    rest-SameOutcome n x.ts_resp (acknowledged x h.maxtr) xs _ _
      (judge-SameJudged n bound t x h whole now rel before last after timed later small) rest
      (λ b g w r e i. judge_all-SameOutcome n xs b x.ts_resp g w r e i)

AlikeKey-refl : (b : ℕ) (ks : KeySpans) → AlikeKey b ks ks
AlikeKey-refl b [] = tt
AlikeKey-refl b (l ∷ ks) = (λ f c r h. refl, AlikeKey-refl b ks)

Alike-refl : (b : ℕ) (m : HashMap KeySpans) → Alike b m m
Alike-refl b [] = tt
Alike-refl b (e ∷ m) = (refl, AlikeKey-refl b e.1, Alike-refl b m)

-- Over any responses that come in the order that the loop keeps, the history that is trimmed at
-- each update says what the whole history says: that a check has failed, or how many are left.
-- It never indexes out of bounds.
pub judge_all-whole :
    (num_clis : ℕ) (keys : List (List Text)) (xs : List Harvest)
    → InOrder (replicate num_clis 0) 0 xs
    → (outcome (judge_all judge xs (History.new num_clis keys))
        ≡ outcome (judge_all judge_whole xs (History.new num_clis keys)))
      × (outcome (judge_all judge xs (History.new num_clis keys)) ≢ none)
unfolding History.new
judge_all-whole n keys xs o =
    let h = History.new n keys in
    let rel : Related n 0 h h.spans = record {
      valid = new-IsValid n keys;
      alike = Alike-refl 0 h.spans;
      low = omega arith;
      called = tt;
      stamps = tt;
      small = omega arith;
    } in
    let (same, safe) = judge_all-SameOutcome n xs 0 0 h h.spans rel tt o in
    (same, outcome_some _ safe)
