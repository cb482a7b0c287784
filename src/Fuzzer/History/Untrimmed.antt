-- ===== src/Fuzzer/History/Untrimmed.antt =====
-- `apply_update` of runner/src/bin/fuzzer/history.rs against the same without trimming.
pub mod Whole
use my_mad_kv.Prelude.{
  ℕ, suc, ◌≤◌, ◌<◌, ◌≡◌, refl, sym, ap, true, ◌&&◌, Option, none, some, List, [], ◌∷◌, arith, ltb,
  length, set, get_elem?, if◌then◌else◌, All, All-mono, Bool-cases, Option-cases, inl, inr, min,
}
use my_mad_kv.Text.{Text}
use my_mad_kv.Collections.HashMap
use my_mad_kv.Collections.HashMap.{HashMap}
use my_mad_kv.Collections.HashMap.Laws.{All-lookup}
use my_mad_kv.Runner.Ioapi.{KvResp}
use my_mad_kv.Fuzzer.History.{
  UpdateSpan, QueuedSpan, KeySpans, History, u64_max, drain, push_span, trim_clients, Applied,
  applied, panicked, update_key, apply_update, min_coming, min_queued,
}
use my_mad_kv.Fuzzer.History.Trimming.{IsTimed}
use my_mad_kv.Fuzzer.History.Invariant.{
  IsChain, IsKeyValid, IsValid, IsKeyValid-push, IsKeyValid-length,
}
use my_mad_kv.Fuzzer.History.Bounds.{
  min_coming-set, min_queued-le, min_queued-below, min_queued-le-u64_max,
}
use my_mad_kv.Fuzzer.History.Preserved.{AppliedValid, apply_update-IsValid, get_elem?-lt}
use my_mad_kv.Fuzzer.History.Alike.{
  AlikeKey, Alike, AlikeFound, lookup-AlikeFound, CalledFrom, drain-Alike,
}
use my_mad_kv.Fuzzer.History.Alike.Updates.{
  Alike-mono, insert-Alike, push_span-AlikeKey, trim_clients-AlikeKey,
}

-- `update_key` with no trimming
unfoldable pub update_key_whole : ℕ → UpdateSpan → Text → KeySpans → History → Applied
update_key_whole cidx span key key_spans h =
    let maxtr' = set h.maxtr cidx span.ts_resp in
    let spans' = HashMap.insert key (push_span span cidx key_spans) h.spans in
    let (queue', failed) = drain (min_coming maxtr') spans' h.queue in
    applied (record { queue = queue'; spans = spans'; maxtr = maxtr' })
      (elim failed [ none ↦ none | some resp ↦ some (some resp) ])

-- `apply_update` with no trimming: the whole history is kept.
unfoldable pub apply_update_whole : ℕ → ℕ → ℕ → Text → Option Text → History → Applied
unfolding update_key_whole
apply_update_whole cidx ts_call ts_resp key value h = elim (HashMap.lookup key h.spans) [
  | none ↦ applied h (some none)
  | some key_spans ↦
      if ltb cidx (length key_spans) && ltb cidx (length h.maxtr)
      then update_key_whole cidx (record { ts_call = ts_call; ts_resp = ts_resp; value = value })
          key key_spans h
      else panicked
]

-- The spans of a history that is trimmed are alike to those of one that is not, for each call
-- that is in the queue or may still come.
pub record Related (num_clis bound : ℕ) (h : History) (whole : HashMap KeySpans) : Type 0 where
  pub valid : IsValid num_clis h
  pub alike : Alike bound h.spans whole
  pub low : bound ≤ min_coming h.maxtr
  pub called : CalledFrom bound h.queue
  pub stamps : All (λ (e : QueuedSpan). e.ts_call ≤ u64_max) h.queue
  pub small : bound ≤ u64_max

abbrev pub with_spans : History → HashMap KeySpans → History
with_spans h whole = record h { spans = whole }

-- Two updates that end in the same way: with the same result, queue and last timestamps, and
-- with spans that are alike.
abbrev pub SameEnd : ℕ → Applied → Applied → Type 0
SameEnd num_clis (applied h r) (applied g s) =
    (r ≡ s) × (g ≡ with_spans h g.spans) × (bound : ℕ) × Related num_clis bound h g.spans
SameEnd num_clis (applied h r) panicked = ⊥
SameEnd num_clis panicked (applied g s) = ⊥
SameEnd num_clis panicked panicked = Unit

IsChain-IsTimed : (t : ℕ) (l : List UpdateSpan) → IsChain t l → IsTimed l
IsChain-IsTimed t [] c = tt
IsChain-IsTimed t (s ∷ []) c = (c.0, tt)
IsChain-IsTimed t (s ∷ r ∷ l) c = (c.0, IsChain-IsTimed t (r ∷ l) c.2)

IsKeyValid-IsTimed : (maxtr : List ℕ) (ks : KeySpans) → IsKeyValid maxtr ks → All IsTimed ks
IsKeyValid-IsTimed [] [] v = tt
IsKeyValid-IsTimed [] (l ∷ ks) v = absurd v
IsKeyValid-IsTimed (t ∷ maxtr) [] v = absurd v
IsKeyValid-IsTimed (t ∷ maxtr) (l ∷ ks) v =
    (IsChain-IsTimed t l v.1, IsKeyValid-IsTimed maxtr ks v.2)

AlikeKey-length : (b : ℕ) (ls ms : KeySpans) → AlikeKey b ls ms → length ls ≡ length ms
AlikeKey-length b [] [] a = refl
AlikeKey-length b [] (m ∷ ms) a = absurd a
AlikeKey-length b (l ∷ ls) [] a = absurd a
AlikeKey-length b (l ∷ ls) (m ∷ ms) a = ap suc (AlikeKey-length b ls ms a.1)

-- what holds of the whole queue holds of what `drain` leaves
pub All-drain :
    (P : QueuedSpan → Type 0) (mc : ℕ) (spans : HashMap KeySpans) (q : List QueuedSpan)
    → All P q
    → All P (drain mc spans q).0
unfolding drain
All-drain P mc spans [] a = tt
All-drain P mc spans (e ∷ q) a = ground (arith, All-drain P mc spans q)

module _ (num_clis bound cidx t : ℕ) (s : UpdateSpan) (key : Text) (h : History)
    (whole : HashMap KeySpans) (rel : Related num_clis bound h whole)
    (last : get_elem? h.maxtr cidx ≡ some t) (after : t < s.ts_call)
    (timed : s.ts_call < s.ts_resp) where
  abbrev mc : ℕ
  mc = min_coming (set h.maxtr cidx s.ts_resp)

  abbrev mq : ℕ
  mq = min_queued h.queue

  bound-le : bound ≤ min mc mq
  bound-le = omega (
    arith,
    rel.low,
    min_coming-set h.maxtr cidx t s.ts_resp last (omega arith),
    min_queued-le bound h.queue rel.small rel.called,
  )

  called' : CalledFrom (min mc mq) h.queue
  called' = All-mono _ _ h.queue (λ e b. omega arith) (min_queued-below h.queue)

  module _ (ls ms : KeySpans) (k : IsKeyValid h.maxtr ls) (a : AlikeKey bound ls ms) where
    trimmed-AlikeKey :
        AlikeKey (min mc mq) (trim_clients mc mq (push_span s cidx ls)) (push_span s cidx ms)
    trimmed-AlikeKey =
        trim_clients-AlikeKey bound mc mq _ _ bound-le
          (IsKeyValid-IsTimed _ _ (IsKeyValid-push h.maxtr ls cidx t s last after (omega arith) k))
          (push_span-AlikeKey bound s cidx ls ms a)

    spans-Alike :
        Alike
          (min mc mq)
          (HashMap.insert key (trim_clients mc mq (push_span s cidx ls)) h.spans)
          (HashMap.insert key (push_span s cidx ms) whole)
    spans-Alike =
        insert-Alike (min mc mq) key _ _ h.spans whole trimmed-AlikeKey
          (Alike-mono bound (min mc mq) h.spans whole bound-le rel.alike)

    update_key-SameEnd :
        AppliedValid num_clis (update_key cidx s key ls h)
        → SameEnd num_clis
            (update_key cidx s key ls h)
            (update_key_whole cidx s key ms (with_spans h whole))
    unfolding update_key update_key_whole
    update_key-SameEnd v =
        let trimmed = HashMap.insert key (trim_clients mc mq (push_span s cidx ls)) h.spans in
        let kept = HashMap.insert key (push_span s cidx ms) whole in
        let same = drain-Alike (min mc mq) mc trimmed kept h.queue called' spans-Alike in
        (
          ap (λ d. elim d.1 [ none ↦ none | some resp ↦ some (some resp) ]) same,
          ap (λ d. record { queue = d.0; spans = kept; maxtr = set h.maxtr cidx s.ts_resp })
              (sym same),
          min mc mq,
          record {
            valid = v;
            alike = spans-Alike;
            low = omega arith;
            called = All-drain _ mc trimmed h.queue called';
            stamps = All-drain _ mc trimmed h.queue rel.stamps;
            small = omega (arith, min_queued-le-u64_max h.queue rel.stamps);
          },
        )
