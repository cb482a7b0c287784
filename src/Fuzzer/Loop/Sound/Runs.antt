-- ===== src/Fuzzer/Loop/Sound/Runs.antt =====
-- The responses of a linearizable store raise no alarm: over all of them the history of
-- runner/src/bin/fuzzer/history.rs finds no violation.
use my_mad_kv.Fuzzer.History.Instants.{at_tick, IsBefore-IsUpto, at_tick-IsBefore}
use my_mad_kv.Prelude.{
  ℕ, ◌<◌, ◌≡◌, ◌⊎◌, inl, inr, refl, sym, ap, ◌∙◌, true, Option, none, some, List, ◌∷◌, All,
  All-mono, All-append, arith, is_some, Option-cases, set, get_elem?, length,
}
use mathlib.Core.Path.{subst}
use my_mad_kv.Text.{Text}
use my_mad_kv.Collections.HashMap.{HashMap, lookup, insert}
use my_mad_kv.Fuzzer.History.{
  UpdateSpan, KeySpans, QueuedSpan, History, push_span, min_coming, drain, check_call, add_to_queue,
}
use my_mad_kv.Fuzzer.History.Preserved.{get_elem?-lt}
use my_mad_kv.Fuzzer.History.Untrimmed.{apply_update_whole, All-drain}
use my_mad_kv.Fuzzer.History.Untrimmed.Whole.{whole_found}
use my_mad_kv.Fuzzer.Loop.{Judged, fine, violation, index_panic, judge_applied}
use my_mad_kv.Fuzzer.Loop.Protocol.{judge_whole, InOrder}
use my_mad_kv.Fuzzer.Loop.Sound.{Effect, harvests, Elem, IsLinear, Linearizable}
use my_mad_kv.Fuzzer.Loop.Sound.Rows.{place, Rows, RowsValid-length, length-all_spans_of}
use my_mad_kv.Fuzzer.Loop.Sound.Knows.{Records, Answers-check_call}
use my_mad_kv.Fuzzer.Loop.Sound.Steps.{Records-read, Records-update, new_rows}
use my_mad_kv.Fuzzer.Loop.Sound.Coming.{
  Queued, acknowledged-none, acknowledged-some, update_key_whole-fine, InOrder-coming, drain-none,
  All-Elem,
}

module _ (pool : HashMap KeySpans) (all : List Effect) (linear : Linearizable pool all) where
  -- where a run stands
  pub record Stands (recorded rest : List Effect) (now : ℕ) (h : History) : Type 0 where
    pub rows : Text → Rows
    pub records : Records pool recorded h.maxtr h.spans rows
    pub queued : All (Queued recorded) h.queue
    pub into : (y : Effect) → Elem y recorded → Elem y all
    pub out : (y : Effect) → Elem y all → Elem y recorded ⊎ Elem y rest
    pub coming : (y : Effect) → Elem y rest → Elem y all
    pub order : InOrder h.maxtr now (harvests rest)

  -- where a run stands behind a response that has been judged
  abbrev pub StandsJudged : List Effect → List Effect → ℕ → Judged → Type 0
  StandsJudged recorded rest now (fine h) = Stands recorded rest now h
  StandsJudged recorded rest now (violation h) = ⊥
  StandsJudged recorded rest now index_panic = ⊥

  module _ (x : Effect) (recorded rest : List Effect) (now : ℕ) (h : History)
      (stands : Stands recorded (x ∷ rest) now h) where
    x-IsLinear : IsLinear all pool x
    x-IsLinear = All-Elem (IsLinear all pool) all x linear (stands.coming x (inl refl))

    last_ack : (t : ℕ) × (get_elem? h.maxtr x.harvest.cidx ≡ some t) × (t < x.harvest.memo.0)
    last_ack = stands.order.0

    timed : x.harvest.memo.0 < x.harvest.ts_resp
    timed = stands.order.1

    into_next : (y : Effect) → Elem y (x ∷ recorded) → Elem y all
    into_next y (inl e) = stands.coming y (inl e)
    into_next y (inr e) = stands.into y e

    out_next : (y : Effect) → Elem y all → Elem y (x ∷ recorded) ⊎ Elem y rest
    out_next y e = elim (stands.out y e) [
      | inl r ↦ inl (inr r)
      | inr r ↦ elim r [ inl q ↦ inl (inl q) | inr q ↦ inr q ]
    ]

    coming_next : (y : Effect) → Elem y rest → Elem y all
    coming_next y e = stands.coming y (inr e)

    to_queue : History
    to_queue = add_to_queue x.harvest.memo.0 x.harvest.ts_resp x.harvest.resp h

    to_queue-kept : (to_queue.spans ≡ h.spans) × (to_queue.maxtr ≡ h.maxtr)
    unfolding add_to_queue to_queue
    to_queue-kept = (refl, refl)

    queued_next : All (Queued (x ∷ recorded)) to_queue.queue
    unfolding add_to_queue to_queue
    queued_next =
        All-append _ h.queue _
          (All-mono _ _ h.queue (λ e (y, el, q, b). (y, inr el, q, b)) stands.queued)
          ((x, inl refl, refl, omega (arith, last_ack.2)), tt)

    read-Stands : x.harvest.memo.1 ≡ none → Stands (x ∷ recorded) rest x.harvest.ts_resp to_queue
    unfolding add_to_queue to_queue
    read-Stands e = record {
      rows = stands.rows;
      records = Records-read pool x recorded h.maxtr h.spans stands.rows e stands.records;
      queued = queued_next;
      into = into_next;
      out = out_next;
      coming = coming_next;
      order =
          subst (λ m. InOrder m x.harvest.ts_resp (harvests rest))
            (acknowledged-none x.harvest h.maxtr e) stands.order.4;
    }

    module _ (key : Text) (value : Option Text) (update : x.harvest.memo.1 ≡ some (key, value))
        (ks : KeySpans) (found : lookup key h.spans ≡ some ks) where
      span : UpdateSpan
      span = (place x value).span

      next_maxtr : List ℕ
      next_maxtr = set h.maxtr x.harvest.cidx x.harvest.ts_resp

      next_spans : HashMap KeySpans
      next_spans = insert key (push_span (place x value).span x.harvest.cidx ks) h.spans

      next_rows : Text → Rows
      next_rows =
          new_rows pool x recorded h.maxtr h.spans stands.rows stands.records key value update ks
            found last_ack.0 last_ack.1 last_ack.2 x-IsLinear.0 x-IsLinear.1

      Records-next : Records pool (x ∷ recorded) next_maxtr next_spans next_rows
      unfolding next_maxtr next_spans next_rows
      Records-next =
          Records-update pool x recorded h.maxtr h.spans stands.rows stands.records key value update
            ks found last_ack.0 last_ack.1 last_ack.2 x-IsLinear.0 x-IsLinear.1

      order_next : InOrder next_maxtr x.harvest.ts_resp (harvests rest)
      unfolding next_maxtr
      order_next =
          subst (λ m. InOrder m x.harvest.ts_resp (harvests rest))
            (acknowledged-some x.harvest h.maxtr (key, value) update) stands.order.4

      accepted :
          (e : QueuedSpan)
          → Queued (x ∷ recorded) e
          → e.ts_resp < min_coming next_maxtr
          → check_call next_spans e ≡ true
      accepted e (y, el, q, begun) lt =
          let y_linear = All-Elem (IsLinear all pool) all y linear (into_next y el) in
          let acked : e.ts_resp ≡ y.harvest.ts_resp = ap (λ z. z.ts_resp) q in
          ap (check_call next_spans) q
          ∙ Answers-check_call pool all (x ∷ recorded) rest next_maxtr next_spans next_rows
              Records-next into_next out_next y begun y_linear.0 y_linear.1
              (λ z ez.
                let z_linear = All-Elem (IsLinear all pool) all z linear (coming_next z ez) in
                IsBefore-IsUpto _ (at_tick z.harvest.memo.0) _
                  (at_tick-IsBefore y.harvest.ts_resp z.harvest.memo.0 (
                    omega (
                      arith,
                      acked,
                      lt,
                      InOrder-coming next_maxtr x.harvest.ts_resp rest order_next z ez,
                    )))
                  z_linear.0)
              y_linear.3

      drained : (drain (min_coming next_maxtr) next_spans to_queue.queue).1 ≡ none
      drained =
          drain-none (min_coming next_maxtr) next_spans to_queue.queue
            (All-mono _ _ to_queue.queue accepted queued_next)

      h_next : History
      h_next = record {
        queue = (drain (min_coming next_maxtr) next_spans to_queue.queue).0;
        spans = next_spans;
        maxtr = next_maxtr;
      }

      update-Stands : Stands (x ∷ recorded) rest x.harvest.ts_resp h_next
      unfolding h_next
      update-Stands = record {
        rows = next_rows;
        records = Records-next;
        queued =
            All-drain (Queued (x ∷ recorded)) (min_coming next_maxtr) next_spans to_queue.queue
              queued_next;
        into = into_next;
        out = out_next;
        coming = coming_next;
        order = order_next;
      }

      update-fine :
          judge_applied (
            apply_update_whole x.harvest.cidx x.harvest.memo.0 x.harvest.ts_resp key value to_queue)
          ≡ fine h_next
      unfolding h_next next_maxtr next_spans to_queue add_to_queue span
      update-fine =
          let client = get_elem?-lt h.maxtr x.harvest.cidx last_ack.1 in
          let sizes : length ks ≡ length h.maxtr =
            ap length (stands.records.spans_are key ks found)
            ∙ length-all_spans_of (stands.rows key)
            ∙ RowsValid-length h.maxtr (stands.rows key) (stands.records.valid key) in
          ap judge_applied (
            whole_found x.harvest.cidx x.harvest.memo.0 x.harvest.ts_resp key value to_queue ks
              found (omega (arith, sizes, client)) client)
          ∙ update_key_whole-fine x.harvest.cidx span key ks to_queue drained

    update-Judged :
        (key : Text) (value : Option Text)
        → x.harvest.memo.1 ≡ some (key, value)
        → StandsJudged (x ∷ recorded) rest x.harvest.ts_resp (
            judge_applied (
              apply_update_whole x.harvest.cidx x.harvest.memo.0 x.harvest.ts_resp key value
                to_queue))
    update-Judged key value update = elim (Option-cases (lookup key h.spans)) [
      | inl e ↦ absurd (cc (x-IsLinear.2 key value update, stands.records.known key, ap is_some e))
      | inr (ks, e) ↦
          subst (StandsJudged (x ∷ recorded) rest x.harvest.ts_resp)
            (sym (update-fine key value update ks e)) (update-Stands key value update ks e)
    ]

    pub judge_whole-Judged :
        StandsJudged
          (x ∷ recorded)
          rest
          x.harvest.ts_resp
          (judge_whole x.harvest.cidx x.harvest.memo x.harvest.ts_resp x.harvest.resp h)
    unfolding judge_whole to_queue
    judge_whole-Judged = by_memo x.harvest.memo.1 refl
      where
        by_memo :
            (u : Option (Text × Option Text))
            → x.harvest.memo.1 ≡ u
            → StandsJudged (x ∷ recorded) rest x.harvest.ts_resp (
                judge_whole x.harvest.cidx (x.harvest.memo.0, u) x.harvest.ts_resp x.harvest.resp h)
        by_memo none e = read-Stands e
        by_memo (some (key, value)) e = update-Judged key value e
