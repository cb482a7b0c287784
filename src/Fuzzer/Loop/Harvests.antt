-- ===== src/Fuzzer/Loop/Harvests.antt =====
-- The responses that the loop of runner/src/bin/fuzzer/main.rs harvests come in order.
use my_mad_kv.Prelude.{
  ℕ, ◌+◌, ◌*◌, ◌≤◌, ◌<◌, ◌≡◌, refl, sym, Option, none, some, List, [], ◌∷◌, ◌++◌, arith, length,
  set, All, inl, inr,
}
use mathlib.Core.Path.{subst}
use my_mad_kv.Text.{Text}
use my_mad_kv.Fuzzer.History.{
  History, Applied, applied, panicked, add_to_queue, apply_update, u64_max,
}
use my_mad_kv.Fuzzer.History.Untrimmed.Whole.{Keeps, apply_update-Keeps}
use my_mad_kv.Fuzzer.Outside.{Rng, Bits, Clients}
use my_mad_kv.Fuzzer.Loop.{FuzzState, Judged, fine, violation, index_panic, judge_applied, judge}
use my_mad_kv.Fuzzer.Loop.Trace.{Hears, Heard, silent, calling, hearing}
use my_mad_kv.Fuzzer.Loop.Protocol.{Harvest, judge_all, acknowledged, InOrder}
use my_mad_kv.Fuzzer.Loop.Rounds.{LoopValid}
use my_mad_kv.Fuzzer.Loop.Safe.{RoundValid, HarvestedFrom}
use my_mad_kv.Fuzzer.Loop.Ends.{Reaches, here, step, Advances, round-RoundValid}

-- what a judged response leaves of the last acknowledged updates
abbrev LeavesLast : List ℕ → Judged → Type 0
LeavesLast maxtr (fine h) = h.maxtr ≡ maxtr
LeavesLast maxtr (violation h) = Unit
LeavesLast maxtr index_panic = Unit

judge_applied-LeavesLast :
    (P : my_mad_kv.Fuzzer.History.QueuedSpan → Type 0) (maxtr : List ℕ) (a : Applied)
    → Keeps P maxtr a
    → LeavesLast maxtr (judge_applied a)
unfolding judge_applied
judge_applied-LeavesLast P maxtr (applied h none) k = k.0
judge_applied-LeavesLast P maxtr (applied h (some r)) k = tt
judge_applied-LeavesLast P maxtr panicked k = tt

All-trivial : (l : List my_mad_kv.Fuzzer.History.QueuedSpan) → All (λ e. Unit {0}) l
All-trivial [] = tt
All-trivial (x ∷ l) = (tt, All-trivial l)

judge-LeavesLast :
    (x : Harvest) (h : History)
    → LeavesLast (acknowledged x h.maxtr) (judge x.cidx x.memo x.ts_resp x.resp h)
unfolding judge add_to_queue
judge-LeavesLast x h = by_memo x.memo.1
  where
    by_memo :
        (u : Option (Text × Option Text))
        → LeavesLast
            (elim u [ none ↦ h.maxtr | some v ↦ set h.maxtr x.cidx x.ts_resp ])
            (judge x.cidx (x.memo.0, u) x.ts_resp x.resp h)
    by_memo none = refl
    by_memo (some (key, value)) =
        judge_applied-LeavesLast (λ e. Unit {0}) _ _
          (apply_update-Keeps (λ e. Unit {0}) x.cidx x.memo.0 x.ts_resp key value
            (add_to_queue x.memo.0 x.ts_resp x.resp h) (All-trivial _))

InOrder-mono :
    (maxtr : List ℕ) (now later : ℕ) (xs : List Harvest)
    → now ≤ later
    → InOrder maxtr later xs
    → InOrder maxtr now xs
InOrder-mono maxtr now later [] le o = tt
InOrder-mono maxtr now later (x ∷ xs) le (o, timed, after, small, rest) =
    (o, timed, omega arith, small, rest)

-- What comes in order behind these responses comes in order with them, and to the same judgement.
abbrev pub Extends : ℕ → History → List Harvest → ℕ → History → Type 0
Extends now h xs later h' =
    (zs : List Harvest) (j : Judged)
    → InOrder h'.maxtr later zs
    → judge_all judge zs h' ≡ j
    → InOrder h.maxtr now (xs ++ zs) × (judge_all judge (xs ++ zs) h ≡ j)

Extends-cons :
    (P : Harvest → Type 0) (now later end : ℕ) (h m h' : History) (xs : List Harvest)
    → now < later
    → later ≤ u64_max
    → (harvested : HarvestedFrom P h later m) → Extends later m xs end h'
    → Extends now h (harvested.0 ∷ xs) end h'
unfolding judge_all
Extends-cons P now later end h m h' xs lt small (x, last, p, same, in_maxtr, after, timed, judged)
      extends zs j o q =
    let (order, run) = extends zs j o q in
    let maxtr : m.maxtr ≡ acknowledged x h.maxtr =
      subst (LeavesLast (acknowledged x h.maxtr)) judged (judge-LeavesLast x h) in
    (
      (
        (last, in_maxtr, after),
        timed,
        omega arith,
        omega arith,
        subst (λ t. InOrder (acknowledged x h.maxtr) t (xs ++ zs)) (sym same)
            (subst (λ l. InOrder l later (xs ++ zs)) maxtr order),
      ),
      (rw (judged, judge_all) run),
    )

Extends-mono :
    (now later end : ℕ) (h h' : History) (xs : List Harvest)
    → now ≤ later
    → Extends later h xs end h'
    → Extends now h xs end h'
Extends-mono now later end h h' xs le extends zs j o q =
    let (order, run) = extends zs j o q in (InOrder-mono h.maxtr now later (xs ++ zs) le order, run)

module _ (rng : Rng) (bits : Bits) (clients : Clients) (draw_fuel total_ops n : ℕ)
    (some_client : 0 < n) (keys : List (List Text)) (pools : length keys ≡ n)
    (filled : All (λ (ks : List Text). 0 < length ks) keys) (enough : 100 ≤ total_ops)
    (small : 2 * total_ops ≤ u64_max) where
  -- The responses that the loop has heard on its way, and what they make of the history.
  abbrev pub Hearing : FuzzState rng bits clients → FuzzState rng bits clients → Type 0
  Hearing s t =
      (xs : List Harvest) × Heard rng bits clients draw_fuel total_ops keys s t xs
      × (s.ops_waited + length xs ≡ t.ops_waited)
      × (t.ops_called ≤ total_ops)
      × (t.timestamp ≡ t.ops_called + t.ops_waited)
      × Extends s.timestamp s.history xs t.timestamp t.history

  -- The loop hears responses that come in order, and its history is what they lead to.
  pub Reaches-Hearing :
      (s t : FuzzState rng bits clients)
      → Reaches rng bits clients draw_fuel total_ops keys s t
      → LoopValid n keys s.timestamp s
      → s.ops_called ≤ total_ops
      → s.ops_waited ≤ total_ops
      → s.timestamp ≡ s.ops_called + s.ops_waited
      → Hearing s t
  Reaches-Hearing s t here v called waited time =
      ([], silent, omega arith, called, time, λ zs j o q. (o, q))
  Reaches-Hearing s t (step {t = u} lt e reaches) v called waited time =
      let (valid, (called', waited', fewer, ticks, counts, moves)) =
        subst
          (RoundValid n keys (
            Advances rng bits clients draw_fuel total_ops n some_client keys pools filled enough s))
          e
          (round-RoundValid rng bits clients draw_fuel total_ops n some_client keys pools filled
            enough s v called lt) in
      let (xs, heard, many, called'', time', extends) =
        Reaches-Hearing u t reaches valid called' waited' (omega arith) in
      elim moves [
        | inl (same, still, calls) ↦ (
          xs,
          calling lt e calls heard,
          omega (arith, many, still),
          called'',
          time',
          subst (λ h. Extends s.timestamp h xs t.timestamp t.history) same
              (Extends-mono s.timestamp u.timestamp t.timestamp u.history t.history xs
                (omega (arith, ticks)) extends),
        )
        | inr (one_more, harvested) ↦ (
          harvested.0 ∷ xs,
          hearing lt e harvested.2 heard,
          omega (arith, many, one_more),
          called'',
          time',
          Extends-cons (Hears (s.timestamp + 1) s u.procs) s.timestamp (s.timestamp + 1) t.timestamp
              s.history u.history t.history xs (omega arith) (omega arith) harvested
              (subst (λ now. Extends now u.history xs t.timestamp t.history) ticks extends),
        )
      ]
