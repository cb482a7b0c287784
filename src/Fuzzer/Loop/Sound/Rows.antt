-- ===== src/Fuzzer/Loop/Sound/Rows.antt =====
-- The updates of one key, client by client, with the points at which they take effect, as the
-- history of runner/src/bin/fuzzer/history.rs records them.
use my_mad_kv.Fuzzer.History.Instants.{
  Instant, at_tick, IsBefore, IsUpto, IsUpto-refl, IsBefore-IsUpto, IsUpto-IsBefore, IsUpto-IsUpto,
  at_tick-IsBefore, IsUpto-le,
}
use my_mad_kv.Prelude.{
  ℕ, zero, suc, ◌≤◌, ◌<◌, ◌≡◌, ◌⊎◌, inl, inr, refl, sym, ap, Option, some, List, [], ◌∷◌, ◌++◌, All,
  All-append, All-mono, arith, set, get_elem?, length, replicate,
}
use my_mad_kv.Text.{Text}
use my_mad_kv.Fuzzer.History.{dummy, push_span}
use my_mad_kv.Fuzzer.History.Linear.{
  Placed, IsPlaced, spans_of, all_spans_of, spans_of-append, IsLast, Holds,
}
use my_mad_kv.Fuzzer.Loop.Sound.{Effect, Elem}

abbrev pub place : Effect → Option Text → Placed
place y value = record {
  span = record { ts_call = y.harvest.memo.0; ts_resp = y.harvest.ts_resp; value = value };
  point = y.point;
}

-- the dummy, which takes effect at the start
abbrev pub start : Placed
start = record { span = dummy; point = at_tick 0 }

abbrev pub Rows : Type 0
Rows = List (List Placed)

-- the rows with an update more, as `push_span` adds it
abbrev pub push_placed : Placed → ℕ → Rows → Rows
push_placed p i [] = []
push_placed p zero (row ∷ rows) = (row ++ p ∷ []) ∷ rows
push_placed p (suc i) (row ∷ rows) = row ∷ push_placed p i rows

pub all_spans_of-push :
    (p : Placed) (i : ℕ) (rows : Rows)
    → all_spans_of (push_placed p i rows) ≡ push_span p.span i (all_spans_of rows)
all_spans_of-push p i [] = refl
all_spans_of-push p zero (row ∷ rows) =
    ap (λ l. l ∷ all_spans_of rows) (spans_of-append row (p ∷ []))
all_spans_of-push p (suc i) (row ∷ rows) = ap (λ l. spans_of row ∷ l) (all_spans_of-push p i rows)

pub all_spans_of-start :
    (n : ℕ) → all_spans_of (replicate n (start ∷ [])) ≡ replicate n (dummy ∷ [])
all_spans_of-start zero = refl
all_spans_of-start (suc n) = ap (λ l. (dummy ∷ []) ∷ l) (all_spans_of-start n)

-- Each row is placed, and no update in it is acknowledged after the client's last.
abbrev pub RowsValid : List ℕ → Rows → Type 0
RowsValid [] [] = Unit
RowsValid [] (row ∷ rows) = ⊥
RowsValid (t ∷ maxtr) [] = ⊥
RowsValid (t ∷ maxtr) (row ∷ rows) =
    IsPlaced row × All (λ (q : Placed). q.span.ts_resp ≤ t) row × RowsValid maxtr rows

pub RowsValid-start : (n : ℕ) → RowsValid (replicate n 0) (replicate n (start ∷ []))
RowsValid-start zero = tt
RowsValid-start (suc n) = (
  (IsUpto-refl (at_tick 0), IsUpto-refl (at_tick 0), tt, tt),
  (omega arith, tt),
  RowsValid-start n,
)

pub RowsValid-All : (maxtr : List ℕ) (rows : Rows) → RowsValid maxtr rows → All IsPlaced rows
RowsValid-All [] [] v = tt
RowsValid-All [] (row ∷ rows) v = absurd v
RowsValid-All (t ∷ maxtr) [] v = absurd v
RowsValid-All (t ∷ maxtr) (row ∷ rows) v = (v.0, RowsValid-All maxtr rows v.2)

pub RowsValid-length :
    (maxtr : List ℕ) (rows : Rows) → RowsValid maxtr rows → length rows ≡ length maxtr
RowsValid-length [] [] v = refl
RowsValid-length [] (row ∷ rows) v = absurd v
RowsValid-length (t ∷ maxtr) [] v = absurd v
RowsValid-length (t ∷ maxtr) (row ∷ rows) v = ap suc (RowsValid-length maxtr rows v.2)

-- An update of another key moves the client's last acknowledgement on.
pub RowsValid-set :
    (maxtr : List ℕ) (rows : Rows) (i t u : ℕ)
    → get_elem? maxtr i ≡ some t
    → t ≤ u
    → RowsValid maxtr rows
    → RowsValid (set maxtr i u) rows
RowsValid-set [] rows i t u e h v = absurd (cc e)
RowsValid-set (s ∷ maxtr) [] i t u e h v = absurd v
RowsValid-set (s ∷ maxtr) (row ∷ rows) zero t u e h v =
    let same : s ≡ t = ground arith in
    (v.0, All-mono _ _ row (λ q b. omega (arith, b, h, same)) v.1, v.2)
RowsValid-set (s ∷ maxtr) (row ∷ rows) (suc i) t u e h v =
    (v.0, v.1, RowsValid-set maxtr rows i t u e h v.2)

IsPlaced-push :
    (p : Placed) (t : ℕ) (row : List Placed)
    → IsPlaced row
    → All (λ (q : Placed). q.span.ts_resp ≤ t) row
    → t < p.span.ts_call
    → IsUpto (at_tick p.span.ts_call) p.point
    → IsUpto p.point (at_tick p.span.ts_resp)
    → IsPlaced (row ++ p ∷ [])
IsPlaced-push p t [] w b h k l = (k, l, tt, tt)
IsPlaced-push p t (q ∷ row) w b h k l =
    let before : IsBefore q.point p.point =
      IsBefore-IsUpto q.point (at_tick p.span.ts_call) p.point
        (IsUpto-IsBefore q.point (at_tick q.span.ts_resp) (at_tick p.span.ts_call) w.1
          (at_tick-IsBefore q.span.ts_resp p.span.ts_call (omega (arith, b.0, h))))
        k in
    (w.0, w.1, All-append _ row (p ∷ []) w.2 (before, tt), IsPlaced-push p t row w.3 b.1 h k l)

-- the client's own update, with the row that it goes to
pub RowsValid-push :
    (p : Placed) (maxtr : List ℕ) (rows : Rows) (i t : ℕ)
    → get_elem? maxtr i ≡ some t
    → t < p.span.ts_call
    → IsUpto (at_tick p.span.ts_call) p.point
    → IsUpto p.point (at_tick p.span.ts_resp)
    → RowsValid maxtr rows
    → RowsValid (set maxtr i p.span.ts_resp) (push_placed p i rows)
RowsValid-push p [] rows i t e h k l v = absurd (cc e)
RowsValid-push p (s ∷ maxtr) [] i t e h k l v = absurd v
RowsValid-push p (s ∷ maxtr) (row ∷ rows) zero t e h k l v =
    let same : s ≡ t = ground arith in
    let timed = IsUpto-le p.span.ts_call p.span.ts_resp (IsUpto-IsUpto _ p.point _ k l) in
    (
      IsPlaced-push p s row v.0 v.1 (omega (arith, same, h)) k l,
      All-append _ row (p ∷ []) (All-mono _ _ row (λ q b. omega (arith, b, same, h, timed)) v.1)
          (omega arith, tt),
      v.2,
    )
RowsValid-push p (s ∷ maxtr) (row ∷ rows) (suc i) t e h k l v =
    (v.0, v.1, RowsValid-push p maxtr rows i t e h k l v.2)

-- What holds of all updates and of the one more holds of all.
pub AllRows-push :
    (P : Placed → Type 0) (p : Placed) (i : ℕ) (rows : Rows)
    → P p
    → All (All P) rows
    → All (All P) (push_placed p i rows)
AllRows-push P p i [] h a = tt
AllRows-push P p zero (row ∷ rows) h a = (All-append P row (p ∷ []) a.0 (h, tt), a.1)
AllRows-push P p (suc i) (row ∷ rows) h a = (a.0, AllRows-push P p i rows h a.1)

abbrev pub InRows : Placed → Rows → Type 0
InRows p [] = ⊥
InRows p (row ∷ rows) = Elem p row ⊎ InRows p rows

Elem-append : (p : Placed) (l m : List Placed) → Elem p l → Elem p (l ++ m)
Elem-append p [] m e = absurd e
Elem-append p (q ∷ l) m (inl e) = inl e
Elem-append p (q ∷ l) m (inr e) = inr (Elem-append p l m e)

Elem-last : (p : Placed) (l : List Placed) → Elem p (l ++ p ∷ [])
Elem-last p [] = inl refl
Elem-last p (q ∷ l) = inr (Elem-last p l)

pub InRows-kept :
    (q p : Placed) (i : ℕ) (rows : Rows) → InRows q rows → InRows q (push_placed p i rows)
InRows-kept q p i [] e = e
InRows-kept q p zero (row ∷ rows) (inl e) = inl (Elem-append q row (p ∷ []) e)
InRows-kept q p zero (row ∷ rows) (inr e) = inr e
InRows-kept q p (suc i) (row ∷ rows) (inl e) = inl e
InRows-kept q p (suc i) (row ∷ rows) (inr e) = inr (InRows-kept q p i rows e)

pub InRows-push :
    (p : Placed) (i : ℕ) (rows : Rows) → i < length rows → InRows p (push_placed p i rows)
InRows-push p i [] h = absurd (omega (arith, h))
InRows-push p zero (row ∷ rows) h = inl (Elem-last p row)
InRows-push p (suc i) (row ∷ rows) h = inr (InRows-push p i rows (omega arith))

pub InRows-start : (n : ℕ) → 0 < n → InRows start (replicate n (start ∷ []))
InRows-start zero h = absurd (omega (arith, h))
InRows-start (suc n) h = inl (inl refl)

Elem-splits :
    {A : Type 0} (x : A) (l : List A)
    → Elem x l
    → (older : List A) × (newer : List A) × (l ≡ older ++ x ∷ newer)
Elem-splits x [] e = absurd e
Elem-splits x (y ∷ l) (inl e) = ([], l, ap (λ z. z ∷ l) (sym e))
Elem-splits x (y ∷ l) (inr e) =
    let (older, newer, q) = Elem-splits x l e in (y ∷ older, newer, ap (λ z. y ∷ z) q)

InRows-splits :
    (p : Placed) (rows : Rows)
    → InRows p rows
    → (before : Rows) × (behind : Rows) × (older : List Placed) × (newer : List Placed) × (rows
        ≡ before ++ (older ++ p ∷ newer) ∷ behind)
InRows-splits p [] e = absurd e
InRows-splits p (row ∷ rows) (inl e) =
    let (older, newer, q) = Elem-splits p row e in ([], rows, older, newer, ap (λ z. z ∷ rows) q)
InRows-splits p (row ∷ rows) (inr e) =
    let (before, behind, older, newer, q) = InRows-splits p rows e in
    (row ∷ before, behind, older, newer, ap (λ z. row ∷ z) q)

-- An update of the rows in front of a point, with no later one in front of it, gives the value.
pub InRows-Holds :
    (now : Instant) (value : Option Text) (p : Placed) (rows : Rows)
    → InRows p rows
    → IsBefore p.point now
    → IsLast now p rows
    → p.span.value ≡ value
    → Holds now value rows
InRows-Holds now value p rows e lt latest is =
    let (before, behind, older, newer, q) = InRows-splits p rows e in
    record {
      before = before;
      behind = behind;
      older = older;
      last = p;
      newer = newer;
      splits = q;
      in_time = lt;
      latest = latest;
      is_value = is;
    }

pub length-all_spans_of : (rows : Rows) → length (all_spans_of rows) ≡ length rows
length-all_spans_of [] = refl
length-all_spans_of (row ∷ rows) = ap suc (length-all_spans_of rows)

pub All-replicate : {A : Type 0} (P : A → Type 0) (n : ℕ) (a : A) → P a → All P (replicate n a)
All-replicate P zero a h = tt
All-replicate P (suc n) a h = (h, All-replicate P n a h)
