-- ===== src/Fuzzer/History/Alike/Updates.antt =====
-- What updates leave alike in a history (runner/src/bin/fuzzer/history.rs).
use my_mad_kv.Prelude.{
  ℕ, zero, suc, ◌≤◌, ◌≡◌, refl, sym, ap, ◌∙◌, Bool, true, false, ◌&&◌, Option, List, [], ◌∷◌, ◌++◌,
  arith, leb, All, Bool-cases, inl, inr, min, ◌||◌,
}
use my_mad_kv.Text.{Text, text_eq}
use my_mad_kv.Collections.HashMap
use my_mad_kv.Collections.HashMap.{HashMap}
use my_mad_kv.Fuzzer.History.{UpdateSpan, KeySpans, push_span, trim_clients}
use my_mad_kv.Fuzzer.History.Checks.{explained, fits, all_open-concat}
use my_mad_kv.Fuzzer.History.Trimming.{IsTimed, trim_client-explained}
use my_mad_kv.Fuzzer.History.Alike.{AlikeKey, Alike}

-- A larger bound tells less apart.
AlikeKey-mono : (b c : ℕ) (ls ms : KeySpans) → b ≤ c → AlikeKey b ls ms → AlikeKey c ls ms
AlikeKey-mono b c [] [] h a = tt
AlikeKey-mono b c [] (m ∷ ms) h a = a
AlikeKey-mono b c (l ∷ ls) [] h a = a
AlikeKey-mono b c (l ∷ ls) (m ∷ ms) h a =
    (λ f x y z. a.0 f x y (omega arith), AlikeKey-mono b c ls ms h a.1)

pub Alike-mono : (b c : ℕ) (m n : HashMap KeySpans) → b ≤ c → Alike b m n → Alike c m n
Alike-mono b c [] [] h a = tt
Alike-mono b c [] (f ∷ n) h a = a
Alike-mono b c (e ∷ m) [] h a = a
Alike-mono b c (e ∷ m) (f ∷ n) h a =
    (a.0, AlikeKey-mono b c e.1 f.1 h a.1, Alike-mono b c m n h a.2)

-- A write under one key of updates that are alike.
pub insert-Alike :
    (bound : ℕ) (key : Text) (ls ms : KeySpans) (m n : HashMap KeySpans)
    → AlikeKey bound ls ms
    → Alike bound m n
    → Alike bound (HashMap.insert key ls m) (HashMap.insert key ms n)
unfolding HashMap.insert
insert-Alike bound key ls ms [] [] b a = (refl, b, tt)
insert-Alike bound key ls ms [] (f ∷ n) b a = absurd a
insert-Alike bound key ls ms (e ∷ m) [] b a = absurd a
insert-Alike bound key ls ms ((j, xs) ∷ m) ((k, ys) ∷ n) b a = elim (Bool-cases (text_eq j key)) [
  | inl e ↦
      let f : text_eq k key ≡ true = ap (λ x. text_eq x key) (sym a.0) ∙ e in
      rw (e, HashMap.insert) (rw (f, HashMap.insert) (a.0, b, a.2))
  | inr e ↦
      let f : text_eq k key ≡ false = ap (λ x. text_eq x key) (sym a.0) ∙ e in
      rw (e, HashMap.insert)
        (rw (f, HashMap.insert) (a.0, a.1, insert-Alike bound key ls ms m n b a.2))
]

-- One more update on both sides.
explained-concat :
    (matches : Option Text → Bool) (c r : ℕ) (l : List UpdateSpan) (s : UpdateSpan)
    → explained matches c r (l ++ s ∷ [])
      ≡ (fits matches r s || (leb c s.ts_resp && explained matches c r l))
unfolding explained
explained-concat matches c r [] s = ground arith
explained-concat matches c r (t ∷ l) s =
    ground (arith, explained-concat matches c r l s, all_open-concat c l s)

pub push_span-AlikeKey :
    (bound : ℕ) (s : UpdateSpan) (cidx : ℕ) (ls ms : KeySpans)
    → AlikeKey bound ls ms
    → AlikeKey bound (push_span s cidx ls) (push_span s cidx ms)
push_span-AlikeKey bound s cidx [] [] a = tt
push_span-AlikeKey bound s cidx [] (m ∷ ms) a = absurd a
push_span-AlikeKey bound s cidx (l ∷ ls) [] a = absurd a
push_span-AlikeKey bound s zero (l ∷ ls) (m ∷ ms) a = (
  λ f c r h.
      explained-concat f c r l s
      ∙ ap (λ x. fits f r s || (leb c s.ts_resp && x)) (a.0 f c r h)
      ∙ sym (explained-concat f c r m s),
  a.1,
)
push_span-AlikeKey bound s (suc cidx) (l ∷ ls) (m ∷ ms) a =
    (a.0, push_span-AlikeKey bound s cidx ls ms a.1)

-- Trimming one side of updates that are alike from `bound` on.
pub trim_clients-AlikeKey :
    (bound mc mq : ℕ) (ls ms : KeySpans)
    → bound ≤ min mc mq
    → All IsTimed ls
    → AlikeKey bound ls ms
    → AlikeKey (min mc mq) (trim_clients mc mq ls) ms
unfolding trim_clients
trim_clients-AlikeKey bound mc mq [] [] h t a = tt
trim_clients-AlikeKey bound mc mq [] (m ∷ ms) h t a = absurd a
trim_clients-AlikeKey bound mc mq (l ∷ ls) [] h t a = absurd a
trim_clients-AlikeKey bound mc mq (l ∷ ls) (m ∷ ms) h t a = (
  λ f c r late. trim_client-explained f mc mq c r late l t.0 ∙ a.0 f c r (omega arith),
  trim_clients-AlikeKey bound mc mq ls ms h t.1 a.1,
)
