-- ===== src/Fuzzer/History/Alike.antt =====
-- Recorded updates (runner/src/bin/fuzzer/history.rs) that no check of a call stamped `bound` or
-- later tells apart.
pub mod Updates
use my_mad_kv.Prelude.{
  ℕ, zero, suc, ◌≤◌, ◌≡◌, refl, sym, ap, ◌∙◌, Bool, true, false, ◌&&◌, Option, none, some, List, [],
  ◌∷◌, ◌++◌, arith, leb, All, Bool-cases, inl, inr, min, ◌||◌,
}
use my_mad_kv.Text.{Text, text_eq}
use my_mad_kv.Collections.HashMap
use my_mad_kv.Collections.HashMap.{HashMap}
use my_mad_kv.Runner.Ioapi.{
  KvResp, put_resp, swap_resp, get_resp, scan_resp, delete_resp, stop_resp,
}
use my_mad_kv.Fuzzer.History.{
  UpdateSpan, QueuedSpan, KeySpans, check_clients, check_get, collect_entries, check_keys,
  check_scan, check_resp, check_call, on_key, push_span, trim_clients, drain,
}
use my_mad_kv.Fuzzer.History.Checks.{
  explained, explained_by_some, fits, check_clients-explained, all_open-concat,
}
use my_mad_kv.Fuzzer.History.Trimming.{IsTimed, trim_client-explained}

abbrev pub AlikeClient : ℕ → List UpdateSpan → List UpdateSpan → Type 0
AlikeClient bound l m =
    (matches : Option Text → Bool) (ts_call ts_resp : ℕ)
    → bound ≤ ts_call
    → explained matches ts_call ts_resp l ≡ explained matches ts_call ts_resp m

abbrev pub AlikeKey : ℕ → KeySpans → KeySpans → Type 0
AlikeKey bound [] [] = Unit
AlikeKey bound [] (m ∷ ms) = ⊥
AlikeKey bound (l ∷ ls) [] = ⊥
AlikeKey bound (l ∷ ls) (m ∷ ms) = AlikeClient bound l m × AlikeKey bound ls ms

abbrev pub Alike : ℕ → HashMap KeySpans → HashMap KeySpans → Type 0
Alike bound [] [] = Unit
Alike bound [] (f ∷ n) = ⊥
Alike bound (e ∷ m) [] = ⊥
Alike bound (e ∷ m) (f ∷ n) = (e.0 ≡ f.0) × AlikeKey bound e.1 f.1 × Alike bound m n

AlikeKey-explained :
    (bound : ℕ) (ls ms : KeySpans) (matches : Option Text → Bool) (ts_call ts_resp : ℕ)
    → bound ≤ ts_call
    → AlikeKey bound ls ms
    → explained_by_some matches ts_call ts_resp ls ≡ explained_by_some matches ts_call ts_resp ms
unfolding explained_by_some
AlikeKey-explained bound [] [] matches c r h a = refl
AlikeKey-explained bound [] (m ∷ ms) matches c r h a = absurd a
AlikeKey-explained bound (l ∷ ls) [] matches c r h a = absurd a
AlikeKey-explained bound (l ∷ ls) (m ∷ ms) matches c r h a =
    cc (a.0 matches c r h, AlikeKey-explained bound ls ms matches c r h a.1)

check_clients-alike :
    (bound : ℕ) (ls ms : KeySpans) (matches : Option Text → Bool) (ts_call ts_resp : ℕ)
    → bound ≤ ts_call
    → AlikeKey bound ls ms
    → check_clients matches ts_call ts_resp ls ≡ check_clients matches ts_call ts_resp ms
check_clients-alike bound ls ms matches c r h a =
    check_clients-explained matches c r ls
    ∙ AlikeKey-explained bound ls ms matches c r h a
    ∙ sym (check_clients-explained matches c r ms)

-- The two lookups of a key find nothing, or updates that are alike.
abbrev pub AlikeFound : ℕ → Option KeySpans → Option KeySpans → Type 0
AlikeFound bound none none = Unit
AlikeFound bound none (some ms) = ⊥
AlikeFound bound (some ls) none = ⊥
AlikeFound bound (some ls) (some ms) = AlikeKey bound ls ms

pub lookup-AlikeFound :
    (bound : ℕ) (key : Text) (m n : HashMap KeySpans)
    → Alike bound m n
    → AlikeFound bound (HashMap.lookup key m) (HashMap.lookup key n)
unfolding HashMap.lookup
lookup-AlikeFound bound key [] [] a = tt
lookup-AlikeFound bound key [] (f ∷ n) a = absurd a
lookup-AlikeFound bound key (e ∷ m) [] a = absurd a
lookup-AlikeFound bound key ((j, ls) ∷ m) ((k, ms) ∷ n) a = elim (Bool-cases (text_eq j key)) [
  | inl e ↦
      let f : text_eq k key ≡ true = ap (λ x. text_eq x key) (sym a.0) ∙ e in
      rw (e, HashMap.lookup) (rw (f, HashMap.lookup) a.1)
  | inr e ↦
      let f : text_eq k key ≡ false = ap (λ x. text_eq x key) (sym a.0) ∙ e in
      rw (e, HashMap.lookup) (rw (f, HashMap.lookup) (lookup-AlikeFound bound key m n a.2))
]

on_key-alike :
    (o p : Option KeySpans) (check : KeySpans → Bool) (bound : ℕ)
    → AlikeFound bound o p
    → ((ls ms : KeySpans) → AlikeKey bound ls ms → check ls ≡ check ms)
    → on_key o check ≡ on_key p check
on_key-alike none none check bound a same = refl
on_key-alike none (some ms) check bound a same = absurd a
on_key-alike (some ls) none check bound a same = absurd a
on_key-alike (some ls) (some ms) check bound a same = same ls ms a

module _ (bound ts_call ts_resp : ℕ) (late : bound ≤ ts_call) where
  check_keys-Alike :
      (lo hi : Text) (entries : HashMap Text) (m n : HashMap KeySpans)
      → Alike bound m n
      → check_keys lo hi ts_call ts_resp entries m ≡ check_keys lo hi ts_call ts_resp entries n
  unfolding check_keys check_get
  check_keys-Alike lo hi entries [] [] a = refl
  check_keys-Alike lo hi entries [] (f ∷ n) a = absurd a
  check_keys-Alike lo hi entries (e ∷ m) [] a = absurd a
  check_keys-Alike lo hi entries ((j, ls) ∷ m) ((k, ms) ∷ n) a = rw (a.0) (
      rw (check_clients-alike bound ls ms _ ts_call ts_resp late a.1)
        (rw (check_keys-Alike lo hi entries m n a.2) refl))

  check_scan-Alike :
      (lo hi : Text) (entries : List (Text × Text)) (m n : HashMap KeySpans)
      → Alike bound m n
      → check_scan m ts_call ts_resp lo hi entries ≡ check_scan n ts_call ts_resp lo hi entries
  unfolding check_scan
  check_scan-Alike lo hi entries m n a = by_entries (collect_entries lo hi entries [])
    where
      by_entries :
          (o : Option (HashMap Text))
          → elim o [ none ↦ false | some em ↦ check_keys lo hi ts_call ts_resp em m ]
            ≡ elim o [ none ↦ false | some em ↦ check_keys lo hi ts_call ts_resp em n ]
      by_entries none = refl
      by_entries (some em) = check_keys-Alike lo hi em m n a

  on_lookup-Alike :
      (key : Text) (m n : HashMap KeySpans) (matches : Option Text → Bool)
      → Alike bound m n
      → on_key (HashMap.lookup key m) (check_clients matches ts_call ts_resp)
        ≡ on_key (HashMap.lookup key n) (check_clients matches ts_call ts_resp)
  on_lookup-Alike key m n matches a =
      on_key-alike _ _ _ bound (lookup-AlikeFound bound key m n a)
        (λ ls ms b. check_clients-alike bound ls ms matches ts_call ts_resp late b)

  check_resp-Alike :
      (m n : HashMap KeySpans) (resp : KvResp)
      → Alike bound m n
      → check_resp m ts_call ts_resp resp ≡ check_resp n ts_call ts_resp resp
  unfolding check_resp
  check_resp-Alike m n (put_resp key found) a = on_lookup-Alike key m n _ a
  check_resp-Alike m n (swap_resp key old_value) a = on_lookup-Alike key m n _ a
  check_resp-Alike m n (get_resp key value) a = on_lookup-Alike key m n _ a
  check_resp-Alike m n (scan_resp lo hi entries) a = check_scan-Alike lo hi entries m n a
  check_resp-Alike m n (delete_resp key found) a = on_lookup-Alike key m n _ a
  check_resp-Alike m n stop_resp a = refl

-- Every call in the queue is stamped `bound` or later.
abbrev pub CalledFrom : ℕ → List QueuedSpan → Type 0
CalledFrom bound = All (λ (e : QueuedSpan). bound ≤ e.ts_call)

-- Alike updates give the queue that is left and the failed response alike.
pub drain-Alike :
    (bound mc : ℕ) (m n : HashMap KeySpans) (q : List QueuedSpan)
    → CalledFrom bound q
    → Alike bound m n
    → drain mc m q ≡ drain mc n q
unfolding drain check_call
drain-Alike bound mc m n [] late a = refl
drain-Alike bound mc m n (e ∷ q) late a =
    rw (check_resp-Alike bound e.ts_call e.ts_resp late.0 m n e.resp a)
      (rw (drain-Alike bound mc m n q late.1 a) refl)
