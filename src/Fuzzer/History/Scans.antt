-- ===== src/Fuzzer/History/Scans.antt =====
-- What `check_scan` of runner/src/bin/fuzzer/history.rs accepts.
use my_mad_kv.Prelude.{
  ℕ, ◌≡◌, refl, sym, ◌∙◌, ◌↔◌, inl, inr, Bool, true, false, not, ◌&&◌, Option, none, some, List, [],
  ◌∷◌, arith, if◌then◌else◌, All, Option-cases,
}
use mathlib.Core.Path.{subst}
use my_mad_kv.Text.{Text, text_ltb}
use my_mad_kv.Text.Order.{text_eq_iff}
use my_mad_kv.Collections.HashMap.{HashMap, lookup, insert}
use my_mad_kv.Collections.HashMap.Laws.{lookup-insert, contains_key-lookup}
use my_mad_kv.Fuzzer.History.{
  KeySpans, collect_entries, check_get, check_keys, check_scan, value_matches,
}
use my_mad_kv.Fuzzer.History.Accepts.{Explanation, check_clients_iff, value_matches_iff}

-- The key lies in the range, whose end belongs to it.
abbrev pub in_range : Text → Text → Text → Bool
in_range key_start key_end key = not (text_ltb key key_start) && not (text_ltb key_end key)

-- Every entry has a key in the range.
abbrev pub AllInRange : Text → Text → List (Text × Text) → Type 0
AllInRange key_start key_end entries = All (λ e. in_range key_start key_end e.0 ≡ true) entries

-- No two entries have the same key.
abbrev pub IsDistinct : List (Text × Text) → Type 0
IsDistinct [] = Unit
IsDistinct ((key, value) ∷ entries) = (lookup key entries ≡ none) × IsDistinct entries

-- No entry has a key of the map.
abbrev AllFresh : List (Text × Text) → HashMap Text → Type 0
AllFresh entries m = All (λ e. lookup e.0 m ≡ none) entries

-- the value of `o`, or of `p` where `o` has none
abbrev or_else : Option Text → Option Text → Option Text
or_else none p = p
or_else (some v) p = some v

-- a map that has the entries, and those of `m`
abbrev Collects : List (Text × Text) → HashMap Text → HashMap Text → Type 0
Collects entries m m' = (k : Text) → lookup k m' ≡ or_else (lookup k entries) (lookup k m)

AllFresh-insert :
    (k v : Text) (entries : List (Text × Text)) (m : HashMap Text)
    → AllFresh entries (insert k v m)
    → AllFresh entries m × (lookup k entries ≡ none)
unfolding lookup
AllFresh-insert k v [] m h = (tt, refl)
AllFresh-insert k v ((j, w) ∷ entries) m h =
    ground (
      arith,
      AllFresh-insert k v entries m,
      lookup-insert j k v m,
      text_eq_iff j k,
      text_eq_iff k j,
    )

AllFresh-insert_back :
    (k v : Text) (entries : List (Text × Text)) (m : HashMap Text)
    → AllFresh entries m
    → lookup k entries ≡ none
    → AllFresh entries (insert k v m)
unfolding lookup
AllFresh-insert_back k v [] m h e = tt
AllFresh-insert_back k v ((j, w) ∷ entries) m h e = ground (
  arith,
  AllFresh-insert_back k v entries m,
  lookup-insert j k v m,
  text_eq_iff j k,
  text_eq_iff k j,
)

-- What the first loop has found out when it comes to its end.
record Collected (lo hi : Text) (entries : List (Text × Text)) (m m' : HashMap Text) : Type 0 where
  ranged : AllInRange lo hi entries
  distinct : IsDistinct entries
  fresh : AllFresh entries m
  has : Collects entries m m'

module _ (lo hi : Text) where
  collect-cons :
      (k v : Text) (entries : List (Text × Text)) (m m' : HashMap Text)
      → collect_entries lo hi ((k, v) ∷ entries) m ≡ some m'
      → (in_range lo hi k ≡ true)
        × (lookup k m ≡ none)
        × (collect_entries lo hi entries (insert k v m) ≡ some m')
  unfolding collect_entries
  collect-cons k v entries m m' h = ground (arith, contains_key-lookup k m)

  Collects-cons :
      (k v : Text) (entries : List (Text × Text)) (m m' : HashMap Text)
      → lookup k entries ≡ none
      → Collects entries (insert k v m) m'
      → Collects ((k, v) ∷ entries) m m'
  unfolding lookup
  Collects-cons k v entries m m' e h j = ground (arith, h j, lookup-insert j k v m, text_eq_iff k j)

  collected :
      (entries : List (Text × Text)) (m m' : HashMap Text)
      → collect_entries lo hi entries m ≡ some m'
      → Collected lo hi entries m m'
  unfolding collect_entries lookup
  collected [] m m' h = record { ranged = tt; distinct = tt; fresh = tt; has = λ k. ground arith }
  collected ((k, v) ∷ entries) m m' h =
      let (ranged, new, later) = collect-cons k v entries m m' h in
      let c = collected entries (insert k v m) m' later in
      let (fresh, only) = AllFresh-insert k v entries m c.fresh in
      record {
        ranged = (ranged, c.ranged);
        distinct = (only, c.distinct);
        fresh = (new, fresh);
        has = Collects-cons k v entries m m' only c.has;
      }

  collect-some :
      (entries : List (Text × Text)) (m : HashMap Text)
      → AllInRange lo hi entries
      → IsDistinct entries
      → AllFresh entries m
      → (m' : HashMap Text) × (collect_entries lo hi entries m ≡ some m')
  unfolding collect_entries
  collect-some [] m r d f = (m, refl)
  collect-some ((k, v) ∷ entries) m r d f =
      let (m', e) =
        collect-some entries (insert k v m) r.1 d.1 (AllFresh-insert_back k v entries m f.1 d.0) in
      (m', ground (arith, contains_key-lookup k m))

-- Every key of the pool that lies in the range has an explanation for the value that the entries
-- give to it, or for its absence from them.
abbrev pub AllExplained : Text → Text → ℕ → ℕ → List (Text × Text) → HashMap KeySpans → Type 0
AllExplained lo hi ts_call ts_resp entries spans =
    All
      (λ (s : Text × KeySpans).
        in_range lo hi s.0 ≡ true → Explanation (λ v. v ≡ lookup s.0 entries) ts_call ts_resp s.1)
      spans

check_get_iff :
    (ts_call ts_resp : ℕ) (value : Option Text) (ks : KeySpans)
    → (check_get ks ts_call ts_resp value ≡ true) ↔ Explanation (λ v. v ≡ value) ts_call ts_resp ks
unfolding check_get
check_get_iff ts_call ts_resp value ks =
    check_clients_iff (value_matches value) (λ v. v ≡ value) (value_matches_iff value) ts_call
      ts_resp ks

guard_iff :
    {P Q : Type 0} (a b g rest : Bool)
    → (g ≡ true) ↔ P
    → (rest ≡ true) ↔ Q
    → ((if a && b && not g then false else rest) ≡ true) ↔ (((a && b) ≡ true → P) × Q)
guard_iff true true true rest p q = (λ h. (λ _. p.0 refl, q.0 h), λ (f, x). q.1 x)
guard_iff true true false rest p q = (λ h. absurd (cc), λ (f, x). p.1 (f refl))
guard_iff true false g rest p q = (λ h. (λ e. absurd (cc), q.0 h), λ (f, x). q.1 x)
guard_iff false b g rest p q = (λ h. (λ e. absurd (cc), q.0 h), λ (f, x). q.1 x)

module _ (lo hi : Text) (ts_call ts_resp : ℕ) (entries : List (Text × Text)) where
  check_keys_iff :
      (m : HashMap Text)
      → ((k : Text) → lookup k m ≡ lookup k entries)
      → (spans : HashMap KeySpans)
      → (check_keys lo hi ts_call ts_resp m spans ≡ true)
        ↔ AllExplained lo hi ts_call ts_resp entries spans
  unfolding check_keys
  check_keys_iff m e [] = (λ _. tt, λ _. refl)
  check_keys_iff m e ((k, ks) ∷ spans) =
      guard_iff (not (text_ltb k lo)) (not (text_ltb hi k))
        (check_get ks ts_call ts_resp (lookup k m)) (check_keys lo hi ts_call ts_resp m spans)
        (subst
          (λ o.
            (check_get ks ts_call ts_resp o ≡ true)
            ↔ Explanation (λ v. v ≡ lookup k entries) ts_call ts_resp ks)
          (sym (e k)) (check_get_iff ts_call ts_resp (lookup k entries) ks))
        (check_keys_iff m e spans)

pub record AcceptsScan (spans : HashMap KeySpans) (ts_call ts_resp : ℕ) (lo hi : Text)
    (entries : List (Text × Text)) : Type 0 where
  pub ranged : AllInRange lo hi entries
  pub distinct : IsDistinct entries
  pub explained : AllExplained lo hi ts_call ts_resp entries spans

module _ (spans : HashMap KeySpans) (ts_call ts_resp : ℕ) (lo hi : Text)
    (entries : List (Text × Text)) where
  or_else-none : (o : Option Text) → or_else o none ≡ o
  or_else-none none = refl
  or_else-none (some v) = refl

  check_scan-AcceptsScan :
      check_scan spans ts_call ts_resp lo hi entries ≡ true
      → AcceptsScan spans ts_call ts_resp lo hi entries
  unfolding check_scan lookup
  check_scan-AcceptsScan h = elim (Option-cases (collect_entries lo hi entries [])) [
    | inl e ↦ absurd (ground arith)
    | inr (m, e) ↦
        let c = collected lo hi entries [] m e in
        record {
          ranged = c.ranged;
          distinct = c.distinct;
          explained =
              (check_keys_iff lo hi ts_call ts_resp entries m
                  (λ k. c.has k ∙ or_else-none (lookup k entries)) spans).0
                (ground arith);
        }
  ]

  AllFresh-empty : (l : List (Text × Text)) → AllFresh l []
  unfolding lookup
  AllFresh-empty [] = tt
  AllFresh-empty (x ∷ l) = (refl, AllFresh-empty l)

  AcceptsScan-check_scan :
      AcceptsScan spans ts_call ts_resp lo hi entries
      → check_scan spans ts_call ts_resp lo hi entries ≡ true
  unfolding check_scan lookup
  AcceptsScan-check_scan a =
      let (m, e) = collect-some lo hi entries [] a.ranged a.distinct (AllFresh-empty entries) in
      let c = collected lo hi entries [] m e in
      let keys =
        (check_keys_iff lo hi ts_call ts_resp entries m
            (λ k. c.has k ∙ or_else-none (lookup k entries)) spans).1
          a.explained in
      rw (e, check_scan) keys

  pub check_scan_iff :
      (check_scan spans ts_call ts_resp lo hi entries ≡ true)
      ↔ AcceptsScan spans ts_call ts_resp lo hi entries
  check_scan_iff = (check_scan-AcceptsScan, AcceptsScan-check_scan)
