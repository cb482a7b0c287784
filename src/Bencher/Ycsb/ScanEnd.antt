-- ===== src/Bencher/Ycsb/ScanEnd.antt =====
-- Where a scan of runner/src/bin/bencher/ycsb.rs ends: it covers the keys that it asks for.
use my_mad_kv.Prelude.{
  ℕ, zero, suc, ◌+◌, ◌-◌, ◌^◌, ◌%◌, ◌≤◌, ◌<◌, min, ◌≡◌, refl, ap, ◌∙◌, true, false, none, some,
  List, [], ◌∷◌, arith, length, get_elem?, if◌then◌else◌, All, All-get_elem?, Bool-cases,
  Option-cases, inl, inr,
}
use mathlib.Core.Path.{subst}
use my_mad_kv.Text.{Text, text_ltb}
use my_mad_kv.Text.Order.{text_ltb_irrefl, text_ltb_asymm, text_ltb_trans}
use my_mad_kv.Collections.SortedMap.{IsAbove, IsSorted}
use my_mad_kv.Bencher.Ycsb.{KeySet, keys_from, last_key, scan_end}

-- the number of the keys that are not above `key_end`
abbrev pub count_upto : Text → List Text → ℕ
count_upto key_end [] = 0
count_upto key_end (key ∷ keys) =
    if text_ltb key_end key then count_upto key_end keys else suc (count_upto key_end keys)

abbrev IsIncreasing : List Text → Type 0
IsIncreasing [] = Unit
IsIncreasing (key ∷ keys) = All (λ j. text_ltb key j ≡ true) keys × IsIncreasing keys

count_upto-above :
    (key : Text) (keys : List Text)
    → All (λ j. text_ltb key j ≡ true) keys
    → count_upto key keys ≡ 0
count_upto-above key [] a = refl
count_upto-above key (j ∷ keys) a = rw (a.0) (count_upto-above key keys a.1)

count_upto-nth :
    (keys : List Text) (i : ℕ) (key_end : Text)
    → IsIncreasing keys
    → get_elem? keys i ≡ some key_end
    → count_upto key_end keys ≡ suc i
count_upto-nth [] i e h f = absurd (cc)
count_upto-nth (key ∷ keys) zero e h f =
    let same : key ≡ e = cc in
    subst (λ k. count_upto k (key ∷ keys) ≡ 1) same
      (rw (text_ltb_irrefl key) (ap suc (count_upto-above key keys h.0)))
count_upto-nth (key ∷ keys) (suc i) e h f =
    rw (text_ltb_asymm key e (All-get_elem? _ keys h.0 i e f))
      (ap suc (count_upto-nth keys i e h.1 f))

count_upto-all :
    (key_end : Text) (keys : List Text)
    → All (λ j. text_ltb key_end j ≡ false) keys
    → count_upto key_end keys ≡ length keys
count_upto-all e [] a = refl
count_upto-all e (j ∷ keys) a = rw (a.0) (ap suc (count_upto-all e keys a.1))

get_elem?-none : (keys : List Text) (i : ℕ) → get_elem? keys i ≡ none → length keys ≤ i
get_elem?-none [] i h = omega arith
get_elem?-none (key ∷ keys) zero h = absurd (cc)
get_elem?-none (key ∷ keys) (suc i) h = omega (arith, get_elem?-none keys i h)

get_elem?-inside :
    (keys : List Text) (i : ℕ) (k : Text) → get_elem? keys i ≡ some k → i < length keys
get_elem?-inside [] i k h = absurd (cc)
get_elem?-inside (key ∷ keys) zero k h = omega arith
get_elem?-inside (key ∷ keys) (suc i) k h = omega (arith, get_elem?-inside keys i k h)

-- a predicate of the keys of the set holds of those in the range
All-keys_from :
    (P : Text → Type 0) (key_start : Text) (m : KeySet)
    → All (λ (e : Text × Unit). P e.0) m
    → All P (keys_from key_start m)
unfolding keys_from
All-keys_from P s [] a = tt
All-keys_from P s ((key, u) ∷ m) a = elim (Bool-cases (text_ltb key s)) [
  | inl e ↦ rw e (All-keys_from P s m a.1)
  | inr e ↦ rw e (a.0, All-keys_from P s m a.1)
]

IsAbove-All :
    (key : Text) (m : KeySet) → IsAbove key m → All (λ (e : Text × Unit). text_ltb key e.0 ≡ true) m
IsAbove-All key [] h = tt
IsAbove-All key ((j, u) ∷ m) h = (h.0, IsAbove-All key m h.1)

keys_from-IsIncreasing :
    (key_start : Text) (m : KeySet) → IsSorted m → IsIncreasing (keys_from key_start m)
unfolding keys_from
keys_from-IsIncreasing s [] h = tt
keys_from-IsIncreasing s ((key, u) ∷ m) h = elim (Bool-cases (text_ltb key s)) [
  | inl e ↦ rw e (keys_from-IsIncreasing s m h.1)
  | inr e ↦ rw e (All-keys_from _ s m (IsAbove-All key m h.0), keys_from-IsIncreasing s m h.1)
]

-- The last key is above no key, and not below the first.
last_key-top :
    (key : Text) (m : KeySet)
    → IsSorted ((key, tt) ∷ m)
    → (text_ltb (last_key key m) key ≡ false)
      × All (λ (e : Text × Unit). text_ltb (last_key key m) e.0 ≡ false) m
unfolding last_key
last_key-top key [] h = (text_ltb_irrefl key, tt)
last_key-top key ((j, u) ∷ m) h =
    let (top, rest) = last_key-top j m h.1 in (below j m top h.0.0, (top, rest))
  where
    below :
        (j : Text) (m : KeySet)
        → text_ltb (last_key j m) j ≡ false
        → text_ltb key j ≡ true
        → text_ltb (last_key j m) key ≡ false
    below j m top lt = elim (Bool-cases (text_ltb (last_key j m) key)) [
      | inr e ↦ e
      | inl e ↦ absurd (let up = text_ltb_trans (last_key j m) key j e lt in cc)
    ]

-- Over the sorted set of the inserted keys, the end of a scan of one key or more is such that, of
-- the keys from the start on, so many as asked for lie up to it, or all if they are fewer.
pub scan_end-count_upto :
    (key_start : Text) (scnt : ℕ) (key : Text) (ikeys : KeySet)
    → IsSorted ((key, tt) ∷ ikeys)
    → 0 < scnt
    → scnt < 2 ^ 64
    → count_upto (scan_end key_start scnt key ikeys) (keys_from key_start ((key, tt) ∷ ikeys))
      ≡ min scnt (length (keys_from key_start ((key, tt) ∷ ikeys)))
unfolding scan_end
scan_end-count_upto s scnt key ikeys h more small =
    elim (Option-cases
      (get_elem? (keys_from s ((key, tt) ∷ ikeys)) ((scnt + (2 ^ 64 - 1)) % 2 ^ 64))) [
        | inl e ↦
            let (top, rest) = last_key-top key ikeys h in
            let few =
              get_elem?-none (keys_from s ((key, tt) ∷ ikeys)) ((scnt + (2 ^ 64 - 1)) % 2 ^ 64) e in
            rw (e, scan_end)
              (count_upto-all _ _ (All-keys_from _ s ((key, tt) ∷ ikeys) (top, rest))
                ∙ omega (arith, few))
        | inr (key_end, e) ↦
            let enough =
              get_elem?-inside (keys_from s ((key, tt) ∷ ikeys)) ((scnt + (2 ^ 64 - 1)) % 2 ^ 64)
                key_end e in
            rw (e, scan_end)
              (count_upto-nth _ _ key_end (keys_from-IsIncreasing s ((key, tt) ∷ ikeys) h) e
                ∙ omega (arith, enough))
      ]
