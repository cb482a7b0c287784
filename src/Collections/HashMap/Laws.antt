-- ===== src/Collections/HashMap/Laws.antt =====
-- A hash map is a function from keys to values: what `insert` changes, and what iteration meets.
use my_mad_kv.Prelude.{
  ◌≡◌, refl, true, false, none, some, [], ◌∷◌, arith, if◌then◌else◌, All, Bool-cases, inl, inr,
}
use mathlib.Core.Path.{subst}
use my_mad_kv.Text.{Text, text_eq}
use my_mad_kv.Text.Order.{text_eq_iff}
use my_mad_kv.Collections.HashMap.{HashMap, lookup, contains_key, insert}

module _ {ℓ} {V : Type ℓ} where
  pub lookup-insert :
      (j k : Text) (v : V) (m : HashMap V)
      → lookup j (insert k v m) ≡ (if text_eq k j then some v else lookup j m)
  unfolding lookup insert
  lookup-insert j k v [] = refl
  lookup-insert j k v ((i, w) ∷ m) =
      ground (arith, lookup-insert j k v m, text_eq_iff i j, text_eq_iff i k, text_eq_iff k j)

  -- `contains_key` is whether `get` finds something.
  pub contains_key-lookup :
      (k : Text) (m : HashMap V)
      → contains_key k m ≡ elim (lookup k m) [ none ↦ false | some v ↦ true ]
  unfolding lookup contains_key
  contains_key-lookup k [] = refl
  contains_key-lookup k ((i, w) ∷ m) = ground (arith, contains_key-lookup k m)

  -- What holds of every value holds of what `get` finds.
  pub All-lookup {κ} :
      (P : V → Type κ) (k : Text) (m : HashMap V) {v : V}
      → All (λ e. P e.1) m
      → lookup k m ≡ some v
      → P v
  unfolding lookup
  All-lookup P k [] a h = absurd (cc h)
  All-lookup P k ((i, w) ∷ m) {v} a h = elim (Bool-cases (text_eq i k)) [
    | inl e ↦ let q : w ≡ v = ground arith in subst P q a.0
    | inr e ↦ All-lookup P k m a.1 (rw e at h)
  ]

  -- A write of a value that satisfies `P` leaves a map whose values all do.
  pub All-insert {κ} :
      (P : V → Type κ) (k : Text) (v : V) (m : HashMap V)
      → P v
      → All (λ e. P e.1) m
      → All (λ e. P e.1) (insert k v m)
  unfolding insert
  All-insert P k v [] p a = (p, tt)
  All-insert P k v ((i, w) ∷ m) p a = ground (arith, All-insert P k v m)
