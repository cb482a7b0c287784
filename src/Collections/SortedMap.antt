-- ===== src/Collections/SortedMap.antt =====
-- `BTreeMap<String, V>`: its entries in the order of their keys.
pub mod Laws
use my_mad_kv.Prelude.{
  true, not, ◌&&◌, ◌≡◌, Option, none, some, List, [], ◌∷◌, Ordering, if◌then◌else◌,
}
use my_mad_kv.Text.{Text, text_compare, text_ltb}

abbrev pub SortedMap {ℓ} : Type ℓ → Type ℓ
SortedMap V = List (Text × V)

module _ {ℓ} {V : Type ℓ} where
  -- `get`
  unfoldable pub lookup : Text → SortedMap V → Option V
  lookup k [] = none
  lookup k ((j, w) ∷ m) = elim (text_compare k j) [
    | Ordering.lt ↦ none
    | Ordering.eq ↦ some w
    | Ordering.gt ↦ lookup k m
  ]

  -- the map after `insert`, which returns what `lookup` found before
  unfoldable pub insert : Text → V → SortedMap V → SortedMap V
  insert k v [] = (k, v) ∷ []
  insert k v ((j, w) ∷ m) = elim (text_compare k j) [
    | Ordering.lt ↦ (k, v) ∷ (j, w) ∷ m
    | Ordering.eq ↦ (j, v) ∷ m
    | Ordering.gt ↦ (j, w) ∷ insert k v m
  ]

  -- the map after `remove`, which returns what `lookup` found before
  unfoldable pub remove : Text → SortedMap V → SortedMap V
  remove k [] = []
  remove k ((j, w) ∷ m) = elim (text_compare k j) [
    | Ordering.lt ↦ (j, w) ∷ m
    | Ordering.eq ↦ m
    | Ordering.gt ↦ (j, w) ∷ remove k m
  ]

  -- the entries with a key in `lo..hi`
  unfoldable pub between : Text → Text → SortedMap V → List (Text × V)
  between lo hi [] = []
  between lo hi ((j, w) ∷ m) =
      let rest = between lo hi m in
      if not (text_ltb j lo) && text_ltb j hi then (j, w) ∷ rest else rest

  -- `range(lo..hi)`, which panics where `lo > hi`
  unfoldable pub range : Text → Text → SortedMap V → Option (List (Text × V))
  range lo hi m = if text_ltb hi lo then none else some (between lo hi m)

  -- every key is above `k`
  abbrev pub IsAbove : Text → SortedMap V → Type 0
  IsAbove k [] = Unit
  IsAbove k ((j, w) ∷ m) = (text_ltb k j ≡ true) × IsAbove k m

  abbrev pub IsSorted : SortedMap V → Type 0
  IsSorted [] = Unit
  IsSorted ((j, w) ∷ m) = IsAbove j m × IsSorted m
