-- ===== src/Collections/HashMap.antt =====
-- `HashMap<String, V>`: its entries in the order in which an iteration meets them.
pub mod Laws
use my_mad_kv.Prelude.{Bool, true, false, Option, none, some, List, [], ◌∷◌, if◌then◌else◌}
use my_mad_kv.Text.{Text, text_eq}

abbrev pub HashMap {ℓ} : Type ℓ → Type ℓ
HashMap V = List (Text × V)

module _ {ℓ} {V : Type ℓ} where
  -- `get`
  unfoldable pub lookup : Text → HashMap V → Option V
  lookup k [] = none
  lookup k ((j, w) ∷ m) = if text_eq j k then some w else lookup k m

  -- `contains_key`
  unfoldable pub contains_key : Text → HashMap V → Bool
  contains_key k [] = false
  contains_key k ((j, w) ∷ m) = if text_eq j k then true else contains_key k m

  -- the map after `insert`, or after a write through `get_mut` or `entry`
  unfoldable pub insert : Text → V → HashMap V → HashMap V
  insert k v [] = (k, v) ∷ []
  insert k v ((j, w) ∷ m) = if text_eq j k then (j, v) ∷ m else (j, w) ∷ insert k v m
