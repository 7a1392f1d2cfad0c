-- ===== src/StdMap.antt =====
-- std::map as the code uses it: a list of entries in the order of the keys. `find` looks for an
-- equal key; for the keys of the program equality and the order agree.
pub mod Laws
use mksync.Prelude.{
  ◌≡◌, Bool, false, true, List, [], ◌∷◌, Option, none, some, if◌then◌else◌, not, Key, is_some,
}

abbrev pub StdMap {ℓ κ} : Type ℓ → Type κ → Type (ℓ ⊔ κ)
StdMap K V = List (K × V)

module _ {ℓ κ} {K : Type ℓ} {V : Type κ} ⦃o : Key K⦄ where
  unfoldable pub find : K → StdMap K V → Option V
  find k [] = none
  find k ((j, v) ∷ m) = if o.beq j k then some v else find k m

  abbrev pub contains : K → StdMap K V → Bool
  contains k m = is_some (find k m)

  -- The place of a key that is not in the map.
  unfoldable pub insert_sorted : K → V → StdMap K V → StdMap K V
  insert_sorted k v [] = (k, v) ∷ []
  insert_sorted k v ((j, w) ∷ m) =
      if o.less k j then (k, v) ∷ (j, w) ∷ m else (j, w) ∷ insert_sorted k v m

  -- `emplace` does nothing on a key that is there.
  unfoldable pub emplace : K → V → StdMap K V → StdMap K V
  emplace k v m = if contains k m then m else insert_sorted k v m

  unfoldable pub erase : K → StdMap K V → StdMap K V
  erase k [] = []
  erase k ((j, v) ∷ m) = if o.beq j k then erase k m else (j, v) ∷ erase k m

  unfoldable pub replace : K → V → StdMap K V → StdMap K V
  replace k v [] = []
  replace k v ((j, w) ∷ m) = if o.beq j k then (j, v) ∷ m else (j, w) ∷ replace k v m

  -- `m[k] = v`.
  unfoldable pub assign : K → V → StdMap K V → StdMap K V
  unfolding replace
  assign k v m = if contains k m then replace k v m else insert_sorted k v m

  -- The entries whose key passes a test, in order.
  unfoldable pub filter_keys : (K → Bool) → StdMap K V → StdMap K V
  filter_keys p [] = []
  filter_keys p ((j, v) ∷ m) = if p j then (j, v) ∷ filter_keys p m else filter_keys p m

  -- No key stands twice.
  abbrev pub IsUnique : StdMap K V → Type κ
  IsUnique [] = Unit
  IsUnique ((j, v) ∷ m) = (find j m ≡ none) × IsUnique m
