-- ===== src/Map.antt =====
-- `std::collections::BTreeMap` as the list of its entries in the order of their keys. `lt` is the
-- order of the keys.
pub mod Laws
use strk20_indexer.Prelude.{Bool, Option, none, some, List, [], ◌∷◌, String, str_eq, if◌then◌else◌}

module _ {K V : Type 0} (lt : K → K → Bool) where
  unfoldable pub insert : K → V → List (K × V) → List (K × V)
  insert k v [] = (k, v) ∷ []
  insert k v (e ∷ r) =
      let rest = insert k v r in
      if lt e.0 k then e ∷ rest else if lt k e.0 then (k, v) ∷ e ∷ r else (k, v) ∷ r

  unfoldable pub get : K → List (K × V) → Option V
  get k [] = none
  get k (e ∷ r) =
      let rest = get k r in if lt e.0 k then rest else if lt k e.0 then rest else some e.1

-- `.next_back()` of a range
unfoldable pub last : {A : Type 0} → List A → Option A
last [] = none
last (a ∷ []) = some a
last (a ∷ b ∷ r) = last (b ∷ r)

-- a map with text keys, whose order nothing looks at
abbrev pub Meta : Type 0
Meta = List (String × String)

unfoldable pub meta_get : String → Meta → Option String
meta_get key [] = none
meta_get key (e ∷ r) = let rest = meta_get key r in if str_eq e.0 key then some e.1 else rest

unfoldable pub meta_insert : String → String → Meta → Meta
meta_insert key value [] = (key, value) ∷ []
meta_insert key value (e ∷ r) =
    let rest = meta_insert key value r in if str_eq e.0 key then (key, value) ∷ r else e ∷ rest

unfoldable pub meta_remove : String → Meta → Meta
meta_remove key [] = []
meta_remove key (e ∷ r) = let rest = meta_remove key r in if str_eq e.0 key then rest else e ∷ rest
