-- ===== src/Common/Maps.antt =====
-- Go's `map[string]V` as an association list: the order of the entries is not observed.
use opensearch_dataprepper_k.Common.Tests.{if◌then◌else◌}
use Prim.Native.String.{String}
use mathlib.Core.Path.{◌≡◌, refl}
use mathlib.Core.Option.{Option, none, some}
use mathlib.Core.List.{List, [], ◌∷◌}
use native.Mathlib.Omega.{arith}
use text.Mathlib.Text.{◌==◌}
use text.Mathlib.TextEquality.{eq_iff}
use text.Mathlib.TextPositions.{eq_refl}

abbrev pub Map {ℓ} : Type ℓ → Type ℓ
Map V = List (String × V)

module _ {ℓ} {V : Type ℓ} where
  -- v, ok := m[k]
  unfoldable pub lookup : String → Map V → Option V
  lookup k [] = none
  lookup k ((j, v) ∷ m) = if j == k then some v else lookup k m

  -- m[k] = v
  unfoldable pub insert : String → V → Map V → Map V
  insert k v [] = (k, v) ∷ []
  insert k v ((j, w) ∷ m) = if j == k then (k, v) ∷ m else (j, w) ∷ insert k v m

  -- for k, v := range over { m[k] = v }
  unfoldable pub insert_all : Map V → Map V → Map V
  unfolding insert
  insert_all [] m = m
  insert_all ((k, v) ∷ over) m = insert_all over (insert k v m)

  -- What a stored map holds, at the stored key and at any other.
  pub lookup-insert :
      (stored asked : String) (v : V) (m : Map V)
      → lookup asked (insert stored v m) ≡ (if stored == asked then some v else lookup asked m)
  unfolding lookup insert
  lookup-insert stored asked v [] = refl
  lookup-insert stored asked v ((i, w) ∷ rest) =
      let later = lookup-insert stored asked v rest in
      ground (arith, later, eq_iff stored asked, eq_iff i asked, eq_iff i stored)

  -- Storing what is there changes nothing.
  pub insert_same : (k : String) (v : V) (m : Map V) → lookup k m ≡ some v → insert k v m ≡ m
  unfolding lookup insert
  insert_same k v [] e = cc
  insert_same k v ((j, w) ∷ m) e = ground (arith, eq_iff j k, insert_same k v m)

  -- The same entries.
  abbrev pub SameMap : Map V → Map V → Type ℓ
  SameMap m n = (k : String) → lookup k m ≡ lookup k n

  -- A map with the entries of the empty map is empty.
  pub SameMap-nil : (m : Map V) → SameMap [] m → m ≡ []
  unfolding lookup
  SameMap-nil [] h = refl
  SameMap-nil ((k, v) ∷ m) h = ground (arith, h k, eq_refl k)

abbrev pub StringMap : Type 0
StringMap = Map String

-- m[k] of a `map[string]string`: "" for a missing key.
abbrev pub value : StringMap → String → String
value m k = elim (lookup k m) [ none ↦ "" | some v ↦ v ]
