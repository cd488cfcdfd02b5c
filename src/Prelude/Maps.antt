-- ===== src/Prelude/Maps.antt =====
-- Go maps with string keys: association lists, one entry to a key. The order of the entries is one
-- order in which a `range` loop may visit them.
use mathlib.Core.Path.{◌≡◌, refl}
use mathlib.Core.List.{List, [], ◌∷◌}
use mathlib.Core.Option.{Option, none, some}
use native.Mathlib.Omega.{arith}
use auto_mock_tools.Prelude.Tests.{if◌then◌else◌}
use auto_mock_tools.Prelude.Texts.{Bytes, equal, equal_iff}

abbrev pub Assoc {ℓ} : Type ℓ → Type ℓ
Assoc V = List (Bytes × V)

module _ {ℓ} {V : Type ℓ} where
  -- `v, ok := m[k]`
  unfoldable pub lookup : Bytes → Assoc V → Option V
  lookup k [] = none
  lookup k ((j, v) ∷ m) = if equal j k then some v else lookup k m

  -- `m[k] = v`
  unfoldable pub insert : Bytes → V → Assoc V → Assoc V
  insert k v [] = (k, v) ∷ []
  insert k v ((j, w) ∷ m) = if equal j k then (k, v) ∷ m else (j, w) ∷ insert k v m

  pub lookup-insert :
      (k j : Bytes) (v : V) (m : Assoc V)
      → lookup j (insert k v m) ≡ (if equal k j then some v else lookup j m)
  unfolding lookup insert
  lookup-insert k j v [] = refl
  lookup-insert k j v ((i, w) ∷ m) =
      ground (arith, equal_iff k j, equal_iff i k, equal_iff i j, lookup-insert k j v m)

  pub lookup_nil : (k : Bytes) → lookup k [] ≡ none
  unfolding lookup
  lookup_nil k = refl

  abbrev pub NodupKeys : Assoc V → Type ℓ
  NodupKeys [] = Unit
  NodupKeys ((k, _) ∷ m) = (lookup k m ≡ none) × NodupKeys m

  pub insert-NodupKeys : (k : Bytes) (v : V) (m : Assoc V) → NodupKeys m → NodupKeys (insert k v m)
  unfolding insert
  insert-NodupKeys k v [] h = (lookup_nil k, tt)
  insert-NodupKeys k v ((j, w) ∷ m) h =
      ground (arith, equal_iff j k, equal_iff k j, insert-NodupKeys k v m, lookup-insert k j v m)
