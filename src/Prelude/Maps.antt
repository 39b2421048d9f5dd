-- ===== src/Prelude/Maps.antt =====
-- Go maps with string keys, as association lists whose order is the order in which `range` happens
-- to visit them. Every theorem is for any such list, so for every iteration order.
use Prim.Native.Nat.{ℕ, ◌+◌, ◌≤◌, ◌<◌}
use Prim.Native.String.{String}
use mathlib.Core.Path.{◌≡◌, refl}
use mathlib.Core.Logic.{◌≢◌}
use mathlib.Core.Bool.{Bool}
use mathlib.Core.Option.{Option, none, some}
use mathlib.Core.List.{List, [], ◌∷◌}
use native.Mathlib.Omega.{arith}
use text.Mathlib.TextEquality.{eq_iff}
use chiral.Prelude.Tests.{if◌then◌else◌, str_eq}
use chiral.Prelude.Lists.{length}

abbrev pub Map {ℓ} : Type ℓ → Type ℓ
Map V = List (String × V)

module _ {ℓ} {V : Type ℓ} where
  -- `v, ok := m[k]`
  abbrev pub lookup : String → Map V → Option V
  lookup k [] = none
  lookup k ((j, v) ∷ m) = if str_eq j k then some v else lookup k m

  -- `m[k] = v`
  abbrev pub insert : String → V → Map V → Map V
  insert k v [] = (k, v) ∷ []
  insert k v ((j, w) ∷ m) = if str_eq j k then (k, v) ∷ m else (j, w) ∷ insert k v m

  -- `for k, v := range m { if !p(k, v) { delete(m, k) } }`
  abbrev pub retain : (String → V → Bool) → Map V → Map V
  retain p [] = []
  retain p ((j, w) ∷ m) = if p j w then (j, w) ∷ retain p m else retain p m

  -- `delete(m, k)`
  abbrev pub delete : String → Map V → Map V
  delete k [] = []
  delete k ((j, w) ∷ m) = if str_eq j k then delete k m else (j, w) ∷ delete k m

  -- `len(m)`
  abbrev pub size : Map V → ℕ
  size = length

  -- Each key stands once.
  abbrev pub IsMap : Map V → Type ℓ
  IsMap [] = Unit
  IsMap ((j, w) ∷ m) = (lookup j m ≡ none) × IsMap m

  pub lookup-insert :
      (j k : String) (v : V) (m : Map V)
      → lookup j (insert k v m) ≡ (if str_eq k j then some v else lookup j m)
  lookup-insert j k v [] = refl
  lookup-insert j k v ((i, w) ∷ m) =
      ground (arith, eq_iff k j, eq_iff i k, eq_iff i j, lookup-insert j k v m)

  pub lookup-insert_self : (k : String) (v : V) (m : Map V) → lookup k (insert k v m) ≡ some v
  lookup-insert_self k v m = ground (arith, lookup-insert k k v m, eq_iff k k)

  pub lookup-insert_ne :
      (j k : String) (v : V) (m : Map V) → k ≢ j → lookup j (insert k v m) ≡ lookup j m
  lookup-insert_ne j k v m h = ground (arith, lookup-insert j k v m, eq_iff k j)

  pub lookup-delete :
      (j k : String) (m : Map V) → lookup j (delete k m) ≡ (if str_eq k j then none else lookup j m)
  lookup-delete j k [] = ground arith
  lookup-delete j k ((i, w) ∷ m) =
      ground (arith, eq_iff k j, eq_iff i k, eq_iff i j, lookup-delete j k m)

  -- A key that is absent stays absent.
  pub lookup-retain-none :
      (j : String) (p : String → V → Bool) (m : Map V)
      → lookup j m ≡ none
      → lookup j (retain p m) ≡ none
  lookup-retain-none j p [] h = refl
  lookup-retain-none j p ((i, w) ∷ m) h = ground (arith, lookup-retain-none j p m)

  -- What a retained map holds at a key.
  abbrev pub keep_if : (V → Bool) → Option V → Option V
  keep_if p none = none
  keep_if p (some v) = if p v then some v else none

  pub lookup-retain :
      (j : String) (p : String → V → Bool) (m : Map V)
      → IsMap m
      → lookup j (retain p m) ≡ keep_if (p j) (lookup j m)
  lookup-retain j p [] h = refl
  lookup-retain j p ((i, w) ∷ m) h =
      ground (arith, eq_iff i j, lookup-retain j p m, lookup-retain-none j p m)

  pub insert-IsMap : (k : String) (v : V) (m : Map V) → IsMap m → IsMap (insert k v m)
  insert-IsMap k v [] h = (refl, tt)
  insert-IsMap k v ((j, w) ∷ m) h =
      ground (arith, eq_iff j k, eq_iff k j, insert-IsMap k v m, lookup-insert j k v m)

  pub retain-IsMap : (p : String → V → Bool) (m : Map V) → IsMap m → IsMap (retain p m)
  retain-IsMap p [] h = tt
  retain-IsMap p ((j, w) ∷ m) h = ground (arith, retain-IsMap p m, lookup-retain-none j p m)

  pub delete-IsMap : (k : String) (m : Map V) → IsMap m → IsMap (delete k m)
  delete-IsMap k [] h = tt
  delete-IsMap k ((j, w) ∷ m) h =
      ground (arith, delete-IsMap k m, lookup-delete j k m, eq_iff j k, eq_iff k j)

  pub size-insert : (k : String) (v : V) (m : Map V) → size (insert k v m) ≤ size m + 1
  size-insert k v [] = omega arith
  size-insert k v ((j, w) ∷ m) = ground (arith, size-insert k v m)

  pub size-insert_old :
      (k : String) (v : V) (m : Map V) → lookup k m ≢ none → size (insert k v m) ≡ size m
  size-insert_old k v [] h = absurd (h refl)
  size-insert_old k v ((j, w) ∷ m) h = ground (arith, size-insert_old k v m)

  pub size-retain : (p : String → V → Bool) (m : Map V) → size (retain p m) ≤ size m
  size-retain p [] = omega arith
  size-retain p ((j, w) ∷ m) = ground (arith, size-retain p m)

  pub size-delete : (k : String) (m : Map V) → size (delete k m) ≤ size m
  size-delete k [] = omega arith
  size-delete k ((j, w) ∷ m) = ground (arith, size-delete k m)

  -- Deleting a key that is there makes the map smaller.
  pub size-delete_old : (k : String) (m : Map V) → lookup k m ≢ none → size (delete k m) < size m
  size-delete_old k [] h = absurd (h refl)
  size-delete_old k ((j, w) ∷ m) h = ground (arith, size-delete_old k m, size-delete k m)

  pub lookup-cons_self : (k : String) (v : V) (m : Map V) → lookup k ((k, v) ∷ m) ≡ some v
  lookup-cons_self k v m = ground (arith, eq_iff k k)

  -- What is in the rest of a map is in the map.
  pub lookup-cons_tail :
      (k j : String) (v : V) (m : Map V) → lookup k m ≢ none → lookup k ((j, v) ∷ m) ≢ none
  lookup-cons_tail k j v m h = ground arith
