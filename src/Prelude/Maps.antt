-- ===== src/Prelude/Maps.antt =====
-- A map with numbers for keys, as an association list: the maps and the `sync.Map`s of the
-- sources. The order of the list is the order in which `Range` visits.
use t.Prelude.Tests.{◌==◌, if◌then◌else◌}
use t.Prelude.Lists.{length}
use Prim.Native.Nat.{ℕ, ◌+◌}
use mathlib.Core.Path.{◌≡◌, refl}
use mathlib.Core.Option.{Option, none, some}
use mathlib.Core.List.{List, [], ◌∷◌}
use native.Mathlib.Omega.{arith}

abbrev pub Map {ℓ} : Type ℓ → Type ℓ
Map V = List (ℕ × V)

module _ {ℓ} {V : Type ℓ} where
  unfoldable pub lookup : ℕ → Map V → Option V
  lookup key [] = none
  lookup key ((k, held) ∷ rest) = if k == key then some held else lookup key rest

  unfoldable pub insert : ℕ → V → Map V → Map V
  insert key new [] = (key, new) ∷ []
  insert key new ((k, held) ∷ rest) =
      if k == key then (key, new) ∷ rest else (k, held) ∷ insert key new rest

  unfoldable pub delete : ℕ → Map V → Map V
  delete k [] = []
  delete k ((j, v) ∷ m) = let rest = delete k m in if j == k then rest else (j, v) ∷ rest

  unfoldable pub keys : Map V → List ℕ
  keys [] = []
  keys ((k, v) ∷ m) = k ∷ keys m

  -- No key stands twice.
  abbrev pub HasDistinctKeys : Map V → Type ℓ
  HasDistinctKeys [] = Unit
  HasDistinctKeys ((k, v) ∷ m) = (lookup k m ≡ none) × HasDistinctKeys m

module _ {ℓ} {V : Type ℓ} where
  pub lookup-insert :
      (set asked : ℕ) (new : V) (before : Map V)
      → lookup asked (insert set new before)
        ≡ (if set == asked then some new else lookup asked before)
  unfolding lookup insert
  lookup-insert set asked new [] = refl
  lookup-insert set asked new ((k, held) ∷ rest) = ground (arith, lookup-insert set asked new rest)

  pub lookup-delete :
      (k j : ℕ) (m : Map V) → lookup j (delete k m) ≡ (if k == j then none else lookup j m)
  unfolding lookup delete
  lookup-delete k j [] = ground arith
  lookup-delete k j ((i, w) ∷ m) = ground (arith, lookup-delete k j m)

  pub length-insert_new :
      (k : ℕ) (v : V) (m : Map V) → lookup k m ≡ none → length (insert k v m) ≡ length m + 1
  unfolding lookup insert
  length-insert_new k v [] h = omega arith
  length-insert_new k v ((i, w) ∷ m) h = ground (arith, length-insert_new k v m)

  pub length-insert_old :
      (k : ℕ) (v w : V) (m : Map V) → lookup k m ≡ some w → length (insert k v m) ≡ length m
  unfolding lookup insert
  length-insert_old k v w [] h = ground arith
  length-insert_old k v w ((i, u) ∷ m) h = ground (arith, length-insert_old k v w m)

  delete_of_none : (k : ℕ) (m : Map V) → lookup k m ≡ none → delete k m ≡ m
  unfolding lookup delete
  delete_of_none k [] h = refl
  delete_of_none k ((i, u) ∷ m) h = ground (arith, delete_of_none k m)

  pub length-delete :
      (k : ℕ) (v : V) (m : Map V)
      → HasDistinctKeys m
      → lookup k m ≡ some v
      → length (delete k m) + 1 ≡ length m
  unfolding lookup delete
  length-delete k v [] d h = ground arith
  length-delete k v ((i, u) ∷ m) d h = ground (arith, length-delete k v m, delete_of_none k m)

  pub insert-HasDistinctKeys :
      (k : ℕ) (v : V) (m : Map V) → HasDistinctKeys m → HasDistinctKeys (insert k v m)
  unfolding lookup insert
  insert-HasDistinctKeys k v [] d = (refl, tt)
  insert-HasDistinctKeys k v ((i, u) ∷ m) d =
      ground (arith, insert-HasDistinctKeys k v m, lookup-insert k i v m)

  pub delete-HasDistinctKeys :
      (k : ℕ) (m : Map V) → HasDistinctKeys m → HasDistinctKeys (delete k m)
  unfolding lookup delete
  delete-HasDistinctKeys k [] d = tt
  delete-HasDistinctKeys k ((i, u) ∷ m) d =
      ground (arith, delete-HasDistinctKeys k m, lookup-delete k i m)

  pub length-keys : (m : Map V) → length (keys m) ≡ length m
  unfolding keys
  length-keys [] = refl
  length-keys ((k, v) ∷ m) = omega (arith, length-keys m)
