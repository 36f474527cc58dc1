-- ===== src/Base/Maps.antt =====
-- Go maps with string keys. One that the code never ranges over is a function; one that it ranges
-- over is a list of entries, whose order stands for the order in which the range visits them.
use mathlib.Core.Path.{◌≡◌, refl}
use mathlib.Core.Logic.{ite}
use mathlib.Core.List.{List, [], ◌∷◌}
use mathlib.Core.Option.{Option, none, some}
use native.Mathlib.Omega.{arith}
use mycorrhizal.Base.Bytes.{Bytes, Bytes-discrete}

abbrev pub Map {ℓ} : Type ℓ → Type ℓ
Map V = Bytes → Option V

module _ {ℓ} {V : Type ℓ} where
  abbrev pub empty : Map V
  empty k = none

  -- `m[k] = v`
  abbrev pub insert : Bytes → V → Map V → Map V
  insert k v m j = ite (Bytes-discrete k j) (some v) (m j)

  -- `delete(m, k)`
  abbrev pub remove : Bytes → Map V → Map V
  remove k m j = ite (Bytes-discrete k j) none (m j)

module _ {ℓ} {V : Type ℓ} where
  abbrev pub lookup : Bytes → List (Bytes × V) → Option V
  lookup k [] = none
  lookup k ((j, v) ∷ m) = ite (Bytes-discrete j k) (some v) (lookup k m)

  -- `m[k] = v` on a list of entries
  unfoldable pub put : Bytes → V → List (Bytes × V) → List (Bytes × V)
  put k v [] = (k, v) ∷ []
  put k v ((j, w) ∷ m) = ite (Bytes-discrete j k) ((k, v) ∷ m) ((j, w) ∷ put k v m)

  -- `delete(m, k)` on a list of entries
  pub del : Bytes → List (Bytes × V) → List (Bytes × V)
  del k [] = []
  del k ((j, w) ∷ m) = ite (Bytes-discrete j k) (del k m) ((j, w) ∷ del k m)

  pub lookup-put :
      (k j : Bytes) (v : V) (m : List (Bytes × V))
      → lookup j (put k v m) ≡ ite (Bytes-discrete k j) (some v) (lookup j m)
  unfolding put
  lookup-put k j v [] = refl
  lookup-put k j v ((i, w) ∷ m) = ground (arith, lookup-put k j v m)

  pub lookup-del :
      (k j : Bytes) (m : List (Bytes × V))
      → lookup j (del k m) ≡ ite (Bytes-discrete k j) none (lookup j m)
  unfolding del
  lookup-del k j [] = ground arith
  lookup-del k j ((i, w) ∷ m) = ground (arith, lookup-del k j m)

  pub lookup-del_self : (k : Bytes) (m : List (Bytes × V)) → lookup k (del k m) ≡ none
  lookup-del_self k m = ground (arith, lookup-del k k m)

  pub lookup-put_self : (k : Bytes) (v : V) (m : List (Bytes × V)) → lookup k (put k v m) ≡ some v
  lookup-put_self k v m = ground (arith, lookup-put k k v m)
