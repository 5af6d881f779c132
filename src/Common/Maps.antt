-- ===== src/Common/Maps.antt =====
-- Go's `map[K]V` as an association list under the library's `lookup`. The order of a `range` over
-- a map is the list's.
use mathlib.Core.Path.{◌≡◌, refl}
use mathlib.Core.Logic.{ite, if_pos, if_neg, ◌≢◌}
use mathlib.Core.List.{List, [], ◌∷◌, lookup}
use mathlib.Core.Option.{none, some}
use native.Mathlib.Omega.{arith}

abbrev pub GoMap {ℓ κ} : Type ℓ → Type κ → Type (ℓ ⊔ κ)
GoMap K V = List (K × V)

module _ {ℓ} {K V : Type ℓ} (dec : Discrete K) where
  -- `delete(m, k)`
  unfoldable pub delete : K → GoMap K V → GoMap K V
  delete k [] = []
  delete k (e ∷ m) = let rest = delete k m in ite (dec k e.0) rest (e ∷ rest)

  -- `m[k] = v`
  unfoldable pub insert : K → V → GoMap K V → GoMap K V
  insert k v m = (k, v) ∷ delete k m

  pub lookup-delete :
      (j k : K) (m : GoMap K V) → lookup dec j (delete k m) ≡ ite (dec j k) none (lookup dec j m)
  unfolding lookup delete
  lookup-delete j k [] = ground arith
  lookup-delete j k (e ∷ m) = ground (arith, lookup-delete j k m)

  pub lookup-insert :
      (j k : K) (v : V) (m : GoMap K V)
      → lookup dec j (insert k v m) ≡ ite (dec j k) (some v) (lookup dec j m)
  unfolding lookup insert
  lookup-insert j k v m = ground (arith, lookup-delete j k m)

  pub lookup-insert_self :
      (j k : K) (v : V) (m : GoMap K V) → j ≡ k → lookup dec j (insert k v m) ≡ some v
  lookup-insert_self j k v m e = ground (arith, lookup-insert j k v m, e)

  pub lookup-insert_ne :
      (j k : K) (v : V) (m : GoMap K V) → j ≢ k → lookup dec j (insert k v m) ≡ lookup dec j m
  lookup-insert_ne j k v m n = ground (arith, lookup-insert j k v m, n)

  pub lookup-delete_self : (j k : K) (m : GoMap K V) → j ≡ k → lookup dec j (delete k m) ≡ none
  lookup-delete_self j k m e = ground (arith, lookup-delete j k m, e)

  pub lookup-delete_ne :
      (j k : K) (m : GoMap K V) → j ≢ k → lookup dec j (delete k m) ≡ lookup dec j m
  lookup-delete_ne j k m n = ground (arith, lookup-delete j k m, n)

  -- No key stands twice.
  abbrev pub KeysDistinct : GoMap K V → Type ℓ
  KeysDistinct [] = Unit
  KeysDistinct (e ∷ m) = (lookup dec e.0 m ≡ none) × KeysDistinct m

  pub delete-KeysDistinct : (k : K) (m : GoMap K V) → KeysDistinct m → KeysDistinct (delete k m)
  unfolding delete
  delete-KeysDistinct k [] h = h
  delete-KeysDistinct k (e ∷ m) h = elim (dec k e.0) [
    | yes p ↦ rw (if_pos (dec k e.0) p) (delete-KeysDistinct k m h.1)
    | no n ↦
        rw (if_neg (dec k e.0) n)
          (ground (arith, lookup-delete e.0 k m, h.0), delete-KeysDistinct k m h.1)
  ]

  pub insert-KeysDistinct :
      (k : K) (v : V) (m : GoMap K V) → KeysDistinct m → KeysDistinct (insert k v m)
  unfolding insert
  insert-KeysDistinct k v m h = (lookup-delete_self k k m refl, delete-KeysDistinct k m h)
