-- ===== src/Dict.antt =====
-- A Go map with string keys as an association list: `m[k]`, `m[k] = v`, `delete(m, k)`. Each key
-- stands once in a list that these build; the order stands for the order of a `range`, which Go
-- leaves open.
use lokifix.Prelude.{
  ◌≡◌, refl, ◌≢◌, Option, none, some, List, [], ◌∷◌, arith, if◌then◌else◌, Bytes, eq_bytes,
  eq_bytes_iff, eq_bytes_refl,
}

module _ {ℓ} {V : Type ℓ} where
  unfoldable pub lookup : Bytes → List (Bytes × V) → Option V
  lookup k [] = none
  lookup k ((j, v) ∷ m) = if eq_bytes j k then some v else lookup k m

  unfoldable pub remove : Bytes → List (Bytes × V) → List (Bytes × V)
  remove k [] = []
  remove k ((j, v) ∷ m) = if eq_bytes j k then remove k m else (j, v) ∷ remove k m

  unfoldable pub insert : Bytes → V → List (Bytes × V) → List (Bytes × V)
  unfolding remove
  insert k v m = (k, v) ∷ remove k m

  pub lookup-remove_self : (k : Bytes) (m : List (Bytes × V)) → lookup k (remove k m) ≡ none
  unfolding lookup remove
  lookup-remove_self k [] = refl
  lookup-remove_self k ((j, v) ∷ m) = ground (arith, lookup-remove_self k m)

  pub lookup-remove_ne :
      (k j : Bytes) (m : List (Bytes × V)) → k ≢ j → lookup j (remove k m) ≡ lookup j m
  unfolding lookup remove
  lookup-remove_ne k j [] h = refl
  lookup-remove_ne k j ((i, v) ∷ m) h =
      ground (arith, lookup-remove_ne k j m h, eq_bytes_iff i k, eq_bytes_iff i j)

  pub lookup-insert_self :
      (k : Bytes) (v : V) (m : List (Bytes × V)) → lookup k (insert k v m) ≡ some v
  unfolding lookup insert
  lookup-insert_self k v m = rw eq_bytes_refl

  pub lookup-insert_ne :
      (k j : Bytes) (v : V) (m : List (Bytes × V)) → k ≢ j → lookup j (insert k v m) ≡ lookup j m
  unfolding lookup insert
  lookup-insert_ne k j v m h = ground (arith, eq_bytes_iff k j, lookup-remove_ne k j m h)
