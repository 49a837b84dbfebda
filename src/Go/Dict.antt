-- ===== src/Go/Dict.antt =====
-- A Go map with string keys, as an association list: `m[k] = v` writes in place or at the end.
use ollama_exporter.Base.{
  if◌then◌else◌, Bool-cases, Bytes, equal, equal_iff, ◌≡◌, refl, ap, inl, inr, Bool, Option, none,
  some, List, [], ◌∷◌, arith,
}

module _ {ℓ} {V : Type ℓ} where
  unfoldable pub lookup : Bytes → List (Bytes × V) → Option V
  lookup k [] = none
  lookup k ((j, v) ∷ m) = if equal j k then some v else lookup k m

  unfoldable pub insert : Bytes → V → List (Bytes × V) → List (Bytes × V)
  insert k v [] = (k, v) ∷ []
  insert k v ((j, w) ∷ m) = if equal j k then (k, v) ∷ m else (j, w) ∷ insert k v m

  -- `delete(m, k)` for every key that a test does not let stay.
  unfoldable pub retain : (Bytes → Bool) → List (Bytes × V) → List (Bytes × V)
  retain p [] = []
  retain p ((j, w) ∷ m) = if p j then (j, w) ∷ retain p m else retain p m

  pub lookup-insert :
      (k j : Bytes) (v : V) (m : List (Bytes × V))
      → lookup j (insert k v m) ≡ (if equal k j then some v else lookup j m)
  unfolding lookup insert
  lookup-insert k j v [] = refl
  lookup-insert k j v ((i, w) ∷ m) =
      ground (arith, equal_iff k j, equal_iff i k, equal_iff i j, lookup-insert k j v m)

  pub lookup-retain :
      (p : Bytes → Bool) (j : Bytes) (m : List (Bytes × V))
      → lookup j (retain p m) ≡ (if p j then lookup j m else none)
  unfolding lookup retain
  lookup-retain p j [] = ground arith
  lookup-retain p j ((i, w) ∷ m) = elim (Bool-cases (equal i j)) [
    | inl e ↦ ground (arith, ap p ((equal_iff i j).0 e), lookup-retain p j m)
    | inr e ↦ ground (arith, lookup-retain p j m)
  ]
