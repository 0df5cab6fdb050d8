-- ===== src/Prelude/Assoc.antt =====
-- `std::map` as an association list: insertion overwrites, the first entry of a key is read.
use mathlib.Core.Path.{◌≡◌, refl}
use mathlib.Core.List.{List, [], ◌∷◌}
use mathlib.Core.Option.{Option, none, some}
use native.Mathlib.Omega.{arith}
use apptraverse.Prelude.Tests.{if◌then◌else◌}
use apptraverse.Prelude.Keys.{Eq, ◌==◌, ==_refl}

module _ {ℓ κ} {K : Type ℓ} {V : Type κ} ⦃e : Eq K⦄ where
  unfoldable pub lookup : K → List (K × V) → Option V
  lookup k [] = none
  lookup k ((j, v) ∷ m) = if j == k then some v else lookup k m

  unfoldable pub insert : K → V → List (K × V) → List (K × V)
  insert key value [] = (key, value) ∷ []
  insert key value ((other, old) ∷ rest) =
      let inserted = insert key value rest in
      if other == key then (key, value) ∷ rest else (other, old) ∷ inserted

  unfoldable pub erase : K → List (K × V) → List (K × V)
  erase k [] = []
  erase k ((j, w) ∷ m) = if j == k then erase k m else (j, w) ∷ erase k m

  pub lookup-insert :
      (k j : K) (v : V) (entries : List (K × V))
      → lookup j (insert k v entries) ≡ (if k == j then some v else lookup j entries)
  unfolding insert lookup
  lookup-insert k j v [] = refl
  lookup-insert k j v ((i, old) ∷ rest) =
      ground (arith, lookup-insert k j v rest, e.beq_iff k j, e.beq_iff i k, e.beq_iff i j)

  pub lookup-erase :
      (k j : K) (m : List (K × V)) → lookup j (erase k m) ≡ (if k == j then none else lookup j m)
  unfolding lookup erase
  lookup-erase k j [] = ground arith
  lookup-erase k j ((i, w) ∷ m) =
      ground (arith, e.beq_iff k j, e.beq_iff i k, e.beq_iff i j, lookup-erase k j m)

  pub lookup-insert_self : (k : K) (v : V) (m : List (K × V)) → lookup k (insert k v m) ≡ some v
  lookup-insert_self k v m = ground (arith, lookup-insert k k v m, ==_refl k)
