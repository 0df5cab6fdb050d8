-- ===== src/Prelude/Distinct.antt =====
-- Lists without a repeated element, and the first position at which a test holds.
use Prim.Native.Nat.{ℕ, suc}
use mathlib.Core.Path.{◌≡◌, refl}
use mathlib.Core.Bool.{Bool, true, false, ◌||◌}
use mathlib.Core.Option.{Option, none, some}
use mathlib.Core.List.{List, [], ◌∷◌, ◌++◌}
use native.Mathlib.Omega.{arith}
use mathlib.Core.Path.{◌∙◌}
use mathlib.Core.Logic.{inl, inr}
use apptraverse.Prelude.Tests.{if◌then◌else◌, ltb, Bool-cases, if_true, if_false}
use apptraverse.Prelude.Lists.{length, erase_at, get_elem?}
use apptraverse.Prelude.Keys.{Eq, contains, contains-append}

module _ {ℓ} {A : Type ℓ} ⦃e : Eq A⦄ where
  abbrev pub IsDistinct : List A → Type ℓ
  IsDistinct [] = Unit
  IsDistinct (x ∷ xs) = (contains xs x ≡ false) × IsDistinct xs

  pub IsDistinct-snoc :
      (xs : List A) (x : A) → contains xs x ≡ false → IsDistinct xs → IsDistinct (xs ++ x ∷ [])
  unfolding contains
  IsDistinct-snoc [] x h d = (refl, tt)
  IsDistinct-snoc (y ∷ ys) x h d =
      ground
        (arith, IsDistinct-snoc ys x, contains-append ys (x ∷ []) y, e.beq_iff x y, e.beq_iff y x)

module _ {ℓ} {A : Type ℓ} (p : A → Bool) where
  unfoldable pub any : List A → Bool
  any [] = false
  any (x ∷ xs) = p x || any xs

  -- The length of the list where the test holds nowhere.
  unfoldable pub index_of : List A → ℕ
  index_of [] = 0
  index_of (x ∷ xs) = let next = suc (index_of xs) in if p x then 0 else next

  unfoldable pub first : List A → Option A
  first [] = none
  first (x ∷ xs) = let next = first xs in if p x then some x else next

  pub index_of-lt : (xs : List A) → ltb (index_of xs) (length xs) ≡ any xs
  unfolding any index_of
  index_of-lt [] = refl
  index_of-lt (x ∷ xs) = ground (arith, index_of-lt xs)

  pub index_of-end : (xs : List A) → any xs ≡ false → index_of xs ≡ length xs
  unfolding any index_of
  index_of-end [] h = refl
  index_of-end (x ∷ xs) h = ground (arith, index_of-end xs)

  pub any-append : (xs ys : List A) → any (xs ++ ys) ≡ (any xs || any ys)
  unfolding any
  any-append [] ys = refl
  any-append (x ∷ xs) ys = ground (arith, any-append xs ys)

  pub first-append : (xs ys : List A) (a : A) → first xs ≡ some a → first (xs ++ ys) ≡ some a
  unfolding first
  first-append [] ys a h = absurd (ground arith)
  first-append (x ∷ xs) ys a h = ground (arith, first-append xs ys a)

module _ {ℓ} {A : Type ℓ} (p : A → Bool) where
  pub first-none : (xs : List A) → any p xs ≡ false → first p xs ≡ none
  unfolding any first
  first-none [] h = refl
  first-none (x ∷ xs) h = ground (arith, first-none xs)

  pub first-append_right : (xs ys : List A) → any p xs ≡ false → first p (xs ++ ys) ≡ first p ys
  unfolding any first
  first-append_right [] ys h = refl
  first-append_right (x ∷ xs) ys h = ground (arith, first-append_right xs ys)

  pub first-some : (xs : List A) → any p xs ≡ true → (a : A) × (first p xs ≡ some a) × (p a ≡ true)
  unfolding any first
  first-some [] h = absurd (ground arith)
  first-some (x ∷ xs) h = elim (Bool-cases (p x)) [
    | inl holds ↦ (x, if_true _ _ holds, holds)
    | inr fails ↦
        let (a, at, holds) = first-some xs (ground arith) in (a, if_false _ _ fails ∙ at, holds)
  ]

  pub get_elem?-index_of : (xs : List A) → get_elem? xs (index_of p xs) ≡ first p xs
  unfolding index_of first
  get_elem?-index_of [] = refl
  get_elem?-index_of (x ∷ xs) = ground (arith, get_elem?-index_of xs)

-- Erasing the first element of one kind leaves the first element of another.
module _ {ℓ} {A : Type ℓ} (p q : A → Bool) where
  pub first-erase :
      (xs : List A)
      → ((x : A) → p x ≡ true → q x ≡ false)
      → first q (erase_at xs (index_of p xs)) ≡ first q xs
  unfolding first index_of
  first-erase [] apart = refl
  first-erase (x ∷ xs) apart = ground (arith, first-erase xs apart, apart x)

  pub any-erase :
      (xs : List A)
      → ((x : A) → p x ≡ true → q x ≡ false)
      → any q (erase_at xs (index_of p xs)) ≡ any q xs
  unfolding any index_of
  any-erase [] apart = refl
  any-erase (x ∷ xs) apart = ground (arith, any-erase xs apart, apart x)
