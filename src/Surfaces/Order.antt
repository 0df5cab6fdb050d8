-- ===== src/Surfaces/Order.antt =====
-- The order of the desktop windows that `SetDesktopZOrderFromObjIds` makes of the ids it is given.
use apptraverse.Prelude.{
  ℕ, ◌≡◌, refl, sym, ap, ◌∙◌, subst, inl, inr, Bool, true, false, ◌&&◌, not, List, [], ◌∷◌, ◌++◌,
  arith, append_assoc, append-nil, if◌then◌else◌, if_true, if_false, Bool-cases, contains,
  contains-append, ==_refl, nat_eq, IsDistinct,
}
use apptraverse.Surfaces.{resolve, append_missing, desktop_order}

-- The elements of the first list stand in the second one, in the same order.
pub data Sublist : List ℕ → List ℕ → Type 0 where
  nothing : Sublist [] []
  keep : {xs ys : List ℕ} (x : ℕ) → Sublist xs ys → Sublist (x ∷ xs) (x ∷ ys)
  skip : {xs ys : List ℕ} (y : ℕ) → Sublist xs ys → Sublist xs (y ∷ ys)

-- Those of the second list that are not in the first.
unfoldable pub outside : List ℕ → List ℕ → List ℕ
outside known [] = []
outside known (x ∷ xs) = let rest = outside known xs in if contains known x then rest else x ∷ rest

outside-Sublist : (known xs : List ℕ) → Sublist (outside known xs) xs
unfolding outside
outside-Sublist known [] = nothing
outside-Sublist known (x ∷ xs) = elim (Bool-cases (contains known x)) [
  | inl there ↦
      subst (λ ys. Sublist ys (x ∷ xs)) (sym (if_true _ _ there))
        (skip x (outside-Sublist known xs))
  | inr new ↦
      subst (λ ys. Sublist ys (x ∷ xs)) (sym (if_false _ _ new)) (keep x (outside-Sublist known xs))
]

contains-outside :
    (known xs : List ℕ) (q : ℕ)
    → contains (outside known xs) q ≡ (contains xs q && not (contains known q))
unfolding outside contains
contains-outside known [] q = refl
contains-outside known (x ∷ xs) q = ground (arith, contains-outside known xs q, nat_eq.beq_iff x q)

outside-snoc :
    (known : List ℕ) (x : ℕ) (xs : List ℕ)
    → contains xs x ≡ false
    → outside (known ++ x ∷ []) xs ≡ outside known xs
unfolding outside contains
outside-snoc known x [] h = refl
outside-snoc known x (y ∷ ys) h = ground (
  arith,
  h,
  outside-snoc known x ys,
  contains-append known (x ∷ []) y,
  nat_eq.beq_iff x y,
  nat_eq.beq_iff y x,
)

append_missing_lem :
    (resolved live : List ℕ)
    → IsDistinct live
    → append_missing resolved live ≡ resolved ++ outside resolved live
unfolding append_missing outside
append_missing_lem resolved [] d = sym (append-nil resolved)
append_missing_lem resolved (x ∷ live) (apart, d) = elim (Bool-cases (contains resolved x)) [
  | inl there ↦ ground (arith, there, append_missing_lem resolved live d)
  | inr new ↦ ground (
    arith,
    new,
    append_missing_lem (resolved ++ x ∷ []) live d,
    outside-snoc resolved x live apart,
    append_assoc resolved (x ∷ []) (outside resolved live),
  )
]

contains-resolve :
    (live seen ids : List ℕ) (q : ℕ)
    → contains (resolve live seen ids) q
      ≡ (contains live q && contains ids q && not (contains seen q))
unfolding resolve contains
contains-resolve live seen [] q = ground arith
contains-resolve live seen (id ∷ ids) q = elim (Bool-cases (contains seen id)) [
  | inl old ↦ ground (arith, old, contains-resolve live seen ids q, nat_eq.beq_iff id q)
  | inr new ↦ ground (arith, new, contains-resolve live (id ∷ seen) ids q, nat_eq.beq_iff id q)
]

resolve-IsDistinct : (live seen ids : List ℕ) → IsDistinct (resolve live seen ids)
unfolding resolve contains
resolve-IsDistinct live seen [] = tt
resolve-IsDistinct live seen (id ∷ ids) = elim (Bool-cases (contains seen id)) [
  | inl old ↦ ground (arith, old, resolve-IsDistinct live seen ids)
  | inr new ↦ ground (
    arith,
    new,
    resolve-IsDistinct live (id ∷ seen) ids,
    contains-resolve live (id ∷ seen) ids id,
    ==_refl id,
  )
]

-- One round of the loop.
taken :
    (seen live : Bool) (id : ℕ) (rest ids : List ℕ)
    → Sublist rest ids
    → Sublist (if seen then rest else if live then id ∷ rest else rest) (id ∷ ids)
taken true live id rest ids h = skip id h
taken false true id rest ids h = keep id h
taken false false id rest ids h = skip id h

resolve-Sublist : (live seen ids : List ℕ) → Sublist (resolve live seen ids) ids
unfolding resolve
resolve-Sublist live seen [] = nothing
resolve-Sublist live seen (id ∷ ids) =
    let next = if contains seen id then seen else id ∷ seen in
    taken (contains seen id) (contains live id) id (resolve live next ids) ids
      (resolve-Sublist live next ids)

IsDistinct-append :
    (xs ys : List ℕ)
    → IsDistinct xs
    → IsDistinct ys
    → ((q : ℕ) → (contains xs q && contains ys q) ≡ false)
    → IsDistinct (xs ++ ys)
unfolding contains
IsDistinct-append [] ys d e h = e
IsDistinct-append (x ∷ xs) ys (apart, d) e h = (
  ground (arith, apart, h x, contains-append xs ys x, ==_refl x),
  IsDistinct-append xs ys d e (λ q. ground (arith, h q)),
)

outside-IsDistinct : (known xs : List ℕ) → IsDistinct xs → IsDistinct (outside known xs)
unfolding outside
outside-IsDistinct known [] d = tt
outside-IsDistinct known (x ∷ xs) (apart, d) =
    ground (arith, apart, outside-IsDistinct known xs d, contains-outside known xs x)

-- Where the live surfaces differ, the new order is a rearrangement of them: first those that are asked for,
-- once each and in the order asked, then the others in the order of the list.
pub desktop_order_lem :
    (live ids : List ℕ)
    → IsDistinct live
    → let order = desktop_order live ids in
      IsDistinct order
      × ((q : ℕ) → contains order q ≡ contains live q)
      × ((front : List ℕ) × (back : List ℕ) × (order ≡ front ++ back)
          × Sublist front ids
          × Sublist back live
          × ((q : ℕ) → contains front q ≡ (contains live q && contains ids q))
          × ((q : ℕ) → contains back q ≡ (contains live q && not (contains ids q))))
unfolding desktop_order contains
desktop_order_lem live ids distinct =
    let front = resolve live [] ids in
    let back = outside front live in
    let at : desktop_order live ids ≡ front ++ back = append_missing_lem front live distinct in
    let asked : (q : ℕ) → contains front q ≡ (contains live q && contains ids q) =
      λ q. ground (arith, contains-resolve live [] ids q) in
    let others : (q : ℕ) → contains back q ≡ (contains live q && not (contains ids q)) =
      λ q. ground (arith, contains-outside front live q, contains-resolve live [] ids q) in
    (
      subst (λ (xs : List ℕ). IsDistinct xs) (sym at)
          (IsDistinct-append front back (resolve-IsDistinct live [] ids)
            (outside-IsDistinct front live distinct) (λ q. ground (arith, asked q, others q))),
      (λ q.
          ap (λ (xs : List ℕ). contains xs q) at
          ∙ ground (arith, contains-append front back q, asked q, others q)),
      (front, back, at, resolve-Sublist live [] ids, outside-Sublist front live, asked, others),
    )
