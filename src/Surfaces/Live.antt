-- ===== src/Surfaces/Live.antt =====
-- What every method of the surfaces keeps: the live list, the current page, the z-order and the numbers.
use apptraverse.Prelude.{
  ℕ, ◌≡◌, refl, sym, subst, true, false, ◌&&◌, not, List, [], ◌∷◌, arith, contains, contains-append,
  ◌==◌, nat_eq, IsDistinct, IsDistinct-snoc,
}
use apptraverse.Journal.Commit.{}
use apptraverse.Surfaces.{
  Surfaces, add_surface_event, remove_surface_event, set_current_surface_event,
  set_desktop_z_order_event, erase_first, remove_all, is_current, apply, desktop_order,
}
use apptraverse.Surfaces.Order.{desktop_order_lem}

-- The live surfaces differ, and the z-order and the current page name live surfaces, each once.
pub record IsOrderly (s : Surfaces) : Type 0 where
  pub distinct : IsDistinct s.surfaces
  pub ordered : IsDistinct s.desktop_z_order
  pub known : (q : ℕ) → (contains s.desktop_z_order q && not (contains s.surfaces q)) ≡ false
  pub current : (q : ℕ) → (is_current s.mobile_current q && not (contains s.surfaces q)) ≡ false

pub contains-remove_all :
    (id : ℕ) (xs : List ℕ) (q : ℕ)
    → contains (remove_all id xs) q ≡ (contains xs q && not (id == q))
unfolding remove_all contains
contains-remove_all id [] q = refl
contains-remove_all id (x ∷ xs) q = ground (
  arith,
  contains-remove_all id xs q,
  nat_eq.beq_iff x id,
  nat_eq.beq_iff x q,
  nat_eq.beq_iff id q,
)

remove_all-IsDistinct : (id : ℕ) (xs : List ℕ) → IsDistinct xs → IsDistinct (remove_all id xs)
unfolding remove_all
remove_all-IsDistinct id [] d = d
remove_all-IsDistinct id (x ∷ xs) (apart, d) =
    ground (arith, apart, remove_all-IsDistinct id xs d, contains-remove_all id xs x)

remove_all-absent : (id : ℕ) (xs : List ℕ) → contains xs id ≡ false → remove_all id xs ≡ xs
unfolding remove_all contains
remove_all-absent id [] h = refl
remove_all-absent id (x ∷ xs) h = ground (arith, h, remove_all-absent id xs)

-- Where the surfaces differ, erasing the first one of an id erases all.
pub erase_first-remove_all :
    (id : ℕ) (xs : List ℕ) → IsDistinct xs → erase_first id xs ≡ remove_all id xs
unfolding erase_first remove_all contains
erase_first-remove_all id [] d = refl
erase_first-remove_all id (x ∷ xs) (apart, d) =
    ground
      (arith, apart, erase_first-remove_all id xs d, remove_all-absent id xs, nat_eq.beq_iff x id)

pub add-IsOrderly :
    (id : ℕ) (s : Surfaces)
    → contains s.surfaces id ≡ false
    → IsOrderly s
    → IsOrderly (apply (add_surface_event id) s)
unfolding apply contains
add-IsOrderly id s new h = record {
  distinct = IsDistinct-snoc s.surfaces id new h.distinct;
  ordered = IsDistinct-snoc s.desktop_z_order id (ground (arith, new, h.known id)) h.ordered;
  known = λ q. ground (
    arith,
    h.known q,
    contains-append s.surfaces (id ∷ []) q,
    contains-append s.desktop_z_order (id ∷ []) q,
  );
  current = λ q. ground (arith, h.current q, contains-append s.surfaces (id ∷ []) q);
}

pub remove-IsOrderly :
    (id : ℕ) (s : Surfaces) → IsOrderly s → IsOrderly (apply (remove_surface_event id) s)
unfolding apply is_current
remove-IsOrderly id s h =
    let gone : erase_first id s.surfaces ≡ remove_all id s.surfaces =
      erase_first-remove_all id s.surfaces h.distinct in
    record {
      distinct =
          subst (λ (xs : List ℕ). IsDistinct xs) (sym gone)
            (remove_all-IsDistinct id s.surfaces h.distinct);
      ordered = remove_all-IsDistinct id s.desktop_z_order h.ordered;
      known = λ q. ground (
        arith,
        gone,
        h.known q,
        contains-remove_all id s.surfaces q,
        contains-remove_all id s.desktop_z_order q,
      );
      current = λ q.
          ground
            (arith, gone, h.current q, contains-remove_all id s.surfaces q, nat_eq.beq_iff id q);
    }

pub current-IsOrderly :
    (id : ℕ) (s : Surfaces)
    → contains s.surfaces id ≡ true
    → IsOrderly s
    → IsOrderly (apply (set_current_surface_event id) s)
unfolding apply is_current
current-IsOrderly id s there h = record {
  distinct = h.distinct;
  ordered = h.ordered;
  known = h.known;
  current = λ q. ground (arith, there, nat_eq.beq_iff id q);
}

pub order-IsOrderly :
    (ids : List ℕ) (s : Surfaces)
    → IsOrderly s
    → IsOrderly (apply (set_desktop_z_order_event (desktop_order s.surfaces ids)) s)
unfolding apply
order-IsOrderly ids s h =
    let (distinct, same, _) = desktop_order_lem s.surfaces ids h.distinct in
    record {
      distinct = h.distinct;
      ordered = distinct;
      known = λ q. ground (arith, same q);
      current = h.current;
    }
