-- ===== src/Surfaces/Calls.antt =====
-- A call of one of the methods of the surfaces, and what every call keeps.
use apptraverse.Prelude.{
  ℕ, ◌+◌, ◌%◌, ◌^◌, ◌<◌, ◌≤◌, ◌≡◌, refl, sym, ap, subst, inl, inr, Bool, true, false, ◌&&◌, not,
  List, [], ◌∷◌, ◌++◌, arith, if◌then◌else◌, if_true, if_false, Bool-cases, leb, contains,
  contains-append, ◌==◌, ==_refl, nat_eq, list_beq,
}
use apptraverse.Journal.{Node, commit}
use apptraverse.Journal.Commit.{IsLive, fields-commit}
use apptraverse.Surfaces.{
  Surface, Surfaces, SurfacesEvent, add_surface_event, remove_surface_event,
  set_current_surface_event, set_desktop_z_order_event, erase_first, is_current, apply,
  surfaces_node, desktop_order, set_desktop_z_order_from_obj_ids, next_number,
  assign_initial_desktop_bounds, blank_surface, put_object, add_surface, remove, make_current,
}
use apptraverse.Surfaces.Live.{
  IsOrderly, contains-remove_all, erase_first-remove_all, add-IsOrderly, remove-IsOrderly,
  current-IsOrderly, order-IsOrderly,
}

pub data SurfacesCall : Type 0 where
  call_add call_remove call_make_current : ℕ → SurfacesCall
  call_set_order : List ℕ → SurfacesCall

-- The object id of a new surface is not that of a live one.
unfoldable pub is_possible : SurfacesCall → Surfaces → Bool
is_possible (call_add id) s = not (contains s.surfaces id)
is_possible _ s = true

unfoldable pub perform :
    ℕ
    → SurfacesCall
    → (ℕ → Surface)
    → Node Surfaces SurfacesEvent
    → (ℕ → Surface) × Node Surfaces SurfacesEvent
perform now_us (call_add id) objects n = add_surface now_us id objects n
perform now_us (call_remove id) objects n = (objects, remove now_us id n)
perform now_us (call_make_current id) objects n = (objects, make_current now_us id n)
perform now_us (call_set_order ids) objects n =
    (objects, set_desktop_z_order_from_obj_ids now_us ids n)

-- Two live surfaces of one number are one.
abbrev pub IsNumbered : (ℕ → Surface) → List ℕ → Type 0
IsNumbered objects live =
    (p q : ℕ)
    → (contains live p
        && contains live q
        && ((objects p).number == (objects q).number)
        && not (p == q))
      ≡ false

-- The next number of each live surface does not wrap.
abbrev pub HasNumbers : (ℕ → Surface) → List ℕ → Type 0
HasNumbers objects live = (q : ℕ) → contains live q ≡ true → (objects q).number + 1 < 2 ^ 32

next_number_lem :
    (objects : ℕ → Surface) (next : ℕ) (live : List ℕ)
    → HasNumbers objects live
    → (next ≤ next_number objects next live)
      × ((q : ℕ)
          → (contains live q && leb (next_number objects next live) (objects q).number) ≡ false)
unfolding next_number contains
next_number_lem objects next [] room = (omega arith, λ q. refl)
next_number_lem objects next (id ∷ live) room =
    let number = (objects id).number in
    let after : ℕ = if leb next number then (number + 1) % 2 ^ 32 else next in
    let small : number + 1 < 2 ^ 32 = room id (ground (arith, ==_refl id)) in
    let above : (next ≤ after) × (number < after) = raise next number small in
    let (from, below) =
      next_number_lem objects after live (λ q there. room q (ground (arith, there))) in
    (omega (arith, from, above.0), λ q. ground (arith, below q, from, above.1, nat_eq.beq_iff id q))
  where
    raise :
        (next number : ℕ)
        → number + 1 < 2 ^ 32
        → (next ≤ (if leb next number then (number + 1) % 2 ^ 32 else next))
          × (number < (if leb next number then (number + 1) % 2 ^ 32 else next))
    raise next number small = (ground (arith, small), ground (arith, small))

add-IsNumbered :
    (objects : ℕ → Surface) (live : List ℕ) (id : ℕ) (s : Surface)
    → contains live id ≡ false
    → ((q : ℕ) → (contains live q && leb s.number (objects q).number) ≡ false)
    → IsNumbered objects live
    → IsNumbered (put_object id s objects) (live ++ id ∷ [])
unfolding put_object contains
add-IsNumbered objects live id s new above numbered p q =
    let other = numbered p q in
    let left = contains-append live (id ∷ []) p in
    let right = contains-append live (id ∷ []) q in
    elim (Bool-cases (p == id)) [
      | inl first ↦ elim (Bool-cases (q == id)) [
        | inl second ↦
            ground
              (arith, first, second, nat_eq.beq_iff p id, nat_eq.beq_iff q id, nat_eq.beq_iff p q)
        | inr differ ↦ ground (arith, first, differ, left, right, above q, nat_eq.beq_iff q id)
      ]
      | inr differ ↦ elim (Bool-cases (q == id)) [
        | inl second ↦ ground (arith, second, differ, left, right, above p, nat_eq.beq_iff p id)
        | inr both ↦
            ground
              (arith, differ, both, left, right, other, nat_eq.beq_iff p id, nat_eq.beq_iff q id)
      ]
    ]

fewer-IsNumbered :
    (objects : ℕ → Surface) (live fewer : List ℕ)
    → ((q : ℕ) → (contains fewer q && not (contains live q)) ≡ false)
    → IsNumbered objects live
    → IsNumbered objects fewer
fewer-IsNumbered objects live fewer h numbered p q = ground (arith, h p, h q, numbered p q)

abbrev Keeps : (ℕ → Surface) → Node Surfaces SurfacesEvent → Type 0
Keeps objects out = IsOrderly out.fields × IsNumbered objects out.fields.surfaces

module _ (now_us : ℕ) (n : Node Surfaces SurfacesEvent) (ready : IsLive surfaces_node n)
    (pos : 0 < now_us) where
  committed : (e : SurfacesEvent) → (commit surfaces_node now_us n e).0.fields ≡ apply e n.fields
  committed e = fields-commit surfaces_node now_us n e ready pos refl

  add-keeps :
      (id : ℕ) (objects : ℕ → Surface)
      → contains n.fields.surfaces id ≡ false
      → IsOrderly n.fields
      → IsNumbered objects n.fields.surfaces
      → HasNumbers objects n.fields.surfaces
      → let out = add_surface now_us id objects n in
        IsOrderly out.1.fields × IsNumbered out.0 out.1.fields.surfaces
  unfolding add_surface assign_initial_desktop_bounds apply
  add-keeps id objects new h numbered room =
      let fields = committed (add_surface_event id) in
      let sibling =
        assign_initial_desktop_bounds (blank_surface (next_number objects 1 n.fields.surfaces)) in
      let (_, above) = next_number_lem objects 1 n.fields.surfaces room in
      (
        subst IsOrderly (sym fields) (add-IsOrderly id n.fields new h),
        subst (IsNumbered (put_object id sibling objects))
            (sym (ap (λ (s : Surfaces). s.surfaces) fields))
            (add-IsNumbered objects n.fields.surfaces id sibling new above numbered),
      )

  -- A call that finds its surface live, or its order different, commits one event; any other does nothing.
  remove-keeps :
      (id : ℕ) (objects : ℕ → Surface)
      → IsOrderly n.fields
      → IsNumbered objects n.fields.surfaces
      → let out = remove now_us id n in
        IsOrderly out.fields × IsNumbered objects out.fields.surfaces
  unfolding remove apply
  remove-keeps id objects h numbered = elim (Bool-cases (contains n.fields.surfaces id)) [
    | inl there ↦ subst (Keeps objects) (sym (if_true _ _ there)) (
        subst (λ (s : Surfaces). IsOrderly s × IsNumbered objects s.surfaces)
          (sym (committed (remove_surface_event id)))
          (
            remove-IsOrderly id n.fields h,
            fewer-IsNumbered objects n.fields.surfaces (erase_first id n.fields.surfaces)
                (λ q. ground (
                  arith,
                  erase_first-remove_all id n.fields.surfaces h.distinct,
                  contains-remove_all id n.fields.surfaces q,
                ))
                numbered,
          ))
    | inr gone ↦ subst (Keeps objects) (sym (if_false _ _ gone)) (h, numbered)
  ]

  make_current-keeps :
      (id : ℕ) (objects : ℕ → Surface)
      → IsOrderly n.fields
      → IsNumbered objects n.fields.surfaces
      → let out = make_current now_us id n in
        IsOrderly out.fields × IsNumbered objects out.fields.surfaces
  unfolding make_current apply
  make_current-keeps id objects h numbered =
      elim (Bool-cases
        (not (is_current n.fields.mobile_current id) && contains n.fields.surfaces id)) [
          | inl there ↦ subst (Keeps objects) (sym (if_true _ _ there)) (
              subst (λ (s : Surfaces). IsOrderly s × IsNumbered objects s.surfaces)
                (sym (committed (set_current_surface_event id)))
                (current-IsOrderly id n.fields (ground (arith, there)) h, numbered))
          | inr stale ↦ subst (Keeps objects) (sym (if_false _ _ stale)) (h, numbered)
        ]

  set_order-keeps :
      (ids : List ℕ) (objects : ℕ → Surface)
      → IsOrderly n.fields
      → IsNumbered objects n.fields.surfaces
      → let out = set_desktop_z_order_from_obj_ids now_us ids n in
        IsOrderly out.fields × IsNumbered objects out.fields.surfaces
  unfolding set_desktop_z_order_from_obj_ids apply
  set_order-keeps ids objects h numbered =
      let order = desktop_order n.fields.surfaces ids in
      elim (Bool-cases (list_beq n.fields.desktop_z_order order)) [
        | inl same ↦ subst (Keeps objects) (sym (if_true _ _ same)) (h, numbered)
        | inr other ↦ subst (Keeps objects) (sym (if_false _ _ other)) (
            subst (λ (s : Surfaces). IsOrderly s × IsNumbered objects s.surfaces)
              (sym (committed (set_desktop_z_order_event order)))
              (order-IsOrderly ids n.fields h, numbered))
      ]

  -- On a live node, every call with a possible id keeps the surfaces orderly and their numbers distinct: the
  -- live surfaces differ, the z-order and the current page name live ones only, each at most once, and no two
  -- live surfaces have one number, as long as no number is the greatest there is.
  pub perform-IsOrderly :
      (call : SurfacesCall) (objects : ℕ → Surface)
      → is_possible call n.fields ≡ true
      → IsOrderly n.fields
      → IsNumbered objects n.fields.surfaces
      → HasNumbers objects n.fields.surfaces
      → let out = perform now_us call objects n in
        IsOrderly out.1.fields × IsNumbered out.0 out.1.fields.surfaces
  unfolding perform is_possible
  perform-IsOrderly (call_add id) objects new h numbered room =
      add-keeps id objects (ground (arith, new)) h numbered room
  perform-IsOrderly (call_remove id) objects new h numbered room =
      remove-keeps id objects h numbered
  perform-IsOrderly (call_make_current id) objects new h numbered room =
      make_current-keeps id objects h numbered
  perform-IsOrderly (call_set_order ids) objects new h numbered room =
      set_order-keeps ids objects h numbered
