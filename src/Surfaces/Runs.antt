-- ===== src/Surfaces/Runs.antt =====
-- Three windows, and the theorems at them.
use apptraverse.Prelude.{
  ℕ, ◌≡◌, refl, inr, arith, true, false, ◌&&◌, not, none, some, List, [], ◌∷◌, ◌++◌, contains,
  nat_eq, IsDistinct, if◌then◌else◌, ◌==◌,
}
use apptraverse.Journal.{Node, applied}
use apptraverse.Journal.Commit.{IsLive}
use apptraverse.Surfaces.{
  Surface, Surfaces, SurfacesEvent, is_current, surfaces_node, resolve, append_missing,
  desktop_order, blank_surface,
}
use apptraverse.Surfaces.Order.{Sublist, desktop_order_lem}
use apptraverse.Surfaces.Live.{IsOrderly}
use apptraverse.Surfaces.Calls.{
  call_add, is_possible, perform, IsNumbered, HasNumbers, perform-IsOrderly,
}

abbrev live : List ℕ
live = 11 ∷ 12 ∷ 13 ∷ []

-- A window that is gone, and one that is named twice, are passed over.
abbrev asked : List ℕ
asked = 13 ∷ 99 ∷ 11 ∷ 13 ∷ []

rearranged : desktop_order live asked ≡ 13 ∷ 11 ∷ 12 ∷ []
unfolding desktop_order resolve append_missing contains
rearranged = refl

desktop_order_lem_example :
    let order = desktop_order live asked in
    IsDistinct order
    × ((q : ℕ) → contains order q ≡ contains live q)
    × ((front : List ℕ) × (back : List ℕ) × (order ≡ front ++ back)
        × Sublist front asked
        × Sublist back live
        × ((q : ℕ) → contains front q ≡ (contains live q && contains asked q))
        × ((q : ℕ) → contains back q ≡ (contains live q && not (contains asked q))))
unfolding contains
desktop_order_lem_example = desktop_order_lem live asked (refl, (refl, (refl, tt)))

abbrev windows : Surfaces
windows = record { surfaces = 11 ∷ 12 ∷ []; mobile_current = none; desktop_z_order = 12 ∷ [] }

abbrev windows_node : Node Surfaces SurfacesEvent
windows_node = record {
  fields = windows;
  base = some windows;
  journal = [];
  attached = true;
  generation = 1;
  applied_journal_size = applied 0;
  policy = record { max_events = none; max_age = none };
  compaction_blocked = false;
  suppress_materialized_change = false;
  has_notifier = false;
  notified = 0;
}

windows_node-IsLive : IsLive surfaces_node windows_node
windows_node-IsLive = record {
  attached = refl;
  based = refl;
  counted = inr refl;
  sorted = tt;
  room = tt;
}

windows-IsOrderly : IsOrderly windows
unfolding contains is_current
windows-IsOrderly = record {
  distinct = (refl, (refl, tt));
  ordered = (refl, tt);
  known = λ q. ground arith;
  current = λ q. refl;
}

-- The windows 11 and 12 have the numbers 1 and 2.
abbrev numbers : ℕ → Surface
numbers id = blank_surface (if id == 11 then 1 else 2)

numbers-IsNumbered : IsNumbered numbers (11 ∷ 12 ∷ [])
unfolding contains
numbers-IsNumbered p q = ground arith

numbers-HasNumbers : HasNumbers numbers (11 ∷ 12 ∷ [])
numbers-HasNumbers q h = ground arith

perform-IsOrderly_example :
    let out = perform 200 (call_add 13) numbers windows_node in
    IsOrderly out.1.fields × IsNumbered out.0 out.1.fields.surfaces
unfolding is_possible contains
perform-IsOrderly_example =
    perform-IsOrderly 200 windows_node windows_node-IsLive (omega arith) (call_add 13) numbers refl
      windows-IsOrderly numbers-IsNumbered numbers-HasNumbers
