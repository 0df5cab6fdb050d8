-- ===== src/Surfaces.antt =====
-- The surfaces of the user interface: `Surfaces`, `Surface` and their events, of
-- include/apptraverse/surfaces/surfaces_model.h and src/surfaces/surfaces_model.cpp. A surface is its object
-- id in the lists of its parent, and an object with fields of its own; `objects` gives the fields of the
-- objects. A std::int32_t is its two's complement pattern, a number below 2^32.

pub mod Order
pub mod Live
pub mod Calls
mod Runs
use apptraverse.Prelude.{
  ℕ, zero, suc, ◌+◌, ◌-◌, ◌*◌, ◌%◌, ◌^◌, Bool, true, false, ◌&&◌, not, Option, none, some, List, [],
  ◌∷◌, ◌++◌, if◌then◌else◌, leb, contains, Eq, ◌==◌, nat_eq, list_beq,
}
use apptraverse.Journal.{Target, Node, commit}

pub record Surface : Type 0 where
  pub number : ℕ
  pub desktop_x : ℕ
  pub desktop_y : ℕ
  pub desktop_width : ℕ
  pub desktop_height : ℕ
  pub presentation_width : ℕ
  pub presentation_height : ℕ

-- `mobile_current` is `none` where the pointer is empty.
pub record Surfaces : Type 0 where
  pub surfaces : List ℕ
  pub mobile_current : Option ℕ
  pub desktop_z_order : List ℕ

pub data SurfacesEvent : Type 0 where
  add_surface_event remove_surface_event set_current_surface_event : ℕ → SurfacesEvent
  set_desktop_z_order_event : List ℕ → SurfacesEvent

pub data SurfaceEvent : Type 0 where
  surface_bounds_changed_event : ℕ → ℕ → ℕ → ℕ → SurfaceEvent
  surface_presentation_size_changed_event : ℕ → ℕ → SurfaceEvent

-- The first surface of an id is erased.
unfoldable pub erase_first : ℕ → List ℕ → List ℕ
erase_first id [] = []
erase_first id (x ∷ xs) = let rest = erase_first id xs in if x == id then xs else x ∷ rest

unfoldable pub remove_all : ℕ → List ℕ → List ℕ
remove_all id [] = []
remove_all id (x ∷ xs) = let rest = remove_all id xs in if x == id then rest else x ∷ rest

unfoldable pub is_current : Option ℕ → ℕ → Bool
is_current none id = false
is_current (some current) id = current == id

-- The `Apply` overloads of `Surfaces`.
unfoldable pub apply : SurfacesEvent → Surfaces → Surfaces
apply (add_surface_event id) s = record s {
  surfaces = s.surfaces ++ id ∷ [];
  desktop_z_order = s.desktop_z_order ++ id ∷ [];
}
apply (remove_surface_event id) s = record s {
  surfaces = erase_first id s.surfaces;
  mobile_current = if is_current s.mobile_current id then none else s.mobile_current;
  desktop_z_order = remove_all id s.desktop_z_order;
}
apply (set_current_surface_event id) s = record s { mobile_current = some id }
apply (set_desktop_z_order_event ordered) s = record s { desktop_z_order = ordered }

-- The `Apply` overloads of `Surface`.
unfoldable pub apply_surface : SurfaceEvent → Surface → Surface
apply_surface (surface_bounds_changed_event x y width height) s = record s {
  desktop_x = x;
  desktop_y = y;
  desktop_width = width;
  desktop_height = height;
}
apply_surface (surface_presentation_size_changed_event width height) s = record s {
  presentation_width = width;
  presentation_height = height;
}

abbrev pub surfaces_node : Target Surfaces SurfacesEvent
surfaces_node = record {
  can_apply = λ e s. true;
  apply = apply;
  carry = λ live base. base;
  reload = λ s. s;
}

abbrev pub surface_node : Target Surface SurfaceEvent
surface_node = record {
  can_apply = λ e s. true;
  apply = apply_surface;
  carry = λ live base. base;
  reload = λ s. s;
}

-- The first loop of `SetDesktopZOrderFromObjIds`: the live surfaces among the ids, each once.
unfoldable pub resolve : List ℕ → List ℕ → List ℕ → List ℕ
resolve live seen [] = []
resolve live seen (id ∷ ids) =
    let rest = resolve live (if contains seen id then seen else id ∷ seen) ids in
    if contains seen id then rest else if contains live id then id ∷ rest else rest

-- The second loop: the live surfaces that are missing, at the end.
unfoldable pub append_missing : List ℕ → List ℕ → List ℕ
append_missing resolved [] = resolved
append_missing resolved (id ∷ live) =
    append_missing (if contains resolved id then resolved else resolved ++ id ∷ []) live

unfoldable pub desktop_order : List ℕ → List ℕ → List ℕ
desktop_order live ids = append_missing (resolve live [] ids) live

unfoldable pub set_desktop_z_order_from_obj_ids :
    ℕ → List ℕ → Node Surfaces SurfacesEvent → Node Surfaces SurfacesEvent
set_desktop_z_order_from_obj_ids now_us ids n =
    let resolved = desktop_order n.fields.surfaces ids in
    if list_beq n.fields.desktop_z_order resolved
    then n
    else (commit surfaces_node now_us n (set_desktop_z_order_event resolved)).0

-- The loop over the numbers of the live surfaces. The sum wraps.
unfoldable pub next_number : (ℕ → Surface) → ℕ → List ℕ → ℕ
next_number objects next [] = next
next_number objects next (id ∷ live) =
    next_number objects
      (if leb next (objects id).number then ((objects id).number + 1) % 2 ^ 32 else next) live

-- A surface with the initial bounds for its number. The source adds 120 to a signed offset: from the
-- offset 2 ^ 31 - 120 on its sum is undefined, and here it wraps.
unfoldable pub assign_initial_desktop_bounds : Surface → Surface
assign_initial_desktop_bounds s =
    let offset = ((s.number - 1) * 36) % 2 ^ 32 in
    record s {
      desktop_x = (120 + offset) % 2 ^ 32;
      desktop_y = (120 + offset) % 2 ^ 32;
      desktop_width = 360;
      desktop_height = 240;
      presentation_width = 360;
      presentation_height = 240;
    }

abbrev pub blank_surface : ℕ → Surface
blank_surface number = record {
  number = number;
  desktop_x = 0;
  desktop_y = 0;
  desktop_width = 0;
  desktop_height = 0;
  presentation_width = 0;
  presentation_height = 0;
}

unfoldable pub put_object : ℕ → Surface → (ℕ → Surface) → ℕ → Surface
put_object id s objects j = if j == id then s else objects j

-- `Surface::AddSurface`, where the sibling gets the object id `id`.
unfoldable pub add_surface :
    ℕ
    → ℕ
    → (ℕ → Surface)
    → Node Surfaces SurfacesEvent
    → (ℕ → Surface) × Node Surfaces SurfacesEvent
add_surface now_us id objects n = (
  put_object id
      (assign_initial_desktop_bounds (blank_surface (next_number objects 1 n.fields.surfaces)))
      objects,
  (commit surfaces_node now_us n (add_surface_event id)).0,
)

-- `Surface::Remove` and `Surface::MakeCurrent` of the surface `id`: nothing for one that is not live.
unfoldable pub remove : ℕ → ℕ → Node Surfaces SurfacesEvent → Node Surfaces SurfacesEvent
remove now_us id n =
    if contains n.fields.surfaces id
    then (commit surfaces_node now_us n (remove_surface_event id)).0
    else n

unfoldable pub make_current : ℕ → ℕ → Node Surfaces SurfacesEvent → Node Surfaces SurfacesEvent
make_current now_us id n =
    if not (is_current n.fields.mobile_current id) && contains n.fields.surfaces id
    then (commit surfaces_node now_us n (set_current_surface_event id)).0
    else n

unfoldable pub set_desktop_bounds :
    ℕ → ℕ → ℕ → ℕ → ℕ → Node Surface SurfaceEvent → Node Surface SurfaceEvent
set_desktop_bounds now_us x y width height n =
    let s = n.fields in
    if (s.desktop_x == x)
      && (s.desktop_y == y)
      && (s.desktop_width == width)
      && (s.desktop_height == height)
    then n
    else (commit surface_node now_us n (surface_bounds_changed_event x y width height)).0

unfoldable pub set_presentation_size :
    ℕ → ℕ → ℕ → Node Surface SurfaceEvent → Node Surface SurfaceEvent
set_presentation_size now_us width height n =
    if (n.fields.presentation_width == width) && (n.fields.presentation_height == height)
    then n
    else (commit surface_node now_us n (surface_presentation_size_changed_event width height)).0
