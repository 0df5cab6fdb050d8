-- ===== src/ModelRuntime.antt =====
-- `ModelRuntime` of include/apptraverse/model_runtime.h and src/model_runtime.cpp: which nodes are updated,
-- which presentation roots show an object, and which changed nodes wait for publication. A node is its
-- object id; what a walk over the objects collects and what the user interface takes are arguments.
pub mod Detach
pub mod Mapping
pub mod Pending
pub mod Runs
pub mod Work
use apptraverse.Prelude.{
  ℕ, ◌≡◌, Bool, true, false, not, Option, none, some, List, [], ◌∷◌, ◌++◌, if◌then◌else◌, contains,
  ◌==◌, nat_eq,
}
use apptraverse.Prelude.Assoc.{lookup, insert, erase}

abbrev pub Entries : Type 0
Entries = List (ℕ × List ℕ)

pub record ModelRuntime : Type 0 where
  pub model_nodes : List ℕ
  pub object_to_roots : Entries
  pub pending_by_root : Entries
  -- The nodes with a notifier bound, and those with a base.
  pub notified : List ℕ
  pub initialized : List ℕ

unfoldable pub roots_in : Entries → ℕ → List ℕ
roots_in entries id = elim (lookup id entries) [ none ↦ [] | some roots ↦ roots ]

-- `push_back` where `std::find` finds nothing, and insertion into a set.
unfoldable pub add : ℕ → List ℕ → List ℕ
add x xs = if contains xs x then xs else xs ++ x ∷ []

-- `erase` of what `std::remove` moves to the end.
unfoldable pub without : ℕ → List ℕ → List ℕ
without x [] = []
without x (y ∷ ys) = let rest = without x ys in if y == x then rest else y ∷ rest

unfoldable pub map_objects : ℕ → List ℕ → Entries → Entries
map_objects root_id [] entries = entries
map_objects root_id (id ∷ objects) entries =
    map_objects root_id objects (insert id (roots_in entries id ++ root_id ∷ []) entries)

unfoldable pub add_presentation_root : ℕ → List ℕ → ModelRuntime → ModelRuntime
add_presentation_root root_id reachable rt = record rt {
  object_to_roots = map_objects root_id reachable rt.object_to_roots;
}

unfoldable pub attach_node : ℕ → ℕ → ModelRuntime → ModelRuntime
attach_node node root_id rt = record rt {
  initialized = add node rt.initialized;
  notified = add node rt.notified;
  model_nodes = add node rt.model_nodes;
  object_to_roots = insert node (add root_id (roots_in rt.object_to_roots node)) rt.object_to_roots;
}

-- An entry is erased with its last node.
unfoldable pub drop_pending : ℕ → ℕ → Entries → Entries
drop_pending node root_id [] = []
drop_pending node root_id ((root, nodes) ∷ entries) =
    let rest = drop_pending node root_id entries in
    if root == root_id
    then (elim (without node nodes) as (λ x. Entries) [
      | [] ↦ rest
      | m ∷ ms ↦ (root, m ∷ ms) ∷ rest
    ])
    else (root, nodes) ∷ rest

unfoldable pub unmap : ℕ → List ℕ → ModelRuntime → ModelRuntime
unmap node [] rt = record rt {
  object_to_roots = erase node rt.object_to_roots;
  model_nodes = without node rt.model_nodes;
  notified = without node rt.notified;
}
unmap node (root ∷ roots) rt = record rt {
  object_to_roots = insert node (root ∷ roots) rt.object_to_roots;
}

-- The mapping of a node that was never attached is read past the end: nothing is said of that.
unfoldable pub detach_node : ℕ → ℕ → ModelRuntime → Option ModelRuntime
detach_node node root_id rt =
    let dropped = record rt { pending_by_root = drop_pending node root_id rt.pending_by_root } in
    elim (lookup node rt.object_to_roots) [
      | none ↦ none
      | some roots ↦ some (unmap node (without root_id roots) dropped)
    ]

unfoldable pub add_pending : ℕ → ℕ → Entries → Entries
add_pending node root_id [] = (root_id, node ∷ []) ∷ []
add_pending node root_id ((root, nodes) ∷ entries) =
    let rest = add_pending node root_id entries in
    if root == root_id then (root, add node nodes) ∷ entries else (root, nodes) ∷ rest

unfoldable pub add_all_pending : ℕ → List ℕ → Entries → Entries
add_all_pending node [] entries = entries
add_all_pending node (root ∷ roots) entries =
    add_all_pending node roots (add_pending node root entries)

unfoldable pub on_materialized_change : ℕ → ModelRuntime → ModelRuntime
on_materialized_change node rt = record rt {
  pending_by_root = add_all_pending node (roots_in rt.object_to_roots node) rt.pending_by_root;
}

-- What stays pending, given what the user interface takes.
unfoldable pub publish_changed : (ℕ → List ℕ → Bool) → Entries → Entries
publish_changed publish [] = []
publish_changed publish ((root, []) ∷ entries) = publish_changed publish entries
publish_changed publish ((root, n ∷ nodes) ∷ entries) =
    let rest = publish_changed publish entries in
    if publish root (n ∷ nodes) then rest else (root, n ∷ nodes) ∷ rest

unfoldable pub has_pending : ℕ → ModelRuntime → Bool
has_pending root_id rt = elim (roots_in rt.pending_by_root root_id) as (λ x. Bool) [
  | [] ↦ false
  | n ∷ nodes ↦ true
]

unfoldable pub is_mapped_to_presentation_root : ℕ → ℕ → ModelRuntime → Bool
is_mapped_to_presentation_root node root_id rt = contains (roots_in rt.object_to_roots node) root_id

unfoldable pub is_in_execution_list : ℕ → ModelRuntime → Bool
is_in_execution_list node rt = contains rt.model_nodes node

unfoldable pub add_nodes : List ℕ → List ℕ → List ℕ
add_nodes [] bound = bound
add_nodes (node ∷ nodes) bound = add_nodes nodes (add node bound)

-- What Start and PumpOnce do first.
unfoldable pub bind_all_model_node_notifiers : ModelRuntime → ModelRuntime
bind_all_model_node_notifiers rt = record rt { notified = add_nodes rt.model_nodes rt.notified }

-- What is done to a runtime on the model thread.
pub data ModelCall : Type 0 where
  adds_root : ℕ → List ℕ → ModelCall
  attaches detaches : ℕ → ℕ → ModelCall
  changes : ℕ → ModelCall
  binds : ModelCall
  publishes : (ℕ → List ℕ → Bool) → ModelCall

unfoldable pub perform : ModelCall → ModelRuntime → Option ModelRuntime
perform (adds_root root_id reachable) rt = some (add_presentation_root root_id reachable rt)
perform (attaches node root_id) rt = some (attach_node node root_id rt)
perform (detaches node root_id) rt = detach_node node root_id rt
perform (changes node) rt = some (on_materialized_change node rt)
perform binds rt = some (bind_all_model_node_notifiers rt)
perform (publishes publish) rt =
    some (record rt { pending_by_root = publish_changed publish rt.pending_by_root })

unfoldable pub perform_all : List ModelCall → ModelRuntime → Option ModelRuntime
perform_all [] rt = some rt
perform_all (call ∷ calls) rt = elim (perform call rt) [
  | none ↦ none
  | some after ↦ perform_all calls after
]

-- The runtime as it is constructed, with the nodes reachable from the application.
abbrev pub new_runtime : List ℕ → ModelRuntime
new_runtime nodes = record {
  model_nodes = nodes;
  object_to_roots = [];
  pending_by_root = [];
  notified = [];
  initialized = [];
}
