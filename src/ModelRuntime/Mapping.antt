-- ===== src/ModelRuntime/Mapping.antt =====
-- The roots of a node, and what keeps them.
use apptraverse.Prelude.{
  ℕ, ◌≡◌, ap, ◌∙◌, inl, inr, true, false, ◌||◌, List, [], ◌∷◌, ◌++◌, arith, if◌then◌else◌, if_true,
  if_false, Bool-cases, contains, contains-append, ◌==◌, ==_eq, nat_eq, All,
}
use apptraverse.Prelude.Assoc.{insert, erase, lookup-insert, lookup-erase}
use apptraverse.ModelRuntime.{Entries, roots_in, add, without, map_objects}

contains-add : (x y : ℕ) (xs : List ℕ) → contains (add x xs) y ≡ ((x == y) || contains xs y)
unfolding add contains
contains-add x y xs = ground (arith, contains-append xs (x ∷ []) y, nat_eq.beq_iff x y)

pub contains-without :
    (x y : ℕ) (xs : List ℕ) → contains (without x xs) y ≡ (if x == y then false else contains xs y)
unfolding without contains
contains-without x y [] = ground arith
contains-without x y (z ∷ zs) =
    ground
      (arith, contains-without x y zs, nat_eq.beq_iff x y, nat_eq.beq_iff z x, nat_eq.beq_iff z y)

pub roots_in-insert :
    (id other : ℕ) (roots : List ℕ) (entries : Entries)
    → roots_in (insert id roots entries) other
      ≡ (if id == other then roots else roots_in entries other)
unfolding roots_in
roots_in-insert id other roots entries = ground (arith, lookup-insert id other roots entries)

pub roots_in-erase :
    (id other : ℕ) (entries : Entries)
    → roots_in (erase id entries) other ≡ (if id == other then [] else roots_in entries other)
unfolding roots_in
roots_in-erase id other entries = ground (arith, lookup-erase id other entries)

-- Every node that waits for a root is mapped to it.
abbrev pub IsMapped : Entries → Entries → Type 0
IsMapped roots = All (λ e. All (λ n. contains (roots_in roots n) e.0 ≡ true) e.1)

-- What is mapped stays mapped.
abbrev pub IsKept : Entries → Entries → Type 0
IsKept before after =
    (n root : ℕ)
    → contains (roots_in before n) root ≡ true
    → contains (roots_in after n) root ≡ true

nodes-IsMapped :
    (before after : Entries) (root : ℕ) (nodes : List ℕ)
    → IsKept before after
    → All (λ n. contains (roots_in before n) root ≡ true) nodes
    → All (λ n. contains (roots_in after n) root ≡ true) nodes
nodes-IsMapped before after root [] kept mapped = tt
nodes-IsMapped before after root (n ∷ nodes) kept (first, more) =
    (kept n root first, nodes-IsMapped before after root nodes kept more)

pub kept-IsMapped :
    (before after entries : Entries)
    → IsKept before after
    → IsMapped before entries
    → IsMapped after entries
kept-IsMapped before after [] kept mapped = tt
kept-IsMapped before after ((root, nodes) ∷ entries) kept (first, more) = (
  nodes-IsMapped before after root nodes kept first,
  kept-IsMapped before after entries kept more,
)

pub insert-IsKept :
    (id : ℕ) (roots : List ℕ) (entries : Entries)
    → ((root : ℕ) → contains (roots_in entries id) root ≡ true → contains roots root ≡ true)
    → IsKept entries (insert id roots entries)
insert-IsKept id roots entries more n root mapped = elim (Bool-cases (id == n)) [
  | inl here ↦
      ap (λ rs. contains rs root) (roots_in-insert id n roots entries ∙ if_true _ _ here)
      ∙ more root (ap (λ i. contains (roots_in entries i) root) (==_eq id n here) ∙ mapped)
  | inr there ↦
      ap (λ rs. contains rs root) (roots_in-insert id n roots entries ∙ if_false _ _ there) ∙ mapped
]

pub add-keeps :
    (root other : ℕ) (roots : List ℕ)
    → contains roots other ≡ true
    → contains (add root roots) other ≡ true
add-keeps root other roots mapped = ground (arith, contains-add root other roots, mapped)

pub map_objects-IsKept :
    (root_id : ℕ) (objects : List ℕ) (entries : Entries)
    → IsKept entries (map_objects root_id objects entries)
unfolding map_objects
map_objects-IsKept root_id [] entries n root mapped = mapped
map_objects-IsKept root_id (id ∷ objects) entries n root mapped =
    let roots = roots_in entries id in
    map_objects-IsKept root_id objects (insert id (roots ++ root_id ∷ []) entries) n root (
      insert-IsKept id (roots ++ root_id ∷ []) entries
        (λ r h. ground (arith, contains-append roots (root_id ∷ []) r, h)) n root mapped)
