-- ===== src/ModelRuntime/Pending.antt =====
-- Only nodes that are mapped to a root wait for its publication.
use apptraverse.Prelude.{
  ℕ, ◌≡◌, refl, sym, ap, ◌∙◌, subst, inl, inr, Bool, true, false, ◌&&◌, Option, none, some, List,
  [], ◌∷◌, arith, if◌then◌else◌, if_true, if_false, Bool-cases, contains, ◌==◌, ==_refl, ==_eq,
  nat_eq, All, All-append, of_some, not_some,
}
use apptraverse.Prelude.Assoc.{lookup, insert}
use apptraverse.ModelRuntime.{
  Entries, ModelRuntime, roots_in, add, without, map_objects, add_presentation_root, attach_node,
  drop_pending, unmap, detach_node, add_pending, add_all_pending, on_materialized_change,
  publish_changed, ModelCall, adds_root, attaches, detaches, changes, binds,
  bind_all_model_node_notifiers, publishes, perform,
}
use apptraverse.ModelRuntime.Mapping.{
  contains-without, roots_in-insert, roots_in-erase, kept-IsMapped, insert-IsKept, add-keeps,
  map_objects-IsKept, IsMapped,
}

add-All : (P : ℕ → Type 0) (n : ℕ) (nodes : List ℕ) → P n → All P nodes → All P (add n nodes)
unfolding add
add-All P n nodes h all = elim (Bool-cases (contains nodes n)) [
  | inl there ↦ subst (All P) (sym (if_true _ _ there)) all
  | inr new ↦ subst (All P) (sym (if_false _ _ new)) (All-append P nodes (n ∷ []) all (h, tt))
]

add_pending-IsMapped :
    (roots : Entries) (node root_id : ℕ) (entries : Entries)
    → contains (roots_in roots node) root_id ≡ true
    → IsMapped roots entries
    → IsMapped roots (add_pending node root_id entries)
unfolding add_pending
add_pending-IsMapped roots node root_id [] here mapped = ((here, tt), tt)
add_pending-IsMapped roots node root_id ((root, nodes) ∷ entries) here (first, more) =
    elim (Bool-cases (root == root_id)) [
      | inl same ↦
          let at_root =
            ap (λ r. contains (roots_in roots node) r) (==_eq root root_id same) ∙ here in
          subst (IsMapped roots) (sym (if_true _ _ same))
            (add-All (λ n. contains (roots_in roots n) root ≡ true) node nodes at_root first, more)
      | inr other ↦
          subst (IsMapped roots) (sym (if_false _ _ other))
            (first, add_pending-IsMapped roots node root_id entries here more)
    ]

add_all_pending-IsMapped :
    (roots : Entries) (node : ℕ) (ids : List ℕ) (entries : Entries)
    → All (λ root. contains (roots_in roots node) root ≡ true) ids
    → IsMapped roots entries
    → IsMapped roots (add_all_pending node ids entries)
unfolding add_all_pending
add_all_pending-IsMapped roots node [] entries here mapped = mapped
add_all_pending-IsMapped roots node (root ∷ ids) entries here mapped =
    add_all_pending-IsMapped roots node ids (add_pending node root entries) here.1
      (add_pending-IsMapped roots node root entries here.0 mapped)

contained-All :
    (xs ys : List ℕ)
    → ((x : ℕ) → contains xs x ≡ true → contains ys x ≡ true)
    → All (λ x. contains ys x ≡ true) xs
unfolding contains
contained-All [] ys sub = tt
contained-All (x ∷ xs) ys sub =
    (sub x (ground (arith, ==_refl x)), contained-All xs ys (λ y h. sub y (ground (arith, h))))

publish_changed-IsMapped :
    (publish : ℕ → List ℕ → Bool) (roots entries : Entries)
    → IsMapped roots entries
    → IsMapped roots (publish_changed publish entries)
unfolding publish_changed
publish_changed-IsMapped publish roots [] mapped = tt
publish_changed-IsMapped publish roots ((root, []) ∷ entries) (first, more) =
    publish_changed-IsMapped publish roots entries more
publish_changed-IsMapped publish roots ((root, n ∷ nodes) ∷ entries) (first, more) =
    let rest = publish_changed-IsMapped publish roots entries more in
    elim (Bool-cases (publish root (n ∷ nodes))) [
      | inl taken ↦ subst (IsMapped roots) (sym (if_true _ _ taken)) rest
      | inr busy ↦ subst (IsMapped roots) (sym (if_false _ _ busy)) (first, rest)
    ]

-- What is mapped stays mapped, but for one node at one root.
abbrev pub IsKeptBut : ℕ → ℕ → Entries → Entries → Type 0
IsKeptBut node root_id before after =
    (n root : ℕ)
    → ((n == node) && (root == root_id)) ≡ false
    → contains (roots_in before n) root ≡ true
    → contains (roots_in after n) root ≡ true

without-IsMapped :
    (node root_id : ℕ) (before after : Entries) (nodes : List ℕ)
    → IsKeptBut node root_id before after
    → All (λ n. contains (roots_in before n) root_id ≡ true) nodes
    → All (λ n. contains (roots_in after n) root_id ≡ true) (without node nodes)
unfolding without
without-IsMapped node root_id before after [] kept mapped = tt
without-IsMapped node root_id before after (n ∷ nodes) kept (first, more) =
    let rest = without-IsMapped node root_id before after nodes kept more in
    elim (Bool-cases (n == node)) [
      | inl same ↦
          subst (All (λ m. contains (roots_in after m) root_id ≡ true)) (sym (if_true _ _ same))
            rest
      | inr other ↦
          subst (All (λ m. contains (roots_in after m) root_id ≡ true)) (sym (if_false _ _ other))
            (kept n root_id (ground (arith, other)) first, rest)
    ]

others-IsMapped :
    (node root_id root : ℕ) (before after : Entries) (nodes : List ℕ)
    → IsKeptBut node root_id before after
    → (root == root_id) ≡ false
    → All (λ n. contains (roots_in before n) root ≡ true) nodes
    → All (λ n. contains (roots_in after n) root ≡ true) nodes
others-IsMapped node root_id root before after [] kept other mapped = tt
others-IsMapped node root_id root before after (n ∷ nodes) kept other (first, more) = (
  kept n root (ground (arith, other)) first,
  others-IsMapped node root_id root before after nodes kept other more,
)

entry-IsMapped :
    (roots : Entries) (root : ℕ) (nodes : List ℕ) (rest : Entries)
    → All (λ n. contains (roots_in roots n) root ≡ true) nodes
    → IsMapped roots rest
    → IsMapped roots (elim nodes as (λ x. Entries) [ [] ↦ rest | m ∷ ms ↦ (root, m ∷ ms) ∷ rest ])
entry-IsMapped roots root [] rest first more = more
entry-IsMapped roots root (m ∷ ms) rest first more = (first, more)

drop_pending-IsMapped :
    (node root_id : ℕ) (before after entries : Entries)
    → IsKeptBut node root_id before after
    → IsMapped before entries
    → IsMapped after (drop_pending node root_id entries)
unfolding drop_pending
drop_pending-IsMapped node root_id before after [] kept mapped = tt
drop_pending-IsMapped node root_id before after ((root, nodes) ∷ entries) kept (first, more) =
    let rest = drop_pending-IsMapped node root_id before after entries kept more in
    elim (Bool-cases (root == root_id)) [
      | inl same ↦
          let kept_here =
            subst (λ r. IsKeptBut node r before after) (sym (==_eq root root_id same)) kept in
          subst (IsMapped after) (sym (if_true _ _ same)) (
            entry-IsMapped after root (without node nodes) (drop_pending node root_id entries)
              (without-IsMapped node root before after nodes kept_here first) rest)
      | inr other ↦
          subst (IsMapped after) (sym (if_false _ _ other))
            (others-IsMapped node root_id root before after nodes kept other first, rest)
    ]

pub roots_in-unmap :
    (node n : ℕ) (left : List ℕ) (rt : ModelRuntime)
    → roots_in (unmap node left rt).object_to_roots n
      ≡ (if node == n then left else roots_in rt.object_to_roots n)
unfolding unmap
roots_in-unmap node n [] rt = roots_in-erase node n rt.object_to_roots
roots_in-unmap node n (r ∷ rs) rt = roots_in-insert node n (r ∷ rs) rt.object_to_roots

pending-unmap :
    (node : ℕ) (left : List ℕ) (rt : ModelRuntime)
    → (unmap node left rt).pending_by_root ≡ rt.pending_by_root
unfolding unmap
pending-unmap node [] rt = refl
pending-unmap node (r ∷ rs) rt = refl

unmap-IsKeptBut :
    (node root_id : ℕ) (rt : ModelRuntime)
    → IsKeptBut node root_id rt.object_to_roots
        (unmap node (without root_id (roots_in rt.object_to_roots node)) rt).object_to_roots
unmap-IsKeptBut node root_id rt n root but mapped =
    let roots = roots_in rt.object_to_roots node in
    let left = without root_id roots in
    elim (Bool-cases (node == n)) [
      | inl here ↦
          let at_node : contains roots root ≡ true =
            ap (λ i. contains (roots_in rt.object_to_roots i) root) (==_eq node n here) ∙ mapped in
          let elsewhere : (root_id == root) ≡ false = ground (
            arith,
            but,
            here,
            nat_eq.beq_iff node n,
            nat_eq.beq_iff n node,
            nat_eq.beq_iff root root_id,
            nat_eq.beq_iff root_id root,
          ) in
          ap (λ rs. contains rs root) (roots_in-unmap node n left rt ∙ if_true _ _ here)
          ∙ contains-without root_id root roots
          ∙ if_false _ _ elsewhere
          ∙ at_node
      | inr there ↦
          ap (λ rs. contains rs root) (roots_in-unmap node n left rt ∙ if_false _ _ there) ∙ mapped
    ]

-- The runtime after a node was detached from a root.
abbrev pub detached : ℕ → ℕ → List ℕ → ModelRuntime → ModelRuntime
detached node root_id roots rt =
    unmap node (without root_id roots)
      (record rt { pending_by_root = drop_pending node root_id rt.pending_by_root })

detached-IsMapped :
    (node root_id : ℕ) (rt : ModelRuntime)
    → IsMapped rt.object_to_roots rt.pending_by_root
    → IsMapped
        (detached node root_id (roots_in rt.object_to_roots node) rt).object_to_roots
        (detached node root_id (roots_in rt.object_to_roots node) rt).pending_by_root
detached-IsMapped node root_id rt mapped =
    let roots = roots_in rt.object_to_roots node in
    let dropped = record rt { pending_by_root = drop_pending node root_id rt.pending_by_root } in
    subst (IsMapped (detached node root_id roots rt).object_to_roots)
      (sym (pending-unmap node (without root_id roots) dropped))
      (drop_pending-IsMapped node root_id rt.object_to_roots
        (detached node root_id roots rt).object_to_roots rt.pending_by_root
        (unmap-IsKeptBut node root_id dropped) mapped)

mapped_once :
    (entry : Option (List ℕ)) (detach : List ℕ → ModelRuntime) (after : ModelRuntime)
    → (elim entry as (λ x. Option ModelRuntime) [ none ↦ none | some roots ↦ some (detach roots) ])
      ≡ some after
    → after ≡ detach (elim entry as (λ x. List ℕ) [ none ↦ [] | some roots ↦ roots ])
mapped_once none detach after h = absurd (not_some h)
mapped_once (some roots) detach after h = sym (of_some h)

-- Detaching is defined where the node has a mapping, and then it is this.
pub detach_node-detached :
    (node root_id : ℕ) (rt after : ModelRuntime)
    → detach_node node root_id rt ≡ some after
    → after ≡ detached node root_id (roots_in rt.object_to_roots node) rt
unfolding detach_node roots_in
detach_node-detached node root_id rt after h =
    mapped_once (lookup node rt.object_to_roots) (λ roots. detached node root_id roots rt) after h

abbrev pub IsPublishable : ModelRuntime → Type 0
IsPublishable rt = IsMapped rt.object_to_roots rt.pending_by_root

pub detach_node-IsPublishable :
    (node root_id : ℕ) (rt after : ModelRuntime)
    → IsPublishable rt
    → detach_node node root_id rt ≡ some after
    → IsPublishable after
detach_node-IsPublishable node root_id rt after mapped h =
    subst IsPublishable (sym (detach_node-detached node root_id rt after h))
      (detached-IsMapped node root_id rt mapped)

pub perform-IsPublishable :
    (call : ModelCall) (rt after : ModelRuntime)
    → IsPublishable rt
    → perform call rt ≡ some after
    → IsPublishable after
unfolding perform add_presentation_root attach_node on_materialized_change
    bind_all_model_node_notifiers
perform-IsPublishable (adds_root root_id reachable) rt after mapped h =
    subst IsPublishable (of_some h) (
      kept-IsMapped rt.object_to_roots (map_objects root_id reachable rt.object_to_roots)
        rt.pending_by_root (map_objects-IsKept root_id reachable rt.object_to_roots) mapped)
perform-IsPublishable (attaches node root_id) rt after mapped h =
    let roots = roots_in rt.object_to_roots node in
    subst IsPublishable (of_some h) (
      kept-IsMapped rt.object_to_roots (insert node (add root_id roots) rt.object_to_roots)
        rt.pending_by_root
        (insert-IsKept node (add root_id roots) rt.object_to_roots
          (λ r there. add-keeps root_id r roots there))
        mapped)
perform-IsPublishable (detaches node root_id) rt after mapped h =
    detach_node-IsPublishable node root_id rt after mapped h
perform-IsPublishable (changes node) rt after mapped h =
    let roots = roots_in rt.object_to_roots node in
    subst IsPublishable (of_some h) (
      add_all_pending-IsMapped rt.object_to_roots node roots rt.pending_by_root
        (contained-All roots roots (λ r there. there)) mapped)
perform-IsPublishable binds rt after mapped h = subst IsPublishable (of_some h) mapped
perform-IsPublishable (publishes publish) rt after mapped h =
    subst IsPublishable (of_some h)
      (publish_changed-IsMapped publish rt.object_to_roots rt.pending_by_root mapped)
