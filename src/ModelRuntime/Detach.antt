-- ===== src/ModelRuntime/Detach.antt =====
-- A detached node: nothing of the runtime keeps it, so that its owner may drop it.
use apptraverse.Prelude.{
  if◌then◌else◌, ℕ, ◌≡◌, refl, sym, ap, ◌∙◌, subst, ◌⊎◌, inl, inr, true, false, Option, none, some,
  List, [], ◌∷◌, arith, if_true, Bool-cases, contains, ◌==◌, ==_eq, ==_refl, nat_eq, All, not_some,
  of_some,
}
use apptraverse.ModelRuntime.{
  Entries, ModelRuntime, roots_in, without, drop_pending, unmap, detach_node, ModelCall, perform,
  perform_all, new_runtime,
}
use apptraverse.ModelRuntime.Mapping.{roots_in-insert, IsMapped, contains-without}
use apptraverse.ModelRuntime.Pending.{
  IsPublishable, detached, roots_in-unmap, detach_node-detached, detach_node-IsPublishable,
  perform-IsPublishable,
}

stepped :
    (calls : List ModelCall) (step : Option ModelRuntime) (after : ModelRuntime)
    → (elim step as (λ x. Option ModelRuntime) [ none ↦ none | some m ↦ perform_all calls m ])
      ≡ some after
    → (m : ModelRuntime) × ((step ≡ some m) × (perform_all calls m ≡ some after))
stepped calls none after h = absurd (not_some h)
stepped calls (some m) after h = (m, (refl, h))

perform_all-IsPublishable :
    (calls : List ModelCall) (rt after : ModelRuntime)
    → IsPublishable rt
    → perform_all calls rt ≡ some after
    → IsPublishable after
unfolding perform_all
perform_all-IsPublishable [] rt after mapped h = subst IsPublishable (of_some h) mapped
perform_all-IsPublishable (call ∷ calls) rt after mapped h =
    let next = stepped calls (perform call rt) after h in
    perform_all-IsPublishable calls next.0 after
      (perform-IsPublishable call rt next.0 mapped next.1.0) next.1.1

bool_conflict : ¬ (false ≡ true)
bool_conflict h = ground arith

-- No root publishes the node.
abbrev pub IsUnpublished : ℕ → Entries → Type 0
IsUnpublished node = All (λ e. contains e.1 node ≡ false)

absent_node :
    (roots : Entries) (node root : ℕ) (nodes : List ℕ)
    → roots_in roots node ≡ []
    → All (λ n. contains (roots_in roots n) root ≡ true) nodes
    → contains nodes node ≡ false
unfolding contains
absent_node roots node root [] unmapped mapped = refl
absent_node roots node root (n ∷ nodes) unmapped (first, more) = elim (Bool-cases (n == node)) [
  | inl same ↦
      let at_node = ap (λ i. contains (roots_in roots i) root) (sym (==_eq n node same)) ∙ first in
      absurd (bool_conflict (sym (ap (λ rs. contains rs root) unmapped) ∙ at_node))
  | inr other ↦ ground (arith, other, absent_node roots node root nodes unmapped more)
]

unmapped-IsUnpublished :
    (roots : Entries) (node : ℕ) (entries : Entries)
    → roots_in roots node ≡ []
    → IsMapped roots entries
    → IsUnpublished node entries
unmapped-IsUnpublished roots node [] unmapped mapped = tt
unmapped-IsUnpublished roots node ((root, nodes) ∷ entries) unmapped (first, more) = (
  absent_node roots node root nodes unmapped first,
  unmapped-IsUnpublished roots node entries unmapped more,
)

-- Where no root is left, the runtime has forgotten the node; where one is left, it is updated as before.
abbrev pub IsDetached : ℕ → ModelRuntime → ModelRuntime → Type 0
IsDetached node rt after =
    ((roots_in after.object_to_roots node ≡ [])
      × ((contains after.model_nodes node ≡ false)
          × ((contains after.notified node ≡ false) × IsUnpublished node after.pending_by_root)))
    ⊎ (¬ (roots_in after.object_to_roots node ≡ [])
        × ((after.model_nodes ≡ rt.model_nodes) × (after.notified ≡ rt.notified)))

not_empty : (r : ℕ) (rs : List ℕ) → ¬ (r ∷ rs ≡ [])
not_empty r rs h = ground arith

unmap-cases :
    (node : ℕ) (left : List ℕ) (rt : ModelRuntime)
    → ((roots_in (unmap node left rt).object_to_roots node ≡ [])
        × ((contains (unmap node left rt).model_nodes node ≡ false)
            × (contains (unmap node left rt).notified node ≡ false)))
      ⊎ (¬ (roots_in (unmap node left rt).object_to_roots node ≡ [])
          × (((unmap node left rt).model_nodes ≡ rt.model_nodes)
              × ((unmap node left rt).notified ≡ rt.notified)))
unfolding unmap
unmap-cases node [] rt = inl (
  roots_in-unmap node node [] rt ∙ if_true _ _ (==_refl node),
  (
    contains-without node node rt.model_nodes ∙ if_true _ _ (==_refl node),
    contains-without node node rt.notified ∙ if_true _ _ (==_refl node),
  ),
)
unmap-cases node (r ∷ rs) rt =
    let kept = roots_in-insert node node (r ∷ rs) rt.object_to_roots ∙ if_true _ _ (==_refl node) in
    inr ((λ gone. not_empty r rs (sym kept ∙ gone)), (refl, refl))

left_roots :
    (node root_id q : ℕ) (rt : ModelRuntime)
    → contains
        (roots_in
          (detached node root_id (roots_in rt.object_to_roots node) rt).object_to_roots
          node)
        q
      ≡ (if root_id == q then false else contains (roots_in rt.object_to_roots node) q)
left_roots node root_id q rt =
    let roots = roots_in rt.object_to_roots node in
    let dropped = record rt { pending_by_root = drop_pending node root_id rt.pending_by_root } in
    ap (λ rs. contains rs q)
      (roots_in-unmap node node (without root_id roots) dropped ∙ if_true _ _ (==_refl node))
    ∙ contains-without root_id q roots

detached-IsDetached :
    (node root_id : ℕ) (rt : ModelRuntime)
    → IsPublishable (detached node root_id (roots_in rt.object_to_roots node) rt)
    → IsDetached node rt (detached node root_id (roots_in rt.object_to_roots node) rt)
detached-IsDetached node root_id rt mapped =
    let roots = roots_in rt.object_to_roots node in
    let dropped = record rt { pending_by_root = drop_pending node root_id rt.pending_by_root } in
    let after = detached node root_id roots rt in
    elim (unmap-cases node (without root_id roots) dropped) [
      | inl (unmapped, (model, notified)) ↦ inl (
        unmapped,
        (
          model,
          (
            notified,
            unmapped-IsUnpublished after.object_to_roots node after.pending_by_root unmapped mapped,
          ),
        ),
      )
      | inr same ↦ inr same
    ]

-- After any calls, a node that is detached from a root is mapped to the same roots but this one, and only
-- mapped nodes wait for publication. Where no root is left, the node is not updated, not notified and nowhere
-- pending; where one is left, the nodes that are updated and those notified are the same as before.
pub detach_node_lem :
    (nodes : List ℕ) (calls : List ModelCall) (node root_id : ℕ) (rt after : ModelRuntime)
    → perform_all calls (new_runtime nodes) ≡ some rt
    → detach_node node root_id rt ≡ some after
    → ((q : ℕ)
        → contains (roots_in after.object_to_roots node) q
          ≡ (if root_id == q then false else contains (roots_in rt.object_to_roots node) q))
      × (IsPublishable after × IsDetached node rt after)
detach_node_lem nodes calls node root_id rt after run detach =
    let mapped = perform_all-IsPublishable calls (new_runtime nodes) rt tt run in
    let publishable = detach_node-IsPublishable node root_id rt after mapped detach in
    let same = detach_node-detached node root_id rt after detach in
    (
      (λ q.
          ap (λ (m : ModelRuntime). contains (roots_in m.object_to_roots node) q) same
          ∙ left_roots node root_id q rt),
      (
        publishable,
        subst (IsDetached node rt) (sym same)
            (detached-IsDetached node root_id rt (subst IsPublishable same publishable)),
      ),
    )
