-- ===== src/SharedNode/Rebuild.antt =====
-- A rebuild of a shared node: `StashLocalPersistentAcrossRebuild`, the load of the base, the restore, and
-- the replay of the topology events.
use apptraverse.Prelude.{
  ℕ, ◌≡◌, refl, sym, ap, ◌∙◌, inl, inr, Bool, true, false, Option, none, some, List, [], ◌∷◌, arith,
  All, is_some, Option-cases, Bool-cases, IsDistinct, any, first, first-none, ◌==◌, nat_eq, subst,
  not_some,
}
use mathlib.Core.Bool.{false≢true}
use apptraverse.Journal.{Node, EventRecord, load_base, try_rebuild_from_base_and_replay}
use apptraverse.Journal.Replay.{replay, try_replay_journal-replay}
use apptraverse.LinkSync.{LinkSyncState, LinkSyncEvent}
use apptraverse.SharedNode.{
  SharedNode, ShareEvent, add_share_event, remove_share_event, change_share_access_event,
  syncs_share, shared_node, stash, apply_share, find_link_sync_index_for_share, link_sync_state,
}
use apptraverse.SharedNode.States.{
  States, opened-IsDistinct, closed-IsDistinct, entry_of, link_sync_state-first,
}
use apptraverse.SharedNode.Topology.{state_ids}
use apptraverse.SharedNode.Apply.{state_after, link_sync_state-apply_share}

-- Whether an event closes the relationship.
unfoldable pub closes : ℕ → Option ShareEvent → Bool
closes q (some (remove_share_event p)) = p == q
closes q _ = false

first-stash :
    (q : ℕ) (states : States) → first (syncs_share q) (stash states) ≡ first (syncs_share q) states
unfolding first syncs_share stash
first-stash q [] = refl
first-stash q (none ∷ states) = first-stash q states
first-stash q (some x ∷ states) = ground (arith, first-stash q states)

state_ids-stash : (states : States) → state_ids (stash states) ≡ state_ids states
unfolding state_ids stash
state_ids-stash [] = refl
state_ids-stash (none ∷ states) = state_ids-stash states
state_ids-stash (some x ∷ states) = ap (◌∷◌ x.fields.share_id) (state_ids-stash states)

apply_share-IsDistinct :
    (e : ShareEvent) (n : SharedNode)
    → IsDistinct (state_ids n.link_sync_states)
    → IsDistinct (state_ids (apply_share e n).link_sync_states)
unfolding apply_share find_link_sync_index_for_share
apply_share-IsDistinct (add_share_event p link access) n d =
    opened-IsDistinct p link.id n.link_sync_states d
apply_share-IsDistinct (remove_share_event p) n d = closed-IsDistinct p n.link_sync_states d
apply_share-IsDistinct (change_share_access_event p access) n d = d

pub has_state :
    (n : SharedNode) (q : ℕ) (state : Node LinkSyncState LinkSyncEvent)
    → link_sync_state n q ≡ some state
    → any (syncs_share q) n.link_sync_states ≡ true
has_state n q state h = elim (Bool-cases (any (syncs_share q) n.link_sync_states)) [
  | inl there ↦ there
  | inr missing ↦ absurd (
      not_some (
        sym (ap entry_of (first-none (syncs_share q) n.link_sync_states missing))
        ∙ sym (link_sync_state-first n q)
        ∙ h))
]

keeps :
    (e : ShareEvent) (n : SharedNode) (q : ℕ) (state : Node LinkSyncState LinkSyncEvent)
    → IsDistinct (state_ids n.link_sync_states)
    → closes q (some e) ≡ false
    → link_sync_state n q ≡ some state
    → link_sync_state (apply_share e n) q ≡ some state
unfolding closes state_after
keeps (add_share_event p link access) n q state d stays h =
    link_sync_state-apply_share (add_share_event p link access) n q d ∙ elim (Bool-cases (p == q)) [
      | inl same ↦
          let there = has_state n q state h in
          let at : any (syncs_share p) n.link_sync_states ≡ true =
            subst (λ (r : ℕ). any (syncs_share r) n.link_sync_states ≡ true)
              (sym ((nat_eq.beq_iff p q).0 same)) there in
          ground (arith, at, h)
      | inr other ↦ ground (arith, h)
    ]
keeps (remove_share_event p) n q state d stays h =
    link_sync_state-apply_share (remove_share_event p) n q d ∙ ground (arith, h)
keeps (change_share_access_event p access) n q state d stays h =
    link_sync_state-apply_share (change_share_access_event p access) n q d ∙ h

replay_keeps :
    (n : SharedNode) (journal : List (EventRecord ShareEvent)) (q : ℕ)
    (state : Node LinkSyncState LinkSyncEvent)
    → IsDistinct (state_ids n.link_sync_states)
    → All
        (λ (r : EventRecord ShareEvent). (is_some r.event ≡ true) × (closes q r.event ≡ false))
        journal
    → link_sync_state n q ≡ some state
    → (m : SharedNode) × (replay shared_node n journal ≡ some m)
      × (link_sync_state m q ≡ some state)
unfolding replay
replay_keeps n [] q state d all h = (n, refl, h)
replay_keeps n (r ∷ rs) q state d all h = elim (Option-cases r.event) [
  | inl missing ↦ absurd (false≢true (ap is_some (sym missing) ∙ all.0.0))
  | inr (e, found) ↦
      let stays : closes q (some e) ≡ false = ap (closes q) (sym found) ∙ all.0.1 in
      let (m, at, keep) =
        replay_keeps (apply_share e n) rs q state (apply_share-IsDistinct e n d) all.1
          (keeps e n q state d stays h) in
      (m, ground (arith, found, at), keep)
]

-- A rebuild from the base, whatever the base holds, keeps the synchronization state of every
-- relationship that has one and that the journal does not close, where each record of the journal has
-- its event and no relationship has two states.
pub rebuild_keeps_progress :
    (n : Node SharedNode ShareEvent) (b : SharedNode) (q : ℕ)
    (state : Node LinkSyncState LinkSyncEvent)
    → n.base ≡ some b
    → IsDistinct (state_ids n.fields.link_sync_states)
    → All
        (λ (r : EventRecord ShareEvent). (is_some r.event ≡ true) × (closes q r.event ≡ false))
        n.journal
    → link_sync_state n.fields q ≡ some state
    → link_sync_state (try_rebuild_from_base_and_replay shared_node n).0.fields q ≡ some state
unfolding try_rebuild_from_base_and_replay load_base
rebuild_keeps_progress n b q state based d all h =
    let carried : SharedNode = record b { link_sync_states = stash n.fields.link_sync_states } in
    let loaded : load_base shared_node n ≡ carried = ground (arith, based) in
    let same : link_sync_state carried q ≡ some state =
      link_sync_state-first carried q
      ∙ ap entry_of (first-stash q n.fields.link_sync_states)
      ∙ sym (link_sync_state-first n.fields q)
      ∙ h in
    let (m, at, keep) =
      replay_keeps carried n.journal q state
        (subst IsDistinct (sym (state_ids-stash n.fields.link_sync_states)) d) all same in
    let (fields, _) =
      try_replay_journal-replay shared_node
        (record n { fields = load_base shared_node n; generation = 1 }) m
        (ap (λ (f : SharedNode). replay shared_node f n.journal) loaded ∙ at) in
    ap (λ (f : SharedNode). link_sync_state f q) fields ∙ keep
