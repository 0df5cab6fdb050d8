-- ===== src/SharedNode/Apply.antt =====
-- The `Apply` overloads of the shared node over its topology, and the operations that commit them.
use apptraverse.Prelude.{
  ℕ, ◌≡◌, refl, sym, ap, ◌∙◌, subst, Bool, true, false, ◌&&◌, not, Option, none, some, List, [],
  ◌∷◌, ◌++◌, arith, All, All-append, length, erase_at, leb, ◌==◌, nat_eq, ==_refl, contains,
  IsDistinct, any, any-append, index_of, index_of-lt, first, if◌then◌else◌,
}
use apptraverse.Journal.{Node}
use apptraverse.LinkSync.{LinkSyncState, LinkSyncEvent, new_link_sync_state}
use apptraverse.SharedNode.{
  SharedNode, Share, ShareEvent, add_share_event, remove_share_event, change_share_access_event,
  shares_link, has_share_id, syncs_share, find_share_index, find_share_index_for_share,
  find_link_sync_index_for_share, initialize_runtime_node, apply_share, link_sync_state,
}
use apptraverse.SharedNode.States.{
  States, new_state, opened, closed_lem, opened-IsDistinct, closed-IsDistinct, entry_of,
  link_sync_state-first, first-closed, first-opened,
}
use apptraverse.SharedNode.Topology.{
  state_ids, IsConsistent, IsSynced, share_ids, link_ids, share_asserted, any-has_share_id,
  any-shares_link, none_found, IsDistinct-erase, IsDistinct-map-snoc, erased_is_gone, All-erase,
  IsSynced-erase, IsSynced-append, share_ids-set, link_ids-set, IsSynced-set,
}

-- The new entry, or the one that is there already.
synced_new : (p l : ℕ) (states : States) → any (syncs_share p) (opened p l states) ≡ true
unfolding syncs_share initialize_runtime_node any
synced_new p l states = ground (
  arith,
  ==_refl p,
  index_of-lt (syncs_share p) states,
  any-append (syncs_share p) states (new_state p l ∷ []),
)

IsSynced-old :
    (shares : List Share) (states more : States) (b : Bool)
    → All (IsSynced states) shares
    → All (IsSynced (if b then states ++ more else states)) shares
IsSynced-old shares states more true all = IsSynced-append shares states more all
IsSynced-old shares states more false all = all

-- Where its assertions hold, each event keeps the topology consistent: no two relationships have the
-- same id or the same Link, every relationship has a synchronization state of its own id, and no id has
-- two states.
pub apply_share-IsConsistent :
    (e : ShareEvent) (n : SharedNode)
    → share_asserted e n ≡ true
    → IsConsistent n
    → IsConsistent (apply_share e n)
unfolding share_asserted apply_share find_share_index_for_share find_share_index
    find_link_sync_index_for_share
apply_share-IsConsistent (add_share_event p link access) n h c =
    let s : Share = record { share_id = p; link = link; access = access } in
    let new_id : contains (share_ids n.shares) p ≡ false =
      none_found _ _ _ (index_of-lt (has_share_id p) n.shares ∙ any-has_share_id n.shares p)
        (ground arith) in
    let new_link : contains (link_ids n.shares) link.id ≡ false =
      none_found _ _ _
        (index_of-lt (shares_link link.id) n.shares
          ∙ any-shares_link n.shares link.id (ground arith))
        (ground arith) in
    record {
      ids = IsDistinct-map-snoc (λ (x : Share). x.share_id) n.shares s new_id c.ids;
      links = IsDistinct-map-snoc (λ (x : Share). x.link.id) n.shares s new_link c.links;
      synced =
          All-append _ n.shares (s ∷ [])
            (IsSynced-old n.shares n.link_sync_states _
              (leb (length n.link_sync_states) (index_of (syncs_share p) n.link_sync_states))
              c.synced)
            (synced_new p link.id n.link_sync_states, tt);
      sole = opened-IsDistinct p link.id n.link_sync_states c.sole;
    }
apply_share-IsConsistent (remove_share_event p) n h c =
    let i = index_of (has_share_id p) n.shares in
    record {
      ids = IsDistinct-erase (λ (x : Share). x.share_id) n.shares i c.ids;
      links = IsDistinct-erase (λ (x : Share). x.link.id) n.shares i c.links;
      synced =
          subst (λ (states : States). All (IsSynced states) (erase_at n.shares i))
            (sym (closed_lem p n.link_sync_states))
            (IsSynced-erase (erase_at n.shares i) n.link_sync_states p
              (erased_is_gone n.shares p c.ids)
              (All-erase (IsSynced n.link_sync_states) n.shares i c.synced));
      sole = closed-IsDistinct p n.link_sync_states c.sole;
    }
apply_share-IsConsistent (change_share_access_event p access) n h c =
    let i = index_of (has_share_id p) n.shares in
    record {
      ids = subst IsDistinct (sym (share_ids-set access n.shares i)) c.ids;
      links = subst IsDistinct (sym (link_ids-set access n.shares i)) c.links;
      synced = IsSynced-set access n.link_sync_states n.shares i c.synced;
      sole = c.sole;
    }

-- The state that a relationship has after an event.
unfoldable pub state_after : ShareEvent → SharedNode → ℕ → Option (Node LinkSyncState LinkSyncEvent)
state_after (add_share_event p link access) n q =
    if (p == q) && not (any (syncs_share p) n.link_sync_states)
    then some (initialize_runtime_node (new_link_sync_state p link.id))
    else link_sync_state n q
state_after (remove_share_event p) n q = if p == q then none else link_sync_state n q
state_after (change_share_access_event p access) n q = link_sync_state n q

-- Where no id has two states, an added relationship gets a new state unless it has one, a removed one
-- loses its state, and every other relationship keeps the state it had.
pub link_sync_state-apply_share :
    (e : ShareEvent) (n : SharedNode) (q : ℕ)
    → IsDistinct (state_ids n.link_sync_states)
    → link_sync_state (apply_share e n) q ≡ state_after e n q
unfolding state_after apply_share find_link_sync_index_for_share
link_sync_state-apply_share (add_share_event p link access) n q sole =
    link_sync_state-first _ q
    ∙ ap entry_of (first-opened p link.id q n.link_sync_states)
    ∙ if-entry_of _ (some (new_state p link.id)) (first (syncs_share q) n.link_sync_states)
    ∙ ap
        (λ (x : Option (Node LinkSyncState LinkSyncEvent)).
          if (p == q) && not (any (syncs_share p) n.link_sync_states)
          then new_state p link.id
          else x)
        (sym (link_sync_state-first n q))
  where
    if-entry_of :
        (b : Bool) (x y : Option (Option (Node LinkSyncState LinkSyncEvent)))
        → entry_of (if b then x else y) ≡ (if b then entry_of x else entry_of y)
    if-entry_of true x y = refl
    if-entry_of false x y = refl
link_sync_state-apply_share (remove_share_event p) n q sole =
    link_sync_state-first _ q
    ∙ ap entry_of (first-closed p q n.link_sync_states sole)
    ∙ ground (arith, link_sync_state-first n q)
link_sync_state-apply_share (change_share_access_event p access) n q sole =
    link_sync_state-first _ q ∙ sym (link_sync_state-first n q)
