-- ===== src/SharedNode/Operations.antt =====
-- The operations `AddShare` and `RemoveShare` on a live shared node.
use apptraverse.Prelude.{
  if◌then◌else◌, erase_at, of_some, Bool-cases, IsDistinct, ℕ, ◌≡◌, ◌<◌, refl, sym, ap, ◌∙◌, inl,
  inr, Bool, true, false, none, some, List, [], ◌∷◌, ◌++◌, arith, get_elem?, ◌==◌, nat_eq, ==_refl,
  contains, any, index_of, index_of-lt, index_of-end, first, first-append_right, get_elem?-index_of,
  if_true, if_false, subst,
}
use apptraverse.Journal.{Node, commit}
use apptraverse.Journal.Insertion.{}
use apptraverse.Journal.Commit.{IsLive, fields-commit}
use apptraverse.LinkSync.{not_started}
use apptraverse.SharedNode.{
  SharedNode, Share, Link, ShareEvent, add_share_event, remove_share_event, shares_link,
  has_share_id, syncs_share, find_share_index, find_share_index_for_share, initialize_runtime_node,
  apply_share, shared_node, add_share, remove_share, link_sync_state, get_initial_sync_phase,
}
use apptraverse.SharedNode.Topology.{
  IsConsistent, link_ids, any-shares_link, share_ids, state_ids, share_asserted, any-has_share_id,
  any-syncs_share,
}
use apptraverse.SharedNode.Apply.{
  apply_share-IsConsistent, state_after, link_sync_state-apply_share,
}

abbrev pub IsReady : Node SharedNode ShareEvent → Type 0
IsReady = IsLive shared_node

committed_fields :
    (now_us : ℕ) (n : Node SharedNode ShareEvent) (e : ShareEvent)
    → IsReady n
    → 0 < now_us
    → (commit shared_node now_us n e).0.fields ≡ apply_share e n.fields
committed_fields now_us n e r pos = fields-commit shared_node now_us n e r pos refl

-- The relationship over a Link that was not shared.
new_phase :
    (n : SharedNode) (event_id : ℕ) (link : Link) (access : ℕ)
    → IsConsistent n
    → (link.id == 0) ≡ false
    → any (shares_link link.id) n.shares ≡ false
    → contains (state_ids n.link_sync_states) event_id ≡ false
    → get_initial_sync_phase (apply_share (add_share_event event_id link access) n) link
      ≡ not_started
unfolding get_initial_sync_phase find_share_index apply_share state_after first shares_link
    initialize_runtime_node
new_phase n event_id link access c valid unshared fresh =
    let s : Share = record { share_id = event_id; link = link; access = access } in
    let found : get_elem? (n.shares ++ s ∷ []) (index_of (shares_link link.id) (n.shares ++ s ∷ []))
        ≡ some s =
      get_elem?-index_of (shares_link link.id) (n.shares ++ s ∷ [])
      ∙ first-append_right (shares_link link.id) n.shares (s ∷ []) unshared
      ∙ ground (arith, ==_refl link.id) in
    let no_state : any (syncs_share event_id) n.link_sync_states ≡ false =
      any-syncs_share n.link_sync_states event_id ∙ fresh in
    let state =
      link_sync_state-apply_share (add_share_event event_id link access) n event_id c.sole in
    ground (arith, found, no_state, state, ==_refl event_id)

add_share-unshared :
    (now_us event_id : ℕ) (link : Link) (access : ℕ) (n : Node SharedNode ShareEvent)
    → IsReady n
    → 0 < now_us
    → any (shares_link link.id) n.fields.shares ≡ false
    → (add_share now_us event_id link access n).fields
      ≡ apply_share (add_share_event event_id link access) n.fields
unfolding add_share find_share_index
add_share-unshared now_us event_id link access n r pos unshared =
    ap (λ (out : Node SharedNode ShareEvent). out.fields)
      (if_false _ _ (index_of-lt (shares_link link.id) n.fields.shares ∙ unshared))
    ∙ committed_fields now_us n (add_share_event event_id link access) r pos

add_asserted :
    (event_id : ℕ) (link : Link) (access : ℕ) (n : SharedNode)
    → (link.id == 0) ≡ false
    → (event_id == 0) ≡ false
    → any (shares_link link.id) n.shares ≡ false
    → contains (share_ids n.shares) event_id ≡ false
    → share_asserted (add_share_event event_id link access) n ≡ true
unfolding share_asserted find_share_index find_share_index_for_share
add_asserted event_id link access n valid valid_id unshared fresh = ground (
  arith,
  index_of-end (shares_link link.id) n.shares,
  index_of-end (has_share_id event_id) n.shares,
  any-has_share_id n.shares event_id,
)

-- On a live node with a consistent topology, sharing a valid Link that is not shared, with an event id that
-- no relationship or state of the node has, keeps the topology consistent; the relationship is added at the
-- end, and it has not started its initial synchronization, although the Link may have had one before.
pub add_share_lem :
    (now_us event_id : ℕ) (link : Link) (access : ℕ) (n : Node SharedNode ShareEvent)
    → IsReady n
    → IsConsistent n.fields
    → 0 < now_us
    → (link.id == 0) ≡ false
    → (event_id == 0) ≡ false
    → contains (share_ids n.fields.shares) event_id ≡ false
    → contains (state_ids n.fields.link_sync_states) event_id ≡ false
    → any (shares_link link.id) n.fields.shares ≡ false
    → let out = (add_share now_us event_id link access n).fields in
      IsConsistent out
      × (out.shares
          ≡ n.fields.shares ++ record { share_id = event_id; link = link; access = access } ∷ [])
      × (get_initial_sync_phase out link ≡ not_started)
unfolding apply_share
add_share_lem now_us event_id link access n r c pos valid valid_id fresh unsynced unshared =
    let e = add_share_event event_id link access in
    let at = add_share-unshared now_us event_id link access n r pos unshared in
    let asserted = add_asserted event_id link access n.fields valid valid_id unshared fresh in
    (
      subst IsConsistent (sym at) (apply_share-IsConsistent e n.fields asserted c),
      ap (λ (f : SharedNode). f.shares) at,
      ap (λ (f : SharedNode). get_initial_sync_phase f link) at
          ∙ new_phase n.fields event_id link access c valid unshared unsynced,
    )

any_of_first :
    (p q : Share → Bool) (xs : List Share) (a : Share)
    → first p xs ≡ some a
    → q a ≡ true
    → any q xs ≡ true
unfolding any first
any_of_first p q [] a h k = absurd (ground arith)
any_of_first p q (x ∷ xs) a h k = elim (Bool-cases (p x)) [
  | inl holds ↦ ground (arith, ap q (of_some (sym (if_true _ _ holds) ∙ h)))
  | inr fails ↦ ground (arith, any_of_first p q xs a (sym (if_false _ _ fails) ∙ h) k)
]

-- The share that the Link finds is the one that its id finds.
index_of_found :
    (p : Share → Bool) (xs : List Share) (a : Share)
    → IsDistinct (share_ids xs)
    → first p xs ≡ some a
    → index_of (has_share_id a.share_id) xs ≡ index_of p xs
unfolding first index_of has_share_id
index_of_found p [] a d h = refl
index_of_found p (x ∷ xs) a d h = elim (Bool-cases (p x)) [
  | inl holds ↦
      let same : x ≡ a = of_some (sym (if_true _ _ holds) ∙ h) in
      if_true _ _ ((nat_eq.beq_iff _ _).1 (ap (λ (s : Share). s.share_id) same))
      ∙ sym (if_true _ _ holds)
  | inr fails ↦
      let later = sym (if_false _ _ fails) ∙ h in
      let there = any_of_first p (has_share_id a.share_id) xs a later (==_refl a.share_id) in
      ground
        (arith, fails, any-has_share_id xs a.share_id, there, d.0, index_of_found p xs a d.1 later)
]

link_is_gone :
    (xs : List Share) (l : ℕ)
    → ¬ (l ≡ 0)
    → IsDistinct (link_ids xs)
    → any (shares_link l) (erase_at xs (index_of (shares_link l) xs)) ≡ false
unfolding any index_of shares_link
link_is_gone [] l valid d = refl
link_is_gone (x ∷ xs) l valid d =
    ground (arith, link_is_gone xs l valid d.1, any-shares_link xs l valid, d.0)

remove_share-shared :
    (now_us : ℕ) (link : Link) (n : Node SharedNode ShareEvent) (s : Share)
    → IsReady n
    → 0 < now_us
    → first (shares_link link.id) n.fields.shares ≡ some s
    → (remove_share now_us link n).fields ≡ apply_share (remove_share_event s.share_id) n.fields
unfolding remove_share find_share_index
remove_share-shared now_us link n s r pos found = ground (
  arith,
  get_elem?-index_of (shares_link link.id) n.fields.shares,
  found,
  committed_fields now_us n (remove_share_event s.share_id) r pos,
)

-- On a live node with a consistent topology, closing the relationship of a valid Link that is shared
-- keeps the topology consistent; the Link is no longer shared, the relationship has no
-- synchronization state any more, and every other relationship keeps its own.
pub remove_share_lem :
    (now_us : ℕ) (link : Link) (n : Node SharedNode ShareEvent) (s : Share)
    → IsReady n
    → IsConsistent n.fields
    → 0 < now_us
    → ¬ (link.id ≡ 0)
    → first (shares_link link.id) n.fields.shares ≡ some s
    → let out = (remove_share now_us link n).fields in
      IsConsistent out
      × (any (shares_link link.id) out.shares ≡ false)
      × ((q : ℕ)
          → link_sync_state out q ≡ (if s.share_id == q then none else link_sync_state n.fields q))
unfolding apply_share share_asserted find_share_index_for_share state_after has_share_id
remove_share_lem now_us link n s r c pos valid found =
    let e = remove_share_event s.share_id in
    let at = remove_share-shared now_us link n s r pos found in
    let index = index_of_found (shares_link link.id) n.fields.shares s c.ids found in
    let there =
      any_of_first (shares_link link.id) (has_share_id s.share_id) n.fields.shares s found
        (==_refl s.share_id) in
    let asserted : share_asserted e n.fields ≡ true =
      index_of-lt (has_share_id s.share_id) n.fields.shares ∙ there in
    (
      subst IsConsistent (sym at) (apply_share-IsConsistent e n.fields asserted c),
      ap (λ (f : SharedNode). any (shares_link link.id) f.shares) at
          ∙ ap (λ (i : ℕ). any (shares_link link.id) (erase_at n.fields.shares i)) index
          ∙ link_is_gone n.fields.shares link.id valid c.links,
      λ q.
          ap (λ (f : SharedNode). link_sync_state f q) at
          ∙ link_sync_state-apply_share e n.fields q c.sole,
    )
