-- ===== src/SyncRuntime/Import/Arrival.antt =====
-- The steps of `OnNodeState`: binding and acknowledging, and what becomes of the relationship of the source.
use apptraverse.Prelude.{
  ℕ, ◌<◌, ◌≡◌, refl, sym, ap, ◌∙◌, subst, inl, inr, Bool, true, false, ◌&&◌, ◌||◌, not, none, some,
  List, [], ◌∷◌, ◌++◌, arith, length, set, contains, is_some, if◌then◌else◌, Bool-cases,
  Option-cases, append-nil, Bytes, ◌==◌, nat_eq, bytes_eq, index_of, first,
}
use apptraverse.Prelude.Assoc.{lookup}
use apptraverse.Identity.{SharedEventId, id_eq}
use apptraverse.Journal.{EventRecord, Node, has_shared_identity, commit}
use apptraverse.LinkSync.{
  LinkSyncState, LinkSyncEvent, not_started, complete, phase_beq, apply, can_apply,
  complete_from_received_snapshot, has_delivered, has_pending_event, link_sync,
}
use apptraverse.LinkSync.Delivered.{has_delivered-apply, newly_delivered}
use apptraverse.SharedNode.{
  SharedNode, syncs_share, link_sync_state, find_link_sync_index_for_share,
}
use apptraverse.SharedNode.Topology.{syncs_share-apart}
use apptraverse.SharedNode.States.{entry_of, link_sync_state-first}
use apptraverse.Frame.{NodeStateFrame}
use apptraverse.SyncRuntime.{Sent, SharedClass, Runtime, send_to, next_undelivered}
use apptraverse.SyncRuntime.Handlers.{state_of, with_state}
use apptraverse.SyncRuntime.Ack.{IsReady, committed_fields}
use apptraverse.SyncRuntime.Initial.{IsLawful, with_state_lem, found_share_id}
use apptraverse.SyncRuntime.Import.{
  covered_ids, ack_of_node_state, expectation_of, close_expectation, bind_and_ack, complete_source,
}

-- An element that takes the place of one of another kind is not found among its own kind.
first-set_apart {ℓ} :
    {A : Type ℓ} (p q : A → Bool) (xs : List A) (x : A)
    → ((y : A) → p y ≡ true → q y ≡ false)
    → q x ≡ false
    → first q (set xs (index_of p xs) x) ≡ first q xs
unfolding first index_of
first-set_apart p q [] x apart h = refl
first-set_apart p q (y ∷ ys) x apart h =
    ground (arith, h, apart y, first-set_apart p q ys x apart h)

-- What the identities of a list of records say of a record in it.
module _ {E : Type 0} where
  unfoldable all_known : List (EventRecord E) → List SharedEventId → Bool
  all_known [] ids = true
  all_known (r ∷ rs) ids =
      (not (has_shared_identity r) || contains ids r.identity) && all_known rs ids

  all_known-grow :
      (rs : List (EventRecord E)) (x : SharedEventId) (ids : List SharedEventId)
      → all_known rs ids ≡ true
      → all_known rs (x ∷ ids) ≡ true
  unfolding all_known contains
  all_known-grow [] x ids h = refl
  all_known-grow (r ∷ rs) x ids h = ground (arith, h, all_known-grow rs x ids)

  covered-known : (rs : List (EventRecord E)) → all_known rs (covered_ids rs) ≡ true
  unfolding all_known covered_ids has_shared_identity contains
  covered-known [] = refl
  covered-known (r ∷ rs) = ground (
    arith,
    covered-known rs,
    all_known-grow rs r.identity (covered_ids rs),
    id_eq.beq_iff r.identity r.identity,
  )

  -- A peer to which every record is delivered needs none of them.
  none_needed :
      (rs : List (EventRecord E)) (ids : List SharedEventId) (s : LinkSyncState)
      (destination : Bytes)
      → ((q : SharedEventId)
          → has_delivered s q ≡ (contains ids q && not (length q.origin_uid == 0)))
      → all_known rs ids ≡ true
      → next_undelivered rs s destination ≡ none
  unfolding next_undelivered all_known has_shared_identity
  none_needed [] ids s destination delivered h = refl
  none_needed (r ∷ rs) ids s destination delivered h =
      ground (arith, delivered r.identity, none_needed rs ids s destination delivered, h)

module _ {S E : Type 0} where
  -- The acknowledgement, if any, with the storage at the time.
  abbrev pub answer : Bool → Bytes → NodeStateFrame → List (ℕ × Node S E) → List (Sent S E)
  answer answered source frame saved =
      if answered then (source, ack_of_node_state frame, saved) ∷ [] else []

  append_nothing : (xs : List (Sent S E)) → xs ≡ xs ++ []
  append_nothing xs = sym (append-nil xs)

  -- Whether the end of `OnNodeState` acknowledges the frame.
  unfoldable pub is_bound : (Bytes → Node S E → Bool) → Bytes → Node S E → Runtime S E → Bool
  is_bound bind source n rt = not (is_some (expectation_of rt source)) || bind source n

  pub bind_and_ack_lem :
      (bind : Bytes → Node S E → Bool) (source : Bytes) (frame : NodeStateFrame) (n : Node S E)
      (rt : Runtime S E)
      → let out = bind_and_ack bind source frame n rt in
        (out.nodes ≡ rt.nodes)
        × (out.saved ≡ rt.saved)
        × (out.sent ≡ rt.sent ++ answer (is_bound bind source n rt) source frame rt.saved)
  unfolding bind_and_ack is_bound send_to close_expectation
  bind_and_ack_lem bind source frame n rt = elim (Option-cases (expectation_of rt source)) [
    | inl closed ↦ ground (arith, closed)
    | inr (e, waits) ↦ elim (Bool-cases (bind source n)) [
      | inl bound ↦ ground (arith, waits, bound)
      | inr refused ↦ ground (arith, waits, refused, append_nothing rt.sent)
    ]
  ]

pub lookup-append_none {ℓ} :
    {V : Type ℓ} (k : ℕ) (v : V) (m : List (ℕ × V))
    → lookup k m ≡ none
    → lookup k (m ++ (k, v) ∷ []) ≡ some v
unfolding lookup
lookup-append_none k v [] h = ground arith
lookup-append_none k v ((j, w) ∷ m) h = ground (arith, h, lookup-append_none k v m)

delivered_covered :
    (ids : List SharedEventId) (s : LinkSyncState) (q : SharedEventId)
    → s.delivered_event_ids ≡ []
    → has_delivered (apply (complete_from_received_snapshot ids) s) q
      ≡ (contains ids q && not (length q.origin_uid == 0))
unfolding newly_delivered has_delivered contains
delivered_covered ids s q new =
    ground (arith, new, has_delivered-apply (complete_from_received_snapshot ids) s q)

module _ {E : Type 0} where
  -- A state that has not started takes the covered events of a snapshot; then none of them is needed.
  covered_lem :
      (rs : List (EventRecord E)) (s : LinkSyncState)
      → s.initial_sync_phase ≡ not_started
      → has_pending_event s ≡ false
      → s.delivered_event_ids ≡ []
      → let e = complete_from_received_snapshot (covered_ids rs) in
        (can_apply e s ≡ true)
        × ((apply e s).share_id ≡ s.share_id)
        × ((apply e s).initial_sync_phase ≡ complete)
        × ((destination : Bytes) → next_undelivered rs (apply e s) destination ≡ none)
  unfolding can_apply phase_beq apply
  covered_lem rs s phase idle new =
      let e = complete_from_received_snapshot (covered_ids rs) in
      (
        ground (arith, phase, idle),
        refl,
        refl,
        λ destination.
            none_needed rs (covered_ids rs) (apply e s) destination
              (λ q. delivered_covered (covered_ids rs) s q new) (covered-known rs),
      )

module _ {S E : Type 0} (c : SharedClass S E) where
  -- What is put for one relationship leaves the state of another as it is.
  pub with_state-apart :
      (n : Node S E) (p q : ℕ) (new : Node LinkSyncState LinkSyncEvent)
      → IsLawful c
      → (new.fields.share_id == p) ≡ true
      → (p == q) ≡ false
      → state_of c (with_state c n p new) q ≡ state_of c n q
  unfolding state_of with_state find_link_sync_index_for_share syncs_share
  with_state-apart n p q new lawful own other =
      let s = c.shared n.fields in
      let differ : ¬ (p ≡ q) = λ e. ground (arith, e, other) in
      let put : SharedNode = record s {
        link_sync_states = set s.link_sync_states (find_link_sync_index_for_share s p) (some new);
      } in
      ap (λ (x : SharedNode). link_sync_state x q) (lawful put n.fields)
      ∙ link_sync_state-first put q
      ∙ ap entry_of (
          first-set_apart (syncs_share p) (syncs_share q) s.link_sync_states (some new)
            (syncs_share-apart p q differ) (ground (arith, own, other)))
      ∙ sym (link_sync_state-first s q)

  -- The relationship of the source after the import: complete, with exactly the covered events delivered.
  pub complete_source_lem :
      (now_us p : ℕ) (n : Node S E) (src : Node LinkSyncState LinkSyncEvent)
      → IsLawful c
      → state_of c n p ≡ some src
      → IsReady src
      → 0 < now_us
      → src.fields.initial_sync_phase ≡ not_started
      → has_pending_event src.fields ≡ false
      → src.fields.delivered_event_ids ≡ []
      → let m = complete_source c now_us p n in
        (m.journal ≡ n.journal)
        × ((q : ℕ) → (p == q) ≡ false → state_of c m q ≡ state_of c n q)
        × (done : Node LinkSyncState LinkSyncEvent) × (state_of c m p ≡ some done)
        × (done.fields.initial_sync_phase ≡ complete)
        × ((destination : Bytes) → next_undelivered n.journal done.fields destination ≡ none)
  unfolding complete_source with_state state_of
  complete_source_lem now_us p n src lawful at ready pos phase idle new =
      let e = complete_from_received_snapshot (covered_ids n.journal) in
      let settled = (commit link_sync now_us src e).0 in
      let (can, same, done, none_left) = covered_lem n.journal src.fields phase idle new in
      let fields : settled.fields ≡ apply e src.fields =
        committed_fields now_us src e ready pos can in
      let own : (settled.fields.share_id == p) ≡ true =
        ap (λ (s : LinkSyncState). s.share_id == p) fields
        ∙ ap (λ (x : ℕ). x == p) same
        ∙ found_share_id (c.shared n.fields) p src at in
      let m = with_state c n p settled in
      let run : complete_source c now_us p n ≡ m = ground (arith, at) in
      subst
        (λ (x : Node S E).
          (x.journal ≡ n.journal)
          × ((q : ℕ) → (p == q) ≡ false → state_of c x q ≡ state_of c n q)
          × (done : Node LinkSyncState LinkSyncEvent) × (state_of c x p ≡ some done)
          × (done.fields.initial_sync_phase ≡ complete)
          × ((destination : Bytes) → next_undelivered n.journal done.fields destination ≡ none))
        (sym run)
        (
          refl,
          (λ q other. with_state-apart n p q settled lawful own other),
          settled,
          (with_state_lem c n p src settled lawful at own).0,
          ap (λ (s : LinkSyncState). s.initial_sync_phase) fields ∙ done,
          (λ destination.
              subst (λ (s : LinkSyncState). next_undelivered n.journal s destination ≡ none)
                (sym fields) (none_left destination)),
        )
