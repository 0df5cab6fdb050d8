-- ===== src/LinkSync/Delivered.antt =====
-- The list of delivered identities: it only grows, and never holds an identity twice.
use apptraverse.Prelude.{
  IsDistinct, IsDistinct-snoc, ◌≡◌, refl, Bool, false, ◌&&◌, ◌||◌, not, List, [], ◌∷◌, arith,
  contains, contains-append, ◌==◌, nat_eq, length,
}
use apptraverse.Identity.{SharedEventId, id_eq}
use apptraverse.LinkSync.{
  LinkSyncState, LinkSyncEvent, set_link_initial_sync_phase, begin_initial_sync,
  complete_initial_sync, note_initial_sync_received, complete_from_received_snapshot,
  begin_incremental_event_sync, complete_incremental_event_sync, note_delivered, note_all_delivered,
  with_origin, has_delivered, apply,
}

pub note_delivered-IsDistinct :
    (x : SharedEventId) (xs : List SharedEventId) → IsDistinct xs → IsDistinct (note_delivered x xs)
unfolding note_delivered
note_delivered-IsDistinct x xs d = ground (arith, IsDistinct-snoc xs x)

pub note_all_delivered-IsDistinct :
    (ids xs : List SharedEventId) → IsDistinct xs → IsDistinct (note_all_delivered ids xs)
unfolding note_all_delivered
note_all_delivered-IsDistinct [] xs d = d
note_all_delivered-IsDistinct (x ∷ ids) xs d =
    note_all_delivered-IsDistinct ids (note_delivered x xs) (note_delivered-IsDistinct x xs d)

contains-note_delivered :
    (x : SharedEventId) (xs : List SharedEventId) (q : SharedEventId)
    → contains (note_delivered x xs) q ≡ (contains xs q || (x == q))
unfolding note_delivered contains
contains-note_delivered x xs q = ground (arith, contains-append xs (x ∷ []) q, id_eq.beq_iff x q)

pub contains-note_all_delivered :
    (ids xs : List SharedEventId) (q : SharedEventId)
    → contains (note_all_delivered ids xs) q ≡ (contains xs q || contains ids q)
unfolding note_all_delivered contains
contains-note_all_delivered [] xs q = ground arith
contains-note_all_delivered (x ∷ ids) xs q =
    ground (
      arith,
      contains-note_all_delivered ids (note_delivered x xs) q,
      contains-note_delivered x xs q,
    )

contains-with_origin :
    (ids : List SharedEventId) (q : SharedEventId)
    → contains (with_origin ids) q ≡ (contains ids q && not (length q.origin_uid == 0))
unfolding with_origin contains
contains-with_origin [] q = refl
contains-with_origin (x ∷ ids) q = ground (arith, contains-with_origin ids q, id_eq.beq_iff x q)

-- What an event adds to the delivered identities.
unfoldable pub newly_delivered : LinkSyncEvent → LinkSyncState → SharedEventId → Bool
newly_delivered complete_initial_sync s q = contains s.pending_initial_covered_event_ids q
newly_delivered (complete_from_received_snapshot ids) s q =
    contains ids q && not (length q.origin_uid == 0)
newly_delivered complete_incremental_event_sync s q = s.pending_event_identity == q
newly_delivered _ s q = false

-- After an event exactly those identities are delivered that were before, with the ones that the
-- event settles: the covered ones where the initial state is acknowledged, those of a received
-- snapshot that have an origin, and the pending one where its packet is acknowledged.
pub has_delivered-apply :
    (e : LinkSyncEvent) (s : LinkSyncState) (q : SharedEventId)
    → has_delivered (apply e s) q ≡ (has_delivered s q || newly_delivered e s q)
unfolding has_delivered apply newly_delivered
has_delivered-apply (set_link_initial_sync_phase phase) s q = ground arith
has_delivered-apply (begin_initial_sync id packet covered) s q = ground arith
has_delivered-apply complete_initial_sync s q =
    contains-note_all_delivered s.pending_initial_covered_event_ids s.delivered_event_ids q
has_delivered-apply (note_initial_sync_received packet_id) s q = ground arith
has_delivered-apply (complete_from_received_snapshot ids) s q = ground (
  arith,
  contains-note_all_delivered (with_origin ids) s.delivered_event_ids q,
  contains-with_origin ids q,
)
has_delivered-apply (begin_incremental_event_sync id identity packet) s q = ground arith
has_delivered-apply complete_incremental_event_sync s q =
    contains-note_delivered s.pending_event_identity s.delivered_event_ids q
