-- ===== src/SyncRuntime/NextRuns.antt =====
-- The replica of the runs with an event of its own to send.
use apptraverse.Prelude.{
  ℕ, ◌≡◌, refl, arith, some, [], ◌∷◌, ◌++◌, index_of, list_beq, contains, nat_eq,
}
use apptraverse.Prelude.Assoc.{lookup}
use apptraverse.Journal.{EventRecord, Node, has_shared_identity, commit}
use apptraverse.LinkSync.{
  LinkSyncState, complete, begin_incremental_event_sync, has_delivered, has_pending_event,
  phase_beq, link_sync,
}
use apptraverse.LinkSync.Progress.{IsConsistent}
use apptraverse.SharedNode.{
  SharedNode, syncs_share, link_sync_state, find_link_sync_index_for_share,
  find_share_index_for_share, has_share_id,
}
use apptraverse.Frame.{encode_event_frame}
use apptraverse.SyncRuntime.{
  Runtime, find_node, send_to, share_endpoint, share_endpoint_of, next_undelivered,
  is_standalone_event_class_allowed,
}
use apptraverse.SyncRuntime.Handlers.{state_of, with_state, event_frame, sync_next_event}
use apptraverse.SyncRuntime.Next.{sync_next_event_lem}
use apptraverse.SyncRuntime.Runs.{
  counter_class, here, peer, fresh, progress, progress-IsReady, node, replica,
}

abbrev settled : LinkSyncState
settled = record fresh { initial_sync_phase = complete }

settled-IsConsistent : IsConsistent settled
unfolding has_pending_event
settled-IsConsistent = record {
  frozen = ground arith;
  cleared = λ h. (refl, refl, refl);
  event_frozen = ground arith;
  event_cleared = λ h. (refl, refl);
  distinct = tt;
}

abbrev own : EventRecord ℕ
own = record {
  event = some 4;
  identity = record { origin_uid = here; origin_sequence = 1 };
  timestamp_us = 130;
  retained_since_us = 130;
}

abbrev sender : Node (SharedNode × ℕ) ℕ
sender = record (node settled) {
  fields = ((node settled).fields.0, 7);
  journal = (node settled).journal ++ own ∷ [];
}

abbrev sending : Runtime (SharedNode × ℕ) ℕ
sending = record (replica settled) { nodes = (10, sender) ∷ [] }

sync_next_event_lem_example :
    let out = sync_next_event counter_class 200 77 10 40 sending in
    let packet = encode_event_frame (event_frame counter_class 77 10 40 own 4 (4 ∷ [])) in
    let begun =
      (commit link_sync 200
        (progress settled)
        (begin_incremental_event_sync 77 own.identity packet)).0 in
    (out.sent ≡ [] ++ (peer, packet, out.saved) ∷ [])
    × (lookup 10 out.saved ≡ some (with_state counter_class sender 40 begun))
    × (begun.fields.pending_event_packet ≡ packet)
    × IsConsistent begun.fields
    × ((later id : ℕ) → sync_next_event counter_class later id 10 40 out ≡ send_to peer packet out)
unfolding find_node lookup state_of link_sync_state find_link_sync_index_for_share index_of
    syncs_share share_endpoint_of share_endpoint find_share_index_for_share has_share_id phase_beq
    has_pending_event next_undelivered has_shared_identity has_delivered contains list_beq
    is_standalone_event_class_allowed
sync_next_event_lem_example =
    sync_next_event_lem counter_class 200 77 10 40 sending sender (progress settled) peer own 4
      (4 ∷ []) (λ s f. refl) refl refl refl (progress-IsReady settled) settled-IsConsistent
      (omega arith) (omega arith) refl refl refl (omega arith) refl refl refl
