-- ===== src/LinkSync.antt =====
-- Synchronization progress of one Share relationship: `LinkSyncState` and its events, of
-- include/apptraverse/shared_node.h and src/shared_node.cpp. An object id 0 is not valid. The events
-- carry the id of the event object where `Apply` reads it.
pub mod Progress
pub mod Delivered
mod Runs
use apptraverse.Prelude.{
  ℕ, Bool, true, false, ◌&&◌, not, List, [], ◌∷◌, ◌++◌, if◌then◌else◌, length, contains, Bytes, Eq,
  ◌==◌, nat_eq, ◌≡◌, ◌↔◌, arith,
}
use apptraverse.Identity.{SharedEventId, id_eq}
use apptraverse.Journal.{Target}

pub data InitialSyncPhase : Type 0 where
  not_started pending complete : InitialSyncPhase

unfoldable pub phase_beq : InitialSyncPhase → InitialSyncPhase → Bool
phase_beq not_started not_started = true
phase_beq pending pending = true
phase_beq complete complete = true
phase_beq _ _ = false

pub record LinkSyncState : Type 0 where
  pub share_id : ℕ
  pub link : ℕ
  pub initial_sync_phase : InitialSyncPhase
  pub pending_initial_packet_id : ℕ
  pub pending_initial_packet : Bytes
  pub received_initial_packet_id : ℕ
  pub pending_initial_covered_event_ids : List SharedEventId
  pub delivered_event_ids : List SharedEventId
  pub pending_event_packet_id : ℕ
  pub pending_event_identity : SharedEventId
  pub pending_event_packet : Bytes

abbrev pub no_identity : SharedEventId
no_identity = record { origin_uid = []; origin_sequence = 0 }

-- A state as `AddShareEvent` creates it.
abbrev pub new_link_sync_state : ℕ → ℕ → LinkSyncState
new_link_sync_state share_id link = record {
  share_id = share_id;
  link = link;
  initial_sync_phase = not_started;
  pending_initial_packet_id = 0;
  pending_initial_packet = [];
  received_initial_packet_id = 0;
  pending_initial_covered_event_ids = [];
  delivered_event_ids = [];
  pending_event_packet_id = 0;
  pending_event_identity = no_identity;
  pending_event_packet = [];
}

pub data LinkSyncEvent : Type 0 where
  set_link_initial_sync_phase : InitialSyncPhase → LinkSyncEvent
  begin_initial_sync : ℕ → Bytes → List SharedEventId → LinkSyncEvent
  complete_initial_sync : LinkSyncEvent
  note_initial_sync_received : ℕ → LinkSyncEvent
  complete_from_received_snapshot : List SharedEventId → LinkSyncEvent
  begin_incremental_event_sync : ℕ → SharedEventId → Bytes → LinkSyncEvent
  complete_incremental_event_sync : LinkSyncEvent

unfoldable pub has_delivered : LinkSyncState → SharedEventId → Bool
has_delivered s identity = contains s.delivered_event_ids identity

unfoldable pub has_pending_event : LinkSyncState → Bool
has_pending_event s = not (s.pending_event_packet_id == 0)

-- `if (!HasDelivered(identity)) delivered_event_ids.push_back(identity)`.
unfoldable pub note_delivered : SharedEventId → List SharedEventId → List SharedEventId
note_delivered identity delivered =
    if contains delivered identity then delivered else delivered ++ identity ∷ []

unfoldable pub note_all_delivered : List SharedEventId → List SharedEventId → List SharedEventId
note_all_delivered [] delivered = delivered
note_all_delivered (identity ∷ ids) delivered =
    note_all_delivered ids (note_delivered identity delivered)

-- The loop of `CompleteFromReceivedSnapshotEvent` passes over identities without an origin.
unfoldable pub with_origin : List SharedEventId → List SharedEventId
with_origin [] = []
with_origin (identity ∷ ids) =
    let rest = with_origin ids in if length identity.origin_uid == 0 then rest else identity ∷ rest

-- The `Apply` overloads.
unfoldable pub apply : LinkSyncEvent → LinkSyncState → LinkSyncState
apply (set_link_initial_sync_phase phase) s = record s { initial_sync_phase = phase }
apply (begin_initial_sync id packet covered) s = record s {
  initial_sync_phase = pending;
  pending_initial_packet_id = id;
  pending_initial_packet = packet;
  pending_initial_covered_event_ids = covered;
}
apply complete_initial_sync s = record s {
  initial_sync_phase = complete;
  pending_initial_packet_id = 0;
  pending_initial_packet = [];
  delivered_event_ids =
      note_all_delivered s.pending_initial_covered_event_ids s.delivered_event_ids;
  pending_initial_covered_event_ids = [];
}
apply (note_initial_sync_received packet_id) s = record s {
  received_initial_packet_id = packet_id;
  initial_sync_phase = complete;
}
apply (complete_from_received_snapshot ids) s = record s {
  initial_sync_phase = complete;
  delivered_event_ids = note_all_delivered (with_origin ids) s.delivered_event_ids;
  pending_initial_packet_id = 0;
  pending_initial_packet = [];
  pending_initial_covered_event_ids = [];
}
apply (begin_incremental_event_sync id identity packet) s = record s {
  pending_event_packet_id = id;
  pending_event_identity = identity;
  pending_event_packet = packet;
}
apply complete_incremental_event_sync s = record s {
  delivered_event_ids = note_delivered s.pending_event_identity s.delivered_event_ids;
  pending_event_packet_id = 0;
  pending_event_identity = no_identity;
  pending_event_packet = [];
}

-- `CanApply`, which only one event has.
unfoldable pub can_apply : LinkSyncEvent → LinkSyncState → Bool
can_apply (complete_from_received_snapshot ids) s =
    phase_beq s.initial_sync_phase not_started && not (has_pending_event s)
can_apply _ s = true

-- The conditions that `Apply` and the methods which commit the event assert.
unfoldable pub asserted : LinkSyncEvent → LinkSyncState → Bool
asserted (begin_initial_sync id packet covered) s =
    phase_beq s.initial_sync_phase not_started && not (length packet == 0) && not (id == 0)
asserted (note_initial_sync_received packet_id) s = not (packet_id == 0)
asserted (begin_incremental_event_sync id identity packet) s =
    phase_beq s.initial_sync_phase complete
    && not (has_pending_event s)
    && not (length identity.origin_uid == 0)
    && not (identity.origin_sequence == 0)
    && not (length packet == 0)
    && not (id == 0)
asserted complete_incremental_event_sync s = has_pending_event s
asserted _ s = true

-- `LinkSyncState` as a node class; it keeps nothing across a rebuild.
abbrev pub link_sync : Target LinkSyncState LinkSyncEvent
link_sync = record {
  can_apply = can_apply;
  apply = apply;
  carry = λ live base. base;
  reload = λ s. s;
}
