-- ===== src/SyncRuntime/Import/Runs.antt =====
-- A counter that arrives at the replica from a peer which is expected, and the theorems at it.
use apptraverse.Prelude.{
  Option, ℕ, ◌≡◌, ◌⊎◌, refl, arith, Bool, true, false, none, some, [], ◌∷◌, ◌++◌, Bytes, nat_eq,
  bytes_eq, list_beq, any, index_of, first,
}
use apptraverse.Prelude.Assoc.{lookup}
use apptraverse.Journal.{
  Node, try_replay_from_base, apply_event, ensure_from, note_materialized_change,
  try_ensure_current_generation, try_rebuild_from_base_and_replay, load_base, try_replay_journal,
}
use apptraverse.LinkSync.{
  LinkSyncState, LinkSyncEvent, complete, new_link_sync_state, has_pending_event,
}
use apptraverse.SharedNode.{
  SharedNode, read_write, syncs_share, link_sync_state, find_link_sync_index_for_share,
  find_share_index_for_share, has_share_id,
}
use apptraverse.Frame.{NodeStateFrame, AckFrame, EventFrame}
use apptraverse.SyncRuntime.{
  Runtime, find_node, addressed_to_this_replica, share_endpoint, share_endpoint_of, is_endpoint,
  topology_knows_endpoint, next_undelivered,
}
use apptraverse.SyncRuntime.Handlers.{state_of, on_ack, on_event}
use apptraverse.SyncRuntime.Runs.{
  counter_class, counter, here, peer, fresh, progress, progress-IsReady, replica, node,
}
use apptraverse.SyncRuntime.Import.{
  GraphReader, records_admissible, has_endpoint, shares_admissible, snapshot_admissible,
  source_share_ids, sole_share, expectation_of, is_awaited, root_class_allowed, parsed_graph,
  inspect_candidate, import_validated_node, on_node_state, on_bytes,
}
use apptraverse.SyncRuntime.Import.Admission.{Admitted, IsFaithfulLoad, import_validated_node_lem}
use apptraverse.NetworkGraph.{
  State, Registry, Archive, derives, layers_known, class_ids, related_to_all, all_related,
  comes_before, place, sort_chain, last_of, all_ancestors, object_chain,
  validate_stored_class_chains, active_ids, deserialize_object_graph,
}
use apptraverse.SyncRuntime.Import.Untrusted.{
  network_reader, IsSound, import_validated_node-IsSound,
}
use apptraverse.SyncRuntime.Import.Arrival.{is_bound, answer}
use apptraverse.SyncRuntime.Import.Imported.{on_node_state_imports}
use apptraverse.SyncRuntime.Import.Dispatch.{
  IsNodeStateBytes, IsAckBytes, IsEventBytes, IsForeign, on_bytes_lem,
}

abbrev newcomer : Node (SharedNode × ℕ) ℕ
newcomer = record (node fresh) {
  base = some (
    record {
      shares =
          record {
            share_id = 40;
            link = record { id = 5; endpoint = some peer };
            access = read_write;
          }
          ∷ record {
            share_id = 41;
            link = record { id = 6; endpoint = some here };
            access = read_write;
          }
          ∷ [];
      link_sync_states =
          some (progress (new_link_sync_state 40 5))
          ∷ some (progress (new_link_sync_state 41 6))
          ∷ [];
    },
    1,
  );
}

abbrev reader : GraphReader (SharedNode × ℕ) ℕ ℕ
reader = record {
  parse_graph = λ payload. some 0;
  class_chains = λ graph. some ((30, 7) ∷ []);
  derives_shared_node = λ class_id. true;
  event_targets = λ e class_id. true;
  load_root = λ graph node_id. some (7, newcomer);
  object_ids = λ graph. 30 ∷ 31 ∷ [];
  load_own = λ graph node_id. newcomer;
}

reader-IsFaithfulLoad : IsFaithfulLoad counter_class reader
reader-IsFaithfulLoad graph node_id class_id candidate h = ground (arith, h)

abbrev waiting : Runtime (SharedNode × ℕ) ℕ
waiting = record (replica fresh) {
  expected_endpoint_nodes =
      record { source_endpoint = peer; expected_root_class_id = 7; expected_node_id = 0 } ∷ [];
}

abbrev nothing_occupied : ℕ → Bool
nothing_occupied node_id = false

abbrev state_frame : NodeStateFrame
state_frame = record {
  packet_id = 80;
  target_node_id = 30;
  destination_share_id = 41;
  payload = 1 ∷ [];
}

abbrev arrived : Node (SharedNode × ℕ) ℕ
unfolding try_replay_from_base
arrived = (try_replay_from_base counter newcomer).0

imports :
    import_validated_node counter_class reader nothing_occupied waiting peer state_frame
    ≡ some (arrived, 40)
unfolding import_validated_node is_awaited expectation_of first list_beq parsed_graph lookup
    root_class_allowed inspect_candidate snapshot_admissible try_replay_from_base
    try_rebuild_from_base_and_replay load_base try_replay_journal try_ensure_current_generation
    ensure_from apply_event note_materialized_change records_admissible shares_admissible
    find_share_index_for_share has_share_id index_of has_endpoint share_endpoint
    addressed_to_this_replica is_endpoint share_endpoint_of topology_knows_endpoint any
    source_share_ids sole_share state_of link_sync_state find_link_sync_index_for_share syncs_share
imports = refl

import_validated_node_lem_example :
    Admitted counter_class reader nothing_occupied waiting peer state_frame arrived 40
import_validated_node_lem_example =
    import_validated_node_lem counter_class reader nothing_occupied waiting peer state_frame arrived
      40 reader-IsFaithfulLoad imports

abbrev always : Bytes → Node (SharedNode × ℕ) ℕ → Bool
always source n = true

on_node_state_imports_example :
    let out =
      on_node_state counter_class reader 200 nothing_occupied always peer state_frame waiting in
    (m : Node (SharedNode × ℕ) ℕ) × (find_node out 30 ≡ some m)
    × (lookup 30 out.saved ≡ some m)
    × (m.journal ≡ arrived.journal)
    × ((done : Node LinkSyncState LinkSyncEvent) × (state_of counter_class m 40 ≡ some done)
        × (done.fields.initial_sync_phase ≡ complete)
        × ((to : Bytes) → next_undelivered m.journal done.fields to ≡ none))
    × ((done : Node LinkSyncState LinkSyncEvent) × (state_of counter_class m 41 ≡ some done)
        × (done.fields.received_initial_packet_id ≡ 80)
        × (done.fields.initial_sync_phase ≡ complete))
    × (out.sent ≡ [] ++ answer (is_bound always peer m waiting) peer state_frame out.saved)
unfolding find_node lookup state_of link_sync_state find_link_sync_index_for_share index_of
    syncs_share has_pending_event try_replay_from_base try_rebuild_from_base_and_replay load_base
    try_replay_journal try_ensure_current_generation ensure_from apply_event
    note_materialized_change
on_node_state_imports_example =
    on_node_state_imports counter_class reader 200 nothing_occupied always peer state_frame waiting
      arrived 40 (progress (new_link_sync_state 40 5)) (progress (new_link_sync_state 41 6))
      (λ s f. refl) reader-IsFaithfulLoad refl imports refl refl
      (progress-IsReady (new_link_sync_state 40 5)) (progress-IsReady (new_link_sync_state 41 6))
      (omega arith) (omega arith) refl refl refl refl

-- The relationship 40 of the counter has no packet, so a repeated frame for it is not acknowledged.
abbrev repeated : NodeStateFrame
repeated = record state_frame { target_node_id = 10; destination_share_id = 40 }

-- An acknowledgement with the ids 7, 300 and 9.
abbrev ack_bytes : Bytes
ack_bytes = 2 ∷ 1 ∷ 0 ∷ 0 ∷ 0 ∷ 7 ∷ 0 ∷ 0 ∷ 1 ∷ 44 ∷ 0 ∷ 0 ∷ 0 ∷ 9 ∷ []

on_bytes_lem_example :
    let out =
      on_bytes counter_class reader nothing_occupied 200 nothing_occupied always peer ack_bytes
        waiting in
    (IsForeign nothing_occupied ack_bytes × (out ≡ waiting))
    ⊎ ((f : NodeStateFrame) × IsNodeStateBytes ack_bytes f
        × (out ≡ on_node_state counter_class reader 200 nothing_occupied always peer f waiting))
    ⊎ ((f : AckFrame) × IsAckBytes ack_bytes f × (out ≡ on_ack counter_class 200 peer f waiting))
    ⊎ ((f : EventFrame) × IsEventBytes nothing_occupied ack_bytes f
        × (out ≡ on_event counter_class 200 peer f waiting))
on_bytes_lem_example =
    on_bytes_lem counter_class reader nothing_occupied 200 nothing_occupied always peer ack_bytes
      waiting (omega arith)

abbrev one_class : Registry
one_class = record {
  obj_class = 1;
  event_class = 2;
  is_existing = λ class_id. true;
  generation_distance = λ base derived. some 1;
  complete_factory = λ class_id. true;
}

abbrev stored_graph : State
stored_graph = (30, some ((7, (0, []) ∷ []) ∷ [])) ∷ []

abbrev graph_archive : Archive
graph_archive = record {
  save_id = λ id. [];
  save_state = λ state. none;
  load_id = λ bytes. none;
  load_state = λ bytes. some (stored_graph, []);
}

abbrev targets : ℕ → ℕ → Bool
targets e class_id = true

abbrev loads : State → ℕ → Option (ℕ × Node (SharedNode × ℕ) ℕ)
loads graph node_id = some (7, newcomer)

abbrev loads_own : State → ℕ → Node (SharedNode × ℕ) ℕ
loads_own graph node_id = newcomer

imports_graph :
    import_validated_node counter_class
      (network_reader graph_archive one_class 3 targets loads loads_own)
      nothing_occupied
      waiting
      peer
      state_frame
    ≡ some (arrived, 40)
unfolding import_validated_node is_awaited expectation_of first list_beq parsed_graph lookup
    root_class_allowed inspect_candidate snapshot_admissible try_replay_from_base
    try_rebuild_from_base_and_replay load_base try_replay_journal try_ensure_current_generation
    ensure_from apply_event note_materialized_change records_admissible shares_admissible
    find_share_index_for_share has_share_id index_of has_endpoint share_endpoint
    addressed_to_this_replica is_endpoint share_endpoint_of topology_knows_endpoint any
    source_share_ids sole_share state_of link_sync_state find_link_sync_index_for_share syncs_share
    deserialize_object_graph validate_stored_class_chains object_chain sort_chain class_ids place
    comes_before last_of layers_known all_related related_to_all derives all_ancestors active_ids
imports_graph = refl

import_validated_node-IsSound_example :
    IsSound graph_archive one_class 3 nothing_occupied state_frame
import_validated_node-IsSound_example =
    import_validated_node-IsSound graph_archive one_class 3 targets loads loads_own counter_class
      nothing_occupied waiting peer state_frame arrived 40 imports_graph
