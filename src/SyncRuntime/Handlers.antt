-- ===== src/SyncRuntime/Handlers.antt =====
-- The drivers `SyncInitialState` and `SyncNextEvent` and the handlers `OnAck` and `OnEvent` of
-- src/shared_sync_runtime.cpp. `now_us` is the clock at the commit, `event_id` the object id of a new event.
use apptraverse.Prelude.{
  ℕ, Bool, false, ◌&&◌, not, Option, none, some, if◌then◌else◌, set, Bytes, ◌==◌, nat_eq, bytes_eq,
}
use apptraverse.Journal.{EventRecord, Node, find_shared_event, commit, try_commit_shared}
use apptraverse.LinkSync.{
  LinkSyncState, LinkSyncEvent, not_started, pending, complete, phase_beq, begin_initial_sync,
  complete_initial_sync, begin_incremental_event_sync, complete_incremental_event_sync,
  has_pending_event, link_sync,
}
use apptraverse.SharedNode.{find_link_sync_index_for_share, link_sync_state}
use apptraverse.Frame.{
  NodeStateFrame, AckFrame, EventFrame, encode_node_state_frame, encode_ack_frame,
  encode_event_frame,
}
use apptraverse.SyncRuntime.{
  SharedClass, Runtime, share_endpoint_of, is_endpoint, event_addressed_to_this_replica,
  next_undelivered, find_node, is_standalone_event_class_allowed, send_to, put_node,
}

module _ {S E : Type 0} (c : SharedClass S E) where
  -- The synchronization state of the relationship in a node, and the node with another one.
  unfoldable pub state_of : Node S E → ℕ → Option (Node LinkSyncState LinkSyncEvent)
  state_of n share_id = link_sync_state (c.shared n.fields) share_id

  unfoldable pub with_state : Node S E → ℕ → Node LinkSyncState LinkSyncEvent → Node S E
  with_state n share_id state =
      let s = c.shared n.fields in
      record n {
        fields =
            c.with_shared
              (record s {
                link_sync_states =
                    set s.link_sync_states (find_link_sync_index_for_share s share_id) (some state);
              })
              n.fields;
      }

  -- The event is committed to the state, and the node is saved with the state: the two calls of `Save`
  -- follow each other, and what lies between them is not told apart.
  unfoldable pub commit_state :
      ℕ
      → ℕ
      → ℕ
      → Node S E
      → Node LinkSyncState LinkSyncEvent
      → LinkSyncEvent
      → Runtime S E
      → Runtime S E
  commit_state now_us node_id share_id n state e rt =
      put_node node_id (with_state n share_id (commit link_sync now_us state e).0) rt

  unfoldable pub on_ack : ℕ → Bytes → AckFrame → Runtime S E → Runtime S E
  on_ack now_us source frame rt = elim (find_node rt frame.target_node_id) [
    | none ↦ rt
    | some n ↦
        if is_endpoint source (share_endpoint_of (c.shared n.fields) frame.destination_share_id)
        then elim (state_of n frame.destination_share_id) [
          | none ↦ rt
          | some state ↦
              if phase_beq state.fields.initial_sync_phase pending
                && (state.fields.pending_initial_packet_id == frame.packet_id)
              then commit_state now_us frame.target_node_id frame.destination_share_id n state
                  complete_initial_sync rt
              else if phase_beq state.fields.initial_sync_phase complete
                  && (state.fields.pending_event_packet_id == frame.packet_id)
              then commit_state now_us frame.target_node_id frame.destination_share_id n state
                  complete_incremental_event_sync rt
              else rt
        ]
        else rt
  ]

  -- The frame that freezes the node as it is.
  unfoldable pub initial_frame : ℕ → ℕ → ℕ → Node S E → NodeStateFrame
  initial_frame event_id node_id share_id n = record {
    packet_id = event_id;
    target_node_id = node_id;
    destination_share_id = share_id;
    payload = (c.freeze_node n).0;
  }

  -- The node must be registered, the relationship open, with an endpoint, and not this replica's own.
  unfoldable pub sync_initial_state : ℕ → ℕ → ℕ → ℕ → Runtime S E → Runtime S E
  sync_initial_state now_us event_id node_id share_id rt = elim (find_node rt node_id) [
    | none ↦ rt
    | some n ↦ elim (share_endpoint_of (c.shared n.fields) share_id) [
      | none ↦ rt
      | some destination ↦ elim (state_of n share_id) [
        | none ↦ rt
        | some state ↦ elim state.fields.initial_sync_phase [
          | complete ↦ rt
          | pending ↦ send_to destination state.fields.pending_initial_packet rt
          | not_started ↦
              let packet = encode_node_state_frame (initial_frame event_id node_id share_id n) in
              let e = begin_initial_sync event_id packet (c.freeze_node n).1 in
              send_to destination (commit link_sync now_us state e).0.fields.pending_initial_packet
                (commit_state now_us node_id share_id n state e rt)
        ]
      ]
    ]
  ]

  unfoldable pub event_frame : ℕ → ℕ → ℕ → EventRecord E → E → Bytes → EventFrame
  event_frame event_id node_id share_id r e payload = record {
    packet_id = event_id;
    target_node_id = node_id;
    destination_share_id = share_id;
    identity = r.identity;
    timestamp_us = r.timestamp_us;
    event_class_id = c.event_class e;
    payload = payload;
  }

  -- The part of `SyncNextEvent` that freezes a new event.
  unfoldable pub begin_event :
      ℕ
      → ℕ
      → ℕ
      → ℕ
      → Node S E
      → Node LinkSyncState LinkSyncEvent
      → Bytes
      → Runtime S E
      → Runtime S E
  begin_event now_us event_id node_id share_id n state destination rt =
      elim (next_undelivered n.journal state.fields destination) [
        | none ↦ rt
        | some r ↦ elim r.event [
          | none ↦ rt
          | some e ↦
              if is_standalone_event_class_allowed rt (c.event_class e)
              then elim (c.freeze_event e) [
                | none ↦ rt
                | some payload ↦
                    let packet =
                      encode_event_frame (event_frame event_id node_id share_id r e payload) in
                    let begin = begin_incremental_event_sync event_id r.identity packet in
                    send_to destination
                      (commit link_sync now_us state begin).0.fields.pending_event_packet
                      (commit_state now_us node_id share_id n state begin rt)
              ]
              else rt
        ]
      ]

  unfoldable pub sync_next_event : ℕ → ℕ → ℕ → ℕ → Runtime S E → Runtime S E
  sync_next_event now_us event_id node_id share_id rt = elim (find_node rt node_id) [
    | none ↦ rt
    | some n ↦ elim (share_endpoint_of (c.shared n.fields) share_id) [
      | none ↦ rt
      | some destination ↦ elim (state_of n share_id) [
        | none ↦ rt
        | some state ↦
            if not (phase_beq state.fields.initial_sync_phase complete)
            then rt
            else if has_pending_event state.fields
            then send_to destination state.fields.pending_event_packet rt
            else begin_event now_us event_id node_id share_id n state destination rt
      ]
    ]
  ]

  unfoldable pub ack_of : EventFrame → Bytes
  ack_of frame = encode_ack_frame (record {
    packet_id = frame.packet_id;
    target_node_id = frame.target_node_id;
    destination_share_id = frame.destination_share_id;
  })

  -- Whether a record of the identity is the same event: the check before a duplicate is acknowledged.
  unfoldable pub same_event : EventRecord E → EventFrame → Bool
  same_event existing frame =
      (existing.timestamp_us == frame.timestamp_us) && (elim existing.event [
        | none ↦ false
        | some e ↦ (c.event_class e == frame.event_class_id) && c.same_payload e frame.payload
      ])

  -- `PreflightHistoricalEventInsertion`: the insertion is tried on a copy of the node.
  unfoldable pub preflight : ℕ → Node S E → EventFrame → Bool
  preflight now_us n frame =
      (try_commit_shared c.target c.matches now_us (c.network_copy n)
        (c.scratch_event frame.payload frame.event_class_id) frame.identity frame.timestamp_us).1

  -- A new event: `InsertShared` asserts that the insertion succeeds.
  unfoldable pub admit_event : ℕ → Bytes → EventFrame → Node S E → Runtime S E → Runtime S E
  admit_event now_us source frame n rt =
      if preflight now_us n frame
      then elim (c.import_event frame.payload frame.event_class_id) [
        | none ↦ rt
        | some e ↦ send_to source (ack_of frame) (
            put_node frame.target_node_id
              (try_commit_shared c.target c.matches now_us n (some e) frame.identity
                frame.timestamp_us).0
              rt)
      ]
      else rt

  unfoldable pub on_event : ℕ → Bytes → EventFrame → Runtime S E → Runtime S E
  on_event now_us source frame rt = elim (find_node rt frame.target_node_id) [
    | none ↦ rt
    | some n ↦
        if event_addressed_to_this_replica (c.shared n.fields) rt.local_endpoint source
            frame.destination_share_id
          && is_standalone_event_class_allowed rt frame.event_class_id
          && c.admissible frame.payload frame.event_class_id
        then elim (find_shared_event n frame.identity) [
          | some existing ↦
              if same_event existing frame then send_to source (ack_of frame) rt else rt
          | none ↦ admit_event now_us source frame n rt
        ]
        else rt
  ]
