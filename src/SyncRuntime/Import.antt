-- ===== src/SyncRuntime/Import.antt =====
-- The handlers `OnNodeState` and `OnBytes` of src/shared_sync_runtime.cpp, with the import of a snapshot:
-- `SnapshotIsAdmissible` and `ImportValidatedNode`. `occupied` tells whether the domain or the storage of
-- the replica has an object, and `bind` is the callback for an imported node, one that fails where none
-- is set.
pub mod Admission
pub mod Arrival
pub mod Imported
pub mod Dispatch
pub mod Untrusted
mod Runs
use apptraverse.Prelude.{
  ℕ, suc, Bool, true, false, ◌&&◌, ◌||◌, not, Option, none, some, List, [], ◌∷◌, if◌then◌else◌,
  length, erase_at, any, first, index_of, is_some, Bytes, ◌==◌, nat_eq, bytes_eq,
}
use apptraverse.Prelude.Assoc.{lookup, insert}
use apptraverse.Identity.{SharedEventId}
use apptraverse.Journal.{EventRecord, Node, has_shared_identity, try_replay_from_base, commit}
use apptraverse.LinkSync.{
  LinkSyncState, LinkSyncEvent, complete_from_received_snapshot, note_initial_sync_received,
  link_sync,
}
use apptraverse.SharedNode.{Share, SharedNode, find_share_index_for_share}
use apptraverse.Frame.{
  SyncFrameType, node_state, ack, event, NodeStateFrame, AckFrame, EventFrame, encode_ack_frame,
  peek_sync_frame_type, decode_node_state_frame, decode_ack_frame, decode_event_frame,
}
use apptraverse.SyncRuntime.{
  SharedClass, EndpointExpectation, Runtime, share_endpoint, is_endpoint, addressed_to_this_replica,
  find_node, register_node, is_expected_initial_node, send_to, put_node,
}
use apptraverse.SyncRuntime.Handlers.{state_of, with_state, on_ack, on_event}

-- Parsed object graphs `G`, and what the object system tells of them: `parse_graph` is
-- `DeserializeObjectGraph`, `class_chains` is `ValidateStoredClassChains` with the most derived class of each
-- object, `derives_shared_node` and `event_targets` are `GenerationDistance` at the class of shared nodes and
-- at the target class of an event, `load_root` loads an object in a scratch domain over the graph, with its
-- class, `object_ids` are the objects of the graph, and `load_own` is the object loaded from the storage of
-- the replica once `CommitObjectGraph` has put the graph there.
pub record GraphReader (S E G : Type 0) : Type 0 where
  pub parse_graph : Bytes → Option G
  pub class_chains : G → Option (List (ℕ × ℕ))
  pub derives_shared_node : ℕ → Bool
  pub event_targets : E → ℕ → Bool
  pub load_root : G → ℕ → Option (ℕ × Node S E)
  pub object_ids : G → List ℕ
  pub load_own : G → ℕ → Node S E

unfoldable pub has_endpoint : Share → Bool
has_endpoint s = elim (share_endpoint s) [
  | none ↦ false
  | some endpoint ↦ not (length endpoint == 0)
]

-- The loop over the shares from the one at `i` on.
unfoldable pub shares_admissible : SharedNode → ℕ → List Share → Bool
shares_admissible n i [] = true
shares_admissible n i (s ∷ ss) =
    let rest = shares_admissible n (suc i) ss in
    not (s.share_id == 0)
    && (find_share_index_for_share n s.share_id == i)
    && has_endpoint s
    && rest

-- The relationships that end at an endpoint, in order.
unfoldable pub source_share_ids : Bytes → List Share → List ℕ
source_share_ids source [] = []
source_share_ids source (s ∷ ss) =
    let rest = source_share_ids source ss in
    if is_endpoint source (share_endpoint s) then s.share_id ∷ rest else rest

-- The one relationship of a list, where it has exactly one and this is valid.
unfoldable pub sole_share : List ℕ → Option ℕ
sole_share [] = none
sole_share (share_id ∷ []) = if share_id == 0 then none else some share_id
sole_share (share_id ∷ other ∷ rest) = none

unfoldable pub ack_of_node_state : NodeStateFrame → Bytes
ack_of_node_state frame = encode_ack_frame (record {
  packet_id = frame.packet_id;
  target_node_id = frame.target_node_id;
  destination_share_id = frame.destination_share_id;
})

module _ {E : Type 0} where
  -- The identities that a received snapshot covers.
  unfoldable pub covered_ids : List (EventRecord E) → List SharedEventId
  covered_ids [] = []
  covered_ids (r ∷ rs) =
      let rest = covered_ids rs in
      if has_shared_identity r && not (length r.identity.origin_uid == 0)
      then r.identity ∷ rest
      else rest

module _ {S E : Type 0} where
  unfoldable pub expectation_of : Runtime S E → Bytes → Option EndpointExpectation
  expectation_of rt source =
      first (λ (e : EndpointExpectation). e.source_endpoint == source) rt.expected_endpoint_nodes

  -- Whether the replica waits for the node, by its id or from this endpoint.
  unfoldable pub is_awaited : Runtime S E → Bytes → ℕ → Bool
  is_awaited rt source node_id = elim (expectation_of rt source) [
    | none ↦ is_expected_initial_node rt node_id
    | some e ↦ (e.expected_node_id == 0) || (node_id == e.expected_node_id)
  ]

  unfoldable pub save_node : ℕ → Node S E → Runtime S E → Runtime S E
  save_node node_id n rt = record rt { saved = insert node_id n rt.saved }

  unfoldable pub close_expectation : Bytes → Runtime S E → Runtime S E
  close_expectation source rt = record rt {
    expected_endpoint_nodes = erase_at rt.expected_endpoint_nodes (
        index_of (λ (e : EndpointExpectation). e.source_endpoint == source)
          rt.expected_endpoint_nodes);
  }

  -- The end of `OnNodeState`: the node is bound while the endpoint is expected, and acknowledged.
  unfoldable pub bind_and_ack :
      (Bytes → Node S E → Bool) → Bytes → NodeStateFrame → Node S E → Runtime S E → Runtime S E
  bind_and_ack bind source frame n rt = elim (expectation_of rt source) [
    | none ↦ send_to source (ack_of_node_state frame) rt
    | some e ↦
        if bind source n
        then send_to source (ack_of_node_state frame) (close_expectation source rt)
        else rt
  ]

module _ {S E G : Type 0} (g : GraphReader S E G) where
  unfoldable pub records_admissible : ℕ → List (EventRecord E) → Bool
  records_admissible class_id [] = true
  records_admissible class_id (r ∷ rs) =
      let rest = records_admissible class_id rs in
      (elim r.event [ none ↦ false | some e ↦ g.event_targets e class_id ])
      && not (r.timestamp_us == 0)
      && rest

  unfoldable pub root_class_allowed : Runtime S E → Bytes → ℕ → Bool
  root_class_allowed rt source class_id =
      g.derives_shared_node class_id && (elim (expectation_of rt source) [
        | none ↦ true
        | some e ↦ class_id == e.expected_root_class_id
      ])

  -- The parsed graph, once the class chains of its objects are checked.
  unfoldable pub parsed_graph : Runtime S E → Bytes → NodeStateFrame → Option G
  parsed_graph rt source frame = elim (g.parse_graph frame.payload) [
    | none ↦ none
    | some graph ↦ elim (g.class_chains graph) [
      | none ↦ none
      | some chains ↦ elim (lookup frame.target_node_id chains) [
        | none ↦ none
        | some class_id ↦ if root_class_allowed rt source class_id then some graph else none
      ]
    ]
  ]

module _ {S E : Type 0} (c : SharedClass S E) where
  -- The node with the relationship of the source complete, and every covered event delivered there.
  unfoldable pub complete_source : ℕ → ℕ → Node S E → Node S E
  complete_source now_us share_id n = elim (state_of c n share_id) [
    | none ↦ n
    | some state ↦
        with_state c n share_id
          (commit link_sync now_us state
            (complete_from_received_snapshot (covered_ids n.journal))).0
  ]

  -- An imported node, of which the storage already has the snapshot.
  unfoldable pub on_imported :
      ℕ → (Bytes → Node S E → Bool) → Bytes → NodeStateFrame → Node S E → Runtime S E → Runtime S E
  on_imported now_us bind source frame n rt = elim (state_of c n frame.destination_share_id) [
    | none ↦ rt
    | some state ↦
        if state.fields.received_initial_packet_id == frame.packet_id
        then bind_and_ack bind source frame n (register_node frame.target_node_id n rt)
        else if state.fields.received_initial_packet_id == 0
        then (let received =
              with_state c n frame.destination_share_id
                (commit link_sync now_us state (note_initial_sync_received frame.packet_id)).0 in
            bind_and_ack bind source frame received (
              register_node frame.target_node_id received
                (save_node frame.target_node_id received rt)))
        else rt
  ]

  -- A node that is there takes no other initial packet than the one that it has received.
  unfoldable pub on_known :
      (Bytes → Node S E → Bool) → Bytes → NodeStateFrame → Node S E → Runtime S E → Runtime S E
  on_known bind source frame n rt =
      if addressed_to_this_replica (c.shared n.fields) rt.local_endpoint source
        frame.destination_share_id
      then elim (state_of c n frame.destination_share_id) [
        | none ↦ rt
        | some state ↦
            if state.fields.received_initial_packet_id == frame.packet_id
            then bind_and_ack bind source frame n rt
            else rt
      ]
      else rt

module _ {S E G : Type 0} (c : SharedClass S E) (g : GraphReader S E G) where
  -- The candidate, of the given class, as its replay leaves it, where it is admissible.
  unfoldable pub snapshot_admissible : ℕ → Node S E → Bytes → Bytes → ℕ → Option (Node S E)
  snapshot_admissible class_id candidate local_endpoint source share_id =
      let (n, replayed) = try_replay_from_base c.target candidate in
      if is_some candidate.base
        && records_admissible g class_id candidate.journal
        && replayed
        && shares_admissible (c.shared n.fields) 0 (c.shared n.fields).shares
        && addressed_to_this_replica (c.shared n.fields) local_endpoint source share_id
      then some n
      else none

  -- The relationship of the source in the candidate that the graph holds.
  unfoldable pub inspect_candidate : Runtime S E → Bytes → NodeStateFrame → G → Option ℕ
  inspect_candidate rt source frame graph = elim (g.load_root graph frame.target_node_id) [
    | none ↦ none
    | some (class_id, candidate) ↦
        if g.derives_shared_node class_id
        then elim (snapshot_admissible class_id candidate rt.local_endpoint source
            frame.destination_share_id) [
              | none ↦ none
              | some n ↦ elim (sole_share (source_share_ids source (c.shared n.fields).shares)) [
                | none ↦ none
                | some share_id ↦ if is_some (state_of c n share_id) then some share_id else none
              ]
            ]
        else none
  ]

  -- The imported node, replayed from its base, and the relationship of the source.
  unfoldable pub import_validated_node :
      (ℕ → Bool) → Runtime S E → Bytes → NodeStateFrame → Option (Node S E × ℕ)
  import_validated_node occupied rt source frame =
      if is_awaited rt source frame.target_node_id
      then elim (parsed_graph g rt source frame) [
        | none ↦ none
        | some graph ↦ elim (inspect_candidate rt source frame graph) [
          | none ↦ none
          | some share_id ↦
              if any occupied (g.object_ids graph)
              then none
              else some (
                (try_replay_from_base c.target (g.load_own graph frame.target_node_id)).0,
                share_id,
              )
        ]
      ]
      else none

  unfoldable pub on_node_state :
      ℕ
      → (ℕ → Bool)
      → (Bytes → Node S E → Bool)
      → Bytes
      → NodeStateFrame
      → Runtime S E
      → Runtime S E
  on_node_state now_us occupied bind source frame rt = elim (find_node rt frame.target_node_id) [
    | some n ↦ on_known c bind source frame n rt
    | none ↦ elim (import_validated_node occupied rt source frame) [
      | none ↦ rt
      | some (n, source_share_id) ↦
          let completed = complete_source c now_us source_share_id n in
          on_imported c now_us bind source frame completed
            (save_node frame.target_node_id completed rt)
    ]
  ]

  -- `derives` tells whether the class registry has a class as one derived from `Event`.
  unfoldable pub on_bytes :
      (ℕ → Bool)
      → ℕ
      → (ℕ → Bool)
      → (Bytes → Node S E → Bool)
      → Bytes
      → Bytes
      → Runtime S E
      → Runtime S E
  on_bytes derives now_us occupied bind source bytes rt = elim (peek_sync_frame_type bytes) [
    | none ↦ rt
    | some type ↦ elim type [
      | node_state ↦ elim (decode_node_state_frame bytes) [
        | none ↦ rt
        | some frame ↦ on_node_state now_us occupied bind source frame rt
      ]
      | ack ↦ elim (decode_ack_frame bytes) [
        | none ↦ rt
        | some frame ↦ on_ack c now_us source frame rt
      ]
      | event ↦ elim (decode_event_frame derives bytes) [
        | none ↦ rt
        | some frame ↦ on_event c now_us source frame rt
      ]
    ]
  ]
