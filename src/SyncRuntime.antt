-- ===== src/SyncRuntime.antt =====
-- One replica's synchronization runtime: the drivers and handlers of include/apptraverse/shared_sync_runtime.h
-- and src/shared_sync_runtime.cpp for Ack and Event frames, for the initial state on its way out, and the
-- expectations. What the transport is asked to send, and what the storage holds, are fields of the state.
pub mod Handlers
pub mod Ack
pub mod Initial
pub mod Committed
pub mod Events
pub mod Repeated
pub mod Next
pub mod Import
mod Runs
mod NextRuns
use apptraverse.Prelude.{
  ℕ, Bool, true, false, ◌&&◌, ◌||◌, not, Option, none, some, List, [], ◌∷◌, ◌++◌, if◌then◌else◌,
  length, set, any, first, get_elem?, is_some, contains, Bytes, Eq, ◌==◌, nat_eq, bytes_eq,
}
use apptraverse.Prelude.Assoc.{lookup, insert}
use apptraverse.Identity.{SharedEventId, id_eq}
use apptraverse.Journal.{
  Target, EventRecord, Node, has_shared_identity, find_shared_event, commit, try_commit_shared,
}
use apptraverse.LinkSync.{
  LinkSyncState, LinkSyncEvent, not_started, pending, complete, phase_beq, begin_initial_sync,
  complete_initial_sync, begin_incremental_event_sync, complete_incremental_event_sync,
  has_delivered, has_pending_event, link_sync,
}
use apptraverse.SharedNode.{
  Share, SharedNode, read_write, find_share_index_for_share, find_link_sync_index_for_share,
  link_sync_state,
}
use apptraverse.Frame.{
  NodeStateFrame, AckFrame, EventFrame, encode_node_state_frame, encode_ack_frame,
  encode_event_frame,
}

-- A class derived from SharedNode, with what the object system does for it: `freeze_node` is
-- `FreezeNetworkSharedNodeState`, `freeze_event` is `FreezeEventPayload`; `admissible` stands for
-- `ParseEventPayload`, `ValidateStandaloneEventGraph` and the checks of a scratch load, `scratch_event`
-- and `import_event` for `ImportStandaloneEventGraph` into a scratch domain and into the replica's own,
-- `same_payload` for `SameEventPayload`, and `network_copy` for a copy by `BuildNetworkSharedScratch`.
pub record SharedClass (S E : Type 0) : Type 0 where
  pub target : Target S E
  pub shared : S → SharedNode
  pub with_shared : SharedNode → S → S
  pub matches : E → SharedEventId → ℕ → Bool
  pub event_class : E → ℕ
  pub freeze_node : Node S E → Bytes × List SharedEventId
  pub freeze_event : E → Option Bytes
  pub admissible : Bytes → ℕ → Bool
  pub scratch_event : Bytes → ℕ → Option E
  pub import_event : Bytes → ℕ → Option E
  pub same_payload : E → Bytes → Bool
  pub network_copy : Node S E → Node S E

pub record EndpointExpectation : Type 0 where
  pub source_endpoint : Bytes
  pub expected_root_class_id : ℕ
  pub expected_node_id : ℕ

-- A call of `Send`: the destination, the bytes, and the storage as it was at the call.
abbrev pub Sent : (S E : Type 0) → Type 0
Sent S E = Bytes × Bytes × List (ℕ × Node S E)

-- `saved` is the storage, by object id; `sent` are the calls of `Send` in their order.
pub record Runtime (S E : Type 0) : Type 0 where
  pub local_endpoint : Bytes
  pub nodes : List (ℕ × Node S E)
  pub expected_initial_nodes : List ℕ
  pub expected_endpoint_nodes : List EndpointExpectation
  pub standalone_event_classes : List ℕ
  pub saved : List (ℕ × Node S E)
  pub sent : List (Sent S E)

unfoldable pub share_endpoint : Share → Option Bytes
share_endpoint s = if s.link.id == 0 then none else s.link.endpoint

unfoldable pub share_endpoint_of : SharedNode → ℕ → Option Bytes
share_endpoint_of n share_id = elim (get_elem? n.shares (find_share_index_for_share n share_id)) [
  | none ↦ none
  | some share ↦ share_endpoint share
]

unfoldable pub is_endpoint : Bytes → Option Bytes → Bool
is_endpoint uid none = false
is_endpoint uid (some endpoint) = endpoint == uid

unfoldable pub topology_knows_endpoint : SharedNode → Bytes → Bool
topology_knows_endpoint n uid = any (λ (s : Share). is_endpoint uid (share_endpoint s)) n.shares

unfoldable pub share_of_endpoint : SharedNode → Bytes → Option Share
share_of_endpoint n uid = first (λ (s : Share). is_endpoint uid (share_endpoint s)) n.shares

unfoldable pub addressed_to_this_replica : SharedNode → Bytes → Bytes → ℕ → Bool
addressed_to_this_replica n local_endpoint source destination_share_id =
    not (source == local_endpoint)
    && is_endpoint local_endpoint (share_endpoint_of n destination_share_id)
    && topology_knows_endpoint n source

unfoldable pub event_addressed_to_this_replica : SharedNode → Bytes → Bytes → ℕ → Bool
event_addressed_to_this_replica n local_endpoint source destination_share_id =
    not (source == local_endpoint)
    && is_endpoint local_endpoint (share_endpoint_of n destination_share_id)
    && (elim (share_of_endpoint n source) [
      | none ↦ false
      | some share ↦ share.access == read_write
    ])

-- `NextUndeliveredSharedEvent`.
unfoldable pub next_undelivered :
    {E : Type 0} → List (EventRecord E) → LinkSyncState → Bytes → Option (EventRecord E)
next_undelivered [] state destination = none
next_undelivered (r ∷ rs) state destination =
    let rest = next_undelivered rs state destination in
    if has_shared_identity r
      && not (has_delivered state r.identity)
      && not (has_pending_event state && (state.pending_event_identity == r.identity))
      && not (r.identity.origin_uid == destination)
    then some r
    else rest

unfoldable pub set_expectation :
    EndpointExpectation → List EndpointExpectation → List EndpointExpectation
set_expectation e [] = e ∷ []
set_expectation e (x ∷ xs) =
    let rest = set_expectation e xs in
    if x.source_endpoint == e.source_endpoint then e ∷ xs else x ∷ rest

unfoldable pub forget_expectation : Bytes → List EndpointExpectation → List EndpointExpectation
forget_expectation source [] = []
forget_expectation source (x ∷ xs) =
    let rest = forget_expectation source xs in
    if x.source_endpoint == source then rest else x ∷ rest

module _ {S E : Type 0} where
  unfoldable pub find_node : Runtime S E → ℕ → Option (Node S E)
  find_node rt node_id = lookup node_id rt.nodes

  -- The node, which must not be registered, with its id.
  unfoldable pub register_node : ℕ → Node S E → Runtime S E → Runtime S E
  register_node node_id n rt = record rt { nodes = rt.nodes ++ (node_id, n) ∷ [] }

  unfoldable pub expect_initial_node : ℕ → Runtime S E → Runtime S E
  expect_initial_node node_id rt = record rt {
    expected_initial_nodes = rt.expected_initial_nodes ++ node_id ∷ [];
  }

  unfoldable pub is_expected_initial_node : Runtime S E → ℕ → Bool
  is_expected_initial_node rt node_id = contains rt.expected_initial_nodes node_id

  unfoldable pub expect_initial_node_from_endpoint : EndpointExpectation → Runtime S E → Runtime S E
  expect_initial_node_from_endpoint e rt =
      if (length e.source_endpoint == 0) || (e.expected_root_class_id == 0)
      then rt
      else record rt { expected_endpoint_nodes = set_expectation e rt.expected_endpoint_nodes }

  unfoldable pub forget_initial_node_from_endpoint : Bytes → Runtime S E → Runtime S E
  forget_initial_node_from_endpoint source rt = if length source == 0 then rt else record rt {
    expected_endpoint_nodes = forget_expectation source rt.expected_endpoint_nodes;
  }

  unfoldable pub is_standalone_event_class_allowed : Runtime S E → ℕ → Bool
  is_standalone_event_class_allowed rt class_id = contains rt.standalone_event_classes class_id

  -- `derives` tells whether the class registry has the class as one derived from `Event`.
  unfoldable pub allow_standalone_event_class : (ℕ → Bool) → ℕ → Runtime S E → Runtime S E
  allow_standalone_event_class derives class_id rt =
      if not (class_id == 0)
        && derives class_id
        && not (is_standalone_event_class_allowed rt class_id)
      then record rt { standalone_event_classes = rt.standalone_event_classes ++ class_id ∷ [] }
      else rt

  unfoldable pub send_to : Bytes → Bytes → Runtime S E → Runtime S E
  send_to destination bytes rt = record rt { sent = rt.sent ++ (destination, bytes, rt.saved) ∷ [] }

  -- The live node is changed, and saved with what it reaches.
  unfoldable pub put_node : ℕ → Node S E → Runtime S E → Runtime S E
  put_node node_id n rt = record rt {
    nodes = insert node_id n rt.nodes;
    saved = insert node_id n rt.saved;
  }
