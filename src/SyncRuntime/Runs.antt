-- ===== src/SyncRuntime/Runs.antt =====
-- A replica with one shared counter, and the theorems at it.
use apptraverse.Prelude.{
  length, contains, first, ℕ, ◌+◌, ◌≡◌, ◌⊎◌, refl, sym, ap, ◌∙◌, inr, arith, true, false, Option,
  none, some, [], ◌∷◌, ◌++◌, leb, Bytes, nat_eq, bytes_eq, list_beq,
}
use apptraverse.Prelude.Assoc.{insert, lookup}
use apptraverse.Identity.{order_less, id_beq, id_eq}
use apptraverse.Journal.{
  try_insert_event, insertable, lower_bound, insert_at, try_append, try_ensure_current_generation,
  ensure_from, apply_event, note_materialized_change, find_shared_event, find_by_identity,
  has_shared_identity, try_commit_shared, Target, Node, applied, commit,
}
use apptraverse.LinkSync.{
  LinkSyncState, LinkSyncEvent, new_link_sync_state, complete_initial_sync, pending, phase_beq,
  has_pending_event, apply, link_sync,
}
use apptraverse.LinkSync.Progress.{IsConsistent, new-IsConsistent, permitted}
use apptraverse.SharedNode.{
  SharedNode, read_write, syncs_share, link_sync_state, find_link_sync_index_for_share,
  find_share_index_for_share, has_share_id,
}
use apptraverse.Prelude.{index_of}
use apptraverse.Frame.{AckFrame, EventFrame, encode_node_state_frame}
use apptraverse.SyncRuntime.{
  event_addressed_to_this_replica, share_of_endpoint, is_standalone_event_class_allowed, send_to,
  put_node, SharedClass, Runtime, find_node, share_endpoint, share_endpoint_of, is_endpoint,
}
use apptraverse.SyncRuntime.Handlers.{
  admit_event, state_of, with_state, initial_frame, sync_initial_state, on_ack, preflight, on_event,
}
use apptraverse.SyncRuntime.Repeated.{on_ack_repeated}
use apptraverse.SyncRuntime.Ack.{IsReady, completes, from_peer, on_ack_lem}
use apptraverse.SyncRuntime.Initial.{begin_of, sync_initial_state_lem}
use apptraverse.SyncRuntime.Events.{IsFaithfulCopy, Stored, on_event_lem, on_event_known}

-- A shared node with a number, to which an event adds; a payload is the event in one byte.
abbrev pub counter : Target (SharedNode × ℕ) ℕ
counter = record {
  can_apply = λ e s. leb (s.1 + e) 100;
  apply = λ e s. (s.0, s.1 + e);
  carry = λ live base. base;
  reload = λ s. s;
}

abbrev pub read_payload : Bytes → ℕ → Option ℕ
read_payload [] class_id = none
read_payload (e ∷ rest) class_id = some e

abbrev pub counter_class : SharedClass (SharedNode × ℕ) ℕ
counter_class = record {
  target = counter;
  shared = λ s. s.0;
  with_shared = λ shared s. (shared, s.1);
  matches = λ e identity time. true;
  event_class = λ e. 9;
  freeze_node = λ n. (n.fields.1 ∷ [], []);
  freeze_event = λ e. some (e ∷ []);
  admissible = λ payload class_id. true;
  scratch_event = read_payload;
  import_event = read_payload;
  same_payload = λ e payload. true;
  network_copy = λ n. n;
}

abbrev pub here : Bytes
here = 97 ∷ []

abbrev pub peer : Bytes
peer = 98 ∷ []

-- The progress of a relationship, in the given fields and with nothing in the journal.
abbrev pub progress : LinkSyncState → Node LinkSyncState LinkSyncEvent
progress fields = record {
  fields = fields;
  base = some fields;
  journal = [];
  attached = true;
  generation = 1;
  applied_journal_size = applied 0;
  policy = record { max_events = none; max_age = none };
  compaction_blocked = false;
  suppress_materialized_change = false;
  has_notifier = false;
  notified = 0;
}

pub progress-IsReady : (fields : LinkSyncState) → IsReady (progress fields)
progress-IsReady fields = record {
  attached = refl;
  based = refl;
  counted = inr refl;
  sorted = tt;
  room = tt;
}

-- The relationship 40 ends at the peer, and 41 here.
abbrev pub topology : LinkSyncState → SharedNode
topology state = record {
  shares =
      record { share_id = 40; link = record { id = 5; endpoint = some peer }; access = read_write }
      ∷ record {
        share_id = 41;
        link = record { id = 6; endpoint = some here };
        access = read_write;
      }
      ∷ [];
  link_sync_states = some (progress state) ∷ [];
}

abbrev pub node : LinkSyncState → Node (SharedNode × ℕ) ℕ
node state = record {
  fields = (topology state, 3);
  base = some (topology state, 1);
  journal =
      record {
        event = some 2;
        identity = record { origin_uid = peer; origin_sequence = 1 };
        timestamp_us = 100;
        retained_since_us = 120;
      }
      ∷ [];
  attached = true;
  generation = 2;
  applied_journal_size = applied 1;
  policy = record { max_events = none; max_age = none };
  compaction_blocked = false;
  suppress_materialized_change = false;
  has_notifier = false;
  notified = 0;
}

abbrev pub replica : LinkSyncState → Runtime (SharedNode × ℕ) ℕ
replica state = record {
  local_endpoint = here;
  nodes = (10, node state) ∷ [];
  expected_initial_nodes = [];
  expected_endpoint_nodes = [];
  standalone_event_classes = 9 ∷ [];
  saved = [];
  sent = [];
}

abbrev pub fresh : LinkSyncState
fresh = new_link_sync_state 40 5

abbrev waiting : LinkSyncState
waiting = record fresh {
  initial_sync_phase = pending;
  pending_initial_packet_id = 70;
  pending_initial_packet = 1 ∷ [];
}

waiting-IsConsistent : IsConsistent waiting
unfolding has_pending_event
waiting-IsConsistent = record {
  frozen = ground arith;
  cleared = ground arith;
  event_frozen = ground arith;
  event_cleared = λ h. (refl, refl);
  distinct = tt;
}

node-IsFaithfulCopy : (state : LinkSyncState) → IsFaithfulCopy counter_class (node state)
unfolding preflight
node-IsFaithfulCopy state now_us frame e passed imported =
    sym (
      ap
        (λ (o : Option ℕ).
          (try_commit_shared counter (λ e identity time. true) now_us (node state) o frame.identity
            frame.timestamp_us).1)
        imported)
    ∙ passed

abbrev ack_of_packet : AckFrame
ack_of_packet = record { packet_id = 70; target_node_id = 10; destination_share_id = 40 }

on_ack_lem_example :
    let acked = (commit link_sync 200 (progress waiting) complete_initial_sync).0 in
    (permitted complete_initial_sync waiting ≡ true)
    × (on_ack counter_class 200 peer ack_of_packet (replica waiting)
        ≡ put_node 10 (with_state counter_class (node waiting) 40 acked) (replica waiting))
    × (acked.fields ≡ apply complete_initial_sync waiting)
    × IsConsistent acked.fields
    × (completes acked.fields 70 ≡ none)
unfolding find_node lookup state_of link_sync_state find_link_sync_index_for_share index_of
    syncs_share from_peer is_endpoint share_endpoint_of share_endpoint find_share_index_for_share
    has_share_id list_beq completes phase_beq
on_ack_lem_example =
    on_ack_lem counter_class 200 peer ack_of_packet (replica waiting) (node waiting)
      (progress waiting) complete_initial_sync refl refl (progress-IsReady waiting)
      waiting-IsConsistent (omega arith) (omega arith) refl refl

on_ack_repeated_example :
    on_ack counter_class 300 peer ack_of_packet
      (on_ack counter_class 200 peer ack_of_packet (replica waiting))
    ≡ on_ack counter_class 200 peer ack_of_packet (replica waiting)
unfolding find_node lookup state_of link_sync_state find_link_sync_index_for_share index_of
    syncs_share
on_ack_repeated_example =
    on_ack_repeated counter_class 200 300 peer ack_of_packet (replica waiting) (node waiting)
      (progress waiting) (λ s f. refl) refl refl (progress-IsReady waiting) waiting-IsConsistent
      (omega arith) (omega arith)

sync_initial_state_lem_example :
    let out = sync_initial_state counter_class 200 77 10 40 (replica fresh) in
    let packet = encode_node_state_frame (initial_frame counter_class 77 10 40 (node fresh)) in
    let begun =
      (commit link_sync 200 (progress fresh) (begin_of counter_class 77 10 40 (node fresh))).0 in
    (out.sent ≡ [] ++ (peer, packet, out.saved) ∷ [])
    × (lookup 10 out.saved ≡ some (with_state counter_class (node fresh) 40 begun))
    × (begun.fields.pending_initial_packet ≡ packet)
    × IsConsistent begun.fields
    × ((later id : ℕ)
        → sync_initial_state counter_class later id 10 40 out ≡ send_to peer packet out)
unfolding find_node lookup state_of link_sync_state find_link_sync_index_for_share index_of
    syncs_share share_endpoint_of share_endpoint find_share_index_for_share has_share_id
sync_initial_state_lem_example =
    sync_initial_state_lem counter_class 200 77 10 40 (replica fresh) (node fresh) (progress fresh)
      peer (λ s f. refl) refl refl refl (progress-IsReady fresh) (new-IsConsistent 40 5)
      (omega arith) (omega arith) refl

abbrev arriving : ℕ → EventFrame
arriving sequence = record {
  packet_id = 90;
  target_node_id = 10;
  destination_share_id = 41;
  identity = record { origin_uid = peer; origin_sequence = sequence };
  timestamp_us = 150;
  event_class_id = 9;
  payload = 4 ∷ [];
}

on_event_lem_example :
    let out = on_event counter_class 200 peer (arriving 2) (replica fresh) in
    (out ≡ replica fresh) ⊎ Stored counter_class peer (arriving 2) (replica fresh) out
unfolding find_node lookup
on_event_lem_example =
    on_event_lem counter_class 200 peer (arriving 2) (replica fresh) (node fresh) refl
      (node-IsFaithfulCopy fresh)

on_event_known_example :
    let out = on_event counter_class 200 peer (arriving 1) (replica fresh) in
    record out { sent = [] } ≡ replica fresh
unfolding find_node lookup find_shared_event find_by_identity has_shared_identity id_beq list_beq
on_event_known_example =
    on_event_known counter_class 200 peer (arriving 1) (replica fresh) (node fresh)
      (record {
        event = some 2;
        identity = record { origin_uid = peer; origin_sequence = 1 };
        timestamp_us = 100;
        retained_since_us = 120;
      })
      refl refl

-- A new event is stored and acknowledged once.
arrived : length (on_event counter_class 200 peer (arriving 2) (replica fresh)).sent ≡ 1
unfolding on_event find_node lookup event_addressed_to_this_replica is_endpoint share_endpoint_of
    share_endpoint find_share_index_for_share index_of has_share_id share_of_endpoint first list_beq
    is_standalone_event_class_allowed contains find_shared_event find_by_identity
    has_shared_identity id_beq admit_event preflight try_commit_shared try_insert_event insertable
    lower_bound insert_at order_less try_append try_ensure_current_generation ensure_from
    apply_event note_materialized_change send_to put_node insert
arrived = refl
