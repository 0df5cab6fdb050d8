-- ===== src/SharedNode/Runs.antt =====
-- A shared node with one relationship, and the theorems at it.
use apptraverse.Prelude.{
  if◌then◌else◌, ℕ, ◌≡◌, refl, inr, arith, true, false, none, some, [], ◌∷◌, ◌++◌, contains, any,
  first, index_of, ◌==◌, nat_eq,
}
use apptraverse.Journal.{Node, applied, try_rebuild_from_base_and_replay}
use apptraverse.LinkSync.{LinkSyncState, LinkSyncEvent, new_link_sync_state, not_started, pending}
use apptraverse.SharedNode.{
  SharedNode, Share, Link, ShareEvent, add_share_event, shares_link, has_share_id, syncs_share,
  find_share_index, find_share_index_for_share, find_link_sync_index_for_share, apply_share,
  shared_node, add_share, remove_share, link_sync_state, get_initial_sync_phase, read_write,
  read_only,
}
use apptraverse.SharedNode.Topology.{IsConsistent, share_asserted, state_ids}
use apptraverse.SharedNode.Apply.{apply_share-IsConsistent}
use apptraverse.SharedNode.Rebuild.{closes, rebuild_keeps_progress}
use apptraverse.SharedNode.Operations.{IsReady, add_share_lem, remove_share_lem}

abbrev peer : Link
peer = record { id = 5; endpoint = some (98 ∷ []) }

abbrev other_peer : Link
other_peer = record { id = 6; endpoint = some (99 ∷ []) }

abbrev peer_share : Share
peer_share = record { share_id = 40; link = peer; access = read_write }

-- The state of the relationship, whose initial packet is on its way.
abbrev progress : Node LinkSyncState LinkSyncEvent
progress = record {
  fields = record (new_link_sync_state 40 5) {
    initial_sync_phase = pending;
    pending_initial_packet_id = 70;
    pending_initial_packet = 1 ∷ [];
  };
  base = some (new_link_sync_state 40 5);
  journal = [];
  attached = true;
  generation = 2;
  applied_journal_size = applied 0;
  policy = record { max_events = none; max_age = none };
  compaction_blocked = false;
  suppress_materialized_change = false;
  has_notifier = false;
  notified = 0;
}

abbrev fields : SharedNode
fields = record { shares = peer_share ∷ []; link_sync_states = some progress ∷ [] }

abbrev nothing_shared : SharedNode
nothing_shared = record { shares = []; link_sync_states = [] }

abbrev node : Node SharedNode ShareEvent
node = record {
  fields = fields;
  base = some nothing_shared;
  journal =
      record {
        event = some (add_share_event 40 peer read_write);
        identity = record { origin_uid = []; origin_sequence = 0 };
        timestamp_us = 100;
        retained_since_us = 100;
      }
      ∷ [];
  attached = true;
  generation = 2;
  applied_journal_size = applied 1;
  policy = record { max_events = none; max_age = none };
  compaction_blocked = false;
  suppress_materialized_change = false;
  has_notifier = false;
  notified = 0;
}

fields-IsConsistent : IsConsistent fields
unfolding contains any syncs_share state_ids
fields-IsConsistent = record {
  ids = (refl, tt);
  links = (refl, tt);
  synced = (refl, tt);
  sole = (refl, tt);
}

node-IsReady : IsReady node
node-IsReady = record {
  attached = refl;
  based = refl;
  counted = inr refl;
  sorted = (tt, tt);
  room = (omega arith, tt);
}

apply_share-IsConsistent_example :
    IsConsistent (apply_share (add_share_event 41 other_peer read_only) fields)
unfolding share_asserted find_share_index find_share_index_for_share index_of shares_link
    has_share_id
apply_share-IsConsistent_example =
    apply_share-IsConsistent (add_share_event 41 other_peer read_only) fields refl
      fields-IsConsistent

-- The base shares nothing, yet the packet on its way is kept.
rebuild_keeps_progress_example :
    link_sync_state (try_rebuild_from_base_and_replay shared_node node).0.fields 40 ≡ some progress
unfolding closes link_sync_state find_link_sync_index_for_share index_of syncs_share
rebuild_keeps_progress_example =
    rebuild_keeps_progress node nothing_shared 40 progress refl fields-IsConsistent.sole
      ((refl, refl), tt) refl

add_share_lem_example :
    let out = (add_share 200 41 other_peer read_only node).fields in
    IsConsistent out
    × (out.shares
        ≡ fields.shares ++ record { share_id = 41; link = other_peer; access = read_only } ∷ [])
    × (get_initial_sync_phase out other_peer ≡ not_started)
unfolding contains state_ids any shares_link
add_share_lem_example =
    add_share_lem 200 41 other_peer read_only node node-IsReady fields-IsConsistent (omega arith)
      refl refl refl refl refl

remove_share_lem_example :
    let out = (remove_share 200 peer node).fields in
    IsConsistent out
    × (any (shares_link peer.id) out.shares ≡ false)
    × ((q : ℕ) → link_sync_state out q ≡ (if 40 == q then none else link_sync_state node.fields q))
unfolding first shares_link
remove_share_lem_example =
    remove_share_lem 200 peer node peer_share node-IsReady fields-IsConsistent (omega arith)
      (omega arith) refl
