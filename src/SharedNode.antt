-- ===== src/SharedNode.antt =====
-- The shared node of include/apptraverse/shared_node.h and src/shared_node.cpp: its Share relationships,
-- and the local-persistent synchronization state of each. A Link is given by its object id, 0 where the
-- pointer is not valid, and by its transport endpoint, `none` where the descriptor does not load.
pub mod Topology
pub mod States
pub mod Apply
pub mod Operations
pub mod Rebuild
mod Runs
use apptraverse.Prelude.{
  ℕ, zero, suc, Bool, true, false, ◌&&◌, not, Option, none, some, List, [], ◌∷◌, ◌++◌,
  if◌then◌else◌, ltb, leb, length, set, erase_at, get_elem?, index_of, Bytes, Eq, ◌==◌, nat_eq,
}
use apptraverse.Journal.{Target, Node, JournalRetentionPolicy, fully_materialized, commit}
use apptraverse.LinkSync.{
  LinkSyncState, LinkSyncEvent, InitialSyncPhase, not_started, phase_beq,
  set_link_initial_sync_phase, new_link_sync_state, link_sync,
}

pub record Link : Type 0 where
  pub id : ℕ
  pub endpoint : Option Bytes

-- `ShareAccess`, kept in a byte.
abbrev pub read_write : ℕ
read_write = 0

abbrev pub read_only : ℕ
read_only = 1

pub record Share : Type 0 where
  pub share_id : ℕ
  pub link : Link
  pub access : ℕ

-- A `LinkSyncState` is a node with a journal of its own. `none` is a pointer that is not valid.
pub record SharedNode : Type 0 where
  pub shares : List Share
  pub link_sync_states : List (Option (Node LinkSyncState LinkSyncEvent))

-- `share_id` of the first is the object id of the event.
pub data ShareEvent : Type 0 where
  add_share_event : ℕ → Link → ℕ → ShareEvent
  remove_share_event : ℕ → ShareEvent
  change_share_access_event : ℕ → ℕ → ShareEvent

unfoldable pub shares_link : ℕ → Share → Bool
shares_link link_id s = not (s.link.id == 0) && (s.link.id == link_id)

unfoldable pub has_share_id : ℕ → Share → Bool
has_share_id share_id s = s.share_id == share_id

unfoldable pub syncs_share : ℕ → Option (Node LinkSyncState LinkSyncEvent) → Bool
syncs_share share_id none = false
syncs_share share_id (some state) = state.fields.share_id == share_id

unfoldable pub find_share_index : SharedNode → ℕ → ℕ
find_share_index n link_id = index_of (shares_link link_id) n.shares

unfoldable pub find_share_index_for_share : SharedNode → ℕ → ℕ
find_share_index_for_share n share_id = index_of (has_share_id share_id) n.shares

unfoldable pub find_link_sync_index_for_share : SharedNode → ℕ → ℕ
find_link_sync_index_for_share n share_id = index_of (syncs_share share_id) n.link_sync_states

-- `InitializeRuntimeNode` on a new node: a base that holds the same fields, and an empty journal.
unfoldable pub initialize_runtime_node : {S E : Type 0} → S → Node S E
initialize_runtime_node fields = record {
  fields = fields;
  base = some fields;
  journal = [];
  attached = true;
  generation = 1;
  applied_journal_size = fully_materialized;
  policy = record { max_events = none; max_age = none };
  compaction_blocked = false;
  suppress_materialized_change = false;
  has_notifier = false;
  notified = 0;
}

unfoldable pub set_share_access_at : List Share → ℕ → ℕ → List Share
set_share_access_at [] i access = []
set_share_access_at (s ∷ shares) zero access = record s { access = access } ∷ shares
set_share_access_at (s ∷ shares) (suc i) access = s ∷ set_share_access_at shares i access

-- The `Apply` overloads. They assert that the share they add is new, and that the one they change
-- is there.
unfoldable pub apply_share : ShareEvent → SharedNode → SharedNode
apply_share (add_share_event share_id link access) n = record {
  shares = n.shares ++ record { share_id = share_id; link = link; access = access } ∷ [];
  link_sync_states =
      if leb (length n.link_sync_states) (find_link_sync_index_for_share n share_id)
      then n.link_sync_states
        ++ some (initialize_runtime_node (new_link_sync_state share_id link.id)) ∷ []
      else n.link_sync_states;
}
apply_share (remove_share_event share_id) n = record {
  shares = erase_at n.shares (find_share_index_for_share n share_id);
  link_sync_states =
      if ltb (find_link_sync_index_for_share n share_id) (length n.link_sync_states)
      then erase_at n.link_sync_states (find_link_sync_index_for_share n share_id)
      else n.link_sync_states;
}
apply_share (change_share_access_event share_id access) n = record n {
  shares = set_share_access_at n.shares (find_share_index_for_share n share_id) access;
}

-- `StashLocalPersistentAcrossRebuild`: an entry that is not valid is not carried.
unfoldable pub stash :
    List (Option (Node LinkSyncState LinkSyncEvent))
    → List (Option (Node LinkSyncState LinkSyncEvent))
stash [] = []
stash (none ∷ entries) = stash entries
stash (some state ∷ entries) = some state ∷ stash entries

abbrev pub shared_node : Target SharedNode ShareEvent
shared_node = record {
  can_apply = λ e n. true;
  apply = apply_share;
  carry = λ live base. record base { link_sync_states = stash live.link_sync_states };
  reload = λ n. n;
}

-- The operations commit at the time `now_us`. They assert that the link is valid, and `set_share_access`
-- that it is shared. `event_id` is the object id that the domain gives to a new event.
unfoldable pub add_share :
    ℕ → ℕ → Link → ℕ → Node SharedNode ShareEvent → Node SharedNode ShareEvent
add_share now_us event_id link access n =
    if ltb (find_share_index n.fields link.id) (length n.fields.shares)
    then n
    else (commit shared_node now_us n (add_share_event event_id link access)).0

unfoldable pub remove_share : ℕ → Link → Node SharedNode ShareEvent → Node SharedNode ShareEvent
remove_share now_us link n = elim (get_elem? n.fields.shares (find_share_index n.fields link.id)) [
  | none ↦ n
  | some share ↦ (commit shared_node now_us n (remove_share_event share.share_id)).0
]

unfoldable pub set_share_access :
    ℕ → Link → ℕ → Node SharedNode ShareEvent → Node SharedNode ShareEvent
set_share_access now_us link access n =
    elim (get_elem? n.fields.shares (find_share_index n.fields link.id)) [
      | none ↦ n
      | some share ↦
          if share.access == access
          then n
          else (commit shared_node now_us n (change_share_access_event share.share_id access)).0
    ]

-- The state of the relationship, by `FindLinkSyncIndexForShare`.
unfoldable pub link_sync_state : SharedNode → ℕ → Option (Node LinkSyncState LinkSyncEvent)
link_sync_state n share_id =
    elim (get_elem? n.link_sync_states (find_link_sync_index_for_share n share_id)) [
      | none ↦ none
      | some entry ↦ entry
    ]

-- `LinkSyncState::SetInitialSyncPhase`.
unfoldable pub set_phase_of :
    ℕ → InitialSyncPhase → Node LinkSyncState LinkSyncEvent → Node LinkSyncState LinkSyncEvent
set_phase_of now_us phase state =
    if phase_beq state.fields.initial_sync_phase phase
    then state
    else (commit link_sync now_us state (set_link_initial_sync_phase phase)).0

unfoldable pub set_initial_sync_phase : ℕ → Link → InitialSyncPhase → SharedNode → SharedNode
set_initial_sync_phase now_us link phase n =
    elim (get_elem? n.shares (find_share_index n link.id)) [
      | none ↦ n
      | some share ↦ elim (link_sync_state n share.share_id) [
        | none ↦ n
        | some state ↦ record n {
          link_sync_states =
              set n.link_sync_states (find_link_sync_index_for_share n share.share_id)
                (some (set_phase_of now_us phase state));
        }
      ]
    ]

unfoldable pub get_initial_sync_phase : SharedNode → Link → InitialSyncPhase
get_initial_sync_phase n link = elim (get_elem? n.shares (find_share_index n link.id)) [
  | none ↦ not_started
  | some share ↦ elim (link_sync_state n share.share_id) [
    | none ↦ not_started
    | some state ↦ state.fields.initial_sync_phase
  ]
]
