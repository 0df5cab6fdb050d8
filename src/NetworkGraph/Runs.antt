-- ===== src/NetworkGraph/Runs.antt =====
-- An event of two layers, frozen, parsed and imported, and the theorems at it.
use apptraverse.Prelude.{
  List, ℕ, zero, suc, ◌+◌, ◌-◌, ◌≤◌, ◌≡◌, refl, Bool, true, Option, none, some, [], ◌∷◌, ◌++◌,
  arith, if◌then◌else◌, contains, is_some, first, ltb, Bytes, ◌==◌, nat_eq, pair_eq,
}
use apptraverse.Prelude.Assoc.{lookup}
use apptraverse.NetworkGraph.{
  State, Registry, StoredClassChainInfo, derives, layers_known, class_ids, related, related_to_all,
  all_related, is_positive, comes_before, place, sort_chain, last_of, all_ancestors, object_chain,
  validate_stored_class_chains, Storage, Archive, active, active_ids,
}
use apptraverse.NetworkGraph.Chains.{IsValidated, validate_stored_class_chains_lem}
use apptraverse.NetworkGraph.Events.{
  Loader, chain_of, all_load, is_event_class, validate_closed_event_graph_storage, is_permitted,
  all_permitted, freeze_event_payload, parse_event_payload, validate_standalone_event_graph,
  allocate_unique_receiver_obj_id, map_to_new,
}
use apptraverse.NetworkGraph.Payload.{IsFaithful, frozen_event_parses, frozen_event_accepted}
use apptraverse.NetworkGraph.Mapping.{is_free, IsRound, allocate_unique_receiver_obj_id_lem}

-- Class 1 is `Obj`, 2 is `Event`, and 3 and 4 derive from it in this order.
abbrev distance : ℕ → ℕ → Option ℕ
distance base derived = if ltb derived base then none else some (derived - base)

abbrev registry : Registry
registry = record {
  obj_class = 1;
  event_class = 2;
  is_existing = λ class_id. ltb 1 class_id;
  generation_distance = distance;
  complete_factory = λ class_id. true;
}

-- The layers stand in the order of the class ids, and another object was removed.
abbrev graph : State
graph = (30, some ((2, (0, 7 ∷ []) ∷ []) ∷ (3, (0, 8 ∷ []) ∷ (1, []) ∷ []) ∷ [])) ∷ (31, none) ∷ []

abbrev chain : StoredClassChainInfo
chain = record { obj_id = 30; chain = 2 ∷ 3 ∷ []; most_derived_class_id = 3 }

validates : validate_stored_class_chains registry graph ≡ some (chain ∷ [])
unfolding validate_stored_class_chains object_chain sort_chain class_ids place comes_before
    is_positive last_of layers_known all_related related_to_all related derives all_ancestors
validates = refl

validate_stored_class_chains_lem_example : IsValidated registry graph (chain ∷ [])
validate_stored_class_chains_lem_example =
    validate_stored_class_chains_lem registry graph (chain ∷ []) validates

-- Where the storage had a layer of the object, and one of another.
abbrev storage : Storage
storage = ((30, (3, 0)), 5 ∷ []) ∷ ((40, (3, 0)), 6 ∷ []) ∷ []

-- An archive of graphs of one object with one layer without bytes.
abbrev save_one : State → Option Bytes
save_one ((obj_id, some ((class_id, (version, []) ∷ []) ∷ [])) ∷ []) =
    some (obj_id ∷ class_id ∷ version ∷ [])
save_one _ = none

abbrev load_one : Bytes → Option (State × Bytes)
load_one (obj_id ∷ class_id ∷ version ∷ rest) =
    some ((obj_id, some ((class_id, (version, []) ∷ []) ∷ [])) ∷ [], rest)
load_one _ = none

abbrev load_first : Bytes → Option (ℕ × Bytes)
load_first [] = none
load_first (id ∷ rest) = some (id, rest)

abbrev archive : Archive
archive = record {
  save_id = λ id. id ∷ [];
  save_state = save_one;
  load_id = load_first;
  load_state = load_one;
}

load-save :
    (state : State) (bytes rest : Bytes)
    → save_one state ≡ some bytes
    → load_one (bytes ++ rest) ≡ some (state, rest)
load-save [] bytes rest h = absurd (ground arith)
load-save ((obj_id, none) ∷ state) bytes rest h = absurd (ground arith)
load-save ((obj_id, some []) ∷ state) bytes rest h = absurd (ground arith)
load-save ((obj_id, some ((class_id, []) ∷ classes)) ∷ state) bytes rest h = absurd (ground arith)
load-save ((obj_id, some ((class_id, (version, b ∷ bs) ∷ versions) ∷ classes)) ∷ state) bytes rest
      h =
    absurd (ground arith)
load-save ((obj_id, some ((class_id, (version, []) ∷ w ∷ versions) ∷ classes)) ∷ state) bytes rest
      h =
    absurd (ground arith)
load-save ((obj_id, some ((class_id, (version, []) ∷ []) ∷ d ∷ classes)) ∷ state) bytes rest h =
    absurd (ground arith)
load-save ((obj_id, some ((class_id, (version, []) ∷ []) ∷ [])) ∷ t ∷ state) bytes rest h =
    absurd (ground arith)
load-save ((obj_id, some ((class_id, (version, []) ∷ []) ∷ [])) ∷ []) bytes rest h =
    ground (arith, h)

archive-IsFaithful : IsFaithful archive
archive-IsFaithful = record { ids = λ id rest. refl; states = load-save }

abbrev event : State
event = (30, some ((3, (0, []) ∷ []) ∷ [])) ∷ []

abbrev loader : Loader
loader = record {
  load_root = λ parsed obj_id. some 3;
  references_closed = λ parsed infos. true;
  load_stored = λ stored obj_id. some 3;
}

abbrev frozen : Bytes
frozen = 30 ∷ 30 ∷ 3 ∷ 0 ∷ []

freezes : freeze_event_payload archive registry loader (30 ∷ []) 30 3 event ≡ some frozen
unfolding freeze_event_payload is_permitted contains all_permitted active_ids
    validate_closed_event_graph_storage active lookup validate_stored_class_chains object_chain
    sort_chain class_ids place comes_before is_positive last_of layers_known all_related
    related_to_all related derives all_ancestors chain_of first is_event_class all_load
freezes = refl

frozen_event_parses_example :
    (parse_event_payload archive frozen ≡ some (30, event))
    × (all_permitted (30 ∷ []) (active_ids event) ≡ true)
    × (is_some (validate_closed_event_graph_storage registry loader event 30 3) ≡ true)
frozen_event_parses_example =
    frozen_event_parses registry loader archive (30 ∷ []) 30 3 event frozen archive-IsFaithful
      freezes

frozen_event_accepted_example :
    (parse_event_payload archive frozen ≡ some (30, event))
    × (validate_standalone_event_graph registry loader event 30 3 ≡ true)
unfolding active_ids contains
frozen_event_accepted_example =
    frozen_event_accepted registry loader archive 30 3 event frozen archive-IsFaithful (omega arith)
      (refl, tt) refl freezes

-- The generator gives 0, then 30, which is occupied, then 31, then 32.
abbrev generate : ℕ → ℕ
generate zero = 0
generate (suc k) = 30 + k

abbrev is_taken : ℕ → Bool
is_taken id = id == 30

allocate_unique_receiver_obj_id_lem_example :
    (m : ℕ) × (m ≤ 2) × IsRound generate is_taken (9 ∷ []) 0 3 m
unfolding is_free contains
allocate_unique_receiver_obj_id_lem_example =
    allocate_unique_receiver_obj_id_lem generate is_taken (9 ∷ []) 0 2 3 (omega arith) (omega arith)
      refl

abbrev two_objects : List StoredClassChainInfo
two_objects = chain ∷ record chain { obj_id = 35 } ∷ []

maps : map_to_new generate is_taken 3 two_objects (9 ∷ []) 0 ≡ some ((30, 31) ∷ (35, 32) ∷ [])
unfolding map_to_new allocate_unique_receiver_obj_id contains
maps = refl
