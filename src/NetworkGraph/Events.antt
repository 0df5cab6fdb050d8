-- ===== src/NetworkGraph/Events.antt =====
-- Event payloads of src/shared_network_graph.cpp: freezing, parsing, validation, and import under new ids.
use apptraverse.Prelude.{
  ℕ, zero, suc, Bool, true, false, ◌&&◌, ◌||◌, not, Option, none, some, List, [], ◌∷◌, ◌++◌,
  if◌then◌else◌, length, first, contains, is_some, Bytes, ◌==◌, nat_eq,
}
use apptraverse.Prelude.Assoc.{lookup}
use apptraverse.NetworkGraph.{
  State, Registry, StoredClassChainInfo, derives, validate_stored_class_chains, Storage,
  store_classes, Archive, active, active_ids,
}

-- What loading tells: `load_root` is the class of an object that loads in a scratch domain over the graph,
-- `references_closed` the pass of a validating `OperationStorage` over every object, and `load_stored`
-- the class of an object that loads from the receiver's storage.
pub record Loader : Type 0 where
  pub load_root : State → ℕ → Option ℕ
  pub references_closed : State → List StoredClassChainInfo → Bool
  pub load_stored : Storage → ℕ → Option ℕ

unfoldable pub chain_of : ℕ → List StoredClassChainInfo → Option StoredClassChainInfo
chain_of obj_id infos = first (λ (info : StoredClassChainInfo). info.obj_id == obj_id) infos

unfoldable pub all_load : Loader → State → List StoredClassChainInfo → Bool
all_load l parsed [] = true
all_load l parsed (info ∷ infos) =
    let rest = all_load l parsed infos in is_some (l.load_root parsed info.obj_id) && rest

-- Whether the class of the root derives from `Event` and, where one is expected, is this one.
unfoldable pub is_event_class : Registry → ℕ → ℕ → Bool
is_event_class r expected_class_id class_id =
    derives r r.event_class class_id
    && ((expected_class_id == 0) || (class_id == expected_class_id))

unfoldable pub validate_closed_event_graph_storage :
    Registry → Loader → State → ℕ → ℕ → Option (List StoredClassChainInfo)
validate_closed_event_graph_storage r l parsed root_id expected_class_id =
    if not (root_id == 0) && active root_id parsed
    then elim (validate_stored_class_chains r parsed) [
      | none ↦ none
      | some infos ↦ elim (chain_of root_id infos) [
        | none ↦ none
        | some info ↦
            if is_event_class r expected_class_id info.most_derived_class_id
              && is_some (l.load_root parsed root_id)
              && all_load l parsed infos
              && l.references_closed parsed infos
            then some infos
            else none
      ]
    ]
    else none

-- The ids that an `EventGraphExportBoundary` of these ids permits.
unfoldable pub is_permitted : List ℕ → ℕ → Bool
is_permitted boundary obj_id = not (obj_id == 0) && contains boundary obj_id

unfoldable pub all_permitted : List ℕ → List ℕ → Bool
all_permitted boundary [] = true
all_permitted boundary (obj_id ∷ ids) =
    let rest = all_permitted boundary ids in is_permitted boundary obj_id && rest

-- `FreezeEventPayload` of an event with the graph that `BuildNetworkSharedScratch` saves of it.
unfoldable pub freeze_event_payload :
    Archive → Registry → Loader → List ℕ → ℕ → ℕ → State → Option Bytes
freeze_event_payload a r l boundary event_id class_id scratch =
    if is_permitted boundary event_id && all_permitted boundary (active_ids scratch)
    then elim (validate_closed_event_graph_storage r l scratch event_id class_id) [
      | none ↦ none
      | some infos ↦ elim (a.save_state scratch) [
        | none ↦ none
        | some bytes ↦ some (a.save_id event_id ++ bytes)
      ]
    ]
    else none

unfoldable pub parse_event_payload : Archive → Bytes → Option (ℕ × State)
parse_event_payload a payload = elim (a.load_id payload) [
  | none ↦ none
  | some (root_id, body) ↦ if root_id == 0 then none else elim (a.load_state body) [
    | none ↦ none
    | some (parsed, rest) ↦
        if (length rest == 0) && active root_id parsed then some (root_id, parsed) else none
  ]
]

-- Exactly one object was not removed, and it is the root.
unfoldable pub only_active : ℕ → List ℕ → Bool
only_active root_id [] = false
only_active root_id (obj_id ∷ []) = obj_id == root_id
only_active root_id (obj_id ∷ other ∷ ids) = false

unfoldable pub loads_as : Option ℕ → ℕ → Bool
loads_as none class_id = false
loads_as (some loaded) class_id = loaded == class_id

unfoldable pub validate_standalone_event_graph : Registry → Loader → State → ℕ → ℕ → Bool
validate_standalone_event_graph r l parsed root_id expected_class_id =
    not (root_id == 0) && (elim (validate_stored_class_chains r parsed) [
      | none ↦ false
      | some infos ↦ only_active root_id (active_ids parsed) && (elim (chain_of root_id infos) [
        | none ↦ false
        | some info ↦
            (info.most_derived_class_id == expected_class_id)
            && derives r r.event_class expected_class_id
            && loads_as (l.load_root parsed root_id) expected_class_id
      ])
    ])

-- The loop of `AllocateUniqueReceiverObjId`: `generate k` is the id that is generated k-th, and `occupied`
-- tells whether the domain or the storage has an object. The result is the id with the number of the next.
unfoldable pub allocate_unique_receiver_obj_id :
    (ℕ → ℕ) → (ℕ → Bool) → List ℕ → ℕ → ℕ → Option (ℕ × ℕ)
allocate_unique_receiver_obj_id generate occupied reserved_ids k zero = none
allocate_unique_receiver_obj_id generate occupied reserved_ids k (suc fuel) =
    let rest = allocate_unique_receiver_obj_id generate occupied reserved_ids (suc k) fuel in
    let id = generate k in
    if (id == 0) || contains reserved_ids id || occupied id then rest else some (id, suc k)

-- The new id of each object of a closed event graph.
unfoldable pub map_to_new :
    (ℕ → ℕ) → (ℕ → Bool) → ℕ → List StoredClassChainInfo → List ℕ → ℕ → Option (List (ℕ × ℕ))
map_to_new generate occupied fuel [] reserved_ids k = some []
map_to_new generate occupied fuel (info ∷ infos) reserved_ids k =
    elim (allocate_unique_receiver_obj_id generate occupied reserved_ids k fuel) [
      | none ↦ none
      | some (id, next) ↦ elim (map_to_new generate occupied fuel infos (id ∷ reserved_ids) next) [
        | none ↦ none
        | some mapping ↦ some ((info.obj_id, id) ∷ mapping)
      ]
    ]

-- The storage with the copy, and the new id where the copy loads as the event that is expected.
unfoldable pub import_standalone_event_graph :
    Registry → Loader → State → ℕ → ℕ → ℕ → Storage → Storage × Option ℕ
import_standalone_event_graph r l parsed root_id expected_class_id destination_id storage =
    if validate_standalone_event_graph r l parsed root_id expected_class_id
      && not (destination_id == 0)
    then elim (lookup root_id parsed) [
      | none ↦ (storage, none)
      | some object ↦ elim object [
        | none ↦ (storage, none)
        | some classes ↦
            let written = store_classes destination_id classes storage in
            (
              written,
              if loads_as (l.load_stored written destination_id) expected_class_id
                  then some destination_id
                  else none,
            )
      ]
    ]
    else (storage, none)
