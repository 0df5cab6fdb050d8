-- ===== src/NetworkGraph.antt =====
-- Object graphs on the wire: include/apptraverse/shared_network_graph.h and src/shared_network_graph.cpp. A
-- stored graph is the state of a `RamDomainStorage`: for each object id its class layers, with the bytes
-- of each version, and `none` for an object that was removed. Maps are lists of entries in key order.
-- The class registry, the binary archive and the loading of objects are third-party and parameters.

pub mod Chains
pub mod Events
pub mod Commit
pub mod Payload
pub mod Mapping
mod Runs
use apptraverse.Prelude.{
  ℕ, zero, suc, Bool, true, false, ◌&&◌, ◌||◌, not, Option, none, some, List, [], ◌∷◌, ◌++◌,
  if◌then◌else◌, length, first, any, contains, is_some, Bytes, Eq, ◌==◌, nat_eq, pair_eq,
}
use apptraverse.Prelude.Assoc.{lookup, insert}

abbrev pub Versions : Type 0
Versions = List (ℕ × Bytes)

abbrev pub Classes : Type 0
Classes = List (ℕ × Versions)

abbrev pub State : Type 0
State = List (ℕ × Option Classes)

-- `generation_distance base derived` is `none` where the code's is negative, and `complete_factory` tells
-- whether a class has a factory that creates, loads and saves.
pub record Registry : Type 0 where
  pub obj_class : ℕ
  pub event_class : ℕ
  pub is_existing : ℕ → Bool
  pub generation_distance : ℕ → ℕ → Option ℕ
  pub complete_factory : ℕ → Bool

pub record StoredClassChainInfo : Type 0 where
  pub obj_id : ℕ
  pub chain : List ℕ
  pub most_derived_class_id : ℕ

unfoldable pub derives : Registry → ℕ → ℕ → Bool
derives r base derived = is_some (r.generation_distance base derived)

-- Every layer is registered, but for that of `Obj`, and holds a version.
unfoldable pub layers_known : Registry → Classes → Bool
layers_known r [] = true
layers_known r ((class_id, versions) ∷ classes) =
    let rest = layers_known r classes in
    ((class_id == r.obj_class) || r.is_existing class_id) && not (length versions == 0) && rest

unfoldable pub class_ids : Classes → List ℕ
class_ids [] = []
class_ids ((class_id, versions) ∷ classes) = class_id ∷ class_ids classes

unfoldable pub related : Registry → ℕ → ℕ → Bool
related r a b = (a == r.obj_class) || (b == r.obj_class) || derives r a b || derives r b a

unfoldable pub related_to_all : Registry → ℕ → List ℕ → Bool
related_to_all r a [] = true
related_to_all r a (b ∷ chain) = let rest = related_to_all r a chain in related r a b && rest

unfoldable pub all_related : Registry → List ℕ → Bool
all_related r [] = true
all_related r (a ∷ chain) = let rest = all_related r chain in related_to_all r a chain && rest

unfoldable pub is_positive : Option ℕ → Bool
is_positive none = false
is_positive (some distance) = not (distance == 0)

-- The order that the chain is sorted by.
unfoldable pub comes_before : Registry → ℕ → ℕ → Bool
comes_before r a b =
    if a == b
    then false
    else if a == r.obj_class
    then true
    else if b == r.obj_class
    then false
    else is_positive (r.generation_distance a b)

unfoldable pub place : Registry → ℕ → List ℕ → List ℕ
place r a [] = a ∷ []
place r a (b ∷ chain) =
    let further = place r a chain in if comes_before r b a then b ∷ further else a ∷ b ∷ chain

unfoldable pub sort_chain : Registry → List ℕ → List ℕ
sort_chain r [] = []
sort_chain r (a ∷ chain) = place r a (sort_chain r chain)

unfoldable pub last_of : ℕ → List ℕ → ℕ
last_of a [] = a
last_of a (b ∷ chain) = last_of b chain

unfoldable pub all_ancestors : Registry → ℕ → List ℕ → Bool
all_ancestors r most_derived [] = true
all_ancestors r most_derived (c ∷ chain) =
    let rest = all_ancestors r most_derived chain in
    ((c == r.obj_class) || derives r c most_derived) && rest

-- The chain of one object. The last class of an empty chain is not looked at.
unfoldable pub object_chain : Registry → ℕ → Classes → Option StoredClassChainInfo
object_chain r obj_id classes =
    let chain = sort_chain r (class_ids classes) in
    let most_derived = last_of r.obj_class chain in
    if not (obj_id == 0)
      && not (length classes == 0)
      && layers_known r classes
      && all_related r (class_ids classes)
      && not (most_derived == r.obj_class)
      && r.complete_factory most_derived
      && all_ancestors r most_derived chain
    then some (record { obj_id = obj_id; chain = chain; most_derived_class_id = most_derived })
    else none

unfoldable pub validate_stored_class_chains : Registry → State → Option (List StoredClassChainInfo)
validate_stored_class_chains r [] = some []
validate_stored_class_chains r ((obj_id, none) ∷ state) = validate_stored_class_chains r state
validate_stored_class_chains r ((obj_id, some classes) ∷ state) =
    let rest = validate_stored_class_chains r state in
    elim (object_chain r obj_id classes) [
      | none ↦ none
      | some info ↦ elim rest [ none ↦ none | some infos ↦ some (info ∷ infos) ]
    ]

-- A storage that is written to, by object, class and version. A layer without bytes is an entry too.
abbrev pub Storage : Type 0
Storage = List ((ℕ × (ℕ × ℕ)) × Bytes)

unfoldable pub store_versions : ℕ → ℕ → Versions → Storage → Storage
store_versions obj_id class_id [] storage = storage
store_versions obj_id class_id ((version, bytes) ∷ versions) storage =
    store_versions obj_id class_id versions (insert (obj_id, (class_id, version)) bytes storage)

-- `TransferRamObject`, and `CopyStoredObjectAs` with another id.
unfoldable pub store_classes : ℕ → Classes → Storage → Storage
store_classes obj_id [] storage = storage
store_classes obj_id ((class_id, versions) ∷ classes) storage =
    store_classes obj_id classes (store_versions obj_id class_id versions storage)

unfoldable pub commit_object_graph : State → Storage → Storage
commit_object_graph [] storage = storage
commit_object_graph ((obj_id, none) ∷ state) storage = commit_object_graph state storage
commit_object_graph ((obj_id, some classes) ∷ state) storage =
    commit_object_graph state (store_classes obj_id classes storage)

-- The binary archive: what it saves, and what it loads with the bytes behind it.
pub record Archive : Type 0 where
  pub save_id : ℕ → Bytes
  pub save_state : State → Option Bytes
  pub load_id : Bytes → Option (ℕ × Bytes)
  pub load_state : Bytes → Option (State × Bytes)

unfoldable pub active : ℕ → State → Bool
active obj_id state = elim (lookup obj_id state) [ none ↦ false | some classes ↦ is_some classes ]

unfoldable pub active_ids : State → List ℕ
active_ids [] = []
active_ids ((obj_id, none) ∷ state) = active_ids state
active_ids ((obj_id, some classes) ∷ state) = obj_id ∷ active_ids state

unfoldable pub deserialize_object_graph : Archive → Bytes → Option State
deserialize_object_graph a payload = elim (a.load_state payload) [
  | none ↦ none
  | some (state, rest) ↦ if length rest == 0 then some state else none
]

-- Nothing is written where the payload is malformed.
unfoldable pub import_object_graph_payload : Archive → Bytes → Storage → Storage × Bool
import_object_graph_payload a payload storage = elim (deserialize_object_graph a payload) [
  | none ↦ (storage, false)
  | some state ↦ (commit_object_graph state storage, true)
]
