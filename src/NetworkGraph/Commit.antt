-- ===== src/NetworkGraph/Commit.antt =====
-- What `CommitObjectGraph` writes: the layers of the graph, and nothing else.
use apptraverse.Prelude.{
  ℕ, ◌≡◌, refl, false, ◌&&◌, Option, none, some, List, [], ◌∷◌, arith, if◌then◌else◌, contains,
  Bytes, ◌==◌, nat_eq, pair_eq, pair_beq, IsDistinct, All, map,
}
use apptraverse.Prelude.Assoc.{lookup, insert, lookup-insert}
use apptraverse.NetworkGraph.{
  Versions, Classes, State, Storage, store_versions, store_classes, commit_object_graph,
}

abbrev pub keys_of {ℓ} : {V : Type ℓ} → List (ℕ × V) → List ℕ
keys_of = map (λ p. p.0)

-- The value that a map gives, or what was there before.
abbrev pub or_else {ℓ} : {V : Type ℓ} → Option V → Option V → Option V
or_else none old = old
or_else (some v) old = some v

abbrev pub layer_in : Option Classes → ℕ → ℕ → Option Bytes
layer_in none class_id version = none
layer_in (some classes) class_id version = elim (lookup class_id classes) [
  | none ↦ none
  | some versions ↦ lookup version versions
]

-- The bytes of a layer of a graph.
abbrev pub layer : State → ℕ → ℕ → ℕ → Option Bytes
layer state obj_id class_id version = elim (lookup obj_id state) [
  | none ↦ none
  | some object ↦ layer_in object class_id version
]

lookup-unknown {ℓ} :
    {V : Type ℓ} (k : ℕ) (m : List (ℕ × V)) → contains (keys_of m) k ≡ false → lookup k m ≡ none
unfolding lookup contains
lookup-unknown k [] h = refl
lookup-unknown k ((j, v) ∷ m) h = ground (arith, h, lookup-unknown k m)

lookup-insert_layer :
    (o c v obj_id class_id version : ℕ) (bytes : Bytes) (storage : Storage)
    → lookup (o, (c, v)) (insert (obj_id, (class_id, version)) bytes storage) ≡ (
        if (obj_id == o) && ((class_id == c) && (version == v))
        then some bytes
        else lookup (o, (c, v)) storage)
unfolding pair_beq
lookup-insert_layer o c v obj_id class_id version bytes storage =
    lookup-insert (obj_id, (class_id, version)) (o, (c, v)) bytes storage

lookup-store_versions :
    (o c v : ℕ) (obj_id class_id : ℕ) (versions : Versions) (storage : Storage)
    → IsDistinct (keys_of versions)
    → lookup (o, (c, v)) (store_versions obj_id class_id versions storage) ≡ (
        if (obj_id == o) && (class_id == c)
        then or_else (lookup v versions) (lookup (o, (c, v)) storage)
        else lookup (o, (c, v)) storage)
unfolding store_versions lookup
lookup-store_versions o c v obj_id class_id [] storage d = ground arith
lookup-store_versions o c v obj_id class_id ((version, bytes) ∷ versions) storage d = ground (
  arith,
  d.0,
  lookup-store_versions o c v obj_id class_id versions
      (insert (obj_id, (class_id, version)) bytes storage) d.1,
  lookup-insert_layer o c v obj_id class_id version bytes storage,
  lookup-unknown v versions,
  nat_eq.beq_iff version v,
)

lookup-store_classes :
    (o c v : ℕ) (obj_id : ℕ) (classes : Classes) (storage : Storage)
    → IsDistinct (keys_of classes)
    → All (λ (p : ℕ × Versions). IsDistinct (keys_of p.1)) classes
    → lookup (o, (c, v)) (store_classes obj_id classes storage) ≡ (
        if obj_id == o
        then or_else (layer_in (some classes) c v) (lookup (o, (c, v)) storage)
        else lookup (o, (c, v)) storage)
unfolding store_classes lookup
lookup-store_classes o c v obj_id [] storage d all = ground arith
lookup-store_classes o c v obj_id ((class_id, versions) ∷ classes) storage d all = ground (
  arith,
  d.0,
  lookup-store_classes o c v obj_id classes (store_versions obj_id class_id versions storage) d.1
      all.1,
  lookup-store_versions o c v obj_id class_id versions storage all.0,
  lookup-unknown c classes,
  nat_eq.beq_iff class_id c,
)

-- The keys at each level of a graph differ, as those of a map do.
abbrev pub IsMap : State → Type 0
IsMap [] = Unit
IsMap ((obj_id, none) ∷ state) = (contains (keys_of state) obj_id ≡ false) × IsMap state
IsMap ((obj_id, some classes) ∷ state) =
    (contains (keys_of state) obj_id ≡ false)
    × IsDistinct (keys_of classes)
    × All (λ (p : ℕ × Versions). IsDistinct (keys_of p.1)) classes
    × IsMap state

-- After a graph was committed, a layer of the storage is the one that the graph holds and, where the graph
-- holds none for the object, class and version, what it was before. The keys of a map differ.
pub commit_object_graph_lem :
    (state : State) (storage : Storage) (o c v : ℕ)
    → IsMap state
    → lookup (o, (c, v)) (commit_object_graph state storage)
      ≡ or_else (layer state o c v) (lookup (o, (c, v)) storage)
unfolding commit_object_graph lookup
commit_object_graph_lem [] storage o c v h = refl
commit_object_graph_lem ((obj_id, none) ∷ state) storage o c v (apart, h) = ground (
  arith,
  commit_object_graph_lem state storage o c v h,
  lookup-unknown o state,
  nat_eq.beq_iff obj_id o,
  apart,
)
commit_object_graph_lem ((obj_id, some classes) ∷ state) storage o c v (apart, d, all, h) = ground (
  arith,
  commit_object_graph_lem state (store_classes obj_id classes storage) o c v h,
  lookup-store_classes o c v obj_id classes storage d all,
  lookup-unknown o state,
  nat_eq.beq_iff obj_id o,
  apart,
)
