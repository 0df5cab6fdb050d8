-- ===== src/SyncRuntime/Import/Untrusted.antt =====
-- The import of a snapshot with the object graphs of src/shared_network_graph.cpp.
use apptraverse.Prelude.{
  ℕ, ◌≡◌, ap, ◌∙◌, subst, inl, inr, Bool, true, false, Option, none, some, List, arith,
  Option-cases, map, any, Bytes, nat_eq,
}
use apptraverse.Prelude.Assoc.{lookup}
use apptraverse.Journal.{Node}
use apptraverse.Frame.{NodeStateFrame}
use apptraverse.NetworkGraph.{
  State, Registry, StoredClassChainInfo, derives, validate_stored_class_chains, Archive, active_ids,
  deserialize_object_graph,
}
use apptraverse.NetworkGraph.Chains.{IsValidated, validate_stored_class_chains_lem}
use apptraverse.SyncRuntime.{SharedClass, Runtime}
use apptraverse.SyncRuntime.Import.{
  GraphReader, root_class_allowed, parsed_graph, inspect_candidate, import_validated_node,
}

abbrev pub most_derived_classes : List StoredClassChainInfo → List (ℕ × ℕ)
most_derived_classes =
    map (λ (info : StoredClassChainInfo). (info.obj_id, info.most_derived_class_id))

abbrev pub classes_of : Option (List StoredClassChainInfo) → Option (List (ℕ × ℕ))
classes_of none = none
classes_of (some infos) = some (most_derived_classes infos)

module _ (a : Archive) (r : Registry) (shared_node_class : ℕ) where
  -- What an import has established of the bytes it came from.
  abbrev pub IsSound : (ℕ → Bool) → NodeStateFrame → Type 0
  IsSound occupied frame =
      (graph : State) × (infos : List StoredClassChainInfo) × (class_id : ℕ)
      × (deserialize_object_graph a frame.payload ≡ some graph)
      × IsValidated r graph infos
      × (lookup frame.target_node_id (most_derived_classes infos) ≡ some class_id)
      × (derives r shared_node_class class_id ≡ true)
      × (any occupied (active_ids graph) ≡ false)

-- The reader of stored graphs, from the binary archive, the class registry and the loading of objects.
module _ {S E : Type 0} (a : Archive) (r : Registry) (shared_node_class : ℕ)
    (event_targets : E → ℕ → Bool) (load_root : State → ℕ → Option (ℕ × Node S E))
    (load_own : State → ℕ → Node S E) where
  abbrev pub network_reader : GraphReader S E State
  network_reader = record {
    parse_graph = deserialize_object_graph a;
    class_chains = λ graph. classes_of (validate_stored_class_chains r graph);
    derives_shared_node = derives r shared_node_class;
    event_targets = event_targets;
    load_root = load_root;
    object_ids = active_ids;
    load_own = load_own;
  }

  parsed_graph_sound :
      (rt : Runtime S E) (source : Bytes) (frame : NodeStateFrame) (graph : State)
      → parsed_graph network_reader rt source frame ≡ some graph
      → (infos : List StoredClassChainInfo) × (class_id : ℕ) × (deserialize_object_graph a
            frame.payload
          ≡ some graph)
        × (validate_stored_class_chains r graph ≡ some infos)
        × (lookup frame.target_node_id (most_derived_classes infos) ≡ some class_id)
        × (derives r shared_node_class class_id ≡ true)
  unfolding parsed_graph root_class_allowed
  parsed_graph_sound rt source frame graph h =
      elim (Option-cases (deserialize_object_graph a frame.payload)) [
        | inl malformed ↦ absurd (ground (arith, malformed, h))
        | inr (read, parsed) ↦ elim (Option-cases (validate_stored_class_chains r read)) [
          | inl broken ↦ absurd (ground (arith, parsed, broken, h))
          | inr (infos, chains) ↦
              elim (Option-cases (lookup frame.target_node_id (most_derived_classes infos))) [
                | inl rootless ↦ absurd (ground (arith, parsed, chains, rootless, h))
                | inr (class_id, at) ↦
                    let same : read ≡ graph = ground (arith, parsed, chains, at, h) in
                    (
                      infos,
                      class_id,
                      parsed ∙ ap some same,
                      subst (λ (x : State). validate_stored_class_chains r x ≡ some infos) same
                          chains,
                      at,
                      ground (arith, parsed, chains, at, h),
                    )
              ]
        ]
      ]

  -- Bytes from the network become a node of the replica only if they are a stored graph with nothing behind
  -- it, in which every object has an accepted class chain, the root that the frame names is of a class
  -- derived from SharedNode, and no object has an id that the replica has already.
  pub import_validated_node-IsSound :
      (c : SharedClass S E) (occupied : ℕ → Bool) (rt : Runtime S E) (source : Bytes)
      (frame : NodeStateFrame) (n : Node S E) (share_id : ℕ)
      → import_validated_node c network_reader occupied rt source frame ≡ some (n, share_id)
      → IsSound a r shared_node_class occupied frame
  unfolding import_validated_node
  import_validated_node-IsSound c occupied rt source frame n share_id h =
      elim (Option-cases (parsed_graph network_reader rt source frame)) [
        | inl refused ↦ absurd (ground (arith, refused, h))
        | inr (graph, parsed) ↦
            elim (Option-cases (inspect_candidate c network_reader rt source frame graph)) [
              | inl refused ↦ absurd (ground (arith, parsed, refused, h))
              | inr (p, inspected) ↦
                  let (infos, class_id, read, chains, root, derived) =
                    parsed_graph_sound rt source frame graph parsed in
                  (
                    graph,
                    infos,
                    class_id,
                    read,
                    validate_stored_class_chains_lem r graph infos chains,
                    root,
                    derived,
                    ground (arith, parsed, inspected, h),
                  )
            ]
      ]
