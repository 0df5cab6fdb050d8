-- ===== src/SyncRuntime/Import/Admission.antt =====
-- What `ImportValidatedNode` has established of a snapshot before the storage is written.
use apptraverse.Prelude.{
  ℕ, suc, ◌≡◌, refl, sym, ap, ◌∙◌, subst, inl, inr, Bool, true, false, Option, none, some, List, [],
  ◌∷◌, ◌++◌, arith, length, contains, is_some, if◌then◌else◌, Bool-cases, Option-cases, of_some,
  not_some, Bytes, ◌==◌, nat_eq, bytes_eq, IsDistinct, IsDistinct-snoc, append-nil, any, index_of,
  first, get_elem?-index_of, append_assoc, length-append,
}
use apptraverse.Prelude.Assoc.{lookup}
use apptraverse.Journal.{Node, try_replay_from_base}
use apptraverse.SharedNode.{Share, SharedNode, has_share_id, find_share_index_for_share}
use apptraverse.SharedNode.Topology.{share_ids}
use apptraverse.Frame.{NodeStateFrame}
use apptraverse.SyncRuntime.{
  SharedClass, Runtime, share_endpoint, share_endpoint_of, is_endpoint, addressed_to_this_replica,
}
use apptraverse.SyncRuntime.Handlers.{state_of}
use apptraverse.SyncRuntime.Import.{
  GraphReader, shares_admissible, snapshot_admissible, source_share_ids, sole_share, is_awaited,
  parsed_graph, inspect_candidate, import_validated_node,
}

-- What a test in front of a result says where there is a result.
pub passed_test {ℓ} :
    {A : Type ℓ} (b : Bool) (x : Option A) (a : A)
    → (if b then x else none) ≡ some a
    → (b ≡ true) × (x ≡ some a)
passed_test true x a h = (refl, h)
passed_test false x a h = absurd (not_some h)

pub failed_test {ℓ} :
    {A : Type ℓ} (b : Bool) (x : Option A) (a : A)
    → (if b then none else x) ≡ some a
    → (b ≡ false) × (x ≡ some a)
failed_test false x a h = (refl, h)
failed_test true x a h = absurd (not_some h)

share_ids-append : (xs ys : List Share) → share_ids (xs ++ ys) ≡ share_ids xs ++ share_ids ys
share_ids-append [] ys = refl
share_ids-append (x ∷ xs) ys = ap (◌∷◌ x.share_id) (share_ids-append xs ys)

-- The first share of a relationship stands behind those of the others.
none_before :
    (before after : List Share) (p : ℕ)
    → (index_of (has_share_id p) (before ++ after) == length before) ≡ true
    → contains (share_ids before) p ≡ false
unfolding index_of has_share_id contains
none_before [] after p h = refl
none_before (s ∷ before) after p h = ground (arith, none_before before after p)

shares_admissible-IsDistinct :
    (n : SharedNode) (before after : List Share)
    → n.shares ≡ before ++ after
    → IsDistinct (share_ids before)
    → shares_admissible n (length before) after ≡ true
    → IsDistinct (share_ids n.shares)
unfolding shares_admissible find_share_index_for_share
shares_admissible-IsDistinct n before [] at d h =
    subst (λ (xs : List Share). IsDistinct (share_ids xs)) (sym (at ∙ append-nil before)) d
shares_admissible-IsDistinct n before (s ∷ after) at d h =
    let apart : contains (share_ids before) s.share_id ≡ false =
      none_before before (s ∷ after) s.share_id (
        subst (λ (xs : List Share). (index_of (has_share_id s.share_id) xs == length before) ≡ true)
          at (ground arith)) in
    let next : length (before ++ s ∷ []) ≡ suc (length before) =
      omega (arith, length-append before (s ∷ [])) in
    shares_admissible-IsDistinct n (before ++ s ∷ []) after
      (at ∙ sym (append_assoc before (s ∷ []) after))
      (subst (λ (ids : List ℕ). IsDistinct ids) (sym (share_ids-append before (s ∷ [])))
        (IsDistinct-snoc (share_ids before) s.share_id apart d))
      (subst (λ (i : ℕ). shares_admissible n i after ≡ true) (sym next) (ground arith))

-- The endpoint of the first share of a relationship.
abbrev endpoint_in : List Share → ℕ → Option Bytes
endpoint_in shares p = elim (first (has_share_id p) shares) [
  | none ↦ none
  | some s ↦ share_endpoint s
]

share_endpoint_of-first : (n : SharedNode) (p : ℕ) → share_endpoint_of n p ≡ endpoint_in n.shares p
unfolding share_endpoint_of find_share_index_for_share
share_endpoint_of-first n p =
    ap (λ (o : Option Share). elim o [ none ↦ none | some s ↦ share_endpoint s ])
      (get_elem?-index_of (has_share_id p) n.shares)

source_share_ids-share_ids :
    (source : Bytes) (shares : List Share) (p : ℕ)
    → contains (source_share_ids source shares) p ≡ true
    → contains (share_ids shares) p ≡ true
unfolding source_share_ids contains
source_share_ids-share_ids source [] p h = h
source_share_ids-share_ids source (s ∷ shares) p h =
    ground (arith, source_share_ids-share_ids source shares p)

-- A relationship of the source is found at its endpoint.
endpoint_in-source :
    (source : Bytes) (shares : List Share) (p : ℕ)
    → IsDistinct (share_ids shares)
    → contains (source_share_ids source shares) p ≡ true
    → is_endpoint source (endpoint_in shares p) ≡ true
unfolding source_share_ids contains first has_share_id
endpoint_in-source source [] p d h = absurd (ground arith)
endpoint_in-source source (s ∷ shares) p d h =
    let later = endpoint_in-source source shares p d.1 in
    let known = source_share_ids-share_ids source shares p in
    elim (Bool-cases (s.share_id == p)) [
      | inl here ↦ ground (arith, here, known, d.0)
      | inr there ↦ ground (arith, there, later)
    ]

sole_lem :
    (ids : List ℕ) (share_id : ℕ)
    → sole_share ids ≡ some share_id
    → (ids ≡ share_id ∷ []) × ((share_id == 0) ≡ false)
unfolding sole_share
sole_lem [] share_id h = absurd (not_some h)
sole_lem (p ∷ []) share_id h =
    let (valid, same) = failed_test (p == 0) (some p) share_id h in
    (ap (λ (x : ℕ). x ∷ []) (of_some same), ground (arith, of_some same))
sole_lem (p ∷ q ∷ ids) share_id h = absurd (not_some h)

-- The endpoint of one relationship at two addresses shows that the addresses are one.
one_endpoint :
    (a b : Bytes) (endpoint : Option Bytes)
    → is_endpoint a endpoint ≡ true
    → is_endpoint b endpoint ≡ true
    → (a == b) ≡ true
unfolding is_endpoint
one_endpoint a b none h k = absurd (ground arith)
one_endpoint a b (some x) h k =
    ground (arith, bytes_eq.beq_iff x a, bytes_eq.beq_iff x b, bytes_eq.beq_iff a b)

nat_same : (p q : ℕ) → (p == q) ≡ true → p ≡ q
nat_same p q h = ground arith

own : (p : ℕ) → contains (p ∷ []) p ≡ true
unfolding contains
own p = ground arith

-- Relationships that end at different addresses are different.
apart :
    (endpoint : ℕ → Option Bytes) (a b : Bytes) (p q : ℕ)
    → (a == b) ≡ false
    → is_endpoint a (endpoint p) ≡ true
    → is_endpoint b (endpoint q) ≡ true
    → (p == q) ≡ false
apart endpoint a b p q differ h k = elim (Bool-cases (p == q)) [
  | inl same ↦
      let e : p ≡ q = nat_same p q same in
      absurd (
        ground (
          arith,
          differ,
          one_endpoint a b (endpoint q) (subst (λ (x : ℕ). is_endpoint a (endpoint x) ≡ true) e h)
              k,
        ))
  | inr other ↦ other
]

module _ {S E G : Type 0} (c : SharedClass S E) (g : GraphReader S E G) where
  -- What holds of a node that is imported, and of the relationship of the endpoint it came from.
  pub record Admitted (occupied : ℕ → Bool) (rt : Runtime S E) (source : Bytes)
      (frame : NodeStateFrame) (n : Node S E) (share_id : ℕ) : Type 0 where
    pub awaited : is_awaited rt source frame.target_node_id ≡ true
    pub free :
        (graph : G) × (g.parse_graph frame.payload ≡ some graph)
        × (any occupied (g.object_ids graph) ≡ false)
    pub foreign : (source == rt.local_endpoint) ≡ false
    pub addressed :
        is_endpoint rt.local_endpoint
          (share_endpoint_of (c.shared n.fields) frame.destination_share_id)
        ≡ true
    pub distinct : IsDistinct (share_ids (c.shared n.fields).shares)
    pub sole : source_share_ids source (c.shared n.fields).shares ≡ share_id ∷ []
    pub valid : (share_id == 0) ≡ false
    pub from_source : is_endpoint source (share_endpoint_of (c.shared n.fields) share_id) ≡ true
    pub synced : is_some (state_of c n share_id) ≡ true
    pub others : (share_id == frame.destination_share_id) ≡ false

  -- The graph loads from the storage of the replica as it did in the scratch domain.
  abbrev pub IsFaithfulLoad : Type 0
  IsFaithfulLoad =
      (graph : G) (node_id class_id : ℕ) (candidate : Node S E)
      → g.load_root graph node_id ≡ some (class_id, candidate)
      → g.load_own graph node_id ≡ candidate

  admissible_lem :
      (class_id : ℕ) (candidate n : Node S E) (local_endpoint source : Bytes) (share_id : ℕ)
      → snapshot_admissible c g class_id candidate local_endpoint source share_id ≡ some n
      → ((try_replay_from_base c.target candidate).0 ≡ n)
        × (shares_admissible (c.shared n.fields) 0 (c.shared n.fields).shares ≡ true)
        × (addressed_to_this_replica (c.shared n.fields) local_endpoint source share_id ≡ true)
  unfolding snapshot_admissible
  admissible_lem class_id candidate n local_endpoint source share_id h = ground arith

  inspect_lem :
      (rt : Runtime S E) (source : Bytes) (frame : NodeStateFrame) (graph : G) (share_id : ℕ)
      → inspect_candidate c g rt source frame graph ≡ some share_id
      → (class_id : ℕ) × (candidate : Node S E) × (n : Node S E) × (g.load_root graph
            frame.target_node_id
          ≡ some (class_id, candidate))
        × (snapshot_admissible c g class_id candidate rt.local_endpoint source
              frame.destination_share_id
            ≡ some n)
        × (sole_share (source_share_ids source (c.shared n.fields).shares) ≡ some share_id)
        × (is_some (state_of c n share_id) ≡ true)
  unfolding inspect_candidate
  inspect_lem rt source frame graph share_id h =
      elim (Option-cases (g.load_root graph frame.target_node_id)) [
        | inl missing ↦ absurd (ground (arith, missing))
        | inr ((class_id, candidate), loaded) ↦
            elim (Option-cases (
              snapshot_admissible c g class_id candidate rt.local_endpoint source
                frame.destination_share_id)) [
                  | inl refused ↦ absurd (ground (arith, loaded, refused))
                  | inr (n, admitted) ↦
                      elim (Option-cases
                        (sole_share (source_share_ids source (c.shared n.fields).shares))) [
                          | inl none_or_many ↦
                              absurd (ground (arith, loaded, admitted, none_or_many))
                          | inr (p, one) ↦
                              let same : p ≡ share_id = ground (arith, loaded, admitted, one) in
                              (
                                class_id,
                                candidate,
                                n,
                                loaded,
                                admitted,
                                one ∙ ap some same,
                                ground (arith, loaded, admitted, one),
                              )
                        ]
                ]
      ]

  parsed_lem :
      (rt : Runtime S E) (source : Bytes) (frame : NodeStateFrame) (graph : G)
      → parsed_graph g rt source frame ≡ some graph
      → g.parse_graph frame.payload ≡ some graph
  unfolding parsed_graph
  parsed_lem rt source frame graph h = elim (Option-cases (g.parse_graph frame.payload)) [
    | inl missing ↦ absurd (ground (arith, missing))
    | inr (read, parsed) ↦ elim (Option-cases (g.class_chains read)) [
      | inl broken ↦ absurd (ground (arith, parsed, broken))
      | inr (chains, checked) ↦ elim (Option-cases (lookup frame.target_node_id chains)) [
        | inl rootless ↦ absurd (ground (arith, parsed, checked, rootless))
        | inr (class_id, at) ↦ parsed ∙ ground (arith, parsed, checked, at)
      ]
    ]
  ]

  admitted :
      (occupied : ℕ → Bool) (rt : Runtime S E) (source : Bytes) (frame : NodeStateFrame)
      (n : Node S E) (share_id : ℕ)
      → is_awaited rt source frame.target_node_id ≡ true
      → (graph : G) × (g.parse_graph frame.payload ≡ some graph)
        × (any occupied (g.object_ids graph) ≡ false)
      → shares_admissible (c.shared n.fields) 0 (c.shared n.fields).shares ≡ true
      → addressed_to_this_replica
          (c.shared n.fields)
          rt.local_endpoint
          source
          frame.destination_share_id
        ≡ true
      → sole_share (source_share_ids source (c.shared n.fields).shares) ≡ some share_id
      → is_some (state_of c n share_id) ≡ true
      → Admitted occupied rt source frame n share_id
  unfolding addressed_to_this_replica
  admitted occupied rt source frame n share_id awaited free shares reached one synced =
      let s = c.shared n.fields in
      let distinct = shares_admissible-IsDistinct s [] s.shares refl tt shares in
      let (sole, valid) = sole_lem (source_share_ids source s.shares) share_id one in
      let found : contains (source_share_ids source s.shares) share_id ≡ true =
        subst (λ (ids : List ℕ). contains ids share_id ≡ true) (sym sole) (own share_id) in
      let from : is_endpoint source (share_endpoint_of s share_id) ≡ true =
        ap (is_endpoint source) (share_endpoint_of-first s share_id)
        ∙ endpoint_in-source source s.shares share_id distinct found in
      let foreign : (source == rt.local_endpoint) ≡ false = ground arith in
      let addressed : is_endpoint rt.local_endpoint (share_endpoint_of s frame.destination_share_id)
          ≡ true =
        ground arith in
      record {
        awaited = awaited;
        free = free;
        foreign = foreign;
        addressed = addressed;
        distinct = distinct;
        sole = sole;
        valid = valid;
        from_source = from;
        synced = synced;
        others =
            apart (share_endpoint_of s) source rt.local_endpoint share_id frame.destination_share_id
              foreign from addressed;
      }

  -- A snapshot is imported only where the replica waits for this node from this endpoint, where no object
  -- of the graph is known already, and where the graph loads: the source is another endpoint, the
  -- relationship that the frame names ends at this replica, the ids of the relationships differ, and
  -- exactly one of them ends at the source; this one has a synchronization state, and it is another one
  -- than the frame names. The graph is assumed to load from the own storage as from the scratch one.
  pub import_validated_node_lem :
      (occupied : ℕ → Bool) (rt : Runtime S E) (source : Bytes) (frame : NodeStateFrame)
      (n : Node S E) (share_id : ℕ)
      → IsFaithfulLoad
      → import_validated_node c g occupied rt source frame ≡ some (n, share_id)
      → Admitted occupied rt source frame n share_id
  unfolding import_validated_node
  import_validated_node_lem occupied rt source frame n share_id faithful h =
      let awaited : is_awaited rt source frame.target_node_id ≡ true = ground (arith, h) in
      elim (Option-cases (parsed_graph g rt source frame)) [
        | inl missing ↦ absurd (ground (arith, missing, awaited, h))
        | inr (graph, parsed) ↦ elim (Option-cases (inspect_candidate c g rt source frame graph)) [
          | inl refused ↦ absurd (ground (arith, parsed, refused, awaited, h))
          | inr (p, inspected) ↦
              let out : Node S E × ℕ =
                ((try_replay_from_base c.target (g.load_own graph frame.target_node_id)).0, p) in
              let (free, pair) =
                failed_test (any occupied (g.object_ids graph)) (some out) (n, share_id)
                  (ground (arith, parsed, inspected, awaited, h)) in
              let same : p ≡ share_id = ground (arith, pair) in
              let (class_id, candidate, m, loaded, admissible, one, synced) =
                inspect_lem rt source frame graph p inspected in
              let (replayed, shares, reached) =
                admissible_lem class_id candidate m rt.local_endpoint source
                  frame.destination_share_id admissible in
              let at : m ≡ n =
                sym replayed
                ∙ ap (λ (x : Node S E). (try_replay_from_base c.target x).0)
                    (sym (faithful graph frame.target_node_id class_id candidate loaded))
                ∙ ground (arith, pair) in
              admitted occupied rt source frame n share_id awaited
                (graph, parsed_lem rt source frame graph parsed, free)
                (subst
                  (λ (x : Node S E).
                    shares_admissible (c.shared x.fields) 0 (c.shared x.fields).shares ≡ true)
                  at shares)
                (subst
                  (λ (x : Node S E).
                    addressed_to_this_replica (c.shared x.fields) rt.local_endpoint source
                      frame.destination_share_id
                    ≡ true)
                  at reached)
                (subst
                  (λ (x : Node S E).
                    sole_share (source_share_ids source (c.shared x.fields).shares) ≡ some share_id)
                  at (one ∙ ap some same))
                (subst (λ (x : Node S E). is_some (state_of c x share_id) ≡ true) at
                  (subst (λ (q : ℕ). is_some (state_of c m q) ≡ true) same synced))
        ]
      ]
