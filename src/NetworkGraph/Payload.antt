-- ===== src/NetworkGraph/Payload.antt =====
-- What a sender freezes of an event is what the receiver parses and accepts.
use apptraverse.Prelude.{
  ℕ, ◌≡◌, sym, ap, ◌∙◌, subst, inl, inr, true, ◌&&◌, not, none, some, List, [], ◌∷◌, ◌++◌,
  append-nil, arith, contains, is_some, Option-cases, Bytes, ◌==◌, nat_eq, IsDistinct,
}
use apptraverse.Prelude.Assoc.{lookup}
use apptraverse.NetworkGraph.{
  State, Registry, StoredClassChainInfo, validate_stored_class_chains, Archive, active, active_ids,
}
use apptraverse.NetworkGraph.Events.{
  Loader, chain_of, is_event_class, validate_closed_event_graph_storage, is_permitted,
  all_permitted, freeze_event_payload, parse_event_payload, only_active, loads_as,
  validate_standalone_event_graph,
}

-- The archive loads what it has saved, and leaves the bytes behind it.
pub record IsFaithful (a : Archive) : Type 0 where
  pub ids : (id : ℕ) (rest : Bytes) → a.load_id (a.save_id id ++ rest) ≡ some (id, rest)
  pub states :
      (state : State) (bytes rest : Bytes)
      → a.save_state state ≡ some bytes
      → a.load_state (bytes ++ rest) ≡ some (state, rest)

active-contains :
    (id : ℕ) (state : State) → active id state ≡ true → contains (active_ids state) id ≡ true
unfolding active active_ids lookup contains
active-contains id [] h = absurd (ground arith)
active-contains id ((key, none) ∷ state) h = ground (arith, h, active-contains id state)
active-contains id ((key, some classes) ∷ state) h = ground (arith, h, active-contains id state)

-- A graph inside the boundary of one id holds no other object.
only_active_lem :
    (id : ℕ) (ids : List ℕ)
    → all_permitted (id ∷ []) ids ≡ true
    → IsDistinct ids
    → contains ids id ≡ true
    → only_active id ids ≡ true
unfolding all_permitted is_permitted only_active contains
only_active_lem id [] h d k = absurd (ground arith)
only_active_lem id (x ∷ []) h d k = ground (arith, h)
only_active_lem id (x ∷ y ∷ ids) h d k = absurd (ground (arith, h, d.0))

module _ (r : Registry) (l : Loader) where
  closed_lem :
      (parsed : State) (root_id class_id : ℕ) (infos : List StoredClassChainInfo)
      → validate_closed_event_graph_storage r l parsed root_id class_id ≡ some infos
      → ((not (root_id == 0) && active root_id parsed) ≡ true)
        × (validate_stored_class_chains r parsed ≡ some infos)
        × (info : StoredClassChainInfo) × (chain_of root_id infos ≡ some info)
        × (is_event_class r class_id info.most_derived_class_id ≡ true)
  unfolding validate_closed_event_graph_storage
  closed_lem parsed root_id class_id infos h =
      elim (Option-cases (validate_stored_class_chains r parsed)) [
        | inl refused ↦ absurd (ground (arith, refused, h))
        | inr (found, chains) ↦ elim (Option-cases (chain_of root_id found)) [
          | inl missing ↦ absurd (ground (arith, chains, missing, h))
          | inr (info, at) ↦
              let same : found ≡ infos = ground (arith, chains, at, h) in
              (
                ground (arith, h),
                chains ∙ ap some same,
                info,
                subst (λ (x : List StoredClassChainInfo). chain_of root_id x ≡ some info) same at,
                ground (arith, chains, at, h),
              )
        ]
      ]

  module _ (a : Archive) where
    freeze_lem :
        (boundary : List ℕ) (event_id class_id : ℕ) (scratch : State) (bytes : Bytes)
        → freeze_event_payload a r l boundary event_id class_id scratch ≡ some bytes
        → ((is_permitted boundary event_id && all_permitted boundary (active_ids scratch)) ≡ true)
          × (infos : List StoredClassChainInfo) × (validate_closed_event_graph_storage r l scratch
                event_id class_id
              ≡ some infos)
          × (body : Bytes) × (a.save_state scratch ≡ some body)
          × (a.save_id event_id ++ body ≡ bytes)
    unfolding freeze_event_payload
    freeze_lem boundary event_id class_id scratch bytes h =
        elim (Option-cases (validate_closed_event_graph_storage r l scratch event_id class_id)) [
          | inl refused ↦ absurd (ground (arith, refused, h))
          | inr (infos, closed) ↦ elim (Option-cases (a.save_state scratch)) [
            | inl failed ↦ absurd (ground (arith, closed, failed, h))
            | inr (body, saved) ↦
                (ground (arith, h), infos, closed, body, saved, ground (arith, closed, saved, h))
          ]
        ]

    parse-frozen :
        (event_id : ℕ) (scratch : State) (body : Bytes)
        → IsFaithful a
        → (not (event_id == 0) && active event_id scratch) ≡ true
        → a.save_state scratch ≡ some body
        → parse_event_payload a (a.save_id event_id ++ body) ≡ some (event_id, scratch)
    unfolding parse_event_payload
    parse-frozen event_id scratch body faithful h saved =
        let loaded : a.load_state body ≡ some (scratch, []) =
          ap a.load_state (sym (append-nil body)) ∙ faithful.states scratch body [] saved in
        ground (arith, h, loaded, faithful.ids event_id body)

    -- An event that freezes, within any boundary, is parsed back with its graph, every object of which the
    -- boundary permits; and the parsed graph is accepted as a closed event graph. The archive is assumed to
    -- load what it saves, and both sides to have the same classes.
    pub frozen_event_parses :
        (boundary : List ℕ) (event_id class_id : ℕ) (scratch : State) (bytes : Bytes)
        → IsFaithful a
        → freeze_event_payload a r l boundary event_id class_id scratch ≡ some bytes
        → (parse_event_payload a bytes ≡ some (event_id, scratch))
          × (all_permitted boundary (active_ids scratch) ≡ true)
          × (is_some (validate_closed_event_graph_storage r l scratch event_id class_id) ≡ true)
    frozen_event_parses boundary event_id class_id scratch bytes faithful h =
        let (permitted, infos, closed, body, saved, at) =
          freeze_lem boundary event_id class_id scratch bytes h in
        let (rooted, _, _, _, _) = closed_lem scratch event_id class_id infos closed in
        (
          ap (parse_event_payload a) (sym at)
              ∙ parse-frozen event_id scratch body faithful rooted saved,
          ground (arith, permitted),
          ap is_some closed,
        )

    -- An event that freezes without a boundary of its own is parsed back and accepted as a standalone event
    -- of its class. Its class id is valid, the object ids of its graph differ, and it loads as what it is.
    pub frozen_event_accepted :
        (event_id class_id : ℕ) (scratch : State) (bytes : Bytes)
        → IsFaithful a
        → ¬ (class_id ≡ 0)
        → IsDistinct (active_ids scratch)
        → l.load_root scratch event_id ≡ some class_id
        → freeze_event_payload a r l (event_id ∷ []) event_id class_id scratch ≡ some bytes
        → (parse_event_payload a bytes ≡ some (event_id, scratch))
          × (validate_standalone_event_graph r l scratch event_id class_id ≡ true)
    unfolding validate_standalone_event_graph is_event_class loads_as
    frozen_event_accepted event_id class_id scratch bytes faithful valid distinct loads h =
        let (permitted, infos, closed, body, saved, at) =
          freeze_lem (event_id ∷ []) event_id class_id scratch bytes h in
        let (rooted, chains, info, found, class) =
          closed_lem scratch event_id class_id infos closed in
        let alone : only_active event_id (active_ids scratch) ≡ true =
          only_active_lem event_id (active_ids scratch) (ground (arith, permitted)) distinct
            (active-contains event_id scratch (ground (arith, rooted))) in
        (
          ap (parse_event_payload a) (sym at)
              ∙ parse-frozen event_id scratch body faithful rooted saved,
          ground (
            arith,
            valid,
            rooted,
            chains,
            alone,
            found,
            class,
            loads,
            nat_eq.beq_iff info.most_derived_class_id class_id,
          ),
        )
