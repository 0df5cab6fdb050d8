-- ===== src/NetworkGraph/Chains.antt =====
-- What `ValidateStoredClassChains` has established of a graph that it accepts.
use apptraverse.Prelude.{
  ℕ, ◌≡◌, refl, sym, ap, ◌∙◌, subst, inl, inr, true, ◌&&◌, ◌||◌, not, none, some, List, [], ◌∷◌,
  arith, contains, Option-cases, Bool-cases, of_some, ◌==◌, ==_refl, nat_eq, map,
}
use apptraverse.NetworkGraph.{
  Classes, State, Registry, StoredClassChainInfo, derives, layers_known, class_ids, place,
  sort_chain, last_of, all_ancestors, object_chain, validate_stored_class_chains, active_ids,
}

contains-place :
    (r : Registry) (a : ℕ) (chain : List ℕ) (c : ℕ)
    → contains (place r a chain) c ≡ ((a == c) || contains chain c)
unfolding place contains
contains-place r a [] c = ground arith
contains-place r a (b ∷ chain) c = ground (arith, contains-place r a chain c)

contains-sort_chain :
    (r : Registry) (chain : List ℕ) (c : ℕ) → contains (sort_chain r chain) c ≡ contains chain c
unfolding sort_chain contains
contains-sort_chain r [] c = refl
contains-sort_chain r (a ∷ chain) c =
    ground (arith, contains-place r a (sort_chain r chain) c, contains-sort_chain r chain c)

contains-last_of :
    (a : ℕ) (chain : List ℕ) → ((last_of a chain == a) || contains chain (last_of a chain)) ≡ true
unfolding last_of contains
contains-last_of a [] = ground (arith, ==_refl a)
contains-last_of a (b ∷ chain) = ground (arith, contains-last_of b chain, ==_refl b)

ancestors_lem :
    (r : Registry) (m : ℕ) (chain : List ℕ) (c : ℕ)
    → all_ancestors r m chain ≡ true
    → contains chain c ≡ true
    → ((c == r.obj_class) || derives r c m) ≡ true
unfolding all_ancestors contains
ancestors_lem r m [] c h k = absurd (ground arith)
ancestors_lem r m (b ∷ chain) c h k = elim (Bool-cases (b == c)) [
  | inl same ↦ ground (arith, h, nat_eq.beq_iff b c, same)
  | inr other ↦ ground (arith, h, k, other, ancestors_lem r m chain c)
]

-- What an accepted object has: a valid id, and a most derived class among its layers, not that of `Obj`, which
-- has a factory and of which every stored layer is an ancestor, or that of `Obj`.
pub record IsChained (r : Registry) (classes : Classes) (info : StoredClassChainInfo) : Type 0 where
  pub valid : ¬ (info.obj_id ≡ 0)
  pub stored : contains (class_ids classes) info.most_derived_class_id ≡ true
  pub made : r.complete_factory info.most_derived_class_id ≡ true
  pub known : layers_known r classes ≡ true
  pub ancestors :
      (c : ℕ)
      → (contains (class_ids classes) c && not (c == r.obj_class)) ≡ true
      → derives r c info.most_derived_class_id ≡ true

object_chain-IsChained :
    (r : Registry) (obj_id : ℕ) (classes : Classes) (info : StoredClassChainInfo)
    → object_chain r obj_id classes ≡ some info
    → (info.obj_id ≡ obj_id) × IsChained r classes info
unfolding object_chain
object_chain-IsChained r obj_id classes info h =
    let chain = sort_chain r (class_ids classes) in
    let m = last_of r.obj_class chain in
    let found : StoredClassChainInfo = record {
      obj_id = obj_id;
      chain = chain;
      most_derived_class_id = m;
    } in
    let same : found ≡ info = ground (arith, h) in
    let facts : IsChained r classes found = record {
      valid = ground (arith, h);
      stored = ground (
        arith,
        h,
        contains-last_of r.obj_class chain,
        contains-sort_chain r (class_ids classes) m,
      );
      made = ground (arith, h);
      known = ground (arith, h);
      ancestors = λ c k.
          ground
            (arith, h, k, contains-sort_chain r (class_ids classes) c, ancestors_lem r m chain c);
    } in
    (ap (λ (x : StoredClassChainInfo). x.obj_id) (sym same), subst (IsChained r classes) same facts)

-- The accepted chains are those of the objects that were not removed, in order.
abbrev pub IsValidated : Registry → State → List StoredClassChainInfo → Type 0
IsValidated r [] infos = infos ≡ []
IsValidated r ((obj_id, none) ∷ state) infos = IsValidated r state infos
IsValidated r ((obj_id, some classes) ∷ state) infos =
    (info : StoredClassChainInfo) × (rest : List StoredClassChainInfo) × (infos ≡ info ∷ rest)
    × (info.obj_id ≡ obj_id)
    × IsChained r classes info
    × IsValidated r state rest

-- Where the class chains of a graph are accepted, each object that was not removed has its chain, in
-- order: a valid id, registered layers with versions only, and a most derived class that is one of its
-- layers, can be created, loaded and saved, and descends from every other layer but that of `Obj`.
pub validate_stored_class_chains_lem :
    (r : Registry) (state : State) (infos : List StoredClassChainInfo)
    → validate_stored_class_chains r state ≡ some infos
    → IsValidated r state infos
unfolding validate_stored_class_chains
validate_stored_class_chains_lem r [] infos h = sym (of_some h)
validate_stored_class_chains_lem r ((obj_id, none) ∷ state) infos h =
    validate_stored_class_chains_lem r state infos h
validate_stored_class_chains_lem r ((obj_id, some classes) ∷ state) infos h =
    elim (Option-cases (object_chain r obj_id classes)) [
      | inl refused ↦ absurd (ground (arith, refused, h))
      | inr (info, accepted) ↦ elim (Option-cases (validate_stored_class_chains r state)) [
        | inl refused ↦ absurd (ground (arith, accepted, refused, h))
        | inr (rest, others) ↦
            let (id, chained) = object_chain-IsChained r obj_id classes info accepted in
            (
              info,
              rest,
              ground (arith, accepted, others, h),
              id,
              chained,
              validate_stored_class_chains_lem r state rest others,
            )
      ]
    ]

abbrev pub info_ids : List StoredClassChainInfo → List ℕ
info_ids = map (λ (info : StoredClassChainInfo). info.obj_id)

pub info_ids-active :
    (r : Registry) (state : State) (infos : List StoredClassChainInfo)
    → validate_stored_class_chains r state ≡ some infos
    → info_ids infos ≡ active_ids state
unfolding active_ids
info_ids-active r state infos h = ids state infos (validate_stored_class_chains_lem r state infos h)
  where
    ids :
        (state : State) (infos : List StoredClassChainInfo)
        → IsValidated r state infos
        → info_ids infos ≡ active_ids state
    ids [] infos h = ap info_ids h
    ids ((obj_id, none) ∷ state) infos h = ids state infos h
    ids ((obj_id, some classes) ∷ state) infos (info, rest, at, id, chained, more) =
        ap info_ids at
        ∙ ap (λ (x : ℕ). x ∷ info_ids rest) id
        ∙ ap (◌∷◌ obj_id) (ids state rest more)
