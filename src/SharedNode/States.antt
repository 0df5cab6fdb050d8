-- ===== src/SharedNode/States.antt =====
-- The synchronization states of a shared node: at most one for a relationship, and where each is found.
use apptraverse.Prelude.{
  ℕ, zero, suc, inl, inr, ◌≡◌, refl, sym, ap, ◌∙◌, subst, false, ◌&&◌, not, Option, none, some,
  List, [], ◌∷◌, ◌++◌, arith, length, erase_at, ltb, leb, ◌==◌, nat_eq, contains, IsDistinct,
  IsDistinct-snoc, any, index_of, index_of-lt, first, first-append, first-none, first-some,
  first-append_right, first-erase, get_elem?-index_of, if◌then◌else◌, if_true, if_false, Bool-cases,
}
use apptraverse.Journal.{Node}
use apptraverse.LinkSync.{LinkSyncState, LinkSyncEvent, new_link_sync_state}
use apptraverse.SharedNode.{
  SharedNode, syncs_share, find_link_sync_index_for_share, initialize_runtime_node, link_sync_state,
}
use apptraverse.SharedNode.Topology.{state_ids, any-syncs_share, syncs_share-apart}

abbrev pub States : Type 0
States = List (Option (Node LinkSyncState LinkSyncEvent))

abbrev pub new_state : ℕ → ℕ → Option (Node LinkSyncState LinkSyncEvent)
new_state p l = some (initialize_runtime_node (new_link_sync_state p l))

-- The states after a relationship was opened, and after it was closed.
abbrev pub opened : ℕ → ℕ → States → States
opened p l states =
    if leb (length states) (index_of (syncs_share p) states)
    then states ++ new_state p l ∷ []
    else states

abbrev pub closed : ℕ → States → States
closed p states =
    if ltb (index_of (syncs_share p) states) (length states)
    then erase_at states (index_of (syncs_share p) states)
    else states

pub closed_lem :
    (p : ℕ) (states : States) → closed p states ≡ erase_at states (index_of (syncs_share p) states)
closed_lem p states = elim (Bool-cases (ltb (index_of (syncs_share p) states) (length states))) [
  | inl h ↦ if_true _ _ h
  | inr h ↦ if_false _ _ h ∙ sym (erase_at_end states (index_of (syncs_share p) states) h)
]
  where
    erase_at_end : (xs : States) (i : ℕ) → ltb i (length xs) ≡ false → erase_at xs i ≡ xs
    erase_at_end [] i h = refl
    erase_at_end (x ∷ xs) zero h = absurd (ground arith)
    erase_at_end (x ∷ xs) (suc i) h = ap (◌∷◌ x) (erase_at_end xs i (ground arith))

state_ids-append : (xs ys : States) → state_ids (xs ++ ys) ≡ state_ids xs ++ state_ids ys
unfolding state_ids
state_ids-append [] ys = refl
state_ids-append (none ∷ xs) ys = state_ids-append xs ys
state_ids-append (some x ∷ xs) ys = ap (◌∷◌ x.fields.share_id) (state_ids-append xs ys)

-- Where the relationship has no state, it gets a new one; else nothing is added.
pub opened-cases :
    (p l : ℕ) (states : States)
    → opened p l states
      ≡ (if any (syncs_share p) states then states else states ++ new_state p l ∷ [])
opened-cases p l states = ground (arith, index_of-lt (syncs_share p) states)

pub opened-IsDistinct :
    (p l : ℕ) (states : States)
    → IsDistinct (state_ids states)
    → IsDistinct (state_ids (opened p l states))
unfolding state_ids initialize_runtime_node
opened-IsDistinct p l states d =
    subst (λ (xs : States). IsDistinct (state_ids xs)) (sym (opened-cases p l states))
      (elim (Bool-cases (any (syncs_share p) states)) [
        | inl h ↦ subst (λ (xs : States). IsDistinct (state_ids xs)) (sym (if_true _ _ h)) d
        | inr h ↦
            subst (λ (xs : States). IsDistinct (state_ids xs)) (sym (if_false _ _ h))
              (subst IsDistinct (sym (state_ids-append states (new_state p l ∷ [])))
                (IsDistinct-snoc (state_ids states) p (sym (any-syncs_share states p) ∙ h) d))
      ])

contains-erase :
    (xs : States) (i y : ℕ)
    → contains (state_ids xs) y ≡ false
    → contains (state_ids (erase_at xs i)) y ≡ false
unfolding contains state_ids
contains-erase [] i y h = h
contains-erase (none ∷ xs) zero y h = h
contains-erase (none ∷ xs) (suc i) y h = contains-erase xs i y h
contains-erase (some x ∷ xs) zero y h = ground arith
contains-erase (some x ∷ xs) (suc i) y h = ground (arith, contains-erase xs i y)

IsDistinct-erase :
    (xs : States) (i : ℕ) → IsDistinct (state_ids xs) → IsDistinct (state_ids (erase_at xs i))
unfolding state_ids
IsDistinct-erase [] i d = d
IsDistinct-erase (none ∷ xs) zero d = d
IsDistinct-erase (none ∷ xs) (suc i) d = IsDistinct-erase xs i d
IsDistinct-erase (some x ∷ xs) zero d = d.1
IsDistinct-erase (some x ∷ xs) (suc i) d =
    (contains-erase xs i x.fields.share_id d.0, IsDistinct-erase xs i d.1)

pub closed-IsDistinct :
    (p : ℕ) (states : States)
    → IsDistinct (state_ids states)
    → IsDistinct (state_ids (closed p states))
closed-IsDistinct p states d =
    subst (λ (xs : States). IsDistinct (state_ids xs)) (sym (closed_lem p states))
      (IsDistinct-erase states (index_of (syncs_share p) states) d)

erased_is_gone :
    (xs : States) (p : ℕ)
    → IsDistinct (state_ids xs)
    → contains (state_ids (erase_at xs (index_of (syncs_share p) xs))) p ≡ false
unfolding contains state_ids index_of syncs_share
erased_is_gone [] p d = refl
erased_is_gone (none ∷ xs) p d = erased_is_gone xs p d
erased_is_gone (some x ∷ xs) p d = ground (arith, erased_is_gone xs p d.1, d.0)

-- An entry that is found is the state itself.
abbrev pub entry_of :
    Option (Option (Node LinkSyncState LinkSyncEvent)) → Option (Node LinkSyncState LinkSyncEvent)
entry_of none = none
entry_of (some entry) = entry

pub link_sync_state-first :
    (n : SharedNode) (q : ℕ)
    → link_sync_state n q ≡ entry_of (first (syncs_share q) n.link_sync_states)
unfolding link_sync_state find_link_sync_index_for_share
link_sync_state-first n q = ap entry_of (get_elem?-index_of (syncs_share q) n.link_sync_states)

pub first-closed :
    (p q : ℕ) (states : States)
    → IsDistinct (state_ids states)
    → first (syncs_share q) (closed p states)
      ≡ (if p == q then none else first (syncs_share q) states)
first-closed p q states d =
    ap (first (syncs_share q)) (closed_lem p states) ∙ elim (Bool-cases (p == q)) [
      | inl same ↦
          first-none (syncs_share q) (erase_at states (index_of (syncs_share p) states)) (
            any-syncs_share (erase_at states (index_of (syncs_share p) states)) q
            ∙ subst
                (λ (r : ℕ).
                  contains (state_ids (erase_at states (index_of (syncs_share p) states))) r
                  ≡ false)
                ((nat_eq.beq_iff p q).0 same) (erased_is_gone states p d))
          ∙ sym (if_true _ _ same)
      | inr other ↦
          first-erase (syncs_share p) (syncs_share q) states
            (syncs_share-apart p q (ground (arith)))
          ∙ sym (if_false _ _ other)
    ]

pub first-opened :
    (p l q : ℕ) (states : States)
    → first (syncs_share q) (opened p l states) ≡ (
        if (p == q) && not (any (syncs_share p) states)
        then some (new_state p l)
        else first (syncs_share q) states)
unfolding first syncs_share initialize_runtime_node
first-opened p l q states =
    ap (first (syncs_share q)) (opened-cases p l states)
    ∙ elim (Bool-cases (any (syncs_share p) states)) [
      | inl there ↦ ap (first (syncs_share q)) (if_true _ _ there) ∙ ground arith
      | inr missing ↦
          ap (first (syncs_share q)) (if_false _ _ missing)
          ∙ elim (Bool-cases (any (syncs_share q) states)) [
            | inl other ↦
                let (a, at, holds) = first-some (syncs_share q) states other in
                first-append (syncs_share q) states (new_state p l ∷ []) a at ∙ ground (arith, at)
            | inr absent ↦
                first-append_right (syncs_share q) states (new_state p l ∷ []) absent
                ∙ ground (arith, first-none (syncs_share q) states absent)
          ]
    ]
