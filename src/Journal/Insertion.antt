-- ===== src/Journal/Insertion.antt =====
-- The place of a record in a journal: `std::lower_bound` and the insertion there.
use apptraverse.Prelude.{
  ℕ, zero, suc, ◌≤◌, ◌≡◌, refl, ap, ◌≢◌, false, ◌&&◌, ◌||◌, List, [], ◌∷◌, ◌++◌, arith, length,
  drop, All, if◌then◌else◌, is_some, ◌==◌, nat_eq,
}
use apptraverse.Identity.{SharedEventId, order_less, id_eq}
use apptraverse.Journal.{
  EventRecord, has_shared_identity, find_by_identity, lower_bound, insert_at, drop_last,
}

module _ {E : Type 0} where
  -- The same insertion in one pass.
  unfoldable pub insert_record : EventRecord E → List (EventRecord E) → List (EventRecord E)
  insert_record new [] = new ∷ []
  insert_record new (r ∷ rs) =
      if order_less r.timestamp_us new.timestamp_us then r ∷ insert_record new rs else new ∷ r ∷ rs

  -- No record is before one of an earlier timestamp.
  abbrev pub IsSorted : List (EventRecord E) → Type 0
  IsSorted [] = Unit {0}
  IsSorted (r ∷ rs) = All (λ (q : EventRecord E). r.timestamp_us ≤ q.timestamp_us) rs × IsSorted rs

  All-insert_record :
      (P : EventRecord E → Type 0) (new : EventRecord E) (rs : List (EventRecord E))
      → P new
      → All P rs
      → All P (insert_record new rs)
  unfolding insert_record
  All-insert_record P new [] p h = (p, tt)
  All-insert_record P new (r ∷ rs) p h = ground (arith, All-insert_record P new rs p h.1)

  All-weaken :
      (a b : ℕ) (rs : List (EventRecord E))
      → a ≤ b
      → All (λ (q : EventRecord E). b ≤ q.timestamp_us) rs
      → All (λ (q : EventRecord E). a ≤ q.timestamp_us) rs
  All-weaken a b [] le h = tt
  All-weaken a b (r ∷ rs) le h = (omega arith, All-weaken a b rs le h.1)

  pub insert_record-IsSorted :
      (new : EventRecord E) (rs : List (EventRecord E))
      → IsSorted rs
      → IsSorted (insert_record new rs)
  unfolding insert_record order_less
  insert_record-IsSorted new [] h = (tt, tt)
  insert_record-IsSorted new (r ∷ rs) h = ground (
    arith,
    insert_record-IsSorted new rs h.1,
    All-insert_record (λ (q : EventRecord E). r.timestamp_us ≤ q.timestamp_us) new rs,
    All-weaken new.timestamp_us r.timestamp_us rs,
  )

  -- Records with different timestamps go to the same places in either order.
  pub insert_record_comm :
      (a b : EventRecord E) (rs : List (EventRecord E))
      → a.timestamp_us ≢ b.timestamp_us
      → insert_record a (insert_record b rs) ≡ insert_record b (insert_record a rs)
  unfolding insert_record order_less
  insert_record_comm a b [] ne = ground arith
  insert_record_comm a b (r ∷ rs) ne = ground (arith, insert_record_comm a b rs ne)

  pub find-insert_record :
      (id : SharedEventId) (new : EventRecord E) (rs : List (EventRecord E))
      → is_some (find_by_identity id (insert_record new rs))
        ≡ ((has_shared_identity new && (new.identity == id)) || is_some (find_by_identity id rs))
  unfolding insert_record find_by_identity
  find-insert_record id new [] = ground arith
  find-insert_record id new (r ∷ rs) = ground (arith, find-insert_record id new rs)

  -- No two shared records have one identity.
  abbrev pub IsUnique : List (EventRecord E) → Type 0
  IsUnique [] = Unit {0}
  IsUnique (r ∷ rs) =
      ((has_shared_identity r && is_some (find_by_identity r.identity rs)) ≡ false) × IsUnique rs

  pub drop-IsSorted : (k : ℕ) (rs : List (EventRecord E)) → IsSorted rs → IsSorted (drop k rs)
  drop-IsSorted zero rs h = h
  drop-IsSorted (suc k) [] h = h
  drop-IsSorted (suc k) (r ∷ rs) h = drop-IsSorted k rs h.1

  pub drop-IsUnique : (k : ℕ) (rs : List (EventRecord E)) → IsUnique rs → IsUnique (drop k rs)
  drop-IsUnique zero rs h = h
  drop-IsUnique (suc k) [] h = h
  drop-IsUnique (suc k) (r ∷ rs) h = drop-IsUnique k rs h.1

  pub insert_record-IsUnique :
      (new : EventRecord E) (rs : List (EventRecord E))
      → (has_shared_identity new && is_some (find_by_identity new.identity rs)) ≡ false
      → IsUnique rs
      → IsUnique (insert_record new rs)
  unfolding insert_record find_by_identity
  insert_record-IsUnique new [] h u = ground arith
  insert_record-IsUnique new (r ∷ rs) h u = ground (
    arith,
    insert_record-IsUnique new rs,
    find-insert_record r.identity new rs,
    id_eq.beq_iff new.identity r.identity,
    id_eq.beq_iff r.identity new.identity,
  )

module _ {E : Type 0} where
  pub insert_at-lower_bound :
      (new : EventRecord E) (rs : List (EventRecord E))
      → insert_at (lower_bound new rs) new rs ≡ insert_record new rs
  unfolding insert_at lower_bound insert_record
  insert_at-lower_bound new [] = refl
  insert_at-lower_bound new (r ∷ rs) = ground (arith, insert_at-lower_bound new rs)

  -- The insertion is at the end exactly when it appends.
  pub append_of_lower_bound :
      (new : EventRecord E) (rs : List (EventRecord E))
      → lower_bound new rs ≡ length rs
      → insert_record new rs ≡ rs ++ new ∷ []
  unfolding lower_bound insert_record
  append_of_lower_bound new [] h = refl
  append_of_lower_bound new (r ∷ rs) h = ground (arith, append_of_lower_bound new rs)

  pub drop_last-append :
      (rs : List (EventRecord E)) (new : EventRecord E) → drop_last (rs ++ new ∷ []) ≡ rs
  unfolding drop_last
  drop_last-append [] new = refl
  drop_last-append (r ∷ []) new = refl
  drop_last-append (r ∷ s ∷ rs) new = ap (◌∷◌ r) (drop_last-append (s ∷ rs) new)
