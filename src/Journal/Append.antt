-- ===== src/Journal/Append.antt =====
-- `TryInsertEvent` where the record goes to the end of the journal.
use apptraverse.Prelude.{
  ℕ, suc, ◌≡◌, refl, ap, ◌⊎◌, inl, inr, true, false, some, List, [], ◌∷◌, ◌++◌, arith, length,
  if◌then◌else◌, drop-append_length, length-append,
}
use apptraverse.Journal.{
  Target, EventRecord, Node, applied, fully_materialized, apply_event, ensure_from, try_append,
  try_ensure_current_generation,
}
use apptraverse.Journal.Insertion.{drop_last-append}

module _ {S E : Type 0} (t : Target S E) where
  -- All records of the journal are applied.
  abbrev pub IsCounted : Node S E → ℕ → Type 0
  IsCounted n k =
      (n.applied_journal_size ≡ fully_materialized) ⊎ (n.applied_journal_size ≡ applied k)

  ensure_last :
      (n : Node S E) (j : List (EventRecord E)) (r : EventRecord E) (e : E)
      → n.journal ≡ j ++ r ∷ []
      → n.applied_journal_size ≡ applied (length j)
      → r.event ≡ some e
      → try_ensure_current_generation t n ≡ (
          if t.can_apply e n.fields
          then (
            record (apply_event t e n) { applied_journal_size = applied (suc (length j)) },
            true,
          )
          else (n, false))
  unfolding try_ensure_current_generation ensure_from
  ensure_last n j r e at counted found = ground (arith, drop-append_length j (r ∷ []))

  pub try_append_lem :
      (n : Node S E) (j : List (EventRecord E)) (r : EventRecord E) (e : E)
      → n.journal ≡ j ++ r ∷ []
      → IsCounted n (length j)
      → r.event ≡ some e
      → try_append t n ≡ (
          if t.can_apply e n.fields
          then (
            record (apply_event t e n) { applied_journal_size = applied (suc (length j)) },
            true,
          )
          else (record n { journal = j; applied_journal_size = applied (length j) }, false))
  unfolding try_append apply_event
  try_append_lem n j r e at (inl full) found = ground (
    arith,
    ensure_last (record n { applied_journal_size = applied (length j) }) j r e at refl found,
    drop_last-append j r,
    length-append j (r ∷ []),
    ap length at,
  )
  try_append_lem n j r e at (inr count) found = ground (
    arith,
    ensure_last n j r e at count found,
    drop_last-append j r,
    length-append j (r ∷ []),
    ap length at,
  )
