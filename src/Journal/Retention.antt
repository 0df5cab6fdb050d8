-- ===== src/Journal/Retention.antt =====
-- What `CollapsiblePrefixCount` gives up: never more than the retention policy allows.
use apptraverse.Prelude.{
  Option, if◌then◌else◌, ℕ, suc, ◌+◌, ◌≤◌, ◌<◌, ◌≡◌, refl, inl, inr, Bool-cases, false, ◌||◌, none,
  some, List, [], ◌∷◌, arith, length, take, drop, All, min, ◌==◌, nat_eq,
}
use apptraverse.Journal.{EventRecord, Node, JournalRetentionPolicy}
use apptraverse.Journal.Compaction.{retains, collapse_from, collapsible_prefix_count}

module _ {E : Type 0} where
  -- Older than the policy's age, where it has one.
  abbrev pub IsExpired : JournalRetentionPolicy → ℕ → EventRecord E → Type 0
  IsExpired policy now_us r =
      (age : ℕ) → policy.max_age ≡ some age → r.retained_since_us + age < now_us

  retains-IsExpired :
      (policy : JournalRetentionPolicy) (now_us remaining : ℕ) (r : EventRecord E)
      → retains policy now_us remaining r ≡ false
      → IsExpired policy now_us r
  unfolding retains
  retains-IsExpired policy now_us remaining r h age e = ground arith

  collapse_from-IsExpired :
      (policy : JournalRetentionPolicy) (now_us : ℕ) (rs : List (EventRecord E))
      → All (IsExpired policy now_us) (take (collapse_from policy now_us rs) rs)
  unfolding collapse_from
  collapse_from-IsExpired policy now_us [] = tt
  collapse_from-IsExpired policy now_us (r ∷ rs) =
      elim (Bool-cases (retains policy now_us (suc (length rs)) r)) [
        | inl keep ↦ rw keep tt
        | inr give ↦ rw give (
          retains-IsExpired policy now_us (suc (length rs)) r give,
          collapse_from-IsExpired policy now_us rs,
        )
      ]

  collapse_from-keeps :
      (policy : JournalRetentionPolicy) (now_us m : ℕ) (rs : List (EventRecord E))
      → policy.max_events ≡ some m
      → min m (length rs) ≤ length (drop (collapse_from policy now_us rs) rs)
  unfolding collapse_from retains
  collapse_from-keeps policy now_us m [] h = omega arith
  collapse_from-keeps policy now_us m (r ∷ rs) h =
      ground (arith, collapse_from-keeps policy now_us m rs h)

  collapse_from-unlimited :
      (policy : JournalRetentionPolicy) (now_us : ℕ) (rs : List (EventRecord E))
      → policy.max_events ≡ none
      → collapse_from policy now_us rs ≡ 0
  unfolding collapse_from retains
  collapse_from-unlimited policy now_us [] h = refl
  collapse_from-unlimited policy now_us (r ∷ rs) h = ground arith

module _ {E : Type 0} where
  -- What a limit on the number of records asks of a prefix: nothing is in it where there is no limit,
  -- and with a limit the last records, or all if there are fewer, are behind it.
  abbrev pub HasLimit : Option ℕ → List (EventRecord E) → ℕ → Type 0
  HasLimit none journal count = count ≡ 0
  HasLimit (some m) journal count = min m (length journal) ≤ length (drop count journal)

  collapse_from-HasLimit :
      (policy : JournalRetentionPolicy) (now_us : ℕ) (journal : List (EventRecord E))
      (limit : Option ℕ)
      → policy.max_events ≡ limit
      → HasLimit limit journal (collapse_from policy now_us journal)
  collapse_from-HasLimit policy now_us journal none h =
      collapse_from-unlimited policy now_us journal h
  collapse_from-HasLimit policy now_us journal (some m) h =
      collapse_from-keeps policy now_us m journal h

  none-HasLimit : (limit : Option ℕ) (journal : List (EventRecord E)) → HasLimit limit journal 0
  none-HasLimit none journal = refl
  none-HasLimit (some m) journal = omega arith

module _ {S E : Type 0} where
  -- The prefix that compaction may fold into the base is empty where compaction is blocked; it leaves
  -- what the limit on the number of records asks for, and nothing is in it without such a limit; and every
  -- record of it is older than the policy's age, if the policy has one.
  pub collapsible_prefix_count_lem :
      (n : Node S E) (now_us : ℕ)
      → let count = collapsible_prefix_count n now_us in
        ((if n.compaction_blocked then count else 0) ≡ 0)
        × HasLimit n.policy.max_events n.journal count
        × All (IsExpired n.policy now_us) (take count n.journal)
  unfolding collapsible_prefix_count
  collapsible_prefix_count_lem n now_us =
      elim (Bool-cases (n.compaction_blocked || (length n.journal == 0))) [
        | inl stop ↦ rw stop (ground arith, none-HasLimit n.policy.max_events n.journal, tt)
        | inr go ↦ rw go (
          ground arith,
          collapse_from-HasLimit n.policy now_us n.journal n.policy.max_events refl,
          collapse_from-IsExpired n.policy now_us n.journal,
        )
      ]
