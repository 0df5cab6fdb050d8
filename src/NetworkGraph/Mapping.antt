-- ===== src/NetworkGraph/Mapping.antt =====
-- The ids under which an imported event graph is stored: fresh, and one for each object.
use apptraverse.Prelude.{
  ℕ, zero, suc, ◌+◌, ◌<◌, ◌≤◌, ◌≡◌, ◌∙◌, inl, inr, Bool, true, false, ◌&&◌, ◌||◌, not, some, List,
  [], ◌∷◌, arith, map, contains, Bool-cases, ◌==◌, nat_eq, IsDistinct, All, leb,
}
use apptraverse.NetworkGraph.{StoredClassChainInfo}
use apptraverse.NetworkGraph.Chains.{info_ids}
use apptraverse.NetworkGraph.Events.{allocate_unique_receiver_obj_id}

abbrev pub old_ids : List (ℕ × ℕ) → List ℕ
old_ids = map (λ (p : ℕ × ℕ). p.0)

abbrev pub new_ids : List (ℕ × ℕ) → List ℕ
new_ids = map (λ (p : ℕ × ℕ). p.1)

module _ (generate : ℕ → ℕ) (occupied : ℕ → Bool) where
  -- Whether an id can be taken.
  unfoldable pub is_free : List ℕ → ℕ → Bool
  is_free reserved_ids id = not ((id == 0) || contains reserved_ids id || occupied id)

  step_taken :
      (reserved_ids : List ℕ) (k fuel : ℕ)
      → is_free reserved_ids (generate k) ≡ true
      → allocate_unique_receiver_obj_id generate occupied reserved_ids k (suc fuel)
        ≡ some (generate k, suc k)
  unfolding allocate_unique_receiver_obj_id is_free
  step_taken reserved_ids k fuel free = ground (arith, free)

  step_passed :
      (reserved_ids : List ℕ) (k fuel : ℕ)
      → is_free reserved_ids (generate k) ≡ false
      → allocate_unique_receiver_obj_id generate occupied reserved_ids k (suc fuel)
        ≡ allocate_unique_receiver_obj_id generate occupied reserved_ids (suc k) fuel
  unfolding allocate_unique_receiver_obj_id is_free
  step_passed reserved_ids k fuel taken = ground (arith, taken)

  -- Which round of the loop ends it, counted from round `k`.
  abbrev pub IsRound : List ℕ → ℕ → ℕ → ℕ → Type 0
  IsRound reserved_ids k fuel n =
      (k ≤ n)
      × (allocate_unique_receiver_obj_id generate occupied reserved_ids k fuel
          ≡ some (generate n, suc n))
      × (is_free reserved_ids (generate n) ≡ true)
      × ((h : ℕ) → (leb k h && leb (suc h) n && is_free reserved_ids (generate h)) ≡ false)

  -- The loop ends: where the generator gives an id in round `n` that is valid, not reserved and not
  -- occupied, and the fuel reaches this round, the result is the first such id from round `k` on.
  pub allocate_unique_receiver_obj_id_lem :
      (reserved_ids : List ℕ) (k n fuel : ℕ)
      → k ≤ n
      → n < k + fuel
      → is_free reserved_ids (generate n) ≡ true
      → (m : ℕ) × (m ≤ n) × IsRound reserved_ids k fuel m
  allocate_unique_receiver_obj_id_lem reserved_ids k n zero from less free = absurd (omega arith)
  allocate_unique_receiver_obj_id_lem reserved_ids k n (suc fuel) from less free =
      elim (Bool-cases (is_free reserved_ids (generate k))) [
        | inl here ↦ (
          k,
          from,
          (
            omega arith,
            step_taken reserved_ids k fuel here,
            here,
            λ h. nothing_before k h (is_free reserved_ids (generate h)),
          ),
        )
        | inr taken ↦
            let (m, below, (after, found, good, first)) =
              allocate_unique_receiver_obj_id_lem reserved_ids (suc k) n fuel
                (later k n from taken free) (omega arith) free in
            (
              m,
              below,
              (
                omega arith,
                step_passed reserved_ids k fuel taken ∙ found,
                good,
                λ h. before k h m taken (first h),
              ),
            )
      ]
    where
      nothing_before : (k h : ℕ) (b : Bool) → (leb k h && leb (suc h) k && b) ≡ false
      nothing_before k h b = ground arith

      later :
          (k n : ℕ)
          → k ≤ n
          → is_free reserved_ids (generate k) ≡ false
          → is_free reserved_ids (generate n) ≡ true
          → suc k ≤ n
      later k n from taken free = elim (Bool-cases (k == n)) [
        | inl same ↦ absurd (ground (arith, taken, free, nat_eq.beq_iff k n, same))
        | inr other ↦ ground (arith, from, other)
      ]

      before :
          (k h m : ℕ)
          → is_free reserved_ids (generate k) ≡ false
          → (leb (suc k) h && leb (suc h) m && is_free reserved_ids (generate h)) ≡ false
          → (leb k h && leb (suc h) m && is_free reserved_ids (generate h)) ≡ false
      before k h m taken first = elim (Bool-cases (k == h)) [
        | inl same ↦ ground (arith, taken, first, nat_eq.beq_iff k h, same)
        | inr other ↦ ground (arith, first, other)
      ]

  abbrev pub IsFresh : List StoredClassChainInfo → List ℕ → List (ℕ × ℕ) → Type 0
  IsFresh infos reserved_ids mapping =
      (old_ids mapping ≡ info_ids infos)
      × IsDistinct (new_ids mapping)
      × All (λ (id : ℕ). is_free reserved_ids id ≡ true) (new_ids mapping)

  -- The rounds that are enough for every object to get an id within the fuel.
  abbrev pub rounds_for : ℕ → List StoredClassChainInfo → ℕ
  rounds_for fuel [] = 0
  rounds_for fuel (info ∷ infos) = fuel + rounds_for fuel infos

  -- The generator repeats no id in the first `total` rounds.
  abbrev pub IsUnique : ℕ → Type 0
  IsUnique total = (m n : ℕ) → m < n → n < total → ¬ (generate m ≡ generate n)

  -- Every window of `fuel` rounds from round `k` on, among the first `total`, has one with a free id.
  abbrev pub HasFree : List ℕ → ℕ → ℕ → ℕ → Type 0
  HasFree reserved_ids fuel total k =
      (j : ℕ)
      → k ≤ j
      → j + fuel ≤ total
      → (n : ℕ) × (j ≤ n) × (n < j + fuel) × (is_free reserved_ids (generate n) ≡ true)
