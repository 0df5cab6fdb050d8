-- ===== src/Identity.antt =====
-- The identity of a shared event, include/apptraverse/shared_event_id.h, and its place in a journal,
-- include/apptraverse/shared_event_order.h. A `std::string` is the list of its bytes; `<` on strings
-- is the lexicographic order of the bytes.
pub mod Order
use apptraverse.Prelude.{
  ℕ, ◌≡◌, refl, ◌↔◌, Bool, true, false, ◌&&◌, not, List, [], ◌∷◌, arith, ltb, if◌then◌else◌, Eq,
  ◌==◌, nat_eq, Bytes, bytes_eq,
}

pub record SharedEventId : Type 0 where
  pub origin_uid : Bytes
  pub origin_sequence : ℕ

-- `operator==`.
unfoldable pub id_beq : SharedEventId → SharedEventId → Bool
id_beq a b = (a.origin_sequence == b.origin_sequence) && (a.origin_uid == b.origin_uid)

pub id_beq_iff : (a b : SharedEventId) → (id_beq a b ≡ true) ↔ (a ≡ b)
unfolding id_beq
id_beq_iff a b = ground (arith, bytes_eq.beq_iff a.origin_uid b.origin_uid)

instance abbrev pub id_eq : Eq SharedEventId
id_eq = record { beq = id_beq; beq_iff = id_beq_iff }

-- `operator<` of `std::string`.
unfoldable pub bytes_less : Bytes → Bytes → Bool
bytes_less [] [] = false
bytes_less [] (b ∷ bs) = true
bytes_less (a ∷ as') [] = false
bytes_less (a ∷ as') (b ∷ bs) =
    if ltb a b then true else if a == b then bytes_less as' bs else false

-- `operator<`: by origin, then by sequence number.
pub id_less : SharedEventId → SharedEventId → Bool
id_less a b =
    if not (a.origin_uid == b.origin_uid)
    then bytes_less a.origin_uid b.origin_uid
    else ltb a.origin_sequence b.origin_sequence

-- `SharedEventOrderLess`: the timestamp in microseconds, and nothing else.
unfoldable pub order_less : ℕ → ℕ → Bool
order_less a b = ltb a b
