-- ===== src/Identity/Order.antt =====
-- `operator<` of SharedEventId is a strict total order.
use apptraverse.Prelude.{
  ◌≡◌, refl, ◌⊎◌, inl, inr, true, false, [], ◌∷◌, arith, nat_eq, Bytes, bytes_eq,
}
use apptraverse.Identity.{SharedEventId, bytes_less, id_less, id_eq}

bytes_less_irrefl : (a : Bytes) → bytes_less a a ≡ false
unfolding bytes_less
bytes_less_irrefl [] = refl
bytes_less_irrefl (x ∷ a) = ground (arith, bytes_less_irrefl a)

bytes_less_trans :
    (a b c : Bytes) → bytes_less a b ≡ true → bytes_less b c ≡ true → bytes_less a c ≡ true
unfolding bytes_less
bytes_less_trans [] [] c h k = absurd (cc)
bytes_less_trans [] (y ∷ b) [] h k = k
bytes_less_trans [] (y ∷ b) (z ∷ c) h k = refl
bytes_less_trans (x ∷ a) [] c h k = absurd (cc)
bytes_less_trans (x ∷ a) (y ∷ b) [] h k = k
bytes_less_trans (x ∷ a) (y ∷ b) (z ∷ c) h k = ground (arith, bytes_less_trans a b c)

bytes_less-total : (a b : Bytes) → (a ≡ b) ⊎ ((bytes_less a b ≡ true) ⊎ (bytes_less b a ≡ true))
unfolding bytes_less
bytes_less-total [] [] = inl refl
bytes_less-total [] (y ∷ b) = inr (inl refl)
bytes_less-total (x ∷ a) [] = inr (inr refl)
bytes_less-total (x ∷ a) (y ∷ b) = ground (arith, bytes_less-total a b)

id_less_irrefl : (a : SharedEventId) → id_less a a ≡ false
unfolding id_less
id_less_irrefl a = ground (arith, bytes_eq.beq_iff a.origin_uid a.origin_uid)

id_less_trans :
    (a b c : SharedEventId) → id_less a b ≡ true → id_less b c ≡ true → id_less a c ≡ true
unfolding id_less
id_less_trans a b c h k = ground (
  arith,
  bytes_eq.beq_iff a.origin_uid b.origin_uid,
  bytes_eq.beq_iff b.origin_uid c.origin_uid,
  bytes_eq.beq_iff a.origin_uid c.origin_uid,
  bytes_less_trans a.origin_uid b.origin_uid c.origin_uid,
  bytes_less_irrefl a.origin_uid,
)

id_less-or : (a b : SharedEventId) → (a ≡ b) ⊎ ((id_less a b ≡ true) ⊎ (id_less b a ≡ true))
unfolding id_less
id_less-or a b = ground (
  arith,
  bytes_eq.beq_iff a.origin_uid b.origin_uid,
  bytes_eq.beq_iff b.origin_uid a.origin_uid,
  bytes_less-total a.origin_uid b.origin_uid,
)

-- `operator<` on shared event identities is a strict total order: no identity is below itself, the
-- order is transitive, and of two identities that are not equal one is below the other.
pub id_less_total :
    (a b c : SharedEventId)
    → (id_less a a ≡ false)
      × (id_less a b ≡ true → id_less b c ≡ true → id_less a c ≡ true)
      × ((a ≡ b) ⊎ ((id_less a b ≡ true) ⊎ (id_less b a ≡ true)))
id_less_total a b c = (id_less_irrefl a, id_less_trans a b c, id_less-or a b)
