-- ===== src/Publication/Unread.antt =====
-- A producer that has seen the channel without an unread snapshot can publish.
use apptraverse.Prelude.{
  ℕ, ◌≡◌, subst, inl, inr, Bool, true, false, Option, none, some, List, [], ◌∷◌, arith, Bool-cases,
  nat_eq, All,
}
use apptraverse.Publication.{
  ProducerAt, resting, seen_published, seen_both, writing, ConsumerAt, away, loaded, marked,
  reading, copied, PublicationChannel, Move, load_published, load_in_ui, claim_slot, write, publish,
  note_published, load_taken, mark_in_ui, clear_published, copy_bytes, release, sent, is_index,
  free_slot, has_unread_published, claim, publish_producer, produce, take, mark, clear, consume,
  is_producers, step, run,
}

unfoldable pub is_publish : Move → Bool
is_publish publish = true
is_publish _ = false

produce-unread :
    (m : Move) (at : ProducerAt) (c : PublicationChannel)
    → is_publish m ≡ false
    → c.published ≡ none
    → (produce m at c).0.published ≡ none
unfolding produce is_publish claim
produce-unread load_published resting c h k = k
produce-unread load_in_ui (seen_published p) c h k = k
produce-unread claim_slot (seen_both p u) c h k = claimed (free_slot p u 0 c.slots)
  where
    claimed : (slot : Option ℕ) → (claim slot c).published ≡ none
    claimed none = ground (arith, k)
    claimed (some i) = ground (arith, k)
produce-unread (write bytes) (writing i) c h k = k
produce-unread publish at c h k = absurd (ground (arith, h))
produce-unread note_published at c h k = k
produce-unread m at c h k = k

consume-unread :
    (m : Move) (at : ConsumerAt) (c : PublicationChannel)
    → c.published ≡ none
    → (consume m at c).0.published ≡ none
unfolding consume take mark clear is_index
consume-unread load_taken away c k = ground (arith, k)
consume-unread mark_in_ui (loaded i) c k = ground (arith, k)
consume-unread clear_published (marked i) c k = ground (arith, k)
consume-unread copy_bytes (reading i) c k = k
consume-unread release (copied i) c k = k
consume-unread m at c k = k

step-unread :
    (m : Move) (c : PublicationChannel)
    → is_publish m ≡ false
    → c.published ≡ none
    → (step m c).0.published ≡ none
unfolding step
step-unread m c h k = elim (Bool-cases (is_producers m)) [
  | inl theirs ↦ ground (arith, theirs, produce-unread m c.producer c h k)
  | inr ours ↦ ground (arith, ours, consume-unread m c.consumer c k)
]

run-unread :
    (ms : List Move) (c : PublicationChannel)
    → All (λ (m : Move). is_publish m ≡ false) ms
    → c.published ≡ none
    → (run ms c).0.published ≡ none
unfolding run
run-unread [] c h k = k
run-unread (m ∷ ms) c (h, hs) k = run-unread ms (step m c).0 hs (step-unread m c h k)

-- Once `has_unread_published` was false, the next publication takes place, whatever both threads do
-- between: its exchange succeeds, so no unread snapshot is overwritten and none is lost.
pub publish_after_check :
    (ms : List Move) (c d : PublicationChannel) (i : ℕ)
    → has_unread_published c ≡ false
    → All (λ (m : Move). is_publish m ≡ false) ms
    → (run ms c).0 ≡ d
    → d.producer ≡ writing i
    → ((step publish d).0.published ≡ some i) × ((step publish d).1 ≡ sent (d.buffers i))
unfolding has_unread_published step is_producers produce publish_producer
publish_after_check ms c d i free others reached at =
    let empty : d.published ≡ none =
      subst (λ (x : PublicationChannel). x.published ≡ none) reached
        (run-unread ms c others (ground (arith, free))) in
    (ground (arith, at, empty), ground (arith, at, empty))
