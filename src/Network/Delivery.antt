-- ===== src/Network/Delivery.antt =====
-- What the network promises of a direction: order while nothing is dropped or duplicated, and in every
-- case that nothing arrives which was not sent.
use mathlib.Core.Path.{ap₂}
use apptraverse.Prelude.{
  ◌≡◌, refl, sym, ap, ◌∙◌, inl, inr, subst, Bool, true, false, List, [], ◌∷◌, ◌++◌, append_assoc,
  arith, All, All-append, if◌then◌else◌, Bytes, ◌==◌, bytes_eq, pair_eq, contains, contains-append,
  ==_refl,
}
use apptraverse.Prelude.Assoc.{lookup}
use apptraverse.Network.{
  Direction, MemoryNetwork, queue_of, drop_next, duplicate_next, disconnect, reconnect, attach,
  detach, set_receive,
}
use apptraverse.Network.Queues.{queue, tail, doubled, queue-drop_next, queue-duplicate_next}
use apptraverse.Network.Traffic.{
  Action, send_packet, deliver_front, drop_front, duplicate_front, cut, mend, attach_endpoint,
  detach_endpoint, bind_receiver, Traffic, new_traffic, on, perform, run, is_lossless, quiet-queue,
  send-cases, deliver-cases,
}

IsInOrder : Traffic → Direction → Type 0
IsInOrder t q = on q t.accepted ≡ on q t.delivered ++ queue t.network q

perform-IsInOrder :
    (a : Action) (t : Traffic) (q : Direction)
    → is_lossless a ≡ true
    → IsInOrder t q
    → IsInOrder (perform a t) q
unfolding IsInOrder perform is_lossless
perform-IsInOrder (send_packet d bytes) t q h o = elim (send-cases t d bytes q) [
  | inl (noting, queueing) ↦
      noting
      ∙ ap (λ (xs : List Bytes). xs ++ bytes ∷ []) o
      ∙ append_assoc (on q t.delivered) (queue t.network q) (bytes ∷ [])
      ∙ sym (ap (λ (xs : List Bytes). on q t.delivered ++ xs) queueing)
  | inr (noting, queueing) ↦
      noting ∙ o ∙ sym (ap (λ (xs : List Bytes). on q t.delivered ++ xs) queueing)
]
perform-IsInOrder (deliver_front d) t q h o = elim (deliver-cases t d q) [
  | inl (bytes, noting, queueing) ↦
      let u = perform (deliver_front d) t in
      o
      ∙ ap (λ (xs : List Bytes). on q t.delivered ++ xs) queueing
      ∙ sym (append_assoc (on q t.delivered) (bytes ∷ []) (queue u.network q))
      ∙ sym (ap (λ (xs : List Bytes). xs ++ queue u.network q) noting)
  | inr (noting, queueing) ↦ o ∙ ap₂ ◌++◌ (sym noting) (sym queueing)
]
perform-IsInOrder (drop_front d) t q h o = absurd (ground arith)
perform-IsInOrder (duplicate_front d) t q h o = absurd (ground arith)
perform-IsInOrder (cut d) t q h o = ground (arith, quiet-queue t.network d q [] true)
perform-IsInOrder (mend d) t q h o = ground (arith, quiet-queue t.network d q [] true)
perform-IsInOrder (attach_endpoint uid) t q h o = ground (arith, quiet-queue t.network q q uid true)
perform-IsInOrder (detach_endpoint uid) t q h o = ground (arith, quiet-queue t.network q q uid true)
perform-IsInOrder (bind_receiver uid bound) t q h o =
    ground (arith, quiet-queue t.network q q uid bound)

run-IsInOrder :
    (actions : List Action) (t : Traffic) (q : Direction)
    → All (λ (a : Action). is_lossless a ≡ true) actions
    → IsInOrder t q
    → IsInOrder (run actions t) q
unfolding run
run-IsInOrder [] t q h o = o
run-IsInOrder (a ∷ actions) t q h o =
    run-IsInOrder actions (perform a t) q h.1 (perform-IsInOrder a t q h.0 o)

-- Whatever is sent, delivered, cut, mended, attached and detached, in any order, as long as nothing is
-- dropped or duplicated: in every direction the packets that were accepted are those that were
-- delivered followed by those in flight, in the order of sending.
pub in_order :
    (actions : List Action) (q : Direction)
    → All (λ (a : Action). is_lossless a ≡ true) actions
    → let t = run actions new_traffic in on q t.accepted ≡ on q t.delivered ++ queue t.network q
unfolding IsInOrder on queue queue_of lookup
in_order actions q h = run-IsInOrder actions new_traffic q h refl

-- Every packet of the second list is in the first.
IsWithin : List Bytes → List Bytes → Type 0
IsWithin sent = All (λ (b : Bytes). contains sent b ≡ true)

record IsKnown (t : Traffic) (q : Direction) : Type 0 where
  delivered : IsWithin (on q t.accepted) (on q t.delivered)
  flying : IsWithin (on q t.accepted) (queue t.network q)

IsWithin-grow : (sent more xs : List Bytes) → IsWithin sent xs → IsWithin (sent ++ more) xs
unfolding IsWithin
IsWithin-grow sent more [] h = tt
IsWithin-grow sent more (x ∷ xs) h =
    (ground (arith, contains-append sent more x, h.0), IsWithin-grow sent more xs h.1)

IsWithin-last : (sent : List Bytes) (b : Bytes) → contains (sent ++ b ∷ []) b ≡ true
unfolding contains
IsWithin-last sent b = ground (arith, contains-append sent (b ∷ []) b, ==_refl b)

IsWithin-tail : (sent xs : List Bytes) → IsWithin sent xs → IsWithin sent (tail xs)
unfolding IsWithin tail
IsWithin-tail sent [] h = h
IsWithin-tail sent (x ∷ xs) h = h.1

IsWithin-doubled : (sent xs : List Bytes) → IsWithin sent xs → IsWithin sent (doubled xs)
unfolding IsWithin doubled
IsWithin-doubled sent [] h = h
IsWithin-doubled sent (x ∷ xs) h = (h.0, All-append _ xs (x ∷ []) h.1 (h.0, tt))

IsWithin-snoc :
    (sent : List Bytes) (b : Bytes) (xs : List Bytes)
    → IsWithin (sent ++ b ∷ []) xs
    → IsWithin (sent ++ b ∷ []) (xs ++ b ∷ [])
unfolding IsWithin
IsWithin-snoc sent b xs h = All-append _ xs (b ∷ []) h (IsWithin-last sent b, tt)

IsWithin-if :
    (sent : List Bytes) (b : Bool) (xs ys : List Bytes)
    → IsWithin sent xs
    → IsWithin sent ys
    → IsWithin sent (if b then xs else ys)
IsWithin-if sent true xs ys hx hy = hx
IsWithin-if sent false xs ys hx hy = hy

-- An operation that leaves the records, and a queue with nothing new in it.
quiet-IsKnown :
    (t : Traffic) (n : MemoryNetwork) (q : Direction)
    → IsKnown t q
    → IsWithin (on q t.accepted) (queue n q)
    → IsKnown (record t { network = n }) q
quiet-IsKnown t n q k h = record { delivered = k.delivered; flying = h }

perform-IsKnown : (a : Action) (t : Traffic) (q : Direction) → IsKnown t q → IsKnown (perform a t) q
unfolding perform IsWithin
perform-IsKnown (send_packet d bytes) t q k = elim (send-cases t d bytes q) [
  | inl (noting, queueing) ↦
      let sent = on q t.accepted in
      record {
        delivered =
            subst (λ (xs : List Bytes). IsWithin xs (on q t.delivered)) (sym noting)
              (IsWithin-grow sent (bytes ∷ []) (on q t.delivered) k.delivered);
        flying =
            subst
              (λ (xs : List Bytes). IsWithin xs (queue (perform (send_packet d bytes) t).network q))
              (sym noting)
              (subst (IsWithin (sent ++ bytes ∷ [])) (sym queueing) (
                IsWithin-snoc sent bytes (queue t.network q)
                  (IsWithin-grow sent (bytes ∷ []) (queue t.network q) k.flying)));
      }
  | inr (noting, queueing) ↦ record {
    delivered =
        subst (λ (xs : List Bytes). IsWithin xs (on q t.delivered)) (sym noting) k.delivered;
    flying =
        subst (λ (xs : List Bytes). IsWithin xs (queue (perform (send_packet d bytes) t).network q))
          (sym noting) (subst (IsWithin (on q t.accepted)) (sym queueing) k.flying);
  }
]
perform-IsKnown (deliver_front d) t q k = elim (deliver-cases t d q) [
  | inl (bytes, noting, queueing) ↦
      let (known, rest) = subst (IsWithin (on q t.accepted)) queueing k.flying in
      record {
        delivered =
            subst (IsWithin (on q t.accepted)) (sym noting)
              (All-append _ (on q t.delivered) (bytes ∷ []) k.delivered (known, tt));
        flying = rest;
      }
  | inr (noting, queueing) ↦ record {
    delivered = subst (IsWithin (on q t.accepted)) (sym noting) k.delivered;
    flying = subst (IsWithin (on q t.accepted)) (sym queueing) k.flying;
  }
]
perform-IsKnown (drop_front d) t q k =
    let sent = on q t.accepted in
    quiet-IsKnown t (drop_next t.network d).0 q k (
      subst (IsWithin sent) (sym (queue-drop_next t.network d q)) (
        IsWithin-if sent (d == q) (tail (queue t.network q)) (queue t.network q)
          (IsWithin-tail sent (queue t.network q) k.flying) k.flying))
perform-IsKnown (duplicate_front d) t q k =
    let sent = on q t.accepted in
    quiet-IsKnown t (duplicate_next t.network d).0 q k (
      subst (IsWithin sent) (sym (queue-duplicate_next t.network d q)) (
        IsWithin-if sent (d == q) (doubled (queue t.network q)) (queue t.network q)
          (IsWithin-doubled sent (queue t.network q) k.flying) k.flying))
perform-IsKnown (cut d) t q k =
    let same = (quiet-queue t.network d q [] true).0 in
    quiet-IsKnown t (disconnect t.network d) q k
      (subst (IsWithin (on q t.accepted)) (sym same) k.flying)
perform-IsKnown (mend d) t q k =
    let same = (quiet-queue t.network d q [] true).1 in
    quiet-IsKnown t (reconnect t.network d) q k
      (subst (IsWithin (on q t.accepted)) (sym same) k.flying)
perform-IsKnown (attach_endpoint uid) t q k =
    let same = (quiet-queue t.network q q uid true).2 in
    quiet-IsKnown t (attach t.network uid) q k
      (subst (IsWithin (on q t.accepted)) (sym same) k.flying)
perform-IsKnown (detach_endpoint uid) t q k =
    let same = (quiet-queue t.network q q uid true).3 in
    quiet-IsKnown t (detach t.network uid) q k
      (subst (IsWithin (on q t.accepted)) (sym same) k.flying)
perform-IsKnown (bind_receiver uid bound) t q k =
    let same = (quiet-queue t.network q q uid bound).4 in
    quiet-IsKnown t (set_receive t.network uid bound) q k
      (subst (IsWithin (on q t.accepted)) (sym same) k.flying)

run-IsKnown :
    (actions : List Action) (t : Traffic) (q : Direction) → IsKnown t q → IsKnown (run actions t) q
unfolding run
run-IsKnown [] t q k = k
run-IsKnown (a ∷ actions) t q k = run-IsKnown actions (perform a t) q (perform-IsKnown a t q k)

-- Whatever happens to the network, with drops, duplicates, outages and restarts of endpoints: in every
-- direction each packet that was delivered had been sent and accepted in that direction.
pub delivered_was_sent :
    (actions : List Action) (q : Direction)
    → let t = run actions new_traffic in
      All (λ (b : Bytes). contains (on q t.accepted) b ≡ true) (on q t.delivered)
unfolding IsWithin on queue queue_of lookup
delivered_was_sent actions q =
    let known : IsKnown new_traffic q = record { delivered = tt; flying = tt } in
    (run-IsKnown actions new_traffic q known).delivered
