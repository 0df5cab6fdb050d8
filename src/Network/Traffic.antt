-- ===== src/Network/Traffic.antt =====
-- The network over time: any sequence of its operations, with a record of the packets that the network
-- accepted and of those that it delivered.
use apptraverse.Prelude.{
  ◌⊎◌, ◌≡◌, refl, sym, ap, ◌∙◌, inl, inr, subst, Bool, true, false, Option, none, some, List, [],
  ◌∷◌, ◌++◌, append-nil, arith, if◌then◌else◌, Bool-cases, Bytes, ◌==◌, bytes_eq, pair_eq,
}
use apptraverse.Network.{
  Direction, MemoryNetwork, new_network, is_connected, deliver_next, drop_next, duplicate_next,
  disconnect, reconnect, attach, detach, set_receive, enqueue,
}
use apptraverse.Network.Queues.{
  direction_iff, queue, tail, head_of, can_deliver, queue-enqueue, deliver_next_lem,
}

pub data Action : Type 0 where
  send_packet : Direction → Bytes → Action
  deliver_front drop_front duplicate_front cut mend : Direction → Action
  attach_endpoint detach_endpoint : Bytes → Action
  bind_receiver : Bytes → Bool → Action

pub record Traffic : Type 0 where
  pub network : MemoryNetwork
  pub accepted : List (Direction × Bytes)
  pub delivered : List (Direction × Bytes)

abbrev pub new_traffic : Traffic
new_traffic = record { network = new_network; accepted = []; delivered = [] }

-- The packets of one direction in a record.
unfoldable pub on : Direction → List (Direction × Bytes) → List Bytes
on d [] = []
on d ((e, bytes) ∷ log) = let rest = on d log in if e == d then bytes ∷ rest else rest

unfoldable pub noted :
    Direction → Option Bytes → List (Direction × Bytes) → List (Direction × Bytes)
noted d none log = log
noted d (some bytes) log = log ++ (d, bytes) ∷ []

unfoldable pub perform : Action → Traffic → Traffic
perform (send_packet d bytes) t = record t {
  network = enqueue t.network d bytes;
  accepted = noted d (if is_connected t.network d then some bytes else none) t.accepted;
}
perform (deliver_front d) t = record t {
  network = (deliver_next t.network d).0;
  delivered = noted d (deliver_next t.network d).1 t.delivered;
}
perform (drop_front d) t = record t { network = (drop_next t.network d).0 }
perform (duplicate_front d) t = record t { network = (duplicate_next t.network d).0 }
perform (cut d) t = record t { network = disconnect t.network d }
perform (mend d) t = record t { network = reconnect t.network d }
perform (attach_endpoint uid) t = record t { network = attach t.network uid }
perform (detach_endpoint uid) t = record t { network = detach t.network uid }
perform (bind_receiver uid bound) t = record t { network = set_receive t.network uid bound }

unfoldable pub run : List Action → Traffic → Traffic
run [] t = t
run (a ∷ actions) t = run actions (perform a t)

-- Neither drops nor duplicates.
unfoldable pub is_lossless : Action → Bool
is_lossless (drop_front d) = false
is_lossless (duplicate_front d) = false
is_lossless _ = true

on-append :
    (d : Direction) (log : List (Direction × Bytes)) (e : Direction) (bytes : Bytes)
    → on d (log ++ (e, bytes) ∷ []) ≡ on d log ++ (if e == d then bytes ∷ [] else [])
unfolding on
on-append d [] e bytes = ground arith
on-append d ((f, x) ∷ log) e bytes = ground (arith, on-append d log e bytes)

on-noted :
    (d q : Direction) (o : Option Bytes) (log : List (Direction × Bytes))
    → on q (noted d o log)
      ≡ on q log ++ (elim o [ none ↦ [] | some bytes ↦ if d == q then bytes ∷ [] else [] ])
unfolding noted
on-noted d q none log = sym (append-nil (on q log))
on-noted d q (some bytes) log = on-append q log d bytes

-- Attaching, binding and outages leave the queues.
pub quiet-queue :
    (n : MemoryNetwork) (d q : Direction) (uid : Bytes) (bound : Bool)
    → (queue (disconnect n d) q ≡ queue n q)
      × (queue (reconnect n d) q ≡ queue n q)
      × (queue (attach n uid) q ≡ queue n q)
      × (queue (detach n uid) q ≡ queue n q)
      × (queue (set_receive n uid bound) q ≡ queue n q)
unfolding queue disconnect reconnect attach detach set_receive
quiet-queue n d q uid bound = ground arith

-- A queue that holds something is its front and the rest.
front-queue :
    (n : MemoryNetwork) (d : Direction)
    → can_deliver n d ≡ true
    → (bytes : Bytes) × (head_of (queue n d) ≡ some bytes) × (queue n d ≡ bytes ∷ tail (queue n d))
unfolding can_deliver head_of tail
front-queue n d can = go (queue n d) (ground arith)
  where
    go :
        (q : List Bytes)
        → ¬ (q ≡ [])
        → (bytes : Bytes) × (head_of q ≡ some bytes) × (q ≡ bytes ∷ tail q)
    go [] h = absurd (h refl)
    go (x ∷ xs) h = (x, refl, refl)

-- What a send changes of one direction, and what a delivery does.
pub send-cases :
    (t : Traffic) (d : Direction) (bytes : Bytes) (q : Direction)
    → let u = perform (send_packet d bytes) t in
      ((on q u.accepted ≡ on q t.accepted ++ bytes ∷ [])
        × (queue u.network q ≡ queue t.network q ++ bytes ∷ []))
      ⊎ ((on q u.accepted ≡ on q t.accepted) × (queue u.network q ≡ queue t.network q))
unfolding perform
send-cases t d bytes q =
    let noting = on-noted d q (if is_connected t.network d then some bytes else none) t.accepted in
    let queueing = queue-enqueue t.network d bytes q in
    elim (Bool-cases (is_connected t.network d)) [
      | inr down ↦ inr (
        ground (arith, noting, down, append-nil (on q t.accepted)),
        ground (arith, queueing, down),
      )
      | inl up ↦ elim (Bool-cases (d == q)) [
        | inr other ↦ inr (
          ground (arith, noting, up, other, append-nil (on q t.accepted)),
          ground (arith, queueing, up, other),
        )
        | inl same ↦ inl (
          ground (arith, noting, up, same),
          queueing
              ∙ ground (arith, up, same)
              ∙ ap (λ (e : Direction). queue t.network e ++ bytes ∷ [])
                  ((direction_iff d q).0 same),
        )
      ]
    ]

pub deliver-cases :
    (t : Traffic) (d q : Direction)
    → let u = perform (deliver_front d) t in
      ((bytes : Bytes) × (on q u.delivered ≡ on q t.delivered ++ bytes ∷ [])
        × (queue t.network q ≡ bytes ∷ queue u.network q))
      ⊎ ((on q u.delivered ≡ on q t.delivered) × (queue u.network q ≡ queue t.network q))
unfolding perform
deliver-cases t d q =
    let (out, queueing) = deliver_next_lem t.network d q in
    let noting = on-noted d q (deliver_next t.network d).1 t.delivered in
    elim (Bool-cases (can_deliver t.network d)) [
      | inr idle ↦ inr (
        ground (arith, noting, out, idle, append-nil (on q t.delivered)),
        ground (arith, queueing, idle),
      )
      | inl can ↦
          let (bytes, at, whole) = front-queue t.network d can in
          elim (Bool-cases (d == q)) [
            | inr other ↦ inr (
              ground (arith, noting, out, can, at, other, append-nil (on q t.delivered)),
              ground (arith, queueing, can, other),
            )
            | inl same ↦
                let equal = (direction_iff d q).0 same in
                inl (
                  bytes,
                  ground (arith, noting, out, can, at, same),
                  subst (λ (e : Direction). queue t.network e ≡ bytes ∷ tail (queue t.network e))
                        equal whole
                      ∙ ap (◌∷◌ bytes) (ground (arith, queueing, can, same)),
                )
          ]
    ]
