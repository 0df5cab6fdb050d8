-- ===== src/Network/Queues.antt =====
-- What each operation of the network does to the queue of every direction, and to the outages.
use apptraverse.Prelude.{
  ◌↔◌, ◌≡◌, inl, inr, Bool, true, ◌&&◌, not, Option, none, some, List, [], ◌∷◌, ◌++◌, arith,
  if◌then◌else◌, Option-cases, length, is_some, Bytes, ◌==◌, bytes_eq, nat_eq, pair_eq,
}
use apptraverse.Prelude.Assoc.{lookup, lookup-insert}
use apptraverse.Network.{
  Direction, MemoryNetwork, is_connected, deliver_next, drop_next, duplicate_next, queue_of,
  enqueue,
}

-- The packets in flight.
unfoldable pub queue : MemoryNetwork → Direction → List Bytes
queue n d = queue_of (lookup d n.queues)

unfoldable pub tail : List Bytes → List Bytes
tail [] = []
tail (x ∷ xs) = xs

pub queue-enqueue :
    (n : MemoryNetwork) (d : Direction) (bytes : Bytes) (q : Direction)
    → queue (enqueue n d bytes) q
      ≡ (if is_connected n d && (d == q) then queue n d ++ bytes ∷ [] else queue n q)
unfolding queue enqueue queue_of
queue-enqueue n d bytes q =
    ground (arith, lookup-insert d q (queue_of (lookup d n.queues) ++ bytes ∷ []) n.queues)

pub direction_iff : (d q : Direction) → ((d == q) ≡ true) ↔ (d ≡ q)
direction_iff = pair_eq.beq_iff

pub queue-drop_next :
    (n : MemoryNetwork) (d q : Direction)
    → queue (drop_next n d).0 q ≡ (if d == q then tail (queue n q) else queue n q)
unfolding queue drop_next tail queue_of
queue-drop_next n d q = elim (Option-cases (lookup d n.queues)) [
  | inl missing ↦ ground (arith, missing, direction_iff d q)
  | inr ([], found) ↦ ground (arith, found, direction_iff d q)
  | inr (bytes ∷ rest, found) ↦
      ground (arith, found, direction_iff d q, lookup-insert d q rest n.queues)
]

-- What a second copy of the front makes of a queue.
unfoldable pub doubled : List Bytes → List Bytes
doubled [] = []
doubled (x ∷ xs) = x ∷ xs ++ x ∷ []

pub queue-duplicate_next :
    (n : MemoryNetwork) (d q : Direction)
    → queue (duplicate_next n d).0 q ≡ (if d == q then doubled (queue n q) else queue n q)
unfolding queue duplicate_next doubled queue_of
queue-duplicate_next n d q = elim (Option-cases (lookup d n.queues)) [
  | inl missing ↦ ground (arith, missing, direction_iff d q)
  | inr ([], found) ↦ ground (arith, found, direction_iff d q)
  | inr (bytes ∷ rest, found) ↦
      ground
        (arith, found, direction_iff d q, lookup-insert d q (bytes ∷ rest ++ bytes ∷ []) n.queues)
]

-- Whether a delivery takes place.
unfoldable pub can_deliver : MemoryNetwork → Direction → Bool
can_deliver n d =
    is_connected n d && is_some (lookup d.1 n.endpoints) && not (length (queue n d) == 0)

unfoldable pub head_of : List Bytes → Option Bytes
head_of [] = none
head_of (x ∷ xs) = some x

-- A delivery takes place exactly where the direction is up, something is queued and the destination
-- is attached; it hands over the front of the queue of its direction and takes it from that queue, and
-- every other queue stays.
pub deliver_next_lem :
    (n : MemoryNetwork) (d q : Direction)
    → ((deliver_next n d).1 ≡ (if can_deliver n d then head_of (queue n d) else none))
      × (queue (deliver_next n d).0 q
          ≡ (if can_deliver n d && (d == q) then tail (queue n q) else queue n q))
unfolding queue deliver_next tail queue_of can_deliver head_of
deliver_next_lem n d q = elim (Option-cases (lookup d n.queues)) [
  | inl missing ↦ ground (arith, missing)
  | inr ([], found) ↦ ground (arith, found)
  | inr (bytes ∷ rest, found) ↦ elim (Option-cases (lookup d.1 n.endpoints)) [
    | inl down ↦ ground (arith, found, down)
    | inr (bound, up) ↦
        ground (arith, found, up, direction_iff d q, lookup-insert d q rest n.queues)
  ]
]
