-- ===== src/Network.antt =====
-- The in-process network of include/apptraverse/memory_transport.h and src/memory_transport.cpp, with the
-- transports attached to it. A delivery gives the bytes that it hands to the destination; what the
-- receiver does with them comes after.
pub mod Queues
pub mod Traffic
pub mod Delivery
mod Runs
use apptraverse.Prelude.{
  ℕ, Bool, true, false, ◌&&◌, not, Option, none, some, List, [], ◌∷◌, ◌++◌, if◌then◌else◌, length,
  Bytes, Eq, ◌==◌, bytes_eq, pair_eq, contains,
}
use apptraverse.Prelude.Assoc.{lookup, insert, erase}

abbrev pub Direction : Type 0
Direction = Bytes × Bytes

-- An endpoint maps to whether a receiver is bound to its transport.
pub record MemoryNetwork : Type 0 where
  pub endpoints : List (Bytes × Bool)
  pub queues : List (Direction × List Bytes)
  pub disconnected : List Direction

abbrev pub new_network : MemoryNetwork
new_network = record { endpoints = []; queues = []; disconnected = [] }

unfoldable pub is_connected : MemoryNetwork → Direction → Bool
is_connected n d = not (contains n.disconnected d)

unfoldable pub size_of : Option (List Bytes) → ℕ
size_of none = 0
size_of (some queue) = length queue

unfoldable pub pending_count : MemoryNetwork → Direction → ℕ
pending_count n d = size_of (lookup d n.queues)

-- The empty packet where nothing is queued.
unfoldable pub front_of : Option (List Bytes) → Bytes
front_of (some (bytes ∷ rest)) = bytes
front_of _ = []

unfoldable pub peek_next : MemoryNetwork → Direction → Bytes
peek_next n d = front_of (lookup d n.queues)

-- `none` is `false`: the direction is down, nothing is queued, or nobody is attached as destination.
unfoldable pub deliver_next : MemoryNetwork → Direction → MemoryNetwork × Option Bytes
deliver_next n d =
    if is_connected n d
    then elim (lookup d n.queues) [
      | none ↦ (n, none)
      | some [] ↦ (n, none)
      | some (bytes ∷ rest) ↦ elim (lookup d.1 n.endpoints) [
        | none ↦ (n, none)
        | some bound ↦ (record n { queues = insert d rest n.queues }, some bytes)
      ]
    ]
    else (n, none)

unfoldable pub drop_next : MemoryNetwork → Direction → MemoryNetwork × Bool
drop_next n d = elim (lookup d n.queues) [
  | none ↦ (n, false)
  | some [] ↦ (n, false)
  | some (bytes ∷ rest) ↦ (record n { queues = insert d rest n.queues }, true)
]

unfoldable pub duplicate_next : MemoryNetwork → Direction → MemoryNetwork × Bool
duplicate_next n d = elim (lookup d n.queues) [
  | none ↦ (n, false)
  | some [] ↦ (n, false)
  | some (bytes ∷ rest) ↦
      (record n { queues = insert d (bytes ∷ rest ++ bytes ∷ []) n.queues }, true)
]

unfoldable pub disconnect : MemoryNetwork → Direction → MemoryNetwork
disconnect n d = record n {
  disconnected = if contains n.disconnected d then n.disconnected else d ∷ n.disconnected;
}

unfoldable pub without : Direction → List Direction → List Direction
without d [] = []
without d (x ∷ xs) = let rest = without d xs in if x == d then rest else x ∷ rest

unfoldable pub reconnect : MemoryNetwork → Direction → MemoryNetwork
reconnect n d = record n { disconnected = without d n.disconnected }

-- `emplace`, which asserts that the endpoint is new.
unfoldable pub attach : MemoryNetwork → Bytes → MemoryNetwork
attach n uid = elim (lookup uid n.endpoints) [
  | none ↦ record n { endpoints = insert uid false n.endpoints }
  | some bound ↦ n
]

unfoldable pub detach : MemoryNetwork → Bytes → MemoryNetwork
detach n uid = record n { endpoints = erase uid n.endpoints }

-- `MemoryTransport::BindReceive` and `ClearReceive`.
unfoldable pub set_receive : MemoryNetwork → Bytes → Bool → MemoryNetwork
set_receive n uid bound = record n { endpoints = insert uid bound n.endpoints }

unfoldable pub queue_of : Option (List Bytes) → List Bytes
queue_of none = []
queue_of (some queue) = queue

-- Where the direction is down the packet is lost.
unfoldable pub enqueue : MemoryNetwork → Direction → Bytes → MemoryNetwork
enqueue n d bytes =
    if is_connected n d
    then record n { queues = insert d (queue_of (lookup d n.queues) ++ bytes ∷ []) n.queues }
    else n

-- `MemoryTransport::Send`, which asserts that the destination is another endpoint.
unfoldable pub send : MemoryNetwork → Bytes → Bytes → Bytes → MemoryNetwork
send n local_endpoint_uid destination_endpoint bytes =
    enqueue n (local_endpoint_uid, destination_endpoint) bytes
