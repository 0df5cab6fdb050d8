-- ===== src/Network/Runs.antt =====
-- A run of the network between two endpoints, and the theorems at it.
use apptraverse.Prelude.{
  ◌≡◌, refl, true, List, [], ◌∷◌, ◌++◌, All, Bytes, contains, list_beq, pair_beq, pair_eq, bytes_eq,
}
use apptraverse.Prelude.Assoc.{lookup, insert}
use apptraverse.Network.{
  Direction, MemoryNetwork, is_connected, deliver_next, attach, enqueue, queue_of, drop_next,
  duplicate_next,
}
use apptraverse.Network.Queues.{queue}
use apptraverse.Network.Traffic.{
  Action, send_packet, deliver_front, drop_front, duplicate_front, cut, attach_endpoint,
  new_traffic, on, perform, run, is_lossless, noted,
}
use apptraverse.Network.Delivery.{in_order, delivered_was_sent}

abbrev there : Direction
there = (97 ∷ [], 98 ∷ [])

abbrev exchange : List Action
exchange =
    attach_endpoint (98 ∷ [])
    ∷ send_packet there (1 ∷ [])
    ∷ send_packet there (2 ∷ [])
    ∷ deliver_front there
    ∷ cut there
    ∷ send_packet there (3 ∷ [])
    ∷ []

in_order_example :
    let t = run exchange new_traffic in
    on there t.accepted ≡ on there t.delivered ++ queue t.network there
unfolding is_lossless
in_order_example = in_order exchange there (refl, (refl, (refl, (refl, (refl, (refl, tt))))))

abbrev lossy : List Action
lossy =
    attach_endpoint (98 ∷ [])
    ∷ send_packet there (1 ∷ [])
    ∷ send_packet there (2 ∷ [])
    ∷ duplicate_front there
    ∷ drop_front there
    ∷ deliver_front there
    ∷ deliver_front there
    ∷ []

delivered_was_sent_example :
    let t = run lossy new_traffic in
    All (λ (b : Bytes). contains (on there t.accepted) b ≡ true) (on there t.delivered)
delivered_was_sent_example = delivered_was_sent lossy there

-- The duplicate arrives after the packet that was behind it.
lossy_order : on there (run lossy new_traffic).delivered ≡ (2 ∷ []) ∷ (1 ∷ []) ∷ []
unfolding on run perform noted attach enqueue is_connected duplicate_next drop_next deliver_next
    lookup insert queue_of pair_beq list_beq contains
lossy_order = refl

abbrev loaded : MemoryNetwork
loaded = record {
  endpoints = (98 ∷ [], true) ∷ [];
  queues = (there, (1 ∷ []) ∷ (2 ∷ []) ∷ []) ∷ [];
  disconnected = [];
}
