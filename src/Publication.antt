-- ===== src/Publication.antt =====
-- The hand-over of published snapshots from the model thread to the user interface: `PublicationChannel` of
-- include/apptraverse/publication_channel.h. The two threads take turns by single atomic operations: a
-- move is one load, compare-and-exchange or store of a shared index, or one access to a buffer by
-- the thread that has it. Acquire and release order the accesses to a buffer with those to the indices, so
-- every run is a sequence of moves. An index -1 is `none`.

pub mod Safety
pub mod Mailbox
pub mod Unread
mod Runs
use apptraverse.Prelude.{
  ℕ, zero, suc, ◌+◌, ◌%◌, ◌^◌, Bool, true, false, ◌&&◌, not, Option, none, some, List, [], ◌∷◌,
  ◌++◌, if◌then◌else◌, is_some, Bytes, Eq, ◌==◌, nat_eq,
}

-- Where the producer is: inside `AcquireProducer` after one or both loads, or with a buffer of its own.
pub data ProducerAt : Type 0 where
  resting : ProducerAt
  seen_published : Option ℕ → ProducerAt
  seen_both : Option ℕ → Option ℕ → ProducerAt
  writing : ℕ → ProducerAt

-- Where the consumer is: inside `TakePublished` after the load or the first exchange, or with the buffer
-- that it has taken, before and after the bytes are copied.
pub data ConsumerAt : Type 0 where
  away : ConsumerAt
  loaded : ℕ → ConsumerAt
  marked : ℕ → ConsumerAt
  reading : ℕ → ConsumerAt
  copied : ℕ → ConsumerAt

-- `slots` is the number N of buffers.
pub record PublicationChannel : Type 0 where
  pub slots : ℕ
  pub buffers : ℕ → Bytes
  pub published : Option ℕ
  pub in_ui : Option ℕ
  pub publish_count : ℕ
  pub producer : ProducerAt
  pub consumer : ConsumerAt

-- The atomic moves, the producer's first: those of `AcquireProducer`, writing into the sink, and the
-- exchange of `PublishProducer`, and `NotePublished`; then those of `TakePublished`, the copy, and `ReleaseConsumer`.
pub data Move : Type 0 where
  load_published load_in_ui claim_slot : Move
  write : Bytes → Move
  publish note_published : Move
  load_taken mark_in_ui clear_published copy_bytes release : Move

-- What the other thread can tell of a move: a snapshot was published, or one was copied.
pub data Signal : Type 0 where
  silent : Signal
  sent : Bytes → Signal
  received : Bytes → Signal

unfoldable pub is_index : ℕ → Option ℕ → Bool
is_index i none = false
is_index i (some j) = j == i

-- The loop of `AcquireProducer` over the slots from `i` on.
unfoldable pub free_slot : Option ℕ → Option ℕ → ℕ → ℕ → Option ℕ
free_slot published in_ui i zero = none
free_slot published in_ui i (suc left) =
    let rest = free_slot published in_ui (suc i) left in
    if not (is_index i published) && not (is_index i in_ui) then some i else rest

unfoldable pub set_buffer : ℕ → Bytes → (ℕ → Bytes) → ℕ → Bytes
set_buffer i bytes buffers j = if j == i then bytes else buffers j

unfoldable pub has_unread_published : PublicationChannel → Bool
has_unread_published c = is_some c.published

-- Where no slot is free the code asserts; the producer gives up.
unfoldable pub claim : Option ℕ → PublicationChannel → PublicationChannel
claim none c = record c { producer = resting }
claim (some i) c = record c { producer = writing i; buffers = set_buffer i [] c.buffers }

-- The exchange from -1. Where it fails the code asserts, and the index stays.
unfoldable pub publish_producer : ℕ → PublicationChannel → PublicationChannel × Signal
publish_producer i c = elim c.published [
  | none ↦ (record c { published = some i; producer = resting }, sent (c.buffers i))
  | some j ↦ (record c { producer = resting }, silent)
]

unfoldable pub produce : Move → ProducerAt → PublicationChannel → PublicationChannel × Signal
produce load_published resting c = (record c { producer = seen_published c.published }, silent)
produce load_in_ui (seen_published published) c =
    (record c { producer = seen_both published c.in_ui }, silent)
produce claim_slot (seen_both published in_ui) c =
    (claim (free_slot published in_ui 0 c.slots) c, silent)
produce (write bytes) (writing i) c =
    (record c { buffers = set_buffer i (c.buffers i ++ bytes) c.buffers }, silent)
produce publish (writing i) c = publish_producer i c
produce note_published at c = (record c { publish_count = (c.publish_count + 1) % 2 ^ 64 }, silent)
produce _ _ c = (c, silent)

unfoldable pub take : Option ℕ → PublicationChannel → PublicationChannel
take none c = c
take (some i) c = record c { consumer = loaded i }

unfoldable pub mark : ℕ → PublicationChannel → PublicationChannel
mark i c = elim c.in_ui [
  | none ↦ record c { in_ui = some i; consumer = marked i }
  | some j ↦ record c { consumer = away }
]

unfoldable pub clear : ℕ → PublicationChannel → PublicationChannel
clear i c =
    if is_index i c.published
    then record c { published = none; consumer = reading i }
    else record c { in_ui = none; consumer = away }

unfoldable pub consume : Move → ConsumerAt → PublicationChannel → PublicationChannel × Signal
consume load_taken away c = (take c.published c, silent)
consume mark_in_ui (loaded i) c = (mark i c, silent)
consume clear_published (marked i) c = (clear i c, silent)
consume copy_bytes (reading i) c = (record c { consumer = copied i }, received (c.buffers i))
consume release (copied i) c = (record c { in_ui = none; consumer = away }, silent)
consume _ _ c = (c, silent)

unfoldable pub is_producers : Move → Bool
is_producers load_published = true
is_producers load_in_ui = true
is_producers claim_slot = true
is_producers (write bytes) = true
is_producers publish = true
is_producers note_published = true
is_producers _ = false

-- A move for which its thread is not ready does nothing.
unfoldable pub step : Move → PublicationChannel → PublicationChannel × Signal
step m c = if is_producers m then produce m c.producer c else consume m c.consumer c

unfoldable pub run : List Move → PublicationChannel → PublicationChannel × List Signal
run [] c = (c, [])
run (m ∷ ms) c =
    let (next, signal) = step m c in let (last, signals) = run ms next in (last, signal ∷ signals)

unfoldable pub new_channel : ℕ → PublicationChannel
new_channel slots = record {
  slots = slots;
  buffers = λ i. [];
  published = none;
  in_ui = none;
  publish_count = 0;
  producer = resting;
  consumer = away;
}
