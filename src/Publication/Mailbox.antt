-- ===== src/Publication/Mailbox.antt =====
-- A publication channel implements a queue that holds at most two snapshots.
use apptraverse.Prelude.{
  ℕ, ◌≡◌, refl, sym, ap, ◌∙◌, inl, inr, false, Option, none, some, List, [], ◌∷◌, ◌++◌, arith,
  if◌then◌else◌, Bool-cases, Option-cases, if_true, if_false, of_some, subst, Bytes, ◌==◌, ==_refl,
  nat_eq, bytes_eq, append-nil,
}
use apptraverse.Publication.{
  ProducerAt, resting, seen_published, seen_both, writing, ConsumerAt, away, loaded, marked,
  reading, copied, PublicationChannel, Move, load_published, load_in_ui, claim_slot, write, publish,
  note_published, load_taken, mark_in_ui, clear_published, copy_bytes, release, Signal, silent,
  sent, received, is_index, free_slot, set_buffer, claim, publish_producer, produce, take, mark,
  clear, consume, is_producers, step, run, new_channel,
}
use apptraverse.Publication.Safety.{
  IsSafe, IsConsuming, unseen, writing-apart, step-IsSafe, new_channel-IsSafe,
}

-- What a queue does on a signal: it takes no third snapshot, and gives the first one.
unfoldable pub queue_step : Signal → List Bytes → Option (List Bytes)
queue_step silent q = some q
queue_step (sent b) [] = some (b ∷ [])
queue_step (sent b) (x ∷ []) = some (x ∷ b ∷ [])
queue_step (sent b) (x ∷ y ∷ q) = none
queue_step (received b) [] = none
queue_step (received b) (x ∷ q) = if x == b then some q else none

unfoldable pub queue_run : List Signal → List Bytes → Option (List Bytes)
queue_run [] q = some q
queue_run (s ∷ ss) q = elim (queue_step s q) [ none ↦ none | some next ↦ queue_run ss next ]

-- The snapshots on their way: the one the consumer has not copied yet, and the published one.
unfoldable pub held : ConsumerAt → (ℕ → Bytes) → List Bytes
held (reading i) buffers = buffers i ∷ []
held _ buffers = []

unfoldable pub unread : Option ℕ → (ℕ → Bytes) → List Bytes
unread none buffers = []
unread (some i) buffers = buffers i ∷ []

abbrev pub on_the_way : PublicationChannel → List Bytes
on_the_way c = held c.consumer c.buffers ++ unread c.published c.buffers

-- A buffer that is neither published nor with the consumer can be written.
held-set_buffer :
    (i : ℕ) (b : Bytes) (at : ConsumerAt) (p u : Option ℕ) (buffers : ℕ → Bytes)
    → IsConsuming at p u
    → is_index i u ≡ false
    → held at (set_buffer i b buffers) ≡ held at buffers
unfolding held set_buffer is_index
held-set_buffer i b away p u buffers h k = refl
held-set_buffer i b (loaded j) p u buffers h k = refl
held-set_buffer i b (marked j) p u buffers h k = refl
held-set_buffer i b (reading j) p u buffers h k = ground (arith, h, k)
held-set_buffer i b (copied j) p u buffers h k = refl

unread-set_buffer :
    (i : ℕ) (b : Bytes) (p : Option ℕ) (buffers : ℕ → Bytes)
    → is_index i p ≡ false
    → unread p (set_buffer i b buffers) ≡ unread p buffers
unfolding unread set_buffer is_index
unread-set_buffer i b none buffers h = refl
unread-set_buffer i b (some j) buffers h = ground (arith, h)

set_buffer-on_the_way :
    (i : ℕ) (b : Bytes) (c : PublicationChannel)
    → IsSafe c
    → is_index i c.published ≡ false
    → is_index i c.in_ui ≡ false
    → held c.consumer (set_buffer i b c.buffers) ++ unread c.published (set_buffer i b c.buffers)
      ≡ on_the_way c
set_buffer-on_the_way i b c h free idle =
    ap (λ (q : List Bytes). q ++ unread c.published (set_buffer i b c.buffers))
      (held-set_buffer i b c.consumer c.published c.in_ui c.buffers h.consuming idle)
    ∙ ap (λ (q : List Bytes). held c.consumer c.buffers ++ q)
        (unread-set_buffer i b c.published c.buffers free)

claim-on_the_way :
    (p u : Option ℕ) (c : PublicationChannel)
    → c.producer ≡ seen_both p u
    → IsSafe c
    → on_the_way (claim (free_slot p u 0 c.slots) c) ≡ on_the_way c
unfolding claim
claim-on_the_way p u c at h = elim (Option-cases (free_slot p u 0 c.slots)) [
  | inl missing ↦ ground (arith, missing)
  | inr (k, found) ↦
      let (free, idle) = unseen c p u k at h found in
      ap (λ (o : Option ℕ). on_the_way (claim o c)) found ∙ set_buffer-on_the_way k [] c h free idle
]

publish-refines :
    (i : ℕ) (c : PublicationChannel)
    → c.producer ≡ writing i
    → IsSafe c
    → let (d, s) = publish_producer i c in queue_step s (on_the_way c) ≡ some (on_the_way d)
unfolding publish_producer held unread queue_step
publish-refines i c at h = ground (arith, at, h.consuming)

produce-refines :
    (m : Move) (at : ProducerAt) (c : PublicationChannel)
    → c.producer ≡ at
    → IsSafe c
    → let (d, s) = produce m at c in queue_step s (on_the_way c) ≡ some (on_the_way d)
unfolding produce queue_step
produce-refines load_published resting c e h = refl
produce-refines load_in_ui (seen_published p) c e h = refl
produce-refines claim_slot (seen_both p u) c e h = ap some (sym (claim-on_the_way p u c e h))
produce-refines (write bytes) (writing i) c e h =
    let (free, idle) = writing-apart c i h e in
    ap some (sym (set_buffer-on_the_way i (c.buffers i ++ bytes) c h free idle))
produce-refines publish (writing i) c e h = publish-refines i c e h
produce-refines note_published at c e h = refl
produce-refines m at c e h = refl

consume-refines :
    (m : Move) (at : ConsumerAt) (c : PublicationChannel)
    → c.consumer ≡ at
    → IsSafe c
    → let (d, s) = consume m at c in queue_step s (on_the_way c) ≡ some (on_the_way d)
unfolding consume queue_step take mark clear held unread is_index
consume-refines load_taken away c e h = ground (arith, e, h.consuming)
consume-refines mark_in_ui (loaded i) c e h = ground (arith, e, h.consuming)
consume-refines clear_published (marked i) c e h = ground (arith, e, h.consuming)
consume-refines copy_bytes (reading i) c e h = ground (arith, e, h.consuming, ==_refl (c.buffers i))
consume-refines release (copied i) c e h = ground (arith, e, h.consuming)
consume-refines m at c e h = refl

step-refines :
    (m : Move) (c : PublicationChannel)
    → IsSafe c
    → let (d, s) = step m c in queue_step s (on_the_way c) ≡ some (on_the_way d)
unfolding step
step-refines m c h = elim (Bool-cases (is_producers m)) [
  | inl theirs ↦
      subst
        (λ (out : PublicationChannel × Signal).
          queue_step out.1 (on_the_way c) ≡ some (on_the_way out.0))
        (sym (if_true _ _ theirs)) (produce-refines m c.producer c refl h)
  | inr ours ↦
      subst
        (λ (out : PublicationChannel × Signal).
          queue_step out.1 (on_the_way c) ≡ some (on_the_way out.0))
        (sym (if_false _ _ ours)) (consume-refines m c.consumer c refl h)
]

run-refines :
    (ms : List Move) (c : PublicationChannel)
    → IsSafe c
    → let (d, signals) = run ms c in queue_run signals (on_the_way c) ≡ some (on_the_way d)
unfolding run queue_run
run-refines [] c h = refl
run-refines (m ∷ ms) c h =
    ground (arith, step-refines m c h, run-refines ms (step m c).0 (step-IsSafe m c h))

-- The snapshots published in a run, and those that the consumer has copied.
unfoldable pub sent_of : List Signal → List Bytes
sent_of [] = []
sent_of (sent b ∷ ss) = b ∷ sent_of ss
sent_of (silent ∷ ss) = sent_of ss
sent_of (received b ∷ ss) = sent_of ss

unfoldable pub received_of : List Signal → List Bytes
received_of [] = []
received_of (received b ∷ ss) = b ∷ received_of ss
received_of (silent ∷ ss) = received_of ss
received_of (sent b ∷ ss) = received_of ss

-- A queue gives what it has taken, in order.
in_order :
    (ss : List Signal) (q r : List Bytes)
    → queue_run ss q ≡ some r
    → q ++ sent_of ss ≡ received_of ss ++ r
unfolding queue_run queue_step sent_of received_of
in_order [] q r h = append-nil q ∙ of_some h
in_order (silent ∷ ss) q r h = in_order ss q r h
in_order (sent b ∷ ss) [] r h = in_order ss (b ∷ []) r h
in_order (sent b ∷ ss) (x ∷ []) r h = in_order ss (x ∷ b ∷ []) r h
in_order (sent b ∷ ss) (x ∷ y ∷ q) r h = absurd (ground (arith, h))
in_order (received b ∷ ss) [] r h = absurd (ground (arith, h))
in_order (received b ∷ ss) (x ∷ q) r h = elim (Bool-cases (x == b)) [
  | inl same ↦ ground (arith, same, h, in_order ss q r, bytes_eq.beq_iff x b)
  | inr other ↦ absurd (ground (arith, other, h))
]

-- Every run of a channel is a run of a queue that holds at most two snapshots, and ends with the queue
-- that is on the way: the snapshots published are those copied, in order and with the bytes they had when
-- they were published, followed by those on the way.
pub channel-refines :
    (slots : ℕ) (ms : List Move)
    → let (c, signals) = run ms (new_channel slots) in
      (queue_run signals [] ≡ some (on_the_way c))
      × (sent_of signals ≡ received_of signals ++ on_the_way c)
unfolding new_channel held unread
channel-refines slots ms =
    let (c, signals) = run ms (new_channel slots) in
    let refines : queue_run signals [] ≡ some (on_the_way c) =
      run-refines ms (new_channel slots) (new_channel-IsSafe slots) in
    (refines, in_order signals [] (on_the_way c) refines)
