-- ===== src/Publication/Safety.antt =====
-- The two threads of a publication channel never have one buffer, and no slot is missing.
use apptraverse.Prelude.{
  ℕ, zero, suc, ◌≡◌, ◌⊎◌, refl, sym, ap, ◌∙◌, subst, inl, inr, false, Option, none, some, List, [],
  ◌∷◌, arith, Bool-cases, Option-cases, nat_eq,
}
use apptraverse.Publication.{
  ProducerAt, resting, seen_published, seen_both, writing, ConsumerAt, away, loaded, marked,
  reading, copied, PublicationChannel, Move, load_published, load_in_ui, claim_slot, write, publish,
  note_published, load_taken, mark_in_ui, clear_published, copy_bytes, release, is_index, free_slot,
  set_buffer, claim, publish_producer, produce, take, mark, clear, consume, is_producers, step, run,
  new_channel,
}

-- What the producer knows of the indices.
abbrev pub IsProducing : ProducerAt → Option ℕ → Option ℕ → Type 0
IsProducing resting published in_ui = Unit
IsProducing (seen_published p) published in_ui = (published ≡ none) ⊎ (published ≡ p)
IsProducing (seen_both p u) published in_ui =
    ((published ≡ none) ⊎ (published ≡ p)) × ((in_ui ≡ none) ⊎ (in_ui ≡ u) ⊎ (in_ui ≡ p))
IsProducing (writing i) published in_ui =
    (is_index i published ≡ false) × (is_index i in_ui ≡ false)

abbrev pub IsConsuming : ConsumerAt → Option ℕ → Option ℕ → Type 0
IsConsuming away published in_ui = in_ui ≡ none
IsConsuming (loaded i) published in_ui = (published ≡ some i) × (in_ui ≡ none)
IsConsuming (marked i) published in_ui = (published ≡ some i) × (in_ui ≡ some i)
IsConsuming (reading i) published in_ui = (is_index i published ≡ false) × (in_ui ≡ some i)
IsConsuming (copied i) published in_ui = (is_index i published ≡ false) × (in_ui ≡ some i)

pub record IsSafe (c : PublicationChannel) : Type 0 where
  pub producing : IsProducing c.producer c.published c.in_ui
  pub consuming : IsConsuming c.consumer c.published c.in_ui

-- A slot that is found is none of the two.
free_slot_lem :
    (p u : Option ℕ) (i left k : ℕ)
    → free_slot p u i left ≡ some k
    → (is_index k p ≡ false) × (is_index k u ≡ false)
unfolding free_slot
free_slot_lem p u i zero k h = absurd (ground arith)
free_slot_lem p u i (suc left) k h = ground (arith, h, free_slot_lem p u (suc i) left k)

-- Three slots always have a free one.
three_slots :
    (p u : Option ℕ) (left : ℕ) → (k : ℕ) × (free_slot p u 0 (suc (suc (suc left))) ≡ some k)
unfolding free_slot is_index
three_slots p u left = elim (Option-cases (free_slot p u 0 (suc (suc (suc left))))) [
  | inl missing ↦ absurd (ground (arith, missing))
  | inr (k, found) ↦ (k, found)
]

pub unseen :
    (c : PublicationChannel) (p u : Option ℕ) (k : ℕ)
    → c.producer ≡ seen_both p u
    → IsSafe c
    → free_slot p u 0 c.slots ≡ some k
    → (is_index k c.published ≡ false) × (is_index k c.in_ui ≡ false)
unfolding is_index
unseen c p u k at h found = ground (arith, at, h.producing, free_slot_lem p u 0 c.slots k found)

claim-IsSafe :
    (p u : Option ℕ) (c : PublicationChannel)
    → c.producer ≡ seen_both p u
    → IsSafe c
    → IsSafe (claim (free_slot p u 0 c.slots) c)
unfolding claim
claim-IsSafe p u c at h = elim (Option-cases (free_slot p u 0 c.slots)) [
  | inl missing ↦ ground (arith, missing, h.consuming)
  | inr (k, found) ↦ ground (arith, found, at, h.consuming, unseen c p u k at h found)
]

publish-IsSafe :
    (i : ℕ) (c : PublicationChannel)
    → c.producer ≡ writing i
    → IsSafe c
    → IsSafe (publish_producer i c).0
unfolding publish_producer is_index
publish-IsSafe i c at h = ground (arith, at, h.producing, h.consuming)

produce-IsSafe :
    (m : Move) (at : ProducerAt) (c : PublicationChannel)
    → c.producer ≡ at
    → IsSafe c
    → IsSafe (produce m at c).0
unfolding produce
produce-IsSafe load_published resting c e h = ground (arith, h.consuming)
produce-IsSafe load_in_ui (seen_published p) c e h = ground (arith, e, h.producing, h.consuming)
produce-IsSafe claim_slot (seen_both p u) c e h = claim-IsSafe p u c e h
produce-IsSafe (write bytes) (writing i) c e h = ground (arith, h.consuming, h.producing)
produce-IsSafe publish (writing i) c e h = publish-IsSafe i c e h
produce-IsSafe note_published at c e h = ground (arith, h.producing, h.consuming)
produce-IsSafe m at c e h = h

mark-IsSafe :
    (i : ℕ) (c : PublicationChannel) → c.consumer ≡ loaded i → IsSafe c → IsSafe (mark i c)
unfolding mark
mark-IsSafe i c at h = ground (arith, at, h.producing, h.consuming)

clear-IsSafe :
    (i : ℕ) (c : PublicationChannel) → c.consumer ≡ marked i → IsSafe c → IsSafe (clear i c)
unfolding clear is_index
clear-IsSafe i c at h = ground (arith, at, h.producing, h.consuming)

consume-IsSafe :
    (m : Move) (at : ConsumerAt) (c : PublicationChannel)
    → c.consumer ≡ at
    → IsSafe c
    → IsSafe (consume m at c).0
unfolding consume take is_index
consume-IsSafe load_taken away c e h = ground (arith, e, h.producing, h.consuming)
consume-IsSafe mark_in_ui (loaded i) c e h = mark-IsSafe i c e h
consume-IsSafe clear_published (marked i) c e h = clear-IsSafe i c e h
consume-IsSafe copy_bytes (reading i) c e h = ground (arith, e, h.producing, h.consuming)
consume-IsSafe release (copied i) c e h = ground (arith, e, h.producing, h.consuming)
consume-IsSafe m at c e h = h

pub step-IsSafe : (m : Move) (c : PublicationChannel) → IsSafe c → IsSafe (step m c).0
unfolding step
step-IsSafe m c h = elim (Bool-cases (is_producers m)) [
  | inl theirs ↦ ground (arith, theirs, produce-IsSafe m c.producer c refl h)
  | inr ours ↦ ground (arith, ours, consume-IsSafe m c.consumer c refl h)
]

slots-produce :
    (m : Move) (at : ProducerAt) (c : PublicationChannel) → (produce m at c).0.slots ≡ c.slots
unfolding produce publish_producer claim
slots-produce load_published resting c = refl
slots-produce load_in_ui (seen_published p) c = refl
slots-produce claim_slot (seen_both p u) c = slots-claim (free_slot p u 0 c.slots)
  where
    slots-claim : (k : Option ℕ) → (claim k c).slots ≡ c.slots
    slots-claim none = ground arith
    slots-claim (some k) = ground arith
slots-produce (write bytes) (writing i) c = refl
slots-produce publish (writing i) c = ground arith
slots-produce note_published at c = refl
slots-produce m at c = refl

slots-consume :
    (m : Move) (at : ConsumerAt) (c : PublicationChannel) → (consume m at c).0.slots ≡ c.slots
unfolding consume take mark clear
slots-consume load_taken away c = ground arith
slots-consume mark_in_ui (loaded i) c = ground arith
slots-consume clear_published (marked i) c = ground arith
slots-consume copy_bytes (reading i) c = refl
slots-consume release (copied i) c = refl
slots-consume m at c = refl

slots-step : (m : Move) (c : PublicationChannel) → (step m c).0.slots ≡ c.slots
unfolding step
slots-step m c = elim (Bool-cases (is_producers m)) [
  | inl theirs ↦ ground (arith, theirs, slots-produce m c.producer c)
  | inr ours ↦ ground (arith, ours, slots-consume m c.consumer c)
]

pub new_channel-IsSafe : (slots : ℕ) → IsSafe (new_channel slots)
unfolding new_channel
new_channel-IsSafe slots = record { producing = tt; consuming = refl }

run-IsSafe : (ms : List Move) (c : PublicationChannel) → IsSafe c → IsSafe (run ms c).0
unfolding run
run-IsSafe [] c h = h
run-IsSafe (m ∷ ms) c h = run-IsSafe ms (step m c).0 (step-IsSafe m c h)

slots-run : (ms : List Move) (c : PublicationChannel) → (run ms c).0.slots ≡ c.slots
unfolding run
slots-run [] c = refl
slots-run (m ∷ ms) c = slots-run ms (step m c).0 ∙ slots-step m c

pub writing-apart :
    (c : PublicationChannel) (i : ℕ)
    → IsSafe c
    → c.producer ≡ writing i
    → (is_index i c.published ≡ false) × (is_index i c.in_ui ≡ false)
writing-apart c i h at = ground (arith, at, h.producing)

-- In every run, a buffer that the producer writes is neither the published one nor one that the
-- consumer has loaded, marked, taken or copied and not released.
pub no_sharing :
    (slots : ℕ) (ms : List Move) (c : PublicationChannel) (i : ℕ)
    → (run ms (new_channel slots)).0 ≡ c
    → c.producer ≡ writing i
    → (is_index i c.published ≡ false)
      × ¬ (c.consumer ≡ loaded i)
      × ¬ (c.consumer ≡ marked i)
      × ¬ (c.consumer ≡ reading i)
      × ¬ (c.consumer ≡ copied i)
unfolding is_index
no_sharing slots ms c i reached at =
    let h = subst IsSafe reached (run-IsSafe ms (new_channel slots) (new_channel-IsSafe slots)) in
    let (free, idle) = writing-apart c i h at in
    (
      free,
      (λ e. absurd (ground (arith, e, h.consuming, free))),
      (λ e. absurd (ground (arith, e, h.consuming, free))),
      (λ e. absurd (ground (arith, e, h.consuming, idle))),
      (λ e. absurd (ground (arith, e, h.consuming, idle))),
    )

-- In every run of a channel with at least three buffers, a producer that has done its two loads gets a
-- buffer, and this one is empty.
pub never_exhausted :
    (more : ℕ) (ms : List Move) (c : PublicationChannel) (p u : Option ℕ)
    → (run ms (new_channel (suc (suc (suc more))))).0 ≡ c
    → c.producer ≡ seen_both p u
    → (k : ℕ) × ((step claim_slot c).0.producer ≡ writing k)
      × ((step claim_slot c).0.buffers k ≡ [])
unfolding step is_producers produce claim set_buffer new_channel
never_exhausted more ms c p u reached at =
    let slots : c.slots ≡ suc (suc (suc more)) =
      ap (λ (x : PublicationChannel). x.slots) (sym reached)
      ∙ slots-run ms (new_channel (suc (suc (suc more)))) in
    let (k, found) = three_slots p u more in
    (k, ground (arith, at, slots, found), ground (arith, at, slots, found))
