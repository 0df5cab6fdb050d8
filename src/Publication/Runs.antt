-- ===== src/Publication/Runs.antt =====
-- A channel of three buffers in the middle of a hand-over, and the theorems at it.
use apptraverse.Prelude.{ℕ, ◌≡◌, refl, false, some, List, [], ◌∷◌, ◌++◌, nat_eq}
use apptraverse.Publication.{
  writing, loaded, marked, reading, copied, PublicationChannel, Move, load_published, load_in_ui,
  claim_slot, write, publish, note_published, load_taken, mark_in_ui, clear_published, copy_bytes,
  sent, received, silent, is_index, free_slot, set_buffer, claim, publish_producer, produce, take,
  mark, clear, consume, is_producers, step, run, new_channel,
}
use apptraverse.Publication.Safety.{no_sharing, never_exhausted}
use apptraverse.Publication.Mailbox.{queue_run, on_the_way, sent_of, received_of, channel-refines}

abbrev one_snapshot : List Move
one_snapshot =
    load_published ∷ load_in_ui ∷ claim_slot ∷ write (1 ∷ []) ∷ publish ∷ note_published ∷ []

-- The consumer takes the first snapshot while the producer gets its next buffer.
abbrev overlapping : List Move
overlapping =
    one_snapshot ++ load_taken ∷ load_published ∷ mark_in_ui ∷ load_in_ui ∷ clear_published ∷ []

abbrev half_way : PublicationChannel
unfolding run
half_way = (run overlapping (new_channel 3)).0

abbrev second_write : List Move
second_write = overlapping ++ claim_slot ∷ write (2 ∷ []) ∷ []

abbrev both_busy : PublicationChannel
unfolding run
both_busy = (run second_write (new_channel 3)).0

second_is_published :
    (run (second_write ++ copy_bytes ∷ publish ∷ []) (new_channel 3)).1
    ≡ silent
      ∷ silent
      ∷ silent
      ∷ silent
      ∷ sent (1 ∷ [])
      ∷ silent
      ∷ silent
      ∷ silent
      ∷ silent
      ∷ silent
      ∷ silent
      ∷ silent
      ∷ silent
      ∷ received (1 ∷ [])
      ∷ sent (2 ∷ [])
      ∷ []
unfolding run step is_producers produce take mark clear consume claim free_slot is_index set_buffer
    publish_producer new_channel
second_is_published = refl

no_sharing_example :
    (is_index 1 both_busy.published ≡ false)
    × ¬ (both_busy.consumer ≡ loaded 1)
    × ¬ (both_busy.consumer ≡ marked 1)
    × ¬ (both_busy.consumer ≡ reading 1)
    × ¬ (both_busy.consumer ≡ copied 1)
unfolding run step is_producers produce take mark clear consume claim free_slot is_index
    publish_producer new_channel
no_sharing_example = no_sharing 3 second_write both_busy 1 refl refl

never_exhausted_example :
    (k : ℕ) × ((step claim_slot half_way).0.producer ≡ writing k)
    × ((step claim_slot half_way).0.buffers k ≡ [])
unfolding run step is_producers produce take mark clear consume claim free_slot is_index
    publish_producer new_channel
never_exhausted_example = never_exhausted 0 overlapping half_way (some 0) (some 0) refl refl

channel-refines_example :
    let (c, signals) = run second_write (new_channel 3) in
    (queue_run signals [] ≡ some (on_the_way c))
    × (sent_of signals ≡ received_of signals ++ on_the_way c)
channel-refines_example = channel-refines 3 second_write
