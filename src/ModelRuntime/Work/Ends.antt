-- ===== src/ModelRuntime/Work/Ends.antt =====
-- Accepted work is run, in order, before the model thread ends; and it ends when it is asked to.
use apptraverse.Prelude.{
  ℕ, ◌≡◌, ◌≤◌, ◌+◌, refl, sym, ap, ◌∙◌, subst, inl, inr, Bool, true, false, not, List, [], ◌∷◌,
  ◌++◌, append_assoc, append-nil, arith, if_true, if_false, Bool-cases, length,
}
use apptraverse.ModelRuntime.Work.{
  ThreadAt, not_started, checking, draining, updating, waiting, last_draining, joined, WorkQueue,
  WorkMove, start, request_stop, pump, post, thread_main, WorkSignal, accepted, ran, start_thread,
  post_work, drain_work, is_empty, go_on, work_step, work_run, new_queue,
}
use apptraverse.ModelRuntime.Work.Closing.{IsClosing, is_joined, work_run-IsClosing}
use apptraverse.ModelRuntime.Work.Stopping.{
  is_started, restarts, thread_moves, distance, distance_bound, joined_of_distance,
  work_run-IsNearer,
}

-- The work that a signal accepts, and that it reports as run.
abbrev pub accepted_by : WorkSignal → List ℕ
accepted_by (accepted w) = w ∷ []
accepted_by _ = []

abbrev pub run_by : WorkSignal → List ℕ
run_by (ran w) = w ∷ []
run_by _ = []

abbrev pub accepted_in : List WorkSignal → List ℕ
accepted_in [] = []
accepted_in (s ∷ signals) = accepted_by s ++ accepted_in signals

abbrev pub ran_in : List WorkSignal → List ℕ
ran_in [] = []
ran_in (s ∷ signals) = run_by s ++ ran_in signals

-- What has run and what is left is what there was and what was accepted, in order.
abbrev pub IsQueued : WorkQueue → WorkQueue × WorkSignal → Type 0
IsQueued q r = q.work ++ accepted_by r.1 ≡ run_by r.1 ++ r.0.work

drain_work-IsQueued :
    (next : ThreadAt) (work : List ℕ) (q : WorkQueue)
    → q.work ≡ work
    → IsQueued q (drain_work next work q)
unfolding drain_work
drain_work-IsQueued next [] q h = append-nil q.work
drain_work-IsQueued next (w ∷ work) q h = append-nil q.work ∙ h

start_thread-work : (at : ThreadAt) (q : WorkQueue) → (start_thread at q).work ≡ q.work
unfolding start_thread
start_thread-work not_started q = refl
start_thread-work checking q = refl
start_thread-work draining q = refl
start_thread-work updating q = refl
start_thread-work waiting q = refl
start_thread-work last_draining q = refl
start_thread-work joined q = refl

go_on-IsQueued : (due : Bool) (at : ThreadAt) (q : WorkQueue) → IsQueued q (go_on due at q)
unfolding go_on
go_on-IsQueued due not_started q = append-nil q.work
go_on-IsQueued due checking q = append-nil q.work
go_on-IsQueued due draining q = drain_work-IsQueued updating q.work q refl
go_on-IsQueued due updating q = append-nil q.work
go_on-IsQueued due waiting q = append-nil q.work
go_on-IsQueued due last_draining q = drain_work-IsQueued joined q.work q refl
go_on-IsQueued due joined q = append-nil q.work

work_step-IsQueued : (move : WorkMove) (q : WorkQueue) → IsQueued q (work_step move q)
unfolding work_step post_work
work_step-IsQueued start q = append-nil q.work ∙ sym (start_thread-work q.thread q)
work_step-IsQueued request_stop q = append-nil q.work
work_step-IsQueued pump q = drain_work-IsQueued q.thread q.work q refl
work_step-IsQueued (post w) q = elim (Bool-cases q.accept_work) [
  | inl opened ↦ subst (IsQueued q) (sym (if_true _ _ opened)) refl
  | inr closed ↦ subst (IsQueued q) (sym (if_false _ _ closed)) (append-nil q.work)
]
work_step-IsQueued (thread_main due) q = go_on-IsQueued due q.thread q

work_run-accepted :
    (moves : List WorkMove) (q : WorkQueue)
    → q.work ++ accepted_in (work_run moves q).1
      ≡ ran_in (work_run moves q).1 ++ (work_run moves q).0.work
unfolding work_run
work_run-accepted [] q = append-nil q.work
work_run-accepted (move ∷ moves) q =
    let stepped = work_step move q in
    let further = work_run moves stepped.0 in
    sym (append_assoc q.work (accepted_by stepped.1) (accepted_in further.1))
    ∙ ap (λ (ws : List ℕ). ws ++ accepted_in further.1) (work_step-IsQueued move q)
    ∙ append_assoc (run_by stepped.1) stepped.0.work (accepted_in further.1)
    ∙ ap (λ (ws : List ℕ). run_by stepped.1 ++ ws) (work_run-accepted moves stepped.0)
    ∙ sym (append_assoc (run_by stepped.1) (ran_in further.1) further.0.work)

work_run-append :
    (before after : List WorkMove) (q : WorkQueue)
    → (work_run (before ++ after) q).0 ≡ (work_run after (work_run before q).0).0
unfolding work_run
work_run-append [] after q = refl
work_run-append (move ∷ before) after q = work_run-append before after (work_step move q).0

nothing_of_empty : (work : List ℕ) → not (is_empty work) ≡ false → work ≡ []
nothing_of_empty [] h = refl
nothing_of_empty (w ∷ work) h = absurd (ground arith)

no_work_left : (q : WorkQueue) → IsClosing q → q.thread ≡ joined → q.work ≡ []
no_work_left q h here = nothing_of_empty q.work (ground (arith, h.1, ap is_joined here))

-- The queue when it was asked to stop, and went on by the moves.
abbrev pub stopped : List WorkMove → List WorkMove → WorkQueue × List WorkSignal
stopped before after = work_run (before ++ request_stop ∷ after) new_queue

stopped-joined :
    (before after : List WorkMove)
    → restarts after ≡ false
    → is_started (work_run before new_queue).0.thread ≡ true
    → length (work_run before new_queue).0.work + 5 ≤ thread_moves after
    → (stopped before after).0.thread ≡ joined
unfolding work_run work_step
stopped-joined before after plain started enough =
    let there = (work_run before new_queue).0 in
    let asked = (work_step request_stop there).0 in
    let near = work_run-IsNearer after asked plain (refl, (refl, started)) in
    let end = (work_run after asked).0 in
    let bound : distance there ≤ length there.work + 5 =
      distance_bound there.thread (length there.work) started in
    let here : distance end ≤ 0 = omega (arith, near.1, bound, enough) in
    ap (λ (q : WorkQueue). q.thread) (work_run-append before (request_stop ∷ after) new_queue)
    ∙ joined_of_distance end.thread (length end.work) here

-- Once the runtime is asked to stop, and its thread has gone on often enough, the thread has ended, and all
-- the work that was ever accepted has been run, each piece once and in the order of acceptance.
pub accepted_work_runs :
    (before after : List WorkMove)
    → restarts after ≡ false
    → is_started (work_run before new_queue).0.thread ≡ true
    → length (work_run before new_queue).0.work + 5 ≤ thread_moves after
    → ((stopped before after).0.thread ≡ joined)
      × (accepted_in (stopped before after).1 ≡ ran_in (stopped before after).1)
accepted_work_runs before after plain started enough =
    let moves = before ++ request_stop ∷ after in
    let ended = stopped-joined before after plain started enough in
    let empty =
      no_work_left (stopped before after).0 (work_run-IsClosing moves new_queue (refl, refl))
        ended in
    (
      ended,
      work_run-accepted moves new_queue
          ∙ ap (λ (ws : List ℕ). ran_in (stopped before after).1 ++ ws) empty
          ∙ append-nil (ran_in (stopped before after).1),
    )
