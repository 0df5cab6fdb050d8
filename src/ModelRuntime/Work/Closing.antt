-- ===== src/ModelRuntime/Work/Closing.antt =====
-- A runtime that is asked to stop takes no more work, and its thread comes nearer to its end.
use apptraverse.Prelude.{
  ℕ, ◌≡◌, refl, sym, ap, subst, inl, inr, Bool, true, false, not, ◌&&◌, ◌||◌, List, [], ◌∷◌, arith,
  if◌then◌else◌, if_true, if_false, Bool-cases,
}
use apptraverse.ModelRuntime.Work.{
  ThreadAt, not_started, checking, draining, updating, waiting, last_draining, joined, WorkQueue,
  WorkMove, start, request_stop, pump, post, thread_main, WorkSignal, start_thread, post_work,
  drain_work, is_empty, go_on, work_step, work_run,
}

abbrev pub is_ending : ThreadAt → Bool
is_ending last_draining = true
is_ending joined = true
is_ending _ = false

abbrev pub is_joined : ThreadAt → Bool
is_joined joined = true
is_joined _ = false

joined-is_ending : (at : ThreadAt) → is_joined at ≡ true → is_ending at ≡ true
joined-is_ending joined h = refl
joined-is_ending last_draining h = refl
joined-is_ending not_started h = h
joined-is_ending checking h = h
joined-is_ending draining h = h
joined-is_ending updating h = h
joined-is_ending waiting h = h

-- No work is accepted once the thread is to stop, and a thread that has ended left none.
abbrev pub IsClosing : WorkQueue → Type 0
IsClosing q =
    ((q.accept_work && (q.stop || is_ending q.thread)) ≡ false)
    × ((is_joined q.thread && not (is_empty q.work)) ≡ false)

start_thread-IsClosing :
    (at : ThreadAt) (q : WorkQueue) → IsClosing q → IsClosing (start_thread at q)
unfolding start_thread
start_thread-IsClosing not_started q h = (ground arith, refl)
start_thread-IsClosing checking q h = h
start_thread-IsClosing draining q h = h
start_thread-IsClosing updating q h = h
start_thread-IsClosing waiting q h = h
start_thread-IsClosing last_draining q h = h
start_thread-IsClosing joined q h = (ground arith, refl)

drain_work-IsClosing :
    (next : ThreadAt) (work : List ℕ) (q : WorkQueue)
    → (q.accept_work && (q.stop || is_ending q.thread)) ≡ false
    → (q.accept_work && is_ending next) ≡ false
    → is_joined q.thread ≡ false
    → IsClosing (drain_work next work (record q { work = work })).0
unfolding drain_work
drain_work-IsClosing next [] q h ends busy = (ground (arith, h, ends), ground arith)
drain_work-IsClosing next (w ∷ work) q h ends busy = (h, ground (arith, busy))

go_on-IsClosing :
    (due : Bool) (at : ThreadAt) (q : WorkQueue)
    → q.thread ≡ at
    → IsClosing q
    → IsClosing (go_on due at q).0
unfolding go_on
go_on-IsClosing due not_started q here h = h
go_on-IsClosing due checking q here h = elim (Bool-cases q.stop) [
  | inl stops ↦
      let next = ap (λ (b : Bool). if b then last_draining else draining) stops in
      (ground (arith, h.0, stops, ap is_ending next), ground (arith, ap is_joined next))
  | inr goes ↦
      let next = ap (λ (b : Bool). if b then last_draining else draining) goes in
      (ground (arith, h.0, goes, ap is_ending next), ground (arith, ap is_joined next))
]
go_on-IsClosing due draining q here h =
    drain_work-IsClosing updating q.work q h.0 (ground arith) (ap is_joined here)
go_on-IsClosing due updating q here h = (ground (arith, h.0), refl)
go_on-IsClosing due waiting q here h =
    elim (Bool-cases (q.stop || (not (is_empty q.work) || due))) [
      | inl goes ↦
          let next = ap (λ (b : Bool). if b then checking else waiting) goes in
          (ground (arith, h.0, ap is_ending next), ground (arith, ap is_joined next))
      | inr stays ↦
          let next = ap (λ (b : Bool). if b then checking else waiting) stays in
          (ground (arith, h.0, ap is_ending next), ground (arith, ap is_joined next))
    ]
go_on-IsClosing due last_draining q here h =
    drain_work-IsClosing joined q.work q h.0 (ground (arith, h.0, ap is_ending here))
      (ap is_joined here)
go_on-IsClosing due joined q here h = h

pump-IsClosing :
    (work : List ℕ) (q : WorkQueue)
    → q.work ≡ work
    → IsClosing q
    → IsClosing (drain_work q.thread work q).0
unfolding drain_work
pump-IsClosing [] q same h = h
pump-IsClosing (w ∷ work) q same h = (h.0, ground (arith, h.1, ap is_empty same))

work_step-IsClosing :
    (move : WorkMove) (q : WorkQueue) → IsClosing q → IsClosing (work_step move q).0
unfolding work_step post_work
work_step-IsClosing start q h = start_thread-IsClosing q.thread q h
work_step-IsClosing request_stop q h = (refl, h.1)
work_step-IsClosing pump q h = pump-IsClosing q.work q refl h
work_step-IsClosing (post w) q h = elim (Bool-cases q.accept_work) [
  | inl opened ↦
      subst (λ (r : WorkQueue × WorkSignal). IsClosing r.0) (sym (if_true _ _ opened))
        (h.0, ground (arith, h.0, opened, joined-is_ending q.thread))
  | inr closed ↦ subst (λ (r : WorkQueue × WorkSignal). IsClosing r.0) (sym (if_false _ _ closed)) h
]
work_step-IsClosing (thread_main due) q h = go_on-IsClosing due q.thread q refl h

pub work_run-IsClosing :
    (moves : List WorkMove) (q : WorkQueue) → IsClosing q → IsClosing (work_run moves q).0
unfolding work_run
work_run-IsClosing [] q h = h
work_run-IsClosing (move ∷ moves) q h =
    work_run-IsClosing moves (work_step move q).0 (work_step-IsClosing move q h)
