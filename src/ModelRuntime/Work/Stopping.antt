-- ===== src/ModelRuntime/Work/Stopping.antt =====
-- The thread of a runtime that is to stop comes to its end, whatever is posted meanwhile.
use apptraverse.Prelude.{
  ℕ, ◌≡◌, ◌≤◌, ◌+◌, ◌-◌, suc, refl, sym, ap, ◌∙◌, subst, Bool, true, false, not, ◌||◌, List, [],
  ◌∷◌, arith, if◌then◌else◌, if_false, length,
}
use apptraverse.ModelRuntime.Work.{
  ThreadAt, not_started, checking, draining, updating, waiting, last_draining, joined, WorkQueue,
  WorkMove, start, request_stop, pump, post, thread_main, WorkSignal, post_work, drain_work,
  is_empty, go_on, work_step, work_run,
}

abbrev pub is_started : ThreadAt → Bool
is_started not_started = false
is_started _ = true

abbrev pub is_start : WorkMove → Bool
is_start start = true
is_start _ = false

abbrev pub restarts : List WorkMove → Bool
restarts [] = false
restarts (move ∷ moves) = is_start move || restarts moves

abbrev pub ticks : WorkMove → ℕ
ticks (thread_main due) = 1
ticks _ = 0

-- How often the model thread goes on.
abbrev pub thread_moves : List WorkMove → ℕ
thread_moves [] = 0
thread_moves (move ∷ moves) = ticks move + thread_moves moves

-- How many moves the thread is from its end, once it is to stop.
abbrev pub distance_at : ThreadAt → ℕ → ℕ
distance_at joined n = 0
distance_at last_draining n = n + 1
distance_at checking n = n + 2
distance_at waiting n = n + 3
distance_at updating n = n + 4
distance_at draining n = n + 5
distance_at not_started n = n + 6

abbrev pub distance : WorkQueue → ℕ
distance q = distance_at q.thread (length q.work)

pub distance_bound : (at : ThreadAt) (n : ℕ) → is_started at ≡ true → distance_at at n ≤ n + 5
distance_bound not_started n h = ground arith
distance_bound checking n h = omega arith
distance_bound draining n h = omega arith
distance_bound updating n h = omega arith
distance_bound waiting n h = omega arith
distance_bound last_draining n h = omega arith
distance_bound joined n h = omega arith

distance_mono : (at : ThreadAt) (n : ℕ) → distance_at at n ≤ distance_at at (suc n)
distance_mono not_started n = omega arith
distance_mono checking n = omega arith
distance_mono draining n = omega arith
distance_mono updating n = omega arith
distance_mono waiting n = omega arith
distance_mono last_draining n = omega arith
distance_mono joined n = omega arith

pub joined_of_distance : (at : ThreadAt) (n : ℕ) → distance_at at n ≤ 0 → at ≡ joined
joined_of_distance joined n h = refl
joined_of_distance not_started n h = absurd (omega arith)
joined_of_distance checking n h = absurd (omega arith)
joined_of_distance draining n h = absurd (omega arith)
joined_of_distance updating n h = absurd (omega arith)
joined_of_distance waiting n h = absurd (omega arith)
joined_of_distance last_draining n h = absurd (omega arith)

abbrev pub IsStopping : WorkQueue → Type 0
IsStopping q = (q.stop ≡ true) × ((q.accept_work ≡ false) × (is_started q.thread ≡ true))

-- The thread has come nearer by so many moves.
abbrev pub IsNearer : ℕ → WorkQueue → WorkQueue → Type 0
IsNearer by q after = IsStopping after × (distance after ≤ distance q - by)

distance_where :
    (at : ThreadAt) (q : WorkQueue) → q.thread ≡ at → distance q ≡ distance_at at (length q.work)
distance_where at q here = ap (λ (a : ThreadAt). distance_at a (length q.work)) here

drained :
    (at : ThreadAt) (w : ℕ) (work : List ℕ) (q : WorkQueue)
    → q.thread ≡ at
    → q.work ≡ w ∷ work
    → ((n : ℕ) → distance_at at (suc n) ≡ suc (distance_at at n))
    → distance_at q.thread (length work) ≤ distance q - 1
drained at w work q here same linear =
    let after : distance_at q.thread (length work) ≡ distance_at at (length work) =
      ap (λ (a : ThreadAt). distance_at a (length work)) here in
    let before : distance q ≡ suc (distance_at at (length work)) =
      distance_where at q here
      ∙ ap (λ (ws : List ℕ). distance_at at (length ws)) same
      ∙ linear (length work) in
    omega (arith, after, before)

pumped :
    (w : ℕ) (work : List ℕ) (q : WorkQueue)
    → q.work ≡ w ∷ work
    → distance_at q.thread (length work) ≤ distance q - 0
pumped w work q same =
    let before : distance q ≡ distance_at q.thread (suc (length work)) =
      ap (λ (ws : List ℕ). distance_at q.thread (length ws)) same in
    omega (arith, before, distance_mono q.thread (length work))

drain_work-IsNearer :
    (at next : ThreadAt) (work : List ℕ) (q : WorkQueue)
    → q.thread ≡ at
    → q.work ≡ work
    → is_started next ≡ true
    → distance_at next 0 ≤ distance_at at 0 - 1
    → ((n : ℕ) → distance_at at (suc n) ≡ suc (distance_at at n))
    → IsStopping q
    → IsNearer 1 q (drain_work next work q).0
unfolding drain_work
drain_work-IsNearer at next [] q here same started near linear h = (
  (h.0, (h.1.0, started)),
  omega (
    arith,
    near,
    distance_where at q here,
    ap (λ (ws : List ℕ). distance_at next (length ws)) same,
    ap (λ (ws : List ℕ). distance_at at (length ws)) same,
  ),
)
drain_work-IsNearer at next (w ∷ work) q here same started near linear h =
    (h, drained at w work q here same linear)

go_on-IsNearer :
    (due : Bool) (at : ThreadAt) (q : WorkQueue)
    → q.thread ≡ at
    → IsStopping q
    → IsNearer 1 q (go_on due at q).0
unfolding go_on
go_on-IsNearer due not_started q here h = absurd (ground (arith, ap is_started here, h.1.1))
go_on-IsNearer due checking q here h =
    let next = ap (λ (b : Bool). if b then last_draining else draining) h.0 in
    (
      (h.0, (h.1.0, ap is_started next)),
      omega (
        arith,
        distance_where checking q here,
        ap (λ (a : ThreadAt). distance_at a (length q.work)) next,
      ),
    )
go_on-IsNearer due draining q here h =
    drain_work-IsNearer draining updating q.work q here refl refl (omega arith) (λ n. omega arith) h
go_on-IsNearer due updating q here h =
    ((h.0, (h.1.0, refl)), omega (arith, distance_where updating q here))
go_on-IsNearer due waiting q here h =
    let next =
      ap (λ (b : Bool). if b || (not (is_empty q.work) || due) then checking else waiting) h.0 in
    (
      (h.0, (h.1.0, ap is_started next)),
      omega (
        arith,
        distance_where waiting q here,
        ap (λ (a : ThreadAt). distance_at a (length q.work)) next,
      ),
    )
go_on-IsNearer due last_draining q here h =
    drain_work-IsNearer last_draining joined q.work q here refl refl (omega arith)
      (λ n. omega arith) h
go_on-IsNearer due joined q here h = (h, omega (arith, distance_where joined q here))

pump-IsNearer :
    (work : List ℕ) (q : WorkQueue)
    → q.work ≡ work
    → IsStopping q
    → IsNearer 0 q (drain_work q.thread work q).0
unfolding drain_work
pump-IsNearer [] q same h = (h, omega arith)
pump-IsNearer (w ∷ work) q same h = (h, pumped w work q same)

work_step-IsNearer :
    (move : WorkMove) (q : WorkQueue)
    → is_start move ≡ false
    → IsStopping q
    → IsNearer (ticks move) q (work_step move q).0
unfolding work_step post_work
work_step-IsNearer start q plain h = absurd (ground (arith, plain))
work_step-IsNearer request_stop q plain h = ((refl, (refl, h.1.1)), omega arith)
work_step-IsNearer pump q plain h = pump-IsNearer q.work q refl h
work_step-IsNearer (post w) q plain h =
    subst (λ (r : WorkQueue × WorkSignal). IsNearer 0 q r.0) (sym (if_false _ _ h.1.0))
      (h, omega arith)
work_step-IsNearer (thread_main due) q plain h = go_on-IsNearer due q.thread q refl h

pub work_run-IsNearer :
    (moves : List WorkMove) (q : WorkQueue)
    → restarts moves ≡ false
    → IsStopping q
    → IsNearer (thread_moves moves) q (work_run moves q).0
unfolding work_run
work_run-IsNearer [] q plain h = (h, omega arith)
work_run-IsNearer (move ∷ moves) q plain h =
    let one = work_step-IsNearer move q (ground (arith, plain)) h in
    let more = work_run-IsNearer moves (work_step move q).0 (ground (arith, plain)) one.0 in
    (more.0, omega (arith, one.1, more.1))
