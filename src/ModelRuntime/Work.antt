-- ===== src/ModelRuntime/Work.antt =====
-- The work queue of `ModelRuntime`: Post, RequestStop, DrainWork and ThreadMain of src/model_runtime.cpp. The
-- threads are interleaved as moves, one for each critical section; a piece of work is a number, and what it
-- posts itself is a further move.
pub mod Closing
pub mod Ends
pub mod Stopping
use apptraverse.Prelude.{
  ℕ, ◌≡◌, ◌+◌, Bool, true, false, not, ◌||◌, Option, none, some, List, [], ◌∷◌, ◌++◌, if◌then◌else◌,
  length,
}

-- Where the model thread stands in ThreadMain.
pub data ThreadAt : Type 0 where
  not_started checking draining updating waiting last_draining joined : ThreadAt

pub record WorkQueue : Type 0 where
  pub accept_work : Bool
  pub stop : Bool
  pub work : List ℕ
  pub thread : ThreadAt

-- The model thread goes on, where its next update is due or not; `pump` is DrainWork within PumpOnce.
pub data WorkMove : Type 0 where
  start request_stop pump : WorkMove
  post : ℕ → WorkMove
  thread_main : Bool → WorkMove

pub data WorkSignal : Type 0 where
  quiet : WorkSignal
  accepted rejected ran : ℕ → WorkSignal

unfoldable pub start_thread : ThreadAt → WorkQueue → WorkQueue
start_thread not_started q = record q { stop = false; accept_work = true; thread = checking }
start_thread joined q = record q { stop = false; accept_work = true; thread = checking }
start_thread _ q = q

unfoldable pub post_work : ℕ → WorkQueue → WorkQueue × WorkSignal
post_work w q =
    if q.accept_work then (record q { work = q.work ++ w ∷ [] }, accepted w) else (q, rejected w)

-- DrainWork takes the first work out and runs it, and goes on to `next` where there is none.
unfoldable pub drain_work : ThreadAt → List ℕ → WorkQueue → WorkQueue × WorkSignal
drain_work next [] q = (record q { thread = next }, quiet)
drain_work next (w ∷ work) q = (record q { work = work }, ran w)

abbrev pub is_empty : List ℕ → Bool
is_empty [] = true
is_empty (w ∷ work) = false

unfoldable pub go_on : Bool → ThreadAt → WorkQueue → WorkQueue × WorkSignal
go_on due not_started q = (q, quiet)
go_on due checking q = (record q { thread = if q.stop then last_draining else draining }, quiet)
go_on due draining q = drain_work updating q.work q
go_on due updating q = (record q { thread = waiting }, quiet)
go_on due waiting q = (
  record q { thread = if q.stop || (not (is_empty q.work) || due) then checking else waiting },
  quiet,
)
go_on due last_draining q = drain_work joined q.work q
go_on due joined q = (q, quiet)

unfoldable pub work_step : WorkMove → WorkQueue → WorkQueue × WorkSignal
work_step start q = (start_thread q.thread q, quiet)
work_step request_stop q = (record q { accept_work = false; stop = true }, quiet)
work_step pump q = drain_work q.thread q.work q
work_step (post w) q = post_work w q
work_step (thread_main due) q = go_on due q.thread q

unfoldable pub work_run : List WorkMove → WorkQueue → WorkQueue × List WorkSignal
work_run [] q = (q, [])
work_run (move ∷ moves) q =
    let stepped = work_step move q in
    let further = work_run moves stepped.0 in (further.0, stepped.1 ∷ further.1)

abbrev pub new_queue : WorkQueue
new_queue = record { accept_work = true; stop = false; work = []; thread = not_started }
