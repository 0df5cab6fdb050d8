-- ===== src/ModelRuntime/Runs.antt =====
-- A runtime with two presentation roots, and one that is stopped with work queued.
use apptraverse.Prelude.{
  ℕ, if◌then◌else◌, ◌==◌, ◌≡◌, refl, true, false, some, List, [], ◌∷◌, contains, nat_eq, length,
  arith, ◌≤◌, ◌+◌,
}
use apptraverse.Prelude.Assoc.{lookup, insert}
use apptraverse.ModelRuntime.{
  ModelRuntime, roots_in, add, without, attach_node, drop_pending, unmap, detach_node, add_pending,
  add_all_pending, on_materialized_change, publish_changed, ModelCall, attaches, changes, publishes,
  perform, perform_all, new_runtime,
}
use apptraverse.ModelRuntime.Pending.{IsPublishable}
use apptraverse.ModelRuntime.Detach.{IsDetached, detach_node_lem}
use apptraverse.ModelRuntime.Work.{
  WorkMove, start, post, thread_main, joined, new_queue, work_run, work_step, start_thread,
  post_work, drain_work, go_on,
}
use apptraverse.ModelRuntime.Work.Stopping.{is_started, thread_moves}
use apptraverse.ModelRuntime.Work.Ends.{accepted_in, ran_in, stopped, accepted_work_runs}

-- A node at two roots has changed; one root has taken the change.
abbrev two_roots : List ModelCall
two_roots =
    attaches 5 100
    ∷ attaches 5 200
    ∷ changes 5
    ∷ publishes (λ root changed. contains (100 ∷ []) root)
    ∷ []

abbrev at_two_roots : ModelRuntime
at_two_roots = record {
  model_nodes = 5 ∷ [];
  object_to_roots = (5, 100 ∷ 200 ∷ []) ∷ [];
  pending_by_root = (200, 5 ∷ []) ∷ [];
  notified = 5 ∷ [];
  initialized = 5 ∷ [];
}

two_roots_run : perform_all two_roots (new_runtime []) ≡ some at_two_roots
unfolding perform_all perform attach_node on_materialized_change add insert publish_changed contains
    add_all_pending roots_in lookup add_pending
two_roots_run = refl

abbrev at_one_root : ModelRuntime
at_one_root = record {
  model_nodes = 5 ∷ [];
  object_to_roots = (5, 100 ∷ []) ∷ [];
  pending_by_root = [];
  notified = 5 ∷ [];
  initialized = 5 ∷ [];
}

detach_at_two_roots : detach_node 5 200 at_two_roots ≡ some at_one_root
unfolding detach_node lookup unmap without insert drop_pending
detach_at_two_roots = refl

detach_node_lem_example :
    ((q : ℕ)
      → contains (roots_in at_one_root.object_to_roots 5) q
        ≡ (if 200 == q then false else contains (roots_in at_two_roots.object_to_roots 5) q))
    × (IsPublishable at_one_root × IsDetached 5 at_two_roots at_one_root)
detach_node_lem_example =
    detach_node_lem [] two_roots 5 200 at_two_roots at_one_root two_roots_run detach_at_two_roots

-- Two pieces of work are queued before the thread starts, one comes while it drains, and one too late.
abbrev queued : List WorkMove
queued = post 1 ∷ post 2 ∷ start ∷ thread_main false ∷ thread_main false ∷ post 3 ∷ []

abbrev ending : List WorkMove
ending =
    post 4
    ∷ thread_main false
    ∷ thread_main false
    ∷ thread_main false
    ∷ thread_main false
    ∷ thread_main false
    ∷ thread_main false
    ∷ thread_main false
    ∷ []

queued_started : is_started (work_run queued new_queue).0.thread ≡ true
unfolding work_run work_step post_work go_on start_thread drain_work
queued_started = refl

queued_enough : length (work_run queued new_queue).0.work + 5 ≤ thread_moves ending
unfolding work_run work_step start_thread post_work drain_work go_on
queued_enough = ground arith

ran_in_order : ran_in (stopped queued ending).1 ≡ 1 ∷ 2 ∷ 3 ∷ []
unfolding work_run work_step start_thread post_work drain_work go_on
ran_in_order = refl

accepted_work_runs_example :
    ((stopped queued ending).0.thread ≡ joined)
    × (accepted_in (stopped queued ending).1 ≡ ran_in (stopped queued ending).1)
accepted_work_runs_example = accepted_work_runs queued ending refl queued_started queued_enough
