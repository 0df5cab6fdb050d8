-- ===== src/Lifecycle/Runs.antt =====
-- The lifecycle nodes of an application that ran before, and the theorems at them.
use apptraverse.Prelude.{◌-◌, ◌^◌, ◌≡◌, refl, inr, arith, true, false, none, some, [], ◌∷◌, nat_eq}
use apptraverse.Journal.{Target, Node, applied}
use apptraverse.Journal.Commit.{IsLive}
use apptraverse.Lifecycle.{
  initializing, available, registered, Lifecycle, application, network, registration, current_uid,
  begin_runtime_session,
}
use apptraverse.Lifecycle.Session.{begin_runtime_session_lem}

abbrev live_node : {S E : Type 0} → S → Node S E
live_node fields = record {
  fields = fields;
  base = some fields;
  journal = [];
  attached = true;
  generation = 1;
  applied_journal_size = applied 0;
  policy = record { max_events = none; max_age = none };
  compaction_blocked = false;
  suppress_materialized_change = false;
  has_notifier = false;
  notified = 0;
}

live_node-IsLive : {S E : Type 0} (t : Target S E) (fields : S) → IsLive t (live_node fields)
live_node-IsLive t fields = record {
  attached = refl;
  based = refl;
  counted = inr refl;
  sorted = tt;
  room = tt;
}

-- The last run there could be, registered and on line.
abbrev before : Lifecycle
before = record {
  runtime = live_node (record { run_id = 2 ^ 64 - 1 });
  network_node = live_node (record { run_id = 2 ^ 64 - 1; availability = available });
  aether = live_node (record {
    run_id = 2 ^ 64 - 1;
    registered_run_id = 2 ^ 64 - 1;
    phase = registered;
    uid = 117 ∷ [];
  });
}

begin_runtime_session_lem_example :
    let out = begin_runtime_session 100 before in
    let run = out.runtime.fields.run_id in
    ¬ (run ≡ 0)
    × ¬ (run ≡ 2 ^ 64 - 1)
    × (out.network_node.fields ≡ record { run_id = run; availability = initializing })
    × (out.aether.fields.run_id ≡ run)
    × (current_uid out.aether.fields ≡ [])
begin_runtime_session_lem_example =
    begin_runtime_session_lem 100 before
      (live_node-IsLive application (record { run_id = 2 ^ 64 - 1 }))
      (live_node-IsLive network (record { run_id = 2 ^ 64 - 1; availability = available }))
      (live_node-IsLive registration before.aether.fields) (omega arith) (omega arith)
