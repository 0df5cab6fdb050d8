-- ===== src/Lifecycle.antt =====
-- The lifecycle nodes of include/apptraverse/runtime_lifecycle.h and src/runtime_lifecycle.cpp: the run of the
-- application, the network as it observes it, and its registration.
pub mod Session
mod Runs
use apptraverse.Prelude.{
  ℕ, ◌+◌, ◌%◌, ◌^◌, Bool, true, false, ◌&&◌, ◌||◌, not, List, [], ◌∷◌, if◌then◌else◌, length, Bytes,
  Eq, ◌==◌, nat_eq, bytes_eq,
}
use apptraverse.Journal.{Target, Node, commit}

pub data NetworkAvailability : Type 0 where
  initializing interface_unavailable internet_unavailable available : NetworkAvailability

unfoldable pub availability_code : NetworkAvailability → ℕ
availability_code initializing = 0
availability_code interface_unavailable = 1
availability_code internet_unavailable = 2
availability_code available = 3

pub data AetherRegistrationPhase : Type 0 where
  registering registered : AetherRegistrationPhase

unfoldable pub is_registered : AetherRegistrationPhase → Bool
is_registered registering = false
is_registered registered = true

unfoldable pub network_is_outage : NetworkAvailability → Bool
network_is_outage interface_unavailable = true
network_is_outage internet_unavailable = true
network_is_outage _ = false

-- `ApplicationRuntimeState` has the run only, and `ApplicationStartedEvent` too.
pub record ApplicationRuntimeState : Type 0 where
  pub run_id : ℕ

pub record NetworkState : Type 0 where
  pub run_id : ℕ
  pub availability : NetworkAvailability

pub record AetherRegistrationState : Type 0 where
  pub run_id : ℕ
  pub registered_run_id : ℕ
  pub phase : AetherRegistrationPhase
  pub uid : Bytes

pub data ApplicationEvent : Type 0 where
  application_started : ℕ → ApplicationEvent

-- The four events of the network state, by the availability that they report.
pub data NetworkEvent : Type 0 where
  network_observed : NetworkAvailability → ℕ → NetworkEvent

pub data RegistrationEvent : Type 0 where
  registration_started : ℕ → RegistrationEvent
  registration_completed : ℕ → Bytes → RegistrationEvent

unfoldable pub is_registered_for_current_run : AetherRegistrationState → Bool
is_registered_for_current_run s =
    is_registered s.phase && (s.registered_run_id == s.run_id) && not (length s.uid == 0)

unfoldable pub current_uid : AetherRegistrationState → Bytes
current_uid s = if is_registered_for_current_run s then s.uid else []

unfoldable pub can_apply_application : ApplicationEvent → ApplicationRuntimeState → Bool
can_apply_application (application_started run) s = not (run == 0) && not (run == s.run_id)

unfoldable pub apply_application :
    ApplicationEvent → ApplicationRuntimeState → ApplicationRuntimeState
apply_application (application_started run) s = record s { run_id = run }

unfoldable pub can_apply_network : NetworkEvent → NetworkState → Bool
can_apply_network (network_observed initializing run) s =
    not (run == 0) && (not (run == s.run_id) || not (availability_code s.availability == 0))
can_apply_network (network_observed reported run) s =
    not (run == 0)
    && (run == s.run_id)
    && not (availability_code s.availability == availability_code reported)

unfoldable pub apply_network : NetworkEvent → NetworkState → NetworkState
apply_network (network_observed initializing run) s = record {
  run_id = run;
  availability = initializing;
}
apply_network (network_observed reported run) s = record s { availability = reported }

unfoldable pub can_apply_registration : RegistrationEvent → AetherRegistrationState → Bool
can_apply_registration (registration_started run) s =
    not (run == 0) && (not (run == s.run_id) || is_registered s.phase)
can_apply_registration (registration_completed run uid) s =
    not (length uid == 0)
    && not (not (s.run_id == 0) && not (run == 0) && not (run == s.run_id))
    && (not (is_registered_for_current_run s) || not (s.uid == uid))

unfoldable pub apply_registration :
    RegistrationEvent → AetherRegistrationState → AetherRegistrationState
apply_registration (registration_started run) s = record s { run_id = run; phase = registering }
apply_registration (registration_completed run uid) s = record {
  run_id = if s.run_id == 0 then run else s.run_id;
  registered_run_id = run;
  phase = registered;
  uid = uid;
}

abbrev pub application : Target ApplicationRuntimeState ApplicationEvent
application = record {
  can_apply = can_apply_application;
  apply = apply_application;
  carry = λ live base. base;
  reload = λ s. s;
}

abbrev pub network : Target NetworkState NetworkEvent
network = record {
  can_apply = can_apply_network;
  apply = apply_network;
  carry = λ live base. base;
  reload = λ s. s;
}

abbrev pub registration : Target AetherRegistrationState RegistrationEvent
registration = record {
  can_apply = can_apply_registration;
  apply = apply_registration;
  carry = λ live base. base;
  reload = λ s. s;
}

-- The shape of the commit functions: an event that cannot apply is not committed.
unfoldable pub commit_if : {S E : Type 0} → Target S E → ℕ → E → Node S E → Node S E × Bool
commit_if t now_us e n =
    if t.can_apply e n.fields then ((commit t now_us n e).0, true) else (n, false)

unfoldable pub commit_application_started :
    ℕ
    → ℕ
    → Node ApplicationRuntimeState ApplicationEvent
    → Node ApplicationRuntimeState ApplicationEvent × Bool
commit_application_started now_us run n = commit_if application now_us (application_started run) n

-- `CommitNetworkInitializing`, `CommitNetworkInterfaceUnavailable`, `CommitInternetUnavailable` and
-- `CommitNetworkAvailable`.
unfoldable pub commit_network :
    ℕ
    → NetworkAvailability
    → ℕ
    → Node NetworkState NetworkEvent
    → Node NetworkState NetworkEvent × Bool
commit_network now_us reported run n = commit_if network now_us (network_observed reported run) n

unfoldable pub commit_registration_started :
    ℕ
    → ℕ
    → Node AetherRegistrationState RegistrationEvent
    → Node AetherRegistrationState RegistrationEvent × Bool
commit_registration_started now_us run n =
    commit_if registration now_us (registration_started run) n

unfoldable pub commit_registration_completed :
    ℕ
    → Bytes
    → Node AetherRegistrationState RegistrationEvent
    → Node AetherRegistrationState RegistrationEvent × Bool
commit_registration_completed now_us uid n =
    if length uid == 0
    then (n, false)
    else commit_if registration now_us (registration_completed n.fields.run_id uid) n

-- The three nodes of `BeginRuntimeSession`.
pub record Lifecycle : Type 0 where
  pub runtime : Node ApplicationRuntimeState ApplicationEvent
  pub network_node : Node NetworkState NetworkEvent
  pub aether : Node AetherRegistrationState RegistrationEvent

-- The next run id wraps, and passes over 0.
unfoldable pub next_run : ℕ → ℕ
next_run run_id = if (run_id + 1) % 2 ^ 64 == 0 then 1 else (run_id + 1) % 2 ^ 64

unfoldable pub begin_runtime_session : ℕ → Lifecycle → Lifecycle
begin_runtime_session now_us l =
    let run = next_run l.runtime.fields.run_id in
    record {
      runtime = (commit_application_started now_us run l.runtime).0;
      network_node = (commit_network now_us initializing run l.network_node).0;
      aether = (commit_registration_started now_us run l.aether).0;
    }
