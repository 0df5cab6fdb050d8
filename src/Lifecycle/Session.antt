-- ===== src/Lifecycle/Session.antt =====
-- What a session promises: nothing that was observed in an earlier run is shown as current.
use apptraverse.Prelude.{
  ℕ, ◌^◌, ◌<◌, ◌≡◌, refl, sym, ap, ◌∙◌, inl, inr, Bool, false, ◌&&◌, not, [], arith, if◌then◌else◌,
  if_true, if_false, Bool-cases, length, Bytes, ◌==◌, nat_eq, bytes_eq,
}
use apptraverse.Journal.{Target, Node}
use apptraverse.Journal.Commit.{IsLive, fields-commit}
use apptraverse.Lifecycle.{
  NetworkAvailability, initializing, interface_unavailable, internet_unavailable, available,
  availability_code, registering, is_registered, ApplicationRuntimeState, NetworkState,
  AetherRegistrationState, NetworkEvent, RegistrationEvent, application_started, network_observed,
  registration_started, registration_completed, is_registered_for_current_run, current_uid,
  can_apply_application, apply_application, can_apply_network, apply_network,
  can_apply_registration, apply_registration, application, network, registration, commit_if,
  commit_application_started, commit_network, commit_registration_started,
  commit_registration_completed, Lifecycle, next_run, begin_runtime_session,
}

module _ {S E : Type 0} (t : Target S E) where
  pub fields-commit_if :
      (now_us : ℕ) (e : E) (n : Node S E)
      → IsLive t n
      → 0 < now_us
      → (commit_if t now_us e n).0.fields
        ≡ (if t.can_apply e n.fields then t.apply e n.fields else n.fields)
  unfolding commit_if
  fields-commit_if now_us e n live pos = elim (Bool-cases (t.can_apply e n.fields)) [
    | inl can ↦
        ap (λ (o : Node S E × Bool). o.0.fields) (if_true _ _ can)
        ∙ fields-commit t now_us n e live pos can
        ∙ sym (if_true _ _ can)
    | inr cannot ↦
        ap (λ (o : Node S E × Bool). o.0.fields) (if_false _ _ cannot) ∙ sym (if_false _ _ cannot)
  ]

pub next_run-fresh :
    (run_id : ℕ) → run_id < 2 ^ 64 → ¬ (next_run run_id ≡ 0) × ¬ (next_run run_id ≡ run_id)
unfolding next_run
next_run-fresh run_id bound = ground arith

application_after :
    (run : ℕ) (s : ApplicationRuntimeState)
    → ¬ (run ≡ 0)
    → ¬ (run ≡ s.run_id)
    → (if can_apply_application (application_started run) s
        then apply_application (application_started run) s
        else s).run_id
      ≡ run
unfolding can_apply_application apply_application
application_after run s valid new = ground arith

network_after :
    (run : ℕ) (s : NetworkState)
    → ¬ (run ≡ 0)
    → (if can_apply_network (network_observed initializing run) s
        then apply_network (network_observed initializing run) s
        else s)
      ≡ record { run_id = run; availability = initializing }
unfolding can_apply_network apply_network availability_code
network_after run s valid = ground arith

registration_after :
    (run : ℕ) (s : AetherRegistrationState)
    → ¬ (run ≡ 0)
    → (if can_apply_registration (registration_started run) s
        then apply_registration (registration_started run) s
        else s)
      ≡ record s { run_id = run; phase = registering }
unfolding can_apply_registration apply_registration is_registered
registration_after run s valid = ground arith

-- Whatever the three live nodes held, a session that begins at a time that is not 0 gives them one run id,
-- which is not 0 and not that of the run before; the network is initializing again, and
-- no uid is shown as current until this run has registered.
pub begin_runtime_session_lem :
    (now_us : ℕ) (l : Lifecycle)
    → IsLive application l.runtime
    → IsLive network l.network_node
    → IsLive registration l.aether
    → 0 < now_us
    → l.runtime.fields.run_id < 2 ^ 64
    → let out = begin_runtime_session now_us l in
      let run = out.runtime.fields.run_id in
      ¬ (run ≡ 0)
      × ¬ (run ≡ l.runtime.fields.run_id)
      × (out.network_node.fields ≡ record { run_id = run; availability = initializing })
      × (out.aether.fields.run_id ≡ run)
      × (current_uid out.aether.fields ≡ [])
unfolding begin_runtime_session commit_application_started commit_network
    commit_registration_started current_uid is_registered_for_current_run is_registered
begin_runtime_session_lem now_us l live_runtime live_network live_aether pos bound =
    let run = next_run l.runtime.fields.run_id in
    let (valid, new) = next_run-fresh l.runtime.fields.run_id bound in
    let app : (begin_runtime_session now_us l).runtime.fields.run_id ≡ run =
      ap (λ (s : ApplicationRuntimeState). s.run_id)
        (fields-commit_if application now_us (application_started run) l.runtime live_runtime pos)
      ∙ application_after run l.runtime.fields valid new in
    let net =
      fields-commit_if network now_us (network_observed initializing run) l.network_node
        live_network pos
      ∙ network_after run l.network_node.fields valid in
    let reg =
      fields-commit_if registration now_us (registration_started run) l.aether live_aether pos
      ∙ registration_after run l.aether.fields valid in
    (
      λ z. valid (sym app ∙ z),
      λ z. new (sym app ∙ z),
      net ∙ ap (λ (r : ℕ). record { run_id = r; availability = initializing }) (sym app),
      ap (λ (s : AetherRegistrationState). s.run_id) reg ∙ sym app,
      ap current_uid reg,
    )

completed_after :
    (uid : Bytes) (s : AetherRegistrationState)
    → ¬ (length uid ≡ 0)
    → let out =
        (if can_apply_registration (registration_completed s.run_id uid) s
          then apply_registration (registration_completed s.run_id uid) s
          else s) in
      (out.run_id ≡ s.run_id) × (current_uid out ≡ uid)
unfolding can_apply_registration apply_registration current_uid is_registered_for_current_run
    is_registered
completed_after uid s h = ground (arith, bytes_eq.beq_iff s.uid uid)

same_code : (a b : NetworkAvailability) → availability_code a ≡ availability_code b → a ≡ b
unfolding availability_code
same_code initializing initializing h = refl
same_code interface_unavailable interface_unavailable h = refl
same_code internet_unavailable internet_unavailable h = refl
same_code available available h = refl
same_code _ _ h = absurd (omega arith)

observed_after :
    (run : ℕ) (reported : NetworkAvailability) (s : NetworkState)
    → ¬ (reported ≡ initializing)
    → (if can_apply_network (network_observed reported run) s
        then apply_network (network_observed reported run) s
        else s)
      ≡ (if not (run == 0) && (run == s.run_id)
          then record { run_id = s.run_id; availability = reported }
          else s)
unfolding can_apply_network apply_network
observed_after run initializing s h = absurd (h refl)
observed_after run interface_unavailable s h =
    ground (arith, same_code s.availability interface_unavailable)
observed_after run internet_unavailable s h =
    ground (arith, same_code s.availability internet_unavailable)
observed_after run available s h = ground (arith, same_code s.availability available)

-- On a live node, at a time that is not 0, a registration that completes with a uid that is not empty
-- makes this uid the current one, also where it was current already.
pub commit_registration_completed_lem :
    (now_us : ℕ) (uid : Bytes) (n : Node AetherRegistrationState RegistrationEvent)
    → IsLive registration n
    → 0 < now_us
    → ¬ (length uid ≡ 0)
    → let out = (commit_registration_completed now_us uid n).0.fields in
      (out.run_id ≡ n.fields.run_id) × (current_uid out ≡ uid)
unfolding commit_registration_completed
commit_registration_completed_lem now_us uid n live pos named =
    let e = registration_completed n.fields.run_id uid in
    let there : (length uid == 0) ≡ false = ground arith in
    let fields =
      ap (λ (o : Node AetherRegistrationState RegistrationEvent × Bool). o.0.fields)
        (if_false (n, false) (commit_if registration now_us e n) there)
      ∙ fields-commit_if registration now_us e n live pos in
    let (run, shown) = completed_after uid n.fields named in
    (ap (λ (s : AetherRegistrationState). s.run_id) fields ∙ run, ap current_uid fields ∙ shown)

-- On a live node, at a time that is not 0, an observation of the network other than the initial one is
-- taken over exactly where it comes from the current run, which is not 0; one of another run leaves the
-- state as it is.
pub commit_network_lem :
    (now_us run : ℕ) (reported : NetworkAvailability) (n : Node NetworkState NetworkEvent)
    → IsLive network n
    → 0 < now_us
    → ¬ (reported ≡ initializing)
    → (commit_network now_us reported run n).0.fields ≡ (
        if not (run == 0) && (run == n.fields.run_id)
        then record { run_id = n.fields.run_id; availability = reported }
        else n.fields)
unfolding commit_network
commit_network_lem now_us run reported n live pos observed =
    fields-commit_if network now_us (network_observed reported run) n live pos
    ∙ observed_after run reported n.fields observed
