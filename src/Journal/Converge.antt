-- ===== src/Journal/Converge.antt =====
-- Replicas that take the same shared events, in whatever orders, end with the same journal and fields,
-- as long as no two of the events carry one timestamp.
use mathlib.Core.List.{Nodup, Nodup-cons, Permᴰ, mem-cons_self}
use mathlib.Core.List.Perm
use mathlib.Core.Path.{ap₂}
use mathlib.Core.Bool.{false≢true}
use apptraverse.Prelude.{
  ℕ, ◌≡◌, ◌≢◌, refl, subst, sym, if_true, if_false, ap, ◌∙◌, inl, inr, Bool, true, ◌&&◌, not,
  Option, none, some, List, [], ◌∷◌, arith, map, if◌then◌else◌, length, ◌==◌, nat_eq, Bool-cases,
  Option-cases, of_some, not_some, not_some,
}
use apptraverse.Identity.{SharedEventId}
use apptraverse.Journal.{Target, EventRecord, Node, try_commit_shared}
use apptraverse.Journal.Replay.{replay}
use apptraverse.Journal.Insertion.{insert_record, insert_record_comm}
use apptraverse.Journal.WellFormed.{retained, IsWellFormed, IsPlain}
use apptraverse.Journal.Insert.{try_insert_event_lem}

-- A shared event on its way to a replica.
pub record Delivery (E : Type 0) : Type 0 where
  pub event : E
  pub identity : SharedEventId
  pub timestamp_us : ℕ

module _ {E : Type 0} where
  -- A record without its local retention time.
  pub shared_view : EventRecord E → EventRecord E
  shared_view r = record r { retained_since_us = 0 }

  pub as_record : Delivery E → EventRecord E
  as_record d = record {
    event = some d.event;
    identity = d.identity;
    timestamp_us = d.timestamp_us;
    retained_since_us = 0;
  }

  abbrev timestamps : List (EventRecord E) → List ℕ
  timestamps = map (λ r. r.timestamp_us)

  unfoldable pub insert_all : List (EventRecord E) → List (EventRecord E) → List (EventRecord E)
  insert_all [] j = j
  insert_all (r ∷ rs) j = insert_all rs (insert_record r j)

  apart_of_Nodup :
      (a b : EventRecord E) (l : List (EventRecord E))
      → Nodup (timestamps (a ∷ b ∷ l))
      → a.timestamp_us ≢ b.timestamp_us
  apart_of_Nodup a b l d e = (Nodup-cons.0 d).0 (rw e mem-cons_self)

  insert_all-perm :
      {xs ys : List (EventRecord E)}
      → Permᴰ xs ys
      → Nodup (timestamps xs)
      → (j : List (EventRecord E)) → insert_all xs j ≡ insert_all ys j
  unfolding insert_all
  insert_all-perm Permᴰ.nil d j = refl
  insert_all-perm (Permᴰ.cons {b = b} {l₁ = l₁} e p) d j =
      ap (λ (r : EventRecord E). insert_all l₁ (insert_record r j)) e
      ∙ insert_all-perm p ((Nodup-cons.0 d).1) (insert_record b j)
  insert_all-perm (Permᴰ.swap {a = a} {b = b} {l = l} e f) d j =
      ap (insert_all l) (insert_record_comm b a j (λ q. apart_of_Nodup a b l d (sym q)))
      ∙ ap₂ (λ (q r : EventRecord E). insert_all l (insert_record q (insert_record r j))) e f
  insert_all-perm (Permᴰ.trans {l₁ = l₁} {l₂ = l₂} p q) d j =
      insert_all-perm p d j
      ∙ insert_all-perm q (Perm.nodup (Perm.map (λ r. r.timestamp_us) ∣ p ∣₁) d) j

  view-insert_record :
      (r : EventRecord E) (j : List (EventRecord E))
      → map shared_view (insert_record r j) ≡ insert_record (shared_view r) (map shared_view j)
  unfolding insert_record shared_view
  view-insert_record r [] = refl
  view-insert_record r (q ∷ j) = ground (arith, view-insert_record r j)

  -- The record that `TryCommitSharedInto` makes.
  abbrev stamped : ℕ → Delivery E → EventRecord E
  stamped now_us d = record {
    event = some d.event;
    identity = d.identity;
    timestamp_us = d.timestamp_us;
    retained_since_us = now_us;
  }

  view-stamped :
      (now_us : ℕ) (d : Delivery E) → shared_view (retained now_us (stamped now_us d)) ≡ as_record d
  unfolding shared_view as_record
  view-stamped now_us d = ground arith

  timestamps-as_record :
      (xs : List (ℕ × Delivery E))
      → map (λ d. d.1.timestamp_us) xs ≡ timestamps (map (λ d. as_record d.1) xs)
  unfolding as_record
  timestamps-as_record [] = refl
  timestamps-as_record (x ∷ xs) = ap (◌∷◌ x.1.timestamp_us) (timestamps-as_record xs)

module _ {S E : Type 0} (t : Target S E) where
  replay-view : (s : S) (j : List (EventRecord E)) → replay t s (map shared_view j) ≡ replay t s j
  unfolding replay shared_view
  replay-view s [] = refl
  replay-view s (r ∷ j) = elim (Option-cases r.event) [
    | inl missing ↦ ground arith
    | inr (e, found) ↦ ground (arith, replay-view (t.apply e s) j)
  ]

  module _ (matches : E → SharedEventId → ℕ → Bool) where
    -- The deliveries in their order, each with the clock at which it arrives; all are taken.
    unfoldable pub deliver_all : Node S E → List (ℕ × Delivery E) → Option (Node S E)
    deliver_all n [] = some n
    deliver_all n ((now_us, d) ∷ ds) =
        let (m, done) =
          try_commit_shared t matches now_us n (some d.event) d.identity d.timestamp_us in
        let rest = deliver_all m ds in if done then rest else none

    try_commit_shared_lem :
        (now_us : ℕ) (n : Node S E) (b : S) (d : Delivery E)
        → IsPlain t
        → IsWellFormed t n b
        → let out = try_commit_shared t matches now_us n (some d.event) d.identity d.timestamp_us in
          out.1 ≡ true
          → IsWellFormed t out.0 b
            × (map shared_view out.0.journal
                ≡ insert_record (as_record d) (map shared_view n.journal))
    unfolding try_commit_shared
    try_commit_shared_lem now_us n b d plain w =
        elim (Bool-cases
          (not (length d.identity.origin_uid == 0) && matches d.event d.identity d.timestamp_us)) [
            | inr refused ↦ rw refused (λ h. absurd (false≢true h))
            | inl taken ↦ rw taken (λ h.
                let (w', journal) =
                  (try_insert_event_lem t now_us n b (stamped now_us d) plain w).1 h in
                (
                  w',
                  ap (map shared_view) journal
                      ∙ view-insert_record (retained now_us (stamped now_us d)) n.journal
                      ∙ ap (λ (q : EventRecord E). insert_record q (map shared_view n.journal))
                          (view-stamped now_us d),
                ))
          ]

    deliver_all_lem :
        (n : Node S E) (b : S) (ds : List (ℕ × Delivery E)) (m : Node S E)
        → IsPlain t
        → IsWellFormed t n b
        → deliver_all n ds ≡ some m
        → IsWellFormed t m b
          × (map shared_view m.journal
              ≡ insert_all (map (λ d. as_record d.1) ds) (map shared_view n.journal))
    unfolding deliver_all insert_all
    deliver_all_lem n b [] m plain w h =
        let same : n ≡ m = of_some h in
        (
          subst (λ k. IsWellFormed t k b) same w,
          ap (λ (k : Node S E). map shared_view k.journal) (sym same),
        )
    deliver_all_lem n b ((now_us, d) ∷ ds) m plain w h =
        let out = try_commit_shared t matches now_us n (some d.event) d.identity d.timestamp_us in
        elim (Bool-cases out.1) [
          | inr refused ↦ absurd (not_some (sym (if_false _ _ refused) ∙ h))
          | inl taken ↦
              let (w', step) = try_commit_shared_lem now_us n b d plain w taken in
              let (w'', rest) =
                deliver_all_lem out.0 b ds m plain w' (sym (if_true _ _ taken) ∙ h) in
              (w'', rest ∙ ap (insert_all (map (λ d. as_record d.1) ds)) step)
        ]

    -- Two replicas of one class without local-persistent fields, at rest over one base with the same
    -- shared journal, that take the same shared events with distinct timestamps, each in an order and at
    -- times of its own, end with the same fields and with journals that differ in the local retention
    -- times at most.
    pub replicas_converge :
        (n m n' m' : Node S E) (b : S) (xs ys : List (ℕ × Delivery E))
        → IsPlain t
        → IsWellFormed t n b
        → IsWellFormed t m b
        → map shared_view n.journal ≡ map shared_view m.journal
        → Permᴰ (map (λ d. as_record d.1) xs) (map (λ d. as_record d.1) ys)
        → Nodup (map (λ d. d.1.timestamp_us) xs)
        → deliver_all n xs ≡ some n'
        → deliver_all m ys ≡ some m'
        → (n'.fields ≡ m'.fields) × (map shared_view n'.journal ≡ map shared_view m'.journal)
    replicas_converge n m n' m' b xs ys plain wn wm start perm distinct dn dm =
        let (wn', jn) = deliver_all_lem n b xs n' plain wn dn in
        let (wm', jm) = deliver_all_lem m b ys m' plain wm dm in
        let same : map shared_view n'.journal ≡ map shared_view m'.journal =
          jn
          ∙ ap (insert_all (map (λ d. as_record d.1) xs)) start
          ∙ insert_all-perm perm (subst Nodup (timestamps-as_record xs) distinct)
              (map shared_view m.journal)
          ∙ sym jm in
        (
          of_some (
              sym wn'.current
              ∙ sym (replay-view b n'.journal)
              ∙ ap (replay t b) same
              ∙ replay-view b m'.journal
              ∙ wm'.current),
          same,
        )
