-- ===== src/Storage/Lifecycle/Transitions.antt =====
-- The changes of state between two rows of a container (GetContainerLifecycleEvents of
-- internal/storage/db.go).
use container_census.Base.{
  ℕ, ◌*◌, ◌-◌, ◌≡◌, ◌↔◌, ◌⊎◌, inl, inr, refl, sym, ap, ◌∙◌, false, List, [], ◌∷◌, ◌++◌, Text, codes,
  text_beq, text_eq, text_beq_iff, ◌==◌, Memᴰ, append-mem, mem-append_left, mem-append_right,
  Bool-cases, arith, ltb,
}
use container_census.Models.{Time, hour, LifecycleEvent}
use container_census.Storage.Containers.{ContainerRow}
use container_census.Storage.Lifecycle.{
  gap_events, state_events, image_events, state_event_type, state_description, event_at,
}

-- The named transitions between two states.
pub data Transition : Text → Text → Text → Type 0 where
  starting : Transition (codes "exited") (codes "running") (codes "started")
  stopping : Transition (codes "running") (codes "exited") (codes "stopped")
  pausing : Transition (codes "running") (codes "paused") (codes "paused")
  resuming : Transition (codes "paused") (codes "running") (codes "resumed")

-- The kinds of the events that are no change of state.
abbrev pub IsOther : Text → Type 0
IsOther k =
    (text_beq (codes "first_seen") k ≡ false)
    × (text_beq (codes "disappeared") k ≡ false)
    × (text_beq (codes "reappeared") k ≡ false)
    × (text_beq (codes "image_updated") k ≡ false)
    × (text_beq (codes "last_seen") k ≡ false)

pub Transition-IsOther : {old new k : Text} → Transition old new k → IsOther k
unfolding text_beq
Transition-IsOther starting = (refl, refl, refl, refl, refl)
Transition-IsOther stopping = (refl, refl, refl, refl, refl)
Transition-IsOther pausing = (refl, refl, refl, refl, refl)
Transition-IsOther resuming = (refl, refl, refl, refl, refl)

state_event_type-eq : {old new k : Text} → Transition old new k → state_event_type old new ≡ k
unfolding state_event_type text_beq
state_event_type-eq starting = refl
state_event_type-eq stopping = refl
state_event_type-eq pausing = refl
state_event_type-eq resuming = refl

states_differ : {old new k : Text} → Transition old new k → (old == new) ≡ false
unfolding text_beq
states_differ starting = refl
states_differ stopping = refl
states_differ pausing = refl
states_differ resuming = refl

state_event_type-cases :
    (a b : Text) {old new k : Text}
    → Transition old new k
    → state_event_type a b ≡ k
    → (a ≡ old) × (b ≡ new)
unfolding state_event_type
state_event_type-cases a b starting h = ground (
  arith,
  h,
  text_beq_iff a (codes "exited"),
  text_beq_iff a (codes "running"),
  text_beq_iff a (codes "paused"),
  text_beq_iff b (codes "exited"),
  text_beq_iff b (codes "running"),
  text_beq_iff b (codes "paused"),
)
state_event_type-cases a b stopping h = ground (
  arith,
  h,
  text_beq_iff a (codes "exited"),
  text_beq_iff a (codes "running"),
  text_beq_iff a (codes "paused"),
  text_beq_iff b (codes "exited"),
  text_beq_iff b (codes "running"),
  text_beq_iff b (codes "paused"),
)
state_event_type-cases a b pausing h = ground (
  arith,
  h,
  text_beq_iff a (codes "exited"),
  text_beq_iff a (codes "running"),
  text_beq_iff a (codes "paused"),
  text_beq_iff b (codes "exited"),
  text_beq_iff b (codes "running"),
  text_beq_iff b (codes "paused"),
)
state_event_type-cases a b resuming h = ground (
  arith,
  h,
  text_beq_iff a (codes "exited"),
  text_beq_iff a (codes "running"),
  text_beq_iff a (codes "paused"),
  text_beq_iff b (codes "exited"),
  text_beq_iff b (codes "running"),
  text_beq_iff b (codes "paused"),
)

-- An event of a kind at a time.
abbrev pub Has : Text → Time → List LifecycleEvent → Type 0
Has k t es = (e : LifecycleEvent) × Memᴰ e es × (e.event_type ≡ k) × (e.timestamp ≡ t)

pub Has-append :
    {k : Text} {t : Time} (xs ys : List LifecycleEvent)
    → Has k t (xs ++ ys)
    → Has k t xs ⊎ Has k t ys
Has-append xs ys (e, m, q, s) = elim (append-mem xs ys m) [
  | inl here ↦ inl (e, here, q, s)
  | inr there ↦ inr (e, there, q, s)
]

pub Has-left : {k : Text} {t : Time} (xs ys : List LifecycleEvent) → Has k t xs → Has k t (xs ++ ys)
Has-left xs ys (e, m, q, s) = (e, mem-append_left xs ys m, q, s)

pub Has-right :
    {k : Text} {t : Time} (xs ys : List LifecycleEvent) → Has k t ys → Has k t (xs ++ ys)
Has-right xs ys (e, m, q, s) = (e, mem-append_right xs ys m, q, s)

-- Events whose kinds are none of the transitions.
abbrev pub AreOther : List LifecycleEvent → Type 0
AreOther es = (k : Text) (t : Time) → IsOther k → Has k t es → ⊥

pub differs : {a b : Text} → text_beq a b ≡ false → a ≡ b → ⊥
differs {a} {b} h q = absurd (ground (arith, h, (text_beq_iff a b).1 q))

module _ {F : Type 0} (show_gap : ℕ → Text) where
  pub gap_events-AreOther : (prev row : ContainerRow F) → AreOther (gap_events show_gap prev row)
  unfolding gap_events
  gap_events-AreOther prev row k t other (e, m, q, s) =
      elim (Bool-cases (ltb (2 * hour) (row.scanned_at - prev.scanned_at))) [
        | inl long ↦ elim (rw long at m) [
          | Memᴰ.head r ↦ differs other.1 (sym (ap (λ x. x.event_type) r) ∙ q)
          | Memᴰ.tail m' ↦ elim m' [
            | Memᴰ.head r ↦ differs other.2 (sym (ap (λ x. x.event_type) r) ∙ q)
            | Memᴰ.tail m2 ↦ elim m2 [ ]
          ]
        ]
        | inr short ↦ elim (rw short at m) [ ]
      ]

module _ {F : Type 0} where
  pub image_events-AreOther : (prev row : ContainerRow F) → AreOther (image_events prev row)
  unfolding image_events
  image_events-AreOther prev row k t other (e, m, q, s) =
      elim (Bool-cases (prev.image_id == row.image_id)) [
        | inl same ↦ elim (rw same at m) [ ]
        | inr new ↦ elim (rw new at m) [
          | Memᴰ.head r ↦ differs other.3 (sym (ap (λ x. x.event_type) r) ∙ q)
          | Memᴰ.tail m' ↦ elim m' [ ]
        ]
      ]

  -- The two states of neighbouring rows, with the time of the second one.
  abbrev pub Changes : Text → Text → Time → List (ContainerRow F) → Type 0
  Changes old new t [] = ⊥
  Changes old new t (prev ∷ []) = ⊥
  Changes old new t (prev ∷ row ∷ rows) =
      (prev.state ≡ old) × (row.state ≡ new) × (row.scanned_at ≡ t) ⊎ Changes old new t (row ∷ rows)

  pub state_events-Has_iff :
      {old new k : Text}
      → Transition old new k
      → (t : Time) (prev row : ContainerRow F)
      → Has k t (state_events prev row)
        ↔ (prev.state ≡ old) × (row.state ≡ new) × (row.scanned_at ≡ t)
  unfolding state_events
  state_events-Has_iff {old} {new} {k} change t prev row = (
    λ (e, m, q, s). elim (Bool-cases (prev.state == row.state)) [
      | inl same ↦ elim (rw same at m) [ ]
      | inr differ ↦ elim (rw differ at m) [
        | Memᴰ.head r ↦
            let (a, b) =
              state_event_type-cases prev.state row.state change
                (sym (ap (λ x. x.event_type) r) ∙ q) in
            (a, b, sym (ap (λ x. x.timestamp) r) ∙ s)
        | Memᴰ.tail m' ↦ elim m' [ ]
      ]
    ],
    λ (a, b, s).
        let differ : (prev.state == row.state) ≡ false = rw a (rw b (states_differ change)) in
        rw differ (
          record (event_at row.scanned_at (state_event_type prev.state row.state)) {
            old_state = prev.state;
            new_state = row.state;
            description = state_description prev.state row.state;
          },
          Memᴰ.head refl,
          rw a (rw b (state_event_type-eq change)),
          s,
        ),
  )
