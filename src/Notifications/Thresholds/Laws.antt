-- ===== src/Notifications/Thresholds/Laws.antt =====
-- How a threshold tracker develops (internal/notifications/notifier.go).
use container_census.Base.{
  ℕ, ◌+◌, ◌≤◌, ◌≡◌, ◌↔◌, true, false, List, [], ◌∷◌, Option, none, some, Text, text_eq,
  text_beq_iff, lookup, lookup-insert, arith, Option-cases, ◌⊎◌, inl, inr,
}
use container_census.Models.{Time, Container}
use container_census.Notifications.Thresholds.{
  Trackers, threshold_key, check_threshold, reset_threshold,
}

-- The calls that touch the trackers.
pub data TrackerCall (F : Type 0) : Type 0 where
  check : Time → Container F → Text → F → ℕ → TrackerCall F
  reset : Time → Text → ℕ → Text → TrackerCall F

-- When the breach under this key was first seen.
abbrev pub first_breach : Text → Trackers → Option Time
first_breach key state = elim (lookup key state) [
  | none ↦ none
  | some tracker ↦ some tracker.breached_at
]

reset-keeps :
    (now : Time) (id : Text) (host : ℕ) (ty : Text) (state : Trackers) (key : Text) (t0 : Time)
    → first_breach key state ≡ some t0
    → first_breach key (reset_threshold now id host ty state) ≡ some t0
unfolding reset_threshold
reset-keeps now id host ty state key t0 h =
    let k = threshold_key id host ty in
    elim (Option-cases (lookup k state)) [
      | inl e ↦ ground (arith, e)
      | inr (t, e) ↦ ground (
        arith,
        e,
        text_beq_iff k key,
        lookup-insert k key (record t { last_notified_at = now }) state,
      )
    ]

module _ {F : Type 0} where
  pub track : TrackerCall F → Trackers → Trackers
  track (check now c ty value duration) state = (check_threshold now c ty value duration state).0
  track (reset now id host ty) state = reset_threshold now id host ty state

  pub track_all : List (TrackerCall F) → Trackers → Trackers
  track_all [] state = state
  track_all (call ∷ calls) state = track_all calls (track call state)

  check-keeps :
      (now : Time) (c : Container F) (ty : Text) (value : F) (duration : ℕ) (state : Trackers)
      (key : Text) (t0 : Time)
      → first_breach key state ≡ some t0
      → first_breach key (check_threshold now c ty value duration state).0 ≡ some t0
  unfolding check_threshold
  check-keeps now c ty value duration state key t0 h =
      let k = threshold_key c.id c.host_id ty in
      elim (Option-cases (lookup k state)) [
        | inl e ↦ ground (
          arith,
          e,
          text_beq_iff k key,
          lookup-insert k key (record { breached_at = now; last_notified_at = 0; breach_count = 1 })
              state,
        )
        | inr (t, e) ↦ ground (
          arith,
          e,
          text_beq_iff k key,
          lookup-insert k key (record t { breach_count = t.breach_count + 1 }) state,
        )
      ]

  track_all-keeps :
      (calls : List (TrackerCall F)) (state : Trackers) (key : Text) (t0 : Time)
      → first_breach key state ≡ some t0
      → first_breach key (track_all calls state) ≡ some t0
  unfolding track track_all
  track_all-keeps [] state key t0 h = h
  track_all-keeps (check now c ty v d ∷ calls) state key t0 h =
      track_all-keeps calls (check_threshold now c ty v d state).0 key t0
        (check-keeps now c ty v d state key t0 h)
  track_all-keeps (reset now id host ty ∷ calls) state key t0 h =
      track_all-keeps calls (reset_threshold now id host ty state) key t0
        (reset-keeps now id host ty state key t0 h)

  -- A key that is seen for the first time is recorded and does not notify; one that is known notifies
  -- exactly if its first breach lies at least the duration back. The value of the call is not read.
  pub check_threshold_lem :
      (now : Time) (c : Container F) (ty : Text) (value : F) (duration : ℕ) (state : Trackers)
      → let key = threshold_key c.id c.host_id ty in
        let r = check_threshold now c ty value duration state in
        ((lookup key state ≡ none) × (first_breach key r.0 ≡ some now) × (r.1 ≡ false))
        ⊎ ((t0 : Time) × (first_breach key state ≡ some t0)
            × (first_breach key r.0 ≡ some t0)
            × ((r.1 ≡ true) ↔ (t0 + duration ≤ now)))
  unfolding check_threshold
  check_threshold_lem now c ty value duration state =
      let k = threshold_key c.id c.host_id ty in
      elim (Option-cases (lookup k state)) [
        | inl e ↦ inl (
          e,
          ground (
            arith,
            e,
            text_beq_iff k k,
            lookup-insert k k (record { breached_at = now; last_notified_at = 0; breach_count = 1 })
                state,
          ),
          ground (arith, e),
        )
        | inr (t, e) ↦ inr (
          t.breached_at,
          ground (arith, e),
          check-keeps now c ty value duration state k t.breached_at (ground (arith, e)),
          (ground (arith, e), ground (arith, e)),
        )
      ]

  -- Nothing ever clears a tracker: from the first check of a key on, every later check of the same key
  -- notifies as soon as the duration has passed since that first one, whatever values it has and
  -- whatever other checks and resets came in between.
  pub stale_breach_notifies :
      (t0 now : Time) (c : Container F) (ty : Text) (v0 v : F) (duration : ℕ) (state : Trackers)
      (calls : List (TrackerCall F))
      → lookup (threshold_key c.id c.host_id ty) state ≡ none
      → t0 + duration ≤ now
      → (check_threshold now c ty v duration
          (track_all calls (check_threshold t0 c ty v0 duration state).0)).1
        ≡ true
  stale_breach_notifies t0 now c ty v0 v duration state calls fresh late =
      let key = threshold_key c.id c.host_id ty in
      let state0 = (check_threshold t0 c ty v0 duration state).0 in
      let state1 = track_all calls state0 in
      ground (
        arith,
        check_threshold_lem t0 c ty v0 duration state,
        track_all-keeps calls state0 key t0,
        check_threshold_lem now c ty v duration state1,
      )
