-- ===== src/Storage/Lifecycle/Changes.antt =====
-- The changes of state in the whole history of a container (GetContainerLifecycleEvents of
-- internal/storage/db.go).
use container_census.Base.{
  ℕ, suc, ◌≡◌, ◌↔◌, inl, inr, sym, ap, ◌∙◌, List, [], ◌∷◌, ◌++◌, Text, text_eq, length, Memᴰ,
}
use container_census.Models.{Time, LifecycleEvent}
use container_census.Storage.Containers.{ContainerRow}
use container_census.Storage.Lifecycle.{
  first_seen_event, gap_events, state_events, image_events, row_events, later_events, last_scan,
  last_seen_event, lifecycle_events,
}
use container_census.Storage.Lifecycle.Transitions.{
  Transition, Has, Changes, Transition-IsOther, Has-append, Has-left, Has-right, differs,
  gap_events-AreOther, image_events-AreOther, state_events-Has_iff,
}

module _ {F : Type 0} (show_gap : ℕ → Text) where
  row_events-Has_iff :
      {old new k : Text}
      → Transition old new k
      → (t : Time) (prev row : ContainerRow F)
      → Has k t (row_events show_gap prev row)
        ↔ (prev.state ≡ old) × (row.state ≡ new) × (row.scanned_at ≡ t)
  unfolding row_events
  row_events-Has_iff {old} {new} {k} change_of t prev row =
      let (to, from) = state_events-Has_iff change_of t prev row in
      let other = Transition-IsOther change_of in
      (
        λ h.
            elim (Has-append (gap_events show_gap prev row)
              (state_events prev row ++ image_events prev row) h) [
                | inl gap ↦ absurd (gap_events-AreOther show_gap prev row k t other gap)
                | inr rest ↦
                    elim (Has-append (state_events prev row) (image_events prev row) rest) [
                      | inl change ↦ to change
                      | inr image ↦ absurd (image_events-AreOther prev row k t other image)
                    ]
              ],
        λ h.
            Has-right (gap_events show_gap prev row)
              (state_events prev row ++ image_events prev row)
              (Has-left (state_events prev row) (image_events prev row) (from h)),
      )

  later_events-Has_iff :
      {old new k : Text}
      → Transition old new k
      → (t : Time) (prev : ContainerRow F) (rows : List (ContainerRow F))
      → Has k t (later_events show_gap prev rows) ↔ Changes old new t (prev ∷ rows)
  unfolding later_events
  later_events-Has_iff change_of t prev [] = (λ (e, m, q, s). elim m [ ], λ h. absurd h)
  later_events-Has_iff change_of t prev (row ∷ rows) =
      let (to, from) = row_events-Has_iff change_of t prev row in
      let (later, earlier) = later_events-Has_iff change_of t row rows in
      let here = row_events show_gap prev row in
      let rest = later_events show_gap row rows in
      (
        λ h. elim (Has-append here rest h) [
          | inl now ↦ inl (to now)
          | inr then_ ↦ inr (later then_)
        ],
        λ h. elim h [
          | inl now ↦ Has-left here rest (from now)
          | inr then_ ↦ Has-right here rest (earlier then_)
        ],
      )

  -- The history holds an event `started`, `stopped`, `paused` or `resumed` at a time exactly if two
  -- neighbouring rows of the container have the two states of that transition, the second one scanned at
  -- that time.
  pub lifecycle_events-Has_iff :
      {old new k : Text}
      → Transition old new k
      → (t : Time) (rows : List (ContainerRow F))
      → Has k t (lifecycle_events show_gap rows) ↔ Changes old new t rows
  unfolding lifecycle_events first_seen_event last_seen_event
  lifecycle_events-Has_iff {k = k} change_of t [] = (λ (e, m, q, s). elim m [ ], λ h. absurd h)
  lifecycle_events-Has_iff {k = k} change_of t (row ∷ rows) =
      let (to, from) = later_events-Has_iff change_of t row rows in
      let changes = later_events show_gap row rows in
      let end = last_seen_event (suc (length rows)) (last_scan 0 [] rows) ∷ [] in
      (
        λ (e, m, q, s). elim m [
          | Memᴰ.head r ↦
              absurd (differs (Transition-IsOther change_of).0 (sym (ap (λ x. x.event_type) r) ∙ q))
          | Memᴰ.tail m' ↦ elim (Has-append changes end (e, m', q, s)) [
            | inl change ↦ to change
            | inr (f, last, q', s') ↦ absurd (ends f last q')
          ]
        ],
        λ h. let (e, m, q, s) = Has-left changes end (from h) in (e, Memᴰ.tail m, q, s),
      )
    where
      ends :
          (f : LifecycleEvent)
          → Memᴰ f (last_seen_event (suc (length rows)) (last_scan 0 [] rows) ∷ [])
          → f.event_type ≡ k
          → ⊥
      ends f (Memᴰ.head r) q' =
          differs (Transition-IsOther change_of).4 (sym (ap (λ x. x.event_type) r) ∙ q')
      ends f (Memᴰ.tail m) q' = elim m [ ]
