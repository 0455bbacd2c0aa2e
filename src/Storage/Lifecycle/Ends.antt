-- ===== src/Storage/Lifecycle/Ends.antt =====
-- The first and the last event that GetContainerLifecycleEvents of internal/storage/db.go gives.
use container_census.Base.{
  ℕ, suc, ◌≡◌, ◌↔◌, ◌⊎◌, ◌<◌, inl, inr, refl, ap, List, [], ◌∷◌, ◌++◌, none, some, Text, codes,
  length, last?, arith, keep, ◌==◌, ◌&&◌, text_eq, nat_eq,
}
use container_census.Models.{Time, LifecycleEvent}
use container_census.Storage.Containers.{ContainerRow}
use container_census.Storage.Lifecycle.{
  first_seen_event, later_events, last_scan, last_seen_event, lifecycle_events, container_rows,
  get_container_lifecycle_events,
}

last?-cons {ℓ} : {A : Type ℓ} (y : A) (xs : List A) (x : A) → last? (y ∷ (xs ++ (x ∷ []))) ≡ some x
last?-cons y [] x = refl
last?-cons y (z ∷ xs) x = last?-cons z xs x

module _ {F : Type 0} (show_gap : ℕ → Text) where
  lifecycle_events-last :
      (row : ContainerRow F) (rows : List (ContainerRow F))
      → last? (lifecycle_events show_gap (row ∷ rows))
        ≡ some (last_seen_event (suc (length rows)) (last_scan 0 [] rows))
  unfolding lifecycle_events
  lifecycle_events-last row rows =
      last?-cons (first_seen_event row) (later_events show_gap row rows)
        (last_seen_event (suc (length rows)) (last_scan 0 [] rows))

  lifecycle_events-end :
      (rows : List (ContainerRow F))
      → (last? (lifecycle_events show_gap rows) ≡ none)
        ⊎ ((e : LifecycleEvent) × (last? (lifecycle_events show_gap rows) ≡ some e)
            × (e.event_type ≡ codes "last_seen"))
  unfolding lifecycle_events last_seen_event
  lifecycle_events-end [] = inl refl
  lifecycle_events-end (row ∷ rows) = inr (
    last_seen_event (suc (length rows)) (last_scan 0 [] rows),
    lifecycle_events-last row rows,
    refl,
  )

  -- The last event of a history is never a change: it is that of the last observation.
  pub last-get_container_lifecycle_events :
      (name : Text) (host_id : ℕ) (table : List (ContainerRow F))
      → (last? (get_container_lifecycle_events show_gap name host_id table) ≡ none)
        ⊎ ((e : LifecycleEvent) × (last?
                (get_container_lifecycle_events show_gap name host_id table)
              ≡ some e)
            × (e.event_type ≡ codes "last_seen"))
  unfolding get_container_lifecycle_events
  last-get_container_lifecycle_events name host_id table =
      lifecycle_events-end (container_rows name host_id table)

  last_scan-last :
      (time : Time) (state : Text) (rows : List (ContainerRow F)) (r : ContainerRow F)
      → last? rows ≡ some r
      → last_scan time state rows ≡ (r.scanned_at, r.state)
  unfolding last_scan
  last_scan-last time state [] r h = absurd (ground (arith, h))
  last_scan-last time state (x ∷ []) r h = ground (arith, h)
  last_scan-last time state (x ∷ y ∷ rows) r h = last_scan-last x.scanned_at x.state (y ∷ rows) r h

  -- The event `last_seen` of a container gives the time of its last row exactly if the container has more
  -- than one row; of a container that was seen once it gives Go's zero time.
  pub last_seen_timestamp_iff :
      (name : Text) (host_id : ℕ) (table : List (ContainerRow F)) (row r : ContainerRow F)
      (rows : List (ContainerRow F))
      → container_rows name host_id table ≡ row ∷ rows
      → last? (row ∷ rows) ≡ some r
      → 0 < r.scanned_at
      → (e : LifecycleEvent) × (last? (get_container_lifecycle_events show_gap name host_id table)
          ≡ some e)
        × ((e.timestamp ≡ r.scanned_at) ↔ (0 < length rows))
        × (length rows ≡ 0 → e.timestamp ≡ 0)
  unfolding get_container_lifecycle_events last_scan last_seen_event
  last_seen_timestamp_iff name host_id table row r [] found last positive = (
    last_seen_event 1 (0, []),
    rw found (lifecycle_events-last row []),
    (λ h. absurd (omega (arith, h, positive)), λ h. absurd (omega (arith, h))),
    λ h. refl,
  )
  last_seen_timestamp_iff name host_id table row r (x ∷ rows) found last positive = (
    last_seen_event (suc (length (x ∷ rows))) (last_scan 0 [] (x ∷ rows)),
    rw found (lifecycle_events-last row (x ∷ rows)),
    (
      λ h. omega arith,
      λ h.
          ap (λ e. e.timestamp)
            (ap (last_seen_event (suc (length (x ∷ rows))))
              (last_scan-last 0 [] (x ∷ rows) r last)),
    ),
    λ h. absurd (omega (arith, h)),
  )

  -- A container without rows has no history.
  pub no_rows-no_events :
      (name : Text) (host_id : ℕ) (table : List (ContainerRow F))
      → keep (λ row. row.name == name && row.host_id == host_id) table ≡ []
      → get_container_lifecycle_events show_gap name host_id table ≡ []
  unfolding get_container_lifecycle_events container_rows lifecycle_events
  no_rows-no_events name host_id table h = rw h refl
