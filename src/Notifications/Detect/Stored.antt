-- ===== src/Notifications/Detect/Stored.antt =====
-- detectLifecycleEvents of internal/notifications/notifier.go over the histories that
-- GetContainerLifecycleEvents of internal/storage/db.go gives it.
use container_census.Base.{
  ℕ, ◌*◌, ◌≡◌, ◌⊎◌, inl, inr, refl, subst, text_beq, if◌then◌else◌, Bool, true, false, List, [],
  ◌∷◌, none, some, Text, codes, last?, Memᴰ, append-mem, arith,
}
use container_census.Models.{
  Time, minute, since_lt, Float64, Container, LifecycleEvent, NotificationEvent,
  image_update_available,
}
use container_census.Storage.Containers.{ContainerRow}
use container_census.Storage.Lifecycle.{get_container_lifecycle_events}
use container_census.Storage.Lifecycle.Ends.{last-get_container_lifecycle_events}
use container_census.Notifications.Detect.{
  Database, base_event, lifecycle_event_type, lifecycle_event_to_notification_event, update_events,
  recent_lifecycle, lifecycle_loop, detect_lifecycle_events,
}

-- What is listed under a condition.
singleton-mem {ℓ} :
    {A : Type ℓ} {b : Bool} {x y : A} → Memᴰ y (if b then x ∷ [] else []) → (b ≡ true) × (y ≡ x)
singleton-mem {b = true} (Memᴰ.head q) = (refl, q)
singleton-mem {b = true} (Memᴰ.tail m) = elim m [ ]
singleton-mem {b = false} m = elim m [ ]

module _ {F : Type 0} (fl : Float64 F) where
  last_seen-ignored :
      (c : Container F) (e : LifecycleEvent)
      → e.event_type ≡ codes "last_seen"
      → lifecycle_event_to_notification_event fl c e ≡ none
  unfolding lifecycle_event_to_notification_event lifecycle_event_type text_beq
  last_seen-ignored c e seen =
      let ignored : lifecycle_event_type fl e.event_type ≡ none = rw seen refl in
      ground (arith, ignored)

  recent_lifecycle-last_seen :
      (now : Time) (c : Container F) (events : List LifecycleEvent)
      → (last? events ≡ none)
        ⊎ ((e : LifecycleEvent) × (last? events ≡ some e) × (e.event_type ≡ codes "last_seen"))
      → recent_lifecycle fl now c (some events) ≡ []
  unfolding recent_lifecycle
  recent_lifecycle-last_seen now c events (inl n) = ground (arith, n)
  recent_lifecycle-last_seen now c events (inr (e, q, seen)) =
      ground (arith, q, last_seen-ignored c e seen)

  -- The update of a container that was found in the last five minutes.
  abbrev pub IsRecentUpdate : Time → Container F → NotificationEvent F → Type 0
  IsRecentUpdate now c e =
      (e ≡ base_event fl image_update_available c.last_update_check c)
      × (c.update_available ≡ true)
      × (since_lt now c.last_update_check (5 * minute) ≡ true)

  update_events-mem :
      (now : Time) (c : Container F) (e : NotificationEvent F)
      → Memᴰ e (update_events fl now c)
      → IsRecentUpdate now c e
  unfolding update_events
  update_events-mem now c e m =
      let (b, q) = singleton-mem m in (q, ground (arith, b), ground (arith, b))

  lifecycle_loop-mem :
      (db : Database F) (now : Time) (host_id : ℕ) (cs : List (Container F))
      → ((c : Container F)
          → recent_lifecycle fl now c (db.get_container_lifecycle_events c.name host_id) ≡ [])
      → (e : NotificationEvent F) → Memᴰ e (lifecycle_loop fl db now host_id cs)
      → (c : Container F) × Memᴰ c cs × IsRecentUpdate now c e
  unfolding lifecycle_loop
  lifecycle_loop-mem db now host_id [] quiet e m = elim m [ ]
  lifecycle_loop-mem db now host_id (c ∷ cs) quiet e m =
      elim (append-mem (update_events fl now c) (lifecycle_loop fl db now host_id cs)
        (rw (quiet c) at m)) [
          | inl here ↦ (c, Memᴰ.head refl, update_events-mem now c e here)
          | inr there ↦
              let (d, k, r) = lifecycle_loop-mem db now host_id cs quiet e there in
              (d, Memᴰ.tail k, r)
        ]

  -- Over the histories that the database derives from its rows, the lifecycle detector finds no start, no
  -- stop, no pause, no other change of state and no new image, whatever the scans saw: each event that it
  -- gives is an available update of one of the latest containers, found in the last five minutes.
  pub detect_lifecycle_events_stored :
      (db : Database F) (show_gap : ℕ → Text) (table : List (ContainerRow F)) (now : Time)
      (host_id : ℕ) (cs : List (Container F)) {events : List (NotificationEvent F)}
      → ((name : Text)
          → db.get_container_lifecycle_events name host_id
            ≡ some (get_container_lifecycle_events show_gap name host_id table))
      → db.get_containers_by_host host_id ≡ some cs
      → detect_lifecycle_events fl db now host_id ≡ some events
      → (e : NotificationEvent F) → Memᴰ e events
      → (c : Container F) × Memᴰ c cs × IsRecentUpdate now c e
  unfolding detect_lifecycle_events
  detect_lifecycle_events_stored db show_gap table now host_id cs stored latest found e m =
      lifecycle_loop-mem db now host_id cs
        (λ c. rw (stored c.name) (
          recent_lifecycle-last_seen now c
            (get_container_lifecycle_events show_gap c.name host_id table)
            (last-get_container_lifecycle_events show_gap c.name host_id table)))
        e (subst (Memᴰ e) (ground (arith, latest, found)) m)
