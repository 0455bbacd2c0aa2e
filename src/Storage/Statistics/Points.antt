-- ===== src/Storage/Statistics/Points.antt =====
-- What AggregateOldStats of internal/storage/db.go does to those who read the tables after it: the points
-- of GetContainerStats and the history of GetContainerLifecycleEvents.
use container_census.Base.{
  ℕ, ◌+◌, ◌≤◌, ◌≡◌, ◌⊎◌, inl, inr, ap, subst, ◌∙◌, Bool, true, false, not, ◌&&◌, ◌||◌, List, [],
  some, map, Text, text_eq, nat_eq, text_beq_iff, ◌==◌, if◌then◌else◌, keep, keep-mem, keep-none,
  append-mem, map-mem, ltb, arith, Memᴰ, Bool-cases, mem-perm, sort_by, sort_by-perm,
}
use container_census.Models.{Time, hour, Float64, ContainerStatsPoint}
use container_census.Storage.Containers.{ContainerRow}
use container_census.Storage.Lifecycle.{get_container_lifecycle_events}
use container_census.Storage.Lifecycle.Ends.{no_rows-no_events}
use container_census.Storage.Statistics.{
  StatsTables, Sqlite, is_measured, is_aggregated, granular_point, aggregate_point, is_granular,
  is_hourly, all_points, get_container_stats, aggregate_old_stats,
}
use container_census.Storage.Statistics.Removal.{aggregate_old_stats-containers}

recent-of :
    {F : Type 0} (now : Time) (row : ContainerRow F)
    → is_measured row ≡ true
    → not (is_aggregated now row) ≡ true
    → now ≤ row.scanned_at + hour
unfolding is_aggregated
recent-of now row h k = ground (arith, h, k)

module _ {F : Type 0} (fl : Float64 F) (sql : Sqlite F) where
  -- A row of a scan of the last hour, and the memory of a point without one.
  abbrev pub IsRecentPoint : Time → StatsTables F → ContainerStatsPoint F → Type 0
  IsRecentPoint now db p =
      (row : ContainerRow F) × Memᴰ row db.containers
      × (now ≤ row.scanned_at + hour)
      × (p ≡ granular_point fl sql row)

  all_points-mem :
      (now : Time) (id : Text) (host_id hours_back : ℕ) (db : StatsTables F)
      (p : ContainerStatsPoint F)
      → Memᴰ p (all_points fl sql now id host_id hours_back db)
      → ((row : ContainerRow F) × Memᴰ row db.containers
          × (is_measured row ≡ true)
          × (p ≡ granular_point fl sql row))
        ⊎ ((p.memory_percent ≡ fl.zero_f) × (p.memory_limit ≡ 0))
  unfolding all_points
  all_points-mem now id host_id hours_back db p m =
      elim (append-mem
        (map (granular_point fl sql)
          (keep (is_granular fl sql now id host_id hours_back) db.containers))
        (if hours_back == 0 || ltb 1 hours_back
          then map (aggregate_point fl sql)
              (keep (is_hourly fl sql now id host_id hours_back) db.aggregates)
          else [])
        m) [
          | inl g ↦
              let (row, k, q) =
                map-mem (granular_point fl sql)
                  (keep (is_granular fl sql now id host_id hours_back) db.containers) g in
              let (l, r) =
                keep-mem (is_granular fl sql now id host_id hours_back) db.containers k in
              inl (row, l, measured row r, q)
          | inr h ↦ inr (hourly (hours_back == 0 || ltb 1 hours_back) h)
        ]
    where
      measured :
          (row : ContainerRow F)
          → is_granular fl sql now id host_id hours_back row ≡ true
          → is_measured row ≡ true
      measured row r = ground (arith, r)

      hourly :
          (b : Bool)
          → Memᴰ p (
              if b
              then map
                  (aggregate_point fl sql)
                  (keep (is_hourly fl sql now id host_id hours_back) db.aggregates)
              else [])
          → (p.memory_percent ≡ fl.zero_f) × (p.memory_limit ≡ 0)
      hourly true k =
          let (a, _, q) =
            map-mem (aggregate_point fl sql)
              (keep (is_hourly fl sql now id host_id hours_back) db.aggregates) k in
          (
            ap (λ (x : ContainerStatsPoint F). x.memory_percent) q,
            ap (λ (x : ContainerStatsPoint F). x.memory_limit) q,
          )
      hourly false k = elim k [ ]

  -- After a pass, each point that is given for a container is the row of a scan of the hour before it, or
  -- has a memory percentage and a memory limit of zero: the hourly rows keep neither.
  pub get_container_stats_aggregated :
      (now later : Time) (id : Text) (host_id hours_back : ℕ) (db : StatsTables F)
      {points : List (ContainerStatsPoint F)}
      → get_container_stats fl sql later id host_id hours_back (aggregate_old_stats fl sql now db).0
        ≡ some points
      → (p : ContainerStatsPoint F) → Memᴰ p points
      → IsRecentPoint now db p ⊎ ((p.memory_percent ≡ fl.zero_f) × (p.memory_limit ≡ 0))
  unfolding get_container_stats
  get_container_stats_aggregated now later id host_id hours_back db {points} h p m =
      let after = (aggregate_old_stats fl sql now db).0 in
      let sorted : points
          ≡ sort_by (λ q r. ltb q.timestamp r.timestamp)
              (all_points fl sql later id host_id hours_back after) =
        ground (arith, h) in
      elim (all_points-mem later id host_id hours_back after p (
        mem-perm
          (sort_by-perm (λ q r. ltb q.timestamp r.timestamp)
            (all_points fl sql later id host_id hours_back after))
          (subst (Memᴰ p) sorted m))) [
            | inl (row, k, measured, q) ↦
                let (l, kept) =
                  keep-mem (λ r. not (is_aggregated now r)) db.containers
                    (subst (Memᴰ row) (aggregate_old_stats-containers fl sql now db) k) in
                inl (row, l, recent-of now row measured kept, q)
            | inr hourly ↦ inr hourly
          ]

  -- A pass an hour after the last scan of a container whose statistics are collected leaves the container no history: its
  -- lifecycle events are read from the rows that the pass removes.
  pub lifecycle_forgotten :
      (now : Time) (db : StatsTables F) (show_gap : ℕ → Text) (name : Text) (host_id : ℕ)
      → ((row : ContainerRow F)
          → Memᴰ row db.containers
          → row.name ≡ name
          → row.host_id ≡ host_id
          → is_aggregated now row ≡ true)
      → get_container_lifecycle_events show_gap name host_id
          (aggregate_old_stats fl sql now db).0.containers
        ≡ []
  lifecycle_forgotten now db show_gap name host_id h =
      no_rows-no_events show_gap name host_id (aggregate_old_stats fl sql now db).0.containers (
        ap (keep (λ row. row.name == name && row.host_id == host_id))
          (aggregate_old_stats-containers fl sql now db)
        ∙ keep-none (λ row. row.name == name && row.host_id == host_id)
            (keep (λ row. not (is_aggregated now row)) db.containers)
            (λ row m.
              let (k, kept) = keep-mem (λ r. not (is_aggregated now r)) db.containers m in
              elim (Bool-cases (row.name == name && row.host_id == host_id)) [
                | inl e ↦ absurd (
                    ground (
                      arith,
                      kept,
                      h row k ((text_beq_iff row.name name).0 (ground (arith, e)))
                          (ground (arith, e)),
                    ))
                | inr e ↦ e
              ]))
