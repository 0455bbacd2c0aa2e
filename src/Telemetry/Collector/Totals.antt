-- ===== src/Telemetry/Collector/Totals.antt =====
-- The totals of a report of CollectReport (internal/telemetry/collector.go).
use container_census.Base.{
  ℕ, ◌+◌, ◌≤◌, ◌≡◌, refl, sym, subst, ap, List, [], ◌∷◌, map, ok, ok_injective, Text, text_eq,
  text_beq_iff, codes, length, count_if, count_if_mono, count_if-le, ltb, arith, Memᴰ, map-mem,
}
use container_census.Models.{Time, Float64, Host, Container}
use container_census.Storage.Containers.{ContainerRow, scan_container, get_latest_containers}
use container_census.Telemetry.Types.{ImageStat, AgentInfo, TelemetryReport}
use container_census.Telemetry.Collector.{
  sum_of, is_agent, has_state, has_other_state, is_custom_network, image_map, network_set,
  build_report, collect_report,
}
use container_census.Telemetry.Collector.Images.{image_map-count, image_map-size}

sum_of-map {ℓ κ} :
    {A : Type ℓ} {B : Type κ} (f : B → ℕ) (g : A → B) (xs : List A)
    → sum_of f (map g xs) ≡ sum_of (λ x. f (g x)) xs
sum_of-map f g [] = refl
sum_of-map f g (x ∷ xs) = omega (arith, sum_of-map f g xs)

length-map {ℓ κ} :
    {A : Type ℓ} {B : Type κ} (g : A → B) (xs : List A) → length (map g xs) ≡ length xs
length-map g [] = refl
length-map g (x ∷ xs) = omega (arith, length-map g xs)

module _ {F : Type 0} where
  states_total :
      (cs : List (Container F))
      → count_if (has_state (codes "running")) cs
          + count_if (has_state (codes "exited")) cs
          + count_if (has_state (codes "paused")) cs
          + count_if has_other_state cs
        ≡ length cs
  states_total [] = omega arith
  states_total (c ∷ cs) = ground (
    arith,
    states_total cs,
    text_beq_iff c.state (codes "running"),
    text_beq_iff c.state (codes "exited"),
    text_beq_iff c.state (codes "paused"),
  )

  -- The numbers of a report that belong together.
  abbrev pub TotalsAgree : List (Container F) → TelemetryReport F → Type 0
  TotalsAgree containers r =
      (r.containers_running + r.containers_stopped + r.containers_paused + r.containers_other
        ≡ r.total_containers)
      × (sum_of (λ stat. stat.count) r.image_stats ≡ r.total_containers)
      × (r.total_containers ≡ length containers)
      × (r.unique_images ≡ length r.image_stats)
      × (r.agent_count ≤ r.host_count)
      × (r.custom_network_count ≤ r.network_count)
      × (r.high_restart_containers ≤ r.total_containers)

  latest_container :
      (fl : Float64 F) (table : List (ContainerRow F)) (c : Container F)
      → Memᴰ c (get_latest_containers fl table)
      → (c.image_size ≡ 0) × (c.restart_count ≡ 0)
  unfolding get_latest_containers scan_container
  latest_container fl table c m =
      let (row, _, e) = map-mem (scan_container fl) _ m in
      (ap (λ d. d.image_size) e, ap (λ d. d.restart_count) e)

  no_restarts :
      (cs : List (Container F))
      → ((c : Container F) → Memᴰ c cs → c.restart_count ≡ 0)
      → count_if (λ c. ltb 10 c.restart_count) cs ≡ 0
  no_restarts [] h = refl
  no_restarts (c ∷ cs) h =
      ground (arith, h c (Memᴰ.head refl), no_restarts cs (λ d m. h d (Memᴰ.tail m)))

module _ {F : Type 0} (fl : Float64 F) where
  -- A report counts each container in one of the four states and under one image: the four states, and
  -- the counts of the images, add up to the number of containers. There are as many entries of images as
  -- the report says, and no more agents than hosts.
  pub collect_report_totals :
      (installation_id version tz : Text) (scan_interval : ℕ) (now : Time) (hosts : List Host)
      (containers : List (Container F)) (agents : List (Text × AgentInfo)) (r : TelemetryReport F)
      → collect_report fl installation_id version tz scan_interval now
          (ok hosts)
          (ok containers)
          agents
        ≡ ok r
      → TotalsAgree containers r
  unfolding collect_report build_report
  collect_report_totals installation_id version tz scan_interval now hosts containers agents r
        found =
      let images = image_map containers [] in
      let counted : sum_of (λ stat. stat.count) (map (λ entry. entry.1) images)
          ≡ length containers =
        omega (
          arith,
          sum_of-map (λ (stat : ImageStat). stat.count) (λ (entry : Text × ImageStat). entry.1)
              images,
          image_map-count containers [],
        ) in
      subst (TotalsAgree containers) (ok_injective found) (
        states_total containers,
        counted,
        refl,
        sym (length-map (λ (entry : Text × ImageStat). entry.1) images),
        count_if_mono is_agent (λ host. host.enabled) hosts (λ host h. ground (arith, h)),
        count_if-le is_custom_network (network_set containers []),
        count_if-le (λ c. ltb 10 c.restart_count) containers,
      )

  -- Of the containers that the database gives, a report has no size of images and no container that
  -- restarts often, whatever the scans saw: neither is stored.
  pub collect_report_stored :
      (installation_id version tz : Text) (scan_interval : ℕ) (now : Time) (hosts : List Host)
      (table : List (ContainerRow F)) (agents : List (Text × AgentInfo)) (r : TelemetryReport F)
      → collect_report fl installation_id version tz scan_interval now
          (ok hosts)
          (ok (get_latest_containers fl table))
          agents
        ≡ ok r
      → (r.total_image_size ≡ 0) × (r.high_restart_containers ≡ 0)
  unfolding collect_report build_report
  collect_report_stored installation_id version tz scan_interval now hosts table agents r found =
      let cs = get_latest_containers fl table in
      subst (λ (r : TelemetryReport F). (r.total_image_size ≡ 0) × (r.high_restart_containers ≡ 0))
        (ok_injective found)
        (
          image_map-size cs [] (λ c m. (latest_container fl table c m).0),
          no_restarts cs (λ c m. (latest_container fl table c m).1),
        )
