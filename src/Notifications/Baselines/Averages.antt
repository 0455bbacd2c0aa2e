-- ===== src/Notifications/Baselines/Averages.antt =====
-- calculateBaseline of internal/notifications/baseline.go, against sums over the samples it uses.
use container_census.Base.{
  ℕ, ◌+◌, ◌/◌, ◌*◌, ◌-◌, ◌≤◌, ◌<◌, ◌≡◌, ◌↔◌, sym, ap, subst, ◌∙◌, nat_eq, inl, inr, List, [], ◌∷◌,
  some, Text, keep, ltb, length, arith, ok, Result-cases, Bool-cases, ok_injective,
}
use container_census.Models.{Time, hour, Float64, ContainerBaselineStats, ContainerStatsPoint}
use container_census.Notifications.Baselines.{
  Source, Sums, is_sample, add_sample, add_samples, no_samples, averages, baseline_of,
  calculate_baseline,
}

some_injective : {A : Type 0} {a b : A} → some a ≡ some b → a ≡ b
some_injective q = ground (arith, q)

module _ {F : Type 0} (fl : Float64 F) where
  -- Sums from the first point to the last one: the addition of float64 is not associative.
  abbrev pub sum_f : (ContainerStatsPoint F → F) → F → List (ContainerStatsPoint F) → F
  sum_f f total [] = total
  sum_f f total (point ∷ points) = sum_f f (fl.add_f total (f point)) points

  abbrev pub sum_memory : List (ContainerStatsPoint F) → ℕ
  sum_memory [] = 0
  sum_memory (point ∷ points) = point.memory_usage + sum_memory points

  abbrev sums_of : Sums F → List (ContainerStatsPoint F) → Sums F
  sums_of sums points = record {
    total_cpu = sum_f (λ point. point.cpu_percent) sums.total_cpu points;
    total_memory_percent = sum_f (λ point. point.memory_percent) sums.total_memory_percent points;
    total_memory_usage = sums.total_memory_usage + sum_memory points;
    sample_count = sums.sample_count + length points;
  }

  add_samples_lem :
      (sums : Sums F) (points : List (ContainerStatsPoint F))
      → add_samples fl sums points ≡ sums_of sums (keep (is_sample fl) points)
  unfolding add_samples
  add_samples_lem sums [] = ground arith
  add_samples_lem sums (point ∷ points) = elim (Bool-cases (is_sample fl point)) [
    | inl e ↦ rw e (add_samples_lem (add_sample fl sums point) points ∙ ground arith)
    | inr e ↦ rw e (add_samples_lem sums points)
  ]

  -- The samples of the points: those with some CPU or memory.
  abbrev pub samples : List (ContainerStatsPoint F) → List (ContainerStatsPoint F)
  samples points = keep (is_sample fl) points

  abbrev pub baseline_from :
      Time → Text → ℕ → Text → Text → List (ContainerStatsPoint F) → ContainerBaselineStats F
  baseline_from now id host_id name image_id used = record {
    container_id = id;
    container_name = name;
    host_id = host_id;
    image_id = image_id;
    avg_cpu_percent =
        fl.div_f (sum_f (λ point. point.cpu_percent) fl.zero_f used) (fl.of_nat (length used));
    avg_memory_percent =
        fl.div_f (sum_f (λ point. point.memory_percent) fl.zero_f used) (fl.of_nat (length used));
    avg_memory_usage = sum_memory used / length used;
    sample_count = length used;
    window_start = now - 48 * hour;
    window_end = now;
  }

  baseline_of_iff :
      (now : Time) (id : Text) (host_id : ℕ) (name image_id : Text)
      (points : List (ContainerStatsPoint F)) (b : ContainerBaselineStats F)
      → (baseline_of fl now id host_id name image_id (ok points) ≡ ok (some b)) ↔ (
          (10 ≤ length points)
          × (0 < length (samples points))
          × (b ≡ baseline_from now id host_id name image_id (samples points)))
  unfolding baseline_of averages
  baseline_of_iff now id host_id name image_id points b =
      rw (add_samples_lem (no_samples fl) points)
        ((λ h. ground (arith, h)), (λ (long, some_used, r). ground (arith, long, some_used, r)))

  queried_iff :
      (db : Source F) (now : Time) (id : Text) (host_id : ℕ) (name image_id : Text)
      (b : ContainerBaselineStats F)
      → (baseline_of fl now id host_id name image_id (db.get_container_stats id host_id 48)
          ≡ ok (some b))
        ↔ ((points : List (ContainerStatsPoint F)) × (db.get_container_stats id host_id 48
              ≡ ok points)
            × (10 ≤ length points)
            × (0 < length (samples points))
            × (b ≡ baseline_from now id host_id name image_id (samples points)))
  unfolding baseline_of
  queried_iff db now id host_id name image_id b =
      elim (Result-cases (db.get_container_stats id host_id 48)) [
        | inl (points, e) ↦
            let found = baseline_of_iff now id host_id name image_id points b in
            (
              λ h.
                  let (long, some_used, r) = found.0 (rw e at h) in (points, e, long, some_used, r),
              λ (other, q, long, some_used, r).
                  let same : other ≡ points = ok_injective (sym q ∙ e) in
                  rw e (
                    found.1 (
                      subst (λ ps. 10 ≤ length ps) same long,
                      subst (λ ps. 0 < length (samples ps)) same some_used,
                      r ∙ ap (λ ps. baseline_from now id host_id name image_id (samples ps)) same,
                    )),
            )
        | inr (text, e) ↦ (
          λ h. absurd (ground (arith, e, h)),
          λ (points, q, long, some_used, r). absurd (ground (arith, e, q)),
        )
      ]

  -- A baseline is computed exactly if the id has the 12 characters without which the query panics, the
  -- query for the last 48 hours succeeds, gives at least ten points, and some of them have CPU or memory
  -- above zero; it is then the average over those, and counts them.
  pub calculate_baseline_iff :
      (db : Source F) (now : Time) (id : Text) (host_id : ℕ) (name image_id : Text)
      (b : ContainerBaselineStats F)
      → (calculate_baseline fl db now id host_id name image_id ≡ some (ok (some b))) ↔ (
          (12 ≤ length id)
          × ((points : List (ContainerStatsPoint F)) × (db.get_container_stats id host_id 48
                ≡ ok points)
              × (10 ≤ length points)
              × (0 < length (samples points))
              × (b ≡ baseline_from now id host_id name image_id (samples points))))
  unfolding calculate_baseline
  calculate_baseline_iff db now id host_id name image_id b =
      elim (Bool-cases (ltb (length id) 12)) [
        | inl short ↦
            rw short (
              (λ h. absurd (ground (arith, h))),
              (λ (long, _). absurd (ground (arith, short, long))),
            )
        | inr fits ↦
            let (to, from) = queried_iff db now id host_id name image_id b in
            rw fits (
              (λ h. (ground (arith, fits), to (some_injective h))),
              (λ (_, h). ap (λ r. some r) (from h)),
            )
      ]
