-- ===== src/Notifications/Baselines.antt =====
-- internal/notifications/baseline.go, with SaveContainerBaseline and GetContainerBaseline of
-- internal/storage/notifications.go. `Source` holds the queries that the collector reads, and whether
-- the statement that writes fails. One clock reading serves one pass, and gives `created_at`, the second
-- of CURRENT_TIMESTAMP. GetContainerStats panics at an id of less than 12 characters: `none` stands for the
-- panic, which ends the program; what was stored before it stays.
pub mod Laws
pub mod Rows
pub mod Averages
mod Tests
use container_census.Base.{
  ℕ, suc, ◌+◌, ◌/◌, ◌*◌, ◌-◌, Bool, true, false, not, ◌&&◌, ◌||◌, List, [], ◌∷◌, ◌++◌, Option, none,
  some, map, Text, text_eq, nat_eq, ◌==◌, if◌then◌else◌, keep, ltb, length, Result, ok, err,
}
use container_census.Models.{
  Time, hour, second, Float64, Host, Container, ContainerBaselineStats, ContainerStatsPoint,
}

-- A row of container_baseline_stats, without its number.
pub record BaselineRow (F : Type 0) : Type 0 where
  pub stats : ContainerBaselineStats F
  pub created_at : ℕ

pub record Source (F : Type 0) : Type 0 where
  pub get_hosts : Result (List Host)
  pub get_containers_by_host : ℕ → Result (List (Container F))
  pub get_container_stats : Text → ℕ → ℕ → Result (List (ContainerStatsPoint F))
  pub save_error : ContainerBaselineStats F → Option Text

pub record Sums (F : Type 0) : Type 0 where
  pub total_cpu : F
  pub total_memory_percent : F
  pub total_memory_usage : ℕ
  pub sample_count : ℕ

module _ {F : Type 0} where
  -- The UNIQUE columns.
  pub same_image : ContainerBaselineStats F → BaselineRow F → Bool
  same_image b row =
      row.stats.container_id == b.container_id
      && row.stats.host_id == b.host_id
      && row.stats.image_id == b.image_id

  -- `INSERT OR REPLACE`.
  pub replace_row : Time → ContainerBaselineStats F → List (BaselineRow F) → List (BaselineRow F)
  unfolding same_image
  replace_row now b rows =
      keep (λ row. not (same_image b row)) rows
      ++ (record { stats = b; created_at = now / second } ∷ [])

  abbrev pub later_row : BaselineRow F → Option (BaselineRow F) → Option (BaselineRow F)
  later_row row none = some row
  later_row row (some other) = some (if ltb row.created_at other.created_at then other else row)

  -- `ORDER BY created_at DESC LIMIT 1`.
  abbrev pub latest : List (BaselineRow F) → Option (BaselineRow F)
  latest [] = none
  latest (row ∷ rows) = later_row row (latest rows)

  abbrev pub is_of : Text → ℕ → BaselineRow F → Bool
  is_of id host_id row = row.stats.container_id == id && row.stats.host_id == host_id

  abbrev pub rows_of : Text → ℕ → List (BaselineRow F) → List (BaselineRow F)
  rows_of id host_id rows = keep (is_of id host_id) rows

  abbrev pub row_stats : Option (BaselineRow F) → Option (ContainerBaselineStats F)
  row_stats none = none
  row_stats (some row) = some row.stats

  pub get_container_baseline : Text → ℕ → List (BaselineRow F) → Option (ContainerBaselineStats F)
  get_container_baseline id host_id rows = row_stats (latest (rows_of id host_id rows))

module _ {F : Type 0} (fl : Float64 F) where
  abbrev pub is_sample : ContainerStatsPoint F → Bool
  is_sample point = fl.lt_f fl.zero_f point.cpu_percent || ltb 0 point.memory_usage

  abbrev pub add_sample : Sums F → ContainerStatsPoint F → Sums F
  add_sample sums point = record {
    total_cpu = fl.add_f sums.total_cpu point.cpu_percent;
    total_memory_percent = fl.add_f sums.total_memory_percent point.memory_percent;
    total_memory_usage = sums.total_memory_usage + point.memory_usage;
    sample_count = suc sums.sample_count;
  }

  pub add_samples : Sums F → List (ContainerStatsPoint F) → Sums F
  add_samples sums [] = sums
  add_samples sums (point ∷ points) =
      add_samples (if is_sample point then add_sample sums point else sums) points

  abbrev pub no_samples : Sums F
  no_samples = record {
    total_cpu = fl.zero_f;
    total_memory_percent = fl.zero_f;
    total_memory_usage = 0;
    sample_count = 0;
  }

  pub averages : Time → Text → ℕ → Text → Text → Sums F → ContainerBaselineStats F
  averages now id host_id name image_id sums = record {
    container_id = id;
    container_name = name;
    host_id = host_id;
    image_id = image_id;
    avg_cpu_percent = fl.div_f sums.total_cpu (fl.of_nat sums.sample_count);
    avg_memory_percent = fl.div_f sums.total_memory_percent (fl.of_nat sums.sample_count);
    avg_memory_usage = sums.total_memory_usage / sums.sample_count;
    sample_count = sums.sample_count;
    window_start = now - 48 * hour;
    window_end = now;
  }

  pub baseline_of :
      Time
      → Text
      → ℕ
      → Text
      → Text
      → Result (List (ContainerStatsPoint F))
      → Result (Option (ContainerBaselineStats F))
  unfolding add_samples averages
  baseline_of now id host_id name image_id (err e) = err e
  baseline_of now id host_id name image_id (ok points) =
      let sums = add_samples no_samples points in
      if ltb (length points) 10
      then ok none
      else (if sums.sample_count == 0
          then ok none
          else ok (some (averages now id host_id name image_id sums)))

  module _ (db : Source F) (now : Time) where
    pub calculate_baseline :
        Text → ℕ → Text → Text → Option (Result (Option (ContainerBaselineStats F)))
    unfolding baseline_of
    calculate_baseline id host_id name image_id =
        if ltb (length id) 12
        then none
        else some (baseline_of now id host_id name image_id (db.get_container_stats id host_id 48))

    -- The statement of SaveContainerBaseline, and its error.
    abbrev pub write_row :
        ContainerBaselineStats F
        → Option Text
        → List (BaselineRow F)
        → List (BaselineRow F) × Option Text
    write_row b none rows = (replace_row now b rows, none)
    write_row b (some e) rows = (rows, some e)

    pub save_container_baseline :
        ContainerBaselineStats F → List (BaselineRow F) → List (BaselineRow F) × Option Text
    unfolding replace_row
    save_container_baseline b rows = write_row b (db.save_error b) rows

    abbrev pub counted : List (BaselineRow F) × Option Text → List (BaselineRow F) × Option ℕ
    counted (rows, none) = (rows, some 1)
    counted (rows, some e) = (rows, some 0)

    -- What the loop does with the baseline of one container, and what it adds to `updated`.
    pub update_container :
        Option (Result (Option (ContainerBaselineStats F)))
        → List (BaselineRow F)
        → List (BaselineRow F) × Option ℕ
    unfolding save_container_baseline
    update_container none rows = (rows, none)
    update_container (some (err e)) rows = (rows, some 0)
    update_container (some (ok none)) rows = (rows, some 0)
    update_container (some (ok (some b))) rows = counted (save_container_baseline b rows)

    abbrev pub add_count : ℕ → List (BaselineRow F) × Option ℕ → List (BaselineRow F) × Option ℕ
    add_count n (rows, none) = (rows, none)
    add_count n (rows, some m) = (rows, some (n + m))

    pub update_loop :
        ℕ → List (Container F) → List (BaselineRow F) → List (BaselineRow F) × Option ℕ
    unfolding calculate_baseline update_container
    update_loop host_id [] rows = (rows, some 0)
    update_loop host_id (c ∷ cs) rows =
        let (rows', updated) =
          update_container (calculate_baseline c.id host_id c.name c.image_id) rows in
        elim updated [ none ↦ (rows', none) | some n ↦ add_count n (update_loop host_id cs rows') ]

    abbrev pub as_result :
        List (BaselineRow F) × Option ℕ → List (BaselineRow F) × Option (Result ℕ)
    as_result (rows, none) = (rows, none)
    as_result (rows, some n) = (rows, some (ok n))

    abbrev pub update_found :
        ℕ
        → Result (List (Container F))
        → List (BaselineRow F)
        → List (BaselineRow F) × Option (Result ℕ)
    update_found host_id (err e) rows = (rows, some (err e))
    update_found host_id (ok cs) rows = as_result (update_loop host_id cs rows)

    pub update_host_baselines : ℕ → List (BaselineRow F) → List (BaselineRow F) × Option (Result ℕ)
    unfolding update_loop
    update_host_baselines host_id rows =
        update_found host_id (db.get_containers_by_host host_id) rows

    -- The hosts that are enabled, one after the other; the one that fails leaves the rows. The error of
    -- the pass is `none` here.
    pub update_hosts :
        List Host → List (BaselineRow F) → List (BaselineRow F) × Option (Option Text)
    unfolding update_host_baselines
    update_hosts [] rows = (rows, some none)
    update_hosts (host ∷ hosts) rows =
        let (rows', count) =
          if host.enabled then update_host_baselines host.id rows else (rows, some (ok 0)) in
        elim count [ none ↦ (rows', none) | some n ↦ update_hosts hosts rows' ]

    abbrev pub update_all :
        Result (List Host) → List (BaselineRow F) → List (BaselineRow F) × Option (Option Text)
    update_all (err e) rows = (rows, some (some e))
    update_all (ok hosts) rows = update_hosts hosts rows

    pub update_baselines : List (BaselineRow F) → List (BaselineRow F) × Option (Option Text)
    unfolding update_hosts
    update_baselines rows = update_all db.get_hosts rows

    abbrev pub returned :
        List (BaselineRow F) × Option Text → List (BaselineRow F) × Option (Option Text)
    returned (rows, e) = (rows, some e)

    abbrev pub save_found :
        Option (Result (Option (ContainerBaselineStats F)))
        → List (BaselineRow F)
        → List (BaselineRow F) × Option (Option Text)
    save_found none rows = (rows, none)
    save_found (some (err e)) rows = (rows, some (some e))
    save_found (some (ok none)) rows = (rows, some none)
    save_found (some (ok (some b))) rows = returned (save_container_baseline b rows)

    pub update_baseline_on_image_change :
        Text → ℕ → Text → Text → List (BaselineRow F) → List (BaselineRow F) × Option (Option Text)
    unfolding calculate_baseline save_container_baseline
    update_baseline_on_image_change id host_id name old_image_id rows =
        save_found (calculate_baseline id host_id name old_image_id) rows
