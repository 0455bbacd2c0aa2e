-- ===== src/Storage/Tests.antt =====
-- Witnesses and test data for the containers table: one container that runs and then stops. The numbers
-- of type float64 are taken as natural numbers.
use container_census.Base.{
  ℕ, ◌+◌, ◌-◌, ◌*◌, ◌/◌, ◌<◌, ◌≡◌, ◌≢◌, ◌↔◌, ◌⊎◌, refl, false, List, [], ◌∷◌, ◌++◌, map, none, some,
  Text, codes, Memᴰ, arith, ltb, length, decimal, text_beq, zero, suc,
}
use container_census.Models.{hour, minute, Float64, Container}
use container_census.Storage.Containers.{ContainerRow, to_row, save_containers}
use container_census.Storage.Containers.RoundTrip.{IsKeyed, save_containers_lem}
use container_census.Storage.Lifecycle.{lifecycle_events}
use container_census.Storage.Lifecycle.Transitions.{stopping, Has, Changes}
use container_census.Storage.Lifecycle.Changes.{lifecycle_events-Has_iff}
use container_census.Storage.Cleanup.{old_rows, prev_row, cleanup_redundant_scans}
use container_census.Storage.Cleanup.Recent.{recent_mem-cleanup_redundant_scans_iff}

abbrev floats : Float64 ℕ
floats = record {
  zero_f = 0;
  quarter = 25;
  hundred = 10000;
  lt_f = ltb;
  add_f = λ a b. a + b;
  sub_f = λ a b. a - b;
  mul_f = λ a b. a * b;
  div_f = λ a b. a / b;
  of_nat = λ n. n;
  show_1f = decimal;
}

abbrev web : Container ℕ
web = record {
  id = codes "c1";
  name = codes "web";
  image = codes "nginx";
  image_id = codes "i1";
  image_size = 5000;
  state = codes "running";
  restart_count = 12;
  labels = [];
  host_id = 1;
  host_name = codes "alpha";
  scanned_at = 100;
  networks = [];
  volumes = [];
  compose_project = [];
  cpu_percent = 0;
  memory_usage = 0;
  memory_limit = 0;
  memory_percent = 0;
  update_available = false;
  last_update_check = 0;
}

abbrev stopped : Container ℕ
stopped = record web { state = codes "exited"; scanned_at = 200 }

abbrev table : List (ContainerRow ℕ)
table = to_row web ∷ []

save_containers_lem_example :
    IsKeyed (save_containers (stopped ∷ []) table).0
    × (((save_containers (stopped ∷ []) table).0 ≡ table ++ map to_row (stopped ∷ []))
          × ((save_containers (stopped ∷ []) table).1 ≡ none)
        ⊎ ((save_containers (stopped ∷ []) table).0 ≡ table)
          × ((save_containers (stopped ∷ []) table).1 ≢ none))
save_containers_lem_example = save_containers_lem (stopped ∷ []) table (refl, tt)

abbrev show_minutes : ℕ → Text
show_minutes gap = decimal (gap / minute)

lifecycle_events-Has_iff_example :
    Has (codes "stopped") 200 (lifecycle_events show_minutes (to_row web ∷ to_row stopped ∷ []))
    ↔ Changes (codes "running") (codes "exited") 200 (to_row web ∷ to_row stopped ∷ [])
lifecycle_events-Has_iff_example =
    lifecycle_events-Has_iff show_minutes stopping 200 (to_row web ∷ to_row stopped ∷ [])

-- A scan in each of the first minutes, the latest one first.
abbrev scan_at : ℕ → ContainerRow ℕ
scan_at n = to_row (record web { scanned_at = n * minute })

abbrev scans : ℕ → List (ContainerRow ℕ)
scans zero = []
scans (suc n) = scan_at (suc n) ∷ scans n

eleven_old : 10 < length (old_rows (12 * minute) 0 (scans 12) (scan_at 12))
unfolding old_rows to_row text_beq
eleven_old = omega arith

scan_before : prev_row (scans 12) (scan_at 12) ≡ some (scan_at 11)
unfolding prev_row to_row text_beq
scan_before = refl

recent_mem-cleanup_redundant_scans_iff_example :
    Memᴰ (scan_at 12) (cleanup_redundant_scans (12 * minute) 0 (scans 12)).0
    ↔ ((scan_at 12).state ≢ (scan_at 11).state)
      ⊎ ((scan_at 12).image_id ≢ (scan_at 11).image_id)
      ⊎ ((scan_at 11).scanned_at + 2 * hour < (scan_at 12).scanned_at)
unfolding to_row
recent_mem-cleanup_redundant_scans_iff_example =
    recent_mem-cleanup_redundant_scans_iff (12 * minute) 0 (scans 12) (scan_at 12) (scan_at 11)
      (Memᴰ.head refl) (omega arith) eleven_old scan_before
