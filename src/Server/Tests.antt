-- ===== src/Server/Tests.antt =====
-- Witnesses and test data for the scans of cmd/server/main.go.
use container_census.Base.{
  ◌+◌, ◌-◌, ◌*◌, ◌/◌, ◌<◌, ◌↔◌, ◌⊎◌, ap, ◌++◌, ◌∷◌, [], List, ltb, decimal, Text, text_eq, lookup,
  is_some, is_empty, any, not, ◌&&◌, ◌==◌, IsMap, Memᴰ, ok, arith, false, true, refl, ℕ, codes, ◌≡◌,
}
use container_census.Models.{Float64, Host, Container}
use container_census.Storage.Containers.{
  ContainerRow, to_row, save_containers, insert_rows, commit, get_containers_by_host,
  scan_container,
}
use container_census.Server.Scans.{Services, ScanState, scan_host, queue_images_for_scanning}
use container_census.Server.Scans.Queue.{queue_each, queue_images_for_scanning_lem}
use container_census.Server.Scans.Status.{scan_host-latest_iff}

abbrev floats : Float64 ℕ
floats = record {
  zero_f = 0;
  quarter = 25;
  hundred = 10000;
  lt_f = ltb;
  add_f = λ a b. a + b;
  sub_f = λ a b. a - b;
  mul_f = λ a b. a * b;
  div_f = λ a b. a / b;
  of_nat = λ n. n;
  show_1f = decimal;
}

abbrev alpha : Host
alpha = record {
  id = 1;
  name = codes "alpha";
  address = codes "agent://a:9876";
  description = [];
  host_type = codes "agent";
  agent_status = codes "online";
  last_seen = 0;
  enabled = true;
  collect_stats = true;
}

abbrev web : Container ℕ
web = record {
  id = codes "c1";
  name = codes "web";
  image = codes "nginx";
  image_id = codes "i1";
  image_size = 0;
  state = codes "running";
  restart_count = 0;
  labels = [];
  host_id = 1;
  host_name = codes "alpha";
  scanned_at = 100;
  networks = [];
  volumes = [];
  compose_project = [];
  cpu_percent = 2;
  memory_usage = 64;
  memory_limit = 1024;
  memory_percent = 6;
  update_available = false;
  last_update_check = 0;
}

-- A scheduler and a notifier that write down what they are asked.
abbrev recording : Services ℕ (List (Text × Text)) (List ℕ)
recording = record {
  queue_image = λ id name q. q ++ ((id, name) ∷ []);
  process_host = λ host table n. n ++ (host ∷ []);
}

queue_images_for_scanning_lem_example :
    (images : List (Text × Text)) × ((queue_images_for_scanning recording
        (web ∷ web ∷ [])
        1
        ([], [])).1
      ≡ queue_each recording images [])
    × IsMap images
    × ((id : Text)
        → is_some (lookup id images)
          ≡ (not (is_empty id) && any (λ c. c.image_id == id) (web ∷ web ∷ [])))
queue_images_for_scanning_lem_example =
    queue_images_for_scanning_lem recording (web ∷ web ∷ []) 1 [] []

-- The state after the first scan of the host, and an empty second scan.
abbrev after_scan : ScanState ℕ (List (Text × Text)) (List ℕ)
after_scan = record {
  hosts = alpha ∷ [];
  containers = to_row web ∷ [];
  scan_results = [];
  image_containers = [];
  scheduler = [];
  notifier = [];
}

no_container : (c : Container ℕ) → Memᴰ c [] → (c.host_id ≡ 1) × (c.scanned_at ≡ 200)
no_container c m = elim m [ ]

row_older :
    (row : ContainerRow ℕ) → Memᴰ row (to_row web ∷ []) → row.host_id ≡ 1 → row.scanned_at < 200
unfolding to_row
row_older row (Memᴰ.head q) e = omega (arith, ap (λ r. r.scanned_at) q)
row_older row (Memᴰ.tail m) e = elim m [ ]

scan_host-latest_iff_example :
    Memᴰ web (
      get_containers_by_host floats 1
        (scan_host recording 200 210 alpha (ok []) after_scan).containers)
    ↔ ((c : Container ℕ) × Memᴰ c [] × (web ≡ scan_container floats (to_row c)))
      ⊎ (◌≡◌ {A = List (Container ℕ)} [] []
          × Memᴰ web (get_containers_by_host floats 1 (to_row web ∷ [])))
unfolding save_containers insert_rows commit
scan_host-latest_iff_example =
    scan_host-latest_iff recording floats 200 210 200 alpha [] after_scan no_container row_older
      refl web
