-- ===== src/Storage/Containers.antt =====
-- SaveContainers, scanContainers and the queries for the latest containers, of internal/storage/db.go.
-- A column of JSON keeps its value; a NULL is `none`. The columns that the model leaves out (ports,
-- links, image tags, status and creation time) are written and read like `networks`.
pub mod RoundTrip
use container_census.Base.{
  ℕ, Bool, true, false, not, ◌&&◌, ◌||◌, List, [], ◌∷◌, ◌++◌, Option, none, some, map, Text,
  text_eq, codes, nat_eq, ◌==◌, if◌then◌else◌, any, keep, ltb, leb, sort_by, Result, ok, err, ◌≡◌,
  refl, arith,
}
use container_census.Models.{Time, Float64, Container, VolumeMount}

pub record ContainerRow (F : Type 0) : Type 0 where
  pub id : Text
  pub name : Text
  pub image : Text
  pub image_id : Text
  pub state : Text
  pub labels : List (Text × Text)
  pub host_id : ℕ
  pub host_name : Text
  pub scanned_at : Time
  pub networks : List Text
  pub volumes : List VolumeMount
  pub compose_project : Text
  pub cpu_percent : Option F
  pub memory_usage : Option ℕ
  pub memory_limit : Option ℕ
  pub memory_percent : Option F
  pub update_available : Bool
  pub last_update_check : Option Time

abbrev pub value_or {ℓ} : {A : Type ℓ} → A → Option A → A
value_or a none = a
value_or a (some b) = b

-- A statistic is stored if the memory limit says that statistics were collected.
abbrev pub stored_if {ℓ} : {A : Type ℓ} → Bool → A → Option A
stored_if true a = some a
stored_if false a = none

abbrev pub later_of : Time → Option Time → Option Time
later_of t none = some t
later_of t (some u) = some (if ltb t u then u else t)

abbrev pub is_time : Time → Option Time → Bool
is_time t none = false
is_time t (some u) = t == u

-- Byte order of texts, as SQLite's BINARY collation compares them.
pub text_lt : Text → Text → Bool
text_lt xs [] = false
text_lt [] (y ∷ ys) = true
text_lt (x ∷ xs) (y ∷ ys) = ltb x y || (x == y && text_lt xs ys)

pub text_lt_asym : (s t : Text) → text_lt s t ≡ true → text_lt t s ≡ false
unfolding text_lt
text_lt_asym [] [] h = refl
text_lt_asym [] (y ∷ t) h = refl
text_lt_asym (x ∷ s) [] h = absurd (ground (arith, h))
text_lt_asym (x ∷ s) (y ∷ t) h = ground (arith, h, text_lt_asym s t)

module _ {F : Type 0} where
  -- The arguments of the INSERT of SaveContainers.
  unfoldable pub to_row : Container F → ContainerRow F
  to_row c =
      let collected = ltb 0 c.memory_limit in
      record {
        id = c.id;
        name = c.name;
        image = c.image;
        image_id = c.image_id;
        state = c.state;
        labels = c.labels;
        host_id = c.host_id;
        host_name = c.host_name;
        scanned_at = c.scanned_at;
        networks = c.networks;
        volumes = c.volumes;
        compose_project = c.compose_project;
        cpu_percent = stored_if collected c.cpu_percent;
        memory_usage = stored_if collected c.memory_usage;
        memory_limit = stored_if collected c.memory_limit;
        memory_percent = stored_if collected c.memory_percent;
        update_available = c.update_available;
        last_update_check = stored_if (not (c.last_update_check == 0)) c.last_update_check;
      }

  -- The primary key.
  pub same_key : ContainerRow F → ContainerRow F → Bool
  same_key r s = r.id == s.id && r.host_id == s.host_id && r.scanned_at == s.scanned_at

  -- The loop of INSERTs of the transaction, up to the first one that breaks the primary key.
  unfoldable pub insert_rows :
      List (Container F) → List (ContainerRow F) → Result (List (ContainerRow F))
  unfolding to_row same_key
  insert_rows [] table = ok table
  insert_rows (c ∷ cs) table =
      if any (same_key (to_row c)) table
      then err (
          codes
            "UNIQUE constraint failed: containers.id, containers.host_id, containers.scanned_at")
      else insert_rows cs (table ++ (to_row c ∷ []))

  -- A failed transaction is rolled back.
  unfoldable pub commit :
      List (ContainerRow F) → Result (List (ContainerRow F)) → List (ContainerRow F) × Option Text
  commit table (ok rows) = (rows, none)
  commit table (err e) = (table, some e)

  unfoldable pub save_containers :
      List (Container F) → List (ContainerRow F) → List (ContainerRow F) × Option Text
  unfolding insert_rows commit
  save_containers cs table = commit table (insert_rows cs table)

  -- A row as scanContainers reads it; what is not read stays at its zero value.
  unfoldable pub scan_container : Float64 F → ContainerRow F → Container F
  scan_container fl row = record {
    id = row.id;
    name = row.name;
    image = row.image;
    image_id = row.image_id;
    image_size = 0;
    state = row.state;
    restart_count = 0;
    labels = row.labels;
    host_id = row.host_id;
    host_name = row.host_name;
    scanned_at = row.scanned_at;
    networks = row.networks;
    volumes = row.volumes;
    compose_project = row.compose_project;
    cpu_percent = value_or fl.zero_f row.cpu_percent;
    memory_usage = value_or 0 row.memory_usage;
    memory_limit = value_or 0 row.memory_limit;
    memory_percent = value_or fl.zero_f row.memory_percent;
    update_available = row.update_available;
    last_update_check = value_or 0 row.last_update_check;
  }

  -- `MAX(scanned_at)` of the rows of a host.
  pub max_scan : ℕ → List (ContainerRow F) → Option Time
  max_scan host_id [] = none
  max_scan host_id (row ∷ rows) =
      let rest = max_scan host_id rows in
      if row.host_id == host_id then later_of row.scanned_at rest else rest

  -- A row of the latest scan of its host: the join condition.
  pub is_latest : List (ContainerRow F) → ContainerRow F → Bool
  unfolding max_scan
  is_latest table row = is_time row.scanned_at (max_scan row.host_id table)

  abbrev pub by_host_and_name : ContainerRow F → ContainerRow F → Bool
  by_host_and_name r s =
      text_lt r.host_name s.host_name || (r.host_name == s.host_name && text_lt r.name s.name)

  unfoldable pub get_latest_containers : Float64 F → List (ContainerRow F) → List (Container F)
  unfolding is_latest scan_container text_lt
  get_latest_containers fl table =
      map (scan_container fl) (sort_by by_host_and_name (keep (is_latest table) table))

  pub get_containers_by_host : Float64 F → ℕ → List (ContainerRow F) → List (Container F)
  unfolding is_latest scan_container text_lt
  get_containers_by_host fl host_id table = map (scan_container fl) (
      sort_by (λ r s. text_lt r.name s.name)
        (keep (λ row. row.host_id == host_id && is_latest table row) table))
