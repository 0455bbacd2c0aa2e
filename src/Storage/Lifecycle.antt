-- ===== src/Storage/Lifecycle.antt =====
-- GetContainerLifecycleEvents of internal/storage/db.go: the history of a container by its name, out of
-- its rows in the order of their scans. `show_gap` writes a duration rounded to the minute.
pub mod Transitions
pub mod Changes
pub mod Ends
use container_census.Base.{
  ℕ, ◌+◌, ◌-◌, ◌*◌, suc, Bool, true, false, not, ◌&&◌, ◌||◌, List, [], ◌∷◌, ◌++◌, Option, none,
  some, Text, text_eq, nat_eq, codes, decimal, ◌==◌, if◌then◌else◌, keep, length, take, ltb,
  sort_by,
}
use container_census.Models.{Time, hour, LifecycleEvent}
use container_census.Storage.Containers.{ContainerRow}

-- An event with the fields that are not set at their zero values.
abbrev pub event_at : Time → Text → LifecycleEvent
event_at timestamp event_type = record {
  timestamp = timestamp;
  event_type = event_type;
  old_state = [];
  new_state = [];
  old_image = [];
  new_image = [];
  old_image_tag = [];
  new_image_tag = [];
  old_image_sha = [];
  new_image_sha = [];
  description = [];
}

-- `stateDesc`.
pub state_desc : Text → Text
state_desc state = if state == codes "exited" then codes "stopped" else state

-- The kind and the description of a change between two different states.
pub state_event_type : Text → Text → Text
state_event_type old new =
    if old == codes "exited" && new == codes "running"
    then codes "started"
    else if old == codes "running" && new == codes "exited"
    then codes "stopped"
    else if old == codes "running" && new == codes "paused"
    then codes "paused"
    else if old == codes "paused" && new == codes "running"
    then codes "resumed"
    else codes "state_change"

pub state_description : Text → Text → Text
state_description old new =
    if old == codes "exited" && new == codes "running"
    then codes "Container started"
    else if old == codes "running" && new == codes "exited"
    then codes "Container stopped"
    else if old == codes "running" && new == codes "paused"
    then codes "Container paused"
    else if old == codes "paused" && new == codes "running"
    then codes "Container resumed"
    else codes "State changed from '" ++ (old ++ (codes "' to '" ++ (new ++ codes "'")))

pub last_seen_event : ℕ → Time × Text → LifecycleEvent
unfolding state_desc
last_seen_event total (time, state) = record (event_at time (codes "last_seen")) {
  new_state = state;
  description =
      codes "Last observed ("
      ++ (state_desc state ++ (codes ") - seen " ++ (decimal total ++ codes " times total")));
}

module _ {F : Type 0} where
  pub first_seen_event : ContainerRow F → LifecycleEvent
  unfolding state_desc
  first_seen_event row = record (event_at row.scanned_at (codes "first_seen")) {
    new_state = row.state;
    new_image = row.image;
    description =
        codes "Container '"
        ++ (row.name ++ (codes "' first detected (" ++ (state_desc row.state ++ codes ")")));
  }

  pub state_events : ContainerRow F → ContainerRow F → List LifecycleEvent
  unfolding state_event_type state_description
  state_events prev row =
      if prev.state == row.state
      then []
      else record (event_at row.scanned_at (state_event_type prev.state row.state)) {
        old_state = prev.state;
        new_state = row.state;
        description = state_description prev.state row.state;
      }
        ∷ []

  pub image_events : ContainerRow F → ContainerRow F → List LifecycleEvent
  image_events prev row =
      if prev.image_id == row.image_id
      then []
      else let old_sha = take 12 prev.image_id in
        let new_sha = take 12 row.image_id in
        record (event_at row.scanned_at (codes "image_updated")) {
          old_image = old_sha;
          new_image = new_sha;
          old_image_tag = prev.image;
          new_image_tag = row.image;
          old_image_sha = old_sha;
          new_image_sha = new_sha;
          description = codes "Image updated to '" ++ (row.image ++ codes "'");
        }
        ∷ []

  -- `lastScanTime` and `lastState` after the loop over the rows behind the first one, which leaves both
  -- alone.
  pub last_scan : Time → Text → List (ContainerRow F) → Time × Text
  last_scan time state [] = (time, state)
  last_scan time state (row ∷ rows) = last_scan row.scanned_at row.state rows

  -- `WHERE name = ? AND host_id = ? ORDER BY scanned_at ASC`.
  pub container_rows : Text → ℕ → List (ContainerRow F) → List (ContainerRow F)
  container_rows name host_id table =
      sort_by (λ r s. ltb r.scanned_at s.scanned_at)
        (keep (λ row. row.name == name && row.host_id == host_id) table)

module _ {F : Type 0} (show_gap : ℕ → Text) where
  -- A gap of more than two hours between two scans.
  pub gap_events : ContainerRow F → ContainerRow F → List LifecycleEvent
  gap_events prev row =
      let gap = row.scanned_at - prev.scanned_at in
      if ltb (2 * hour) gap
      then record (event_at prev.scanned_at (codes "disappeared")) {
        old_state = prev.state;
        description = codes "Container disappeared (not seen for " ++ (show_gap gap ++ codes ")");
      }
        ∷ record (event_at row.scanned_at (codes "reappeared")) {
          new_state = row.state;
          description = codes "Container reappeared in scan";
        }
        ∷ []
      else []

  -- One turn of the loop after the first row, with the row before it (the LAG columns).
  pub row_events : ContainerRow F → ContainerRow F → List LifecycleEvent
  unfolding gap_events state_events image_events
  row_events prev row = gap_events prev row ++ (state_events prev row ++ image_events prev row)

  pub later_events : ContainerRow F → List (ContainerRow F) → List LifecycleEvent
  unfolding row_events
  later_events prev [] = []
  later_events prev (row ∷ rows) = row_events prev row ++ later_events row rows

  pub lifecycle_events : List (ContainerRow F) → List LifecycleEvent
  unfolding first_seen_event later_events last_scan last_seen_event
  lifecycle_events [] = []
  lifecycle_events (row ∷ rows) =
      first_seen_event row
      ∷ (later_events row rows ++ (last_seen_event (suc (length rows)) (last_scan 0 [] rows) ∷ []))

  unfoldable pub get_container_lifecycle_events :
      Text → ℕ → List (ContainerRow F) → List LifecycleEvent
  unfolding lifecycle_events container_rows
  get_container_lifecycle_events name host_id table =
      lifecycle_events (container_rows name host_id table)
