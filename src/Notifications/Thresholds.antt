-- ===== src/Notifications/Thresholds.antt =====
-- The threshold trackers of internal/notifications/notifier.go: checkThreshold and ResetThreshold over
-- the map `thresholdState`, each under its mutex. One clock reading serves a whole call.
pub mod Key
pub mod Laws
use container_census.Base.{
  ℕ, suc, ◌+◌, Bool, true, false, List, [], ◌∷◌, ◌++◌, Option, none, some, Text, text_eq, lookup,
  insert, decimal, if◌then◌else◌,
}
use container_census.Models.{Time, Container, since_lt}

pub record ThresholdTracker : Type 0 where
  pub breached_at : Time
  pub last_notified_at : Time
  pub breach_count : ℕ

abbrev pub Trackers : Type 0
Trackers = List (Text × ThresholdTracker)

-- `fmt.Sprintf("%s-%d-%s", containerID, hostID, thresholdType)`.
pub threshold_key : Text → ℕ → Text → Text
threshold_key container_id host_id threshold_type =
    container_id ++ (45 ∷ (decimal host_id ++ (45 ∷ threshold_type)))

-- The state afterwards, and whether the duration is met (the code's nil error).
check_tracker : Time → Text → ℕ → Trackers → Option ThresholdTracker → Trackers × Bool
check_tracker now key duration state none =
    (insert key (record { breached_at = now; last_notified_at = 0; breach_count = 1 }) state, false)
check_tracker now key duration state (some tracker) =
    if since_lt now tracker.breached_at duration
    then (insert key (record tracker { breach_count = tracker.breach_count + 1 }) state, false)
    else (state, true)

pub check_threshold : {F : Type 0} → Time → Container F → Text → F → ℕ → Trackers → Trackers × Bool
unfolding check_tracker
check_threshold now container threshold_type value duration state =
    let key = threshold_key container.id container.host_id threshold_type in
    check_tracker now key duration state (lookup key state)

pub reset_threshold : Time → Text → ℕ → Text → Trackers → Trackers
reset_threshold now container_id host_id threshold_type state =
    let key = threshold_key container_id host_id threshold_type in
    elim (lookup key state) [
      | none ↦ state
      | some tracker ↦ insert key (record tracker { last_notified_at = now }) state
    ]
