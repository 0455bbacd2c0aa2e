-- ===== src/Server/Scans.antt =====
-- performScan and queueImagesForScanning of cmd/server/main.go. The scheduler and the notifier are states
-- of types Q and N with the operations of `Services`; the clock readings and the results of ScanHost are
-- arguments. Failed writes are only logged: the tables are those of a database that answers.
pub mod Queue
pub mod Status
use container_census.Base.{
  ℕ, suc, ◌+◌, ◌≡◌, Bool, true, false, not, ◌&&◌, ◌||◌, List, [], ◌∷◌, ◌++◌, map, Option, none,
  some, Result, ok, err, Text, text_eq, nat_eq, codes, ◌==◌, if◌then◌else◌, is_empty, is_some, any,
  lookup, insert, length,
}
use container_census.Models.{Time, Host, Container}
use container_census.Storage.Containers.{ContainerRow, save_containers}

pub record ScanResult : Type 0 where
  pub host_id : ℕ
  pub host_name : Text
  pub started_at : Time
  pub completed_at : Time
  pub success : Bool
  pub error : Text
  pub containers_found : ℕ

-- A container of an image, as UpdateImageContainer maps them.
pub record ImageContainer : Type 0 where
  pub image_id : Text
  pub container_id : Text
  pub host_id : ℕ

-- QueueScan of the scheduler with priority 0, and ProcessEvents of the notifier for a host over the
-- containers that are stored.
pub record Services (F Q N : Type 0) : Type 0 where
  pub queue_image : Text → Text → Q → Q
  pub process_host : ℕ → List (ContainerRow F) → N → N

pub record ScanState (F Q N : Type 0) : Type 0 where
  pub hosts : List Host
  pub containers : List (ContainerRow F)
  pub scan_results : List ScanResult
  pub image_containers : List ImageContainer
  pub scheduler : Q
  pub notifier : N

-- `strings.Contains(text, "401")`.
pub starts_with : Text → Text → Bool
starts_with [] text = true
starts_with (p ∷ prefix) [] = false
starts_with (p ∷ prefix) (c ∷ text) = p == c && starts_with prefix text

pub contains : Text → Text → Bool
unfolding starts_with
contains sub [] = starts_with sub []
contains sub (c ∷ text) = starts_with sub (c ∷ text) || contains sub text

-- UpdateHost: the row of the same id.
pub update_host : Host → List Host → List Host
update_host host hosts = map (λ other. if other.id == host.id then host else other) hosts

-- The host that is stored after a failed scan, `none` if none is.
pub failed_host : Host → Text → Option Host
unfolding contains
failed_host host e =
    if host.host_type == codes "agent" && contains (codes "401") e
    then some (record host { agent_status = codes "auth_failed" })
    else if host.host_type == codes "agent"
    then some (record host { agent_status = codes "offline" })
    else none

-- The same after a scan that succeeded.
pub online_host : Time → Host → Option Host
online_host now host =
    if host.host_type == codes "agent" && not (host.agent_status == codes "online")
    then some (record host { agent_status = codes "online"; last_seen = now })
    else none

pub update_if : Option Host → List Host → List Host
unfolding update_host
update_if none hosts = hosts
update_if (some host) hosts = update_host host hosts

module _ {F Q N : Type 0} (services : Services F Q N) where
  -- The loop of queueImagesForScanning, with the images that it has seen.
  pub queue_loop :
      ℕ
      → List (Text × Text)
      → List (Container F)
      → List ImageContainer × Q
      → List ImageContainer × Q
  queue_loop host_id seen [] state = state
  queue_loop host_id seen (c ∷ cs) (mapped, q) =
      if is_empty c.image_id || is_some (lookup c.image_id seen)
      then queue_loop host_id seen cs (mapped, q)
      else queue_loop host_id (insert c.image_id c.image seen) cs (
        mapped ++ (record { image_id = c.image_id; container_id = c.id; host_id = host_id } ∷ []),
        services.queue_image c.image_id c.image q,
      )

  pub queue_images_for_scanning :
      List (Container F) → ℕ → List ImageContainer × Q → List ImageContainer × Q
  unfolding queue_loop
  queue_images_for_scanning containers host_id state = queue_loop host_id [] containers state

  -- The turn of performScan for one enabled host.
  pub scan_host :
      Time → Time → Host → Result (List (Container F)) → ScanState F Q N → ScanState F Q N
  unfolding failed_host update_if
  scan_host started completed host (err e) s = record s {
    hosts = update_if (failed_host host e) s.hosts;
    scan_results =
        s.scan_results
        ++ (record {
          host_id = host.id;
          host_name = host.name;
          started_at = started;
          completed_at = completed;
          success = false;
          error = e;
          containers_found = 0;
        }
            ∷ []);
  }
  scan_host started completed host (ok containers) s =
      let stored = (save_containers containers s.containers).0 in
      let queued = queue_images_for_scanning containers host.id (s.image_containers, s.scheduler) in
      record {
        hosts = update_if (online_host completed host) s.hosts;
        containers = stored;
        scan_results =
            s.scan_results
            ++ (record {
              host_id = host.id;
              host_name = host.name;
              started_at = started;
              completed_at = completed;
              success = true;
              error = [];
              containers_found = length containers;
            }
                ∷ []);
        image_containers = queued.0;
        scheduler = queued.1;
        notifier = services.process_host host.id stored s.notifier;
      }

  -- The loop over the hosts that GetHosts gave. `scanned` gives the clock readings around the scan of a
  -- host and what ScanHost gave.
  pub scan_hosts :
      (Host → Time × Time × Result (List (Container F)))
      → List Host
      → ScanState F Q N
      → ScanState F Q N
  unfolding scan_host
  scan_hosts scanned [] s = s
  scan_hosts scanned (host ∷ hosts) s =
      let (started, completed, result) = scanned host in
      scan_hosts scanned hosts
        (if host.enabled then scan_host started completed host result s else s)

  pub perform_scan :
      (Host → Time × Time × Result (List (Container F))) → ScanState F Q N → ScanState F Q N
  unfolding scan_hosts
  perform_scan scanned s = scan_hosts scanned s.hosts s
