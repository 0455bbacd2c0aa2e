-- ===== src/Vulnerability/Tests.antt =====
-- Runs of the image scanner (internal/vulnerability) on one image, with the tables as its storage.
use container_census.Base.{
  ◌*◌, ◌≡◌, refl, ◌↔◌, ◌⊎◌, true, false, List, [], ◌∷◌, ◌++◌, Text, codes, text_eq, length, Result,
  ok, err,
}
use container_census.Base.Int.{pos}
use container_census.Models.{Time, hour}
use container_census.Vulnerability.Types.{
  Vulnerability, VulnerabilityScan, TrivyVulnerability, TrivyResult, no_counts,
}
use container_census.Vulnerability.Storage.{VulnerabilityTables, database_storage}
use container_census.Vulnerability.Cache.{Cache, get}
use container_census.Vulnerability.Cache.Laws.{AtHand, get_iff}
use container_census.Vulnerability.Config.{default_config}
use container_census.Vulnerability.Config.Laws.{Setting}
use container_census.Vulnerability.Scanner.{Scanner, scan_image}
use container_census.Vulnerability.Scanner.Laws.{
  CountsAre, ReportsAll, all_findings, scan_image_lem,
}
use container_census.Vulnerability.Scheduler.{
  ScanJob, Scheduler, new_scheduler, start, force_queue_scan, offer, receive_job, begin_job,
  finish_job,
}
use container_census.Vulnerability.Scheduler.Laws.{job_of}
use container_census.Vulnerability.Scheduler.Workers.{Step, Reachable, IsSound, Reachable-IsSound}

abbrev openssl : TrivyVulnerability
openssl = record {
  vulnerability_id = codes "CVE-1";
  pkg_name = codes "openssl";
  installed_version = codes "1.0";
  fixed_version = codes "1.1";
  severity = codes "HIGH";
  title = [];
  description = [];
  published_date = 0;
  last_modified_date = 0;
  primary_url = [];
}

abbrev trivy : Text → Result TrivyResult
trivy image = ok ((openssl ∷ []) ∷ [])

abbrev same_case : Text → Text
same_case s = s

abbrev scan : VulnerabilityScan
scan = record {
  image_id = codes "i1";
  image_name = codes "nginx";
  scanned_at = 1000 * hour;
  scan_duration_ms = 12;
  success = true;
  error = [];
  trivy_db_version = codes "2";
  total_vulnerabilities = 0;
  severity_counts = no_counts;
}

abbrev empty_tables : VulnerabilityTables
empty_tables = record { vulnerability_scans = []; vulnerabilities = [] }

abbrev tables : VulnerabilityTables
tables = record { vulnerability_scans = (codes "i1", scan) ∷ []; vulnerabilities = [] }

abbrev cache : Cache VulnerabilityTables
cache = record { scans = (codes "i1", scan) ∷ []; ttl = 24 * hour; storage = tables }

abbrev soon : Time
soon = 1001 * hour

get_iff_example :
    ((get database_storage soon (codes "i1") cache).1 ≡ ok scan)
    ↔ AtHand database_storage soon (codes "i1") cache scan
get_iff_example = get_iff database_storage soon (codes "i1") cache scan

abbrev empty_cache : Cache VulnerabilityTables
empty_cache = record { scans = []; ttl = 24 * hour; storage = empty_tables }

abbrev settings : List Setting
settings = Setting.workers (pos 11) ∷ Setting.ttl (pos 48) ∷ []

abbrev scanner : Scanner VulnerabilityTables
scanner = record { config = default_config []; cache = empty_cache }

scan_image_lem_example :
    let r =
      (scan_image database_storage trivy same_case
        (codes "2")
        0
        soon
        (codes "i1")
        (codes "nginx")
        scanner).1 in
    ((e : Text) × (trivy (codes "nginx") ≡ err e) × (r ≡ err (codes "trivy scan failed: " ++ e)))
    ⊎ ((found : TrivyResult) × (result : VulnerabilityScan) × (vulnerabilities : List Vulnerability)
        × (trivy (codes "nginx") ≡ ok found)
        × (r ≡ ok (result, vulnerabilities))
        × (result.image_id ≡ codes "i1")
        × (result.scanned_at ≡ soon)
        × (result.success ≡ true)
        × (result.total_vulnerabilities ≡ length vulnerabilities)
        × CountsAre result.severity_counts vulnerabilities
        × ReportsAll same_case (codes "i1") (all_findings found) vulnerabilities)
unfolding default_config
scan_image_lem_example =
    scan_image_lem database_storage trivy same_case (codes "2") 0 soon (codes "i1") (codes "nginx")
      scanner refl

abbrev scheduler : Scheduler VulnerabilityTables
scheduler = record {
  scanner = scanner;
  config = record (default_config []) { max_queue_size = pos 10 };
  queue = job_of 5 (codes "i1", codes "nginx") ∷ job_of 6 (codes "i2", codes "redis") ∷ [];
  capacity = 3;
  closed = false;
  workers = 5;
  received = [];
  running = [];
  in_progress = 0;
  completed_today = 1;
  failed_today = 0;
  last_reset_date = 41;
}

abbrev images : List (Text × Text)
images = (codes "i3", codes "a") ∷ (codes "i4", codes "b") ∷ []

abbrev started : Scheduler VulnerabilityTables
started = start (new_scheduler 41 scanner (default_config []))

abbrev nginx_job : ScanJob
nginx_job = job_of 5 (codes "i1", codes "nginx")

abbrev queued : Scheduler VulnerabilityTables
queued = record started { queue = nginx_job ∷ [] }

abbrev taken : Scheduler VulnerabilityTables
taken = record started { received = nginx_job ∷ [] }

abbrev begun : Scheduler VulnerabilityTables
begun = begin_job nginx_job [] taken

Reachable-IsSound_example :
    IsSound (finish_job database_storage trivy same_case (codes "2") 5 soon nginx_job [] begun)
unfolding force_queue_scan offer start new_scheduler default_config begin_job receive_job
Reachable-IsSound_example =
    Reachable-IsSound database_storage trivy same_case (codes "2")
      (finish_job database_storage trivy same_case (codes "2") 5 soon nginx_job [] begun)
      (Reachable.steps
        (Reachable.steps
          (Reachable.steps
            (Reachable.steps (Reachable.starts 41 scanner (default_config []))
              (Step.forces 5 (codes "i1") (codes "nginx") (pos 0) started queued refl))
            (Step.receives queued taken nginx_job refl))
          (Step.begins nginx_job [] [] taken refl))
        (Step.finishes 5 soon nginx_job [] [] begun refl))
