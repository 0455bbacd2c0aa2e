-- ===== src/Vulnerability/Scanner.antt =====
-- internal/vulnerability/scanner.go. `trivy` runs the Trivy command on an image name and decodes its
-- output, `to_upper` is strings.ToUpper and `db_version` what `trivy --version` reports. The scanner and
-- its cache share one storage. `started` and `now` are the clock at the start and at the end of a scan.
pub mod Laws
use container_census.Base.{
  ℕ, ◌+◌, ◌-◌, ◌*◌, ◌/◌, Bool, true, false, not, List, [], ◌∷◌, ◌++◌, Text, codes, if◌then◌else◌,
  Result, ok, err,
}
use container_census.Base.Int.{pos_part}
use container_census.Models.{Time, hour}
use container_census.Vulnerability.Types.{
  Vulnerability, VulnerabilityScan, TrivyVulnerability, TrivyResult, no_counts,
  calculate_severity_counts, get_total,
}
use container_census.Vulnerability.Storage.{VulnerabilityStorage}
use container_census.Vulnerability.Config.{Config}
use container_census.Vulnerability.Cache.{Cache, new_cache, set, needs_scan, invalidate, set_ttl}

pub record Scanner (S : Type 0) : Type 0 where
  pub config : Config
  pub cache : Cache S

-- `time.Duration(CacheTTLHours) * time.Hour`, where the hours are not negative.
pub get_cache_ttl : Config → ℕ
get_cache_ttl c = pos_part c.cache_ttl_hours * hour

pub new_scanner : {S : Type 0} → Config → S → Scanner S
new_scanner config storage = record {
  config = config;
  cache = new_cache storage (get_cache_ttl config);
}

pub set_config : {S : Type 0} → Config → Scanner S → Scanner S
set_config config s = record s { config = config; cache = set_ttl (get_cache_ttl config) s.cache }

module _ (to_upper : Text → Text) where
  pub convert : Text → TrivyVulnerability → Vulnerability
  convert image_id tv = record {
    image_id = image_id;
    vulnerability_id = tv.vulnerability_id;
    pkg_name = tv.pkg_name;
    installed_version = tv.installed_version;
    fixed_version = tv.fixed_version;
    severity = to_upper tv.severity;
    title = tv.title;
    description = tv.description;
    published_date = tv.published_date;
    last_modified_date = tv.last_modified_date;
    primary_url = tv.primary_url;
  }

  pub convert_all : Text → List TrivyVulnerability → List Vulnerability
  unfolding convert
  convert_all image_id [] = []
  convert_all image_id (tv ∷ tvs) = convert image_id tv ∷ convert_all image_id tvs

  pub parse_trivy_result : TrivyResult → Text → List Vulnerability
  unfolding convert_all
  parse_trivy_result [] image_id = []
  parse_trivy_result (target ∷ results) image_id =
      convert_all image_id target ++ parse_trivy_result results image_id

-- A write whose error is ignored.
pub keep_on_error : {S : Type 0} → S → Result S → S
keep_on_error s (err e) = s
keep_on_error s (ok s') = s'

module _ {S : Type 0} (st : VulnerabilityStorage S) (trivy : Text → Result TrivyResult)
    (to_upper : Text → Text) (db_version : Text) where
  pub failed_scan : Time → Time → Text → Text → Text → VulnerabilityScan
  failed_scan started now image_id image_name e = record {
    image_id = image_id;
    image_name = image_name;
    scanned_at = now;
    scan_duration_ms = (now - started) / 1000000;
    success = false;
    error = e;
    trivy_db_version = [];
    total_vulnerabilities = 0;
    severity_counts = no_counts;
  }

  pub completed_scan : Time → Time → Text → Text → List Vulnerability → VulnerabilityScan
  completed_scan started now image_id image_name vulnerabilities =
      let counts = calculate_severity_counts vulnerabilities in
      record {
        image_id = image_id;
        image_name = image_name;
        scanned_at = now;
        scan_duration_ms = (now - started) / 1000000;
        success = true;
        error = [];
        trivy_db_version = db_version;
        total_vulnerabilities = get_total counts;
        severity_counts = counts;
      }

  -- What follows the run of Trivy.
  pub record_result :
      Time
      → Time
      → Text
      → Text
      → Scanner S
      → Result TrivyResult
      → Scanner S × Result (VulnerabilityScan × List Vulnerability)
  unfolding failed_scan completed_scan keep_on_error
  record_result started now image_id image_name s (err e) =
      let storage = keep_on_error s.cache.storage (
        st.save_vulnerability_scan s.cache.storage (failed_scan started now image_id image_name e)
          []) in
      (
        record s { cache = record (s.cache) { storage = storage } },
        err (codes "trivy scan failed: " ++ e),
      )
  record_result started now image_id image_name s (ok result) =
      let vulnerabilities = parse_trivy_result to_upper result image_id in
      let scan = completed_scan started now image_id image_name vulnerabilities in
      let (cache, _) = set st scan vulnerabilities s.cache in
      (record s { cache = cache }, ok (scan, vulnerabilities))

  pub scan_image :
      Time
      → Time
      → Text
      → Text
      → Scanner S
      → Scanner S × Result (VulnerabilityScan × List Vulnerability)
  unfolding record_result
  scan_image started now image_id image_name s =
      if not s.config.enabled
      then (s, err (codes "vulnerability scanning is disabled"))
      else record_result started now image_id image_name s (trivy image_name)
