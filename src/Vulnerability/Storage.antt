-- ===== src/Vulnerability/Storage.antt =====
-- The interface VulnerabilityStorage of internal/vulnerability/cache.go, with the law that the cache
-- relies on, and its implementation by the tables of internal/storage/vulnerabilities.go. The table
-- vulnerability_scans has one row for each image, which INSERT OR REPLACE overwrites; failures of the
-- database are the interface's, and do not occur in the implementation.
use container_census.Base.{
  ◌≡◌, not, List, ◌++◌, Option, some, Text, text_eq, text_beq_iff, ◌==◌, keep, lookup, insert,
  lookup-insert, Result, ok, arith,
}
use container_census.Vulnerability.Types.{Vulnerability, VulnerabilityScan}

pub record VulnerabilityStorage (S : Type 0) : Type 0 where
  pub get_vulnerability_scan : S → Text → Result (Option VulnerabilityScan)
  pub save_vulnerability_scan : S → VulnerabilityScan → List Vulnerability → Result S
  pub get-save :
      (s s' : S) (scan : VulnerabilityScan) (vulnerabilities : List Vulnerability)
      → save_vulnerability_scan s scan vulnerabilities ≡ ok s'
      → get_vulnerability_scan s' scan.image_id ≡ ok (some scan)

pub record VulnerabilityTables : Type 0 where
  pub vulnerability_scans : List (Text × VulnerabilityScan)
  pub vulnerabilities : List Vulnerability

pub select_scan : VulnerabilityTables → Text → Result (Option VulnerabilityScan)
select_scan db image_id = ok (lookup image_id db.vulnerability_scans)

pub replace_scan :
    VulnerabilityTables → VulnerabilityScan → List Vulnerability → Result VulnerabilityTables
replace_scan db scan vulnerabilities = ok (record {
  vulnerability_scans = insert scan.image_id scan db.vulnerability_scans;
  vulnerabilities =
      keep (λ v. not (v.image_id == scan.image_id)) db.vulnerabilities ++ vulnerabilities;
})

pub select-replace :
    (s s' : VulnerabilityTables) (scan : VulnerabilityScan) (vulnerabilities : List Vulnerability)
    → replace_scan s scan vulnerabilities ≡ ok s'
    → select_scan s' scan.image_id ≡ ok (some scan)
unfolding select_scan replace_scan
select-replace s s' scan vs e = ground (
  arith,
  e,
  lookup-insert scan.image_id scan.image_id scan s.vulnerability_scans,
  text_beq_iff scan.image_id scan.image_id,
)

-- The database as the cache sees it.
unfoldable pub database_storage : VulnerabilityStorage VulnerabilityTables
unfolding select_scan replace_scan
database_storage = record {
  get_vulnerability_scan = select_scan;
  save_vulnerability_scan = replace_scan;
  get-save = select-replace;
}
