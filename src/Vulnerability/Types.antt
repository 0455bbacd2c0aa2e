-- ===== src/Vulnerability/Types.antt =====
-- The data of internal/vulnerability/models.go. Row ids are left out.
pub mod Laws
use container_census.Base.{
  ℕ, suc, ◌+◌, Bool, List, [], ◌∷◌, Text, text_eq, codes, ◌==◌, if◌then◌else◌,
}
use container_census.Models.{Time}

pub record Vulnerability : Type 0 where
  pub image_id : Text
  pub vulnerability_id : Text
  pub pkg_name : Text
  pub installed_version : Text
  pub fixed_version : Text
  pub severity : Text
  pub title : Text
  pub description : Text
  pub published_date : Time
  pub last_modified_date : Time
  pub primary_url : Text

pub record SeverityCounts : Type 0 where
  pub critical : ℕ
  pub high : ℕ
  pub medium : ℕ
  pub low : ℕ
  pub unknown : ℕ

pub record VulnerabilityScan : Type 0 where
  pub image_id : Text
  pub image_name : Text
  pub scanned_at : Time
  pub scan_duration_ms : ℕ
  pub success : Bool
  pub error : Text
  pub trivy_db_version : Text
  pub total_vulnerabilities : ℕ
  pub severity_counts : SeverityCounts

-- A finding of Trivy, and the findings of one target.
pub record TrivyVulnerability : Type 0 where
  pub vulnerability_id : Text
  pub pkg_name : Text
  pub installed_version : Text
  pub fixed_version : Text
  pub severity : Text
  pub title : Text
  pub description : Text
  pub published_date : Time
  pub last_modified_date : Time
  pub primary_url : Text

abbrev pub TrivyResult : Type 0
TrivyResult = List (List TrivyVulnerability)

abbrev pub no_counts : SeverityCounts
no_counts = record { critical = 0; high = 0; medium = 0; low = 0; unknown = 0 }

-- One round of the loop.
pub count_severity : SeverityCounts → Text → SeverityCounts
count_severity counts severity =
    if severity == codes "CRITICAL"
    then record counts { critical = counts.critical + 1 }
    else (if severity == codes "HIGH"
        then record counts { high = counts.high + 1 }
        else (if severity == codes "MEDIUM"
            then record counts { medium = counts.medium + 1 }
            else (if severity == codes "LOW"
                then record counts { low = counts.low + 1 }
                else record counts { unknown = counts.unknown + 1 })))

pub count_severities : SeverityCounts → List Vulnerability → SeverityCounts
unfolding count_severity
count_severities counts [] = counts
count_severities counts (v ∷ vulns) = count_severities (count_severity counts v.severity) vulns

pub calculate_severity_counts : List Vulnerability → SeverityCounts
unfolding count_severities
calculate_severity_counts vulns = count_severities no_counts vulns

pub get_total : SeverityCounts → ℕ
get_total sc = sc.critical + sc.high + sc.medium + sc.low + sc.unknown
