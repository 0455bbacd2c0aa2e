-- ===== src/Vulnerability/Types/Laws.antt =====
-- The severity counts of internal/vulnerability/models.go.
use container_census.Base.{
  ℕ, ◌+◌, ◌≡◌, not, ◌||◌, List, [], ◌∷◌, Text, text_eq, text_beq_iff, codes, ◌==◌, length, count_if,
  arith,
}
use container_census.Vulnerability.Types.{
  Vulnerability, SeverityCounts, no_counts, count_severity, count_severities,
  calculate_severity_counts, get_total,
}

abbrev pub of_severity : Text → List Vulnerability → ℕ
of_severity severity = count_if (λ v. v.severity == severity)

-- Neither of the four severities that have a counter of their own.
abbrev pub of_other : List Vulnerability → ℕ
of_other = count_if λ v. not (
    v.severity == codes "CRITICAL"
    || v.severity == codes "HIGH"
    || v.severity == codes "MEDIUM"
    || v.severity == codes "LOW")

abbrev CountsFrom : SeverityCounts → List Vulnerability → SeverityCounts → Type 0
CountsFrom start vulns counts =
    (counts.critical ≡ start.critical + of_severity (codes "CRITICAL") vulns)
    × (counts.high ≡ start.high + of_severity (codes "HIGH") vulns)
    × (counts.medium ≡ start.medium + of_severity (codes "MEDIUM") vulns)
    × (counts.low ≡ start.low + of_severity (codes "LOW") vulns)
    × (counts.unknown ≡ start.unknown + of_other vulns)
    × (get_total counts ≡ get_total start + length vulns)

count_severities-CountsFrom :
    (start : SeverityCounts) (vulns : List Vulnerability)
    → CountsFrom start vulns (count_severities start vulns)
unfolding count_severities get_total
count_severities-CountsFrom start [] = omega arith
count_severities-CountsFrom start (v ∷ vulns) = ground (
  arith,
  count_severities-CountsFrom (count_severity start v.severity) vulns,
  text_beq_iff v.severity (codes "CRITICAL"),
  text_beq_iff v.severity (codes "HIGH"),
  text_beq_iff v.severity (codes "MEDIUM"),
  text_beq_iff v.severity (codes "LOW"),
)

-- The counters are the numbers of vulnerabilities of each severity, with all others under `unknown`,
-- and their total is the number of vulnerabilities.
pub calculate_severity_counts_lem :
    (vulns : List Vulnerability)
    → let counts = calculate_severity_counts vulns in
      (counts.critical ≡ of_severity (codes "CRITICAL") vulns)
      × (counts.high ≡ of_severity (codes "HIGH") vulns)
      × (counts.medium ≡ of_severity (codes "MEDIUM") vulns)
      × (counts.low ≡ of_severity (codes "LOW") vulns)
      × (counts.unknown ≡ of_other vulns)
      × (get_total counts ≡ length vulns)
unfolding calculate_severity_counts get_total
calculate_severity_counts_lem vulns =
    let (a, b, c, d, e, f) = count_severities-CountsFrom no_counts vulns in
    omega (arith, a, b, c, d, e, f)
