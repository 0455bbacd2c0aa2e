-- ===== src/Vulnerability/Scanner/Laws.antt =====
-- What a scan leaves behind (internal/vulnerability/scanner.go).
use container_census.Base.{
  ◌+◌, ◌<◌, ◌≡◌, refl, sym, subst, ◌⊎◌, inl, inr, true, false, List, [], ◌∷◌, ◌++◌, some, Text,
  text_eq, text_beq_iff, length, lookup, insert, lookup-insert, Result, ok, err, Result-cases,
  Option-cases, Bool-cases, arith, codes,
}
use container_census.Models.{Time}
use container_census.Vulnerability.Types.{
  Vulnerability, VulnerabilityScan, SeverityCounts, TrivyVulnerability, TrivyResult,
}
use container_census.Vulnerability.Types.Laws.{of_severity, of_other, calculate_severity_counts_lem}
use container_census.Vulnerability.Storage.{VulnerabilityStorage}
use container_census.Vulnerability.Cache.{Cache, set, needs_scan, is_fresh}
use container_census.Vulnerability.Cache.Laws.{AtHand, Stale, needs_scan_iff}
use container_census.Vulnerability.Scanner.{
  Scanner, convert_all, parse_trivy_result, failed_scan, completed_scan, record_result, scan_image,
}

-- The findings of all targets, in their order.
abbrev pub all_findings : TrivyResult → List TrivyVulnerability
all_findings [] = []
all_findings (target ∷ results) = target ++ all_findings results

module _ (to_upper : Text → Text) (image_id : Text) where
  -- A vulnerability of the image that says what a finding of Trivy says.
  abbrev pub Reports : TrivyVulnerability → Vulnerability → Type 0
  Reports tv v =
      (v.image_id ≡ image_id)
      × (v.vulnerability_id ≡ tv.vulnerability_id)
      × (v.pkg_name ≡ tv.pkg_name)
      × (v.installed_version ≡ tv.installed_version)
      × (v.fixed_version ≡ tv.fixed_version)
      × (v.severity ≡ to_upper tv.severity)
      × (v.title ≡ tv.title)
      × (v.description ≡ tv.description)
      × (v.published_date ≡ tv.published_date)
      × (v.last_modified_date ≡ tv.last_modified_date)
      × (v.primary_url ≡ tv.primary_url)

  -- One by one, and no more of the ones than of the others.
  abbrev pub ReportsAll : List TrivyVulnerability → List Vulnerability → Type 0
  ReportsAll [] [] = Unit
  ReportsAll [] (v ∷ vs) = ⊥
  ReportsAll (tv ∷ tvs) [] = ⊥
  ReportsAll (tv ∷ tvs) (v ∷ vs) = Reports tv v × ReportsAll tvs vs

  convert_all-ReportsAll :
      (tvs more : List TrivyVulnerability) (vs : List Vulnerability)
      → ReportsAll more vs
      → ReportsAll (tvs ++ more) (convert_all to_upper image_id tvs ++ vs)
  unfolding convert_all
  convert_all-ReportsAll [] more vs h = h
  convert_all-ReportsAll (tv ∷ tvs) more vs h = (
    (refl, refl, refl, refl, refl, refl, refl, refl, refl, refl, refl),
    convert_all-ReportsAll tvs more vs h,
  )

  -- No finding is lost, made up or changed.
  parse-ReportsAll :
      (r : TrivyResult) → ReportsAll (all_findings r) (parse_trivy_result to_upper r image_id)
  unfolding parse_trivy_result
  parse-ReportsAll [] = tt
  parse-ReportsAll (target ∷ r) =
      convert_all-ReportsAll target (all_findings r) (parse_trivy_result to_upper r image_id)
        (parse-ReportsAll r)

-- The counters are the numbers of the vulnerabilities of each severity, all others under `unknown`.
abbrev pub CountsAre : SeverityCounts → List Vulnerability → Type 0
CountsAre counts vs =
    (counts.critical ≡ of_severity (codes "CRITICAL") vs)
    × (counts.high ≡ of_severity (codes "HIGH") vs)
    × (counts.medium ≡ of_severity (codes "MEDIUM") vs)
    × (counts.low ≡ of_severity (codes "LOW") vs)
    × (counts.unknown ≡ of_other vs)

module _ {S : Type 0} (st : VulnerabilityStorage S) (trivy : Text → Result TrivyResult)
    (to_upper : Text → Text) (db_version : Text) (started now : Time) (image_id image_name : Text)
    (s : Scanner S) where
  -- A scan that is enabled fails exactly where Trivy does. Otherwise it returns a successful scan of this
  -- image at this time, and a list of vulnerabilities that says, one by one and in their order, what the
  -- findings of Trivy say, under this image and with the severity in capitals; the total of the scan is
  -- their number, and its counters are the numbers of each severity.
  pub scan_image_lem :
      s.config.enabled ≡ true
      → let r = (scan_image st trivy to_upper db_version started now image_id image_name s).1 in
        ((e : Text) × (trivy image_name ≡ err e) × (r ≡ err (codes "trivy scan failed: " ++ e)))
        ⊎ ((found : TrivyResult) × (scan : VulnerabilityScan) × (vulnerabilities : List
              Vulnerability)
            × (trivy image_name ≡ ok found)
            × (r ≡ ok (scan, vulnerabilities))
            × (scan.image_id ≡ image_id)
            × (scan.scanned_at ≡ now)
            × (scan.success ≡ true)
            × (scan.total_vulnerabilities ≡ length vulnerabilities)
            × CountsAre scan.severity_counts vulnerabilities
            × ReportsAll to_upper image_id (all_findings found) vulnerabilities)
  unfolding scan_image
  scan_image_lem on = elim (Result-cases (trivy image_name)) [
    | inr (e, q) ↦ inl (e, q, rw (on, q, scan_image))
    | inl (found, q) ↦
        let vs = parse_trivy_result to_upper found image_id in
        let (a, b, c, d, e, total) = calculate_severity_counts_lem vs in
        inr (
          found,
          completed_scan st trivy to_upper db_version started now image_id image_name vs,
          vs,
          q,
          rw (on, q, scan_image),
          refl,
          refl,
          refl,
          total,
          (a, b, c, d, e),
          parse-ReportsAll to_upper image_id found,
        )
  ]

  -- The database takes every write at this moment.
  abbrev pub Writable : Type 0
  Writable =
      (scan : VulnerabilityScan) (vulnerabilities : List Vulnerability)
      → (storage : S) × (st.save_vulnerability_scan s.cache.storage scan vulnerabilities
          ≡ ok storage)

  -- A scan in memory that is fresh, or else this one in the database, is at hand.
  AtHand-stored :
      (later : Time) (c : Cache S) (scan : VulnerabilityScan)
      → st.get_vulnerability_scan c.storage image_id ≡ ok (some scan)
      → later < scan.scanned_at + c.ttl
      → (found : VulnerabilityScan) × AtHand st later image_id c found
  AtHand-stored later c scan stored fresh = elim (Option-cases (lookup image_id c.scans)) [
    | inl e ↦ (scan, (fresh, inr (subst (Stale later c.ttl) (sym e) tt, stored)))
    | inr (old, e) ↦ elim (Bool-cases (is_fresh later c.ttl old)) [
      | inl young ↦ (old, (ground arith, inl e))
      | inr stale ↦ (scan, (fresh, inr (subst (Stale later c.ttl) (sym e) (ground arith), stored)))
    ]
  ]

  AtHand-failed :
      (later : Time) (e : Text)
      → Writable
      → later < now + s.cache.ttl
      → (found : VulnerabilityScan) × AtHand st later image_id
          (record_result st trivy to_upper db_version started now image_id image_name s
            (err e)).0.cache
          found
  unfolding record_result
  AtHand-failed later e w h =
      let scan = failed_scan st trivy to_upper db_version started now image_id image_name e in
      let (storage, q) = w scan [] in
      rw q (
        AtHand-stored later (record (s.cache) { storage = storage }) scan
          (st.get-save s.cache.storage storage scan [] q) h)

  -- A write that the database takes puts the scan in memory.
  set-Saved :
      (scan : VulnerabilityScan) (vs : List Vulnerability) (storage : S)
      → st.save_vulnerability_scan s.cache.storage scan vs ≡ ok storage
      → (set st scan vs s.cache).0
        ≡ record (s.cache) { storage = storage; scans = insert scan.image_id scan s.cache.scans }
  unfolding set
  set-Saved scan vs storage q = rw (q, set) refl

  AtHand-completed :
      (later : Time) (found : TrivyResult)
      → Writable
      → later < now + s.cache.ttl
      → (scan : VulnerabilityScan) × AtHand st later image_id
          (record_result st trivy to_upper db_version started now image_id image_name s
            (ok found)).0.cache
          scan
  unfolding record_result set
  AtHand-completed later found w h =
      let vs = parse_trivy_result to_upper found image_id in
      let scan = completed_scan st trivy to_upper db_version started now image_id image_name vs in
      let (storage, q) = w scan vs in
      (
        scan,
        subst (λ c'. AtHand st later image_id c' scan) (sym (set-Saved scan vs storage q))
            (
              h,
              inl (
                  ground (
                    arith,
                    lookup-insert image_id image_id scan s.cache.scans,
                    text_beq_iff image_id image_id,
                  )),
            ),
      )

  -- After a scan of an image, whether Trivy succeeded or failed, `NeedsScan` is false for the image
  -- until the time to live has passed, where scanning is enabled and the database takes the writes.
  pub scan_image_suppresses :
      (later : Time)
      → s.config.enabled ≡ true
      → Writable
      → later < now + s.cache.ttl
      → (needs_scan st later image_id
          (scan_image st trivy to_upper db_version started now image_id image_name s).0.cache).1
        ≡ false
  unfolding scan_image
  scan_image_suppresses later on w h = elim (Result-cases (trivy image_name)) [
    | inr (e, q) ↦ rw (on, q) ((needs_scan_iff st later image_id _).1 (AtHand-failed later e w h))
    | inl (found, q) ↦
        rw (on, q) ((needs_scan_iff st later image_id _).1 (AtHand-completed later found w h))
  ]
