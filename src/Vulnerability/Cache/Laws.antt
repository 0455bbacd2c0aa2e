-- ===== src/Vulnerability/Cache/Laws.antt =====
-- What the scan cache answers (internal/vulnerability/cache.go).
use container_census.Base.{
  ℕ, ◌+◌, ◌≤◌, ◌<◌, ◌≡◌, refl, ◌↔◌, ◌⊎◌, inl, inr, true, false, List, Option, none, some, Text,
  text_eq, text_beq_iff, lookup, insert, lookup-insert, lookup-remove, remove, Result, ok, err,
  arith, Result-cases,
}
use container_census.Models.{Time}
use container_census.Vulnerability.Types.{Vulnerability, VulnerabilityScan}
use container_census.Vulnerability.Storage.{VulnerabilityStorage}
use container_census.Vulnerability.Cache.{Cache, get, set, is_valid, needs_scan, invalidate}

-- There is no scan, or one that is as old as the time to live.
abbrev pub Stale : Time → ℕ → Option VulnerabilityScan → Type 0
Stale now ttl none = Unit
Stale now ttl (some scan) = scan.scanned_at + ttl ≤ now

module _ {S : Type 0} (st : VulnerabilityStorage S) where
  -- The scan that the cache has at hand: a fresh one in memory, or else a fresh one in the database.
  abbrev pub AtHand : Time → Text → Cache S → VulnerabilityScan → Type 0
  AtHand now image_id c scan =
      (now < scan.scanned_at + c.ttl)
      × ((lookup image_id c.scans ≡ some scan)
          ⊎ Stale now c.ttl (lookup image_id c.scans)
            × (st.get_vulnerability_scan c.storage image_id ≡ ok (some scan)))

  -- `Get` answers with a scan exactly if that scan is at hand: it is younger than the time to live, and
  -- it is the one in memory, or the one in the database where memory has none that is fresh.
  pub get_iff :
      (now : Time) (image_id : Text) (c : Cache S) (scan : VulnerabilityScan)
      → ((get st now image_id c).1 ≡ ok scan) ↔ AtHand now image_id c scan
  unfolding get
  get_iff now image_id c scan = (λ h. (ground arith, ground arith), λ h. ground arith)

  valid-get :
      (now : Time) (image_id : Text) (c : Cache S)
      → ((is_valid st now image_id c).1 ≡ true)
        ↔ ((scan : VulnerabilityScan) × ((get st now image_id c).1 ≡ ok scan))
  unfolding is_valid
  valid-get now image_id c = (to (get st now image_id c).1 refl, from)
    where
      to :
          (r : Result VulnerabilityScan)
          → (get st now image_id c).1 ≡ r
          → (is_valid st now image_id c).1 ≡ true
          → (scan : VulnerabilityScan) × ((get st now image_id c).1 ≡ ok scan)
      to (err e) q h = absurd (ground (arith, q))
      to (ok scan) q h = (scan, q)

      from :
          ((scan : VulnerabilityScan) × ((get st now image_id c).1 ≡ ok scan))
          → (is_valid st now image_id c).1 ≡ true
      from (scan, e) = ground (arith, (get_iff now image_id c scan).0 e, e)

  -- An image needs no scan exactly if a scan of it is at hand, be it of a success or of a failure.
  pub needs_scan_iff :
      (now : Time) (image_id : Text) (c : Cache S)
      → ((needs_scan st now image_id c).1 ≡ false)
        ↔ ((scan : VulnerabilityScan) × AtHand now image_id c scan)
  unfolding needs_scan
  needs_scan_iff now image_id c = (
    λ h.
        let (scan, e) = (valid-get now image_id c).0 (ground arith) in
        (scan, (get_iff now image_id c scan).0 e),
    λ (scan, a).
        let v = (valid-get now image_id c).1 (scan, (get_iff now image_id c scan).1 a) in
        ground (arith, v),
  )

  -- A scan that was stored is what `Get` gives for its image until the time to live has passed, and
  -- after `Invalidate` too, since the database has it.
  pub get-set :
      (now : Time) (c c' : Cache S) (scan : VulnerabilityScan)
      (vulnerabilities : List Vulnerability)
      → set st scan vulnerabilities c ≡ (c', ok tt)
      → now < scan.scanned_at + c.ttl
      → ((get st now scan.image_id c').1 ≡ ok scan)
        × ((get st now scan.image_id (invalidate scan.image_id c')).1 ≡ ok scan)
  unfolding set invalidate
  get-set now c c' scan vs e h =
      elim (Result-cases (st.save_vulnerability_scan c.storage scan vs)) [
        | inl (s, q) ↦
            let same : record c { storage = s; scans = insert scan.image_id scan c.scans } ≡ c' =
              ground (arith, q) in
            rw (← same) (
              (get_iff now scan.image_id _ scan).1 (h, inl (stored)),
              (get_iff now scan.image_id _ scan).1 (
                h,
                inr (gone (insert scan.image_id scan c.scans), st.get-save c.storage s scan vs q),
              ),
            )
        | inr (t, q) ↦ absurd (ground (arith, q))
      ]
    where
      stored : lookup scan.image_id (insert scan.image_id scan c.scans) ≡ some scan
      stored = ground (
        arith,
        lookup-insert scan.image_id scan.image_id scan c.scans,
        text_beq_iff scan.image_id scan.image_id,
      )

      gone :
          (m : List (Text × VulnerabilityScan))
          → Stale now c.ttl (lookup scan.image_id (remove scan.image_id m))
      gone m = ground (
        arith,
        lookup-remove scan.image_id scan.image_id m,
        text_beq_iff scan.image_id scan.image_id,
      )
