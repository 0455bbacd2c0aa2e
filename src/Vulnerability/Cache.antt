-- ===== src/Vulnerability/Cache.antt =====
-- internal/vulnerability/cache.go. The methods are taken one at a time, each with one clock reading.
-- The time to live is not negative. Errors are texts.
pub mod Laws
pub mod Prune
use container_census.Base.{
  ℕ, suc, Bool, true, false, not, ◌&&◌, List, [], ◌∷◌, ◌++◌, Option, none, some, Text, text_eq,
  codes, ◌==◌, lookup, insert, remove, length, if◌then◌else◌, Result, ok, err,
}
use container_census.Models.{Time, since_lt}
use container_census.Vulnerability.Types.{Vulnerability, VulnerabilityScan}
use container_census.Vulnerability.Storage.{VulnerabilityStorage}

abbrev pub Scans : Type 0
Scans = List (Text × VulnerabilityScan)

pub record Cache (S : Type 0) : Type 0 where
  pub scans : Scans
  pub ttl : ℕ
  pub storage : S

-- `time.Since(scan.ScannedAt) < ttl`.
abbrev pub is_fresh : Time → ℕ → VulnerabilityScan → Bool
is_fresh now ttl scan = since_lt now scan.scanned_at ttl

pub new_cache : {S : Type 0} → S → ℕ → Cache S
new_cache storage ttl = record { scans = []; ttl = ttl; storage = storage }

-- What `IsValid` makes of the answer of `Get`.
pub fresh_result : Time → ℕ → Result VulnerabilityScan → Bool
fresh_result now ttl (err e) = false
fresh_result now ttl (ok scan) = is_fresh now ttl scan

module _ {S : Type 0} (st : VulnerabilityStorage S) where
  -- The second half of `Get`: the database.
  pub load : Time → Text → Cache S → Cache S × Result VulnerabilityScan
  load now image_id c = elim (st.get_vulnerability_scan c.storage image_id) [
    | err e ↦ (c, err e)
    | ok found ↦ elim found [
      | none ↦ (c, err (codes "no valid scan found for image " ++ image_id))
      | some scan ↦
          if is_fresh now c.ttl scan
          then (record c { scans = insert image_id scan c.scans }, ok scan)
          else (c, err (codes "no valid scan found for image " ++ image_id))
    ]
  ]

  pub get : Time → Text → Cache S → Cache S × Result VulnerabilityScan
  unfolding load
  get now image_id c = elim (lookup image_id c.scans) [
    | none ↦ load now image_id c
    | some scan ↦
        if is_fresh now c.ttl scan
        then (c, ok scan)
        else load now image_id (record c { scans = remove image_id c.scans })
  ]

  unfoldable pub set :
      VulnerabilityScan → List Vulnerability → Cache S → Cache S × Result (Unit {0})
  set scan vulnerabilities c = elim (st.save_vulnerability_scan c.storage scan vulnerabilities) [
    | err e ↦ (c, err (codes "failed to save scan to database: " ++ e))
    | ok storage ↦
        (record c { storage = storage; scans = insert scan.image_id scan c.scans }, ok tt)
  ]

  pub is_valid : Time → Text → Cache S → Cache S × Bool
  unfolding get fresh_result
  is_valid now image_id c = let (c', r) = get now image_id c in (c', fresh_result now c'.ttl r)

  pub needs_scan : Time → Text → Cache S → Cache S × Bool
  unfolding is_valid
  needs_scan now image_id c = let (c', valid) = is_valid now image_id c in (c', not valid)

-- The loop over the map: what stays, and how many were removed.
pub prune_loop : Time → ℕ → Scans → Scans × ℕ
prune_loop now ttl [] = ([], 0)
prune_loop now ttl ((image_id, scan) ∷ scans) =
    let (kept, removed) = prune_loop now ttl scans in
    if not (is_fresh now ttl scan) then (kept, suc removed) else ((image_id, scan) ∷ kept, removed)

module _ {S : Type 0} where
  pub invalidate : Text → Cache S → Cache S
  invalidate image_id c = record c { scans = remove image_id c.scans }

  pub clear : Cache S → Cache S
  clear c = record c { scans = [] }

  pub size : Cache S → ℕ
  size c = length c.scans

  pub set_ttl : ℕ → Cache S → Cache S
  set_ttl ttl c = record c { ttl = ttl }

  pub prune_expired : Time → Cache S → Cache S × ℕ
  unfolding prune_loop
  prune_expired now c =
      let (scans, removed) = prune_loop now c.ttl c.scans in (record c { scans = scans }, removed)
