-- ===== src/Version/Check.antt =====
-- CheckLatestVersion and its cache, of internal/version/version.go. What GitHub answers is a parameter;
-- `version` is the global Version.
use container_census.Base.{
  ℕ, ◌+◌, ◌*◌, ◌^◌, ◌≤◌, ◌<◌, ◌≡◌, ◌↔◌, ◌⊎◌, refl, Bool, true, false, [], ◌++◌, Option, none, some,
  Result, ok, err, Text, text_eq, codes, decimal, nat_eq, ◌==◌, if◌then◌else◌, trim_prefix, arith,
}
use container_census.Base.Int.{ℤ, pos}
use container_census.Models.{Time, hour, since_lt}
use container_census.Version.{Triple, is_newer_version}
use container_census.Version.Order.{
  ◌≺◌, is_newer_version_iff, dotted, parse_version-dotted, dotted-not_dev,
}

pub record GithubRelease : Type 0 where
  pub tag_name : Text
  pub html_url : Text

-- The outcome of the request: an error, or a status with the decoded body.
pub data Fetched : Type 0 where
  failed : Text → Fetched
  replied : ℕ → Result GithubRelease → Fetched

pub record UpdateInfo : Type 0 where
  pub current_version : Text
  pub latest_version : Text
  pub update_available : Bool
  pub release_url : Text
  pub checked_at : Time
  pub error : Option Text

-- `cacheExpiration`.
abbrev pub cache_expiration : ℕ
cache_expiration = 24 * hour

unfoldable pub invalidate_cache : Option UpdateInfo → Option UpdateInfo
invalidate_cache cache = none

module _ (atoi : Text → Option ℤ) (version : Text) where
  -- The info of a check that ends with an error.
  pub failed_info : Time → Text → UpdateInfo
  failed_info now e = record {
    current_version = version;
    latest_version = [];
    update_available = false;
    release_url = [];
    checked_at = now;
    error = some e;
  }

  pub release_info : Time → GithubRelease → UpdateInfo
  release_info now release =
      let latest = trim_prefix (codes "v") release.tag_name in
      record {
        current_version = version;
        latest_version = latest;
        update_available = is_newer_version atoi latest version;
        release_url = release.html_url;
        checked_at = now;
        error = none;
      }

  pub fetch_info : Time → Fetched → UpdateInfo
  unfolding failed_info release_info
  fetch_info now (failed e) = failed_info now (codes "failed to fetch latest version: " ++ e)
  fetch_info now (replied status body) =
      if status == 404
      then failed_info now (codes "no releases found")
      else if status == 200
      then elim body [
        | err e ↦ failed_info now (codes "failed to parse GitHub API response: " ++ e)
        | ok release ↦ release_info now release
      ]
      else failed_info now (codes "GitHub API returned status " ++ decimal status)

  -- The new cache and the result. `fetched` is what a request would give, if one is made.
  pub check_latest_version : Time → Fetched → Option UpdateInfo → Option UpdateInfo × UpdateInfo
  unfolding fetch_info
  check_latest_version now fetched none = (some (fetch_info now fetched), fetch_info now fetched)
  check_latest_version now fetched (some info) =
      if since_lt now info.checked_at cache_expiration
      then (some info, info)
      else (some (fetch_info now fetched), fetch_info now fetched)

  fetch_info-checked_at :
      (now : Time) (fetched : Fetched) → (fetch_info now fetched).checked_at ≡ now
  unfolding fetch_info failed_info release_info
  fetch_info-checked_at now (failed e) = refl
  fetch_info-checked_at now (replied status (ok release)) = ground arith
  fetch_info-checked_at now (replied status (err e)) = ground arith

  check_latest_version_caches :
      (now : Time) (fetched : Fetched) (cache : Option UpdateInfo)
      → (check_latest_version now fetched cache).0 ≡ some (check_latest_version now fetched cache).1
  unfolding check_latest_version
  check_latest_version_caches now fetched none = refl
  check_latest_version_caches now fetched (some info) = ground arith

  -- A check answers for 24 hours, whether it failed or not: until then every further check gives the same
  -- result and asks nobody; from then on, and after InvalidateCache, it makes a request of its own.
  check_latest_version_again :
      (now later : Time) (fetched again : Fetched) (cache : Option UpdateInfo)
      → let (cache', info) = check_latest_version now fetched cache in
        (later < info.checked_at + cache_expiration
          → check_latest_version later again cache' ≡ (cache', info))
        × (info.checked_at + cache_expiration ≤ later
            → (check_latest_version later again cache').1 ≡ fetch_info later again)
        × ((check_latest_version later again (invalidate_cache cache')).1 ≡ fetch_info later again)
  unfolding check_latest_version invalidate_cache
  check_latest_version_again now later fetched again cache =
      let info = (check_latest_version now fetched cache).1 in
      rw (check_latest_version_caches now fetched cache)
        (λ h. ground (arith, h), λ h. ground (arith, h), refl)

numbers : ℕ → ℕ → ℕ → Triple
numbers x y z = record { major = pos x; minor = pos y; patch = pos z }

lex_nat_iff :
    (a b c x y z : ℕ)
    → (numbers a b c ≺ numbers x y z) ↔ ((a < x) ⊎ (a ≡ x) × (b < y) ⊎ (a ≡ x) × (b ≡ y) × (c < z))
unfolding numbers
lex_nat_iff a b c x y z = (λ h. ground (arith, h), λ h. ground (arith, h))

-- A check that fetches the release tagged vX.Y.Z, of a program whose version is A.B.C, reports an update
-- exactly if A.B.C is less than X.Y.Z in the order of semantic versions.
pub release_available_iff :
    (atoi : Text → Option ℤ) (now : Time) (url : Text) (x y z a b c : ℕ)
    → ((n : ℕ) → n < 2 ^ 63 → atoi (decimal n) ≡ some (pos n))
    → (x < 2 ^ 63) × (y < 2 ^ 63) × (z < 2 ^ 63)
    → (a < 2 ^ 63) × (b < 2 ^ 63) × (c < 2 ^ 63)
    → ((check_latest_version atoi
          (dotted a b c)
          now
          (replied 200 (ok (record { tag_name = codes "v" ++ dotted x y z; html_url = url })))
          none).1.update_available
        ≡ true)
      ↔ ((a < x) ⊎ (a ≡ x) × (b < y) ⊎ (a ≡ x) × (b ≡ y) × (c < z))
unfolding check_latest_version fetch_info release_info trim_prefix numbers
release_available_iff atoi now url x y z a b c reads (hx, hy, hz) (ha, hb, hc) =
    let (to, from) = is_newer_version_iff atoi (dotted x y z) (dotted a b c) in
    let new = parse_version-dotted atoi x y z reads hx hy hz in
    let old = parse_version-dotted atoi a b c reads ha hb hc in
    let (down, up) = lex_nat_iff a b c x y z in
    (λ h. down (rw (old, new) at (to h).1), λ h. from (dotted-not_dev a b c, rw (old, new) (up h)))
