-- ===== src/Vulnerability/Config/Laws.antt =====
-- The settings stay in their ranges (internal/vulnerability/config.go).
use container_census.Base.{
  ℕ, ◌≡◌, ◌↔◌, ◌⊎◌, inl, inr, Bool, true, false, Text, List, [], ◌∷◌, arith, Bool-cases,
}
use container_census.Base.Int.{ℤ, pos, ◌≤ℤ◌}
use container_census.Vulnerability.Config.{
  Config, default_config, outside, set_enabled, set_auto_scan_new_images, set_worker_pool_size,
  set_scan_timeout, set_cache_ttl, set_rescan_interval, set_cache_dir, set_alert_on_critical,
  set_alert_on_high, update,
}

abbrev pub Between : ℕ → ℕ → ℤ → Type 0
Between lo hi n = (pos lo ≤ℤ n) × (n ≤ℤ pos hi)

-- The ranges that the setters check.
pub record InRange (c : Config) : Type 0 where
  pub workers : Between 1 10 c.worker_pool_size
  pub timeout : Between 1 60 c.scan_timeout_minutes
  pub ttl : Between 1 168 c.cache_ttl_hours
  pub rescan : Between 24 720 c.rescan_interval_hours

-- A call of a setter.
pub data Setting : Type 0 where
  enable auto_scan critical_alerts high_alerts : Bool → Setting
  workers timeout ttl rescan : ℤ → Setting
  directory : Text → Setting
  replace : Config → Setting

pub apply : Setting → Config → Config
apply (enable b) c = set_enabled b c
apply (auto_scan b) c = set_auto_scan_new_images b c
apply (critical_alerts b) c = set_alert_on_critical b c
apply (high_alerts b) c = set_alert_on_high b c
apply (workers n) c = (set_worker_pool_size n c).0
apply (timeout n) c = (set_scan_timeout n c).0
apply (ttl n) c = (set_cache_ttl n c).0
apply (rescan n) c = (set_rescan_interval n c).0
apply (directory dir) c = set_cache_dir dir c
apply (replace new_config) c = (update new_config c).0

pub apply_all : List Setting → Config → Config
apply_all [] c = c
apply_all (s ∷ settings) c = apply_all settings (apply s c)

outside_iff : (lo hi : ℕ) (n : ℤ) → (outside lo hi n ≡ false) ↔ Between lo hi n
unfolding outside
outside_iff lo hi n = (ground arith, ground arith)

-- An update is taken exactly if the new settings are in range, and then the settings are the new ones;
-- otherwise they stay as they were.
pub update_lem :
    (new_config c : Config)
    → let r = update new_config c in
      (r.1 ≡ true) × (r.0 ≡ new_config) × InRange new_config
      ⊎ (r.1 ≡ false) × (r.0 ≡ c) × ¬ InRange new_config
unfolding update
update_lem new_config c =
    let w = outside_iff 1 10 new_config.worker_pool_size in
    let t = outside_iff 1 60 new_config.scan_timeout_minutes in
    let l = outside_iff 1 168 new_config.cache_ttl_hours in
    let r = outside_iff 24 720 new_config.rescan_interval_hours in
    elim (Bool-cases (outside 1 10 new_config.worker_pool_size)) [
      | inl a ↦ inr (ground (arith, a), ground (arith, a), λ i. ground (arith, a, w.1 i.workers))
      | inr a ↦ elim (Bool-cases (outside 1 60 new_config.scan_timeout_minutes)) [
        | inl b ↦
            inr (ground (arith, a, b), ground (arith, a, b), λ i. ground (arith, b, t.1 i.timeout))
        | inr b ↦ elim (Bool-cases (outside 1 168 new_config.cache_ttl_hours)) [
          | inl d ↦
              inr (
                ground (arith, a, b, d),
                ground (arith, a, b, d),
                λ i. ground (arith, d, l.1 i.ttl),
              )
          | inr d ↦ elim (Bool-cases (outside 24 720 new_config.rescan_interval_hours)) [
            | inl e ↦ inr (
              ground (arith, a, b, d, e),
              ground (arith, a, b, d, e),
              λ i. ground (arith, e, r.1 i.rescan),
            )
            | inr e ↦ inl (
              ground (arith, a, b, d, e),
              ground (arith, a, b, d, e),
              record { workers = w.0 a; timeout = t.0 b; ttl = l.0 d; rescan = r.0 e },
            )
          ]
        ]
      ]
    ]

update-InRange : (new_config c : Config) → InRange c → InRange (update new_config c).0
update-InRange new_config c h = ground (arith, update_lem new_config c)

apply-InRange : (s : Setting) (c : Config) → InRange c → InRange (apply s c)
unfolding apply set_enabled set_auto_scan_new_images set_worker_pool_size set_scan_timeout
    set_cache_ttl set_rescan_interval set_cache_dir set_alert_on_critical set_alert_on_high
apply-InRange (replace n) c h = update-InRange n c h
apply-InRange (enable b) c h = ground arith
apply-InRange (workers n) c h = ground (arith, outside_iff 1 10 n)
apply-InRange (timeout n) c h = ground (arith, outside_iff 1 60 n)
apply-InRange (ttl n) c h = ground (arith, outside_iff 1 168 n)
apply-InRange (rescan n) c h = ground (arith, outside_iff 24 720 n)
apply-InRange _ c h = ground arith

apply_all-keeps :
    (settings : List Setting) (c : Config) → InRange c → InRange (apply_all settings c)
unfolding apply_all
apply_all-keeps [] c h = h
apply_all-keeps (s ∷ settings) c h = apply_all-keeps settings (apply s c) (apply-InRange s c h)

default_config-InRange : (env : Text) → InRange (default_config env)
unfolding default_config
default_config-InRange env = ground arith

-- From the defaults, no sequence of calls of the setters and of `Update` leaves the ranges.
pub apply_all-InRange :
    (env : Text) (settings : List Setting) → InRange (apply_all settings (default_config env))
apply_all-InRange env settings =
    apply_all-keeps settings (default_config env) (default_config-InRange env)
