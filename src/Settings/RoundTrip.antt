-- ===== src/Settings/RoundTrip.antt =====
-- What SaveSystemSettings of internal/storage/settings.go stores, against what LoadSystemSettings reads.
use container_census.Base.{
  ℕ, ◌≤◌, ◌≡◌, ◌≢◌, ◌↔◌, ◌⊎◌, inl, inr, refl, ap, ◌∙◌, true, false, ◌&&◌, List, [], ◌∷◌, Option,
  none, some, Option-cases, Text, text_eq, text_beq, text_beq_iff, codes, ◌==◌, if◌then◌else◌,
  arith,
}
use container_census.Models.{Time}
use container_census.Settings.{
  SystemSettings, Json, SettingRow, validate, is_design, find_setting, save_setting, save_each,
  setting_rows, save_system_settings, stored_settings, load_system_settings, is_first_run,
  number_setting, number_or, text_or,
}

find_setting-save_setting :
    (category key : Text) (new : SettingRow) (table : List SettingRow)
    → find_setting category key (save_setting new table) ≡ (
        if new.category == category && new.key == key
        then some new.value
        else find_setting category key table)
unfolding find_setting save_setting
find_setting-save_setting category key new [] = refl
find_setting-save_setting category key new (row ∷ table) = ground (
  arith,
  text_beq_iff row.category new.category,
  text_beq_iff row.key new.key,
  text_beq_iff row.category category,
  text_beq_iff row.key key,
  text_beq_iff new.category category,
  text_beq_iff new.key key,
  find_setting-save_setting category key new table,
)

-- The value that the last of some rows gives.
abbrev last_value : Text → Text → List SettingRow → Option Json → Option Json
last_value category key [] before = before
last_value category key (row ∷ rows) before =
    last_value category key rows
      (if row.category == category && row.key == key then some row.value else before)

find_setting-save_each :
    (category key : Text) (rows table : List SettingRow)
    → find_setting category key (save_each rows table)
      ≡ last_value category key rows (find_setting category key table)
unfolding save_each
find_setting-save_each category key [] table = refl
find_setting-save_each category key (row ∷ rows) table =
    find_setting-save_each category key rows (save_setting row table)
    ∙ ap (last_value category key rows) (find_setting-save_setting category key row table)

save_each-not_empty :
    (row : SettingRow) (rows table : List SettingRow)
    → is_first_run (save_each (row ∷ rows) table) ≡ false
unfolding save_each save_setting is_first_run
save_each-not_empty row [] [] = refl
save_each-not_empty row [] (old ∷ table) = ground arith
save_each-not_empty row (next ∷ rows) [] = save_each-not_empty next rows (row ∷ [])
save_each-not_empty row (next ∷ rows) (old ∷ table) =
    save_each-not_empty next rows (save_setting row (old ∷ table))

stored_settings-saved :
    (read_time : Time → Option Time) (now : Time) (s : SystemSettings) (table : List SettingRow)
    → record (stored_settings read_time (save_each (setting_rows now s) table)) {
      updated_at = s.updated_at;
    }
      ≡ s
unfolding stored_settings setting_rows text_beq
stored_settings-saved read_time now s table =
    let rows = setting_rows now s in
    let saved = save_each rows table in
    let number_of = λ (category key : Text) (default : ℕ).
      ap (number_or default) (find_setting-save_each category key rows table) in
    let a : number_setting saved (codes "scanner") (codes "interval_seconds") 300
        ≡ s.scanner.interval_seconds =
      number_of (codes "scanner") (codes "interval_seconds") 300 in
    let b : number_setting saved (codes "scanner") (codes "timeout_seconds") 30
        ≡ s.scanner.timeout_seconds =
      number_of (codes "scanner") (codes "timeout_seconds") 30 in
    let c : number_setting saved (codes "telemetry") (codes "interval_hours") 168
        ≡ s.interval_hours =
      number_of (codes "telemetry") (codes "interval_hours") 168 in
    let d : number_setting saved (codes "notification") (codes "rate_limit_max") 100
        ≡ s.notification.rate_limit_max =
      number_of (codes "notification") (codes "rate_limit_max") 100 in
    let e : number_setting saved (codes "notification") (codes "rate_limit_batch_interval") 600
        ≡ s.notification.rate_limit_batch_interval =
      number_of (codes "notification") (codes "rate_limit_batch_interval") 600 in
    let f : number_setting saved (codes "notification") (codes "threshold_duration") 120
        ≡ s.notification.threshold_duration =
      number_of (codes "notification") (codes "threshold_duration") 120 in
    let g : number_setting saved (codes "notification") (codes "cooldown_period") 300
        ≡ s.notification.cooldown_period =
      number_of (codes "notification") (codes "cooldown_period") 300 in
    let h : text_or (codes "material") (find_setting (codes "ui") (codes "card_design") saved)
        ≡ s.card_design =
      ap (text_or (codes "material"))
        (find_setting-save_each (codes "ui") (codes "card_design") rows table) in
    rw (a, b, c, d, e, f, g, h) refl

-- The settings that Validate accepts.
abbrev pub InRange : SystemSettings → Type 0
InRange s =
    (10 ≤ s.scanner.interval_seconds)
    × (s.scanner.interval_seconds ≤ 86400)
    × (5 ≤ s.scanner.timeout_seconds)
    × (s.scanner.timeout_seconds ≤ 300)
    × (1 ≤ s.interval_hours)
    × (s.interval_hours ≤ 720)
    × (1 ≤ s.notification.rate_limit_max)
    × (s.notification.rate_limit_max ≤ 1000)
    × (60 ≤ s.notification.rate_limit_batch_interval)
    × (s.notification.rate_limit_batch_interval ≤ 3600)
    × (30 ≤ s.notification.threshold_duration)
    × (s.notification.threshold_duration ≤ 600)
    × (60 ≤ s.notification.cooldown_period)
    × (s.notification.cooldown_period ≤ 3600)
    × (is_design s.card_design ≡ true)

pub validate_iff : (s : SystemSettings) → (validate s ≡ none) ↔ InRange s
unfolding validate
validate_iff s = ((λ h. ground (arith, h)), (λ h. ground (arith, h)))

load-save_each :
    (read_time : Time → Option Time) (now later : Time) (s : SystemSettings)
    (table : List SettingRow)
    → record (load_system_settings read_time later (save_each (setting_rows now s) table)) {
      updated_at = s.updated_at;
    }
      ≡ s
unfolding load_system_settings setting_rows
load-save_each read_time now later s table =
    let full : is_first_run (save_each (setting_rows now s) table) ≡ false =
      save_each-not_empty _ _ table in
    rw full (stored_settings-saved read_time now s table)

-- Settings are saved exactly if each of them is in its range, and are then loaded as they were, but for
-- the time of the update; others are refused, and the table stays.
pub save_system_settings_lem :
    (read_time : Time → Option Time) (now later : Time) (s : SystemSettings)
    (table : List SettingRow)
    → (InRange s
        × ((save_system_settings now s table).1 ≡ none)
        × (record (load_system_settings read_time later (save_system_settings now s table).0) {
          updated_at = s.updated_at;
        }
            ≡ s))
      ⊎ ((¬ (InRange s))
          × ((save_system_settings now s table).1 ≢ none)
          × ((save_system_settings now s table).0 ≡ table))
unfolding save_system_settings
save_system_settings_lem read_time now later s table = elim (Option-cases (validate s)) [
  | inl q ↦ inl ((validate_iff s).0 q, rw q refl, rw q (load-save_each read_time now later s table))
  | inr (e, q) ↦ inr (
    (λ h. absurd (ground (arith, q, (validate_iff s).1 h))),
    rw q (λ p. absurd (ground (arith, p))),
    rw q refl,
  )
]
