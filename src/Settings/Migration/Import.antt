-- ===== src/Settings/Migration/Import.antt =====
-- What the first import of internal/migration stores, and the export of it.
use mathlib.Core.List.Permᴰ
use container_census.Base.{
  ◌≡◌, ◌≢◌, ◌↔◌, ◌⊎◌, inl, inr, refl, ap, subst, ◌∙◌, true, List, [], ◌∷◌, Option, none, map, Text,
  text_eq, sort_by-perm, sort_by-IsOrdered, IsOrdered, ok, arith, Bool-cases, Permᴰ,
}
use container_census.Models.{Time, Host}
use container_census.Storage.Containers.{text_lt, text_lt_asym}
use container_census.Settings.{
  SystemSettings, SettingRow, is_first_run, save_system_settings, load_system_settings,
}
use container_census.Settings.RoundTrip.{InRange, save_system_settings_lem}
use container_census.Settings.Config.{Config}
use container_census.Settings.Migration.{
  ConfigTables, get_hosts, get_telemetry_endpoints, import_parts, import_loaded, import_yaml_config,
  convert_config_to_settings, host_config, convert_settings_to_config, export_to_yaml,
}
use container_census.Settings.Migration.Parts.{
  HasDistinctNames, with_settings-none, with_settings-some, import_parts_lem,
}

host_config-IsOrdered :
    (hs : List Host)
    → IsOrdered (λ a b. text_lt a.name b.name) hs
    → IsOrdered (λ a b. text_lt a.name b.name) (map host_config hs)
host_config-IsOrdered [] h = tt
host_config-IsOrdered (x ∷ []) h = tt
host_config-IsOrdered (x ∷ y ∷ hs) h = (h.0, host_config-IsOrdered (y ∷ hs) h.1)

-- The exported scanner and telemetry intervals, hosts and endpoints are those of a configuration; the
-- hosts and the endpoints are in the order of their names.
abbrev pub IsExportOf : Config → Config → Type 0
IsExportOf out cfg =
    (out.scanner.interval_seconds ≡ cfg.scanner.interval_seconds)
    × (out.scanner.timeout_seconds ≡ cfg.scanner.timeout_seconds)
    × (out.telemetry.interval_hours ≡ cfg.telemetry.interval_hours)
    × Permᴰ out.hosts cfg.hosts
    × Permᴰ out.telemetry.endpoints cfg.telemetry.endpoints
    × IsOrdered (λ a b. text_lt a.name b.name) out.hosts
    × IsOrdered (λ a b. text_lt a.name b.name) out.telemetry.endpoints

import_loaded-cases :
    (read_time : Time → Option Time) (now later : Time) (cfg : Config) (db : ConfigTables)
    → (InRange (convert_config_to_settings cfg)
        × ((import_loaded now (ok cfg) db).1 ≡ none)
        × ((rows : List SettingRow) × ((import_loaded now (ok cfg) db).0
              ≡ import_parts cfg (record db { settings = rows }))
            × (record (load_system_settings read_time later rows) { updated_at = 0 }
                ≡ convert_config_to_settings cfg)))
      ⊎ ((¬ (InRange (convert_config_to_settings cfg)))
          × ((import_loaded now (ok cfg) db).1 ≢ none)
          × ((import_loaded now (ok cfg) db).0 ≡ db))
unfolding import_loaded convert_config_to_settings
import_loaded-cases read_time now later cfg db =
    let s = convert_config_to_settings cfg in
    let saved = save_system_settings now s db.settings in
    elim (save_system_settings_lem read_time now later s db.settings) [
      | inl (ranged, fine, loaded) ↦
          let q = with_settings-none (import_parts cfg) db saved fine in
          inl (
            ranged,
            ap (λ (p : ConfigTables × Option Text). p.1) q,
            (saved.0, ap (λ (p : ConfigTables × Option Text). p.0) q, loaded),
          )
      | inr (bad, failed, same) ↦
          let (a, b) = with_settings-some (import_parts cfg) db saved failed in inr (bad, b, a)
    ]

-- A configuration is imported exactly if no settings are stored and its scanner and telemetry settings
-- are in their ranges; otherwise the import fails, and stores nothing of it, neither hosts nor endpoints.
pub import_yaml_config_iff :
    (read_time : Time → Option Time) (now : Time) (cfg : Config) (db : ConfigTables)
    → (((import_yaml_config now (ok cfg) db).1 ≡ none)
        ↔ (is_first_run db.settings ≡ true) × InRange (convert_config_to_settings cfg))
      × (((import_yaml_config now (ok cfg) db).1 ≡ none)
          ⊎ ((import_yaml_config now (ok cfg) db).0 ≡ db))
unfolding import_yaml_config
import_yaml_config_iff read_time now cfg db = elim (Bool-cases (is_first_run db.settings)) [
  | inl first ↦ elim (import_loaded-cases read_time now now cfg db) [
    | inl (ranged, fine, rest) ↦ rw first (((λ _. (refl, ranged)), (λ _. fine)), inl fine)
    | inr (bad, failed, same) ↦
        rw first (((λ h. absurd (failed h)), (λ (_, h). absurd (bad h))), inr same)
  ]
  | inr again ↦
      rw again
        (((λ h. absurd (ground (arith, h))), (λ (h, _). absurd (ground (arith, h)))), inr refl)
]

-- The export of a first import, into tables without hosts and endpoints, of a configuration whose
-- settings are in their ranges and whose hosts and endpoints have distinct names, gives back its scanner
-- and telemetry settings, and its hosts and endpoints in the order of their names.
pub export_to_yaml-import_yaml_config :
    (read_time : Time → Option Time) (now later : Time) (cfg : Config) (db : ConfigTables)
    → is_first_run db.settings ≡ true
    → db.hosts ≡ []
    → db.endpoints ≡ []
    → InRange (convert_config_to_settings cfg)
    → HasDistinctNames (λ h. h.name) cfg.hosts
    → HasDistinctNames (λ e. e.name) cfg.telemetry.endpoints
    → IsExportOf (export_to_yaml read_time later (import_yaml_config now (ok cfg) db).0) cfg
unfolding import_yaml_config export_to_yaml convert_settings_to_config convert_config_to_settings
    get_hosts get_telemetry_endpoints
export_to_yaml-import_yaml_config read_time now later cfg db first no_hosts no_endpoints ranged
      hosts endpoints =
    elim (import_loaded-cases read_time now later cfg db) [
      | inl (_, fine, (rows, parts, loaded)) ↦
          let (settings, kept_hosts, kept_endpoints) =
            import_parts_lem cfg (record db { settings = rows }) no_hosts no_endpoints hosts
              endpoints in
          let after = import_parts cfg (record db { settings = rows }) in
          let out : (import_yaml_config now (ok cfg) db).0 ≡ after = rw first parts in
          let done = (import_yaml_config now (ok cfg) db).0 in
          let q =
            ap (load_system_settings read_time later)
              (ap (λ (t : ConfigTables). t.settings) out ∙ settings) in
          (
            ap (λ (s : SystemSettings). s.scanner.interval_seconds) q
                ∙ ap (λ (s : SystemSettings). s.scanner.interval_seconds) loaded,
            ap (λ (s : SystemSettings). s.scanner.timeout_seconds) q
                ∙ ap (λ (s : SystemSettings). s.scanner.timeout_seconds) loaded,
            ap (λ (s : SystemSettings). s.interval_hours) q
                ∙ ap (λ (s : SystemSettings). s.interval_hours) loaded,
            subst (Permᴰ (map host_config (get_hosts done)))
                (ap (λ (t : ConfigTables). map host_config t.hosts) out ∙ kept_hosts)
                (Permᴰ.map host_config (sort_by-perm (λ a b. text_lt a.name b.name) done.hosts)),
            subst (Permᴰ (get_telemetry_endpoints done))
                (ap (λ (t : ConfigTables). t.endpoints) out ∙ kept_endpoints)
                (sort_by-perm (λ a b. text_lt a.name b.name) done.endpoints),
            host_config-IsOrdered (get_hosts done) (
                sort_by-IsOrdered (λ a b. text_lt a.name b.name) (λ a b. text_lt_asym a.name b.name)
                  done.hosts),
            sort_by-IsOrdered (λ a b. text_lt a.name b.name) (λ a b. text_lt_asym a.name b.name)
                done.endpoints,
          )
      | inr (bad, _, _) ↦ absurd (bad ranged)
    ]
