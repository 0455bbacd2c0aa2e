-- ===== src/Settings/Migration/Parts.antt =====
-- The loops of internal/migration/config_import.go: what they append to the tables, and what they keep.
use container_census.Base.{
  suc, ◌≡◌, ◌≢◌, inl, inr, refl, sym, ap, subst, ◌∙◌, Bool, false, List, [], ◌∷◌, ◌++◌, Option,
  none, some, map, Text, text_eq, text_beq_iff, ◌==◌, any, append-nil, append_assoc, arith,
  Bool-cases, Memᴰ, append-mem, not_any-of_mem, map-append,
}
use container_census.Models.{Host}
use container_census.Telemetry.Types.{TelemetryEndpoint}
use container_census.Settings.{SettingRow}
use container_census.Settings.Config.{HostConfig, Config}
use container_census.Settings.Migration.{
  ConfigTables, named_host, add_host, upsert_endpoint, save_telemetry_endpoint, set_preference,
  each, import_host, import_hosts, import_telemetry_endpoints, import_parts, host_config,
  with_settings,
}

-- No two elements have the same name.
module _ {ℓ} {A : Type ℓ} (name : A → Text) where
  abbrev pub HasDistinctNames : List A → Type 0
  HasDistinctNames [] = Unit
  HasDistinctNames (a ∷ as_) = (any (λ b. name b == name a) as_ ≡ false) × HasDistinctNames as_

  IsNew : A → List A → Type 0
  IsNew a as_ = any (λ b. name b == name a) as_ ≡ false

  ==_false_comm : (a b : A) → (name a == name b) ≡ false → (name b == name a) ≡ false
  ==_false_comm a b h = elim (Bool-cases (name b == name a)) [
    | inl e ↦ absurd (
        ground (
          arith,
          h,
          (text_beq_iff (name a) (name b)).1 (sym ((text_beq_iff (name b) (name a)).0 e)),
        ))
    | inr e ↦ e
  ]

  -- A loop that appends what has a new name appends all of a list of distinct new names.
  each-appends :
      (view : ConfigTables → List A) (step : ConfigTables → A → ConfigTables)
      → ((db : ConfigTables) (a : A)
          → any (λ b. name b == name a) (view db) ≡ false
          → view (step db a) ≡ view db ++ (a ∷ []))
      → (as_ : List A) (db : ConfigTables) → HasDistinctNames as_
      → ((b : A) → Memᴰ b (view db) → any (λ c. name c == name b) as_ ≡ false)
      → view (each step db as_) ≡ view db ++ as_
  each-appends view step appends [] db distinct new = sym (append-nil (view db))
  each-appends view step appends (a ∷ as_) db (alone, distinct) new =
      let fresh =
        not_any-of_mem (λ b. name b == name a) (view db)
          (λ b m. ==_false_comm a b (ground (arith, new b m))) in
      let q = appends db a fresh in
      each-appends view step appends as_ (step db a) distinct (λ b m.
        elim (append-mem (view db) (a ∷ []) (subst (Memᴰ b) q m)) [
          | inl old ↦ ground (arith, new b old)
          | inr (Memᴰ.head e) ↦ subst (λ c. any (λ d. name d == name c) as_ ≡ false) (sym e) alone
          | inr (Memᴰ.tail k) ↦ elim k [ ]
        ])
      ∙ ap (λ bs. bs ++ as_) q
      ∙ append_assoc (view db) (a ∷ []) as_

any-map {ℓ κ} :
    {A : Type ℓ} {B : Type κ} (f : A → B) (p : B → Bool) (xs : List A)
    → any p (map f xs) ≡ any (λ x. p (f x)) xs
any-map f p [] = refl
any-map f p (x ∷ xs) = ground (arith, any-map f p xs)

-- What a loop's step leaves alone.
each-keeps {ℓ κ} :
    {A : Type ℓ} {B : Type κ} (field : ConfigTables → B) (step : ConfigTables → A → ConfigTables)
    → ((db : ConfigTables) (a : A) → field (step db a) ≡ field db)
    → (as_ : List A) (db : ConfigTables) → field (each step db as_) ≡ field db
each-keeps field step keeps [] db = refl
each-keeps field step keeps (a ∷ as_) db = each-keeps field step keeps as_ (step db a) ∙ keeps db a

import_host-appends :
    (db : ConfigTables) (c : HostConfig)
    → any (λ b. b.name == c.name) (map host_config db.hosts) ≡ false
    → map host_config (import_host db c).hosts ≡ map host_config db.hosts ++ (c ∷ [])
unfolding import_host add_host
import_host-appends db c h =
    let free : any (λ b. b.name == c.name) db.hosts ≡ false =
      sym (any-map host_config (λ b. b.name == c.name) db.hosts) ∙ h in
    let host : Host = record (named_host c.name c.address c.description) {
      id = suc db.last_host_id;
    } in
    let q : (import_host db c).hosts ≡ db.hosts ++ (host ∷ []) = ground (arith, free) in
    ap (map host_config) q ∙ map-append host_config db.hosts (host ∷ [])

import_host-settings :
    (db : ConfigTables) (c : HostConfig) → (import_host db c).settings ≡ db.settings
unfolding import_host add_host
import_host-settings db c = ground arith

import_host-endpoints :
    (db : ConfigTables) (c : HostConfig) → (import_host db c).endpoints ≡ db.endpoints
unfolding import_host add_host
import_host-endpoints db c = ground arith

upsert_endpoint-appends :
    (e : TelemetryEndpoint) (es : List TelemetryEndpoint)
    → any (λ b. b.name == e.name) es ≡ false
    → upsert_endpoint e es ≡ es ++ (e ∷ [])
unfolding upsert_endpoint
upsert_endpoint-appends e [] h = refl
upsert_endpoint-appends e (x ∷ es) h =
    ground (arith, h, upsert_endpoint-appends e es (ground (arith, h)))

not_member {ℓ} : {A : Type ℓ} {a : A} {xs : List A} → xs ≡ [] → Memᴰ a xs → ⊥
not_member {a} e m = elim (subst (Memᴰ a) e m) [ ]

pub with_settings-none :
    (next : ConfigTables → ConfigTables) (db : ConfigTables) (p : List SettingRow × Option Text)
    → p.1 ≡ none
    → with_settings next db p ≡ (next (record db { settings = p.0 }), none)
with_settings-none next db (rows, none) h = refl
with_settings-none next db (rows, some e) h = absurd (ground (arith, h))

pub with_settings-some :
    (next : ConfigTables → ConfigTables) (db : ConfigTables) (p : List SettingRow × Option Text)
    → p.1 ≢ none
    → ((with_settings next db p).0 ≡ db) × ((with_settings next db p).1 ≢ none)
with_settings-some next db (rows, none) h = absurd (h refl)
with_settings-some next db (rows, some e) h = (refl, h)

import_hosts-empty :
    (cs : List HostConfig) (db : ConfigTables)
    → db.hosts ≡ []
    → import_hosts cs db ≡ each import_host db cs
unfolding import_hosts
import_hosts-empty cs db h = ground (arith, h)

import_telemetry_endpoints-empty :
    (es : List TelemetryEndpoint) (db : ConfigTables)
    → db.endpoints ≡ []
    → import_telemetry_endpoints es db ≡ each save_telemetry_endpoint db es
unfolding import_telemetry_endpoints
import_telemetry_endpoints-empty es db h = ground (arith, h)

save_telemetry_endpoint-others :
    (db : ConfigTables) (e : TelemetryEndpoint)
    → ((save_telemetry_endpoint db e).settings ≡ db.settings)
      × ((save_telemetry_endpoint db e).hosts ≡ db.hosts)
unfolding save_telemetry_endpoint
save_telemetry_endpoint-others db e = (refl, refl)

save_telemetry_endpoint-appends :
    (db : ConfigTables) (e : TelemetryEndpoint)
    → any (λ b. b.name == e.name) db.endpoints ≡ false
    → (save_telemetry_endpoint db e).endpoints ≡ db.endpoints ++ (e ∷ [])
unfolding save_telemetry_endpoint
save_telemetry_endpoint-appends db e h = upsert_endpoint-appends e db.endpoints h

-- The tables after the parts of a file are imported into tables without hosts and endpoints.
pub import_parts_lem :
    (cfg : Config) (db : ConfigTables)
    → db.hosts ≡ []
    → db.endpoints ≡ []
    → HasDistinctNames (λ h. h.name) cfg.hosts
    → HasDistinctNames (λ e. e.name) cfg.telemetry.endpoints
    → ((import_parts cfg db).settings ≡ db.settings)
      × (map host_config (import_parts cfg db).hosts ≡ cfg.hosts)
      × ((import_parts cfg db).endpoints ≡ cfg.telemetry.endpoints)
unfolding import_parts set_preference
import_parts_lem cfg db no_hosts no_endpoints hosts endpoints =
    let with_hosts = each import_host db cfg.hosts in
    let none_there =
      each-keeps (λ t. t.endpoints) import_host import_host-endpoints cfg.hosts db ∙ no_endpoints in
    let all = each save_telemetry_endpoint with_hosts cfg.telemetry.endpoints in
    let path : import_telemetry_endpoints cfg.telemetry.endpoints (import_hosts cfg.hosts db)
        ≡ all =
      ap (import_telemetry_endpoints cfg.telemetry.endpoints)
        (import_hosts-empty cfg.hosts db no_hosts)
      ∙ import_telemetry_endpoints-empty cfg.telemetry.endpoints with_hosts none_there in
    (
      ap (λ (t : ConfigTables). t.settings) path
          ∙ each-keeps (λ t. t.settings) save_telemetry_endpoint
              (λ t e. (save_telemetry_endpoint-others t e).0) cfg.telemetry.endpoints with_hosts
          ∙ each-keeps (λ t. t.settings) import_host import_host-settings cfg.hosts db,
      ap (λ (t : ConfigTables). map host_config t.hosts) path
          ∙ ap (map host_config) (
              each-keeps (λ t. t.hosts) save_telemetry_endpoint
                (λ t e. (save_telemetry_endpoint-others t e).1) cfg.telemetry.endpoints with_hosts)
          ∙ each-appends (λ h. h.name) (λ t. map host_config t.hosts) import_host
              import_host-appends cfg.hosts db hosts
              (λ b m. absurd (not_member (ap (map host_config) no_hosts) m))
          ∙ ap (λ hs. map host_config hs ++ cfg.hosts) no_hosts,
      ap (λ (t : ConfigTables). t.endpoints) path
          ∙ each-appends (λ e. e.name) (λ t. t.endpoints) save_telemetry_endpoint
              save_telemetry_endpoint-appends cfg.telemetry.endpoints with_hosts endpoints
              (λ b m. absurd (not_member none_there m))
          ∙ ap (λ es. es ++ cfg.telemetry.endpoints) none_there,
    )
