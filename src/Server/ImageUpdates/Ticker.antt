-- ===== src/Server/ImageUpdates/Ticker.antt =====
-- The tickers of runImageUpdateChecker of cmd/server/main.go.
use container_census.Base.{◌≡◌, refl, ◌<◌, ◌↔◌, ℕ, true, false, some, nat_eq, arith}
use container_census.Server.ImageUpdates.{
  ImageUpdateSettings, Checker, ticker_of, start_checker, reload_settings, flag_changed,
}

-- The states that the loop reaches from its start, with the settings that it read at each tick.
pub data Reaches : Checker → Type 0 where
  starts : (s : ImageUpdateSettings) → Reaches (start_checker s)
  reloads : (new : ImageUpdateSettings) {c : Checker} → Reaches c → Reaches (reload_settings new c)

ticker_of_congr :
    (s t : ImageUpdateSettings)
    → flag_changed s.auto_check_enabled t.auto_check_enabled ≡ false
    → s.check_interval_hours ≡ t.check_interval_hours
    → ticker_of t ≡ ticker_of s
ticker_of_congr s t same hours = ground (arith, same, hours)

reload_settings-ticker :
    (new : ImageUpdateSettings) (c : Checker)
    → c.ticker ≡ ticker_of c.settings
    → (reload_settings new c).ticker ≡ ticker_of (reload_settings new c).settings
unfolding reload_settings
reload_settings-ticker new c h = ground (arith, h)

Reaches-ticker : {c : Checker} → Reaches c → c.ticker ≡ ticker_of c.settings
unfolding start_checker
Reaches-ticker (Reaches.starts s) = refl
Reaches-ticker (Reaches.reloads new {c} r) = reload_settings-ticker new c (Reaches-ticker r)

-- In every state that the loop reaches, it has a ticker of some hours exactly if the settings that it
-- holds enable the check with that interval, of at least an hour: each check is made with the check
-- enabled.
pub ticker_lem :
    (c : Checker)
    → Reaches c
    → (hours : ℕ)
    → (c.ticker ≡ some hours)
      ↔ (c.settings.auto_check_enabled ≡ true)
        × (c.settings.check_interval_hours ≡ hours)
        × (0 < hours)
ticker_lem c r hours = ground (arith, Reaches-ticker r)
