-- ===== src/System/Start.antt =====
-- `NewSystem` of internal/system/system.go, with the device cache that it makes.
use citadel_dnxproxy.Prelude.{ℕ, true, List, [], ◌∷◌, Option, none, some, if◌then◌else◌}
use citadel_dnxproxy.Prelude.Result.{Result, ok, err, ◌>>=◌}
use citadel_dnxproxy.Clock.{Time}
use citadel_dnxproxy.Text.{Text}
use citadel_dnxproxy.Config.{Config, StaticDevice, RouterType, unifi}
use citadel_dnxproxy.Config.Validate.{Report}
use citadel_dnxproxy.Devices.Cache.{
  DeviceCache, new_device_cache, RouterClient, refresh, load_static_devices,
}
use citadel_dnxproxy.System.{System, Logs, ReloadError, not_loaded, validate_config}

-- Why NewSystem panics.
pub data StartError : Type 0 where
  not_configured : ReloadError → StartError
  log_not_opened : StartError

abbrev configured : {A : Type 0} → Result ReloadError A → Result StartError A
configured (err e) = err (not_configured e)
configured (ok v) = ok v

-- `initializeRouter`, which sets `routerClient`, and none for its error.
unfoldable pub initialize_router : RouterType → RouterClient → Option RouterClient
initialize_router unifi client = elim client.listed [ err e ↦ none | ok devices ↦ some client ]
initialize_router _ client = none

abbrev kept_cache : DeviceCache × Option Text → Option DeviceCache
kept_cache (dc, none) = some dc
kept_cache (dc, some e) = none

-- The cache of a router that works and lists its devices: `client` is what the router answers first,
-- `again` what it answers to the cache's own refresh.
unfoldable pub router_cache : RouterType → RouterClient → RouterClient → Time → Option DeviceCache
unfolding initialize_router
router_cache engine client again now = elim (initialize_router engine client) [
  | none ↦ none
  | some working ↦ kept_cache (refresh (some again) now new_device_cache)
]

abbrev or_new : Option DeviceCache → DeviceCache
or_new none = new_device_cache
or_new (some dc) = dc

module _ (parse_ip : Text → Option Text) (parse_mac : Text → Option (List ℕ)) where
  -- The static devices, in the router's cache or in a new one.
  unfoldable pub with_static_devices :
      List StaticDevice → Time → Option DeviceCache → Option DeviceCache
  with_static_devices [] now dc = dc
  with_static_devices (sd ∷ sds) now dc =
      some (load_static_devices parse_ip parse_mac now (sd ∷ sds) (or_new dc))

  module _ (check : Config → Report) (logs : Logs) (client again : RouterClient) (now : Time) where
    abbrev pointer : Option DeviceCache → Option ℕ
    pointer none = none
    pointer (some dc) = some 0

    abbrev system_of : Config → Option DeviceCache → System × Option DeviceCache
    system_of conf dc = (
      record {
        performance_log = record { name = conf.logfile; open_file = true };
        config = conf;
        rules_engine = record { conf = conf; device_cache = pointer dc };
        resolver = record { conf = conf; device_cache = pointer dc };
        device_cache = pointer dc;
      },
      dc,
    )

    abbrev started : Config → Result StartError (System × Option DeviceCache)
    started conf =
        if logs.opens conf.logfile
        then ok (
            system_of conf (
              with_static_devices conf.static_devices now
                (router_cache conf.router.engine client again now)))
        else err log_not_opened

    -- `NewSystem`, with what `loadConfig` reads; an error is a panic. The cache, where there is one, is
    -- the object number 0.
    unfoldable pub new_system : Option Config → Result StartError (System × Option DeviceCache)
    unfolding with_static_devices router_cache
    new_system none = err (not_configured not_loaded)
    new_system (some conf) = configured (validate_config check logs conf) >>= started
