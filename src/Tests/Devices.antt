-- ===== src/Tests/Devices.antt =====
-- A refresh of a tablet that the router and the neighbour table report, a reload, and a runtime.
use citadel_dnxproxy.Prelude.{
  true, ℕ, ◌*◌, ◌-◌, ◌≡◌, refl, ◌≢◌, ◌≤◌, ◌⊎◌, List, [], ◌∷◌, none, some, arith,
}
use mathlib.Core.List.{Memᴰ}
use citadel_dnxproxy.Prelude.Dict
use citadel_dnxproxy.Prelude.Result.{Result, ok, err}
use citadel_dnxproxy.Clock.{nanoseconds}
use citadel_dnxproxy.Text.{Text, codes}
use citadel_dnxproxy.Config.{Config}
use citadel_dnxproxy.Config.Validate.{Report}
use citadel_dnxproxy.Policy.Types.{Device}
use citadel_dnxproxy.Policy.Keys.{KeysMatch}
use citadel_dnxproxy.Devices.{DeviceRecord, source_router, source_arp}
use citadel_dnxproxy.Devices.Discovery.{Manager, record_key, source_priority, collapse, refresh}
use citadel_dnxproxy.Devices.Discovery.Assignments.{IsKept, refresh-Survives, refresh-KeysMatch}
use citadel_dnxproxy.Devices.Discovery.Priorities.{collapse-source_priority}
use citadel_dnxproxy.Proxy.Runtime.{
  PolicyRuntime, force_reload, compiled, refresh_policy_runtime, refresh_policy_runtime-compiled,
}
use citadel_dnxproxy.System.{System, Logs, reload_config}
use citadel_dnxproxy.System.Reload.{
  Ends, reload_config-IsReloaded, IsWired, Event, reloads, sets_cache, after_events,
  after_events-IsWired,
}
use citadel_dnxproxy.Tests.Admin.{sample-KeysMatch}
use citadel_dnxproxy.Tests.Samples.{disk_ok, store, tablet, conf, no_zones, utc}

abbrev seen_by : Text → Text → DeviceRecord
seen_by source name = record {
  mac = 1 ∷ 2 ∷ 3 ∷ 4 ∷ 5 ∷ 6 ∷ [];
  ip = some (codes "192.168.1.10");
  name = name;
  hostname = [];
  vendor = [];
  source = source;
  last_seen = 0;
}

abbrev records : List DeviceRecord
records = seen_by source_arp [] ∷ seen_by source_router (codes "tab") ∷ []

abbrev manager : Manager
manager = record { store = store; cache = none; updates = 0 }

abbrev results : List (Result Text (List DeviceRecord))
results = err (codes "timeout") ∷ ok records ∷ []

refresh-Survives_example :
    (dev' : Device) × (Dict.get
        (refresh disk_ok 7 results manager).0.store.contents.devices
        (codes "d1")
      ≡ some dev')
    × IsKept tablet dev'
unfolding Dict.get
refresh-Survives_example =
    refresh-Survives disk_ok 7 results manager (codes "d1") tablet refl (λ e. cc)

refresh-KeysMatch_example : KeysMatch (refresh disk_ok 7 results manager).0.store.contents
refresh-KeysMatch_example = refresh-KeysMatch disk_ok 7 results manager sample-KeysMatch

collapse-source_priority_example :
    ((r : DeviceRecord)
      → Memᴰ r records
      → record_key r ≢ []
      → (c : DeviceRecord) × (Dict.get (collapse 7 records []) (record_key r) ≡ some c)
        × (source_priority r.source ≤ source_priority c.source))
    × ((k : Text) (c : DeviceRecord)
        → Dict.get (collapse 7 records []) k ≡ some c
        → (r : DeviceRecord) × Memᴰ r records × (record_key r ≡ k) × (c.source ≡ r.source))
collapse-source_priority_example = collapse-source_priority 7 records

abbrev nothing_yet : PolicyRuntime
nothing_yet = record { policies = none; accounts = none; last_refresh = 0 }

abbrev minute : ℕ
minute = 60 * nanoseconds

refresh_policy_runtime-compiled_example :
    (refresh_policy_runtime no_zones utc (some store) minute (force_reload nothing_yet)
      ≡ compiled no_zones utc store minute)
    × ((refresh_policy_runtime no_zones utc (some store) minute nothing_yet
          ≡ compiled no_zones utc store minute)
        ⊎ ((refresh_policy_runtime no_zones utc (some store) minute nothing_yet ≡ nothing_yet)
            × (minute - nothing_yet.last_refresh ≤ 2 * nanoseconds)))
refresh_policy_runtime-compiled_example =
    refresh_policy_runtime-compiled no_zones utc store minute nothing_yet (omega arith)

abbrev running : System
running = record {
  performance_log = record { name = conf.logfile; open_file = true };
  config = conf;
  rules_engine = record { conf = conf; device_cache = none };
  resolver = record { conf = conf; device_cache = none };
  device_cache = none;
}

abbrev logs : Logs
logs = record { closes = λ name. true; opens = λ name. true }

abbrev passes : Config → Report
passes c = none

reload_config-IsReloaded_example :
    Ends passes logs running (some conf) (reload_config passes logs (some conf) running)
reload_config-IsReloaded_example = reload_config-IsReloaded passes logs running (some conf)

abbrev events : List Event
events = sets_cache (some 1) ∷ reloads logs (some conf) ∷ reloads logs none ∷ []

after_events-IsWired_example : IsWired (after_events passes events running)
after_events-IsWired_example =
    after_events-IsWired passes events running
      (record { config = refl; engine_cache = refl; resolver_cache = refl })
