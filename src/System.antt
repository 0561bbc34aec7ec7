-- ===== src/System.antt =====
-- internal/system/system.go: the parts that a configuration makes, their start and their reload.
pub mod Start
pub mod Reload
use citadel_dnxproxy.Prelude.{
  ℕ, zero, ◌≡◌, refl, ◌≢◌, Bool, true, false, ◌&&◌, List, [], ◌∷◌, Option, none, some,
  if◌then◌else◌, str_eq,
}
use citadel_dnxproxy.Prelude.Int.{ℤ, pos, negsuc}
use citadel_dnxproxy.Prelude.Result.{Result, ok, err}
use citadel_dnxproxy.Text.{Text, codes, is_empty}
use citadel_dnxproxy.Config.{Config, BlockStrategy, StaticDevice, RouterType}
use citadel_dnxproxy.Config.Validate.{Report, validate}

-- A device cache is one object that several parts point to: its number stands for the pointer.
abbrev pub CacheRef : Type 0
CacheRef = ℕ

-- `rules.RulesEngine` and `resolver.Resolver`, as this file makes them.
pub record RulesEngine : Type 0 where
  pub conf : Config
  pub device_cache : Option CacheRef

pub record Resolver : Type 0 where
  pub conf : Config
  pub device_cache : Option CacheRef

-- The performance log: the name of its file, and whether that is open.
pub record Log : Type 0 where
  pub name : Text
  pub open_file : Bool

pub record System : Type 0 where
  pub performance_log : Log
  pub config : Config
  pub rules_engine : RulesEngine
  pub resolver : Resolver
  pub device_cache : Option CacheRef

abbrev text_or : Text → Text → Text
text_or [] default = default
text_or (c ∷ s) default = c ∷ s

abbrev number_or : ℤ → ℤ → ℤ
number_or (pos zero) default = default
number_or n default = n

-- The defaults that `validateConfig` writes into the configuration.
unfoldable pub with_defaults : Config → Config
with_defaults c = record c {
  block_strategy = record c.block_strategy {
    action = text_or c.block_strategy.action (codes "nullroute");
  };
  ipv4_block_resolve = text_or c.ipv4_block_resolve (codes "0.0.0.0");
  ipv6_block_resolve = text_or c.ipv6_block_resolve (codes "::");
  upstream_timeout_ms = number_or c.upstream_timeout_ms (pos 2000);
  upstream_retries = number_or c.upstream_retries (pos 2);
  upstream_fail_window_sec = number_or c.upstream_fail_window_sec (pos 30);
  negative_cache_ttl = number_or c.negative_cache_ttl (pos 30);
}

-- `SetDeviceCache`. A system that was built has an engine and a resolver.
unfoldable pub set_device_cache : Option CacheRef → System → System
set_device_cache dc sys = record sys {
  device_cache = dc;
  rules_engine = record sys.rules_engine { device_cache = dc };
  resolver = record sys.resolver { device_cache = dc };
}

-- Why a reload returns an error: the file, the validation, or closing the old log.
pub data ReloadError : Type 0 where
  not_loaded : ReloadError
  not_valid : Report → ReloadError
  not_closed : ReloadError

-- How a reload ends: it returns an error or none, or panics, as where the new log cannot be opened.
pub data Ending : Type 0 where
  returns : Option ReloadError → Ending
  panics : Ending

-- The operating system's answers: whether an open file is closed without an error (it is unusable after
-- that either way), and whether a file can be opened.
pub record Logs : Type 0 where
  pub closes : Text → Bool
  pub opens : Text → Bool

abbrev pub closed_log : Log → Log
closed_log log = record log { open_file = false }

module _ (check : Config → Report) (logs : Logs) where
  abbrev pub validated : Config → Report → Result ReloadError Config
  validated conf none = ok conf
  validated conf (some problem) = err (not_valid (some problem))

  -- `validateConfig`, with `Validate` as `check`.
  unfoldable pub validate_config : Config → Result ReloadError Config
  unfolding with_defaults
  validate_config conf = validated (with_defaults conf) (check (with_defaults conf))

  -- The new log, if its name changed. A log that is closed already is not closed again.
  unfoldable pub switch_log : Text → Log → Text → Log × Ending
  switch_log old log new =
      if str_eq new old
      then (log, returns none)
      else if log.open_file && logs.closes log.name
      then if logs.opens new
        then (record { name = new; open_file = true }, returns none)
        else (closed_log log, panics)
      else (closed_log log, returns (some not_closed))

  abbrev pub installed : System → Config → Log × Ending → System × Ending
  installed sys conf (log, panics) = (record sys { performance_log = log }, panics)
  installed sys conf (log, returns (some e)) =
      (record sys { performance_log = log }, returns (some e))
  installed sys conf (log, returns none) = (
    record sys {
      performance_log = log;
      rules_engine = record { conf = conf; device_cache = sys.device_cache };
      config = conf;
    },
    returns none,
  )

  abbrev pub reloaded : System → Result ReloadError Config → System × Ending
  reloaded sys (err e) = (sys, returns (some e))
  reloaded sys (ok conf) =
      installed sys conf (switch_log sys.config.logfile sys.performance_log conf.logfile)

  -- `ReloadConfig`, with what `loadConfig` reads from config.json.
  unfoldable pub reload_config : Option Config → System → System × Ending
  unfolding validate_config switch_log
  reload_config none sys = (sys, returns (some not_loaded))
  reload_config (some conf) sys = reloaded sys (validate_config conf)
