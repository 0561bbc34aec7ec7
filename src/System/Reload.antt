-- ===== src/System/Reload.antt =====
-- What a reload leaves, and how the parts of the system hang together.
use citadel_dnxproxy.Prelude.{
  Bool-cases, true, false, true-ne-false, ◌&&◌, str_eq, List, [], ◌∷◌, subst, ◌≡◌, refl, sym, ◌∙◌,
  ap, ◌≢◌, ◌⊎◌, inl, inr, Option, none, some, Option-cases, str_eq_iff,
}
use mathlib.Core.Option.{some-ne-none}
use citadel_dnxproxy.Config.{Config}
use citadel_dnxproxy.Config.Validate.{Report}
use citadel_dnxproxy.System.{
  System, CacheRef, Logs, Ending, returns, panics, not_loaded, not_valid, not_closed, with_defaults,
  set_device_cache, closed_log, validate_config, switch_log, installed, reload_config,
}

-- A reload that succeeds: the new configuration with its defaults, which passes the check, is that of
-- the system and of a new rules engine on the same device cache; the log stays where the configuration
-- names the same one, and is a new one that is open where it names another; the resolver stays.
pub record IsReloaded (check : Config → Report) (read : Option Config) (sys sys' : System)
    : Type 0 where
  pub conf : Config
  pub loaded : read ≡ some conf
  pub valid : check (with_defaults conf) ≡ none
  pub config : sys'.config ≡ with_defaults conf
  pub rules_engine :
      sys'.rules_engine ≡ record { conf = with_defaults conf; device_cache = sys.device_cache }
  pub device_cache : sys'.device_cache ≡ sys.device_cache
  pub same_log :
      (with_defaults conf).logfile ≡ sys.config.logfile → sys'.performance_log ≡ sys.performance_log
  pub new_log :
      (with_defaults conf).logfile ≢ sys.config.logfile
      → sys'.performance_log ≡ record { name = (with_defaults conf).logfile; open_file = true }
  pub resolver : sys'.resolver ≡ sys.resolver

-- A reload that stops at the log, which another is to replace: nothing changes but that the old log is
-- closed. It returns the error of closing it, or panics where the new one cannot be opened.
pub record StopsAtLog (check : Config → Report) (logs : Logs) (read : Option Config)
    (sys sys' : System) (end : Ending) : Type 0 where
  pub conf : Config
  pub loaded : read ≡ some conf
  pub valid : check (with_defaults conf) ≡ none
  pub other_log : (with_defaults conf).logfile ≢ sys.config.logfile
  pub log_closed : sys' ≡ record sys { performance_log = closed_log sys.performance_log }
  pub ending :
      ((end ≡ returns (some not_closed))
        × ((sys.performance_log.open_file && logs.closes sys.performance_log.name) ≡ false))
      ⊎ ((end ≡ panics) × (logs.opens (with_defaults conf).logfile ≡ false))

module _ (check : Config → Report) (logs : Logs) (sys : System) where
  abbrev pub Ends : Option Config → System × Ending → Type 0
  Ends read (sys', end) =
      ((sys' ≡ sys)
        × (((end ≡ returns (some not_loaded)) × (read ≡ none))
            ⊎ ((conf : Config) × (read ≡ some conf)
                × (end ≡ returns (some (not_valid (check (with_defaults conf)))))
                × (check (with_defaults conf) ≢ none))))
      ⊎ (StopsAtLog check logs read sys sys' end)
      ⊎ ((end ≡ returns none) × IsReloaded check read sys sys')

  reload_valid :
      (conf : Config)
      → check (with_defaults conf) ≡ none
      → Ends (some conf) (
          installed check logs sys (with_defaults conf) (
            switch_log check logs sys.config.logfile sys.performance_log
              (with_defaults conf).logfile))
  unfolding switch_log
  reload_valid conf v = elim (Bool-cases (str_eq (with_defaults conf).logfile sys.config.logfile)) [
    | inl same ↦ rw same (
        inr (
          inr (
            refl,
            record {
              conf = conf;
              loaded = refl;
              valid = v;
              config = refl;
              rules_engine = refl;
              device_cache = refl;
              same_log = λ _. refl;
              new_log = λ other. absurd (other ((str_eq_iff _ _).0 same));
              resolver = refl;
            },
          )))
    | inr other ↦
        let differs : (with_defaults conf).logfile ≢ sys.config.logfile =
          λ e. true-ne-false ((str_eq_iff _ _).1 e) other in
        elim (Bool-cases (sys.performance_log.open_file && logs.closes sys.performance_log.name)) [
          | inr fails ↦
              rw (other, fails)
                (inr (
                  inl (record {
                    conf = conf;
                    loaded = refl;
                    valid = v;
                    other_log = differs;
                    log_closed = refl;
                    ending = inl (refl, fails);
                  })))
          | inl closes ↦ elim (Bool-cases (logs.opens (with_defaults conf).logfile)) [
            | inr fails ↦
                rw (other, closes, fails)
                  (inr (
                    inl (record {
                      conf = conf;
                      loaded = refl;
                      valid = v;
                      other_log = differs;
                      log_closed = refl;
                      ending = inr (refl, fails);
                    })))
            | inl opens ↦
                rw (other, closes, opens)
                  (inr (
                    inr (
                      refl,
                      record {
                        conf = conf;
                        loaded = refl;
                        valid = v;
                        config = refl;
                        rules_engine = refl;
                        device_cache = refl;
                        same_log = λ same. absurd (differs same);
                        new_log = λ _. refl;
                        resolver = refl;
                      },
                    )))
          ]
        ]
  ]

  reload_read : (conf : Config) → Ends (some conf) (reload_config check logs (some conf) sys)
  unfolding reload_config validate_config
  reload_read conf = elim (Option-cases (check (with_defaults conf))) [
    | inl v ↦ rw v (reload_valid conf v)
    | inr (problem, v) ↦
        rw v (inl (refl, inr (conf, refl, rw v refl, λ e. some-ne-none _ (sym v ∙ e))))
  ]

  -- ReloadConfig ends in one of three ways. It returns the error that the file cannot be loaded or
  -- does not pass the check with its defaults, exactly where that is so, and leaves the system as
  -- it was. Or the configuration names another log, and closing the old one fails, which is
  -- returned, or opening the new one fails, which is a panic: then nothing changes but that the
  -- old log is closed. Or it returns no error: then the configuration with its defaults is the
  -- system's and that of a new rules engine on the same device cache, the log is the one it names,
  -- and the resolver stays the old one.
  pub reload_config-IsReloaded :
      (read : Option Config) → Ends read (reload_config check logs read sys)
  unfolding reload_config
  reload_config-IsReloaded none = inl (refl, inl (refl, refl))
  reload_config-IsReloaded (some conf) = reload_read conf

-- The rules engine has the system's configuration, the engine and the resolver its device cache.
pub record IsWired (sys : System) : Type 0 where
  pub config : sys.rules_engine.conf ≡ sys.config
  pub engine_cache : sys.rules_engine.device_cache ≡ sys.device_cache
  pub resolver_cache : sys.resolver.device_cache ≡ sys.device_cache

-- What may happen to a running system.
pub data Event : Type 0 where
  reloads : Logs → Option Config → Event
  sets_cache : Option CacheRef → Event

abbrev pub after_event : (Config → Report) → System → Event → System
after_event check sys (reloads logs read) = (reload_config check logs read sys).0
after_event check sys (sets_cache dc) = set_device_cache dc sys

unfoldable pub after_events : (Config → Report) → List Event → System → System
after_events check [] sys = sys
after_events check (ev ∷ events) sys = after_events check events (after_event check sys ev)

reload-IsWired :
    (check : Config → Report) (logs : Logs) (read : Option Config) (sys : System)
    → IsWired sys
    → IsWired (reload_config check logs read sys).0
reload-IsWired check logs read sys h = elim (reload_config-IsReloaded check logs sys read) [
  | inl (same, why) ↦ subst IsWired (sym same) h
  | inr (inl stop) ↦ subst IsWired (sym stop.log_closed) (record {
    config = h.config;
    engine_cache = h.engine_cache;
    resolver_cache = h.resolver_cache;
  })
  | inr (inr (done, r)) ↦ record {
    config = ap (λ e. e.conf) r.rules_engine ∙ sym r.config;
    engine_cache = ap (λ e. e.device_cache) r.rules_engine ∙ sym r.device_cache;
    resolver_cache = ap (λ e. e.device_cache) r.resolver ∙ h.resolver_cache ∙ sym r.device_cache;
  }
]

event-IsWired :
    (check : Config → Report) (ev : Event) (sys : System)
    → IsWired sys
    → IsWired (after_event check sys ev)
unfolding set_device_cache
event-IsWired check (reloads logs read) sys h = reload-IsWired check logs read sys h
event-IsWired check (sets_cache dc) sys h = record {
  config = h.config;
  engine_cache = refl;
  resolver_cache = refl;
}

-- If the rules engine has the system's configuration, and the engine and the resolver its device
-- cache, then so after any sequence of reloads, successful or not, and of SetDeviceCache.
pub after_events-IsWired :
    (check : Config → Report) (events : List Event) (sys : System)
    → IsWired sys
    → IsWired (after_events check events sys)
unfolding after_events
after_events-IsWired check [] sys h = h
after_events-IsWired check (ev ∷ events) sys h =
    after_events-IsWired check events _ (event-IsWired check ev sys h)
