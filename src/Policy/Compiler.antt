-- ===== src/Policy/Compiler.antt =====
-- internal/policy/compiler.go, `Compile`. The order of a map's
-- list stands for the order in which Go runs through the map.
pub mod UserRules
use citadel_dnxproxy.Prelude.{
  Bool, true, false, List, [], ◌∷◌, ◌++◌, Option, none, some, if◌then◌else◌,
}
use citadel_dnxproxy.Prelude.Dict
use citadel_dnxproxy.Prelude.Dict.{Dict}
use citadel_dnxproxy.Clock.{Location}
use citadel_dnxproxy.Text.{Text, to_lower, trim_space, replace_byte, is_empty}
use citadel_dnxproxy.Utils.{strip_port_from_addr}
use citadel_dnxproxy.Policy.Types.{
  User, Device, DomainRule, TimeWindow, Settings, PolicyData, no_user,
}
use citadel_dnxproxy.Policy.Evaluator.{Runtime, list_of}

unfoldable pub normalize_mac_string : Text → Text
normalize_mac_string mac = trim_space (to_lower (replace_byte b'-' b':' mac))

-- `m[key] = append(m[key], values...)`
abbrev pub append_to {ℓ} : {A : Type ℓ} → Dict (List A) → Text → List A → Dict (List A)
append_to m key values = Dict.put m key (list_of (Dict.get m key) ++ values)

-- `if len(windows) > 0 { … }`
abbrev add_windows : Text → List TimeWindow → Dict (List TimeWindow) → Dict (List TimeWindow)
add_windows id [] m = m
add_windows id (w ∷ windows) m = append_to m id (w ∷ windows)

unfoldable pub add_user : Text → User → Runtime → Runtime
add_user id u rt = record rt {
  users_by_id = Dict.put rt.users_by_id id u;
  allow_windows = add_windows id u.allow_windows rt.allow_windows;
}

abbrev with_device : Device → User → User
with_device d u = record u { device_ids = u.device_ids ++ d.id ∷ [] }

-- The owner of a device, the zero User where there is none of that name, gets its id.
abbrev add_owner : Device → Dict User → Dict User
add_owner d users =
    if is_empty d.user_id
    then users
    else Dict.put users d.user_id (with_device d (Dict.get_or users d.user_id no_user))

unfoldable pub add_device : Text → Device → Runtime → Runtime
unfolding normalize_mac_string
add_device id d rt = record rt {
  devices_by_id = Dict.put rt.devices_by_id id d;
  devices_by_ip =
      if is_empty d.ip
      then rt.devices_by_ip
      else Dict.put rt.devices_by_ip (strip_port_from_addr d.ip) d;
  devices_by_mac =
      if is_empty (normalize_mac_string d.mac)
      then rt.devices_by_mac
      else Dict.put rt.devices_by_mac (normalize_mac_string d.mac) d;
  users_by_id = add_owner d rt.users_by_id;
}

unfoldable pub add_rule : DomainRule → Runtime → Runtime
add_rule r rt =
    if is_empty r.user_id
    then rt
    else record rt { rules_by_user = append_to rt.rules_by_user r.user_id (r ∷ []) }

unfoldable pub add_users : Dict User → Runtime → Runtime
unfolding add_user
add_users [] rt = rt
add_users ((id, u) ∷ users) rt = add_users users (add_user id u rt)

unfoldable pub add_devices : Dict Device → Runtime → Runtime
unfolding add_device
add_devices [] rt = rt
add_devices ((id, d) ∷ devices) rt = add_devices devices (add_device id d rt)

unfoldable pub add_rules : List DomainRule → Runtime → Runtime
unfolding add_rule
add_rules [] rt = rt
add_rules (r ∷ rules) rt = add_rules rules (add_rule r rt)

-- The time zone of the budget: time.Local (`local`) where none is set or it does not load.
abbrev loaded_or : Location → Option Location → Location
loaded_or local none = local
loaded_or local (some loc) = loc

unfoldable pub compile : (Text → Option Location) → Location → PolicyData → Runtime
unfolding add_users add_devices add_rules
compile load_location local d =
    let start : Runtime = record {
      users_by_id = [];
      devices_by_id = [];
      devices_by_ip = [];
      devices_by_mac = [];
      rules_by_user = [];
      settings = d.settings;
      budget_tz =
          if is_empty d.settings.budget_reset_tz
          then local
          else loaded_or local (load_location d.settings.budget_reset_tz);
      allow_windows = [];
      audit = d.audit;
    } in
    add_rules d.domain_rules (add_devices d.devices (add_users d.users start))
