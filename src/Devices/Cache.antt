-- ===== src/Devices/Cache.antt =====
-- internal/device/devicecache.go: the names and addresses of the devices that are known.
use citadel_dnxproxy.Prelude.{ℕ, ◌||◌, List, [], ◌∷◌, Option, none, some, if◌then◌else◌, str_eq}
use citadel_dnxproxy.Prelude.Dict
use citadel_dnxproxy.Prelude.Dict.{Dict}
use citadel_dnxproxy.Prelude.Result.{Result, ok, err}
use citadel_dnxproxy.Clock.{Time}
use citadel_dnxproxy.Text.{Text, to_lower, is_empty}
use citadel_dnxproxy.Config.{StaticDevice}
use citadel_dnxproxy.Devices.{
  DeviceRecord, RouterDevice, source_router, source_static, normalize_mac, normalize_ip,
}

pub record DeviceCache : Type 0 where
  pub dev_from_mac : Dict DeviceRecord
  pub dev_from_ip : Dict DeviceRecord

-- `NewDeviceCache`
abbrev pub new_device_cache : DeviceCache
new_device_cache = record { dev_from_mac = []; dev_from_ip = [] }

-- The key in `devFromMAC`.
unfoldable pub mac_key : DeviceRecord → Text
mac_key r = let mac = normalize_mac r.mac in if is_empty mac then normalize_ip r.ip else mac

abbrev known_name : Option DeviceRecord → Text
known_name none = []
known_name (some existing) = existing.name

abbrev pub or_else : Text → Text → Text
or_else [] other = other
or_else (c ∷ s) other = c ∷ s

-- The name that the record is stored with: its own, the one known so far, its hostname or the key.
unfoldable pub name_for : Text → Option DeviceRecord → DeviceRecord → Text
name_for key existing r = or_else (or_else (or_else r.name (known_name existing)) r.hostname) key

abbrev put_ip : Dict DeviceRecord → Option Text → DeviceRecord → Dict DeviceRecord
put_ip m none r = m
put_ip m (some ip) r = Dict.put m ip r

abbrev stored : Text → DeviceRecord → DeviceCache → DeviceCache
stored key r dc = record {
  dev_from_mac = Dict.put dc.dev_from_mac key r;
  dev_from_ip = put_ip dc.dev_from_ip r.ip r;
}

-- `upsertLocked`
unfoldable pub upsert : DeviceRecord → DeviceCache → DeviceCache
unfolding name_for mac_key
upsert r dc =
    let key = mac_key r in
    stored key (record r { name = name_for key (Dict.get dc.dev_from_mac key) r }) dc

-- The loop of `NameToIP` over `devFromMAC`.
unfoldable pub find_name : Text → Dict DeviceRecord → Option DeviceRecord
find_name name [] = none
find_name name ((key, d) ∷ m) =
    if str_eq d.name name || str_eq d.hostname name then some d else find_name name m

abbrev ip_of : Option DeviceRecord → Option (Option Text)
ip_of none = none
ip_of (some d) = some d.ip

-- `NameToIP`: none is ErrDeviceNameNotFound, and a known device may have no address.
unfoldable pub name_to_ip : DeviceCache → Text → Option (Option Text)
unfolding find_name
name_to_ip dc name = elim (find_name (to_lower name) dc.dev_from_mac) [
  | some d ↦ some d.ip
  | none ↦ ip_of (Dict.get dc.dev_from_ip (to_lower name))
]

-- `IPToName`, with none for ErrDeviceIPNotFound.
abbrev shown_name : Option DeviceRecord → Option Text
shown_name none = none
shown_name (some d) = some (or_else (or_else d.name d.hostname) (normalize_mac d.mac))

unfoldable pub ip_to_name : DeviceCache → Text → Option Text
ip_to_name dc ipaddr = shown_name (Dict.get dc.dev_from_ip (to_lower ipaddr))

-- The record of a device that the router lists.
unfoldable pub router_record : Time → RouterDevice → DeviceRecord
router_record now d = record {
  mac = d.mac;
  ip = d.ip;
  name = to_lower d.name;
  hostname = to_lower d.name;
  vendor = [];
  source = source_router;
  last_seen = now;
}

unfoldable pub upsert_router_devices : Time → List RouterDevice → DeviceCache → DeviceCache
unfolding upsert router_record
upsert_router_devices now [] dc = dc
upsert_router_devices now (d ∷ ds) dc =
    upsert_router_devices now ds (upsert (router_record now d) dc)

-- What the router's client returns: `listed` of GetAttachedDeviceList, and `logged_in` of Login, the
-- error of which is a text.
pub record RouterClient : Type 0 where
  pub listed : Result Text (List RouterDevice)
  pub logged_in : Option Text

-- `doRefresh`
unfoldable pub do_refresh : Option RouterClient → Time → DeviceCache → DeviceCache × Option Text
do_refresh none now dc = (dc, none)
do_refresh (some client) now dc = elim client.listed [
  | err e ↦ (dc, some e)
  | ok devices ↦ (upsert_router_devices now devices dc, none)
]

-- The error of `reInitialize`. A refresh fails only with a client.
abbrev re_initialize : Option RouterClient → Option Text
re_initialize none = none
re_initialize (some client) = client.logged_in

abbrev refreshed : Option RouterClient → DeviceCache × Option Text → DeviceCache × Option Text
refreshed client (dc, none) = (dc, none)
refreshed client (dc, some e) = (dc, re_initialize client)

-- `Refresh` and `Initialize`
unfoldable pub refresh : Option RouterClient → Time → DeviceCache → DeviceCache × Option Text
unfolding do_refresh
refresh client now dc = refreshed client (do_refresh client now dc)

-- net.ParseIP and net.ParseMAC are arguments.
module _ (parse_ip : Text → Option Text) (parse_mac : Text → Option (List ℕ)) where
  -- A MAC that does not parse is the null address, an empty one none.
  abbrev mac_or_default : Text → Option (List ℕ) → List ℕ
  mac_or_default text (some mac) = mac
  mac_or_default text none = if is_empty text then [] else 0 ∷ 0 ∷ 0 ∷ 0 ∷ 0 ∷ 0 ∷ []

  unfoldable pub static_record : Time → StaticDevice → Text → DeviceRecord
  static_record now sd ip = record {
    mac = mac_or_default sd.mac (parse_mac sd.mac);
    ip = some ip;
    name = to_lower sd.name;
    hostname = to_lower sd.name;
    vendor = [];
    source = source_static;
    last_seen = now;
  }

  -- `LoadStaticDevices`
  unfoldable pub load_static_devices : Time → List StaticDevice → DeviceCache → DeviceCache
  unfolding upsert static_record
  load_static_devices now [] dc = dc
  load_static_devices now (sd ∷ sds) dc = elim (parse_ip sd.ip) [
    | none ↦ load_static_devices now sds dc
    | some ip ↦ load_static_devices now sds (upsert (static_record now sd ip) dc)
  ]
