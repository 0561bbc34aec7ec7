-- ===== src/Devices/Discovery.antt =====
-- internal/device/discovery/manager.go: the records of all sources become the policy's devices.
pub mod Assignments
pub mod Priorities
use citadel_dnxproxy.Prelude.{
  ℕ, zero, suc, Bool, true, false, ◌||◌, ◌&&◌, not, List, [], ◌∷◌, ◌++◌, Option, none, some,
  if◌then◌else◌, str_eq, ltb,
}
use citadel_dnxproxy.Prelude.Dict
use citadel_dnxproxy.Prelude.Dict.{Dict}
use citadel_dnxproxy.Prelude.Result.{Result, ok, err}
use citadel_dnxproxy.Clock.{Time}
use citadel_dnxproxy.Text.{Text, codes, to_lower, is_empty, replace_byte}
use citadel_dnxproxy.Policy.Types.{Device, PolicyData}
use citadel_dnxproxy.Policy.Store.{StoreError, JsonStore, update_mutate}
use citadel_dnxproxy.Devices.{DeviceRecord, source_router, source_arp, source_static, mac_string}
use citadel_dnxproxy.Devices.Cache.{DeviceCache, upsert, or_else}

-- `normalizeMAC` of this package, on texts.
unfoldable pub normalize_mac_text : Text → Text
normalize_mac_text mac = to_lower (replace_byte b'-' b':' mac)

-- `sourcePriority`
unfoldable pub source_priority : Text → ℕ
source_priority s =
    if str_eq s source_router
    then 3
    else if str_eq s source_static
    then 2
    else if str_eq s source_arp
    then 1
    else 0

abbrev ip_key : Option Text → Text
ip_key none = []
ip_key (some ip) = codes "ip:" ++ ip

abbrev mac_or : List ℕ → Text → Text
mac_or [] other = other
mac_or (b ∷ mac) other = normalize_mac_text (mac_string (b ∷ mac))

-- `recordKey`
unfoldable pub record_key : DeviceRecord → Text
unfolding normalize_mac_text
record_key r = mac_or r.mac (ip_key r.ip)

abbrev ip_or_empty : Option Text → Text
ip_or_empty none = []
ip_or_empty (some ip) = ip

-- `bestName`
unfoldable pub best_name : DeviceRecord → Text
unfolding normalize_mac_text
best_name r = or_else r.name (or_else r.hostname (mac_or r.mac (ip_or_empty r.ip)))

-- A record that its key has not got yet, or of a better source.
unfoldable pub named : DeviceRecord → DeviceRecord
unfolding best_name
named r = let name = best_name r in record r { name = name; hostname = or_else r.hostname name }

abbrev first_ip : Option Text → Option Text → Option Text
first_ip none ip = ip
first_ip (some ip) _ = some ip

abbrev later : Time → Time → Time
later t u = if ltb t u then u else t

-- What another source adds to the record.
unfoldable pub merged_with : DeviceRecord → DeviceRecord → DeviceRecord
merged_with curr r = record curr {
  ip = first_ip curr.ip r.ip;
  hostname = or_else curr.hostname r.hostname;
  name = or_else curr.name r.name;
  last_seen = later curr.last_seen r.last_seen;
}

abbrev pub chosen : Option DeviceRecord → DeviceRecord → DeviceRecord
chosen none r = named r
chosen (some curr) r =
    if ltb (source_priority curr.source) (source_priority r.source)
    then named r
    else merged_with curr r

abbrev pub seen_at : Time → Time → Time
seen_at now zero = now
seen_at now (suc t) = suc t

-- One record of `collapse`. An empty key is that of a record with neither MAC nor address.
unfoldable pub collapse_one : Time → DeviceRecord → Dict DeviceRecord → Dict DeviceRecord
unfolding record_key named merged_with source_priority
collapse_one now r result =
    let key = record_key r in
    if is_empty key
    then result
    else Dict.put result key
        (chosen (Dict.get result key) (record r { last_seen = seen_at now r.last_seen }))

unfoldable pub collapse : Time → List DeviceRecord → Dict DeviceRecord → Dict DeviceRecord
collapse now [] result = result
collapse now (r ∷ rs) result = collapse now rs (collapse_one now r result)

-- The loop that fills `existingByMAC`.
unfoldable pub ids_by_mac : Dict Device → Dict Text → Dict Text
unfolding normalize_mac_text
ids_by_mac [] known = known
ids_by_mac ((id, d) ∷ devices) known =
    let mac = normalize_mac_text d.mac in
    ids_by_mac devices (if is_empty mac then known else Dict.put known mac id)

-- `Device{}`
abbrev pub no_device : Device
no_device = record {
  id = [];
  name = [];
  ip = [];
  mac = [];
  hostname = [];
  vendor = [];
  source = [];
  last_seen = 0;
  user_id = [];
  created_at = 0;
  updated_at = 0;
}

-- A device whose source is manual or static keeps it.
abbrev pub keeps_source : Text → Bool
keeps_source s = str_eq s (codes "manual") || str_eq s (codes "static")

abbrev merged_source : Text → Text → Text
merged_source old new = if is_empty new || keeps_source old then old else new

abbrev merged_ip : Text → Option Text → Text
merged_ip old none = old
merged_ip old (some ip) = ip

abbrev merged_seen : Time → Time → Time
merged_seen zero seen = seen
merged_seen (suc t) seen = later (suc t) seen

abbrev pub created : Text → Time → Device → Device
created id now dev = if is_empty dev.id then record dev { id = id; created_at = now } else dev

-- The device that one record makes of the one that is stored.
unfoldable pub merged_device : Text → Time → DeviceRecord → Device → Device
unfolding normalize_mac_text
merged_device id now rec old =
    let dev = created id now old in
    record dev {
      name = or_else dev.name rec.name;
      hostname = or_else rec.hostname dev.hostname;
      vendor = or_else rec.vendor dev.vendor;
      source = merged_source dev.source rec.source;
      ip = merged_ip dev.ip rec.ip;
      mac = mac_or rec.mac dev.mac;
      last_seen = merged_seen dev.last_seen rec.last_seen;
      updated_at = now;
    }

-- The second loop of the mutation, on the devices.
unfoldable pub merge_devices : Dict Text → Time → Dict DeviceRecord → Dict Device → Dict Device
unfolding merged_device
merge_devices known now [] devices = devices
merge_devices known now ((key, rec) ∷ records) devices =
    let id = Dict.get_or known key key in
    merge_devices known now records
      (Dict.put devices id (merged_device id now rec (Dict.get_or devices id no_device)))

-- The same loop, on the cache, which is there or nil.
unfoldable pub upsert_all : Dict DeviceRecord → Option DeviceCache → Option DeviceCache
upsert_all records none = none
upsert_all [] (some dc) = some dc
upsert_all ((key, rec) ∷ records) (some dc) = upsert_all records (some (upsert rec dc))

-- The mutation of `merge`.
unfoldable pub merge_data : Time → Dict DeviceRecord → PolicyData → PolicyData
unfolding merge_devices ids_by_mac
merge_data now records d = record d {
  devices = merge_devices (ids_by_mac d.devices []) now records d.devices;
}

-- A manager with a store; `updates` counts the runs of `onUpdate`.
pub record Manager : Type 0 where
  pub store : JsonStore
  pub cache : Option DeviceCache
  pub updates : ℕ

module _ (write : PolicyData → Option StoreError) where
  -- `merge`
  unfoldable pub merge : Time → List DeviceRecord → Manager → Manager × Option StoreError
  unfolding merge_data collapse upsert_all
  merge now records m =
      let by_key = collapse now records [] in
      let (store, e) = update_mutate write (λ d. (merge_data now by_key d, none)) m.store in
      (record m { store = store; cache = upsert_all by_key m.cache }, e)

  abbrev pub updated : Manager × Option StoreError → Manager × Option StoreError
  updated (m, none) = (record m { updates = suc m.updates }, none)
  updated (m, some e) = (m, some e)

  -- The records of the providers that do not fail.
  unfoldable pub gathered : List (Result Text (List DeviceRecord)) → List DeviceRecord
  gathered [] = []
  gathered (err e ∷ results) = gathered results
  gathered (ok records ∷ results) = records ++ gathered results

  abbrev pub merge_if_any : Time → List DeviceRecord → Manager → Manager × Option StoreError
  merge_if_any now [] m = (m, none)
  merge_if_any now (r ∷ rs) m = updated (merge now (r ∷ rs) m)

  -- `Refresh`, with what each provider discovers.
  unfoldable pub refresh :
      Time → List (Result Text (List DeviceRecord)) → Manager → Manager × Option StoreError
  unfolding merge gathered
  refresh now results m = merge_if_any now (gathered results) m
