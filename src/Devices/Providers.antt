-- ===== src/Devices/Providers.antt =====
-- internal/device/discovery/providers.go: the records that each source gives.
use citadel_dnxproxy.Prelude.{
  ℕ, List, [], ◌∷◌, ◌++◌, Option, none, some, if◌then◌else◌, str_eq, map,
}
use citadel_dnxproxy.Prelude.Result.{Result, ok, err}
use citadel_dnxproxy.Clock.{Time}
use citadel_dnxproxy.Text.{Text, codes, to_lower, trim_space, is_empty, cut, split, replace_byte}
use citadel_dnxproxy.Config.{StaticDevice}
use citadel_dnxproxy.Devices.{DeviceRecord, RouterDevice, source_arp, source_static}
use citadel_dnxproxy.Devices.Cache.{RouterClient, router_record}

-- `routerProvider.Discover`
abbrev router_records : Time → Result Text (List RouterDevice) → Result Text (List DeviceRecord)
router_records now (err e) = err e
router_records now (ok devices) = ok (map (router_record now) devices)

unfoldable pub discover_router : Option RouterClient → Time → Result Text (List DeviceRecord)
unfolding router_record
discover_router none now = ok []
discover_router (some client) now = router_records now client.listed

-- strings.Fields, on texts whose blanks are spaces and tabs.
abbrev non_empty : List Text → List Text
non_empty [] = []
non_empty (w ∷ ws) = if is_empty w then non_empty ws else w ∷ non_empty ws

unfoldable pub fields : Text → List Text
fields s = non_empty (split b' ' (replace_byte 9 b' ' s))

module _ (parse_ip : Text → Option Text) (parse_mac : Text → Option (List ℕ)) (now : Time) where
  abbrev arp_record : Text → Text → List ℕ → DeviceRecord
  arp_record ip hostname mac = record {
    mac = mac;
    ip = some ip;
    name = [];
    hostname = to_lower hostname;
    vendor = [];
    source = source_arp;
    last_seen = now;
  }

  abbrev arp_of : Text → Option Text → Option (List ℕ) → List DeviceRecord
  arp_of address (some ip) (some mac) = arp_record ip address mac ∷ []
  arp_of address _ _ = []

  -- One line of /proc/net/arp: the address is the first field, the MAC the fourth.
  abbrev arp_fields : List Text → List DeviceRecord
  arp_fields (address ∷ kind ∷ flags ∷ mac ∷ rest) =
      arp_of address (parse_ip address) (parse_mac mac)
  arp_fields _ = []

  unfoldable pub arp_records : List Text → List DeviceRecord
  unfolding fields
  arp_records [] = []
  arp_records (line ∷ lines) = arp_fields (fields line) ++ arp_records lines

  -- The file's lines, the first of which is the header.
  unfoldable pub discover_arp : List Text → List DeviceRecord
  unfolding arp_records
  discover_arp [] = []
  discover_arp (header ∷ lines) = arp_records lines

  -- The loop of `parseDarwinARPLine` to the first field "at" before the last field.
  unfoldable pub mac_after_at : List Text → Option (List ℕ)
  mac_after_at [] = none
  mac_after_at (w ∷ []) = none
  mac_after_at (w ∷ v ∷ ws) =
      let rest = mac_after_at (v ∷ ws) in
      if str_eq w (codes "at")
      then if str_eq v (codes "<incomplete>") then none else parse_mac v
      else rest

  abbrev inside_parentheses : Text → Option (Text × Text) → Option Text
  inside_parentheses line none = none
  inside_parentheses line (some (before, behind)) = elim (cut b')' behind) [
    | none ↦ none
    | some (inside, after) ↦ if is_empty inside then none else parse_ip (trim_space inside)
  ]

  abbrev with_mac : Text → Option (List ℕ) → Option (Text × List ℕ)
  with_mac ip none = none
  with_mac ip (some mac) = some (ip, mac)

  -- `parseDarwinARPLine`
  unfoldable pub parse_darwin_arp_line : Text → Option (Text × List ℕ)
  unfolding mac_after_at fields
  parse_darwin_arp_line line = elim (inside_parentheses line (cut b'(' line)) [
    | none ↦ none
    | some ip ↦ with_mac ip (mac_after_at (fields line))
  ]

  -- `discoverFromARPCommand`, with the lines of the command's output.
  unfoldable pub discover_from_arp_command : List Text → List DeviceRecord
  unfolding parse_darwin_arp_line
  discover_from_arp_command [] = []
  discover_from_arp_command (line ∷ lines) = elim (parse_darwin_arp_line line) [
    | none ↦ discover_from_arp_command lines
    | some (ip, mac) ↦ arp_record ip ip mac ∷ discover_from_arp_command lines
  ]

  abbrev or_no_bytes : Option (List ℕ) → List ℕ
  or_no_bytes none = []
  or_no_bytes (some mac) = mac

  -- `staticProvider.Discover`
  unfoldable pub discover_static : List StaticDevice → List DeviceRecord
  discover_static = map (λ d. record {
    mac = or_no_bytes (parse_mac d.mac);
    ip = parse_ip d.ip;
    name = to_lower d.name;
    hostname = to_lower d.name;
    vendor = [];
    source = source_static;
    last_seen = now;
  })
