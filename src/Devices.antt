-- ===== src/Devices.antt =====
-- internal/device/types.go: what the discovery of devices and its cache keep of a device.
pub mod Cache
pub mod Discovery
pub mod Providers
use citadel_dnxproxy.Prelude.{ℕ, ◌+◌, ◌/◌, ◌%◌, Bool, List, [], ◌∷◌, ◌++◌, Option, none, some}
use citadel_dnxproxy.Clock.{Time}
use citadel_dnxproxy.Text.{Text, codes, to_lower, replace_byte}
use citadel_dnxproxy.Policy.Password.{encode_to_string}

-- `DeviceRecord`. A MAC address is its bytes, none of them where it is nil; an address is the text of
-- `IP.String()`.
pub record DeviceRecord : Type 0 where
  pub mac : List ℕ
  pub ip : Option Text
  pub name : Text
  pub hostname : Text
  pub vendor : Text
  pub source : Text
  pub last_seen : Time

-- `RouterDevice` of routerclient.go, the fields that are read.
pub record RouterDevice : Type 0 where
  pub ip : Option Text
  pub name : Text
  pub mac : List ℕ

abbrev pub source_router : Text
source_router = codes "router"

abbrev pub source_arp : Text
source_arp = codes "arp"

abbrev pub source_static : Text
source_static = codes "static"

-- net.HardwareAddr.String
unfoldable pub mac_string : List ℕ → Text
unfolding encode_to_string
mac_string [] = []
mac_string (b ∷ []) = encode_to_string (b ∷ [])
mac_string (b ∷ c ∷ mac) = encode_to_string (b ∷ []) ++ b':' ∷ mac_string (c ∷ mac)

-- `normalizeMAC`
unfoldable pub normalize_mac : List ℕ → Text
unfolding mac_string
normalize_mac mac = replace_byte b'-' b':' (to_lower (mac_string mac))

-- `normalizeIP`
unfoldable pub normalize_ip : Option Text → Text
normalize_ip none = []
normalize_ip (some ip) = to_lower ip
