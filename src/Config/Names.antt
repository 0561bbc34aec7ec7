-- ===== src/Config/Names.antt =====
-- The names of the actions and router types in the configuration file: `String`, `MarshalJSON` and
-- `UnmarshalJSON` of internal/config/config.go.
use citadel_dnxproxy.Prelude.{
  ◌≡◌, refl, List, [], ◌∷◌, Option, none, some, get_elem?, if◌then◌else◌, str_eq,
}
use citadel_dnxproxy.Prelude.Int.{ℤ, pos, negsuc}
use citadel_dnxproxy.Prelude.Result.{Result, ok, err, or_err}
use citadel_dnxproxy.Text.{Text, codes}
use citadel_dnxproxy.Config.{
  ActionType, RouterType, pass, blocked_device, blocked_site_ban, blocked_time_span, net_gear,
  unifi,
}

-- A JSON value as `UnmarshalJSON` tells them apart: a string, null, a number that strconv.Atoi
-- reads, and anything else.
pub data JsonValue : Type 0 where
  text : Text → JsonValue
  null unreadable : JsonValue
  integer : ℤ → JsonValue

pub data NameError : Type 0 where
  should_be_string invalid : NameError

-- `mapActionTypeToName`, with the empty text for a missing key, in `String`.
unfoldable pub action_name : ActionType → Text
action_name ActionType.none = codes "ActionTypeNone"
action_name pass = codes "ActionTypePass"
action_name blocked_device = codes "ActionTypeBlockedDevice"
action_name blocked_site_ban = codes "ActionTypeBlockedSiteBan"
action_name blocked_time_span = codes "ActionTypeBlockedTimeSpan"
action_name (ActionType.unknown n) = []

-- The loop up of a name, as a Go map has it.
look_up {ℓ} : {A : Type ℓ} → List (Text × A) → Text → Option A
look_up [] s = none
look_up ((name, a) ∷ names) s = if str_eq name s then some a else look_up names s

-- `mapActionTypeToValue`
unfoldable pub action_value : Text → Option ActionType
unfolding look_up
action_value = look_up (
    (codes "ActionTypeNone", ActionType.none)
    ∷ (codes "ActionTypePass", pass)
    ∷ (codes "ActionTypeBlockedDevice", blocked_device)
    ∷ (codes "ActionTypeBlockedSiteBan", blocked_site_ban)
    ∷ (codes "ActionTypeBlockedTimeSpan", blocked_time_span)
    ∷ [])

-- The numbers that have a name.
unfoldable pub action_of_number : ℤ → Option ActionType
action_of_number (negsuc n) = none
action_of_number (pos n) =
    get_elem? (ActionType.none ∷ pass ∷ blocked_device ∷ blocked_site_ban ∷ blocked_time_span ∷ [])
      n

-- `MarshalJSON`
unfoldable pub marshal_action : ActionType → JsonValue
unfolding action_name
marshal_action a = text (action_name a)

-- `UnmarshalJSON`; null leaves the string empty.
unfoldable pub unmarshal_action : JsonValue → Result NameError ActionType
unfolding action_value action_of_number
unmarshal_action (text s) = or_err (action_value s) invalid
unmarshal_action null = or_err (action_value []) invalid
unmarshal_action (integer n) = or_err (action_of_number n) invalid
unmarshal_action unreadable = err should_be_string

unfoldable pub router_name : RouterType → Text
router_name RouterType.none = codes "RouterTypeNone"
router_name net_gear = codes "RouterTypeNetGear"
router_name unifi = codes "RouterTypeUnifi"
router_name (RouterType.unknown n) = []

-- `mapRouterTypeToValue`
unfoldable pub router_value : Text → Option RouterType
unfolding look_up
router_value = look_up (
    (codes "RouterTypeNone", RouterType.none)
    ∷ (codes "RouterTypeNetGear", net_gear)
    ∷ (codes "RouterTypeUnifi", unifi)
    ∷ [])

unfoldable pub router_of_number : ℤ → Option RouterType
router_of_number (negsuc n) = none
router_of_number (pos n) = get_elem? (RouterType.none ∷ net_gear ∷ unifi ∷ []) n

unfoldable pub marshal_router : RouterType → JsonValue
unfolding router_name
marshal_router r = text (router_name r)

unfoldable pub unmarshal_router : JsonValue → Result NameError RouterType
unfolding router_value router_of_number
unmarshal_router (text s) = or_err (router_value s) invalid
unmarshal_router null = or_err (router_value []) invalid
unmarshal_router (integer n) = or_err (router_of_number n) invalid
unmarshal_router unreadable = err should_be_string

-- What is read back of an action or a router type: itself, and an error for one without a name.
abbrev read_action : ActionType → Result NameError ActionType
read_action (ActionType.unknown n) = err invalid
read_action a = ok a

abbrev read_router : RouterType → Result NameError RouterType
read_router (RouterType.unknown n) = err invalid
read_router r = ok r

-- Every action and every router type that has a name is read back from JSON as it was written; one
-- without a name is written as the empty string, which is refused.
pub unmarshal-marshal :
    ((a : ActionType) → unmarshal_action (marshal_action a) ≡ read_action a)
    × ((r : RouterType) → unmarshal_router (marshal_router r) ≡ read_router r)
unfolding marshal_action unmarshal_action marshal_router unmarshal_router
unmarshal-marshal = (action, router)
  where
    action : (a : ActionType) → unmarshal_action (marshal_action a) ≡ read_action a
    action ActionType.none = refl
    action pass = refl
    action blocked_device = refl
    action blocked_site_ban = refl
    action blocked_time_span = refl
    action (ActionType.unknown n) = refl

    router : (r : RouterType) → unmarshal_router (marshal_router r) ≡ read_router r
    router RouterType.none = refl
    router net_gear = refl
    router unifi = refl
    router (RouterType.unknown n) = refl
