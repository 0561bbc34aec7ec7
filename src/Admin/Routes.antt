-- ===== src/Admin/Routes.antt =====
-- `StartHandlers` of internal/adminserver/adminserver.go: the routes, and the first secret.
pub mod Effects
use citadel_dnxproxy.Prelude.{
  ℕ, Bool, true, false, ◌&&◌, not, ◌||◌, List, [], ◌∷◌, Option, none, some, if◌then◌else◌, str_eq,
}
use citadel_dnxproxy.Text.{Text, codes, strip_prefix, is_empty}
use citadel_dnxproxy.Policy.Types.{AdminState, PolicyData}
use citadel_dnxproxy.Policy.Store.{StoreError, JsonStore, update_mutate}
use citadel_dnxproxy.Policy.Snapshot.{populate_user_device_refs, data_snapshot}
use citadel_dnxproxy.Admin.{
  Server, Method, get, Request, Draws, Body, policy_data, Reply, write_json, write_error, Env,
}
use citadel_dnxproxy.Admin.Sessions.{not_allowed, health, login, logout, set_password, auth}
use citadel_dnxproxy.Admin.Users.{users_handler, user_handler}
use citadel_dnxproxy.Admin.Devices.{devices_handler, device_handler}
use citadel_dnxproxy.Admin.DomainRules.{domain_rules_handler, domain_rule_handler}

-- The handlers that are registered; those with a text have the path behind the pattern. `assets` is
-- the static UI, and a path without a pattern has no route.
pub data Route : Type 0 where
  health_route login_route logout_route password_route policy_route : Route
  users_route devices_route rules_route : Route
  user_route device_route rule_route : Text → Route
  assets : Route

-- The patterns of `StartHandlers` that name one path.
abbrev exact_routes : List (Text × Route)
exact_routes =
    (codes "/health", health_route)
    ∷ (codes "/login", login_route)
    ∷ (codes "/logout", logout_route)
    ∷ (codes "/admin/password", password_route)
    ∷ (codes "/policy", policy_route)
    ∷ (codes "/users", users_route)
    ∷ (codes "/devices", devices_route)
    ∷ (codes "/domainrules", rules_route)
    ∷ (codes "/admin", assets)
    ∷ []

-- The patterns that end in a slash.
abbrev prefix_routes : List (Text × (Text → Route))
prefix_routes =
    (codes "/users/", user_route)
    ∷ (codes "/devices/", device_route)
    ∷ (codes "/domainrules/", rule_route)
    ∷ (codes "/admin/", λ rest. assets)
    ∷ []

by_pattern : List (Text × (Text → Route)) → Text → Option Route
by_pattern [] path = none
by_pattern ((pattern, r) ∷ rest) path = elim (strip_prefix pattern path) [
  | some behind ↦ some (r behind)
  | none ↦ by_pattern rest path
]

by_path : List (Text × Route) → Text → Option Route
unfolding by_pattern
by_path [] path = by_pattern prefix_routes path
by_path ((pattern, r) ∷ rest) path = if str_eq pattern path then some r else by_path rest path

-- http.ServeMux on these patterns: the exact path first. Paths are clean.
unfoldable pub route : Text → Option Route
unfolding by_path
route path = by_path exact_routes path

-- `getPolicy`
unfoldable pub get_policy : Request → Server → Server × Reply
get_policy r s = elim r.method [
  | get ↦ (s, write_json 200 (policy_data (populate_user_device_refs (data_snapshot s.store))))
  | _ ↦ (s, not_allowed)
]

module _ (env : Env) (draws : Draws) (r : Request) where
  -- What `auth` guards.
  unfoldable pub guarded : Route → Option (Server → Server × Reply)
  guarded password_route = some (set_password env draws r)
  guarded policy_route = some (get_policy r)
  guarded users_route = some (users_handler env draws r)
  guarded (user_route id) = some (user_handler env draws id r)
  guarded devices_route = some (devices_handler env draws r)
  guarded (device_route id) = some (device_handler env draws id r)
  guarded rules_route = some (domain_rules_handler env draws r)
  guarded (rule_route id) = some (domain_rule_handler env draws id r)
  guarded _ = none

  abbrev pub unguarded : Route → Server → Option (Server × Reply)
  unguarded health_route s = some (health s)
  unguarded login_route s = some (login env draws r s)
  unguarded logout_route s = some (logout r s)
  unguarded _ s = none

  abbrev pub guarded_or :
      Option (Server → Server × Reply) → Route → Server → Option (Server × Reply)
  guarded_or (some next) rt s = some (auth next draws.now r s)
  guarded_or none rt s = unguarded rt s

  abbrev pub by_route : Option Route → Server → Option (Server × Reply)
  by_route none s = none
  by_route (some rt) s = guarded_or (guarded rt) rt s

  -- One request; `none` is the static UI's or the mux's own reply, which change nothing.
  unfoldable pub handle : Server → Option (Server × Reply)
  unfolding guarded
  handle s = by_route (route r.path) s

  abbrev pub state_after : Server → Option (Server × Reply) → Server
  state_after s none = s
  state_after s (some (s', reply)) = s'

  unfoldable pub handled : Server → Server
  unfolding handle
  handled s = state_after s (handle s)

-- The mutation of `maybeLogInitialSecret`.
abbrev with_secret : Text → PolicyData → PolicyData × Option StoreError
with_secret secret d =
    if is_empty d.admin.initial_secret
    then (record d { admin = record d.admin { initial_secret = secret } }, none)
    else (d, none)

abbrev seeded : (PolicyData → Option StoreError) → Text → JsonStore → JsonStore
seeded write secret store =
    if (data_snapshot store).admin.first_boot && is_empty (data_snapshot store).admin.initial_secret
    then (update_mutate write (with_secret secret) store).0
    else store

abbrev logged : Server → Server
logged s =
    if (data_snapshot s.store).admin.first_boot
      && not (is_empty (data_snapshot s.store).admin.initial_secret)
    then record s { logged_seed = true }
    else s

-- `maybeLogInitialSecret`, with what randomToken draws. The server has a store.
unfoldable pub maybe_log_initial_secret : (PolicyData → Option StoreError) → Text → Server → Server
maybe_log_initial_secret write secret s =
    if s.logged_seed then s else logged (record s { store = seeded write secret s.store })
