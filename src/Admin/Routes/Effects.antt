-- ===== src/Admin/Routes/Effects.antt =====
-- All that the handlers behind `auth` can do: reply, set the password, or change the policy's data.
use citadel_dnxproxy.Prelude.{
  ℕ, ◌≡◌, refl, ◌||◌, if◌then◌else◌, [], ◌∷◌, Option, none, some, Bool-cases, inl, inr, subst,
}
use citadel_dnxproxy.Clock.{Time}
use citadel_dnxproxy.Text.{Text, is_empty}
use citadel_dnxproxy.Policy.Types.{PolicyData, User, Device, DomainRule}
use citadel_dnxproxy.Policy.Store.{StoreError}
use citadel_dnxproxy.Policy.Storage.{set_admin_password}
use citadel_dnxproxy.Admin.{
  Server, Method, get, head, post, put, delete, other, Request, Draws, Reply, concluded, update,
  Env, UserBody,
}
use citadel_dnxproxy.Admin.Sessions.{post_only, set_to, set_password}
use citadel_dnxproxy.Admin.Users.{
  create_user, update_user, delete_user, post_user, put_user, user_by_method, users_handler,
  user_handler,
}
use citadel_dnxproxy.Admin.Devices.{
  create_device, update_device, delete_device, post_device, put_device, device_by_method,
  devices_handler, device_handler,
}
use citadel_dnxproxy.Admin.DomainRules.{
  create_rule, update_rule, delete_rule, new_rule, no_action, post_rule, put_rule, rule_by_method,
  domain_rules_handler, domain_rule_handler,
}
use citadel_dnxproxy.Admin.Routes.{
  Route, health_route, login_route, logout_route, password_route, policy_route, users_route,
  devices_route, rules_route, user_route, device_route, rule_route, assets, get_policy, guarded,
}

-- The mutations, with what the request gives them.
pub data Change : Type 0 where
  creates_user : User → Change
  updates_user : Text → UserBody → Change
  deletes_user : Text → Change
  creates_device : Device → Change
  updates_device : Text → Device → Change
  deletes_device : Text → Change
  creates_rule : DomainRule → Change
  updates_rule : Text → DomainRule → Change
  deletes_rule : Text → Change

abbrev pub change : Time → Change → PolicyData → PolicyData × Option StoreError
change now (creates_user u) = create_user u now
change now (updates_user id req) = update_user id req now
change now (deletes_user id) = delete_user id now
change now (creates_device dev) = create_device dev
change now (updates_device id req) = update_device id req now
change now (deletes_device id) = delete_device id
change now (creates_rule rule) = create_rule rule
change now (updates_rule id req) = update_rule id req
change now (deletes_rule id) = delete_rule id

module _ (env : Env) (draws : Draws) (r : Request) (s : Server) (P : Server × Reply → Type 0)
    (replies : (reply : Reply) → P (s, reply))
    (sets_password : (password : Text) (failed : ℕ) (done : Reply)
      → P (
          concluded failed done s
            (set_admin_password env.write env.crypto password draws.now s.store)))
    (changes : (c : Change) (failed : ℕ) (done : Reply)
      → P (update env (change draws.now c) failed done s)) where
  post_cases : (m : Method) (out : Server × Reply) → P out → P (post_only m s out)
  post_cases post out h = h
  post_cases get out h = replies _
  post_cases head out h = replies _
  post_cases put out h = replies _
  post_cases delete out h = replies _
  post_cases other out h = replies _

  set_to_cases : (o : Option Text) → P (set_to env draws s o)
  set_to_cases none = replies _
  set_to_cases (some password) = elim (Bool-cases (is_empty password)) [
    | inl e ↦ rw e (replies _)
    | inr e ↦ rw e (sets_password password _ _)
  ]

  policy_cases : (m : Method) → r.method ≡ m → P (get_policy r s)
  unfolding get_policy
  policy_cases get e = rw e (replies _)
  policy_cases head e = rw e (replies _)
  policy_cases post e = rw e (replies _)
  policy_cases put e = rw e (replies _)
  policy_cases delete e = rw e (replies _)
  policy_cases other e = rw e (replies _)

  post_user_cases : (o : Option UserBody) → P (post_user env draws o s)
  post_user_cases none = replies _
  post_user_cases (some req) = changes (creates_user _) _ _

  put_user_cases : (id : Text) (o : Option UserBody) → P (put_user env draws id o s)
  put_user_cases id none = replies _
  put_user_cases id (some req) = changes (updates_user id req) _ _

  user_cases : (id : Text) (m : Method) → P (user_by_method env draws id r m s)
  user_cases id put = put_user_cases id _
  user_cases id delete = changes (deletes_user id) _ _
  user_cases id get = replies _
  user_cases id head = replies _
  user_cases id post = replies _
  user_cases id other = replies _

  post_device_cases : (o : Option Device) → P (post_device env draws o s)
  post_device_cases none = replies _
  post_device_cases (some req) = changes (creates_device _) _ _

  put_device_cases : (id : Text) (o : Option Device) → P (put_device env draws id o s)
  put_device_cases id none = replies _
  put_device_cases id (some req) = changes (updates_device id req) _ _

  device_cases : (id : Text) (m : Method) → P (device_by_method env draws id r m s)
  device_cases id put = put_device_cases id _
  device_cases id delete = changes (deletes_device id) _ _
  device_cases id get = replies _
  device_cases id head = replies _
  device_cases id post = replies _
  device_cases id other = replies _

  post_rule_cases : (o : Option DomainRule) → P (post_rule env draws o s)
  post_rule_cases none = replies _
  post_rule_cases (some req) =
      let rule = new_rule draws req in
      elim (Bool-cases (is_empty rule.user_id || is_empty rule.pattern || no_action rule.action)) [
        | inl e ↦ rw e (replies _)
        | inr e ↦ rw e (changes (creates_rule rule) _ _)
      ]

  put_rule_cases : (id : Text) (o : Option DomainRule) → P (put_rule env draws id o s)
  put_rule_cases id none = replies _
  put_rule_cases id (some req) = changes (updates_rule id req) _ _

  rule_cases : (id : Text) (m : Method) → P (rule_by_method env draws id r m s)
  rule_cases id put = put_rule_cases id _
  rule_cases id delete = changes (deletes_rule id) _ _
  rule_cases id get = replies _
  rule_cases id head = replies _
  rule_cases id post = replies _
  rule_cases id other = replies _

  unless_empty :
      (id : Text) (f : Server × Reply) (reply : Reply)
      → P f
      → P (if is_empty id then (s, reply) else f)
  unless_empty [] f reply h = replies reply
  unless_empty (c ∷ id) f reply h = h

  abbrev After : Option (Server → Server × Reply) → Type 0
  After none = Unit
  After (some next) = P (next s)

  route_cases : (rt : Route) → After (guarded env draws r rt)
  unfolding guarded users_handler user_handler devices_handler device_handler domain_rules_handler
      domain_rule_handler set_password
  route_cases health_route = tt
  route_cases login_route = tt
  route_cases logout_route = tt
  route_cases assets = tt
  route_cases password_route = post_cases r.method _ (set_to_cases _)
  route_cases policy_route = policy_cases r.method refl
  route_cases users_route = post_cases r.method _ (post_user_cases _)
  route_cases devices_route = post_cases r.method _ (post_device_cases _)
  route_cases rules_route = post_cases r.method _ (post_rule_cases _)
  route_cases (user_route id) = unless_empty id _ _ (user_cases id r.method)
  route_cases (device_route id) = unless_empty id _ _ (device_cases id r.method)
  route_cases (rule_route id) = unless_empty id _ _ (rule_cases id r.method)

  -- What holds of every reply on the state as it is, of every setting of the password and of every
  -- change, holds of what a guarded handler does.
  pub guarded-cases :
      (rt : Route) (next : Server → Server × Reply)
      → guarded env draws r rt ≡ some next
      → P (next s)
  guarded-cases rt next e = subst After e (route_cases rt)
