-- ===== src/Admin/FirstBoot.antt =====
-- The way out of the first boot: a new password, a login with it, and access to the policy.
use citadel_dnxproxy.Prelude.{
  true-ne-false, ◌≡◌, refl, sym, ◌∙◌, ap, subst, ◌+◌, ◌≤◌, ◌⊎◌, inl, inr, true, false, [], Option,
  none, some,
}
use mathlib.Core.Option.{none-ne-some}
use citadel_dnxproxy.Prelude.Dict
use citadel_dnxproxy.Text.{Text, codes, is_empty}
use citadel_dnxproxy.Policy.Store.{JsonStore, StoreError}
use citadel_dnxproxy.Policy.Snapshot.{populate_user_device_refs, data_snapshot}
use citadel_dnxproxy.Policy.Storage.{set_admin_password, validate_password}
use citadel_dnxproxy.Policy.Storage.Passwords.{set_admin_password-validate_password}
use citadel_dnxproxy.Admin.{
  Server, get, post, Request, Draws, Credentials, Reply, write_json, policy_data, concluded, Env,
}
use citadel_dnxproxy.Admin.Sessions.{bearer_token, accepts_login, granted, login, set_password}
use citadel_dnxproxy.Admin.Access.{IsAdmitted, with_token, auth-IsAdmitted}
use citadel_dnxproxy.Admin.Routes.{
  Route, login_route, password_route, policy_route, route, get_policy, guarded, handle, handled,
}
use citadel_dnxproxy.Admin.Runs.{guarded-Keeps}

-- A request with an empty user name or "admin", and the password.
pub record AsksLogin (env : Env) (password : Text) (r : Request) : Type 0 where
  pub path : route r.path ≡ some login_route
  pub method : r.method ≡ post
  pub credentials : Credentials
  pub body : env.json.credentials r.body ≡ some credentials
  pub username : (credentials.username ≡ []) ⊎ (credentials.username ≡ codes "admin")
  pub same_password : credentials.password ≡ password

pub record AsksPassword (env : Env) (password : Text) (r : Request) : Type 0 where
  pub path : route r.path ≡ some password_route
  pub method : r.method ≡ post
  pub body : env.json.password r.body ≡ some password
  pub nonempty : is_empty password ≡ false

module _ (env : Env) (draws : Draws) (r : Request) (s : Server) where
  -- An admitted request to a guarded route is what its handler does.
  handle-guarded :
      (rt : Route) (next : Server → Server × Reply)
      → route r.path ≡ some rt
      → guarded env draws r rt ≡ some next
      → IsAdmitted draws.now r s
      → handle env draws r s ≡ some (next s)
  unfolding handle
  handle-guarded rt next p g a = elim (auth-IsAdmitted next draws.now r s) [
    | inl (a', e) ↦ rw (p, g, e) refl
    | inr (n, refused) ↦ absurd (n a)
  ]

  handled-guarded :
      (rt : Route) (next : Server → Server × Reply)
      → route r.path ≡ some rt
      → guarded env draws r rt ≡ some next
      → IsAdmitted draws.now r s
      → handled env draws r s ≡ (next s).0
  unfolding handled
  handled-guarded rt next p g a = rw (handle-guarded rt next p g a) refl

  concluded-store :
      (x : JsonStore × Option StoreError) (reply : Reply) → (concluded 500 reply s x).0.store ≡ x.0
  unfolding concluded
  concluded-store (store, none) reply = refl
  concluded-store (store, some e) reply = refl

  store-set_password :
      (password : Text)
      → AsksPassword env password r
      → (set_password env draws r s).0.store
        ≡ (set_admin_password env.write env.crypto password draws.now s.store).0
  unfolding set_password
  store-set_password password h = rw (h.method, h.body, h.nonempty) (concluded-store _ _)

  accepts_login-same :
      (password : Text) (h : AsksLogin env password r)
      → validate_password env.crypto s.store password ≡ true
      → accepts_login env draws s (some h.credentials) ≡ true
  unfolding accepts_login
  accepts_login-same password h v =
      let given : validate_password env.crypto s.store h.credentials.password ≡ true =
        rw h.same_password v in
      elim h.username [ inl e ↦ rw (e, given) refl | inr e ↦ rw (e, given) refl ]

  handled-login :
      (password : Text)
      → AsksLogin env password r
      → validate_password env.crypto s.store password ≡ true
      → handled env draws r s ≡ granted draws s
  unfolding handled handle guarded login
  handled-login password h v = rw (h.path, h.method, h.body, accepts_login-same password h v) refl

record IsReady (env : Env) (password : Text) (s s1 : Server) : Type 0 where
  validated : validate_password env.crypto s1.store password ≡ true
  first_boot : (data_snapshot s1.store).admin.first_boot ≡ false
  token_ttl : s1.token_ttl ≡ s.token_ttl

set_password-IsReady :
    (env : Env) (s : Server) (password hash : Text) (draws : Draws) (r : Request)
    → env.crypto.generate password ≡ some hash
    → IsAdmitted draws.now r s
    → AsksPassword env password r
    → IsReady env password s (handled env draws r s)
unfolding guarded data_snapshot populate_user_device_refs
set_password-IsReady env s password hash draws r made a asks =
    let set =
      handled-guarded env draws r s password_route (set_password env draws r) asks.path refl a in
    let store = ap (λ x. x.store) set ∙ store-set_password env draws r s password asks in
    elim (set_admin_password-validate_password env.write env.crypto password draws.now s.store) [
      | inl (e, same, failed) ↦ absurd (none-ne-some _ (sym e ∙ made))
      | inr has ↦ record {
        validated =
            subst (λ x. validate_password env.crypto x password ≡ true) (sym store) has.validated;
        first_boot =
            subst (λ x. x.contents.admin.first_boot ≡ false) (sym store) has.admin.first_boot;
        token_ttl =
            ap (λ x. x.token_ttl) set
            ∙ (guarded-Keeps env draws r s password_route (set_password env draws r)
                refl).token_ttl;
      }
    ]

IsReady-get_policy :
    (env : Env) (s s1 : Server) (password : Text) (d2 d3 : Draws) (r3 : Request)
    → IsReady env password s s1
    → route r3.path ≡ some policy_route
    → r3.method ≡ get
    → bearer_token r3.authorization ≡ some d2.id
    → d3.now ≤ d2.now + s.token_ttl
    → let s2 = granted d2 s1 in
      handle env d3 r3 s2
      ≡ some (s2, write_json 200 (policy_data (populate_user_device_refs (data_snapshot s2.store))))
unfolding guarded granted get_policy
IsReady-get_policy env s s1 password d2 d3 r3 ready p m b l =
    let s2 = granted d2 s1 in
    let late : d3.now ≤ d2.now + s1.token_ttl = rw ready.token_ttl l in
    let access : IsAdmitted d3.now r3 s2 = record {
      boot = λ h. absurd (true-ne-false h ready.first_boot);
      access =
          with_token d2.id (d2.now + s1.token_ttl) b
            (Dict.get-put_self s1.tokens d2.id (d2.now + s1.token_ttl)) late;
    } in
    handle-guarded env d3 r3 s2 policy_route (get_policy r3) p refl access ∙ rw m refl

-- After an admitted request that sets the administrator's password to one that bcrypt hashes,
-- whatever becomes of the JSON store's file and whether or not it was the first boot, a login with
-- that password gives a token with which GET /policy is answered 200 with the policy until the
-- token's time is over.
pub set_password-get_policy :
    (env : Env) (s : Server) (password hash : Text) (d1 d2 d3 : Draws) (r1 r2 r3 : Request)
    → env.crypto.generate password ≡ some hash
    → IsAdmitted d1.now r1 s
    → AsksPassword env password r1
    → AsksLogin env password r2
    → route r3.path ≡ some policy_route
    → r3.method ≡ get
    → bearer_token r3.authorization ≡ some d2.id
    → d3.now ≤ d2.now + s.token_ttl
    → let s2 = handled env d2 r2 (handled env d1 r1 s) in
      handle env d3 r3 s2
      ≡ some (s2, write_json 200 (policy_data (populate_user_device_refs (data_snapshot s2.store))))
set_password-get_policy env s password hash d1 d2 d3 r1 r2 r3 made a asks logs p3 m3 b3 l =
    let ready = set_password-IsReady env s password hash d1 r1 made a asks in
    subst
      (λ s2.
        handle env d3 r3 s2
        ≡ some
            (s2, write_json 200 (policy_data (populate_user_device_refs (data_snapshot s2.store)))))
      (sym (handled-login env d2 r2 (handled env d1 r1 s) password logs ready.validated))
      (IsReady-get_policy env s (handled env d1 r1 s) password d2 d3 r3 ready p3 m3 b3 l)
