-- ===== src/Admin/Keys.antt =====
-- Every request keeps users and devices under their own ids.
use citadel_dnxproxy.Prelude.{
  ℕ, subst, ◌≡◌, refl, sym, inl, inr, List, [], ◌∷◌, Option, none, some, arith, Bool-cases,
}
use citadel_dnxproxy.Prelude.Dict
use citadel_dnxproxy.Prelude.Dict.{Dict}
use citadel_dnxproxy.Clock.{Time}
use citadel_dnxproxy.Text.{Text}
use citadel_dnxproxy.Policy.Types.{User, Device, DomainRule, AdminState, PolicyData}
use citadel_dnxproxy.Policy.Keys.{Fits, put-Fits, delete-Fits, map_values-Fits, KeysMatch}
use citadel_dnxproxy.Policy.Store.Updates.{contents-update_mutate}
use citadel_dnxproxy.Policy.Store.{StoreError, JsonStore}
use citadel_dnxproxy.Policy.Password.{Crypto}
use citadel_dnxproxy.Policy.Storage.{admin_set, set_admin_password}
use citadel_dnxproxy.Admin.{UserBody, Server, Request, Draws, Reply, concluded, Env}
use citadel_dnxproxy.Admin.Sessions.{granted}
use citadel_dnxproxy.Admin.Runs.{Call, run, logs_in, acts, rests, handled-Step}
use citadel_dnxproxy.Admin.Routes.{handled}
use citadel_dnxproxy.Admin.Users.{
  given_to, cleared, assign_found, assign_devices, clear_assignments, changed_user, stored_user,
  updated_found, create_user, update_user, delete_user,
}
use citadel_dnxproxy.Admin.Devices.{
  changed_device, found_device, create_device, update_device, delete_device,
}
use citadel_dnxproxy.Admin.DomainRules.{found_rules, create_rule, update_rule, delete_rule}
use citadel_dnxproxy.Admin.Routes.Effects.{
  guarded-cases, Change, creates_user, updates_user, deletes_user, creates_device, updates_device,
  deletes_device, creates_rule, updates_rule, deletes_rule, change,
}

abbrev DevicesFit : Dict Device → Type 0
DevicesFit = Fits (λ dev. dev.id)

assign_found-Fits :
    (user_id : Text) (now : Time) (id : Text) (devices : Dict Device)
    (continue : Dict Device → Dict Device × Option StoreError) (o : Option Device)
    → Dict.get devices id ≡ o
    → DevicesFit devices
    → ((ds : Dict Device) → DevicesFit ds → DevicesFit (continue ds).0)
    → DevicesFit (assign_found user_id now id devices continue o).0
assign_found-Fits user_id now id devices continue none e h k = h
assign_found-Fits user_id now id devices continue (some dev) e h k =
    k _ (put-Fits (λ dev. dev.id) devices id (given_to user_id now dev) h (h id dev e))

assign_devices-Fits :
    (user_id : Text) (now : Time) (ids : List Text) (devices : Dict Device)
    → DevicesFit devices
    → DevicesFit (assign_devices user_id now ids devices).0
unfolding assign_devices
assign_devices-Fits user_id now [] devices h = h
assign_devices-Fits user_id now (id ∷ ids) devices h =
    assign_found-Fits user_id now id devices (λ ds. assign_devices user_id now ids ds) _ refl h
      (assign_devices-Fits user_id now ids)

clear_assignments-Fits :
    (user_id : Text) (now : Time) (devices : Dict Device)
    → DevicesFit devices
    → DevicesFit (clear_assignments user_id now devices)
unfolding clear_assignments
clear_assignments-Fits user_id now devices =
    map_values-Fits (λ dev. dev.id) (cleared user_id now) devices (λ dev. ground arith)

abbrev Keeping : PolicyData × Option StoreError → Type 0
Keeping (d, e) = KeysMatch d

stored_user-Keeping :
    (id : Text) (now : Time) (u : User) (d : PolicyData) (r : Dict Device × Option StoreError)
    → u.id ≡ id
    → KeysMatch d
    → DevicesFit r.0
    → Keeping (stored_user id now u d r)
stored_user-Keeping id now u d (devices, some e) same h fit = record {
  users = h.users;
  devices = fit;
}
stored_user-Keeping id now u d (devices, none) same h fit = record {
  users = put-Fits (λ u. u.id) d.users id _ h.users same;
  devices = fit;
}

updated_found-Keeping :
    (id : Text) (req : UserBody) (now : Time) (d : PolicyData) (o : Option User)
    → Dict.get d.users id ≡ o
    → KeysMatch d
    → Keeping (updated_found id req now d o)
unfolding changed_user
updated_found-Keeping id req now d none e h = h
updated_found-Keeping id req now d (some cur) e h = elim (Bool-cases req.nil_devices) [
  | inl n ↦ rw n (
      stored_user-Keeping id now (changed_user req cur) d (d.devices, none) (h.users id cur e) h
        h.devices)
  | inr n ↦
      let u : User = record (changed_user req cur) { device_ids = req.user.device_ids } in
      let r : Dict Device × Option StoreError =
        assign_devices cur.id now req.user.device_ids (clear_assignments cur.id now d.devices) in
      rw n (
        stored_user-Keeping id now u d r (h.users id cur e) h (
          assign_devices-Fits cur.id now req.user.device_ids _
            (clear_assignments-Fits cur.id now d.devices h.devices)))
]

found_device-Keeping :
    (id : Text) (req : Device) (now : Time) (d : PolicyData) (o : Option Device)
    → Dict.get d.devices id ≡ o
    → KeysMatch d
    → Keeping (found_device id req now d o)
unfolding changed_device
found_device-Keeping id req now d none e h = h
found_device-Keeping id req now d (some cur) e h = record {
  users = h.users;
  devices = put-Fits (λ dev. dev.id) d.devices id _ h.devices (h.devices id cur e);
}

found_rules-Keeping :
    (d : PolicyData) (o : Option (List DomainRule)) → KeysMatch d → Keeping (found_rules d o)
found_rules-Keeping d none h = h
found_rules-Keeping d (some rules) h = record { users = h.users; devices = h.devices }

-- Every change keeps the keys.
pub change-KeysMatch :
    (now : Time) (c : Change) (d : PolicyData) → KeysMatch d → KeysMatch (change now c d).0
unfolding create_user update_user delete_user create_device update_device delete_device create_rule
    update_rule delete_rule
change-KeysMatch now (creates_user u) d h = record {
  users = put-Fits (λ u. u.id) d.users u.id u h.users refl;
  devices = assign_devices-Fits u.id now u.device_ids d.devices h.devices;
}
change-KeysMatch now (updates_user id req) d h = updated_found-Keeping id req now d _ refl h
change-KeysMatch now (deletes_user id) d h = record {
  users = delete-Fits (λ u. u.id) d.users id h.users;
  devices = clear_assignments-Fits id now d.devices h.devices;
}
change-KeysMatch now (creates_device dev) d h = record {
  users = h.users;
  devices = put-Fits (λ dev. dev.id) d.devices dev.id dev h.devices refl;
}
change-KeysMatch now (updates_device id req) d h = found_device-Keeping id req now d _ refl h
change-KeysMatch now (deletes_device id) d h = record {
  users = h.users;
  devices = delete-Fits (λ dev. dev.id) d.devices id h.devices;
}
change-KeysMatch now (creates_rule rule) d h = record { users = h.users; devices = h.devices }
change-KeysMatch now (updates_rule id req) d h = found_rules-Keeping d _ h
change-KeysMatch now (deletes_rule id) d h = record { users = h.users; devices = h.devices }

admin_set-KeysMatch :
    (d : PolicyData) (o : Option AdminState) → KeysMatch d → KeysMatch (admin_set d o).0
admin_set-KeysMatch d none h = h
admin_set-KeysMatch d (some admin) h = record { users = h.users; devices = h.devices }

set_password-KeysMatch :
    (write : PolicyData → Option StoreError) (crypto : Crypto) (password : Text) (now : Time)
    (s : JsonStore)
    → KeysMatch s.contents
    → KeysMatch (set_admin_password write crypto password now s).0.contents
unfolding set_admin_password
set_password-KeysMatch write crypto password now s h =
    subst KeysMatch (sym (contents-update_mutate write _ s)) (admin_set-KeysMatch s.contents _ h)

-- The keys match in the store behind a reply.
abbrev StoreMatches : Server × Reply → Type 0
StoreMatches (s, reply) = KeysMatch s.store.contents

concluded-StoreMatches :
    (failed : ℕ) (done : Reply) (s : Server) (r : JsonStore × Option StoreError)
    → KeysMatch r.0.contents
    → StoreMatches (concluded failed done s r)
unfolding concluded
concluded-StoreMatches failed done s (store, none) h = h
concluded-StoreMatches failed done s (store, some e) h = h

module _ (env : Env) where
  handled-KeysMatch :
      (draws : Draws) (r : Request) (s : Server)
      → KeysMatch s.store.contents
      → KeysMatch (handled env draws r s).store.contents
  unfolding granted
  handled-KeysMatch draws r s h = elim (handled-Step env draws r s) [
    | logs_in l e ↦ subst (λ x. KeysMatch x.store.contents) (sym e) h
    | rests q ↦ subst (λ x. KeysMatch x.contents) (sym q.store) h
    | acts rt next g a e ↦
        subst (λ x. KeysMatch x.store.contents) (sym e)
          (guarded-cases env draws r s StoreMatches (λ reply. h)
            (λ p failed done.
              concluded-StoreMatches failed done s _
                (set_password-KeysMatch env.write env.crypto p draws.now s.store h))
            (λ c failed done. concluded-StoreMatches failed done s _ (
              subst KeysMatch (sym (contents-update_mutate env.write _ s.store))
                (change-KeysMatch draws.now c s.store.contents h)))
            rt next g)
  ]

  -- If the users and the devices of the store are under their own ids, they are so after any
  -- sequence of requests to the admin server.
  pub run-KeysMatch :
      (calls : List Call) (s : Server)
      → KeysMatch s.store.contents
      → KeysMatch (run env calls s).store.contents
  unfolding run
  run-KeysMatch [] s h = h
  run-KeysMatch (c ∷ cs) s h = run-KeysMatch cs _ (handled-KeysMatch c.draws c.request s h)
