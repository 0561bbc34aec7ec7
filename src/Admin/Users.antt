-- ===== src/Admin/Users.antt =====
-- The user handlers of internal/adminserver/adminserver.go.
use citadel_dnxproxy.Prelude.{List, [], ◌∷◌, ◌++◌, Option, none, some, if◌then◌else◌, str_eq}
use citadel_dnxproxy.Prelude.Dict
use citadel_dnxproxy.Prelude.Dict.{Dict}
use citadel_dnxproxy.Prelude.Int.{pos, ltb_ℤ}
use citadel_dnxproxy.Text.{Text, codes, is_empty}
use citadel_dnxproxy.Clock.{Time}
use citadel_dnxproxy.Policy.Types.{User, Device, PolicyData}
use citadel_dnxproxy.Policy.Store.{StoreError, mutation_failed}
use citadel_dnxproxy.Admin.{
  Server, Method, put, delete, Request, Draws, UserBody, status_ok, user_body, Reply, write_json,
  write_error, update, Env,
}
use citadel_dnxproxy.Admin.Sessions.{post_only, not_allowed, invalid_json}

-- `if v != "" { field = v }`
abbrev pub non_empty_or : Text → Text → Text
non_empty_or [] old = old
non_empty_or (c ∷ v) old = c ∷ v

abbrev pub given_to : Text → Time → Device → Device
given_to user_id now dev = record dev { user_id = user_id; updated_at = now }

-- One step of the loop, with the rest of the loop as `continue`.
abbrev pub assign_found :
    Text
    → Time
    → Text
    → Dict Device
    → (Dict Device → Dict Device × Option StoreError)
    → Option Device
    → Dict Device × Option StoreError
assign_found user_id now id devices continue none =
    (devices, some (mutation_failed (codes "device not found: " ++ id)))
assign_found user_id now id devices continue (some dev) =
    continue (Dict.put devices id (given_to user_id now dev))

-- The loop over the new device ids; it stops at the first device that does not exist.
unfoldable pub assign_devices :
    Text → Time → List Text → Dict Device → Dict Device × Option StoreError
assign_devices user_id now [] devices = (devices, none)
assign_devices user_id now (id ∷ ids) devices =
    assign_found user_id now id devices (λ ds. assign_devices user_id now ids ds)
      (Dict.get devices id)

-- One device in the loop that takes a user's devices away.
abbrev pub cleared : Text → Time → Device → Device
cleared user_id now dev = if str_eq dev.user_id user_id then given_to [] now dev else dev

unfoldable pub clear_assignments : Text → Time → Dict Device → Dict Device
clear_assignments user_id now = Dict.map_values (cleared user_id now)

-- The mutation of POST /users.
unfoldable pub create_user : User → Time → PolicyData → PolicyData × Option StoreError
create_user u now d =
    let (devices, e) = assign_devices u.id now u.device_ids d.devices in
    (record d { users = Dict.put d.users u.id u; devices = devices }, e)

-- The fields of a user that PUT /users/<id> changes where the body gives them.
unfoldable pub changed_user : UserBody → User → User
changed_user req cur = record cur {
  name = non_empty_or req.user.name cur.name;
  daily_budget_minutes =
      if ltb_ℤ (pos 0) req.user.daily_budget_minutes
      then req.user.daily_budget_minutes
      else cur.daily_budget_minutes;
  allow_windows = if req.nil_windows then cur.allow_windows else req.user.allow_windows;
  notes = non_empty_or req.user.notes cur.notes;
}

abbrev pub stored_user :
    Text
    → Time
    → User
    → PolicyData
    → Dict Device × Option StoreError
    → PolicyData × Option StoreError
stored_user id now u d (devices, some e) = (record d { devices = devices }, some e)
stored_user id now u d (devices, none) = (
  record d { devices = devices; users = Dict.put d.users id (record u { updated_at = now }) },
  none,
)

abbrev pub updated_user :
    Text → UserBody → Time → PolicyData → User → PolicyData × Option StoreError
updated_user id req now d cur =
    if req.nil_devices
    then stored_user id now (changed_user req cur) d (d.devices, none)
    else stored_user id now (record (changed_user req cur) { device_ids = req.user.device_ids }) d
        (assign_devices cur.id now req.user.device_ids (clear_assignments cur.id now d.devices))

abbrev pub updated_found :
    Text → UserBody → Time → PolicyData → Option User → PolicyData × Option StoreError
updated_found id req now d none = (d, some (mutation_failed (codes "user not found")))
updated_found id req now d (some cur) = updated_user id req now d cur

-- The mutation of PUT /users/<id>.
unfoldable pub update_user : Text → UserBody → Time → PolicyData → PolicyData × Option StoreError
update_user id req now d = updated_found id req now d (Dict.get d.users id)

-- The mutation of DELETE /users/<id>.
unfoldable pub delete_user : Text → Time → PolicyData → PolicyData × Option StoreError
delete_user id now d = (
  record d { users = Dict.delete d.users id; devices = clear_assignments id now d.devices },
  none,
)

-- The user that POST /users stores and returns.
unfoldable pub new_user : Draws → User → User
new_user draws u = record u {
  id = non_empty_or u.id draws.id;
  created_at = draws.now;
  updated_at = draws.now;
}

abbrev pub done_ok : Reply
done_ok = write_json 200 status_ok

abbrev pub id_required : Reply
id_required = write_error 400 (codes "id required")

module _ (env : Env) (draws : Draws) where
  abbrev pub post_user : Option UserBody → Server → Server × Reply
  post_user none s = (s, invalid_json)
  post_user (some req) s =
      let u = new_user draws req.user in
      update env (create_user u draws.now) 500 (write_json 201 (user_body u)) s

  unfoldable pub users_handler : Request → Server → Server × Reply
  unfolding new_user
  users_handler r s = post_only r.method s (post_user (env.json.user r.body) s)

  abbrev pub put_user : Text → Option UserBody → Server → Server × Reply
  put_user id none s = (s, invalid_json)
  put_user id (some req) s = update env (update_user id req draws.now) 400 done_ok s

  abbrev pub user_by_method : Text → Request → Method → Server → Server × Reply
  user_by_method id r put s = put_user id (env.json.user r.body) s
  user_by_method id r delete s = update env (delete_user id draws.now) 500 done_ok s
  user_by_method id r _ s = (s, not_allowed)

  -- `userHandler`, with the id behind "/users/"
  unfoldable pub user_handler : Text → Request → Server → Server × Reply
  user_handler id r s = if is_empty id then (s, id_required) else user_by_method id r r.method s
