-- ===== src/Admin/Devices.antt =====
-- The device handlers of internal/adminserver/adminserver.go.
use citadel_dnxproxy.Prelude.{zero, suc, Option, none, some, if◌then◌else◌}
use citadel_dnxproxy.Prelude.Dict
use citadel_dnxproxy.Text.{Text, codes, is_empty}
use citadel_dnxproxy.Clock.{Time}
use citadel_dnxproxy.Policy.Types.{Device, PolicyData}
use citadel_dnxproxy.Policy.Store.{StoreError, mutation_failed}
use citadel_dnxproxy.Admin.{
  Server, Method, put, delete, Request, Draws, device_body, Reply, write_json, update, Env,
}
use citadel_dnxproxy.Admin.Sessions.{post_only, not_allowed, invalid_json}
use citadel_dnxproxy.Admin.Users.{non_empty_or, done_ok, id_required}

-- `if t.IsZero() { … }`
abbrev time_or : Time → Time → Time
time_or zero now = now
time_or (suc t) now = suc t

-- The device that POST /devices stores and returns.
unfoldable pub new_device : Draws → Device → Device
new_device draws dev = record dev {
  id = non_empty_or dev.id draws.id;
  created_at = draws.now;
  updated_at = draws.now;
  source = non_empty_or dev.source (codes "manual");
  last_seen = time_or dev.last_seen draws.now;
}

-- The mutation of POST /devices.
unfoldable pub create_device : Device → PolicyData → PolicyData × Option StoreError
create_device dev d = (record d { devices = Dict.put d.devices dev.id dev }, none)

-- The fields that PUT /devices/<id> changes where the body gives them.
unfoldable pub changed_device : Device → Time → Device → Device
changed_device req now cur = record cur {
  name = non_empty_or req.name cur.name;
  ip = non_empty_or req.ip cur.ip;
  mac = non_empty_or req.mac cur.mac;
  user_id = non_empty_or req.user_id cur.user_id;
  hostname = non_empty_or req.hostname cur.hostname;
  vendor = non_empty_or req.vendor cur.vendor;
  source = non_empty_or req.source cur.source;
  last_seen = time_or req.last_seen now;
  updated_at = now;
}

abbrev pub found_device :
    Text → Device → Time → PolicyData → Option Device → PolicyData × Option StoreError
found_device id req now d none = (d, some (mutation_failed (codes "device not found")))
found_device id req now d (some cur) =
    (record d { devices = Dict.put d.devices id (changed_device req now cur) }, none)

-- The mutation of PUT /devices/<id>.
unfoldable pub update_device : Text → Device → Time → PolicyData → PolicyData × Option StoreError
update_device id req now d = found_device id req now d (Dict.get d.devices id)

-- The mutation of DELETE /devices/<id>.
unfoldable pub delete_device : Text → PolicyData → PolicyData × Option StoreError
delete_device id d = (record d { devices = Dict.delete d.devices id }, none)

module _ (env : Env) (draws : Draws) where
  abbrev pub post_device : Option Device → Server → Server × Reply
  post_device none s = (s, invalid_json)
  post_device (some req) s =
      let dev = new_device draws req in
      update env (create_device dev) 500 (write_json 201 (device_body dev)) s

  unfoldable pub devices_handler : Request → Server → Server × Reply
  devices_handler r s = post_only r.method s (post_device (env.json.device r.body) s)

  abbrev pub put_device : Text → Option Device → Server → Server × Reply
  put_device id none s = (s, invalid_json)
  put_device id (some req) s = update env (update_device id req draws.now) 400 done_ok s

  abbrev pub device_by_method : Text → Request → Method → Server → Server × Reply
  device_by_method id r put s = put_device id (env.json.device r.body) s
  device_by_method id r delete s = update env (delete_device id) 500 done_ok s
  device_by_method id r _ s = (s, not_allowed)

  -- `deviceHandler`, with the id behind "/devices/"
  unfoldable pub device_handler : Text → Request → Server → Server × Reply
  device_handler id r s = if is_empty id then (s, id_required) else device_by_method id r r.method s
