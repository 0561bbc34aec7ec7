-- ===== src/Policy/Snapshot.antt =====
-- `DataSnapshot` and `PopulateUserDeviceRefs` of internal/policy/store.go. The clones of the maps are
-- the maps themselves here, since a value is never changed in place.
pub mod Refs
use citadel_dnxproxy.Prelude.{
  Bool, true, false, List, [], ◌∷◌, ◌++◌, Option, none, some, if◌then◌else◌,
}
use citadel_dnxproxy.Prelude.Dict
use citadel_dnxproxy.Prelude.Dict.{Dict}
use citadel_dnxproxy.Text.{Text, text_lt, is_empty}
use citadel_dnxproxy.Rules.Sort.{slice_stable}
use citadel_dnxproxy.Policy.Types.{User, Device, PolicyData}
use citadel_dnxproxy.Policy.Store.{JsonStore}
use citadel_dnxproxy.Policy.Evaluator.{list_of}

-- The first loop: the ids of the devices by their user.
unfoldable pub device_ids_by_user : Dict Device → Dict (List Text) → Dict (List Text)
device_ids_by_user [] by_user = by_user
device_ids_by_user ((id, dev) ∷ devices) by_user =
    if is_empty dev.user_id
    then device_ids_by_user devices by_user
    else device_ids_by_user devices
        (Dict.put by_user dev.user_id (list_of (Dict.get by_user dev.user_id) ++ id ∷ []))

-- sort.Strings
unfoldable pub sort_strings : List Text → List Text
sort_strings = slice_stable text_lt

abbrev pub with_ids : List Text → User → User
with_ids ids u = record u { device_ids = ids }

-- The second loop: the users who have devices.
abbrev pub set_found : Text → List Text → Dict User → Option User → Dict User
set_found uid ids users none = users
set_found uid ids users (some u) = Dict.put users uid (with_ids (sort_strings ids) u)

unfoldable pub set_device_ids : Dict (List Text) → Dict User → Dict User
set_device_ids [] users = users
set_device_ids ((uid, ids) ∷ by_user) users =
    set_device_ids by_user (set_found uid ids users (Dict.get users uid))

-- The third loop: the users who have none.
abbrev pub clear_found : Text → User → Dict User → Option (List Text) → Dict User
clear_found uid u users none = Dict.put users uid (with_ids [] u)
clear_found uid u users (some ids) = users

unfoldable pub clear_device_ids : Dict (List Text) → Dict User → Dict User → Dict User
clear_device_ids by_user [] users = users
clear_device_ids by_user ((uid, u) ∷ rest) users =
    clear_device_ids by_user rest (clear_found uid u users (Dict.get by_user uid))

unfoldable pub populate_user_device_refs : PolicyData → PolicyData
unfolding device_ids_by_user set_device_ids clear_device_ids
populate_user_device_refs d =
    let by_user = device_ids_by_user d.devices [] in
    let users = set_device_ids by_user d.users in
    record d { users = clear_device_ids by_user users users }

unfoldable pub data_snapshot : JsonStore → PolicyData
data_snapshot s = populate_user_device_refs s.contents
