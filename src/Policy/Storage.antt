-- ===== src/Policy/Storage.antt =====
-- The life of a JSON store (internal/policy/store.go): opening, saving, the administrator's password
-- and the factory reset.
pub mod Passwords
use citadel_dnxproxy.Prelude.{zero, Bool, List, [], Option, none, some, if◌then◌else◌}
use citadel_dnxproxy.Prelude.Int.{ℤ, pos, negsuc}
use citadel_dnxproxy.Prelude.Result.{Result, ok, err}
use citadel_dnxproxy.Clock.{Time}
use citadel_dnxproxy.Text.{Text, codes, is_empty}
use citadel_dnxproxy.Policy.Types.{AdminState, PolicyData}
use citadel_dnxproxy.Policy.Store.{
  StoreError, mutation_failed, write_failed, JsonStore, update_mutate,
}
use citadel_dnxproxy.Policy.Password.{Crypto, default_admin, set_admin, validate_password_record}

abbrev pub current_schema_version : ℤ
current_schema_version = pos 4

-- `defaultData`, with the secret that `randomSecret` drew
unfoldable pub default_data : Crypto → Text → PolicyData
default_data crypto secret = record {
  version = current_schema_version;
  admin = default_admin crypto secret;
  users = [];
  devices = [];
  domain_rules = [];
  sessions = [];
  usage = [];
  settings = record { idle_timeout_minutes = pos 10; budget_reset_tz = [] };
  audit = [];
}

-- What opening meets: a directory that cannot be made or a file that cannot be examined or read, no
-- file, or its bytes.
pub data OnDisk : Type 0 where
  unusable missing : OnDisk
  payload : Text → OnDisk

abbrev pub admin_set : PolicyData → Option AdminState → PolicyData × Option StoreError
admin_set d none = (d, some (mutation_failed (codes "bcrypt: password length exceeds 72 bytes")))
admin_set d (some admin) = (record d { admin = admin }, none)

module _ (write : PolicyData → Option StoreError) where
  abbrev saved : PolicyData → Option PolicyData → Option StoreError → JsonStore × Option StoreError
  saved d file none = (record { contents = d; file = some d }, none)
  saved d file (some e) = (record { contents = d; file = file }, some e)

  -- `Save`
  unfoldable pub save : JsonStore → JsonStore × Option StoreError
  save s = saved s.contents s.file (write s.contents)

  abbrev pub opened : JsonStore × Option StoreError → Result StoreError JsonStore
  opened (s, none) = ok s
  opened (s, some e) = err e

  -- `return s, s.Save()` on a new store: its file holds no data before the write.
  abbrev init_default : PolicyData → Result StoreError JsonStore
  init_default d = opened (save (record { contents = d; file = none }))

  -- `if s.data.Version == 0 { … }`
  abbrev with_version : ℤ → ℤ
  with_version (pos zero) = current_schema_version
  with_version v = v

  abbrev decoded : Option PolicyData → Result StoreError JsonStore
  decoded none = err write_failed
  decoded (some d) =
      ok (record { contents = record d { version = with_version d.version }; file = some d })

  -- `LoadOrInitJSON`. `decode` is json.Unmarshal into `Data`.
  unfoldable pub load_or_init_json :
      (Text → Option PolicyData) → PolicyData → OnDisk → Result StoreError JsonStore
  unfolding save
  load_or_init_json decode defaults unusable = err write_failed
  load_or_init_json decode defaults missing = init_default defaults
  load_or_init_json decode defaults (payload bytes) =
      if is_empty bytes then init_default defaults else decoded (decode bytes)

  -- `SetAdminPassword`
  unfoldable pub set_admin_password :
      Crypto → Text → Time → JsonStore → JsonStore × Option StoreError
  set_admin_password crypto password now =
      update_mutate write (λ d. admin_set d (set_admin crypto d.admin password now))

-- `ValidatePassword`
unfoldable pub validate_password : Crypto → JsonStore → Text → Bool
validate_password crypto s password = validate_password_record crypto s.contents.admin password

-- `FactoryReset`: the file is removed (`removed` is the outcome), the memory stays.
unfoldable pub factory_reset : Option StoreError → JsonStore → JsonStore × Option StoreError
factory_reset none s = (record s { file = none }, none)
factory_reset (some e) s = (s, some e)
