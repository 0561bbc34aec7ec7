-- ===== src/Admin.antt =====
-- internal/adminserver/adminserver.go: the server's state, its requests and its replies.
pub mod Sessions
pub mod Users
pub mod Devices
pub mod DomainRules
pub mod Routes
pub mod Access
pub mod Runs
pub mod Keys
pub mod Ownership
pub mod FirstBoot
use citadel_dnxproxy.Prelude.{ℕ, suc, ◌+◌, ◌*◌, Bool, true, false, List, [], Option, none, some}
use citadel_dnxproxy.Prelude.Dict.{Dict}
use citadel_dnxproxy.Clock.{Time, nanoseconds}
use citadel_dnxproxy.Text.{Text}
use citadel_dnxproxy.Policy.Types.{User, Device, DomainRule, PolicyData}
use citadel_dnxproxy.Policy.Store.{StoreError, JsonStore, update_mutate}
use citadel_dnxproxy.Policy.Password.{Crypto}

-- `session`
pub record Session : Type 0 where
  pub expires : Time
  pub csrf : Text
  pub username : Text

-- `changes` counts the runs of `onChange`.
pub record Server : Type 0 where
  pub store : JsonStore
  pub token_ttl : ℕ
  pub session_ttl : ℕ
  pub tokens : Dict Time
  pub sessions : Dict Session
  pub logged_seed : Bool
  pub changes : ℕ

-- `New`
unfoldable pub new : JsonStore → Server
new store = record {
  store = store;
  token_ttl = 3600 * nanoseconds;
  session_ttl = 12 * 3600 * nanoseconds;
  tokens = [];
  sessions = [];
  logged_seed = false;
  changes = 0;
}

pub data Method : Type 0 where
  get head post put delete other : Method

-- What the handlers read of a request: an absent header is empty, `cookie` is the value of
-- admin_session.
pub record Request : Type 0 where
  pub method : Method
  pub path : Text
  pub authorization : Text
  pub cookie : Option Text
  pub csrf_token : Text
  pub body : Text

-- What the clock and the random sources give during one request: the time, which stands still, the
-- first and the second uuid.NewString, and randomToken.
pub record Draws : Type 0 where
  pub now : Time
  pub id : Text
  pub session_id : Text
  pub csrf : Text

pub record Credentials : Type 0 where
  pub username : Text
  pub password : Text

-- A decoded user, with the test of its two lists against nil, which a body gives for a missing field
-- and for null.
pub record UserBody : Type 0 where
  pub user : User
  pub nil_windows : Bool
  pub nil_devices : Bool

-- encoding/json: what `Decode` reads from a body, `none` where it returns an error.
pub record Json : Type 0 where
  pub credentials : Text → Option Credentials
  pub password : Text → Option Text
  pub user : Text → Option UserBody
  pub device : Text → Option Device
  pub domain_rule : Text → Option DomainRule

pub data Body : Type 0 where
  status_ok : Body
  error_text : Text → Body
  store_error : StoreError → Body
  -- token, CSRF token, first boot, must change
  logged_in : Text → Text → Bool → Bool → Body
  policy_data : PolicyData → Body
  user_body : User → Body
  device_body : Device → Body
  rule_body : DomainRule → Body

-- `cookie` is the value that SetCookie gives admin_session.
pub record Reply : Type 0 where
  pub status : ℕ
  pub body : Body
  pub cookie : Option Text

-- `writeJSON`
abbrev pub write_json : ℕ → Body → Reply
write_json status body = record { status = status; body = body; cookie = none }

-- `writeError`
abbrev pub write_error : ℕ → Text → Reply
write_error status msg = write_json status (error_text msg)

-- `notifyChange`
abbrev pub notify_change : Server → Server
notify_change s = record s { changes = suc s.changes }

-- What each handler does with the result of the store: an error is reported, and otherwise the
-- change is notified.
unfoldable pub concluded : ℕ → Reply → Server → JsonStore × Option StoreError → Server × Reply
concluded failed done s (store, none) = (notify_change (record s { store = store }), done)
concluded failed done s (store, some e) =
    (record s { store = store }, write_json failed (store_error e))

-- encoding/json, bcrypt and SHA-256, and what writing the store's file comes to.
pub record Env : Type 0 where
  pub json : Json
  pub crypto : Crypto
  pub write : PolicyData → Option StoreError

-- `s.store.UpdateMutate(fn)` in a handler.
abbrev pub update :
    Env → (PolicyData → PolicyData × Option StoreError) → ℕ → Reply → Server → Server × Reply
update env fn failed done s = concluded failed done s (update_mutate env.write fn s.store)
