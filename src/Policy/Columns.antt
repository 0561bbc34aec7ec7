-- ===== src/Policy/Columns.antt =====
-- The rows of the tables of internal/policy/sqlite_store.go, column by column: the values of the INSERTs
-- of `persist`, and what the SELECTs of `snapshotUnsafe` scan them into.
pub mod Kept
use citadel_dnxproxy.Prelude.{
  ℕ, zero, ◌*◌, ◌/◌, ◌≡◌, refl, Bool, true, false, List, [], Option, none, some, ◌==◌, arith,
  if◌then◌else◌,
}
use citadel_dnxproxy.Prelude.Int.{ℤ, pos, negsuc}
use citadel_dnxproxy.Clock.{Time, nanoseconds}
use citadel_dnxproxy.Text.{Text}
use citadel_dnxproxy.Policy.Types.{
  AdminState, TimeWindow, DomainAction, DomainRule, User, Device, SessionState, UsageSummary,
  AuditEvent,
}

-- A time in RFC 3339: whole seconds since the zero time, and none for an empty text or NULL.
abbrev pub Stamp : Type 0
Stamp = Option ℕ

-- `t.Format(time.RFC3339)`
abbrev pub format_time : Time → Stamp
format_time t = some (t / nanoseconds)

-- `if s != "" { v, _ = time.Parse(time.RFC3339, s) }` on the variable's value `old`
abbrev pub parse_time : Time → Stamp → Time
parse_time old none = old
parse_time old (some s) = s * nanoseconds

abbrev pub bool_to_int : Bool → ℤ
bool_to_int b = if b then pos 1 else pos 0

-- `n != 0`
abbrev pub is_nonzero : ℤ → Bool
is_nonzero (pos zero) = false
is_nonzero n = true

pub record AdminRow : Type 0 where
  pub password_hash : Text
  pub password_salt : Text
  pub initial_secret : Text
  pub first_boot : ℤ
  pub updated_at : Stamp

pub record UserRow : Type 0 where
  pub id : Text
  pub name : Text
  pub daily_budget_minutes : ℤ
  pub allow_windows : Text
  pub notes : Text
  pub created_at : Stamp
  pub updated_at : Stamp

pub record DeviceRow : Type 0 where
  pub id : Text
  pub name : Text
  pub ip : Text
  pub mac : Text
  pub hostname : Text
  pub vendor : Text
  pub source : Text
  pub last_seen : Stamp
  pub user_id : Text
  pub created_at : Stamp
  pub updated_at : Stamp

pub record RuleRow : Type 0 where
  pub id : Text
  pub user_id : Text
  pub pattern : Text
  pub action : DomainAction
  pub notes : Text

pub record SessionRow : Type 0 where
  pub user_id : Text
  pub day : Text
  pub active : ℤ
  pub start_ts : Stamp
  pub last_seen : Stamp

pub record UsageRow : Type 0 where
  pub user_id : Text
  pub day : Text
  pub seconds : ℤ

pub record AuditRow : Type 0 where
  pub id : Text
  pub ts : Stamp
  pub actor : Text
  pub action : Text
  pub details : Text

abbrev pub admin_row : AdminState → AdminRow
admin_row a = record {
  password_hash = a.password_hash;
  password_salt = a.password_salt;
  initial_secret = a.initial_secret;
  first_boot = bool_to_int a.first_boot;
  updated_at = format_time a.updated_at;
}

-- The administrator over that of the default data.
abbrev pub admin_of : AdminState → AdminRow → AdminState
admin_of start r = record {
  password_hash = r.password_hash;
  password_salt = r.password_salt;
  initial_secret = r.initial_secret;
  first_boot = is_nonzero r.first_boot;
  updated_at = parse_time start.updated_at r.updated_at;
}

abbrev pub device_row : Device → DeviceRow
device_row d = record {
  id = d.id;
  name = d.name;
  ip = d.ip;
  mac = d.mac;
  hostname = d.hostname;
  vendor = d.vendor;
  source = d.source;
  last_seen = if d.last_seen == 0 then none else format_time d.last_seen;
  user_id = d.user_id;
  created_at = format_time d.created_at;
  updated_at = format_time d.updated_at;
}

abbrev pub device_of : DeviceRow → Device
device_of r = record {
  id = r.id;
  name = r.name;
  ip = r.ip;
  mac = r.mac;
  hostname = r.hostname;
  vendor = r.vendor;
  source = r.source;
  last_seen = parse_time 0 r.last_seen;
  user_id = r.user_id;
  created_at = parse_time 0 r.created_at;
  updated_at = parse_time 0 r.updated_at;
}

abbrev pub rule_row : DomainRule → RuleRow
rule_row r = record {
  id = r.id;
  user_id = r.user_id;
  pattern = r.pattern;
  action = r.action;
  notes = r.notes;
}

abbrev pub rule_of : RuleRow → DomainRule
rule_of r = record {
  id = r.id;
  user_id = r.user_id;
  pattern = r.pattern;
  action = r.action;
  notes = r.notes;
}

abbrev pub session_row : SessionState → SessionRow
session_row s = record {
  user_id = s.user_id;
  day = s.day;
  active = bool_to_int s.active;
  start_ts = format_time s.start;
  last_seen = format_time s.last_seen;
}

abbrev pub session_of : SessionRow → SessionState
session_of r = record {
  user_id = r.user_id;
  day = r.day;
  active = is_nonzero r.active;
  start = parse_time 0 r.start_ts;
  last_seen = parse_time 0 r.last_seen;
}

abbrev pub usage_row : UsageSummary → UsageRow
usage_row u = record { user_id = u.user_id; day = u.day; seconds = u.seconds }

abbrev pub usage_of : UsageRow → UsageSummary
usage_of r = record { user_id = r.user_id; day = r.day; seconds = r.seconds }

abbrev pub audit_row : AuditEvent → AuditRow
audit_row a = record {
  id = a.id;
  ts = format_time a.timestamp;
  actor = a.actor;
  action = a.action;
  details = a.details;
}

abbrev pub audit_of : AuditRow → AuditEvent
audit_of r = record {
  id = r.id;
  timestamp = parse_time 0 r.ts;
  actor = r.actor;
  action = r.action;
  details = r.details;
}

-- encoding/json on the windows of a user: `decode` is what Unmarshal leaves in an empty slice, with
-- an error or without.
pub record Windows : Type 0 where
  pub encode : List TimeWindow → Text
  pub decode : Text → List TimeWindow

module _ (windows : Windows) where
  abbrev pub user_row : User → UserRow
  user_row u = record {
    id = u.id;
    name = u.name;
    daily_budget_minutes = u.daily_budget_minutes;
    allow_windows = windows.encode u.allow_windows;
    notes = u.notes;
    created_at = format_time u.created_at;
    updated_at = format_time u.updated_at;
  }

  abbrev pub user_of : UserRow → User
  user_of r = record {
    id = r.id;
    name = r.name;
    daily_budget_minutes = r.daily_budget_minutes;
    allow_windows = windows.decode r.allow_windows;
    domain_rules = [];
    created_at = parse_time 0 r.created_at;
    updated_at = parse_time 0 r.updated_at;
    notes = r.notes;
    device_ids = [];
  }
