-- ===== src/Policy/Columns/Kept.antt =====
-- What the rows of the SQLite store keep of the values that they are made of.
use citadel_dnxproxy.Prelude.{
  ◌≡◌, refl, ap, ◌*◌, ◌/◌, Bool, true, false, [], none, ltb, ◌==◌, arith, if◌then◌else◌,
}
use citadel_dnxproxy.Clock.{Time, nanoseconds}
use citadel_dnxproxy.Policy.Types.{AdminState, User, Device, SessionState, AuditEvent}
use citadel_dnxproxy.Policy.Columns.{
  format_time, parse_time, bool_to_int, is_nonzero, admin_row, admin_of, device_row, device_of,
  session_row, session_of,
}

-- `t.Format(time.RFC3339)`, parsed again: the time in whole seconds.
abbrev pub stamp : Time → Time
stamp t = t / nanoseconds * nanoseconds

-- What the tables keep: times in whole seconds, and of a user not the lists that are computed.
abbrev pub kept_user : User → User
kept_user u = record u {
  created_at = stamp u.created_at;
  updated_at = stamp u.updated_at;
  domain_rules = [];
  device_ids = [];
}

abbrev pub kept_device : Device → Device
kept_device d = record d {
  last_seen = stamp d.last_seen;
  created_at = stamp d.created_at;
  updated_at = stamp d.updated_at;
}

abbrev pub kept_session : SessionState → SessionState
kept_session s = record s { start = stamp s.start; last_seen = stamp s.last_seen }

abbrev pub kept_event : AuditEvent → AuditEvent
kept_event a = record a { timestamp = stamp a.timestamp }

abbrev pub kept_admin : AdminState → AdminState
kept_admin a = record a { updated_at = stamp a.updated_at }

-- The later event first.
abbrev pub later_event : AuditEvent → AuditEvent → Bool
later_event a b = ltb b.timestamp a.timestamp

is_nonzero-bool_to_int : (b : Bool) → is_nonzero (bool_to_int b) ≡ b
is_nonzero-bool_to_int true = refl
is_nonzero-bool_to_int false = refl

last_seen-stamp : (t : Time) → parse_time 0 (if t == 0 then none else format_time t) ≡ stamp t
last_seen-stamp t = ground arith

pub device_of-device_row : (d : Device) → device_of (device_row d) ≡ kept_device d
device_of-device_row d =
    ap (λ t. record (kept_device d) { last_seen = t }) (last_seen-stamp d.last_seen)

pub session_of-session_row : (s : SessionState) → session_of (session_row s) ≡ kept_session s
session_of-session_row s =
    ap (λ b. record (kept_session s) { active = b }) (is_nonzero-bool_to_int s.active)

pub admin_of-admin_row : (start a : AdminState) → admin_of start (admin_row a) ≡ kept_admin a
admin_of-admin_row start a =
    ap (λ b. record (kept_admin a) { first_boot = b }) (is_nonzero-bool_to_int a.first_boot)
