-- ===== src/Policy/Types.antt =====
-- internal/policy/types.go, and `Data` of store.go. The zero values are those of Go.
use citadel_dnxproxy.Prelude.{Bool, false, List, []}
use citadel_dnxproxy.Prelude.Dict.{Dict}
use citadel_dnxproxy.Prelude.Int.{ℤ, pos}
use citadel_dnxproxy.Clock.{Time}
use citadel_dnxproxy.Text.{Text}

pub record AdminState : Type 0 where
  pub password_hash : Text
  pub password_salt : Text
  pub initial_secret : Text
  pub first_boot : Bool
  pub updated_at : Time

pub record TimeWindow : Type 0 where
  pub name : Text
  pub time_span : Text

-- The texts "block" and "allow", and any other.
pub data DomainAction : Type 0 where
  block allow : DomainAction
  other : Text → DomainAction

pub record DomainRule : Type 0 where
  pub id : Text
  pub user_id : Text
  pub pattern : Text
  pub action : DomainAction
  pub notes : Text

pub record User : Type 0 where
  pub id : Text
  pub name : Text
  pub daily_budget_minutes : ℤ
  pub allow_windows : List TimeWindow
  pub domain_rules : List DomainRule
  pub created_at : Time
  pub updated_at : Time
  pub notes : Text
  pub device_ids : List Text

pub record Device : Type 0 where
  pub id : Text
  pub name : Text
  pub ip : Text
  pub mac : Text
  pub hostname : Text
  pub vendor : Text
  pub source : Text
  pub last_seen : Time
  pub user_id : Text
  pub created_at : Time
  pub updated_at : Time

pub record SessionState : Type 0 where
  pub user_id : Text
  pub day : Text
  pub active : Bool
  pub start : Time
  pub last_seen : Time

pub record UsageSummary : Type 0 where
  pub user_id : Text
  pub day : Text
  pub seconds : ℤ

pub record Settings : Type 0 where
  pub idle_timeout_minutes : ℤ
  pub budget_reset_tz : Text

pub record AuditEvent : Type 0 where
  pub id : Text
  pub timestamp : Time
  pub actor : Text
  pub action : Text
  pub details : Text

pub record PolicyData : Type 0 where
  pub version : ℤ
  pub admin : AdminState
  pub users : Dict User
  pub devices : Dict Device
  pub domain_rules : List DomainRule
  pub sessions : Dict SessionState
  pub usage : Dict UsageSummary
  pub settings : Settings
  pub audit : List AuditEvent

-- `User{}`, `SessionState{}` and `UsageSummary{}`, which a map gives for a missing key.
abbrev pub no_user : User
no_user = record {
  id = [];
  name = [];
  daily_budget_minutes = pos 0;
  allow_windows = [];
  domain_rules = [];
  created_at = 0;
  updated_at = 0;
  notes = [];
  device_ids = [];
}

abbrev pub no_session : SessionState
no_session = record { user_id = []; day = []; active = false; start = 0; last_seen = 0 }

abbrev pub no_usage : UsageSummary
no_usage = record { user_id = []; day = []; seconds = pos 0 }

-- `Reason`
pub data Reason : Type 0 where
  none budget_exceeded outside_window policy_block config_block : Reason
