-- ===== src/Policy/Sqlite.antt =====
-- internal/policy/sqlite_store.go: the policy in the tables of a database, with the rows of Policy/Columns.
-- A SELECT without an order gives the rows as they were inserted, and times in UTC compare as their texts.
pub mod Passwords
pub mod RoundTrip
pub mod Rows
use citadel_dnxproxy.Prelude.{
  ℕ, ◌*◌, ◌/◌, Bool, true, false, List, [], ◌∷◌, ◌++◌, Option, none, some, map, ltb, any_by, str_eq,
  if◌then◌else◌,
}
use citadel_dnxproxy.Prelude.Dict
use citadel_dnxproxy.Prelude.Dict.{Dict}
use citadel_dnxproxy.Prelude.Int.{ℤ, pos, ltb_ℤ}
use citadel_dnxproxy.Prelude.Result.{Result, ok, err, ◌>>=◌}
use citadel_dnxproxy.Clock.{Time, nanoseconds}
use citadel_dnxproxy.Text.{Text, is_empty}
use citadel_dnxproxy.Rules.Sort.{slice_stable}
use mathlib.Core.Option
use citadel_dnxproxy.Policy.Types.{
  AdminState, User, Device, SessionState, UsageSummary, Settings, PolicyData,
}
use citadel_dnxproxy.Policy.Columns.{
  AdminRow, UserRow, DeviceRow, RuleRow, SessionRow, UsageRow, AuditRow, Windows, parse_time,
  admin_row, admin_of, user_row, user_of, device_row, device_of, rule_row, rule_of, session_row,
  session_of, usage_row, usage_of, audit_row, audit_of,
}
use citadel_dnxproxy.Policy.Password.{Crypto, set_admin, validate_password_record}
use citadel_dnxproxy.Policy.Store.{StoreError, write_failed}
use citadel_dnxproxy.Policy.Storage.{default_data, admin_set}

pub record Tables : Type 0 where
  pub version : ℤ
  pub admin : AdminRow
  pub settings : Settings
  pub users : List UserRow
  pub devices : List DeviceRow
  pub domain_rules : List RuleRow
  pub sessions : List SessionRow
  pub usage : List UsageRow
  pub audit : List AuditRow

-- What the SELECTs give: whether the query of a table of one row is answered, and which rows of another
-- table the query gives and Scan takes, none where the query fails. The query of the audit may fail.
pub record Reads : Type 0 where
  pub version : Bool
  pub admin : Bool
  pub settings : Bool
  pub users : UserRow → Bool
  pub devices : DeviceRow → Bool
  pub domain_rules : RuleRow → Bool
  pub sessions : SessionRow → Bool
  pub usage : UsageRow → Bool
  pub audit_query : Bool
  pub audit : AuditRow → Bool

-- The rows that are read, in their order.
unfoldable pub scanned : {R : Type 0} → (R → Bool) → List R → List R
scanned takes [] = []
scanned takes (r ∷ rows) = let rest = scanned takes rows in if takes r then r ∷ rest else rest

-- `for _, v := range m`
abbrev pub values {ℓ} : {V : Type ℓ} → Dict V → List V
values [] = []
values ((k, v) ∷ m) = v ∷ values m

module _ {ℓ} {V : Type ℓ} (key : V → Text) where
  -- The INSERTs of a table with a primary key, behind the rows that are there.
  unfoldable pub insert_rows : List V → List V → Result StoreError (List V)
  insert_rows rows [] = ok rows
  insert_rows rows (v ∷ vs) =
      if any_by (λ w. str_eq (key w) (key v)) rows
      then err write_failed
      else insert_rows (rows ++ v ∷ []) vs

  -- The loop over the rows that fills a map.
  unfoldable pub read_rows : List V → Dict V → Dict V
  read_rows [] m = m
  read_rows (v ∷ vs) m = read_rows vs (Dict.put m (key v) v)

abbrev positive_or : ℤ → ℤ → ℤ
positive_or n default = if ltb_ℤ (pos 0) n then n else default

-- ORDER BY ts DESC
abbrev pub later_row : AuditRow → AuditRow → Bool
later_row a b = ltb (parse_time 0 b.ts) (parse_time 0 a.ts)

module _ (windows : Windows) where
  -- The statements of `persist`; each table is emptied first.
  unfoldable pub tables_of : PolicyData → Result StoreError Tables
  unfolding insert_rows
  tables_of d = do
    users ← insert_rows (λ (r : UserRow). r.id) [] (map (user_row windows) (values d.users))
    devices ← insert_rows (λ (r : DeviceRow). r.id) [] (map device_row (values d.devices))
    rules ← insert_rows (λ (r : RuleRow). r.id) [] (map rule_row d.domain_rules)
    sessions ← insert_rows (λ (r : SessionRow). r.user_id) [] (map session_row (values d.sessions))
    usage ← insert_rows (λ (r : UsageRow). r.user_id) [] (map usage_row (values d.usage))
    audit ← insert_rows (λ (r : AuditRow). r.id) [] (map audit_row d.audit)
    ok (record {
      version = d.version;
      admin = admin_row d.admin;
      settings = d.settings;
      users = users;
      devices = devices;
      domain_rules = rules;
      sessions = sessions;
      usage = usage;
      audit = audit;
    })

  abbrev read_settings : Bool → Settings → Settings → Settings
  read_settings answered start settings =
      if answered
      then record {
        idle_timeout_minutes = positive_or settings.idle_timeout_minutes start.idle_timeout_minutes;
        budget_reset_tz =
            if is_empty settings.budget_reset_tz
            then start.budget_reset_tz
            else settings.budget_reset_tz;
      }
      else start

  -- Without an answer the variables of the administrator keep their zero values.
  abbrev read_admin : Bool → AdminState → AdminRow → AdminState
  read_admin answered start r = if answered then admin_of start r else record start {
    password_hash = [];
    password_salt = [];
    initial_secret = [];
    first_boot = false;
  }

  abbrev pub snapshot_of : Reads → PolicyData → Tables → PolicyData
  snapshot_of reads start t = record {
    version = if reads.version then t.version else start.version;
    admin = read_admin reads.admin start.admin t.admin;
    users = read_rows (λ (u : User). u.id) (map (user_of windows) (scanned reads.users t.users)) [];
    devices = read_rows (λ (d : Device). d.id) (map device_of (scanned reads.devices t.devices)) [];
    domain_rules = map rule_of (scanned reads.domain_rules t.domain_rules);
    sessions =
        read_rows (λ (s : SessionState). s.user_id)
          (map session_of (scanned reads.sessions t.sessions)) [];
    usage =
        read_rows (λ (u : UsageSummary). u.user_id) (map usage_of (scanned reads.usage t.usage)) [];
    settings = read_settings reads.settings start.settings t.settings;
    audit = map audit_of (scanned reads.audit (slice_stable later_row t.audit));
  }

  -- `snapshotUnsafe`, with the secret that `defaultData` draws. Where the query of the audit fails, its
  -- rows are nil, and closing them is a panic: `none`.
  unfoldable pub snapshot_unsafe : Crypto → Text → Reads → Tables → Option PolicyData
  unfolding default_data read_rows scanned
  snapshot_unsafe crypto secret reads t =
      let read = snapshot_of reads (default_data crypto secret) t in
      if reads.audit_query then some read else none

  module _ (commit : PolicyData → Option StoreError) where
    abbrev pub committed : Tables → Tables → Option StoreError → Tables × Option StoreError
    committed t t' none = (t', none)
    committed t t' (some e) = (t, some e)

    abbrev pub persisted :
        PolicyData → Tables → Result StoreError Tables → Tables × Option StoreError
    persisted d t (err e) = (t, some e)
    persisted d t (ok t') = committed t t' (commit d)

    -- `persist`: a transaction, with what the driver may report as `commit`.
    unfoldable pub persist : PolicyData → Tables → Tables × Option StoreError
    persist d t = persisted d t (tables_of d)

    abbrev pub persist_changed :
        Tables → PolicyData × Option StoreError → Tables × Option StoreError
    persist_changed t (d, none) = persist d t
    persist_changed t (d, some e) = (t, some e)

    -- `UpdateMutate`, with `none` for the panic, which leaves the tables as they were.
    unfoldable pub update_tables :
        Crypto
        → Text
        → Reads
        → (PolicyData → PolicyData × Option StoreError)
        → Tables
        → Option (Tables × Option StoreError)
    unfolding persist snapshot_unsafe
    update_tables crypto secret reads fn t =
        Option.map (λ d. persist_changed t (fn d)) (snapshot_unsafe crypto secret reads t)

    -- `SetAdminPassword`, by `setAdmin`
    unfoldable pub set_admin_row :
        Crypto → Text → Reads → Text → Time → Tables → Option (Tables × Option StoreError)
    unfolding update_tables
    set_admin_row crypto secret reads password now =
        update_tables crypto secret reads (λ d. admin_set d (set_admin crypto d.admin password now))

  -- `ValidatePassword`, by `validate`
  unfoldable pub validate_admin_row : Crypto → Text → Reads → Tables → Text → Option Bool
  unfolding snapshot_unsafe
  validate_admin_row crypto secret reads t password =
      Option.map (λ d. validate_password_record crypto d.admin password)
        (snapshot_unsafe crypto secret reads t)
