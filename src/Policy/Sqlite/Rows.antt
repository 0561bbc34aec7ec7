-- ===== src/Policy/Sqlite/Rows.antt =====
-- What `persist` writes where it writes.
use citadel_dnxproxy.Prelude.{
  ◌≡◌, refl, sym, ◌∙◌, subst, ◌⊎◌, inl, inr, List, [], ◌∷◌, ◌++◌, Option, none, some, map, any_by,
  Bool-cases, str_eq,
}
use mathlib.Core.List.{append-nil, append_assoc}
use citadel_dnxproxy.Prelude.Result.{Result, ok, err, bind-ok, ok-injective}
use citadel_dnxproxy.Text.{Text}
use citadel_dnxproxy.Policy.Types.{PolicyData}
use citadel_dnxproxy.Policy.Store.{StoreError}
use citadel_dnxproxy.Policy.Columns.{
  UserRow, DeviceRow, RuleRow, SessionRow, UsageRow, AuditRow, Windows, admin_row, user_row,
  device_row, rule_row, session_row, usage_row, audit_row,
}
use citadel_dnxproxy.Policy.Sqlite.{
  Tables, values, insert_rows, tables_of, committed, persisted, persist,
}

-- INSERTs that all succeed leave the rows in their order.
insert_rows-ok :
    {V : Type 0} (key : V → Text) (rows vs made : List V)
    → insert_rows key rows vs ≡ ok made
    → made ≡ rows ++ vs
unfolding insert_rows
insert_rows-ok key rows [] made h = sym (ok-injective rows made h) ∙ sym (append-nil rows)
insert_rows-ok key rows (v ∷ vs) made h =
    elim (Bool-cases (any_by (λ w. str_eq (key w) (key v)) rows)) [
      | inl e ↦ cc (rw e at h)
      | inr e ↦
          insert_rows-ok key (rows ++ v ∷ []) vs made (rw e at h) ∙ append_assoc rows (v ∷ []) vs
    ]

module _ (windows : Windows) where
  pub record IsWritten (d : PolicyData) (t : Tables) : Type 0 where
    pub admin : t.admin ≡ admin_row d.admin
    pub users : t.users ≡ map (user_row windows) (values d.users)
    pub devices : t.devices ≡ map device_row (values d.devices)
    pub domain_rules : t.domain_rules ≡ map rule_row d.domain_rules
    pub sessions : t.sessions ≡ map session_row (values d.sessions)
    pub usage : t.usage ≡ map usage_row (values d.usage)
    pub audit : t.audit ≡ map audit_row d.audit

  tables_of-IsWritten : (d : PolicyData) (t : Tables) → tables_of windows d ≡ ok t → IsWritten d t
  unfolding tables_of
  tables_of-IsWritten d t h =
      let (us, e1, h1) = bind-ok (insert_rows (λ (r : UserRow). r.id) [] _) _ _ h in
      let (ds, e2, h2) = bind-ok (insert_rows (λ (r : DeviceRow). r.id) [] _) _ _ h1 in
      let (rs, e3, h3) = bind-ok (insert_rows (λ (r : RuleRow). r.id) [] _) _ _ h2 in
      let (ss, e4, h4) = bind-ok (insert_rows (λ (r : SessionRow). r.user_id) [] _) _ _ h3 in
      let (ys, e5, h5) = bind-ok (insert_rows (λ (r : UsageRow). r.user_id) [] _) _ _ h4 in
      let (es, e6, h6) = bind-ok (insert_rows (λ (r : AuditRow). r.id) [] _) _ _ h5 in
      subst (IsWritten d) (ok-injective _ _ h6) (record {
        admin = refl;
        users = insert_rows-ok (λ r. r.id) [] _ us e1;
        devices = insert_rows-ok (λ r. r.id) [] _ ds e2;
        domain_rules = insert_rows-ok (λ r. r.id) [] _ rs e3;
        sessions = insert_rows-ok (λ r. r.user_id) [] _ ss e4;
        usage = insert_rows-ok (λ r. r.user_id) [] _ ys e5;
        audit = insert_rows-ok (λ r. r.id) [] _ es e6;
      })

  module _ (commit : PolicyData → Option StoreError) where
    abbrev pub EndsAs : PolicyData → Tables → Tables × Option StoreError → Type 0
    EndsAs d t r =
        ((e : StoreError) × (r ≡ (t, some e))) ⊎ ((t' : Tables) × (r ≡ (t', none)) × IsWritten d t')

    committed-EndsAs :
        (d : PolicyData) (t t' : Tables) (o : Option StoreError)
        → IsWritten d t'
        → EndsAs d t (committed windows commit t t' o)
    committed-EndsAs d t t' none w = inr (t', refl, w)
    committed-EndsAs d t t' (some e) w = inl (e, refl)

    persisted-EndsAs :
        (d : PolicyData) (t : Tables) (r : Result StoreError Tables)
        → ((t' : Tables) → r ≡ ok t' → IsWritten d t')
        → EndsAs d t (persisted windows commit d t r)
    persisted-EndsAs d t (err e) w = inl (e, refl)
    persisted-EndsAs d t (ok t') w = committed-EndsAs d t t' (commit d) (w t' refl)

    pub persist-EndsAs : (d : PolicyData) (t : Tables) → EndsAs d t (persist windows commit d t)
    unfolding persist
    persist-EndsAs d t = persisted-EndsAs d t (tables_of windows d) (tables_of-IsWritten d)
