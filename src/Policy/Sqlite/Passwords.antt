-- ===== src/Policy/Sqlite/Passwords.antt =====
-- The administrator's password in the database.
use citadel_dnxproxy.Prelude.{
  ◌≡◌, refl, sym, ap, subst, ◌≢◌, ◌⊎◌, inl, inr, true, false, [], Option, none, some, Option-cases,
  Bool-cases,
}
use mathlib.Core.Option.{some-ne-none}
use citadel_dnxproxy.Prelude.Int.{pos}
use citadel_dnxproxy.Clock.{Time}
use citadel_dnxproxy.Text.{Text}
use citadel_dnxproxy.Policy.Types.{AdminState, PolicyData}
use citadel_dnxproxy.Policy.Store.{StoreError}
use citadel_dnxproxy.Policy.Password.{Crypto, set_admin, validate_password_record}
use citadel_dnxproxy.Policy.Password.Accepted.{HasHash, set_admin-HasHash}
use citadel_dnxproxy.Policy.Storage.{admin_set, default_data}
use citadel_dnxproxy.Policy.Columns.{AdminRow, Windows, bool_to_int}
use citadel_dnxproxy.Policy.Sqlite.{
  Tables, Reads, snapshot_of, snapshot_unsafe, persist, persist_changed, update_tables,
  set_admin_row, validate_admin_row,
}
use citadel_dnxproxy.Policy.Sqlite.Rows.{IsWritten, persist-EndsAs}

module _ (windows : Windows) (commit : PolicyData → Option StoreError) (crypto : Crypto)
    (secret password : Text) (reads : Reads) (now : Time) (t : Tables) where
  abbrev pub start : PolicyData
  start = snapshot_of windows reads (default_data crypto secret) t

  abbrev pub Changed : AdminState → PolicyData
  Changed admin = record start { admin = admin }

  -- An error, with its cause.
  abbrev pub Refused : Tables × Option StoreError → Type 0
  Refused (t', e) =
      (t' ≡ t)
      × (e ≢ none)
      × ((crypto.generate password ≡ none)
          ⊎ ((admin : AdminState) × (set_admin crypto start.admin password now ≡ some admin)
              × ((persist windows commit (Changed admin) t).1 ≡ e)))

  abbrev pub Accepts : Tables × Option StoreError → Type 0
  Accepts (t', e) =
      (e ≡ none)
      × (t'.admin.first_boot ≡ pos 0)
      × ((secret' : Text) (reads' : Reads)
          → reads'.admin ≡ true
          → reads'.audit_query ≡ true
          → (validate_admin_row windows crypto secret' reads' t' password ≡ some true)
            × ((other : Text)
                → validate_admin_row windows crypto secret' reads' t' other
                  ≡ some (crypto.compare t'.admin.password_hash other)))

  -- The outcome: `none` is the panic of a snapshot whose query of the audit fails.
  abbrev pub EndsSet : Option (Tables × Option StoreError) → Type 0
  EndsSet none = reads.audit_query ≡ false
  EndsSet (some r) = Refused r ⊎ Accepts r

  written-Accepts :
      (admin : AdminState) (t' : Tables)
      → HasHash crypto password admin
      → IsWritten windows (Changed admin) t'
      → Accepts (t', none)
  unfolding validate_admin_row snapshot_unsafe validate_password_record
  written-Accepts admin t' h w =
      subst (λ (a : AdminRow). Accepts (record t' { admin = a }, none)) (sym w.admin)
        (
          refl,
          ap bool_to_int h.first_boot,
          λ secret' reads' a q.
              rw (a, q) (ap some h.accepted, λ other. ap some (h.only_bcrypt other)),
        )

  changed-outcome :
      (admin : AdminState)
      → set_admin crypto start.admin password now ≡ some admin
      → let r = persist windows commit (Changed admin) t in Refused r ⊎ Accepts r
  changed-outcome admin h = elim (persist-EndsAs windows commit (Changed admin) t) [
    | inl (e, failed) ↦
        inl
          (subst Refused (sym failed) (refl, some-ne-none e, inr (admin, h, ap (λ r. r.1) failed)))
    | inr (t', made, w) ↦ inr (
        subst Accepts (sym made)
          (written-Accepts admin t' (set_admin-HasHash crypto _ admin password now h) w))
  ]

  abbrev changed : Tables × Option StoreError
  changed =
      persist_changed windows commit t (admin_set start (set_admin crypto start.admin password now))

  changed-Ends : Refused changed ⊎ Accepts changed
  unfolding set_admin
  changed-Ends = elim (Option-cases (crypto.generate password)) [
    | inl e ↦ rw e (inl (refl, some-ne-none _, inl refl))
    | inr (hash, e) ↦
        let made : set_admin crypto start.admin password now
            ≡ some (record {
              password_hash = hash;
              password_salt = [];
              initial_secret = [];
              first_boot = false;
              updated_at = now;
            }) =
          rw e refl in
        subst (λ r. Refused r ⊎ Accepts r)
          (sym (ap (λ o. persist_changed windows commit t (admin_set start o)) made))
          (changed-outcome _ made)
  ]

  -- On a database, SetAdminPassword panics only where the query of the audit fails, and otherwise
  -- either reports an error and leaves the tables as they were, because bcrypt takes no such
  -- password or because writing the snapshot with the new administrator fails with that error; or
  -- it reports none: then the first boot is over, and ValidatePassword, where the administrator
  -- and the audit are read, accepts the password and compares any other with the stored hash by
  -- bcrypt alone.
  pub set_admin_row-validate_admin_row :
      EndsSet (set_admin_row windows commit crypto secret reads password now t)
  unfolding set_admin_row update_tables snapshot_unsafe
  set_admin_row-validate_admin_row = elim (Bool-cases reads.audit_query) [
    | inl q ↦ rw q changed-Ends
    | inr q ↦ rw q refl
  ]
