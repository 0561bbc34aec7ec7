-- ===== src/Policy/Sqlite/RoundTrip.antt =====
-- What is read back of the tables.
use citadel_dnxproxy.Prelude.{
  Bool, true, ◌≡◌, refl, sym, ◌∙◌, ap, subst, inl, inr, List, [], ◌∷◌, Option, none, some, map,
  Bool-cases, str_eq, str_eq_iff, str_eq_refl,
}
use mathlib.Core.Path.{ap₂}
use mathlib.Core.List.{map-id}
use mathlib.Core.Option
use mathlib.Core.Option.{none-ne-some, some-ne-none, some-injective}
use citadel_dnxproxy.Prelude.Dict
use citadel_dnxproxy.Prelude.Dict.{Dict}
use citadel_dnxproxy.Text.{Text}
use citadel_dnxproxy.Policy.Keys.{Fits}
use citadel_dnxproxy.Policy.Snapshot.Refs.{HasKeysOnce}
use citadel_dnxproxy.Policy.Store.{StoreError}
use citadel_dnxproxy.Policy.Columns.{
  UserRow, DeviceRow, RuleRow, SessionRow, UsageRow, AuditRow, Windows, user_row, user_of,
  device_row, device_of, rule_row, rule_of, session_row, session_of, usage_row, usage_of, audit_row,
  audit_of,
}
use citadel_dnxproxy.Policy.Columns.Kept.{
  kept_user, kept_device, kept_session, kept_event, kept_admin, later_event, device_of-device_row,
  session_of-session_row, admin_of-admin_row,
}
use citadel_dnxproxy.Policy.Storage.{default_data}
use citadel_dnxproxy.Policy.Sqlite.{
  Tables, Reads, values, read_rows, scanned, later_row, snapshot_of, snapshot_unsafe, persist,
}
use citadel_dnxproxy.Policy.Types.{User, Device, SessionState, UsageSummary, PolicyData}
use citadel_dnxproxy.Policy.Password.{Crypto}
use citadel_dnxproxy.Rules.Sort.{slice_stable, map-slice_stable}
use citadel_dnxproxy.Policy.Sqlite.Rows.{IsWritten, persist-EndsAs}

module _ {V : Type 0} (key : V → Text) where
  tail-Fits :
      (k : Text) (v : V) (m : Dict V)
      → HasKeysOnce ((k, v) ∷ m)
      → Fits key ((k, v) ∷ m)
      → Fits key m
  unfolding Dict.get
  tail-Fits k v m h f j w g = elim (Bool-cases (str_eq k j)) [
    | inl e ↦ absurd (none-ne-some _ (sym h.0 ∙ ap (Dict.get m) ((str_eq_iff k j).0 e) ∙ g))
    | inr e ↦ f j w (rw e g)
  ]

  abbrev first_of : Option V → Option V → Option V
  first_of none p = p
  first_of (some v) p = some v

  first_of-none : (p : Option V) → first_of p none ≡ p
  first_of-none none = refl
  first_of-none (some v) = refl

  -- The rows of a map, read back over another.
  read_rows-values :
      (f : V → V) (m acc : Dict V) (k : Text)
      → ((v : V) → key (f v) ≡ key v)
      → HasKeysOnce m
      → Fits key m
      → Dict.get (read_rows key (map f (values m)) acc) k
        ≡ first_of (Option.map f (Dict.get m k)) (Dict.get acc k)
  unfolding read_rows Dict.get
  read_rows-values f [] acc k same h fit = refl
  read_rows-values f ((j, v) ∷ m) acc k same h fit =
      let stored = same v ∙ fit j v (rw (str_eq_refl j) refl) in
      read_rows-values f m _ k same h.1 (tail-Fits j v m h fit) ∙ elim (Bool-cases (str_eq j k)) [
        | inl e ↦
            rw
              (
                e,
                Dict.get-put acc (key (f v)) k (f v),
                stored,
                e,
                ap (Dict.get m) (sym ((str_eq_iff j k).0 e)) ∙ h.0,
              )
              refl
        | inr e ↦ rw (e, Dict.get-put acc (key (f v)) k (f v), stored, e) refl
      ]

module _ {A B C : Type 0} (f : A → B) (g : B → C) (h : A → C) where
  map-map : ((a : A) → g (f a) ≡ h a) → (xs : List A) → map g (map f xs) ≡ map h xs
  map-map same [] = refl
  map-map same (x ∷ xs) = ap₂ ◌∷◌ (same x) (map-map same xs)

scanned-all :
    {R : Type 0} (takes : R → Bool) (rows : List R)
    → ((r : R) → takes r ≡ true)
    → scanned takes rows ≡ rows
unfolding scanned
scanned-all takes [] all = refl
scanned-all takes (r ∷ rows) all = rw (all r) (ap (◌∷◌ r) (scanned-all takes rows all))

read-read_rows :
    {V : Type 0} (key : V → Text) (kept : V → V) (m : Dict V) (made : List V)
    → ((v : V) → key (kept v) ≡ key v)
    → HasKeysOnce m × Fits key m
    → made ≡ map kept (values m)
    → (k : Text) → Dict.get (read_rows key made []) k ≡ Option.map kept (Dict.get m k)
unfolding Dict.get
read-read_rows key kept m made same keyed e k =
    ap (λ r. Dict.get (read_rows key r []) k) e
    ∙ read_rows-values key kept m [] k same keyed.0 keyed.1
    ∙ first_of-none key _

-- The maps have a key once, and hold every value under the column of its primary key.
pub record IsKeyed (d : PolicyData) : Type 0 where
  pub users : HasKeysOnce d.users × Fits (λ (u : User). u.id) d.users
  pub devices : HasKeysOnce d.devices × Fits (λ (r : Device). r.id) d.devices
  pub sessions : HasKeysOnce d.sessions × Fits (λ (s : SessionState). s.user_id) d.sessions
  pub usage : HasKeysOnce d.usage × Fits (λ (u : UsageSummary). u.user_id) d.usage

-- Every query is answered, and every row scanned.
pub record AreReliable (reads : Reads) : Type 0 where
  pub admin : reads.admin ≡ true
  pub users : (r : UserRow) → reads.users r ≡ true
  pub devices : (r : DeviceRow) → reads.devices r ≡ true
  pub domain_rules : (r : RuleRow) → reads.domain_rules r ≡ true
  pub sessions : (r : SessionRow) → reads.sessions r ≡ true
  pub usage : (r : UsageRow) → reads.usage r ≡ true
  pub audit_query : reads.audit_query ≡ true
  pub audit : (r : AuditRow) → reads.audit r ≡ true

module _ (windows : Windows) where
  -- The windows of the users can be read from their JSON.
  abbrev pub HasReadableWindows : Dict User → Type 0
  HasReadableWindows [] = Unit
  HasReadableWindows ((k, u) ∷ m) =
      (windows.decode (windows.encode u.allow_windows) ≡ u.allow_windows) × HasReadableWindows m

  users_of-user_rows :
      (m : Dict User)
      → HasReadableWindows m
      → map (user_of windows) (map (user_row windows) (values m)) ≡ map kept_user (values m)
  users_of-user_rows [] json = refl
  users_of-user_rows ((k, u) ∷ m) json = rw (json.0, users_of-user_rows m json.1) refl

  module _ (commit : PolicyData → Option StoreError) (crypto : Crypto) (secret : Text)
      (reads : Reads) where
    abbrev pub ReadBack : PolicyData → PolicyData → Type 0
    ReadBack d back =
        ((k : Text) → Dict.get back.users k ≡ Option.map kept_user (Dict.get d.users k))
        × ((k : Text) → Dict.get back.devices k ≡ Option.map kept_device (Dict.get d.devices k))
        × ((k : Text) → Dict.get back.sessions k ≡ Option.map kept_session (Dict.get d.sessions k))
        × ((k : Text) → Dict.get back.usage k ≡ Dict.get d.usage k)
        × (back.domain_rules ≡ d.domain_rules)
        × (back.admin ≡ kept_admin d.admin)
        × (back.audit ≡ slice_stable later_event (map kept_event d.audit))

    IsWritten-ReadBack :
        (d start : PolicyData) (t : Tables)
        → IsKeyed d
        → HasReadableWindows d.users
        → AreReliable reads
        → IsWritten windows d t
        → ReadBack d (snapshot_of windows reads start t)
    IsWritten-ReadBack d start t keyed json all w = (
      read-read_rows (λ (u : User). u.id) kept_user d.users _ (λ _. refl) keyed.users
          (ap (map (user_of windows)) (scanned-all reads.users _ all.users ∙ w.users)
            ∙ users_of-user_rows d.users json),
      read-read_rows (λ (r : Device). r.id) kept_device d.devices _ (λ _. refl) keyed.devices
          (ap (map device_of) (scanned-all reads.devices _ all.devices ∙ w.devices)
            ∙ map-map device_row device_of kept_device device_of-device_row (values d.devices)),
      read-read_rows (λ (r : SessionState). r.user_id) kept_session d.sessions _ (λ _. refl)
          keyed.sessions
          (ap (map session_of) (scanned-all reads.sessions _ all.sessions ∙ w.sessions)
            ∙ map-map session_row session_of kept_session session_of-session_row
                (values d.sessions)),
      (λ k.
          read-read_rows (λ (r : UsageSummary). r.user_id) (λ u. u) d.usage _ (λ _. refl)
            keyed.usage
            (ap (map usage_of) (scanned-all reads.usage _ all.usage ∙ w.usage)
              ∙ map-map usage_row usage_of (λ u. u) (λ _. refl) (values d.usage))
            k
          ∙ ap (λ f. f (Dict.get d.usage k)) Option.map-id),
      ap (map rule_of) (scanned-all reads.domain_rules _ all.domain_rules ∙ w.domain_rules)
          ∙ map-map rule_row rule_of (λ r. r) (λ _. refl) d.domain_rules
          ∙ map-id d.domain_rules,
      rw (all.admin, w.admin) (admin_of-admin_row start.admin d.admin),
      ap (map audit_of) (scanned-all reads.audit _ all.audit)
          ∙ map-slice_stable audit_of later_row later_event (λ _ _. refl) t.audit
          ∙ ap (λ rows. slice_stable later_event (map audit_of rows)) w.audit
          ∙ ap (slice_stable later_event)
              (map-map audit_row audit_of kept_event (λ _. refl) d.audit),
    )

    -- On data whose maps have a key once and hold their values under their ids, and whose windows
    -- can be read from their JSON, after a `persist` without an error a snapshot, where every
    -- query is answered and every row scanned, finds under each key the user, device and session
    -- with its times in whole seconds, and the usage; a user is without the lists that are
    -- computed. The domain rules are in their order, the administrator is the one that was
    -- written, with whole seconds too, and the audit is sorted by time, the latest first.
    pub persist-snapshot_unsafe :
        (d : PolicyData) (t : Tables)
        → IsKeyed d
        → HasReadableWindows d.users
        → AreReliable reads
        → (persist windows commit d t).1 ≡ none
        → (back : PolicyData) × (snapshot_unsafe windows crypto secret reads
              (persist windows commit d t).0
            ≡ some back)
          × ReadBack d back
    unfolding snapshot_unsafe
    persist-snapshot_unsafe d t keyed json all h = elim (persist-EndsAs windows commit d t) [
      | inl (e, failed) ↦ absurd (some-ne-none e (ap (λ r. r.1) (sym failed) ∙ h))
      | inr (t', made, w) ↦ (
        snapshot_of windows reads (default_data crypto secret) (persist windows commit d t).0,
        rw all.audit_query refl,
        IsWritten-ReadBack d (default_data crypto secret) _ keyed json all
            (subst (IsWritten windows d) (ap (λ r. r.0) (sym made)) w),
      )
    ]
