-- ===== src/Policy/Storage/Passwords.antt =====
-- Setting the administrator's password, and the password of a new store.
use citadel_dnxproxy.Prelude.{
  ◌≡◌, refl, sym, ◌∙◌, ap, ◌≢◌, ◌⊎◌, ◌↔◌, inl, inr, true, false, Option, none, some, Option-cases,
  subst, [],
}
use mathlib.Core.Option.{some-ne-none}
use citadel_dnxproxy.Clock.{Time}
use citadel_dnxproxy.Text.{Text, codes}
use citadel_dnxproxy.Policy.Types.{PolicyData}
use citadel_dnxproxy.Policy.Store.{StoreError, JsonStore, update_mutate}
use citadel_dnxproxy.Policy.Store.Updates.{update_mutate-file}
use citadel_dnxproxy.Policy.Password.{Crypto, set_admin, validate_password_record}
use citadel_dnxproxy.Policy.Password.Accepted.{
  HasHash, set_admin-HasHash, hash_of, default_admin-validate_password_record,
}
use citadel_dnxproxy.Policy.Storage.{
  set_admin_password, validate_password, admin_set, default_data, load_or_init_json, missing,
  opened, save,
}
use citadel_dnxproxy.Prelude.Result.{ok, err}

-- A store whose administrator has the password, with what the write came to.
pub record HasPassword (write : PolicyData → Option StoreError) (crypto : Crypto) (password : Text)
    (s s' : JsonStore) (e : Option StoreError) : Type 0 where
  pub admin : HasHash crypto password s'.contents.admin
  pub validated : validate_password crypto s' password ≡ true
  pub users : s'.contents.users ≡ s.contents.users
  pub devices : s'.contents.devices ≡ s.contents.devices
  pub error : e ≡ write s'.contents
  pub written : e ≡ none → s'.file ≡ some s'.contents
  pub kept : e ≢ none → s'.file ≡ s.file

module _ (write : PolicyData → Option StoreError) (crypto : Crypto) (password : Text) (now : Time)
    (s : JsonStore) where
  abbrev Ends : JsonStore × Option StoreError → Type 0
  Ends (s', e) =
      ((crypto.generate password ≡ none) × (s' ≡ s) × (e ≢ none))
      ⊎ HasPassword write crypto password s s' e

  refused : crypto.generate password ≡ none → Ends (set_admin_password write crypto password now s)
  unfolding set_admin_password set_admin update_mutate
  refused e = rw e (inl (refl, refl, λ h. some-ne-none _ h))

  hashed :
      (hash : Text)
      → crypto.generate password ≡ some hash
      → Ends (set_admin_password write crypto password now s)
  unfolding set_admin_password set_admin validate_password
  hashed hash e =
      let fn : PolicyData → PolicyData × Option StoreError =
        λ d. admin_set d (set_admin crypto d.admin password now) in
      let made : fn s.contents ≡ (
        record s.contents {
          admin = record {
            password_hash = hash;
            password_salt = [];
            initial_secret = [];
            first_boot = false;
            updated_at = now;
          };
        },
        none,
      ) =
        rw e refl in
      let (same, file) = update_mutate-file write fn s (ap (λ r. r.1) made) in
      let admin = set_admin-HasHash crypto s.contents.admin _ password now (rw e refl) in
      let contents = same ∙ ap (λ r. r.0) made in
      inr (record {
        admin = subst (λ d. HasHash crypto password d.admin) (sym contents) admin;
        validated =
            ap (λ d. validate_password_record crypto d.admin password) contents ∙ admin.accepted;
        users = ap (λ d. d.users) contents;
        devices = ap (λ d. d.devices) contents;
        error = file.0;
        written = file.1;
        kept = file.2;
      })

  -- SetAdminPassword either fails because bcrypt takes no such password, and leaves the store as
  -- it was, or stores a hash: then ValidatePassword accepts the password and compares any other
  -- with the hash by bcrypt alone, the first boot and its secret are over, the users and devices
  -- stay, the error is that of the write, and the file follows the memory exactly if the write
  -- succeeds.
  pub set_admin_password-validate_password :
      let (s', e) = set_admin_password write crypto password now s in
      ((crypto.generate password ≡ none) × (s' ≡ s) × (e ≢ none))
      ⊎ HasPassword write crypto password s s' e
  set_admin_password-validate_password = elim (Option-cases (crypto.generate password)) [
    | inl e ↦ refused e
    | inr (hash, e) ↦ hashed hash e
  ]

err-ne-ok : {e : StoreError} {s : JsonStore} → err e ≢ ok s
err-ne-ok h = cc

opened-ok :
    (write : PolicyData → Option StoreError) (made : JsonStore) (o : Option StoreError)
    (s : JsonStore)
    → opened write (made, o) ≡ ok s
    → made ≡ s
opened-ok write made none s h = cc
opened-ok write made (some e) s h = cc

contents-load_or_init_json :
    (write : PolicyData → Option StoreError) (decode : Text → Option PolicyData) (d : PolicyData)
    (s : JsonStore)
    → load_or_init_json write decode d missing ≡ ok s
    → s.contents ≡ d
unfolding load_or_init_json save
contents-load_or_init_json write decode d s h = elim (Option-cases (write d)) [
  | inl e ↦ sym (ap (λ x. x.contents) (opened-ok write _ none s (rw e at h)))
  | inr (f, e) ↦ absurd (err-ne-ok (rw e at h))
]

-- A store that is opened where there is no file accepts exactly the passwords whose salted hash is
-- that of "admin", and the secret of the first boot where that is not empty.
pub load_or_init_json-validate_password :
    (write : PolicyData → Option StoreError) (crypto : Crypto) (secret : Text)
    (decode : Text → Option PolicyData) (s : JsonStore) (password : Text)
    → load_or_init_json write decode (default_data crypto secret) missing ≡ ok s
    → (validate_password crypto s password ≡ true) ↔ (
        (hash_of crypto password ≡ hash_of crypto (codes "admin"))
        ⊎ ((secret ≢ []) × (password ≡ secret)))
unfolding default_data validate_password
load_or_init_json-validate_password write crypto secret decode s password h =
    let accepts : PolicyData → Type 0 = λ d.
      (validate_password_record crypto d.admin password ≡ true) ↔ (
        (hash_of crypto password ≡ hash_of crypto (codes "admin"))
        ⊎ ((secret ≢ []) × (password ≡ secret))) in
    subst accepts (sym (contents-load_or_init_json write decode (default_data crypto secret) s h))
      (default_admin-validate_password_record crypto secret password)
