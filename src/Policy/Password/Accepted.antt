-- ===== src/Policy/Password/Accepted.antt =====
-- Which passwords are accepted.
use citadel_dnxproxy.Prelude.{
  ◌≡◌, refl, ◌∙◌, ◌↔◌, ◌⊎◌, inl, inr, Bool, true, false, none, some, [], ◌∷◌, ◌++◌, arith,
  if◌then◌else◌, str_eq, str_eq_iff, subst, length, ◌≢◌, Option-cases,
}
use citadel_dnxproxy.Clock.{Time}
use citadel_dnxproxy.Text.{Text, codes, strip_prefix, is_empty}
use mathlib.Core.Option.{some-injective, none-ne-some}
use citadel_dnxproxy.Policy.Types.{AdminState}
use citadel_dnxproxy.Policy.Password.{
  Crypto, validate_password_record, set_admin, default_admin, is_initial_secret,
  default_admin_creds, encode_to_string, decode_string,
}

strip_prefix-nonempty :
    (hash rest : Text) → strip_prefix (codes "$2") hash ≡ some rest → is_empty hash ≡ false
unfolding strip_prefix
strip_prefix-nonempty [] rest h = cc
strip_prefix-nonempty (c ∷ s) rest h = refl

-- Hexadecimal text does not begin with a dollar sign.
strip_prefix-hex : (s : Text) → strip_prefix (codes "$2") (encode_to_string s) ≡ none
unfolding strip_prefix encode_to_string
strip_prefix-hex [] = refl
strip_prefix-hex (b ∷ s) = ground arith

encode_to_string-nonempty : (s : Text) → length s ≡ 32 → is_empty (encode_to_string s) ≡ false
unfolding encode_to_string
encode_to_string-nonempty [] h = absurd (omega (arith, h))
encode_to_string-nonempty (b ∷ s) h = refl

either :
    {A B : Type 0} {a b : Bool}
    → ((a ≡ true) ↔ A)
    → ((b ≡ true) ↔ B)
    → ((if a then true else b) ≡ true) ↔ (A ⊎ B)
either h k = ground arith

module _ (crypto : Crypto) where
  bcrypt-compare :
      (admin : AdminState) (rest other : Text)
      → strip_prefix (codes "$2") admin.password_hash ≡ some rest
      → validate_password_record crypto admin other ≡ crypto.compare admin.password_hash other
  unfolding validate_password_record
  bcrypt-compare admin rest other h = rw (strip_prefix-nonempty admin.password_hash rest h, h) refl

  -- What an administrator whose password was set accepts.
  pub record HasHash (password : Text) (admin : AdminState) : Type 0 where
    pub accepted : validate_password_record crypto admin password ≡ true
    pub first_boot : admin.first_boot ≡ false
    pub no_secret : admin.initial_secret ≡ []
    pub only_bcrypt :
        (other : Text)
        → validate_password_record crypto admin other ≡ crypto.compare admin.password_hash other

  hashed-HasHash :
      (password hash : Text) (now : Time)
      → crypto.generate password ≡ some hash
      → HasHash password (record {
        password_hash = hash;
        password_salt = [];
        initial_secret = [];
        first_boot = false;
        updated_at = now;
      })
  hashed-HasHash password hash now e =
      let (rest, p) = crypto.generate-prefix password hash e in
      record {
        accepted = bcrypt-compare _ rest password p ∙ crypto.generate-compare password hash e;
        first_boot = refl;
        no_secret = refl;
        only_bcrypt = λ other. bcrypt-compare _ rest other p;
      }

  pub set_admin-HasHash :
      (admin admin' : AdminState) (password : Text) (now : Time)
      → set_admin crypto admin password now ≡ some admin'
      → HasHash password admin'
  unfolding set_admin
  set_admin-HasHash admin admin' password now h = elim (Option-cases (crypto.generate password)) [
    | inl e ↦ absurd (none-ne-some _ (rw e at h))
    | inr (hash, e) ↦
        subst (HasHash password) (some-injective _ _ (rw e at h))
          (hashed-HasHash password hash now e)
  ]

  default_salt : decode_string (default_admin_creds crypto).0 ≡ some (codes "default-admin-salt")
  unfolding default_admin_creds decode_string encode_to_string
  default_salt = refl

  abbrev pub hash_of : Text → Text
  hash_of password = encode_to_string (crypto.sha256 (codes "default-admin-salt" ++ password))

  default_admin-legacy :
      (secret password : Text)
      → validate_password_record crypto (default_admin crypto secret) password ≡ (
          if str_eq (hash_of password) (hash_of (codes "admin"))
          then true
          else is_initial_secret crypto (default_admin crypto secret) password)
  unfolding validate_password_record default_admin default_admin_creds
  default_admin-legacy secret password =
      let hashed = crypto.sha256 (codes "default-admin-salt" ++ codes "admin") in
      let nonempty = encode_to_string-nonempty hashed (crypto.sha256-length _) in
      rw (nonempty, strip_prefix-hex hashed, default_salt) refl

  initial_secret_iff :
      (secret password : Text)
      → (is_initial_secret crypto (default_admin crypto secret) password ≡ true)
        ↔ ((secret ≢ []) × (password ≡ secret))
  unfolding default_admin
  initial_secret_iff [] password = (λ h. cc, λ h. absurd (h.0 refl))
  initial_secret_iff (c ∷ s) password =
      (λ h. (λ e. cc, (str_eq_iff password (c ∷ s)).0 h), λ h. (str_eq_iff password (c ∷ s)).1 h.1)

  pub default_admin-validate_password_record :
      (secret password : Text)
      → (validate_password_record crypto (default_admin crypto secret) password ≡ true)
        ↔ ((hash_of password ≡ hash_of (codes "admin")) ⊎ ((secret ≢ []) × (password ≡ secret)))
  default_admin-validate_password_record secret password =
      rw (default_admin-legacy secret password) (
        either (str_eq_iff (hash_of password) (hash_of (codes "admin")))
          (initial_secret_iff secret password))
