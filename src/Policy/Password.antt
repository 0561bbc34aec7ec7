-- ===== src/Policy/Password.antt =====
-- The administrator's password: `validatePasswordRecord`, `IsDefaultAdmin`, `defaultAdminCreds` and
-- `setAdmin` of internal/policy/store.go and sqlite_store.go.
pub mod Accepted
use citadel_dnxproxy.Prelude.{
  ℕ, suc, ◌+◌, ◌-◌, ◌*◌, ◌/◌, ◌%◌, ◌≡◌, Bool, true, false, not, ◌&&◌, ◌||◌, List, [], ◌∷◌, ◌++◌,
  Option, none, some, ltb, leb, if◌then◌else◌, str_eq, length,
}
use citadel_dnxproxy.Prelude.Result.{Result, ok, err, or_err}
use citadel_dnxproxy.Clock.{Time}
use citadel_dnxproxy.Text.{Text, codes, strip_prefix, is_empty}
use citadel_dnxproxy.Policy.Types.{AdminState}

-- golang.org/x/crypto/bcrypt and crypto/sha256. A hash that bcrypt makes of a password begins with
-- "$2", and compares with that password.
pub record Crypto : Type 0 where
  -- 32 bytes
  pub sha256 : Text → Text
  pub sha256-length : (s : Text) → length (sha256 s) ≡ 32
  -- `none` is the error for a password of more than 72 bytes
  pub generate : Text → Option Text
  pub compare : Text → Text → Bool
  pub generate-prefix :
      (password hash : Text)
      → generate password ≡ some hash
      → (rest : Text) × (strip_prefix (codes "$2") hash ≡ some rest)
  pub generate-compare :
      (password hash : Text) → generate password ≡ some hash → compare hash password ≡ true

-- encoding/hex
abbrev hex_digit : ℕ → ℕ
hex_digit n = if ltb n 10 then b'0' + n else b'a' + (n - 10)

unfoldable pub encode_to_string : Text → Text
encode_to_string [] = []
encode_to_string (b ∷ s) = hex_digit (b / 16) ∷ hex_digit (b % 16) ∷ encode_to_string s

abbrev in_range : ℕ → ℕ → ℕ → Bool
in_range lo hi c = leb lo c && leb c hi

abbrev from_hex_char : ℕ → Option ℕ
from_hex_char c =
    if in_range b'0' b'9' c
    then some (c - b'0')
    else if in_range b'a' b'f' c
    then some (c - b'a' + 10)
    else if in_range b'A' b'F' c
    then some (c - b'A' + 10)
    else none

abbrev join_byte : Option ℕ → Option ℕ → Option Text → Option Text
join_byte (some hi) (some lo) (some s) = some ((hi * 16 + lo) ∷ s)
join_byte _ _ _ = none

unfoldable pub decode_string : Text → Option Text
decode_string [] = some []
decode_string (c ∷ []) = none
decode_string (c ∷ d ∷ s) = join_byte (from_hex_char c) (from_hex_char d) (decode_string s)

abbrev salt_bytes : Text
salt_bytes = codes "default-admin-salt"

module _ (crypto : Crypto) where
  open crypto use {sha256, generate, compare}

  -- The salt and the hash.
  unfoldable pub default_admin_creds : Text × Text
  unfolding encode_to_string
  default_admin_creds =
      (encode_to_string salt_bytes, encode_to_string (sha256 (salt_bytes ++ codes "admin")))

  unfoldable pub is_default_admin : AdminState → Bool
  unfolding default_admin_creds
  is_default_admin admin =
      if is_empty admin.password_hash && is_empty admin.password_salt
      then true
      else str_eq admin.password_hash default_admin_creds.1
        && str_eq admin.password_salt default_admin_creds.0

  -- The last test: the initial secret of the first boot.
  abbrev pub is_initial_secret : AdminState → Text → Bool
  is_initial_secret admin password =
      not (is_empty admin.initial_secret) && str_eq password admin.initial_secret

  -- The legacy hash, with the decoded salt.
  abbrev by_sha256 : AdminState → Text → Option Text → Bool
  by_sha256 admin password none = false
  by_sha256 admin password (some salt) =
      if str_eq (encode_to_string (sha256 (salt ++ password))) admin.password_hash
      then true
      else is_initial_secret admin password

  -- A bcrypt hash (one with the prefix "$2"), or a legacy hash.
  abbrev by_prefix : AdminState → Text → Option Text → Bool
  by_prefix admin password (some rest) = compare admin.password_hash password
  by_prefix admin password none =
      if is_empty admin.password_salt
      then false
      else by_sha256 admin password (decode_string admin.password_salt)

  unfoldable pub validate_password_record : AdminState → Text → Bool
  validate_password_record admin password =
      if is_empty admin.password_hash
      then false
      else by_prefix admin password (strip_prefix (codes "$2") admin.password_hash)

  abbrev with_hash : AdminState → Time → Option Text → Option AdminState
  with_hash admin now none = none
  with_hash admin now (some hash) = some (record {
    password_hash = hash;
    password_salt = [];
    initial_secret = [];
    first_boot = false;
    updated_at = now;
  })

  -- The mutation of `SetAdminPassword`, with none for the error of bcrypt.
  unfoldable pub set_admin : AdminState → Text → Time → Option AdminState
  set_admin admin password now = with_hash admin now (generate password)

  -- The administrator of `defaultData`, with the secret that `randomSecret` drew.
  unfoldable pub default_admin : Text → AdminState
  unfolding default_admin_creds
  default_admin secret = record {
    password_hash = default_admin_creds.1;
    password_salt = default_admin_creds.0;
    initial_secret = secret;
    first_boot = true;
    updated_at = 0;
  }
