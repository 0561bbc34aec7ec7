-- ===== src/Tests/Admin.antt =====
-- An administrator with a password, a login with it, and what it allows.
use citadel_dnxproxy.Prelude.{
  ◌*◌, ◌≡◌, refl, subst, ◌≢◌, ◌⊎◌, ◌↔◌, inr, true, false, List, [], ◌∷◌, ◌++◌, none, some, arith,
  str_eq, str_eq_refl,
}
use mathlib.Core.List.{Memᴰ}
use mathlib.Core.Option.{none-ne-some, some-injective}
use citadel_dnxproxy.Prelude.Dict
use citadel_dnxproxy.Clock.{Time, nanoseconds}
use citadel_dnxproxy.Text.{Text, codes, strip_prefix, to_lower, trim_space}
use citadel_dnxproxy.Policy.Types.{Device, no_user}
use citadel_dnxproxy.Policy.Store.{JsonStore}
use citadel_dnxproxy.Policy.Keys.{put-Fits, KeysMatch}
use citadel_dnxproxy.Policy.Password.{Crypto}
use citadel_dnxproxy.Policy.Password.Accepted.{hash_of}
use citadel_dnxproxy.Policy.Snapshot.{populate_user_device_refs, data_snapshot}
use citadel_dnxproxy.Policy.Snapshot.{sort_strings}
use citadel_dnxproxy.Policy.Snapshot.Refs.{ids_of, populate_user_device_refs-ids_of}
use citadel_dnxproxy.Policy.Storage.{
  default_data, load_or_init_json, set_admin_password, validate_password, save,
}
use citadel_dnxproxy.Policy.Storage.Passwords.{
  HasPassword, set_admin_password-validate_password, load_or_init_json-validate_password,
}
use citadel_dnxproxy.Admin.{
  Server, Method, Request, Draws, UserBody, Json, Env, new, write_json, policy_data,
}
use citadel_dnxproxy.Admin.Sessions.{auth, bearer_token, open_on_first_boot}
use citadel_dnxproxy.Admin.Access.{IsAdmitted, IsRefused, with_token, auth-IsAdmitted}
use citadel_dnxproxy.Admin.Users.{
  assign_devices, clear_assignments, changed_user, update_user, delete_user,
}
use citadel_dnxproxy.Admin.Keys.{run-KeysMatch}
use citadel_dnxproxy.Admin.Ownership.{owner, update_user-owner, delete_user-owner}
use citadel_dnxproxy.Admin.Routes.{handle, handled, route, get_policy}
use citadel_dnxproxy.Admin.Runs.{Call, run}
use citadel_dnxproxy.Admin.Runs.Logins.{LoggedIn, Grants, handled-LoggedIn}
use citadel_dnxproxy.Admin.FirstBoot.{AsksLogin, AsksPassword, set_password-get_policy}
use citadel_dnxproxy.Tests.Samples.{empty_data, child, tablet, disk_ok, store}

-- Hashes in the clear.
abbrev pub zeros : Text
zeros =
    0 ∷ 0 ∷ 0 ∷ 0 ∷ 0 ∷ 0 ∷ 0 ∷ 0 ∷ 0 ∷ 0 ∷ 0 ∷ 0 ∷ 0 ∷ 0 ∷ 0 ∷ 0 ∷ 0 ∷ 0 ∷ 0 ∷ 0 ∷ 0 ∷ 0 ∷ 0 ∷ 0
    ∷ 0 ∷ 0 ∷ 0 ∷ 0 ∷ 0 ∷ 0 ∷ 0 ∷ 0 ∷ []

pub plain_prefix :
    (password hash : Text)
    → some (codes "$2" ++ password) ≡ some hash
    → (rest : Text) × (strip_prefix (codes "$2") hash ≡ some rest)
unfolding strip_prefix
plain_prefix password hash e =
    subst (λ h. (rest : Text) × (strip_prefix (codes "$2") h ≡ some rest)) (some-injective _ _ e)
      (password, refl)

pub plain_compare :
    (password hash : Text)
    → some (codes "$2" ++ password) ≡ some hash
    → str_eq hash (codes "$2" ++ password) ≡ true
plain_compare password hash e =
    subst (λ h. str_eq h (codes "$2" ++ password) ≡ true) (some-injective _ _ e)
      (str_eq_refl (codes "$2" ++ password))

abbrev pub crypto : Crypto
crypto = record {
  sha256 = λ s. zeros;
  sha256-length = λ s. refl;
  generate = λ password. some (codes "$2" ++ password);
  compare = λ hash password. str_eq hash (codes "$2" ++ password);
  generate-prefix = plain_prefix;
  generate-compare = plain_compare;
}

-- A body is the password itself, or a user with the tablet.
abbrev json : Json
json = record {
  credentials = λ body. some (record { username = codes "admin"; password = body });
  password = λ body. some body;
  user = λ body. some (record {
    user = record no_user { name = body; device_ids = codes "d1" ∷ [] };
    nil_windows = true;
    nil_devices = false;
  });
  device = λ body. some tablet;
  domain_rule = λ body. none;
}

abbrev env : Env
env = record { json = json; crypto = crypto; write = disk_ok }

abbrev draws_at : Time → Text → Draws
draws_at now id = record { now = now; id = id; session_id = codes "s" ++ id; csrf = codes "c" }

abbrev request : Method → Text → Text → Text → Request
request method path authorization body = record {
  method = method;
  path = path;
  authorization = authorization;
  cookie = none;
  csrf_token = [];
  body = body;
}

abbrev log_in : Request
log_in = request Method.post (codes "/login") [] (codes "secret")

abbrev remove_child : Request
remove_child = request Method.delete (codes "/users/u1") (codes "Bearer t1") []

abbrev read_policy : Request
read_policy = request Method.get (codes "/policy") (codes "Bearer t1") []

abbrev new_password : Request
new_password = request Method.post (codes "/admin/password") (codes "Bearer t0") (codes "secret")

-- A server with one token.
abbrev held : Server
held = record {
  store = store;
  token_ttl = 3600 * nanoseconds;
  session_ttl = 12 * 3600 * nanoseconds;
  tokens = (codes "t0", 100) ∷ [];
  sessions = [];
  logged_seed = false;
  changes = 0;
}

auth-IsAdmitted_example :
    (IsAdmitted 50 read_policy held
      × (auth (get_policy read_policy) 50 read_policy held ≡ get_policy read_policy held))
    ⊎ ((¬ (IsAdmitted 50 read_policy held))
        × IsRefused held (auth (get_policy read_policy) 50 read_policy held))
auth-IsAdmitted_example = auth-IsAdmitted (get_policy read_policy) 50 read_policy held

abbrev calls : List Call
calls = record { draws = draws_at 10 (codes "t1"); request = log_in } ∷ []

handled-LoggedIn_example :
    let s = run env calls (new store) in
    ((handled env (draws_at 20 []) remove_child s).store ≡ s.store)
    ⊎ (IsAdmitted 20 remove_child s × LoggedIn env (Grants 20 remove_child) calls (new store))
handled-LoggedIn_example = handled-LoggedIn env store calls (draws_at 20 []) remove_child

no_entries {ℓ} : {V : Type ℓ} (k : Text) (v : V) → Dict.get [] k ≡ some v → ⊥
unfolding Dict.get
no_entries k v e = none-ne-some v e

pub sample-KeysMatch : KeysMatch empty_data
unfolding Dict.put
sample-KeysMatch = record {
  users = put-Fits (λ u. u.id) [] (codes "u1") child (λ k v e. absurd (no_entries k v e)) refl;
  devices =
      put-Fits (λ dev. dev.id) [] (codes "d1") tablet (λ k v e. absurd (no_entries k v e)) refl;
}

run-KeysMatch_example : KeysMatch (run env calls held).store.contents
run-KeysMatch_example = run-KeysMatch env calls held sample-KeysMatch

abbrev with_tablet : UserBody
with_tablet = record {
  user = record no_user { device_ids = codes "d1" ∷ [] };
  nil_windows = true;
  nil_devices = false;
}

update_user-owner_example :
    let (d', e) = update_user (codes "u1") with_tablet 5 empty_data in
    (owner d'.devices (codes "d1") ≡ some (codes "u1")) ↔ Memᴰ (codes "d1") (codes "d1" ∷ [])
unfolding update_user assign_devices clear_assignments changed_user Dict.get Dict.put
    Dict.map_values
update_user-owner_example =
    update_user-owner (codes "u1") with_tablet 5 empty_data (codes "d1") sample-KeysMatch (λ e. cc)
      refl refl

delete_user-owner_example :
    let (d', e) = delete_user (codes "u1") 5 empty_data in
    (Dict.get d'.users (codes "u1") ≡ none)
    × ((k : Text) → codes "u1" ≢ k → Dict.get d'.users k ≡ Dict.get empty_data.users k)
    × ((k : Text) → owner d'.devices k ≢ some (codes "u1"))
    × ((k : Text) (dev : Device)
        → Dict.get empty_data.devices k ≡ some dev
        → dev.user_id ≢ codes "u1"
        → Dict.get d'.devices k ≡ some dev)
delete_user-owner_example = delete_user-owner (codes "u1") 5 empty_data (λ e. cc)

held-IsAdmitted : IsAdmitted 50 new_password held
unfolding data_snapshot populate_user_device_refs open_on_first_boot bearer_token strip_prefix
    to_lower trim_space Dict.get
held-IsAdmitted = record {
  boot = λ e. refl;
  access = with_token (codes "t0") 100 refl refl (omega arith);
}

asks_password : AsksPassword env (codes "secret") new_password
unfolding route strip_prefix
asks_password = record { path = refl; method = refl; body = refl; nonempty = refl }

asks_login : AsksLogin env (codes "secret") log_in
unfolding route strip_prefix
asks_login = record {
  path = refl;
  method = refl;
  credentials = record { username = codes "admin"; password = codes "secret" };
  body = refl;
  username = inr refl;
  same_password = refl;
}

set_password-get_policy_example :
    let s2 =
      handled env
        (draws_at 60 (codes "t1"))
        log_in
        (handled env (draws_at 50 []) new_password held) in
    handle env (draws_at 70 []) read_policy s2
    ≡ some (s2, write_json 200 (policy_data (populate_user_device_refs (data_snapshot s2.store))))
unfolding route strip_prefix bearer_token to_lower trim_space
set_password-get_policy_example =
    set_password-get_policy env held (codes "secret") (codes "$2secret") (draws_at 50 [])
      (draws_at 60 (codes "t1")) (draws_at 70 []) new_password log_in read_policy refl
      held-IsAdmitted asks_password asks_login refl refl refl (omega arith)

set_admin_password-validate_password_example :
    let (s', e) = set_admin_password disk_ok crypto (codes "secret") 9 store in
    ((crypto.generate (codes "secret") ≡ none) × (s' ≡ store) × (e ≢ none))
    ⊎ HasPassword disk_ok crypto (codes "secret") store s' e
set_admin_password-validate_password_example =
    set_admin_password-validate_password disk_ok crypto (codes "secret") 9 store

abbrev fresh : JsonStore
fresh = record {
  contents = default_data crypto (codes "seed");
  file = some (default_data crypto (codes "seed"));
}

load_or_init_json-validate_password_example :
    (validate_password crypto fresh (codes "seed") ≡ true) ↔ (
      (hash_of crypto (codes "seed") ≡ hash_of crypto (codes "admin"))
      ⊎ ((codes "seed" ≢ []) × (codes "seed" ≡ codes "seed")))
unfolding load_or_init_json save
load_or_init_json-validate_password_example =
    load_or_init_json-validate_password disk_ok crypto (codes "seed") (λ bytes. none) fresh
      (codes "seed") refl

populate_user_device_refs-ids_of_example :
    Dict.get (populate_user_device_refs empty_data).users (codes "u1")
    ≡ some (record child { device_ids = sort_strings (ids_of (codes "u1") empty_data.devices) })
unfolding Dict.get
populate_user_device_refs-ids_of_example =
    populate_user_device_refs-ids_of empty_data (codes "u1") child (refl, tt) refl refl
