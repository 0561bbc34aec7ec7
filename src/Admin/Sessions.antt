-- ===== src/Admin/Sessions.antt =====
-- Logging in and out, and `auth`, of internal/adminserver/adminserver.go.
pub mod Cases
use citadel_dnxproxy.Prelude.{
  ℕ, zero, suc, ◌+◌, Bool, true, false, not, ◌&&◌, ◌||◌, List, [], ◌∷◌, Option, none, some, ltb,
  if◌then◌else◌, str_eq,
}
use citadel_dnxproxy.Prelude.Dict
use citadel_dnxproxy.Text.{Text, codes, strip_prefix, to_lower, trim_space, is_empty}
use citadel_dnxproxy.Clock.{Time}
use citadel_dnxproxy.Policy.Types.{AdminState}
use citadel_dnxproxy.Policy.Password.{is_default_admin}
use citadel_dnxproxy.Policy.Snapshot.{data_snapshot}
use citadel_dnxproxy.Policy.Storage.{validate_password, set_admin_password}
use citadel_dnxproxy.Admin.{
  Session, Server, Method, get, head, post, Request, Draws, Credentials, Body, status_ok, logged_in,
  Reply, write_json, write_error, concluded, Env,
}

abbrev pub not_allowed : Reply
not_allowed = write_error 405 (codes "method not allowed")

abbrev pub invalid_json : Reply
invalid_json = write_error 400 (codes "invalid json")

-- `if r.Method != http.MethodPost { … return }`
abbrev pub post_only : Method → Server → Server × Reply → Server × Reply
post_only post s out = out
post_only _ s out = (s, not_allowed)

abbrev done_ok : Reply
done_ok = write_json 200 status_ok

-- `health`
unfoldable pub health : Server → Server × Reply
health s = (s, done_ok)

-- A token for an hour, and a session for twelve.
unfoldable pub granted : Draws → Server → Server
granted draws s = record s {
  tokens = Dict.put s.tokens draws.id (draws.now + s.token_ttl);
  sessions =
      Dict.put s.sessions draws.session_id (record {
        expires = draws.now + s.session_ttl;
        csrf = draws.csrf;
        username = codes "admin";
      });
}

module _ (env : Env) (draws : Draws) where
  -- `must_change`
  abbrev must_change : AdminState → Bool
  must_change admin =
      admin.first_boot || is_default_admin env.crypto admin || not (is_empty admin.initial_secret)

  abbrev granted_reply : AdminState → Reply
  granted_reply admin = record {
    status = 200;
    body = logged_in draws.id draws.csrf admin.first_boot (must_change admin);
    cookie = some draws.session_id;
  }

  -- The tests of the user name and the password.
  unfoldable pub accepts_login : Server → Option Credentials → Bool
  accepts_login s none = false
  accepts_login s (some c) =
      (is_empty c.username || str_eq c.username (codes "admin"))
      && validate_password env.crypto s.store c.password

  abbrev pub login_with : Server → Option Credentials → Server × Reply
  login_with s none = (s, invalid_json)
  login_with s (some c) =
      if accepts_login s (some c)
      then (granted draws s, granted_reply (data_snapshot s.store).admin)
      else (s, write_error 401 (codes "invalid credentials"))

  unfoldable pub login : Request → Server → Server × Reply
  unfolding accepts_login granted
  login r s = post_only r.method s (login_with s (env.json.credentials r.body))

  abbrev pub set_to : Server → Option Text → Server × Reply
  set_to s none = (s, invalid_json)
  set_to s (some password) =
      if is_empty password
      then (s, write_error 400 (codes "password required"))
      else concluded 500 done_ok s
          (set_admin_password env.write env.crypto password draws.now s.store)

  -- `setPassword`
  unfoldable pub set_password : Request → Server → Server × Reply
  set_password r s = post_only r.method s (set_to s (env.json.password r.body))

abbrev pub without_session : Option Text → Server → Server
without_session none s = s
without_session (some c) s = record s { sessions = Dict.delete s.sessions c }

unfoldable pub logout : Request → Server → Server × Reply
logout r s =
    post_only r.method s
      (without_session r.cookie s, record { status = 200; body = status_ok; cookie = some [] })

drop : ℕ → Text → Text
drop zero s = s
drop (suc n) [] = []
drop (suc n) (c ∷ s) = drop n s

-- The token of an Authorization header that begins with "bearer ", in any case.
unfoldable pub bearer_token : Text → Option Text
unfolding drop
bearer_token header = elim (strip_prefix (codes "bearer ") (to_lower header)) [
  | none ↦ none
  | some _ ↦ some (trim_space (drop 7 header))
]

abbrev live_token : Time → Text → Server → Option Time → Server × Bool
live_token now token s none = (s, false)
live_token now token s (some exp) =
    if ltb exp now then (record s { tokens = Dict.delete s.tokens token }, false) else (s, true)

-- `validToken`
unfoldable pub valid_token : Time → Text → Server → Server × Bool
valid_token now token s = live_token now token s (Dict.get s.tokens token)

abbrev pub live_session : Time → Text → Server → Option Session → Server × Option Session
live_session now c s none = (s, none)
live_session now c s (some sess) =
    if ltb sess.expires now
    then (record s { sessions = Dict.delete s.sessions c }, none)
    else (s, some sess)

-- `sessionFromRequest`
unfoldable pub session_from_request : Time → Option Text → Server → Server × Option Session
session_from_request now none s = (s, none)
session_from_request now (some c) s = live_session now c s (Dict.get s.sessions c)

abbrev pub reads_only : Method → Bool
reads_only get = true
reads_only head = true
reads_only _ = false

-- The test of the CSRF header against the session.
unfoldable pub csrf_passes : Request → Session → Bool
csrf_passes r sess =
    reads_only r.method || (not (is_empty r.csrf_token) && str_eq r.csrf_token sess.csrf)

-- The paths that stay open on the first boot.
unfoldable pub open_on_first_boot : Text → Bool
open_on_first_boot path =
    str_eq path (codes "/admin/password")
    || str_eq path (codes "/login")
    || str_eq path (codes "/logout")

-- The handler behind `auth`.
abbrev pub Handler : Type 0
Handler = Server → Server × Reply

abbrev pub by_token : Handler → Server × Bool → Server × Reply
by_token next (s, true) = next s
by_token next (s, false) = (s, write_error 401 (codes "invalid token"))

abbrev pub by_session : Handler → Request → Server × Option Session → Server × Reply
by_session next r (s, none) = (s, write_error 401 (codes "missing bearer token"))
by_session next r (s, some sess) =
    if csrf_passes r sess then next s else (s, write_error 403 (codes "csrf required"))

abbrev pub by_header : Handler → Time → Request → Server → Option Text → Server × Reply
by_header next now r s none = by_session next r (session_from_request now r.cookie s)
by_header next now r s (some token) = by_token next (valid_token now token s)

unfoldable pub auth : Handler → Time → Request → Server → Server × Reply
unfolding valid_token session_from_request csrf_passes open_on_first_boot bearer_token
auth next now r s =
    if (data_snapshot s.store).admin.first_boot && not (open_on_first_boot r.path)
    then (s, write_error 403 (codes "change password to continue (first boot)"))
    else by_header next now r s (bearer_token r.authorization)
