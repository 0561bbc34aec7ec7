-- ===== src/Admin/Access.antt =====
-- Which requests `auth` lets through.
use citadel_dnxproxy.Prelude.{
  ◌≡◌, refl, sym, ap, ◌∙◌, subst, ◌≤◌, ◌<◌, ◌≢◌, ◌⊎◌, ◌↔◌, inl, inr, Bool, true, false, not, ◌&&◌,
  [], ◌∷◌, Option, none, some, arith, str_eq_iff, Bool-cases, Option-cases, true-ne-false,
}
use mathlib.Core.Option.{none-ne-some, some-injective}
use citadel_dnxproxy.Prelude.Dict
use citadel_dnxproxy.Clock.{Time}
use citadel_dnxproxy.Text.{Text, is_empty}
use citadel_dnxproxy.Policy.Snapshot.{data_snapshot}
use citadel_dnxproxy.Admin.{Session, Server, Request, Reply}
use citadel_dnxproxy.Admin.Sessions.Cases.{
  valid_token-cases, session_from_request-cases, by_session-passes, by_session-fails,
}
use citadel_dnxproxy.Admin.Sessions.{
  Handler, bearer_token, reads_only, csrf_passes, open_on_first_boot, valid_token,
  session_from_request, by_token, by_session, by_header, auth,
}

-- A CSRF header that names the session's, on a request that does more than read.
abbrev pub HasCsrf : Request → Session → Type 0
HasCsrf r sess = reads_only r.method ≡ false → (r.csrf_token ≢ []) × (r.csrf_token ≡ sess.csrf)

-- A bearer token that is held and not over, or the cookie of such a session with its CSRF token
-- where the header has no bearer token.
pub data HasAccess (now : Time) (r : Request) (s : Server) : Type 0 where
  with_token :
      (token : Text) (exp : Time)
      → bearer_token r.authorization ≡ some token
      → Dict.get s.tokens token ≡ some exp
      → now ≤ exp
      → HasAccess now r s
  with_session :
      (c : Text) (sess : Session)
      → bearer_token r.authorization ≡ none
      → r.cookie ≡ some c
      → Dict.get s.sessions c ≡ some sess
      → now ≤ sess.expires
      → HasCsrf r sess
      → HasAccess now r s

-- On the first boot only the paths that lead to a password are open.
pub record IsAdmitted (now : Time) (r : Request) (s : Server) : Type 0 where
  pub boot : (data_snapshot s.store).admin.first_boot ≡ true → open_on_first_boot r.path ≡ true
  pub access : HasAccess now r s

-- The store stays, and tokens and sessions are at most forgotten.
pub record IsQuiet (s s' : Server) : Type 0 where
  pub store : s'.store ≡ s.store
  pub changes : s'.changes ≡ s.changes
  pub tokens :
      (t : Text) (exp : Time) → Dict.get s'.tokens t ≡ some exp → Dict.get s.tokens t ≡ some exp
  pub sessions :
      (c : Text) (sess : Session)
      → Dict.get s'.sessions c ≡ some sess
      → Dict.get s.sessions c ≡ some sess
  pub token_ttl : s'.token_ttl ≡ s.token_ttl
  pub session_ttl : s'.session_ttl ≡ s.session_ttl

-- A quiet reply 401 or 403.
pub record IsRefused (s : Server) (out : Server × Reply) : Type 0 where
  pub status : (out.1.status ≡ 401) ⊎ (out.1.status ≡ 403)
  pub quiet : IsQuiet s out.0

-- Through, to the next handler on the same state, or refused.
abbrev Judged : Type 0 → Handler → Server → Server × Reply → Type 0
Judged Admits next s out = (Admits × (out ≡ next s)) ⊎ ((¬ Admits) × IsRefused s out)

pub unchanged : (s : Server) → IsQuiet s s
unchanged s = record {
  store = refl;
  changes = refl;
  tokens = λ t exp e. e;
  sessions = λ c sess e. e;
  token_ttl = refl;
  session_ttl = refl;
}

unchanged-IsRefused :
    (s : Server) (reply : Reply)
    → (reply.status ≡ 401) ⊎ (reply.status ≡ 403)
    → IsRefused s (s, reply)
unchanged-IsRefused s reply h = record { status = h; quiet = unchanged s }

without-token :
    (s : Server) (token : Text) → IsQuiet s (record s { tokens = Dict.delete s.tokens token })
without-token s token = record {
  store = refl;
  changes = refl;
  tokens = Dict.get-delete-some s.tokens token;
  sessions = λ c sess e. e;
  token_ttl = refl;
  session_ttl = refl;
}

pub without-session :
    (s : Server) (c : Text) → IsQuiet s (record s { sessions = Dict.delete s.sessions c })
without-session s c = record {
  store = refl;
  changes = refl;
  tokens = λ t exp e. e;
  sessions = Dict.get-delete-some s.sessions c;
  token_ttl = refl;
  session_ttl = refl;
}

late : {now : Time} (exp : Time) → exp < now → (e : Time) × (some exp ≡ some e) × (now ≤ e) → ⊥
late {now} exp l (e, h, m) = let same : exp ≡ e = some-injective _ _ h in omega (arith, l, m, same)

late_session :
    {now : Time} (sess found : Session)
    → sess.expires < now
    → some sess ≡ some found
    → now ≤ found.expires
    → ⊥
late_session {now} sess found l h m =
    let same : sess.expires ≡ found.expires = ap (λ x. x.expires) (some-injective _ _ h) in
    omega (arith, l, m, same)

boot_refused : {b c : Bool} → (b && not c) ≡ true → (b ≡ true → c ≡ true) → ⊥
boot_refused h k = ground arith

boot_passed : {b c : Bool} → (b && not c) ≡ false → b ≡ true → c ≡ true
boot_passed h k = ground arith

is_empty_iff : (s : Text) → (is_empty s ≡ true) ↔ (s ≡ [])
is_empty_iff [] = (λ h. refl, λ h. refl)
is_empty_iff (c ∷ s) = (λ h. cc, λ h. cc)

module _ (next : Handler) (now : Time) (r : Request) (s : Server) where
  HasAccess-token :
      (token : Text) (o : Option Time)
      → bearer_token r.authorization ≡ some token
      → Dict.get s.tokens token ≡ o
      → HasAccess now r s
      → (exp : Time) × (o ≡ some exp) × (now ≤ exp)
  HasAccess-token token o e g (with_token t exp b h l) =
      let same : t ≡ token = some-injective _ _ (sym b ∙ e) in (exp, sym g ∙ rw (← same) h, l)
  HasAccess-token token o e g (with_session c sess b k h l csrf) =
      absurd (none-ne-some _ (sym b ∙ e))

  by_token-Judged :
      (token : Text)
      → bearer_token r.authorization ≡ some token
      → Judged (HasAccess now r s) next s (by_token next (valid_token now token s))
  by_token-Judged token e =
      let judged : Server × Bool → Type 0 =
        λ v. Judged (HasAccess now r s) next s (by_token next v) in
      elim (valid_token-cases now token s) [
        | inl (g, v) ↦ subst judged (sym v) (
            inr (
              λ a. none-ne-some _ (HasAccess-token token none e g a).1,
              unchanged-IsRefused s _ (inl refl),
            ))
        | inr (exp, g, inl (l, v)) ↦ subst judged (sym v) (
            inr (
              λ a. late exp l (HasAccess-token token (some exp) e g a),
              record { status = inl refl; quiet = without-token s token },
            ))
        | inr (exp, g, inr (l, v)) ↦ subst judged (sym v) (inl (with_token token exp e g l, refl))
      ]

  HasAccess-session :
      (c : Text) (o : Option Session)
      → bearer_token r.authorization ≡ none
      → r.cookie ≡ some c
      → Dict.get s.sessions c ≡ o
      → HasAccess now r s
      → (sess : Session) × (o ≡ some sess) × (now ≤ sess.expires) × HasCsrf r sess
  HasAccess-session c o e k g (with_token t exp b h l) = absurd (none-ne-some _ (sym e ∙ b))
  HasAccess-session c o e k g (with_session c' sess b k' h l csrf) =
      let same : c' ≡ c = some-injective _ _ (sym k' ∙ k) in (sess, sym g ∙ rw (← same) h, l, csrf)

  HasAccess-cookie :
      bearer_token r.authorization ≡ none → HasAccess now r s → (c : Text) × (r.cookie ≡ some c)
  HasAccess-cookie e (with_token t exp b h l) = absurd (none-ne-some _ (sym e ∙ b))
  HasAccess-cookie e (with_session c sess b k h l csrf) = (c, k)

  csrf_of :
      (c : Text) (sess : Session)
      → bearer_token r.authorization ≡ none
      → r.cookie ≡ some c
      → Dict.get s.sessions c ≡ some sess
      → HasAccess now r s
      → HasCsrf r sess
  csrf_of c sess e k g a =
      let (found, same, l, h) = HasAccess-session c (some sess) e k g a in
      subst (HasCsrf r) (sym (some-injective _ _ same)) h

  HasCsrf-iff : (sess : Session) → (csrf_passes r sess ≡ true) ↔ HasCsrf r sess
  unfolding csrf_passes
  HasCsrf-iff sess = ground (arith, str_eq_iff r.csrf_token sess.csrf, is_empty_iff r.csrf_token)

  by_csrf :
      (c : Text) (sess : Session)
      → bearer_token r.authorization ≡ none
      → r.cookie ≡ some c
      → Dict.get s.sessions c ≡ some sess
      → now ≤ sess.expires
      → Judged (HasAccess now r s) next s (by_session next r (s, some sess))
  by_csrf c sess e k g l = elim (Bool-cases (csrf_passes r sess)) [
    | inl p ↦
        inl
          (with_session c sess e k g l ((HasCsrf-iff sess).0 p), by_session-passes next r s sess p)
    | inr p ↦ inr (
      λ a. true-ne-false ((HasCsrf-iff sess).1 (csrf_of c sess e k g a)) p,
      subst (IsRefused s) (sym (by_session-fails next r s sess p))
          (unchanged-IsRefused s _ (inr refl)),
    )
  ]

  by_session-Judged :
      bearer_token r.authorization ≡ none
      → Judged (HasAccess now r s) next s (by_session next r (session_from_request now r.cookie s))
  by_session-Judged e =
      let judged : Server × Option Session → Type 0 =
        λ v. Judged (HasAccess now r s) next s (by_session next r v) in
      elim (session_from_request-cases now r.cookie s) [
        | inl (k, v) ↦ subst judged (sym v) (
            inr (
              λ a. none-ne-some _ (sym k ∙ (HasAccess-cookie e a).1),
              unchanged-IsRefused s _ (inl refl),
            ))
        | inr (c, k, inl (g, v)) ↦ subst judged (sym v) (
            inr (
              λ a. none-ne-some _ (HasAccess-session c none e k g a).1,
              unchanged-IsRefused s _ (inl refl),
            ))
        | inr (c, k, inr (sess, g, inl (l, v))) ↦ subst judged (sym v) (
            inr (
              λ a.
                  let (found, same, m, h) = HasAccess-session c (some sess) e k g a in
                  late_session sess found l same m,
              record { status = inl refl; quiet = without-session s c },
            ))
        | inr (c, k, inr (sess, g, inr (l, v))) ↦ subst judged (sym v) (by_csrf c sess e k g l)
      ]

  by_header-Judged :
      Judged (HasAccess now r s) next s (by_header next now r s (bearer_token r.authorization))
  by_header-Judged =
      let judged : Option Text → Type 0 =
        λ o. Judged (HasAccess now r s) next s (by_header next now r s o) in
      elim (Option-cases (bearer_token r.authorization)) [
        | inl e ↦ subst judged (sym e) (by_session-Judged e)
        | inr (token, e) ↦ subst judged (sym e) (by_token-Judged token e)
      ]

  admitted :
      ((data_snapshot s.store).admin.first_boot ≡ true → open_on_first_boot r.path ≡ true)
      → Judged (HasAccess now r s) next s (by_header next now r s (bearer_token r.authorization))
      → Judged (IsAdmitted now r s) next s (by_header next now r s (bearer_token r.authorization))
  admitted boot (inl (a, e)) = inl (record { boot = boot; access = a }, e)
  admitted boot (inr (n, h)) = inr (λ a. n a.access, h)

  -- `auth` hands a request to the next handler, on the state as it is, if it has a held bearer
  -- token or session that is not over, with the CSRF token where it does more than read, and if
  -- the first boot is over or the path is open on it; it answers every other request with 401 or
  -- 403, leaves the store and the notifications, and at most forgets tokens and sessions.
  pub auth-IsAdmitted :
      ((IsAdmitted now r s) × (auth next now r s ≡ next s))
      ⊎ ((¬ (IsAdmitted now r s)) × IsRefused s (auth next now r s))
  unfolding auth
  auth-IsAdmitted =
      let boot = (data_snapshot s.store).admin.first_boot in
      elim (Bool-cases (boot && not (open_on_first_boot r.path))) [
        | inl e ↦ rw e (inr (λ a. boot_refused e a.boot, unchanged-IsRefused s _ (inr refl)))
        | inr e ↦ rw e (admitted (boot_passed e) by_header-Judged)
      ]
