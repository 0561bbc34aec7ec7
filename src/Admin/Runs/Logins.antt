-- ===== src/Admin/Runs/Logins.antt =====
-- Behind a change of the policy there is a login.
use citadel_dnxproxy.Prelude.{
  ◌+◌, ◌*◌, ◌≡◌, refl, sym, ap, ◌∙◌, subst, ◌≤◌, ◌⊎◌, inl, inr, false, List, [], ◌∷◌, some,
}
use mathlib.Core.Option.{none-ne-some}
use citadel_dnxproxy.Prelude.Dict
use citadel_dnxproxy.Prelude.Dict.{Dict}
use citadel_dnxproxy.Clock.{Time, nanoseconds}
use citadel_dnxproxy.Text.{Text, codes}
use citadel_dnxproxy.Policy.Store.{JsonStore}
use citadel_dnxproxy.Admin.{Session, Server, Request, Draws, new, Env}
use citadel_dnxproxy.Admin.Sessions.{bearer_token, reads_only, granted}
use citadel_dnxproxy.Admin.Access.{HasAccess, with_token, with_session, IsAdmitted}
use citadel_dnxproxy.Admin.Routes.{handled}
use citadel_dnxproxy.Admin.Runs.{
  Call, run, IsLogin, Step, logs_in, acts, rests, guarded-Keeps, handled-Step,
}

-- The draws of a login that give a request at `now` its access: its bearer token, for an hour, or the
-- session of its cookie with its CSRF token, for twelve.
pub data Grants (now : Time) (r : Request) (draws : Draws) : Type 0 where
  a_token :
      bearer_token r.authorization ≡ some draws.id
      → now ≤ draws.now + 3600 * nanoseconds
      → Grants now r draws
  a_session :
      r.cookie ≡ some draws.session_id
      → now ≤ draws.now + 12 * 3600 * nanoseconds
      → (reads_only r.method ≡ false → r.csrf_token ≡ draws.csrf)
      → Grants now r draws

module _ (env : Env) where
  -- Some call of the run is a login for which `P` holds.
  abbrev pub LoggedIn : (Draws → Type 0) → List Call → Server → Type 0
  LoggedIn P [] s = ⊥
  LoggedIn P (c ∷ cs) s =
      (IsLogin env c.draws c.request s × P c.draws)
      ⊎ LoggedIn P cs (handled env c.draws c.request s)

  -- The lifetimes of a new server.
  record HasTtls (s : Server) : Type 0 where
    token_ttl : s.token_ttl ≡ 3600 * nanoseconds
    session_ttl : s.session_ttl ≡ 12 * 3600 * nanoseconds

  Step-HasTtls :
      (draws : Draws) (r : Request) (s s' : Server) → Step env draws r s s' → HasTtls s → HasTtls s'
  unfolding granted
  Step-HasTtls draws r s s' (logs_in l e) h =
      rw e (record { token_ttl = h.token_ttl; session_ttl = h.session_ttl })
  Step-HasTtls draws r s s' (acts rt next g a e) h =
      let k = guarded-Keeps env draws r s rt next g in
      rw e (record {
        token_ttl = k.token_ttl ∙ h.token_ttl;
        session_ttl = k.session_ttl ∙ h.session_ttl;
      })
  Step-HasTtls draws r s s' (rests q) h = record {
    token_ttl = q.token_ttl ∙ h.token_ttl;
    session_ttl = q.session_ttl ∙ h.session_ttl;
  }

  -- A draw that gives a token, or a session.
  abbrev pub GivesToken : Text → Time → Draws → Type 0
  GivesToken t exp draws = (draws.id ≡ t) × (exp ≡ draws.now + 3600 * nanoseconds)

  abbrev pub GivesSession : Text → Session → Draws → Type 0
  GivesSession c sess draws =
      (draws.session_id ≡ c)
      × (sess ≡ record {
        expires = draws.now + 12 * 3600 * nanoseconds;
        csrf = draws.csrf;
        username = codes "admin";
      })

  Step-tokens :
      (draws : Draws) (r : Request) (s s' : Server) (t : Text) (exp : Time)
      → Step env draws r s s'
      → HasTtls s
      → Dict.get s'.tokens t ≡ some exp
      → (IsLogin env draws r s × GivesToken t exp draws) ⊎ (Dict.get s.tokens t ≡ some exp)
  unfolding granted
  Step-tokens draws r s s' t exp (logs_in l e) h g =
      let g' : Dict.get (granted draws s).tokens t ≡ some exp =
        subst (λ x. Dict.get x.tokens t ≡ some exp) e g in
      elim (Dict.get-put-some s.tokens draws.id t (draws.now + s.token_ttl) exp g') [
        | inl (i, w) ↦ inl (l, (i, w ∙ ap (λ ttl. draws.now + ttl) h.token_ttl))
        | inr k ↦ inr k
      ]
  Step-tokens draws r s s' t exp (acts rt next i a e) h g = inr (
      sym (
        ap (λ m. Dict.get m t)
          (ap (λ x. x.tokens) e ∙ (guarded-Keeps env draws r s rt next i).tokens))
      ∙ g)
  Step-tokens draws r s s' t exp (rests q) h g = inr (q.tokens t exp g)

  run-tokens :
      (calls : List Call) (s : Server) (t : Text) (exp : Time)
      → HasTtls s
      → Dict.get (run env calls s).tokens t ≡ some exp
      → LoggedIn (GivesToken t exp) calls s ⊎ (Dict.get s.tokens t ≡ some exp)
  unfolding run
  run-tokens [] s t exp h g = inr g
  run-tokens (c ∷ cs) s t exp h g =
      let step = handled-Step env c.draws c.request s in
      elim (run-tokens cs (handled env c.draws c.request s) t exp (Step-HasTtls _ _ _ _ step h) g) [
        | inl l ↦ inl (inr l)
        | inr e ↦ elim (Step-tokens _ _ _ _ t exp step h e) [ inl l ↦ inl (inl l) | inr k ↦ inr k ]
      ]

  Step-sessions :
      (draws : Draws) (r : Request) (s s' : Server) (c : Text) (sess : Session)
      → Step env draws r s s'
      → HasTtls s
      → Dict.get s'.sessions c ≡ some sess
      → (IsLogin env draws r s × GivesSession c sess draws) ⊎ (Dict.get s.sessions c ≡ some sess)
  unfolding granted
  Step-sessions draws r s s' c sess (logs_in l e) h g =
      let g' : Dict.get (granted draws s).sessions c ≡ some sess =
        subst (λ x. Dict.get x.sessions c ≡ some sess) e g in
      elim (Dict.get-put-some s.sessions draws.session_id c _ sess g') [
        | inl (i, w) ↦ inl (l, (i, rw (← h.session_ttl) w))
        | inr k ↦ inr k
      ]
  Step-sessions draws r s s' c sess (acts rt next i a e) h g =
      let k = guarded-Keeps env draws r s rt next i in
      inr (sym (ap (λ m. Dict.get m c) (ap (λ x. x.sessions) e ∙ k.sessions)) ∙ g)
  Step-sessions draws r s s' c sess (rests q) h g = inr (q.sessions c sess g)

  run-sessions :
      (calls : List Call) (s : Server) (c : Text) (sess : Session)
      → HasTtls s
      → Dict.get (run env calls s).sessions c ≡ some sess
      → LoggedIn (GivesSession c sess) calls s ⊎ (Dict.get s.sessions c ≡ some sess)
  unfolding run
  run-sessions [] s c sess h g = inr g
  run-sessions (call ∷ cs) s c sess h g =
      let step = handled-Step env call.draws call.request s in
      elim (run-sessions cs (handled env call.draws call.request s) c sess
        (Step-HasTtls _ _ _ _ step h) g) [
          | inl l ↦ inl (inr l)
          | inr e ↦ elim (Step-sessions _ _ _ _ c sess step h e) [
            | inl l ↦ inl (inl l)
            | inr k ↦ inr k
          ]
        ]

  LoggedIn-map :
      (P Q : Draws → Type 0) (calls : List Call) (s : Server)
      → ((draws : Draws) → P draws → Q draws)
      → LoggedIn P calls s
      → LoggedIn Q calls s
  LoggedIn-map P Q [] s f l = elim l [ ]
  LoggedIn-map P Q (c ∷ cs) s f (inl (l, p)) = inl (l, f c.draws p)
  LoggedIn-map P Q (c ∷ cs) s f (inr l) = inr (LoggedIn-map P Q cs _ f l)

  HasAccess-LoggedIn :
      (store : JsonStore) (calls : List Call) (now : Time) (r : Request)
      → HasAccess now r (run env calls (new store))
      → LoggedIn (Grants now r) calls (new store)
  unfolding new Dict.get
  HasAccess-LoggedIn store calls now r (with_token t exp b g l) =
      elim (run-tokens calls (new store) t exp (record { token_ttl = refl; session_ttl = refl })
        g) [
          | inl login ↦
              LoggedIn-map (GivesToken t exp) (Grants now r) calls (new store)
                (λ draws (i, e). a_token (b ∙ ap some (sym i)) (rw (← e) l)) login
          | inr e ↦ absurd (none-ne-some _ e)
        ]
  HasAccess-LoggedIn store calls now r (with_session c sess b k g l csrf) =
      elim (run-sessions calls (new store) c sess (record { token_ttl = refl; session_ttl = refl })
        g) [
          | inl login ↦
              LoggedIn-map (GivesSession c sess) (Grants now r) calls (new store)
                (λ draws (i, e).
                  a_session (k ∙ ap some (sym i)) (subst (λ x. now ≤ x.expires) e l)
                    (λ m. (csrf m).1 ∙ ap (λ x. x.csrf) e))
                login
          | inr e ↦ absurd (none-ne-some _ e)
        ]

  -- After any run of requests on a new admin server, a request either leaves the store as it was,
  -- or it is admitted and an earlier call of the run was a login with accepted credentials that
  -- gave this request its bearer token, at most an hour ago, or its session with, for a request
  -- that does more than read, the session's CSRF token, at most twelve hours ago.
  pub handled-LoggedIn :
      (store : JsonStore) (calls : List Call) (draws : Draws) (r : Request)
      → let s = run env calls (new store) in
        ((handled env draws r s).store ≡ s.store)
        ⊎ (IsAdmitted draws.now r s × LoggedIn (Grants draws.now r) calls (new store))
  unfolding granted
  handled-LoggedIn store calls draws r =
      elim (handled-Step env draws r (run env calls (new store))) [
        | logs_in l e ↦ inl (ap (λ x. x.store) e)
        | acts rt next g a e ↦ inr (a, HasAccess-LoggedIn store calls draws.now r a.access)
        | rests q ↦ inl q.store
      ]
