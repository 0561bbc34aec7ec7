-- ===== src/Admin/Runs.antt =====
-- Sequences of requests to the server, and who is behind a change.
pub mod Logins
use citadel_dnxproxy.Prelude.{
  ℕ, ◌+◌, ◌*◌, ◌≡◌, refl, sym, ap, ◌∙◌, subst, ◌≤◌, ◌⊎◌, inl, inr, Bool, true, false, List, [], ◌∷◌,
  Option, none, some, arith, if◌then◌else◌, str_eq, str_eq_iff, Bool-cases, Option-cases,
}
use mathlib.Core.Option.{none-ne-some, some-injective}
use citadel_dnxproxy.Prelude.Dict
use citadel_dnxproxy.Clock.{Time, nanoseconds}
use citadel_dnxproxy.Text.{Text, codes}
use citadel_dnxproxy.Policy.Store.{JsonStore, StoreError}
use citadel_dnxproxy.Admin.{
  Session, Server, Method, get, head, post, put, delete, other, Request, Draws, Credentials, Reply,
  concluded, new, Env,
}
use citadel_dnxproxy.Admin.Sessions.{
  post_only, without_session, bearer_token, accepts_login, granted, login, login_with, logout,
  health, auth,
}
use citadel_dnxproxy.Admin.Access.{
  IsQuiet, IsAdmitted, IsRefused, HasAccess, with_token, with_session, HasCsrf, auth-IsAdmitted,
  unchanged, without-session,
}
use citadel_dnxproxy.Admin.Routes.{
  Route, health_route, login_route, logout_route, password_route, policy_route, users_route,
  devices_route, rules_route, user_route, device_route, rule_route, assets, route, guarded,
  unguarded, guarded_or, by_route, state_after, handle, handled,
}
use citadel_dnxproxy.Admin.Routes.Effects.{guarded-cases}

pub record Call : Type 0 where
  pub draws : Draws
  pub request : Request

module _ (env : Env) where
  unfoldable pub run : List Call → Server → Server
  run [] s = s
  run (c ∷ cs) s = run cs (handled env c.draws c.request s)

  -- A login with a user name and a password that the store accepts.
  pub record IsLogin (draws : Draws) (r : Request) (s : Server) : Type 0 where
    pub path : route r.path ≡ some login_route
    pub method : r.method ≡ post
    pub credentials : accepts_login env draws s (env.json.credentials r.body) ≡ true

  -- What a guarded handler leaves as it was.
  pub record Keeps (s : Server) (out : Server × Reply) : Type 0 where
    pub tokens : out.0.tokens ≡ s.tokens
    pub sessions : out.0.sessions ≡ s.sessions
    pub token_ttl : out.0.token_ttl ≡ s.token_ttl
    pub session_ttl : out.0.session_ttl ≡ s.session_ttl

  same : {s : Server} {reply : Reply} → Keeps s (s, reply)
  same = record { tokens = refl; sessions = refl; token_ttl = refl; session_ttl = refl }

  concluded-Keeps :
      (failed : ℕ) (done : Reply) (s : Server) (r : JsonStore × Option StoreError)
      → Keeps s (concluded failed done s r)
  unfolding concluded
  concluded-Keeps failed done s (store, none) = record {
    tokens = refl;
    sessions = refl;
    token_ttl = refl;
    session_ttl = refl;
  }
  concluded-Keeps failed done s (store, some e) = record {
    tokens = refl;
    sessions = refl;
    token_ttl = refl;
    session_ttl = refl;
  }

  pub guarded-Keeps :
      (draws : Draws) (r : Request) (s : Server) (rt : Route) (next : Server → Server × Reply)
      → guarded env draws r rt ≡ some next
      → Keeps s (next s)
  guarded-Keeps draws r s =
      guarded-cases env draws r s (Keeps s) (λ reply. same)
        (λ p failed done. concluded-Keeps _ _ s _) (λ c failed done. concluded-Keeps _ _ s _)

  -- One request: an accepted login, an admitted request to a guarded handler, or nothing.
  pub data Step (draws : Draws) (r : Request) (s s' : Server) : Type 0 where
    logs_in : IsLogin draws r s → s' ≡ granted draws s → Step draws r s s'
    acts :
        (rt : Route) (next : Server → Server × Reply)
        → guarded env draws r rt ≡ some next
        → IsAdmitted draws.now r s
        → s' ≡ (next s).0
        → Step draws r s s'
    rests : IsQuiet s s' → Step draws r s s'

  module _ (draws : Draws) (r : Request) (s : Server) where
    post_only-Step :
        (m : Method) (out : Server × Reply)
        → r.method ≡ m
        → (r.method ≡ post → Step draws r s out.0)
        → Step draws r s (post_only m s out).0
    post_only-Step post out e h = h e
    post_only-Step get out e h = rests (unchanged s)
    post_only-Step head out e h = rests (unchanged s)
    post_only-Step put out e h = rests (unchanged s)
    post_only-Step delete out e h = rests (unchanged s)
    post_only-Step other out e h = rests (unchanged s)

    login_with-Step :
        (o : Option Credentials)
        → env.json.credentials r.body ≡ o
        → route r.path ≡ some login_route
        → r.method ≡ post
        → Step draws r s (login_with env draws s o).0
    login_with-Step none e p m = rests (unchanged s)
    login_with-Step (some c) e p m = elim (Bool-cases (accepts_login env draws s (some c))) [
      | inl a ↦ rw a (logs_in (record { path = p; method = m; credentials = rw e a }) refl)
      | inr a ↦ rw a (rests (unchanged s))
    ]

    login-Step : route r.path ≡ some login_route → Step draws r s (login env draws r s).0
    unfolding login
    login-Step p = post_only-Step r.method _ refl (login_with-Step _ refl p)

    without_session-Step : (cookie : Option Text) → Step draws r s (without_session cookie s)
    without_session-Step none = rests (unchanged s)
    without_session-Step (some c) = rests (without-session s c)

    logout-Step : Step draws r s (logout r s).0
    unfolding logout
    logout-Step = post_only-Step r.method _ refl (λ m. without_session-Step r.cookie)

    unguarded-Step :
        (rt : Route)
        → route r.path ≡ some rt
        → Step draws r s (state_after env draws r s (unguarded env draws r rt s))
    unfolding health
    unguarded-Step login_route p = login-Step p
    unguarded-Step logout_route p = logout-Step
    unguarded-Step health_route p = rests (unchanged s)
    unguarded-Step password_route p = rests (unchanged s)
    unguarded-Step policy_route p = rests (unchanged s)
    unguarded-Step users_route p = rests (unchanged s)
    unguarded-Step devices_route p = rests (unchanged s)
    unguarded-Step rules_route p = rests (unchanged s)
    unguarded-Step (user_route id) p = rests (unchanged s)
    unguarded-Step (device_route id) p = rests (unchanged s)
    unguarded-Step (rule_route id) p = rests (unchanged s)
    unguarded-Step assets p = rests (unchanged s)

    guarded_or-Step :
        (rt : Route) (o : Option (Server → Server × Reply))
        → route r.path ≡ some rt
        → guarded env draws r rt ≡ o
        → Step draws r s (state_after env draws r s (guarded_or env draws r o rt s))
    guarded_or-Step rt none p e = unguarded-Step rt p
    guarded_or-Step rt (some next) p e = elim (auth-IsAdmitted next draws.now r s) [
      | inl (a, same) ↦ acts rt next e a (ap (λ out. out.0) same)
      | inr (n, refused) ↦ rests refused.quiet
    ]

    by_route-Step :
        (o : Option Route)
        → route r.path ≡ o
        → Step draws r s (state_after env draws r s (by_route env draws r o s))
    by_route-Step none p = rests (unchanged s)
    by_route-Step (some rt) p = guarded_or-Step rt _ p refl

    -- Every request is such a step.
    pub handled-Step : Step draws r s (handled env draws r s)
    unfolding handled handle
    handled-Step = by_route-Step _ refl
