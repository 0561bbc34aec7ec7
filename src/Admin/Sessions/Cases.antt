-- ===== src/Admin/Sessions/Cases.antt =====
-- The results of `validToken` and `sessionFromRequest`, one by one.
use citadel_dnxproxy.Prelude.{
  ℕ, ◌≡◌, refl, ◌≤◌, ◌<◌, ◌⊎◌, inl, inr, true, false, Option, none, some, arith, ltb, ltb→lt,
  Bool-cases, Option-cases,
}
use citadel_dnxproxy.Prelude.Dict
use citadel_dnxproxy.Clock.{Time}
use citadel_dnxproxy.Text.{Text, codes}
use citadel_dnxproxy.Admin.{Session, Server, Request, write_error}
use citadel_dnxproxy.Admin.Sessions.{
  Handler, csrf_passes, valid_token, session_from_request, by_session,
}

not-ltb : (a b : ℕ) → ltb a b ≡ false → b ≤ a
not-ltb a b h = ground arith

-- The three results of `validToken`.
pub valid_token-cases :
    (now : Time) (token : Text) (s : Server)
    → ((Dict.get s.tokens token ≡ none) × (valid_token now token s ≡ (s, false)))
      ⊎ ((exp : Time) × (Dict.get s.tokens token ≡ some exp)
          × (((exp < now)
                × (valid_token now token s
                    ≡ (record s { tokens = Dict.delete s.tokens token }, false)))
              ⊎ ((now ≤ exp) × (valid_token now token s ≡ (s, true)))))
unfolding valid_token
valid_token-cases now token s = elim (Option-cases (Dict.get s.tokens token)) [
  | inl g ↦ inl (g, rw g refl)
  | inr (exp, g) ↦ inr (
    exp,
    g,
    elim (Bool-cases (ltb exp now)) [
      | inl l ↦ inl (ltb→lt exp now l, rw (g, l) refl)
      | inr l ↦ inr (not-ltb exp now l, rw (g, l) refl)
    ],
  )
]

-- The four results of `sessionFromRequest`.
pub session_from_request-cases :
    (now : Time) (cookie : Option Text) (s : Server)
    → let found = session_from_request now cookie s in
      ((cookie ≡ none) × (found ≡ (s, none)))
      ⊎ ((c : Text) × (cookie ≡ some c)
          × (((Dict.get s.sessions c ≡ none) × (found ≡ (s, none)))
              ⊎ ((sess : Session) × (Dict.get s.sessions c ≡ some sess)
                  × (((sess.expires < now)
                        × (found ≡ (record s { sessions = Dict.delete s.sessions c }, none)))
                      ⊎ ((now ≤ sess.expires) × (found ≡ (s, some sess)))))))
unfolding session_from_request
session_from_request-cases now none s = inl (refl, refl)
session_from_request-cases now (some c) s = inr (
  c,
  refl,
  elim (Option-cases (Dict.get s.sessions c)) [
    | inl g ↦ inl (g, rw g refl)
    | inr (sess, g) ↦ inr (
      sess,
      g,
      elim (Bool-cases (ltb sess.expires now)) [
        | inl l ↦ inl (ltb→lt sess.expires now l, rw (g, l) refl)
        | inr l ↦ inr (not-ltb sess.expires now l, rw (g, l) refl)
      ],
    )
  ],
)

pub by_session-passes :
    (next : Handler) (r : Request) (s : Server) (sess : Session)
    → csrf_passes r sess ≡ true
    → by_session next r (s, some sess) ≡ next s
by_session-passes next r s sess p = rw p refl

pub by_session-fails :
    (next : Handler) (r : Request) (s : Server) (sess : Session)
    → csrf_passes r sess ≡ false
    → by_session next r (s, some sess) ≡ (s, write_error 403 (codes "csrf required"))
by_session-fails next r s sess p = rw p refl
