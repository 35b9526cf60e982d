-- ===== src/Auth/Revocation.antt =====
-- Sessions after sign-out, expiry and deprovisioning.
use recordlane.Base.{
  some-eq, ◌⊎◌, ℕ, String, ◌≡◌, refl, sym, ap, ◌∙◌, subst, inl, inr, Bool, true, none, some, List,
  [], ◌∷◌, ◌++◌, arith, if◌then◌else◌, str_eq, Bool-cases, Option-cases,
}
use recordlane.Auth.{BrowserSession, Db, Provider, find_session}
use recordlane.Auth.Sessions.{
  is_some, change_sessions, revoke, touch, has_hash, is_live, active_user, session_principal,
  is_open_session, revoke_identity_sessions,
}

-- The token is one of a session that is revoked.
abbrev pub IsRevoked : String → List BrowserSession → Type 0
IsRevoked hash sessions =
    (s : BrowserSession) × (find_session hash sessions ≡ some s) × (is_some s.revoked_at ≡ true)

-- A change that leaves the tokens and never takes a revocation back.
pub record IsSafe (f : BrowserSession → BrowserSession) : Type 0 where
  pub same_token : (s : BrowserSession) → (f s).token_hash ≡ s.token_hash
  pub stays_revoked :
      (s : BrowserSession) → is_some s.revoked_at ≡ true → is_some (f s).revoked_at ≡ true

pub revoke-IsSafe : (now : ℕ) → IsSafe (revoke now)
revoke-IsSafe now = record { same_token = λ s. refl; stays_revoked = λ s e. refl }

touch-IsSafe : (now : ℕ) → IsSafe (touch now)
touch-IsSafe now = record { same_token = λ s. refl; stays_revoked = λ s e. e }

changed-token :
    (p : BrowserSession → Bool) (f : BrowserSession → BrowserSession) (s : BrowserSession)
    → IsSafe f
    → (if p s then f s else s).token_hash ≡ s.token_hash
changed-token p f s safe = elim (Bool-cases (p s)) [
  | inl e ↦ rw e (safe.same_token s)
  | inr e ↦ rw e refl
]

pub find_session-change :
    (p : BrowserSession → Bool) (f : BrowserSession → BrowserSession) (hash : String)
    (sessions : List BrowserSession) (s : BrowserSession)
    → IsSafe f
    → find_session hash sessions ≡ some s
    → find_session hash (change_sessions p f sessions) ≡ some (if p s then f s else s)
find_session-change p f hash [] s safe e = cc
find_session-change p f hash (t ∷ rest) s safe e =
    let changed : BrowserSession → BrowserSession = λ u. if p u then f u else u in
    let rest' = change_sessions p f rest in
    subst
      (λ h.
        (if str_eq h hash then some (changed t) else find_session hash rest') ≡ some (changed s))
      (sym (changed-token p f t safe))
      (elim (Bool-cases (str_eq t.token_hash hash)) [
        | inl q ↦ let here : t ≡ s = some-eq (rw q at e) in rw q (ap (λ u. some (changed u)) here)
        | inr q ↦ rw q (find_session-change p f hash rest s safe (rw q at e))
      ])

pub IsRevoked-change :
    (p : BrowserSession → Bool) (f : BrowserSession → BrowserSession) (hash : String)
    (sessions : List BrowserSession)
    → IsSafe f
    → IsRevoked hash sessions
    → IsRevoked hash (change_sessions p f sessions)
IsRevoked-change p f hash sessions safe (s, found, revoked) = elim (Bool-cases (p s)) [
  | inl e ↦ (
    f s,
    find_session-change p f hash sessions s safe found ∙ rw e refl,
    safe.stays_revoked s revoked,
  )
  | inr e ↦ (s, find_session-change p f hash sessions s safe found ∙ rw e refl, revoked)
]

pub IsRevoked-append :
    (hash : String) (sessions : List BrowserSession) (new : List BrowserSession)
    → IsRevoked hash sessions
    → IsRevoked hash (sessions ++ new)
IsRevoked-append hash [] new (s, found, revoked) = cc
IsRevoked-append hash (t ∷ rest) new (s, found, revoked) =
    elim (Bool-cases (str_eq t.token_hash hash)) [
      | inl q ↦ (t, rw q refl, ap (λ u. is_some u.revoked_at) (some-eq (rw q at found)) ∙ revoked)
      | inr q ↦ rw q (IsRevoked-append hash rest new (s, rw q at found, revoked))
    ]

module _ (env : Provider) (now : ℕ) where
  -- What session_principal does to the sessions.
  session_principal-sessions :
      (raw : String) (db : Db)
      → let sessions' = (session_principal env now raw db).0.sessions in
        let p = has_hash (env.sha256 raw) in
        (sessions' ≡ db.sessions)
        ⊎ ((sessions' ≡ change_sessions p (revoke now) db.sessions)
            ⊎ (sessions' ≡ change_sessions p (touch now) db.sessions))
  unfolding session_principal
  session_principal-sessions raw db =
      elim (Option-cases (find_session (env.sha256 raw) db.sessions)) [
        | inl e ↦ inl (rw (e, session_principal) refl)
        | inr (row, e) ↦ elim (Bool-cases (is_live now row)) [
          | inr l ↦ inl (rw (e, l, session_principal) refl)
          | inl l ↦ elim (Option-cases (active_user row.identity_user_id db)) [
            | inl a ↦ inr (inl (rw (e, l, a, session_principal) refl))
            | inr (u, a) ↦ inr (inr (rw (e, l, a, session_principal) refl))
          ]
        ]
      ]

  pub session_principal-IsRevoked :
      (raw hash : String) (db : Db)
      → IsRevoked hash db.sessions
      → IsRevoked hash (session_principal env now raw db).0.sessions
  unfolding session_principal is_live active_user
  session_principal-IsRevoked raw hash db r =
      let p = has_hash (env.sha256 raw) in
      elim (session_principal-sessions raw db) [
        | inl e ↦ subst (IsRevoked hash) (sym e) r
        | inr (inl e) ↦
            subst (IsRevoked hash) (sym e)
              (IsRevoked-change p (revoke now) hash db.sessions (revoke-IsSafe now) r)
        | inr (inr e) ↦
            subst (IsRevoked hash) (sym e)
              (IsRevoked-change p (touch now) hash db.sessions (touch-IsSafe now) r)
      ]

  -- A revoked session has no principal.
  pub session_principal-none :
      (raw : String) (db : Db)
      → IsRevoked (env.sha256 raw) db.sessions
      → session_principal env now raw db ≡ (db, none)
  unfolding session_principal is_live
  session_principal-none raw db (s, found, revoked) = ground arith

  pub revoke_identity_sessions-IsRevoked :
      (hash : String) (user_id : ℕ) (db : Db)
      → IsRevoked hash db.sessions
      → IsRevoked hash (revoke_identity_sessions now user_id db).0.sessions
  unfolding revoke_identity_sessions
  revoke_identity_sessions-IsRevoked hash user_id db r =
      IsRevoked-change (is_open_session user_id) (revoke now) hash db.sessions (revoke-IsSafe now) r

  -- Every session of the user is revoked.
  pub revoke_identity_sessions_lem :
      (hash : String) (user_id : ℕ) (db : Db) (s : BrowserSession)
      → find_session hash db.sessions ≡ some s
      → s.identity_user_id ≡ user_id
      → IsRevoked hash (revoke_identity_sessions now user_id db).0.sessions
  unfolding revoke_identity_sessions
  revoke_identity_sessions_lem hash user_id db s found of_user =
      let p = is_open_session user_id in
      elim (Bool-cases (is_some s.revoked_at)) [
        | inl r ↦ IsRevoked-change p (revoke now) hash db.sessions (revoke-IsSafe now) (s, found, r)
        | inr r ↦
            let opened : p s ≡ true = ground arith in
            (
              revoke now s,
              find_session-change p (revoke now) hash db.sessions s (revoke-IsSafe now) found
                  ∙ rw opened refl,
              refl,
            )
      ]
