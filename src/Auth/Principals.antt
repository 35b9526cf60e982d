-- ===== src/Auth/Principals.antt =====
-- Whom the three kinds of credential admit: session_principal, _service_principal and the bearer
-- branch of current_principal.
use recordlane.Base.{
  ℕ, String, ◌≡◌, ◌⊎◌, ◌↔◌, ap, ◌∙◌, inl, inr, true, none, some, arith, Option-cases, str_eq_iff,
  has_text, ◌||◌, ltb, is_subset, is_subset_refl, common-is_subset,
}
use recordlane.Http.{ok, required-ok, required, >>=-ok}
use recordlane.Auth.{
  Principal, Workspace, IdentityUser, BrowserSession, ServiceAccount, Db, Settings, Claims,
  Provider, find_identity, find_session, find_user,
}
use recordlane.Auth.Permissions.{allows}
use recordlane.Auth.Sessions.{
  is_live, active_user, session_principal, workspace_of, metadata, configured,
}
use recordlane.Auth.Credentials.{
  parse_token, find_workspace, find_account, service_account, service_principal, token_principal,
  bearer_principal,
}

-- The principal of a session row and its user.
abbrev pub session_view : BrowserSession → IdentityUser → Principal
session_view row u = record {
  subject = u.subject;
  issuer = row.issuer;
  workspace_id = row.workspace_id;
  roles = row.roles;
  scopes = none;
}

module _ (env : Provider) (now : ℕ) (raw : String) (db : Db) (p : Principal) where
  -- The session and the user that a token's principal is of.
  abbrev pub IsOf : BrowserSession → IdentityUser → Type 0
  IsOf row u =
      (find_session (env.sha256 raw) db.sessions ≡ some row)
      × (row.revoked_at ≡ none)
      × (ltb now row.expires_at ≡ true)
      × (find_user row.identity_user_id db.users ≡ some u)
      × (u.active ≡ true)
      × (p ≡ session_view row u)

  session_principal-IsOf :
      (session_principal env now raw db).1 ≡ some p
      → (row : BrowserSession) × (u : IdentityUser) × IsOf row u
  unfolding session_principal is_live active_user
  session_principal-IsOf e = elim (Option-cases (find_session (env.sha256 raw) db.sessions)) [
    | inl f ↦ ground arith
    | inr (row, f) ↦ elim (Option-cases (find_user row.identity_user_id db.users)) [
      | inl g ↦ ground arith
      | inr (u, g) ↦ (row, u, ground arith)
    ]
  ]

  IsOf-session_principal :
      (row : BrowserSession) (u : IdentityUser)
      → IsOf row u
      → (session_principal env now raw db).1 ≡ some p
  unfolding session_principal is_live active_user
  IsOf-session_principal row u (found, unrevoked, live, user, active, same) = ground arith

-- A session token has the principal `p` exactly when its session is there, is neither revoked nor
-- expired, its user is there and active, and `p` has the user's subject and the session's issuer,
-- workspace and roles.
pub session_principal_exact :
    (env : Provider) (now : ℕ) (raw : String) (db : Db) (p : Principal)
    → ((session_principal env now raw db).1 ≡ some p)
      ↔ ((row : BrowserSession) × (u : IdentityUser) × IsOf env now raw db p row u)
session_principal_exact env now raw db p = (
  session_principal-IsOf env now raw db p,
  λ (row, u, h). IsOf-session_principal env now raw db p row u h,
)

token_principal_lem :
    (settings : Settings) (db : Db) (claims : Claims) (p : Principal)
    → token_principal settings db claims ≡ ok p
    → (workspace_of claims.workspace ≡ some p.workspace_id)
      × (is_subset p.roles claims.realm_roles ≡ true)
      × ((find_identity claims.iss claims.sub db.users ≡ none)
          ⊎ ((u : IdentityUser) × (find_identity claims.iss claims.sub db.users ≡ some u)
              × (u.active ≡ true)
              × (is_subset p.roles u.roles ≡ true)
              × (has_text p.workspace_id u.workspace_ids ≡ true)))
unfolding token_principal
token_principal_lem settings db claims p e = elim (Option-cases (workspace_of claims.workspace)) [
  | inl w ↦ ground arith
  | inr (workspace, w) ↦ elim (Option-cases (find_identity claims.iss claims.sub db.users)) [
    | inl f ↦ let all = is_subset_refl claims.realm_roles in (ground arith, ground arith, inl f)
    | inr (u, f) ↦
        let (a, b) = common-is_subset claims.realm_roles u.roles in
        (ground arith, ground arith, inr (u, f, ground arith, ground arith, ground arith))
  ]
]

-- The principal of a bearer token has only roles of the token, whose signature and audience are
-- verified. If the identity is known, it is active, the roles are among the identity's own, and the
-- workspace is one of the identity's own.
pub bearer_is_bounded :
    (env : Provider) (settings : Settings) (token : String) (db : Db) (p : Principal)
    → bearer_principal env settings token db ≡ ok p
    → (claims : Claims) × (env.decode_access token ≡ some claims)
      × (workspace_of claims.workspace ≡ some p.workspace_id)
      × (is_subset p.roles claims.realm_roles ≡ true)
      × ((find_identity claims.iss claims.sub db.users ≡ none)
          ⊎ ((u : IdentityUser) × (find_identity claims.iss claims.sub db.users ≡ some u)
              × (u.active ≡ true)
              × (is_subset p.roles u.roles ≡ true)
              × (has_text p.workspace_id u.workspace_ids ≡ true)))
unfolding bearer_principal
bearer_is_bounded env settings token db p e =
    let (_, _, f1) =
      >>=-ok (required (configured settings.oidc_issuer) 503 "identity_not_configured") _ _ e in
    let (_, _, f2) =
      >>=-ok (required (configured settings.oidc_audience) 503 "identity_not_configured") _ _ f1 in
    let (_, _, f3) = >>=-ok (metadata env settings) _ _ f2 in
    let (claims, e4, f4) = >>=-ok (required (env.decode_access token) 401 "invalid_token") _ _ f3 in
    let (workspace, bounded, known) = token_principal_lem settings db claims p f4 in
    (
      claims,
      required-ok (env.decode_access token) 401 "invalid_token" claims e4,
      workspace,
      bounded,
      known,
    )

service_account_lem :
    (env : Provider) (now : ℕ) (raw : String) (db : Db) (a : ServiceAccount)
    → service_account env now raw db ≡ some a
    → (slug : String) × (prefix : String) × (secret : String) × (w : Workspace) × (parse_token raw
        ≡ some (slug, prefix, secret))
      × (find_workspace slug db.workspaces ≡ some w)
      × (find_account w.id prefix db.accounts ≡ some a)
      × (a.revoked_at ≡ none)
      × (ltb now a.expires_at ≡ true)
      × (env.scrypt secret a.salt ≡ a.verifier)
unfolding service_account
service_account_lem env now raw db a e = elim (Option-cases (parse_token raw)) [
  | inl f ↦ ground arith
  | inr ((slug, prefix, secret), f) ↦ elim (Option-cases (find_workspace slug db.workspaces)) [
    | inl g ↦ ground arith
    | inr (w, g) ↦ elim (Option-cases (find_account w.id prefix db.accounts)) [
      | inl h ↦ ground arith
      | inr (b, h) ↦
          let same : b ≡ a = ground arith in
          (
            slug,
            prefix,
            secret,
            w,
            f,
            g,
            h ∙ ap some same,
            ground arith,
            ground arith,
            ground (arith, str_eq_iff (env.scrypt secret a.salt) a.verifier),
          )
    ]
  ]
]

-- A service credential allows only what its account's roles and its scopes both allow, and only
-- while the account of its workspace and prefix is neither revoked nor expired, for the secret whose
-- hash the account keeps.
pub service_is_in_force :
    (env : Provider) (now : ℕ) (raw permission : String) (db : Db) (p : Principal)
    → (service_principal env now raw db).1 ≡ some p
    → allows p permission ≡ true
    → (slug : String) × (prefix : String) × (secret : String) × (w : Workspace)
      × (a : ServiceAccount) × (parse_token raw ≡ some (slug, prefix, secret))
      × (find_workspace slug db.workspaces ≡ some w)
      × (find_account w.id prefix db.accounts ≡ some a)
      × (a.revoked_at ≡ none)
      × (ltb now a.expires_at ≡ true)
      × (env.scrypt secret a.salt ≡ a.verifier)
      × (allows (record p { roles = a.roles; scopes = none }) permission ≡ true)
      × ((has_text "*" a.scopes || has_text permission a.scopes) ≡ true)
unfolding service_principal service_account allows
service_is_in_force env now raw permission db p e f =
    elim (Option-cases (service_account env now raw db)) [
      | inl g ↦ ground arith
      | inr (a, g) ↦
          let (slug, prefix, secret, w, parsed, found, account, unrevoked, live, known) =
            service_account_lem env now raw db a g in
          (
            slug,
            prefix,
            secret,
            w,
            a,
            parsed,
            found,
            account,
            unrevoked,
            live,
            known,
            ground arith,
            ground arith,
          )
    ]
