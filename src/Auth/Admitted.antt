-- ===== src/Auth/Admitted.antt =====
-- What a completed login changes, and what it grants.
use recordlane.Base.{
  ℕ, String, ◌≡◌, refl, sym, ap, some, List, [], ◌∷◌, ◌++◌, str_eq, str_eq_iff, arith, not,
}
use recordlane.Http.{ok, >>=-ok, required, raise_if, ok-eq, required-ok}
use recordlane.Auth.{
  IdentityUser, BrowserSession, OidcLogin, Db, Settings, Claims, Tokens, Provider,
}
use recordlane.Auth.Sessions.{validate_id_token, workspace_of, token_roles}
use recordlane.Auth.Callback.{complete, consume, admit, client_of, new_session}

-- The tables after a completed login: the transaction is consumed and a session added, with the
-- roles that `admit` gives.
pub complete_lem :
    (env : Provider) (settings : Settings) (now user_id session_id : ℕ) (raw : String)
    (l : OidcLogin) (tokens : Tokens) (hash : String) (db db' : Db) (to : String)
    → complete env settings now user_id session_id raw l tokens hash db ≡ ok (db', to)
    → (s : BrowserSession) × (users : List IdentityUser) × (db' ≡ record db {
      users = users;
      logins = consume now hash db.logins;
      sessions = db.sessions ++ s ∷ [];
    })
      × (claims : Claims) × (access : Claims) × (u : IdentityUser) × (env.decode_access
            tokens.access_token
          ≡ some access)
      × (admit settings now user_id s.issuer claims
            (token_roles access (client_of settings))
            s.workspace_id
            db
          ≡ ok (u, s.roles, users))
      × (s.identity_user_id ≡ u.id)
      × (validate_id_token env tokens.id_token l.nonce ≡ ok claims)
      × (access.sub ≡ claims.sub)
unfolding complete
complete_lem env settings now user_id session_id raw l tokens hash db db' to e =
    let (claims, e1, f1) = >>=-ok (validate_id_token env tokens.id_token l.nonce) _ _ e in
    let (access, e2, f2) =
      >>=-ok (required (env.decode_access tokens.access_token) 401 "invalid_access_token") _ _ f1 in
    let (_, e3, f3) =
      >>=-ok (raise_if (not (str_eq access.sub claims.sub)) 401 "oidc_subject_mismatch") _ _ f2 in
    let (workspace, e4, f4) =
      >>=-ok (required (workspace_of claims.workspace) 403 "workspace_claim_required") _ _ f3 in
    let (issuer, e5, f5) =
      >>=-ok (required settings.oidc_issuer 503 "identity_not_configured") _ _ f4 in
    let (admitted, e6, f6) =
      >>=-ok
        (admit settings now user_id issuer claims (token_roles access (client_of settings))
          workspace db)
        _ _ f5 in
    (
      new_session now settings.session_ttl_seconds session_id (env.sha256 raw) admitted.0.id issuer
          workspace admitted.1 tokens.id_token claims.exp,
      admitted.2,
      ap (λ x. x.0) (sym (ok-eq f6)),
      claims,
      access,
      admitted.0,
      required-ok (env.decode_access tokens.access_token) 401 "invalid_access_token" access e2,
      e6,
      refl,
      e1,
      ground (arith, str_eq_iff access.sub claims.sub, e3),
    )
