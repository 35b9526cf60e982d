-- ===== src/Auth/Callback.antt =====
-- The routes of auth/session.py: login's checks and its transaction, callback, session and logout.
use recordlane.Base.{
  ℕ, ◌+◌, String, true, not, ◌||◌, Option, none, some, List, [], ◌∷◌, ◌++◌, ltb, if◌then◌else◌,
  str_eq, has_text, common,
}
use text.Mathlib.Text.{starts_with}
use recordlane.Http.{Result, ok, err, ◌>>=◌, ◌>>◌, raise_if, required}
use recordlane.Auth.{
  IdentityUser, BrowserSession, OidcLogin, Db, Settings, Claims, Tokens, Provider, find_identity,
}
use recordlane.Auth.Sessions.{
  is_some, change_sessions, revoke, has_hash, provisioned_entitlements, configured, metadata,
  token_roles, workspace_of, validate_id_token,
}

abbrev pub find_login : String → List OidcLogin → Option OidcLogin
find_login hash [] = none
find_login hash (l ∷ rest) = if str_eq l.state_hash hash then some l else find_login hash rest

abbrev pub consume : ℕ → String → List OidcLogin → List OidcLogin
consume now hash [] = []
consume now hash (l ∷ rest) =
    (if str_eq l.state_hash hash then record l { consumed_at = some now } else l)
    ∷ consume now hash rest

-- login, up to the redirect: the transaction of a fresh state, verifier and nonce.
unfoldable pub login : Provider → Settings → ℕ → String → String → String → String → Db → Result Db
login env settings now state encrypted nonce return_to db = do
  client ← required (configured settings.oidc_client_id) 503 "browser_identity_not_configured"
  raise_if (not (starts_with return_to "/") || starts_with return_to "//") 422 "invalid_return_to"
  found ← metadata env settings
  secret ← required (configured settings.session_secret) 503 "browser_sessions_not_configured"
  ok (record db {
    logins =
        db.logins
        ++ record {
          state_hash = env.sha256 state;
          encrypted_verifier = encrypted;
          nonce = nonce;
          return_to = return_to;
          created_at = now;
          consumed_at = none;
        }
          ∷ [];
  })

abbrev pub ten_minutes : ℕ
ten_minutes = 600

-- `not transaction or transaction.consumed_at or` it is too old, negated
unfoldable pub open_login : ℕ → String → List OidcLogin → Option OidcLogin
open_login now hash logins = elim (find_login hash logins) [
  | none ↦ none
  | some l ↦ if is_some l.consumed_at || ltb (l.created_at + ten_minutes) now then none else some l
]

-- What callback does before the exchange: the transaction and its verifier.
unfoldable pub prepare : Provider → Settings → ℕ → String → Db → Result (OidcLogin × String)
unfolding open_login
prepare env settings now state db = do
  found ← metadata env settings
  transaction ← required (open_login now (env.sha256 state) db.logins) 401 "invalid_oidc_state"
  secret ← required (configured settings.session_secret) 503 "browser_sessions_not_configured"
  verifier ←
      required (env.decrypt transaction.encrypted_verifier) 401 "oidc_transaction_key_rotated"
  ok (transaction, verifier)

-- `settings.oidc_client_id or ""`
abbrev pub client_of : Settings → String
client_of settings = elim settings.oidc_client_id [ none ↦ "" | some c ↦ c ]

-- A user that a first login provisions.
abbrev pub new_identity : ℕ → ℕ → String → Claims → List String → String → IdentityUser
new_identity now user_id issuer claims roles workspace = record {
  id = user_id;
  issuer = issuer;
  subject = claims.sub;
  external_id = none;
  user_name = elim (configured claims.preferred_username) [ none ↦ claims.sub | some n ↦ n ];
  display_name = claims.name;
  active = true;
  roles = roles;
  workspace_ids = workspace ∷ [];
  version = 1;
  updated_at = now;
}

-- `sorted(set(roles) & provisioned_roles) if provisioned_roles else roles`
abbrev pub restricted : List String → List String → List String
restricted roles [] = roles
restricted roles (p ∷ ps) = common roles (p ∷ ps)

-- The identity of the login, the roles of its session, and the users after it.
unfoldable pub admit :
    Settings
    → ℕ
    → ℕ
    → String
    → Claims
    → List String
    → String
    → Db
    → Result (IdentityUser × List String × List IdentityUser)
admit settings now user_id issuer claims roles workspace db =
    let provisioned = new_identity now user_id issuer claims roles workspace in
    elim (find_identity issuer claims.sub db.users) [
      | none ↦
          if settings.oidc_auto_provision
          then ok (provisioned, roles, db.users ++ provisioned ∷ [])
          else err 403 "identity_not_provisioned"
      | some u ↦
          if not u.active
          then err 403 "identity_deprovisioned"
          else if not (has_text workspace (provisioned_entitlements db u).1)
          then err 403 "workspace_not_provisioned"
          else ok (u, restricted roles (provisioned_entitlements db u).0, db.users)
    ]

-- A session ends with its token, or after the setting's time if that is earlier.
abbrev pub new_session :
    ℕ → ℕ → ℕ → String → ℕ → String → String → List String → String → ℕ → BrowserSession
new_session now ttl session_id token_hash user_id issuer workspace roles hint exp = record {
  id = session_id;
  token_hash = token_hash;
  identity_user_id = user_id;
  issuer = issuer;
  workspace_id = workspace;
  roles = roles;
  id_token_hint = some hint;
  expires_at = if ltb exp (now + ttl) then exp else now + ttl;
  revoked_at = none;
  last_seen_at = now;
}

-- The issuer is set: `metadata` has tested it. What callback does after the exchange: the new session of the token `raw_session`, the tables, and
-- where the browser is sent.
unfoldable pub complete :
    Provider
    → Settings
    → ℕ
    → ℕ
    → ℕ
    → String
    → OidcLogin
    → Tokens
    → String
    → Db
    → Result (Db × String)
unfolding admit
complete env settings now user_id session_id raw_session transaction tokens hash db = do
  claims ← validate_id_token env tokens.id_token transaction.nonce
  access ← required (env.decode_access tokens.access_token) 401 "invalid_access_token"
  raise_if (not (str_eq access.sub claims.sub)) 401 "oidc_subject_mismatch"
  workspace ← required (workspace_of claims.workspace) 403 "workspace_claim_required"
  issuer ← required settings.oidc_issuer 503 "identity_not_configured"
  let roles = token_roles access (client_of settings)
  admitted ← admit settings now user_id issuer claims roles workspace db
  ok (
      (
        record db {
          users = admitted.2;
          logins = consume now hash db.logins;
          sessions =
              db.sessions
              ++ new_session now settings.session_ttl_seconds session_id (env.sha256 raw_session)
                  admitted.0.id issuer workspace admitted.1 tokens.id_token claims.exp
                ∷ [];
        },
        transaction.return_to,
      ))

-- The tables as committed, and where the browser is sent. Only a failed exchange commits and fails.
unfoldable pub callback :
    Provider → Settings → ℕ → ℕ → ℕ → String → String → String → Db → Db × Result String
unfolding prepare complete
callback env settings now user_id session_id raw_session code state db =
    let hash = env.sha256 state in
    elim (prepare env settings now state db) [
      | err status code' ↦ (db, err status code')
      | ok (transaction, verifier) ↦ elim (env.exchange code verifier) [
        | none ↦
            (record db { logins = consume now hash db.logins }, err 502 "oidc_code_exchange_failed")
        | some tokens ↦
            elim (complete env settings now user_id session_id raw_session transaction tokens hash
              db) [
                | err status code' ↦ (db, err status code')
                | ok (db', return_to) ↦ (db', ok return_to)
              ]
      ]
    ]

-- logout: the session of the cookie is revoked, live or not.
unfoldable pub logout : Provider → ℕ → Option String → Db → Db
logout env now none db = db
logout env now (some raw) db = if str_eq raw "" then db else record db {
  sessions = change_sessions (has_hash (env.sha256 raw)) (revoke now) db.sessions;
}
