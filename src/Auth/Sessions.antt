-- ===== src/Auth/Sessions.antt =====
-- Browser sessions: session_principal, revoke_identity_sessions, provisioned_entitlements, _metadata,
-- callback and logout of auth/session.py.
use recordlane.Base.{
  ℕ, String, Bool, true, false, not, ◌&&◌, Option, none, some, List, [], ◌∷◌, ◌++◌, ltb, ◌==◌,
  if◌then◌else◌, str_eq, select, length, any, Dict, lookup, insert, has_key, sorted_set,
}
use recordlane.Http.{Result, ok, ◌>>=◌, ◌>>◌, raise_if, required}
use recordlane.Auth.{
  Principal, IdentityUser, IdentityGroup, BrowserSession, Db, Settings, WorkspaceClaim,
  no_workspace, one_workspace, many_workspaces, Claims, Provider, find_user, find_session,
}

abbrev pub is_some {ℓ} : {A : Type ℓ} → Option A → Bool
is_some none = false
is_some (some _) = true

-- The rows that a test picks are changed.
abbrev pub change_sessions :
    (BrowserSession → Bool)
    → (BrowserSession → BrowserSession)
    → List BrowserSession
    → List BrowserSession
change_sessions p f [] = []
change_sessions p f (s ∷ rest) = (if p s then f s else s) ∷ change_sessions p f rest

abbrev pub revoke : ℕ → BrowserSession → BrowserSession
revoke now s = record s { revoked_at = some now }

abbrev pub touch : ℕ → BrowserSession → BrowserSession
touch now s = record s { last_seen_at = now }

abbrev pub has_hash : String → BrowserSession → Bool
has_hash hash s = str_eq s.token_hash hash

-- `not row or row.revoked_at or _aware(row.expires_at) <= _now()`, of a row
unfoldable pub is_live : ℕ → BrowserSession → Bool
is_live now s = not (is_some s.revoked_at) && ltb now s.expires_at

-- `not identity or not identity.active`, negated
unfoldable pub active_user : ℕ → Db → Option IdentityUser
active_user id db = elim (find_user id db.users) [
  | none ↦ none
  | some u ↦ if u.active then some u else none
]

-- The principal of a session token. A session whose user is gone or inactive is revoked.
unfoldable pub session_principal : Provider → ℕ → String → Db → Db × Option Principal
unfolding is_live active_user
session_principal env now raw_token db =
    let digest = env.sha256 raw_token in
    elim (find_session digest db.sessions) [
      | none ↦ (db, none)
      | some row ↦
          if not (is_live now row) then (db, none) else elim (active_user row.identity_user_id db) [
            | none ↦ (
              record db { sessions = change_sessions (has_hash digest) (revoke now) db.sessions },
              none,
            )
            | some identity ↦ (
              record db { sessions = change_sessions (has_hash digest) (touch now) db.sessions },
              some (record {
                subject = identity.subject;
                issuer = row.issuer;
                workspace_id = row.workspace_id;
                roles = row.roles;
                scopes = none;
              }),
            )
          ]
    ]

abbrev pub is_open_session : ℕ → BrowserSession → Bool
is_open_session user_id s = (s.identity_user_id == user_id) && not (is_some s.revoked_at)

-- The sessions of a user are revoked; the number of them.
unfoldable pub revoke_identity_sessions : ℕ → ℕ → Db → Db × ℕ
revoke_identity_sessions now user_id db = (
  record db { sessions = change_sessions (is_open_session user_id) (revoke now) db.sessions },
  length (select (is_open_session user_id) db.sessions),
)

-- The groups that the user is a member of.
abbrev pub groups_of : Db → ℕ → List IdentityGroup
groups_of db user_id =
    select (λ g. any (λ m. m.group_id == g.id && m.user_id == user_id) db.members) db.groups

abbrev pub group_roles : List IdentityGroup → List String
group_roles [] = []
group_roles (g ∷ rest) = g.roles ++ group_roles rest

abbrev pub group_workspaces : List IdentityGroup → List String
group_workspaces [] = []
group_workspaces (g ∷ rest) = g.workspace_ids ++ group_workspaces rest

-- The roles and the workspaces of a user, the groups' included.
unfoldable pub provisioned_entitlements : Db → IdentityUser → List String × List String
provisioned_entitlements db u =
    let groups = groups_of db u.id in
    (u.roles ++ group_roles groups, u.workspace_ids ++ group_workspaces groups)

-- `if setting: metadata[key] = setting`
abbrev pub override : Option String → String → Dict String → Dict String
override none key metadata = metadata
override (some s) key metadata = if str_eq s "" then metadata else insert key s metadata

-- A setting that is set and is not empty.
abbrev pub configured : Option String → Option String
configured none = none
configured (some s) = if str_eq s "" then none else some s

unfoldable pub metadata : Provider → Settings → Result (Dict String)
metadata env settings = do
  issuer ← required (configured settings.oidc_issuer) 503 "identity_not_configured"
  found ← required env.discovery 503 "identity_provider_unavailable"
  declared ← required (lookup "issuer" found) 503 "identity_issuer_mismatch"
  raise_if (not (str_eq declared issuer)) 503 "identity_issuer_mismatch"
  let with_token = override settings.oidc_token_url "token_endpoint" found
  let with_keys = override settings.oidc_jwks_url "jwks_uri" with_token
  let complete = override settings.oidc_end_session_url "end_session_endpoint" with_keys
  raise_if
      (not (
        has_key "authorization_endpoint" complete
        && has_key "token_endpoint" complete
        && has_key "jwks_uri" complete))
      503 "identity_metadata_incomplete"
  ok complete

-- _roles: the realm's and the client's, as a sorted set
unfoldable pub token_roles : Claims → String → List String
token_roles claims client_id = sorted_set (
    claims.realm_roles
    ++ elim (lookup client_id claims.resource_roles) [ none ↦ [] | some roles ↦ roles ])

-- The workspace of a token: the first if there are several, none if it is empty.
unfoldable pub workspace_of : WorkspaceClaim → Option String
workspace_of no_workspace = none
workspace_of (one_workspace w) = configured (some w)
workspace_of (many_workspaces []) = none
workspace_of (many_workspaces (w ∷ _)) = configured (some w)

unfoldable pub validate_id_token : Provider → String → String → Result Claims
validate_id_token env token nonce = do
  claims ← required (env.decode_id token) 401 "invalid_id_token"
  raise_if (not (str_eq claims.nonce nonce)) 401 "invalid_oidc_nonce"
  ok claims
