-- ===== src/Auth/Credentials.antt =====
-- _service_principal and current_principal of auth/principal.py: the principal of a request.
use Prim.Native.Char.{code}
use Prim.Native.String.{◌++◌ as concat}
use recordlane.Base.{
  ℕ, suc, String, not, ◌&&◌, ◌||◌, Option, none, some, List, [], ◌∷◌, ltb, leb, ◌==◌, if◌then◌else◌,
  str_eq, has_text, common,
}
use recordlane.Http.{Result, ok, err, ◌>>=◌, ◌>>◌, raise_if, required}
use recordlane.Auth.{
  Principal, Workspace, ServiceAccount, Db, Settings, Claims, Provider, find_identity,
}
use recordlane.Auth.Sessions.{is_some, session_principal, configured, metadata, workspace_of}

abbrev pub text_length : String → ℕ
text_length String.[] = 0
text_length (String.◌∷◌ c s) = suc (text_length s)

-- `s.removeprefix(p)`, if `s` starts with `p`
abbrev pub after_prefix : String → String → Option String
after_prefix String.[] s = some s
after_prefix (String.◌∷◌ c p) String.[] = none
after_prefix (String.◌∷◌ c p) (String.◌∷◌ d s) =
    let rest = after_prefix p s in if code c == code d then rest else none

-- `s.partition(c)`, if `c` is in `s`
abbrev pub split_first : ℕ → String → Option (String × String)
split_first c String.[] = none
split_first c (String.◌∷◌ d s) =
    let later = split_first c s in
    if code d == c
    then some ("", s)
    else elim later [ none ↦ none | some (a, b) ↦ some (String.◌∷◌ d a, b) ]

-- `s.rpartition(c)`, if `c` is in `s`
abbrev pub split_last : ℕ → String → Option (String × String)
split_last c String.[] = none
split_last c (String.◌∷◌ d s) = elim (split_last c s) [
  | some (a, b) ↦ some (String.◌∷◌ d a, b)
  | none ↦ if code d == c then some ("", s) else none
]

-- The slug, the token prefix and the secret of a service token, if it has the form of one.
unfoldable pub parse_token : String → Option (String × String × String)
parse_token raw = elim (split_first b'.' raw) [
  | none ↦ none
  | some (identifier, secret) ↦
      if ltb (text_length secret) 32 then none else elim (after_prefix "rl_sa_" identifier) [
        | none ↦ none
        | some encoded ↦ elim (split_last b'_' encoded) [
          | none ↦ none
          | some (slug, prefix) ↦
              if str_eq slug "" || str_eq prefix "" then none else some (slug, prefix, secret)
        ]
      ]
]

abbrev pub find_workspace : String → List Workspace → Option Workspace
find_workspace slug [] = none
find_workspace slug (w ∷ rest) = if str_eq w.slug slug then some w else find_workspace slug rest

abbrev pub find_account : String → String → List ServiceAccount → Option ServiceAccount
find_account workspace prefix [] = none
find_account workspace prefix (a ∷ rest) =
    if str_eq a.workspace_id workspace && str_eq a.token_prefix prefix
    then some a
    else find_account workspace prefix rest

abbrev pub write_account : ServiceAccount → List ServiceAccount → List ServiceAccount
write_account a [] = []
write_account a (b ∷ rest) = (if b.id == a.id then a else b) ∷ write_account a rest

-- The account of a token, if it is in force and the secret is its own.
unfoldable pub service_account : Provider → ℕ → String → Db → Option ServiceAccount
unfolding parse_token
service_account env now raw db = elim (parse_token raw) [
  | none ↦ none
  | some (slug, prefix, secret) ↦ elim (find_workspace slug db.workspaces) [
    | none ↦ none
    | some w ↦ elim (find_account w.id prefix db.accounts) [
      | none ↦ none
      | some a ↦
          if is_some a.revoked_at || leb a.expires_at now
          then none
          else if str_eq (env.scrypt secret a.salt) a.verifier
          then some a
          else none
    ]
  ]
]

unfoldable pub service_principal : Provider → ℕ → String → Db → Db × Option Principal
unfolding service_account
service_principal env now raw db = elim (service_account env now raw db) [
  | none ↦ (db, none)
  | some a ↦ (
    record db { accounts = write_account (record a { last_used_at = some now }) db.accounts },
    some (record {
      subject = concat "service-account:" (env.show_id a.id);
      issuer = "recordlane:service-account";
      workspace_id = a.workspace_id;
      roles = a.roles;
      scopes = some a.scopes;
    }),
  )
]

-- What current_principal reads of a request. `role_header` is split at its commas.
pub record Request : Type 0 where
  pub authorization : Option String
  pub cookie : Option String
  pub user_header : Option String
  pub role_header : Option (List String)
  pub workspace_header : Option String
  pub client_host : String

-- The principal of a token for the audience, by the local projection of the identity if there is
-- one.
unfoldable pub token_principal : Settings → Db → Claims → Result Principal
token_principal settings db claims = do
  workspace ← required (workspace_of claims.workspace) 403 "workspace_claim_required"
  elim (find_identity claims.iss claims.sub db.users) [
    | none ↦ ok (record {
      subject = claims.sub;
      issuer = claims.iss;
      workspace_id = workspace;
      roles = claims.realm_roles;
      scopes = none;
    })
    | some u ↦
        if not u.active
        then err 403 "identity_deprovisioned"
        else if not (has_text workspace u.workspace_ids)
        then err 403 "workspace_not_provisioned"
        else ok (record {
          subject = claims.sub;
          issuer = claims.iss;
          workspace_id = workspace;
          roles = common claims.realm_roles u.roles;
          scopes = none;
        })
  ]

unfoldable pub bearer_principal : Provider → Settings → String → Db → Result Principal
unfolding token_principal
bearer_principal env settings token db = do
  issuer ← required (configured settings.oidc_issuer) 503 "identity_not_configured"
  audience ← required (configured settings.oidc_audience) 503 "identity_not_configured"
  found ← metadata env settings
  claims ← required (env.decode_access token) 401 "invalid_token"
  token_principal settings db claims

abbrev pub or_default : Option String → String → String
or_default o d = elim (configured o) [ none ↦ d | some s ↦ s ]

-- The demonstration's principal, for a request from this machine.
unfoldable pub demo_principal : Settings → Request → Result Principal
demo_principal settings request = do
  raise_if (not settings.demo_mode) 401 "authentication_required"
  raise_if
      (not (has_text request.client_host ("127.0.0.1" ∷ "::1" ∷ "testclient" ∷ []))
        && not settings.demo_allow_reverse_proxy)
      403 "demo_remote_forbidden"
  ok (record {
    subject = or_default request.user_header "demo.steward";
    issuer = "recordlane:loopback-demo";
    workspace_id = or_default request.workspace_header "demo";
    roles = elim request.role_header [ none ↦ "administrator" ∷ [] | some roles ↦ roles ];
    scopes = none;
  })

-- `if principal: return principal`, and the error otherwise
abbrev pub principal_or : Db × Option Principal → String → Db × Result Principal
principal_or (db, none) code' = (db, err 401 code')
principal_or (db, some p) code' = (db, ok p)

-- The session of the cookie, or the demonstration.
unfoldable pub cookie_principal : Provider → Settings → ℕ → Request → Db → Db × Result Principal
unfolding demo_principal
cookie_principal env settings now request db = elim (configured request.cookie) [
  | none ↦ (db, demo_principal settings request)
  | some raw ↦ principal_or (session_principal env now raw db) "invalid_session"
]

-- The principal of a request: a service key, a bearer token, a session cookie, or the demonstration,
-- by the first that the request has.
unfoldable pub current_principal : Provider → Settings → ℕ → Request → Db → Db × Result Principal
unfolding cookie_principal
current_principal env settings now request db = elim request.authorization [
  | none ↦ cookie_principal env settings now request db
  | some a ↦ elim (after_prefix "RecordlaneKey " a) [
    | some key ↦ principal_or (service_principal env now key db) "invalid_service_credential"
    | none ↦ elim (after_prefix "Bearer " a) [
      | some token ↦ (db, bearer_principal env settings token db)
      | none ↦ cookie_principal env settings now request db
    ]
  ]
]
