-- ===== src/Auth.antt =====
-- Who may do what: backend/src/recordlane/auth. The rows are those of models/tables.py that the
-- modules of that folder read and write, for all workspaces.
--   Permissions   Principal.allows and require (principal.py)
--   Sessions      browser sessions: session_principal, login's checks, callback, logout (session.py)
--   Credentials   service credentials and current_principal (principal.py)
--   Users, Groups the SCIM handlers (scim.py)
-- Identifiers of rows are UUID texts that are only compared: numbers here. A new row's identifier,
-- the time and fresh random tokens are arguments. A database constraint that a commit violates is
-- the exception IntegrityError. What the standard library, the JWT library and the identity provider
-- answer is a parameter, `Provider`.
use recordlane.Base.{
  ℕ, String, Bool, Option, List, Dict, ◌==◌, if◌then◌else◌, none, some, [], ◌∷◌, str_eq,
}
pub mod Permissions
pub mod Sessions
pub mod Callback
pub mod Credentials
pub mod Users
pub mod Groups
pub mod Directory
mod Admitted
mod Revocation
mod Commands
mod Kept
mod Login
mod Principals
mod Deprovisioning
mod Members
mod Paging
mod Tests

pub record Principal : Type 0 where
  pub subject : String
  pub issuer : String
  pub workspace_id : String
  pub roles : List String
  pub scopes : Option (List String)

pub record Workspace : Type 0 where
  pub id : String
  pub slug : String

pub record IdentityUser : Type 0 where
  pub id : ℕ
  pub issuer : String
  pub subject : String
  pub external_id : Option String
  pub user_name : String
  pub display_name : Option String
  pub active : Bool
  pub roles : List String
  pub workspace_ids : List String
  pub version : ℕ
  pub updated_at : ℕ

pub record IdentityGroup : Type 0 where
  pub id : ℕ
  pub issuer : String
  pub external_id : String
  pub display_name : String
  pub roles : List String
  pub workspace_ids : List String
  pub version : ℕ
  pub updated_at : ℕ

pub record IdentityGroupMember : Type 0 where
  pub group_id : ℕ
  pub user_id : ℕ

pub record BrowserSession : Type 0 where
  pub id : ℕ
  pub token_hash : String
  pub identity_user_id : ℕ
  pub issuer : String
  pub workspace_id : String
  pub roles : List String
  pub id_token_hint : Option String
  pub expires_at : ℕ
  pub revoked_at : Option ℕ
  pub last_seen_at : ℕ

pub record OidcLogin : Type 0 where
  pub state_hash : String
  pub encrypted_verifier : String
  pub nonce : String
  pub return_to : String
  pub created_at : ℕ
  pub consumed_at : Option ℕ

pub record ServiceAccount : Type 0 where
  pub id : ℕ
  pub workspace_id : String
  pub name : String
  pub token_prefix : String
  pub verifier : String
  pub salt : String
  pub credential_version : ℕ
  pub roles : List String
  pub scopes : List String
  pub expires_at : ℕ
  pub revoked_at : Option ℕ
  pub created_by : String
  pub last_used_at : Option ℕ

pub record Db : Type 0 where
  pub workspaces : List Workspace
  pub users : List IdentityUser
  pub groups : List IdentityGroup
  pub members : List IdentityGroupMember
  pub sessions : List BrowserSession
  pub logins : List OidcLogin
  pub accounts : List ServiceAccount

-- The settings of settings.py that these modules read.
pub record Settings : Type 0 where
  pub oidc_issuer : Option String
  pub oidc_client_id : Option String
  pub oidc_audience : Option String
  pub oidc_token_url : Option String
  pub oidc_jwks_url : Option String
  pub oidc_end_session_url : Option String
  pub oidc_auto_provision : Bool
  pub session_secret : Option String
  pub session_ttl_seconds : ℕ
  pub demo_mode : Bool
  pub demo_allow_reverse_proxy : Bool

-- `claims["recordlane_workspace"]`
pub data WorkspaceClaim : Type 0 where
  no_workspace : WorkspaceClaim
  one_workspace : String → WorkspaceClaim
  many_workspaces : List String → WorkspaceClaim

-- The claims of a token that a signature and the required claims vouch for.
pub record Claims : Type 0 where
  pub iss : String
  pub sub : String
  pub exp : ℕ
  pub nonce : String
  pub realm_roles : List String
  pub resource_roles : Dict (List String)
  pub workspace : WorkspaceClaim
  pub preferred_username : Option String
  pub name : Option String

pub record Tokens : Type 0 where
  pub id_token : String
  pub access_token : String

pub record Provider : Type 0 where
  -- hashlib.sha256(text).hexdigest()
  pub sha256 : String → String
  -- Fernet with the session secret; nothing on InvalidToken
  pub decrypt : String → Option String
  -- the discovery document, or nothing on an HTTPError or a ValueError
  pub discovery : Option (Dict String)
  -- the exchange of a code and a verifier, or nothing on an HTTPError, ValueError or OSError
  pub exchange : String → String → Option Tokens
  -- jwt.decode for the client and for the audience, or nothing on an exception
  pub decode_id : String → Option Claims
  pub decode_access : String → Option Claims
  -- hashlib.scrypt of a secret and a salt
  pub scrypt : String → String → String
  -- str(id)
  pub show_id : ℕ → String

abbrev pub find_user : ℕ → List IdentityUser → Option IdentityUser
find_user id [] = none
find_user id (u ∷ rest) = if u.id == id then some u else find_user id rest

abbrev pub write_user : IdentityUser → List IdentityUser → List IdentityUser
write_user u [] = []
write_user u (v ∷ rest) = (if v.id == u.id then u else v) ∷ write_user u rest

abbrev pub find_identity : String → String → List IdentityUser → Option IdentityUser
find_identity issuer subject [] = none
find_identity issuer subject (u ∷ rest) =
    let later = find_identity issuer subject rest in
    if str_eq u.issuer issuer then if str_eq u.subject subject then some u else later else later

abbrev pub find_session : String → List BrowserSession → Option BrowserSession
find_session hash [] = none
find_session hash (s ∷ rest) = if str_eq s.token_hash hash then some s else find_session hash rest
