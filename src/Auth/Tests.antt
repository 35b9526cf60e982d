-- ===== src/Auth/Tests.antt =====
-- Runs of the authentication modules, with an identity provider of a few functions.
use Prim.Native.String.{◌++◌ as concat}
use recordlane.Base.{
  ℕ, String, ◌≡◌, ◌↔◌, ◌⊎◌, refl, true, false, Option, none, some, List, [], ◌∷◌, ◌++◌, Dict,
  str_eq, if◌then◌else◌, is_subset, has_text, ltb, contains, ◌||◌,
}
use recordlane.Http.{ok, err}
use recordlane.Auth.{
  Principal, Workspace, IdentityUser, IdentityGroup, BrowserSession, ServiceAccount, Db, Settings,
  one_workspace, Claims, Provider, find_identity,
}
use recordlane.Auth.Permissions.{allows, role_permissions}
use recordlane.Auth.Sessions.{metadata, session_principal, workspace_of}
use recordlane.Auth.Callback.{callback}
use recordlane.Auth.Credentials.{
  service_principal, parse_token, find_workspace, find_account, bearer_principal,
}
use recordlane.Auth.Users.{add, remove, delete_user, set_active, replace}
use recordlane.Auth.Users.{filter_value}
use recordlane.Auth.Groups.{GroupOperation, set_members, patch_group, users_in}
use recordlane.Auth.Commands.{Command, finish_login, scim_patch_user, scim_delete_group, apply_all}
use recordlane.Auth.Kept.{revoked_forever}
use recordlane.Auth.Login.{callback_once}
use recordlane.Auth.Principals.{
  IsOf, session_principal_exact, bearer_is_bounded, service_is_in_force, session_view,
}
use recordlane.Auth.Deprovisioning.{deleted_user_is_out}
use recordlane.Auth.Members.{addition_restores_members}
use recordlane.Auth.Paging.{filter_value_roundtrip}

abbrev claims_of_ann : Claims
claims_of_ann = record {
  iss = "https://idp";
  sub = "ann";
  exp = 900;
  nonce = "n1";
  realm_roles = "steward" ∷ "approver" ∷ [];
  resource_roles = [];
  workspace = one_workspace "w1";
  preferred_username = some "ann";
  name = none;
}

abbrev document : Dict String
document =
    ("issuer", "https://idp")
    ∷ ("authorization_endpoint", "https://idp/a")
    ∷ ("token_endpoint", "https://idp/t")
    ∷ ("jwks_uri", "https://idp/k")
    ∷ []

abbrev example_env : Provider
example_env = record {
  sha256 = λ s. concat "#" s;
  decrypt = λ s. some s;
  discovery = some document;
  exchange = λ code verifier.
      if str_eq code "code"
      then some (record { id_token = "ann-id"; access_token = "ann-access" })
      else none;
  decode_id = λ t. if str_eq t "ann-id" then some claims_of_ann else none;
  decode_access = λ t. if str_eq t "ann-access" then some claims_of_ann else none;
  scrypt = λ secret salt. concat salt secret;
  show_id = λ n. "7";
}

abbrev example_settings : Settings
example_settings = record {
  oidc_issuer = some "https://idp";
  oidc_client_id = some "recordlane";
  oidc_audience = some "recordlane-api";
  oidc_token_url = none;
  oidc_jwks_url = none;
  oidc_end_session_url = none;
  oidc_auto_provision = false;
  session_secret = some "secret";
  session_ttl_seconds = 300;
  demo_mode = false;
  demo_allow_reverse_proxy = false;
}

abbrev ann : IdentityUser
ann = record {
  id = 1;
  issuer = "https://idp";
  subject = "ann";
  external_id = some "ann";
  user_name = "ann";
  display_name = none;
  active = true;
  roles = "steward" ∷ [];
  workspace_ids = "w1" ∷ [];
  version = 1;
  updated_at = 0;
}

abbrev session_of_ann : Option ℕ → BrowserSession
session_of_ann revoked = record {
  id = 1;
  token_hash = "#raw";
  identity_user_id = 1;
  issuer = "https://idp";
  workspace_id = "w1";
  roles = "steward" ∷ [];
  id_token_hint = none;
  expires_at = 500;
  revoked_at = revoked;
  last_seen_at = 0;
}

abbrev service_secret : String
service_secret = "0123456789abcdef0123456789abcdef"

abbrev example_account : ServiceAccount
example_account = record {
  id = 7;
  workspace_id = "w1";
  name = "loader";
  token_prefix = "abcd";
  verifier = concat "salt" service_secret;
  salt = "salt";
  credential_version = 1;
  roles = "integration_operator" ∷ [];
  scopes = "ingest" ∷ [];
  expires_at = 800;
  revoked_at = none;
  created_by = "ann";
  last_used_at = none;
}

abbrev example_db : List BrowserSession → Db
example_db sessions = record {
  workspaces = record { id = "w1"; slug = "main" } ∷ [];
  users = ann ∷ [];
  groups =
      record {
        id = 4;
        issuer = "https://idp";
        external_id = "g";
        display_name = "stewards";
        roles = "auditor" ∷ [];
        workspace_ids = [];
        version = 1;
        updated_at = 0;
      }
      ∷ [];
  members = record { group_id = 4; user_id = 1 } ∷ [];
  sessions = sessions;
  logins =
      record {
        state_hash = "#state";
        encrypted_verifier = "v";
        nonce = "n1";
        return_to = "/";
        created_at = 90;
        consumed_at = none;
      }
      ∷ [];
  accounts = example_account ∷ [];
}

abbrev with_session : Db
with_session = example_db (session_of_ann none ∷ [])

abbrev signed_out : Db
signed_out = example_db (session_of_ann (some 50) ∷ [])

abbrev example_commands : List (ℕ × Command)
example_commands =
    (100, scim_patch_user 1 (set_active replace (some true) ∷ []))
    ∷ (110, finish_login 9 2 "raw2" "code" "state")
    ∷ (120, scim_delete_group 4)
    ∷ []

revoked_forever_example :
    (session_principal example_env 130 "raw"
      (apply_all example_env example_settings example_commands signed_out)).1
    ≡ none
revoked_forever_example =
    revoked_forever example_env example_settings example_commands 130 "raw" signed_out
      (session_of_ann (some 50), refl, refl)

callback_once_example :
    ((status : ℕ) × (detail : String) × (callback example_env example_settings 100 9 2 "raw2" "code"
          "state" with_session
        ≡ (with_session, err status detail)))
    ⊎ (callback example_env example_settings 101 9 3 "raw3" "code" "state"
          (callback example_env example_settings 100 9 2 "raw2" "code" "state" with_session).0
        ≡ (
          (callback example_env example_settings 100 9 2 "raw2" "code" "state" with_session).0,
          err 401 "invalid_oidc_state",
        ))
callback_once_example =
    callback_once example_env example_settings 100 9 2 "raw2" "code" "state" with_session 101 9 3
      "raw3" "code"

abbrev after_callback : Db
after_callback =
    (callback example_env example_settings 100 9 2 "raw2" "code" "state" with_session).0

session_principal_exact_example :
    ((session_principal example_env 100 "raw" with_session).1
      ≡ some (session_view (session_of_ann none) ann))
    ↔ ((row : BrowserSession) × (u : IdentityUser) × IsOf example_env 100 "raw" with_session
          (session_view (session_of_ann none) ann)
          row
          u)
session_principal_exact_example =
    session_principal_exact example_env 100 "raw" with_session
      (session_view (session_of_ann none) ann)

abbrev bearer_of_ann : Principal
bearer_of_ann = record {
  subject = "ann";
  issuer = "https://idp";
  workspace_id = "w1";
  roles = "steward" ∷ [];
  scopes = none;
}

bearer_is_bounded_example :
    (claims : Claims) × (example_env.decode_access "ann-access" ≡ some claims)
    × (workspace_of claims.workspace ≡ some "w1")
    × (is_subset bearer_of_ann.roles claims.realm_roles ≡ true)
    × ((find_identity claims.iss claims.sub with_session.users ≡ none)
        ⊎ ((u : IdentityUser) × (find_identity claims.iss claims.sub with_session.users ≡ some u)
            × (u.active ≡ true)
            × (is_subset bearer_of_ann.roles u.roles ≡ true)
            × (has_text "w1" u.workspace_ids ≡ true)))
unfolding bearer_principal metadata workspace_of
bearer_is_bounded_example =
    bearer_is_bounded example_env example_settings "ann-access" with_session bearer_of_ann refl

abbrev service_token : String
service_token = concat "rl_sa_main_abcd." service_secret

abbrev service_of_loader : Principal
service_of_loader = record {
  subject = "service-account:7";
  issuer = "recordlane:service-account";
  workspace_id = "w1";
  roles = "integration_operator" ∷ [];
  scopes = some ("ingest" ∷ []);
}

service_is_in_force_example :
    (slug : String) × (prefix : String) × (secret : String) × (w : Workspace) × (a : ServiceAccount)
    × (parse_token service_token ≡ some (slug, prefix, secret))
    × (find_workspace slug with_session.workspaces ≡ some w)
    × (find_account w.id prefix with_session.accounts ≡ some a)
    × (a.revoked_at ≡ none)
    × (ltb 100 a.expires_at ≡ true)
    × (example_env.scrypt secret a.salt ≡ a.verifier)
    × (allows (record service_of_loader { roles = a.roles; scopes = none }) "ingest" ≡ true)
    × ((has_text "*" a.scopes || has_text "ingest" a.scopes) ≡ true)
unfolding service_principal allows role_permissions
service_is_in_force_example =
    service_is_in_force example_env 100 service_token "ingest" with_session service_of_loader refl
      refl

deleted_user_is_out_example :
    (session_principal example_env 130 "raw"
      (apply_all example_env example_settings example_commands (delete_user 60 1 with_session).0)).1
    ≡ none
unfolding delete_user
deleted_user_is_out_example =
    deleted_user_is_out example_env example_settings example_commands 60 130 1 "raw" with_session
      (session_of_ann none) refl refl refl

abbrev group_patch : List GroupOperation
group_patch = set_members remove none ∷ []

abbrev stewards : IdentityGroup
stewards = record {
  id = 4;
  issuer = "https://idp";
  external_id = "g";
  display_name = "stewards";
  roles = "auditor" ∷ [];
  workspace_ids = [];
  version = 2;
  updated_at = 100;
}

addition_restores_members_example :
    contains 1 (
      users_in 4
        (patch_group 100 4 (group_patch ++ set_members add (some []) ∷ []) with_session).0.members)
    ≡ true
unfolding patch_group
addition_restores_members_example =
    addition_restores_members 100 4 1 group_patch (some []) with_session stewards refl refl

abbrev three_users : List IdentityUser
three_users = ann ∷ record ann { id = 2 } ∷ record ann { id = 3 } ∷ []

filter_value_roundtrip_example :
    filter_value (some (concat (concat "userName" " eq \"") (concat "a\"b" "\""))) "userName"
    ≡ ok (some "a\"b")
filter_value_roundtrip_example = filter_value_roundtrip "userName" "a\"b"
