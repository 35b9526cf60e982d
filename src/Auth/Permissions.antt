-- ===== src/Auth/Permissions.antt =====
-- ROLE_PERMISSIONS, Principal.allows and require of auth/principal.py.
use recordlane.Base.{
  String, Bool, true, ◌&&◌, ◌||◌, Option, none, some, List, [], ◌∷◌, ◌++◌, if◌then◌else◌, str_eq,
  has_text,
}
use recordlane.Http.{Result, ok, err}
use recordlane.Auth.{Principal}

-- A role that is not in the table has no permissions.
unfoldable pub role_permissions : String → List String
role_permissions role =
    if str_eq role "administrator"
    then "*" ∷ []
    else if str_eq role "modeler"
    then "read" ∷ "model:write" ∷ "config:simulate" ∷ "config:publish" ∷ []
    else if str_eq role "integration_operator"
    then "read" ∷ "source:write" ∷ "ingest" ∷ "publish:operate" ∷ []
    else if str_eq role "steward"
    then "read" ∷ "review:decide" ∷ "record:propose" ∷ "merge:propose" ∷ []
    else if str_eq role "approver"
    then "read" ∷ "approval:decide" ∷ []
    else if str_eq role "auditor"
    then "read" ∷ "audit:read" ∷ []
    else if str_eq role "read_only"
    then "read" ∷ []
    else []

-- `set().union(*(…))`
unfoldable pub permissions_of : List String → List String
permissions_of [] = []
permissions_of (role ∷ rest) = role_permissions role ++ permissions_of rest

-- The scopes restrict a service account only.
abbrev pub scopes_allow : Option (List String) → String → Bool
scopes_allow none permission = true
scopes_allow (some scopes) permission = has_text "*" scopes || has_text permission scopes

unfoldable pub allows : Principal → String → Bool
unfolding permissions_of
allows p permission =
    let permissions = permissions_of p.roles in
    let role_allows = has_text "*" permissions || has_text permission permissions in
    role_allows && scopes_allow p.scopes permission

-- The guard that `require` makes.
unfoldable pub require : String → Option Principal → Result Principal
require permission none = err 403 "forbidden"
require permission (some p) = if allows p permission then ok p else err 403 "forbidden"
