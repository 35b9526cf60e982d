-- ===== src/Auth/Commands.antt =====
-- Everything that a request or a provisioning call does to the tables, as one sequence of commands.
use recordlane.Base.{String, Option, List, [], ◌∷◌, ℕ}
use recordlane.Http.{Result, ok, err}
use recordlane.Auth.{Db, Settings, Provider}
use recordlane.Auth.Callback.{login, callback, logout}
use recordlane.Auth.Credentials.{Request, current_principal}
use recordlane.Auth.Users.{
  ScimUser, PatchOperation, create_user, replace_user, patch_user, delete_user,
}
use recordlane.Auth.Groups.{
  ScimGroup, GroupOperation, create_group, replace_group, patch_group, delete_group,
}

-- `now` comes with each; fresh identifiers and tokens with those that need them.
pub data Command : Type 0 where
  request : Request → Command
  start_login : String → String → String → String → Command
  finish_login : ℕ → ℕ → String → String → String → Command
  sign_out : Option String → Command
  scim_create_user : ℕ → ScimUser → Command
  scim_replace_user : ℕ → ScimUser → Command
  scim_patch_user : ℕ → List PatchOperation → Command
  scim_delete_user : ℕ → Command
  scim_create_group : ℕ → ScimGroup → Command
  scim_replace_group : ℕ → ScimGroup → Command
  scim_patch_group : ℕ → List GroupOperation → Command
  scim_delete_group : ℕ → Command

-- The tables after a login that may fail.
abbrev pub after_login : Db → Result Db → Db
after_login db (err status code) = db
after_login db (ok db') = db'

module _ (env : Provider) (settings : Settings) where
  unfoldable pub apply : ℕ → Command → Db → Db
  apply now (request r) db = (current_principal env settings now r db).0
  apply now (start_login state encrypted nonce return_to) db =
      after_login db (login env settings now state encrypted nonce return_to db)
  apply now (finish_login user_id session_id raw code state) db =
      (callback env settings now user_id session_id raw code state db).0
  apply now (sign_out cookie) db = logout env now cookie db
  apply now (scim_create_user id u) db = (create_user settings.oidc_issuer now id u db).0
  apply now (scim_replace_user id u) db = (replace_user now id u db).0
  apply now (scim_patch_user id ops) db = (patch_user now id ops db).0
  apply now (scim_delete_user id) db = (delete_user now id db).0
  apply now (scim_create_group id g) db = (create_group settings.oidc_issuer now id g db).0
  apply now (scim_replace_group id g) db = (replace_group now id g db).0
  apply now (scim_patch_group id ops) db = (patch_group now id ops db).0
  apply now (scim_delete_group id) db = (delete_group now id db).0

  unfoldable pub apply_all : List (ℕ × Command) → Db → Db
  unfolding apply
  apply_all [] db = db
  apply_all ((now, c) ∷ rest) db = apply_all rest (apply now c db)
