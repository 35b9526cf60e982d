-- ===== src/Auth/Groups.antt =====
-- The SCIM group handlers of auth/scim.py: _replace_group_members, _revoke_members, create_group,
-- replace_group, patch_group, delete_group. A handler answers with the row that
-- `_group_view` shows.
use recordlane.Base.{
  ℕ, ◌+◌, String, Bool, not, ◌&&◌, Option, none, some, List, [], ◌∷◌, ◌++◌, ◌==◌, if◌then◌else◌,
  str_eq, select, any, distinct, Dict, sorted_set,
}
use recordlane.Http.{Result, ok, err, ◌>>=◌, ◌>>◌, raise_if, required}
use recordlane.Auth.{IdentityUser, IdentityGroup, IdentityGroupMember, Db, find_user}
use recordlane.Auth.Sessions.{is_some, configured, revoke_identity_sessions}
use recordlane.Auth.Users.{Op, add, remove, RoleItem, role_values, item_values, values_of}

pub record ScimGroup : Type 0 where
  pub external_id : String
  pub display_name : String
  pub members : List ℕ
  pub roles : List (Dict String)
  pub workspace_ids : List String

-- An operation of a patch, by its path. Members are given by their users' identifiers.
pub data GroupOperation : Type 0 where
  set_name : Op → Option String → GroupOperation
  set_group_roles : Op → Option (List RoleItem) → GroupOperation
  set_group_workspaces : Op → Option (List String) → GroupOperation
  set_members : Op → Option (List ℕ) → GroupOperation

abbrev pub find_group : ℕ → List IdentityGroup → Option IdentityGroup
find_group id [] = none
find_group id (g ∷ rest) = if g.id == id then some g else find_group id rest

abbrev pub write_group : IdentityGroup → List IdentityGroup → List IdentityGroup
write_group g [] = []
write_group g (h ∷ rest) = (if h.id == g.id then g else h) ∷ write_group g rest

-- `existing | requested`
abbrev pub union : List ℕ → List ℕ → List ℕ
union l m = distinct (l ++ m)

-- The users of a group's member rows.
abbrev pub users_in : ℕ → List IdentityGroupMember → List ℕ
users_in group_id [] = []
users_in group_id (m ∷ rest) =
    if m.group_id == group_id then m.user_id ∷ users_in group_id rest else users_in group_id rest

abbrev pub member_rows : ℕ → List ℕ → List IdentityGroupMember
member_rows group_id [] = []
member_rows group_id (n ∷ l) = record { group_id = group_id; user_id = n } ∷ member_rows group_id l

-- `requested - found` is not empty
abbrev pub is_missing_user : List IdentityUser → ℕ → Bool
is_missing_user users n = not (is_some (find_user n users))

-- The member rows with the group's replaced, and the users that were or are members.
unfoldable pub replace_group_members :
    List IdentityUser
    → ℕ
    → List ℕ
    → List IdentityGroupMember
    → Result (List IdentityGroupMember × List ℕ)
replace_group_members users group_id requested members =
    if any (is_missing_user users) requested
    then err 422 "scim_member_not_found"
    else ok (
      select (λ m. not (m.group_id == group_id)) members
          ++ member_rows group_id (distinct requested),
      union (users_in group_id members) requested,
    )

-- _revoke_members
unfoldable pub revoke_members : ℕ → List ℕ → Db → Db
unfolding revoke_identity_sessions
revoke_members now [] db = db
revoke_members now (n ∷ rest) db = revoke_members now rest (revoke_identity_sessions now n db).0

-- The unique constraint of identity_groups, between two rows.
abbrev pub group_collides : IdentityGroup → IdentityGroup → Bool
group_collides g h =
    not (g.id == h.id) && str_eq g.issuer h.issuer && str_eq g.external_id h.external_id

-- The commit, and the revocation of the sessions of the users that it affects.
abbrev pub then_revoke : ℕ → Db → Result (Db × List ℕ × IdentityGroup) → Db × Result IdentityGroup
then_revoke now db (err status code) = (db, err status code)
then_revoke now db (ok (db', affected, g)) = (revoke_members now affected db', ok g)

abbrev pub same_group : String → String → IdentityGroup → Bool
same_group issuer external g = str_eq g.issuer issuer && str_eq g.external_id external

-- The commit of a new group.
unfoldable pub save_new_group :
    Option String → ℕ → ℕ → ScimGroup → Db → Result (Db × List ℕ × IdentityGroup)
unfolding replace_group_members
save_new_group oidc_issuer now id payload db = do
  issuer ← required (configured oidc_issuer) 503 "identity_not_configured"
  raise_if (any (same_group issuer payload.external_id) db.groups) 409 "scim_group_exists"
  let g : IdentityGroup = record {
    id = id;
    issuer = issuer;
    external_id = payload.external_id;
    display_name = payload.display_name;
    roles = sorted_set (role_values payload.roles);
    workspace_ids = sorted_set payload.workspace_ids;
    version = 1;
    updated_at = now;
  }
  changed ← replace_group_members db.users id payload.members db.members
  ok (record db { groups = db.groups ++ g ∷ []; members = changed.0 }, changed.1, g)

unfoldable pub create_group : Option String → ℕ → ℕ → ScimGroup → Db → Db × Result IdentityGroup
unfolding save_new_group revoke_members
create_group oidc_issuer now id payload db =
    then_revoke now db (save_new_group oidc_issuer now id payload db)

abbrev pub replaced_group : ℕ → ScimGroup → IdentityGroup → IdentityGroup
replaced_group now payload g = record g {
  external_id = payload.external_id;
  display_name = payload.display_name;
  roles = sorted_set (role_values payload.roles);
  workspace_ids = sorted_set payload.workspace_ids;
  version = g.version + 1;
  updated_at = now;
}

-- The commit of a replacement.
unfoldable pub save_replaced_group : ℕ → ℕ → ScimGroup → Db → Result (Db × List ℕ × IdentityGroup)
unfolding replace_group_members
save_replaced_group now id payload db = do
  row ← required (find_group id db.groups) 404 "scim_group_not_found"
  let g = replaced_group now payload row
  raise_if (any (group_collides g) db.groups) 500 "IntegrityError"
  changed ← replace_group_members db.users id payload.members db.members
  ok (record db { groups = write_group g db.groups; members = changed.0 }, changed.1, g)

unfoldable pub replace_group : ℕ → ℕ → ScimGroup → Db → Db × Result IdentityGroup
unfolding save_replaced_group revoke_members
replace_group now id payload db = then_revoke now db (save_replaced_group now id payload db)

-- What the loop over a patch's operations changes.
pub record Patch : Type 0 where
  pub group : IdentityGroup
  pub members : List IdentityGroupMember
  pub affected : List ℕ

-- The members that an operation on them asks for. An addition adds to the users that are affected so
-- far.
abbrev pub asked_members : Op → List ℕ → List ℕ → List ℕ
asked_members add affected values = affected ++ values
asked_members _ affected values = values

unfoldable pub apply_group_operation : List IdentityUser → GroupOperation → Patch → Result Patch
unfolding replace_group_members
apply_group_operation users (set_name remove v) s = err 422 "scim_group_name_required"
apply_group_operation users (set_name _ v) s = do
  name ← required (configured v) 422 "scim_group_name_required"
  ok (record s { group = record s.group { display_name = name } })
apply_group_operation users (set_group_roles op v) s = do
  values ← values_of op v
  ok (record s { group = record s.group { roles = sorted_set (item_values values) } })
apply_group_operation users (set_group_workspaces op v) s = do
  values ← values_of op v
  ok (record s { group = record s.group { workspace_ids = sorted_set values } })
apply_group_operation users (set_members op v) s = do
  values ← values_of op v
  changed ← replace_group_members users s.group.id (asked_members op s.affected values) s.members
  ok (record s { members = changed.0; affected = union s.affected changed.1 })

unfoldable pub apply_group_operations :
    List IdentityUser → List GroupOperation → Patch → Result Patch
unfolding apply_group_operation
apply_group_operations users [] s = ok s
apply_group_operations users (op ∷ rest) s =
    apply_group_operation users op s >>= λ s'. apply_group_operations users rest s'

-- The commit of a patch.
unfoldable pub save_patched_group :
    ℕ → ℕ → List GroupOperation → Db → Result (Db × List ℕ × IdentityGroup)
unfolding apply_group_operations
save_patched_group now id operations db = do
  row ← required (find_group id db.groups) 404 "scim_group_not_found"
  let start : Patch = record {
    group = row;
    members = db.members;
    affected = distinct (users_in id db.members);
  }
  s ← apply_group_operations db.users operations start
  let g = record s.group { version = s.group.version + 1; updated_at = now }
  ok (record db { groups = write_group g db.groups; members = s.members }, s.affected, g)

unfoldable pub patch_group : ℕ → ℕ → List GroupOperation → Db → Db × Result IdentityGroup
unfolding save_patched_group revoke_members
patch_group now id operations db = then_revoke now db (save_patched_group now id operations db)

abbrev pub without_group : ℕ → List IdentityGroup → List IdentityGroup
without_group id groups = select (λ g. not (g.id == id)) groups

unfoldable pub delete_group : ℕ → ℕ → Db → Db × Result (Unit {0})
unfolding revoke_members
delete_group now id db = elim (find_group id db.groups) [
  | none ↦ (db, err 404 "scim_group_not_found")
  | some row ↦ (
    revoke_members now (distinct (users_in id db.members)) (record db {
      groups = without_group id db.groups;
      members = select (λ m. not (m.group_id == id)) db.members;
    }),
    ok tt,
  )
]
