-- ===== src/Auth/Users.antt =====
-- The SCIM user handlers of auth/scim.py: _filter, _page, list_users, create_user, get_user,
-- replace_user, patch_user, delete_user. A handler answers with the row that `_view` shows. The
-- revocation of sessions is a transaction of its own after the commit.
use Prim.Native.String.{◌++◌ as concat, compare}
use Prim.Native.Nat.{Ordering}
use recordlane.Base.{
  ℕ, zero, suc, ◌+◌, ◌-◌, String, Bool, true, false, not, ◌&&◌, ◌||◌, Option, none, some, List, [],
  ◌∷◌, ◌++◌, ◌==◌, if◌then◌else◌, str_eq, select, any, take, length, Dict, lookup, sorted_set,
}
use recordlane.Http.{Result, ok, err, ◌>>=◌, ◌>>◌, raise_if, required}
use recordlane.Auth.{IdentityUser, Db, find_user, write_user}
use recordlane.Auth.Sessions.{configured, revoke_identity_sessions}
use recordlane.Auth.Credentials.{after_prefix}

pub record ScimUser : Type 0 where
  pub external_id : String
  pub user_name : String
  pub display_name : Option String
  pub active : Bool
  pub roles : List (Dict String)
  pub workspace_ids : List String

pub data Op : Type 0 where
  add replace remove : Op

-- An item of a patch of roles: an object, by its `value`, or a text.
pub data RoleItem : Type 0 where
  entry : Option String → RoleItem
  plain : String → RoleItem

-- An operation of a patch, by its path, with the value as it is sent: none is null. Values of other
-- types are not modelled.
pub data PatchOperation : Type 0 where
  set_active : Op → Option Bool → PatchOperation
  set_user_name : Op → Option String → PatchOperation
  set_display_name : Op → Option String → PatchOperation
  set_roles : Op → Option (List RoleItem) → PatchOperation
  set_workspaces : Op → Option (List String) → PatchOperation

-- `[item["value"] for item in roles if item.get("value")]`
abbrev pub role_values : List (Dict String) → List String
role_values [] = []
role_values (item ∷ rest) = elim (configured (lookup "value" item)) [
  | none ↦ role_values rest
  | some v ↦ v ∷ role_values rest
]

abbrev pub item_values : List RoleItem → List String
item_values [] = []
item_values (plain s ∷ rest) = if str_eq s "" then item_values rest else s ∷ item_values rest
item_values (entry v ∷ rest) = elim (configured v) [
  | none ↦ item_values rest
  | some s ↦ s ∷ item_values rest
]

-- `[] if operation.op == "remove" else operation.value`; a null cannot be iterated over
abbrev pub values_of : {A : Type 0} → Op → Option (List A) → Result (List A)
values_of remove v = ok []
values_of _ none = err 500 "TypeError"
values_of _ (some l) = ok l

-- The unique constraints of identity_users, between two rows.
abbrev pub collides : IdentityUser → IdentityUser → Bool
collides u v =
    not (u.id == v.id)
    && str_eq u.issuer v.issuer
    && (str_eq u.subject v.subject || elim u.external_id [
      | none ↦ false
      | some x ↦ elim v.external_id [ none ↦ false | some y ↦ str_eq x y ]
    ])

-- The commit of a row, new or changed.
unfoldable pub commit_user : IdentityUser → List IdentityUser → Db → Result Db
commit_user u users db =
    if any (collides u) db.users then err 500 "IntegrityError" else ok (record db { users = users })

abbrev pub same_external : String → String → IdentityUser → Bool
same_external issuer external u =
    str_eq u.issuer issuer && elim u.external_id [ none ↦ false | some x ↦ str_eq x external ]

abbrev pub committed : Db → Result (Db × IdentityUser) → Db × Result IdentityUser
committed db (err status code) = (db, err status code)
committed db (ok (db', u)) = (db', ok u)

unfoldable pub create_user : Option String → ℕ → ℕ → ScimUser → Db → Db × Result IdentityUser
unfolding commit_user
create_user oidc_issuer now id payload db = committed db (do
  issuer ← required (configured oidc_issuer) 503 "identity_not_configured"
  raise_if (any (same_external issuer payload.external_id) db.users) 409 "scim_user_exists"
  let u : IdentityUser = record {
    id = id;
    issuer = issuer;
    subject = payload.external_id;
    external_id = some payload.external_id;
    user_name = payload.user_name;
    display_name = payload.display_name;
    active = payload.active;
    roles = sorted_set (role_values payload.roles);
    workspace_ids = sorted_set payload.workspace_ids;
    version = 1;
    updated_at = now;
  }
  db' ← commit_user u (db.users ++ u ∷ []) db
  ok (db', u))

unfoldable pub get_user : ℕ → Db → Result IdentityUser
get_user id db = required (find_user id db.users) 404 "scim_user_not_found"

-- `if was_active and not row.active: revoke_identity_sessions(row.id)`
unfoldable pub after_change : ℕ → Bool → Db × Result IdentityUser → Db × Result IdentityUser
unfolding revoke_identity_sessions
after_change now was_active (db, err status code) = (db, err status code)
after_change now was_active (db, ok u) =
    if was_active && not u.active
    then ((revoke_identity_sessions now u.id db).0, ok u)
    else (db, ok u)

abbrev pub was_active : ℕ → Db → Bool
was_active id db = elim (find_user id db.users) [ none ↦ false | some u ↦ u.active ]

abbrev pub replaced : ℕ → ScimUser → IdentityUser → IdentityUser
replaced now payload u = record u {
  external_id = some payload.external_id;
  subject = payload.external_id;
  user_name = payload.user_name;
  display_name = payload.display_name;
  active = payload.active;
  roles = sorted_set (role_values payload.roles);
  workspace_ids = sorted_set payload.workspace_ids;
  version = u.version + 1;
  updated_at = now;
}

-- The commit of a replacement.
unfoldable pub save_replacement : ℕ → ℕ → ScimUser → Db → Result (Db × IdentityUser)
unfolding commit_user
save_replacement now id payload db = do
  row ← required (find_user id db.users) 404 "scim_user_not_found"
  let u = replaced now payload row
  db' ← commit_user u (write_user u db.users) db
  ok (db', u)

unfoldable pub replace_user : ℕ → ℕ → ScimUser → Db → Db × Result IdentityUser
unfolding save_replacement after_change
replace_user now id payload db =
    after_change now (was_active id db) (committed db (save_replacement now id payload db))

-- One operation of a patch. A display name that is null is stored as the text of None.
unfoldable pub apply_operation : PatchOperation → IdentityUser → Result IdentityUser
apply_operation (set_active remove v) u = ok (record u { active = false })
apply_operation (set_active _ v) u = ok (record u { active = elim v [ none ↦ false | some b ↦ b ] })
apply_operation (set_user_name remove v) u = err 422 "scim_username_required"
apply_operation (set_user_name _ v) u = do
  name ← required (configured v) 422 "scim_username_required"
  ok (record u { user_name = name })
apply_operation (set_display_name remove v) u = ok (record u { display_name = none })
apply_operation (set_display_name _ v) u =
    ok (record u { display_name = some (elim v [ none ↦ "None" | some s ↦ s ]) })
apply_operation (set_roles op v) u = do
  values ← values_of op v
  ok (record u { roles = sorted_set (item_values values) })
apply_operation (set_workspaces op v) u = do
  values ← values_of op v
  ok (record u { workspace_ids = sorted_set values })

unfoldable pub apply_operations : List PatchOperation → IdentityUser → Result IdentityUser
unfolding apply_operation
apply_operations [] u = ok u
apply_operations (op ∷ rest) u = apply_operation op u >>= λ u'. apply_operations rest u'

-- The commit of a patch.
unfoldable pub save_patch : ℕ → ℕ → List PatchOperation → Db → Result (Db × IdentityUser)
unfolding apply_operations commit_user
save_patch now id operations db = do
  row ← required (find_user id db.users) 404 "scim_user_not_found"
  patched ← apply_operations operations row
  let u = record patched { version = patched.version + 1; updated_at = now }
  db' ← commit_user u (write_user u db.users) db
  ok (db', u)

unfoldable pub patch_user : ℕ → ℕ → List PatchOperation → Db → Db × Result IdentityUser
unfolding save_patch after_change
patch_user now id operations db =
    after_change now (was_active id db) (committed db (save_patch now id operations db))

-- Deletion deactivates; the sessions are revoked whether or not the user was active.
unfoldable pub delete_user : ℕ → ℕ → Db → Db × Result (Unit {0})
unfolding revoke_identity_sessions
delete_user now id db = elim (find_user id db.users) [
  | none ↦ (db, err 404 "scim_user_not_found")
  | some row ↦
      let u = record row { active = false; version = row.version + 1; updated_at = now } in
      ((revoke_identity_sessions now row.id (record db { users = write_user u db.users })).0, ok tt)
]

-- `rows[start_index - 1 : start_index - 1 + count]`; the query's bounds give `1 ≤ start_index`.
abbrev pub skip {ℓ} : {A : Type ℓ} → ℕ → List A → List A
skip zero l = l
skip (suc n) [] = []
skip (suc n) (x ∷ l) = skip n l

unfoldable pub page {ℓ} : {A : Type ℓ} → List A → ℕ → ℕ → List A
page rows start_index count = take count (skip (start_index - 1) rows)

-- All but the last character, if that is a quotation mark.
abbrev pub before_quote : String → Option String
before_quote String.[] = none
before_quote (String.◌∷◌ c s) = elim (before_quote s) [
  | some t ↦ some (String.◌∷◌ c t)
  | none ↦ if str_eq (String.◌∷◌ c s) "\"" then some "" else none
]

-- _filter: no filter, or the value that the field must equal. A filter that is the prefix alone ends
-- with the prefix's own quotation mark, and its value is empty.
unfoldable pub filter_value : Option String → String → Result (Option String)
filter_value none field = ok none
filter_value (some expression) field =
    if str_eq expression ""
    then ok none
    else elim (after_prefix (concat field " eq \"") expression) [
      | none ↦ err 400 "unsupported_scim_filter"
      | some rest ↦ if str_eq rest "" then ok (some "") else elim (before_quote rest) [
        | none ↦ err 400 "unsupported_scim_filter"
        | some value ↦ ok (some value)
      ]
    ]

abbrev pub insert_user : IdentityUser → List IdentityUser → List IdentityUser
insert_user u [] = u ∷ []
insert_user u (v ∷ rest) =
    let later = insert_user u rest in
    elim (compare u.user_name v.user_name) [ Ordering.gt ↦ v ∷ later | _ ↦ u ∷ v ∷ rest ]

-- `order_by(IdentityUser.user_name)`
abbrev pub by_user_name : List IdentityUser → List IdentityUser
by_user_name [] = []
by_user_name (u ∷ rest) = insert_user u (by_user_name rest)

pub record ListResponse : Type 0 where
  pub total_results : ℕ
  pub start_index : ℕ
  pub items_per_page : ℕ
  pub resources : List IdentityUser

unfoldable pub list_users : ℕ → ℕ → Option String → Db → Result ListResponse
unfolding page filter_value
list_users start_index count expression db = do
  wanted ← filter_value expression "userName"
  let rows =
      by_user_name
        (select (λ u. elim wanted [ none ↦ true | some name ↦ str_eq u.user_name name ]) db.users)
  let resources = page rows start_index count
  ok (record {
    total_results = length rows;
    start_index = start_index;
    items_per_page = length resources;
    resources = resources;
  })
