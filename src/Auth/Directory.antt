-- ===== src/Auth/Directory.antt =====
-- What the SCIM group routes and the session route read: _group_view, get_group, list_groups and
-- require_scim of auth/scim.py, session of auth/session.py.
use Prim.Native.String.{compare}
use Prim.Native.Nat.{Ordering}
use recordlane.Base.{
  ℕ, String, true, not, ◌&&◌, ◌||◌, Option, none, some, List, [], ◌∷◌, ◌==◌, str_eq, select, any,
  length,
}
use recordlane.Http.{Result, ok, ◌>>=◌, ◌>>◌, raise_if, required}
use recordlane.Auth.{Principal, IdentityUser, IdentityGroup, Db, Provider}
use recordlane.Auth.Sessions.{session_principal}
use recordlane.Auth.Credentials.{after_prefix}
use recordlane.Auth.Users.{page, filter_value, by_user_name}
use recordlane.Auth.Groups.{find_group}

-- A member of a group's view.
pub record ScimMember : Type 0 where
  pub value : ℕ
  pub display : String

abbrev pub members_of : List IdentityUser → List ScimMember
members_of [] = []
members_of (u ∷ rest) = record { value = u.id; display = u.user_name } ∷ members_of rest

-- A group as it is shown: the row, and its members by their user names.
pub record GroupView : Type 0 where
  pub row : IdentityGroup
  pub members : List ScimMember

unfoldable pub group_view : Db → IdentityGroup → GroupView
group_view db g = record {
  row = g;
  members = members_of (
      by_user_name
        (select (λ u. any (λ m. m.group_id == g.id && m.user_id == u.id) db.members) db.users));
}

unfoldable pub get_group : ℕ → Db → Result GroupView
unfolding group_view
get_group id db = do
  row ← required (find_group id db.groups) 404 "scim_group_not_found"
  ok (group_view db row)

abbrev pub insert_group : IdentityGroup → List IdentityGroup → List IdentityGroup
insert_group g [] = g ∷ []
insert_group g (h ∷ rest) =
    let later = insert_group g rest in
    elim (compare g.display_name h.display_name) [ Ordering.gt ↦ h ∷ later | _ ↦ g ∷ h ∷ rest ]

-- `order_by(IdentityGroup.display_name)`
abbrev pub by_display_name : List IdentityGroup → List IdentityGroup
by_display_name [] = []
by_display_name (g ∷ rest) = insert_group g (by_display_name rest)

abbrev pub group_views : Db → List IdentityGroup → List GroupView
group_views db [] = []
group_views db (g ∷ rest) = group_view db g ∷ group_views db rest

pub record GroupList : Type 0 where
  pub total_results : ℕ
  pub start_index : ℕ
  pub items_per_page : ℕ
  pub resources : List GroupView

unfoldable pub list_groups : ℕ → ℕ → Option String → Db → Result GroupList
unfolding page filter_value
list_groups start_index count expression db = do
  wanted ← filter_value expression "displayName"
  let rows =
      by_display_name (
        select (λ g. elim wanted [ none ↦ true | some name ↦ str_eq g.display_name name ])
          db.groups)
  let resources = page rows start_index count
  ok (record {
    total_results = length rows;
    start_index = start_index;
    items_per_page = length resources;
    resources = group_views db resources;
  })

-- `authorization.removeprefix("Bearer ") if authorization else ""`
abbrev pub supplied_token : Option String → String
supplied_token none = ""
supplied_token (some a) = elim (after_prefix "Bearer " a) [ none ↦ a | some token ↦ token ]

-- The token that a SCIM request must have: the setting's file, if there is one, and its stripped
-- text, if it can be read.
unfoldable pub require_scim : Option (Option String) → Option String → Result (Unit {0})
require_scim file authorization = do
  read ← required file 503 "scim_not_configured"
  expected ← required read 503 "scim_secret_unavailable"
  let supplied = supplied_token authorization
  raise_if (str_eq supplied "" || not (str_eq supplied expected)) 401 "invalid_scim_token"
  ok tt

-- The session route: the principal of the cookie, or of an empty text.
unfoldable pub session : Provider → ℕ → Option String → Db → Db × Option Principal
unfolding session_principal
session env now cookie db =
    session_principal env now (elim cookie [ none ↦ "" | some raw ↦ raw ]) db
