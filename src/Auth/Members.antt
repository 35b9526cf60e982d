-- ===== src/Auth/Members.antt =====
-- Patches of a group's members.
use recordlane.Base.{
  distinct, ℕ, ◌==◌, ==_iff, ◌≡◌, refl, sym, ap, ◌∙◌, inl, inr, true, Option, some, some-eq, List,
  [], ◌∷◌, ◌++◌, arith, Bool-cases, not, ◌||◌, select, any, contains,
}
use recordlane.Http.{ok, Result-cases, ◌>>=◌, ok-eq, ok-err, >>=-ok, required, required-ok}
use recordlane.Auth.Sessions.{configured, revoke_identity_sessions}
use recordlane.Auth.{IdentityUser, IdentityGroup, IdentityGroupMember, Db}
use recordlane.Auth.Users.{Op, add, replace, remove, values_of}
use recordlane.Auth.Groups.{
  GroupOperation, set_members, set_name, set_group_roles, set_group_workspaces, Patch, union,
  users_in, member_rows, is_missing_user, replace_group_members, apply_group_operation,
  apply_group_operations, save_patched_group, patch_group, revoke_members, find_group,
  asked_members,
}

contains-append : (n : ℕ) (l m : List ℕ) → contains n (l ++ m) ≡ (contains n l || contains n m)
contains-append n [] m = refl
contains-append n (k ∷ l) m = ground (arith, contains-append n l m)

contains-distinct : (n : ℕ) (l : List ℕ) → contains n (distinct l) ≡ contains n l
contains-distinct n [] = refl
contains-distinct n (k ∷ l) = ground (arith, contains-distinct n l, ==_iff k n)

users_in-append :
    (id : ℕ) (a b : List IdentityGroupMember)
    → users_in id (a ++ b) ≡ users_in id a ++ users_in id b
users_in-append id [] b = refl
users_in-append id (m ∷ a) b = ground (arith, users_in-append id a b)

users_in-member_rows : (id : ℕ) (l : List ℕ) → users_in id (member_rows id l) ≡ l
users_in-member_rows id [] = refl
users_in-member_rows id (n ∷ l) = ground (arith, users_in-member_rows id l, ==_iff id id)

users_in-others :
    (id : ℕ) (l : List IdentityGroupMember)
    → users_in id (select (λ m. not (m.group_id == id)) l) ≡ []
users_in-others id [] = refl
users_in-others id (m ∷ l) = ground (arith, users_in-others id l)

-- What a replacement of a group's members leaves: the group's are the requested, and the affected
-- are those and the ones before.
pub replace_group_members_lem :
    (users : List IdentityUser) (id : ℕ) (requested : List ℕ) (members : List IdentityGroupMember)
    (x : List IdentityGroupMember × List ℕ)
    → replace_group_members users id requested members ≡ ok x
    → (users_in id x.0 ≡ distinct requested) × (x.1 ≡ union (users_in id members) requested)
unfolding replace_group_members
replace_group_members_lem users id requested members x e =
    let others = select (λ m. not (m.group_id == id)) members in
    let rows = member_rows id (distinct requested) in
    elim (Bool-cases (any (is_missing_user users) requested)) [
      | inl f ↦ absurd (ok-err (rw (f, replace_group_members) at e))
      | inr f ↦
          let same = ok-eq (rw (f, replace_group_members) at e) in
          (
            ap (λ y. users_in id y.0) (sym same)
                ∙ users_in-append id others rows
                ∙ ap (λ l. l ++ users_in id rows) (users_in-others id members)
                ∙ users_in-member_rows id (distinct requested),
            ap (λ y. y.1) (sym same),
          )
    ]

set_members_lem :
    (users : List IdentityUser) (op : Op) (v : Option (List ℕ)) (s s' : Patch)
    → apply_group_operation users (set_members op v) s ≡ ok s'
    → (values : List ℕ) × (s'.group ≡ s.group)
      × (users_in s.group.id s'.members ≡ distinct (asked_members op s.affected values))
      × (changed : List ℕ) × (s'.affected ≡ union s.affected changed)
unfolding apply_group_operation
set_members_lem users op v s s' e =
    let (values, _, f) = >>=-ok (values_of op v) _ _ e in
    let asked = asked_members op s.affected values in
    let (changed, g, h) = >>=-ok (replace_group_members users s.group.id asked s.members) _ _ f in
    let same = ok-eq h in
    let (rows, _) = replace_group_members_lem users s.group.id asked s.members changed g in
    (
      values,
      ap (λ t. t.group) (sym same),
      ap (λ t. users_in s.group.id t.members) (sym same) ∙ rows,
      changed.1,
      ap (λ t. t.affected) (sym same),
    )

-- No operation forgets an affected user.
grows :
    (users : List IdentityUser) (n : ℕ) (op : GroupOperation) (s s' : Patch)
    → apply_group_operation users op s ≡ ok s'
    → contains n s.affected ≡ true
    → (s'.group.id ≡ s.group.id) × (contains n s'.affected ≡ true)
unfolding apply_group_operation
grows users n (set_name remove v) s s' e c = absurd (ok-err e)
grows users n (set_name add v) s s' e c =
    let (name, _, f) = >>=-ok (required (configured v) 422 "scim_group_name_required") _ _ e in
    let same = ok-eq f in
    (ap (λ t. t.group.id) (sym same), ap (λ t. contains n t.affected) (sym same) ∙ c)
grows users n (set_name replace v) s s' e c =
    let (name, _, f) = >>=-ok (required (configured v) 422 "scim_group_name_required") _ _ e in
    let same = ok-eq f in
    (ap (λ t. t.group.id) (sym same), ap (λ t. contains n t.affected) (sym same) ∙ c)
grows users n (set_group_roles op v) s s' e c =
    let (values, _, f) = >>=-ok (values_of op v) _ _ e in
    let same = ok-eq f in
    (ap (λ t. t.group.id) (sym same), ap (λ t. contains n t.affected) (sym same) ∙ c)
grows users n (set_group_workspaces op v) s s' e c =
    let (values, _, f) = >>=-ok (values_of op v) _ _ e in
    let same = ok-eq f in
    (ap (λ t. t.group.id) (sym same), ap (λ t. contains n t.affected) (sym same) ∙ c)
grows users n (set_members op v) s s' e c =
    let (values, same, _, changed, affected) = set_members_lem users op v s s' e in
    (
      ap (λ g. g.id) same,
      ap (contains n) affected
          ∙ contains-distinct n (s.affected ++ changed)
          ∙ ground (arith, contains-append n s.affected changed),
    )

all-grow :
    (users : List IdentityUser) (n : ℕ) (ops : List GroupOperation) (s s' : Patch)
    → apply_group_operations users ops s ≡ ok s'
    → contains n s.affected ≡ true
    → (s'.group.id ≡ s.group.id) × (contains n s'.affected ≡ true)
unfolding apply_group_operations
all-grow users n [] s s' e c =
    (ap (λ t. t.group.id) (sym (ok-eq e)), ap (λ t. contains n t.affected) (sym (ok-eq e)) ∙ c)
all-grow users n (op ∷ rest) s s' e c =
    let (t, f, g) = >>=-ok (apply_group_operation users op s) _ _ e in
    let (a, b) = grows users n op s t f c in
    let (a', b') = all-grow users n rest t s' g b in (a' ∙ a, b')

revoke_members-members :
    (now : ℕ) (ids : List ℕ) (db : Db) → (revoke_members now ids db).members ≡ db.members
unfolding revoke_members revoke_identity_sessions
revoke_members-members now [] db = refl
revoke_members-members now (n ∷ rest) db =
    revoke_members-members now rest (revoke_identity_sessions now n db).0

find_group-id :
    (id : ℕ) (groups : List IdentityGroup) (g : IdentityGroup)
    → find_group id groups ≡ some g
    → g.id ≡ id
find_group-id id [] g e = ground arith
find_group-id id (h ∷ rest) g e = elim (Bool-cases (h.id == id)) [
  | inl f ↦
      let same : h ≡ g = some-eq (rw f at e) in ap (λ x. x.id) (sym same) ∙ (==_iff h.id id).0 f
  | inr f ↦ find_group-id id rest g (rw f at e)
]

apply_two :
    (users : List IdentityUser) (before : List GroupOperation) (op : GroupOperation) (s s' : Patch)
    → apply_group_operations users (before ++ op ∷ []) s ≡ ok s'
    → (t : Patch) × (apply_group_operations users before s ≡ ok t)
      × (apply_group_operation users op t ≡ ok s')
unfolding apply_group_operations
apply_two users [] op s s' e =
    let (t, f, g) = >>=-ok (apply_group_operation users op s) _ _ e in (s, refl, f ∙ g)
apply_two users (b ∷ before) op s s' e =
    let (t, f, g) = >>=-ok (apply_group_operation users b s) _ _ e in
    let (u, h, k) = apply_two users before op t s' g in
    (u, ap (λ r. r >>= apply_group_operations users before) f ∙ h, k)

save-restores :
    (now id n : ℕ) (before : List GroupOperation) (v : Option (List ℕ)) (db : Db)
    (x : Db × List ℕ × IdentityGroup)
    → save_patched_group now id (before ++ set_members add v ∷ []) db ≡ ok x
    → contains n (users_in id db.members) ≡ true
    → contains n (users_in id x.0.members) ≡ true
unfolding save_patched_group
save-restores now id n before v db x e c =
    let (row, e1, f1) =
      >>=-ok (required (find_group id db.groups) 404 "scim_group_not_found") _ _ e in
    let start : Patch = record {
      group = row;
      members = db.members;
      affected = distinct (users_in id db.members);
    } in
    let (s, e2, f2) =
      >>=-ok (apply_group_operations db.users (before ++ set_members add v ∷ []) start) _ _ f1 in
    let (t, h, k) = apply_two db.users before (set_members add v) start s e2 in
    let (same, kept) =
      all-grow db.users n before start t h (contains-distinct n (users_in id db.members) ∙ c) in
    let (values, _, rows, _, _) = set_members_lem db.users add v t s k in
    let of_row =
      find_group-id id db.groups row (required-ok (find_group id db.groups) _ _ row e1) in
    ap (λ y. contains n (users_in id y.0.members)) (sym (ok-eq f2))
    ∙ ap (λ i. contains n (users_in i s.members)) (sym (same ∙ of_row))
    ∙ ap (contains n) rows
    ∙ contains-distinct n (t.affected ++ values)
    ∙ ground (arith, contains-append n t.affected values)

-- A patch that ends with an addition of members keeps every member from before the patch: one that
-- an earlier operation of the same patch removed or replaced is a member again.
pub addition_restores_members :
    (now id n : ℕ) (before : List GroupOperation) (v : Option (List ℕ)) (db : Db)
    (g : IdentityGroup)
    → (patch_group now id (before ++ set_members add v ∷ []) db).1 ≡ ok g
    → contains n (users_in id db.members) ≡ true
    → contains n (users_in id (patch_group now id (before ++ set_members add v ∷ []) db).0.members)
      ≡ true
unfolding patch_group
addition_restores_members now id n before v db g e c =
    elim (Result-cases (save_patched_group now id (before ++ set_members add v ∷ []) db)) [
      | inl (status, code, f) ↦ absurd (ok-err (rw (f, patch_group) at e))
      | inr ((db', ids, h), f) ↦
          rw (f, patch_group)
            (ap (λ l. contains n (users_in id l)) (revoke_members-members now ids db')
              ∙ save-restores now id n before v db (db', ids, h) f c)
    ]
