-- ===== src/Auth/Kept.antt =====
-- A revoked session stays revoked, whatever is done to the tables.
use recordlane.Base.{
  distinct, select, str_eq, ◌+◌, ◌==◌, String, ◌≡◌, refl, sym, ap, subst, inl, inr, Bool, false,
  Option, none, some, List, [], ◌∷◌, arith, ◌&&◌, not, ℕ, Bool-cases, Option-cases,
}
use recordlane.Http.{Result, ok, err, Result-cases}
use recordlane.Auth.{
  Principal, Db, Settings, Provider, IdentityUser, IdentityGroup, find_user, write_user,
}
use recordlane.Auth.Sessions.{
  configured, revoke_identity_sessions, session_principal, revoke, has_hash,
}
use recordlane.Auth.Admitted.{complete_lem}
use recordlane.Auth.Callback.{login, prepare, complete, callback, logout}
use recordlane.Auth.Credentials.{
  Request, service_account, service_principal, cookie_principal, current_principal, after_prefix,
  principal_or,
}
use recordlane.Auth.Users.{
  save_replacement, save_patch, was_active, ScimUser, PatchOperation, committed, commit_user,
  create_user, replace_user, patch_user, delete_user, after_change,
}
use recordlane.Auth.Groups.{
  ScimGroup, GroupOperation, create_group, replace_group, patch_group, delete_group, revoke_members,
  then_revoke, save_new_group, save_replaced_group, save_patched_group, find_group, without_group,
  users_in,
}
use recordlane.Auth.Revocation.{
  IsRevoked, IsRevoked-change, IsRevoked-append, revoke-IsSafe, session_principal-none,
  session_principal-IsRevoked, revoke_identity_sessions-IsRevoked,
}
use recordlane.Auth.Commands.{
  Command, request, start_login, finish_login, sign_out, scim_create_user, scim_replace_user,
  scim_patch_user, scim_delete_user, scim_create_group, scim_replace_group, scim_patch_group,
  scim_delete_group, apply, apply_all,
}

create_user-sessions :
    (issuer : Option String) (now id : ℕ) (u : ScimUser) (db : Db)
    → (create_user issuer now id u db).0.sessions ≡ db.sessions
unfolding create_user commit_user
create_user-sessions issuer now id u db = ground arith

pub save_replacement-sessions :
    (now id : ℕ) (u : ScimUser) (db db' : Db) (v : IdentityUser)
    → save_replacement now id u db ≡ ok (db', v)
    → db'.sessions ≡ db.sessions
unfolding save_replacement commit_user
save_replacement-sessions now id u db db' v e = ground arith

pub save_patch-sessions :
    (now id : ℕ) (ops : List PatchOperation) (db db' : Db) (v : IdentityUser)
    → save_patch now id ops db ≡ ok (db', v)
    → db'.sessions ≡ db.sessions
unfolding save_patch commit_user
save_patch-sessions now id ops db db' v e = ground arith

save_new_group-sessions :
    (issuer : Option String) (now id : ℕ) (g : ScimGroup) (db db' : Db) (ids : List ℕ)
    (h : IdentityGroup)
    → save_new_group issuer now id g db ≡ ok (db', ids, h)
    → db'.sessions ≡ db.sessions
unfolding save_new_group
save_new_group-sessions issuer now id g db db' ids h e = ground arith

save_replaced_group-sessions :
    (now id : ℕ) (g : ScimGroup) (db db' : Db) (ids : List ℕ) (h : IdentityGroup)
    → save_replaced_group now id g db ≡ ok (db', ids, h)
    → db'.sessions ≡ db.sessions
unfolding save_replaced_group
save_replaced_group-sessions now id g db db' ids h e = ground arith

save_patched_group-sessions :
    (now id : ℕ) (ops : List GroupOperation) (db db' : Db) (ids : List ℕ) (h : IdentityGroup)
    → save_patched_group now id ops db ≡ ok (db', ids, h)
    → db'.sessions ≡ db.sessions
unfolding save_patched_group
save_patched_group-sessions now id ops db db' ids h e = ground arith

module _ (env : Provider) (now : ℕ) (hash : String) where
  after_change-IsRevoked :
      (was : Bool) (x : Db × Result IdentityUser)
      → IsRevoked hash x.0.sessions
      → IsRevoked hash (after_change now was x).0.sessions
  unfolding after_change
  after_change-IsRevoked was (db, err status code) r = r
  after_change-IsRevoked was (db, ok u) r = elim (Bool-cases (was && not u.active)) [
    | inl e ↦ rw (e, after_change) (revoke_identity_sessions-IsRevoked env now hash u.id db r)
    | inr e ↦ rw (e, after_change) r
  ]

  committed-IsRevoked :
      (db : Db) (x : Result (Db × IdentityUser))
      → IsRevoked hash db.sessions
      → ((db' : Db) (u : IdentityUser) → x ≡ ok (db', u) → db'.sessions ≡ db.sessions)
      → IsRevoked hash (committed db x).0.sessions
  committed-IsRevoked db (err status code) r same = r
  committed-IsRevoked db (ok (db', u)) r same = subst (IsRevoked hash) (sym (same db' u refl)) r

  create_user-IsRevoked :
      (issuer : Option String) (id : ℕ) (u : ScimUser) (db : Db)
      → IsRevoked hash db.sessions
      → IsRevoked hash (create_user issuer now id u db).0.sessions
  create_user-IsRevoked issuer id u db r =
      subst (IsRevoked hash) (sym (create_user-sessions issuer now id u db)) r

  replace_user-IsRevoked :
      (id : ℕ) (u : ScimUser) (db : Db)
      → IsRevoked hash db.sessions
      → IsRevoked hash (replace_user now id u db).0.sessions
  unfolding replace_user
  replace_user-IsRevoked id u db r =
      after_change-IsRevoked (was_active id db) (committed db (save_replacement now id u db)) (
        committed-IsRevoked db (save_replacement now id u db) r
          (save_replacement-sessions now id u db))

  patch_user-IsRevoked :
      (id : ℕ) (ops : List PatchOperation) (db : Db)
      → IsRevoked hash db.sessions
      → IsRevoked hash (patch_user now id ops db).0.sessions
  unfolding patch_user
  patch_user-IsRevoked id ops db r =
      after_change-IsRevoked (was_active id db) (committed db (save_patch now id ops db))
        (committed-IsRevoked db (save_patch now id ops db) r (save_patch-sessions now id ops db))

  delete_user-IsRevoked :
      (id : ℕ) (db : Db)
      → IsRevoked hash db.sessions
      → IsRevoked hash (delete_user now id db).0.sessions
  unfolding delete_user
  delete_user-IsRevoked id db r = elim (Option-cases (find_user id db.users)) [
    | inl e ↦ rw (e, delete_user) r
    | inr (row, e) ↦
        let u = record row { active = false; version = row.version + 1; updated_at = now } in
        rw (e, delete_user)
          (revoke_identity_sessions-IsRevoked env now hash row.id
            (record db { users = write_user u db.users }) r)
  ]

  revoke_members-IsRevoked :
      (ids : List ℕ) (db : Db)
      → IsRevoked hash db.sessions
      → IsRevoked hash (revoke_members now ids db).sessions
  unfolding revoke_members
  revoke_members-IsRevoked [] db r = r
  revoke_members-IsRevoked (n ∷ rest) db r =
      revoke_members-IsRevoked rest (revoke_identity_sessions now n db).0
        (revoke_identity_sessions-IsRevoked env now hash n db r)

  then_revoke-IsRevoked :
      (db : Db) (x : Result (Db × List ℕ × IdentityGroup))
      → IsRevoked hash db.sessions
      → ((db' : Db) (ids : List ℕ) (g : IdentityGroup)
          → x ≡ ok (db', ids, g)
          → db'.sessions ≡ db.sessions)
      → IsRevoked hash (then_revoke now db x).0.sessions
  then_revoke-IsRevoked db (err status code) r same = r
  then_revoke-IsRevoked db (ok (db', ids, g)) r same =
      revoke_members-IsRevoked ids db' (subst (IsRevoked hash) (sym (same db' ids g refl)) r)

  delete_group-IsRevoked :
      (id : ℕ) (db : Db)
      → IsRevoked hash db.sessions
      → IsRevoked hash (delete_group now id db).0.sessions
  unfolding delete_group
  delete_group-IsRevoked id db r = elim (Option-cases (find_group id db.groups)) [
    | inl e ↦ rw (e, delete_group) r
    | inr (row, e) ↦
        rw (e, delete_group)
          (revoke_members-IsRevoked (distinct (users_in id db.members))
            (record db {
              groups = without_group id db.groups;
              members = select (λ m. not (m.group_id == id)) db.members;
            })
            r)
  ]

  create_group-IsRevoked :
      (issuer : Option String) (id : ℕ) (g : ScimGroup) (db : Db)
      → IsRevoked hash db.sessions
      → IsRevoked hash (create_group issuer now id g db).0.sessions
  unfolding create_group
  create_group-IsRevoked issuer id g db r =
      then_revoke-IsRevoked db (save_new_group issuer now id g db) r
        (save_new_group-sessions issuer now id g db)

  replace_group-IsRevoked :
      (id : ℕ) (g : ScimGroup) (db : Db)
      → IsRevoked hash db.sessions
      → IsRevoked hash (replace_group now id g db).0.sessions
  unfolding replace_group
  replace_group-IsRevoked id g db r =
      then_revoke-IsRevoked db (save_replaced_group now id g db) r
        (save_replaced_group-sessions now id g db)

  patch_group-IsRevoked :
      (id : ℕ) (ops : List GroupOperation) (db : Db)
      → IsRevoked hash db.sessions
      → IsRevoked hash (patch_group now id ops db).0.sessions
  unfolding patch_group
  patch_group-IsRevoked id ops db r =
      then_revoke-IsRevoked db (save_patched_group now id ops db) r
        (save_patched_group-sessions now id ops db)

  logout-IsRevoked :
      (cookie : Option String) (db : Db)
      → IsRevoked hash db.sessions
      → IsRevoked hash (logout env now cookie db).sessions
  unfolding logout
  logout-IsRevoked none db r = r
  logout-IsRevoked (some raw) db r = elim (Bool-cases (str_eq raw "")) [
    | inl e ↦ rw (e, logout) r
    | inr e ↦
        rw (e, logout)
          (IsRevoked-change (has_hash (env.sha256 raw)) (revoke now) hash db.sessions
            (revoke-IsSafe now) r)
  ]

module _ (env : Provider) (settings : Settings) (now : ℕ) (hash : String) where
  callback-IsRevoked :
      (user_id session_id : ℕ) (raw code state : String) (db : Db)
      → IsRevoked hash db.sessions
      → IsRevoked hash (callback env settings now user_id session_id raw code state db).0.sessions
  unfolding callback
  callback-IsRevoked user_id session_id raw code state db r =
      elim (Result-cases (prepare env settings now state db)) [
        | inl (status, code', e) ↦ rw (e, callback) r
        | inr ((l, verifier), e) ↦ elim (Option-cases (env.exchange code verifier)) [
          | inl q ↦ rw (e, q, callback) r
          | inr (tokens, q) ↦
              elim (Result-cases
                (complete env settings now user_id session_id raw l tokens (env.sha256 state) db)) [
                  | inl (status, code', f) ↦ rw (e, q, f, callback) r
                  | inr ((db', to), f) ↦
                      let (s, us, same, _, _, _, _, _, _, _, _) =
                        complete_lem env settings now user_id session_id raw l tokens
                          (env.sha256 state) db db' to f in
                      let r' : IsRevoked hash db'.sessions =
                        subst (λ d. IsRevoked hash d.sessions) (sym same)
                          (IsRevoked-append hash db.sessions (s ∷ []) r) in
                      rw (e, q, f, callback) r'
                ]
        ]
      ]

  principal_or-db : (x : Db × Option Principal) (code : String) → (principal_or x code).0 ≡ x.0
  principal_or-db (db, none) code = refl
  principal_or-db (db, some p) code = refl

  service_principal-IsRevoked :
      (key : String) (db : Db)
      → IsRevoked hash db.sessions
      → IsRevoked hash
          (principal_or (service_principal env now key db) "invalid_service_credential").0.sessions
  unfolding service_principal
  service_principal-IsRevoked key db r = elim (Option-cases (service_account env now key db)) [
    | inl e ↦ rw (e, service_principal) r
    | inr (a, e) ↦ rw (e, service_principal) r
  ]

  cookie_principal-IsRevoked :
      (q : Request) (db : Db)
      → IsRevoked hash db.sessions
      → IsRevoked hash (cookie_principal env settings now q db).0.sessions
  unfolding cookie_principal
  cookie_principal-IsRevoked q db r = elim (Option-cases (configured q.cookie)) [
    | inl e ↦ rw (e, cookie_principal) r
    | inr (raw, e) ↦
        let r' = session_principal-IsRevoked env now raw hash db r in
        let same = principal_or-db (session_principal env now raw db) "invalid_session" in
        rw (e, cookie_principal) (subst (λ d. IsRevoked hash d.sessions) (sym same) r')
  ]

  current_principal-IsRevoked :
      (q : Request) (db : Db)
      → IsRevoked hash db.sessions
      → IsRevoked hash (current_principal env settings now q db).0.sessions
  unfolding current_principal cookie_principal service_principal
  current_principal-IsRevoked q db r = elim (Option-cases q.authorization) [
    | inl e ↦ rw (e, current_principal) (cookie_principal-IsRevoked q db r)
    | inr (a, e) ↦ elim (Option-cases (after_prefix "RecordlaneKey " a)) [
      | inr (key, f) ↦ rw (e, f, current_principal) (service_principal-IsRevoked key db r)
      | inl f ↦ elim (Option-cases (after_prefix "Bearer " a)) [
        | inr (token, g) ↦ rw (e, f, g, current_principal) r
        | inl g ↦ rw (e, f, g, current_principal) (cookie_principal-IsRevoked q db r)
      ]
    ]
  ]

module _ (env : Provider) (settings : Settings) (now : ℕ) (hash : String) where
  apply-IsRevoked :
      (c : Command) (db : Db)
      → IsRevoked hash db.sessions
      → IsRevoked hash (apply env settings now c db).sessions
  unfolding apply login
  apply-IsRevoked (request q) db r = current_principal-IsRevoked env settings now hash q db r
  apply-IsRevoked (start_login state encrypted nonce return_to) db r =
      subst (IsRevoked hash) (ground arith) r
  apply-IsRevoked (finish_login user_id session_id raw code state) db r =
      callback-IsRevoked env settings now hash user_id session_id raw code state db r
  apply-IsRevoked (sign_out cookie) db r = logout-IsRevoked env now hash cookie db r
  apply-IsRevoked (scim_create_user id u) db r =
      create_user-IsRevoked env now hash settings.oidc_issuer id u db r
  apply-IsRevoked (scim_replace_user id u) db r = replace_user-IsRevoked env now hash id u db r
  apply-IsRevoked (scim_patch_user id ops) db r = patch_user-IsRevoked env now hash id ops db r
  apply-IsRevoked (scim_delete_user id) db r = delete_user-IsRevoked env now hash id db r
  apply-IsRevoked (scim_create_group id g) db r =
      create_group-IsRevoked env now hash settings.oidc_issuer id g db r
  apply-IsRevoked (scim_replace_group id g) db r = replace_group-IsRevoked env now hash id g db r
  apply-IsRevoked (scim_patch_group id ops) db r = patch_group-IsRevoked env now hash id ops db r
  apply-IsRevoked (scim_delete_group id) db r = delete_group-IsRevoked env now hash id db r

-- A session that is signed out or revoked has no principal again, whatever requests, logins and
-- provisioning calls come after.
pub revoked_forever :
    (env : Provider) (settings : Settings) (commands : List (ℕ × Command)) (now : ℕ) (raw : String)
    (db : Db)
    → IsRevoked (env.sha256 raw) db.sessions
    → (session_principal env now raw (apply_all env settings commands db)).1 ≡ none
unfolding apply_all apply
revoked_forever env settings [] now raw db r =
    ap (λ x. x.1) (session_principal-none env now raw db r)
revoked_forever env settings ((t, c) ∷ rest) now raw db r =
    revoked_forever env settings rest now raw (apply env settings t c db)
      (apply-IsRevoked env settings t (env.sha256 raw) c db r)
