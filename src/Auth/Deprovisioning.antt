-- ===== src/Auth/Deprovisioning.antt =====
-- Deprovisioning: the sessions of a user that delete_user, replace_user or patch_user deactivates.
use recordlane.Base.{
  ℕ, ◌+◌, ◌==◌, ==_iff, String, ◌≡◌, refl, sym, ap, ◌∙◌, subst, inl, inr, Bool, true, false, none,
  some, some-eq, List, [], ◌∷◌, arith, Option-cases, Bool-cases, not, ◌&&◌,
}
use recordlane.Http.{Result, ok, err, ok-eq, ok-err}
use recordlane.Auth.{
  IdentityUser, BrowserSession, Db, Settings, Provider, find_user, find_session, write_user,
}
use recordlane.Auth.Sessions.{session_principal}
use recordlane.Auth.Users.{
  PatchOperation, delete_user, patch_user, was_active, after_change, save_patch, committed,
}
use recordlane.Auth.Revocation.{IsRevoked, revoke_identity_sessions_lem}
use recordlane.Auth.Commands.{Command, apply_all}
use recordlane.Auth.Kept.{revoked_forever, save_patch-sessions}

find_user-id :
    (id : ℕ) (users : List IdentityUser) (u : IdentityUser)
    → find_user id users ≡ some u
    → u.id ≡ id
find_user-id id [] u e = ground arith
find_user-id id (v ∷ rest) u e = elim (Bool-cases (v.id == id)) [
  | inl f ↦
      let same : v ≡ u = some-eq (rw f at e) in ap (λ x. x.id) (sym same) ∙ (==_iff v.id id).0 f
  | inr f ↦ find_user-id id rest u (rw f at e)
]

delete_user-IsRevoked :
    (env : Provider) (now id : ℕ) (hash : String) (db : Db) (s : BrowserSession)
    → (delete_user now id db).1 ≡ ok tt
    → find_session hash db.sessions ≡ some s
    → s.identity_user_id ≡ id
    → IsRevoked hash (delete_user now id db).0.sessions
unfolding delete_user
delete_user-IsRevoked env now id hash db s e found of_user =
    elim (Option-cases (find_user id db.users)) [
      | inl f ↦ ground arith
      | inr (row, f) ↦
          let u = record row { active = false; version = row.version + 1; updated_at = now } in
          rw (f, delete_user)
            (revoke_identity_sessions_lem env now hash row.id
              (record db { users = write_user u db.users }) s found
              (of_user ∙ sym (find_user-id id db.users row f)))
    ]

-- Once a user is deleted, no session that it had gives a principal again, whatever requests, logins
-- and provisioning calls come after: not even a replacement that activates the user again.
pub deleted_user_is_out :
    (env : Provider) (settings : Settings) (commands : List (ℕ × Command)) (now later id : ℕ)
    (raw : String) (db : Db) (s : BrowserSession)
    → (delete_user now id db).1 ≡ ok tt
    → find_session (env.sha256 raw) db.sessions ≡ some s
    → s.identity_user_id ≡ id
    → (session_principal env later raw
        (apply_all env settings commands (delete_user now id db).0)).1
      ≡ none
deleted_user_is_out env settings commands now later id raw db s e found of_user =
    revoked_forever env settings commands later raw (delete_user now id db).0
      (delete_user-IsRevoked env now id (env.sha256 raw) db s e found of_user)

after_change-user :
    (now : ℕ) (was : Bool) (db : Db) (v : IdentityUser) → (after_change now was (db, ok v)).1 ≡ ok v
unfolding after_change
after_change-user now was db v = elim (Bool-cases (was && not v.active)) [
  | inl e ↦ rw (e, after_change) refl
  | inr e ↦ rw (e, after_change) refl
]

after_change-IsRevoked :
    (env : Provider) (now : ℕ) (x : Db × Result IdentityUser) (hash : String) (u : IdentityUser)
    (s : BrowserSession)
    → (after_change now true x).1 ≡ ok u
    → u.active ≡ false
    → find_session hash x.0.sessions ≡ some s
    → s.identity_user_id ≡ u.id
    → IsRevoked hash (after_change now true x).0.sessions
unfolding after_change
after_change-IsRevoked env now (db, err status code) hash u s e inactive found of_user =
    absurd (ok-err e)
after_change-IsRevoked env now (db, ok v) hash u s e inactive found of_user =
    let same : v ≡ u = ok-eq (sym (after_change-user now true db v) ∙ e) in
    let gone : (true && not v.active) ≡ true = ap (λ x. not x.active) same ∙ ap not inactive in
    rw (gone, after_change)
      (revoke_identity_sessions_lem env now hash v.id db s found
        (of_user ∙ ap (λ x. x.id) (sym same)))

committed-sessions :
    (db : Db) (x : Result (Db × IdentityUser))
    → ((db' : Db) (u : IdentityUser) → x ≡ ok (db', u) → db'.sessions ≡ db.sessions)
    → (committed db x).0.sessions ≡ db.sessions
committed-sessions db (err status code) same = refl
committed-sessions db (ok (db', u)) same = same db' u refl

patch_user-IsRevoked :
    (env : Provider) (now id : ℕ) (operations : List PatchOperation) (hash : String) (db : Db)
    (u : IdentityUser) (s : BrowserSession)
    → was_active id db ≡ true
    → (patch_user now id operations db).1 ≡ ok u
    → u.active ≡ false
    → find_session hash db.sessions ≡ some s
    → s.identity_user_id ≡ u.id
    → IsRevoked hash (patch_user now id operations db).0.sessions
unfolding patch_user
patch_user-IsRevoked env now id operations hash db u s was e inactive found of_user =
    let saved = save_patch now id operations db in
    let x = committed db saved in
    let same = committed-sessions db saved (save_patch-sessions now id operations db) in
    subst (λ b. IsRevoked hash (after_change now b x).0.sessions) (sym was)
      (after_change-IsRevoked env now x hash u s
        (subst (λ b. (after_change now b x).1 ≡ ok u) was e) inactive
        (ap (find_session hash) same ∙ found) of_user)

-- Once a patch has deactivated an active user, no session that it had gives a principal again,
-- whatever requests, logins and provisioning calls come after.
pub deactivated_user_is_out :
    (env : Provider) (settings : Settings) (commands : List (ℕ × Command)) (now later id : ℕ)
    (operations : List PatchOperation) (raw : String) (db : Db) (u : IdentityUser)
    (s : BrowserSession)
    → was_active id db ≡ true
    → (patch_user now id operations db).1 ≡ ok u
    → u.active ≡ false
    → find_session (env.sha256 raw) db.sessions ≡ some s
    → s.identity_user_id ≡ u.id
    → (session_principal env later raw
        (apply_all env settings commands (patch_user now id operations db).0)).1
      ≡ none
deactivated_user_is_out env settings commands now later id operations raw db u s was e inactive
      found of_user =
    revoked_forever env settings commands later raw (patch_user now id operations db).0 (
      patch_user-IsRevoked env now id operations (env.sha256 raw) db u s was e inactive found
        of_user)
