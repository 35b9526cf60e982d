-- ===== src/Auth/Login.antt =====
-- What a browser login grants, and that it is used once: callback.
use recordlane.Base.{
  ℕ, String, ◌≡◌, ◌⊎◌, refl, ap, ◌∙◌, inl, inr, true, none, some, List, [], ◌∷◌, ◌++◌, Option-cases,
  Bool-cases, str_eq, has_text, Dict,
}
use recordlane.Http.{Result, ok, err, Result-cases, >>=-ok}
use recordlane.Auth.{IdentityUser, OidcLogin, Db, Settings, Claims, Provider, find_identity}
use recordlane.Auth.Sessions.{provisioned_entitlements, metadata}
use recordlane.Auth.Callback.{
  open_login, prepare, complete, consume, restricted, callback, new_identity,
}
use recordlane.Auth.Admitted.{complete_lem}

open_login-consume :
    (now now' : ℕ) (hash : String) (logins : List OidcLogin)
    → open_login now' hash (consume now hash logins) ≡ none
unfolding open_login
open_login-consume now now' hash [] = refl
open_login-consume now now' hash (l ∷ rest) = elim (Bool-cases (str_eq l.state_hash hash)) [
  | inl e ↦ rw (e, e, open_login) refl
  | inr e ↦ rw (e, e, open_login) (open_login-consume now now' hash rest)
]

prepare-metadata :
    (env : Provider) (settings : Settings) (now : ℕ) (state : String) (db : Db) (l : OidcLogin)
    (verifier : String)
    → prepare env settings now state db ≡ ok (l, verifier)
    → (found : Dict String) × (metadata env settings ≡ ok found)
unfolding prepare
prepare-metadata env settings now state db l verifier e =
    let (found, e1, _) = >>=-ok (metadata env settings) _ _ e in (found, e1)

-- A login whose transaction is consumed.
prepare-consumed :
    (env : Provider) (settings : Settings) (now : ℕ) (state : String) (db : Db)
    (found : Dict String)
    → metadata env settings ≡ ok found
    → open_login now (env.sha256 state) db.logins ≡ none
    → prepare env settings now state db ≡ err 401 "invalid_oidc_state"
unfolding prepare
prepare-consumed env settings now state db found e f = rw (e, f) refl

callback-consumed :
    (env : Provider) (settings : Settings) (now user_id session_id : ℕ) (raw code state : String)
    (db : Db) (found : Dict String)
    → metadata env settings ≡ ok found
    → open_login now (env.sha256 state) db.logins ≡ none
    → callback env settings now user_id session_id raw code state db
      ≡ (db, err 401 "invalid_oidc_state")
unfolding callback
callback-consumed env settings now user_id session_id raw code state db found e f =
    rw (prepare-consumed env settings now state db found e f, callback) refl

-- A callback fails and changes nothing, or consumes its transaction.
callback-logins :
    (env : Provider) (settings : Settings) (now user_id session_id : ℕ) (raw code state : String)
    (db : Db)
    → let done = callback env settings now user_id session_id raw code state db in
      ((status : ℕ) × (detail : String) × (done ≡ (db, err status detail)))
      ⊎ ((found : Dict String) × (metadata env settings ≡ ok found)
          × (done.0.logins ≡ consume now (env.sha256 state) db.logins))
unfolding callback
callback-logins env settings now user_id session_id raw code state db =
    let hash = env.sha256 state in
    elim (Result-cases (prepare env settings now state db)) [
      | inl (status, detail, e) ↦ inl (status, detail, rw (e, callback) refl)
      | inr ((l, verifier), e) ↦
          let (found, m) = prepare-metadata env settings now state db l verifier e in
          elim (Option-cases (env.exchange code verifier)) [
            | inl q ↦ inr (found, m, rw (e, q, callback) refl)
            | inr (tokens, q) ↦
                elim (Result-cases
                  (complete env settings now user_id session_id raw l tokens hash db)) [
                    | inl (status, detail, f) ↦ inl (status, detail, rw (e, q, f, callback) refl)
                    | inr ((db', to), f) ↦
                        let (s, us, same, _, _, _, _, _, _, _, _) =
                          complete_lem env settings now user_id session_id raw l tokens hash db db'
                            to f in
                        let used : db'.logins ≡ consume now hash db.logins =
                          ap (λ d. d.logins) same in
                        inr (found, m, rw (e, q, f, callback) used)
                  ]
          ]
    ]

-- A callback either fails and leaves the tables as they are, or uses the state up: whatever code
-- and time a later callback with the same state has, it fails with invalid_oidc_state and changes
-- nothing.
pub callback_once :
    (env : Provider) (settings : Settings) (now user_id session_id : ℕ) (raw code state : String)
    (db : Db) (now' user_id' session_id' : ℕ) (raw' code' : String)
    → let done = callback env settings now user_id session_id raw code state db in
      ((status : ℕ) × (detail : String) × (done ≡ (db, err status detail)))
      ⊎ (callback env settings now' user_id' session_id' raw' code' state done.0
          ≡ (done.0, err 401 "invalid_oidc_state"))
callback_once env settings now user_id session_id raw code state db now' user_id' session_id' raw'
      code' =
    let hash = env.sha256 state in
    let done = callback env settings now user_id session_id raw code state db in
    elim (callback-logins env settings now user_id session_id raw code state db) [
      | inl failed ↦ inl failed
      | inr (found, m, same) ↦ inr (
          callback-consumed env settings now' user_id' session_id' raw' code' state done.0 found m
            (ap (open_login now' hash) same ∙ open_login-consume now now' hash db.logins))
    ]

-- What admit gives: a new identity with the roles of its token, or a known active one.
data Admission (settings : Settings) (now user_id : ℕ) (issuer : String) (claims : Claims)
    (roles : List String) (workspace : String) (db : Db)
    : IdentityUser → List String → List IdentityUser → Type 0 where
  is_new :
      find_identity issuer claims.sub db.users ≡ none
      → Admission settings now user_id issuer claims roles workspace db
          (new_identity now user_id issuer claims roles workspace)
          roles
          (db.users ++ new_identity now user_id issuer claims roles workspace ∷ [])
  is_known :
      (u : IdentityUser)
      → find_identity issuer claims.sub db.users ≡ some u
      → u.active ≡ true
      → has_text workspace (provisioned_entitlements db u).1 ≡ true
      → Admission settings now user_id issuer claims roles workspace db u
          (restricted roles (provisioned_entitlements db u).0)
          db.users

-- The user is the known identity, or a new one that is added to the users.
abbrev pub IsIdentity :
    ℕ
    → ℕ
    → String
    → Claims
    → List String
    → String
    → List IdentityUser
    → IdentityUser
    → List IdentityUser
    → Type 0
IsIdentity now user_id issuer claims roles workspace users u users' =
    ((find_identity issuer claims.sub users ≡ some u) × (users' ≡ users))
    ⊎ ((find_identity issuer claims.sub users ≡ none)
        × (u ≡ new_identity now user_id issuer claims roles workspace)
        × (users' ≡ users ++ u ∷ []))

answer : Db × Result String → Result (Db × String)
answer (db, err status detail) = err status detail
answer (db, ok to) = ok (db, to)
