-- ===== src/Auth/Accounts/Returns/Registered.antt =====
-- The password of a registration of staff signs in.
use msk_back.Base.{
  ℕ, ◌≡◌, refl, sym, ◌∙◌, inl, inr, true, not, ◌&&◌, ◌||◌, Option, none, some, [], ◌∷◌, ◌++◌, arith,
  ==_refl, Bool-cases, Option-cases, any, find?-append,
}
use msk_back.Base.Action.{HttpError, Result-cases, ◌>>◌, bad_request, ok}
use msk_back.Base.Text.{is_blank, same_text, trim}
use msk_back.Auth.Tokens.{Issued, has_hash, new_token, issue}
use msk_back.Permissions.Catalog.{admin}
use msk_back.Permissions.{role_no, same_role}
use msk_back.Auth.Accounts.{
  User, Credential, AuthDb, Env, Fresh, is_credential, credential_of, new_credential, issue_for,
  password,
}
use msk_back.Auth.Accounts.Shapes.{looks_like_email}
use msk_back.Auth.Accounts.SignIn.{LoginEmail, is_named, find_login, login_with_email_app}
use msk_back.Auth.Accounts.SignUp.{clashes, create_user, create_company}
use msk_back.Auth.Accounts.Staff.{
  RegisterStaff, staff_email, staff_role, new_staff, business, connect_business, is_name_taken,
  is_registered, register_staff,
}
use msk_back.Bookings.Tables.{app}
use msk_back.Auth.Accounts.Returns.{HasFreshToken, login-ok}

-- An account that is made and gets its token.
abbrev Grown : Env → Fresh → User → Credential → AuthDb → AuthDb → Type 0
Grown env new u c before after =
    (after.users ≡ before.users ++ u ∷ [])
    × (after.credentials ≡ before.credentials ++ c ∷ [])
    × (after.tokens
        ≡ before.tokens
          ++ new_token env.token_hash env.token_days new.now new.token new.user_id ∷ [])

create_user-Grown :
    (env : Env) (new : Fresh) (e : HttpError) (u : User) (c : Credential) (db after : AuthDb)
    (i : Issued)
    → (create_user e u c >> issue_for env new new.user_id) db ≡ (ok i, after)
    → Grown env new u c db after
unfolding create_user issue
create_user-Grown env new e u c db after i h = elim (Bool-cases (any (clashes u) db.users)) [
  | inl taken ↦ ground arith
  | inr free ↦ elim (Bool-cases (any (has_hash (env.token_hash new.token.token)) db.tokens)) [
    | inl known ↦ ground arith
    | inr unknown ↦ ground arith
  ]
]

-- The three tables that a business leaves as they were.
abbrev SameAccounts : AuthDb → AuthDb → Type 0
SameAccounts before after =
    (after.users ≡ before.users)
    × (after.credentials ≡ before.credentials)
    × (after.tokens ≡ before.tokens)

connect_business-SameAccounts :
    (env : Env) (new : Fresh) (sub : RegisterStaff) (db : AuthDb)
    → SameAccounts db (connect_business env new sub db).1
unfolding connect_business create_company
connect_business-SameAccounts env new sub db = elim (Option-cases sub.business_name) [
  | inl missing ↦ ground arith
  | inr (n, named) ↦
      elim (Bool-cases (same_role (staff_role sub) admin && not (is_blank (trim n)))) [
        | inr plain ↦ ground arith
        | inl owner ↦
            elim (Bool-cases
              (any (λ d. same_text d.slug (business env new sub n).slug) db.companies)) [
                | inl taken ↦ ground arith
                | inr free ↦ ground arith
              ]
      ]
]

register_staff-Grown :
    (env : Env) (new : Fresh) (sub : RegisterStaff) (db after : AuthDb) (i : Issued)
    → register_staff env new sub db ≡ (ok i, after)
    → (company_id : Option ℕ) × Grown env new
        (new_staff env new sub company_id)
        (new_credential env new new.user_id password (env.hash_of sub.password))
        db
        after
unfolding register_staff
register_staff-Grown env new sub db after i h =
    elim (Bool-cases (any (is_registered env sub) db.users || is_name_taken sub db)) [
      | inl known ↦ ground arith
      | inr unknown ↦ elim (Result-cases (connect_business env new sub db).0) [
        | inl (e, refused) ↦ ground arith
        | inr (company_id, connected) ↦
            let u : User = new_staff env new sub company_id in
            let c : Credential =
              new_credential env new new.user_id password (env.hash_of sub.password) in
            let same : register_staff env new sub db
                ≡ (create_user (bad_request "Email or phone already in use.") u c
                      >> issue_for env new new.user_id)
                    (connect_business env new sub db).1 =
              ground arith in
            let grown : Grown env new u c (connect_business env new sub db).1 after =
              create_user-Grown env new _ u c (connect_business env new sub db).1 after i
                (sym same ∙ h) in
            let kept : SameAccounts db (connect_business env new sub db).1 =
              connect_business-SameAccounts env new sub db in
            (company_id, ground arith)
      ]
    ]

-- The sign-in that the client of a registration makes afterwards.
abbrev pub staff_login : RegisterStaff → LoginEmail
staff_login sub = record {
  email = sub.email;
  password = sub.password;
  role = some (staff_role sub);
}

-- A registration of staff whose email looks like one, and under which, in its role, no account is
-- found, is followed by a sign-in to the app with the same email, password and role: it succeeds with
-- the id of the new account and the random token of the sign-in. It is assumed that argon2 verifies
-- what it hashed, that the email in lower case equals the email without regard to case, that no
-- credential has the new id, and that the token is none that is stored.
pub login_with_email_app-register_staff :
    (env : Env) (new new' : Fresh) (sub : RegisterStaff) (db after : AuthDb) (i : Issued)
    → register_staff env new sub db ≡ (ok i, after)
    → looks_like_email (trim sub.email) ≡ true
    → find_login env (staff_login sub) db ≡ none
    → credential_of new.user_id password db.credentials ≡ none
    → env.matches (env.hash_of sub.password) sub.password ≡ true
    → env.same_uncased (staff_email env sub) (trim sub.email) ≡ true
    → HasFreshToken env new' after
    → (login_with_email_app env new' (staff_login sub) after).0
      ≡ ok (record { user_id = new.user_id; refresh_token = new'.token.token })
unfolding find_login credential_of new_staff
login_with_email_app-register_staff env new new' sub db after i h looks absent bare verifies lowered
      free =
    let (company_id, grown) = register_staff-Grown env new sub db after i h in
    let u : User = new_staff env new sub company_id in
    let c : Credential = new_credential env new new.user_id password (env.hash_of sub.password) in
    let found : find_login env (staff_login sub) after ≡ some u = ground (
      arith,
      find?-append (λ x. is_named env (trim sub.email) x && same_role x.role (staff_role sub))
          db.users (u ∷ []),
      ==_refl (role_no (staff_role sub)),
    ) in
    let has : credential_of u.id password after.credentials ≡ some c = ground (
      arith,
      find?-append (is_credential new.user_id password) db.credentials (c ∷ []),
      ==_refl new.user_id,
    ) in
    login-ok env new' (staff_login sub) app after u c found refl refl has verifies free
