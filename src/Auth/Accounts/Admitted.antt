-- ===== src/Auth/Accounts/Admitted.antt =====
-- Who gets a token at a sign-in.
pub mod Guests
use msk_back.Base.{
  ℕ, String, ◌≡◌, sym, subst, inl, inr, Bool, true, ◌&&◌, some, arith, ◌==◌, ==_refl, Bool-cases,
  Option-cases, find?, any, any-find?, any-update_where,
}
use msk_back.Base.Action.{Result, Action, ◌>>◌, ok}
use msk_back.Base.Text.{text_is, trim}
use msk_back.Auth.Tokens.{Issued, has_hash, issue}
use msk_back.Auth.Accounts.{
  Provider, same_kind, User, AuthDb, Env, Fresh, write_user, credential_of, issue_for, seen_at, pin,
  password,
}
use msk_back.Auth.Accounts.SignIn.{
  is_guest, login_with_otp, signs_in, linked_user, login_with_check_in_code, LoginEmail, find_login,
  check_secret, login_with_email_for_kind, LoginPin, has_contact, login_with_pin,
}
use msk_back.Auth.Accounts.Oauth.{OauthProvider, Identity, login_with_oauth}
use msk_back.Bookings.Tables.{AccountKind, app}

-- The five ways to sign in.
pub data SignIn : Type 0 where
  by_otp : String → String → SignIn
  by_check_in_code : String → SignIn
  by_password : LoginEmail → AccountKind → SignIn
  by_pin : LoginPin → SignIn
  by_oauth : OauthProvider → Identity → SignIn

unfoldable pub sign_in : Env → Fresh → SignIn → Action AuthDb Issued
sign_in env new (by_otp email code) = login_with_otp env new email code
sign_in env new (by_check_in_code code) = login_with_check_in_code env new code
sign_in env new (by_password sub kind) = login_with_email_for_kind env new sub kind
sign_in env new (by_pin sub) = login_with_pin env new sub
sign_in env new (by_oauth provider who) = login_with_oauth env new provider who

-- The lane of a way to sign in. The PIN has none.
unfoldable pub fits : SignIn → User → Bool
fits (by_password sub kind) u = same_kind u.account_kind kind
fits (by_pin sub) u = true
fits (by_otp _ _) u = same_kind u.account_kind app && is_guest u
fits (by_oauth _ _) u = same_kind u.account_kind app && is_guest u
fits (by_check_in_code _) u = same_kind u.account_kind app

abbrev pub admits : SignIn → ℕ → User → Bool
admits how id u = u.id == id && (u.is_active && fits how u)

pub issue_for-user :
    (env : Env) (new : Fresh) (id : ℕ) (db : AuthDb) (i : Issued)
    → (issue_for env new id db).0 ≡ ok i
    → i.user_id ≡ id
unfolding issue
issue_for-user env new id db i h =
    elim (Bool-cases (any (has_hash (env.token_hash new.token.token)) db.tokens)) [
      | inl taken ↦ ground arith
      | inr free ↦ ground arith
    ]

-- A write of a row that keeps what is asked of it, and the token after it.
pub admitted :
    (env : Env) (new : Fresh) (p : User → Bool) (u : User) (f : User → User) (db : AuthDb)
    (i : Issued)
    → find? p db.users ≡ some u
    → (q : ℕ → User → Bool) → q u.id u ≡ true
    → ((x : User) → q u.id x ≡ true → q u.id (f x) ≡ true)
    → ((write_user u.id f >> issue_for env new u.id) db).0 ≡ ok i
    → any (q i.user_id) ((write_user u.id f >> issue_for env new u.id) db).1.users ≡ true
admitted env new p u f db i found q holds keep h =
    let same : i.user_id ≡ u.id = issue_for-user env new u.id (write_user u.id f db).1 i h in
    rw same (
      any-update_where (λ x. x.id == u.id) (q u.id) f db.users keep
        (any-find? p (q u.id) db.users u found holds))

-- A credential that was checked.
pub check_secret-admitted :
    (env : Env) (new : Fresh) (provider : Provider) (secret : String) (p : User → Bool) (u : User)
    (db : AuthDb) (i : Issued)
    → find? p db.users ≡ some u
    → (q : ℕ → User → Bool) → q u.id u ≡ true
    → ((x : User) → q u.id x ≡ true → q u.id (seen_at new.now x) ≡ true)
    → (check_secret env new provider secret u db).0 ≡ ok i
    → any (q i.user_id) (check_secret env new provider secret u db).1.users ≡ true
unfolding check_secret
check_secret-admitted env new provider secret p u db i found q holds keep h =
    elim (Option-cases (credential_of u.id provider db.credentials)) [
      | inl missing ↦ ground arith
      | inr (c, has) ↦ elim (Bool-cases (env.matches c.secret_hash secret)) [
        | inr wrong ↦ ground arith
        | inl right ↦
            rw (has, right)
              (admitted env new p u (seen_at new.now) db i found q holds keep
                (rw (has, right) at h))
      ]
    ]

-- What an accepted request leaves: an active account of the lane, with the id of the token.
abbrev pub Leaves : SignIn → Result Issued × AuthDb → Type 0
Leaves how out = (i : Issued) → out.0 ≡ ok i → any (admits how i.user_id) out.1.users ≡ true

abbrev pub Admits : Env → Fresh → SignIn → AuthDb → Type 0
Admits env new how db = Leaves how (sign_in env new how db)

pub by_password-Admits :
    (env : Env) (new : Fresh) (sub : LoginEmail) (kind : AccountKind) (db : AuthDb)
    → Admits env new (by_password sub kind) db
unfolding sign_in fits login_with_email_for_kind find_login
by_password-Admits env new sub kind db = elim (Option-cases (find_login env sub db)) [
  | inl missing ↦ (λ i h. ground arith)
  | inr (u, found) ↦ elim (Bool-cases (u.is_active && same_kind u.account_kind kind)) [
    | inr out ↦ (λ i h. ground arith)
    | inl lane ↦
        let same : sign_in env new (by_password sub kind) db
            ≡ check_secret env new password sub.password u db =
          ground arith in
        subst (Leaves (by_password sub kind)) (sym same) (λ i h.
          check_secret-admitted env new password sub.password _ u db i found
            (admits (by_password sub kind)) (ground (arith, ==_refl u.id)) (λ x k. k) h)
  ]
]

pub by_pin-Admits :
    (env : Env) (new : Fresh) (sub : LoginPin) (db : AuthDb) → Admits env new (by_pin sub) db
unfolding sign_in fits login_with_pin
by_pin-Admits env new sub db =
    elim (Option-cases (find? (has_contact sub.phone sub.email) db.users)) [
      | inl missing ↦ (λ i h. ground arith)
      | inr (u, found) ↦ elim (Bool-cases u.is_active) [
        | inr inactive ↦ (λ i h. ground arith)
        | inl active ↦
            let same : sign_in env new (by_pin sub) db ≡ check_secret env new pin sub.pin u db =
              ground arith in
            subst (Leaves (by_pin sub)) (sym same) (λ i h.
              check_secret-admitted env new pin sub.pin _ u db i found (admits (by_pin sub))
                (ground (arith, ==_refl u.id)) (λ x k. k) h)
      ]
    ]

pub by_check_in_code-Admits :
    (env : Env) (new : Fresh) (code : String) (db : AuthDb)
    → Admits env new (by_check_in_code code) db
unfolding sign_in fits login_with_check_in_code
by_check_in_code-Admits env new code db =
    elim (Option-cases (find? (λ s. text_is s.check_in_code (env.upper (trim code))) db.stays)) [
      | inl missing ↦ (λ i h. ground arith)
      | inr (stay, there) ↦ elim (Option-cases (linked_user stay db)) [
        | inl unlinked ↦ (λ i h. ground arith)
        | inr (u, linked) ↦
            elim (Bool-cases
              (signs_in stay.status && (u.is_active && same_kind u.account_kind app))) [
                | inr out ↦ (λ i h. ground arith)
                | inl lane ↦
                    let same : sign_in env new (by_check_in_code code) db
                        ≡ (write_user u.id (seen_at new.now) >> issue_for env new u.id) db =
                      ground arith in
                    subst (Leaves (by_check_in_code code)) (sym same)
                      (elim (Option-cases stay.guest_user_id) [
                        | inl anonymous ↦ ground arith
                        | inr (id, linked_id) ↦
                            let found : find? (λ x. x.id == id) db.users ≡ some u = ground arith in
                            (λ i h.
                              admitted env new _ u (seen_at new.now) db i found
                                (admits (by_check_in_code code)) (ground (arith, ==_refl u.id))
                                (λ x k. k) h)
                      ])
              ]
      ]
    ]
