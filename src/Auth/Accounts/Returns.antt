-- ===== src/Auth/Accounts/Returns.antt =====
-- A password that was just set by a reset signs in.
pub mod Registered
use msk_back.Base.{
  ℕ, String, ◌≡◌, refl, inl, inr, true, false, some, List, [], ◌∷◌, arith, ==_refl, Option-cases,
  any, find?_sound, find?-update_where, find?-append,
}
use msk_back.Base.Action.{ok}
use msk_back.Auth.Otp.{OtpCode, reset_password}
use msk_back.Auth.Tokens.{has_hash, issue}
use msk_back.Auth.Accounts.{
  Provider, provider_no, same_kind, User, Credential, AuthDb, Env, Fresh, user_at, is_credential,
  credential_of, new_credential, set_hash, upsert_credential, write_credential, consume_code,
  password,
}
use msk_back.Auth.Accounts.SignIn.{LoginEmail, find_login, check_secret, login_with_email_for_kind}
use msk_back.Auth.Accounts.Secrets.{reset_password_with}
use msk_back.Bookings.Tables.{AccountKind, platform, app}

-- The credential that an upsert leaves has the hash that was sent.
upserted :
    (env : Env) (new : Fresh) (user_id : ℕ) (provider : Provider) (hash : String)
    (cs : List Credential)
    → (c : Credential) × (credential_of user_id provider
          (upsert_credential env new user_id provider hash cs)
        ≡ some c)
      × (c.secret_hash ≡ hash)
unfolding credential_of upsert_credential
upserted env new user_id provider hash cs =
    elim (Option-cases (credential_of user_id provider cs)) [
      | inl missing ↦ (
        new_credential env new user_id provider hash,
        ground (
          arith,
          ==_refl user_id,
          ==_refl (provider_no provider),
          find?-append (is_credential user_id provider) cs
              (new_credential env new user_id provider hash ∷ []),
        ),
        refl,
      )
      | inr (c, found) ↦ (
        set_hash hash c,
        ground (
          arith,
          find?_sound (is_credential user_id provider) cs c found,
          find?-update_where (is_credential user_id provider) (is_credential user_id provider)
              (set_hash hash) cs (λ x. refl),
        ),
        refl,
      )
    ]

-- The token of the request is not in the table.
abbrev pub HasFreshToken : Env → Fresh → AuthDb → Type 0
HasFreshToken env new db = any (has_hash (env.token_hash new.token.token)) db.tokens ≡ false

check_secret-ok :
    (env : Env) (new : Fresh) (provider : Provider) (secret : String) (u : User) (db : AuthDb)
    (c : Credential)
    → credential_of u.id provider db.credentials ≡ some c
    → env.matches c.secret_hash secret ≡ true
    → HasFreshToken env new db
    → (check_secret env new provider secret u db).0
      ≡ ok (record { user_id = u.id; refresh_token = new.token.token })
unfolding check_secret issue
check_secret-ok env new provider secret u db c found right free = ground arith

pub login-ok :
    (env : Env) (new : Fresh) (sub : LoginEmail) (kind : AccountKind) (db : AuthDb) (u : User)
    (c : Credential)
    → find_login env sub db ≡ some u
    → u.is_active ≡ true
    → same_kind u.account_kind kind ≡ true
    → credential_of u.id password db.credentials ≡ some c
    → env.matches c.secret_hash sub.password ≡ true
    → HasFreshToken env new db
    → (login_with_email_for_kind env new sub kind db).0
      ≡ ok (record { user_id = u.id; refresh_token = new.token.token })
unfolding login_with_email_for_kind
login-ok env new sub kind db u c found active lane has right free =
    ground (arith, check_secret-ok env new password sub.password u db c has right free)

pub same_kind_refl : (k : AccountKind) → same_kind k k ≡ true
same_kind_refl platform = refl
same_kind_refl app = refl

reset_password_with-after :
    (env : Env) (new : Fresh) (email code secret : String) (db : AuthDb) (used : OtpCode) (u : User)
    → (consume_code env new email reset_password code db).0 ≡ ok used
    → used.user_id ≡ some u.id
    → user_at u.id db ≡ some u
    → (reset_password_with env new email code secret db).1
      ≡ (write_credential env new u.id password
          (env.hash_of secret)
          (consume_code env new email reset_password code db).1).1
unfolding reset_password_with
reset_password_with-after env new email code secret db used u accepted owner there = ground arith

-- Let `email` have a live code for a reset that the database gives to the account `u`, which is
-- active. After the reset with that code, the new password signs the account in, on the lane that is
-- its own, under any name that finds it; argon2 must verify what it hashed, and the random token of
-- the sign-in must be new. The answer has the account's id and that token.
pub login_with_email_for_kind-reset_password_with :
    (env : Env) (new new' : Fresh) (email code : String) (sub : LoginEmail) (db : AuthDb)
    (used : OtpCode) (u : User)
    → (consume_code env new email reset_password code db).0 ≡ ok used
    → used.user_id ≡ some u.id
    → user_at u.id db ≡ some u
    → find_login env sub db ≡ some u
    → u.is_active ≡ true
    → env.matches (env.hash_of sub.password) sub.password ≡ true
    → HasFreshToken env new' db
    → (login_with_email_for_kind env new' sub u.account_kind
        (reset_password_with env new email code sub.password db).1).0
      ≡ ok (record { user_id = u.id; refresh_token = new'.token.token })
unfolding find_login
login_with_email_for_kind-reset_password_with env new new' email code sub db used u accepted owner
      there found active verifies free =
    let (c, has, hash) = upserted env new u.id password (env.hash_of sub.password) db.credentials in
    let lane : same_kind u.account_kind u.account_kind ≡ true = same_kind_refl u.account_kind in
    rw (reset_password_with-after env new email code sub.password db used u accepted owner there)
      (login-ok env new' sub u.account_kind _ u c found active lane has (rw hash verifies) free)
