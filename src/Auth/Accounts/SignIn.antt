-- ===== src/Auth/Accounts/SignIn.antt =====
-- src/modules/auth/auth.service.ts: the sign-ins, by a code sent to the inbox, by the code of a
-- check-in, by password and by PIN.
use msk_back.Base.{
  String, Bool, true, false, not, ◌&&◌, ◌||◌, Option, none, some, if◌then◌else◌, get_or, find?,
}
use msk_back.Base.Action.{Action, pure, throw, gets, or_throw, ◌>>=◌, ◌>>◌, throw_if, unauthorized}
use msk_back.Base.Text.{is_blank, is_filled, text_is, trim}
use msk_back.Auth.Otp.{login}
use msk_back.Auth.Tokens.{Issued}
use msk_back.Permissions.Catalog.{Role, web_guest}
use msk_back.Permissions.{same_role}
use msk_back.Auth.Accounts.{
  Provider, same_kind, User, Stay, AuthDb, Env, Fresh, user_at, write_user, credential_of,
  send_code, consume_code, issue_for, seen_at, password, pin,
}
use msk_back.Auth.Accounts.Shapes.{looks_like_email}
use msk_back.Bookings.Tables.{AccountKind, Status, pending, confirmed, checked_in, platform, app}

abbrev pub has_uncased : Env → String → User → Bool
has_uncased env email u = elim u.email [ none ↦ false | some e ↦ env.same_uncased e email ]

abbrev pub is_guest : User → Bool
is_guest u = same_role u.role web_guest

abbrev pub guest_by_email : Env → String → AuthDb → Option User
guest_by_email env email db = find? (λ u. has_uncased env (trim email) u && is_guest u) db.users

unfoldable pub request_login_otp : Env → Fresh → String → Action AuthDb Bool
request_login_otp env new email = do
  u ← gets (guest_by_email env email)
  elim u [
    | none ↦ pure true
    | some u ↦ elim u.email [
      | none ↦ pure true
      | some e ↦
          if u.is_active && not (is_blank e)
          then send_code env new e login (some u.id)
          else pure true
    ]
  ]

-- What the account of a sign-in by a code must be.
unfoldable pub admit_guest : Env → Fresh → Option User → Action AuthDb Issued
admit_guest env new none = throw (unauthorized "No guest account is registered with this email.")
admit_guest env new (some u) = do
  throw_if (not u.is_active || not (is_filled u.email))
      (unauthorized "No guest account is registered with this email.")
  throw_if (not (same_kind u.account_kind app)) (unauthorized "Invalid credentials")
  write_user u.id (λ x. record x { last_login_at = some new.now; email_verified = true })
  issue_for env new u.id

-- `user?.email ?? email.trim()`
abbrev pub destination_of : String → Option User → String
destination_of email u = elim u [ none ↦ trim email | some u ↦ get_or u.email (trim email) ]

unfoldable pub login_with_otp : Env → Fresh → String → String → Action AuthDb Issued
login_with_otp env new email code = do
  u ← gets (guest_by_email env email)
  consume_code env new (destination_of email u) login code
  admit_guest env new u

abbrev pub signs_in : Status → Bool
signs_in pending = true
signs_in confirmed = true
signs_in checked_in = true
signs_in _ = false

abbrev pub linked_user : Stay → AuthDb → Option User
linked_user stay db = elim stay.guest_user_id [ none ↦ none | some id ↦ user_at id db ]

unfoldable pub login_with_check_in_code : Env → Fresh → String → Action AuthDb Issued
login_with_check_in_code env new code = do
  stay ←
      or_throw
        (← gets (λ db. find? (λ s. text_is s.check_in_code (env.upper (trim code))) db.stays))
        (unauthorized "Invalid code")
  throw_if (not (signs_in stay.status)) (unauthorized "Invalid code")
  u ←
      or_throw (← gets (linked_user stay))
        (unauthorized "This code is not linked to an account yet. Sign up to continue.")
  throw_if (not u.is_active) (unauthorized "Invalid code")
  throw_if (not (same_kind u.account_kind app)) (unauthorized "Invalid code")
  write_user u.id (seen_at new.now)
  issue_for env new u.id

pub record LoginEmail : Type 0 where
  pub email : String
  pub password : String
  pub role : Option Role

-- The role that the client chose, where it chose one.
abbrev pub in_role : Option Role → User → Bool
in_role none u = true
in_role (some r) u = same_role u.role r

abbrev pub is_named : Env → String → User → Bool
is_named env identifier u =
    if looks_like_email identifier
    then has_uncased env identifier u
    else text_is u.metadata.username identifier

unfoldable pub find_login : Env → LoginEmail → AuthDb → Option User
find_login env sub db = find? (λ u. is_named env (trim sub.email) u && in_role sub.role u) db.users

-- `user.credentials.find` and `argon2.verify`, and the token for the account.
unfoldable pub check_secret : Env → Fresh → Provider → String → User → Action AuthDb Issued
check_secret env new provider secret u = do
  c ←
      or_throw (← gets (λ db. credential_of u.id provider db.credentials))
        (unauthorized "Invalid credentials")
  throw_if (not (env.matches c.secret_hash secret)) (unauthorized "Invalid credentials")
  write_user u.id (seen_at new.now)
  issue_for env new u.id

unfoldable pub login_with_email_for_kind :
    Env → Fresh → LoginEmail → AccountKind → Action AuthDb Issued
login_with_email_for_kind env new sub kind = do
  u ← or_throw (← gets (find_login env sub)) (unauthorized "Invalid credentials")
  throw_if (not u.is_active) (unauthorized "Invalid credentials")
  throw_if (not (same_kind u.account_kind kind)) (unauthorized "Invalid credentials")
  check_secret env new password sub.password u

abbrev pub login_with_email : Env → Fresh → LoginEmail → Action AuthDb Issued
login_with_email env new sub = login_with_email_for_kind env new sub platform

abbrev pub login_with_email_app : Env → Fresh → LoginEmail → Action AuthDb Issued
login_with_email_app env new sub = login_with_email_for_kind env new sub app

pub record LoginPin : Type 0 where
  pub phone : Option String
  pub email : Option String
  pub pin : String

-- `where: phone ? { phone } : { email }`. A field that is not sent restricts nothing.
abbrev pub has_field : Option String → Option String → Bool
has_field column none = true
has_field column (some s) = text_is column s

abbrev pub has_contact : Option String → Option String → User → Bool
has_contact phone email u =
    if is_filled phone then has_field u.phone phone else has_field u.email email

unfoldable pub login_with_pin : Env → Fresh → LoginPin → Action AuthDb Issued
login_with_pin env new sub = do
  u ←
      or_throw (← gets (λ db. find? (has_contact sub.phone sub.email) db.users))
        (unauthorized "Invalid credentials")
  throw_if (not u.is_active) (unauthorized "Invalid credentials")
  check_secret env new pin sub.pin u
