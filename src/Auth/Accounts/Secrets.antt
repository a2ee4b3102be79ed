-- ===== src/Auth/Accounts/Secrets.antt =====
-- src/modules/auth/auth.service.ts: the resets of the password and of the PIN, the change of the
-- secret, and the code for a reservation.
use msk_back.Base.{
  ℕ, String, Bool, true, false, not, ◌&&◌, ◌||◌, Option, none, some, [], ◌∷◌, ◌++◌, ltb, ◌==◌,
  if◌then◌else◌, or_else, length, find?, filter, any, delete_where,
}
use msk_back.Base.Action.{
  Action, pure, gets, or_throw, ◌>>=◌, ◌>>◌, throw_if, modify, bad_request, unauthorized,
  internal_error,
}
use msk_back.Base.Text.{is_blank, same_text, text_is}
use msk_back.Auth.Otp.{OtpCode, reset_pin, reset_password, reservation_enquiry}
use msk_back.Auth.Accounts.{
  Provider, Credential, Stay, AuthDb, Env, Fresh, user_at, write_user, new_credential,
  write_credential, send_code, consume_code, pin, password,
}
use msk_back.Auth.Accounts.Shapes.{text_length, looks_like_pin}
use msk_back.Auth.Accounts.SignIn.{linked_user, has_contact}

unfoldable pub request_password_reset : Env → Fresh → String → Action AuthDb Bool
request_password_reset env new email = do
  u ← gets (λ db. find? (λ u. text_is u.email email) db.users)
  elim u [ none ↦ pure true | some u ↦ send_code env new email reset_password (some u.id) ]

-- The database refuses a search by a missing id.
abbrev pub code_owner : OtpCode → Action AuthDb ℕ
code_owner c = or_throw c.user_id (internal_error "Argument `id` must not be null.")

unfoldable pub reset_password_with : Env → Fresh → String → String → String → Action AuthDb Bool
reset_password_with env new email code secret = do
  c ← consume_code env new email reset_password code
  user_id ← code_owner c
  u ← or_throw (← gets (user_at user_id)) (bad_request "User not found")
  write_credential env new u.id password (env.hash_of secret)
  pure true

unfoldable pub request_pin_reset : Env → Fresh → Option String → Option String → Action AuthDb Bool
request_pin_reset env new phone email = do
  u ← gets (λ db. find? (has_contact phone email) db.users)
  elim u [
    | none ↦ pure true
    | some u ↦ do
      destination ←
          or_throw (or_else phone email) (internal_error "Argument `destination` is missing.")
      send_code env new destination reset_pin (some u.id)
  ]

-- The credential's user must exist.
unfoldable pub reset_pin_with : Env → Fresh → String → String → String → Action AuthDb Bool
reset_pin_with env new destination code secret = do
  c ← consume_code env new destination reset_pin code
  user_id ← code_owner c
  or_throw (← gets (user_at user_id)) (internal_error "Foreign key constraint failed on `userId`")
  write_credential env new user_id pin (env.hash_of secret)
  pure true

abbrev pub provider_for : String → Provider
provider_for secret = if looks_like_pin secret then pin else password

-- The tests on a new password.
unfoldable pub check_new_secret : String → Action AuthDb (Unit {0})
check_new_secret secret = do
  throw_if (not (looks_like_pin secret) && ltb (text_length secret) 8)
      (bad_request "New password must be at least 8 characters.")
  throw_if (not (looks_like_pin secret) && ltb 200 (text_length secret))
      (bad_request "New password is too long (max 200 characters).")

abbrev pub has_user : ℕ → Credential → Bool
has_user user_id c = c.user_id == user_id

-- The transaction: every credential of the user goes, and one comes.
unfoldable pub replace_credentials : Env → Fresh → ℕ → String → Action AuthDb (Unit {0})
replace_credentials env new user_id secret = do
  modify (λ db. record db {
    credentials =
        delete_where (has_user user_id) db.credentials
        ++ new_credential env new user_id (provider_for secret) (env.hash_of secret) ∷ [];
  })
  write_user user_id (λ u. record u { auth_provider = provider_for secret })

unfoldable pub change_secret : Env → Fresh → ℕ → String → String → Action AuthDb Provider
change_secret env new user_id current secret = do
  throw_if (is_blank current || is_blank secret)
      (bad_request "Current and new secret are required.")
  throw_if (same_text current secret)
      (bad_request "New secret must be different from the current one.")
  mine ← gets (λ db. filter (has_user user_id) db.credentials)
  throw_if (length mine == 0) (bad_request "Account has no password set.")
  throw_if (not (any (λ c. env.matches c.secret_hash current) mine))
      (unauthorized "Invalid credentials")
  check_new_secret secret
  or_throw (← gets (user_at user_id)) (internal_error "Record to update not found.")
  replace_credentials env new user_id secret
  pure (provider_for secret)

-- `a?.toLowerCase() === b.toLowerCase()`
abbrev pub is_last_name : Env → Option String → String → Bool
is_last_name env a b = elim a [ none ↦ false | some a ↦ same_text (env.lower a) (env.lower b) ]

abbrev pub user_last_name : Stay → AuthDb → Option String
user_last_name stay db = elim (linked_user stay db) [ none ↦ none | some u ↦ u.last_name ]

unfoldable pub reservation_enquiry_for : Env → Fresh → String → String → Action AuthDb Bool
reservation_enquiry_for env new reference last_name = do
  stay ←
      or_throw (← gets (λ db. find? (λ s. same_text s.reference reference) db.stays))
        (bad_request "Reservation not found")
  other' ← gets (user_last_name stay)
  throw_if
      (not (is_last_name env stay.guest_last_name last_name || is_last_name env other' last_name))
      (bad_request "Reservation not found")
  destination ←
      or_throw (or_else stay.guest_email stay.guest_phone)
        (bad_request "No contact on file for reservation")
  throw_if (is_blank destination) (bad_request "No contact on file for reservation")
  send_code env new destination reservation_enquiry stay.guest_user_id
