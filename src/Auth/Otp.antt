-- ===== src/Auth/Otp.antt =====
-- src/modules/auth/otp.service.ts: `send`, `consume` and `verify`. `hash_of` and `matches` are
-- argon2's `hash` and `verify`; the emails are not modelled. Times are in milliseconds.
pub mod Consume
pub mod Guesses
use msk_back.Base.{
  ℕ, ◌+◌, ◌*◌, String, Bool, true, not, ◌&&◌, Option, none, some, List, [], ◌∷◌, ◌++◌, ltb, ◌==◌,
  if◌then◌else◌, is_some, find?, filter, update_where,
}
use msk_back.Base.Action.{
  ◌>>=◌, ◌>>◌, Action, pure, throw, gets, or_throw, ◌>>◌, modify, bad_request, internal_error,
}
use msk_back.Base.Text.{same_text}

pub data Purpose : Type 0 where
  sign_up login reset_pin reset_password verify_email verify_phone : Purpose
  reservation_enquiry checkout_sign_in : Purpose

pub record OtpCode : Type 0 where
  pub id : ℕ
  pub user_id : Option ℕ
  pub destination : String
  pub purpose : Purpose
  pub code_hash : String
  pub attempts : ℕ
  pub created_at : ℕ
  pub expires_at : ℕ
  pub consumed_at : Option ℕ

pub record Account : Type 0 where
  pub id : ℕ
  pub email_verified : Bool
  pub phone_verified : Bool

pub record OtpDb : Type 0 where
  pub codes : List OtpCode
  pub accounts : List Account

abbrev pub purpose_no : Purpose → ℕ
purpose_no sign_up = 0
purpose_no login = 1
purpose_no reset_pin = 2
purpose_no reset_password = 3
purpose_no verify_email = 4
purpose_no verify_phone = 5
purpose_no reservation_enquiry = 6
purpose_no checkout_sign_in = 7

abbrev pub same_purpose : Purpose → Purpose → Bool
same_purpose p q = purpose_no p == purpose_no q

-- The row that `send` inserts, which lives for `ttl` seconds.
unfoldable pub new_code :
    (String → String) → ℕ → ℕ → ℕ → Option ℕ → String → Purpose → String → OtpCode
new_code hash_of ttl now id user_id destination purpose code = record {
  id = id;
  user_id = user_id;
  destination = destination;
  purpose = purpose;
  code_hash = hash_of code;
  attempts = 0;
  created_at = now;
  expires_at = now + ttl * 1000;
  consumed_at = none;
}

unfoldable pub send :
    (String → String) → ℕ → ℕ → ℕ → Option ℕ → String → Purpose → String → Action OtpDb Bool
send hash_of ttl now id user_id destination purpose code = do
  modify (λ db. record db {
    codes = db.codes ++ new_code hash_of ttl now id user_id destination purpose code ∷ [];
  })
  pure true

-- The `where` of `consume`: not consumed, and it expires later than now.
unfoldable pub is_live : ℕ → String → Purpose → OtpCode → Bool
is_live now destination purpose c =
    same_text c.destination destination
    && same_purpose c.purpose purpose
    && not (is_some c.consumed_at)
    && ltb now c.expires_at

-- `orderBy: { createdAt: 'desc' }` and the first: the latest of the rows.
abbrev pub later : OtpCode → Option OtpCode → OtpCode
later c none = c
later c (some d) = if ltb c.created_at d.created_at then d else c

unfoldable pub latest : List OtpCode → Option OtpCode
latest [] = none
latest (c ∷ cs) = some (later c (latest cs))

abbrev pub count_attempt : ℕ → OtpCode → OtpCode
count_attempt attempts c = record c { attempts = attempts + 1 }

abbrev pub mark_consumed : ℕ → OtpCode → OtpCode
mark_consumed now c = record c { consumed_at = some now }

abbrev pub write_code : ℕ → (OtpCode → OtpCode) → Action OtpDb (Unit {0})
write_code id f = modify (λ db. record db { codes = update_where (λ c. c.id == id) f db.codes })

unfoldable pub consume :
    (String → String → Bool) → ℕ → String → Purpose → String → Action OtpDb OtpCode
consume matches now destination purpose code = do
  c ←
      or_throw (← gets (λ db. latest (filter (is_live now destination purpose) db.codes)))
        (bad_request "OTP invalid or expired")
  if matches c.code_hash code
      then (write_code c.id (mark_consumed now) >> pure c)
      else (write_code c.id (count_attempt c.attempts) >> throw (bad_request "OTP invalid"))

-- The column that a verified code sets, for the two purposes that have one.
abbrev pub verified : Purpose → Option (Account → Account)
verified verify_email = some (λ a. record a { email_verified = true })
verified verify_phone = some (λ a. record a { phone_verified = true })
verified _ = none

unfoldable pub set_verified : Purpose → Option ℕ → Action OtpDb (Unit {0})
set_verified purpose none = pure tt
set_verified purpose (some user_id) = elim (verified purpose) [
  | none ↦ pure tt
  | some f ↦ do
    or_throw (← gets (λ db. find? (λ a. a.id == user_id) db.accounts))
        (internal_error "Record to update not found.")
    modify (λ db. record db { accounts = update_where (λ a. a.id == user_id) f db.accounts })
]

unfoldable pub verify : (String → String → Bool) → ℕ → String → Purpose → String → Action OtpDb Bool
verify matches now destination purpose code = do
  c ← consume matches now destination purpose code
  set_verified purpose c.user_id
  pure true
